-- ===== src/Padding/Sizes.antt =====
-- How much padding `default_psp_pad_algo` of Padding_Algorithms.cpp chooses, whatever the options.
use dionysius.Common.{
  true, ap, ◌∙◌, ℕ, ◌+◌, ◌≤◌, Bool-cases, inl, inr, ltb, ◌==◌, ◌||◌, ℤ, pos, to_nat, magnitude,
  sub_ℕ, ◌≡◌, refl, arith,
}
use dionysius.World.{World, pure, modify, srpp_rand}
use dionysius.World.Returns.{Returns, Returns-bind, Returns-gets, Returns-then, srpp_rand-returns}
use dionysius.Transport.{Library}
use dionysius.Padding.Algorithms.{ascend, bandwidth_size, ascent_size, small_size, extra_size}

-- What the choice of a size leaves alone, from the state `v` on: the key, the cache, and the options
-- of the small perturbation and the burst padding.
abbrev pub Calm : World → World → Type 0
Calm v w =
    (w.session.encryption_key ≡ v.session.encryption_key)
    × (w.padding.dummy_cache ≡ v.padding.dummy_cache)
    × (w.padding.is_small_perturbation ≡ v.padding.is_small_perturbation)
    × (w.padding.is_burst_padding ≡ v.padding.is_burst_padding)

-- The options under which few bytes are added.
abbrev pub IsSmall : World → Type 0
IsSmall w = (w.padding.is_small_perturbation == 1 || w.padding.is_burst_padding == 1) ≡ true

module _ (lib : Library) (v : World) where
  draw :
      (low : ℕ) (limit : ℤ) (w : World)
      → Calm v w
      → Returns (srpp_rand low limit w) (λ n u. Calm v u × (n ≤ low + magnitude limit))
  draw = srpp_rand-returns (Calm v) (λ w f h. h)

  ascend-returns : (n : ℕ) (w : World) → Calm v w → Returns (ascend lib n w) (λ _ u. Calm v u)
  unfolding ascend pure modify
  ascend-returns n w h = Returns-gets _ _ (elim (Bool-cases (ltb w.padding.lastmaxbandwidth n)) [
    | inl up ↦ rw up (
        Returns-bind _ (srpp_rand n (pos 1366)) _ (draw n (pos 1366) w h) (λ l u k.
          Returns-bind _ (srpp_rand l (pos 1366)) _ (draw l (pos 1366) u k.0)
            (λ m x q. (tt, _, refl, q.0))))
    | inr stay ↦ rw stay (tt, w, refl, h)
  ])

  module _ (n : ℕ) where
    bandwidth_size-returns :
        (w : World) → Calm v w → Returns (bandwidth_size lib n w) (λ _ u. Calm v u)
    unfolding bandwidth_size pure
    bandwidth_size-returns w h =
        Returns-gets _ _ (elim (Bool-cases (w.padding.is_full_bandwidth == 0)) [
          | inl none ↦ rw none (
              Returns-bind _ (srpp_rand 1 (sub_ℕ 1366 n)) _ (draw 1 (sub_ℕ 1366 n) w h)
                (λ k u q. (pos k, u, refl, q.0)))
          | inr full ↦ rw full (sub_ℕ 1366 n, w, refl, h)
        ])

    ascent_size-returns :
        (extra : ℤ) (w : World) → Calm v w → Returns (ascent_size lib n extra w) (λ _ u. Calm v u)
    unfolding ascent_size pure
    ascent_size-returns extra w h =
        Returns-gets _ _ (elim (Bool-cases (w.padding.gradual_ascent_bandwidth == 1)) [
          | inl gradual ↦ rw gradual (
              Returns-then (Calm v) (ascend lib n) _ (ascend-returns n w h) (λ u k.
                Returns-gets _ _ (
                  let room = sub_ℕ u.padding.lastmaxbandwidth n in
                  Returns-bind _ (srpp_rand 1 room) _ (draw 1 room u k)
                    (λ m x q. (pos m, x, refl, q.0)))))
          | inr off ↦ rw off (extra, w, refl, h)
        ])

    small_size-returns :
        (extra : ℤ) (w : World)
        → IsSmall v
        → Calm v w
        → Returns (small_size lib extra w) (λ size u. Calm v u × (to_nat size ≤ 10))
    unfolding small_size pure
    small_size-returns extra w small h = Returns-gets _ _ (
        rw
          (ap (λ k. k == 1 || w.padding.is_burst_padding == 1) h.2
            ∙ ap (λ k. v.padding.is_small_perturbation == 1 || k == 1) h.3
            ∙ small)
          (Returns-bind _ (srpp_rand 0 (pos 10)) _ (draw 0 (pos 10) w h)
            (λ k u q. (pos k, u, refl, (q.0, omega (arith, q.1))))))

    -- Whatever the other options choose, the size is small.
    pub extra_size-returns :
        (w : World)
        → IsSmall v
        → Calm v w
        → Returns (extra_size lib n w) (λ extra u. Calm v u × (to_nat extra ≤ 10))
    unfolding extra_size
    extra_size-returns w small h =
        Returns-bind (λ _ u. Calm v u) (bandwidth_size lib n) _ (bandwidth_size-returns w h)
          (λ room u k.
            Returns-bind (λ _ x. Calm v x) (ascent_size lib n room) _ (ascent_size-returns room u k)
              (λ ascent x q. small_size-returns ascent x small q))
