-- ===== src/Padding/Padded.antt =====
-- What `PaddingFunctions::pad` of Padding_functions.cpp makes of a message, under the options that add few bytes.
use dionysius.Common.{
  ◌==◌, ◌||◌, ◌∙◌, ℕ, ◌-◌, ◌<◌, ◌≤◌, ◌+◌, List, length, length-append, length-set, All, some, ap,
  Bool-cases, inl, inr, leb, ℤ, pos, magnitude, ◌≡◌, refl, arith,
}
use dionysius.Machine.{to_unsigned}
use dionysius.Message.{SrppMessage, IsByte}
use dionysius.World.{World, pure, modify, srpp_rand, reset_packet_timer, reset_silence_timer}
use dionysius.World.Draws.{srpp_rand_lem}
use dionysius.World.Returns.{Returns, Returns-bind, Returns-then, Returns-modify, srpp_rand-returns}
use dionysius.Transport.{Library}
use dionysius.Padding.Cache.{
  with_dummy_flag, random_chars, scramble, set_dummy, add_to_dummy_cache, generate_dummy_data,
}
use dionysius.Padding.Draws.{random_chars-returns, scramble-returns}
use dionysius.Padding.Filled.{IsFilled-set}
use dionysius.Padding.Filling.{IsFilled, IsFilled-Draws, generate_dummy_data_lem}
use dionysius.Padding.Sizes.{Calm, IsSmall, extra_size-returns}
use dionysius.Padding.Algorithms.{extra_size, default_psp_pad_algo, pad}

-- The key of the state `v`, an array of 100 dummies that is filled, and an option that adds few bytes.
abbrev pub IsReady : World → World → Type 0
IsReady v w =
    (w.session.encryption_key ≡ v.session.encryption_key)
    × (length w.padding.dummy_cache ≡ 100)
    × IsFilled w.padding.dummy_cache
    × IsSmall w

abbrev with_padding : List ℕ → ℕ → SrppMessage → SrppMessage
with_padding padding count msg = record msg {
  encrypted_part = record msg.encrypted_part { srpp_padding = padding; pad_count = count };
}

-- A padded message: the padding and its count are new, and the dummy flag is 0.
abbrev pub IsPadded : SrppMessage → SrppMessage → Type 0
IsPadded msg out =
    (padding : List ℕ) × (count : ℕ) × (out ≡ with_dummy_flag 0 (with_padding padding count msg))
    × All IsByte padding
    × (length padding ≤ 10)

module _ (v : World) where
  draw :
      (low : ℕ) (limit : ℤ) (w : World)
      → IsReady v w
      → Returns (srpp_rand low limit w) (λ n u. IsReady v u × (n ≤ low + magnitude limit))
  draw = srpp_rand-returns (IsReady v) (λ w f h. h)

  -- The size of the new entry, at least 1.
  draw_size :
      (w : World)
      → IsReady v w
      → Returns (srpp_rand 1 (pos 500) w) (λ size u. IsReady v u × (0 < size))
  draw_size w h = (_, _, srpp_rand_lem 1 (pos 500) w refl, (h, omega arith))

  -- The cache takes an altered copy of a message, which has a payload.
  add_to_dummy_cache-returns :
      (msg : SrppMessage) (w : World)
      → IsReady v w
      → Returns (add_to_dummy_cache msg w) (λ _ u. IsReady v u)
  unfolding add_to_dummy_cache set_dummy modify
  add_to_dummy_cache-returns msg w h =
      Returns-bind _ (srpp_rand 0 (pos 99)) _ (draw 0 (pos 99) w h) (λ index u k.
        Returns-bind (λ size x. IsReady v x × (0 < size)) (srpp_rand 1 (pos 500)) _
          (draw_size u k.0)
          (λ size x q.
            Returns-bind _ (scramble msg.encrypted_part.original_payload) _
              (scramble-returns (IsReady v) (λ _ f e. e) msg.encrypted_part.original_payload x q.0)
              (λ payload y r.
                Returns-bind _ (random_chars (size - length payload)) _
                  (random_chars-returns (IsReady v) (λ _ f e. e) (size - length payload) y r.0)
                  (λ more z s. (
                    tt,
                    _,
                    refl,
                    (
                      s.0.0,
                      length-set z.padding.dummy_cache index _ ∙ s.0.1,
                      IsFilled-set z.padding.dummy_cache index _ s.0.2
                          (omega (arith, length-append payload more, s.1, q.1))
                          (omega (arith, k.1, s.0.1)),
                      s.0.3,
                    ),
                  )))))

module _ (lib : Library) (msg : SrppMessage) (v : World) where
  Calm-IsSmall : (u : World) → Calm v u → IsSmall v → IsSmall u
  Calm-IsSmall u k small =
      ap (λ n. n == 1 || u.padding.is_burst_padding == 1) k.2
      ∙ ap (λ n. v.padding.is_small_perturbation == 1 || n == 1) k.3
      ∙ small

  Filled : SrppMessage → World → Type 0
  Filled out u =
      IsReady v u
      × ((padding : List ℕ) × (count : ℕ) × (out ≡ with_padding padding count msg)
          × All IsByte padding
          × (length padding ≤ 10))

  default_psp_pad_algo-returns :
      (w : World) → Calm v w → IsReady v v → Returns (default_psp_pad_algo lib msg w) Filled
  unfolding default_psp_pad_algo reset_packet_timer reset_silence_timer pure Filled
  default_psp_pad_algo-returns w h ready =
      let size = length msg.encrypted_part.original_payload in
      Returns-bind _ (extra_size lib size) _ (extra_size-returns lib v size w ready.3 h)
        (λ extra u k.
          let drawn = IsFilled-Draws u (rw k.0.1 ready.2) in
          let found = generate_dummy_data_lem extra u drawn.0 drawn.1 (omega (arith, k.1)) in
          Returns-bind (λ padding x. IsReady v x × All IsByte padding × (length padding ≤ 10))
            (generate_dummy_data extra) _
            (
              found.0,
              _,
              found.2,
              (
                (k.0.0, ap length k.0.1 ∙ ready.1, rw k.0.1 ready.2, Calm-IsSmall u k.0 ready.3),
                found.4,
                omega (arith, found.3, k.1),
              ),
            )
            (λ padding x q. Returns-modify _ _ (
              Returns-modify _ _
                (_, _, refl, (q.0, (padding, to_unsigned extra, refl, q.1, q.2))))))

  pad-returns : IsReady v v → Returns (pad lib msg v) (λ out u. IsReady v u × IsPadded msg out)
  unfolding pad pure Filled
  pad-returns ready =
      Returns-bind _ (default_psp_pad_algo lib msg) _
        (default_psp_pad_algo-returns v (refl, refl, refl, refl) ready)
        (λ padded u k.
          Returns-bind _ (srpp_rand 0 (pos 10)) _ (draw v 0 (pos 10) u k.0) (λ coin x q.
            let done : IsPadded msg (with_dummy_flag 0 padded) =
              (k.1.0, k.1.1, (λ i. with_dummy_flag 0 (k.1.2 i)), k.1.3, k.1.4) in
            elim (Bool-cases (leb coin 5)) [
              | inl heads ↦ rw heads (
                  Returns-then (IsReady v) (add_to_dummy_cache (with_dummy_flag 0 padded)) _
                    (add_to_dummy_cache-returns v (with_dummy_flag 0 padded) x q.0)
                    (λ y r. (_, y, refl, (r, done))))
              | inr tails ↦ rw tails (_, x, refl, (q.0, done))
            ]))

-- Under the small perturbation or the burst padding, whatever the other options and the random
-- numbers, `pad` returns from an array of 100 dummies that all have a payload but for the last. The
-- message only gets new padding, at most 10 bytes, a new count and the dummy flag 0; the key and the
-- option stay, and the cache is an array of 100 that is filled again.
pub pad-IsPadded :
    (lib : Library) (msg : SrppMessage) (w : World)
    → IsSmall w
    → length w.padding.dummy_cache ≡ 100
    → IsFilled w.padding.dummy_cache
    → (out : SrppMessage) × (w' : World) × (pad lib msg w ≡ some (out, w'))
      × IsReady w w'
      × IsPadded msg out
pad-IsPadded lib msg w small size filled =
    let r = pad-returns lib msg w (refl, size, filled, small) in (r.0, r.1, r.2, r.3.0, r.3.1)
