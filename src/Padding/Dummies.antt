-- ===== src/Padding/Dummies.antt =====
-- What `generate_dummy_pkt(size)` of Padding_functions.cpp takes from the cache.
use dionysius.Common.{
  ℕ, ◌+◌, ◌-◌, ◌<◌, ◌≤◌, length, length-set, length-take, Bool-cases, inl, inr, ltb, ltb→lt, ltb→ge,
  some, pos, ◌≡◌, refl, ap, ◌∙◌, arith,
}
use dionysius.Message.{SrppMessage}
use dionysius.World.{World, pure, modify, gets, lift, srpp_rand}
use dionysius.World.Draws.{srpp_rand_lem}
use dionysius.World.Frames.{bind-some}
use dionysius.World.Returns.{Returns, Returns-bind, Returns-known, Returns-gets, Returns-modify}
use dionysius.Padding.Cache.{with_seq, get_dummy, set_dummy, cut_dummy, generate_dummy_pkt}
use dionysius.Padding.Filling.{IsFilled}
use dionysius.Padding.Filled.{IsFilled-set}

module _ (size : ℕ) (msg : SrppMessage) where
  abbrev pay_size : ℕ
  pay_size = length msg.encrypted_part.original_payload

  abbrev pad_size : ℕ
  pad_size = length msg.encrypted_part.srpp_padding

  -- The cut takes at most `size` bytes, and some payload if there is any.
  cut_dummy-bounds :
      (length (cut_dummy size msg).encrypted_part.original_payload
          + length (cut_dummy size msg).encrypted_part.srpp_padding
        ≤ size)
      × (0 < size → 0 < pay_size → 0 < length (cut_dummy size msg).encrypted_part.original_payload)
  unfolding cut_dummy
  cut_dummy-bounds = elim (Bool-cases (ltb size pay_size)) [
    | inl shorter ↦
        let less = ltb→lt size pay_size shorter in
        let kept = length-take size msg.encrypted_part.original_payload in
        rw shorter (omega (arith, less, kept), λ some_size some_payload. omega (arith, less, kept))
    | inr longer ↦
        let enough = ltb→ge size pay_size longer in
        elim (Bool-cases (ltb (size - pay_size) pad_size)) [
          | inl padded ↦
              let kept = length-take (size - pay_size) msg.encrypted_part.srpp_padding in
              rw (longer, padded)
                (omega (arith, enough, kept), λ some_size some_payload. some_payload)
          | inr whole ↦
              let all = ltb→ge (size - pay_size) pad_size whole in
              rw (longer, whole)
                (omega (arith, enough, all), λ some_size some_payload. some_payload)
        ]
  ]

abbrev HoldsDummies : World → Type 0
HoldsDummies w = (length w.padding.dummy_cache ≡ 100) × IsFilled w.padding.dummy_cache

draw_index :
    (w : World)
    → HoldsDummies w
    → Returns (srpp_rand 0 (pos 99) w) (λ index u. HoldsDummies u × (index < 99))
draw_index w h = (_, _, srpp_rand_lem 0 (pos 99) w refl, (h, omega arith))

-- A call of `generate_dummy_pkt` with a size other than 0 returns, from an array of 100 dummies that
-- all have a payload but for the last: the packet has a payload and at most `size` bytes of payload and
-- padding, and the cache, in which the entry was cut too, is as it was required.
pub generate_dummy_pkt-bounds :
    (size : ℕ) (w : World)
    → 0 < size
    → length w.padding.dummy_cache ≡ 100
    → IsFilled w.padding.dummy_cache
    → (out : SrppMessage) × (w' : World) × (generate_dummy_pkt size w ≡ some (out, w'))
      × (0 < length out.encrypted_part.original_payload)
      × (length out.encrypted_part.original_payload + length out.encrypted_part.srpp_padding ≤ size)
      × (length w'.padding.dummy_cache ≡ 100)
      × IsFilled w'.padding.dummy_cache
unfolding generate_dummy_pkt get_dummy set_dummy gets lift pure modify
generate_dummy_pkt-bounds size w some_size full filled =
    let r : Returns (generate_dummy_pkt size w) Fits =
      Returns-bind (λ index u. HoldsDummies u × (index < 99)) (srpp_rand 0 (pos 99)) _
        (draw_index w (full, filled))
        (λ index u k.
          let entry = k.0.1 index k.1 in
          let cut = cut_dummy-bounds size (with_seq u.last_sequence_no entry.0) in
          Returns-gets _ _ (
            Returns-known (get_dummy index) _
              (bind-some (gets _) _ refl ∙ ap (λ o. lift o u) entry.1)
              (Returns-modify _ _ (
                Returns-modify _ _ (
                  _,
                  _,
                  refl,
                  (
                    cut.1 some_size entry.2,
                    cut.0,
                    (
                      length-set u.padding.dummy_cache index _ ∙ k.0.0,
                      IsFilled-set u.padding.dummy_cache index _ k.0.1 (cut.1 some_size entry.2)
                          (omega (arith, k.0.0, k.1)),
                    ),
                  ),
                ))))) in
    (r.0, r.1, r.2, r.3.0, r.3.1, r.3.2.0, r.3.2.1)
  where
    Fits : SrppMessage → World → Type 0
    Fits out u =
        (0 < length out.encrypted_part.original_payload)
        × (length out.encrypted_part.original_payload + length out.encrypted_part.srpp_padding
            ≤ size)
        × HoldsDummies u
