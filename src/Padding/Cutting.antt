-- ===== src/Padding/Cutting.antt =====
-- The size of the dummies that `generate_dummy_pkt` of Padding_functions.cpp cuts.
use dionysius.Common.{
  ℕ, zero, suc, ◌+◌, ◌-◌, ◌≤◌, min, List, [], ◌∷◌, length, take, Bool-cases, inl, inr, ltb, ltb→lt,
  ltb→ge, ◌≡◌, refl, ap, arith,
}
use dionysius.Message.{SrppMessage}
use dionysius.Padding.Cache.{cut_dummy}

length-take_short : {A : Type 0} (n : ℕ) (xs : List A) → n ≤ length xs → length (take n xs) ≡ n
length-take_short zero xs h = refl
length-take_short (suc n) [] h = absurd (omega arith)
length-take_short (suc n) (x ∷ xs) h = ap suc (length-take_short n xs (omega arith))

module _ (size : ℕ) (msg : SrppMessage) where
  abbrev pay_size : ℕ
  pay_size = length msg.encrypted_part.original_payload

  abbrev pad_size : ℕ
  pad_size = length msg.encrypted_part.srpp_padding

  -- Of a dummy whose count tells its padding, the cut keeps as many bytes of payload and padding as
  -- there are, but no more than are asked for, and the count tells the padding that is left.
  pub cut_dummy-size :
      msg.encrypted_part.pad_count ≡ pad_size
      → (length (cut_dummy size msg).encrypted_part.original_payload
            + length (cut_dummy size msg).encrypted_part.srpp_padding
          ≡ min size (pay_size + pad_size))
        × ((cut_dummy size msg).encrypted_part.pad_count
            ≡ length (cut_dummy size msg).encrypted_part.srpp_padding)
  unfolding cut_dummy
  cut_dummy-size counted = elim (Bool-cases (ltb size pay_size)) [
    | inl shorter ↦
        let less = ltb→lt size pay_size shorter in
        rw shorter (
          omega (
            arith,
            less,
            length-take_short size msg.encrypted_part.original_payload (omega (arith, less)),
          ),
          refl,
        )
    | inr longer ↦
        let enough = ltb→ge size pay_size longer in
        elim (Bool-cases (ltb (size - pay_size) pad_size)) [
          | inl padded ↦
              let less = ltb→lt (size - pay_size) pad_size padded in
              let kept =
                length-take_short (size - pay_size) msg.encrypted_part.srpp_padding
                  (omega (arith, less)) in
              rw (longer, padded) (omega (arith, less, enough, kept), omega (arith, kept))
          | inr whole ↦
              let all = ltb→ge (size - pay_size) pad_size whole in
              rw (longer, whole) (omega (arith, enough, all), counted)
        ]
  ]
