-- ===== src/Padding/FullBandwidth.antt =====
-- The packet size padding of Padding_Algorithms.cpp at full bandwidth.
use dionysius.Common.{
  ◌≤◌, min, none, leb→le, ◌⊎◌, ℕ, ◌+◌, ◌-◌, ◌%◌, ◌^◌, ◌<◌, length, some, Bool-cases, false, inl,
  inr, leb, ◌==◌, ==-zero, ◌||◌, ℤ, to_nat, sub_ℕ, ◌≡◌, refl, ap, ◌∙◌, arith,
}
use dionysius.Machine.{to_unsigned}
use dionysius.Message.{SrppMessage}
use dionysius.World.{World, pure, ◌>>◌, gets, modify, reset_packet_timer, reset_silence_timer}
use dionysius.World.Frames.{bind-some, bind-none}
use dionysius.Transport.{Library}
use dionysius.Padding.Cache.{generate_dummy_data}
use dionysius.Padding.Filling.{Draws, generate_dummy_data_lem, generate_dummy_data_past}
use dionysius.Padding.Algorithms.{
  bandwidth_size, ascent_size, small_size, extra_size, default_psp_pad_algo,
}

-- Only the full bandwidth is asked for.
pub record IsFull (w : World) : Type 0 where
  pub full : 0 < w.padding.is_full_bandwidth
  pub not_gradual : w.padding.gradual_ascent_bandwidth ≡ 0
  pub not_small : w.padding.is_small_perturbation ≡ 0
  pub not_burst : w.padding.is_burst_padding ≡ 0

module _ (lib : Library) (w : World) (v : IsFull w) where
  bandwidth_size-full :
      (pay_size : ℕ) → bandwidth_size lib pay_size w ≡ some (sub_ℕ 1366 pay_size, w)
  unfolding bandwidth_size gets pure
  bandwidth_size-full pay_size =
      bind-some (gets _) _ refl ∙ rw (==-zero w.padding.is_full_bandwidth v.full) refl

  ascent_size-off : (pay_size : ℕ) (extra : ℤ) → ascent_size lib pay_size extra w ≡ some (extra, w)
  unfolding ascent_size gets pure
  ascent_size-off pay_size extra =
      bind-some (gets _) _ refl ∙ rw (ap (λ n. n == 1) v.not_gradual) refl

  small_size-off : (extra : ℤ) → small_size lib extra w ≡ some (extra, w)
  unfolding small_size gets pure
  small_size-off extra = bind-some (gets _) _ refl ∙ rw off refl
    where
      off : (w.padding.is_small_perturbation == 1 || w.padding.is_burst_padding == 1) ≡ false
      off =
          ap (λ n. n == 1 || w.padding.is_burst_padding == 1) v.not_small
          ∙ ap (λ n. n == 1) v.not_burst

  extra_size-full : (pay_size : ℕ) → extra_size lib pay_size w ≡ some (sub_ℕ 1366 pay_size, w)
  unfolding extra_size
  extra_size-full pay_size =
      bind-some (bandwidth_size lib pay_size) _ (bandwidth_size-full pay_size)
      ∙ bind-some (ascent_size lib pay_size _) _ (ascent_size-off pay_size _)
      ∙ small_size-off _

room_unsigned :
    (pay_size : ℕ)
    → pay_size < 2 ^ 31
    → to_unsigned (sub_ℕ 1366 pay_size) ≡ (2 ^ 32 + 1366 - pay_size) % 2 ^ 32
room_unsigned pay_size h = elim (Bool-cases (leb pay_size 1366)) [
  | inl fits ↦ rw fits (ground arith)
  | inr past ↦ rw past (ground arith)
]

room_nat : (pay_size : ℕ) → to_nat (sub_ℕ 1366 pay_size) ≡ 1366 - pay_size
room_nat pay_size = elim (Bool-cases (leb pay_size 1366)) [
  | inl fits ↦ rw fits refl
  | inr past ↦ rw past (ground arith)
]

module _ (lib : Library) (msg : SrppMessage) (w : World) (dummy : SrppMessage) (v : IsFull w)
    (d : Draws w dummy) (short : length msg.encrypted_part.original_payload < 2 ^ 31) where
  abbrev pay_size : ℕ
  pay_size = length msg.encrypted_part.original_payload

  -- What the algorithm reads of the drawn dummy at once.
  abbrev reach : ℕ
  reach = min (1366 - pay_size) (length dummy.encrypted_part.original_payload)

  abbrev Padded : Type 0
  Padded =
      (out : SrppMessage) × (w' : World) × (default_psp_pad_algo lib msg w ≡ some (out, w'))
      × (out.encrypted_part.original_payload ≡ msg.encrypted_part.original_payload)
      × (length out.encrypted_part.srpp_padding ≡ 1366 - pay_size)
      × (out.encrypted_part.pad_count ≡ (2 ^ 32 + 1366 - pay_size) % 2 ^ 32)

  reach_lem :
      min (to_nat (sub_ℕ 1366 pay_size)) (length dummy.encrypted_part.original_payload) ≡ reach
  reach_lem = ap (λ n. min n (length dummy.encrypted_part.original_payload)) (room_nat pay_size)

  full-Padded : reach ≤ 24 → Padded
  unfolding default_psp_pad_algo reset_packet_timer reset_silence_timer modify pure ◌>>◌
  full-Padded near =
      let room = sub_ℕ 1366 pay_size in
      let found = generate_dummy_data_lem room w dummy d (omega (arith, reach_lem, near)) in
      (
        _,
        _,
        bind-some (extra_size lib pay_size) _ (extra_size-full lib w v pay_size)
            ∙ bind-some (generate_dummy_data room) _ found.2
            ∙ bind-some (modify _) _ refl
            ∙ bind-some (modify _) _ refl,
        refl,
        found.3 ∙ room_nat pay_size,
        room_unsigned pay_size short,
      )

  full_past : 24 < reach → default_psp_pad_algo lib msg w ≡ none
  unfolding default_psp_pad_algo
  full_past past =
      let room = sub_ℕ 1366 pay_size in
      bind-some (extra_size lib pay_size) _ (extra_size-full lib w v pay_size)
      ∙ bind-none (generate_dummy_data room) _
          (generate_dummy_data_past room w dummy d (omega (arith, reach_lem, past)))

  -- At full bandwidth, without the other options, and for a payload below 2^31 bytes: if the dummy
  -- that is drawn, which has a payload, or what is missing to 1366 bytes has at most 24 bytes, the
  -- algorithm returns, keeps the payload, fills up to 1366 bytes, and sets the count to what is missing
  -- as an unsigned number, which past 1366 bytes of payload is 2^32 less the excess. If both have more,
  -- it reads past an object, which is undefined behaviour.
  pub default_psp_pad_algo-full :
      ((reach ≤ 24) × Padded) ⊎ ((24 < reach) × (default_psp_pad_algo lib msg w ≡ none))
  default_psp_pad_algo-full = elim (Bool-cases (leb reach 24)) [
    | inl near ↦ inl (leb→le reach 24 near, full-Padded (leb→le reach 24 near))
    | inr past ↦ let far : 24 < reach = ground (arith, past) in inr (far, full_past far)
  ]
