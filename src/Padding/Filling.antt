-- ===== src/Padding/Filling.antt =====
-- How `generate_dummy_data` of Padding_functions.cpp fills the padding.
use dionysius.Common.{
  true, pos, min, none, leb, leb→le, ◌⊎◌, ℕ, zero, suc, ◌+◌, ◌-◌, ◌%◌, ◌<◌, ◌≤◌, List, [], ◌++◌,
  length, length-append, All, All-append, get_elem?, some, Bool-cases, false, inl, inr,
  if◌then◌else◌, ltb, ◌==◌, ℤ, to_nat, ◌≡◌, refl, ap, ◌∙◌, arith,
}
use dionysius.Message.{SrppMessage, IsByte}
use dionysius.World.{fault, World, pure, gets, lift, srpp_rand, construct}
use dionysius.World.Frames.{bind-some, bind-none}
use dionysius.World.Draws.{srpp_rand_lem}
use dionysius.World.Creation.{created, construct_lem}
use dionysius.Transport.{stale_bytes}
use dionysius.Transport.Sending.{later, stale, length-stale, stale_bytes_lem}
use dionysius.Padding.Cache.{get_dummy, max_dummy_cache_size, gather, generate_dummy_data}

stale-IsByte : (n : ℕ) (answers : ℕ → ℕ) → All IsByte (stale n answers)
stale-IsByte zero answers = tt
stale-IsByte (suc n) answers = (omega arith, stale-IsByte n (λ k. answers (suc k)))

module _ (index : ℕ) (dummy : SrppMessage)
    (some_payload : 0 < length dummy.encrypted_part.original_payload) where
  abbrev size : ℕ
  size = length dummy.encrypted_part.original_payload

  -- What a round takes.
  abbrev taken : ℕ → ℕ
  taken missing = if ltb missing size then missing else size

  taken_le : (missing : ℕ) → taken missing ≤ missing
  taken_le missing = ground arith

  taken_some :
      (missing fuel : ℕ)
      → (missing == 0) ≡ false
      → missing < suc fuel
      → missing - taken missing < fuel
  taken_some missing fuel more h = ground arith

  taken_near : (missing : ℕ) → min missing size ≤ 24 → min (missing - taken missing) size ≤ 24
  taken_near missing near = omega (arith, near)

  in_object : (missing : ℕ) → min missing size ≤ 24 → ltb 24 (taken missing) ≡ false
  in_object missing near = ground (arith, near)

  past_object :
      (missing : ℕ)
      → 24 < min missing size
      → ((missing == 0) ≡ false) × (ltb 24 (taken missing) ≡ true)
  past_object missing past = (ground (arith, past), ground (arith, past))

  -- A round that takes more than the object has is out of bounds.
  gather_past :
      (fuel missing : ℕ) (w : World)
      → 24 < min missing size
      → get_elem? w.padding.dummy_cache index ≡ some dummy
      → gather (suc fuel) index missing w ≡ none
  unfolding gather get_dummy pure gets lift fault
  gather_past fuel missing w past entry =
      let far = past_object missing past in
      rw far.0 (
        bind-some (get_dummy index) _ (bind-some (gets _) _ refl ∙ ap (λ o. lift o w) entry)
        ∙ bind-none (if ltb 24 (taken missing) then fault else stale_bytes (taken missing)) _
            (ap (λ b. (if b then fault else stale_bytes (taken missing)) w) far.1))

  -- More fuel than bytes are missing is enough, since every round finds at least one; only answers
  -- are used up.
  pub gather_enough :
      (fuel missing : ℕ) (w : World)
      → missing < fuel
      → min missing size ≤ 24
      → get_elem? w.padding.dummy_cache index ≡ some dummy
      → (bytes : List ℕ) × (rest : ℕ → ℕ) × (gather fuel index missing w
          ≡ some (bytes, record w { answers = rest }))
        × (length bytes ≡ missing)
        × All IsByte bytes
  unfolding gather get_dummy pure gets lift
  gather_enough zero missing w h near entry = absurd (omega arith)
  gather_enough (suc fuel) missing w h near entry = elim (Bool-cases (missing == 0)) [
    | inl done ↦ ([], w.answers, rw done refl, ground arith, tt)
    | inr more ↦
        let n = taken missing in
        let rest =
          gather_enough fuel (missing - n) (later n w) (taken_some missing fuel more h)
            (taken_near missing near) entry in
        (
          stale n w.answers ++ rest.0,
          rest.1,
          rw more (
              bind-some (get_dummy index) _ (bind-some (gets _) _ refl ∙ ap (λ o. lift o w) entry)
              ∙ bind-some (if ltb 24 n then fault else stale_bytes n) _ (
                  ap (λ b. (if b then fault else stale_bytes n) w) (in_object missing near)
                  ∙ stale_bytes_lem n w)
              ∙ bind-some (gather fuel index (missing - n)) _ rest.2),
          omega (
            arith,
            length-append (stale n w.answers) rest.0,
            length-stale n w.answers,
            rest.3,
            taken_le missing,
          ),
          All-append IsByte (stale n w.answers) rest.0 (stale-IsByte n w.answers) rest.4,
        )
  ]

-- A cache whose entries below 99 all have a payload.
abbrev pub IsFilled : List SrppMessage → Type 0
IsFilled cache =
    (i : ℕ)
    → i < max_dummy_cache_size
    → (dummy : SrppMessage) × (get_elem? cache i ≡ some dummy)
      × (0 < length dummy.encrypted_part.original_payload)

-- The dummy that `generate_dummy_data` draws.
abbrev pub Draws : World → SrppMessage → Type 0
Draws w dummy =
    (get_elem? w.padding.dummy_cache (w.answers 0 % 99) ≡ some dummy)
    × (0 < length dummy.encrypted_part.original_payload)

pub IsFilled-Draws :
    (w : World) → IsFilled w.padding.dummy_cache → (dummy : SrppMessage) × Draws w dummy
IsFilled-Draws w filled =
    let entry = filled (w.answers 0 % 99) (omega arith) in (entry.0, (entry.1, entry.2))

draw_lem :
    (w : World)
    → srpp_rand 0 (pos 99) w
      ≡ some (w.answers 0 % 99, record w { answers = λ n. w.answers (suc n) })
draw_lem w = srpp_rand_lem 0 (pos 99) w refl ∙ λ i.
    some (at_least i, record w { answers = λ n. w.answers (suc n) })
  where
    at_least : w.answers 0 % 99 + 0 ≡ w.answers 0 % 99
    at_least = omega arith

module _ (size : ℤ) (w : World) (dummy : SrppMessage) (d : Draws w dummy) where
  pub generate_dummy_data_lem :
      min (to_nat size) (length dummy.encrypted_part.original_payload) ≤ 24
      → (bytes : List ℕ) × (rest : ℕ → ℕ) × (generate_dummy_data size w
          ≡ some (bytes, record (created w) { answers = rest }))
        × (length bytes ≡ to_nat size)
        × All IsByte bytes
  unfolding generate_dummy_data
  generate_dummy_data_lem near =
      let at = record w { answers = λ n. w.answers (suc n) } in
      let found =
        gather_enough (w.answers 0 % 99) dummy d.1 (suc (to_nat size)) (to_nat size) (created at)
          (omega arith) near d.0 in
      (
        found.0,
        found.1,
        bind-some (srpp_rand 0 (pos 99)) _ (draw_lem w)
            ∙ bind-some construct _ (construct_lem at)
            ∙ found.2,
        found.3,
        found.4,
      )

  pub generate_dummy_data_past :
      24 < min (to_nat size) (length dummy.encrypted_part.original_payload)
      → generate_dummy_data size w ≡ none
  unfolding generate_dummy_data
  generate_dummy_data_past past =
      let at = record w { answers = λ n. w.answers (suc n) } in
      bind-some (srpp_rand 0 (pos 99)) _ (draw_lem w)
      ∙ bind-some construct _ (construct_lem at)
      ∙ gather_past (w.answers 0 % 99) dummy d.1 (to_nat size) (to_nat size) (created at) past d.0

  -- Either the size that is asked for or that of the dummy that is drawn, which has a payload, is at
  -- most 24: then `generate_dummy_data` returns as many bytes as are asked for, none for a negative
  -- size. Or both are greater: then it reads past the vector object, which is undefined behaviour.
  pub generate_dummy_data-length :
      ((min (to_nat size) (length dummy.encrypted_part.original_payload) ≤ 24)
        × ((bytes : List ℕ) × (w' : World) × (generate_dummy_data size w ≡ some (bytes, w'))
            × (length bytes ≡ to_nat size)))
      ⊎ ((24 < min (to_nat size) (length dummy.encrypted_part.original_payload))
          × (generate_dummy_data size w ≡ none))
  generate_dummy_data-length =
      let least = min (to_nat size) (length dummy.encrypted_part.original_payload) in
      elim (Bool-cases (leb least 24)) [
        | inl near ↦
            let found = generate_dummy_data_lem (leb→le least 24 near) in
            inl (
              leb→le least 24 near,
              (found.0, record (created w) { answers = found.1 }, found.2, found.3),
            )
        | inr past ↦
            let far : 24 < least = ground (arith, past) in inr (far, generate_dummy_data_past far)
      ]
