-- ===== src/Convert/Sources.antt =====
-- The loops over the contributing sources in the conversions of SRPP_functions.cpp.
use dionysius.Common.{
  ℕ, zero, suc, ◌+◌, ◌%◌, ◌^◌, ◌<◌, ◌≤◌, List, [], ◌∷◌, length, get_elem?, set, ltb, Option-cases,
  none, some, Bool-cases, inl, inr, ◌≡◌, refl, ap, ◌∙◌, arith,
}
use dionysius.Machine.{ntohs}
use dionysius.World.{World, lift, fault, create_srpp_message}
use dionysius.World.Frames.{bind-some, bind-none}
use dionysius.World.Creation.{created, create_srpp_message_lem}
use dionysius.Transport.{Library}
use dionysius.Convert.{RtpHeader, copy_sources, rtp_to_srpp}

get_elem?-bound :
    {A : Type 0} (xs : List A) (i : ℕ) (x : A) → get_elem? xs i ≡ some x → i < length xs
get_elem?-bound [] i x e = ground arith
get_elem?-bound (y ∷ ys) zero x e = omega arith
get_elem?-bound (y ∷ ys) (suc i) x e = omega (arith, get_elem?-bound ys i x e)

-- A loop that goes past the end of the source array is out of bounds.
copy_sources_past :
    (f : ℕ → ℕ) (rounds i : ℕ) (from to : List ℕ)
    → i ≤ length from
    → length from < rounds + i
    → copy_sources f rounds i from to ≡ none
unfolding copy_sources
copy_sources_past f zero i from to h k = absurd (omega arith)
copy_sources_past f (suc rounds) i from to h k = elim (Option-cases (get_elem? from i)) [
  | inl e ↦ rw (e, copy_sources) refl
  | inr (w, e) ↦
      let next =
        copy_sources_past f rounds (i + 1) from (set to i (f w))
          (omega (arith, get_elem?-bound from i w e)) (omega arith) in
      elim (Bool-cases (ltb i (length to))) [
        | inl fits ↦ rw (e, fits, copy_sources) next
        | inr past ↦ rw (e, past, copy_sources) refl
      ]
]

-- The conversion of an RTP header that counts 1 to 15 contributing sources is out of bounds in every
-- state: its loop runs up to the count with its bytes swapped, past the 15 sources.
pub rtp_to_srpp-overruns :
    (lib : Library) (rtp : RtpHeader) (bytes : List ℕ) (w : World)
    → 0 < rtp.cc
    → rtp.cc < 16
    → length rtp.csrc ≡ 15
    → rtp_to_srpp lib rtp bytes w ≡ none
unfolding rtp_to_srpp lift fault
rtp_to_srpp-overruns lib rtp bytes w some_source few size =
    bind-some (create_srpp_message bytes) _ (create_srpp_message_lem bytes w)
    ∙ bind-none (lift _) _ (
        ap (λ o. lift o (created w))
          (copy_sources_past (λ x. ntohs (x % 2 ^ 16)) (ntohs rtp.cc) 0 rtp.csrc _ (omega arith)
            (omega arith)))
