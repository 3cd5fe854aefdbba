-- ===== src/Machine/Patches.antt =====
-- What an array holds after a write within its bounds.
use dionysius.Common.{
  ℕ, zero, suc, ◌+◌, ◌-◌, ◌≤◌, ◌<◌, List, [], ◌∷◌, ◌++◌, length, length-append, length-take,
  length-drop, get_or, take, drop, drop_behind, drop-drop, All, All-append, All-take, All-drop,
  some, ◌≡◌, refl, ap, sym, ◌∙◌, arith, leb, leb→le, false, Bool-cases, inl, inr, Option, none,
}
use dionysius.Machine.Memory.{read, read_lem, write, write_lem, write-none}

abbrev pub patched : List ℕ → ℕ → List ℕ → List ℕ
patched buff off bs = take off buff ++ (bs ++ drop (off + length bs) buff)

module _ (buff : List ℕ) (off : ℕ) (bs : List ℕ) (fits : off + length bs ≤ length buff) where
  pub write-patched : write buff off bs ≡ some (patched buff off bs)
  write-patched = write_lem buff off bs fits

  pub length-patched : length (patched buff off bs) ≡ length buff
  length-patched = omega (
    arith,
    length-append (take off buff) (bs ++ drop (off + length bs) buff),
    length-append bs (drop (off + length bs) buff),
    length-take off buff,
    length-drop (off + length bs) buff,
  )

  -- Behind the write nothing changes.
  pub drop-patched : (m : ℕ) → off + length bs ≤ m → drop m (patched buff off bs) ≡ drop m buff
  drop-patched m h =
      drop_behind (take off buff) _ m (m - off) (omega (arith, length-take off buff))
      ∙ drop_behind bs _ (m - off) (m - (off + length bs)) (omega arith)
      ∙ drop-drop (m - (off + length bs)) (off + length bs) buff
      ∙ ap (λ k. drop k buff) (omega arith)

  pub All-patched {κ} : (P : ℕ → Type κ) → All P buff → All P bs → All P (patched buff off bs)
  All-patched P h k =
      All-append P (take off buff) _ (All-take P off buff h)
        (All-append P bs _ k (All-drop P (off + length bs) buff h))

-- A write behind the first byte leaves it.
pub get_or-patched :
    (buff : List ℕ) (off : ℕ) (bs : List ℕ) (d : ℕ)
    → 0 < off
    → off < length buff
    → get_or (patched buff off bs) 0 d ≡ get_or buff 0 d
get_or-patched buff zero bs d h k = absurd (omega arith)
get_or-patched [] (suc off) bs d h k = absurd (omega arith)
get_or-patched (x ∷ xs) (suc off) bs d h k = refl

pub get_or-take :
    (xs ys : List ℕ) (n d : ℕ)
    → 0 < n
    → 0 < length xs
    → get_or (take n xs ++ ys) 0 d ≡ get_or xs 0 d
get_or-take xs ys zero d h k = absurd (omega arith)
get_or-take [] ys (suc n) d h k = absurd (omega arith)
get_or-take (x ∷ xs) ys (suc n) d h k = refl

or_empty : Option (List ℕ) → List ℕ
or_empty none = []
or_empty (some b) = b

-- A write keeps the length of the array, and a read has the length that is asked for.
pub length-write :
    (buff : List ℕ) (off : ℕ) (bs : List ℕ) {b : List ℕ}
    → write buff off bs ≡ some b
    → length b ≡ length buff
unfolding or_empty
length-write buff off bs e = elim (Bool-cases (leb (off + length bs) (length buff))) [
  | inl fits ↦
      let h : off + length bs ≤ length buff = leb→le _ _ fits in
      ap (λ o. length (or_empty o)) (sym e ∙ write_lem buff off bs h) ∙ length-patched buff off bs h
  | inr past ↦
      let h : length buff < off + length bs = ground (arith, past) in
      cc (e, write-none buff off bs h)
]

pub length-read : (buff : List ℕ) (off n : ℕ) {b : List ℕ} → read buff off n ≡ some b → length b ≡ n
unfolding or_empty
length-read buff off n e = elim (Bool-cases (leb (off + n) (length buff))) [
  | inl fits ↦
      let h : off + n ≤ length buff = leb→le _ _ fits in
      ap (λ o. length (or_empty o)) (sym e ∙ read_lem buff off n h)
      ∙ omega (arith, length-take n (drop off buff), length-drop off buff)
  | inr past ↦ cc (e, nothing past)
]
  where
    nothing : leb (off + n) (length buff) ≡ false → read buff off n ≡ none
    nothing past = unfold read in rw past
