-- ===== src/Options/Decimal.antt =====
-- `atoi` on what `%d` prints.
use native.Mathlib.Nat.{pow-suc}
use dionysius.Common.{
  ℕ, zero, suc, ◌+◌, ◌-◌, ◌*◌, ◌/◌, ◌%◌, ◌^◌, ◌<◌, ◌≤◌, List, [], ◌∷◌, ◌++◌, length, length-append,
  All, All-append, ◌≡◌, refl, ap, ◌∙◌, arith, ltb, if◌then◌else◌, Bool, Bool-cases, true, not, ℤ,
  pos, negsuc, inl, inr,
}
use dionysius.Options.{print_digits, print_int, is_digit, read_digits, negate, read_signed, atoi}

abbrev pub IsDigit : ℕ → Type 0
IsDigit c = (b'0' ≤ c) × (c ≤ b'9')

-- The number that digits stand for, behind the number before them.
value : ℕ → List ℕ → ℕ
value acc [] = acc
value acc (c ∷ cs) = value (acc * 10 + (c - b'0')) cs

value-append : (acc : ℕ) (xs ys : List ℕ) → value acc (xs ++ ys) ≡ value (value acc xs) ys
unfolding value
value-append acc [] ys = refl
value-append acc (x ∷ xs) ys = value-append (acc * 10 + (x - b'0')) xs ys

pub print_digits-All : (fuel n : ℕ) → All IsDigit (print_digits fuel n)
unfolding print_digits
print_digits-All zero n = tt
print_digits-All (suc fuel) n = elim (Bool-cases (ltb n 10)) [
  | inl low ↦ rw low (omega arith, tt)
  | inr high ↦ rw high (
      All-append IsDigit (print_digits fuel (n / 10)) _ (print_digits-All fuel (n / 10))
        (omega arith, tt))
]

print_digits-value : (fuel n : ℕ) → n < fuel → value 0 (print_digits fuel n) ≡ n
unfolding print_digits value
print_digits-value zero n h = absurd (omega arith)
print_digits-value (suc fuel) n h = elim (Bool-cases (ltb n 10)) [
  | inl low ↦ rw low (ground arith)
  | inr high ↦
      rw (high, value-append 0 (print_digits fuel (n / 10)) ((b'0' + n % 10) ∷ []))
        (ground (arith, print_digits-value fuel (n / 10)))
]

pub length-print_digits : (d fuel n : ℕ) → n < 10 ^ suc d → length (print_digits fuel n) ≤ suc d
unfolding print_digits
length-print_digits d zero n h = omega arith
length-print_digits zero (suc fuel) n h = ground arith
length-print_digits (suc d) (suc fuel) n h = elim (Bool-cases (ltb n 10)) [
  | inl low ↦ rw low (omega arith)
  | inr high ↦ rw high (
      omega (
        arith,
        length-append (print_digits fuel (n / 10)) ((b'0' + n % 10) ∷ []),
        length-print_digits d fuel (n / 10) (omega (arith, pow-suc 10 (suc d))),
      ))
]

-- What ends a number: the end of the text, or a character that is no digit.
abbrev pub ends : List ℕ → Bool
ends [] = true
ends (c ∷ cs) = not (is_digit c)

read_digits-ends : (acc : ℕ) (rest : List ℕ) → ends rest ≡ true → read_digits acc rest ≡ acc
unfolding read_digits
read_digits-ends acc [] h = refl
read_digits-ends acc (c ∷ cs) h = ground arith

read_digits-append :
    (acc : ℕ) (ds rest : List ℕ)
    → All IsDigit ds
    → ends rest ≡ true
    → read_digits acc (ds ++ rest) ≡ value acc ds
unfolding read_digits value
read_digits-append acc [] rest h e = read_digits-ends acc rest e
read_digits-append acc (d ∷ ds) rest h e =
    ground (arith, read_digits-append (acc * 10 + (d - b'0')) ds rest h.1 e)

-- A text that begins with a digit is read as a natural number.
atoi_digits :
    (ds rest : List ℕ)
    → All IsDigit ds
    → 0 < length ds
    → ends rest ≡ true
    → atoi (ds ++ rest) ≡ pos (value 0 ds)
unfolding atoi read_signed
atoi_digits [] rest h p e = absurd (omega arith)
atoi_digits (d ∷ ds) rest h p e = ground (arith, read_digits-append 0 (d ∷ ds) rest h e)

print_digits_some : (fuel n : ℕ) → 0 < length (print_digits (suc fuel) n)
unfolding print_digits
print_digits_some fuel n = omega (
  arith,
  length-append (if ltb n 10 then [] else print_digits fuel (n / 10)) ((b'0' + n % 10) ∷ []),
)

-- `atoi` of a printed number, with anything but a digit behind it, is the number.
pub atoi-print_int : (v : ℤ) (rest : List ℕ) → ends rest ≡ true → atoi (print_int v ++ rest) ≡ v
unfolding print_int
atoi-print_int (pos n) rest e =
    atoi_digits (print_digits (suc n) n) rest (print_digits-All (suc n) n) (print_digits_some n n) e
    ∙ ap pos (print_digits-value (suc n) n (omega arith))
atoi-print_int (negsuc n) rest e =
    unfold atoi read_signed in
    ap negate (
      read_digits-append 0 (print_digits (suc (suc n)) (suc n)) rest
        (print_digits-All (suc (suc n)) (suc n)) e
      ∙ print_digits-value (suc (suc n)) (suc n) (omega arith))
