-- ===== src/Discovery/Checksum/Reference.antt =====
-- The Internet checksum as RFC 1071 defines it, and `in_cksum` of sqrkal_discovery.cpp.
use dionysius.Common.{
  ℕ, ◌+◌, ◌-◌, ◌*◌, ◌%◌, ◌<◌, ◌≤◌, List, [], ◌∷◌, length, All, ◌≡◌, refl, ap, sym, ◌∙◌, arith, ltb,
  ◌==◌, if◌then◌else◌,
}
use dionysius.Message.{IsByte}
use dionysius.Discovery.Checksum.{sum_words, fold_sum, in_cksum}

-- The addition of 16-bit words in ones' complement: the carry is added at the other end.
abbrev ones_add : ℕ → ℕ → ℕ
ones_add a b = if ltb (a + b) 65536 then a + b else a + b - 65535

-- The words of an array, an odd byte padded with zero.
ones_sum : ℕ → List ℕ → ℕ
ones_sum sum [] = sum
ones_sum sum (a ∷ []) = ones_add sum a
ones_sum sum (a ∷ b ∷ rest) = ones_sum (ones_add sum (a + b * 256)) rest

-- The complement of the sum.
pub reference : List ℕ → ℕ
unfolding ones_sum
reference bytes = 65535 - ones_sum 0 bytes

-- A sum folded to 16 bits.
norm : ℕ → ℕ
norm s = if s == 0 then 0 else (s - 1) % 65535 + 1

norm-word : (a : ℕ) → a < 65536 → norm a ≡ a
unfolding norm
norm-word a h = ground arith

ones_add-norm : (s a : ℕ) → a < 65536 → ones_add (norm s) a ≡ norm (s + a)
unfolding norm
ones_add-norm s a h = ground arith

fold_sum-norm : (s : ℕ) → s ≤ 2147450880 → fold_sum s ≡ 65535 - norm s
unfolding fold_sum norm
fold_sum-norm s h = ground arith

ones_sum-norm : (s : ℕ) (bs : List ℕ) → All IsByte bs → ones_sum (norm s) bs ≡ norm (sum_words s bs)
unfolding ones_sum sum_words
ones_sum-norm s [] h = refl
ones_sum-norm s (a ∷ []) h = ones_add-norm s a (omega (arith, h.0))
ones_sum-norm s (a ∷ b ∷ rest) h =
    ap (λ t. ones_sum t rest) (ones_add-norm s (a + b * 256) (omega (arith, h.0, h.1.0)))
    ∙ ones_sum-norm (s + (a + b * 256)) rest h.1.1

pub sum_words-le :
    (s : ℕ) (bs : List ℕ) → All IsByte bs → 2 * sum_words s bs ≤ 2 * s + 65535 * (length bs + 1)
unfolding sum_words
sum_words-le s [] h = omega arith
sum_words-le s (a ∷ []) h = omega (arith, h.0)
sum_words-le s (a ∷ b ∷ rest) h =
    omega (arith, h.0, h.1.0, sum_words-le (s + (a + b * 256)) rest h.1.1)

-- `in_cksum` of at most 65535 bytes is the complement of their ones' complement sum.
pub in_cksum-reference :
    (bytes : List ℕ) → All IsByte bytes → length bytes < 65536 → in_cksum bytes ≡ reference bytes
unfolding in_cksum reference norm
in_cksum-reference bytes h fits =
    fold_sum-norm (sum_words 0 bytes) (omega (arith, sum_words-le 0 bytes h))
    ∙ ap (λ s. 65535 - s) (sym (ones_sum-norm 0 bytes h))
