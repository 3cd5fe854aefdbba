-- ===== src/Common/Bits.antt =====
-- Exclusive or on words of any width, as the payload cipher uses it, and `&` with one.
mod Step
use Prim.Native.Nat.{
  ℕ, zero, suc, ◌+◌, ◌-◌, ◌*◌, ◌/◌, ◌%◌, ◌^◌, ◌≤◌, ◌<◌, bit_xor, bit_and, bit_or, bit_and-bitwise,
  min, max,
}
use mathlib.Core.Path.{◌≡◌, refl}
use native.Mathlib.Nat.{pow-suc, one-le-pow}
use native.Mathlib.Omega.{arith}
use Step.{bit_xor_step, bit_and_step, bit_or_step}

-- Taking the low digits commutes with appending a digit.
mod_double : (m x d : ℕ) → 0 < m → d < 2 → (x * 2 + d) % (m * 2) ≡ x % m * 2 + d
mod_double m x d p q = grind arith

-- The exclusive or of words of `w + 1` bits, in its highest digits and its lowest.
bit_xor_mod_suc :
    (w a k : ℕ) → bit_xor a k % 2 ^ suc w ≡ bit_xor (a / 2) (k / 2) % 2 ^ w * 2 + (a + k) % 2
bit_xor_mod_suc w a k =
    rw (pow-suc 2 w, bit_xor_step a k)
      (mod_double (2 ^ w) (bit_xor (a / 2) (k / 2)) ((a + k) % 2) (one-le-pow w 2 (omega arith))
        (omega arith))

-- A word of `w` bits that is xored twice with one key comes back.
pub bit_xor_undo : (w a k : ℕ) → a < 2 ^ w → bit_xor (bit_xor a k % 2 ^ w) k % 2 ^ w ≡ a
bit_xor_undo zero a k h = omega arith
bit_xor_undo (suc w) a k h =
    let x = bit_xor (a / 2) (k / 2) % 2 ^ w in
    let half : (x * 2 + (a + k) % 2) / 2 ≡ x = omega arith in
    let ih = bit_xor_undo w (a / 2) (k / 2) (omega (arith, pow-suc 2 w)) in
    rw (bit_xor_mod_suc w a k, bit_xor_mod_suc w (x * 2 + (a + k) % 2) k, half) (omega (arith, ih))

bit_and-zero_below : (n a : ℕ) → a ≤ n → bit_and a 0 ≡ 0
bit_and-zero_below n zero h = refl
bit_and-zero_below zero (suc a) h = absurd (omega arith)
bit_and-zero_below (suc n) (suc a) h =
    omega (arith, bit_and_step (suc a) 0, bit_and-zero_below n (suc a / 2) (omega arith))

pub bit_and-one : (a : ℕ) → bit_and a 1 ≡ a % 2
bit_and-one a = omega (arith, bit_and_step a 1, bit_and-zero_below (a / 2) (a / 2) (omega arith))

-- `&` with an odd number keeps the lowest digit.
pub bit_and_odd : (a v : ℕ) → v % 2 ≡ 1 → bit_and a v % 2 ≡ a % 2
bit_and_odd a v h = omega (arith, bit_and_step a v)

-- `| 1` makes a number odd.
pub bit_or_one_odd : (v : ℕ) → bit_or v 1 % 2 ≡ 1
bit_or_one_odd v = omega (arith, bit_or_step v 1)

-- `&` only clears digits.
pub bit_and-le : (n a b : ℕ) → a ≤ n → bit_and a b ≤ a
bit_and-le n zero b h = omega (arith, bit_and-bitwise 0 b)
bit_and-le zero (suc a) b h = absurd (omega arith)
bit_and-le (suc n) (suc a) b h =
    omega (arith, bit_and_step (suc a) b, bit_and-le n (suc a / 2) (b / 2) (omega arith))

bit_xor-zero_below : (n a : ℕ) → a ≤ n → bit_xor a 0 ≡ a
bit_xor-zero_below n zero h = refl
bit_xor-zero_below zero (suc a) h = absurd (omega arith)
bit_xor-zero_below (suc n) (suc a) h =
    omega (arith, bit_xor_step (suc a) 0, bit_xor-zero_below n (suc a / 2) (omega arith))

pub bit_xor-zero : (a : ℕ) → bit_xor a 0 ≡ a
bit_xor-zero a = bit_xor-zero_below a a (omega arith)
