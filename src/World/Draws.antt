-- ===== src/World/Draws.antt =====
-- The range of `srpp::srpp_rand`.
use native.Mathlib.Nat.{mod-lt}
use dionysius.Common.{
  ℕ, suc, ◌+◌, ◌%◌, ◌<◌, ◌≤◌, some, false, ◌==◌, ==-zero, ℤ, magnitude, ◌≡◌, refl, arith,
}
use dionysius.World.Defs.{World, pure, ◌>>=◌, ask, srpp_rand}

-- The number that is drawn.
pub srpp_rand_lem :
    (low : ℕ) (limit : ℤ) (w : World)
    → (magnitude limit == 0) ≡ false
    → srpp_rand low limit w
      ≡ some (w.answers 0 % magnitude limit + low, record w { answers = λ n. w.answers (suc n) })
unfolding srpp_rand ask pure ◌>>=◌
srpp_rand_lem low limit w nonzero = rw nonzero refl

-- For `max` other than 0, `srpp_rand(min, max)` returns a number from `min` up to but not
-- including `min + |max|`.
pub srpp_rand_range :
    (low : ℕ) (limit : ℤ) (w : World)
    → 0 < magnitude limit
    → (n : ℕ) × (w' : World) × (srpp_rand low limit w ≡ some (n, w'))
      × (low ≤ n)
      × (n < low + magnitude limit)
srpp_rand_range low limit w some_limit = (
  w.answers 0 % magnitude limit + low,
  record w { answers = λ n. w.answers (suc n) },
  srpp_rand_lem low limit w (==-zero (magnitude limit) some_limit),
  omega arith,
  omega (arith, mod-lt (w.answers 0) some_limit),
)
