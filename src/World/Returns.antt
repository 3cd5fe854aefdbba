-- ===== src/World/Returns.antt =====
-- Steps of the monad of World.Defs that return, and what holds of the result and of the next state.
use native.Mathlib.Nat.{mod-lt}
use dionysius.Common.{
  ℕ, suc, ◌+◌, ◌%◌, ◌<◌, ◌≤◌, Option, some, Bool-cases, inl, inr, false, ◌==◌, ℤ, magnitude, ◌≡◌,
  refl, ◌∙◌, arith,
}
use dionysius.World.Defs.{World, M, pure, ◌>>=◌, ◌>>◌, gets, modify, srpp_rand}
use dionysius.World.Frames.{bind-some}
use dionysius.World.Draws.{srpp_rand_lem}

abbrev pub Returns : {A : Type 0} → Option (A × World) → (A → World → Type 0) → Type 0
Returns {A} run Q = (a : A) × (w' : World) × (run ≡ some (a, w')) × Q a w'

module _ {A B : Type 0} {Q : B → World → Type 0} where
  pub Returns-bind :
      (R : A → World → Type 0) (m : M A) (f : A → M B) {w : World}
      → Returns (m w) R
      → ((a : A) (v : World) → R a v → Returns (f a v) Q)
      → Returns ((m >>= f) w) Q
  Returns-bind R m f r g = let k = g r.0 r.1 r.3 in (k.0, k.1, bind-some m f r.2 ∙ k.2, k.3)

  -- A step whose result is known.
  pub Returns-known :
      (m : M A) (f : A → M B) {w v : World} {a : A}
      → m w ≡ some (a, v)
      → Returns (f a v) Q
      → Returns ((m >>= f) w) Q
  Returns-known m f e r = (r.0, r.1, bind-some m f e ∙ r.2, r.3)

  pub Returns-gets :
      (f : World → A) (k : A → M B) {w : World}
      → Returns (k (f w) w) Q
      → Returns ((gets f >>= k) w) Q
  unfolding gets ◌>>=◌
  Returns-gets f k r = r

pub Returns-modify :
    {B : Type 0} {Q : B → World → Type 0} (f : World → World) (k : M B) {w : World}
    → Returns (k (f w)) Q
    → Returns ((modify f >> k) w) Q
unfolding modify ◌>>=◌ ◌>>◌
Returns-modify f k r = r

pub Returns-then :
    {B : Type 0} {Q : B → World → Type 0} (R : World → Type 0) (m : M (Unit {0})) (k : M B)
    {w : World}
    → Returns (m w) (λ _ v. R v)
    → ((v : World) → R v → Returns (k v) Q)
    → Returns ((m >> k) w) Q
unfolding ◌>>◌
Returns-then R m k r g = Returns-bind (λ _ v. R v) m (λ _. k) r (λ _ v. g v)

positive : (n : ℕ) → (n == 0) ≡ false → 0 < n
positive n h = ground (arith, h)

-- A draw keeps what does not depend on the answers to come.
module _ (P : World → Type 0)
    (keep : (w : World) (f : ℕ → ℕ) → P w → P (record w { answers = f })) where
  pub srpp_rand-returns :
      (low : ℕ) (limit : ℤ) (w : World)
      → P w
      → Returns (srpp_rand low limit w) (λ n u. P u × (n ≤ low + magnitude limit))
  unfolding srpp_rand pure
  srpp_rand-returns low limit w h = elim (Bool-cases (magnitude limit == 0)) [
    | inl none ↦ (0, w, rw none refl, (h, omega arith))
    | inr more ↦ (
      w.answers 0 % magnitude limit + low,
      record w { answers = λ n. w.answers (suc n) },
      srpp_rand_lem low limit w more,
      (keep w _ h, omega (arith, mod-lt (w.answers 0) (positive (magnitude limit) more))),
    )
  ]
