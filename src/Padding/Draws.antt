-- ===== src/Padding/Draws.antt =====
-- The random bytes of Padding_functions.cpp: every call returns, and keeps what does not depend on the
-- answers to come.
use dionysius.Common.{
  ℕ, zero, suc, ◌+◌, ◌≤◌, List, [], ◌∷◌, length, ap, ◌≡◌, refl, pos, ℤ, magnitude,
}
use dionysius.World.{World, pure, srpp_rand}
use dionysius.World.Returns.{Returns, Returns-bind, srpp_rand-returns}
use dionysius.Padding.Cache.{random_chars, scramble}

module _ (P : World → Type 0)
    (keep : (w : World) (f : ℕ → ℕ) → P w → P (record w { answers = f })) where
  draw :
      (low : ℕ) (limit : ℤ) (w : World)
      → P w
      → Returns (srpp_rand low limit w) (λ n u. P u × (n ≤ low + magnitude limit))
  draw = srpp_rand-returns P keep

  pub random_chars-returns :
      (n : ℕ) (w : World) → P w → Returns (random_chars n w) (λ cs u. P u × (length cs ≡ n))
  unfolding random_chars pure
  random_chars-returns zero w h = ([], w, refl, (h, refl))
  random_chars-returns (suc n) w h =
      Returns-bind _ (srpp_rand 1 (pos 255)) _ (draw 1 (pos 255) w h) (λ a u k.
        Returns-bind _ (srpp_rand 0 (pos 65536)) _ (draw 0 (pos 65536) u k.0) (λ b x q.
          Returns-bind _ (random_chars n) _ (random_chars-returns n x q.0)
            (λ rest y r. (_, y, refl, (r.0, ap suc r.1)))))

  pub scramble-returns :
      (cs : List ℕ) (w : World)
      → P w
      → Returns (scramble cs w) (λ out u. P u × (length out ≡ length cs))
  unfolding scramble pure
  scramble-returns [] w h = ([], w, refl, (h, refl))
  scramble-returns (c ∷ cs) w h =
      Returns-bind _ (srpp_rand 0 (pos 65536)) _ (draw 0 (pos 65536) w h) (λ b u k.
        Returns-bind _ (scramble cs) _ (scramble-returns cs u k.0)
          (λ rest x q. (_, x, refl, (q.0, ap suc q.1))))
