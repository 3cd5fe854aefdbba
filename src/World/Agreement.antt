-- ===== src/World/Agreement.antt =====
-- Two steps of the monad of World.Defs that do the same wherever a part of the state satisfies a
-- predicate.
use dionysius.Common.{Bool, true, false, if◌then◌else◌, ◌≡◌, refl, subst, sym, ◌∙◌}
use dionysius.World.Defs.{World, M, ◌>>=◌, ◌>>◌}
use dionysius.World.Frames.{bind-agree, Keeps, Keeps-some}

pub record Same {X A : Type 0} (part : World → X) (P : X → Type 0) (m m' : M A) : Type 0 where
  pub at : (w : World) → P (part w) → m w ≡ m' w

module _ {X A : Type 0} (part : World → X) (P : X → Type 0) where
  pub Same-refl : (m : M A) → Same part P m m
  Same-refl m = record { at = λ w h. refl }

  pub Same-if :
      (b : Bool) (m m' n n' : M A)
      → Same part P m m'
      → Same part P n n'
      → Same part P (if b then m else n) (if b then m' else n')
  Same-if true m m' n n' sm sn = sm
  Same-if false m m' n n' sm sn = sn

  pub Same-first :
      {B : Type 0} (m m' : M A) (f : A → M B) → Same part P m m' → Same part P (m >>= f) (m' >>= f)
  unfolding ◌>>=◌
  Same-first m m' f sm = record { at = λ w h i. ((λ _. sm.at w h i) >>= f) w }

  -- The first part must keep what the predicate is about.
  pub Same-bind :
      {B : Type 0} (m m' : M A) (f f' : A → M B)
      → Keeps part m
      → Same part P m m'
      → ((a : A) → Same part P (f a) (f' a))
      → Same part P (m >>= f) (m' >>= f')
  unfolding ◌>>=◌
  Same-bind m m' f f' km sm sf = record {
    at = λ w h.
        bind-agree m f f' (λ a v e. (sf a).at v (subst P (sym (Keeps-some part m km e)) h))
        ∙ (λ i. ((λ _. sm.at w h i) >>= f') w);
  }

pub Same-then :
    {X B : Type 0} (part : World → X) (P : X → Type 0) (m m' : M (Unit {0})) (k k' : M B)
    → Keeps part m
    → Same part P m m'
    → Same part P k k'
    → Same part P (m >> k) (m' >> k')
unfolding ◌>>◌
Same-then part P m m' k k' km sm sk = Same-bind part P m m' (λ _. k) (λ _. k') km sm (λ _. sk)

pub Same-then_first :
    {X B : Type 0} (part : World → X) (P : X → Type 0) (m m' : M (Unit {0})) (k : M B)
    → Same part P m m'
    → Same part P (m >> k) (m' >> k)
unfolding ◌>>◌
Same-then_first part P m m' k sm = Same-first part P m m' (λ _. k) sm

pub ruleset same_rules = (Same-refl, Same-if, Same-first, Same-bind, Same-then_first, Same-then)
