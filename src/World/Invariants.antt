-- ===== src/World/Invariants.antt =====
-- Predicates on the state that the steps of the monad of World.Defs preserve.
use dionysius.Common.{Option, none, some, Bool, true, false, if◌then◌else◌, subst, sym, ℕ, suc}
use dionysius.World.Defs.{World, M, pure, ◌>>=◌, ◌>>◌, gets, modify, lift, fault, ask}
use dionysius.World.Frames.{Holds, resume, bind_lem}

pub record Preserves {A : Type 0} (P : World → Type 0) (m : M A) : Type 0 where
  pub at : (w : World) → P w → Holds (m w) P

module _ {A : Type 0} (P : World → Type 0) where
  pub Preserves-pure : (a : A) → Preserves P (pure a)
  unfolding pure
  Preserves-pure a = record { at = λ w h. h }

  pub Preserves-fault : Preserves {A = A} P fault
  unfolding fault
  Preserves-fault = record { at = λ w h. tt }

  pub Preserves-gets : (f : World → A) → Preserves P (gets f)
  unfolding gets
  Preserves-gets f = record { at = λ w h. h }

  pub Preserves-if :
      (b : Bool) (m n : M A) → Preserves P m → Preserves P n → Preserves P (if b then m else n)
  Preserves-if true m n pm pn = pm
  Preserves-if false m n pm pn = pn

  pub Preserves-lift : (o : Option A) → Preserves P (lift o)
  unfolding lift
  Preserves-lift none = Preserves-fault
  Preserves-lift (some a) = Preserves-pure a

  pub Preserves-bind :
      {B : Type 0} (m : M A) (f : A → M B)
      → Preserves P m
      → ((a : A) → Preserves P (f a))
      → Preserves P (m >>= f)
  Preserves-bind {B} m f pm pf = record {
    at = λ w h. subst (λ r. Holds r P) (sym (bind_lem m f w)) (step (m w) (pm.at w h));
  }
    where
      step : (r : Option (A × World)) → Holds r P → Holds (resume f r) P
      step none h = tt
      step (some (a, v)) h = (pf a).at v h

pub Preserves-modify :
    (P : World → Type 0) (f : World → World)
    → ((w : World) → P w → P (f w))
    → Preserves P (modify f)
unfolding modify
Preserves-modify P f keep = record { at = keep }

pub Preserves-ask :
    (P : World → Type 0)
    → ((w : World) (f : ℕ → ℕ) → P w → P (record w { answers = f }))
    → Preserves P ask
unfolding ask
Preserves-ask P keep = record { at = λ w h. keep w (λ n. w.answers (suc n)) h }

pub Preserves-then :
    {B : Type 0} (P : World → Type 0) (m : M (Unit {0})) (k : M B)
    → Preserves P m
    → Preserves P k
    → Preserves P (m >> k)
unfolding ◌>>◌
Preserves-then P m k pm pk = Preserves-bind P m (λ _. k) pm (λ _. pk)

pub ruleset preserves_rules = (
  Preserves-pure, Preserves-fault, Preserves-gets, Preserves-if, Preserves-lift, Preserves-bind,
  Preserves-then,
)
