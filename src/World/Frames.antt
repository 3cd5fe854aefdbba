-- ===== src/World/Frames.antt =====
-- Steps of the monad of World.Defs: a step that returns, two steps that agree, and a part of the
-- state that a step leaves alone.
use dionysius.Common.{
  Option, none, some, ◌≡◌, refl, ap, sym, ◌∙◌, subst, ℕ, suc, Bool, true, false, if◌then◌else◌,
}
use dionysius.World.Defs.{World, M, pure, ◌>>=◌, ◌>>◌, gets, modify, lift, fault, ask}

-- What follows the first part of a run.
abbrev pub resume : {A B : Type 0} → (A → M B) → Option (A × World) → Option (B × World)
resume f none = none
resume f (some (a, w)) = f a w

pub bind_lem : {A B : Type 0} (m : M A) (f : A → M B) (w : World) → (m >>= f) w ≡ resume f (m w)
unfolding ◌>>=◌
bind_lem m f w = elim (m w) as (λ r. elim r [ none ↦ none | some (a, w') ↦ f a w' ] ≡ resume f r) [
  | none ↦ refl
  | some (a, w') ↦ refl
]

pub bind-some :
    {A B : Type 0} (m : M A) (f : A → M B) {w w' : World} {a : A}
    → m w ≡ some (a, w')
    → (m >>= f) w ≡ f a w'
bind-some m f {w} e = bind_lem m f w ∙ ap (resume f) e

pub bind-none : {A B : Type 0} (m : M A) (f : A → M B) {w : World} → m w ≡ none → (m >>= f) w ≡ none
bind-none m f {w} e = bind_lem m f w ∙ ap (resume f) e

-- Two runs that begin alike, and go on alike from where the first part ends.
pub bind-agree :
    {A B : Type 0} (m : M A) (f g : A → M B) {w : World}
    → ((a : A) (v : World) → m w ≡ some (a, v) → f a v ≡ g a v)
    → (m >>= f) w ≡ (m >>= g) w
bind-agree m f g {w} same = bind_lem m f w ∙ go (m w) refl ∙ sym (bind_lem m g w)
  where
    go : (r : Option (_ × World)) → m w ≡ r → resume f (m w) ≡ resume g (m w)
    go none e = ap (resume f) e ∙ sym (ap (resume g) e)
    go (some (a, v)) e = ap (resume f) e ∙ same a v e ∙ sym (ap (resume g) e)

-- What holds after a step, if the step returns.
abbrev pub Holds : {A : Type 0} → Option (A × World) → (World → Type 0) → Type 0
Holds none P = Unit {0}
Holds (some (a, w)) P = P w

pub Holds-bind :
    {A B : Type 0} (P Q : World → Type 0) (m : M A) (f : A → M B) (w : World)
    → Holds (m w) Q
    → ((a : A) (v : World) → Q v → Holds (f a v) P)
    → Holds ((m >>= f) w) P
Holds-bind P Q m f w hm hf = subst (λ r. Holds r P) (sym (bind_lem m f w)) (go (m w) hm)
  where
    go : (r : Option (_ × World)) → Holds r Q → Holds (resume f r) P
    go none h = tt
    go (some (a, v)) h = hf a v h

-- A part of the state that a step leaves alone.
pub record Keeps {X A : Type 0} (part : World → X) (m : M A) : Type 0 where
  pub at : (w : World) → Holds (m w) (λ w'. part w' ≡ part w)

module _ {X A : Type 0} (part : World → X) where
  pub Keeps-pure : (a : A) → Keeps part (pure a)
  unfolding pure
  Keeps-pure a = record { at = λ w. refl }

  pub Keeps-fault : Keeps {A = A} part fault
  unfolding fault
  Keeps-fault = record { at = λ w. tt }

  pub Keeps-gets : (f : World → A) → Keeps part (gets f)
  unfolding gets
  Keeps-gets f = record { at = λ w. refl }

  pub Keeps-if :
      (b : Bool) (m n : M A) → Keeps part m → Keeps part n → Keeps part (if b then m else n)
  Keeps-if true m n km kn = km
  Keeps-if false m n km kn = kn

  pub Keeps-lift : (o : Option A) → Keeps part (lift o)
  unfolding lift
  Keeps-lift none = Keeps-fault
  Keeps-lift (some a) = Keeps-pure a

  pub Keeps-bind :
      {B : Type 0} (m : M A) (f : A → M B)
      → Keeps part m
      → ((a : A) → Keeps part (f a))
      → Keeps part (m >>= f)
  Keeps-bind {B} m f km kf = record {
    at = λ w.
        subst (λ r. Holds r (λ w'. part w' ≡ part w)) (sym (bind_lem m f w))
          (step w (m w) (km.at w));
  }
    where
      step :
          (w : World) (r : Option (A × World))
          → Holds r (λ w'. part w' ≡ part w)
          → Holds (resume f r) (λ w'. part w' ≡ part w)
      step w none h = tt
      step w (some (a, v)) h = subst (λ x. Holds (f a v) (λ w'. part w' ≡ x)) h ((kf a).at v)

  pub Keeps-some :
      (m : M A) → Keeps part m → {w w' : World} {a : A} → m w ≡ some (a, w') → part w' ≡ part w
  Keeps-some m km {w} e = subst (λ r. Holds r (λ w'. part w' ≡ part w)) e (km.at w)

pub Keeps-modify :
    {X : Type 0} (part : World → X) (f : World → World)
    → ((w : World) → part (f w) ≡ part w)
    → Keeps part (modify f)
unfolding modify
Keeps-modify part f same = record { at = same }

pub Keeps-then :
    {X B : Type 0} (part : World → X) (m : M (Unit {0})) (k : M B)
    → Keeps part m
    → Keeps part k
    → Keeps part (m >> k)
unfolding ◌>>◌
Keeps-then part m k km kk = Keeps-bind part m (λ _. k) km (λ _. kk)

pub Keeps-ask :
    {X : Type 0} (part : World → X)
    → ((w : World) (f : ℕ → ℕ) → part (record w { answers = f }) ≡ part w)
    → Keeps part ask
unfolding ask
Keeps-ask part same = record { at = λ w. same w (λ n. w.answers (suc n)) }

-- Every step leaves nothing alone.
pub Keeps-nothing : {A : Type 0} (m : M A) → Keeps (λ w. tt {0}) m
Keeps-nothing {A} m = record { at = λ w. always (m w) }
  where
    always : (r : Option (A × World)) → Holds r (λ w'. tt {0} ≡ tt)
    always none = tt
    always (some (a, w)) = refl

pub ruleset keeps_rules = (
  Keeps-pure, Keeps-fault, Keeps-gets, Keeps-modify, Keeps-if, Keeps-lift, Keeps-bind, Keeps-then,
)
