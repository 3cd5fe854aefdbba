-- ===== src/Padding/Filled.antt =====
-- The cache of dummies of Padding_functions.cpp is filled by the constructor.
use dionysius.Common.{
  ℕ, zero, suc, ◌+◌, ◌<◌, List, [], ◌∷◌, length, length-set, get_elem?, set, some, Bool-cases,
  false, inl, inr, ◌==◌, ==-zero, ==_iff, magnitude, ◌≡◌, refl, ap, ◌∙◌, arith,
}
use dionysius.Message.{SrppMessage}
use dionysius.World.{World, pure, modify, srpp_rand, construct}
use dionysius.World.Creation.{created, construct_lem}
use dionysius.World.Draws.{srpp_rand_lem}
use dionysius.World.Returns.{Returns, Returns-bind, Returns-known, Returns-then, Returns-gets}
use dionysius.Padding.Cache.{
  max_dummy_cache_size, random_chars, set_dummy, fill_entry, fill_cache, new_padding_functions,
}
use dionysius.Padding.Draws.{random_chars-returns}
use dionysius.Padding.Filling.{IsFilled}

get_elem?-set :
    {A : Type 0} (xs : List A) (i : ℕ) (v : A) → i < length xs → get_elem? (set xs i v) i ≡ some v
get_elem?-set [] i v h = absurd (omega arith)
get_elem?-set (x ∷ xs) zero v h = refl
get_elem?-set (x ∷ xs) (suc i) v h = get_elem?-set xs i v (omega arith)

get_elem?-set_other :
    {A : Type 0} (xs : List A) (i j : ℕ) (v : A)
    → (j == i) ≡ false
    → get_elem? (set xs i v) j ≡ get_elem? xs j
get_elem?-set_other [] i j v h = refl
get_elem?-set_other (x ∷ xs) zero zero v h = absurd (ground (arith, h))
get_elem?-set_other (x ∷ xs) zero (suc j) v h = refl
get_elem?-set_other (x ∷ xs) (suc i) zero v h = refl
get_elem?-set_other (x ∷ xs) (suc i) (suc j) v h = get_elem?-set_other xs i j v (ground (arith, h))

-- The entry has a payload.
abbrev pub HasDummy : List SrppMessage → ℕ → Type 0
HasDummy cache i =
    (dummy : SrppMessage) × (get_elem? cache i ≡ some dummy)
    × (0 < length dummy.encrypted_part.original_payload)

module _ (cache : List SrppMessage) (at : ℕ) (msg : SrppMessage)
    (some_payload : 0 < length msg.encrypted_part.original_payload)
    (inside : at < length cache) where
  HasDummy-set : (i : ℕ) → (((i == at) ≡ false) → HasDummy cache i) → HasDummy (set cache at msg) i
  HasDummy-set i old = elim (Bool-cases (i == at)) [
    | inl here ↦ (
      msg,
      ap (get_elem? (set cache at msg)) ((==_iff i at).0 here) ∙ get_elem?-set cache at msg inside,
      some_payload,
    )
    | inr there ↦
        let entry = old there in
        (entry.0, get_elem?-set_other cache at i msg there ∙ entry.1, entry.2)
  ]

-- A write of a message with a payload keeps the cache filled.
pub IsFilled-set :
    (cache : List SrppMessage) (at : ℕ) (msg : SrppMessage)
    → IsFilled cache
    → 0 < length msg.encrypted_part.original_payload
    → at < length cache
    → IsFilled (set cache at msg)
IsFilled-set cache at msg filled some_payload inside i h =
    HasDummy-set cache at msg some_payload inside i (λ _. filled i h)

-- While the constructor runs: the array of 100, a packet size other than 0, the key, and the entries
-- below `n`.
abbrev pub FilledTo : ℕ → World → Type 0
FilledTo n w =
    (length w.padding.dummy_cache ≡ 100)
    × (0 < magnitude w.maxpacketsize)
    × ((i : ℕ) → i < n → HasDummy w.padding.dummy_cache i)

fill_entry-returns :
    (n : ℕ) (w : World)
    → n < 100
    → FilledTo n w
    → Returns (fill_entry n w) (λ _ u. FilledTo (suc n) u)
unfolding fill_entry set_dummy modify
fill_entry-returns n w inside h = Returns-known construct _ (construct_lem w) (
    Returns-gets _ _ (
      Returns-bind (λ size u. FilledTo n u × (0 < size)) (srpp_rand 1 w.maxpacketsize) _ drawn
        (λ size u k.
          Returns-bind _ (random_chars size) _
            (random_chars-returns (FilledTo n) (λ x f q. q) size u k.0)
            (λ payload x q. (
              tt,
              _,
              refl,
              (
                length-set x.padding.dummy_cache n _ ∙ q.0.0,
                q.0.1,
                λ i i_below.
                    HasDummy-set x.padding.dummy_cache n _ (omega (arith, q.1, k.1))
                      (omega (arith, q.0.0)) i (λ other. q.0.2 i (ground (arith, i_below, other))),
              ),
            )))))
  where
    drawn : Returns (srpp_rand 1 w.maxpacketsize (created w)) (λ size u. FilledTo n u × (0 < size))
    drawn = (
      _,
      _,
      srpp_rand_lem 1 w.maxpacketsize (created w) (==-zero (magnitude w.maxpacketsize) h.1),
      (h, omega arith),
    )

fill_cache-returns :
    (rounds n : ℕ) (w : World)
    → rounds + n < 101
    → FilledTo n w
    → Returns (fill_cache rounds n w) (λ _ u. FilledTo (rounds + n) u)
unfolding fill_cache pure
fill_cache-returns zero n w inside h = (tt, w, refl, (h.0, h.1, λ i below. h.2 i (omega arith)))
fill_cache-returns (suc rounds) n w inside h =
    Returns-then (FilledTo (suc n)) (fill_entry n) _ (fill_entry-returns n w (omega arith) h)
      (λ u k.
        let r =
          fill_cache-returns rounds (n + 1) u (omega arith)
            (k.0, k.1, λ i below. k.2 i (omega arith)) in
        (r.0, r.1, r.2, (r.3.0, r.3.1, λ i below. r.3.2 i (omega arith))))

-- The constructor of `PaddingFunctions` returns, from an array of 100 dummies and for a packet size
-- other than 0, with an array of 100 dummies whose entries below 99 all have a payload.
pub new_padding_functions-IsFilled :
    (w : World)
    → length w.padding.dummy_cache ≡ 100
    → 0 < magnitude w.maxpacketsize
    → Returns
        (new_padding_functions w)
        (λ _ u. (length u.padding.dummy_cache ≡ 100) × IsFilled u.padding.dummy_cache)
unfolding new_padding_functions
new_padding_functions-IsFilled w size some_size =
    let r =
      fill_cache-returns max_dummy_cache_size 0 w (omega arith)
        (size, some_size, λ i below. absurd (omega arith)) in
    (r.0, r.1, r.2, (r.3.0, r.3.2))
