-- ===== src/OrdMap.antt =====
-- std::map of the C++ library: a list of pairs in the order of the keys. `find`, `insert` (m[k] = v)
-- and `erase` are what the program calls; a loop over the map is a recursion on the list.
pub mod Entries
pub mod Keys
use mini_dynamo.Base.{
  ℕ, suc, ◌≡◌, refl, ap, sym, ◌∙◌, ◌↔◌, ◌⊎◌, inl, inr, Bool, true, false, Option, none, some, List,
  [], ◌∷◌, arith, if◌then◌else◌, Bool-cases, length, ◌≤◌, ◌+◌,
}

-- A key type with its equality and its strict order, as std::less gives it.
pub record Key (K : Type 0) : Type 0 where
  pub beq : K → K → Bool
  pub lt : K → K → Bool
  pub beq_iff : (a b : K) → (beq a b ≡ true) ↔ (a ≡ b)
  pub lt_irrefl : (a : K) → lt a a ≡ false
  pub lt_trans : (a b c : K) → lt a b ≡ true → lt b c ≡ true → lt a c ≡ true
  pub lt_total : (a b : K) → (lt a b ≡ true) ⊎ ((a ≡ b) ⊎ (lt b a ≡ true))

abbrev pub Map : Type 0 → Type 0 → Type 0
Map K V = List (K × V)

module _ {K V : Type 0} ⦃o : Key K⦄ where
  unfoldable pub find : K → Map K V → Option V
  find k [] = none
  find k ((j, v) ∷ m) = if o.beq k j then some v else find k m

  unfoldable pub insert : K → V → Map K V → Map K V
  insert k v [] = (k, v) ∷ []
  insert k v ((j, w) ∷ m) =
      if o.beq k j
      then (k, v) ∷ m
      else if o.lt k j
      then (k, v) ∷ (j, w) ∷ m
      else (j, w) ∷ insert k v m

  unfoldable pub erase : K → Map K V → Map K V
  erase k [] = []
  erase k ((j, w) ∷ m) = let rest = erase k m in if o.beq k j then rest else (j, w) ∷ rest

  -- Every key lies above `a`.
  abbrev pub Above : K → Map K V → Type 0
  Above a [] = Unit {0}
  Above a ((k, v) ∷ m) = (o.lt a k ≡ true) × Above a m

  abbrev pub Sorted : Map K V → Type 0
  Sorted [] = Unit {0}
  Sorted ((k, v) ∷ m) = Above k m × Sorted m

  pub find-insert :
      (k j : K) (v : V) (m : Map K V)
      → find j (insert k v m) ≡ (if o.beq j k then some v else find j m)
  unfolding find insert
  find-insert k j v [] = refl
  find-insert k j v ((i, w) ∷ m) =
      ground (arith, o.beq_iff k i, o.beq_iff j k, o.beq_iff j i, find-insert k j v m)

  pub find-erase :
      (k j : K) (m : Map K V) → find j (erase k m) ≡ (if o.beq j k then none else find j m)
  unfolding find erase
  find-erase k j [] = ground arith
  find-erase k j ((i, w) ∷ m) =
      ground (arith, o.beq_iff k i, o.beq_iff j k, o.beq_iff j i, find-erase k j m)

  pub Above-trans : (a b : K) (m : Map K V) → o.lt a b ≡ true → Above b m → Above a m
  Above-trans a b [] h s = tt
  Above-trans a b ((k, v) ∷ m) h s = (o.lt_trans a b k h s.0, Above-trans a b m h s.1)

  Above-insert :
      (a k : K) (v : V) (m : Map K V) → o.lt a k ≡ true → Above a m → Above a (insert k v m)
  unfolding insert
  Above-insert a k v [] h s = (h, tt)
  Above-insert a k v ((j, w) ∷ m) h s = ground (arith, Above-insert a k v m h s.1)

  Above-erase : (a k : K) (m : Map K V) → Above a m → Above a (erase k m)
  unfolding erase
  Above-erase a k [] s = tt
  Above-erase a k ((j, w) ∷ m) s = ground (arith, Above-erase a k m s.1)

  pub insert-Sorted : (k : K) (v : V) (m : Map K V) → Sorted m → Sorted (insert k v m)
  unfolding insert
  insert-Sorted k v [] s = (tt, tt)
  insert-Sorted k v ((j, w) ∷ m) s = ground (
    arith,
    o.beq_iff k j,
    o.lt_total k j,
    insert-Sorted k v m s.1,
    Above-insert j k v m,
    Above-trans k j m,
  )

  pub erase-Sorted : (k : K) (m : Map K V) → Sorted m → Sorted (erase k m)
  unfolding erase
  erase-Sorted k [] s = tt
  erase-Sorted k ((j, w) ∷ m) s = ground (arith, erase-Sorted k m s.1, Above-erase j k m s.0)

  pub find-Above : (a : K) (m : Map K V) → Above a m → find a m ≡ none
  unfolding find
  find-Above a [] s = refl
  find-Above a ((k, v) ∷ m) s = ground (arith, o.beq_iff a k, o.lt_irrefl a, find-Above a m s.1)
