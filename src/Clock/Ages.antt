-- ===== src/Clock/Ages.antt =====
-- The list of ages that `prune` sorts: what is in it, and that the sort orders it.
use mini_dynamo.Base.{
  ℕ, suc, ◌≡◌, ◌≢◌, ◌⊎◌, inl, inr, refl, sym, ap, subst, true, false, some, List, [], ◌∷◌, arith,
  Bool-cases, All, length,
}
use mini_dynamo.Text.{Str, str_key, str_eq_iff, str_lt_total, str_lt_trans, str_lt_irrefl}
use mini_dynamo.OrdMap.{Map, find, Sorted, Above}
use mini_dynamo.OrdMap.Entries.{find-tail, find-head}
use mini_dynamo.Clock.{Entry, Age, age_le, place, sort, by_age}

abbrev pub Has : Age → List Age → Type 0
Has a [] = ⊥
Has a (b ∷ l) = (a ≡ b) ⊎ Has a l

abbrev pub Ordered : List Age → Type 0
Ordered [] = Unit {0}
Ordered (a ∷ l) = All (λ b. age_le a b ≡ true) l × Ordered l

-- No two ages of the list have one name.
abbrev pub Distinct : List Age → Type 0
Distinct [] = Unit {0}
Distinct (a ∷ l) = All (λ b. a.1 ≢ b.1) l × Distinct l

age_le_trans : (a b c : Age) → age_le a b ≡ true → age_le b c ≡ true → age_le a c ≡ true
unfolding age_le
age_le_trans (t, n) (u, m) (w, l) p q = ground (
  arith,
  str_lt_total n m,
  str_lt_total m l,
  str_lt_trans l n m,
  str_lt_trans l m n,
  str_lt_trans m l n,
  str_lt_trans m n l,
)

age_le_total : (a b : Age) → age_le a b ≡ false → age_le b a ≡ true
unfolding age_le
age_le_total (t, n) (u, m) p = ground (arith, str_lt_trans n m n, str_lt_irrefl n)

pub Has-place : (a b : Age) (l : List Age) → Has a (place b l) → (a ≡ b) ⊎ Has a l
unfolding place
Has-place a b [] h = h
Has-place a b (c ∷ l) h = ground (arith, Has-place a b l)

pub place-Has : (a b : Age) (l : List Age) → (a ≡ b) ⊎ Has a l → Has a (place b l)
unfolding place
place-Has a b [] h = h
place-Has a b (c ∷ l) h = ground (arith, place-Has a b l)

pub Has-sort : (a : Age) (l : List Age) → Has a (sort l) → Has a l
unfolding sort
Has-sort a [] h = h
Has-sort a (b ∷ l) h = ground (arith, Has-place a b (sort l), Has-sort a l)

pub sort-Has : (a : Age) (l : List Age) → Has a l → Has a (sort l)
unfolding sort
sort-Has a [] h = h
sort-Has a (b ∷ l) h = ground (arith, place-Has a b (sort l), sort-Has a l)

All-place : (P : Age → Type 0) (b : Age) (l : List Age) → P b → All P l → All P (place b l)
unfolding place
All-place P b [] p h = (p, tt)
All-place P b (c ∷ l) p h = ground (arith, All-place P b l p h.1)

All-le :
    (a b : Age) (l : List Age)
    → age_le a b ≡ true
    → All (λ c. age_le b c ≡ true) l
    → All (λ c. age_le a c ≡ true) l
All-le a b [] p h = tt
All-le a b (c ∷ l) p h = (age_le_trans a b c p h.0, All-le a b l p h.1)

place-Ordered : (a : Age) (l : List Age) → Ordered l → Ordered (place a l)
unfolding place
place-Ordered a [] h = (tt, tt)
place-Ordered a (b ∷ l) h = elim (Bool-cases (age_le a b)) [
  | inl first ↦ rw first ((first, All-le a b l first h.0), h)
  | inr later ↦ rw later (All-place _ a l (age_le_total a b later) h.0, place-Ordered a l h.1)
]

pub sort-Ordered : (l : List Age) → Ordered (sort l)
unfolding sort
sort-Ordered [] = tt
sort-Ordered (a ∷ l) = place-Ordered a (sort l) (sort-Ordered l)

place-Distinct :
    (a : Age) (l : List Age) → All (λ b. a.1 ≢ b.1) l → Distinct l → Distinct (place a l)
unfolding place
place-Distinct a [] n d = (tt, tt)
place-Distinct a (b ∷ l) n d = elim (Bool-cases (age_le a b)) [
  | inl first ↦ rw first (n, d)
  | inr later ↦ rw later (All-place _ a l (λ e. n.0 (sym e)) d.0, place-Distinct a l n.1 d.1)
]

All-sort : (P : Age → Type 0) (l : List Age) → All P l → All P (sort l)
unfolding sort
All-sort P [] h = tt
All-sort P (a ∷ l) h = All-place P a (sort l) h.0 (All-sort P l h.1)

pub sort-Distinct : (l : List Age) → Distinct l → Distinct (sort l)
unfolding sort
sort-Distinct [] d = tt
sort-Distinct (a ∷ l) d = place-Distinct a (sort l) (All-sort _ l d.0) (sort-Distinct l d.1)

length-place : (a : Age) (l : List Age) → length (place a l) ≡ suc (length l)
unfolding place
length-place a [] = refl
length-place a (b ∷ l) = ground (arith, length-place a l)

pub length-sort : (l : List Age) → length (sort l) ≡ length l
unfolding sort
length-sort [] = refl
length-sort (a ∷ l) = omega (arith, length-place a (sort l), length-sort l)

-- The ages of a map are those of its entries.
pub by_age-find :
    (k : Str) (t : ℕ) (m : Map Str Entry)
    → Sorted m
    → Has (t, k) (by_age m)
    → (e : Entry) × (find k m ≡ some e) × (e.updated_ms ≡ t)
unfolding by_age
by_age-find k t [] s h = absurd h
by_age-find k t ((j, e) ∷ m) s (inl p) =
    let same : j ≡ k = ap (λ (a : Age). a.1) (sym p) in
    (
      e,
      subst (λ i. find i ((j, e) ∷ m) ≡ some e) same (find-head j e m),
      ap (λ (a : Age). a.0) (sym p),
    )
by_age-find k t ((j, e) ∷ m) s (inr h) =
    let (x, f, g) = by_age-find k t m s.1 h in (x, find-tail k j x e m s.0 f, g)

pub find-by_age :
    (k : Str) (e : Entry) (m : Map Str Entry) → find k m ≡ some e → Has (e.updated_ms, k) (by_age m)
unfolding by_age find
find-by_age k e [] f = absurd (cc)
find-by_age k e ((j, x) ∷ m) f = ground (arith, str_eq_iff k j, find-by_age k e m)

Above-Distinct : (k : Str) (t : ℕ) (m : Map Str Entry) → Above k m → All (λ b. k ≢ b.1) (by_age m)
unfolding by_age
Above-Distinct k t [] s = tt
Above-Distinct k t ((j, e) ∷ m) s = (λ p. ground (arith, str_lt_irrefl k), Above-Distinct k t m s.1)

pub by_age-Distinct : (m : Map Str Entry) → Sorted m → Distinct (by_age m)
unfolding by_age
by_age-Distinct [] s = tt
by_age-Distinct ((k, e) ∷ m) s = (Above-Distinct k 0 m s.0, by_age-Distinct m s.1)

pub length-by_age : (m : Map Str Entry) → length (by_age m) ≡ length m
unfolding by_age
length-by_age [] = refl
length-by_age ((k, e) ∷ m) = ap suc (length-by_age m)
