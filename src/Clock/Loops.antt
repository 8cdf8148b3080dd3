-- ===== src/Clock/Loops.antt =====
-- What the two loops of `compare` find out.
use mini_dynamo.Base.{
  ◌≤◌, ◌<◌, ◌≡◌, ◌⊎◌, inl, inr, Bool, true, false, none, some, [], ◌∷◌, arith, if◌then◌else◌, ltb,
  Bool-cases, Option-cases, All,
}
use mini_dynamo.Text.{Str, str_key}
use mini_dynamo.OrdMap.{Map, find, Sorted}
use mini_dynamo.OrdMap.Entries.{All-find, find-tail, find-head}
use mini_dynamo.Clock.{Entry, VectorClock, get, walk_a, walk_b, IsValid, is_some}

-- `b` has seen all that `a` has.
abbrev pub Le : VectorClock → VectorClock → Type 0
Le a b = (k : Str) → get a k ≤ get b k

-- `a` has seen a write that `b` has not.
abbrev pub Ahead : VectorClock → VectorClock → Type 0
Ahead a b = (k : Str) × (get b k < get a k)

abbrev Covers : VectorClock → Map Str Entry → Type 0
Covers b m = All (λ (kv : Str × Entry). kv.1.counter ≤ get b kv.0) m

-- An entry of `m` that is ahead of `b`.
abbrev Over : VectorClock → Map Str Entry → Type 0
Over b m = (k : Str) × (e : Entry) × (find k m ≡ some e) × (get b k < e.counter)

-- An entry of `m` that is behind `b`.
abbrev Under : VectorClock → Map Str Entry → Type 0
Under b m = (k : Str) × (e : Entry) × (find k m ≡ some e) × (e.counter < get b k)

Le_of_Covers : (a b : VectorClock) → Covers b a.counts → Le a b
unfolding get
Le_of_Covers a b c k = elim (Option-cases (find k a.counts)) [
  | inl e ↦ ground arith
  | inr (x, e) ↦ ground (arith, All-find (λ kv. kv.1.counter ≤ get b kv.0) k x a.counts c e)
]

walk_a-Covers :
    (b : VectorClock) (m : Map Str Entry) (ag bg : Bool)
    → (walk_a b m ag bg).0 ≡ false
    → (ag ≡ false) × Covers b m
unfolding walk_a
walk_a-Covers b [] ag bg h = (h, tt)
walk_a-Covers b ((k, e) ∷ m) ag bg h = ground (
  arith,
  walk_a-Covers b m (if ltb (get b k) e.counter then true else ag)
      (if ltb (get b k) e.counter then bg else if ltb e.counter (get b k) then true else bg),
)

walk_a-Over :
    (b : VectorClock) (m : Map Str Entry) (ag bg : Bool)
    → Sorted m
    → (walk_a b m ag bg).0 ≡ true
    → (ag ≡ true) ⊎ Over b m
unfolding walk_a
walk_a-Over b [] ag bg s h = inl h
walk_a-Over b ((k, e) ∷ m) ag bg s h = elim (walk_a-Over b m _ _ s.1 h) [
  | inr (j, x, f, g) ↦ inr (j, x, find-tail j k x e m s.0 f, g)
  | inl t ↦ elim (Bool-cases (ltb (get b k) e.counter)) [
    | inl over ↦ inr (k, e, find-head k e m, ground arith)
    | inr under ↦ inl (ground arith)
  ]
]

abbrev Covered : VectorClock → Map Str Entry → Type 0
Covered b m = All (λ (kv : Str × Entry). get b kv.0 ≤ kv.1.counter) m

walk_a-Covered :
    (b : VectorClock) (m : Map Str Entry) (ag bg : Bool)
    → (walk_a b m ag bg).1 ≡ false
    → (bg ≡ false) × Covered b m
unfolding walk_a
walk_a-Covered b [] ag bg h = (h, tt)
walk_a-Covered b ((k, e) ∷ m) ag bg h = ground (
  arith,
  walk_a-Covered b m (if ltb (get b k) e.counter then true else ag)
      (if ltb (get b k) e.counter then bg else if ltb e.counter (get b k) then true else bg),
)

walk_a-Under :
    (b : VectorClock) (m : Map Str Entry) (ag bg : Bool)
    → Sorted m
    → (walk_a b m ag bg).1 ≡ true
    → (bg ≡ true) ⊎ Under b m
unfolding walk_a
walk_a-Under b [] ag bg s h = inl h
walk_a-Under b ((k, e) ∷ m) ag bg s h = elim (walk_a-Under b m _ _ s.1 h) [
  | inr (j, x, f, g) ↦ inr (j, x, find-tail j k x e m s.0 f, g)
  | inl t ↦ elim (Bool-cases (ltb e.counter (get b k))) [
    | inl under ↦ inr (k, e, find-head k e m, ground arith)
    | inr over ↦ inl (ground arith)
  ]
]

abbrev Known : VectorClock → Map Str Entry → Type 0
Known a m = All (λ (kv : Str × Entry). is_some (find kv.0 a.counts) ≡ true) m

-- An entry of `m` that `a` does not have.
abbrev Fresh : VectorClock → Map Str Entry → Type 0
Fresh a m = (k : Str) × (e : Entry) × (find k m ≡ some e) × (find k a.counts ≡ none)

walk_b-Known :
    (a : VectorClock) (m : Map Str Entry) (bg : Bool)
    → walk_b a m bg ≡ false
    → (bg ≡ false) × Known a m
unfolding walk_b
walk_b-Known a [] bg h = (h, tt)
walk_b-Known a ((k, e) ∷ m) bg h =
    ground (arith, walk_b-Known a m (if is_some (find k a.counts) then bg else true))

walk_b-Fresh :
    (a : VectorClock) (m : Map Str Entry) (bg : Bool)
    → Sorted m
    → walk_b a m bg ≡ true
    → (bg ≡ true) ⊎ Fresh a m
unfolding walk_b
walk_b-Fresh a [] bg s h = inl h
walk_b-Fresh a ((k, e) ∷ m) bg s h = elim (walk_b-Fresh a m _ s.1 h) [
  | inr (j, x, f, g) ↦ inr (j, x, find-tail j k x e m s.0 f, g)
  | inl t ↦ elim (Option-cases (find k a.counts)) [
    | inl missing ↦ inr (k, e, find-head k e m, missing)
    | inr (x, there) ↦ inl (ground arith)
  ]
]

Le_of_flags : (a b : VectorClock) → Covered b a.counts → Known a b.counts → Le b a
unfolding get
Le_of_flags a b c n k = elim (Option-cases (find k a.counts)) [
  | inr (x, e) ↦ ground (arith, All-find (λ kv. get b kv.0 ≤ kv.1.counter) k x a.counts c e)
  | inl e ↦ elim (Option-cases (find k b.counts)) [
    | inl f ↦ ground arith
    | inr (y, f) ↦
        ground (arith, All-find (λ kv. is_some (find kv.0 a.counts) ≡ true) k y b.counts n f)
  ]
]

Over-Ahead : (a b : VectorClock) → Over b a.counts → Ahead a b
unfolding get
Over-Ahead a b (k, e, f, g) = (k, ground arith)

Under-Ahead : (a b : VectorClock) → Under b a.counts → Ahead b a
unfolding get
Under-Ahead a b (k, e, f, g) = (k, ground arith)

Fresh-Ahead : (a b : VectorClock) → IsValid b → Fresh a b.counts → Ahead b a
unfolding get
Fresh-Ahead a b v (k, e, f, g) =
    (k, ground (arith, All-find (λ kv. 0 < kv.1.counter) k e b.counts v.positive f))

-- The two flags that `compare` ends with.
abbrev pub a_flag : VectorClock → VectorClock → Bool
a_flag a b = (walk_a b a.counts false false).0

abbrev pub b_flag : VectorClock → VectorClock → Bool
b_flag a b = walk_b a b.counts (walk_a b a.counts false false).1

pub a_flag-Ahead : (a b : VectorClock) → IsValid a → a_flag a b ≡ true → Ahead a b
a_flag-Ahead a b v h = elim (walk_a-Over b a.counts false false v.sorted h) [
  | inl t ↦ absurd (cc)
  | inr o ↦ Over-Ahead a b o
]

pub a_flag-Le : (a b : VectorClock) → a_flag a b ≡ false → Le a b
a_flag-Le a b h = Le_of_Covers a b (walk_a-Covers b a.counts false false h).1

pub b_flag-Ahead : (a b : VectorClock) → IsValid a → IsValid b → b_flag a b ≡ true → Ahead b a
b_flag-Ahead a b v w h = elim (walk_b-Fresh a b.counts _ w.sorted h) [
  | inr fresh ↦ Fresh-Ahead a b w fresh
  | inl t ↦ elim (walk_a-Under b a.counts false false v.sorted t) [
    | inl u ↦ absurd (cc)
    | inr under ↦ Under-Ahead a b under
  ]
]

pub b_flag-Le : (a b : VectorClock) → b_flag a b ≡ false → Le b a
b_flag-Le a b h =
    let known = walk_b-Known a b.counts _ h in
    Le_of_flags a b (walk_a-Covered b a.counts false false known.0).1 known.1
