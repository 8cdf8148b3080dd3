-- ===== src/Clock/Prune.antt =====
-- `prune` bounds the clock by dropping its oldest entries.
use mini_dynamo.Base.{
  ℕ, ◌+◌, ◌-◌, ◌≤◌, ◌<◌, ◌≡◌, ◌≢◌, inl, inr, refl, ap, subst, Bool, true, false, none, some, List,
  [], ◌∷◌, arith, if◌then◌else◌, leb, Bool-cases, Option-cases, All, length, take, min,
}
use mini_dynamo.Text.{Str, str_key, str_eq, str_eq_iff}
use mini_dynamo.OrdMap.{Map, find, erase, Sorted, find-erase, erase-Sorted}
use mini_dynamo.OrdMap.Entries.{length-erase, All-erase, find-head}
use mini_dynamo.Clock.{
  Entry, VectorClock, Age, age_le, sort, by_age, erase_all, prune, size, IsValid,
}
use mini_dynamo.Clock.Ages.{
  Has, Distinct, Has-sort, sort-Has, sort-Ordered, sort-Distinct, length-sort, by_age-find,
  find-by_age, by_age-Distinct, length-by_age,
}
use mini_dynamo.Clock.Cut.{Has-All, Has-take, Has-split, take-le-drop, take-Distinct, length-take}

named : Str → List Age → Bool
named k [] = false
named k (a ∷ l) = if str_eq k a.1 then true else named k l

named-Has : (k : Str) (l : List Age) → named k l ≡ true → (t : ℕ) × Has (t, k) l
unfolding named
named-Has k [] h = absurd (cc)
named-Has k ((t, n) ∷ l) h = elim (Bool-cases (str_eq k n)) [
  | inl same ↦ (t, inl (ap (λ (x : Str). (t, x)) ((str_eq_iff k n).0 same)))
  | inr other ↦ let (u, g) = named-Has k l (ground arith) in (u, inr g)
]

Has-named : (k : Str) (t : ℕ) (l : List Age) → Has (t, k) l → named k l ≡ true
unfolding named
Has-named k t [] h = absurd h
Has-named k t ((u, n) ∷ l) h = ground (arith, str_eq_iff k n, Has-named k t l)

find-erase_all :
    (k : Str) (l : List Age) (m : Map Str Entry)
    → find k (erase_all l m) ≡ (if named k l then none else find k m)
unfolding erase_all named
find-erase_all k [] m = refl
find-erase_all k ((t, n) ∷ l) m = ground (arith, find-erase_all k l (erase n m), find-erase n k m)

erase_all-IsValid :
    (l : List Age) (m : Map Str Entry)
    → IsValid (record { counts = m })
    → IsValid (record { counts = erase_all l m })
unfolding erase_all
erase_all-IsValid [] m v = v
erase_all-IsValid ((t, n) ∷ l) m v =
    erase_all-IsValid l (erase n m)
      (record { sorted = erase-Sorted n m v.sorted; positive = All-erase _ n m v.positive })

pub prune-IsValid : (n : ℕ) (vc : VectorClock) → IsValid vc → IsValid (prune n vc)
unfolding prune
prune-IsValid n vc v = elim (Bool-cases (leb (size vc) n)) [
  | inl within ↦ rw (within, prune) v
  | inr beyond ↦
      rw (beyond, prune)
        (erase_all-IsValid (take (size vc - n) (sort (by_age vc.counts))) vc.counts v)
]

-- Each name of the list is a key of the map.
abbrev AllKeys : List Age → Map Str Entry → Type 0
AllKeys l m = (a : Age) → Has a l → (e : Entry) × (find a.1 m ≡ some e)

still_there :
    (n : Str) (l : List Age) (m : Map Str Entry)
    → All (λ b. n ≢ b.1) l
    → AllKeys l m
    → AllKeys l (erase n m)
still_there n l m d f a h =
    let (e, there) = f a h in
    let differ : n ≢ a.1 = Has-All (λ b. n ≢ b.1) l d h in
    (e, ground (arith, find-erase n a.1 m, str_eq_iff a.1 n))

-- Where each name of the list is in the map, every erasure takes one entry.
length-erase_all :
    (l : List Age) (m : Map Str Entry)
    → Sorted m
    → Distinct l
    → AllKeys l m
    → length (erase_all l m) + length l ≡ length m
unfolding erase_all
length-erase_all [] m s d f = omega arith
length-erase_all ((t, n) ∷ l) m s d f =
    let (e, there) = f (t, n) (inl refl) in
    omega (
      arith,
      length-erase n e m s there,
      length-erase_all l (erase n m) (erase-Sorted n m s) d.1
          (still_there n l m d.0 λ a h. f a (inr h)),
    )

module _ (n : ℕ) (vc : VectorClock) (v : IsValid vc) where
  abbrev ages : List Age
  ages = sort (by_age vc.counts)

  abbrev dropped : List Age
  dropped = take (size vc - n) ages

  dropped-AllKeys : AllKeys dropped vc.counts
  dropped-AllKeys (t, k) h =
      let (e, f, g) =
        by_age-find k t vc.counts v.sorted
          (Has-sort (t, k) (by_age vc.counts) (Has-take (t, k) (size vc - n) ages h)) in
      (e, f)

  dropped_age :
      (k : Str) (e : Entry)
      → find k vc.counts ≡ some e
      → named k dropped ≡ true
      → Has (e.updated_ms, k) dropped
  dropped_age k e there h =
      let (t, g) = named-Has k dropped h in
      let (x, f, u) =
        by_age-find k t vc.counts v.sorted
          (Has-sort (t, k) (by_age vc.counts) (Has-take (t, k) (size vc - n) ages g)) in
      subst (λ w. Has (w, k) dropped) (ground (arith)) g

  length-dropped : n ≤ size vc → length dropped ≡ size vc - n
  unfolding size
  length-dropped h =
      length-take (size vc - n) ages
        (omega (arith, length-sort (by_age vc.counts), length-by_age vc.counts))

  find-prune :
      (k : Str)
      → find k (prune n vc).counts ≡ (
          if leb (size vc) n
          then find k vc.counts
          else if named k dropped
          then none
          else find k vc.counts)
  unfolding prune
  find-prune k = ground (arith, find-erase_all k dropped vc.counts)

-- A pruned clock in key order has as many entries as it had, or `max_entries` where that is less.
pub size-prune : (n : ℕ) (vc : VectorClock) → IsValid vc → size (prune n vc) ≡ min (size vc) n
unfolding prune size
size-prune n vc v = ground (
  arith,
  length-erase_all (dropped n vc v) vc.counts v.sorted
      (take-Distinct _ _ (sort-Distinct (by_age vc.counts) (by_age-Distinct vc.counts v.sorted)))
      (dropped-AllKeys n vc v),
  length-dropped n vc v,
)

-- What `prune` leaves of a clock in key order is as it was, and no entry that it drops is younger than
-- one that it leaves; of entries with one time the smaller node name counts as the older.
pub prune_oldest :
    (n : ℕ) (vc : VectorClock) (j : Str) (d : Entry)
    → IsValid vc
    → find j (prune n vc).counts ≡ some d
    → (find j vc.counts ≡ some d)
      × ((k : Str) (e : Entry)
          → find k vc.counts ≡ some e
          → find k (prune n vc).counts ≡ none
          → age_le (e.updated_ms, k) (d.updated_ms, j) ≡ true)
prune_oldest n vc j d v left = (
  ground (arith, find-prune n vc v j),
  λ k e there gone.
      let out : named k (dropped n vc v) ≡ true = ground (arith, find-prune n vc v k) in
      let beyond : leb (size vc) n ≡ false = ground (arith, find-prune n vc v k) in
      let kept : named j (dropped n vc v) ≡ false = ground (arith, find-prune n vc v j) in
      let was : find j vc.counts ≡ some d = ground (arith, find-prune n vc v j) in
      let old = dropped_age n vc v k e there out in
      let young =
        Has-split (d.updated_ms, j) (size vc - n) (ages n vc v)
          (sort-Has _ (by_age vc.counts) (find-by_age j d vc.counts was)) in
      elim young [
        | inl h ↦ absurd (ground (arith, Has-named j d.updated_ms (dropped n vc v) h))
        | inr h ↦
            take-le-drop _ _ (size vc - n) (ages n vc v) (sort-Ordered (by_age vc.counts)) old h
      ],
)

find_pos : (k : Str) (e : Entry) (m : Map Str Entry) → find k m ≡ some e → 0 < length m
unfolding find
find_pos k e [] h = absurd (cc)
find_pos k e (x ∷ m) h = omega arith

some_entry : (m : Map Str Entry) → 0 < length m → (j : Str) × (d : Entry) × (find j m ≡ some d)
some_entry [] h = absurd (omega arith)
some_entry ((j, d) ∷ m) h = (j, d, find-head j d m)

-- An entry stamped later than every other one outlives the pruning.
pub prune_newest :
    (n : ℕ) (vc : VectorClock) (k : Str) (e : Entry)
    → IsValid vc
    → 0 < n
    → find k vc.counts ≡ some e
    → ((j : Str) (d : Entry) → find j vc.counts ≡ some d → j ≢ k → d.updated_ms < e.updated_ms)
    → find k (prune n vc).counts ≡ some e
unfolding size age_le
prune_newest n vc k e v pos there newest = elim (Option-cases (find k (prune n vc).counts)) [
  | inr (x, kept) ↦ ground (arith, (prune_oldest n vc k x v kept).0)
  | inl gone ↦
      let size_pos : 0 < size vc = find_pos k e vc.counts there in
      let left_pos : 0 < length (prune n vc).counts = omega (arith, size-prune n vc v, size_pos) in
      let (j, d, left) = some_entry (prune n vc).counts left_pos in
      let (was, older) = prune_oldest n vc j d v left in
      absurd (ground (arith, older k e there gone, newest j d was))
]
