-- ===== src/Ring/First.antt =====
-- The owners of a key, described with no loop: the members of the slots from the hash on, and then of
-- those before it, each where its name stands first.
use mini_dynamo.Base.{
  ℕ, zero, suc, ◌-◌, ◌<◌, ◌≡◌, refl, ap, sym, ◌∙◌, not, true, false, none, some, List, [], ◌∷◌,
  ◌++◌, ltb, length, length-append, filter, take, arith, Bool-cases, Option-cases, inl, inr,
  append-nil, append_assoc,
}
use mini_dynamo.Text.{Str, str_key, nat_key}
use mini_dynamo.OrdMap.{Map, find, Sorted, Above}
use mini_dynamo.OrdMap.Keys.{elem}
use mini_dynamo.NodeInfo.{NodeInfo}
use mini_dynamo.Ring.{Router, visit, lower_bound, find_owners, hash64}
use mini_dynamo.Ring.Owners.{Found, pick}
use mini_dynamo.Ring.Lap.{slots, below, clockwise}
use mini_dynamo.Ring.Walk.{IsValid, wanted, find_owners-pick}

-- The names at the slots, from the hash on and then from the start.
abbrev pub from_hash : ℕ → Map ℕ Str → List Str
from_hash h ring =
    slots (filter (λ s. not (ltb s.0 h)) ring) ++ slots (filter (λ s. ltb s.0 h) ring)

-- The members of a list of names, in its order, each name once and none of `seen`.
unfoldable pub firsts : Map Str NodeInfo → List Str → List Str → List NodeInfo
firsts nodes seen [] = []
firsts nodes seen (name ∷ l) = elim (find name nodes) [
  | none ↦ firsts nodes seen l
  | some info ↦ elim (elem name seen) [
    | true ↦ firsts nodes seen l
    | false ↦ info ∷ firsts nodes (name ∷ seen) l
  ]
]

none_below :
    (k h : ℕ) (m : Map ℕ Str)
    → Above k m
    → ltb k h ≡ false
    → (filter (λ s. ltb s.0 h) m ≡ []) × (filter (λ s. not (ltb s.0 h)) m ≡ m)
none_below k h [] a e = (refl, refl)
none_below k h ((j, p) ∷ m) a e =
    let later : ltb j h ≡ false = ground (arith, a.0) in
    let (nothing, all) = none_below k h m a.1 e in rw later (nothing, ap (◌∷◌ (j, p)) all)

lower_bound_filters :
    (h : ℕ) (m : Map ℕ Str) → Sorted m → lower_bound h m ≡ filter (λ s. not (ltb s.0 h)) m
unfolding lower_bound
lower_bound_filters h [] s = refl
lower_bound_filters h ((k, p) ∷ m) s = elim (Bool-cases (ltb k h)) [
  | inl before ↦ rw before (lower_bound_filters h m s.1)
  | inr from ↦ rw from (ap (◌∷◌ (k, p)) (sym (none_below k h m s.0 from).1))
]

below_filters : (h : ℕ) (m : Map ℕ Str) → Sorted m → below h m ≡ filter (λ s. ltb s.0 h) m
unfolding below
below_filters h [] s = refl
below_filters h ((k, p) ∷ m) s = elim (Bool-cases (ltb k h)) [
  | inl before ↦ rw before (ap (◌∷◌ (k, p)) (below_filters h m s.1))
  | inr from ↦ rw from (sym (none_below k h m s.0 from).0)
]

lap_from_hash : (h : ℕ) (m : Map ℕ Str) → Sorted m → clockwise h m ≡ from_hash h m
unfolding clockwise
lap_from_hash h m s = rw (lower_bound_filters h m s, below_filters h m s) refl

take_none : {n : ℕ} (l : List NodeInfo) → n ≡ 0 → take n l ≡ []
take_none l e = ap (λ m. take m l) e

take_next : {n m : ℕ} (x : NodeInfo) (l : List NodeInfo) → n ≡ suc m → take n (x ∷ l) ≡ x ∷ take m l
take_next x l e = ap (λ k. take k (x ∷ l)) e

-- One more owner takes the place of the first that is to come.
snoc_first :
    (n : ℕ) (owners : List NodeInfo) (x : NodeInfo) (l : List NodeInfo)
    → length owners < n
    → (owners ++ x ∷ []) ++ take (n - length (owners ++ x ∷ [])) l
      ≡ owners ++ take (n - length owners) (x ∷ l)
snoc_first n owners x l h =
    let more : n - length owners ≡ suc (n - length (owners ++ x ∷ [])) =
      omega (arith, length-append owners (x ∷ [])) in
    append_assoc owners (x ∷ []) (take (n - length (owners ++ x ∷ [])) l)
    ∙ ap (λ t. owners ++ t) (sym (take_next x l more))

visit_first :
    (nodes : Map Str NodeInfo) (n : ℕ) (chosen : List Str) (owners : List NodeInfo) (p : Str)
    (l : List Str)
    → length owners < n
    → (visit nodes p (chosen, owners)).1
        ++ take
            (n - length (visit nodes p (chosen, owners)).1)
            (firsts nodes (visit nodes p (chosen, owners)).0 l)
      ≡ owners ++ take (n - length owners) (firsts nodes chosen (p ∷ l))
unfolding visit firsts
visit_first nodes n chosen owners p l h = elim (Option-cases (find p nodes)) [
  | inl missing ↦ rw (visit, firsts, missing) refl
  | inr (info, there) ↦ elim (Bool-cases (elem p chosen)) [
    | inl again ↦ rw (visit, firsts, there, again) refl
    | inr new ↦
        rw (visit, firsts, there, new) (snoc_first n owners info (firsts nodes (p ∷ chosen) l) h)
  ]
]

-- The picked owners are those there were and the first others, up to the number wanted.
pick-firsts :
    (nodes : Map Str NodeInfo) (n : ℕ) (found : Found) (l : List Str)
    → (pick nodes n found l).1 ≡ found.1 ++ take (n - length found.1) (firsts nodes found.0 l)
unfolding pick firsts
pick-firsts nodes n (chosen, owners) [] =
    sym (ap (λ t. owners ++ t) (take_nil (n - length owners)) ∙ append-nil owners)
  where
    take_nil : (m : ℕ) → take m (firsts nodes chosen []) ≡ []
    take_nil zero = refl
    take_nil (suc m) = refl
pick-firsts nodes n (chosen, owners) (p ∷ l) = elim (Bool-cases (ltb (length owners) n)) [
  | inr enough ↦
      let none_wanted : n - length owners ≡ 0 = ground arith in
      rw enough (
        sym (
          ap (λ t. owners ++ t) (take_none (firsts nodes chosen (p ∷ l)) none_wanted)
          ∙ append-nil owners))
  | inl wants ↦ rw wants (
      pick-firsts nodes n (visit nodes p (chosen, owners)) l
      ∙ visit_first nodes n chosen owners p l (ground arith))
]

-- The owners of a key: `findOwners` ends and returns the first members, as many as are wanted and there
-- are, in the order of the slots clockwise from the hash of the key, a slot at the hash included, and
-- then from the start of the ring, each member at the first of its slots; every member has a slot.
pub find_owners_first :
    (r : Router) (key : Str) (replicas : ℕ)
    → IsValid r
    → find_owners r key replicas
      ≡ some (take (wanted replicas) (firsts r.nodes [] (from_hash (hash64 key) r.ring)))
find_owners_first r key replicas v =
    find_owners-pick r key replicas v
    ∙ ap (λ l. some (pick r.nodes (wanted replicas) ([], []) l).1)
        (lap_from_hash (hash64 key) r.ring v.ring_sorted)
    ∙ ap some (pick-firsts r.nodes (wanted replicas) ([], []) (from_hash (hash64 key) r.ring))
    ∙ ap (λ m. some (take m (firsts r.nodes [] (from_hash (hash64 key) r.ring))))
        (less_zero (wanted replicas))
  where
    less_zero : (m : ℕ) → m - 0 ≡ m
    less_zero m = omega arith
