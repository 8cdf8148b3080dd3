-- ===== src/Ring/Stability.antt =====
-- Consistent hashing: a node that leaves the ring moves no key but its own.
use mini_dynamo.Base.{
  ℕ, ◌≡◌, inl, inr, refl, ap, subst, sym, ◌∙◌, true, false, none, some, List, [], ◌∷◌, ◌++◌, arith,
  if◌then◌else◌, ltb, Bool-cases, Option-cases, length,
}
use mini_dynamo.Text.{Str, str_key, nat_key, str_eq, str_eq_iff}
use mini_dynamo.OrdMap.{Map, find, erase, find-erase, Above, Sorted}
use mini_dynamo.OrdMap.Keys.{elem}
use mini_dynamo.NodeInfo.{NodeInfo}
use mini_dynamo.Ring.{
  Router, visit, without, lower_bound, remove_physical_node, find_owners, hash64,
}
use mini_dynamo.Ring.Owners.{Found, ids, pick, pick-Good}
use mini_dynamo.Ring.Lap.{slots, below, clockwise}
use mini_dynamo.Ring.Walk.{IsValid, wanted, find_owners-pick, none_found}
use mini_dynamo.Ring.Membership.{Above-without, remove_physical_node-IsValid}

dropped : Str → List Str → List Str
dropped id [] = []
dropped id (p ∷ l) = let rest = dropped id l in if str_eq p id then rest else p ∷ rest

dropped-append : (id : Str) (l m : List Str) → dropped id (l ++ m) ≡ dropped id l ++ dropped id m
unfolding dropped
dropped-append id [] m = refl
dropped-append id (p ∷ l) m = ground (arith, dropped-append id l m)

slots-without : (id : Str) (m : Map ℕ Str) → slots (without id m) ≡ dropped id (slots m)
unfolding without dropped
slots-without id [] = refl
slots-without id ((h, p) ∷ m) = ground (arith, slots-without id m)

-- Behind a slot that is not below the hash none is.
nothing_below :
    (h k : ℕ) (m : Map ℕ Str)
    → ltb k h ≡ false
    → Above k m
    → (lower_bound h m ≡ m) × (below h m ≡ [])
unfolding lower_bound below
nothing_below h k [] f a = (refl, refl)
nothing_below h k ((j, p) ∷ m) f a = ground (arith, a.0)

cut-without :
    (h : ℕ) (id : Str) (m : Map ℕ Str)
    → Sorted m
    → (lower_bound h (without id m) ≡ without id (lower_bound h m))
      × (below h (without id m) ≡ without id (below h m))
unfolding lower_bound below without
cut-without h id [] s = (refl, refl)
cut-without h id ((k, p) ∷ m) s = elim (Bool-cases (ltb k h)) [
  | inl low ↦ ground (arith, cut-without h id m s.1)
  | inr high ↦ ground (arith, nothing_below h k (without id m) high (Above-without k id m s.0))
]

clockwise-without :
    (h : ℕ) (id : Str) (m : Map ℕ Str)
    → Sorted m
    → clockwise h (without id m) ≡ dropped id (clockwise h m)
unfolding clockwise
clockwise-without h id m s = ground (
  arith,
  cut-without h id m s,
  slots-without id (lower_bound h m),
  slots-without id (below h m),
  dropped-append id (slots (lower_bound h m)) (slots (below h m)),
)

pick_full :
    (nodes : Map Str NodeInfo) (n : ℕ) (found : Found) (l : List Str)
    → ltb (length found.1) n ≡ false
    → pick nodes n found l ≡ found
unfolding pick
pick_full nodes n found [] f = refl
pick_full nodes n found (p ∷ l) f = ground arith

visit-keeps :
    (nodes : Map Str NodeInfo) (k phys : Str) (found : Found)
    → elem k found.0 ≡ true
    → elem k (visit nodes phys found).0 ≡ true
unfolding visit elem
visit-keeps nodes k phys (c, o) h = ground arith

pick-keeps :
    (nodes : Map Str NodeInfo) (n : ℕ) (k : Str) (found : Found) (l : List Str)
    → elem k found.0 ≡ true
    → elem k (pick nodes n found l).0 ≡ true
unfolding pick
pick-keeps nodes n k found [] h = h
pick-keeps nodes n k found (p ∷ l) h =
    ground (arith, pick-keeps nodes n k (visit nodes p found) l (visit-keeps nodes k p found h))

visit_self :
    (nodes : Map Str NodeInfo) (id : Str) (found : Found) (x : NodeInfo)
    → find id nodes ≡ some x
    → elem id (visit nodes id found).0 ≡ true
unfolding visit elem
visit_self nodes id (c, o) x e = ground (arith, str_eq_iff id id)

visit-erase :
    (nodes : Map Str NodeInfo) (id phys : Str) (found : Found)
    → str_eq phys id ≡ false
    → visit (erase id nodes) phys found ≡ visit nodes phys found
unfolding visit
visit-erase nodes id phys (c, o) d = ground (arith, find-erase id phys nodes)

-- A node that is not picked can go without changing the pick.
pick-dropped :
    (nodes : Map Str NodeInfo) (n : ℕ) (id : Str) (x : NodeInfo) (found : Found) (l : List Str)
    → find id nodes ≡ some x
    → elem id (pick nodes n found l).0 ≡ false
    → pick (erase id nodes) n found (dropped id l) ≡ pick nodes n found l
unfolding pick dropped
pick-dropped nodes n id x found [] e h = refl
pick-dropped nodes n id x found (p ∷ l) e h = elim (Bool-cases (ltb (length found.1) n)) [
  | inr full ↦ ground (arith, pick_full (erase id nodes) n found (dropped id (p ∷ l)) full)
  | inl room ↦ elim (Bool-cases (str_eq p id)) [
    | inl same ↦ absurd (
        ground (
          arith,
          pick-keeps nodes n id (visit nodes p found) l (
              subst (λ q. elem id (visit nodes q found).0 ≡ true) (sym ((str_eq_iff p id).0 same))
                (visit_self nodes id found x e)),
        ))
    | inr other ↦ ground (
      arith,
      visit-erase nodes id p found other,
      pick-dropped nodes n id x (visit nodes p found) l e (ground arith),
    )
  ]
]

pick-removed :
    (r : Router) (key id : Str) (replicas : ℕ) (x : NodeInfo)
    → IsValid r
    → find id r.nodes ≡ some x
    → elem id (ids (pick r.nodes (wanted replicas) ([], []) (clockwise (hash64 key) r.ring)).1)
      ≡ false
    → pick
        (erase id r.nodes)
        (wanted replicas)
        ([], [])
        (clockwise (hash64 key) (without id r.ring))
      ≡ pick r.nodes (wanted replicas) ([], []) (clockwise (hash64 key) r.ring)
pick-removed r key id replicas x v e h =
    let l = clockwise (hash64 key) r.ring in
    let good = pick-Good r.nodes v.named (wanted replicas) ([], []) l (none_found r.nodes) in
    rw (clockwise-without (hash64 key) id r.ring v.ring_sorted)
      (pick-dropped r.nodes (wanted replicas) id x ([], []) l e (sym (good.same id) ∙ h))

abbrev removed : Router → Str → Router
removed r id = record r { nodes = erase id r.nodes; ring = without id r.ring }

removed_there :
    (r : Router) (id : Str) (x : NodeInfo)
    → find id r.nodes ≡ some x
    → remove_physical_node r id ≡ removed r id
unfolding remove_physical_node
removed_there r id x e = rw (e, remove_physical_node) refl

removed_missing : (r : Router) (id : Str) → find id r.nodes ≡ none → remove_physical_node r id ≡ r
unfolding remove_physical_node
removed_missing r id e = rw (e, remove_physical_node) refl

-- A node that leaves the ring moves no key that it does not own: where the owners of a key are without
-- the node, they are the same, in the same order, once it is removed; every member has a slot.
pub find_owners_stable :
    (r : Router) (key id : Str) (replicas : ℕ) (owners : List NodeInfo)
    → IsValid r
    → find_owners r key replicas ≡ some owners
    → elem id (ids owners) ≡ false
    → find_owners (remove_physical_node r id) key replicas ≡ some owners
find_owners_stable r key id replicas owners v o h = elim (Option-cases (find id r.nodes)) [
  | inl missing ↦
      subst (λ q. find_owners q key replicas ≡ some owners) (sym (removed_missing r id missing)) o
  | inr (x, there) ↦
      let same : (pick r.nodes (wanted replicas) ([], []) (clockwise (hash64 key) r.ring)).1
          ≡ owners =
        ground (arith, find_owners-pick r key replicas v, o) in
      let valid =
        subst IsValid (removed_there r id x there)
          (remove_physical_node-IsValid r id v (ground arith)).0 in
      subst (λ q. find_owners q key replicas ≡ some owners) (sym (removed_there r id x there))
        (find_owners-pick (removed r id) key replicas valid
          ∙ ap (λ (f : Found). some f.1) (pick-removed r key id replicas x v there (rw same h))
          ∙ ap some same)
]
