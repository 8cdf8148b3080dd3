-- ===== src/Ring/Walk.antt =====
-- The loop of `findOwners` ends within one lap, and finds the first members clockwise from the key.
use mini_dynamo.Base.{
  ℕ, zero, suc, ◌+◌, ◌≤◌, ◌<◌, ◌≡◌, ◌⊎◌, inl, inr, refl, ap, subst, sym, true, some, List, [], ◌∷◌,
  arith, min, if◌then◌else◌, ltb, ◌==◌, Bool-cases, length, length-append, All,
}
use mini_dynamo.Text.{Str, str_key, str_eq, str_eq_iff, nat_key}
use mini_dynamo.OrdMap.{Map, find, Sorted}
use mini_dynamo.OrdMap.Keys.{elem, elem-append, NoRepeat, length-Within, length_all_keys}
use mini_dynamo.NodeInfo.{NodeInfo}
use mini_dynamo.Ring.{Router, walk, visit, wrap, lower_bound, find_owners, hash64}
use mini_dynamo.Ring.Owners.{
  Found, ids, pick, Good, Named, visit-Good, pick-Good, AllIn, length-AllIn, visit_full, pick_full,
  elem-visit, visited, length-visit,
}
use mini_dynamo.Ring.Lap.{
  slots, below, clockwise, below-lower_bound, slots-append, length-slots, Passes, clockwise-Passes,
}

module _ (r : Router) (named : Named r.nodes) (sorted : Sorted r.nodes) (n : ℕ) where
  -- Each member has a slot that is still to come, or is chosen already.
  abbrev Covered : List Str → List Str → Type 0
  Covered l chosen =
      (k : Str) (x : NodeInfo)
      → find k r.nodes ≡ some x
      → (elem k chosen ≡ true) ⊎ (elem k l ≡ true)

  -- With every member chosen the loop ends at once.
  walk_full :
      (fuel : ℕ) (it : Map ℕ Str) (found : Found)
      → Good r.nodes found
      → AllIn r.nodes named found.0
      → length found.0 ≡ length r.nodes
      → walk (suc fuel) r n it found ≡ some found.1
  unfolding walk
  walk_full fuel [] found g a e = refl
  walk_full fuel ((h, p) ∷ rest) found g a e =
      rw (visit_full r.nodes named p found a) (ground (arith, e))

  all_chosen :
      (found : Found)
      → Good r.nodes found
      → AllIn r.nodes named found.0
      → length found.0 ≡ length r.nodes
  all_chosen found g a = length_all_keys found.0 r.nodes sorted g.distinct g.within a

  Covered-visit :
      (p : Str) (l : List Str) (found : Found)
      → Covered (p ∷ l) found.0
      → Covered l (visit r.nodes p found).0
  unfolding elem
  Covered-visit p l found c k x there = elim (c k x there) [
    | inl old ↦ inl (elem-visit r.nodes named k p found old)
    | inr ahead ↦ elim (Bool-cases (str_eq k p)) [
      | inr other ↦ inr (ground arith)
      | inl same ↦
          let is = (str_eq_iff k p).0 same in
          inl (
            subst (λ j. elem j (visit r.nodes p found).0 ≡ true) (sym is)
              (visited r.nodes named p x found (subst (λ j. find j r.nodes ≡ some x) is there)))
    ]
  ]

  walk-pick :
      (fuel : ℕ) (it : Map ℕ Str) (found : Found) (l : List Str)
      → Passes r.ring it l
      → length l < fuel
      → Good r.nodes found
      → Covered l found.0
      → walk fuel r n it found ≡ some (pick r.nodes n found l).1
  unfolding walk pick
  walk-pick zero it found l p f g c = absurd (omega arith)
  walk-pick (suc fuel) it found [] p f g c =
      let a : AllIn r.nodes named found.0 =
        λ k x e. elim (c k x e) [ inl is ↦ is | inr none_left ↦ absurd (unfold elem in cc) ] in
      walk_full fuel it found g a (all_chosen found g a)
  walk-pick (suc fuel) it found (p ∷ l) (h, rest, e, q) f g c =
      rw e (elim (Bool-cases (ltb (length found.1) n)) [
        | inr enough ↦ rw enough
        | inl wants ↦ elim (Bool-cases (length (visit r.nodes p found).0 == length r.nodes)) [
          | inr going ↦
              rw (wants, going)
                (walk-pick fuel (wrap r.ring rest) (visit r.nodes p found) l q (omega arith)
                  (visit-Good r.nodes named p found g) (Covered-visit p l found c))
          | inl full ↦
              rw (wants, full)
                (rw (
                  pick_full r.nodes named n (visit r.nodes p found) l (
                    length-AllIn r.nodes named (visit r.nodes p found) sorted
                      (visit-Good r.nodes named p found g) (ground arith))))
        ]
      ])

  length-pick :
      (found : Found) (l : List Str)
      → Good r.nodes found
      → Covered l found.0
      → length found.1 ≤ n
      → length (pick r.nodes n found l).1 ≡ min n (length r.nodes)
  unfolding pick
  length-pick found [] g c h =
      let a : AllIn r.nodes named found.0 =
        λ k x e. elim (c k x e) [ inl is ↦ is | inr none_left ↦ absurd (unfold elem in cc) ] in
      omega (arith, all_chosen found g a, g.as_many)
  length-pick found (p ∷ l) g c h = elim (Bool-cases (ltb (length found.1) n)) [
    | inl wants ↦ rw wants (
        length-pick (visit r.nodes p found) l (visit-Good r.nodes named p found g)
          (Covered-visit p l found c) (ground (arith, length-visit r.nodes named p found)))
    | inr enough ↦
        rw enough
          (ground (arith, length-Within found.0 r.nodes sorted g.distinct g.within, g.as_many))
  ]

-- What the ring keeps: both maps in key order, each member under its own name and with a slot.
pub record IsValid (r : Router) : Type 0 where
  pub ring_sorted : Sorted r.ring
  pub nodes_sorted : Sorted r.nodes
  pub named : Named r.nodes
  pub covered : (k : Str) (x : NodeInfo) → find k r.nodes ≡ some x → elem k (slots r.ring) ≡ true

elem-clockwise :
    (k : Str) (h : ℕ) (ring : Map ℕ Str)
    → elem k (slots ring) ≡ true
    → elem k (clockwise h ring) ≡ true
unfolding clockwise
elem-clockwise k h ring e = ground (
  arith,
  ap slots (below-lower_bound h ring),
  slots-append (below h ring) (lower_bound h ring),
  elem-append k (slots (below h ring)) (slots (lower_bound h ring)),
  elem-append k (slots (lower_bound h ring)) (slots (below h ring)),
)

length-clockwise : (h : ℕ) (ring : Map ℕ Str) → length (clockwise h ring) ≡ length ring
unfolding clockwise
length-clockwise h ring = omega (
  arith,
  ap length (below-lower_bound h ring),
  length-append (below h ring) (lower_bound h ring),
  length-append (slots (lower_bound h ring)) (slots (below h ring)),
  length-slots (below h ring),
  length-slots (lower_bound h ring),
)

pub none_found : (nodes : Map Str NodeInfo) → Good nodes ([], [])
unfolding elem
none_found nodes = record {
  distinct = tt;
  within = λ k h. absurd (cc);
  as_many = refl;
  same = λ k. refl;
  apart = tt;
  members = tt;
}

abbrev pub wanted : ℕ → ℕ
wanted replicas = if replicas == 0 then 1 else replicas

-- The loop ends within one lap and a round, with what the rounds over the slots of a lap gather.
pub find_owners-pick :
    (r : Router) (key : Str) (replicas : ℕ)
    → IsValid r
    → find_owners r key replicas
      ≡ some (pick r.nodes (wanted replicas) ([], []) (clockwise (hash64 key) r.ring)).1
unfolding find_owners
find_owners-pick r key replicas v =
    walk-pick r v.named v.nodes_sorted (wanted replicas) (length r.ring + 1)
      (wrap r.ring (lower_bound (hash64 key) r.ring)) ([], []) (clockwise (hash64 key) r.ring)
      (clockwise-Passes (hash64 key) r.ring) (omega (arith, length-clockwise (hash64 key) r.ring))
      (none_found r.nodes) λ k x e. inr (elem-clockwise k (hash64 key) r.ring (v.covered k x e))

-- The owners that `findOwners` returns are distinct members of the ring, as many as asked for, or all
-- members where there are fewer, if every member has a slot; for no replicas at all, one is found.
pub find_owners_distinct :
    (r : Router) (key : Str) (replicas : ℕ)
    → IsValid r
    → (owners : List NodeInfo) × (find_owners r key replicas ≡ some owners)
      × NoRepeat (ids owners)
      × All (λ (n : NodeInfo). find n.node_id r.nodes ≡ some n) owners
      × (length owners ≡ min (wanted replicas) (length r.nodes))
find_owners_distinct r key replicas v =
    let l = clockwise (hash64 key) r.ring in
    let g = pick-Good r.nodes v.named (wanted replicas) ([], []) l (none_found r.nodes) in
    (
      (pick r.nodes (wanted replicas) ([], []) l).1,
      find_owners-pick r key replicas v,
      g.apart,
      g.members,
      length-pick r v.named v.nodes_sorted (wanted replicas) ([], []) l (none_found r.nodes)
          (λ k x e. inr (elem-clockwise k (hash64 key) r.ring (v.covered k x e))) (omega arith),
    )
