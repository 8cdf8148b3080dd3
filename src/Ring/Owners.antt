-- ===== src/Ring/Owners.antt =====
-- What the loop of `findOwners` gathers, against a plain walk over one lap of the ring.
use mini_dynamo.Base.{
  ℕ, suc, ◌≤◌, ◌≡◌, inl, inr, refl, ap, subst, sym, ◌∙◌, true, false, none, some, List, [], ◌∷◌,
  ◌++◌, arith, if◌then◌else◌, ltb, Bool-cases, Option-cases, length, length-append, All, All-append,
}
use mini_dynamo.Text.{Str, str_key, str_eq, str_eq_iff, nat_key}
use mini_dynamo.OrdMap.{Map, find, Sorted}
use mini_dynamo.OrdMap.Keys.{elem, elem-append, NoRepeat, Within, length-Within}
use mini_dynamo.NodeInfo.{NodeInfo}
use mini_dynamo.Ring.{visit}

abbrev pub Found : Type 0
Found = List Str × List NodeInfo

abbrev pub ids : List NodeInfo → List Str
ids [] = []
ids (n ∷ l) = n.node_id ∷ ids l

-- The first `n` members in the order of the slots, each once: what the loop is to find.
unfoldable pub pick : Map Str NodeInfo → ℕ → Found → List Str → Found
pick nodes n found [] = found
pick nodes n found (phys ∷ l) =
    if ltb (length found.1) n then pick nodes n (visit nodes phys found) l else found

-- The two lists of the loop hold the same distinct members.
pub record Good (nodes : Map Str NodeInfo) (found : Found) : Type 0 where
  pub distinct : NoRepeat found.0
  pub within : Within found.0 nodes
  pub as_many : length found.0 ≡ length found.1
  pub same : (k : Str) → elem k (ids found.1) ≡ elem k found.0
  pub apart : NoRepeat (ids found.1)
  pub members : All (λ (n : NodeInfo). find n.node_id nodes ≡ some n) found.1

abbrev pub Named : Map Str NodeInfo → Type 0
Named nodes = (k : Str) (n : NodeInfo) → find k nodes ≡ some n → n.node_id ≡ k

ids-append : (l m : List NodeInfo) → ids (l ++ m) ≡ ids l ++ ids m
ids-append [] m = refl
ids-append (n ∷ l) m = ap (◌∷◌ n.node_id) (ids-append l m)

NoRepeat-snoc : (k : Str) (l : List Str) → NoRepeat l → elem k l ≡ false → NoRepeat (l ++ k ∷ [])
unfolding elem
NoRepeat-snoc k [] d h = (refl, tt)
NoRepeat-snoc k (j ∷ l) d h = (
  ground (arith, elem-append j l (k ∷ []), str_eq_iff j k, str_eq_iff k j, d.0),
  NoRepeat-snoc k l d.1 (ground arith),
)

elem-cons : (k j : Str) (l : List Str) → elem k (j ∷ l) ≡ (if str_eq k j then true else elem k l)
unfolding elem
elem-cons k j l = refl

module _ (nodes : Map Str NodeInfo) (named : Named nodes) where
  visit_missing :
      (phys : Str) (found : Found) → find phys nodes ≡ none → visit nodes phys found ≡ found
  unfolding visit
  visit_missing phys (c, o) h = ground arith

  visit_again :
      (phys : Str) (found : Found) → elem phys found.0 ≡ true → visit nodes phys found ≡ found
  unfolding visit
  visit_again phys (c, o) h = ground arith

  visit_new :
      (phys : Str) (n : NodeInfo) (found : Found)
      → find phys nodes ≡ some n
      → elem phys found.0 ≡ false
      → visit nodes phys found ≡ (phys ∷ found.0, found.1 ++ n ∷ [])
  unfolding visit
  visit_new phys n (c, o) e h = ground arith

  new-Good :
      (phys : Str) (n : NodeInfo) (c : List Str) (o : List NodeInfo)
      → find phys nodes ≡ some n
      → elem phys c ≡ false
      → Good nodes (c, o)
      → Good nodes (phys ∷ c, o ++ n ∷ [])
  new-Good phys n c o e h g = record {
    distinct = (h, g.distinct);
    within = λ k m. elim (Bool-cases (str_eq k phys)) [
      | inl is ↦ (n, subst (λ j. find j nodes ≡ some n) (sym ((str_eq_iff k phys).0 is)) e)
      | inr not ↦ g.within k (ground (arith, elem-cons k phys c))
    ];
    as_many = omega (arith, g.as_many, length-append o (n ∷ []));
    same = λ k.
        rw (ids-append o (n ∷ []), elem-append k (ids o) (n.node_id ∷ []), named phys n e)
          (ground (arith, g.same k, elem-cons k phys c, elem-cons k phys [], elem-nil k));
    apart =
        rw (ids-append o (n ∷ []))
          (NoRepeat-snoc n.node_id (ids o) g.apart (rw (named phys n e) (g.same phys ∙ h)));
    members =
        All-append _ o (n ∷ []) g.members
          (subst (λ j. find j nodes ≡ some n) (sym (named phys n e)) e, tt);
  }
    where
      elem-nil : (k : Str) → elem k [] ≡ false
      elem-nil k = unfold elem in refl

  pub visit-Good :
      (phys : Str) (found : Found) → Good nodes found → Good nodes (visit nodes phys found)
  visit-Good phys (c, o) g = elim (Option-cases (find phys nodes)) [
    | inl missing ↦ rw (visit_missing phys (c, o) missing) g
    | inr (n, there) ↦ elim (Bool-cases (elem phys c)) [
      | inl again ↦ rw (visit_again phys (c, o) again) g
      | inr fresh ↦ rw (visit_new phys n (c, o) there fresh) (new-Good phys n c o there fresh g)
    ]
  ]

  pub pick-Good :
      (n : ℕ) (found : Found) (l : List Str) → Good nodes found → Good nodes (pick nodes n found l)
  unfolding pick
  pick-Good n found [] g = g
  pick-Good n found (phys ∷ l) g = elim (Bool-cases (ltb (length found.1) n)) [
    | inl wants ↦ rw wants (pick-Good n (visit nodes phys found) l (visit-Good phys found g))
    | inr enough ↦ rw enough g
  ]

  abbrev pub AllIn : List Str → Type 0
  AllIn chosen = (k : Str) (n : NodeInfo) → find k nodes ≡ some n → elem k chosen ≡ true

  -- Where as many names are chosen as there are members, all members are chosen.
  pub length-AllIn :
      (found : Found)
      → Sorted nodes
      → Good nodes found
      → length found.0 ≡ length nodes
      → AllIn found.0
  length-AllIn found o g h k n there = elim (Bool-cases (elem k found.0)) [
    | inl is ↦ is
    | inr not ↦ absurd (
        omega (
          arith,
          length-Within (k ∷ found.0) nodes o (not, g.distinct)
              λ j m. elim (Bool-cases (str_eq j k)) [
                | inl same ↦
                    (n, subst (λ i. find i nodes ≡ some n) (sym ((str_eq_iff j k).0 same)) there)
                | inr other ↦ g.within j (ground (arith, elem-cons j k found.0))
              ],
        ))
  ]

  pub visit_full : (phys : Str) (found : Found) → AllIn found.0 → visit nodes phys found ≡ found
  visit_full phys found a = elim (Option-cases (find phys nodes)) [
    | inl missing ↦ visit_missing phys found missing
    | inr (n, there) ↦ visit_again phys found (a phys n there)
  ]

  pub pick_full :
      (n : ℕ) (found : Found) (l : List Str) → AllIn found.0 → pick nodes n found l ≡ found
  unfolding pick
  pick_full n found [] a = refl
  pick_full n found (phys ∷ l) a = elim (Bool-cases (ltb (length found.1) n)) [
    | inl wants ↦ rw (wants, visit_full phys found a) (pick_full n found l a)
    | inr enough ↦ rw enough
  ]

  -- A visited slot's owner is chosen, and what was chosen stays so.
  pub elem-visit :
      (k phys : Str) (found : Found)
      → elem k found.0 ≡ true
      → elem k (visit nodes phys found).0 ≡ true
  unfolding visit elem
  elem-visit k phys (c, o) h = ground arith

  pub visited :
      (phys : Str) (n : NodeInfo) (found : Found)
      → find phys nodes ≡ some n
      → elem phys (visit nodes phys found).0 ≡ true
  unfolding visit elem
  visited phys n (c, o) h = ground (arith, str_eq_iff phys phys)

  pub length-visit :
      (phys : Str) (found : Found) → length (visit nodes phys found).1 ≤ suc (length found.1)
  length-visit phys (c, o) = elim (Option-cases (find phys nodes)) [
    | inl missing ↦ rw (visit_missing phys (c, o) missing) (omega arith)
    | inr (n, there) ↦ elim (Bool-cases (elem phys c)) [
      | inl again ↦ rw (visit_again phys (c, o) again) (omega arith)
      | inr fresh ↦
          rw (visit_new phys n (c, o) there fresh) (omega (arith, length-append o (n ∷ [])))
    ]
  ]
