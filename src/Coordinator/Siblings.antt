-- ===== src/Coordinator/Siblings.antt =====
-- What `maximalVersions` keeps of the versions that the replicas answered with.
use mini_dynamo.Base.{
  ◌≡◌, ◌⊎◌, inl, inr, refl, subst, true, false, List, [], ◌∷◌, ◌++◌, if◌then◌else◌, arith,
  Bool-cases, All,
}
use mini_dynamo.Clock.{Ordering, compare}
use mini_dynamo.Versioned.{VersionedValue}
use mini_dynamo.Coordinator.Newest.{
  Has, Newer, Same, Clocked, All-Has, Same-refl, Same-Newer, Unbeaten, dominated-Unbeaten,
  Unbeaten-dominated, champion,
}
use mini_dynamo.Coordinator.Reading.{
  Resp, found_versions, dominated, is_equal, duplicate, collect, maximal_versions,
}

-- Every version kept so far is one that is found, and is not beaten.
abbrev Sound : List VersionedValue → List VersionedValue → Type 0
Sound found = All (λ (m : VersionedValue). Has m found × Unbeaten m found)

abbrev pub Apart : List VersionedValue → Type 0
Apart [] = Unit {0}
Apart (m ∷ l) = All (λ (n : VersionedValue). Same m n → ⊥) l × Apart l

abbrev grown : List VersionedValue → VersionedValue → List VersionedValue → List VersionedValue
grown found cand maximal =
    if dominated cand found
    then maximal
    else if duplicate cand maximal
    then maximal
    else maximal ++ cand ∷ []

Sound-append :
    (found maximal : List VersionedValue) (v : VersionedValue)
    → Sound found maximal
    → Has v found
    → Unbeaten v found
    → Sound found (maximal ++ v ∷ [])
Sound-append found [] v s h u = ((h, u), tt)
Sound-append found (m ∷ maximal) v s h u = (s.0, Sound-append found maximal v s.1 h u)

grown-Sound :
    (found maximal : List VersionedValue) (v : VersionedValue)
    → Sound found maximal
    → Has v found
    → Sound found (grown found v maximal)
grown-Sound found maximal v s h = elim (Bool-cases (dominated v found)) [
  | inl p ↦ rw p s
  | inr q ↦ elim (Bool-cases (duplicate v maximal)) [
    | inl p2 ↦ rw (q, p2) s
    | inr q2 ↦ rw (q, q2) (Sound-append found maximal v s h (dominated-Unbeaten v found q))
  ]
]

collect-Sound :
    (found l maximal : List VersionedValue)
    → ((o : VersionedValue) → Has o l → Has o found)
    → Sound found maximal
    → Sound found (collect found l maximal)
unfolding collect
collect-Sound found [] maximal sub s = s
collect-Sound found (x ∷ l) maximal sub s =
    collect-Sound found l (grown found x maximal) (λ o h. sub o (inr h))
      (grown-Sound found maximal x s (sub x (inl refl)))

is_equal-true : (o : Ordering) → is_equal o ≡ true → o ≡ Ordering.equal
is_equal-true Ordering.equal e = refl
is_equal-true Ordering.a_dominates e = ground arith
is_equal-true Ordering.b_dominates e = ground arith
is_equal-true Ordering.concurrent e = ground arith

not_duplicate :
    (v : VersionedValue) (l : List VersionedValue)
    → duplicate v l ≡ false
    → All (λ (m : VersionedValue). Same m v → ⊥) l
unfolding duplicate
not_duplicate v [] e = tt
not_duplicate v (m ∷ l) e = (λ s. ground arith, not_duplicate v l (ground arith))

twin :
    (v : VersionedValue) (l : List VersionedValue)
    → duplicate v l ≡ true
    → (m : VersionedValue) × Has m l × Same m v
unfolding duplicate
twin v [] e = absurd (ground arith)
twin v (m ∷ l) e = elim (Bool-cases (is_equal (compare m.clock v.clock))) [
  | inl p ↦ (m, inl refl, is_equal-true (compare m.clock v.clock) p)
  | inr q ↦ let (n, h, s) = twin v l (ground arith) in (n, inr h, s)
]

Has-append : (m v : VersionedValue) (l : List VersionedValue) → Has m l → Has m (l ++ v ∷ [])
Has-append m v [] h = absurd h
Has-append m v (x ∷ l) (inl e) = inl e
Has-append m v (x ∷ l) (inr h) = inr (Has-append m v l h)

Has-last : (v : VersionedValue) (l : List VersionedValue) → Has v (l ++ v ∷ [])
Has-last v [] = inl refl
Has-last v (x ∷ l) = inr (Has-last v l)

grown-Has :
    (found maximal : List VersionedValue) (v m : VersionedValue)
    → Has m maximal
    → Has m (grown found v maximal)
grown-Has found maximal v m h = elim (Bool-cases (dominated v found)) [
  | inl p ↦ rw p h
  | inr q ↦ elim (Bool-cases (duplicate v maximal)) [
    | inl p2 ↦ rw (q, p2) h
    | inr q2 ↦ rw (q, q2) (Has-append m v maximal h)
  ]
]

collect-Has :
    (found l maximal : List VersionedValue) (m : VersionedValue)
    → Has m maximal
    → Has m (collect found l maximal)
unfolding collect
collect-Has found [] maximal m h = h
collect-Has found (x ∷ l) maximal m h =
    collect-Has found l (grown found x maximal) m (grown-Has found maximal x m h)

abbrev Twin : VersionedValue → List VersionedValue → Type 0
Twin w l = (m : VersionedValue) × Has m l × Same m w

grown-Twin :
    (found maximal : List VersionedValue) (w : VersionedValue)
    → Clocked w
    → dominated w found ≡ false
    → Twin w (grown found w maximal)
grown-Twin found maximal w c u = elim (Bool-cases (duplicate w maximal)) [
  | inl p ↦ rw (u, p) (twin w maximal p)
  | inr q ↦ rw (u, q) (w, Has-last w maximal, Same-refl w c)
]

collect-Twin :
    (found l maximal : List VersionedValue) (w : VersionedValue)
    → Clocked w
    → Unbeaten w found
    → Has w l
    → Twin w (collect found l maximal)
unfolding collect
collect-Twin found [] maximal w c u h = absurd h
collect-Twin found (x ∷ l) maximal w c u (inl e) =
    let (m, h, s) = grown-Twin found maximal w c (Unbeaten-dominated w found u) in
    (
      m,
      collect-Has found l (grown found x maximal) m
          (subst (λ y. Has m (grown found y maximal)) e h),
      s,
    )
collect-Twin found (x ∷ l) maximal w c u (inr h) =
    collect-Twin found l (grown found x maximal) w c u h

All-last :
    (P : VersionedValue → Type 0) (v : VersionedValue) (l : List VersionedValue)
    → All P l
    → P v
    → All P (l ++ v ∷ [])
All-last P v [] a p = (p, tt)
All-last P v (x ∷ l) a p = (a.0, All-last P v l a.1 p)

Apart-last :
    (v : VersionedValue) (l : List VersionedValue)
    → Apart l
    → All (λ (m : VersionedValue). Same m v → ⊥) l
    → Apart (l ++ v ∷ [])
Apart-last v [] a d = (tt, tt)
Apart-last v (x ∷ l) a d = (All-last _ v l a.0 d.0, Apart-last v l a.1 d.1)

grown-Apart :
    (found maximal : List VersionedValue) (v : VersionedValue)
    → Apart maximal
    → Apart (grown found v maximal)
grown-Apart found maximal v a = elim (Bool-cases (dominated v found)) [
  | inl p ↦ rw p a
  | inr q ↦ elim (Bool-cases (duplicate v maximal)) [
    | inl p2 ↦ rw (q, p2) a
    | inr q2 ↦ rw (q, q2) (Apart-last v maximal a (not_duplicate v maximal q2))
  ]
]

collect-Apart :
    (found l maximal : List VersionedValue) → Apart maximal → Apart (collect found l maximal)
unfolding collect
collect-Apart found [] maximal a = a
collect-Apart found (x ∷ l) maximal a =
    collect-Apart found l (grown found x maximal) (grown-Apart found maximal x a)

pub maximal_versions-Sound :
    (responses : List Resp)
    → All
        (λ (m : VersionedValue).
          Has m (found_versions responses) × Unbeaten m (found_versions responses))
        (maximal_versions responses)
unfolding maximal_versions
maximal_versions-Sound responses =
    collect-Sound (found_versions responses) (found_versions responses) [] (λ o h. h) tt

pub maximal_versions-cover :
    (responses : List Resp) (v : VersionedValue)
    → All Clocked (found_versions responses)
    → Has v (found_versions responses)
    → (m : VersionedValue) × Has m (maximal_versions responses) × (Same m v ⊎ Newer m v)
unfolding maximal_versions
maximal_versions-cover responses v c h =
    let found = found_versions responses in
    let (w, hw, t, u) = champion found found v c (λ o a. a) h in
    let cw = All-Has Clocked w found c hw in
    let cv = All-Has Clocked v found c h in
    let (m, hm, s) = collect-Twin found found [] w cw u hw in
    let cm = All-Has Clocked m found c (All-Has _ m _ (maximal_versions-Sound responses) hm).0 in
    (
      m,
      hm,
      elim t [ inl e ↦ inl (subst (Same m) e s) | inr n ↦ inr (Same-Newer m w v cm cw cv s n) ],
    )

-- The versions that a read keeps of its responses: each is one that was found, and no found version is
-- strictly newer; no two of them have the same clock; and every found version is the same as one that
-- is kept, or older, as far as `compare` tells. The clocks are in key order, with no stored zero.
pub maximal_versions_exact :
    (responses : List Resp)
    → All Clocked (found_versions responses)
    → All
        (λ (m : VersionedValue).
          Has m (found_versions responses) × Unbeaten m (found_versions responses))
        (maximal_versions responses)
      × Apart (maximal_versions responses)
      × ((v : VersionedValue)
          → Has v (found_versions responses)
          → (m : VersionedValue) × Has m (maximal_versions responses) × (Same m v ⊎ Newer m v))
maximal_versions_exact responses c = (
  maximal_versions-Sound responses,
  unfold maximal_versions in
      collect-Apart (found_versions responses) (found_versions responses) [] tt,
  λ v h. maximal_versions-cover responses v c h,
)
