-- ===== src/Coordinator/Newest.antt =====
-- Versions by their clocks: what is strictly newer, and that a newest one is there.
use mini_dynamo.Base.{
  ◌≡◌, ◌⊎◌, inl, inr, refl, subst, sym, false, List, [], ◌∷◌, arith, Bool-cases, All,
}
use native.Mathlib.Nat.{le_trans}
use mini_dynamo.Clock.{Ordering, compare, IsValid}
use mini_dynamo.Clock.Loops.{Le}
use mini_dynamo.Clock.Order.{
  Means, compare-Means, compare_of_Means, compare_trans, compare-Dominates,
}
use mini_dynamo.Versioned.{VersionedValue}
use mini_dynamo.Replica.{is_a_dominates}
use mini_dynamo.Replica.NeverRegress.{is_a_dominates-true}
use mini_dynamo.Coordinator.Reading.{dominated}

abbrev pub Has : VersionedValue → List VersionedValue → Type 0
Has v [] = ⊥
Has v (x ∷ l) = (v ≡ x) ⊎ Has v l

-- Strictly newer, as `compare` says.
abbrev pub Newer : VersionedValue → VersionedValue → Type 0
Newer v w = compare v.clock w.clock ≡ Ordering.a_dominates

abbrev pub Same : VersionedValue → VersionedValue → Type 0
Same v w = compare v.clock w.clock ≡ Ordering.equal

abbrev pub Clocked : VersionedValue → Type 0
Clocked v = IsValid v.clock

pub All-Has :
    (P : VersionedValue → Type 0) (v : VersionedValue) (l : List VersionedValue)
    → All P l
    → Has v l
    → P v
All-Has P v [] a h = absurd h
All-Has P v (x ∷ l) a (inl e) = subst P (sym e) a.0
All-Has P v (x ∷ l) a (inr h) = All-Has P v l a.1 h

pub Same-refl : (v : VersionedValue) → Clocked v → Same v v
Same-refl v c =
    compare_of_Means Ordering.equal v.clock v.clock c c (λ k. omega arith, λ k. omega arith)

Newer-irrefl : (v : VersionedValue) → Clocked v → Newer v v → ⊥
Newer-irrefl v c n = ground (arith, Same-refl v c)

Newer-asym : (v w : VersionedValue) → Clocked v → Clocked w → Newer v w → Newer w v → ⊥
Newer-asym v w c d n m = Newer-irrefl v c (compare_trans v.clock w.clock v.clock c d c n m)

pub Same-Newer :
    (m w v : VersionedValue) → Clocked m → Clocked w → Clocked v → Same m w → Newer w v → Newer m v
Same-Newer m w v c d e s n =
    let same : Le m.clock w.clock × Le w.clock m.clock =
      subst (λ o. Means o m.clock w.clock) s (compare-Means m.clock w.clock c d) in
    let (le, (k, ahead)) = compare-Dominates w.clock v.clock d e n in
    compare_of_Means Ordering.a_dominates m.clock v.clock c e
      (λ j. le_trans (le j) (same.1 j), (k, omega (arith, same.1 k)))

-- Nothing that is found is strictly newer than `v`.
abbrev pub Unbeaten : VersionedValue → List VersionedValue → Type 0
Unbeaten v found = (o : VersionedValue) → Has o found → Newer o v → ⊥

pub dominated-Unbeaten :
    (v : VersionedValue) (found : List VersionedValue)
    → dominated v found ≡ false
    → Unbeaten v found
unfolding dominated
dominated-Unbeaten v [] e o h n = h
dominated-Unbeaten v (x ∷ found) e o (inl p) n =
    let here : Newer x v = subst (λ y. Newer y v) p n in ground arith
dominated-Unbeaten v (x ∷ found) e o (inr h) n = dominated-Unbeaten v found (ground arith) o h n

pub Unbeaten-dominated :
    (v : VersionedValue) (found : List VersionedValue)
    → Unbeaten v found
    → dominated v found ≡ false
unfolding dominated
Unbeaten-dominated v [] u = refl
Unbeaten-dominated v (x ∷ found) u = elim (Bool-cases (is_a_dominates (compare x.clock v.clock))) [
  | inl p ↦ absurd (u x (inl refl) (is_a_dominates-true (compare x.clock v.clock) p))
  | inr q ↦ rw q (Unbeaten-dominated v found (λ o h. u o (inr h)))
]

-- `w` is `v` or strictly newer.
abbrev pub Tops : VersionedValue → VersionedValue → Type 0
Tops w v = (w ≡ v) ⊎ Newer w v

unbeaten_through :
    (x w v : VersionedValue)
    → Clocked x
    → Clocked w
    → Clocked v
    → (Newer x v → ⊥)
    → Tops w v
    → Newer x w
    → ⊥
unbeaten_through x w v a b c f (inl e) n = f (subst (Newer x) e n)
unbeaten_through x w v a b c f (inr m) n = f (compare_trans x.clock w.clock v.clock a b c n m)

Tops-trans :
    (w x v : VersionedValue) → Clocked w → Clocked x → Clocked v → Tops w x → Newer x v → Newer w v
Tops-trans w x v a b c (inl e) n = subst (λ y. Newer y v) (sym e) n
Tops-trans w x v a b c (inr m) n = compare_trans w.clock x.clock v.clock a b c m n

abbrev pub Champion : List VersionedValue → List VersionedValue → VersionedValue → Type 0
Champion l found v = (w : VersionedValue) × Has w found × Tops w v × Unbeaten w l

-- One more version `x` that does not beat `v`.
also_unbeaten :
    (x : VersionedValue) (l found : List VersionedValue) (v : VersionedValue)
    → All Clocked found
    → Has x found
    → Has v found
    → (Newer x v → ⊥)
    → Champion l found v
    → Champion (x ∷ l) found v
also_unbeaten x l found v c hx hv f (w, hw, t, u) = (
  w,
  hw,
  t,
  λ o h n. elim h [
    | inl e ↦
        unbeaten_through x w v (All-Has Clocked x found c hx) (All-Has Clocked w found c hw)
          (All-Has Clocked v found c hv) f t (subst (λ y. Newer y w) e n)
    | inr later ↦ u o later n
  ],
)

-- Among the found versions, one that no version of `l` beats and that is `v` itself or strictly newer.
pub champion :
    (l found : List VersionedValue) (v : VersionedValue)
    → All Clocked found
    → ((o : VersionedValue) → Has o l → Has o found)
    → Has v found
    → Champion l found v
champion [] found v c s h = (v, h, inl refl, λ o a n. a)
champion (x ∷ l) found v c s h =
    let hx = s x (inl refl) in
    let cx = All-Has Clocked x found c hx in
    let from_x = champion l found x c (λ o a. s o (inr a)) hx in
    let from_v = champion l found v c (λ o a. s o (inr a)) h in
    elim (Bool-cases (is_a_dominates (compare x.clock v.clock))) [
      | inl p ↦
          let (w, hw, t, u) = also_unbeaten x l found x c hx hx (Newer-irrefl x cx) from_x in
          (
            w,
            hw,
            inr (
                Tops-trans w x v (All-Has Clocked w found c hw) cx (All-Has Clocked v found c h) t
                  (is_a_dominates-true (compare x.clock v.clock) p)),
            u,
          )
      | inr q ↦ also_unbeaten x l found v c hx h (λ n. ground (arith)) from_v
    ]
