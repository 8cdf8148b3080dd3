-- ===== src/Clock/Order.antt =====
-- `compare` decides the causal order, read off the counters.
use mini_dynamo.Base.{◌≡◌, inl, inr, refl, subst, arith, Bool-cases}
use mini_dynamo.Text.{str_key}
use native.Mathlib.Nat.{le_trans}
use mini_dynamo.Clock.{
  classify, Ordering, equal, a_dominates, b_dominates, concurrent, VectorClock, compare, IsValid,
}
use mini_dynamo.Clock.Loops.{
  Le, Ahead, a_flag, b_flag, a_flag-Ahead, a_flag-Le, b_flag-Ahead, b_flag-Le,
}

-- What each answer of `compare` says of the two histories.
abbrev pub Means : Ordering → VectorClock → VectorClock → Type 0
Means equal a b = Le a b × Le b a
Means a_dominates a b = Le b a × Ahead a b
Means b_dominates a b = Le a b × Ahead b a
Means concurrent a b = Ahead a b × Ahead b a

compare-classify : (a b : VectorClock) → compare a b ≡ classify (a_flag a b) (b_flag a b)
unfolding compare
compare-classify a b = refl

-- `compare` says `equal` only of clocks with the same counters, `a_dominates` only where a has seen all
-- that b has and more, `b_dominates` the other way round, and `concurrent` only where each has seen
-- a write that the other has not; the clocks are in key order, with no stored zero.
pub compare-Means : (a b : VectorClock) → IsValid a → IsValid b → Means (compare a b) a b
compare-Means a b v w = rw (compare-classify a b) (elim (Bool-cases (a_flag a b)) [
  | inl p ↦ elim (Bool-cases (b_flag a b)) [
    | inl q ↦ rw (p, q) (a_flag-Ahead a b v p, b_flag-Ahead a b v w q)
    | inr q ↦ rw (p, q) (b_flag-Le a b q, a_flag-Ahead a b v p)
  ]
  | inr p ↦ elim (Bool-cases (b_flag a b)) [
    | inl q ↦ rw (p, q) (a_flag-Le a b p, b_flag-Ahead a b v w q)
    | inr q ↦ rw (p, q) (a_flag-Le a b p, b_flag-Le a b q)
  ]
])

not-Ahead : (a b : VectorClock) → Le a b → Ahead a b → ⊥
not-Ahead a b l (k, h) = omega (arith, l k)

Means-unique : (o p : Ordering) (a b : VectorClock) → Means o a b → Means p a b → o ≡ p
Means-unique equal equal a b m n = refl
Means-unique equal a_dominates a b m n = absurd (not-Ahead a b m.0 n.1)
Means-unique equal b_dominates a b m n = absurd (not-Ahead b a m.1 n.1)
Means-unique equal concurrent a b m n = absurd (not-Ahead a b m.0 n.0)
Means-unique a_dominates equal a b m n = absurd (not-Ahead a b n.0 m.1)
Means-unique a_dominates a_dominates a b m n = refl
Means-unique a_dominates b_dominates a b m n = absurd (not-Ahead a b n.0 m.1)
Means-unique a_dominates concurrent a b m n = absurd (not-Ahead b a m.0 n.1)
Means-unique b_dominates equal a b m n = absurd (not-Ahead b a n.1 m.1)
Means-unique b_dominates a_dominates a b m n = absurd (not-Ahead a b m.0 n.1)
Means-unique b_dominates b_dominates a b m n = refl
Means-unique b_dominates concurrent a b m n = absurd (not-Ahead a b m.0 n.0)
Means-unique concurrent equal a b m n = absurd (not-Ahead a b n.0 m.0)
Means-unique concurrent a_dominates a b m n = absurd (not-Ahead b a n.0 m.1)
Means-unique concurrent b_dominates a b m n = absurd (not-Ahead a b n.0 m.0)
Means-unique concurrent concurrent a b m n = refl

-- Of two clocks in key order with no stored zero, `compare` gives the one answer whose meaning holds.
pub compare_of_Means :
    (o : Ordering) (a b : VectorClock) → IsValid a → IsValid b → Means o a b → compare a b ≡ o
compare_of_Means o a b v w m = Means-unique (compare a b) o a b (compare-Means a b v w) m

abbrev pub flip : Ordering → Ordering
flip equal = equal
flip a_dominates = b_dominates
flip b_dominates = a_dominates
flip concurrent = concurrent

Means-flip : (o : Ordering) (a b : VectorClock) → Means o a b → Means (flip o) b a
Means-flip equal a b m = (m.1, m.0)
Means-flip a_dominates a b m = m
Means-flip b_dominates a b m = m
Means-flip concurrent a b m = (m.1, m.0)

-- Comparing the other way round swaps the two kinds of dominance and nothing else.
pub compare-flip : (a b : VectorClock) → IsValid a → IsValid b → compare b a ≡ flip (compare a b)
compare-flip a b v w =
    compare_of_Means (flip (compare a b)) b a w v (Means-flip _ a b (compare-Means a b v w))

-- `a` strictly dominates `b`.
abbrev pub Dominates : VectorClock → VectorClock → Type 0
Dominates a b = Le b a × Ahead a b

pub compare-Dominates :
    (a b : VectorClock) → IsValid a → IsValid b → compare a b ≡ a_dominates → Dominates a b
compare-Dominates a b v w e = subst (λ o. Means o a b) e (compare-Means a b v w)

pub Dominates-trans : (a b c : VectorClock) → Dominates a b → Dominates b c → Dominates a c
Dominates-trans a b c (l, (k, h)) (m, g) = (λ j. le_trans (m j) (l j), (k, omega (arith, m k)))

-- Dominance, as `compare` reports it, is transitive: what supersedes a superseding version supersedes
-- the first one as well.
pub compare_trans :
    (a b c : VectorClock)
    → IsValid a
    → IsValid b
    → IsValid c
    → compare a b ≡ a_dominates
    → compare b c ≡ a_dominates
    → compare a c ≡ a_dominates
compare_trans a b c u v w p q =
    compare_of_Means a_dominates a c u w
      (Dominates-trans a b c (compare-Dominates a b u v p) (compare-Dominates b c v w q))
