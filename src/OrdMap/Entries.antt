-- ===== src/OrdMap/Entries.antt =====
-- The entries of an ordered map: what holds of each of them, and when two maps are one.
use mini_dynamo.Base.{
  suc, ◌≡◌, refl, ap, sym, inl, inr, true, none, some, [], ◌∷◌, arith, if◌then◌else◌, Bool-cases,
  length, All, ◌≤◌,
}
use mathlib.Core.Path.{subst₂}
use mini_dynamo.OrdMap.{Key, Map, find, insert, erase, Above, Sorted, find-Above}

module _ {K V : Type 0} ⦃o : Key K⦄ where
  pub All-find :
      (P : K × V → Type 0) (k : K) (v : V) (m : Map K V) → All P m → find k m ≡ some v → P (k, v)
  unfolding find
  All-find P k v [] a e = absurd (cc)
  All-find P k v ((j, w) ∷ m) a e = elim (Bool-cases (o.beq k j)) [
    | inl same ↦ subst₂ (λ x y. P (x, y)) (sym ((o.beq_iff k j).0 same)) (ground (arith)) a.0
    | inr differ ↦ All-find P k v m a.1 (ground arith)
  ]

  pub find-tail :
      (k j : K) (v w : V) (m : Map K V)
      → Above j m
      → find k m ≡ some v
      → find k ((j, w) ∷ m) ≡ some v
  unfolding find
  find-tail k j v w m s e = ground (arith, o.beq_iff k j, find-Above j m s)

  pub find-cons :
      (k j : K) (v : V) (m : Map K V)
      → find k ((j, v) ∷ m) ≡ (if o.beq k j then some v else find k m)
  unfolding find
  find-cons k j v m = refl

  pub find-nil : (k : K) → find {V = V} k [] ≡ none
  unfolding find
  find-nil k = refl

  pub find-head : (k : K) (v : V) (m : Map K V) → find k ((k, v) ∷ m) ≡ some v
  unfolding find
  find-head k v m = ground (arith, o.beq_iff k k)

  pub find-All :
      (P : K × V → Type 0) (m : Map K V)
      → Sorted m
      → ((k : K) (v : V) → find k m ≡ some v → P (k, v))
      → All P m
  find-All P [] s f = tt
  find-All P ((j, w) ∷ m) s f =
      (f j w (find-head j w m), find-All P m s.1 λ k v e. f k v (find-tail k j v w m s.0 e))

  pub All-insert :
      (P : K × V → Type 0) (k : K) (v : V) (m : Map K V) → P (k, v) → All P m → All P (insert k v m)
  unfolding insert
  All-insert P k v [] p a = (p, tt)
  All-insert P k v ((j, w) ∷ m) p a = ground (arith, All-insert P k v m p a.1)

  pub All-erase : (P : K × V → Type 0) (k : K) (m : Map K V) → All P m → All P (erase k m)
  unfolding erase
  All-erase P k [] a = tt
  All-erase P k ((j, w) ∷ m) a = ground (arith, All-erase P k m a.1)

  Above-find : (a k : K) (v : V) (m : Map K V) → Above a m → find k m ≡ some v → o.lt a k ≡ true
  unfolding find
  Above-find a k v [] s e = cc
  Above-find a k v ((j, w) ∷ m) s e = ground (arith, o.beq_iff k j, Above-find a k v m s.1)

  -- The heads of two sorted maps that answer alike are the same key.
  heads_agree :
      (j k : K) (v w : V) (m n : Map K V)
      → Above j m
      → Above k n
      → ((i : K) → find i ((j, v) ∷ m) ≡ find i ((k, w) ∷ n))
      → j ≡ k
  unfolding find
  heads_agree j k v w m n s t f = ground (
    arith,
    f j,
    f k,
    o.beq_iff j j,
    o.beq_iff k k,
    o.beq_iff j k,
    o.beq_iff k j,
    Above-find k j v n t,
    Above-find j k w m s,
    o.lt_trans j k j,
    o.lt_irrefl j,
  )

  tails_agree :
      (j k : K) (v w : V) (m n : Map K V)
      → j ≡ k
      → Above j m
      → Above k n
      → ((i : K) → find i ((j, v) ∷ m) ≡ find i ((k, w) ∷ n))
      → (i : K) → find i m ≡ find i n
  unfolding find
  tails_agree j k v w m n e s t f i =
      ground (arith, f i, o.beq_iff i j, o.beq_iff i k, find-Above j m s, find-Above k n t)

  -- Sorted maps with the same answers are equal.
  pub Sorted-ext : (m n : Map K V) → Sorted m → Sorted n → ((i : K) → find i m ≡ find i n) → m ≡ n
  unfolding find
  Sorted-ext [] [] s t f = refl
  Sorted-ext [] ((k, w) ∷ n) s t f = absurd (ground (arith, f k, o.beq_iff k k))
  Sorted-ext ((j, v) ∷ m) [] s t f = absurd (ground (arith, f j, o.beq_iff j j))
  Sorted-ext ((j, v) ∷ m) ((k, w) ∷ n) s t f = ground (
    arith,
    heads_agree j k v w m n s.0 t.0 f,
    f j,
    o.beq_iff j j,
    o.beq_iff j k,
    Sorted-ext m n s.1 t.1 (tails_agree j k v w m n (heads_agree j k v w m n s.0 t.0 f) s.0 t.0 f),
  )

  pub length-erase_le : (k : K) (m : Map K V) → length (erase k m) ≤ length m
  unfolding erase
  length-erase_le k [] = omega arith
  length-erase_le k ((j, w) ∷ m) = ground (arith, length-erase_le k m)

  -- An entry that is not there is not erased.
  pub erase_missing : (k : K) (m : Map K V) → find k m ≡ none → erase k m ≡ m
  unfolding erase find
  erase_missing k [] e = refl
  erase_missing k ((j, w) ∷ m) e = ground (arith, erase_missing k m)

  -- Of a sorted map `erase` takes exactly one entry, where the key is there.
  pub length-erase :
      (k : K) (v : V) (m : Map K V)
      → Sorted m
      → find k m ≡ some v
      → suc (length (erase k m)) ≡ length m
  unfolding erase find
  length-erase k v [] s e = cc
  length-erase k v ((j, w) ∷ m) s e = ground (
    arith,
    o.beq_iff k j,
    find-Above j m s.0,
    ap length (erase_missing j m (find-Above j m s.0)),
    length-erase k v m s.1,
  )
