-- ===== src/AntiEntropy/Merkle/Diff.antt =====
-- Which leaves a comparison reports.
use mini_dynamo.Base.{
  ℕ, zero, suc, ◌+◌, ◌-◌, ◌*◌, ◌/◌, ◌≤◌, ◌<◌, ◌≡◌, refl, ap, sym, ◌∙◌, inl, inr, Bool, true, false,
  ◌&&◌, ◌||◌, List, [], ◌∷◌, ◌++◌, ◌==◌, ltb, leb, if◌then◌else◌, arith, Bool-cases, ==_iff, All,
  All-map,
}
use mini_dynamo.AntiEntropy.Merkle.{
  MerkleTree, DiffRange, range_of, diff_round, diff_rounds, root_hash, diff,
}
use mini_dynamo.AntiEntropy.Merkle.Levels.{
  has, reports, parted, child, shifted, shifted-le, shifted-pow, root_level, or_false, IsTree,
}

module _ (a b : MerkleTree) where
  -- The node `y` and the `k` nodes above it differ, and the last of them is in the queue.
  unfoldable pub parted_up : ℕ → List ℕ → ℕ → Bool
  parted_up zero queue y = parted a b y && has y queue
  parted_up (suc k) queue y = parted a b y && parted_up k queue (y / 2)

  reports-append :
      (leaf : ℕ) (l m : List DiffRange) → reports leaf (l ++ m) ≡ (reports leaf l || reports leaf m)
  unfolding reports
  reports-append leaf [] m = refl
  reports-append leaf (r ∷ l) m = ground (arith, reports-append leaf l m)

  skipped :
      (i z : ℕ) (r : Bool)
      → (a.nodes i == b.nodes i) ≡ true
      → (parted a b z && r) ≡ (parted a b z && ((z == i) || r))
  skipped i z r same = elim (Bool-cases (z == i)) [
    | inl here ↦ let at = ap (parted a b) ((==_iff z i).0 here) in ground (arith, at, same, here)
    | inr other ↦ rw other refl
  ]

  opened :
      (i z : ℕ) (r : Bool)
      → (a.nodes i == b.nodes i) ≡ false
      → ((z == i) || (parted a b z && r)) ≡ (parted a b z && ((z == i) || r))
  opened i z r apart = elim (Bool-cases (z == i)) [
    | inl here ↦ let at = ap (parted a b) ((==_iff z i).0 here) in ground (arith, at, apart, here)
    | inr other ↦ rw other refl
  ]

  inner_round :
      (queue : List ℕ)
      → All (λ i. (1 ≤ i) × (i < a.leaf_start)) queue
      → ((diff_round a b queue).0 ≡ [])
        × ((y : ℕ) → has y (diff_round a b queue).1 ≡ (parted a b (y / 2) && has (y / 2) queue))
  unfolding diff_round has
  inner_round [] q = (refl, λ y. ground arith)
  inner_round (i ∷ queue) q =
      let (none, next) = inner_round queue q.1 in
      elim (Bool-cases (a.nodes i == b.nodes i)) [
        | inl same ↦ rw same (none, λ y. next y ∙ skipped i (y / 2) (has (y / 2) queue) same)
        | inr apart ↦
            let inner : leb a.leaf_start i ≡ false = ground (arith, q.0) in
            rw (apart, inner)
              (
                none,
                λ y.
                    child y i (has y (diff_round a b queue).1)
                    ∙ ap (λ r. (y / 2 == i) || r) (next y)
                    ∙ opened i (y / 2) (has (y / 2) queue) apart,
              )
      ]

  leaf_round :
      (queue : List ℕ) (leaf : ℕ)
      → All (λ i. a.leaf_start ≤ i) queue
      → reports leaf (diff_round a b queue).0
        ≡ (parted a b (a.leaf_start + leaf) && has (a.leaf_start + leaf) queue)
  unfolding diff_round has reports range_of
  leaf_round [] leaf q = ground arith
  leaf_round (i ∷ queue) leaf q =
      let rest = leaf_round queue leaf q.1 in
      let y = a.leaf_start + leaf in
      elim (Bool-cases (a.nodes i == b.nodes i)) [
        | inl same ↦ rw same (rest ∙ skipped i y (has y queue) same)
        | inr apart ↦
            let outer : leb a.leaf_start i ≡ true = ground (arith, q.0) in
            let shift : (leaf == (i - a.leaf_start)) ≡ (y == i) = ground (arith, q.0) in
            rw (apart, outer)
              (ap (λ h. h || reports leaf (diff_round a b queue).0) shift
                ∙ ap (λ r. (y == i) || r) rest
                ∙ opened i y (has y queue) apart)
      ]

  leaf_round_ends :
      (queue : List ℕ) → All (λ i. a.leaf_start ≤ i) queue → (diff_round a b queue).1 ≡ []
  unfolding diff_round
  leaf_round_ends [] q = refl
  leaf_round_ends (i ∷ queue) q = ground (arith, leaf_round_ends queue q.1, q.0)

  -- The nodes of the next level.
  next_level :
      (low : ℕ) (queue : List ℕ)
      → All (λ i. (low ≤ i) × (i < 2 * low)) queue
      → All (λ i. (2 * low ≤ i) × (i < 2 * (2 * low))) (diff_round a b queue).1
  unfolding diff_round
  next_level low [] q = tt
  next_level low (i ∷ queue) q = ground (arith, next_level low queue q.1, q.0)

  parted_up_next :
      (k : ℕ) (queue next : List ℕ) (y : ℕ)
      → ((z : ℕ) → has z next ≡ (parted a b (z / 2) && has (z / 2) queue))
      → parted_up k next y ≡ parted_up (suc k) queue y
  unfolding parted_up
  parted_up_next zero queue next y h = ap (λ r. parted a b y && r) (h y)
  parted_up_next (suc k) queue next y h =
      ap (λ r. parted a b y && r) (parted_up_next k queue next (y / 2) h)

  rounds_exact :
      (k low leaf : ℕ) (queue : List ℕ)
      → 1 ≤ low
      → a.leaf_start ≡ shifted k low
      → All (λ i. (low ≤ i) × (i < 2 * low)) queue
      → reports leaf (diff_rounds (suc k) a b queue) ≡ parted_up k queue (a.leaf_start + leaf)
  unfolding diff_rounds shifted parted_up reports
  rounds_exact zero low leaf queue l1 e q =
      let leaves : All (λ i. a.leaf_start ≤ i) queue =
        All-map _ _ (λ i h. omega (arith, e, h.0)) queue q in
      reports-append leaf (diff_round a b queue).0 []
      ∙ ap (λ r. r || false) (leaf_round queue leaf leaves)
      ∙ or_false (parted_up zero queue (a.leaf_start + leaf))
  rounds_exact (suc k) low leaf queue l1 e q =
      let below = shifted-le k (2 * low) in
      let inner : All (λ i. (1 ≤ i) × (i < a.leaf_start)) queue =
        All-map _ _ (λ i h. (omega (arith, l1, h.0), omega (arith, e, h.1, below))) queue q in
      let (none, next) = inner_round queue inner in
      let later =
        rounds_exact k (2 * low) leaf (diff_round a b queue).1 (omega (arith, l1)) e
          (next_level low queue q) in
      rw none (later ∙ parted_up_next k queue (diff_round a b queue).1 (a.leaf_start + leaf) next)

  no_root : (k y : ℕ) → parted a b 1 ≡ false → parted_up k (1 ∷ []) y ≡ false
  unfolding parted_up has
  no_root zero y h = elim (Bool-cases (y == 1)) [
    | inl here ↦ let at = ap (parted a b) ((==_iff y 1).0 here) in ground (arith, at, h)
    | inr other ↦ rw other (ground arith)
  ]
  no_root (suc k) y h = ground (arith, no_root k (y / 2) h)

  diff_open :
      (leaf : ℕ)
      → (a.depth == b.depth) ≡ true
      → IsTree a
      → IsTree b
      → reports leaf (diff a b)
        ≡ (if parted a b 1 then reports leaf (diff_rounds (suc a.depth) a b (1 ∷ [])) else false)
  unfolding diff root_hash reports
  diff_open leaf d u v =
      let one : ltb 1 a.total ≡ true =
        ground (arith, u.total_is, shifted-le a.depth 1, shifted-pow a.depth 1) in
      let two : ltb 1 b.total ≡ true =
        ground (arith, v.total_is, shifted-le b.depth 1, shifted-pow b.depth 1) in
      elim (Bool-cases (a.nodes 1 == b.nodes 1)) [
        | inl same ↦ rw (d, one, two, same) refl
        | inr apart ↦ rw (d, one, two, apart) refl
      ]

  -- A comparison of two trees of one depth reports a leaf exactly where the two trees differ at it and at
  -- every node above it up to the root: no leaf that is the same, and not every leaf that differs, since
  -- one is missed where the trees agree at some node above it.
  pub diff_exact :
      (leaf : ℕ)
      → IsTree a
      → IsTree b
      → a.depth ≡ b.depth
      → reports leaf (diff a b) ≡ parted_up a.depth (1 ∷ []) (a.leaf_start + leaf)
  diff_exact leaf u v d =
      let start = root_level a.depth a.leaf_start u.start_is in
      let level : All (λ i. (1 ≤ i) × (i < 2 * 1)) (1 ∷ []) = ((omega arith, omega arith), tt) in
      let exact = rounds_exact a.depth 1 leaf (1 ∷ []) (omega arith) start level in
      elim (Bool-cases (parted a b 1)) [
        | inl apart ↦
            diff_open leaf (ground (arith, d)) u v
            ∙ ap (λ p. if p then reports leaf (diff_rounds (suc a.depth) a b (1 ∷ [])) else false)
                apart
            ∙ exact
        | inr same ↦
            diff_open leaf (ground (arith, d)) u v
            ∙ ap (λ p. if p then reports leaf (diff_rounds (suc a.depth) a b (1 ∷ [])) else false)
                same
            ∙ sym (no_root a.depth (a.leaf_start + leaf) same)
      ]

  no_more : (n : ℕ) → diff_rounds n a b [] ≡ []
  unfolding diff_rounds diff_round
  no_more zero = refl
  no_more (suc n) = no_more n

  rounds_enough :
      (k n low : ℕ) (queue : List ℕ)
      → 1 ≤ low
      → a.leaf_start ≡ shifted k low
      → All (λ i. (low ≤ i) × (i < 2 * low)) queue
      → suc k ≤ n
      → diff_rounds n a b queue ≡ diff_rounds (suc k) a b queue
  unfolding diff_rounds shifted
  rounds_enough k zero low queue l1 e q h = absurd (omega arith)
  rounds_enough zero (suc n) low queue l1 e q h =
      let leaves : All (λ i. a.leaf_start ≤ i) queue =
        All-map _ _ (λ i h. omega (arith, e, h.0)) queue q in
      ap (λ l. (diff_round a b queue).0 ++ l)
        (ap (diff_rounds n a b) (leaf_round_ends queue leaves) ∙ no_more n)
  rounds_enough (suc k) (suc n) low queue l1 e q h =
      ap (λ l. (diff_round a b queue).0 ++ l)
        (rounds_enough k n (2 * low) (diff_round a b queue).1 (omega (arith, l1)) e
          (next_level low queue q) (omega (arith, h)))

  -- The queue of the loop after `n` rounds.
  unfoldable pub queue_after : ℕ → List ℕ → List ℕ
  queue_after zero queue = queue
  queue_after (suc n) queue = queue_after n (diff_round a b queue).1

  stays_empty : (n : ℕ) → queue_after n [] ≡ []
  unfolding queue_after diff_round
  stays_empty zero = refl
  stays_empty (suc n) = stays_empty n

  rounds_empty :
      (k n low : ℕ) (queue : List ℕ)
      → 1 ≤ low
      → a.leaf_start ≡ shifted k low
      → All (λ i. (low ≤ i) × (i < 2 * low)) queue
      → suc k ≤ n
      → queue_after n queue ≡ []
  unfolding queue_after shifted
  rounds_empty k zero low queue l1 e q h = absurd (omega arith)
  rounds_empty zero (suc n) low queue l1 e q h =
      let leaves : All (λ i. a.leaf_start ≤ i) queue =
        All-map _ _ (λ i h. omega (arith, e, h.0)) queue q in
      ap (queue_after n) (leaf_round_ends queue leaves) ∙ stays_empty n
  rounds_empty (suc k) (suc n) low queue l1 e q h =
      rounds_empty k n (2 * low) (diff_round a b queue).1 (omega (arith, l1)) e
        (next_level low queue q) (omega (arith, h))

  -- The loop of a comparison, which goes on while its queue is not empty, ends: from the root on, the
  -- queue is empty after one round for each level of the tree and the root's, and stays so in any more
  -- rounds, which find no more.
  pub diff_rounds_end :
      (n : ℕ)
      → IsTree a
      → suc a.depth ≤ n
      → (queue_after n (1 ∷ []) ≡ [])
        × (diff_rounds n a b (1 ∷ []) ≡ diff_rounds (suc a.depth) a b (1 ∷ []))
  diff_rounds_end n u h =
      let start = root_level a.depth a.leaf_start u.start_is in
      let level : All (λ i. (1 ≤ i) × (i < 2 * 1)) (1 ∷ []) = ((omega arith, omega arith), tt) in
      (
        rounds_empty a.depth n 1 (1 ∷ []) (omega arith) start level h,
        rounds_enough a.depth n 1 (1 ∷ []) (omega arith) start level h,
      )
