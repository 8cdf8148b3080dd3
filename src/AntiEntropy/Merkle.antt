-- ===== src/AntiEntropy/Merkle.antt =====
-- src/antientropy/merkle_tree.h and src/antientropy/merkle_tree.cpp. The vector of nodes is a function
-- of the index, beside its size. A depth is from 1 to 63, so that each shift is by less than 64.
pub mod Order
pub mod Levels
pub mod Diff
pub mod Ranges
use Prim.Native.Nat.{bit_xor}
use mini_dynamo.Base.{
  ℕ, zero, suc, ◌+◌, ◌-◌, ◌*◌, ◌/◌, ◌%◌, ◌^◌, Bool, true, false, not, List, [], ◌∷◌, ◌++◌, ◌==◌,
  ltb, leb, if◌then◌else◌, two64,
}

pub record MerkleTree : Type 0 where
  pub depth : ℕ
  pub leaf_start : ℕ
  pub total : ℕ
  pub nodes : ℕ → ℕ

abbrev pub k_default_depth : ℕ
k_default_depth = 15

abbrev pub write : (ℕ → ℕ) → ℕ → ℕ → ℕ → ℕ
write nodes i v j = if j == i then v else nodes j

unfoldable pub new : ℕ → MerkleTree
new depth = record { depth = depth; leaf_start = 2 ^ depth; total = 2 ^ depth * 2; nodes = λ i. 0 }

-- `key_hash >> (64 - depth_)`
unfoldable pub leaf_of : ℕ → ℕ → ℕ
leaf_of depth key_hash = key_hash / 2 ^ (64 - depth)

unfoldable pub insert : MerkleTree → ℕ → ℕ → MerkleTree
unfolding leaf_of
insert t key_hash value_hash =
    let i = t.leaf_start + leaf_of t.depth key_hash in
    record t { nodes = write t.nodes i (bit_xor (t.nodes i) value_hash) }

-- A loop of inserts, one for each pair of hashes.
unfoldable pub insert_all : MerkleTree → List (ℕ × ℕ) → MerkleTree
unfolding insert
insert_all t [] = t
insert_all t ((key_hash, value_hash) ∷ l) = insert_all (insert t key_hash value_hash) l

-- The loop of `build`, from `i` down to 1.
unfoldable pub build_from : ℕ → (ℕ → ℕ) → ℕ → ℕ
build_from zero nodes = nodes
build_from (suc k) nodes =
    let i = suc k in build_from k (write nodes i (bit_xor (nodes (2 * i)) (nodes (2 * i + 1))))

unfoldable pub build : MerkleTree → MerkleTree
unfolding build_from
build t = record t { nodes = build_from (t.leaf_start - 1) t.nodes }

unfoldable pub root_hash : MerkleTree → ℕ
root_hash t = if ltb 1 t.total then t.nodes 1 else 0

unfoldable pub node_hash : MerkleTree → ℕ → ℕ
node_hash t index = if leb t.total index then 0 else t.nodes index

unfoldable pub clear : MerkleTree → MerkleTree
clear t = record t { nodes = λ i. 0 }

pub record DiffRange : Type 0 where
  pub leaf_index : ℕ
  pub range_start : ℕ
  pub range_end : ℕ

-- The range of a leaf; `range_size` is not 0 for a depth of 1 or more.
unfoldable pub range_of : ℕ → ℕ → DiffRange
range_of depth leaf =
    let size = 2 ^ (64 - depth) % two64 in
    let start = leaf * 2 ^ (64 - depth) % two64 in
    record {
      leaf_index = leaf;
      range_start = start;
      range_end = if size == 0 then two64 - 1 else (start + size - 1) % two64;
    }

-- One round over the queue: the ranges found, and the queue of the next round.
unfoldable pub diff_round : MerkleTree → MerkleTree → List ℕ → List DiffRange × List ℕ
unfolding range_of
diff_round a b [] = ([], [])
diff_round a b (i ∷ queue) =
    let (found, next) = diff_round a b queue in
    if a.nodes i == b.nodes i
    then (found, next)
    else if leb a.leaf_start i
    then (range_of a.depth (i - a.leaf_start) ∷ found, next)
    else (found, 2 * i ∷ (2 * i + 1) ∷ next)

-- The rounds, on fuel: a round for each level of the tree is enough.
unfoldable pub diff_rounds : ℕ → MerkleTree → MerkleTree → List ℕ → List DiffRange
unfolding diff_round
diff_rounds zero a b queue = []
diff_rounds (suc fuel) a b queue =
    let (found, next) = diff_round a b queue in found ++ diff_rounds fuel a b next

unfoldable pub diff : MerkleTree → MerkleTree → List DiffRange
unfolding diff_rounds root_hash
diff a b =
    if not (a.depth == b.depth)
    then []
    else if root_hash a == root_hash b
    then []
    else diff_rounds (suc a.depth) a b (1 ∷ [])
