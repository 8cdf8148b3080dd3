-- ===== src/AntiEntropy/Examples.antt =====
-- Trees and rounds of anti-entropy at concrete inputs.

use mathlib.Core.List.Perm
use mini_dynamo.Base.{◌≡◌, refl, arith, true, false, [], ◌∷◌}
use mini_dynamo.Text.{Str, codes, str_key}
use mini_dynamo.NodeInfo.{NodeInfo}
use mini_dynamo.Clock.{empty}
use mini_dynamo.Versioned.{VersionedValue}
use mini_dynamo.Replica.{Storage, get}
use mini_dynamo.AntiEntropy.Merkle
use mini_dynamo.AntiEntropy.Merkle.{
  MerkleTree, k_default_depth, leaf_of, DiffRange, range_of, insert, build, build_from, root_hash,
  diff, diff_round, diff_rounds,
}
use mini_dynamo.AntiEntropy.Merkle.Levels.{IsTree, reports}
use mini_dynamo.AntiEntropy.Merkle.Diff.{parted_up, queue_after, diff_exact, diff_rounds_end}
use mini_dynamo.AntiEntropy.Trees.{build_local_tree-Perm}
use mini_dynamo.AntiEntropy.Repairs.{Forward, PullsStorable, tick-Forward}
use mini_dynamo.AntiEntropy.{AntiEntropy, Pull, build_local_tree, tick}

-- Two levels: the first bit of the hash says the leaf.
abbrev empty_tree : MerkleTree
empty_tree = Merkle.new 1

abbrev one_key : MerkleTree
one_key = build (insert empty_tree 5 9)

-- The same value under a key of each leaf.
abbrev two_keys : MerkleTree
two_keys = build (insert (insert empty_tree 5 9) 9223372036854775813 9)

empty_tree-IsTree : IsTree empty_tree
unfolding Merkle.new
empty_tree-IsTree = record { start_is = refl; total_is = refl }

one_key-IsTree : IsTree one_key
unfolding Merkle.new build insert
one_key-IsTree = record { start_is = refl; total_is = refl }

reported : reports 0 (diff one_key empty_tree) ≡ true
unfolding reports diff diff_rounds diff_round range_of root_hash Merkle.new build build_from insert
    leaf_of
reported = refl

-- Their hashes cancel at the root, so that nothing is reported.
cancelled : diff two_keys empty_tree ≡ []
unfolding diff root_hash Merkle.new build build_from insert leaf_of
cancelled = refl

diff_exact_example : reports 1 (diff one_key empty_tree) ≡ parted_up one_key empty_tree 1 (1 ∷ []) 3
unfolding Merkle.new build insert
diff_exact_example = diff_exact one_key empty_tree 1 one_key-IsTree empty_tree-IsTree refl

diff_rounds_end_example :
    (queue_after one_key empty_tree 9 (1 ∷ []) ≡ [])
    × (diff_rounds 9 one_key empty_tree (1 ∷ []) ≡ diff_rounds 2 one_key empty_tree (1 ∷ []))
unfolding Merkle.new build insert
diff_rounds_end_example = diff_rounds_end one_key empty_tree 9 one_key-IsTree (omega arith)

abbrev pair : Storage
pair = (codes "a", codes "1") ∷ (codes "b", codes "2") ∷ []

abbrev swapped : Storage
swapped = (codes "b", codes "2") ∷ (codes "a", codes "1") ∷ []

build_local_tree-Perm_example : build_local_tree pair ≡ build_local_tree swapped
build_local_tree-Perm_example =
    build_local_tree-Perm (Perm.swap (codes "b", codes "2") (codes "a", codes "1") [])

abbrev info : Str → NodeInfo
info id = record { node_id = id; host = codes "h"; port = 5000 }

abbrev ae : AntiEntropy
ae = record {
  self = info (codes "a");
  router = record { virtual_nodes = 1; ring = []; nodes = (codes "b", info (codes "b")) ∷ [] };
  storage = pair;
  syncs = 0;
  keys_repaired = 0;
  pushed = [];
}

abbrev remote : VersionedValue
remote = record { payload = 7 ∷ []; clock = empty; deleted = false }

abbrev pull : Pull
pull peer start end = (codes "c", remote) ∷ []

pull-Storable : PullsStorable pull
pull-Storable peer start end =
    (record { bytes = (omega arith, tt); sorted = tt; printable = tt; no_bar = tt }, tt)

tick-Forward_example :
    Forward
      (get ae.storage (codes "c"))
      (get (tick (λ peer ours. Merkle.new k_default_depth) pull 0 ae).storage (codes "c"))
tick-Forward_example =
    tick-Forward (λ peer ours. Merkle.new k_default_depth) pull 0 ae (codes "c") pull-Storable
