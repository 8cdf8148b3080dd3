-- ===== src/AntiEntropy.antt =====
-- src/antientropy/merkle_tree.cpp and src/antientropy/antientropy_thread.cpp: the tree that sums up a
-- store, the comparison of two trees, and the exchange of what differs. What a peer answers and which
-- peer is picked are arguments; the thread and its sleep are left out.
pub mod Merkle
pub mod Trees
pub mod Repairs
mod Examples
use mini_dynamo.Base.{
  ℕ, zero, suc, ◌+◌, ◌%◌, Bool, true, false, Option, none, some, List, [], ◌∷◌, ◌++◌, ◌==◌,
  if◌then◌else◌, length, two64,
}
use mini_dynamo.Text.{Str, str_eq}
use mini_dynamo.NodeInfo.{NodeInfo}
use mini_dynamo.Clock.{Ordering, compare}
use mini_dynamo.Versioned.{VersionedValue, serialize, deserialize}
use mini_dynamo.Replica.{Storage, put, get, for_each}
use mini_dynamo.Ring.{Router, hash64, get_all_physical_nodes}
use mini_dynamo.AntiEntropy.Merkle.{
  MerkleTree, DiffRange, k_default_depth, new, insert, build, root_hash, diff,
}

-- `pushed` is what push_fn was called with.
pub record AntiEntropy : Type 0 where
  pub self : NodeInfo
  pub router : Router
  pub storage : Storage
  pub syncs : ℕ
  pub keys_repaired : ℕ
  pub pushed : List (NodeInfo × Str × VersionedValue)

unfoldable pub build_local_tree : Storage → MerkleTree
unfolding for_each hash64
build_local_tree storage =
    build
      (for_each storage (λ t key value. insert t (hash64 key) (hash64 value)) (new k_default_depth))

abbrev pub repaired : AntiEntropy → AntiEntropy
repaired ae = record ae { keys_repaired = (ae.keys_repaired + 1) % two64 }

abbrev pub synced : AntiEntropy → AntiEntropy
synced ae = record ae { syncs = (ae.syncs + 1) % two64 }

abbrev pub take_in : AntiEntropy → Str → VersionedValue → AntiEntropy
take_in ae key remote = repaired (record ae { storage = put ae.storage key (serialize remote) })

abbrev pub by_order :
    AntiEntropy → NodeInfo → Str → VersionedValue → VersionedValue → Ordering → AntiEntropy
by_order ae peer key remote held Ordering.a_dominates = take_in ae key remote
by_order ae peer key remote held Ordering.b_dominates =
    repaired (record ae { pushed = ae.pushed ++ (peer, key, held) ∷ [] })
by_order ae peer key remote held Ordering.equal = ae
by_order ae peer key remote held Ordering.concurrent = ae

abbrev pub with_held : AntiEntropy → NodeInfo → Str → VersionedValue → Option Str → AntiEntropy
with_held ae peer key remote none = take_in ae key remote
with_held ae peer key remote (some stored) =
    by_order ae peer key remote (deserialize stored)
      (compare remote.clock (deserialize stored).clock)

-- The body of the loop over the keys that a peer has in a range.
unfoldable pub merge_key : AntiEntropy → NodeInfo → Str → VersionedValue → AntiEntropy
merge_key ae peer key remote = with_held ae peer key remote (get ae.storage key)

unfoldable pub merge_keys : AntiEntropy → NodeInfo → List (Str × VersionedValue) → AntiEntropy
unfolding merge_key
merge_keys ae peer [] = ae
merge_keys ae peer ((key, remote) ∷ l) = merge_keys (merge_key ae peer key remote) peer l

abbrev pub Pull : Type 0
Pull = NodeInfo → ℕ → ℕ → List (Str × VersionedValue)

unfoldable pub merge_ranges : Pull → AntiEntropy → NodeInfo → List DiffRange → AntiEntropy
unfolding merge_keys
merge_ranges pull ae peer [] = ae
merge_ranges pull ae peer (r ∷ l) =
    merge_ranges pull (merge_keys ae peer (pull peer r.range_start r.range_end)) peer l

unfoldable pub peers_of : NodeInfo → List NodeInfo → List NodeInfo
peers_of self [] = []
peers_of self (n ∷ l) =
    let rest = peers_of self l in if str_eq n.node_id self.node_id then rest else n ∷ rest

unfoldable pub pick_from : ℕ → List NodeInfo → Option NodeInfo
pick_from i [] = none
pick_from zero (n ∷ l) = some n
pick_from (suc i) (n ∷ l) = pick_from i l

abbrev pub apply_diffs : Pull → AntiEntropy → NodeInfo → List DiffRange → AntiEntropy
apply_diffs pull ae peer [] = synced ae
apply_diffs pull ae peer (r ∷ l) = synced (merge_ranges pull ae peer (r ∷ l))

abbrev pub Exchange : Type 0
Exchange = NodeInfo → MerkleTree → MerkleTree

-- The part of `tick` after a peer has been picked. The code tests once more that both roots are 0, which
-- cannot hold behind the first test.
unfoldable pub sync_with : Exchange → Pull → AntiEntropy → NodeInfo → AntiEntropy
unfolding build_local_tree merge_ranges
sync_with exchange pull ae peer =
    let ours = build_local_tree ae.storage in
    if root_hash ours == 0 then ae else apply_diffs pull ae peer (diff ours (exchange peer ours))

-- `drawn` is the random index among the peers.
unfoldable pub tick : Exchange → Pull → ℕ → AntiEntropy → AntiEntropy
unfolding sync_with peers_of pick_from
tick exchange pull drawn ae =
    elim (pick_from drawn (peers_of ae.self (get_all_physical_nodes ae.router.nodes))) [
      | none ↦ ae
      | some peer ↦ sync_with exchange pull ae peer
    ]
