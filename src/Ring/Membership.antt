-- ===== src/Ring/Membership.antt =====
-- Joining and leaving keep every member on the ring.
use mini_dynamo.Base.{
  ℕ, zero, suc, ◌+◌, ◌≤◌, ◌<◌, ◌≡◌, ◌≢◌, ◌⊎◌, inl, inr, refl, true, false, none, some, [], ◌∷◌,
  arith, if◌then◌else◌, ==_iff, Option-cases,
}
use mini_dynamo.Text.{Str, str_key, str_eq, str_eq_iff, nat_key}
use mini_dynamo.OrdMap.{
  Map, find, insert, Sorted, Above, find-insert, find-erase, insert-Sorted, erase-Sorted,
}
use mini_dynamo.OrdMap.Keys.{elem}
use mini_dynamo.NodeInfo.{NodeInfo}
use mini_dynamo.Ring.{
  Router, new, add_physical_node, remove_physical_node, insert_vnodes, insert_vnode, vnode_hash,
  without,
}
use mini_dynamo.Ring.Lap.{slots}
use mini_dynamo.Ring.Walk.{IsValid}

pub new-IsValid : (vnodes : ℕ) → IsValid (new vnodes)
unfolding new find
new-IsValid vnodes = record {
  ring_sorted = tt;
  nodes_sorted = tt;
  named = λ k n h. absurd (cc);
  covered = λ k n h. absurd (cc);
}

pub Above-without : (a : ℕ) (id : Str) (m : Map ℕ Str) → Above a m → Above a (without id m)
unfolding without
Above-without a id [] s = tt
Above-without a id ((h, p) ∷ m) s = ground (arith, Above-without a id m s.1)

without-Sorted : (id : Str) (m : Map ℕ Str) → Sorted m → Sorted (without id m)
unfolding without
without-Sorted id [] s = tt
without-Sorted id ((h, p) ∷ m) s = ground (arith, without-Sorted id m s.1, Above-without h id m s.0)

elem-without :
    (k id : Str) (m : Map ℕ Str)
    → elem k (slots (without id m)) ≡ (if str_eq k id then false else elem k (slots m))
unfolding without elem
elem-without k id [] = ground arith
elem-without k id ((h, p) ∷ m) =
    ground (arith, elem-without k id m, str_eq_iff k id, str_eq_iff p id, str_eq_iff k p)

-- Removing a node keeps every other member on the ring, and takes all slots of the node off it.
pub remove_physical_node-IsValid :
    (r : Router) (id : Str)
    → IsValid r
    → find id r.nodes ≢ none
    → IsValid (remove_physical_node r id)
      × (elem id (slots (remove_physical_node r id).ring) ≡ false)
unfolding remove_physical_node
remove_physical_node-IsValid r id v h = elim (Option-cases (find id r.nodes)) [
  | inl missing ↦ absurd (h missing)
  | inr (x, there) ↦
      rw (there, remove_physical_node)
        (
          record {
            ring_sorted = without-Sorted id r.ring v.ring_sorted;
            nodes_sorted = erase-Sorted id r.nodes v.nodes_sorted;
            named = λ k n e. v.named k n (ground (arith, find-erase id k r.nodes));
            covered = λ k n e.
                ground (arith, find-erase id k r.nodes, elem-without k id r.ring, v.covered k n);
          },
          ground (arith, elem-without id id r.ring, str_eq_iff id id),
        )
]

-- The slot of hash `h` is free for `id`, or its own.
abbrev Open : Str → Map ℕ Str → ℕ → Type 0
Open id ring h = (find h ring ≡ none) ⊎ (find h ring ≡ some id)

elem-insert :
    (k id : Str) (h : ℕ) (ring : Map ℕ Str)
    → Open id ring h
    → elem k (slots (insert h id ring)) ≡ (if str_eq k id then true else elem k (slots ring))
unfolding insert find elem
elem-insert k id h [] o = ground arith
elem-insert k id h ((j, p) ∷ m) o =
    ground (arith, elem-insert k id h m, str_eq_iff k id, str_eq_iff k p, ==_iff h j)

-- No other node has a slot where one of the `n` slots of `id` from `i` on is to be.
abbrev AllOpen : Str → ℕ → ℕ → Map ℕ Str → Type 0
AllOpen id n i ring = (j : ℕ) → i ≤ j → j < i + n → Open id ring (vnode_hash id j)

insert_vnode-AllOpen :
    (id : Str) (n i : ℕ) (ring : Map ℕ Str)
    → AllOpen id (suc n) i ring
    → AllOpen id n (i + 1) (insert_vnode id i ring)
unfolding insert_vnode
insert_vnode-AllOpen id n i ring o j l h = ground (
  arith,
  find-insert (vnode_hash id i) (vnode_hash id j) id ring,
  o j (omega arith) (omega arith),
)

elem-insert_vnodes :
    (k id : Str) (n i : ℕ) (ring : Map ℕ Str)
    → AllOpen id n i ring
    → (elem k (slots ring) ≡ true) ⊎ ((k ≡ id) × (0 < n))
    → elem k (slots (insert_vnodes id n i ring)) ≡ true
unfolding insert_vnodes
elem-insert_vnodes k id zero i ring o h = ground arith
elem-insert_vnodes k id (suc n) i ring o h =
    elem-insert_vnodes k id n (i + 1) (insert_vnode id i ring) (insert_vnode-AllOpen id n i ring o)
      (inl (
        unfold insert_vnode in
        ground (
          arith,
          elem-insert k id (vnode_hash id i) ring (o i (omega arith) (omega arith)),
          str_eq_iff k id,
        )))

insert_vnodes-Sorted :
    (id : Str) (n i : ℕ) (ring : Map ℕ Str) → Sorted ring → Sorted (insert_vnodes id n i ring)
unfolding insert_vnodes insert_vnode
insert_vnodes-Sorted id zero i ring s = s
insert_vnodes-Sorted id (suc n) i ring s =
    insert_vnodes-Sorted id n (i + 1) (insert (vnode_hash id i) id ring)
      (insert-Sorted (vnode_hash id i) id ring s)

-- Adding a node, new or known, keeps every member on the ring and puts the node on it, if the ring
-- has at least one slot to a node and no hash of the node's slots is another node's.
pub add_physical_node-IsValid :
    (r : Router) (node : NodeInfo)
    → IsValid r
    → 0 < r.virtual_nodes
    → ((i : ℕ)
        → 0 ≤ i
        → i < 0 + r.virtual_nodes
        → (find (vnode_hash node.node_id i) r.ring ≡ none)
          ⊎ (find (vnode_hash node.node_id i) r.ring ≡ some node.node_id))
    → IsValid (add_physical_node r node)
      × (elem node.node_id (slots (add_physical_node r node).ring) ≡ true)
unfolding add_physical_node
add_physical_node-IsValid r node v pos free = elim (Option-cases (find node.node_id r.nodes)) [
  | inr (x, there) ↦ rw (there, add_physical_node) (v, v.covered node.node_id x there)
  | inl missing ↦
      rw (missing, add_physical_node)
        (
          record {
            ring_sorted = insert_vnodes-Sorted node.node_id r.virtual_nodes 0 r.ring v.ring_sorted;
            nodes_sorted = insert-Sorted node.node_id node r.nodes v.nodes_sorted;
            named = λ k n e. ground (
              arith,
              find-insert node.node_id k node r.nodes,
              v.named k n,
              str_eq_iff k node.node_id,
            );
            covered = λ k n e. elem-insert_vnodes k node.node_id r.virtual_nodes 0 r.ring free (
                ground (
                  arith,
                  find-insert node.node_id k node r.nodes,
                  v.covered k n,
                  str_eq_iff k node.node_id,
                ));
          },
          elem-insert_vnodes node.node_id node.node_id r.virtual_nodes 0 r.ring free
              (inr (refl, pos)),
        )
]
