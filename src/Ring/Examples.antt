-- ===== src/Ring/Examples.antt =====
-- A ring of one node at concrete inputs.
use mini_dynamo.Base.{
  ◌∷◌, subst, ℕ, ◌≡◌, ◌≢◌, ◌<◌, ◌+◌, ◌≤◌, ◌⊎◌, inl, refl, arith, none, some, [], false,
}
use mini_dynamo.Text.{codes, str_key, nat_key, str_eq, str_lt}
use mini_dynamo.OrdMap.{find, insert}
use mini_dynamo.OrdMap.Keys.{elem}
use mini_dynamo.NodeInfo.{NodeInfo}
use mini_dynamo.Ring.{
  Router, insert_vnodes, insert_vnode, fnv, walk, visit, lower_bound, new, hash64, vnode_hash,
  add_physical_node, remove_physical_node, find_owners,
}
use mini_dynamo.Ring.Owners.{ids}
use mini_dynamo.Base.{take}
use mini_dynamo.Ring.First.{firsts, from_hash, find_owners_first}
use mini_dynamo.Ring.Walk.{IsValid, wanted}
use mini_dynamo.Ring.Stability.{find_owners_stable}
use mini_dynamo.Text.Decimal.{to_string}
use mini_dynamo.Ring.Membership.{new-IsValid, add_physical_node-IsValid}

abbrev node : NodeInfo
node = record { node_id = codes "node1"; host = codes "h"; port = 5000 }

-- Three slots to a node.
abbrev ring : Router
ring = add_physical_node (new 3) node

free :
    (i : ℕ)
    → 0 ≤ i
    → i < 0 + (new 3).virtual_nodes
    → (find (vnode_hash node.node_id i) (new 3).ring ≡ none)
      ⊎ (find (vnode_hash node.node_id i) (new 3).ring ≡ some node.node_id)
unfolding new find
free i p h = inl refl

three_slots : 0 < (new 3).virtual_nodes
unfolding new
three_slots = omega arith

ring-IsValid : IsValid ring
ring-IsValid = (add_physical_node-IsValid (new 3) node (new-IsValid 3) three_slots free).0

there : find node.node_id ring.nodes ≢ none
unfolding add_physical_node new find insert str_eq
there = ground arith

find_owners_first_example :
    find_owners ring (codes "key") 2
    ≡ some (take (wanted 2) (firsts ring.nodes [] (from_hash (hash64 (codes "key")) ring.ring)))
find_owners_first_example = find_owners_first ring (codes "key") 2 ring-IsValid

-- Two nodes with a slot each; the key belongs to one of them.
abbrev other : NodeInfo
other = record { node_id = codes "node2"; host = codes "h"; port = 5000 }

abbrev single : Router
single = add_physical_node (new 1) node

abbrev pair : Router
pair = add_physical_node single other

single-IsValid : IsValid single
single-IsValid =
    (add_physical_node-IsValid (new 1) node (new-IsValid 1) (unfold new in omega arith)
      (λ i p h. unfold new find in inl refl)).0

slot_free : find (vnode_hash other.node_id 0) single.ring ≡ none
unfolding add_physical_node new find insert insert_vnodes insert_vnode vnode_hash hash64 fnv str_eq
    to_string
slot_free = refl

one_slot : single.virtual_nodes ≡ 1
unfolding add_physical_node new find
one_slot = refl

pair-IsValid : IsValid pair
pair-IsValid =
    (add_physical_node-IsValid single other single-IsValid (omega (arith, one_slot)) (λ i p h. inl (
      subst (λ j. find (vnode_hash other.node_id j) single.ring ≡ none) (omega (arith, one_slot))
        slot_free))).0

owner_found : find_owners pair (codes "key") 1 ≡ some (other ∷ [])
unfolding add_physical_node new find insert insert_vnodes insert_vnode vnode_hash hash64 fnv str_eq
    str_lt to_string find_owners walk visit lower_bound elem
owner_found = refl

not_node : elem node.node_id (ids (other ∷ [])) ≡ false
unfolding elem str_eq
not_node = refl

find_owners_stable_example :
    find_owners (remove_physical_node pair node.node_id) (codes "key") 1 ≡ some (other ∷ [])
find_owners_stable_example =
    find_owners_stable pair (codes "key") node.node_id 1 (other ∷ []) pair-IsValid owner_found
      not_node
