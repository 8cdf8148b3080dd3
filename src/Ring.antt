-- ===== src/Ring.antt =====
-- src/router.h, src/router.cpp and the hash of src/util.h: the consistent-hash ring. The lock makes each
-- call one step. `virtual_nodes` and `replicas` are not negative here; the ring's keys are uint64_t.
pub mod Owners
pub mod Lap
pub mod Walk
pub mod First
pub mod Membership
pub mod Stability
pub mod Members
mod Examples
use Prim.Native.Nat.{bit_xor}
use mini_dynamo.Base.{
  ℕ, zero, suc, ◌+◌, ◌*◌, ◌/◌, ◌%◌, ◌^◌, Bool, true, false, Option, none, some, List, [], ◌∷◌, ◌++◌,
  ltb, ◌==◌, if◌then◌else◌, length, two64,
}
use mini_dynamo.Text.{Str, codes, str_key, str_eq, nat_key}
use mini_dynamo.Text.Decimal.{to_string}
use mini_dynamo.OrdMap.{Map, find, insert, erase}
use mini_dynamo.OrdMap.Keys.{elem}
use mini_dynamo.NodeInfo.{NodeInfo}

unfoldable pub fnv : Str → ℕ → ℕ
fnv [] h = h
fnv (c ∷ s) h = fnv s ((bit_xor h c * 1099511628211) % two64)

abbrev shift_33 : ℕ → ℕ
shift_33 h = bit_xor h (h / 2 ^ 33)

unfoldable pub hash64 : Str → ℕ
unfolding fnv
hash64 s =
    let h1 = fnv s 1469598103934665603 in
    let h2 = (shift_33 h1 * 0xff51afd7ed558ccd) % two64 in
    let h3 = (shift_33 h2 * 0xc4ceb9fe1a85ec53) % two64 in shift_33 h3

pub record Router : Type 0 where
  pub virtual_nodes : ℕ
  pub ring : Map ℕ Str
  pub nodes : Map Str NodeInfo

unfoldable pub new : ℕ → Router
new vnodes = record { virtual_nodes = vnodes; ring = []; nodes = [] }

pub vnode_hash : Str → ℕ → ℕ
unfolding hash64
vnode_hash id i = hash64 (id ++ codes "#vn" ++ to_string i)

pub insert_vnode : Str → ℕ → Map ℕ Str → Map ℕ Str
unfolding vnode_hash
insert_vnode id i ring = insert (vnode_hash id i) id ring

-- The slots from `i` on, `n` of them.
pub insert_vnodes : Str → ℕ → ℕ → Map ℕ Str → Map ℕ Str
unfolding insert_vnode
insert_vnodes id zero i ring = ring
insert_vnodes id (suc n) i ring = insert_vnodes id n (i + 1) (insert_vnode id i ring)

pub add_physical_node : Router → NodeInfo → Router
unfolding insert_vnodes
add_physical_node r node = elim (find node.node_id r.nodes) [
  | some old ↦ r
  | none ↦ record r {
    nodes = insert node.node_id node r.nodes;
    ring = insert_vnodes node.node_id r.virtual_nodes 0 r.ring;
  }
]

-- The slots of `id` leave the ring.
pub without : Str → Map ℕ Str → Map ℕ Str
without id [] = []
without id ((h, p) ∷ m) = let rest = without id m in if str_eq p id then rest else (h, p) ∷ rest

pub remove_physical_node : Router → Str → Router
unfolding without
remove_physical_node r id = elim (find id r.nodes) [
  | none ↦ r
  | some old ↦ record r { nodes = erase id r.nodes; ring = without id r.ring }
]

pub physical_count : Router → ℕ
physical_count r = length r.nodes

unfoldable pub get_all_physical_nodes : Map Str NodeInfo → List NodeInfo
get_all_physical_nodes [] = []
get_all_physical_nodes ((id, n) ∷ m) = n ∷ get_all_physical_nodes m

-- The iterator is the rest of the ring from its slot on; behind the last slot it wraps.
abbrev pub wrap : Map ℕ Str → Map ℕ Str → Map ℕ Str
wrap ring [] = ring
wrap ring (x ∷ rest) = x ∷ rest

unfoldable pub lower_bound : ℕ → Map ℕ Str → Map ℕ Str
lower_bound h [] = []
lower_bound h ((k, p) ∷ m) = if ltb k h then lower_bound h m else (k, p) ∷ m

-- What one round of the loop finds at a slot of `phys`: the owners and the names chosen so far.
unfoldable pub visit : Map Str NodeInfo → Str → List Str × List NodeInfo → List Str × List NodeInfo
visit nodes phys (chosen, owners) = elim (find phys nodes) [
  | none ↦ (chosen, owners)
  | some info ↦ if elem phys chosen then (chosen, owners) else (phys ∷ chosen, owners ++ info ∷ [])
]

-- The loop of `findOwners`, on fuel; `none` means that it is still going round.
unfoldable pub walk : ℕ → Router → ℕ → Map ℕ Str → List Str × List NodeInfo → Option (List NodeInfo)
unfolding visit
walk zero r replicas it found = none
walk (suc fuel) r replicas [] found = some found.1
walk (suc fuel) r replicas ((h, phys) ∷ rest) found =
    let found' = visit r.nodes phys found in
    let on = walk fuel r replicas (wrap r.ring rest) found' in
    if ltb (length found.1) replicas
    then if length found'.0 == length r.nodes then some found'.1 else on
    else some found.1

-- One lap and a round are fuel enough, as is shown in the module below.
unfoldable pub find_owners : Router → Str → ℕ → Option (List NodeInfo)
unfolding walk hash64 lower_bound
find_owners r key replicas =
    walk (length r.ring + 1) r (if replicas == 0 then 1 else replicas)
      (wrap r.ring (lower_bound (hash64 key) r.ring)) ([], [])
