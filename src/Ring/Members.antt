-- ===== src/Ring/Members.antt =====
-- Which names are members of the ring after one is added or removed.
use mini_dynamo.Base.{
  ◌≡◌, inl, inr, Bool, true, false, Option, none, some, if◌then◌else◌, arith, Option-cases,
}
use mini_dynamo.Text.{Str, str_key, str_eq, str_eq_iff}
use mini_dynamo.OrdMap.{find, find-insert, find-erase}
use mini_dynamo.NodeInfo.{NodeInfo}
use mini_dynamo.Ring.{Router, add_physical_node, remove_physical_node}

abbrev pub is_some {ℓ} : {A : Type ℓ} → Option A → Bool
is_some none = false
is_some (some x) = true

pub member-add :
    (r : Router) (info : NodeInfo) (k : Str)
    → is_some (find k (add_physical_node r info).nodes)
      ≡ (if str_eq k info.node_id then true else is_some (find k r.nodes))
unfolding add_physical_node
member-add r info k = elim (Option-cases (find info.node_id r.nodes)) [
  | inl new ↦ ground (arith, new, find-insert info.node_id k info r.nodes)
  | inr (old, e) ↦ ground (arith, e, str_eq_iff k info.node_id)
]

pub member-remove :
    (r : Router) (id k : Str)
    → is_some (find k (remove_physical_node r id).nodes)
      ≡ (if str_eq k id then false else is_some (find k r.nodes))
unfolding remove_physical_node
member-remove r id k = elim (Option-cases (find id r.nodes)) [
  | inl missing ↦ ground (arith, missing, str_eq_iff k id)
  | inr (old, e) ↦ ground (arith, e, find-erase id k r.nodes)
]
