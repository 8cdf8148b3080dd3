-- ===== src/Node/Requests.antt =====
-- `handleRequest` of src/node.cpp and the handlers it calls.
use mini_dynamo.Base.{ℕ, Bool, true, false, ◌||◌, Option, none, some, List, [], ◌∷◌, if◌then◌else◌}
use mini_dynamo.Text.{Str, codes, str_eq}
use mini_dynamo.Text.Split.{split, field}
use mini_dynamo.NodeInfo.{NodeInfo}
use mini_dynamo.Base64.{decode}
use mini_dynamo.Clock.Wire.{parse}
use mini_dynamo.Versioned.{bar}
use mini_dynamo.Ring.{find_owners, get_all_physical_nodes}
use mini_dynamo.Swim.{Swim}
use mini_dynamo.Gossip.{Network, is_empty, handle_message, request_leave}
use mini_dynamo.Coordinator.{Coordinator, Happening, PutResult, coordinate_put, coordinate_delete}
use mini_dynamo.Coordinator.Reading.{Resp, ReadOutcome, coordinate_get}
use mini_dynamo.Replica.Verbs.{handle_replicate, handle_read_replica}
use mini_dynamo.Node.{
  Node, to_int, effective, error_reply, put_reply, get_reply, ring_reply, linked, settle, absorb,
}

-- What a request meets outside the node: the two clocks, what other nodes answer to a forwarded
-- request and to gossip ("" is no answer), and what happens at the lock of a write or a read.
pub record Outside : Type 0 where
  pub wall : ℕ
  pub now : ℕ
  pub forward : NodeInfo → Str → Str
  pub net : Network
  pub writes : List (Happening Bool)
  pub reads : List (Happening (Option Resp))

-- The node afterwards and the reply. The outer `none` is a walk on the ring that does not end.
abbrev pub Handled : Type 0
Handled = Option (Node × Option Str)

abbrev pub answered : Node → Str → Handled
answered node text = some (node, some text)

abbrev pub relayed : Str → Str
relayed [] = error_reply (codes "forward_failed")
relayed (c ∷ resp) = c ∷ resp

abbrev pub written : Node → Option (Coordinator × PutResult) → Handled
written node none = none
written node (some (c, pr)) = answered (settle node c) (put_reply pr)

-- The part that PUT and DELETE share: the primary coordinates, and any other node forwards.
abbrev pub by_owners :
    Node → Outside → Str → Option (Coordinator × PutResult) → Option (List NodeInfo) → Handled
by_owners node out raw coordinated none = none
by_owners node out raw coordinated (some []) =
    answered node (error_reply (codes "no_nodes_in_ring"))
by_owners node out raw coordinated (some (primary ∷ others)) =
    if str_eq primary.node_id node.coordinator.self.node_id
    then written node coordinated
    else answered node (relayed (out.forward primary raw))

unfoldable pub by_primary : Node → Outside → Str → Str → Option (Coordinator × PutResult) → Handled
by_primary node out key raw coordinated =
    by_owners node out raw coordinated (find_owners node.coordinator.router key 1)

-- PUT|<key>|<b64value>|<origin>|<N>|<W>|<R>|<clock>
unfoldable pub handle_put : Node → Outside → List Str → Str → Handled
unfolding by_primary
handle_put node out f raw = by_primary node out (field f 1) raw (
    coordinate_put (linked node) out.wall out.now (field f 1) (decode (field f 2))
      (parse (field f 7)) (effective node.cfg.n (to_int f 4)) (effective node.cfg.w (to_int f 5))
      out.writes)

-- DELETE|<key>|<origin>|<N>|<W>|<clock>
unfoldable pub handle_delete : Node → Outside → List Str → Str → Handled
unfolding by_primary
handle_delete node out f raw = by_primary node out (field f 1) raw (
    coordinate_delete (linked node) out.wall out.now (field f 1) (parse (field f 5))
      (effective node.cfg.n (to_int f 3)) (effective node.cfg.w (to_int f 4)) out.writes)

abbrev pub fetched : Node → Option ReadOutcome → Handled
fetched node none = none
fetched node (some o) =
    answered (record node { coordinator = record node.coordinator { storage = o.storage } })
      (get_reply o.result)

-- GET|<key>|<origin>|<N>|<R>
unfoldable pub handle_get : Node → Outside → List Str → Handled
handle_get node out f = fetched node (
    coordinate_get (linked node) (field f 1) (effective node.cfg.n (to_int f 3))
      (effective node.cfg.r (to_int f 4)) out.reads)

abbrev pub left_reply : Node → Swim → Swim × Bool → Handled
left_reply node before (s, true) = answered (absorb node before s) (codes "RESPONSE|OK|left")
left_reply node before (s, false) = answered node (error_reply (codes "unknown_node"))

-- LEAVE|<node_id>
unfoldable pub handle_leave : Node → List Str → Handled
handle_leave node f =
    if is_empty (field f 1)
    then answered node (error_reply (codes "missing_node_id"))
    else elim node.gossip [
      | none ↦ answered node (error_reply (codes "gossip_disabled"))
      | some s ↦ left_reply node s (request_leave s (field f 1))
    ]

abbrev pub gossip_reply : Str → Option Str
gossip_reply [] = none
gossip_reply (c ∷ resp) = some (c ∷ resp)

unfoldable pub handle_gossip : Node → Outside → Str → Handled
handle_gossip node out payload = elim node.gossip [
  | none ↦ some (node, none)
  | some s ↦
      let (s', resp) = handle_message out.net s out.now payload in
      some (absorb node s s', gossip_reply resp)
]

abbrev pub is_swim : Str → Bool
is_swim type =
    str_eq type (codes "SWIM_PING")
    || str_eq type (codes "SWIM_PING_REQ")
    || str_eq type (codes "SWIM_ACK")
    || str_eq type (codes "SWIM_JOIN")
    || str_eq type (codes "SWIM_SYNC")
    || str_eq type (codes "SWIM_SYNC_ACK")

abbrev pub replicated : Node → List Str → Handled
replicated node f =
    let (storage, text) = handle_replicate node.coordinator.storage f in
    answered (record node { coordinator = record node.coordinator { storage = storage } }) text

unfoldable pub handle_verb : Node → Outside → Str → Str → List Str → Handled
unfolding handle_put handle_delete handle_get handle_leave handle_gossip
handle_verb node out payload type f =
    if str_eq type (codes "PUT")
    then handle_put node out f payload
    else if str_eq type (codes "GET")
    then handle_get node out f
    else if str_eq type (codes "DELETE")
    then handle_delete node out f payload
    else if str_eq type (codes "REPLICATE")
    then replicated node f
    else if str_eq type (codes "READ")
    then answered node (handle_read_replica node.coordinator.storage f)
    else if str_eq type (codes "RING")
    then answered node (ring_reply (get_all_physical_nodes node.coordinator.router.nodes))
    else if str_eq type (codes "LEAVE")
    then handle_leave node f
    else if is_swim type
    then handle_gossip node out payload
    else answered node (error_reply (codes "unknown_command"))

unfoldable pub handle_request : Node → Outside → Str → Handled
unfolding handle_verb
handle_request node out payload =
    let f = split bar payload in
    if is_empty (field f 0) then some (node, none) else handle_verb node out payload (field f 0) f

-- What holds of both branches of a test.
pub either_way :
    (P : Handled → Type 0) (b : Bool) {x y : Handled} → P x → P y → P (if b then x else y)
either_way P true hx hy = hx
either_way P false hx hy = hy
