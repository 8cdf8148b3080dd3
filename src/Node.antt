-- ===== src/Node.antt =====
-- src/node.h and src/node.cpp: the requests that reach a node, with the callbacks by which src/main.cpp
-- and src/gossip/gossip_thread.cpp keep the ring, the hints and the handoff in step with membership.
-- Metrics and logging are left out; a reply is the text that is framed, `none` where none is written.
pub mod Requests
pub mod Connection
pub mod Callbacks
pub mod Answers
pub mod Frames
pub mod Clients
pub mod Writes
mod Examples
use mini_dynamo.Base.{
  ℕ, zero, suc, ◌+◌, Bool, true, false, Option, none, some, List, [], ◌∷◌, ◌++◌, length, drop,
}
use mini_dynamo.Text.{Str, codes}
use mini_dynamo.Text.Decimal.{to_string}
use mini_dynamo.Text.Integer.{ℤ, stoi}
use mini_dynamo.Text.Split.{field}
use mini_dynamo.NodeInfo.{NodeInfo}
use mini_dynamo.Base64.{encode}
use mini_dynamo.Clock.Wire
use mini_dynamo.Versioned.{VersionedValue, bar}
use mini_dynamo.Hints.{HintStore, drop_target}
use mini_dynamo.Ring.{Router, add_physical_node, remove_physical_node}
use mini_dynamo.Swim.{Swim, MemberState}
use mini_dynamo.Swim.Queries.{is_alive}
use mini_dynamo.Coordinator.{Coordinator, PutResult, WriteError}
use mini_dynamo.Coordinator.Reading.{GetResult, ReadError}

-- The defaults of a request that names no quorum.
pub record QuorumConfig : Type 0 where
  pub n : ℕ
  pub w : ℕ
  pub r : ℕ

-- The gossip thread is there or not; the queue is the handoff thread's.
pub record Node : Type 0 where
  pub coordinator : Coordinator
  pub cfg : QuorumConfig
  pub gossip : Option Swim
  pub recovery_queue : List NodeInfo

-- A field that is missing, empty or no int counts as 0.
unfoldable pub to_int : List Str → ℕ → ℤ
unfolding field
to_int f i = elim (stoi (field f i)) [ none ↦ ℤ.pos 0 | some z ↦ z ]

-- effN, effW and effR: `requested > 0 ? requested : cfg`.
abbrev pub effective : ℕ → ℤ → ℕ
effective default (ℤ.pos zero) = default
effective default (ℤ.pos (suc n)) = suc n
effective default (ℤ.negsuc n) = default

abbrev pub error_reply : Str → Str
error_reply what = codes "RESPONSE|ERROR|" ++ what

abbrev pub write_error : WriteError → Str
write_error WriteError.no_nodes_in_ring = codes "no_nodes_in_ring"
write_error WriteError.quorum_not_met = codes "quorum_not_met"

abbrev pub put_reply : PutResult → Str
put_reply (PutResult.ok clock) = codes "RESPONSE|OK|" ++ Wire.serialize clock
put_reply (PutResult.failed e) = error_reply (write_error e)

abbrev pub read_error : ReadError → Str
read_error ReadError.no_nodes_in_ring = codes "no_nodes_in_ring"
read_error ReadError.quorum_not_met = codes "quorum_not_met"

unfoldable pub version_fields : List VersionedValue → Str
version_fields [] = []
version_fields (v ∷ l) =
    bar ∷ (encode v.payload ++ bar ∷ (Wire.serialize v.clock ++ version_fields l))

abbrev pub get_reply : GetResult → Str
get_reply (GetResult.ok v) =
    codes "RESPONSE|OK|" ++ encode v.payload ++ bar ∷ Wire.serialize v.clock
get_reply (GetResult.siblings values) =
    codes "RESPONSE|SIBLINGS|" ++ to_string (length values) ++ version_fields values
get_reply GetResult.not_found = codes "RESPONSE|NOTFOUND"
get_reply (GetResult.failed e) = error_reply (read_error e)

unfoldable pub ring_lines : List NodeInfo → Str
ring_lines [] = []
ring_lines (n ∷ l) = n.node_id ++ bar ∷ (n.host ++ bar ∷ (to_string n.port ++ 10 ∷ ring_lines l))

abbrev pub ring_reply : List NodeInfo → Str
ring_reply nodes = codes "RING" ++ 10 ∷ (to_string (length nodes) ++ 10 ∷ ring_lines nodes)

-- The liveness check that main injects asks the membership.
abbrev pub liveness : Option Swim → Option (Str → Bool)
liveness none = none
liveness (some s) = some (is_alive s)

abbrev pub linked : Node → Coordinator
linked node = record node.coordinator { is_alive = liveness node.gossip }

-- A coordinator's storage and hints after a request.
abbrev pub settle : Node → Coordinator → Node
settle node c = record node {
  coordinator = record node.coordinator { storage = c.storage; hint_store = c.hint_store };
}

abbrev pub dropped : Option HintStore → Str → Option HintStore
dropped none id = none
dropped (some hs) id = some (drop_target hs id).0

-- The callbacks of one change: the ring's, then those of the handoff and the hints.
unfoldable pub on_change : Node → NodeInfo × MemberState → Node
on_change node (info, MemberState.alive) = record node {
  coordinator = record node.coordinator { router = add_physical_node node.coordinator.router info };
  recovery_queue = node.recovery_queue ++ info ∷ [];
}
on_change node (info, MemberState.left) = record node {
  coordinator = record node.coordinator {
    router = remove_physical_node node.coordinator.router info.node_id;
    hint_store = dropped node.coordinator.hint_store info.node_id;
  };
}
on_change node (info, MemberState.suspected) = node
on_change node (info, MemberState.dead) = node

unfoldable pub on_changes : Node → List (NodeInfo × MemberState) → Node
on_changes node [] = node
on_changes node (c ∷ l) = on_changes (on_change node c) l

-- The membership after a call, with the callbacks that the call fired.
abbrev pub absorb : Node → Swim → Swim → Node
absorb node before s =
    on_changes (record node { gossip = some s }) (drop (length before.fired) s.fired)
