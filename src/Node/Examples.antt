-- ===== src/Node/Examples.antt =====
-- A node at concrete inputs.
use mini_dynamo.Base.{
  ℕ, zero, suc, ap, ◌≡◌, ◌≢◌, ◌⊎◌, refl, arith, not, true, false, none, some, List, [], ◌∷◌,
}
use mini_dynamo.Text.{Str, codes, str_key, str_eq, str_eq_iff}
use mini_dynamo.Text.Decimal.{to_string, show}
use mini_dynamo.Text.Split.{split, split_from, field}
use mini_dynamo.OrdMap.{find}
use mini_dynamo.OrdMap.Keys.{elem}
use mini_dynamo.NodeInfo.{NodeInfo}
use mini_dynamo.Event.{EventType}
use mini_dynamo.Clock.{VectorClock}
use mini_dynamo.Versioned.{VersionedValue, bar, serialize}
use mini_dynamo.Ring.{Router, new}
use mini_dynamo.Ring.Walk.{IsValid}
use mini_dynamo.Text.{str_lt}
use mini_dynamo.Swim
use mini_dynamo.Swim.{MemberState}
use mini_dynamo.Swim.Queries.{state_of}
use mini_dynamo.Swim.Step.{Call, run}
use mini_dynamo.Swim.RingSlots.{SlotsFit}
use mini_dynamo.Clock
use mini_dynamo.Replica
use mini_dynamo.Coordinator.{Coordinator}
use mini_dynamo.Node.{Node, linked, on_changes}
use mini_dynamo.Node.Requests.{Outside, answered, is_swim, handle_request, handle_verb}
use mini_dynamo.Gossip.{is_empty}
use mini_dynamo.Node.Answers.{Ended, Replied, handle_request_ends}
use mini_dynamo.Node.Frames.{
  Leaves, SameMembership, SameStorage, changes_membership, writes_store, verb_of,
  handle_request_keeps,
}
use mini_dynamo.Net.Framing.{Outcome, moves}
use mini_dynamo.Net.Framing.Delivers.{Steady, progress}
use mini_dynamo.Node.Connection.{handle_connection}
use mini_dynamo.Node.Connection.Serves.{frames, handle_all, closed, handle_connection_serves}
use mini_dynamo.Node.Callbacks.{in_ring, on_changes_served}
use mini_dynamo.Node.Writes.{Put, reply_of}

abbrev info : Str → NodeInfo
info id = record { node_id = id; host = codes "h"; port = 5000 }

abbrev a : Str
a = codes "a"

abbrev b : Str
b = codes "b"

abbrev node_on : Router → Node
node_on router = record {
  coordinator = record {
    self = info a;
    router = router;
    storage = [];
    max_clock_entries = 20;
    is_alive = none;
    hint_store = none;
  };
  cfg = record { n = 3; w = 2; r = 2 };
  gossip = none;
  recovery_queue = [];
}

-- No other node answers anything.
abbrev alone : Outside
alone = record {
  wall = 7;
  now = 7;
  forward = λ peer text. [];
  net = λ peer text. [];
  writes = [];
  reads = [];
}

-- A ring on which the other node owns every key.
abbrev others_ring : Router
others_ring = record { virtual_nodes = 1; ring = (5, b) ∷ []; nodes = (b, info b) ∷ [] }

abbrev put_line : Str
put_line = codes "PUT|k|dg==|c|1|1|1|"

unknown :
    handle_request (node_on (new 3)) alone (codes "HELLO")
    ≡ answered (node_on (new 3)) (codes "RESPONSE|ERROR|unknown_command")
unfolding handle_request handle_verb split split_from field str_eq
unknown = refl

-- Two members with a slot each.
abbrev pair_ring : Router
pair_ring = record {
  virtual_nodes = 1;
  ring = (5, a) ∷ (9, b) ∷ [];
  nodes = (a, info a) ∷ (b, info b) ∷ [];
}

pair_ring-IsValid : IsValid pair_ring
unfolding find str_eq elem str_lt
pair_ring-IsValid = record {
  ring_sorted = ((refl, tt), (tt, tt));
  nodes_sorted = ((refl, tt), (tt, tt));
  named = λ k n e. ground (arith, e, str_eq_iff k a, str_eq_iff k b);
  covered = λ k n e. ground (arith, e);
}

handle_request_ends_example :
    Ended (handle_request (node_on pair_ring) alone put_line)
    × ((is_empty (field (split bar put_line) 0) ≡ true)
        ⊎ ((is_swim (field (split bar put_line) 0) ≡ true)
            ⊎ Replied (handle_request (node_on pair_ring) alone put_line)))
handle_request_ends_example =
    handle_request_ends (node_on pair_ring) alone put_line pair_ring-IsValid

handle_request_keeps_example :
    ((changes_membership (verb_of put_line) ≡ true)
      ⊎ Leaves
          (SameMembership (node_on others_ring))
          (handle_request (node_on others_ring) alone put_line))
    × ((writes_store (verb_of put_line) ≡ true)
        ⊎ Leaves
            (SameStorage (node_on others_ring))
            (handle_request (node_on others_ring) alone put_line))
handle_request_keeps_example = handle_request_keeps (node_on others_ring) alone put_line

abbrev self_ring : Router
self_ring = record { virtual_nodes = 1; ring = (5, a) ∷ []; nodes = (a, info a) ∷ [] }

only_self : (k : Str) → in_ring (node_on self_ring) k ≡ str_eq k a
unfolding find
only_self k = ground arith

-- b joins.
abbrev joining : List Call
joining =
    Call.joins (record {
      type = EventType.join;
      node_id = b;
      host = codes "h";
      port = 5000;
      incarnation = 1;
    })
    ∷ []

-- And is found dead.
abbrev dying : List Call
dying = Call.suspects 10 b ∷ Call.confirms_dead b ∷ []

on_changes_served_example :
    let s = run (Swim.new (info a) 5) joining in
    let t = run s dying in
    let before = on_changes (node_on self_ring) s.fired in
    let later = on_changes (node_on self_ring) t.fired in
    (in_ring later a ≡ not t.self_left)
    × ((k : Str) → k ≢ a → SlotsFit (find k t.members) (in_ring later k))
    × ((k : Str)
        → (in_ring before k ≡ false)
          ⊎ ((state_of t k ≡ some MemberState.left) ⊎ (in_ring later k ≡ true)))
    × (later.coordinator.storage ≡ [])
    × (later.gossip ≡ none)
on_changes_served_example = on_changes_served (node_on self_ring) (info a) 5 joining dying only_self

abbrev clock : VectorClock
clock = record { counts = (a, record { counter = 2; updated_ms = 10 }) ∷ [] }

abbrev value : VersionedValue
value = record { payload = 124 ∷ 0 ∷ []; clock = clock; deleted = false }

abbrev put_one : Put
put_one = record { origin = codes "c"; key = codes "k"; value = value; n = 1; w = 1; r = 1 }

-- The clock of the write: the counter 2 that the client has read becomes 3, at the wall clock 7.
abbrev clock_one : VectorClock
clock_one = record { counts = (a, record { counter = 3; updated_ms = 7 }) ∷ [] }

abbrev stored_one : VersionedValue
stored_one = record { payload = value.payload; clock = clock_one; deleted = false }

abbrev coordinator_one : Coordinator
coordinator_one = record (linked (node_on self_ring)) {
  storage = Replica.put [] put_one.key (serialize stored_one);
}

-- The node b, which a is not: it passes requests on to a.
abbrev node_b : Node
node_b = record (node_on self_ring) {
  coordinator = record (node_on self_ring).coordinator { self = info b };
}

abbrev reaching_a : Outside
reaching_a = record alone {
  forward = λ peer text. reply_of (handle_request (node_on self_ring) alone text);
}

-- A byte for each call.
unfoldable bytewise : ℕ → List Outcome
bytewise zero = []
bytewise (suc n) = moves 1 ∷ bytewise n

bytewise-Steady : (n : ℕ) → Steady (bytewise n)
unfolding bytewise
bytewise-Steady zero = tt
bytewise-Steady (suc n) = (omega arith, bytewise-Steady n)

progress-bytewise : (n : ℕ) → progress (bytewise n) ≡ n
unfolding bytewise
progress-bytewise zero = refl
progress-bytewise (suc n) = ap suc (progress-bytewise n)

abbrev two_requests : List Str
two_requests = put_line ∷ codes "READ|k|a" ∷ []

handle_connection_serves_example :
    handle_connection (node_on others_ring) (λ i. alone) (frames two_requests) (bytewise 50)
    ≡ closed (handle_all (node_on others_ring) (λ i. alone) 0 [] two_requests)
unfolding frames to_string show
handle_connection_serves_example =
    handle_connection_serves (node_on others_ring) (λ i. alone) two_requests (bytewise 50)
      (omega arith, (omega arith, tt)) (bytewise-Steady 50) (omega (arith, progress-bytewise 50))
