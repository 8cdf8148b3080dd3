-- ===== src/Gossip.antt =====
-- src/gossip/gossip_thread.h and src/gossip/gossip_thread.cpp: the messages of SWIM. What a send brings
-- back is an input, a function of the receiver and the payload; "" is a failure. The callback that
-- keeps the ring is in what `fired` of Swim records. The clock is an argument, in milliseconds.
pub mod Tick
pub mod Joining
pub mod Clean
pub mod NodeIds
pub mod Ends
mod Examples
use mini_dynamo.Base.{
  ℕ, zero, suc, ◌+◌, ◌-◌, Bool, true, false, ◌&&◌, ◌||◌, Option, none, some, List, [], ◌∷◌, ◌++◌,
  ltb, leb, ◌==◌, not, if◌then◌else◌, length,
}
use mini_dynamo.Text.{Str, codes, str_key, str_eq}
use mini_dynamo.Text.Decimal.{to_string, stoull, stoi_uint16}
use mini_dynamo.Text.Split.{split, field}
use mini_dynamo.OrdMap.{Map, find, insert, erase}
use mini_dynamo.NodeInfo.{NodeInfo}
use mini_dynamo.Event.{EventType, MemberEvent}
use mini_dynamo.Event.Wire.{serialize_events, deserialize_events, or_zero}
use mini_dynamo.Swim.{Swim, MemberEntry, apply_event, enqueue_event, self_alive}
use mini_dynamo.Swim.Local.{apply_direct_join, get_events_to_send, notice, leave}
use mini_dynamo.Swim.Queries.{full_state, state_of}
use mini_dynamo.Swim.Digest.{digest, all_members}

abbrev in_id : ℕ → Bool
in_id c =
    (leb 97 c && leb c 122)
    || (leb 65 c && leb c 90)
    || (leb 48 c && leb c 57)
    || (c == 46)
    || (c == 95)
    || (c == 45)

pub all_in_id : Str → Bool
all_in_id [] = true
all_in_id (c ∷ s) = if in_id c then all_in_id s else false

-- `isValidNodeId` of src/util.h: one to 64 characters of [A-Za-z0-9._-].
pub is_valid_node_id : Str → Bool
unfolding all_in_id
is_valid_node_id [] = false
is_valid_node_id (c ∷ s) = if ltb 64 (length (c ∷ s)) then false else all_in_id (c ∷ s)

-- What is applied and news is passed on; an event with a bad name is dropped.
pub apply_all : Swim → ℕ → List MemberEvent → Swim
unfolding is_valid_node_id
apply_all s now [] = s
apply_all s now (ev ∷ l) =
    apply_all
      (if is_valid_node_id ev.node_id
        then if (apply_event s now ev).1
          then enqueue_event (apply_event s now ev).0 ev
          else (apply_event s now ev).0
        else s)
      now l

unfoldable pub apply_incoming_events : Swim → ℕ → Str → Swim
unfolding apply_all
apply_incoming_events s now [] = s
apply_incoming_events s now (c ∷ events) = apply_all s now (deserialize_events (c ∷ events))

abbrev pub bar : ℕ
bar = 124

abbrev pub swim_ack : Str → Str → List MemberEvent → Str
swim_ack from to events = codes "SWIM_ACK|" ++ from ++ bar ∷ (to ++ bar ∷ serialize_events events)

unfoldable pub build_ping : Swim → Str → Swim × Str
build_ping s target =
    let (s', events) = get_events_to_send s in
    (s', codes "SWIM_PING|" ++ s.self.node_id ++ bar ∷ (target ++ bar ∷ serialize_events events))

unfoldable pub build_ping_req : Swim → Str → Swim × Str
build_ping_req s target =
    let (s', events) = get_events_to_send s in
    (
      s',
      codes "SWIM_PING_REQ|"
          ++ s.self.node_id
          ++ bar ∷ (target ++ bar ∷ (s.self.node_id ++ bar ∷ serialize_events events)),
    )

unfoldable pub build_ack : Swim → Str → Swim × Str
build_ack s target =
    let (s', events) = get_events_to_send s in
    (s', swim_ack s.self.node_id target events ++ bar ∷ to_string (digest s'))

abbrev pub Network : Type 0
Network = NodeInfo → Str → Str

abbrev pub is_empty : Str → Bool
is_empty [] = true
is_empty (c ∷ s) = false

-- The first member of the name; a failure to reach it ends the search.
unfoldable pub proxy_ping : Network → Swim → Str → Str → List MemberEntry → Swim × Str
unfolding build_ping build_ack
proxy_ping net s sender target [] = (s, [])
proxy_ping net s sender target (m ∷ l) =
    let on = proxy_ping net s sender target l in
    let (s', ping) = build_ping s target in
    let reached = build_ack s' sender in
    if str_eq m.info.node_id target
    then if is_empty (net m.info ping) then (s', []) else reached
    else on

unfoldable pub join_event : List Str → MemberEvent
unfolding field
join_event f = record {
  type = EventType.join;
  node_id = field f 1;
  host = field f 2;
  port = or_zero (stoi_uint16 (field f 3));
  incarnation = or_zero (stoull (field f 4));
}

unfoldable pub known_members : List MemberEntry → List MemberEvent
known_members [] = []
known_members (m ∷ l) =
    record {
      type = EventType.alive;
      node_id = m.info.node_id;
      host = m.info.host;
      port = m.info.port;
      incarnation = m.incarnation;
    }
    ∷ known_members l

-- The answer to a join: the whole membership, or a Leave to a node that has been retired.
unfoldable pub welcome : MemberEvent → Swim × Option ℕ → Swim × Str
unfolding known_members
welcome ev (s, none) =
    (s, swim_ack s.self.node_id ev.node_id (notice EventType.leave ev.node_id 0 ∷ []))
welcome ev (s, some eff) =
    let s' = enqueue_event s (record ev { type = EventType.alive; incarnation = eff }) in
    (
      s',
      swim_ack s.self.node_id ev.node_id
          (self_alive s' s'.incarnation ∷ known_members (all_members s')),
    )

unfoldable pub handle_join : Swim → ℕ → List Str → Swim × Str
unfolding welcome join_event apply_incoming_events
handle_join s now f =
    if is_valid_node_id (field f 1)
    then welcome (join_event f)
        (apply_direct_join (apply_incoming_events s now (field f 5)) (join_event f))
    else (s, [])

unfoldable pub handle_sync : Swim → ℕ → List Str → Swim × Str
unfolding apply_incoming_events field
handle_sync s now f =
    let s' = apply_incoming_events s now (field f 2) in
    (s', codes "SWIM_SYNC_ACK|" ++ s'.self.node_id ++ bar ∷ serialize_events (full_state s'))

unfoldable pub handle_ping : Swim → ℕ → List Str → Swim × Str
unfolding apply_incoming_events field build_ack
handle_ping s now f = build_ack (apply_incoming_events s now (field f 3)) (field f 1)

unfoldable pub handle_ping_req : Network → Swim → ℕ → List Str → Swim × Str
unfolding apply_incoming_events field proxy_ping
handle_ping_req net s now f =
    let s' = apply_incoming_events s now (field f 4) in
    proxy_ping net s' (field f 1) (field f 2) (all_members s')

unfoldable pub dispatch : Network → Swim → ℕ → Str → List Str → Swim × Str
unfolding handle_join handle_sync handle_ping handle_ping_req
dispatch net s now type f =
    if str_eq type (codes "SWIM_PING")
    then handle_ping s now f
    else if str_eq type (codes "SWIM_PING_REQ")
    then handle_ping_req net s now f
    else if str_eq type (codes "SWIM_ACK")
    then (apply_incoming_events s now (field f 3), [])
    else if str_eq type (codes "SWIM_SYNC")
    then handle_sync s now f
    else if str_eq type (codes "SWIM_SYNC_ACK")
    then (apply_incoming_events s now (field f 2), [])
    else if str_eq type (codes "SWIM_JOIN")
    then handle_join s now f
    else (s, [])

unfoldable pub handle_message : Network → Swim → ℕ → Str → Swim × Str
unfolding dispatch
handle_message net s now payload = let f = split bar payload in dispatch net s now (field f 0) f

-- `false` for a name that nobody holds.
unfoldable pub request_leave : Swim → Str → Swim × Bool
request_leave s id = elim (state_of s id) [ none ↦ (s, false) | some st ↦ (leave s id, true) ]
