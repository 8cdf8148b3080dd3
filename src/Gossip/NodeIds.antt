-- ===== src/Gossip/NodeIds.antt =====
-- No name that could break the text formats enters the view of a node, or leaves it in an event.
use mini_dynamo.Base.{ℕ, inl, inr, Option, none, some, List, [], ◌∷◌, Bool-cases}
use mini_dynamo.Text.{Str, codes, str_key, str_eq}
use mini_dynamo.Text.Split.{split, field}
use mini_dynamo.Event.{EventType, MemberEvent}
use mini_dynamo.Swim.{Swim, MemberEntry}
use mini_dynamo.Swim.Local.{apply_direct_join, get_events_to_send}
use mini_dynamo.Swim.Digest.{all_members}
use mini_dynamo.Swim.Frame.{apply_direct_join-Touches}
use mini_dynamo.Gossip.Clean.{
  Named, IsClean, enqueue_event-IsClean, Touches-IsClean, incoming-IsClean, send_all-All,
}
use mini_dynamo.Gossip.{
  is_valid_node_id, apply_incoming_events, Network, is_empty, bar, build_ping, build_ack,
  proxy_ping, join_event, welcome, handle_join, handle_sync, handle_ping, handle_ping_req, dispatch,
  handle_message,
}

sent-IsClean : (s : Swim) → IsClean s → IsClean (get_events_to_send s).0
unfolding get_events_to_send
sent-IsClean s c = record {
  self = c.self;
  members = c.members;
  pending = (send_all-All (λ (ev : MemberEvent). Named ev.node_id) s.pending c.pending).1;
}

build_ping-IsClean : (s : Swim) (target : Str) → IsClean s → IsClean (build_ping s target).0
unfolding build_ping
build_ping-IsClean s target c = sent-IsClean s c

build_ack-IsClean : (s : Swim) (target : Str) → IsClean s → IsClean (build_ack s target).0
unfolding build_ack
build_ack-IsClean s target c = sent-IsClean s c

proxy_ping-IsClean :
    (net : Network) (s : Swim) (sender target : Str) (l : List MemberEntry)
    → IsClean s
    → IsClean (proxy_ping net s sender target l).0
unfolding proxy_ping
proxy_ping-IsClean net s sender target [] c = c
proxy_ping-IsClean net s sender target (m ∷ l) c =
    let pinged = build_ping-IsClean s target c in
    elim (Bool-cases (str_eq m.info.node_id target)) [
      | inr other ↦ rw other (proxy_ping-IsClean net s sender target l c)
      | inl found ↦ elim (Bool-cases (is_empty (net m.info (build_ping s target).1))) [
        | inl silent ↦ rw (found, silent) pinged
        | inr answered ↦
            rw (found, answered) (build_ack-IsClean (build_ping s target).0 sender pinged)
      ]
    ]

welcome-IsClean :
    (ev : MemberEvent) (s : Swim) (eff : Option ℕ)
    → Named ev.node_id
    → IsClean s
    → IsClean (welcome ev (s, eff)).0
unfolding welcome
welcome-IsClean ev s none h c = c
welcome-IsClean ev s (some eff) h c =
    enqueue_event-IsClean s (record ev { type = EventType.alive; incarnation = eff }) h c

handle_join-IsClean :
    (s : Swim) (now : ℕ) (f : List Str) → IsClean s → IsClean (handle_join s now f).0
unfolding handle_join join_event
handle_join-IsClean s now f c = elim (Bool-cases (is_valid_node_id (field f 1))) [
  | inr bad ↦ rw bad c
  | inl named ↦
      let before = incoming-IsClean s now (field f 5) c in
      let joined = apply_direct_join (apply_incoming_events s now (field f 5)) (join_event f) in
      rw named (
        welcome-IsClean (join_event f) joined.0 joined.1 named (
          Touches-IsClean (field f 1) (apply_incoming_events s now (field f 5)) joined.0 named
            (apply_direct_join-Touches (apply_incoming_events s now (field f 5)) (join_event f))
            before))
]

pub dispatch-IsClean :
    (net : Network) (s : Swim) (now : ℕ) (type : Str) (f : List Str)
    → IsClean s
    → IsClean (dispatch net s now type f).0
unfolding dispatch handle_ping handle_ping_req handle_sync
dispatch-IsClean net s now type f c = elim (Bool-cases (str_eq type (codes "SWIM_PING"))) [
  | inl y0 ↦ rw (y0) (
      build_ack-IsClean (apply_incoming_events s now (field f 3)) (field f 1)
        (incoming-IsClean s now (field f 3) c))
  | inr n0 ↦ elim (Bool-cases (str_eq type (codes "SWIM_PING_REQ"))) [
    | inl y1 ↦
        rw (n0, y1)
          (proxy_ping-IsClean net (apply_incoming_events s now (field f 4)) (field f 1) (field f 2)
            (all_members (apply_incoming_events s now (field f 4)))
            (incoming-IsClean s now (field f 4) c))
    | inr n1 ↦ elim (Bool-cases (str_eq type (codes "SWIM_ACK"))) [
      | inl y2 ↦ rw (n0, n1, y2) (incoming-IsClean s now (field f 3) c)
      | inr n2 ↦ elim (Bool-cases (str_eq type (codes "SWIM_SYNC"))) [
        | inl y3 ↦ rw (n0, n1, n2, y3) (incoming-IsClean s now (field f 2) c)
        | inr n3 ↦ elim (Bool-cases (str_eq type (codes "SWIM_SYNC_ACK"))) [
          | inl y4 ↦ rw (n0, n1, n2, n3, y4) (incoming-IsClean s now (field f 2) c)
          | inr n4 ↦ elim (Bool-cases (str_eq type (codes "SWIM_JOIN"))) [
            | inl y5 ↦ rw (n0, n1, n2, n3, n4, y5) (handle_join-IsClean s now f c)
            | inr n5 ↦ rw (n0, n1, n2, n3, n4, n5) c
          ]
        ]
      ]
    ]
  ]
]

-- Whatever text comes in as a message, and whatever a proxied ping brings back: if the names of the node
-- itself, of its members and in its waiting events are of one to 64 characters of [A-Za-z0-9._-], so
-- are they after the message; a name with a separator in it enters no view and is not passed on.
pub handle_message-IsClean :
    (net : Network) (s : Swim) (now : ℕ) (payload : Str)
    → IsClean s
    → IsClean (handle_message net s now payload).0
unfolding handle_message
handle_message-IsClean net s now payload c =
    dispatch-IsClean net s now (field (split bar payload) 0) (split bar payload) c
