-- ===== src/Swim.antt =====
-- src/gossip/swim.h and src/gossip/swim.cpp: the membership state machine. Each method is a function of
-- the state; the mutex makes each call one step. The steady clock is an argument, in milliseconds, and
-- the calls of the callbacks are kept in order in `fired`. Incarnations are uint64_t: sums wrap.
pub mod Local
pub mod Queries
pub mod Digest
pub mod Frame
pub mod Step
pub mod Lifecycle
pub mod Relayed
pub mod Effects
pub mod Departure
pub mod Expiry
pub mod Incarnation
pub mod RingSlots
pub mod SlotsKept
pub mod Quiescence
pub mod Pending
mod Examples
use mini_dynamo.Base.{
  ℕ, zero, suc, ◌+◌, ◌-◌, ◌*◌, ◌%◌, max, Bool, true, false, ◌&&◌, ◌||◌, Option, none, some, List,
  [], ◌∷◌, ◌++◌, ltb, leb, ◌==◌, if◌then◌else◌, length, two64,
}
use mini_dynamo.Text.{Str, str_key, str_eq}
use mini_dynamo.OrdMap.{Map, find, insert}
use mini_dynamo.NodeInfo.{NodeInfo}
use mini_dynamo.Event.{EventType, MemberEvent}
use mini_dynamo.Event

pub data MemberState : Type 0 where
  alive suspected dead left : MemberState

pub record MemberEntry : Type 0 where
  pub info : NodeInfo
  pub state : MemberState
  pub incarnation : ℕ
  pub suspect_since : ℕ

pub record PendingEvent : Type 0 where
  pub event : MemberEvent
  pub remaining : ℕ

pub record Swim : Type 0 where
  pub self : NodeInfo
  pub incarnation : ℕ
  pub self_left : Bool
  pub suspicion_mult : ℕ
  pub members : Map Str MemberEntry
  pub pending : List PendingEvent
  pub fired : List (NodeInfo × MemberState)

unfoldable pub new : NodeInfo → ℕ → Swim
new self mult = record {
  self = self;
  incarnation = 0;
  self_left = false;
  suspicion_mult = mult;
  members = [];
  pending = [];
  fired = [];
}

-- The least k with m ≤ 2 ^ k, for m at least one: ceil(log2(m)).
unfoldable pub climb : ℕ → ℕ → ℕ → ℕ → ℕ
climb zero m k p = k
climb (suc fuel) m k p = let more = climb fuel m (k + 1) (p * 2) in if leb m p then k else more

unfoldable pub ceil_log2 : ℕ → ℕ
unfolding climb
ceil_log2 m = climb m m 0 1

unfoldable pub dissemination_limit : Swim → ℕ
unfolding ceil_log2
dissemination_limit s = max 3 (3 * ceil_log2 (length s.members + 1 + 1))

abbrev pub fire : Swim → NodeInfo → MemberState → Swim
fire s info st = record s { fired = s.fired ++ (info, st) ∷ [] }

unfoldable pub enqueue_event : Swim → MemberEvent → Swim
enqueue_event s ev = record s {
  pending = s.pending ++ record { event = ev; remaining = dissemination_limit s } ∷ [];
}

abbrev pub put : Swim → Str → MemberEntry → Swim
put s id e = record s { members = insert id e s.members }

abbrev pub entry_of : MemberEvent → MemberState → MemberEntry
entry_of ev st = record {
  info = record { node_id = ev.node_id; host = ev.host; port = ev.port };
  state = st;
  incarnation = ev.incarnation;
  suspect_since = 0;
}

-- A non-empty host brings a new address.
abbrev pub readdress : MemberEvent → NodeInfo → NodeInfo
readdress ev info = elim ev.host [
  | [] ↦ info
  | c ∷ h ↦ record info { host = ev.host; port = ev.port }
]

-- An event that says where `self` can be reached.
abbrev pub self_alive : Swim → ℕ → MemberEvent
self_alive s inc = record {
  type = EventType.alive;
  node_id = s.self.node_id;
  host = s.self.host;
  port = s.self.port;
  incarnation = inc;
}

abbrev pub next_incarnation : ℕ → ℕ
next_incarnation i = (i + 1) % two64

-- Someone doubts that we are up: refute it, unless it is an old doubt.
pub refute_doubt : Swim → MemberEvent → Swim × Bool
unfolding enqueue_event
refute_doubt s ev = if ltb ev.incarnation s.incarnation then (s, false) else (
  enqueue_event (record s { incarnation = next_incarnation ev.incarnation })
      (self_alive s (next_incarnation ev.incarnation)),
  true,
)

-- Our own retirement is not refuted.
pub accept_leave : Swim → Swim × Bool
accept_leave s =
    if s.self_left
    then (s, false)
    else (fire (record s { self_left = true }) s.self MemberState.left, true)

pub apply_self : Swim → MemberEvent → EventType → Swim × Bool
unfolding refute_doubt accept_leave
apply_self s ev EventType.leave = accept_leave s
apply_self s ev EventType.suspect = refute_doubt s ev
apply_self s ev EventType.dead = refute_doubt s ev
apply_self s ev EventType.join = (s, false)
apply_self s ev EventType.alive = (s, false)
apply_self s ev (EventType.unknown c) = (s, false)

abbrev pub is_left : MemberState → Bool
is_left MemberState.left = true
is_left MemberState.alive = false
is_left MemberState.suspected = false
is_left MemberState.dead = false

abbrev pub is_dead : MemberState → Bool
is_dead MemberState.dead = true
is_dead MemberState.alive = false
is_dead MemberState.suspected = false
is_dead MemberState.left = false

abbrev pub is_suspected : MemberState → Bool
is_suspected MemberState.suspected = true
is_suspected MemberState.alive = false
is_suspected MemberState.dead = false
is_suspected MemberState.left = false

-- case Join, case Alive
unfoldable pub apply_alive : Swim → MemberEvent → Option MemberEntry → Swim × Bool
apply_alive s ev none = (
  fire (put s ev.node_id (entry_of ev MemberState.alive)) (entry_of ev MemberState.alive).info
      MemberState.alive,
  true,
)
apply_alive s ev (some e) =
    if is_left e.state
    then (s, false)
    else if leb ev.incarnation e.incarnation
    then (s, false)
    else (
      fire
          (put s ev.node_id (record e {
            info = readdress ev e.info;
            state = MemberState.alive;
            incarnation = ev.incarnation;
          }))
          (readdress ev e.info) MemberState.alive,
      true,
    )

-- case Suspect
pub apply_suspect : Swim → ℕ → MemberEvent → Option MemberEntry → Swim × Bool
apply_suspect s now ev none = (s, false)
apply_suspect s now ev (some e) =
    if ltb ev.incarnation e.incarnation
    then (s, false)
    else if is_dead e.state
    then (s, false)
    else if is_left e.state
    then (s, false)
    else if is_suspected e.state && leb ev.incarnation e.incarnation
    then (s, false)
    else (
      put s ev.node_id (record e {
        state = MemberState.suspected;
        incarnation = ev.incarnation;
        suspect_since = now;
      }),
      true,
    )

-- case Dead
pub apply_dead : Swim → MemberEvent → Option MemberEntry → Swim × Bool
apply_dead s ev none = (put s ev.node_id (entry_of ev MemberState.dead), true)
apply_dead s ev (some e) =
    if is_dead e.state
    then (s, false)
    else if is_left e.state
    then (s, false)
    else if ltb ev.incarnation e.incarnation
    then (s, false)
    else (
      fire (put s ev.node_id (record e { state = MemberState.dead; incarnation = ev.incarnation }))
          e.info MemberState.dead,
      true,
    )

-- case Leave
pub apply_leave : Swim → MemberEvent → Option MemberEntry → Swim × Bool
apply_leave s ev none = (put s ev.node_id (entry_of ev MemberState.left), true)
apply_leave s ev (some e) = if is_left e.state then (s, false) else (
  fire (put s ev.node_id (record e { state = MemberState.left })) e.info MemberState.left,
  true,
)

unfoldable pub apply_other : Swim → ℕ → MemberEvent → EventType → Option MemberEntry → Swim × Bool
unfolding apply_alive apply_suspect apply_dead apply_leave
apply_other s now ev EventType.join e = apply_alive s ev e
apply_other s now ev EventType.alive e = apply_alive s ev e
apply_other s now ev EventType.suspect e = apply_suspect s now ev e
apply_other s now ev EventType.dead e = apply_dead s ev e
apply_other s now ev EventType.leave e = apply_leave s ev e
apply_other s now ev (EventType.unknown c) e = (s, false)

unfoldable pub apply_event : Swim → ℕ → MemberEvent → Swim × Bool
apply_event s now ev =
    if str_eq ev.node_id s.self.node_id
    then apply_self s ev ev.type
    else apply_other s now ev ev.type (find ev.node_id s.members)
