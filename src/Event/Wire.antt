-- ===== src/Event/Wire.antt =====
-- src/gossip/member_event.cpp: the text of the events that ride on a SWIM message.
pub mod RoundTrip
use mini_dynamo.Base.{
  ℕ, Bool, true, false, Option, none, some, List, [], ◌∷◌, ◌++◌, ◌==◌, if◌then◌else◌,
}
use mini_dynamo.Text.{Str}
use mini_dynamo.Text.Decimal.{to_string, stoull, stoi_uint16}
use mini_dynamo.Text.Split.{cut_at, split, join}
use mini_dynamo.Event.{EventType, MemberEvent}

abbrev pub colon : ℕ
colon = 58

abbrev pub semicolon : ℕ
semicolon = 59

abbrev pub letter_of : EventType → ℕ
letter_of EventType.join = 74
letter_of EventType.suspect = 83
letter_of EventType.dead = 68
letter_of EventType.leave = 76
letter_of EventType.alive = 65
letter_of (EventType.unknown c) = c

-- The cast of a character to the enum.
abbrev pub type_of : ℕ → EventType
type_of c =
    if c == 74
    then EventType.join
    else if c == 83
    then EventType.suspect
    else if c == 68
    then EventType.dead
    else if c == 76
    then EventType.leave
    else if c == 65
    then EventType.alive
    else EventType.unknown c

-- "TYPE:node_id:host:port:incarnation"
unfoldable pub serialize : MemberEvent → Str
serialize e =
    letter_of e.type
    ∷ colon
    ∷ (e.node_id
        ++ colon ∷ (e.host ++ colon ∷ (to_string e.port ++ colon ∷ to_string e.incarnation)))

abbrev pub or_zero : Option ℕ → ℕ
or_zero none = 0
or_zero (some n) = n

-- The numbers, each 0 where it does not read as one.
pub read_numbers : MemberEvent → Str → Str → MemberEvent
read_numbers e port incarnation = record e {
  port = or_zero (stoi_uint16 port);
  incarnation = or_zero (stoull incarnation);
}

-- What stands behind the host; with no colon left, the event stays as far as it was read.
pub read_port : MemberEvent → Str → MemberEvent
unfolding read_numbers
read_port e s = elim (cut_at colon s) [
  | none ↦ e
  | some (port, incarnation) ↦ read_numbers e port incarnation
]

pub read_host : MemberEvent → Str → MemberEvent
unfolding read_port
read_host e s = elim (cut_at colon s) [
  | none ↦ e
  | some (host, rest) ↦ read_port (record e { host = host }) rest
]

pub read_node_id : MemberEvent → Str → MemberEvent
unfolding read_host
read_node_id e s = elim (cut_at colon s) [
  | none ↦ e
  | some (id, rest) ↦ read_host (record e { node_id = id }) rest
]

abbrev pub blank : EventType → MemberEvent
blank t = record { type = t; node_id = []; host = []; port = 0; incarnation = 0 }

-- Fewer than three characters, or no colon behind the first, give the default event.
unfoldable pub deserialize : Str → MemberEvent
unfolding read_node_id
deserialize [] = blank EventType.alive
deserialize (t ∷ []) = blank EventType.alive
deserialize (t ∷ c ∷ []) = blank EventType.alive
deserialize (t ∷ c ∷ x ∷ s) =
    if c == colon then read_node_id (blank (type_of t)) (x ∷ s) else blank EventType.alive

unfoldable pub event_texts : List MemberEvent → List Str
unfolding serialize
event_texts [] = []
event_texts (e ∷ l) = serialize e ∷ event_texts l

unfoldable pub serialize_events : List MemberEvent → Str
unfolding event_texts join
serialize_events events = join semicolon (event_texts events)

-- Empty tokens are skipped.
pub read_tokens : List Str → List MemberEvent
unfolding deserialize
read_tokens [] = []
read_tokens ([] ∷ l) = read_tokens l
read_tokens ((c ∷ s) ∷ l) = deserialize (c ∷ s) ∷ read_tokens l

unfoldable pub deserialize_events : Str → List MemberEvent
unfolding read_tokens split
deserialize_events s = read_tokens (split semicolon s)
