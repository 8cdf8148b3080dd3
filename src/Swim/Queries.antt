-- ===== src/Swim/Queries.antt =====
-- The methods of src/gossip/swim.cpp that only read the state.
use mini_dynamo.Base.{
  ℕ, Bool, true, false, Option, none, some, List, [], ◌∷◌, if◌then◌else◌, length,
}
use mini_dynamo.Text.{Str, str_key, str_eq}
use mini_dynamo.OrdMap.{Map, find}
use mini_dynamo.NodeInfo.{NodeInfo}
use mini_dynamo.Event.{EventType, MemberEvent}
use mini_dynamo.Swim.{Swim, MemberState, MemberEntry, self_alive}

-- Alive or Suspect.
abbrev pub is_up : MemberState → Bool
is_up MemberState.alive = true
is_up MemberState.suspected = true
is_up MemberState.dead = false
is_up MemberState.left = false

unfoldable pub peers_in : (MemberState → Bool) → Map Str MemberEntry → List NodeInfo
peers_in wanted [] = []
peers_in wanted ((id, e) ∷ m) =
    let rest = peers_in wanted m in if wanted e.state then e.info ∷ rest else rest

unfoldable pub alive_peers : Swim → List NodeInfo
unfolding peers_in
alive_peers s = peers_in is_up s.members

unfoldable pub member_count : Swim → ℕ
unfolding alive_peers
member_count s = length (alive_peers s)

unfoldable pub is_alive : Swim → Str → Bool
is_alive s id = elim (find id s.members) [ none ↦ false | some e ↦ is_up e.state ]

abbrev pub state_in : Option MemberEntry → Option MemberState
state_in none = none
state_in (some e) = some e.state

unfoldable pub state_of : Swim → Str → Option MemberState
state_of s id =
    if str_eq id s.self.node_id
    then some (if s.self_left then MemberState.left else MemberState.alive)
    else state_in (find id s.members)

-- How a full-state exchange names a member: a suspicion travels as Alive.
abbrev pub announced : MemberState → EventType
announced MemberState.dead = EventType.dead
announced MemberState.left = EventType.leave
announced MemberState.alive = EventType.alive
announced MemberState.suspected = EventType.alive

abbrev pub announce : Str → MemberEntry → MemberEvent
announce id e = record {
  type = announced e.state;
  node_id = id;
  host = e.info.host;
  port = e.info.port;
  incarnation = e.incarnation;
}

unfoldable pub announce_all : Map Str MemberEntry → List MemberEvent
announce_all [] = []
announce_all ((id, e) ∷ m) = announce id e ∷ announce_all m

unfoldable pub full_state : Swim → List MemberEvent
unfolding announce_all
full_state s =
    record (self_alive s s.incarnation) {
      type = if s.self_left then EventType.leave else EventType.alive;
    }
    ∷ announce_all s.members
