-- ===== src/Swim/Lifecycle.antt =====
-- The life of one member, as the rest of the node may rely on it: which entries may replace which, and
-- which callback goes with the change. The calls of src/gossip/swim.cpp are shown to follow it.
use mini_dynamo.Base.{
  ◌≤◌, ◌<◌, ◌≡◌, ◌⊎◌, ◌≢◌, true, false, Option, none, some, List, [], ◌∷◌, ◌++◌, if◌then◌else◌,
}
use mini_dynamo.Text.{Str, str_key}
use mini_dynamo.OrdMap.{find, insert}
use mini_dynamo.NodeInfo.{NodeInfo}
use mini_dynamo.Swim.{Swim, MemberState, MemberEntry, is_left, next_incarnation}
use mini_dynamo.Swim.Local.{is_alive_state}
use mini_dynamo.Swim.Queries.{is_up}

-- The entry of `id` goes from `d` to `e`, and `f` is announced.
pub data Move (id : Str) (d : Option MemberEntry) (e : MemberEntry) (f : Option MemberState)
    : Type 0 where
  met :
      d ≡ none
      → e.info.node_id ≡ id
      → e.state ≡ MemberState.alive
      → f ≡ some MemberState.alive
      → Move id d e f
  heard :
      d ≡ none
      → e.info.node_id ≡ id
      → (e.state ≡ MemberState.dead) ⊎ (e.state ≡ MemberState.left)
      → f ≡ none
      → Move id d e f
  revives :
      (x : MemberEntry)
      → d ≡ some x
      → e.info.node_id ≡ x.info.node_id
      → is_left x.state ≡ false
      → e.state ≡ MemberState.alive
      → x.incarnation < e.incarnation
      → f ≡ some MemberState.alive
      → Move id d e f
  rejoins :
      (x : MemberEntry)
      → d ≡ some x
      → e.info.node_id ≡ x.info.node_id
      → is_left x.state ≡ false
      → e.state ≡ MemberState.alive
      → next_incarnation x.incarnation ≤ e.incarnation
      → f ≡ (if is_alive_state x.state then none else some MemberState.alive)
      → Move id d e f
  doubts :
      (x : MemberEntry)
      → d ≡ some x
      → e.info.node_id ≡ x.info.node_id
      → is_up x.state ≡ true
      → e.state ≡ MemberState.suspected
      → x.incarnation ≤ e.incarnation
      → f ≡ none
      → Move id d e f
  dies :
      (x : MemberEntry)
      → d ≡ some x
      → e.info.node_id ≡ x.info.node_id
      → is_up x.state ≡ true
      → e.state ≡ MemberState.dead
      → x.incarnation ≤ e.incarnation
      → f ≡ some MemberState.dead
      → Move id d e f
  retires :
      (x : MemberEntry)
      → d ≡ some x
      → e.info.node_id ≡ x.info.node_id
      → is_left x.state ≡ false
      → e.state ≡ MemberState.left
      → e.incarnation ≡ x.incarnation
      → f ≡ some MemberState.left
      → Move id d e f

-- The calls of the callbacks that an announcement makes.
abbrev pub calls : NodeInfo → Option MemberState → List (NodeInfo × MemberState)
calls info none = []
calls info (some st) = (info, st) ∷ []

-- What one change does to the state.
pub data Effect (s t : Swim) : Type 0 where
  quiet :
      t.self ≡ s.self
      → t.self_left ≡ s.self_left
      → t.members ≡ s.members
      → t.fired ≡ s.fired
      → Effect s t
  retires_self :
      t.self ≡ s.self
      → t.self_left ≡ true
      → t.members ≡ s.members
      → t.fired ≡ s.fired ++ (s.self, MemberState.left) ∷ []
      → Effect s t
  writes :
      (id : Str) (e : MemberEntry) (f : Option MemberState)
      → t.self ≡ s.self
      → t.self_left ≡ s.self_left
      → t.members ≡ insert id e s.members
      → t.fired ≡ s.fired ++ calls e.info f
      → (find id s.members ≡ none → id ≢ s.self.node_id)
      → Move id (find id s.members) e f
      → Effect s t

-- Changes one after the other.
pub data Effects (s : Swim) : Swim → Type 0 where
  done : Effects s s
  more : {t u : Swim} → Effects s t → Effect t u → Effects s u
