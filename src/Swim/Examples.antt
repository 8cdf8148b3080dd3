-- ===== src/Swim/Examples.antt =====
-- The membership state machine at concrete inputs.
use mini_dynamo.Base.{◌⊎◌, ℕ, ◌≡◌, ◌+◌, inl, refl, arith, some, List, [], ◌∷◌, true, false}
use mini_dynamo.Text.{Str, codes, str_key, str_eq, str_lt}
use mini_dynamo.OrdMap.{find, Sorted}
use mini_dynamo.NodeInfo.{NodeInfo}
use mini_dynamo.Event.{EventType, MemberEvent}
use mini_dynamo.Swim.{Swim, MemberState, MemberEntry, new, apply_event, enqueue_event}
use mini_dynamo.Swim.Queries.{state_of}
use mini_dynamo.Swim.Step.{Call, step, run}
use mini_dynamo.Swim.Step.Call.{applies, joins, suspects, confirms_dead}
use mini_dynamo.Swim.Lifecycle.{Effects}
use mini_dynamo.Swim.Effects.{step-Effects}
use mini_dynamo.Swim.Departure.{run-left}
use mini_dynamo.Swim.Incarnation.{Grows, step-Grows}
use mini_dynamo.Swim.RingSlots.{IsServed, has_slots}
use mini_dynamo.Swim.SlotsKept.{Kept, run-new-Kept}
use mini_dynamo.Swim.Quiescence.{refutation, refutation_prevails}

abbrev node : Str → NodeInfo
node id = record { node_id = id; host = codes "h"; port = 5000 }

abbrev a : Str
a = codes "a"

abbrev b : Str
b = codes "b"

abbrev c : Str
c = codes "c"

abbrev about : EventType → Str → ℕ → MemberEvent
about t id inc = record { type = t; node_id = id; host = codes "h"; port = 5000; incarnation = inc }

abbrev entry : Str → MemberState → ℕ → MemberEntry
entry id st inc = record { info = node id; state = st; incarnation = inc; suspect_since = 10 }

-- Node a suspects b and has seen c leave.
abbrev view : Swim
view = record {
  self = node a;
  incarnation = 3;
  self_left = false;
  suspicion_mult = 5;
  members = (b, entry b MemberState.suspected 1) ∷ (c, entry c MemberState.left 4) ∷ [];
  pending = [];
  fired = [];
}

view-Sorted : Sorted view.members
unfolding str_lt
view-Sorted = ((refl, tt), (tt, tt))

c_left : state_of view c ≡ some MemberState.left
unfolding state_of str_eq find str_lt
c_left = refl

abbrev revivals : List Call
revivals =
    applies 20 (about EventType.alive c 9) ∷ joins (about EventType.join c 9) ∷ confirms_dead c ∷ []

run-left_example : state_of (run view revivals) c ≡ some MemberState.left
run-left_example = run-left view revivals c view-Sorted c_left

step-Effects_example : Effects view (step view (Call.expires 2000 1000))
step-Effects_example = step-Effects view (Call.expires 2000 1000) view-Sorted

b_there : find b view.members ≡ some (entry b MemberState.suspected 1)
unfolding find str_eq
b_there = refl

step-Grows_example :
    (y : MemberEntry) × (find b (step view (joins (about EventType.join b 0))).members ≡ some y)
    × Grows (entry b MemberState.suspected 1) y
step-Grows_example =
    step-Grows view (joins (about EventType.join b 0)) b (entry b MemberState.suspected 1)
      view-Sorted b_there (omega arith)

abbrev b_joined : Swim
b_joined = run (new (node a) 5) (joins (about EventType.join b 0) ∷ [])

abbrev deaths : List Call
deaths = suspects 10 b ∷ confirms_dead b ∷ []

-- b stays in the ring when it is found Dead.
run-new-Kept_example :
    IsServed (run b_joined deaths) × ((has_slots b_joined b ≡ false) ⊎ Kept (run b_joined deaths) b)
run-new-Kept_example = run-new-Kept (node a) 5 (joins (about EventType.join b 0) ∷ []) deaths b

-- Node b, which suspects a.
abbrev peer : Swim
peer = record {
  self = node b;
  incarnation = 0;
  self_left = false;
  suspicion_mult = 5;
  members = (a, entry a MemberState.suspected 3) ∷ [];
  pending = [];
  fired = [];
}

a_there : find a peer.members ≡ some (entry a MemberState.suspected 3)
unfolding find str_eq
a_there = refl

refutation_prevails_example :
    (apply_event view 20 (about EventType.suspect a 3)
      ≡ (enqueue_event (record view { incarnation = 3 + 1 }) (refutation view 3), true))
    × ((apply_event peer 30 (refutation view 3)).1 ≡ true)
    × (state_of (apply_event peer 30 (refutation view 3)).0 a ≡ some MemberState.alive)
refutation_prevails_example =
    refutation_prevails view peer 20 30 (about EventType.suspect a 3)
      (entry a MemberState.suspected 3) refl (inl refl) (omega arith) (omega arith) (ground arith)
      a_there refl (omega arith)
