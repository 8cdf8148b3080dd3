-- ===== src/Coordinator/Examples.antt =====
-- The coordinator at concrete inputs: node a, with owners a, b and c, of which b is down.
use mini_dynamo.Base.{
  ◌+◌, ◌≤◌, ◌≡◌, ◌↔◌, ◌⊎◌, arith, Bool, true, false, Option, none, some, List, [], ◌∷◌,
  if◌then◌else◌, length, All,
}
use mini_dynamo.Text.{Str, codes, str_key, str_eq}
use mini_dynamo.NodeInfo.{NodeInfo}
use mini_dynamo.Clock.{VectorClock, IsValid, empty, set}
use mini_dynamo.Clock.Update.{set-IsValid, empty-IsValid}
use mini_dynamo.Versioned.{VersionedValue}
use mini_dynamo.Ring.{new, get_all_physical_nodes}
use mini_dynamo.Replica
use mini_dynamo.Hints.{HintStore}
use mini_dynamo.Coordinator.{
  Coordinator, Happening, PutResult, placing, placed, place_all, write_to, among, stand_in,
}
use mini_dynamo.Coordinator.Placing.{IsTarget, reach, place_all-IsTarget}
use mini_dynamo.Coordinator.Waiting.{acks_in, write_to_ok_iff}
use mini_dynamo.Coordinator.Waiting
use mini_dynamo.Coordinator.Newest.{Has, Same, Newer, Unbeaten, Clocked}
use mini_dynamo.Coordinator.Siblings.{Apart, maximal_versions_exact}
use mini_dynamo.Coordinator.Reading.{
  Resp, found_versions, maximal_versions, ReadQuorum, finish_read,
}
use mini_dynamo.Coordinator.Reads.{Says, finish_read-Says, responses_in, await_reads_iff}
use mini_dynamo.Coordinator.Reads

abbrev node : Str → NodeInfo
node id = record { node_id = id; host = codes "h"; port = 5000 }

abbrev a : Str
a = codes "a"

abbrev b : Str
b = codes "b"

abbrev c : Str
c = codes "c"

abbrev key : Str
key = codes "k"

abbrev up : Str → Bool
up id = if str_eq id b then false else true

abbrev hints : HintStore
hints = record { ttl = 100; max_per_target = 2; hints = [] }

abbrev coordinator : Coordinator
coordinator = record {
  self = node a;
  router = new 3;
  storage = [];
  max_clock_entries = 20;
  is_alive = some up;
  hint_store = some hints;
}

abbrev context : VectorClock
context = set empty b 2 10

context-IsValid : IsValid context
context-IsValid = set-IsValid empty b 2 10 empty-IsValid

abbrev value : VectorClock → VersionedValue
value clock = record { payload = 7 ∷ []; clock = clock; deleted = false }

abbrev owners : List NodeInfo
owners = node a ∷ node b ∷ node c ∷ []

place_all-IsTarget_example :
    All
      (IsTarget coordinator)
      (place_all coordinator 9 key (value context) owners owners (placing coordinator)).remotes
    × (reach (place_all coordinator 9 key (value context) owners owners (placing coordinator))
        ≤ reach (placing coordinator) + 3)
place_all-IsTarget_example =
    place_all-IsTarget coordinator 9 key (value context) owners owners (placing coordinator) tt

-- The one remote, c, acks.
abbrev schedule : List (Happening Bool)
schedule = Happening.wakes ∷ Happening.finished true ∷ Happening.wakes ∷ []

one_answer :
    Waiting.answers schedule ≤ length (placed coordinator 9 key (value context) owners).remotes
unfolding Waiting.answers place_all stand_in among str_eq new get_all_physical_nodes
one_answer = omega arith

write_to_ok_iff_example :
    (((write_to coordinator 9 key (value context) 2 schedule owners).1 ≡ PutResult.ok context)
      ↔ (2 ≤ (placed coordinator 9 key (value context) owners).local_acks + acks_in schedule))
    × ((write_to coordinator 9 key (value context) 2 schedule owners).1 ≡ PutResult.ok context
        → 2 ≤ length owners)
write_to_ok_iff_example =
    write_to_ok_iff coordinator 9 key (value context) 2 schedule (node a) (node b ∷ node c ∷ [])
      one_answer

-- One replica is behind, one has not the key.
abbrev responses : List Resp
responses =
    record { peer = node a; found = some (value empty) }
    ∷ record { peer = node b; found = none }
    ∷ record { peer = node c; found = some (value context) }
    ∷ []

responses-Clocked : All Clocked (found_versions responses)
unfolding found_versions
responses-Clocked = (empty-IsValid, (context-IsValid, tt))

maximal_versions_exact_example :
    All
      (λ (m : VersionedValue).
        Has m (found_versions responses) × Unbeaten m (found_versions responses))
      (maximal_versions responses)
    × Apart (maximal_versions responses)
    × ((v : VersionedValue)
        → Has v (found_versions responses)
        → (m : VersionedValue) × Has m (maximal_versions responses) × (Same m v ⊎ Newer m v))
maximal_versions_exact_example = maximal_versions_exact responses responses-Clocked

finish_read-Says_example : Says 2 responses (finish_read coordinator key 2 responses).result
finish_read-Says_example = finish_read-Says coordinator key 2 responses responses-Clocked

abbrev start : ReadQuorum
start = record { responses = []; completed = 0 }

abbrev reads : List (Happening (Option Resp))
reads =
    Happening.finished none
    ∷ Happening.wakes
    ∷ Happening.finished (some (record { peer = node c; found = none }))
    ∷ []

two_answers : 0 + Reads.answers reads ≤ 2
unfolding Reads.answers
two_answers = omega arith
