-- ===== src/Hints/Examples.antt =====
-- Hints at concrete inputs: two for a node that is down, of which one is delivered.
use mini_dynamo.Base.{◌+◌, refl, ◌≡◌, ◌≢◌, arith, true, false, [], ◌∷◌, leb, if◌then◌else◌}
use mini_dynamo.Text.{Str, str_key}
use mini_dynamo.OrdMap.{find}
use mini_dynamo.Clock.{empty}
use mini_dynamo.Versioned.{VersionedValue}
use mini_dynamo.Hints.{HintStore, hints_for, store, hint_count_for, Answers, deliver_for}
use mini_dynamo.Hints.Kept.{hint, IsBounded, store-IsBounded}
use mini_dynamo.Base.{filter, ◌-◌}
use mini_dynamo.Hints.Rounds.{
  HandoffThread, notify_recovery, handoff_round, named, handoff_round_empties,
}
use mini_dynamo.Hints.Handoff.{failed, deliver_for_keeps}

abbrev node : Str
node = 110 ∷ []

abbrev key : Str
key = 107 ∷ []

abbrev value : VersionedValue
value = record { payload = 7 ∷ []; clock = empty; deleted = false }

abbrev empty_store : HintStore
empty_store = record { ttl = 100; max_per_target = 2; hints = [] }

empty_store-IsBounded : IsBounded empty_store
unfolding hints_for find
empty_store-IsBounded k = omega arith

abbrev one : HintStore
one = store empty_store 5 node key value

abbrev two : HintStore
two = store one 150 node key value

one-IsBounded : IsBounded one
one-IsBounded = (store-IsBounded empty_store 5 node key value empty_store-IsBounded).0

two-IsBounded : IsBounded two
two-IsBounded = (store-IsBounded one 150 node key value one-IsBounded).0

abbrev loaded : HintStore
loaded = record {
  ttl = 100;
  max_per_target = 2;
  hints = (node, hint node key value 5 ∷ hint node key value 150 ∷ []) ∷ [];
}

-- The first delivery succeeds, the others fail.
abbrev answers : Answers
answers i = (if leb i 0 then true else false, 300)

deliver_for_keeps_example :
    (hints_for (deliver_for answers two node).0 node ≡ failed answers 0 node (hints_for two node))
    × ((deliver_for answers two node).1 + hint_count_for (deliver_for answers two node).0 node
        ≡ hint_count_for two node)
    × ((k : Str) → k ≢ node → hints_for (deliver_for answers two node).0 k ≡ hints_for two k)
deliver_for_keeps_example = deliver_for_keeps answers two node two-IsBounded

-- The node comes back.
abbrev woken : HandoffThread
woken =
    notify_recovery (record { hint_store = loaded; recovery_queue = []; delivered = 0 })
      (record { node_id = node; host = []; port = 0 })

handoff_round_empties_example :
    ((handoff_round (λ t i. (true, 0)) 400 woken).recovery_queue ≡ [])
    × (hints_for (handoff_round (λ t i. (true, 0)) 400 woken).hint_store node ≡ (
        if named node woken.recovery_queue
        then []
        else filter (λ hint. leb (400 - hint.created_at) 100) (hints_for loaded node)))
unfolding notify_recovery
handoff_round_empties_example =
    handoff_round_empties (λ t i. (true, 0)) 400 woken node (λ t i. refl) (tt, tt)
