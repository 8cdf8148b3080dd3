-- ===== src/Swim/Step.antt =====
-- Every call that changes the state, as one step, and runs of such calls in any order.
use mini_dynamo.Base.{ℕ, List, [], ◌∷◌}
use mini_dynamo.Text.{Str}
use mini_dynamo.Event.{MemberEvent}
use mini_dynamo.Swim.{Swim, apply_event, enqueue_event}
use mini_dynamo.Swim.Local.{
  apply_direct_join, leave, suspect, confirm_dead, expire_suspects, refute, get_events_to_send,
}

-- The first argument of a call that reads the clock is the time.
pub data Call : Type 0 where
  applies : ℕ → MemberEvent → Call
  joins : MemberEvent → Call
  leaves : Str → Call
  suspects : ℕ → Str → Call
  confirms_dead : Str → Call
  expires : ℕ → ℕ → Call
  refutes : Call
  enqueues : MemberEvent → Call
  sends : Call

unfoldable pub step : Swim → Call → Swim
step s (applies now ev) = (apply_event s now ev).0
step s (joins ev) = (apply_direct_join s ev).0
step s (leaves id) = leave s id
step s (suspects now id) = suspect s now id
step s (confirms_dead id) = confirm_dead s id
step s (expires now timeout) = (expire_suspects s now timeout).0
step s refutes = refute s
step s (enqueues ev) = enqueue_event s ev
step s sends = (get_events_to_send s).0

unfoldable pub run : Swim → List Call → Swim
run s [] = s
run s (c ∷ cs) = run (step s c) cs
