-- ===== src/Coordinator/Clocks.antt =====
-- The clock that a new write carries.
use mini_dynamo.Base.{ℕ, max}
use mini_dynamo.Text.{Str}
use mini_dynamo.Clock.{VectorClock, get, set, next_counter}
use mini_dynamo.Coordinator.{Coordinator, local_clock}

-- The counter that the write takes for its coordinator.
abbrev pub next_of : Coordinator → Str → VectorClock → ℕ
next_of c key context =
    next_counter (max (get context c.self.node_id) (get (local_clock c key) c.self.node_id))

abbrev pub stamped : Coordinator → ℕ → Str → VectorClock → VectorClock
stamped c now key context = set context c.self.node_id (next_of c key context) now
