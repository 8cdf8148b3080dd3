-- ===== src/Net/Examples.antt =====
-- Runs of the transport, and the theorems about it at concrete inputs.
use mini_dynamo.Base.{
  ℕ, zero, suc, ◌≤◌, ◌≡◌, ◌≢◌, refl, none, some, List, [], ◌∷◌, ◌++◌, length, count, arith, ◌==◌,
  if◌then◌else◌,
}
use mini_dynamo.Text.{Str, codes, str_key, str_eq}
use mini_dynamo.OrdMap.{find, insert}
use mini_dynamo.Text.Decimal.{to_string, show, read, AllDigits}
use mini_dynamo.NodeInfo.{NodeInfo}
use mini_dynamo.Net.Framing.{
  Outcome, interrupted, moves, done, failed, k_max_frame, read_all, read_header, read_payload,
  send_framed, recv_framed,
}
use mini_dynamo.Net.Framing.Accepts.{recv_framed_exact}
use mini_dynamo.Net.Framing.Delivers.{Steady, frame_crosses}
use mini_dynamo.Net.Pool.{
  new, key_of, pop_back, reap, reap_all, checkout, checkin, discard, reap_expired, shut_down,
  idle_fds,
}
use mini_dynamo.Net.Pool.Calls.{
  Call, checks_out, checks_in, reaps, shuts_down, run, AllAllowed, Use, give_back,
}
use mini_dynamo.Net.Pool.Valid.{IsValid}
use mini_dynamo.Net.Pool.Accounts.{start, run-start-IsValid, run_closes_all}
use mini_dynamo.Net.Workers
use mini_dynamo.Net.Workers.{
  Move, enqueues, works, all_exited, worker_at, set_worker, worker_step, enqueue, begin_shutdown,
}
use mini_dynamo.Net.Workers.Drains.{run_drains}
use mini_dynamo.Net.Replicas.{Attempt, RoundTrip, attempt, exchange_loop, exchange}

-- "3\nabc" in pieces, with the start of the next frame behind it.
abbrev pieces : List Outcome
pieces = moves 1 ∷ interrupted ∷ moves 1 ∷ moves 2 ∷ moves 9 ∷ moves 1 ∷ moves 1 ∷ moves 1 ∷ []

pieces-Steady : Steady pieces
pieces-Steady = (
  omega arith,
  (omega arith, (omega arith, (omega arith, (omega arith, (omega arith, (omega arith, tt)))))),
)

two_frames :
    recv_framed (codes "3" ++ 10 ∷ codes "abc2") pieces
    ≡ done (codes "abc", codes "2", moves 1 ∷ moves 1 ∷ moves 1 ∷ [])
unfolding recv_framed read_header read_payload read_all read
two_frames = refl

bad_header : recv_framed (codes "3x" ++ 10 ∷ codes "abc") pieces ≡ failed
unfolding recv_framed read_header
bad_header = refl

cut_short : recv_framed (codes "3" ++ 10 ∷ codes "ab") pieces ≡ failed
unfolding recv_framed read_header read_payload read_all read
cut_short = refl

recv_framed_exact_example :
    (header : Str) × (codes "3" ++ 10 ∷ codes "abc2" ≡ header ++ 10 ∷ (codes "abc" ++ codes "2"))
    × AllDigits header
    × (header ≢ [])
    × (read header 0 ≡ length (codes "abc"))
    × (length (codes "abc") ≤ k_max_frame)
recv_framed_exact_example =
    recv_framed_exact (codes "3" ++ 10 ∷ codes "abc2") pieces (codes "abc") (codes "2")
      (moves 1 ∷ moves 1 ∷ moves 1 ∷ []) two_frames

-- A payload of one byte more than the limit.
zeros : ℕ → Str
zeros zero = []
zeros (suc n) = 0 ∷ zeros n

length-zeros : (n : ℕ) → length (zeros n) ≡ n
unfolding zeros
length-zeros zero = refl
length-zeros (suc n) = omega (arith, length-zeros n)

frame_crosses_example :
    (sent : Str) × (left : List Outcome) × (left' : List Outcome) × (send_framed
        (codes "abc")
        []
        pieces
      ≡ done ([] ++ sent, left))
    × (recv_framed (sent ++ codes "2") pieces ≡ done (codes "abc", codes "2", left'))
unfolding to_string show
frame_crosses_example =
    frame_crosses (codes "abc") [] (codes "2") pieces pieces (omega arith) pieces-Steady
      pieces-Steady (omega arith) (omega arith)

abbrev host : Str
host = codes "h"

-- Two connections that come back to a pool with room for one, which then shuts down.
abbrev history : List Call
history =
    checks_out host 1 (some 5)
    ∷ checks_out host 1 (some 6)
    ∷ checks_in host 1 5 10
    ∷ checks_in host 1 6 11
    ∷ reaps 12
    ∷ shuts_down
    ∷ []

history-AllAllowed : AllAllowed (start 1 60) history
unfolding new checkout find insert pop_back key_of to_string show checkin give_back idle_fds str_eq
history-AllAllowed = (refl, (refl, (omega arith, (omega arith, (tt, (tt, tt))))))

run-start-IsValid_example : IsValid (run (start 1 60) history)
run-start-IsValid_example = run-start-IsValid 1 60 history history-AllAllowed

run_closes_all_example :
    count 5 (run (start 1 60) history).pool.closed ≡ count 5 (run (start 1 60) history).opened
unfolding new checkout find insert pop_back key_of to_string show checkin give_back idle_fds str_eq
    run discard reap_expired reap_all reap shut_down
run_closes_all_example = run_closes_all 1 60 history history-AllAllowed refl refl 5

abbrev peer : NodeInfo
peer = record { node_id = codes "b"; host = host; port = 1 }

-- Descriptor 5 has gone stale; a fresh one answers.
abbrev answers : RoundTrip
answers fd request = if fd == 5 then none else some (codes "RESPONSE|OK")

abbrev opens : ℕ → Attempt
opens fd = record { connected = some fd; returned_at = 20 }

-- A pool with one idle connection to the peer.
abbrev idle_history : List Call
idle_history = checks_out host 1 (some 5) ∷ checks_in host 1 5 10 ∷ []

idle_history-AllAllowed : AllAllowed (start 1 60) idle_history
unfolding new checkout find insert pop_back key_of to_string show checkin give_back idle_fds str_eq
idle_history-AllAllowed = (refl, (omega arith, tt))

abbrev idling : Use
idling = run (start 1 60) idle_history

retries_once :
    (exchange answers idling.pool peer (codes "READ|k|a") (opens 6) (opens 8)).1
    ≡ codes "RESPONSE|OK"
unfolding new checkout find insert pop_back key_of to_string show checkin give_back idle_fds str_eq
    run exchange exchange_loop attempt discard
retries_once = refl

-- Two workers; the third task waits when the pool is shut down, and a fourth comes too late.
abbrev moves_to_shutdown : List Move
moves_to_shutdown =
    enqueues 7 ∷ works 0 ∷ enqueues 8 ∷ enqueues 9 ∷ works 1 ∷ Workers.shuts_down ∷ enqueues 6 ∷ []

abbrev moves_after : List Move
moves_after = works 0 ∷ works 0 ∷ works 1 ∷ works 1 ∷ works 0 ∷ works 0 ∷ []

run_drains_example :
    (Workers.run (Workers.new 2) (moves_to_shutdown ++ moves_after)).started
    ≡ (Workers.run (Workers.new 2) (moves_to_shutdown ++ moves_after)).accepted
unfolding Workers.run Workers.new all_exited worker_at set_worker worker_step enqueue begin_shutdown
run_drains_example = run_drains 2 (moves_to_shutdown ++ moves_after) refl

all_three :
    (Workers.run (Workers.new 2) (moves_to_shutdown ++ moves_after)).started ≡ 7 ∷ 8 ∷ 9 ∷ []
unfolding Workers.run Workers.new worker_at set_worker worker_step enqueue begin_shutdown
all_three = refl
