-- ===== src/Net/Replicas.antt =====
-- src/net/pooled_replica_client.cpp: a request and its reply over a pooled connection, with one retry.
-- What a descriptor answers and what the connector answers at each attempt are arguments.
pub mod Lending
pub mod Retry
pub mod Calls
use mini_dynamo.Base.{ℕ, zero, suc, ◌+◌, Bool, true, false, Option, none, some, List, [], ◌∷◌, ◌++◌}
use mini_dynamo.Text.{Str}
use mini_dynamo.NodeInfo.{NodeInfo}
use mini_dynamo.Net.Pool.{ConnectionPool, checkout, checkin, discard}

-- What one attempt meets: the connector's answer, if it is asked, and the time of the checkin.
pub record Attempt : Type 0 where
  pub connected : Option ℕ
  pub returned_at : ℕ

-- roundTrip on a descriptor: `none` where the send or the receive fails.
abbrev pub RoundTrip : Type 0
RoundTrip = ℕ → Str → Option Str

-- The body of the loop; `none` goes on to the next attempt.
unfoldable pub attempt :
    RoundTrip → ConnectionPool → NodeInfo → Str → Attempt → ConnectionPool × Option Str
attempt round_trip pool peer request a =
    let (p, fd) = checkout pool peer.host peer.port a.connected in
    elim fd [
      | none ↦ (p, some [])
      | some c ↦ elim (round_trip c request) [
        | some reply ↦ (checkin p peer.host peer.port (some c) a.returned_at, some reply)
        | none ↦ (discard p (some c), none)
      ]
    ]

unfoldable pub exchange_loop :
    RoundTrip → ConnectionPool → NodeInfo → Str → List Attempt → ConnectionPool × Str
unfolding attempt
exchange_loop round_trip pool peer request [] = (pool, [])
exchange_loop round_trip pool peer request (a ∷ later) =
    let (p, answer) = attempt round_trip pool peer request a in
    let on = exchange_loop round_trip p peer request later in
    elim answer [ none ↦ on | some reply ↦ (p, reply) ]

-- At most two attempts.
unfoldable pub exchange :
    RoundTrip → ConnectionPool → NodeInfo → Str → Attempt → Attempt → ConnectionPool × Str
unfolding exchange_loop
exchange round_trip pool peer request first second =
    exchange_loop round_trip pool peer request (first ∷ second ∷ [])
