-- ===== src/Net/Replicas/Lending.antt =====
-- What an exchange does with the connections it takes.
use mini_dynamo.Base.{
  ℕ, ◌≤◌, ◌≡◌, refl, ap, sym, subst, ◌∙◌, inl, inr, Option, none, some, List, [], ◌∷◌, ◌++◌, count,
  count-append, arith, Option-cases,
}
use mini_dynamo.Text.{Str, str_key}
use mini_dynamo.OrdMap.{find, Sorted}
use mini_dynamo.NodeInfo.{NodeInfo}
use mini_dynamo.Net.Pool.{fds, ConnectionPool, conns_of, key_of, checkout, discard, idle_fds}
use mini_dynamo.Net.Pool.Calls.{
  Call, checks_out, checks_in, discards, Use, step, give_back, run, Allowed, AllAllowed,
}
use mini_dynamo.Net.Pool.Ledger.{
  pop_back_cases, checkout_fresh, checkout_reuses, count-insert, count-fds-append,
}
use mini_dynamo.Net.Pool.Valid.{IsValid}
use mini_dynamo.Net.Replicas.{RoundTrip, Attempt, attempt, exchange_loop, exchange}

-- The pool comes out as after calls that its users may make, which hold in the end what they held.
abbrev pub Runs : Use → ConnectionPool → Type 0
Runs u pool =
    (cs : List Call) × AllAllowed u cs × ((run u cs).pool ≡ pool) × ((run u cs).lent ≡ u.lent)

attempt-Runs :
    (round_trip : RoundTrip) (u : Use) (peer : NodeInfo) (request : Str) (a : Attempt)
    → Allowed u (checks_out peer.host peer.port a.connected)
    → Runs u (attempt round_trip u.pool peer request a).0
unfolding attempt run give_back
attempt-Runs round_trip u peer request a ok =
    let out = checks_out peer.host peer.port a.connected in
    elim (Option-cases (checkout u.pool peer.host peer.port a.connected).1) [
      | inl refused ↦ (out ∷ [], (ok, tt), ground (arith, refused), ground (arith, refused))
      | inr (c, lent) ↦ elim (Option-cases (round_trip c request)) [
        | inl broken ↦ (
          out ∷ discards c ∷ [],
          (ok, (ground (arith, lent), tt)),
          ground (arith, lent, broken),
          ground (arith, lent),
        )
        | inr (reply, e) ↦ (
          out ∷ checks_in peer.host peer.port c a.returned_at ∷ [],
          (ok, (ground (arith, lent), tt)),
          ground (arith, lent, e),
          ground (arith, lent),
        )
      ]
    ]

-- An attempt that fails leaves no connection idle that was not.
attempt_shrinks :
    (round_trip : RoundTrip) (pool : ConnectionPool) (peer : NodeInfo) (request : Str) (a : Attempt)
    → Sorted pool.idle
    → (attempt round_trip pool peer request a).1 ≡ none
    → (x : ℕ)
    → count x (idle_fds (attempt round_trip pool peer request a).0.idle)
      ≤ count x (idle_fds pool.idle)
unfolding attempt discard
attempt_shrinks round_trip pool peer request a s e x =
    let key = key_of peer.host peer.port in
    elim (pop_back_cases (conns_of (find key pool.idle))) [
      | inl (_, empty) ↦
          let fresh = checkout_fresh pool peer.host peer.port a.connected empty in
          elim (Option-cases a.connected) [
            | inl refused ↦ ground (arith, fresh, refused, e)
            | inr (c, up) ↦ elim (Option-cases (round_trip c request)) [
              | inl broken ↦ ground (arith, fresh, up, broken)
              | inr (reply, answered) ↦ ground (arith, fresh, up, answered, e)
            ]
          ]
      | inr (rest, c, whole, last) ↦
          let reused = checkout_reuses pool peer.host peer.port a.connected rest c last in
          let moved = count-insert x key rest pool.idle s in
          let parts = count-fds-append x rest (c ∷ []) in
          let same = ap (λ l. count x (fds l)) whole in
          elim (Option-cases (round_trip c.fd request)) [
            | inl broken ↦ ground (arith, reused, broken, moved, parts, same)
            | inr (reply, answered) ↦ ground (arith, reused, answered, e)
          ]
    ]

exchange_retries :
    (round_trip : RoundTrip) (pool : ConnectionPool) (peer : NodeInfo) (request : Str)
    (first second : Attempt)
    → (attempt round_trip pool peer request first).1 ≡ none
    → (exchange round_trip pool peer request first second).0
      ≡ (attempt round_trip (attempt round_trip pool peer request first).0 peer request second).0
unfolding exchange exchange_loop
exchange_retries round_trip pool peer request first second failed =
    let p = (attempt round_trip pool peer request first).0 in
    elim (Option-cases (attempt round_trip p peer request second).1) [
      | inl broken ↦ ground (arith, failed, broken)
      | inr (reply, e) ↦ ground (arith, failed, e)
    ]

run-append : (u : Use) (cs ds : List Call) → run u (cs ++ ds) ≡ run (run u cs) ds
unfolding run
run-append u [] ds = refl
run-append u (c ∷ cs) ds = run-append (step u c) cs ds

AllAllowed-append :
    (u : Use) (cs ds : List Call)
    → AllAllowed u cs
    → AllAllowed (run u cs) ds
    → AllAllowed u (cs ++ ds)
unfolding run
AllAllowed-append u [] ds a b = b
AllAllowed-append u (c ∷ cs) ds a b = (a.0, AllAllowed-append (step u c) cs ds a.1 b)

then-Runs :
    (u : Use) (pool pool' : ConnectionPool)
    → (first : Runs u pool) → Runs (run u first.0) pool'
    → Runs u pool'
then-Runs u pool pool' (cs, ok, at, held) (ds, ok', at', held') = (
  cs ++ ds,
  AllAllowed-append u cs ds ok ok',
  ap (λ w. w.pool) (run-append u cs ds) ∙ at',
  ap (λ w. w.lent) (run-append u cs ds) ∙ held' ∙ held,
)

still-Allowed :
    (u w : Use) (host : Str) (port : ℕ) (connected : Option ℕ)
    → ((x : ℕ) → count x (idle_fds w.pool.idle) ≤ count x (idle_fds u.pool.idle))
    → w.lent ≡ u.lent
    → Allowed u (checks_out host port connected)
    → Allowed w (checks_out host port connected)
still-Allowed u w host port none fewer same ok = tt
still-Allowed u w host port (some fd) fewer same ok = omega (
  arith,
  fewer fd,
  ap (count fd) same,
  ok,
  count-append fd (idle_fds u.pool.idle) u.lent,
  count-append fd (idle_fds w.pool.idle) w.lent,
)

-- An exchange is a run of the calls that a user of the pool may make: each connection it takes is
-- given back or closed before it returns, where what the connector opens was not open before.
pub exchange-Runs :
    (round_trip : RoundTrip) (u : Use) (peer : NodeInfo) (request : Str) (first second : Attempt)
    → IsValid u
    → Allowed u (checks_out peer.host peer.port first.connected)
    → Allowed u (checks_out peer.host peer.port second.connected)
    → Runs u (exchange round_trip u.pool peer request first second).0
exchange-Runs round_trip u peer request first second v ok ok' =
    let once = attempt-Runs round_trip u peer request first ok in
    let p = (attempt round_trip u.pool peer request first).0 in
    elim (Option-cases (attempt round_trip u.pool peer request first).1) [
      | inr (reply, e) ↦
          let stops : (exchange round_trip u.pool peer request first second).0 ≡ p =
            unfold exchange exchange_loop in ground (arith, e) in
          subst (Runs u) (sym stops) once
      | inl failed ↦
          let (cs, oks, at, held) = once in
          let w = run u cs in
          let shrinks = attempt_shrinks round_trip u.pool peer request first v.ordered failed in
          let again = attempt-Runs round_trip w peer request second (
            still-Allowed u w peer.host peer.port second.connected
              (λ x. omega (arith, shrinks x, ap (λ q. count x (idle_fds q.idle)) at)) held ok') in
          let goes_on : (attempt round_trip w.pool peer request second).0
              ≡ (exchange round_trip u.pool peer request first second).0 =
            ap (λ q. (attempt round_trip q peer request second).0) at
            ∙ sym (exchange_retries round_trip u.pool peer request first second failed) in
          then-Runs u p _ once (subst (Runs w) goes_on again)
    ]
