-- ===== src/Net/Pool/Accounts.antt =====
-- Every history of a pool and its users: no connection is lost, closed twice, or idle while held.
use mini_dynamo.Base.{ℕ, ◌≡◌, refl, ap, true, List, [], ◌∷◌, count, arith}
use mini_dynamo.Text.{str_key}
use mini_dynamo.Net.Pool.{new, idle_fds}
use mini_dynamo.Net.Pool.Calls.{Call, Use, step, run, AllAllowed}
use mini_dynamo.Net.Pool.Valid.{IsValid, step-IsValid}

pub run-IsValid : (u : Use) (cs : List Call) → IsValid u → AllAllowed u cs → IsValid (run u cs)
unfolding run
run-IsValid u [] v ok = v
run-IsValid u (c ∷ cs) v ok = run-IsValid (step u c) cs (step-IsValid u c v ok.0) ok.1

abbrev pub start : ℕ → ℕ → Use
start max_per_peer idle_ttl = record { pool = new max_per_peer idle_ttl; lent = []; opened = [] }

start-IsValid : (max_per_peer idle_ttl : ℕ) → IsValid (start max_per_peer idle_ttl)
unfolding idle_fds new
start-IsValid max_per_peer idle_ttl = record {
  ordered = tt;
  capped = tt;
  emptied = λ h x. refl;
  accounted = λ x. omega arith;
  owned_once = λ x. omega arith;
}

-- From a new pool, through any calls of users that give back only what they hold: no peer has more
-- idle connections than the cap, a pool that stops has none, every connection that was opened is
-- idle, held or closed, as often as it was opened, and none is both idle and held or either twice.
pub run-start-IsValid :
    (max_per_peer idle_ttl : ℕ) (cs : List Call)
    → AllAllowed (start max_per_peer idle_ttl) cs
    → IsValid (run (start max_per_peer idle_ttl) cs)
run-start-IsValid max_per_peer idle_ttl cs ok =
    run-IsValid (start max_per_peer idle_ttl) cs (start-IsValid max_per_peer idle_ttl) ok

-- Once the pool has shut down and its users have given back what they held, each connection has been
-- closed exactly as often as it was opened.
pub run_closes_all :
    (max_per_peer idle_ttl : ℕ) (cs : List Call)
    → AllAllowed (start max_per_peer idle_ttl) cs
    → (run (start max_per_peer idle_ttl) cs).pool.stopping ≡ true
    → (run (start max_per_peer idle_ttl) cs).lent ≡ []
    → (x : ℕ)
    → count x (run (start max_per_peer idle_ttl) cs).pool.closed
      ≡ count x (run (start max_per_peer idle_ttl) cs).opened
run_closes_all max_per_peer idle_ttl cs ok stopped back x =
    let v = run-start-IsValid max_per_peer idle_ttl cs ok in
    omega (arith, v.accounted x, v.emptied stopped x, ap (count x) back)
