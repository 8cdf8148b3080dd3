-- ===== src/Net/Pool/Calls.antt =====
-- The calls that the users of a pool make of it, each with the descriptors they hold.
use mini_dynamo.Base.{
  ℕ, ◌≤◌, ◌≡◌, Option, none, some, List, [], ◌∷◌, ◌++◌, ◌==◌, if◌then◌else◌, count,
}
use mini_dynamo.Text.{Str}
use mini_dynamo.Net.Pool.{
  ConnectionPool, checkout, checkin, discard, reap_expired, shut_down, idle_fds,
}

pub data Call : Type 0 where
  checks_out : Str → ℕ → Option ℕ → Call
  checks_in : Str → ℕ → ℕ → ℕ → Call
  discards : ℕ → Call
  reaps : ℕ → Call
  shuts_down : Call

-- The pool, what its users hold, and all that the connector ever opened.
pub record Use : Type 0 where
  pub pool : ConnectionPool
  pub lent : List ℕ
  pub opened : List ℕ

unfoldable pub give_back : ℕ → List ℕ → List ℕ
give_back fd [] = []
give_back fd (x ∷ l) = if fd == x then l else x ∷ give_back fd l

abbrev pub hold : Option ℕ → List ℕ → List ℕ
hold none l = l
hold (some fd) l = fd ∷ l

-- Whether the connector was asked shows in the count of fresh connections.
abbrev pub checked_out : Use → ConnectionPool × Option ℕ → Use
checked_out u (p, fd) = record {
  pool = p;
  lent = hold fd u.lent;
  opened = if p.created == u.pool.created then u.opened else hold fd u.opened;
}

abbrev pub step : Use → Call → Use
step u (checks_out host port connected) = checked_out u (checkout u.pool host port connected)
step u (checks_in host port fd now) = record u {
  pool = checkin u.pool host port (some fd) now;
  lent = give_back fd u.lent;
}
step u (discards fd) = record u { pool = discard u.pool (some fd); lent = give_back fd u.lent }
step u (reaps now) = record u { pool = reap_expired u.pool now }
step u shuts_down = record u { pool = shut_down u.pool }

-- A user gives back what it holds, and a connection that the kernel opens is not one that is open.
abbrev pub Allowed : Use → Call → Type 0
Allowed u (checks_out host port none) = Unit {0}
Allowed u (checks_out host port (some fd)) = count fd (idle_fds u.pool.idle ++ u.lent) ≡ 0
Allowed u (checks_in host port fd now) = 1 ≤ count fd u.lent
Allowed u (discards fd) = 1 ≤ count fd u.lent
Allowed u (reaps now) = Unit
Allowed u shuts_down = Unit

unfoldable pub run : Use → List Call → Use
run u [] = u
run u (c ∷ cs) = run (step u c) cs

abbrev pub AllAllowed : Use → List Call → Type 0
AllAllowed u [] = Unit {0}
AllAllowed u (c ∷ cs) = Allowed u c × AllAllowed (step u c) cs
