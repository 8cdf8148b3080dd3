-- ===== src/Net/Pool.antt =====
-- src/net/connection_pool.cpp: the idle connections to each peer. A file descriptor is its number,
-- `none` where the code has -1. What the connector answers and the steady clock are arguments; what
-- was closed and what the counters were told is kept in the state. The hash map is kept in key order.
pub mod Ledger
pub mod Calls
pub mod Valid
pub mod Accounts
use mini_dynamo.Base.{
  ℕ, zero, suc, ◌+◌, ◌-◌, Bool, true, false, Option, none, some, List, [], ◌∷◌, ◌++◌, ltb, leb,
  ◌==◌, if◌then◌else◌, length, map,
}
use mini_dynamo.Text.{Str, str_key}
use mini_dynamo.Text.Decimal.{to_string}
use mini_dynamo.OrdMap.{Map, find, insert}

pub record Idle : Type 0 where
  pub fd : ℕ
  pub returned_at : ℕ

pub record ConnectionPool : Type 0 where
  pub max_per_peer : ℕ
  pub idle_ttl : ℕ
  pub idle : Map Str (List Idle)
  pub stopping : Bool
  pub closed : List ℕ
  pub created : ℕ
  pub reused : ℕ

unfoldable pub new : ℕ → ℕ → ConnectionPool
new max_per_peer idle_ttl = record {
  max_per_peer = if max_per_peer == 0 then 1 else max_per_peer;
  idle_ttl = idle_ttl;
  idle = [];
  stopping = false;
  closed = [];
  created = 0;
  reused = 0;
}

abbrev pub fds : List Idle → List ℕ
fds = map λ c. c.fd

unfoldable pub key_of : Str → ℕ → Str
key_of host port = host ++ 58 ∷ to_string port

abbrev pub conns_of : Option (List Idle) → List Idle
conns_of none = []
conns_of (some l) = l

-- The list without its last element, and that element: back() and pop_back().
unfoldable pub pop_back : List Idle → Option (List Idle × Idle)
pop_back [] = none
pop_back (c ∷ l) = elim (pop_back l) [ none ↦ some ([], c) | some (rest, z) ↦ some (c ∷ rest, z) ]

abbrev pub connect_fresh : ConnectionPool → Option ℕ → ConnectionPool × Option ℕ
connect_fresh p none = (p, none)
connect_fresh p (some fd) = (record p { created = p.created + 1 }, some fd)

-- `connected` is what the connector answers if it is asked.
unfoldable pub checkout : ConnectionPool → Str → ℕ → Option ℕ → ConnectionPool × Option ℕ
unfolding key_of
checkout p host port connected =
    let key = key_of host port in
    elim (pop_back (conns_of (find key p.idle))) [
      | none ↦ connect_fresh p connected
      | some (rest, c) ↦
          (record p { idle = insert key rest p.idle; reused = p.reused + 1 }, some c.fd)
    ]

abbrev pub close : ConnectionPool → ℕ → ConnectionPool
close p fd = record p { closed = p.closed ++ fd ∷ [] }

-- A peer that is at its cap, and a pool that stops, have the connection closed.
unfoldable pub checkin : ConnectionPool → Str → ℕ → Option ℕ → ℕ → ConnectionPool
unfolding key_of
checkin p host port none now = p
checkin p host port (some fd) now =
    let key = key_of host port in
    let conns = conns_of (find key p.idle) in
    if p.stopping
    then close p fd
    else if leb p.max_per_peer (length conns)
    then close p fd
    else record p {
      idle = insert key (conns ++ (record { fd = fd; returned_at = now }) ∷ []) p.idle;
    }

unfoldable pub discard : ConnectionPool → Option ℕ → ConnectionPool
discard p none = p
discard p (some fd) = close p fd

-- The loop over one peer: what stays, and what is to be closed.
unfoldable pub reap : ℕ → ℕ → List Idle → List Idle × List ℕ
reap ttl now [] = ([], [])
reap ttl now (c ∷ l) =
    let (kept, to_close) = reap ttl now l in
    if ltb ttl (now - c.returned_at) then (kept, c.fd ∷ to_close) else (c ∷ kept, to_close)

unfoldable pub reap_all : ℕ → ℕ → Map Str (List Idle) → Map Str (List Idle) × List ℕ
unfolding reap
reap_all ttl now [] = ([], [])
reap_all ttl now ((key, conns) ∷ m) =
    let (kept, to_close) = reap ttl now conns in
    let (rest, later) = reap_all ttl now m in ((key, kept) ∷ rest, to_close ++ later)

unfoldable pub reap_expired : ConnectionPool → ℕ → ConnectionPool
unfolding reap_all
reap_expired p now =
    let (kept, to_close) = reap_all p.idle_ttl now p.idle in
    record p { idle = kept; closed = p.closed ++ to_close }

unfoldable pub idle_fds : Map Str (List Idle) → List ℕ
idle_fds [] = []
idle_fds ((key, conns) ∷ m) = fds conns ++ idle_fds m

abbrev pub clear_all : Map Str (List Idle) → Map Str (List Idle)
clear_all = map λ (key, conns). (key, [])

-- The destructor, before it joins the reaper.
unfoldable pub shut_down : ConnectionPool → ConnectionPool
unfolding idle_fds
shut_down p = record p {
  stopping = true;
  idle = clear_all p.idle;
  closed = p.closed ++ idle_fds p.idle;
}

unfoldable pub idle_count_of : Map Str (List Idle) → ℕ
idle_count_of [] = 0
idle_count_of ((key, conns) ∷ m) = length conns + idle_count_of m

pub idle_count : ConnectionPool → ℕ
unfolding idle_count_of
idle_count p = idle_count_of p.idle
