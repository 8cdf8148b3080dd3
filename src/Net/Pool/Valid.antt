-- ===== src/Net/Pool/Valid.antt =====
-- The invariant of a pool and its users, and that each call keeps it.
use mini_dynamo.Base.{
  ℕ, ◌+◌, ◌≤◌, ◌<◌, ◌≡◌, ap, inl, inr, true, false, ◌||◌, Option, none, some, List, [], ◌∷◌, ◌++◌,
  count, count-append, leb, length, length-append, arith, Bool-cases, Option-cases,
}
use mini_dynamo.Text.{Str, str_key}
use mini_dynamo.OrdMap.{Map, find, insert, Sorted, insert-Sorted}
use mini_dynamo.OrdMap.Entries.{All-insert, All-find}
use mini_dynamo.Net.Pool.{
  Idle, fds, conns_of, key_of, connect_fresh, discard, reap_all, reap_expired, shut_down, idle_fds,
}
use mini_dynamo.Net.Pool.Calls.{
  Call, checks_out, checks_in, discards, reaps, shuts_down, Use, give_back, step, checked_out,
  Allowed,
}
use mini_dynamo.Net.Pool.Ledger.{
  pop_back_cases, count-fds-append, count-insert, count-reap_all, clear_all_fds, count-give_back,
  reap_all-Sorted, reap_all-Capped, clear_all-Sorted, clear_all-Capped, Capped, checkout_fresh,
  checkout_reuses, checkin_closes, checkin_keeps,
}

-- The peers in order and none over the cap; a pool that stops has nothing idle; every connection
-- that was opened is idle, held or closed, once each.
pub record IsValid (u : Use) : Type 0 where
  pub ordered : Sorted u.pool.idle
  pub capped : Capped u.pool.max_per_peer u.pool.idle
  pub emptied : u.pool.stopping ≡ true → (x : ℕ) → count x (idle_fds u.pool.idle) ≡ 0
  pub accounted :
      (x : ℕ)
      → count x (idle_fds u.pool.idle) + count x u.lent + count x u.pool.closed ≡ count x u.opened
  pub owned_once : (x : ℕ) → count x (idle_fds u.pool.idle) + count x u.lent ≤ 1

length_conns :
    (cap : ℕ) (m : Map Str (List Idle)) (key : Str)
    → Capped cap m
    → length (conns_of (find key m)) ≤ cap
length_conns cap m key h = elim (Option-cases (find key m)) [
  | inl missing ↦ rw missing (omega arith)
  | inr (l, e) ↦ rw e (All-find _ key l m h e)
]

opens-IsValid :
    (u : Use) (fd : ℕ)
    → IsValid u
    → count fd (idle_fds u.pool.idle ++ u.lent) ≡ 0
    → IsValid (record {
      pool = record u.pool { created = u.pool.created + 1 };
      lent = fd ∷ u.lent;
      opened = fd ∷ u.opened;
    })
opens-IsValid u fd v ok = record {
  ordered = v.ordered;
  capped = v.capped;
  emptied = v.emptied;
  accounted = λ x. ground (arith, v.accounted x);
  owned_once =
      λ x. ground (arith, v.owned_once x, count-append fd (idle_fds u.pool.idle) u.lent, ok);
}

reuses-IsValid :
    (u : Use) (key : Str) (rest : List Idle) (c : Idle)
    → IsValid u
    → conns_of (find key u.pool.idle) ≡ rest ++ c ∷ []
    → IsValid (record {
      pool = record u.pool { idle = insert key rest u.pool.idle; reused = u.pool.reused + 1 };
      lent = c.fd ∷ u.lent;
      opened = u.opened;
    })
reuses-IsValid u key rest c v e =
    let m = u.pool.idle in
    let cap = u.pool.max_per_peer in
    let was : length (conns_of (find key m)) ≤ cap = length_conns cap m key v.capped in
    let shorter : length rest ≤ cap =
      omega (arith, was, ap length e, length-append rest (c ∷ [])) in
    let moved : (x : ℕ)
        → count x (idle_fds (insert key rest m)) + count x (c.fd ∷ []) ≡ count x (idle_fds m) =
      λ x. omega (
        arith,
        count-insert x key rest m v.ordered,
        ap (λ l. count x (fds l)) e,
        count-fds-append x rest (c ∷ []),
      ) in
    record {
      ordered = insert-Sorted key rest m v.ordered;
      capped = All-insert _ key rest m shorter v.capped;
      emptied = λ h x. omega (arith, v.emptied h x, moved x);
      accounted = λ x. ground (arith, v.accounted x, moved x);
      owned_once = λ x. ground (arith, v.owned_once x, moved x);
    }

fresh-IsValid :
    (u : Use) (connected : Option ℕ)
    → IsValid u
    → Allowed u (checks_out [] 0 connected)
    → IsValid (checked_out u (connect_fresh u.pool connected))
fresh-IsValid u none v ok = ground (arith, v)
fresh-IsValid u (some fd) v ok = ground (arith, opens-IsValid u fd v ok)

checkout-IsValid :
    (u : Use) (host : Str) (port : ℕ) (connected : Option ℕ)
    → IsValid u
    → Allowed u (checks_out host port connected)
    → IsValid (step u (checks_out host port connected))
checkout-IsValid u host port connected v ok =
    elim (pop_back_cases (conns_of (find (key_of host port) u.pool.idle))) [
      | inl (_, empty) ↦
          rw (checkout_fresh u.pool host port connected empty) (fresh-IsValid u connected v ok)
      | inr (rest, c, e, last) ↦
          rw (checkout_reuses u.pool host port connected rest c last)
            (ground (arith, reuses-IsValid u (key_of host port) rest c v e))
    ]

closes-IsValid :
    (u : Use) (fd : ℕ)
    → IsValid u
    → 1 ≤ count fd u.lent
    → IsValid (record u {
      pool = record u.pool { closed = u.pool.closed ++ fd ∷ [] };
      lent = give_back fd u.lent;
    })
closes-IsValid u fd v ok = record {
  ordered = v.ordered;
  capped = v.capped;
  emptied = v.emptied;
  accounted = λ x. omega (
    arith,
    v.accounted x,
    count-give_back x fd u.lent ok,
    count-append x u.pool.closed (fd ∷ []),
  );
  owned_once = λ x. omega (arith, v.owned_once x, count-give_back x fd u.lent ok);
}

keeps-IsValid :
    (u : Use) (key : Str) (c : Idle)
    → IsValid u
    → 1 ≤ count c.fd u.lent
    → u.pool.stopping ≡ false
    → length (conns_of (find key u.pool.idle)) < u.pool.max_per_peer
    → IsValid (record u {
      pool = record u.pool {
        idle = insert key (conns_of (find key u.pool.idle) ++ c ∷ []) u.pool.idle;
      };
      lent = give_back c.fd u.lent;
    })
keeps-IsValid u key c v ok on room =
    let m = u.pool.idle in
    let conns = conns_of (find key m) in
    let moved : (x : ℕ)
        → count x (idle_fds (insert key (conns ++ c ∷ []) m))
          ≡ count x (idle_fds m) + count x (c.fd ∷ []) =
      λ x. omega (
        arith,
        count-insert x key (conns ++ c ∷ []) m v.ordered,
        count-fds-append x conns (c ∷ []),
      ) in
    record {
      ordered = insert-Sorted key (conns ++ c ∷ []) m v.ordered;
      capped =
          All-insert _ key (conns ++ c ∷ []) m (omega (arith, room, length-append conns (c ∷ [])))
            v.capped;
      emptied = λ h. absurd (cc);
      accounted = λ x. omega (arith, v.accounted x, moved x, count-give_back x c.fd u.lent ok);
      owned_once = λ x. omega (arith, v.owned_once x, moved x, count-give_back x c.fd u.lent ok);
    }

checkin-IsValid :
    (u : Use) (host : Str) (port fd now : ℕ)
    → IsValid u
    → 1 ≤ count fd u.lent
    → IsValid (step u (checks_in host port fd now))
checkin-IsValid u host port fd now v ok =
    let conns = conns_of (find (key_of host port) u.pool.idle) in
    elim (Bool-cases (u.pool.stopping || leb u.pool.max_per_peer (length conns))) [
      | inl refused ↦ rw (checkin_closes u.pool host port fd now refused) (closes-IsValid u fd v ok)
      | inr room ↦ rw (checkin_keeps u.pool host port fd now room) (
          keeps-IsValid u (key_of host port) (record { fd = fd; returned_at = now }) v ok
            (ground (arith, room)) (ground (arith, room)))
    ]

-- The pool stays valid through any calls.
pub step-IsValid : (u : Use) (c : Call) → IsValid u → Allowed u c → IsValid (step u c)
unfolding discard reap_expired shut_down
step-IsValid u (checks_out host port connected) v ok = checkout-IsValid u host port connected v ok
step-IsValid u (checks_in host port fd now) v ok = checkin-IsValid u host port fd now v ok
step-IsValid u (discards fd) v ok = closes-IsValid u fd v ok
step-IsValid u (reaps now) v ok =
    let m = u.pool.idle in
    let ttl = u.pool.idle_ttl in
    record {
      ordered = reap_all-Sorted ttl now m v.ordered;
      capped = reap_all-Capped ttl now u.pool.max_per_peer m v.capped;
      emptied = λ h x. omega (arith, v.emptied h x, count-reap_all ttl now x m);
      accounted = λ x. omega (
        arith,
        v.accounted x,
        count-reap_all ttl now x m,
        count-append x u.pool.closed (reap_all ttl now m).1,
      );
      owned_once = λ x. omega (arith, v.owned_once x, count-reap_all ttl now x m);
    }
step-IsValid u shuts_down v ok =
    let m = u.pool.idle in
    let none_left = λ (x : ℕ). ap (count x) (clear_all_fds m) in
    record {
      ordered = clear_all-Sorted m v.ordered;
      capped = clear_all-Capped u.pool.max_per_peer m;
      emptied = λ h x. none_left x;
      accounted =
          λ x. omega (arith, v.accounted x, none_left x, count-append x u.pool.closed (idle_fds m));
      owned_once = λ x. omega (arith, v.owned_once x, none_left x);
    }
