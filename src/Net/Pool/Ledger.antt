-- ===== src/Net/Pool/Ledger.antt =====
-- What the pool does with each connection: none is lost, closed twice, or idle while someone has it.
use mini_dynamo.Base.{
  ℕ, ◌+◌, ◌≤◌, ◌≡◌, refl, ap, ◌∙◌, inl, inr, ◌⊎◌, true, false, ◌||◌, Option, none, some, List, [],
  ◌∷◌, ◌++◌, count, count-append, leb, length, arith, Bool-cases, All,
}
use mini_dynamo.Text.{Str, str_key, str_eq, str_lt}
use mini_dynamo.OrdMap.{Map, find, insert, Sorted, Above, find-Above, Above-trans}
use mini_dynamo.Net.Pool.{
  Idle, ConnectionPool, fds, conns_of, pop_back, key_of, checkout, connect_fresh, close, checkin,
  reap, reap_all, clear_all, idle_fds,
}
use mini_dynamo.Net.Pool.Calls.{give_back}

pub fds-append : (l m : List Idle) → fds (l ++ m) ≡ fds l ++ fds m
fds-append [] m = refl
fds-append (c ∷ l) m = ap (◌∷◌ c.fd) (fds-append l m)

pub pop_back_cases :
    (l : List Idle)
    → ((l ≡ []) × (pop_back l ≡ none))
      ⊎ ((rest : List Idle) × (c : Idle) × (l ≡ rest ++ c ∷ []) × (pop_back l ≡ some (rest, c)))
unfolding pop_back
pop_back_cases [] = inl (refl, refl)
pop_back_cases (c ∷ l) = elim (pop_back_cases l) [
  | inl (e, end) ↦ inr ([], c, rw e refl, rw end refl)
  | inr (rest, z, e, found) ↦ inr (c ∷ rest, z, ap (◌∷◌ c) e, rw found refl)
]

pub count-fds-append :
    (x : ℕ) (l m : List Idle) → count x (fds (l ++ m)) ≡ count x (fds l) + count x (fds m)
count-fds-append x l m = ap (count x) (fds-append l m) ∙ count-append x (fds l) (fds m)

pub count-insert :
    (x : ℕ) (key : Str) (l : List Idle) (m : Map Str (List Idle))
    → Sorted m
    → count x (idle_fds (insert key l m)) + count x (fds (conns_of (find key m)))
      ≡ count x (idle_fds m) + count x (fds l)
unfolding idle_fds insert find
count-insert x key l [] s = ap (λ n. n + 0) (count-append x (fds l) []) ∙ omega arith
count-insert x key l ((j, w) ∷ m) s =
    let new = count-append x (fds l) (idle_fds m) in
    let old = count-append x (fds w) (idle_fds m) in
    elim (Bool-cases (str_eq key j)) [
      | inl hit ↦ rw hit (omega (arith, new, old))
      | inr other ↦ elim (Bool-cases (str_lt key j)) [
        | inl before ↦
            let missing = find-Above key m (Above-trans key j m before s.0) in
            rw (other, before, missing)
              (omega (arith, new, old, count-append x (fds l) (idle_fds ((j, w) ∷ m))))
        | inr behind ↦
            rw (other, behind)
              (omega (
                arith,
                old,
                count-append x (fds w) (idle_fds (insert key l m)),
                count-insert x key l m s.1,
              ))
      ]
    ]

count-reap :
    (ttl now x : ℕ) (l : List Idle)
    → count x (fds (reap ttl now l).0) + count x (reap ttl now l).1 ≡ count x (fds l)
unfolding reap
count-reap ttl now x [] = omega arith
count-reap ttl now x (c ∷ l) = ground (arith, count-reap ttl now x l)

pub count-reap_all :
    (ttl now x : ℕ) (m : Map Str (List Idle))
    → count x (idle_fds (reap_all ttl now m).0) + count x (reap_all ttl now m).1
      ≡ count x (idle_fds m)
unfolding reap_all idle_fds
count-reap_all ttl now x [] = omega arith
count-reap_all ttl now x ((key, conns) ∷ m) = ground (
  arith,
  count-reap ttl now x conns,
  count-reap_all ttl now x m,
  count-append x (fds conns) (idle_fds m),
  count-append x (fds (reap ttl now conns).0) (idle_fds (reap_all ttl now m).0),
  count-append x (reap ttl now conns).1 (reap_all ttl now m).1,
)

pub clear_all_fds : (m : Map Str (List Idle)) → idle_fds (clear_all m) ≡ []
unfolding idle_fds
clear_all_fds [] = refl
clear_all_fds (e ∷ m) = clear_all_fds m

pub count-give_back :
    (x fd : ℕ) (l : List ℕ)
    → 1 ≤ count fd l
    → count x (give_back fd l) + count x (fd ∷ []) ≡ count x l
unfolding give_back
count-give_back x fd [] h = absurd (ground arith)
count-give_back x fd (y ∷ l) h = ground (arith, count-give_back x fd l)

length-reap : (ttl now : ℕ) (l : List Idle) → length (reap ttl now l).0 ≤ length l
unfolding reap
length-reap ttl now [] = omega arith
length-reap ttl now (c ∷ l) = ground (arith, length-reap ttl now l)

abbrev pub Capped : ℕ → Map Str (List Idle) → Type 0
Capped cap = All (λ e. length e.1 ≤ cap)

reap_all-Above :
    (ttl now : ℕ) (k : Str) (m : Map Str (List Idle)) → Above k m → Above k (reap_all ttl now m).0
unfolding reap_all
reap_all-Above ttl now k [] a = tt
reap_all-Above ttl now k ((j, w) ∷ m) a = (a.0, reap_all-Above ttl now k m a.1)

pub reap_all-Sorted :
    (ttl now : ℕ) (m : Map Str (List Idle)) → Sorted m → Sorted (reap_all ttl now m).0
unfolding reap_all
reap_all-Sorted ttl now [] s = tt
reap_all-Sorted ttl now ((j, w) ∷ m) s =
    (reap_all-Above ttl now j m s.0, reap_all-Sorted ttl now m s.1)

pub reap_all-Capped :
    (ttl now cap : ℕ) (m : Map Str (List Idle)) → Capped cap m → Capped cap (reap_all ttl now m).0
unfolding reap_all
reap_all-Capped ttl now cap [] s = tt
reap_all-Capped ttl now cap ((j, w) ∷ m) s =
    (omega (arith, s.0, length-reap ttl now w), reap_all-Capped ttl now cap m s.1)

clear_all-Above : (k : Str) (m : Map Str (List Idle)) → Above k m → Above k (clear_all m)
clear_all-Above k [] a = tt
clear_all-Above k ((j, w) ∷ m) a = (a.0, clear_all-Above k m a.1)

pub clear_all-Sorted : (m : Map Str (List Idle)) → Sorted m → Sorted (clear_all m)
clear_all-Sorted [] s = tt
clear_all-Sorted ((j, w) ∷ m) s = (clear_all-Above j m s.0, clear_all-Sorted m s.1)

pub clear_all-Capped : (cap : ℕ) (m : Map Str (List Idle)) → Capped cap (clear_all m)
clear_all-Capped cap [] = tt
clear_all-Capped cap ((j, w) ∷ m) = (omega arith, clear_all-Capped cap m)

-- The branches of a checkout and of a checkin.
pub checkout_fresh :
    (p : ConnectionPool) (host : Str) (port : ℕ) (connected : Option ℕ)
    → pop_back (conns_of (find (key_of host port) p.idle)) ≡ none
    → checkout p host port connected ≡ connect_fresh p connected
unfolding checkout
checkout_fresh p host port connected e = rw (e, checkout) refl

pub checkout_reuses :
    (p : ConnectionPool) (host : Str) (port : ℕ) (connected : Option ℕ) (rest : List Idle)
    (c : Idle)
    → pop_back (conns_of (find (key_of host port) p.idle)) ≡ some (rest, c)
    → checkout p host port connected ≡ (
      record p { idle = insert (key_of host port) rest p.idle; reused = p.reused + 1 },
      some c.fd,
    )
unfolding checkout
checkout_reuses p host port connected rest c e = rw (e, checkout) refl

pub checkin_closes :
    (p : ConnectionPool) (host : Str) (port fd now : ℕ)
    → (p.stopping || leb p.max_per_peer (length (conns_of (find (key_of host port) p.idle)))) ≡ true
    → checkin p host port (some fd) now ≡ close p fd
unfolding checkin
checkin_closes p host port fd now h = ground (arith, h)

pub checkin_keeps :
    (p : ConnectionPool) (host : Str) (port fd now : ℕ)
    → (p.stopping || leb p.max_per_peer (length (conns_of (find (key_of host port) p.idle))))
      ≡ false
    → checkin p host port (some fd) now ≡ record p {
      idle =
          insert
            (key_of host port)
            (conns_of (find (key_of host port) p.idle)
              ++ (record { fd = fd; returned_at = now }) ∷ [])
            p.idle;
    }
unfolding checkin
checkin_keeps p host port fd now h = ground (arith, h)
