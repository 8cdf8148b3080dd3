-- ===== src/Swim/Expiry.antt =====
-- `expireSuspects` declares dead exactly the members whose suspicion is old enough.
use mini_dynamo.Base.{
  ℕ, ◌≡◌, inl, inr, sym, Option, none, some, List, [], ◌∷◌, ◌++◌, arith, append-nil, append_assoc,
  ◌∙◌, if◌then◌else◌, Bool-cases,
}
use mini_dynamo.Text.{Str, str_key, str_eq_iff}
use mini_dynamo.OrdMap.{Map, find, Sorted, find-Above}
use mini_dynamo.OrdMap.Entries.{find-cons, find-nil}
use mini_dynamo.Swim.{Swim, MemberState, MemberEntry}
use mini_dynamo.Swim.Local.{expire_suspects, expire_loop, expires, declare_dead}
use mini_dynamo.Swim.Effects.{find-declare_dead}

abbrev pub aged : ℕ → ℕ → MemberEntry → MemberEntry
aged now timeout e = if expires now timeout e then record e { state = MemberState.dead } else e

abbrev pub aged_option : ℕ → ℕ → Option MemberEntry → Option MemberEntry
aged_option now timeout none = none
aged_option now timeout (some e) = some (aged now timeout e)

-- The names of the members whose suspicion is old enough, in key order.
pub due : ℕ → ℕ → Map Str MemberEntry → List Str
due now timeout [] = []
due now timeout ((id, e) ∷ m) =
    let rest = due now timeout m in if expires now timeout e then id ∷ rest else rest

expire_loop-out :
    (now timeout : ℕ) (m : Map Str MemberEntry) (s : Swim) (out : List Str)
    → (expire_loop now timeout m s out).1 ≡ out ++ due now timeout m
unfolding expire_loop due
expire_loop-out now timeout [] s out = sym (append-nil out)
expire_loop-out now timeout ((id, e) ∷ m) s out = elim (Bool-cases (expires now timeout e)) [
  | inl old ↦
      rw (old, expire_loop, due)
        (expire_loop-out now timeout m (declare_dead s id e) (out ++ id ∷ [])
          ∙ append_assoc out (id ∷ []) (due now timeout m))
  | inr young ↦ rw (young, expire_loop, due) (expire_loop-out now timeout m s out)
]

-- What the loop makes of an entry, where `o` is what the state held.
abbrev overlay : ℕ → ℕ → Option MemberEntry → Option MemberEntry → Option MemberEntry
overlay now timeout none o = o
overlay now timeout (some e) o =
    if expires now timeout e then some (record e { state = MemberState.dead }) else o

find-expire_loop :
    (now timeout : ℕ) (m : Map Str MemberEntry) (s : Swim) (out : List Str) (k : Str)
    → Sorted m
    → find k (expire_loop now timeout m s out).0.members
      ≡ overlay now timeout (find k m) (find k s.members)
unfolding expire_loop
find-expire_loop now timeout [] s out k o = ground (arith, find-nil {V = MemberEntry} k)
find-expire_loop now timeout ((id, e) ∷ m) s out k o = elim (Bool-cases (expires now timeout e)) [
  | inl old ↦
      rw (old, expire_loop)
        (ground (
          arith,
          find-expire_loop now timeout m (declare_dead s id e) (out ++ id ∷ []) k o.1,
          find-declare_dead s id k e,
          find-cons k id e m,
          str_eq_iff k id,
          find-Above id m o.0,
        ))
  | inr young ↦
      rw (young, expire_loop)
        (ground (
          arith,
          find-expire_loop now timeout m s out k o.1,
          find-cons k id e m,
          str_eq_iff k id,
          find-Above id m o.0,
        ))
]

-- With the members in key order, an expiry makes Dead exactly those members that are Suspect and have
-- been so for the timeout or longer, leaves each other entry as it was, and returns their names.
pub expire_suspects_exact :
    (s : Swim) (now timeout : ℕ)
    → Sorted s.members
    → ((k : Str)
        → find k (expire_suspects s now timeout).0.members
          ≡ aged_option now timeout (find k s.members))
      × ((expire_suspects s now timeout).1 ≡ due now timeout s.members)
unfolding expire_suspects
expire_suspects_exact s now timeout o = (
  λ k. ground (arith, find-expire_loop now timeout s.members s [] k o),
  expire_loop-out now timeout s.members s [],
)
