-- ===== src/Swim/Departure.antt =====
-- A departure is final: no call of src/gossip/swim.cpp brings back what is held Left.
use mini_dynamo.Base.{◌≡◌, inl, inr, Option, some, List, [], ◌∷◌, arith, Option-cases}
use mini_dynamo.Text.{Str, str_key, str_eq_iff}
use mini_dynamo.OrdMap.{find, find-insert, insert-Sorted, Sorted}
use mini_dynamo.Swim.{Swim, MemberState, MemberEntry}
use mini_dynamo.Swim.Queries.{state_of, state_in}
use mini_dynamo.Swim.Step.{Call, step, run}
use mini_dynamo.Swim.Lifecycle.{
  Move, met, heard, revives, rejoins, doubts, dies, retires, Effect, quiet, retires_self, writes,
  Effects, done, more,
}
use mini_dynamo.Swim.Effects.{step-Effects}

pub Effect-Sorted : {s t : Swim} → Effect s t → Sorted s.members → Sorted t.members
Effect-Sorted (quiet a b m d) o = rw m o
Effect-Sorted (retires_self a b m d) o = rw m o
Effect-Sorted {s} (writes id e f a b m d p q) o = rw m (insert-Sorted id e s.members o)

pub Effects-Sorted : {s t : Swim} → Effects s t → Sorted s.members → Sorted t.members
Effects-Sorted done o = o
Effects-Sorted (more p e) o = Effect-Sorted e (Effects-Sorted p o)

pub step-Sorted : (s : Swim) (c : Call) → Sorted s.members → Sorted (step s c).members
step-Sorted s c o = Effects-Sorted (step-Effects s c o) o

Move-left :
    {id : Str} {d : Option MemberEntry} {e : MemberEntry} {f : Option MemberState}
    → Move id d e f
    → state_in d ≡ some MemberState.left
    → ⊥
Move-left (met n a b c) h = ground arith
Move-left (heard n a b c) h = ground arith
Move-left (revives x n a b c g i) h = ground arith
Move-left (rejoins x n a b c g i) h = ground arith
Move-left (doubts x n a b c g i) h = ground arith
Move-left (dies x n a b c g i) h = ground arith
Move-left (retires x n a b c g i) h = ground arith

pub Effect-left :
    {s t : Swim} (k : Str)
    → Effect s t
    → state_of s k ≡ some MemberState.left
    → state_of t k ≡ some MemberState.left
unfolding state_of
Effect-left k (quiet a b m d) h = ground arith
Effect-left k (retires_self a b m d) h = ground arith
Effect-left {s} k (writes id e f a b m d p q) h =
    elim (Option-cases (state_in (find id s.members))) [
      | inl missing ↦ ground (arith, find-insert id k e s.members, str_eq_iff k id)
      | inr (st, there) ↦ ground (arith, find-insert id k e s.members, str_eq_iff k id, Move-left q)
    ]

pub Effects-left :
    {s t : Swim} (k : Str)
    → Effects s t
    → state_of s k ≡ some MemberState.left
    → state_of t k ≡ some MemberState.left
Effects-left k done h = h
Effects-left k (more p e) h = Effect-left k e (Effects-left k p h)

-- A node that is held Left, a peer or the node itself, is held Left after any calls in any order,
-- whatever events, incarnations and joins they bring; the members start in key order.
pub run-left :
    (s : Swim) (cs : List Call) (k : Str)
    → Sorted s.members
    → state_of s k ≡ some MemberState.left
    → state_of (run s cs) k ≡ some MemberState.left
unfolding run
run-left s [] k o h = h
run-left s (c ∷ cs) k o h =
    run-left (step s c) cs k (step-Sorted s c o) (Effects-left k (step-Effects s c o) h)
