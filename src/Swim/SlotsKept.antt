-- ===== src/Swim/SlotsKept.antt =====
-- A node that is in the ring stays there until it is retired, whatever else is heard of it.
use mini_dynamo.Base.{
  ◌≡◌, ◌⊎◌, inl, inr, ap, true, false, Option, some, List, [], ◌∷◌, arith, Bool-cases, ℕ,
}
use mini_dynamo.Text.{Str, str_key, str_eq, str_eq_iff}
use mini_dynamo.OrdMap.{find, find-insert, Sorted}
use mini_dynamo.NodeInfo.{NodeInfo}
use mini_dynamo.Swim.{Swim, MemberState, MemberEntry, new}
use mini_dynamo.Swim.Queries.{state_of}
use mini_dynamo.Swim.Step.{Call, step, run}
use mini_dynamo.Swim.Lifecycle.{
  Move, met, heard, revives, rejoins, doubts, dies, retires, Effect, quiet, retires_self, writes,
  Effects, done, more,
}
use mini_dynamo.Swim.Effects.{step-Effects}
use mini_dynamo.Swim.Departure.{step-Sorted, Effect-left, run-left}
use mini_dynamo.Swim.RingSlots.{
  announce_to, has_slots, IsServed, Move-named, ring_after-snoc, ring_after-calls, Effects-IsServed,
  run-IsServed, new-IsServed, written_elsewhere,
}

-- In the ring, or retired.
abbrev pub Kept : Swim → Str → Type 0
Kept s k = (state_of s k ≡ some MemberState.left) ⊎ (has_slots s k ≡ true)

Move-keeps :
    {id : Str} {d : Option MemberEntry} {e : MemberEntry} {f : Option MemberState}
    → Move id d e f
    → (e.state ≡ MemberState.left) ⊎ (announce_to f true ≡ true)
Move-keeps (met n a b c) = inr (ground arith)
Move-keeps (heard n a b c) = inr (ground arith)
Move-keeps (revives x n a b c g i) = inr (ground arith)
Move-keeps (rejoins x n a b c g i) = inr (ground arith)
Move-keeps (doubts x n a b c g i) = inr (ground arith)
Move-keeps (dies x n a b c g i) = inr (ground arith)
Move-keeps (retires x n a b c g i) = inl c

Effect-Kept : {s t : Swim} (k : Str) → Effect s t → IsServed s → has_slots s k ≡ true → Kept t k
unfolding state_of
Effect-Kept k (quiet a b m d) v h = inr (rw (a, d) h)
Effect-Kept {s} {t} k (retires_self a b m d) v h = elim (Bool-cases (str_eq k s.self.node_id)) [
  | inl me ↦ inl (ground arith)
  | inr other ↦ inr (
      rw (a, d)
        (ground
          (arith, ring_after-snoc k (str_eq k s.self.node_id) s.fired s.self MemberState.left)))
]
Effect-Kept {s} {t} k (writes id e f a b m d p q) v h =
    let name = Move-named q (v.named id) in
    let slots = ring_after-calls k (str_eq k s.self.node_id) s.fired e.info f in
    elim (Bool-cases (str_eq k id)) [
      | inr differ ↦ inr (rw (a, d) (ground (arith, slots, name, differ)))
      | inl same ↦ elim (Move-keeps q) [
        | inr stays ↦ inr (rw (a, d) (ground (arith, slots, name, same, stays)))
        | inl gone ↦ inl (
            ground (
              arith,
              ap (find k) m,
              ap (λ i. i.node_id) a,
              find-insert id k e s.members,
              str_eq_iff k t.self.node_id,
              str_eq_iff k id,
              written_elsewhere s id p v,
              gone,
            ))
      ]
    ]

Effects-Kept : {s t : Swim} (k : Str) → Effects s t → IsServed s → has_slots s k ≡ true → Kept t k
Effects-Kept k done v h = inr h
Effects-Kept k (more p e) v h = elim (Effects-Kept k p v h) [
  | inl gone ↦ inl (Effect-left k e gone)
  | inr stays ↦ Effect-Kept k e (Effects-IsServed p v) stays
]

run-Kept :
    (s : Swim) (cs : List Call) (k : Str)
    → Sorted s.members
    → IsServed s
    → has_slots s k ≡ true
    → Kept (run s cs) k
unfolding run
run-Kept s [] k o v h = inr h
run-Kept s (c ∷ cs) k o v h =
    let es = step-Effects s c o in
    let o' = step-Sorted s c o in
    elim (Effects-Kept k es v h) [
      | inl gone ↦ inl (run-left (step s c) cs k o' gone)
      | inr stays ↦ run-Kept (step s c) cs k o' (Effects-IsServed es v) stays
    ]

pub run-Sorted : (s : Swim) (cs : List Call) → Sorted s.members → Sorted (run s cs).members
unfolding run
run-Sorted s [] o = o
run-Sorted s (c ∷ cs) o = run-Sorted (step s c) cs (step-Sorted s c o)

-- After any calls from the state in which a node starts, and any more calls after those: the callbacks
-- have put every member that is Alive or Suspect into the ring and have taken every member that is Left
-- out of it, no node that is not a member is in the ring, and the node itself is in it exactly while it
-- has not left; and a name that was in the ring after the first calls is in it after the others or is
-- held Left, so that a node that is found Dead keeps its slots. The ring begins with the node itself.
pub run-new-Kept :
    (self : NodeInfo) (mult : ℕ) (cs ds : List Call) (k : Str)
    → IsServed (run (run (new self mult) cs) ds)
      × ((has_slots (run (new self mult) cs) k ≡ false) ⊎ Kept (run (run (new self mult) cs) ds) k)
unfolding new
run-new-Kept self mult cs ds k =
    let s = run (new self mult) cs in
    let o = run-Sorted (new self mult) cs tt in
    let v = run-IsServed (new self mult) cs tt (new-IsServed self mult) in
    (
      run-IsServed s ds o v,
      elim (Bool-cases (has_slots s k)) [
        | inl served ↦ inr (run-Kept s ds k o v served)
        | inr not ↦ inl not
      ],
    )
