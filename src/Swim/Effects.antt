-- ===== src/Swim/Effects.antt =====
-- The calls that the node makes for itself follow the life of a member, and so does every call.
use mini_dynamo.Base.{
  ℕ, ◌≡◌, ◌≢◌, inl, inr, refl, true, Option, none, some, List, [], ◌∷◌, ◌++◌, append-nil, arith,
  sym, if◌then◌else◌, Bool-cases,
}
use mini_dynamo.Text.{Str, str_key, str_eq, str_eq_iff}
use mini_dynamo.OrdMap.{Map, find, find-insert, Sorted, Above}
use mini_dynamo.OrdMap.Entries.{find-head, find-tail}
use mini_dynamo.Event.{MemberEvent}
use mini_dynamo.Swim.{Swim, MemberState, MemberEntry, is_left, is_dead}
use mini_dynamo.Swim.Local.{
  apply_direct_join, join_known, leave, leave_self, leave_member, suspect, suspect_member,
  confirm_dead, confirm_member, declare_dead, expire_suspects, expire_loop, expires, refute,
  get_events_to_send, is_alive_state,
}
use mini_dynamo.Swim.Queries.{is_up}
use mini_dynamo.Swim.Lifecycle.{
  met, rejoins, doubts, dies, retires, Effect, quiet, retires_self, writes, Effects, done, more,
}
use mini_dynamo.Swim.Relayed.{
  readdress_named, still, enqueue_event-Effect, str_ne, apply_event-Effect,
}
use mini_dynamo.Swim.Step.{
  Call, step, applies, joins, leaves, suspects, confirms_dead, refutes, enqueues, sends,
}
use mini_dynamo.Swim.Step

join_known-Effect :
    (s : Swim) (ev : MemberEvent) (o : Option MemberEntry)
    → ev.node_id ≢ s.self.node_id
    → find ev.node_id s.members ≡ o
    → Effect s (join_known s ev o).0
unfolding join_known
join_known-Effect s ev none a h =
    writes ev.node_id _ (some MemberState.alive) refl refl refl refl (λ _. a) (met h refl refl refl)
join_known-Effect s ev (some x) a h = elim (Bool-cases (is_left x.state)) [
  | inl gone ↦ rw (gone, join_known) (still s)
  | inr here ↦ elim (Bool-cases (is_alive_state x.state)) [
    | inl up ↦
        rw (here, up, join_known)
          (writes ev.node_id _ none refl refl refl (sym (append-nil s.fired)) (λ _. a)
            (rejoins x h (readdress_named ev x) here refl (omega arith) (rw up)))
    | inr down ↦
        rw (here, down, join_known)
          (writes ev.node_id _ (some MemberState.alive) refl refl refl refl (λ _. a)
            (rejoins x h (readdress_named ev x) here refl (omega arith) (rw down)))
  ]
]

direct_join-Effect : (s : Swim) (ev : MemberEvent) → Effect s (apply_direct_join s ev).0
unfolding apply_direct_join
direct_join-Effect s ev = elim (Bool-cases (str_eq ev.node_id s.self.node_id)) [
  | inl me ↦ rw (me, apply_direct_join) (still s)
  | inr other ↦ rw (other, apply_direct_join) (join_known-Effect s ev _ (str_ne _ _ other) refl)
]

leave_self-Effect : (s : Swim) → Effect s (leave_self s)
unfolding leave_self
leave_self-Effect s = elim (Bool-cases s.self_left) [
  | inl gone ↦ quiet (ground arith) (ground arith) (ground arith) (ground arith)
  | inr here ↦ retires_self (ground arith) (ground arith) (ground arith) (ground arith)
]

leave_member-Effect :
    (s : Swim) (id : Str) (o : Option MemberEntry)
    → find id s.members ≡ o
    → Effect s (leave_member s id o)
unfolding leave_member
leave_member-Effect s id none h = still s
leave_member-Effect s id (some x) h = elim (Bool-cases (is_left x.state)) [
  | inl gone ↦ rw (gone, leave_member) (still s)
  | inr here ↦
      rw (here, leave_member)
        (writes id _ (some MemberState.left) refl refl refl refl (λ missing. absurd (cc))
          (retires x h refl here refl refl refl))
]

leave-Effect : (s : Swim) (id : Str) → Effect s (leave s id)
unfolding leave
leave-Effect s id = elim (Bool-cases (str_eq id s.self.node_id)) [
  | inl me ↦ rw (me, leave) (leave_self-Effect s)
  | inr other ↦ rw (other, leave) (leave_member-Effect s id _ refl)
]

suspect-Effect :
    (s : Swim) (now : ℕ) (id : Str) (o : Option MemberEntry)
    → find id s.members ≡ o
    → Effect s (suspect_member s now id o)
unfolding suspect_member
suspect-Effect s now id none h = still s
suspect-Effect s now id (some x) h = elim (Bool-cases (is_alive_state x.state)) [
  | inr down ↦ rw (down, suspect_member) (still s)
  | inl up ↦
      rw (up, suspect_member)
        (writes id _ none refl refl refl (sym (append-nil s.fired)) (λ missing. absurd (cc))
          (doubts x h refl (ground arith) refl (omega arith) refl))
]

declare_dead-Effect :
    (s : Swim) (id : Str) (x : MemberEntry)
    → find id s.members ≡ some x
    → is_up x.state ≡ true
    → Effect s (declare_dead s id x)
unfolding declare_dead
declare_dead-Effect s id x h up =
    writes id _ (some MemberState.dead) refl refl refl refl (λ missing. absurd (cc))
      (dies x h refl up refl (omega arith) refl)

confirm_dead-Effect :
    (s : Swim) (id : Str) (o : Option MemberEntry)
    → find id s.members ≡ o
    → Effect s (confirm_member s id o)
unfolding confirm_member
confirm_dead-Effect s id none h = still s
confirm_dead-Effect s id (some x) h = elim (Bool-cases (is_dead x.state)) [
  | inl dead ↦ rw (dead, confirm_member) (still s)
  | inr undead ↦ elim (Bool-cases (is_left x.state)) [
    | inl gone ↦ rw (undead, gone, confirm_member) (still s)
    | inr here ↦ rw (undead, here, confirm_member) (declare_dead-Effect s id x h (ground arith))
  ]
]

-- An entry that is up in `m` is so in the state as well.
abbrev Snapshot : Map Str MemberEntry → Swim → Type 0
Snapshot [] s = Unit {0}
Snapshot ((id, e) ∷ m) s = (find id s.members ≡ some e) × Snapshot m s

pub find-declare_dead :
    (s : Swim) (id k : Str) (x : MemberEntry)
    → find k (declare_dead s id x).members
      ≡ (if str_eq k id then some (record x { state = MemberState.dead }) else find k s.members)
unfolding declare_dead
find-declare_dead s id k x = find-insert id k _ s.members

Snapshot-declare_dead :
    (s : Swim) (id : Str) (x : MemberEntry) (m : Map Str MemberEntry)
    → Above id m
    → Snapshot m s
    → Snapshot m (declare_dead s id x)
Snapshot-declare_dead s id x [] a h = tt
Snapshot-declare_dead s id x ((k, e) ∷ m) a h = (
  ground (arith, find-declare_dead s id k x, str_eq_iff k id, str_key.lt_irrefl id, h.0),
  Snapshot-declare_dead s id x m a.1 h.1,
)

Effects-trans : {s t u : Swim} → Effects s t → Effects t u → Effects s u
Effects-trans p done = p
Effects-trans p (more q e) = more (Effects-trans p q) e

expire_loop-Effects :
    (now timeout : ℕ) (m : Map Str MemberEntry) (s : Swim) (out : List Str)
    → Sorted m
    → Snapshot m s
    → Effects s (expire_loop now timeout m s out).0
unfolding expire_loop
expire_loop-Effects now timeout [] s out o h = done
expire_loop-Effects now timeout ((id, e) ∷ m) s out o h =
    elim (Bool-cases (expires now timeout e)) [
      | inr stays ↦ rw (stays, expire_loop) (expire_loop-Effects now timeout m s out o.1 h.1)
      | inl old ↦
          rw (old, expire_loop)
            (Effects-trans (more done (declare_dead-Effect s id e h.0 (ground arith))) (
              expire_loop-Effects now timeout m (declare_dead s id e) (out ++ id ∷ []) o.1
                (Snapshot-declare_dead s id e m o.0 h.1)))
    ]

Snapshot-tail :
    (s : Swim) (m : Map Str MemberEntry)
    → Sorted m
    → ((k : Str) (e : MemberEntry) → find k m ≡ some e → find k s.members ≡ some e)
    → Snapshot m s
Snapshot-tail s [] o f = tt
Snapshot-tail s ((id, e) ∷ m) o f =
    (f id e (find-head id e m), Snapshot-tail s m o.1 λ k x h. f k x (find-tail k id x e m o.0 h))

abbrev pub IsSingle : Call → Type 0
IsSingle (Step.expires now timeout) = ⊥
IsSingle (applies now ev) = Unit {0}
IsSingle (joins ev) = Unit {0}
IsSingle (leaves id) = Unit {0}
IsSingle (suspects now id) = Unit {0}
IsSingle (confirms_dead id) = Unit {0}
IsSingle refutes = Unit {0}
IsSingle (enqueues ev) = Unit {0}
IsSingle sends = Unit {0}

-- Every call but an expiry is one change.
pub step-Effect : (s : Swim) (c : Call) → IsSingle c → Effect s (step s c)
unfolding step suspect confirm_dead refute get_events_to_send
step-Effect s (applies now ev) h = apply_event-Effect s now ev
step-Effect s (joins ev) h = direct_join-Effect s ev
step-Effect s (leaves id) h = leave-Effect s id
step-Effect s (suspects now id) h = suspect-Effect s now id _ refl
step-Effect s (confirms_dead id) h = confirm_dead-Effect s id _ refl
step-Effect s (Step.expires now timeout) h = absurd h
step-Effect s refutes h = quiet refl refl refl refl
step-Effect s (enqueues ev) h = enqueue_event-Effect s ev
step-Effect s sends h = quiet refl refl refl refl

-- With the members in key order, each call of a method is a sequence of changes that the life of a
-- member allows: any relayed event, join, leave, suspicion, expiry, refutation or send.
pub step-Effects : (s : Swim) (c : Call) → Sorted s.members → Effects s (step s c)
unfolding step expire_suspects
step-Effects s (Step.expires now timeout) o =
    expire_loop-Effects now timeout s.members s [] o (Snapshot-tail s s.members o (λ k e h. h))
step-Effects s (applies now ev) o = more done (step-Effect s (applies now ev) tt)
step-Effects s (joins ev) o = more done (step-Effect s (joins ev) tt)
step-Effects s (leaves id) o = more done (step-Effect s (leaves id) tt)
step-Effects s (suspects now id) o = more done (step-Effect s (suspects now id) tt)
step-Effects s (confirms_dead id) o = more done (step-Effect s (confirms_dead id) tt)
step-Effects s refutes o = more done (step-Effect s refutes tt)
step-Effects s (enqueues ev) o = more done (step-Effect s (enqueues ev) tt)
step-Effects s sends o = more done (step-Effect s sends tt)
