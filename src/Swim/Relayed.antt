-- ===== src/Swim/Relayed.antt =====
-- Each case of `applyEvent` follows the life of a member.
use mini_dynamo.Base.{
  ℕ, ◌≡◌, ◌≢◌, inl, inr, refl, false, Option, none, some, append-nil, arith, sym, leb, ltb, ◌&&◌,
  Bool-cases,
}
use mini_dynamo.Text.{Str, str_key, str_eq, str_eq_iff}
use mini_dynamo.OrdMap.{find}
use mini_dynamo.Event.{EventType, MemberEvent}
use mini_dynamo.Swim.{
  Swim, MemberState, MemberEntry, apply_event, apply_self, apply_other, apply_alive, apply_suspect,
  apply_dead, apply_leave, is_left, is_dead, is_suspected, refute_doubt, accept_leave,
  enqueue_event, readdress,
}
use mini_dynamo.Swim.Lifecycle.{
  met, heard, revives, doubts, dies, retires, Effect, quiet, retires_self, writes,
}

pub readdress_named :
    (ev : MemberEvent) (e : MemberEntry) → (readdress ev e.info).node_id ≡ e.info.node_id
readdress_named ev e = ground arith

-- A call that leaves the state as it is.
pub still : (s : Swim) → Effect s s
still s = quiet refl refl refl refl

apply_alive-Effect :
    (s : Swim) (ev : MemberEvent) (o : Option MemberEntry)
    → ev.node_id ≢ s.self.node_id
    → find ev.node_id s.members ≡ o
    → Effect s (apply_alive s ev o).0
unfolding apply_alive
apply_alive-Effect s ev none a h =
    writes ev.node_id _ (some MemberState.alive) refl refl refl refl (λ _. a) (met h refl refl refl)
apply_alive-Effect s ev (some x) a h = elim (Bool-cases (is_left x.state)) [
  | inl gone ↦ rw (gone, apply_alive) (still s)
  | inr here ↦ elim (Bool-cases (leb ev.incarnation x.incarnation)) [
    | inl stale ↦ rw (here, stale, apply_alive) (still s)
    | inr newer ↦
        rw (here, newer, apply_alive)
          (writes ev.node_id _ (some MemberState.alive) refl refl refl refl (λ _. a)
            (revives x h (readdress_named ev x) here refl (ground arith) refl))
  ]
]

apply_suspect-Effect :
    (s : Swim) (now : ℕ) (ev : MemberEvent) (o : Option MemberEntry)
    → ev.node_id ≢ s.self.node_id
    → find ev.node_id s.members ≡ o
    → Effect s (apply_suspect s now ev o).0
unfolding apply_suspect
apply_suspect-Effect s now ev none a h = still s
apply_suspect-Effect s now ev (some x) a h = elim (Bool-cases (ltb ev.incarnation x.incarnation)) [
  | inl older ↦ rw (older, apply_suspect) (still s)
  | inr recent ↦ elim (Bool-cases (is_dead x.state)) [
    | inl dead ↦ rw (recent, dead, apply_suspect) (still s)
    | inr undead ↦ elim (Bool-cases (is_left x.state)) [
      | inl gone ↦ rw (recent, undead, gone, apply_suspect) (still s)
      | inr here ↦ elim (Bool-cases (is_suspected x.state && leb ev.incarnation x.incarnation)) [
        | inl known ↦ rw (recent, undead, here, known, apply_suspect) (still s)
        | inr unknown ↦
            rw (recent, undead, here, unknown, apply_suspect)
              (writes ev.node_id _ none refl refl refl (sym (append-nil s.fired)) (λ _. a)
                (doubts x h refl (ground arith) refl (ground arith) refl))
      ]
    ]
  ]
]

apply_dead-Effect :
    (s : Swim) (ev : MemberEvent) (o : Option MemberEntry)
    → ev.node_id ≢ s.self.node_id
    → find ev.node_id s.members ≡ o
    → Effect s (apply_dead s ev o).0
unfolding apply_dead
apply_dead-Effect s ev none a h =
    writes ev.node_id _ none refl refl refl (sym (append-nil s.fired)) (λ _. a)
      (heard h refl (inl refl) refl)
apply_dead-Effect s ev (some x) a h = elim (Bool-cases (is_dead x.state)) [
  | inl dead ↦ rw (dead, apply_dead) (still s)
  | inr undead ↦ elim (Bool-cases (is_left x.state)) [
    | inl gone ↦ rw (undead, gone, apply_dead) (still s)
    | inr here ↦ elim (Bool-cases (ltb ev.incarnation x.incarnation)) [
      | inl older ↦ rw (undead, here, older, apply_dead) (still s)
      | inr recent ↦
          rw (undead, here, recent, apply_dead)
            (writes ev.node_id _ (some MemberState.dead) refl refl refl refl (λ _. a)
              (dies x h refl (ground arith) refl (ground arith) refl))
    ]
  ]
]

apply_leave-Effect :
    (s : Swim) (ev : MemberEvent) (o : Option MemberEntry)
    → ev.node_id ≢ s.self.node_id
    → find ev.node_id s.members ≡ o
    → Effect s (apply_leave s ev o).0
unfolding apply_leave
apply_leave-Effect s ev none a h =
    writes ev.node_id _ none refl refl refl (sym (append-nil s.fired)) (λ _. a)
      (heard h refl (inr refl) refl)
apply_leave-Effect s ev (some x) a h = elim (Bool-cases (is_left x.state)) [
  | inl gone ↦ rw (gone, apply_leave) (still s)
  | inr here ↦
      rw (here, apply_leave)
        (writes ev.node_id _ (some MemberState.left) refl refl refl refl (λ _. a)
          (retires x h refl here refl refl refl))
]

apply_other-Effect :
    (s : Swim) (now : ℕ) (ev : MemberEvent) (t : EventType)
    → ev.node_id ≢ s.self.node_id
    → Effect s (apply_other s now ev t (find ev.node_id s.members)).0
unfolding apply_other
apply_other-Effect s now ev EventType.join a = apply_alive-Effect s ev _ a refl
apply_other-Effect s now ev EventType.alive a = apply_alive-Effect s ev _ a refl
apply_other-Effect s now ev EventType.suspect a = apply_suspect-Effect s now ev _ a refl
apply_other-Effect s now ev EventType.dead a = apply_dead-Effect s ev _ a refl
apply_other-Effect s now ev EventType.leave a = apply_leave-Effect s ev _ a refl
apply_other-Effect s now ev (EventType.unknown c) a = still s

pub enqueue_event-Effect : (s : Swim) (ev : MemberEvent) → Effect s (enqueue_event s ev)
unfolding enqueue_event
enqueue_event-Effect s ev = quiet refl refl refl refl

refute_doubt-Effect : (s : Swim) (ev : MemberEvent) → Effect s (refute_doubt s ev).0
unfolding refute_doubt
refute_doubt-Effect s ev = elim (Bool-cases (ltb ev.incarnation s.incarnation)) [
  | inl older ↦ rw (older, refute_doubt) (still s)
  | inr live ↦ rw (live, refute_doubt) (quiet refl refl refl refl)
]

accept_leave-Effect : (s : Swim) → Effect s (accept_leave s).0
unfolding accept_leave
accept_leave-Effect s = elim (Bool-cases s.self_left) [
  | inl gone ↦ quiet (ground arith) (ground arith) (ground arith) (ground arith)
  | inr here ↦ retires_self (ground arith) (ground arith) (ground arith) (ground arith)
]

apply_self-Effect : (s : Swim) (ev : MemberEvent) (t : EventType) → Effect s (apply_self s ev t).0
unfolding apply_self
apply_self-Effect s ev EventType.leave = accept_leave-Effect s
apply_self-Effect s ev EventType.suspect = refute_doubt-Effect s ev
apply_self-Effect s ev EventType.dead = refute_doubt-Effect s ev
apply_self-Effect s ev _ = still s

pub str_ne : (a b : Str) → str_eq a b ≡ false → a ≢ b
str_ne a b h e = ground (arith, str_eq_iff a b)

pub apply_event-Effect : (s : Swim) (now : ℕ) (ev : MemberEvent) → Effect s (apply_event s now ev).0
unfolding apply_event
apply_event-Effect s now ev = elim (Bool-cases (str_eq ev.node_id s.self.node_id)) [
  | inl me ↦ rw (me, apply_event) (apply_self-Effect s ev ev.type)
  | inr other ↦ rw (other, apply_event) (apply_other-Effect s now ev ev.type (str_ne _ _ other))
]
