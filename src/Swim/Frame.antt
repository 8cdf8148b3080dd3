-- ===== src/Swim/Frame.antt =====
-- What a single call leaves alone: every entry but the one it names, and the events that wait.
use mini_dynamo.Base.{
  ℕ, ◌≡◌, ◌≢◌, ◌⊎◌, inl, inr, refl, Bool, true, false, Option, none, some, [], ◌∷◌, ◌++◌,
  if◌then◌else◌, arith, Bool-cases, ltb,
}
use mini_dynamo.Text.{Str, str_key, str_eq, str_eq_iff}
use mini_dynamo.OrdMap.{find, find-insert}
use mini_dynamo.Event.{EventType, MemberEvent}
use mini_dynamo.Swim.{
  Swim, MemberEntry, MemberState, apply_event, apply_self, apply_other, apply_alive, apply_suspect,
  apply_dead, apply_leave, refute_doubt, accept_leave, enqueue_event, entry_of, readdress,
  self_alive, next_incarnation,
}
use mini_dynamo.Swim.Local.{apply_direct_join, join_known, rejoined}

-- The call touches no entry but that of `id`, and queues nothing.
pub record Touches (id : Str) (s t : Swim) : Type 0 where
  pub self : t.self ≡ s.self
  pub others : (k : Str) → k ≢ id → find k t.members ≡ find k s.members
  pub pending : t.pending ≡ s.pending

apply_alive-Touches :
    (s : Swim) (ev : MemberEvent) (o : Option MemberEntry)
    → Touches ev.node_id s (apply_alive s ev o).0
unfolding apply_alive
apply_alive-Touches s ev none = record {
  self = ground arith;
  others = λ k d. ground (
    arith,
    find-insert ev.node_id k (entry_of ev MemberState.alive) s.members,
    str_eq_iff k ev.node_id,
  );
  pending = ground arith;
}
apply_alive-Touches s ev (some e) = record {
  self = ground arith;
  others = λ k d. ground (
    arith,
    find-insert ev.node_id k
        (record e {
          info = readdress ev e.info;
          state = MemberState.alive;
          incarnation = ev.incarnation;
        })
        s.members,
    str_eq_iff k ev.node_id,
  );
  pending = ground arith;
}

apply_suspect-Touches :
    (s : Swim) (now : ℕ) (ev : MemberEvent) (o : Option MemberEntry)
    → Touches ev.node_id s (apply_suspect s now ev o).0
unfolding apply_suspect
apply_suspect-Touches s now ev none = record { self = refl; others = λ k d. refl; pending = refl }
apply_suspect-Touches s now ev (some e) = record {
  self = ground arith;
  others = λ k d. ground (
    arith,
    find-insert ev.node_id k
        (record e {
          state = MemberState.suspected;
          incarnation = ev.incarnation;
          suspect_since = now;
        })
        s.members,
    str_eq_iff k ev.node_id,
  );
  pending = ground arith;
}

apply_dead-Touches :
    (s : Swim) (ev : MemberEvent) (o : Option MemberEntry)
    → Touches ev.node_id s (apply_dead s ev o).0
unfolding apply_dead
apply_dead-Touches s ev none = record {
  self = ground arith;
  others = λ k d. ground (
    arith,
    find-insert ev.node_id k (entry_of ev MemberState.dead) s.members,
    str_eq_iff k ev.node_id,
  );
  pending = ground arith;
}
apply_dead-Touches s ev (some e) = record {
  self = ground arith;
  others = λ k d. ground (
    arith,
    find-insert ev.node_id k (record e { state = MemberState.dead; incarnation = ev.incarnation })
        s.members,
    str_eq_iff k ev.node_id,
  );
  pending = ground arith;
}

apply_leave-Touches :
    (s : Swim) (ev : MemberEvent) (o : Option MemberEntry)
    → Touches ev.node_id s (apply_leave s ev o).0
unfolding apply_leave
apply_leave-Touches s ev none = record {
  self = ground arith;
  others = λ k d. ground (
    arith,
    find-insert ev.node_id k (entry_of ev MemberState.left) s.members,
    str_eq_iff k ev.node_id,
  );
  pending = ground arith;
}
apply_leave-Touches s ev (some e) = record {
  self = ground arith;
  others = λ k d. ground (
    arith,
    find-insert ev.node_id k (record e { state = MemberState.left }) s.members,
    str_eq_iff k ev.node_id,
  );
  pending = ground arith;
}

apply_other-Touches :
    (s : Swim) (now : ℕ) (ev : MemberEvent) (t : EventType) (o : Option MemberEntry)
    → Touches ev.node_id s (apply_other s now ev t o).0
unfolding apply_other
apply_other-Touches s now ev EventType.join o = apply_alive-Touches s ev o
apply_other-Touches s now ev EventType.alive o = apply_alive-Touches s ev o
apply_other-Touches s now ev EventType.suspect o = apply_suspect-Touches s now ev o
apply_other-Touches s now ev EventType.dead o = apply_dead-Touches s ev o
apply_other-Touches s now ev EventType.leave o = apply_leave-Touches s ev o
apply_other-Touches s now ev (EventType.unknown c) o = record {
  self = refl;
  others = λ k d. refl;
  pending = refl;
}

join_known-Touches :
    (s : Swim) (ev : MemberEvent) (o : Option MemberEntry)
    → Touches ev.node_id s (join_known s ev o).0
unfolding join_known
join_known-Touches s ev none = record {
  self = ground arith;
  others = λ k d. ground (
    arith,
    find-insert ev.node_id k (entry_of ev MemberState.alive) s.members,
    str_eq_iff k ev.node_id,
  );
  pending = ground arith;
}
join_known-Touches s ev (some e) = record {
  self = ground arith;
  others = λ k d.
      ground (arith, find-insert ev.node_id k (rejoined ev e) s.members, str_eq_iff k ev.node_id);
  pending = ground arith;
}

pub apply_direct_join-Touches :
    (s : Swim) (ev : MemberEvent) → Touches ev.node_id s (apply_direct_join s ev).0
unfolding apply_direct_join
apply_direct_join-Touches s ev = elim (Bool-cases (str_eq ev.node_id s.self.node_id)) [
  | inl me ↦ rw me (record { self = refl; others = λ k d. refl; pending = refl })
  | inr other ↦ rw other (join_known-Touches s ev (find ev.node_id s.members))
]

-- An event about the node itself changes no member, and queues at most the node's own refutation.
pub data SelfOnly (s : Swim) : Swim → Type 0 where
  unchanged :
      (t : Swim) → t.self ≡ s.self → t.members ≡ s.members → t.pending ≡ s.pending → SelfOnly s t
  refuted :
      (t : Swim) (ev : MemberEvent) (n : ℕ)
      → t.self ≡ s.self
      → t.members ≡ s.members
      → ev.node_id ≡ s.self.node_id
      → t.pending ≡ s.pending ++ record { event = ev; remaining = n } ∷ []
      → SelfOnly s t

either_self :
    (s : Swim) (b : Bool) (x y : Swim × Bool)
    → SelfOnly s x.0
    → SelfOnly s y.0
    → SelfOnly s (if b then x else y).0
either_self s true x y p q = p
either_self s false x y p q = q

refute_doubt-SelfOnly : (s : Swim) (ev : MemberEvent) → SelfOnly s (refute_doubt s ev).0
unfolding refute_doubt enqueue_event
refute_doubt-SelfOnly s ev = elim (Bool-cases (ltb ev.incarnation s.incarnation)) [
  | inl old ↦ rw old (unchanged s refl refl refl)
  | inr live ↦
      rw live (refuted _ (self_alive s (next_incarnation ev.incarnation)) _ refl refl refl refl)
]

accept_leave-SelfOnly : (s : Swim) → SelfOnly s (accept_leave s).0
unfolding accept_leave
accept_leave-SelfOnly s =
    either_self s s.self_left _ _ (unchanged s refl refl refl) (unchanged _ refl refl refl)

pub apply_self-SelfOnly :
    (s : Swim) (ev : MemberEvent) (t : EventType) → SelfOnly s (apply_self s ev t).0
unfolding apply_self
apply_self-SelfOnly s ev EventType.leave = accept_leave-SelfOnly s
apply_self-SelfOnly s ev EventType.suspect = refute_doubt-SelfOnly s ev
apply_self-SelfOnly s ev EventType.dead = refute_doubt-SelfOnly s ev
apply_self-SelfOnly s ev EventType.join = unchanged s refl refl refl
apply_self-SelfOnly s ev EventType.alive = unchanged s refl refl refl
apply_self-SelfOnly s ev (EventType.unknown c) = unchanged s refl refl refl

pub apply_event_split :
    (s : Swim) (now : ℕ) (ev : MemberEvent)
    → SelfOnly s (apply_event s now ev).0 ⊎ Touches ev.node_id s (apply_event s now ev).0
unfolding apply_event
apply_event_split s now ev = elim (Bool-cases (str_eq ev.node_id s.self.node_id)) [
  | inl me ↦ rw me (inl (apply_self-SelfOnly s ev ev.type))
  | inr other ↦ rw other (inr (apply_other-Touches s now ev ev.type (find ev.node_id s.members)))
]
