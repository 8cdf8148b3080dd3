-- ===== src/Swim/Quiescence.antt =====
-- Events that come back, and the refutation of a suspicion (applyEvent of src/gossip/swim.cpp).
use mini_dynamo.Base.{
  ℕ, ◌+◌, ◌≤◌, ◌<◌, ◌≡◌, ◌≢◌, ◌⊎◌, inl, inr, refl, true, false, Option, none, some, arith,
  Bool-cases, two64,
}
use mini_dynamo.Text.{str_key, str_eq, str_eq_iff}
use mini_dynamo.OrdMap.{find, find-insert}
use mini_dynamo.Event.{EventType, MemberEvent}
use mini_dynamo.Swim.{
  Swim, MemberState, MemberEntry, entry_of, readdress, apply_event, apply_self, apply_other,
  apply_alive, apply_suspect, apply_dead, apply_leave, refute_doubt, accept_leave, enqueue_event,
  is_left, self_alive, next_incarnation,
}
use mini_dynamo.Swim.Queries.{state_of}
use mini_dynamo.Swim.Lifecycle.{Effect, quiet, retires_self, writes}
use mini_dynamo.Swim.Relayed.{apply_event-Effect}

alive_twice :
    (s : Swim) (ev : MemberEvent) (o : Option MemberEntry)
    → (apply_alive s ev o).1 ≡ true
    → apply_alive (apply_alive s ev o).0 ev (find ev.node_id (apply_alive s ev o).0.members)
      ≡ ((apply_alive s ev o).0, false)
unfolding apply_alive
alive_twice s ev none h = ground (
  arith,
  find-insert ev.node_id ev.node_id (entry_of ev MemberState.alive) s.members,
  str_eq_iff ev.node_id ev.node_id,
)
alive_twice s ev (some e) h = ground (
  arith,
  find-insert ev.node_id ev.node_id
      (record e {
        info = readdress ev e.info;
        state = MemberState.alive;
        incarnation = ev.incarnation;
      })
      s.members,
  str_eq_iff ev.node_id ev.node_id,
)

suspect_twice :
    (s : Swim) (now later : ℕ) (ev : MemberEvent) (o : Option MemberEntry)
    → (apply_suspect s now ev o).1 ≡ true
    → apply_suspect
        (apply_suspect s now ev o).0
        later
        ev
        (find ev.node_id (apply_suspect s now ev o).0.members)
      ≡ ((apply_suspect s now ev o).0, false)
unfolding apply_suspect
suspect_twice s now later ev none h = absurd (cc)
suspect_twice s now later ev (some e) h = ground (
  arith,
  find-insert ev.node_id ev.node_id
      (record e {
        state = MemberState.suspected;
        incarnation = ev.incarnation;
        suspect_since = now;
      })
      s.members,
  str_eq_iff ev.node_id ev.node_id,
)

dead_twice :
    (s : Swim) (ev : MemberEvent) (o : Option MemberEntry)
    → (apply_dead s ev o).1 ≡ true
    → apply_dead (apply_dead s ev o).0 ev (find ev.node_id (apply_dead s ev o).0.members)
      ≡ ((apply_dead s ev o).0, false)
unfolding apply_dead
dead_twice s ev none h = ground (
  arith,
  find-insert ev.node_id ev.node_id (entry_of ev MemberState.dead) s.members,
  str_eq_iff ev.node_id ev.node_id,
)
dead_twice s ev (some e) h = ground (
  arith,
  find-insert ev.node_id ev.node_id
      (record e { state = MemberState.dead; incarnation = ev.incarnation }) s.members,
  str_eq_iff ev.node_id ev.node_id,
)

leave_twice :
    (s : Swim) (ev : MemberEvent) (o : Option MemberEntry)
    → (apply_leave s ev o).1 ≡ true
    → apply_leave (apply_leave s ev o).0 ev (find ev.node_id (apply_leave s ev o).0.members)
      ≡ ((apply_leave s ev o).0, false)
unfolding apply_leave
leave_twice s ev none h = ground (
  arith,
  find-insert ev.node_id ev.node_id (entry_of ev MemberState.left) s.members,
  str_eq_iff ev.node_id ev.node_id,
)
leave_twice s ev (some e) h = ground (
  arith,
  find-insert ev.node_id ev.node_id (record e { state = MemberState.left }) s.members,
  str_eq_iff ev.node_id ev.node_id,
)

other_twice :
    (s : Swim) (now later : ℕ) (ev : MemberEvent) (t : EventType) (o : Option MemberEntry)
    → (apply_other s now ev t o).1 ≡ true
    → apply_other
        (apply_other s now ev t o).0
        later
        ev
        t
        (find ev.node_id (apply_other s now ev t o).0.members)
      ≡ ((apply_other s now ev t o).0, false)
unfolding apply_other
other_twice s now later ev EventType.join o h = alive_twice s ev o h
other_twice s now later ev EventType.alive o h = alive_twice s ev o h
other_twice s now later ev EventType.suspect o h = suspect_twice s now later ev o h
other_twice s now later ev EventType.dead o h = dead_twice s ev o h
other_twice s now later ev EventType.leave o h = leave_twice s ev o h
other_twice s now later ev (EventType.unknown c) o h = absurd (cc)

doubt_twice :
    (s : Swim) (ev : MemberEvent)
    → ev.incarnation + 1 < two64
    → (refute_doubt s ev).1 ≡ true
    → refute_doubt (refute_doubt s ev).0 ev ≡ ((refute_doubt s ev).0, false)
unfolding refute_doubt
doubt_twice s ev w h = ground arith

self_twice :
    (s : Swim) (ev : MemberEvent) (t : EventType)
    → ev.incarnation + 1 < two64
    → (apply_self s ev t).1 ≡ true
    → apply_self (apply_self s ev t).0 ev t ≡ ((apply_self s ev t).0, false)
unfolding apply_self
self_twice s ev EventType.suspect w h = doubt_twice s ev w h
self_twice s ev EventType.dead w h = doubt_twice s ev w h
self_twice s ev EventType.leave w h = unfold accept_leave in ground arith
self_twice s ev EventType.join w h = absurd (cc)
self_twice s ev EventType.alive w h = absurd (cc)
self_twice s ev (EventType.unknown c) w h = absurd (cc)

apply_event_self :
    (s : Swim) (now : ℕ) (ev : MemberEvent)
    → str_eq ev.node_id s.self.node_id ≡ true
    → apply_event s now ev ≡ apply_self s ev ev.type
unfolding apply_event
apply_event_self s now ev h = rw h

apply_event_other :
    (s : Swim) (now : ℕ) (ev : MemberEvent)
    → str_eq ev.node_id s.self.node_id ≡ false
    → apply_event s now ev ≡ apply_other s now ev ev.type (find ev.node_id s.members)
unfolding apply_event
apply_event_other s now ev h = rw h

pub self-Effect : {s t : Swim} → Effect s t → t.self ≡ s.self
self-Effect (quiet a b m d) = a
self-Effect (retires_self a b m d) = a
self-Effect (writes id e f a b m d p q) = a

-- A node that has applied an event and passes it on takes the same event, when it comes back, for no
-- news: the state stays as it is, and the event is not passed on again. The event's incarnation is
-- below the largest uint64_t.
pub apply_event_twice :
    (s : Swim) (now later : ℕ) (ev : MemberEvent)
    → ev.incarnation + 1 < two64
    → (apply_event s now ev).1 ≡ true
    → apply_event (apply_event s now ev).0 later ev ≡ ((apply_event s now ev).0, false)
apply_event_twice s now later ev w h =
    let same = self-Effect (apply_event-Effect s now ev) in
    elim (Bool-cases (str_eq ev.node_id s.self.node_id)) [
      | inl me ↦ ground (
        arith,
        apply_event_self s now ev,
        apply_event_self (apply_event s now ev).0 later ev,
        self_twice s ev ev.type w,
      )
      | inr other ↦ ground (
        arith,
        apply_event_other s now ev,
        apply_event_other (apply_event s now ev).0 later ev,
        other_twice s now later ev ev.type (find ev.node_id s.members),
      )
    ]

-- A newer Alive is believed.
newer_alive :
    (q : Swim) (later : ℕ) (a : MemberEvent) (x : MemberEntry)
    → a.type ≡ EventType.alive
    → a.node_id ≢ q.self.node_id
    → find a.node_id q.members ≡ some x
    → is_left x.state ≡ false
    → x.incarnation < a.incarnation
    → ((apply_event q later a).1 ≡ true)
      × (state_of (apply_event q later a).0 a.node_id ≡ some MemberState.alive)
unfolding apply_event apply_other apply_alive state_of
newer_alive q later a x kind apart held here newer = ground (
  arith,
  str_eq_iff a.node_id q.self.node_id,
  str_eq_iff a.node_id a.node_id,
  find-insert a.node_id a.node_id
      (record x {
        info = readdress a x.info;
        state = MemberState.alive;
        incarnation = a.incarnation;
      })
      q.members,
)

-- The node's answer to a doubt of incarnation `inc`.
abbrev pub refutation : Swim → ℕ → MemberEvent
refutation s inc = self_alive s (inc + 1)

doubted :
    (s : Swim) (now : ℕ) (ev : MemberEvent)
    → ev.node_id ≡ s.self.node_id
    → (ev.type ≡ EventType.suspect) ⊎ (ev.type ≡ EventType.dead)
    → s.incarnation ≤ ev.incarnation
    → ev.incarnation + 1 < two64
    → apply_event s now ev ≡ (
      enqueue_event (record s { incarnation = ev.incarnation + 1 }) (refutation s ev.incarnation),
      true,
    )
unfolding apply_self refute_doubt
doubted s now ev me kind own w =
    let wrapless : next_incarnation ev.incarnation ≡ ev.incarnation + 1 = omega arith in
    rw (apply_event_self s now ev ((str_eq_iff ev.node_id s.self.node_id).1 me)) (ground arith)

-- A node that hears itself called Suspect or Dead at its own incarnation or a newer one takes the next
-- incarnation and queues an Alive with it for dissemination; a peer that knows the node, has not seen
-- it leave, and holds it at no newer incarnation than the doubt, holds it Alive after that event and
-- passes the event on. The doubt's incarnation is below the largest uint64_t.
pub refutation_prevails :
    (s q : Swim) (now later : ℕ) (ev : MemberEvent) (x : MemberEntry)
    → ev.node_id ≡ s.self.node_id
    → (ev.type ≡ EventType.suspect) ⊎ (ev.type ≡ EventType.dead)
    → s.incarnation ≤ ev.incarnation
    → ev.incarnation + 1 < two64
    → s.self.node_id ≢ q.self.node_id
    → find s.self.node_id q.members ≡ some x
    → is_left x.state ≡ false
    → x.incarnation ≤ ev.incarnation
    → (apply_event s now ev ≡ (
      enqueue_event (record s { incarnation = ev.incarnation + 1 }) (refutation s ev.incarnation),
      true,
    ))
      × ((apply_event q later (refutation s ev.incarnation)).1 ≡ true)
      × (state_of (apply_event q later (refutation s ev.incarnation)).0 s.self.node_id
          ≡ some MemberState.alive)
refutation_prevails s q now later ev x me kind own w apart held here old =
    let (told, up) =
      newer_alive q later (refutation s ev.incarnation) x refl apart held here (omega arith) in
    (doubted s now ev me kind own w, told, up)
