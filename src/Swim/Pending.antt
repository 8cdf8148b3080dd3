-- ===== src/Swim/Pending.antt =====
-- Whether an event is news does not depend on the events that wait to be sent.
use mini_dynamo.Base.{ℕ, ◌≡◌, refl, false, Option, none, some, List, arith, Bool-cases, inl, inr}
use mini_dynamo.Text.{str_key, str_eq}
use mini_dynamo.OrdMap.{find}
use mini_dynamo.Event.{EventType, MemberEvent}
use mini_dynamo.Swim.{
  Swim, MemberEntry, PendingEvent, apply_event, apply_self, apply_other, apply_alive, apply_suspect,
  apply_dead, apply_leave, refute_doubt, accept_leave, enqueue_event,
}

abbrev pub waiting : Swim → List PendingEvent → Swim
waiting s q = record s { pending = q }

news_self :
    (s : Swim) (q : List PendingEvent) (ev : MemberEvent) (ty : EventType)
    → (apply_self (waiting s q) ev ty).1 ≡ (apply_self s ev ty).1
unfolding apply_self refute_doubt accept_leave enqueue_event
news_self s q ev EventType.leave = ground arith
news_self s q ev EventType.suspect = ground arith
news_self s q ev EventType.dead = ground arith
news_self s q ev EventType.join = refl
news_self s q ev EventType.alive = refl
news_self s q ev (EventType.unknown c) = refl

news_alive :
    (s : Swim) (q : List PendingEvent) (ev : MemberEvent) (o : Option MemberEntry)
    → (apply_alive (waiting s q) ev o).1 ≡ (apply_alive s ev o).1
unfolding apply_alive
news_alive s q ev none = refl
news_alive s q ev (some e) = ground arith

news_other :
    (s : Swim) (q : List PendingEvent) (now : ℕ) (ev : MemberEvent) (ty : EventType)
    (o : Option MemberEntry)
    → (apply_other (waiting s q) now ev ty o).1 ≡ (apply_other s now ev ty o).1
unfolding apply_other apply_suspect apply_dead apply_leave
news_other s q now ev EventType.join o = news_alive s q ev o
news_other s q now ev EventType.alive o = news_alive s q ev o
news_other s q now ev EventType.suspect none = refl
news_other s q now ev EventType.suspect (some e) = ground arith
news_other s q now ev EventType.dead none = refl
news_other s q now ev EventType.dead (some e) = ground arith
news_other s q now ev EventType.leave none = refl
news_other s q now ev EventType.leave (some e) = ground arith
news_other s q now ev (EventType.unknown c) o = refl

pub news-waiting :
    (s : Swim) (q : List PendingEvent) (now : ℕ) (ev : MemberEvent)
    → (apply_event (waiting s q) now ev).1 ≡ (apply_event s now ev).1
unfolding apply_event
news-waiting s q now ev = elim (Bool-cases (str_eq ev.node_id s.self.node_id)) [
  | inl me ↦ rw me (news_self s q ev ev.type)
  | inr other ↦ rw other (news_other s q now ev ev.type (find ev.node_id s.members))
]

old_self :
    (s : Swim) (ev : MemberEvent) (ty : EventType)
    → (apply_self s ev ty).1 ≡ false
    → (apply_self s ev ty).0 ≡ s
unfolding apply_self refute_doubt accept_leave
old_self s ev EventType.leave h = ground arith
old_self s ev EventType.suspect h = ground arith
old_self s ev EventType.dead h = ground arith
old_self s ev EventType.join h = refl
old_self s ev EventType.alive h = refl
old_self s ev (EventType.unknown c) h = refl

old_alive :
    (s : Swim) (ev : MemberEvent) (o : Option MemberEntry)
    → (apply_alive s ev o).1 ≡ false
    → (apply_alive s ev o).0 ≡ s
unfolding apply_alive
old_alive s ev none h = ground arith
old_alive s ev (some e) h = ground arith

old_other :
    (s : Swim) (now : ℕ) (ev : MemberEvent) (ty : EventType) (o : Option MemberEntry)
    → (apply_other s now ev ty o).1 ≡ false
    → (apply_other s now ev ty o).0 ≡ s
unfolding apply_other apply_suspect apply_dead apply_leave
old_other s now ev EventType.join o h = old_alive s ev o h
old_other s now ev EventType.alive o h = old_alive s ev o h
old_other s now ev EventType.suspect none h = refl
old_other s now ev EventType.suspect (some e) h = ground arith
old_other s now ev EventType.dead none h = ground arith
old_other s now ev EventType.dead (some e) h = ground arith
old_other s now ev EventType.leave none h = ground arith
old_other s now ev EventType.leave (some e) h = ground arith
old_other s now ev (EventType.unknown c) o h = refl

-- What is no news changes nothing.
pub no_news :
    (s : Swim) (now : ℕ) (ev : MemberEvent)
    → (apply_event s now ev).1 ≡ false
    → (apply_event s now ev).0 ≡ s
unfolding apply_event
no_news s now ev h = elim (Bool-cases (str_eq ev.node_id s.self.node_id)) [
  | inl me ↦ rw me (old_self s ev ev.type (rw me at h))
  | inr other ↦ rw other (old_other s now ev ev.type (find ev.node_id s.members) (rw other at h))
]
