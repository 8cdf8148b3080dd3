-- ===== src/Gossip/Ends.antt =====
-- Dissemination ends: the relay of an event by `applyIncomingEvents` and the piggybacking of
-- `getEventsToSend`, in any order.
use mini_dynamo.Base.{
  ℕ, zero, suc, ◌+◌, ◌-◌, ◌≤◌, ◌<◌, ◌≡◌, ◌⊎◌, inl, inr, refl, ap, ◌∙◌, subst, true, false, List, [],
  ◌∷◌, leb, All, arith, two64, Bool-cases,
}
use mini_dynamo.Event.{MemberEvent}
use mini_dynamo.Swim.{Swim, PendingEvent, apply_event, enqueue_event}
use mini_dynamo.Swim.Local.{send_all, get_events_to_send}
use mini_dynamo.Swim.Quiescence.{apply_event_twice}
use mini_dynamo.Swim.Pending.{waiting, news-waiting, no_news}
use mini_dynamo.Gossip.{is_valid_node_id, apply_all}

-- What befalls an event at a node: the node sends its waiting events, or the event comes back.
pub data Echo : Type 0 where
  sends : Echo
  returns : ℕ → Echo

unfoldable pub echo : MemberEvent → Swim → List Echo → Swim
echo ev s [] = s
echo ev s (sends ∷ l) = echo ev (get_events_to_send s).0 l
echo ev s (returns later ∷ l) = echo ev (apply_all s later (ev ∷ [])) l

unfoldable pub sent : List Echo → ℕ
sent [] = 0
sent (sends ∷ l) = suc (sent l)
sent (returns later ∷ l) = sent l

-- No event is to be sent more than `n` times.
abbrev pub Within : ℕ → List PendingEvent → Type 0
Within n = All (λ (p : PendingEvent). p.remaining ≤ n)

send_all-Within : (n : ℕ) (l : List PendingEvent) → Within (suc n) l → Within n (send_all l).1
unfolding send_all
send_all-Within n [] w = tt
send_all-Within n (p ∷ l) w = elim (Bool-cases (leb (p.remaining - 1) 0)) [
  | inl spent ↦ rw spent (send_all-Within n l w.1)
  | inr more ↦ rw more (omega (arith, w.0), send_all-Within n l w.1)
]

last_send : (l : List PendingEvent) → Within 1 l → (send_all l).1 ≡ []
unfolding send_all
last_send [] w = refl
last_send (p ∷ l) w = ground (arith, last_send l w.1, w.0)

more_or_last : (n : ℕ) (l : List PendingEvent) → Within (suc n) l → (1 ≤ n) ⊎ ((send_all l).1 ≡ [])
more_or_last zero l w = inr (last_send l w)
more_or_last (suc n) l w = inl (omega arith)

-- The event is no news at the state, whatever else waits there.
abbrev IsOld : Swim → MemberEvent → Type 0
IsOld s ev = (later : ℕ) → (apply_event s later ev).1 ≡ false

returned :
    (s : Swim) (q : List PendingEvent) (later : ℕ) (ev : MemberEvent)
    → IsOld s ev
    → apply_all (waiting s q) later (ev ∷ []) ≡ waiting s q
unfolding apply_all
returned s q later ev old =
    let still = news-waiting s q later ev ∙ old later in
    elim (Bool-cases (is_valid_node_id ev.node_id)) [
      | inr bad ↦ rw bad refl
      | inl named ↦ rw (named, still) (no_news (waiting s q) later ev still)
    ]

echo_ends :
    (s : Swim) (q : List PendingEvent) (ev : MemberEvent) (l : List Echo)
    → IsOld s ev
    → Within (sent l) q
    → (1 ≤ sent l) ⊎ (q ≡ [])
    → (echo ev (waiting s q) l).pending ≡ []
unfolding echo sent get_events_to_send
echo_ends s q ev [] old w (inl h) = absurd (omega arith)
echo_ends s q ev [] old w (inr e) = e
echo_ends s q ev (sends ∷ l) old w h =
    echo_ends s (send_all q).1 ev l old (send_all-Within (sent l) q w) (more_or_last (sent l) q w)
echo_ends s q ev (returns later ∷ l) old w h =
    ap (λ u. (echo ev u l).pending) (returned s q later ev old) ∙ echo_ends s q ev l old w h

relayed :
    (s : Swim) (now : ℕ) (ev : MemberEvent)
    → is_valid_node_id ev.node_id ≡ true
    → (apply_event s now ev).1 ≡ true
    → apply_all s now (ev ∷ []) ≡ enqueue_event (apply_event s now ev).0 ev
unfolding apply_all
relayed s now ev named news = rw (named, news) refl

-- Dissemination ends: a node that takes an event as news, queues it to be passed on, and then sends and
-- has the same event come back any number of times in any order, has nothing left to send, that event
-- and those that waited before it included, once it has sent at least once and as often as any of them
-- was to be sent. The event has a valid name and an incarnation below the largest uint64_t.
pub dissemination_ends :
    (s : Swim) (now : ℕ) (ev : MemberEvent) (l : List Echo)
    → ev.incarnation + 1 < two64
    → is_valid_node_id ev.node_id ≡ true
    → (apply_event s now ev).1 ≡ true
    → 1 ≤ sent l
    → Within (sent l) (apply_all s now (ev ∷ [])).pending
    → (echo ev (apply_all s now (ev ∷ [])) l).pending ≡ []
unfolding enqueue_event
dissemination_ends s now ev l small named news some_sent w =
    let t = (apply_event s now ev).0 in
    let queued = relayed s now ev named news in
    let old : IsOld t ev = λ later. ap (λ r. r.1) (apply_event_twice s now later ev small news) in
    ap (λ u. (echo ev u l).pending) queued
    ∙ echo_ends t (enqueue_event t ev).pending ev l old
        (subst (λ u. Within (sent l) u.pending) queued w) (inl some_sent)
