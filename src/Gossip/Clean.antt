-- ===== src/Gossip/Clean.antt =====
-- The names in a view, and that applying events keeps them valid on the wire.
use mini_dynamo.Base.{
  ℕ, ◌-◌, leb, ◌≡◌, inl, inr, true, some, List, [], ◌∷◌, ◌∙◌, if◌then◌else◌, arith, Bool-cases, All,
  All-append, subst, sym, ap,
}
use mini_dynamo.Text.{Str, str_key, str_eq, str_eq_iff}
use mini_dynamo.OrdMap.{find}
use mini_dynamo.NodeInfo.{NodeInfo}
use mini_dynamo.Event.{MemberEvent}
use mini_dynamo.Event.Wire.{deserialize_events}
use mini_dynamo.Swim.{
  new, Swim, MemberEntry, PendingEvent, apply_event, enqueue_event, dissemination_limit,
}
use mini_dynamo.Swim.Local.{send_all}
use mini_dynamo.Swim.Frame.{Touches, SelfOnly, unchanged, refuted, apply_event_split}
use mini_dynamo.Gossip.{is_valid_node_id, apply_all, apply_incoming_events}

abbrev pub Named : Str → Type 0
Named id = is_valid_node_id id ≡ true

-- Every member, every event that waits, and the node itself have a name that is valid on the wire.
pub record IsClean (s : Swim) : Type 0 where
  pub self : Named s.self.node_id
  pub members : (k : Str) (x : MemberEntry) → find k s.members ≡ some x → Named k
  pub pending : All (λ (p : PendingEvent). Named p.event.node_id) s.pending

pub new-IsClean : (self : NodeInfo) (mult : ℕ) → Named self.node_id → IsClean (new self mult)
unfolding new find
new-IsClean self mult h = record {
  self = h;
  members = λ k x e. absurd (ground arith);
  pending = tt;
}

pub enqueue_event-IsClean :
    (s : Swim) (ev : MemberEvent) → Named ev.node_id → IsClean s → IsClean (enqueue_event s ev)
unfolding enqueue_event
enqueue_event-IsClean s ev h c = record {
  self = c.self;
  members = c.members;
  pending =
      All-append _ s.pending (record { event = ev; remaining = dissemination_limit s } ∷ [])
        c.pending (h, tt);
}

pub Touches-IsClean : (id : Str) (s t : Swim) → Named id → Touches id s t → IsClean s → IsClean t
Touches-IsClean id s t h f c = record {
  self = subst (λ (n : NodeInfo). Named n.node_id) (sym f.self) c.self;
  members = λ k x e. elim (Bool-cases (str_eq k id)) [
    | inl same ↦ subst Named (sym ((str_eq_iff k id).0 same)) h
    | inr other ↦ c.members k x (sym (f.others k (ground (arith, str_eq_iff k id))) ∙ e)
  ];
  pending = subst (All (λ (p : PendingEvent). Named p.event.node_id)) (sym f.pending) c.pending;
}

pub SelfOnly-IsClean : (s t : Swim) → SelfOnly s t → IsClean s → IsClean t
SelfOnly-IsClean s t (unchanged _ a m p) c = record {
  self = subst (λ (n : NodeInfo). Named n.node_id) (sym a) c.self;
  members = λ k x e. c.members k x (ap (find k) (sym m) ∙ e);
  pending = subst (All (λ (q : PendingEvent). Named q.event.node_id)) (sym p) c.pending;
}
SelfOnly-IsClean s t (refuted _ ev n a m i p) c = record {
  self = subst (λ (n : NodeInfo). Named n.node_id) (sym a) c.self;
  members = λ k x e. c.members k x (ap (find k) (sym m) ∙ e);
  pending =
      subst (All (λ (q : PendingEvent). Named q.event.node_id)) (sym p)
        (All-append _ s.pending _ c.pending (subst Named (sym i) c.self, tt));
}

apply_event-IsClean :
    (s : Swim) (now : ℕ) (ev : MemberEvent)
    → Named ev.node_id
    → IsClean s
    → IsClean (apply_event s now ev).0
apply_event-IsClean s now ev h c = elim (apply_event_split s now ev) [
  | inl own ↦ SelfOnly-IsClean s _ own c
  | inr other ↦ Touches-IsClean ev.node_id s _ h other c
]

abbrev relayed : Swim → ℕ → MemberEvent → Swim
relayed s now ev =
    if is_valid_node_id ev.node_id
    then if (apply_event s now ev).1
      then enqueue_event (apply_event s now ev).0 ev
      else (apply_event s now ev).0
    else s

relayed-IsClean : (s : Swim) (now : ℕ) (ev : MemberEvent) → IsClean s → IsClean (relayed s now ev)
relayed-IsClean s now ev c = elim (Bool-cases (is_valid_node_id ev.node_id)) [
  | inr bad ↦ rw bad c
  | inl named ↦ elim (Bool-cases (apply_event s now ev).1) [
    | inl news ↦
        rw (named, news)
          (enqueue_event-IsClean (apply_event s now ev).0 ev named
            (apply_event-IsClean s now ev named c))
    | inr old ↦ rw (named, old) (apply_event-IsClean s now ev named c)
  ]
]

apply_all-IsClean :
    (l : List MemberEvent) (s : Swim) (now : ℕ) → IsClean s → IsClean (apply_all s now l)
unfolding apply_all
apply_all-IsClean [] s now c = c
apply_all-IsClean (ev ∷ l) s now c =
    apply_all-IsClean l (relayed s now ev) now (relayed-IsClean s now ev c)

pub incoming-IsClean :
    (s : Swim) (now : ℕ) (text : Str) → IsClean s → IsClean (apply_incoming_events s now text)
unfolding apply_incoming_events
incoming-IsClean s now [] c = c
incoming-IsClean s now (x ∷ text) c = apply_all-IsClean (deserialize_events (x ∷ text)) s now c

pub send_all-All :
    (P : MemberEvent → Type 0) (l : List PendingEvent)
    → All (λ (p : PendingEvent). P p.event) l
    → All P (send_all l).0 × All (λ (p : PendingEvent). P p.event) (send_all l).1
unfolding send_all
send_all-All P [] a = (tt, tt)
send_all-All P (p ∷ l) a =
    let (out, kept) = send_all-All P l a.1 in
    (
      (a.0, out),
      elim (Bool-cases (leb (p.remaining - 1) 0)) [
        | inl spent ↦ rw spent kept
        | inr more ↦ rw more (a.0, kept)
      ],
    )
