-- ===== src/Gossip/Joining/Welcomes.antt =====
-- A join from end to end: what the seed makes of the message, and what the node makes of the answer.
use mini_dynamo.Base.{
  ℕ, ◌<◌, ◌≡◌, refl, subst, ap, sym, ◌∙◌, true, Option, none, some, List, [], ◌∷◌, ◌++◌, All, two64,
}
use mini_dynamo.Text.{Str, codes, str_eq}
use mini_dynamo.Text.Decimal.{
  to_string, to_string-AllDigits, Digits-Lacks, stoi_uint16-to_string, stoull-to_string,
}
use mini_dynamo.Text.Split.{split, join, field, Lacks, lacks, lacks-Lacks, split-join}
use mini_dynamo.Event.{EventType, MemberEvent}
use mini_dynamo.Event.Wire.{serialize_events, deserialize_events}
use mini_dynamo.Event.Wire.RoundTrip.{IsSendable, deserialize_events-serialize_events}
use mini_dynamo.Swim.{Swim, enqueue_event, self_alive}
use mini_dynamo.Swim.Local.{apply_direct_join, notice}
use mini_dynamo.Swim.Digest.{all_members}
use mini_dynamo.NodeInfo.{NodeInfo}
use mini_dynamo.Swim.Frame.{apply_direct_join-Touches}
use mini_dynamo.Gossip.{
  Network, bar, swim_ack, apply_all, apply_incoming_events, is_valid_node_id, join_event,
  known_members, welcome, handle_join, dispatch, handle_message,
}
use mini_dynamo.Gossip.Joining.{
  colon, SeedNetwork, join_message, seed_reply, ask_seed, join_via_seeds,
}

-- The join of a node, as an event.
abbrev pub joins : Swim → MemberEvent
joins s = record {
  type = EventType.join;
  node_id = s.self.node_id;
  host = s.self.host;
  port = s.self.port;
  incarnation = s.incarnation;
}

-- The events of the seed's answer.
abbrev pub welcome_events : MemberEvent → Swim × Option ℕ → List MemberEvent
welcome_events ev (s, none) = notice EventType.leave ev.node_id 0 ∷ []
welcome_events ev (s, some eff) =
    let s' = enqueue_event s (record ev { type = EventType.alive; incarnation = eff }) in
    self_alive s' s'.incarnation ∷ known_members (all_members s')

-- What the message needs of a node: a valid name, a host without '|', and numbers that fit.
pub record CanJoin (s : Swim) : Type 0 where
  pub named : is_valid_node_id s.self.node_id ≡ true
  pub id_no_bar : Lacks bar s.self.node_id
  pub host_no_bar : Lacks bar s.self.host
  pub port_fits : s.self.port < 65536
  pub incarnation_fits : s.incarnation < two64

digits_Lack : (n : ℕ) → Lacks bar (to_string n)
digits_Lack n = Digits-Lacks bar (to_string n) refl (to_string-AllDigits n)

split-join_message :
    (s : Swim)
    → CanJoin s
    → split bar (join_message s)
      ≡ codes "SWIM_JOIN"
        ∷ s.self.node_id
        ∷ s.self.host
        ∷ to_string s.self.port
        ∷ to_string s.incarnation
        ∷ []
        ∷ []
unfolding join_message lacks
split-join_message s c = split-join bar (codes "SWIM_JOIN") _ (
  lacks-Lacks bar (codes "SWIM_JOIN") refl,
  (c.id_no_bar, (c.host_no_bar, (digits_Lack s.self.port, (digits_Lack s.incarnation, (tt, tt))))),
)

heard :
    (net : Network) (seed joiner : Swim) (now : ℕ)
    → CanJoin joiner
    → handle_message net seed now (join_message joiner)
      ≡ welcome (joins joiner) (apply_direct_join seed (joins joiner))
unfolding handle_message dispatch handle_join join_event apply_incoming_events field str_eq
heard net seed joiner now c =
    rw
      (
        split-join_message joiner c,
        c.named,
        stoi_uint16-to_string joiner.self.port c.port_fits,
        stoull-to_string joiner.incarnation c.incarnation_fits,
      )
      refl

welcome_text :
    (ev : MemberEvent) (w : Swim × Option ℕ)
    → (welcome ev w).1 ≡ swim_ack w.0.self.node_id ev.node_id (welcome_events ev w)
unfolding welcome enqueue_event
welcome_text ev (s, none) = refl
welcome_text ev (s, some eff) = refl

incoming_all :
    (s : Swim) (now : ℕ) (text : Str)
    → apply_incoming_events s now text ≡ apply_all s now (deserialize_events text)
unfolding apply_incoming_events deserialize_events apply_all
incoming_all s now [] = refl
incoming_all s now (c ∷ text) = refl

-- The answer of a seed that a node reads back, event by event.
reads_back :
    (joiner : Swim) (now : ℕ) (from to : Str) (events : List MemberEvent)
    → Lacks bar from
    → Lacks bar to
    → Lacks bar (serialize_events events)
    → All IsSendable events
    → seed_reply joiner now (swim_ack from to events) ≡ some (apply_all joiner now events)
unfolding seed_reply field str_eq lacks
reads_back joiner now from to events f t b a =
    let fields : split bar (swim_ack from to events)
        ≡ codes "SWIM_ACK" ∷ from ∷ to ∷ serialize_events events ∷ [] =
      unfold join in
      split-join bar (codes "SWIM_ACK") _
        (lacks-Lacks bar (codes "SWIM_ACK") refl, (f, (t, (b, tt)))) in
    rw
      (
        fields,
        incoming_all joiner now (serialize_events events),
        deserialize_events-serialize_events events a,
      )
      refl

-- The address of a seed is read.
asks :
    (net : SeedNetwork) (joiner : Swim) (now : ℕ) (host : Str) (port : ℕ)
    → Lacks colon host
    → port < 65536
    → ask_seed net joiner now (host ++ colon ∷ to_string port)
      ≡ seed_reply joiner now (net host port (join_message joiner))
unfolding ask_seed field
asks net joiner now host port h p =
    let parts : split colon (host ++ colon ∷ to_string port) ≡ host ∷ to_string port ∷ [] =
      unfold join in
      split-join colon host (to_string port ∷ [])
        (h, (Digits-Lacks colon (to_string port) refl (to_string-AllDigits port), tt)) in
    rw (parts, stoi_uint16-to_string port p)
      (ap (λ f. seed_reply joiner now (net (field f 0) port (join_message joiner))) parts)

connected :
    (net : SeedNetwork) (s : Swim) (now : ℕ) (seed : Str) (l : List Str) (t : Swim)
    → ask_seed net s now seed ≡ some t
    → join_via_seeds net s now (seed ∷ l) ≡ t
unfolding join_via_seeds
connected net s now seed l t e = rw (join_via_seeds, e) refl

-- A join through the first seed of the list, from end to end: where the address, the joining node, the
-- seed's name and the events of its answer fit the text formats, the seed takes the join in as a direct
-- one of just that node, name, address, port and incarnation, and the joining node ends with its own
-- view and each event of the seed's answer applied in order: the seed itself and all of its known
-- members as Alive, or the Leave of a node that was retired. The other seeds are not asked.
pub join_via_seeds_welcomes :
    (net : Network) (seed joiner : Swim) (heard_at joined_at : ℕ) (host : Str) (port : ℕ)
    (others : List Str)
    → Lacks colon host
    → port < 65536
    → CanJoin joiner
    → Lacks bar seed.self.node_id
    → Lacks bar
        (serialize_events (welcome_events (joins joiner) (apply_direct_join seed (joins joiner))))
    → All IsSendable (welcome_events (joins joiner) (apply_direct_join seed (joins joiner)))
    → ((handle_message net seed heard_at (join_message joiner)).0
        ≡ (welcome (joins joiner) (apply_direct_join seed (joins joiner))).0)
      × (join_via_seeds
            (λ h p m. (handle_message net seed heard_at m).1)
            joiner
            joined_at
            ((host ++ colon ∷ to_string port) ∷ others)
          ≡ apply_all joiner joined_at
              (welcome_events (joins joiner) (apply_direct_join seed (joins joiner))))
join_via_seeds_welcomes net seed joiner heard_at joined_at host port others h p c f b a =
    let ev = joins joiner in
    let w = apply_direct_join seed ev in
    let e = heard net seed joiner heard_at c in
    let answered : (handle_message net seed heard_at (join_message joiner)).1
        ≡ swim_ack w.0.self.node_id ev.node_id (welcome_events ev w) =
      ap (λ r. r.1) e ∙ welcome_text ev w in
    let self_kept : Lacks bar w.0.self.node_id =
      subst (λ (n : NodeInfo). Lacks bar n.node_id) (sym (apply_direct_join-Touches seed ev).self)
        f in
    let asked =
      asks (λ h p m. (handle_message net seed heard_at m).1) joiner joined_at host port h p in
    (
      ap (λ r. r.0) e,
      connected (λ h p m. (handle_message net seed heard_at m).1) joiner joined_at
          (host ++ colon ∷ to_string port) others _
          (asked
            ∙ ap (seed_reply joiner joined_at) answered
            ∙ reads_back joiner joined_at w.0.self.node_id ev.node_id (welcome_events ev w)
                self_kept c.id_no_bar b a),
    )
