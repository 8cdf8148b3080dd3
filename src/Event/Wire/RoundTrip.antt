-- ===== src/Event/Wire/RoundTrip.antt =====
-- The events of a message are read as they were written.
use mini_dynamo.Base.{
  ℕ, ◌<◌, ◌≡◌, ◌≢◌, refl, ap, ◌∙◌, List, [], ◌∷◌, ◌++◌, two64, arith, All, All-append,
}
use mini_dynamo.Text.{Str}
use mini_dynamo.Text.Decimal.{
  Digits-Lacks, to_string, to_string-AllDigits, stoull-to_string, stoi_uint16-to_string,
}
use mini_dynamo.Text.Split.{split, join, Lacks, cut_at-sep, split-join}
use mini_dynamo.Event.{EventType, MemberEvent}
use mini_dynamo.Event.Wire.{
  colon, semicolon, letter_of, type_of, serialize, read_numbers, read_port, read_host, read_node_id,
  blank, deserialize, event_texts, serialize_events, read_tokens, deserialize_events,
}

-- What the text needs of an event: a type that the enum names, a name and a host with no separator,
-- and numbers that fit.
pub record IsSendable (e : MemberEvent) : Type 0 where
  pub known : type_of (letter_of e.type) ≡ e.type
  pub no_semicolon : letter_of e.type ≢ semicolon
  pub id_no_colon : Lacks colon e.node_id
  pub id_no_semicolon : Lacks semicolon e.node_id
  pub host_no_colon : Lacks colon e.host
  pub host_no_semicolon : Lacks semicolon e.host
  pub port_fits : e.port < 65536
  pub incarnation_fits : e.incarnation < two64

abbrev numbers : MemberEvent → Str
numbers e = to_string e.port ++ colon ∷ to_string e.incarnation

read_port-numbers :
    (d e : MemberEvent)
    → e.port < 65536
    → e.incarnation < two64
    → read_port d (numbers e) ≡ record d { port = e.port; incarnation = e.incarnation }
unfolding read_port read_numbers
read_port-numbers d e p i = ground (
  arith,
  cut_at-sep colon (to_string e.port) (to_string e.incarnation)
      (Digits-Lacks colon (to_string e.port) refl (to_string-AllDigits e.port)),
  stoi_uint16-to_string e.port p,
  stoull-to_string e.incarnation i,
)

read_node_id-text :
    (d e : MemberEvent)
    → IsSendable e
    → read_node_id d (e.node_id ++ colon ∷ (e.host ++ colon ∷ numbers e))
      ≡ record d { node_id = e.node_id; host = e.host; port = e.port; incarnation = e.incarnation }
unfolding read_node_id read_host
read_node_id-text d e s = ground (
  arith,
  cut_at-sep colon e.node_id (e.host ++ colon ∷ numbers e) s.id_no_colon,
  cut_at-sep colon e.host (numbers e) s.host_no_colon,
  read_port-numbers (record d { node_id = e.node_id; host = e.host }) e s.port_fits
      s.incarnation_fits,
)

deserialize-colon :
    (t : ℕ) (s : Str) → s ≢ [] → deserialize (t ∷ colon ∷ s) ≡ read_node_id (blank (type_of t)) s
unfolding deserialize
deserialize-colon t [] h = absurd (h refl)
deserialize-colon t (x ∷ s) h = ground arith

append-ne-nil : (a : Str) (c : ℕ) (b : Str) → (a ++ c ∷ b) ≢ []
append-ne-nil [] c b h = cc
append-ne-nil (x ∷ a) c b h = cc

pub deserialize-serialize_event : (e : MemberEvent) → IsSendable e → deserialize (serialize e) ≡ e
unfolding serialize
deserialize-serialize_event e s =
    deserialize-colon (letter_of e.type) (e.node_id ++ colon ∷ (e.host ++ colon ∷ numbers e))
      (append-ne-nil e.node_id colon (e.host ++ colon ∷ numbers e))
    ∙ read_node_id-text (blank (type_of (letter_of e.type))) e s
    ∙ ap (λ (t : EventType). record e { type = t }) s.known

serialize-Lacks : (e : MemberEvent) → IsSendable e → Lacks semicolon (serialize e)
unfolding serialize
serialize-Lacks e s =
    let no = λ (c : ℕ). c ≢ semicolon in
    let apart : colon ≢ semicolon = λ q. omega arith in
    let tail =
      All-append no (to_string e.port) (colon ∷ to_string e.incarnation)
        (Digits-Lacks semicolon (to_string e.port) refl (to_string-AllDigits e.port))
        (
          apart,
          Digits-Lacks semicolon (to_string e.incarnation) refl (to_string-AllDigits e.incarnation),
        ) in
    (
      s.no_semicolon,
      (
        apart,
        All-append no e.node_id (colon ∷ (e.host ++ colon ∷ numbers e)) s.id_no_semicolon
            (apart, All-append no e.host (colon ∷ numbers e) s.host_no_semicolon (apart, tail)),
      ),
    )

texts-Lacks : (l : List MemberEvent) → All IsSendable l → All (Lacks semicolon) (event_texts l)
unfolding event_texts
texts-Lacks [] a = tt
texts-Lacks (e ∷ l) a = (serialize-Lacks e a.0, texts-Lacks l a.1)

read_tokens-text :
    (e : MemberEvent) (l : List Str)
    → read_tokens (serialize e ∷ l) ≡ deserialize (serialize e) ∷ read_tokens l
unfolding read_tokens serialize
read_tokens-text e l = refl

read_tokens-texts : (l : List MemberEvent) → All IsSendable l → read_tokens (event_texts l) ≡ l
unfolding event_texts
read_tokens-texts [] a = unfold read_tokens in refl
read_tokens-texts (e ∷ l) a = ground (
  arith,
  read_tokens-text e (event_texts l),
  deserialize-serialize_event e a.0,
  read_tokens-texts l a.1,
)

-- The events of a message, none or many, are read as they were written, in their order, if each has a
-- type that the enum names, a name and a host without ':' and ';', a port below 2^16 and an
-- incarnation below 2^64.
pub deserialize_events-serialize_events :
    (l : List MemberEvent) → All IsSendable l → deserialize_events (serialize_events l) ≡ l
unfolding deserialize_events serialize_events
deserialize_events-serialize_events [] a = unfold join split read_tokens event_texts in refl
deserialize_events-serialize_events (e ∷ l) a =
    ap read_tokens (
      unfold event_texts in
      split-join semicolon (serialize e) (event_texts l) (texts-Lacks (e ∷ l) a))
    ∙ read_tokens-texts (e ∷ l) a
