-- ===== src/Gossip/Joining.antt =====
-- `joinViaSeeds` of src/gossip/gossip_thread.cpp. What a seed answers is a function of its host, its port
-- and the message.
pub mod Welcomes
use mini_dynamo.Base.{ℕ, ltb, Option, none, some, List, [], ◌∷◌, length, if◌then◌else◌}
use mini_dynamo.Text.{Str, codes, str_eq}
use mini_dynamo.Text.Decimal.{to_string, stoi_uint16}
use mini_dynamo.Text.Split.{split, join, field}
use mini_dynamo.Swim.{Swim}
use mini_dynamo.Gossip.{apply_incoming_events, bar, is_empty}

abbrev pub colon : ℕ
colon = 58

abbrev pub SeedNetwork : Type 0
SeedNetwork = Str → ℕ → Str → Str

-- SWIM_JOIN|<id>|<host>|<port>|<incarnation>|
unfoldable pub join_message : Swim → Str
join_message s = join bar (
    codes "SWIM_JOIN"
    ∷ s.self.node_id
    ∷ s.self.host
    ∷ to_string s.self.port
    ∷ to_string s.incarnation
    ∷ []
    ∷ [])

-- The view after an answer; `none` if it is no SWIM_ACK.
unfoldable pub seed_reply : Swim → ℕ → Str → Option Swim
unfolding apply_incoming_events field
seed_reply s now resp =
    let f = split bar resp in
    if is_empty resp
    then none
    else if str_eq (field f 0) (codes "SWIM_ACK")
    then some (apply_incoming_events s now (field f 3))
    else none

-- The body of the loop: a seed is "host:port".
unfoldable pub ask_seed : SeedNetwork → Swim → ℕ → Str → Option Swim
unfolding seed_reply join_message field
ask_seed net s now seed =
    let parts = split colon seed in
    if ltb (length parts) 2 then none else elim (stoi_uint16 (field parts 1)) [
      | none ↦ none
      | some port ↦ seed_reply s now (net (field parts 0) port (join_message s))
    ]

-- One seed is enough.
unfoldable pub join_via_seeds : SeedNetwork → Swim → ℕ → List Str → Swim
join_via_seeds net s now [] = s
join_via_seeds net s now (seed ∷ l) = elim (ask_seed net s now seed) [
  | none ↦ join_via_seeds net s now l
  | some joined ↦ joined
]
