-- ===== src/Gossip/Examples.antt =====
-- A message whose sender and events have good and bad names.
use mini_dynamo.Base.{subst, sym, All, ◌++◌, ◌∷◌, arith, List, ℕ, ◌<◌, ◌≡◌, refl, true, []}
use mini_dynamo.Text.{Str, codes, str_eq}
use mini_dynamo.Text.Decimal.{to_string, show}
use mini_dynamo.NodeInfo.{NodeInfo}
use mini_dynamo.Swim.{new}
use mini_dynamo.Gossip.{Network, is_valid_node_id, all_in_id, handle_message}
use mini_dynamo.Gossip.Clean.{IsClean, new-IsClean}
use mini_dynamo.Event.{EventType, MemberEvent}
use mini_dynamo.Event.Wire.{serialize_events, event_texts, serialize}
use mini_dynamo.Event.Wire.RoundTrip.{IsSendable}
use mini_dynamo.OrdMap.{find, insert}
use mini_dynamo.Text.Split
use mini_dynamo.Text.Split.{Lacks, lacks, lacks-Lacks}
use mini_dynamo.Gossip.{known_members, welcome, apply_all, bar}
use mini_dynamo.Swim.{Swim, enqueue_event}
use mini_dynamo.Swim.Local.{apply_direct_join, join_known}
use mini_dynamo.Swim.Digest.{all_members}
use mini_dynamo.Gossip.Joining.{colon, join_message, join_via_seeds}
use mini_dynamo.Gossip.Joining.Welcomes.{joins, welcome_events, CanJoin, join_via_seeds_welcomes}
use mini_dynamo.Gossip.Ends.{Echo, sends, returns, echo, sent, Within, dissemination_ends}
use mini_dynamo.Swim.{apply_event, apply_other, apply_alive, dissemination_limit, ceil_log2, climb}
use mini_dynamo.Gossip.NodeIds.{handle_message-IsClean}

abbrev node : NodeInfo
node = record { node_id = codes "node1"; host = codes "h"; port = 5000 }

node_named : is_valid_node_id node.node_id ≡ true
unfolding is_valid_node_id all_in_id
node_named = refl

-- No one answers.
abbrev silent : Network
silent n payload = []

abbrev join : Str
join = codes "SWIM_JOIN|node2|h|5001|0|A:node3:h:5002:1;D:bad|name:h:1:1"

handle_message-IsClean_example : IsClean (handle_message silent (new node 5) 10 join).0
handle_message-IsClean_example =
    handle_message-IsClean silent (new node 5) 10 join (new-IsClean node 5 node_named)

abbrev seed : Swim
seed = new (record { node_id = codes "seed"; host = codes "s"; port = 5001 }) 5

abbrev joiner : Swim
joiner = new node 5

joiner-CanJoin : CanJoin joiner
unfolding new lacks
joiner-CanJoin = record {
  named = node_named;
  id_no_bar = lacks-Lacks bar (codes "node1") refl;
  host_no_bar = lacks-Lacks bar (codes "h") refl;
  port_fits = omega arith;
  incarnation_fits = omega arith;
}

abbrev answer : List MemberEvent
answer = welcome_events (joins joiner) (apply_direct_join seed (joins joiner))

alive : Str → Str → ℕ → MemberEvent
alive id host port = record {
  type = EventType.alive;
  node_id = id;
  host = host;
  port = port;
  incarnation = 0;
}

answer_is :
    answer ≡ alive (codes "seed") (codes "s") 5001 ∷ alive (codes "node1") (codes "h") 5000 ∷ []
unfolding alive new apply_direct_join find insert enqueue_event join_known known_members all_members
    str_eq
answer_is = refl

alive-IsSendable :
    (id host : Str) (port : ℕ)
    → port < 65536
    → Lacks 58 id
    → Lacks 59 id
    → Lacks 58 host
    → Lacks 59 host
    → IsSendable (alive id host port)
unfolding alive
alive-IsSendable id host port p a b c d = record {
  known = refl;
  no_semicolon = ground arith;
  id_no_colon = a;
  id_no_semicolon = b;
  host_no_colon = c;
  host_no_semicolon = d;
  port_fits = p;
  incarnation_fits = omega arith;
}

seed_no_bar : Lacks bar seed.self.node_id
unfolding new lacks
seed_no_bar = lacks-Lacks bar (codes "seed") refl

answer_no_bar : Lacks bar (serialize_events answer)
unfolding lacks serialize_events event_texts serialize alive Split.join to_string show
answer_no_bar =
    subst (λ l. Lacks bar (serialize_events l)) (sym answer_is)
      (lacks-Lacks bar (codes "A:seed:s:5001:0;A:node1:h:5000:0") refl)

answer-IsSendable : All IsSendable answer
unfolding lacks
answer-IsSendable = subst (All IsSendable) (sym answer_is) (
  alive-IsSendable (codes "seed") (codes "s") 5001 (omega arith)
      (lacks-Lacks 58 (codes "seed") refl) (lacks-Lacks 59 (codes "seed") refl)
      (lacks-Lacks 58 (codes "s") refl) (lacks-Lacks 59 (codes "s") refl),
  (
    alive-IsSendable (codes "node1") (codes "h") 5000 (omega arith)
        (lacks-Lacks 58 (codes "node1") refl) (lacks-Lacks 59 (codes "node1") refl)
        (lacks-Lacks 58 (codes "h") refl) (lacks-Lacks 59 (codes "h") refl),
    tt,
  ),
)

join_via_seeds_welcomes_example :
    ((handle_message silent seed 10 (join_message joiner)).0
      ≡ (welcome (joins joiner) (apply_direct_join seed (joins joiner))).0)
    × (join_via_seeds
          (λ h p m. (handle_message silent seed 10 m).1)
          joiner
          20
          ((codes "s" ++ colon ∷ to_string 5001) ∷ [])
        ≡ apply_all joiner 20
            (welcome_events (joins joiner) (apply_direct_join seed (joins joiner))))
unfolding lacks
join_via_seeds_welcomes_example =
    join_via_seeds_welcomes silent seed joiner 10 20 (codes "s") 5001 []
      (lacks-Lacks colon (codes "s") refl) (omega arith) joiner-CanJoin seed_no_bar answer_no_bar
      answer-IsSendable

-- News of a third node, and the rounds after it; the event comes back twice.
abbrev third : MemberEvent
third = alive (codes "n3") (codes "h") 5003

abbrev rounds : List Echo
rounds = sends ∷ returns 30 ∷ sends ∷ sends ∷ returns 40 ∷ sends ∷ sends ∷ sends ∷ []

third_waits : Within (sent rounds) (apply_all seed 20 (third ∷ [])).pending
unfolding alive new apply_all is_valid_node_id all_in_id apply_event apply_other apply_alive find
    insert str_eq enqueue_event dissemination_limit ceil_log2 climb sent
third_waits = (omega arith, tt)

dissemination_ends_example : (echo third (apply_all seed 20 (third ∷ [])) rounds).pending ≡ []
unfolding alive new sent is_valid_node_id all_in_id apply_event apply_other apply_alive find str_eq
dissemination_ends_example =
    dissemination_ends seed 20 third rounds (omega arith) refl refl (omega arith) third_waits
