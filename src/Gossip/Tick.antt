-- ===== src/Gossip/Tick.antt =====
-- The protocol round of src/gossip/gossip_thread.cpp: expiry, the probe of the dead, the ping with its
-- indirect probes, and the membership sync after a lasting mismatch of digests. The proxies that the
-- shuffle picks are an input of the round.
use mini_dynamo.Base.{
  ℕ, zero, suc, ◌+◌, ◌-◌, ◌/◌, ◌%◌, Bool, true, false, ◌&&◌, not, Option, none, some, List, [], ◌∷◌,
  ◌++◌, ltb, ◌==◌, if◌then◌else◌, length,
}
use mini_dynamo.Text.{Str, codes, str_key, str_eq}
use mini_dynamo.Text.Decimal.{stoull}
use mini_dynamo.Text.Split.{split, field}
use mini_dynamo.OrdMap.{Map, find, insert, erase}
use mini_dynamo.NodeInfo.{NodeInfo}
use mini_dynamo.Event.Wire.{serialize_events}
use mini_dynamo.Swim.{Swim}
use mini_dynamo.Swim.Local.{expire_suspects, suspect}
use mini_dynamo.Swim.Queries.{full_state, alive_peers}
use mini_dynamo.Swim.Digest.{digest, dead_peers}
use mini_dynamo.Gossip.{Network, apply_incoming_events, build_ping, build_ping_req, bar, is_empty}

pub record MismatchState : Type 0 where
  pub consecutive : ℕ
  pub last_sync_tick : ℕ

-- `idx` is the thread's round-robin counter.
pub record GossipThread : Type 0 where
  pub swim : Swim
  pub mismatch : Map Str MismatchState
  pub tick_count : ℕ
  pub idx : ℕ

abbrev pub with_swim : GossipThread → Swim → GossipThread
with_swim g s = record g { swim = s }

-- A reply that is not a SWIM_SYNC_ACK is dropped.
unfoldable pub sync_reply : GossipThread → ℕ → List Str → GossipThread
unfolding field apply_incoming_events
sync_reply g now f =
    if str_eq (field f 0) (codes "SWIM_SYNC_ACK")
    then with_swim g (apply_incoming_events g.swim now (field f 2))
    else g

unfoldable pub perform_sync : Network → GossipThread → ℕ → NodeInfo → GossipThread
unfolding sync_reply
perform_sync net g now peer =
    let resp =
      net peer
        (codes "SWIM_SYNC|" ++ g.swim.self.node_id ++ bar ∷ serialize_events (full_state g.swim)) in
    if is_empty resp then g else sync_reply g now (split bar resp)

-- `mismatch_[peer]`, which is made if it is missing.
abbrev pub mismatch_of : Option MismatchState → MismatchState
mismatch_of none = record { consecutive = 0; last_sync_tick = 0 }
mismatch_of (some m) = m

abbrev pub cooling : GossipThread → MismatchState → Bool
cooling g m = not (m.last_sync_tick == 0) && ltb (g.tick_count - m.last_sync_tick) 10

abbrev pub put_mismatch : GossipThread → Str → MismatchState → GossipThread
put_mismatch g peer m = record g { mismatch = insert peer m g.mismatch }

unfoldable pub mismatched : Network → GossipThread → ℕ → NodeInfo → MismatchState → GossipThread
unfolding perform_sync
mismatched net g now peer m =
    if ltb m.consecutive 2
    then put_mismatch g peer.node_id m
    else if cooling g m
    then put_mismatch g peer.node_id m
    else perform_sync net
        (put_mismatch g peer.node_id (record { consecutive = 0; last_sync_tick = g.tick_count }))
        now peer

unfoldable pub compare_digest : Network → GossipThread → ℕ → NodeInfo → ℕ → GossipThread
unfolding mismatched
compare_digest net g now peer theirs =
    let m = mismatch_of (find peer.node_id g.mismatch) in
    if theirs == digest g.swim
    then record g { mismatch = erase peer.node_id g.mismatch }
    else mismatched net g now peer (record m { consecutive = m.consecutive + 1 })

-- An ack without a digest, or with one that is no number, is not compared.
unfoldable pub maybe_sync : Network → GossipThread → ℕ → NodeInfo → Str → GossipThread
unfolding compare_digest
maybe_sync net g now peer [] = g
maybe_sync net g now peer (c ∷ s) = elim (stoull (c ∷ s)) [
  | none ↦ g
  | some theirs ↦ compare_digest net g now peer theirs
]

unfoldable pub read_ack : Network → GossipThread → ℕ → NodeInfo → List Str → GossipThread × Bool
unfolding maybe_sync field apply_incoming_events
read_ack net g now peer f =
    if str_eq (field f 0) (codes "SWIM_ACK")
    then (
      maybe_sync net (with_swim g (apply_incoming_events g.swim now (field f 3))) now peer
          (field f 4),
      true,
    )
    else (g, false)

unfoldable pub handle_ack : Network → GossipThread → ℕ → NodeInfo → Str → GossipThread × Bool
unfolding read_ack
handle_ack net g now peer resp =
    if is_empty resp then (g, false) else read_ack net g now peer (split bar resp)

unfoldable pub probe_dead : Network → GossipThread → ℕ → NodeInfo → GossipThread
unfolding handle_ack build_ping
probe_dead net g now target =
    let (s, ping) = build_ping g.swim target.node_id in
    (handle_ack net (with_swim g s) now target (net target ping)).0

-- One proxy after the other, until one answers; `true` where one did.
unfoldable pub ask_proxies : Network → GossipThread → ℕ → Str → List NodeInfo → GossipThread × Bool
unfolding handle_ack build_ping_req
ask_proxies net g now target [] = (g, false)
ask_proxies net g now target (proxy ∷ l) =
    let (s, preq) = build_ping_req g.swim target in
    let (g', got) = handle_ack net (with_swim g s) now proxy (net proxy preq) in
    let on = ask_proxies net g' now target l in if got then (g', true) else on

abbrev pub suspect_silent : ℕ → Str → GossipThread × Bool → GossipThread
suspect_silent now target (g, got) = if got then g else with_swim g (suspect g.swim now target)

unfoldable pub ping_target : Network → GossipThread → ℕ → List NodeInfo → NodeInfo → GossipThread
unfolding ask_proxies handle_ack build_ping
ping_target net g now proxies target =
    let (s, ping) = build_ping g.swim target.node_id in
    let g' = with_swim g s in
    let resp = net target ping in
    if is_empty resp
    then suspect_silent now target.node_id (ask_proxies net g' now target.node_id proxies)
    else (handle_ack net g' now target resp).0

unfoldable pub nth : List NodeInfo → ℕ → Option NodeInfo
nth [] i = none
nth (n ∷ l) zero = some n
nth (n ∷ l) (suc i) = nth l i

unfoldable pub pick_round_robin : List NodeInfo → ℕ → Option NodeInfo
unfolding nth
pick_round_robin [] i = none
pick_round_robin (n ∷ l) i = nth (n ∷ l) (i % length (n ∷ l))

-- Every fifth round one of the dead is probed.
unfoldable pub resurrection_probe : Network → GossipThread → ℕ → GossipThread
unfolding probe_dead pick_round_robin
resurrection_probe net g now =
    if g.tick_count % 5 == 0
    then elim (pick_round_robin (dead_peers g.swim) (g.tick_count / 5)) [
      | none ↦ g
      | some target ↦ probe_dead net g now target
    ]
    else g

unfoldable pub ping_round : Network → GossipThread → ℕ → List NodeInfo → GossipThread
unfolding ping_target pick_round_robin
ping_round net g now proxies = elim (pick_round_robin (alive_peers g.swim) g.idx) [
  | none ↦ g
  | some target ↦ ping_target net (record g { idx = g.idx + 1 }) now proxies target
]

-- A retired node counts its rounds and does nothing else.
unfoldable pub tick : Network → GossipThread → ℕ → ℕ → List NodeInfo → GossipThread
unfolding resurrection_probe ping_round
tick net g now timeout proxies =
    let counted = record g { tick_count = g.tick_count + 1 } in
    let expired = with_swim counted (expire_suspects g.swim now timeout).0 in
    if g.swim.self_left
    then counted
    else ping_round net (resurrection_probe net expired now) now proxies
