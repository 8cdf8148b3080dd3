-- ===== src/Net/Replicas/Calls.antt =====
-- `writeReplica` and `readReplica` of src/net/pooled_replica_client.cpp, and what they bring back from a
-- replica although the connection that the pool lent was dead.
use mini_dynamo.Base.{ℕ, ◌≤◌, ◌≡◌, ◌≢◌, ap, ◌∙◌, Bool, true, Option, some, length, take}
use mini_dynamo.Text.{Str, codes, str_key, str_eq}
use mini_dynamo.Text.Split.{split, Lacks}
use mini_dynamo.OrdMap.{find}
use mini_dynamo.NodeInfo.{NodeInfo}
use mini_dynamo.Base64.{encode}
use mini_dynamo.Versioned.{VersionedValue, bar}
use mini_dynamo.Versioned.RoundTrip.{IsStorable}
use mini_dynamo.Replica.{Storage, read_local}
use mini_dynamo.Replica.Verbs.{
  replicate_message, read_message, handle_replicate, handle_read_replica, parse_read_reply,
}
use mini_dynamo.Replica.Verbs.Arrival.{without_mark, read_over_wire}
use mini_dynamo.Net.Pool.{ConnectionPool, conns_of, key_of}
use mini_dynamo.Net.Replicas.{Attempt, RoundTrip, exchange}
use mini_dynamo.Net.Replicas.Retry.{exchange_answers}

-- `reply.rfind("RESPONSE|OK", 0) == 0`
unfoldable pub is_ack : Str → Bool
is_ack reply = str_eq (take 11 reply) (codes "RESPONSE|OK")

unfoldable pub write_replica :
    RoundTrip
    → ConnectionPool
    → Str
    → NodeInfo
    → Str
    → VersionedValue
    → Attempt
    → Attempt
    → ConnectionPool × Bool
unfolding is_ack
write_replica round_trip pool origin peer key value first second =
    let (p, reply) =
      exchange round_trip pool peer (replicate_message origin key value) first second in
    (p, is_ack reply)

-- The result is as of `parse_read_reply`.
unfoldable pub read_replica :
    RoundTrip
    → ConnectionPool
    → Str
    → NodeInfo
    → Str
    → Attempt
    → Attempt
    → ConnectionPool × Option (Option VersionedValue)
read_replica round_trip pool origin peer key first second =
    let (p, reply) = exchange round_trip pool peer (read_message origin key) first second in
    (p, parse_read_reply reply)

module _ (round_trip : RoundTrip) (pool : ConnectionPool) (peer : NodeInfo) (first second : Attempt)
    (f f' : ℕ) (store : Storage) (origin key : Str) (v : VersionedValue) where
  -- A write to a replica with one idle connection at most, of which each connection is dead or reaches
  -- the replica, and whose connector answers both times, the second time with one that reaches it, is
  -- acked.
  pub write_replica_acks :
      length (conns_of (find (key_of peer.host peer.port) pool.idle)) ≤ 1
      → first.connected ≡ some f
      → second.connected ≡ some f'
      → ((fd : ℕ) (reply : Str)
          → round_trip fd (replicate_message origin key v) ≡ some reply
          → reply ≡ (handle_replicate store (split bar (replicate_message origin key v))).1)
      → round_trip f' (replicate_message origin key v)
        ≡ some (handle_replicate store (split bar (replicate_message origin key v))).1
      → (write_replica round_trip pool origin peer key v first second).1 ≡ true
  unfolding write_replica is_ack handle_replicate str_eq
  write_replica_acks few up up' honest answers =
      let (fd, e) =
        exchange_answers round_trip pool peer (replicate_message origin key v) first second f f' _
          few up up' answers in
      ap is_ack (honest fd _ e)

  -- A read from a replica with one idle connection at most, of which each connection is dead or
  -- reaches the replica, and whose connector answers both times, the second time with one that reaches
  -- it, brings back the version that the replica holds, but for the mark of a delete. Key and origin
  -- hold no '|', and the version is one that can be stored, with a base64 text other than NOTFOUND.
  pub read_replica_brings :
      length (conns_of (find (key_of peer.host peer.port) pool.idle)) ≤ 1
      → first.connected ≡ some f
      → second.connected ≡ some f'
      → ((fd : ℕ) (reply : Str)
          → round_trip fd (read_message origin key) ≡ some reply
          → reply ≡ handle_read_replica store (split bar (read_message origin key)))
      → round_trip f' (read_message origin key)
        ≡ some (handle_read_replica store (split bar (read_message origin key)))
      → Lacks bar origin
      → Lacks bar key
      → IsStorable v
      → encode v.payload ≢ codes "NOTFOUND"
      → read_local store key ≡ some v
      → (read_replica round_trip pool origin peer key first second).1 ≡ some (some (without_mark v))
  unfolding read_replica
  read_replica_brings few up up' honest answers o k s n held =
      let (fd, e) =
        exchange_answers round_trip pool peer (read_message origin key) first second f f' _ few up
          up' answers in
      ap parse_read_reply (honest fd _ e) ∙ read_over_wire store origin key v o k s n held
