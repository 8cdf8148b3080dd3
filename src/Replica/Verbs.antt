-- ===== src/Replica/Verbs.antt =====
-- The replica verbs: src/net/tcp_replica_client.cpp on the coordinator's side, `handleReplicate` and
-- `handleReadReplica` of src/node.cpp on the replica's. Sockets and timeouts are left out: a message that
-- arrives is a text, and "" is no answer.
pub mod Arrival
use mini_dynamo.Base.{Bool, true, false, Option, none, some, List, [], ◌∷◌, if◌then◌else◌}
use mini_dynamo.Text.{Str, codes, str_eq}
use mini_dynamo.Text.Split.{split, join, field}
use mini_dynamo.Base64.{encode, decode}
use mini_dynamo.Clock.Wire
use mini_dynamo.Clock.Wire.{parse}
use mini_dynamo.Versioned.{VersionedValue, bar}
use mini_dynamo.Replica.{Storage, apply_replicate, read_local}

-- REPLICATE|<key>|<b64value>|<origin>|<clock>
unfoldable pub replicate_message : Str → Str → VersionedValue → Str
replicate_message origin key v =
    join bar (codes "REPLICATE" ∷ key ∷ encode v.payload ∷ origin ∷ Wire.serialize v.clock ∷ [])

-- The replica's side; the answer is RESPONSE|OK whatever was kept.
unfoldable pub handle_replicate : Storage → List Str → Storage × Str
unfolding field
handle_replicate store f = (
  (apply_replicate store (field f 1)
      (record { payload = decode (field f 2); clock = parse (field f 4); deleted = false })).0,
  codes "RESPONSE|OK",
)

-- READ|<key>|<origin>
unfoldable pub read_message : Str → Str → Str
read_message origin key = join bar (codes "READ" ∷ key ∷ origin ∷ [])

-- VAL|NOTFOUND or VAL|<b64value>|<clock>
abbrev pub value_reply : Option VersionedValue → Str
value_reply none = join bar (codes "VAL" ∷ codes "NOTFOUND" ∷ [])
value_reply (some v) = join bar (codes "VAL" ∷ encode v.payload ∷ Wire.serialize v.clock ∷ [])

unfoldable pub handle_read_replica : Storage → List Str → Str
unfolding field
handle_read_replica store f = value_reply (read_local store (field f 1))

-- `none` for no response, then `none` for a replica that has not the key.
unfoldable pub parse_fields : List Str → Option (Option VersionedValue)
unfolding field
parse_fields f =
    if str_eq (field f 0) (codes "VAL")
    then if str_eq (field f 1) (codes "NOTFOUND")
      then some none
      else some (
          some
            (record { payload = decode (field f 1); clock = parse (field f 2); deleted = false }))
    else none

unfoldable pub parse_read_reply : Str → Option (Option VersionedValue)
unfolding parse_fields
parse_read_reply [] = none
parse_read_reply (c ∷ reply) = parse_fields (split bar (c ∷ reply))
