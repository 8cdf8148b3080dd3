-- ===== src/Replica/Verbs/Arrival.antt =====
-- What a replica write and a replica read carry over the wire, and what they do not.
use mini_dynamo.Base.{◌≡◌, ◌≢◌, refl, ap, ◌∙◌, false, some, [], ◌∷◌, arith}
use mini_dynamo.Text.{Str, codes, str_eq_iff}
use mini_dynamo.Text.Split.{split, join, field, Lacks, split-join}
use mini_dynamo.Base64.{encode}
use mini_dynamo.Base64.RoundTrip.{decode-encode, encode-Lacks}
use mini_dynamo.Clock.Wire
use mini_dynamo.Clock.Wire.{parse}
use mini_dynamo.Clock.Wire.RoundTrip.{parse-serialize, serialize-Lacks}
use mini_dynamo.Versioned.{VersionedValue, bar}
use mini_dynamo.Versioned.RoundTrip.{IsStorable}
use mini_dynamo.Replica.{Storage, apply_replicate, read_local}
use mini_dynamo.Replica.Verbs.{
  replicate_message, handle_replicate, read_message, value_reply, handle_read_replica, parse_fields,
  parse_read_reply,
}

abbrev pub without_mark : VersionedValue → VersionedValue
without_mark v = record { payload = v.payload; clock = v.clock; deleted = false }

replicate-Lacks : Lacks bar (codes "REPLICATE")
replicate-Lacks = (
  ground arith,
  (
    ground arith,
    (
      ground arith,
      (
        ground arith,
        (ground arith, (ground arith, (ground arith, (ground arith, (ground arith, tt))))),
      ),
    ),
  ),
)

val-Lacks : Lacks bar (codes "VAL")
val-Lacks = (ground arith, (ground arith, (ground arith, tt)))

split-replicate :
    (origin key : Str) (v : VersionedValue)
    → Lacks bar origin
    → Lacks bar key
    → IsStorable v
    → split bar (replicate_message origin key v)
      ≡ codes "REPLICATE" ∷ key ∷ encode v.payload ∷ origin ∷ Wire.serialize v.clock ∷ []
unfolding replicate_message
split-replicate origin key v o k s =
    split-join bar (codes "REPLICATE")
      (key ∷ encode v.payload ∷ origin ∷ Wire.serialize v.clock ∷ [])
      (replicate-Lacks, (k, (encode-Lacks v.payload, (o, (serialize-Lacks v.clock s.no_bar, tt)))))

-- A replica write that arrives does what applying the version to the replica's store would do, but for
-- the mark of a delete, which the message does not carry: a tombstone is applied as a live value with
-- the same payload and clock. Key and origin hold no '|', and the version is one that can be stored.
pub handle_replicate-message :
    (store : Storage) (origin key : Str) (v : VersionedValue)
    → Lacks bar origin
    → Lacks bar key
    → IsStorable v
    → (handle_replicate store (split bar (replicate_message origin key v))).0
      ≡ (apply_replicate store key (without_mark v)).0
unfolding handle_replicate field
handle_replicate-message store origin key v o k s = ground (
  arith,
  split-replicate origin key v o k s,
  decode-encode v.payload s.bytes,
  parse-serialize v.clock s.sorted s.printable,
)

reply_fields :
    (x y : Str)
    → parse_read_reply (join bar (codes "VAL" ∷ x ∷ y ∷ []))
      ≡ parse_fields (split bar (join bar (codes "VAL" ∷ x ∷ y ∷ [])))
unfolding parse_read_reply join
reply_fields x y = refl

fields_found :
    (v : VersionedValue)
    → IsStorable v
    → encode v.payload ≢ codes "NOTFOUND"
    → parse_fields (codes "VAL" ∷ encode v.payload ∷ Wire.serialize v.clock ∷ [])
      ≡ some (some (without_mark v))
unfolding parse_fields field
fields_found v s n = ground (
  arith,
  str_eq_iff (codes "VAL") (codes "VAL"),
  str_eq_iff (encode v.payload) (codes "NOTFOUND"),
  decode-encode v.payload s.bytes,
  parse-serialize v.clock s.sorted s.printable,
)

parse-value_reply :
    (v : VersionedValue)
    → IsStorable v
    → encode v.payload ≢ codes "NOTFOUND"
    → parse_read_reply (value_reply (some v)) ≡ some (some (without_mark v))
parse-value_reply v s n =
    reply_fields (encode v.payload) (Wire.serialize v.clock)
    ∙ ap parse_fields (
        split-join bar (codes "VAL") (encode v.payload ∷ Wire.serialize v.clock ∷ [])
          (val-Lacks, (encode-Lacks v.payload, (serialize-Lacks v.clock s.no_bar, tt))))
    ∙ fields_found v s n

read-Lacks : Lacks bar (codes "READ")
read-Lacks = (ground arith, (ground arith, (ground arith, (ground arith, tt))))

split-read :
    (origin key : Str)
    → Lacks bar origin
    → Lacks bar key
    → split bar (read_message origin key) ≡ codes "READ" ∷ key ∷ origin ∷ []
unfolding read_message
split-read origin key o k =
    split-join bar (codes "READ") (key ∷ origin ∷ []) (read-Lacks, (k, (o, tt)))

handle_read-message :
    (store : Storage) (origin key : Str)
    → Lacks bar origin
    → Lacks bar key
    → handle_read_replica store (split bar (read_message origin key))
      ≡ value_reply (read_local store key)
unfolding handle_read_replica field
handle_read-message store origin key o k = ground (arith, split-read origin key o k)

-- A replica read that is answered brings back the version that the replica holds, but for the mark of a
-- delete, which the reply does not carry, and only where the base64 text of the payload is not the word
-- NOTFOUND. Key and origin hold no '|', and the version is one that can be stored.
pub read_over_wire :
    (store : Storage) (origin key : Str) (v : VersionedValue)
    → Lacks bar origin
    → Lacks bar key
    → IsStorable v
    → encode v.payload ≢ codes "NOTFOUND"
    → read_local store key ≡ some v
    → parse_read_reply (handle_read_replica store (split bar (read_message origin key)))
      ≡ some (some (without_mark v))
read_over_wire store origin key v o k s n e =
    ap parse_read_reply (handle_read-message store origin key o k ∙ ap value_reply e)
    ∙ parse-value_reply v s n
