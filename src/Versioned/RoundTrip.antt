-- ===== src/Versioned/RoundTrip.antt =====
-- A stored value is read back as it was.
use mini_dynamo.Base.{ℕ, ◌<◌, ◌≡◌, Bool, true, false, [], ◌∷◌, ◌++◌, All, arith, append-nil}
use mini_dynamo.Text.{Str, str_key, str_eq}
use mini_dynamo.Text.Split.{Lacks, cut_at-sep, cut_at-Lacks}
use mini_dynamo.OrdMap.{Sorted}
use mini_dynamo.Base64.{encode}
use mini_dynamo.Base64.RoundTrip.{decode-encode, encode-Lacks}
use mini_dynamo.Clock.{Entry, VectorClock}
use mini_dynamo.Clock.Wire
use mini_dynamo.Clock.Wire.{parse, comma, colon, entry_text, entry_texts}
use mini_dynamo.Clock.Wire.RoundTrip.{IsPrintable, parse-serialize, serialize-Lacks}
use mini_dynamo.Versioned.{VersionedValue, bar, mark, serialize, read_rest, deserialize}

-- What the text of a value needs: bytes, and a clock that prints, whose names hold no '|'.
pub record IsStorable (vv : VersionedValue) : Type 0 where
  pub bytes : All (λ (c : ℕ). c < 256) vv.payload
  pub sorted : Sorted vv.clock.counts
  pub printable : All IsPrintable vv.clock.counts
  pub no_bar : All (λ (kv : Str × Entry). Lacks bar kv.0) vv.clock.counts

read_rest-clock :
    (payload : Str) (clock : VectorClock) (deleted : Bool)
    → Lacks bar (Wire.serialize clock)
    → parse (Wire.serialize clock) ≡ clock
    → read_rest payload (Wire.serialize clock ++ mark deleted)
      ≡ record { payload = payload; clock = clock; deleted = deleted }
unfolding read_rest str_eq
read_rest-clock payload clock true l p =
    ground (arith, cut_at-sep bar (Wire.serialize clock) (68 ∷ []) l, p)
read_rest-clock payload clock false l p =
    ground (arith, append-nil (Wire.serialize clock), cut_at-Lacks bar (Wire.serialize clock) l, p)

-- A value, live or deleted, is read back from storage as it was written, its bytes, its clock with
-- counters and times, and the mark of a delete: for a payload of bytes, and a clock in key order whose
-- names are not empty and hold none of the separators and whose numbers are uint64_t, counters not zero.
pub deserialize-serialize : (vv : VersionedValue) → IsStorable vv → deserialize (serialize vv) ≡ vv
unfolding deserialize serialize
deserialize-serialize vv v = ground (
  arith,
  cut_at-sep bar (encode vv.payload) (Wire.serialize vv.clock ++ mark vv.deleted)
      (encode-Lacks vv.payload),
  decode-encode vv.payload v.bytes,
  read_rest-clock vv.payload vv.clock vv.deleted (serialize-Lacks vv.clock v.no_bar)
      (parse-serialize vv.clock v.sorted v.printable),
)
