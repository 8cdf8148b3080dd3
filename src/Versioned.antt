-- ===== src/Versioned.antt =====
-- src/versioned_value.h and src/versioned_value.cpp: a value with its clock, and its text in storage.
-- The field `data` is called `payload`.
pub mod RoundTrip
pub mod Valid
mod Examples
use mini_dynamo.Base.{ℕ, Bool, true, false, Option, none, some, [], ◌∷◌, ◌++◌, if◌then◌else◌}
use mini_dynamo.Text.{Str, codes, str_eq}
use mini_dynamo.Text.Split.{cut_at}
use mini_dynamo.Base64.{encode, decode}
use mini_dynamo.Clock.{VectorClock, empty}
use mini_dynamo.Clock.Wire
use mini_dynamo.Clock.Wire.{parse}

pub record VersionedValue : Type 0 where
  pub payload : Str
  pub clock : VectorClock
  pub deleted : Bool

abbrev pub bar : ℕ
bar = 124

-- The mark of a tombstone, behind its own bar.
abbrev pub mark : Bool → Str
mark true = bar ∷ 68 ∷ []
mark false = []

unfoldable pub serialize : VersionedValue → Str
serialize vv = encode vv.payload ++ bar ∷ (Wire.serialize vv.clock ++ mark vv.deleted)

-- What stands behind the first bar: the clock, and the mark of a tombstone.
pub read_rest : Str → Str → VersionedValue
read_rest payload rest = elim (cut_at bar rest) [
  | none ↦ record { payload = payload; clock = parse rest; deleted = false }
  | some (clock, flag) ↦ record {
    payload = payload;
    clock = parse clock;
    deleted = str_eq flag (codes "D");
  }
]

-- A text with no bar is a bare value, with an empty clock.
unfoldable pub deserialize : Str → VersionedValue
unfolding read_rest
deserialize stored = elim (cut_at bar stored) [
  | none ↦ record { payload = decode stored; clock = empty; deleted = false }
  | some (payload, rest) ↦ read_rest (decode payload) rest
]
