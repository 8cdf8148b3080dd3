-- ===== src/Versioned/Examples.antt =====
-- A stored value and its clock at concrete inputs.
use mini_dynamo.Base.{◌≡◌, arith, [], ◌∷◌, true, All}
use mini_dynamo.Text.{Str}
use mini_dynamo.Clock.{VectorClock}
use mini_dynamo.Clock.Wire.RoundTrip.{IsPrintable}
use mini_dynamo.Versioned.{VersionedValue, serialize, deserialize}
use mini_dynamo.Versioned.RoundTrip.{IsStorable, deserialize-serialize}

abbrev name : Str
name = 110 ∷ 49 ∷ []

abbrev clock : VectorClock
clock = record { counts = (name, record { counter = 2; updated_ms = 10 }) ∷ [] }

abbrev tombstone : VersionedValue
tombstone = record { payload = 124 ∷ 0 ∷ []; clock = clock; deleted = true }

clock-IsPrintable : All IsPrintable clock.counts
clock-IsPrintable = (
  record {
    name = ground arith;
    no_comma = (ground arith, (ground arith, tt));
    no_colon = (ground arith, (ground arith, tt));
    counter_pos = omega arith;
    counter_fits = omega arith;
    ms_fits = omega arith;
  },
  tt,
)

tombstone-IsStorable : IsStorable tombstone
tombstone-IsStorable = record {
  bytes = (omega arith, (omega arith, tt));
  sorted = (tt, tt);
  printable = clock-IsPrintable;
  no_bar = ((ground arith, (ground arith, tt)), tt);
}

deserialize-serialize_example : deserialize (serialize tombstone) ≡ tombstone
deserialize-serialize_example = deserialize-serialize tombstone tombstone-IsStorable
