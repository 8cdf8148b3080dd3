-- ===== src/Clock/Examples.antt =====
-- The clocks of src/vector_clock.cpp at concrete inputs.
use mini_dynamo.Base.{◌+◌, ◌≡◌, ◌<◌, ◌≢◌, refl, arith, [], some, two64}
use mini_dynamo.Text.{Str, codes, str_key, str_eq, str_lt, str_eq_iff}
use mini_dynamo.OrdMap.{find, insert, erase, find-insert}
use mini_dynamo.Clock.{
  Ordering, VectorClock, Entry, empty, set, get, compare, merge, prune, size, IsValid,
}
use mini_dynamo.Clock.Loops.{Le}
use mini_dynamo.Clock.Order.{Means, compare-Means}
use mini_dynamo.Clock.Update.{set-IsValid, empty-IsValid}
use mini_dynamo.Clock.Merge.{merge_least}

abbrev node1 : Str
node1 = codes "node1"

abbrev node2 : Str
node2 = codes "node2"

-- Two writes of one node, and one of another.
abbrev newer : VectorClock
newer = set (set empty node1 2 10) node2 1 20

abbrev older : VectorClock
older = set empty node1 2 10

abbrev oldest : VectorClock
oldest = set empty node1 1 5

newer-IsValid : IsValid newer
newer-IsValid =
    set-IsValid (set empty node1 2 10) node2 1 20 (set-IsValid empty node1 2 10 empty-IsValid)

older-IsValid : IsValid older
older-IsValid = set-IsValid empty node1 2 10 empty-IsValid

oldest-IsValid : IsValid oldest
oldest-IsValid = set-IsValid empty node1 1 5 empty-IsValid

newer_first : compare newer older ≡ Ordering.a_dominates
unfolding compare set get find insert str_eq str_lt
newer_first = refl

older_first : compare older oldest ≡ Ordering.a_dominates
unfolding compare set get find insert str_eq str_lt
older_first = refl

compare-Means_example : Means (compare newer older) newer older
compare-Means_example = compare-Means newer older newer-IsValid older-IsValid

merge_least_example :
    Le oldest (merge oldest newer)
    × Le newer (merge oldest newer)
    × ((c : VectorClock) → Le oldest c → Le newer c → Le (merge oldest newer) c)
merge_least_example = merge_least oldest newer newer-IsValid

newer_fits : get newer node1 + 1 < two64
unfolding get set find insert str_eq str_lt
newer_fits = omega arith

abbrev mature : Entry
mature = record { counter = 2; updated_ms = 10 }

abbrev young : Entry
young = record { counter = 1; updated_ms = 20 }

young_left : find node2 (prune 1 newer).counts ≡ some young
unfolding prune size set find insert erase str_eq str_lt
young_left = refl

young_there : find node2 newer.counts ≡ some young
unfolding set find insert str_eq str_lt
young_there = refl

young_newest :
    (j : Str) (d : Entry)
    → find j newer.counts ≡ some d
    → j ≢ node2
    → d.updated_ms < young.updated_ms
unfolding set find
young_newest j d e n = ground (
  arith,
  find-insert node2 j young older.counts,
  find-insert node1 j mature [],
  str_eq_iff j node2,
)
