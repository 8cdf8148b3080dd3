-- ===== src/Clock/Wire.antt =====
-- The text of a clock: `serialize` and `parse` of src/vector_clock.cpp.
pub mod RoundTrip
pub mod Valid
use mini_dynamo.Base.{
  ℕ, Bool, true, false, Option, none, some, List, [], ◌∷◌, ◌++◌, map, if◌then◌else◌,
}
use mini_dynamo.Text.{Str, str_key}
use mini_dynamo.Text.Decimal.{to_string, stoull}
use mini_dynamo.Text.Split.{cut_at, split, join}
use mini_dynamo.OrdMap.{Map}
use mini_dynamo.Clock.{Entry, VectorClock, empty, set}

abbrev pub comma : ℕ
comma = 44

abbrev pub colon : ℕ
colon = 58

-- "node:counter:timestamp"
pub entry_text : Str → Entry → Str
entry_text node e = node ++ colon ∷ (to_string e.counter ++ colon ∷ to_string e.updated_ms)

pub entry_texts : Map Str Entry → List Str
unfolding entry_text
entry_texts [] = []
entry_texts ((node, e) ∷ m) = entry_text node e ∷ entry_texts m

unfoldable pub serialize : VectorClock → Str
unfolding entry_texts join
serialize vc = join comma (entry_texts vc.counts)

abbrev pub is_empty : Str → Bool
is_empty [] = true
is_empty (c ∷ s) = false

-- A timestamp that is missing or empty is "0".
abbrev pub or_zero : Str → Str
or_zero ts = if is_empty ts then 48 ∷ [] else ts

-- The numbers of an entry and their place in the clock; what does not read as numbers is ignored.
pub set_numbers : VectorClock → Str → Str → Str → VectorClock
set_numbers vc node num ts = if is_empty num then vc else elim (stoull num) [
  | none ↦ vc
  | some counter ↦ elim (stoull ts) [ none ↦ vc | some ms ↦ set vc node counter ms ]
]

pub parse_tail : VectorClock → Str → Str → VectorClock
unfolding set_numbers cut_at
parse_tail vc node tail = elim (cut_at colon tail) [
  | none ↦ set_numbers vc node tail (48 ∷ [])
  | some (num, ts) ↦ set_numbers vc node num (or_zero ts)
]

-- An entry with no colon, no name or no tail is skipped, as is an empty one.
pub parse_entry : VectorClock → Str → VectorClock
unfolding parse_tail
parse_entry vc entry = elim (cut_at colon entry) [
  | none ↦ vc
  | some (node, tail) ↦
      if is_empty node then vc else if is_empty tail then vc else parse_tail vc node tail
]

pub parse_entries : VectorClock → List Str → VectorClock
unfolding parse_entry
parse_entries vc [] = vc
parse_entries vc (entry ∷ l) = parse_entries (parse_entry vc entry) l

unfoldable pub parse : Str → VectorClock
unfolding parse_entries split
parse s = parse_entries empty (split comma s)
