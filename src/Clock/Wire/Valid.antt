-- ===== src/Clock/Wire/Valid.antt =====
-- What `parse` of src/vector_clock.cpp makes of any text.
use mini_dynamo.Base.{inl, inr, List, [], ◌∷◌, Bool-cases, Option-cases}
use mini_dynamo.Text.{Str}
use mini_dynamo.Text.Decimal.{stoull}
use mini_dynamo.Text.Split.{cut_at, split}
use mini_dynamo.Clock.{VectorClock, IsValid, empty}
use mini_dynamo.Clock.Update.{set-IsValid, empty-IsValid}
use mini_dynamo.Clock.Wire.{
  comma, colon, is_empty, or_zero, set_numbers, parse_tail, parse_entry, parse_entries, parse,
}

set_numbers-IsValid :
    (vc : VectorClock) (node num ts : Str) → IsValid vc → IsValid (set_numbers vc node num ts)
unfolding set_numbers
set_numbers-IsValid vc node num ts v = elim (Bool-cases (is_empty num)) [
  | inl nothing ↦ rw nothing v
  | inr digits ↦ elim (Option-cases (stoull num)) [
    | inl bad ↦ rw (digits, bad) v
    | inr (counter, e) ↦ elim (Option-cases (stoull ts)) [
      | inl bad ↦ rw (digits, e, bad) v
      | inr (ms, f) ↦ rw (digits, e, f) (set-IsValid vc node counter ms v)
    ]
  ]
]

parse_tail-IsValid :
    (vc : VectorClock) (node tail : Str) → IsValid vc → IsValid (parse_tail vc node tail)
unfolding parse_tail
parse_tail-IsValid vc node tail v = elim (Option-cases (cut_at colon tail)) [
  | inl whole ↦ rw (whole, parse_tail) (set_numbers-IsValid vc node tail (48 ∷ []) v)
  | inr ((num, ts), e) ↦ rw (e, parse_tail) (set_numbers-IsValid vc node num (or_zero ts) v)
]

parse_entry-IsValid : (vc : VectorClock) (entry : Str) → IsValid vc → IsValid (parse_entry vc entry)
unfolding parse_entry
parse_entry-IsValid vc entry v = elim (Option-cases (cut_at colon entry)) [
  | inl skipped ↦ rw (skipped, parse_entry) v
  | inr ((node, tail), e) ↦ elim (Bool-cases (is_empty node)) [
    | inl unnamed ↦ rw (e, parse_entry, unnamed) v
    | inr named ↦ elim (Bool-cases (is_empty tail)) [
      | inl bare ↦ rw (e, parse_entry, named, bare) v
      | inr more ↦ rw (e, parse_entry, named, more) (parse_tail-IsValid vc node tail v)
    ]
  ]
]

parse_entries-IsValid :
    (vc : VectorClock) (l : List Str) → IsValid vc → IsValid (parse_entries vc l)
unfolding parse_entries
parse_entries-IsValid vc [] v = v
parse_entries-IsValid vc (entry ∷ l) v =
    parse_entries-IsValid (parse_entry vc entry) l (parse_entry-IsValid vc entry v)

-- The clock that is read from any text is well-formed: its nodes are in order, each of them once, and no
-- counter is 0.
pub parse-IsValid : (text : Str) → IsValid (parse text)
unfolding parse
parse-IsValid text = parse_entries-IsValid empty (split comma text) empty-IsValid
