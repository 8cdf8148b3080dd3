-- ===== src/Versioned/Valid.antt =====
-- The clock of whatever is read from a store.
use mini_dynamo.Base.{inl, inr, Option-cases}
use mini_dynamo.Text.{Str}
use mini_dynamo.Text.Split.{cut_at}
use mini_dynamo.Base64.{decode}
use mini_dynamo.Clock.{IsValid}
use mini_dynamo.Clock.Update.{empty-IsValid}
use mini_dynamo.Clock.Wire.Valid.{parse-IsValid}
use mini_dynamo.Versioned.{bar, read_rest, deserialize}

read_rest-IsValid : (payload rest : Str) → IsValid (read_rest payload rest).clock
unfolding read_rest
read_rest-IsValid payload rest = elim (Option-cases (cut_at bar rest)) [
  | inl whole ↦ rw (whole, read_rest) (parse-IsValid rest)
  | inr ((clock, flag), e) ↦ rw (e, read_rest) (parse-IsValid clock)
]

pub deserialize-IsValid : (stored : Str) → IsValid (deserialize stored).clock
unfolding deserialize
deserialize-IsValid stored = elim (Option-cases (cut_at bar stored)) [
  | inl bare ↦ rw (bare, deserialize) empty-IsValid
  | inr ((payload, rest), e) ↦ rw (e, deserialize) (read_rest-IsValid (decode payload) rest)
]
