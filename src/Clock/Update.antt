-- ===== src/Clock/Update.antt =====
-- What `set` and `increment` do to a clock, and operator==.
use mini_dynamo.Base.{ℕ, ◌+◌, ◌<◌, ◌≡◌, inl, inr, arith, if◌then◌else◌, ◌==◌, Bool-cases, two64}
use mini_dynamo.Text.{Str, str_key, str_eq}
use mini_dynamo.OrdMap.{find, find-insert, find-erase, insert-Sorted, erase-Sorted}
use mini_dynamo.OrdMap.Entries.{All-insert, All-erase}
use mini_dynamo.Clock.{VectorClock, counter_of, get, set, increment, next_counter, IsValid, empty}

pub get-set :
    (vc : VectorClock) (node k : Str) (c ms : ℕ)
    → get (set vc node c ms) k ≡ (if str_eq k node then c else get vc k)
unfolding get set
get-set vc node k c ms = ground (
  arith,
  find-insert node k (record { counter = c; updated_ms = ms }) vc.counts,
  find-erase node k vc.counts,
)

pub set-IsValid :
    (vc : VectorClock) (node : Str) (c ms : ℕ) → IsValid vc → IsValid (set vc node c ms)
unfolding set
set-IsValid vc node c ms v = elim (Bool-cases (c == 0)) [
  | inl zeroed ↦
      rw (zeroed, set)
        (record {
          sorted = erase-Sorted node vc.counts v.sorted;
          positive = All-erase _ node vc.counts v.positive;
        })
  | inr kept ↦
      rw (kept, set)
        (record {
          sorted = insert-Sorted node _ vc.counts v.sorted;
          positive = All-insert _ node _ vc.counts (ground arith) v.positive;
        })
]

pub empty-IsValid : IsValid empty
empty-IsValid = record { sorted = tt; positive = tt }

-- An increment raises the counter of its node by one, and no other, as long as the counter does not wrap.
pub get-increment :
    (vc : VectorClock) (node k : Str) (now : ℕ)
    → get vc node + 1 < two64
    → get (increment vc node now) k ≡ (if str_eq k node then get vc node + 1 else get vc k)
unfolding get increment
get-increment vc node k now h = ground (
  arith,
  find-insert node k
      (record { counter = next_counter (counter_of (find node vc.counts)); updated_ms = now })
      vc.counts,
)

pub increment-IsValid :
    (vc : VectorClock) (node : Str) (now : ℕ)
    → get vc node + 1 < two64
    → IsValid vc
    → IsValid (increment vc node now)
unfolding get increment
increment-IsValid vc node now h v = record {
  sorted = insert-Sorted node _ vc.counts v.sorted;
  positive = All-insert _ node _ vc.counts (ground arith) v.positive;
}
