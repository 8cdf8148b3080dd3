-- ===== src/Clock.antt =====
-- src/vector_clock.h and src/vector_clock.cpp: the clock, its counters and what the program does with
-- them. The wall clock of `nowMs` is an argument of each operation that reads it. Counters and
-- times are uint64_t: the one sum wraps. The proofs are in the modules below.
pub mod Wire
pub mod Loops
pub mod Order
pub mod Update
pub mod Merge
pub mod Ages
pub mod Cut
pub mod Prune
mod Examples
use mini_dynamo.Base.{
  ℕ, ◌+◌, ◌-◌, ◌%◌, ◌<◌, Bool, true, false, ◌&&◌, not, Option, none, some, List, [], ◌∷◌, map, ltb,
  leb, ◌==◌, if◌then◌else◌, length, take, All, two64,
}
use mini_dynamo.Text.{Str, str_key, str_eq, str_lt}
use mini_dynamo.OrdMap.{Map, find, insert, erase, Sorted}

pub data Ordering : Type 0 where
  equal a_dominates b_dominates concurrent : Ordering

pub record Entry : Type 0 where
  pub counter : ℕ
  pub updated_ms : ℕ

pub record VectorClock : Type 0 where
  pub counts : Map Str Entry

abbrev pub empty : VectorClock
empty = record { counts = [] }

abbrev pub counter_of : Option Entry → ℕ
counter_of none = 0
counter_of (some e) = e.counter

unfoldable pub get : VectorClock → Str → ℕ
get vc node = counter_of (find node vc.counts)

unfoldable pub size : VectorClock → ℕ
size vc = length vc.counts

-- A counter of zero is never stored.
unfoldable pub set : VectorClock → Str → ℕ → ℕ → VectorClock
set vc node counter ms =
    if counter == 0
    then record { counts = erase node vc.counts }
    else record { counts = insert node (record { counter = counter; updated_ms = ms }) vc.counts }

abbrev pub next_counter : ℕ → ℕ
next_counter c = (c + 1) % two64

pub increment : VectorClock → Str → ℕ → VectorClock
increment vc node now = record {
  counts =
      insert node
        (record { counter = next_counter (counter_of (find node vc.counts)); updated_ms = now })
        vc.counts;
}

-- The first loop of `compare`, over the entries of `a`.
pub walk_a : VectorClock → Map Str Entry → Bool → Bool → Bool × Bool
walk_a b [] ag bg = (ag, bg)
walk_a b ((k, e) ∷ m) ag bg =
    let bv = get b k in
    walk_a b m (if ltb bv e.counter then true else ag)
      (if ltb bv e.counter then bg else if ltb e.counter bv then true else bg)

abbrev pub is_some {ℓ} : {A : Type ℓ} → Option A → Bool
is_some none = false
is_some (some a) = true

-- The second loop, over the entries of `b` that `a` does not have.
pub walk_b : VectorClock → Map Str Entry → Bool → Bool
walk_b a [] bg = bg
walk_b a ((k, e) ∷ m) bg = walk_b a m (if is_some (find k a.counts) then bg else true)

abbrev pub classify : Bool → Bool → Ordering
classify false false = Ordering.equal
classify true false = Ordering.a_dominates
classify false true = Ordering.b_dominates
classify true true = Ordering.concurrent

unfoldable pub compare : VectorClock → VectorClock → Ordering
unfolding walk_a walk_b get
compare a b = let (ag, bg) = walk_a b a.counts false false in classify ag (walk_b a b.counts bg)

merge_into : VectorClock → Map Str Entry → VectorClock
merge_into out [] = out
merge_into out ((k, e) ∷ m) =
    merge_into
      (if ltb (get out k) e.counter then record { counts = insert k e out.counts } else out) m

pub merge : VectorClock → VectorClock → VectorClock
unfolding merge_into get
merge a b = merge_into a b.counts

abbrev same_entry : Entry → Option Entry → Bool
same_entry e none = false
same_entry e (some x) = x.counter == e.counter

-- The loop of operator==.
pub same_counters : VectorClock → Map Str Entry → Bool
same_counters other [] = true
same_counters other ((k, e) ∷ m) =
    if same_entry e (find k other.counts) then same_counters other m else false

pub equals : VectorClock → VectorClock → Bool
unfolding size same_counters
equals a b = if size a == size b then same_counters b a.counts else false

-- std::pair<uint64_t, string>, ordered by the time and then by the node's name.
abbrev pub Age : Type 0
Age = ℕ × Str

pub age_le : Age → Age → Bool
age_le (t, n) (u, m) = if ltb t u then true else if ltb u t then false else not (str_lt m n)

pub place : Age → List Age → List Age
place a [] = a ∷ []
place a (b ∷ l) = let rest = place a l in if age_le a b then a ∷ b ∷ l else b ∷ rest

-- std::sort on the ages.
pub sort : List Age → List Age
unfolding place age_le
sort [] = []
sort (a ∷ l) = place a (sort l)

pub by_age : Map Str Entry → List Age
by_age [] = []
by_age ((k, e) ∷ m) = (e.updated_ms, k) ∷ by_age m

pub erase_all : List Age → Map Str Entry → Map Str Entry
erase_all [] m = m
erase_all ((t, n) ∷ l) m = erase_all l (erase n m)

-- Drops the oldest entries until `max_entries` are left.
unfoldable pub prune : ℕ → VectorClock → VectorClock
unfolding size sort by_age erase_all
prune max_entries vc = if leb (size vc) max_entries then vc else record {
  counts = erase_all (take (size vc - max_entries) (sort (by_age vc.counts))) vc.counts;
}

-- What every clock of the program keeps: the order of the map, and no stored zero.
pub record IsValid (vc : VectorClock) : Type 0 where
  pub sorted : Sorted vc.counts
  pub positive : All (λ (kv : Str × Entry). 0 < kv.1.counter) vc.counts
