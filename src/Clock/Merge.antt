-- ===== src/Clock/Merge.antt =====
-- `merge` is the element-wise maximum, the least clock that has seen all that both have.
use mini_dynamo.Base.{◌<◌, ◌≡◌, inl, inr, [], ◌∷◌, arith, if◌then◌else◌, ltb, Bool-cases, All, max}
use mini_dynamo.Text.{Str, str_key, str_eq, str_eq_iff}
use mini_dynamo.OrdMap.{Map, find, insert, Sorted, find-insert, insert-Sorted, find-Above}
use mini_dynamo.OrdMap.Entries.{All-insert}
use mini_dynamo.Clock.{
  equal, Entry, VectorClock, counter_of, get, merge, merge_into, IsValid, compare,
}
use mini_dynamo.Clock.Loops.{Le}
use mini_dynamo.Clock.Order.{compare_of_Means}

get-step :
    (out : VectorClock) (k j : Str) (e : Entry)
    → get (if ltb (get out k) e.counter then record { counts = insert k e out.counts } else out) j
      ≡ (if str_eq j k then max (get out k) e.counter else get out j)
unfolding get
get-step out k j e = ground (arith, find-insert k j e out.counts, str_eq_iff j k)

get-merge_into :
    (out : VectorClock) (m : Map Str Entry) (k : Str)
    → Sorted m
    → get (merge_into out m) k ≡ max (get out k) (counter_of (find k m))
unfolding merge_into find
get-merge_into out [] k s = ground arith
get-merge_into out ((j, e) ∷ m) k s = ground (
  arith,
  get-merge_into
      (if ltb (get out j) e.counter then record { counts = insert j e out.counts } else out) m k
      s.1,
  get-step out j k e,
  str_eq_iff k j,
  find-Above j m s.0,
)

-- The merged counter of each node is the larger of the two, where `b` is in key order.
pub get-merge :
    (a b : VectorClock) (k : Str) → IsValid b → get (merge a b) k ≡ max (get a k) (get b k)
unfolding merge
get-merge a b k w = unfold get in get-merge_into a b.counts k w.sorted

merge_into-IsValid :
    (out : VectorClock) (m : Map Str Entry)
    → IsValid out
    → All (λ (kv : Str × Entry). 0 < kv.1.counter) m
    → IsValid (merge_into out m)
unfolding merge_into
merge_into-IsValid out [] v p = v
merge_into-IsValid out ((k, e) ∷ m) v p = elim (Bool-cases (ltb (get out k) e.counter)) [
  | inl wins ↦ rw wins (
      merge_into-IsValid (record { counts = insert k e out.counts }) m
        (record {
          sorted = insert-Sorted k e out.counts v.sorted;
          positive = All-insert _ k e out.counts p.0 v.positive;
        })
        p.1)
  | inr loses ↦ rw loses (merge_into-IsValid out m v p.1)
]

pub merge-IsValid : (a b : VectorClock) → IsValid a → IsValid b → IsValid (merge a b)
unfolding merge
merge-IsValid a b v w = merge_into-IsValid a b.counts v w.positive

-- The merged clock has seen all that both clocks have, and every clock that has seen as much has
-- seen all of it: `merge` is the least upper bound of the causal order.
pub merge_least :
    (a b : VectorClock)
    → IsValid b
    → Le a (merge a b) × Le b (merge a b) × ((c : VectorClock) → Le a c → Le b c → Le (merge a b) c)
merge_least a b w = (
  λ k. omega (arith, get-merge a b k w),
  λ k. omega (arith, get-merge a b k w),
  λ c l m k. omega (arith, get-merge a b k w, l k, m k),
)

-- In either order two clocks merge to the same history, as `compare` sees it.
pub compare-merge :
    (a b : VectorClock) → IsValid a → IsValid b → compare (merge a b) (merge b a) ≡ equal
compare-merge a b v w =
    compare_of_Means equal (merge a b) (merge b a) (merge-IsValid a b v w) (merge-IsValid b a w v) (
      λ k. omega (arith, get-merge a b k w, get-merge b a k v),
      λ k. omega (arith, get-merge a b k w, get-merge b a k v),
    )
