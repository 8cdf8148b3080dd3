-- ===== src/Replica.antt =====
-- src/storage/in_memory_storage.cpp and src/replica_ops.cpp: the byte store of a node, and what a replica
-- does with a coordinator's write or read. The hash map is kept in key order; nothing reads its order.
pub mod NeverRegress
pub mod Verbs
mod Examples
use mini_dynamo.Base.{ℕ, Bool, true, false, Option, none, some, [], ◌∷◌, if◌then◌else◌}
use mini_dynamo.Text.{Str, str_key}
use mini_dynamo.OrdMap.{Map, find, insert}
use mini_dynamo.Clock.{VectorClock, Ordering, compare}
use mini_dynamo.Versioned.{VersionedValue, serialize, deserialize}

abbrev pub Storage : Type 0
Storage = Map Str Str

unfoldable pub put : Storage → Str → Str → Storage
put store key value = insert key value store

unfoldable pub get : Storage → Str → Option Str
get store key = find key store

-- forEach, with what the callback changes passed through.
unfoldable pub for_each {ℓ} : {S : Type ℓ} → Storage → (S → Str → Str → S) → S → S
for_each [] fn s = s
for_each ((key, value) ∷ store) fn s = for_each store fn (fn s key value)

abbrev pub is_a_dominates : Ordering → Bool
is_a_dominates Ordering.a_dominates = true
is_a_dominates Ordering.equal = false
is_a_dominates Ordering.b_dominates = false
is_a_dominates Ordering.concurrent = false

pub replace_version : Storage → Str → VersionedValue → Option Str → Storage × Bool
unfolding put
replace_version store key incoming none = (put store key (serialize incoming), true)
replace_version store key incoming (some stored) =
    if is_a_dominates (compare (deserialize stored).clock incoming.clock)
    then (store, false)
    else (put store key (serialize incoming), true)

pub apply_replicate : Storage → Str → VersionedValue → Storage × Bool
unfolding replace_version get
apply_replicate store key incoming = replace_version store key incoming (get store key)

abbrev pub version_in : Option Str → Option VersionedValue
version_in none = none
version_in (some stored) = some (deserialize stored)

unfoldable pub read_local : Storage → Str → Option VersionedValue
unfolding get
read_local store key = version_in (get store key)
