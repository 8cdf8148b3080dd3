-- ===== src/Replica/NeverRegress.antt =====
-- A replica's version never goes back.
use mini_dynamo.Base.{◌≡◌, ◌≢◌, inl, inr, refl, true, false, Option, none, some, arith, Bool-cases}
use mini_dynamo.Text.{Str, str_key, str_eq_iff}
use mini_dynamo.OrdMap.{find, find-insert}
use mini_dynamo.Clock.{Ordering, compare}
use mini_dynamo.Versioned.{VersionedValue, serialize, deserialize}
use mini_dynamo.Versioned.RoundTrip.{IsStorable, deserialize-serialize}
use mini_dynamo.Replica.{
  Storage, put, get, apply_replicate, replace_version, read_local, version_in, is_a_dominates,
}

pub is_a_dominates-true : (o : Ordering) → is_a_dominates o ≡ true → o ≡ Ordering.a_dominates
is_a_dominates-true Ordering.a_dominates e = refl
is_a_dominates-true Ordering.equal e = ground arith
is_a_dominates-true Ordering.b_dominates e = ground arith
is_a_dominates-true Ordering.concurrent e = ground arith

pub is_a_dominates-false : (o : Ordering) → is_a_dominates o ≡ false → o ≢ Ordering.a_dominates
is_a_dominates-false o e q = ground arith

pub read_local-put_same :
    (store : Storage) (key : Str) (v : VersionedValue)
    → IsStorable v
    → read_local (put store key (serialize v)) key ≡ some v
unfolding read_local put get
read_local-put_same store key v w =
    ground (
      arith,
      find-insert key key (serialize v) store,
      str_eq_iff key key,
      deserialize-serialize v w,
    )

pub read_local-put_other :
    (store : Storage) (key k : Str) (bytes : Str)
    → k ≢ key
    → read_local (put store key bytes) k ≡ read_local store k
unfolding read_local put get
read_local-put_other store key k bytes d =
    ground (arith, find-insert key k bytes store, str_eq_iff k key)

read_local-found :
    (store : Storage) (key stored : Str)
    → find key store ≡ some stored
    → read_local store key ≡ some (deserialize stored)
unfolding read_local get
read_local-found store key stored e = rw e refl

-- What a replica holds under the key after a write: the incoming version if it held nothing or held
-- one that does not strictly dominate it, and otherwise still the one it held.
pub data Held (before : Option VersionedValue) (incoming : VersionedValue)
    (after : Option VersionedValue) : Type 0 where
  was_empty : before ≡ none → after ≡ some incoming → Held before incoming after
  was_ahead :
      (held : VersionedValue)
      → before ≡ some held
      → compare held.clock incoming.clock ≡ Ordering.a_dominates
      → after ≡ some held
      → Held before incoming after
  replaced :
      (held : VersionedValue)
      → before ≡ some held
      → compare held.clock incoming.clock ≢ Ordering.a_dominates
      → after ≡ some incoming
      → Held before incoming after

Keeps : Storage → Str → VersionedValue → Option Str → Storage → Type 0
Keeps store key incoming stored after =
    Held (version_in stored) incoming (read_local after key)
    × ((k : Str) → k ≢ key → read_local after k ≡ read_local store k)

put-Keeps :
    (store : Storage) (key : Str) (incoming : VersionedValue) (stored : Str)
    → IsStorable incoming
    → compare (deserialize stored).clock incoming.clock ≢ Ordering.a_dominates
    → Keeps store key incoming (some stored) (put store key (serialize incoming))
unfolding Keeps
put-Keeps store key incoming stored v d = (
  replaced (deserialize stored) refl d (read_local-put_same store key incoming v),
  λ k n. read_local-put_other store key k (serialize incoming) n,
)

replace_version-Keeps :
    (store : Storage) (key : Str) (incoming : VersionedValue) (stored : Option Str)
    → IsStorable incoming
    → find key store ≡ stored
    → Keeps store key incoming stored (replace_version store key incoming stored).0
unfolding replace_version Keeps
replace_version-Keeps store key incoming none v e = (
  was_empty refl (read_local-put_same store key incoming v),
  λ k d. read_local-put_other store key k (serialize incoming) d,
)
replace_version-Keeps store key incoming (some stored) v e =
    elim (Bool-cases (is_a_dominates (compare (deserialize stored).clock incoming.clock))) [
      | inl t ↦ rw t (
        was_ahead (deserialize stored) refl
            (is_a_dominates-true (compare (deserialize stored).clock incoming.clock) t)
            (read_local-found store key stored e),
        λ k d. refl,
      )
      | inr f ↦ rw f (
          put-Keeps store key incoming stored v
            (is_a_dominates-false (compare (deserialize stored).clock incoming.clock) f))
    ]

-- After a replicated write of a version that can be stored, the replica reads back the incoming version,
-- unless it held one that strictly dominates it, which it then still reads back; and every other key
-- reads as before.
pub apply_replicate_keeps :
    (store : Storage) (key : Str) (incoming : VersionedValue)
    → IsStorable incoming
    → Held (read_local store key) incoming (read_local (apply_replicate store key incoming).0 key)
      × ((k : Str)
          → k ≢ key
          → read_local (apply_replicate store key incoming).0 k ≡ read_local store k)
unfolding apply_replicate read_local get Keeps
apply_replicate_keeps store key incoming v =
    replace_version-Keeps store key incoming (find key store) v refl
