-- ===== src/Hints/Kept.antt =====
-- What a hint store keeps for each target, call by call.
use mini_dynamo.Base.{
  ℕ, ◌+◌, ◌≤◌, ◌≡◌, ◌≢◌, refl, true, List, [], ◌∷◌, leb, if◌then◌else◌, length, arith,
  length-append,
}
use mini_dynamo.Text.{Str, str_key, str_eq, str_eq_iff}
use mini_dynamo.OrdMap.{Map, find, find-insert, find-erase, Sorted, find-Above, Above}
use mini_dynamo.Versioned.{VersionedValue}
use mini_dynamo.Hints.{
  Hint, HintStore, hints_for, listed, push_capped, store, drain, fresh, keep_filled, expire_all,
  expire_old, hint_count_for,
}

abbrev pub hint : Str → Str → VersionedValue → ℕ → Hint
hint target key value now = record {
  target_node_id = target;
  key = key;
  value = value;
  created_at = now;
}

length-push :
    (cap : ℕ) (h : Hint) (l : List Hint)
    → length (push_capped cap h l) ≡ (if leb cap (length l) then length l else length l + 1)
length-push cap h l = ground (arith, length-append l (h ∷ []))

pub cap-store :
    (hs : HintStore) (now : ℕ) (target key : Str) (value : VersionedValue)
    → (store hs now target key value).max_per_target ≡ hs.max_per_target
unfolding store
cap-store hs now target key value = refl

pub hints_for-store :
    (hs : HintStore) (now : ℕ) (target key k : Str) (value : VersionedValue)
    → hints_for (store hs now target key value) k ≡ (
        if str_eq k target
        then push_capped hs.max_per_target
            (record { target_node_id = target; key = key; value = value; created_at = now })
            (hints_for hs target)
        else hints_for hs k)
unfolding hints_for store
hints_for-store hs now target key k value = ground (
  arith,
  find-insert target k
      (push_capped hs.max_per_target
        (record { target_node_id = target; key = key; value = value; created_at = now })
        (hints_for hs target))
      hs.hints,
)

pub hints_for-drain :
    (hs : HintStore) (target k : Str)
    → hints_for (drain hs target).0 k ≡ (if str_eq k target then [] else hints_for hs k)
unfolding hints_for drain
hints_for-drain hs target k = ground (arith, find-erase target k hs.hints, str_eq_iff k target)

pub drain-list : (hs : HintStore) (target : Str) → (drain hs target).1 ≡ hints_for hs target
unfolding hints_for drain
drain-list hs target = ground arith

-- No target has more hints than the cap.
abbrev pub IsBounded : HintStore → Type 0
IsBounded hs = (k : Str) → length (hints_for hs k) ≤ hs.max_per_target

-- A store keeps within the cap the hints of each target; under the cap it adds the new hint behind those
-- there are, and at the cap it leaves them; the hints of other targets stay as they are.
pub store-IsBounded :
    (hs : HintStore) (now : ℕ) (target key : Str) (value : VersionedValue)
    → IsBounded hs
    → IsBounded (store hs now target key value)
      × (hint_count_for (store hs now target key value) target ≡ (
          if leb hs.max_per_target (hint_count_for hs target)
          then hint_count_for hs target
          else hint_count_for hs target + 1))
      × ((k : Str) → k ≢ target → hints_for (store hs now target key value) k ≡ hints_for hs k)
unfolding hint_count_for
store-IsBounded hs now target key value b = (
  λ k. ground (
    arith,
    hints_for-store hs now target key k value,
    b k,
    b target,
    cap-store hs now target key value,
    length-push hs.max_per_target (hint target key value now) (hints_for hs target),
  ),
  ground (
    arith,
    hints_for-store hs now target key target value,
    str_eq_iff target target,
    length-push hs.max_per_target (hint target key value now) (hints_for hs target),
  ),
  λ k d. ground (arith, hints_for-store hs now target key k value, str_eq_iff k target),
)

-- The hints of the target that are not older than the time to live stay, in their order.
listed-keep_filled :
    (k target : Str) (l : List Hint) (m : Map Str (List Hint))
    → Above target m
    → listed (find k (keep_filled target l m)) ≡ (if str_eq k target then l else listed (find k m))
unfolding find
listed-keep_filled k target [] m a = ground (arith, find-Above target m a, str_eq_iff k target)
listed-keep_filled k target (h ∷ l) m a = ground arith

Above-keep_filled :
    (a target : Str) (l : List Hint) (m : Map Str (List Hint))
    → str_key.lt a target ≡ true
    → Above a m
    → Above a (keep_filled target l m)
Above-keep_filled a target [] m h g = g
Above-keep_filled a target (x ∷ l) m h g = (h, g)

Above-expire_all :
    (a : Str) (ttl now : ℕ) (m : Map Str (List Hint)) → Above a m → Above a (expire_all ttl now m)
unfolding expire_all
Above-expire_all a ttl now [] h = tt
Above-expire_all a ttl now ((t, l) ∷ m) h =
    Above-keep_filled a t (fresh ttl now l) (expire_all ttl now m) h.0
      (Above-expire_all a ttl now m h.1)

listed-expire_all :
    (ttl now : ℕ) (k : Str) (m : Map Str (List Hint))
    → Sorted m
    → listed (find k (expire_all ttl now m)) ≡ fresh ttl now (listed (find k m))
unfolding expire_all find fresh
listed-expire_all ttl now k [] s = refl
listed-expire_all ttl now k ((t, l) ∷ m) s = ground (
  arith,
  listed-keep_filled k t (fresh ttl now l) (expire_all ttl now m)
      (Above-expire_all t ttl now m s.0),
  listed-expire_all ttl now k m s.1,
)

-- An expiry leaves each target those of its hints that are not older than the time to live, in their
-- order, and no other; the targets are in key order.
pub expire_old_keeps :
    (hs : HintStore) (now : ℕ) (k : Str)
    → Sorted hs.hints
    → hints_for (expire_old hs now) k ≡ fresh hs.ttl now (hints_for hs k)
unfolding expire_old hints_for
expire_old_keeps hs now k s = listed-expire_all hs.ttl now k hs.hints s
