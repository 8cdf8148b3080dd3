-- ===== src/Hints.antt =====
-- src/hints/hint_store.h, src/hints/hint_store.cpp and src/hints/handoff_thread.cpp: the writes kept for nodes that are down,
-- and their delivery. The steady clock is an argument, in milliseconds. The hash map is kept in
-- key order; nothing reads its order.
pub mod Kept
pub mod Handoff
pub mod Rounds
mod Examples
use mini_dynamo.Base.{
  ℕ, zero, suc, ◌+◌, ◌-◌, Bool, true, false, Option, none, some, List, [], ◌∷◌, ◌++◌, ltb, leb,
  if◌then◌else◌, length,
}
use mini_dynamo.Text.{Str, str_key}
use mini_dynamo.OrdMap.{Map, find, insert, erase}
use mini_dynamo.NodeInfo.{NodeInfo}
use mini_dynamo.Versioned.{VersionedValue}

pub record Hint : Type 0 where
  pub target_node_id : Str
  pub key : Str
  pub value : VersionedValue
  pub created_at : ℕ

pub record HintStore : Type 0 where
  pub ttl : ℕ
  pub max_per_target : ℕ
  pub hints : Map Str (List Hint)

abbrev pub listed : Option (List Hint) → List Hint
listed none = []
listed (some l) = l

unfoldable pub hints_for : HintStore → Str → List Hint
hints_for hs target = listed (find target hs.hints)

-- At the cap the hint is dropped.
abbrev pub push_capped : ℕ → Hint → List Hint → List Hint
push_capped cap h list = if leb cap (length list) then list else list ++ h ∷ []

unfoldable pub store : HintStore → ℕ → Str → Str → VersionedValue → HintStore
unfolding hints_for
store hs now target key value = record hs {
  hints =
      insert target
        (push_capped hs.max_per_target
          (record { target_node_id = target; key = key; value = value; created_at = now })
          (hints_for hs target))
        hs.hints;
}

unfoldable pub drain : HintStore → Str → HintStore × List Hint
unfolding hints_for
drain hs target = elim (find target hs.hints) [
  | none ↦ (hs, [])
  | some list ↦ (record hs { hints = erase target hs.hints }, list)
]

pub drop_target : HintStore → Str → HintStore × ℕ
drop_target hs target = elim (find target hs.hints) [
  | none ↦ (hs, 0)
  | some list ↦ (record hs { hints = erase target hs.hints }, length list)
]

-- std::remove_if of the hints that are older than the time to live.
unfoldable pub fresh : ℕ → ℕ → List Hint → List Hint
fresh ttl now [] = []
fresh ttl now (h ∷ l) =
    let rest = fresh ttl now l in if ltb ttl (now - h.created_at) then rest else h ∷ rest

abbrev pub keep_filled : Str → List Hint → Map Str (List Hint) → Map Str (List Hint)
keep_filled target [] m = m
keep_filled target (h ∷ l) m = (target, h ∷ l) ∷ m

-- A target with no hint left goes.
pub expire_all : ℕ → ℕ → Map Str (List Hint) → Map Str (List Hint)
unfolding fresh
expire_all ttl now [] = []
expire_all ttl now ((target, list) ∷ m) =
    keep_filled target (fresh ttl now list) (expire_all ttl now m)

pub expire_old : HintStore → ℕ → HintStore
unfolding expire_all
expire_old hs now = record hs { hints = expire_all hs.ttl now hs.hints }

pub total : Map Str (List Hint) → ℕ
total [] = 0
total ((target, list) ∷ m) = length list + total m

pub hint_count : HintStore → ℕ
unfolding total
hint_count hs = total hs.hints

pub hint_count_for : HintStore → Str → ℕ
unfolding hints_for
hint_count_for hs target = length (hints_for hs target)

-- What the i-th delivery of a round answers, and when a failed one is stored again.
abbrev pub Answers : Type 0
Answers = ℕ → Bool × ℕ

-- The loop of `deliverFor`, with the number of deliveries.
pub redeliver : Answers → ℕ → Str → List Hint → HintStore → ℕ → HintStore × ℕ
unfolding store
redeliver answers i target [] hs delivered = (hs, delivered)
redeliver answers i target (h ∷ l) hs delivered =
    redeliver answers (i + 1) target l
      (if (answers i).0 then hs else store hs (answers i).1 target h.key h.value)
      (if (answers i).0 then delivered + 1 else delivered)

pub deliver_for : Answers → HintStore → Str → HintStore × ℕ
unfolding redeliver drain
deliver_for answers hs target =
    let (drained, list) = drain hs target in redeliver answers 0 target list drained 0
