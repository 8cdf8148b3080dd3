-- ===== src/Hints/Rounds.antt =====
-- The body of the loop of `HandoffThread::run` in src/hints/handoff_thread.cpp, and what a round leaves.
use mini_dynamo.Base.{
  filter, leb, ◌-◌, subst, ap, none, some, ℕ, ◌+◌, ◌%◌, ◌≡◌, refl, sym, ◌∙◌, Bool, true, false,
  List, [], ◌∷◌, ◌++◌, if◌then◌else◌, length, arith, two64,
}
use mini_dynamo.Text.{Str, str_key, str_eq}
use mini_dynamo.OrdMap.{Sorted, find, erase, erase-Sorted}
use mini_dynamo.NodeInfo.{NodeInfo}
use mini_dynamo.Hints.{
  Hint, HintStore, hints_for, drain, fresh, expire_old, Answers, redeliver, deliver_for,
}
use mini_dynamo.Hints.Kept.{expire_old_keeps, hints_for-drain}

pub record HandoffThread : Type 0 where
  pub hint_store : HintStore
  pub recovery_queue : List NodeInfo
  pub delivered : ℕ

unfoldable pub notify_recovery : HandoffThread → NodeInfo → HandoffThread
notify_recovery h recovered = record h { recovery_queue = h.recovery_queue ++ recovered ∷ [] }

-- The loop over the targets; the i-th meets `answers i`.
unfoldable pub deliver_all : (ℕ → Answers) → ℕ → List NodeInfo → HintStore → ℕ → HintStore × ℕ
deliver_all answers i [] hs delivered = (hs, delivered)
deliver_all answers i (target ∷ l) hs delivered =
    let (hs', n) = deliver_for (answers i) hs target.node_id in
    deliver_all answers (i + 1) l hs' ((delivered + n) % two64)

-- The queue is taken, delivered to, and the old hints go.
unfoldable pub handoff_round : (ℕ → Answers) → ℕ → HandoffThread → HandoffThread
unfolding deliver_all
handoff_round answers now h =
    let (hs, delivered) = deliver_all answers 0 h.recovery_queue h.hint_store h.delivered in
    record { hint_store = expire_old hs now; recovery_queue = []; delivered = delivered }

unfoldable pub named : Str → List NodeInfo → Bool
named k [] = false
named k (target ∷ l) = if str_eq k target.node_id then true else named k l

-- Every delivery is answered.
abbrev pub AllDelivered : (ℕ → Answers) → Type 0
AllDelivered answers = (t i : ℕ) → (answers t i).0 ≡ true

redeliver_none :
    (answers : Answers) (i : ℕ) (target : Str) (l : List Hint) (hs : HintStore) (delivered : ℕ)
    → ((i : ℕ) → (answers i).0 ≡ true)
    → redeliver answers i target l hs delivered ≡ (hs, delivered + length l)
unfolding redeliver
redeliver_none answers i target [] hs delivered acks = ground arith
redeliver_none answers i target (h ∷ l) hs delivered acks = rw (acks i) (
    redeliver_none answers (i + 1) target l hs (delivered + 1) acks
    ∙ ap (λ n. (hs, n)) (omega arith))

deliver_for_drains :
    (answers : Answers) (hs : HintStore) (target : Str)
    → ((i : ℕ) → (answers i).0 ≡ true)
    → (deliver_for answers hs target).0 ≡ (drain hs target).0
unfolding deliver_for
deliver_for_drains answers hs target acks =
    ap (λ r. r.0) (redeliver_none answers 0 target (drain hs target).1 (drain hs target).0 0 acks)

drain-Sorted : (hs : HintStore) (target : Str) → Sorted hs.hints → Sorted (drain hs target).0.hints
unfolding drain
drain-Sorted hs target s =
    elim (find target hs.hints)
      as (λ o.
        Sorted
          (elim o as (λ x. HintStore × List Hint) [
            | none ↦ (hs, [])
            | some list ↦ (record hs { hints = erase target hs.hints }, list)
          ]).0.hints) [ none ↦ s | some list ↦ erase-Sorted target hs.hints s ]

ttl-drain : (hs : HintStore) (target : Str) → (drain hs target).0.ttl ≡ hs.ttl
unfolding drain
ttl-drain hs target = ground arith

deliver_all_empties :
    (answers : ℕ → Answers) (i : ℕ) (l : List NodeInfo) (hs : HintStore) (delivered : ℕ)
    → AllDelivered answers
    → Sorted hs.hints
    → Sorted (deliver_all answers i l hs delivered).0.hints
      × ((deliver_all answers i l hs delivered).0.ttl ≡ hs.ttl)
      × ((k : Str)
          → hints_for (deliver_all answers i l hs delivered).0 k
            ≡ (if named k l then [] else hints_for hs k))
unfolding deliver_all named
deliver_all_empties answers i [] hs delivered acks s = (s, refl, λ k. refl)
deliver_all_empties answers i (target ∷ l) hs delivered acks s =
    let id = target.node_id in
    let (hs', n) = deliver_for (answers i) hs id in
    let drained = deliver_for_drains (answers i) hs id (acks i) in
    let (s', same, left) =
      deliver_all_empties answers (i + 1) l hs' ((delivered + n) % two64) acks
        (subst (λ x. Sorted x.hints) (sym drained) (drain-Sorted hs id s)) in
    (
      s',
      same ∙ ap (λ x. x.ttl) drained ∙ ttl-drain hs id,
      λ k. ground (arith, left k, ap (λ x. hints_for x k) drained, hints_for-drain hs id k),
    )

young :
    (ttl now : ℕ) (l : List Hint)
    → fresh ttl now l ≡ filter (λ hint. leb (now - hint.created_at) ttl) l
unfolding fresh
young ttl now [] = refl
young ttl now (h ∷ l) = ground (arith, young ttl now l)

-- A round in which every delivery is answered: the queue is empty, no node of the queue has a hint
-- left, and any other node keeps those of its hints that are not older than the time to live, in
-- their order; the targets of the store are in key order.
pub handoff_round_empties :
    (answers : ℕ → Answers) (now : ℕ) (h : HandoffThread) (k : Str)
    → AllDelivered answers
    → Sorted h.hint_store.hints
    → ((handoff_round answers now h).recovery_queue ≡ [])
      × (hints_for (handoff_round answers now h).hint_store k ≡ (
          if named k h.recovery_queue
          then []
          else filter
              (λ hint. leb (now - hint.created_at) h.hint_store.ttl)
              (hints_for h.hint_store k)))
unfolding handoff_round
handoff_round_empties answers now h k acks s =
    let (s', same, left) =
      deliver_all_empties answers 0 h.recovery_queue h.hint_store h.delivered acks s in
    let hs = (deliver_all answers 0 h.recovery_queue h.hint_store h.delivered).0 in
    (
      refl,
      ground (arith, left k, expire_old_keeps hs now k s', same, young hs.ttl now (hints_for hs k)),
    )
