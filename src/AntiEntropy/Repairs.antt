-- ===== src/AntiEntropy/Repairs.antt =====
-- What an exchange does to the store: a version is replaced by one that supersedes it, or stays.
use mini_dynamo.Base.{
  ℕ, ◌≡◌, refl, ap, sym, ◌∙◌, inl, inr, Option, none, some, List, [], ◌∷◌, ◌==◌, arith, Bool-cases,
  Option-cases, All, subst,
}
use mini_dynamo.Text.{Str, str_key, str_eq, str_eq_iff}
use mini_dynamo.OrdMap.{find, find-insert}
use mini_dynamo.NodeInfo.{NodeInfo}
use mini_dynamo.Clock.{Ordering, compare}
use mini_dynamo.Clock.Order.{compare_trans}
use mini_dynamo.Versioned.{VersionedValue, serialize, deserialize}
use mini_dynamo.Versioned.RoundTrip.{IsStorable, deserialize-serialize}
use mini_dynamo.Versioned.Valid.{deserialize-IsValid}
use mini_dynamo.Replica.{put, get}
use mini_dynamo.Ring.{get_all_physical_nodes}
use mini_dynamo.AntiEntropy.Merkle.{DiffRange, root_hash, diff}
use mini_dynamo.AntiEntropy.{
  AntiEntropy, Pull, Exchange, take_in, by_order, with_held, merge_key, merge_keys, merge_ranges,
  apply_diffs, sync_with, tick, build_local_tree, peers_of, pick_from,
}

-- What is stored under a key stays, comes where nothing was, or gives way to what supersedes it.
pub data Forward (before after : Option Str) : Type 0 where
  stays : after ≡ before → Forward before after
  comes : (s : Str) → before ≡ none → after ≡ some s → Forward before after
  gives_way :
      (old new : Str)
      → before ≡ some old
      → after ≡ some new
      → compare (deserialize new).clock (deserialize old).clock ≡ Ordering.a_dominates
      → Forward before after

some_both : {x y : Str} {o : Option Str} → o ≡ some x → o ≡ some y → x ≡ y
some_both p q = ground (arith, p, q)

Forward-trans : {a b c : Option Str} → Forward a b → Forward b c → Forward a c
Forward-trans {a} {b} {c} (stays p) g = subst (λ x. Forward x c) p g
Forward-trans {a} {b} {c} (comes s e f) (stays q) = comes s e (q ∙ f)
Forward-trans {a} {b} {c} (comes s e f) (comes t g h) = comes t e h
Forward-trans {a} {b} {c} (comes s e f) (gives_way o n g h d) = comes n e h
Forward-trans {a} {b} {c} (gives_way o n e f d) (stays q) = gives_way o n e (q ∙ f) d
Forward-trans {a} {b} {c} (gives_way o n e f d) (comes t g h) = absurd (ground (arith, f, g))
Forward-trans {a} {b} {c} (gives_way o n e f d) (gives_way o' n' g h d') =
    let same = some_both f g in
    gives_way o n' e h (
      compare_trans (deserialize n').clock (deserialize n).clock (deserialize o).clock
        (deserialize-IsValid n') (deserialize-IsValid n) (deserialize-IsValid o)
        (subst (λ x. compare (deserialize n').clock (deserialize x).clock ≡ Ordering.a_dominates)
          (sym same) d')
        d)

-- The store of one node goes forward to that of the other.
abbrev pub AllForward : AntiEntropy → AntiEntropy → Type 0
AllForward ae later = (k : Str) → Forward (get ae.storage k) (get later.storage k)

take_in-Forward :
    (ae : AntiEntropy) (key : Str) (remote : VersionedValue)
    → ((s : Str)
        → get ae.storage key ≡ some s
        → compare (deserialize (serialize remote)).clock (deserialize s).clock
          ≡ Ordering.a_dominates)
    → AllForward ae (take_in ae key remote)
unfolding get put
take_in-Forward ae key remote h k = elim (Bool-cases (str_eq k key)) [
  | inr other ↦ stays (ground (arith, find-insert key k (serialize remote) ae.storage, other))
  | inl same ↦
      let at : k ≡ key = (str_eq_iff k key).0 same in
      let now = find-insert key k (serialize remote) ae.storage in
      elim (Option-cases (find key ae.storage)) [
        | inl missing ↦
            comes (serialize remote) (ap (λ x. find x ae.storage) at ∙ missing)
              (ground (arith, now, same))
        | inr (s, e) ↦
            gives_way s (serialize remote) (ap (λ x. find x ae.storage) at ∙ e)
              (ground (arith, now, same)) (h s e)
      ]
]

by_order-Forward :
    (ae : AntiEntropy) (peer : NodeInfo) (key stored : Str) (remote : VersionedValue) (o : Ordering)
    → IsStorable remote
    → get ae.storage key ≡ some stored
    → compare remote.clock (deserialize stored).clock ≡ o
    → AllForward ae (by_order ae peer key remote (deserialize stored) o)
by_order-Forward ae peer key stored remote Ordering.a_dominates w e h =
    take_in-Forward ae key remote λ s f.
      ap (λ v. compare v.clock (deserialize s).clock) (deserialize-serialize remote w)
      ∙ ap (λ x. compare remote.clock (deserialize x).clock) (some_both f e)
      ∙ h
by_order-Forward ae peer key stored remote Ordering.b_dominates w e h = λ k. stays refl
by_order-Forward ae peer key stored remote Ordering.equal w e h = λ k. stays refl
by_order-Forward ae peer key stored remote Ordering.concurrent w e h = λ k. stays refl

merge_key-Forward :
    (ae : AntiEntropy) (peer : NodeInfo) (key : Str) (remote : VersionedValue)
    → IsStorable remote
    → AllForward ae (merge_key ae peer key remote)
unfolding merge_key
merge_key-Forward ae peer key remote w = elim (Option-cases (get ae.storage key)) [
  | inl missing ↦
      subst (λ o. AllForward ae (with_held ae peer key remote o)) (sym missing)
        (take_in-Forward ae key remote λ s f. absurd (ground (arith, missing, f)))
  | inr (stored, e) ↦
      subst (λ o. AllForward ae (with_held ae peer key remote o)) (sym e)
        (by_order-Forward ae peer key stored remote _ w e refl)
]

merge_keys-Forward :
    (ae : AntiEntropy) (peer : NodeInfo) (l : List (Str × VersionedValue))
    → All (λ (kv : Str × VersionedValue). IsStorable kv.1) l
    → AllForward ae (merge_keys ae peer l)
unfolding merge_keys
merge_keys-Forward ae peer [] w k = stays refl
merge_keys-Forward ae peer ((key, remote) ∷ l) w k =
    Forward-trans (merge_key-Forward ae peer key remote w.0 k)
      (merge_keys-Forward (merge_key ae peer key remote) peer l w.1 k)

abbrev pub PullsStorable : Pull → Type 0
PullsStorable pull =
    (peer : NodeInfo) (start end : ℕ)
    → All (λ (kv : Str × VersionedValue). IsStorable kv.1) (pull peer start end)

merge_ranges-Forward :
    (pull : Pull) (ae : AntiEntropy) (peer : NodeInfo) (l : List DiffRange)
    → PullsStorable pull
    → AllForward ae (merge_ranges pull ae peer l)
unfolding merge_ranges
merge_ranges-Forward pull ae peer [] w k = stays refl
merge_ranges-Forward pull ae peer (r ∷ l) w k =
    let pulled = pull peer r.range_start r.range_end in
    Forward-trans (merge_keys-Forward ae peer pulled (w peer r.range_start r.range_end) k)
      (merge_ranges-Forward pull (merge_keys ae peer pulled) peer l w k)

apply_diffs-Forward :
    (pull : Pull) (ae : AntiEntropy) (peer : NodeInfo) (l : List DiffRange)
    → PullsStorable pull
    → AllForward ae (apply_diffs pull ae peer l)
apply_diffs-Forward pull ae peer [] w k = stays refl
apply_diffs-Forward pull ae peer (r ∷ l) w k = merge_ranges-Forward pull ae peer (r ∷ l) w k

-- A round of anti-entropy, with whatever peer and whatever that peer answers, loses no key and takes no
-- stored version back: what is stored under a key stays, comes where nothing was, or is replaced by a
-- version whose clock dominates it. The versions that are pulled are such as can be stored.
pub tick-Forward :
    (exchange : Exchange) (pull : Pull) (drawn : ℕ) (ae : AntiEntropy) (k : Str)
    → PullsStorable pull
    → Forward (get ae.storage k) (get (tick exchange pull drawn ae).storage k)
unfolding tick sync_with
tick-Forward exchange pull drawn ae k w =
    elim (Option-cases
      (pick_from drawn (peers_of ae.self (get_all_physical_nodes ae.router.nodes)))) [
        | inl nobody ↦ rw (nobody, tick) (stays refl)
        | inr (peer, e) ↦ elim (Bool-cases (root_hash (build_local_tree ae.storage) == 0)) [
          | inl empty ↦ rw (e, tick, empty) (stays refl)
          | inr some_root ↦
              rw (e, tick, some_root)
                (let ours = build_local_tree ae.storage in
                  apply_diffs-Forward pull ae peer (diff ours (exchange peer ours)) w k)
        ]
      ]
