-- ===== src/Hints/Handoff.antt =====
-- A round of delivery to a node that has come back: what was handed over and what is kept again.
use mini_dynamo.Base.{
  ℕ, suc, ◌+◌, ◌≤◌, ◌≡◌, ◌≢◌, refl, List, [], ◌∷◌, ◌++◌, if◌then◌else◌, length, arith,
  length-append, Bool-cases, inl, inr, append-nil, append_assoc,
}
use mini_dynamo.Text.{Str, str_key, str_eq_iff}
use mini_dynamo.Hints.{
  Hint, HintStore, hints_for, store, drain, hint_count_for, Answers, redeliver, deliver_for,
}
use mini_dynamo.Hints.Kept.{
  hint, cap-store, hints_for-store, hints_for-drain, drain-list, IsBounded,
}

-- The hints whose delivery failed, in order, each with the time at which it is stored again.
pub failed : Answers → ℕ → Str → List Hint → List Hint
failed answers i target [] = []
failed answers i target (h ∷ l) =
    let rest = failed answers (i + 1) target l in
    if (answers i).0 then rest else hint target h.key h.value (answers i).1 ∷ rest

abbrev pub again : Answers → ℕ → Str → Hint → HintStore → HintStore
again answers i target h hs =
    if (answers i).0 then hs else store hs (answers i).1 target h.key h.value

abbrev pub counted : Answers → ℕ → ℕ → ℕ
counted answers i delivered = if (answers i).0 then delivered + 1 else delivered

room-again :
    (answers : Answers) (i : ℕ) (target : Str) (h : Hint) (hs : HintStore) (n : ℕ)
    → length (hints_for hs target) + suc n ≤ hs.max_per_target
    → (length (hints_for (again answers i target h hs) target) + n
        ≤ (again answers i target h hs).max_per_target)
room-again answers i target h hs n r = elim (Bool-cases (answers i).0) [
  | inl ok ↦ rw ok (omega arith)
  | inr bad ↦ rw bad (
      ground (
        arith,
        hints_for-store hs (answers i).1 target h.key target h.value,
        str_eq_iff target target,
        cap-store hs (answers i).1 target h.key h.value,
        length-append (hints_for hs target) (hint target h.key h.value (answers i).1 ∷ []),
      ))
]

hints_for-redeliver :
    (answers : Answers) (i : ℕ) (target : Str) (l : List Hint) (hs : HintStore) (delivered : ℕ)
    → length (hints_for hs target) + length l ≤ hs.max_per_target
    → hints_for (redeliver answers i target l hs delivered).0 target
      ≡ hints_for hs target ++ failed answers i target l
unfolding redeliver failed
hints_for-redeliver answers i target [] hs delivered r =
    ground (arith, append-nil (hints_for hs target))
hints_for-redeliver answers i target (h ∷ l) hs delivered r = ground (
  arith,
  hints_for-redeliver answers (i + 1) target l (again answers i target h hs)
      (counted answers i delivered) (room-again answers i target h hs (length l) r),
  hints_for-store hs (answers i).1 target h.key target h.value,
  str_eq_iff target target,
  append_assoc (hints_for hs target) (hint target h.key h.value (answers i).1 ∷ [])
      (failed answers (i + 1) target l),
)

delivered-redeliver :
    (answers : Answers) (i : ℕ) (target : Str) (l : List Hint) (hs : HintStore) (delivered : ℕ)
    → (redeliver answers i target l hs delivered).1 + length (failed answers i target l)
      ≡ delivered + length l
unfolding redeliver failed
delivered-redeliver answers i target [] hs delivered = refl
delivered-redeliver answers i target (h ∷ l) hs delivered = ground (
  arith,
  delivered-redeliver answers (i + 1) target l (again answers i target h hs)
      (counted answers i delivered),
)

others-redeliver :
    (answers : Answers) (i : ℕ) (target k : Str) (l : List Hint) (hs : HintStore) (delivered : ℕ)
    → k ≢ target
    → hints_for (redeliver answers i target l hs delivered).0 k ≡ hints_for hs k
unfolding redeliver
others-redeliver answers i target k [] hs delivered d = refl
others-redeliver answers i target k (h ∷ l) hs delivered d = ground (
  arith,
  others-redeliver answers (i + 1) target k l (again answers i target h hs)
      (counted answers i delivered) d,
  hints_for-store hs (answers i).1 target h.key k h.value,
  str_eq_iff k target,
)

cap-drain : (hs : HintStore) (target : Str) → (drain hs target).0.max_per_target ≡ hs.max_per_target
unfolding drain
cap-drain hs target = ground arith

-- No hint is lost in a round of delivery, with no other call in between and no target above its cap:
-- what the target's list holds after it are the hints whose delivery failed, in their order, those and
-- the delivered ones are as many as there were, and the hints of other targets stay as they are.
pub deliver_for_keeps :
    (answers : Answers) (hs : HintStore) (target : Str)
    → IsBounded hs
    → (hints_for (deliver_for answers hs target).0 target
        ≡ failed answers 0 target (hints_for hs target))
      × ((deliver_for answers hs target).1 + hint_count_for (deliver_for answers hs target).0 target
          ≡ hint_count_for hs target)
      × ((k : Str) → k ≢ target → hints_for (deliver_for answers hs target).0 k ≡ hints_for hs k)
unfolding deliver_for hint_count_for
deliver_for_keeps answers hs target b =
    let drained = (drain hs target).0 in
    let list = (drain hs target).1 in
    let room : length (hints_for drained target) + length list ≤ drained.max_per_target = ground (
      arith,
      hints_for-drain hs target target,
      str_eq_iff target target,
      drain-list hs target,
      cap-drain hs target,
      b target,
    ) in
    let kept = hints_for-redeliver answers 0 target list drained 0 room in
    (
      ground (
        arith,
        kept,
        hints_for-drain hs target target,
        str_eq_iff target target,
        drain-list hs target,
      ),
      ground (
        arith,
        kept,
        hints_for-drain hs target target,
        str_eq_iff target target,
        drain-list hs target,
        delivered-redeliver answers 0 target list drained 0,
      ),
      λ k d. ground (
        arith,
        others-redeliver answers 0 target k list drained 0 d,
        hints_for-drain hs target k,
        str_eq_iff k target,
      ),
    )
