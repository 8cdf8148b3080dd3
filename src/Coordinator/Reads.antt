-- ===== src/Coordinator/Reads.antt =====
-- What a quorum read answers, in terms of the versions that came in.
use mini_dynamo.Base.{
  ℕ, ◌+◌, ◌≤◌, ◌<◌, ◌≡◌, ◌⊎◌, ◌↔◌, inl, inr, refl, true, false, Option, none, some, List, [], ◌∷◌,
  leb, ==_iff, length, length-append, arith, Bool-cases, All, sym, subst,
}
use mini_dynamo.Text.{Str}
use mini_dynamo.Versioned.{VersionedValue}
use mini_dynamo.Coordinator.{Coordinator, Happening}
use mini_dynamo.Coordinator.Newest.{Has, Newer, Same, Clocked, Unbeaten}
use mini_dynamo.Coordinator.Siblings.{Apart, maximal_versions_exact}
use mini_dynamo.Coordinator.Reading.{
  Resp, found_versions, maximal_versions, ReadQuorum, count_read, await_reads, GetResult, ok,
  siblings, not_found, failed, reconcile, finish_read, answer_of,
}

-- The version is found, and every found version is the same or older.
abbrev pub IsTop : List Resp → VersionedValue → Type 0
IsTop responses v =
    Has v (found_versions responses)
    × ((u : VersionedValue) → Has u (found_versions responses) → Same v u ⊎ Newer v u)

-- What each answer to the client says of the responses.
abbrev pub Says : ℕ → List Resp → GetResult → Type 0
Says r responses (ok v) = (r ≤ length responses) × (v.deleted ≡ false) × IsTop responses v
Says r responses not_found =
    (r ≤ length responses)
    × ((found_versions responses ≡ [])
        ⊎ ((v : VersionedValue) × (v.deleted ≡ true) × IsTop responses v))
Says r responses (siblings l) =
    (r ≤ length responses)
    × (1 < length l)
    × Apart l
    × All
        (λ (m : VersionedValue).
          Has m (found_versions responses) × Unbeaten m (found_versions responses))
        l
Says r responses (failed e) = length responses < r

abbrev Exact : List Resp → List VersionedValue → Type 0
Exact responses l =
    All
      (λ (m : VersionedValue).
        Has m (found_versions responses) × Unbeaten m (found_versions responses))
      l
    × Apart l
    × ((v : VersionedValue)
        → Has v (found_versions responses)
        → (m : VersionedValue) × Has m l × (Same m v ⊎ Newer m v))

nothing_found : (l : List VersionedValue) → ((v : VersionedValue) → Has v l → ⊥) → l ≡ []
nothing_found [] f = refl
nothing_found (v ∷ l) f = absurd (f v (inl refl))

single-IsTop :
    (responses : List Resp) (d : VersionedValue) → Exact responses (d ∷ []) → IsTop responses d
single-IsTop responses d (sound, apart, cover) = (
  sound.0.0,
  λ u h.
      let (m, hm, t) = cover u h in
      elim hm [ inl e ↦ subst (λ y. Same y u ⊎ Newer y u) e t | inr n ↦ absurd n ],
)

answer_cases :
    (d : VersionedValue)
    → ((d.deleted ≡ true) × (answer_of d ≡ not_found))
      ⊎ ((d.deleted ≡ false) × (answer_of d ≡ ok d))
answer_cases d = ground arith

reconcile-Says :
    (c : Coordinator) (key : Str) (r : ℕ) (responses : List Resp) (l : List VersionedValue)
    → r ≤ length responses
    → Exact responses l
    → Says r responses (reconcile c key responses l).result
unfolding reconcile
reconcile-Says c key r responses [] q x =
    (q, inl (nothing_found (found_versions responses) λ v h. (x.2 v h).1))
reconcile-Says c key r responses (d ∷ []) q x = elim (answer_cases d) [
  | inl (gone, e) ↦ subst (Says r responses) (sym e) (q, inr (d, gone, single-IsTop responses d x))
  | inr (live, e) ↦ subst (Says r responses) (sym e) (q, live, single-IsTop responses d x)
]
reconcile-Says c key r responses (a ∷ b ∷ more) q x = (q, omega arith, x.1, x.0)

-- A read answers with a value only where at least R replicas responded, the value is found and not
-- deleted, and every found version is the same or older; with NOTFOUND only where none has the key or
-- such a version is a tombstone; with siblings only where they are at least two, none of them is
-- beaten by a found version, and no two have one clock; and it fails only where fewer than R responded.
pub finish_read-Says :
    (c : Coordinator) (key : Str) (r : ℕ) (responses : List Resp)
    → All Clocked (found_versions responses)
    → Says r responses (finish_read c key r responses).result
unfolding finish_read
finish_read-Says c key r responses v = elim (Bool-cases (leb r (length responses))) [
  | inl enough ↦ rw (enough) (
      reconcile-Says c key r responses (maximal_versions responses) (ground arith)
        (maximal_versions_exact responses v))
  | inr few ↦ rw (few) (ground arith)
]

-- The replicas' answers before the deadline, and how many of them are responses.
unfoldable pub answers : List (Happening (Option Resp)) → ℕ
answers [] = 0
answers (Happening.finished a ∷ l) = answers l + 1
answers (Happening.wakes ∷ l) = answers l

pub responses_in : List (Happening (Option Resp)) → ℕ
responses_in [] = 0
responses_in (Happening.finished none ∷ l) = responses_in l
responses_in (Happening.finished (some r) ∷ l) = responses_in l + 1
responses_in (Happening.wakes ∷ l) = responses_in l

responses-le : (l : List (Happening (Option Resp))) → responses_in l ≤ answers l
unfolding responses_in answers
responses-le [] = omega arith
responses-le (Happening.finished none ∷ l) = omega (arith, responses-le l)
responses-le (Happening.finished (some r) ∷ l) = omega (arith, responses-le l)
responses-le (Happening.wakes ∷ l) = responses-le l

-- A read has R responses exactly where those before the deadline make them up, in whatever order the
-- answers and the wake-ups come, if no more remotes answer than were asked.
pub await_reads_iff :
    (r remotes : ℕ) (l : List (Happening (Option Resp))) (q : ReadQuorum)
    → q.completed + answers l ≤ remotes
    → (r ≤ length (await_reads r remotes l q).responses) ↔ (r ≤ length q.responses + responses_in l)
unfolding await_reads answers responses_in
await_reads_iff r remotes [] q h = ground arith
await_reads_iff r remotes (Happening.finished none ∷ l) q h =
    ground (arith, await_reads_iff r remotes l (count_read none q) (ground arith))
await_reads_iff r remotes (Happening.finished (some a) ∷ l) q h = ground (
  arith,
  await_reads_iff r remotes l (count_read (some a) q) (ground arith),
  length-append q.responses (a ∷ []),
)
await_reads_iff r remotes (Happening.wakes ∷ l) q h =
    ground (arith, await_reads_iff r remotes l q h, ==_iff q.completed remotes, responses-le l)
