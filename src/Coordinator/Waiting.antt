-- ===== src/Coordinator/Waiting.antt =====
-- The quorum of a write, over every order of answers and wake-ups.
use mini_dynamo.Base.{
  ℕ, ◌+◌, ◌≤◌, ◌≡◌, ◌↔◌, Bool, true, List, [], ◌∷◌, leb, ==_iff, if◌then◌else◌, length, arith,
}
use mini_dynamo.Text.{Str}
use mini_dynamo.NodeInfo.{NodeInfo}
use mini_dynamo.Versioned.{VersionedValue}
use mini_dynamo.Coordinator.{
  Coordinator, Happening, WriteQuorum, count_write, await_writes, PutResult, placing, placed,
  write_to,
}
use mini_dynamo.Coordinator.Placing.{place_all-IsTarget}

-- The answers that come in before the deadline, and those of them that are acks.
unfoldable pub answers : List (Happening Bool) → ℕ
answers [] = 0
answers (Happening.finished ok ∷ l) = answers l + 1
answers (Happening.wakes ∷ l) = answers l

pub acks_in : List (Happening Bool) → ℕ
acks_in [] = 0
acks_in (Happening.finished ok ∷ l) = if ok then acks_in l + 1 else acks_in l
acks_in (Happening.wakes ∷ l) = acks_in l

acks-le : (l : List (Happening Bool)) → acks_in l ≤ answers l
unfolding acks_in answers
acks-le [] = omega arith
acks-le (Happening.finished ok ∷ l) = ground (arith, acks-le l)
acks-le (Happening.wakes ∷ l) = acks-le l

-- A write sees its quorum exactly where the acks before the deadline make it up, in whatever order the
-- answers and the wake-ups come, if no more remotes answer than were asked: waking early loses no ack
-- that counts, and a late wake-up adds none.
pub await_writes_iff :
    (w remotes : ℕ) (l : List (Happening Bool)) (q : WriteQuorum)
    → q.completed + answers l ≤ remotes
    → (leb w (await_writes w remotes l q).acks ≡ true) ↔ (w ≤ q.acks + acks_in l)
unfolding await_writes answers acks_in
await_writes_iff w remotes [] q h = ground arith
await_writes_iff w remotes (Happening.finished ok ∷ l) q h =
    ground (arith, await_writes_iff w remotes l (count_write ok q) (ground arith))
await_writes_iff w remotes (Happening.wakes ∷ l) q h =
    ground (arith, await_writes_iff w remotes l q h, ==_iff q.completed remotes, acks-le l)

-- A write to the owners of a key answers OK, with the clock of the value, exactly where the local ack and
-- the acks of remotes before the deadline are at least W, in whatever order the answers and wake-ups
-- come, and never where W is more than the owners are, stand-ins or not; no more remotes answer than
-- were asked, and there is an owner.
pub write_to_ok_iff :
    (c : Coordinator) (now : ℕ) (key : Str) (vv : VersionedValue) (w : ℕ)
    (l : List (Happening Bool)) (o : NodeInfo) (owners : List NodeInfo)
    → answers l ≤ length (placed c now key vv (o ∷ owners)).remotes
    → (((write_to c now key vv w l (o ∷ owners)).1 ≡ PutResult.ok vv.clock)
        ↔ (w ≤ (placed c now key vv (o ∷ owners)).local_acks + acks_in l))
      × ((write_to c now key vv w l (o ∷ owners)).1 ≡ PutResult.ok vv.clock
          → w ≤ length (o ∷ owners))
unfolding write_to
write_to_ok_iff c now key vv w l o owners h =
    let p = placed c now key vv (o ∷ owners) in
    let iff : ((write_to c now key vv w l (o ∷ owners)).1 ≡ PutResult.ok vv.clock)
        ↔ (w ≤ p.local_acks + acks_in l) =
      ground (
        arith,
        await_writes_iff w (length p.remotes) l (record { acks = p.local_acks; completed = 0 })
            (omega arith),
      ) in
    (
      iff,
      λ e. omega (
        arith,
        iff.0 e,
        acks-le l,
        (place_all-IsTarget c now key vv (o ∷ owners) (o ∷ owners) (placing c) tt).1,
      ),
    )
