-- ===== src/Coordinator/Reading.antt =====
-- The read path of src/coordinator.cpp: `maximalVersions`, `coordinateGet` and `repairAsync`.
use mini_dynamo.Base.{
  ℕ, ◌+◌, Bool, true, false, Option, none, some, List, [], ◌∷◌, ◌++◌, leb, ◌==◌, if◌then◌else◌,
  length,
}
use mini_dynamo.Text.{Str, str_eq}
use mini_dynamo.NodeInfo.{NodeInfo}
use mini_dynamo.Clock.{Ordering, compare}
use mini_dynamo.Versioned.{VersionedValue, serialize}
use mini_dynamo.Replica.{Storage, is_a_dominates, version_in}
use mini_dynamo.Replica
use mini_dynamo.Ring.{find_owners}
use mini_dynamo.Coordinator.{Coordinator, known_dead, Happening}

-- `found` is none for a replica that answered that it does not have the key.
pub record Resp : Type 0 where
  pub peer : NodeInfo
  pub found : Option VersionedValue

unfoldable pub found_versions : List Resp → List VersionedValue
found_versions [] = []
found_versions (r ∷ l) = elim r.found [ none ↦ found_versions l | some vv ↦ vv ∷ found_versions l ]

unfoldable pub dominated : VersionedValue → List VersionedValue → Bool
dominated cand [] = false
dominated cand (other ∷ found) =
    if is_a_dominates (compare other.clock cand.clock) then true else dominated cand found

abbrev pub is_equal : Ordering → Bool
is_equal Ordering.equal = true
is_equal Ordering.a_dominates = false
is_equal Ordering.b_dominates = false
is_equal Ordering.concurrent = false

unfoldable pub duplicate : VersionedValue → List VersionedValue → Bool
duplicate cand [] = false
duplicate cand (m ∷ maximal) =
    if is_equal (compare m.clock cand.clock) then true else duplicate cand maximal

-- The outer loop, over the candidates, with the maximal versions so far.
unfoldable pub collect :
    List VersionedValue → List VersionedValue → List VersionedValue → List VersionedValue
unfolding dominated duplicate
collect found [] maximal = maximal
collect found (cand ∷ l) maximal = collect found l (
    if dominated cand found
    then maximal
    else if duplicate cand maximal
    then maximal
    else maximal ++ cand ∷ [])

unfoldable pub maximal_versions : List Resp → List VersionedValue
unfolding collect found_versions
maximal_versions responses = collect (found_versions responses) (found_versions responses) []

pub record ReadQuorum : Type 0 where
  pub responses : List Resp
  pub completed : ℕ

-- A replica that failed to answer is no response.
abbrev pub count_read : Option Resp → ReadQuorum → ReadQuorum
count_read none q = record q { completed = q.completed + 1 }
count_read (some r) q = record { responses = q.responses ++ r ∷ []; completed = q.completed + 1 }

abbrev pub read_done : ℕ → ℕ → ReadQuorum → Bool
read_done r remotes q = if leb r (length q.responses) then true else q.completed == remotes

unfoldable pub await_reads : ℕ → ℕ → List (Happening (Option Resp)) → ReadQuorum → ReadQuorum
await_reads r remotes [] q = q
await_reads r remotes (Happening.finished a ∷ l) q = await_reads r remotes l (count_read a q)
await_reads r remotes (Happening.wakes ∷ l) q =
    let on = await_reads r remotes l q in if read_done r remotes q then q else on

pub data ReadError : Type 0 where
  no_nodes_in_ring quorum_not_met : ReadError

pub data GetResult : Type 0 where
  ok : VersionedValue → GetResult
  siblings : List VersionedValue → GetResult
  not_found : GetResult
  failed : ReadError → GetResult

-- Whom the read asks: itself at once, and the owners that are not known to be dead.
pub record Asked : Type 0 where
  pub responses : List Resp
  pub remotes : List NodeInfo

abbrev ask : Coordinator → Str → NodeInfo → Asked → Asked
ask c key owner a =
    if str_eq owner.node_id c.self.node_id
    then record a {
      responses =
          a.responses
          ++ record { peer = owner; found = version_in (Replica.get c.storage key) } ∷ [];
    }
    else if known_dead c.is_alive owner.node_id
    then a
    else record a { remotes = a.remotes ++ owner ∷ [] }

unfoldable pub ask_all : Coordinator → Str → List NodeInfo → Asked → Asked
ask_all c key [] a = a
ask_all c key (o ∷ owners) a = ask_all c key owners (ask c key o a)

abbrev pub is_stale : VersionedValue → Option VersionedValue → Bool
is_stale dominant none = true
is_stale dominant (some vv) = is_a_dominates (compare dominant.clock vv.clock)

-- The loop of the read repair: the local copy is overwritten, and the others are to be written.
unfoldable pub repair :
    Coordinator
    → Str
    → VersionedValue
    → List Resp
    → Storage × List NodeInfo
    → Storage × List NodeInfo
repair c key dominant [] out = out
repair c key dominant (r ∷ l) (storage, sent) = repair c key dominant l (
    if is_stale dominant r.found
    then if str_eq r.peer.node_id c.self.node_id
      then (Replica.put storage key (serialize dominant), sent)
      else (storage, sent ++ r.peer ∷ [])
    else (storage, sent))

-- The result for the client, with the storage and the repairs that are sent out.
pub record ReadOutcome : Type 0 where
  pub result : GetResult
  pub storage : Storage
  pub repairs : List NodeInfo

abbrev pub answer_of : VersionedValue → GetResult
answer_of dominant = if dominant.deleted then GetResult.not_found else GetResult.ok dominant

unfoldable pub reconcile : Coordinator → Str → List Resp → List VersionedValue → ReadOutcome
unfolding repair
reconcile c key responses [] = record {
  result = GetResult.not_found;
  storage = c.storage;
  repairs = [];
}
reconcile c key responses (dominant ∷ []) =
    let (storage, sent) = repair c key dominant responses (c.storage, []) in
    record { result = answer_of dominant; storage = storage; repairs = sent }
reconcile c key responses (a ∷ b ∷ more) = record {
  result = GetResult.siblings (a ∷ b ∷ more);
  storage = c.storage;
  repairs = [];
}

unfoldable pub finish_read : Coordinator → Str → ℕ → List Resp → ReadOutcome
unfolding reconcile maximal_versions
finish_read c key r responses =
    if leb r (length responses)
    then reconcile c key responses (maximal_versions responses)
    else record {
      result = GetResult.failed ReadError.quorum_not_met;
      storage = c.storage;
      repairs = [];
    }

unfoldable pub read_from :
    Coordinator → Str → ℕ → List (Happening (Option Resp)) → List NodeInfo → ReadOutcome
unfolding finish_read await_reads ask_all
read_from c key r schedule [] = record {
  result = GetResult.failed ReadError.no_nodes_in_ring;
  storage = c.storage;
  repairs = [];
}
read_from c key r schedule (o ∷ owners) =
    let a = ask_all c key (o ∷ owners) (record { responses = []; remotes = [] }) in
    finish_read c key r
      (await_reads r (length a.remotes) schedule
        (record { responses = a.responses; completed = 0 })).responses

unfoldable pub coordinate_get :
    Coordinator → Str → ℕ → ℕ → List (Happening (Option Resp)) → Option ReadOutcome
unfolding read_from
coordinate_get c key n r schedule = elim (find_owners c.router key n) [
  | none ↦ none
  | some owners ↦ some (read_from c key r schedule owners)
]
