-- ===== src/Coordinator.antt =====
-- src/coordinator.h and src/coordinator.cpp: quorum writes and reads. The answers of the replicas are
-- inputs: a list of what happens at the lock, in order, up to the deadline. The wall clock of the clock
-- bump and the steady clock of the hints are arguments. N, W and R are not negative here.
pub mod Clocks
pub mod Placing
pub mod Waiting
pub mod Reading
pub mod Newest
pub mod Siblings
pub mod Reads
mod Examples
use mini_dynamo.Base.{
  ℕ, zero, suc, ◌+◌, ◌%◌, max, Bool, true, false, Option, none, some, List, [], ◌∷◌, ◌++◌, leb,
  ◌==◌, if◌then◌else◌, length, two64,
}
use mini_dynamo.Text.{Str, str_key, str_eq}
use mini_dynamo.NodeInfo.{NodeInfo}
use mini_dynamo.Clock.{VectorClock, Ordering, empty, set, compare, prune, next_counter}
use mini_dynamo.Clock
use mini_dynamo.Versioned.{VersionedValue, serialize, deserialize}
use mini_dynamo.Replica.{Storage, is_a_dominates}
use mini_dynamo.Replica
use mini_dynamo.Hints.{HintStore, store}
use mini_dynamo.Ring.{Router, find_owners, get_all_physical_nodes}

-- The liveness check and the hint store are set after construction, or not at all.
pub record Coordinator : Type 0 where
  pub self : NodeInfo
  pub router : Router
  pub storage : Storage
  pub max_clock_entries : ℕ
  pub is_alive : Option (Str → Bool)
  pub hint_store : Option HintStore

abbrev clock_in : Option Str → VectorClock
clock_in none = empty
clock_in (some stored) = (deserialize stored).clock

unfoldable pub local_clock : Coordinator → Str → VectorClock
local_clock c key = clock_in (Replica.get c.storage key)

unfoldable pub bumped_clock : Coordinator → ℕ → Str → VectorClock → VectorClock
unfolding local_clock
bumped_clock c now key context = prune c.max_clock_entries (
    set context c.self.node_id
      (next_counter
        (max (Clock.get context c.self.node_id) (Clock.get (local_clock c key) c.self.node_id)))
      now)

-- `is_alive_fn_ && !is_alive_fn_(id)`
abbrev pub known_dead : Option (Str → Bool) → Str → Bool
known_dead none id = false
known_dead (some alive) id = if alive id then false else true

unfoldable pub among : Str → List NodeInfo → Bool
among id [] = false
among id (o ∷ owners) = if str_eq o.node_id id then true else among id owners

-- The first candidate that is neither this node nor an owner, and that is not known to be dead.
unfoldable pub stand_in : Coordinator → Str → List NodeInfo → List NodeInfo → Option NodeInfo
unfolding among
stand_in c owner owners [] = none
stand_in c owner owners (n ∷ candidates) =
    let on = stand_in c owner owners candidates in
    if str_eq n.node_id c.self.node_id
    then on
    else if str_eq n.node_id owner
    then on
    else if among n.node_id owners
    then on
    else if known_dead c.is_alive n.node_id
    then on
    else some n

abbrev pub listed : Option NodeInfo → List NodeInfo
listed none = []
listed (some n) = n ∷ []

abbrev pub hinted : Option HintStore → ℕ → Str → Str → VersionedValue → Option HintStore
hinted none now target key vv = none
hinted (some hs) now target key vv = some (store hs now target key vv)

-- What a write does before it waits: the local write and its ack, the hints, and whom it sends to.
pub record Placed : Type 0 where
  pub storage : Storage
  pub hint_store : Option HintStore
  pub local_acks : ℕ
  pub remotes : List NodeInfo

abbrev place_self : Placed → Str → VersionedValue → Placed
place_self p key vv = record p {
  storage = Replica.put p.storage key (serialize vv);
  local_acks = p.local_acks + 1;
}

-- The hint is stored whether or not there is a stand-in.
abbrev place_dead :
    Coordinator → ℕ → Str → VersionedValue → List NodeInfo → NodeInfo → Placed → Placed
place_dead c now key vv owners owner p = record p {
  hint_store = hinted p.hint_store now owner.node_id key vv;
  remotes =
      p.remotes ++ listed (stand_in c owner.node_id owners (get_all_physical_nodes c.router.nodes));
}

abbrev pub place :
    Coordinator → ℕ → Str → VersionedValue → List NodeInfo → NodeInfo → Placed → Placed
place c now key vv owners owner p =
    if str_eq owner.node_id c.self.node_id
    then place_self p key vv
    else if known_dead c.is_alive owner.node_id
    then place_dead c now key vv owners owner p
    else record p { remotes = p.remotes ++ owner ∷ [] }

-- The loop over the owners.
unfoldable pub place_all :
    Coordinator → ℕ → Str → VersionedValue → List NodeInfo → List NodeInfo → Placed → Placed
unfolding stand_in
place_all c now key vv owners [] p = p
place_all c now key vv owners (o ∷ rest) p =
    place_all c now key vv owners rest (place c now key vv owners o p)

-- What happens at the lock: a replica's thread ends with an answer, or the waiting thread looks.
pub data Happening (Answer : Type 0) : Type 0 where
  finished : Answer → Happening Answer
  wakes : Happening Answer

pub record WriteQuorum : Type 0 where
  pub acks : ℕ
  pub completed : ℕ

abbrev pub count_write : Bool → WriteQuorum → WriteQuorum
count_write ok q = record { acks = if ok then q.acks + 1 else q.acks; completed = q.completed + 1 }

abbrev pub write_done : ℕ → ℕ → WriteQuorum → Bool
write_done w remotes q = if leb w q.acks then true else q.completed == remotes

-- The end of the list is the deadline.
unfoldable pub await_writes : ℕ → ℕ → List (Happening Bool) → WriteQuorum → WriteQuorum
await_writes w remotes [] q = q
await_writes w remotes (Happening.finished ok ∷ l) q = await_writes w remotes l (count_write ok q)
await_writes w remotes (Happening.wakes ∷ l) q =
    let on = await_writes w remotes l q in if write_done w remotes q then q else on

pub data WriteError : Type 0 where
  no_nodes_in_ring quorum_not_met : WriteError

pub data PutResult : Type 0 where
  ok : VectorClock → PutResult
  failed : WriteError → PutResult

abbrev pub decide : ℕ → VectorClock → WriteQuorum → PutResult
decide w clock q =
    if leb w q.acks then PutResult.ok clock else PutResult.failed WriteError.quorum_not_met

abbrev pub placing : Coordinator → Placed
placing c = record { storage = c.storage; hint_store = c.hint_store; local_acks = 0; remotes = [] }

abbrev pub placed : Coordinator → ℕ → Str → VersionedValue → List NodeInfo → Placed
placed c now key vv owners = place_all c now key vv owners owners (placing c)

abbrev pub applied : Coordinator → Placed → Coordinator
applied c p = record c { storage = p.storage; hint_store = p.hint_store }

abbrev pub waited : Placed → ℕ → VectorClock → List (Happening Bool) → PutResult
waited p w clock schedule =
    decide w clock
      (await_writes w (length p.remotes) schedule (record { acks = p.local_acks; completed = 0 }))

-- The owners as the ring finds them; the outer `none` is a walk that does not end.
unfoldable pub write_to :
    Coordinator
    → ℕ
    → Str
    → VersionedValue
    → ℕ
    → List (Happening Bool)
    → List NodeInfo
    → Coordinator × PutResult
unfolding place_all await_writes
write_to c now key vv w schedule [] = (c, PutResult.failed WriteError.no_nodes_in_ring)
write_to c now key vv w schedule (o ∷ owners) =
    let p = placed c now key vv (o ∷ owners) in (applied c p, waited p w vv.clock schedule)

unfoldable pub write_quorum :
    Coordinator
    → ℕ
    → Str
    → VersionedValue
    → ℕ
    → ℕ
    → List (Happening Bool)
    → Option (Coordinator × PutResult)
unfolding write_to
write_quorum c now key vv n w schedule = elim (find_owners c.router key n) [
  | none ↦ none
  | some owners ↦ some (write_to c now key vv w schedule owners)
]

unfoldable pub coordinate_put :
    Coordinator
    → ℕ
    → ℕ
    → Str
    → Str
    → VectorClock
    → ℕ
    → ℕ
    → List (Happening Bool)
    → Option (Coordinator × PutResult)
unfolding write_quorum bumped_clock
coordinate_put c wall now key value context n w schedule =
    write_quorum c now key
      (record { payload = value; clock = bumped_clock c wall key context; deleted = false }) n w
      schedule

unfoldable pub coordinate_delete :
    Coordinator
    → ℕ
    → ℕ
    → Str
    → VectorClock
    → ℕ
    → ℕ
    → List (Happening Bool)
    → Option (Coordinator × PutResult)
unfolding write_quorum bumped_clock
coordinate_delete c wall now key context n w schedule =
    write_quorum c now key
      (record { payload = []; clock = bumped_clock c wall key context; deleted = true }) n w
      schedule
