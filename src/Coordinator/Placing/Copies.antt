-- ===== src/Coordinator/Placing/Copies.antt =====
-- What a write leaves on this node: its own copy, if it is an owner, and a hint for each dead owner.
use mini_dynamo.Base.{
  ℕ, ◌+◌, ◌≡◌, refl, Bool, false, Option, some, List, [], ◌∷◌, if◌then◌else◌, arith,
}
use mini_dynamo.Text.{Str, str_key, str_eq, str_eq_iff}
use mini_dynamo.OrdMap.{find-insert}
use mini_dynamo.OrdMap.Keys.{elem, NoRepeat}
use mini_dynamo.NodeInfo.{NodeInfo}
use mini_dynamo.Versioned.{VersionedValue, serialize}
use mini_dynamo.Replica.{Storage}
use mini_dynamo.Replica
use mini_dynamo.Ring.Owners.{ids}
use mini_dynamo.Hints.{HintStore, hints_for, push_capped}
use mini_dynamo.Hints.Kept.{hint}
use mini_dynamo.Coordinator.{Coordinator, known_dead, among, Placed, place, place_all}

get-put :
    (s : Storage) (key k : Str) (v : Str)
    → Replica.get (Replica.put s key v) k ≡ (if str_eq k key then some v else Replica.get s k)
unfolding Replica.get Replica.put
get-put s key k v = find-insert key k v s

-- The write stands in this node's storage, under its key alone, exactly if the node is an owner.
pub place_all-storage :
    (c : Coordinator) (now : ℕ) (key k : Str) (vv : VersionedValue) (owners rest : List NodeInfo)
    (p : Placed)
    → Replica.get (place_all c now key vv owners rest p).storage k ≡ (
        if among c.self.node_id rest
        then if str_eq k key then some (serialize vv) else Replica.get p.storage k
        else Replica.get p.storage k)
unfolding place_all among
place_all-storage c now key k vv owners [] p = refl
place_all-storage c now key k vv owners (o ∷ rest) p = ground (
  arith,
  place_all-storage c now key k vv owners rest (place c now key vv owners o p),
  get-put p.storage key k (serialize vv),
)

among-elem : (id : Str) (l : List NodeInfo) → among id l ≡ elem id (ids l)
unfolding among elem
among-elem id [] = refl
among-elem id (n ∷ l) =
    ground (arith, among-elem id l, str_eq_iff n.node_id id, str_eq_iff id n.node_id)

place_all-acks :
    (c : Coordinator) (now : ℕ) (key : Str) (vv : VersionedValue) (owners rest : List NodeInfo)
    (p : Placed)
    → NoRepeat (ids rest)
    → (place_all c now key vv owners rest p).local_acks
      ≡ (if among c.self.node_id rest then p.local_acks + 1 else p.local_acks)
unfolding place_all among
place_all-acks c now key vv owners [] p d = refl
place_all-acks c now key vv owners (o ∷ rest) p d = ground (
  arith,
  place_all-acks c now key vv owners rest (place c now key vv owners o p) d.1,
  among-elem c.self.node_id rest,
  str_eq_iff o.node_id c.self.node_id,
)

-- An owner that a hint is due for.
pub owed : Coordinator → List NodeInfo → Str → Bool
owed c owners id =
    if str_eq id c.self.node_id
    then false
    else if known_dead c.is_alive id
    then among id owners
    else false

-- The store after the write: one hint more for each owner that is owed one, at the cap none.
abbrev pub Hinted :
    Coordinator → ℕ → Str → VersionedValue → List NodeInfo → HintStore → Option HintStore → Type 0
Hinted c now key vv owners hs after =
    (hs' : HintStore) × (after ≡ some hs')
    × (hs'.max_per_target ≡ hs.max_per_target)
    × ((k : Str)
        → hints_for hs' k ≡ (
            if owed c owners k
            then push_capped hs.max_per_target (hint k key vv now) (hints_for hs k)
            else hints_for hs k))
