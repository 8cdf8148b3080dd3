-- ===== src/Swim/Digest.antt =====
-- The digest of a membership view: `entryDigest`, `stateClass` and `digest` of src/gossip/swim.cpp, and the lists `deadPeers`
-- and `allMembers` that the gossip thread reads.
use Prim.Native.Nat.{bit_xor}
use mini_dynamo.Base.{ℕ, ◌/◌, ◌%◌, ◌^◌, List, [], ◌∷◌, ◌++◌, if◌then◌else◌}
use mini_dynamo.Text.{Str}
use mini_dynamo.OrdMap.{Map}
use mini_dynamo.NodeInfo.{NodeInfo}
use mini_dynamo.Ring.{hash64}
use mini_dynamo.Swim.{Swim, MemberState, MemberEntry, is_dead}
use mini_dynamo.Swim.Queries.{peers_in, is_up}

-- The eight bytes of the incarnation, the low one first.
abbrev pub low_bytes : ℕ → Str
low_bytes n =
    n % 256
    ∷ n / 2 ^ 8 % 256
    ∷ n / 2 ^ 16 % 256
    ∷ n / 2 ^ 24 % 256
    ∷ n / 2 ^ 32 % 256
    ∷ n / 2 ^ 40 % 256
    ∷ n / 2 ^ 48 % 256
    ∷ n / 2 ^ 56 % 256
    ∷ []

pub entry_digest : Str → ℕ → ℕ → ℕ
entry_digest id state_class incarnation = hash64 (id ++ 1 ∷ state_class ∷ 1 ∷ low_bytes incarnation)

-- 'D' and 'L', and 'A' for Alive and Suspect.
abbrev pub state_class : MemberState → ℕ
state_class MemberState.dead = 68
state_class MemberState.left = 76
state_class MemberState.alive = 65
state_class MemberState.suspected = 65

-- Dead and Left count without their incarnation.
abbrev pub class_digest : Str → MemberState → ℕ → ℕ
class_digest id state incarnation =
    entry_digest id (state_class state) (if is_up state then incarnation else 0)

pub digest_members : Map Str MemberEntry → ℕ → ℕ
unfolding entry_digest
digest_members [] h = h
digest_members ((id, e) ∷ m) h =
    digest_members m (bit_xor h (class_digest id e.state e.incarnation))

pub digest : Swim → ℕ
unfolding digest_members
digest s = digest_members s.members (
    class_digest s.self.node_id (if s.self_left then MemberState.left else MemberState.alive)
      s.incarnation)

unfoldable pub dead_peers : Swim → List NodeInfo
unfolding peers_in
dead_peers s = peers_in is_dead s.members

-- The entries that are neither Dead nor Left.
pub up_entries : Map Str MemberEntry → List MemberEntry
up_entries [] = []
up_entries ((id, e) ∷ m) = let rest = up_entries m in if is_up e.state then e ∷ rest else rest

unfoldable pub all_members : Swim → List MemberEntry
unfolding up_entries
all_members s = up_entries s.members
