-- ===== src/Node/Frames.antt =====
-- Which part of a node each verb can change.
use mini_dynamo.Base.{
  ◌||◌, ◌≡◌, refl, ap, ◌∙◌, inl, inr, ◌⊎◌, Bool, true, false, Option, none, some, List, [], ◌∷◌,
  if◌then◌else◌, arith, Bool-cases, Option-cases, length, drop,
}
use mini_dynamo.Text.{Str, codes, str_eq}
use mini_dynamo.Text.Split.{split, field}
use mini_dynamo.Versioned.{bar}
use mini_dynamo.NodeInfo.{NodeInfo}
use mini_dynamo.Ring.{find_owners}
use mini_dynamo.Gossip.{is_empty, request_leave}
use mini_dynamo.Swim.{Swim, MemberState}
use mini_dynamo.Coordinator.{Coordinator, PutResult}
use mini_dynamo.Coordinator.Reading.{ReadOutcome}
use mini_dynamo.Node.{Node, on_change, on_changes}
use mini_dynamo.Node.Requests.{
  either_way, Outside, Handled, answered, by_owners, by_primary, written, fetched, left_reply,
  relayed, handle_put, handle_get, handle_delete, handle_leave, handle_gossip, handle_verb,
  handle_request, is_swim,
}

-- `Q` holds of the node that a handled request leaves.
abbrev pub Leaves : (Node → Type 0) → Handled → Type 0
Leaves Q none = Unit
Leaves Q (some (node, reply)) = Q node

-- The view of the membership, the ring and the queue of the handoff are as before.
abbrev pub SameMembership : Node → Node → Type 0
SameMembership old new =
    (new.gossip ≡ old.gossip)
    × (new.coordinator.router ≡ old.coordinator.router)
    × (new.recovery_queue ≡ old.recovery_queue)

-- What is stored is as before.
abbrev pub SameStorage : Node → Node → Type 0
SameStorage old new = new.coordinator.storage ≡ old.coordinator.storage

abbrev pub SameNode : Node → Node → Type 0
SameNode old new = new ≡ old

written-Same :
    (node : Node) (o : Option (Coordinator × PutResult))
    → Leaves (SameMembership node) (written node o)
written-Same node none = tt
written-Same node (some (c, pr)) = (refl, refl, refl)

by_owners-Same :
    (node : Node) (out : Outside) (raw : Str) (o : Option (Coordinator × PutResult))
    (owners : Option (List NodeInfo))
    → Leaves (SameMembership node) (by_owners node out raw o owners)
by_owners-Same node out raw o none = tt
by_owners-Same node out raw o (some []) = (refl, refl, refl)
by_owners-Same node out raw o (some (primary ∷ others)) =
    either_way (Leaves (SameMembership node)) (str_eq primary.node_id node.coordinator.self.node_id)
      (written-Same node o) (refl, refl, refl)

fetched-Same :
    (node : Node) (o : Option ReadOutcome) → Leaves (SameMembership node) (fetched node o)
fetched-Same node none = tt
fetched-Same node (some o) = (refl, refl, refl)

-- Only LEAVE and the verbs of gossip change the membership, the ring or the queue.
membership_kept :
    (node : Node) (out : Outside) (payload type : Str) (f : List Str)
    → str_eq type (codes "LEAVE") ≡ false
    → is_swim type ≡ false
    → Leaves (SameMembership node) (handle_verb node out payload type f)
unfolding handle_verb handle_put handle_get handle_delete by_primary
membership_kept node out payload type f stays quiet =
    let P = Leaves (SameMembership node) in
    rw (stays, quiet)
      (either_way P (str_eq type (codes "PUT")) (by_owners-Same node out payload _ _) (
        either_way P (str_eq type (codes "GET")) (fetched-Same node _) (
          either_way P (str_eq type (codes "DELETE")) (by_owners-Same node out payload _ _) (
            either_way P (str_eq type (codes "REPLICATE")) (refl, refl, refl)
              (either_way P (str_eq type (codes "READ")) (refl, refl, refl)
                (either_way P (str_eq type (codes "RING")) (refl, refl, refl)
                  (refl, refl, refl)))))))

on_change-Same : (node : Node) (c : NodeInfo × MemberState) → SameStorage node (on_change node c)
unfolding on_change
on_change-Same node (info, MemberState.alive) = refl
on_change-Same node (info, MemberState.suspected) = refl
on_change-Same node (info, MemberState.dead) = refl
on_change-Same node (info, MemberState.left) = refl

on_changes-Same :
    (node : Node) (l : List (NodeInfo × MemberState)) → SameStorage node (on_changes node l)
unfolding on_changes
on_changes-Same node [] = refl
on_changes-Same node (c ∷ l) = on_changes-Same (on_change node c) l ∙ on_change-Same node c

left_reply-Same :
    (node : Node) (before : Swim) (after : Swim × Bool)
    → Leaves (SameStorage node) (left_reply node before after)
left_reply-Same node before (s, true) = on_changes-Same _ (drop (length before.fired) s.fired)
left_reply-Same node before (s, false) = refl

handle_leave-Same : (node : Node) (f : List Str) → Leaves (SameStorage node) (handle_leave node f)
unfolding handle_leave
handle_leave-Same node f = elim (Bool-cases (is_empty (field f 1))) [
  | inl missing ↦ rw missing refl
  | inr named ↦ elim (Option-cases node.gossip) [
    | inl off ↦ rw (named, off) refl
    | inr (s, on) ↦ rw (named, on) (left_reply-Same node s (request_leave s (field f 1)))
  ]
]

handle_gossip-Same :
    (node : Node) (out : Outside) (payload : Str)
    → Leaves (SameStorage node) (handle_gossip node out payload)
unfolding handle_gossip
handle_gossip-Same node out payload = elim (Option-cases node.gossip) [
  | inl off ↦ rw off refl
  | inr (s, on) ↦ rw on (on_changes-Same _ _)
]

-- The first field of a request.
abbrev pub verb_of : Str → Str
verb_of payload = field (split bar payload) 0

abbrev pub changes_membership : Str → Bool
changes_membership type = str_eq type (codes "LEAVE") || is_swim type

-- The verbs that write to the store.
abbrev pub writes_store : Str → Bool
writes_store type =
    str_eq type (codes "PUT")
    || str_eq type (codes "GET")
    || str_eq type (codes "DELETE")
    || str_eq type (codes "REPLICATE")

storage_kept :
    (node : Node) (out : Outside) (payload type : Str) (f : List Str)
    → str_eq type (codes "PUT") ≡ false
    → str_eq type (codes "GET") ≡ false
    → str_eq type (codes "DELETE") ≡ false
    → str_eq type (codes "REPLICATE") ≡ false
    → Leaves (SameStorage node) (handle_verb node out payload type f)
unfolding handle_verb
storage_kept node out payload type f p g d r =
    let P = Leaves (SameStorage node) in
    rw (p, g, d, r)
      (either_way P (str_eq type (codes "READ")) refl (
        either_way P (str_eq type (codes "RING")) refl (
          either_way P (str_eq type (codes "LEAVE")) (handle_leave-Same node f)
            (either_way P (is_swim type) (handle_gossip-Same node out payload) refl))))

-- A request leaves the membership, the ring and the queue of the handoff as they were unless its verb
-- is LEAVE or one of gossip, and what is stored unless it is PUT, GET, DELETE or REPLICATE.
pub handle_request_keeps :
    (node : Node) (out : Outside) (payload : Str)
    → ((changes_membership (verb_of payload) ≡ true)
        ⊎ Leaves (SameMembership node) (handle_request node out payload))
      × ((writes_store (verb_of payload) ≡ true)
          ⊎ Leaves (SameStorage node) (handle_request node out payload))
unfolding handle_request
handle_request_keeps node out payload =
    let f = split bar payload in
    let type = field f 0 in
    (
      elim (Bool-cases (changes_membership type)) [
        | inl may ↦ inl may
        | inr h ↦ inr (
            either_way (Leaves (SameMembership node)) (is_empty type) (refl, refl, refl)
              (membership_kept node out payload type f (ground (arith, h)) (ground (arith, h))))
      ],
      elim (Bool-cases (writes_store type)) [
        | inl may ↦ inl may
        | inr h ↦ inr (
            either_way (Leaves (SameStorage node)) (is_empty type) refl (
              storage_kept node out payload type f (ground (arith, h)) (ground (arith, h))
                (ground (arith, h)) (ground (arith, h))))
      ],
    )

relayed_text :
    (text : Str)
    → relayed text ≡ (if is_empty text then codes "RESPONSE|ERROR|forward_failed" else text)
relayed_text [] = refl
relayed_text (c ∷ text) = refl

by_owners_forwards :
    (node : Node) (out : Outside) (raw : Str) (o : Option (Coordinator × PutResult))
    (primary : NodeInfo) (others : List NodeInfo) (owners : Option (List NodeInfo))
    → owners ≡ some (primary ∷ others)
    → str_eq primary.node_id node.coordinator.self.node_id ≡ false
    → by_owners node out raw o owners
      ≡ answered node (
          if is_empty (out.forward primary raw)
          then codes "RESPONSE|ERROR|forward_failed"
          else out.forward primary raw)
by_owners_forwards node out raw o primary others owners found other =
    rw (found, other) (ap (answered node) (relayed_text (out.forward primary raw)))

-- A node that is not the primary of the key answers PUT and DELETE with what the primary answers to the
-- same text, or with forward_failed where that is nothing, and is left as it was.
pub handle_request_forwards :
    (node : Node) (out : Outside) (payload : Str) (primary : NodeInfo) (others : List NodeInfo)
    → (verb_of payload ≡ codes "PUT") ⊎ (verb_of payload ≡ codes "DELETE")
    → find_owners node.coordinator.router (field (split bar payload) 1) 1 ≡ some (primary ∷ others)
    → str_eq primary.node_id node.coordinator.self.node_id ≡ false
    → handle_request node out payload
      ≡ answered node (
          if is_empty (out.forward primary payload)
          then codes "RESPONSE|ERROR|forward_failed"
          else out.forward primary payload)
unfolding handle_request handle_verb handle_put handle_delete by_primary str_eq
handle_request_forwards node out payload primary others (inl put) found other =
    rw put (by_owners_forwards node out payload _ primary others _ found other)
handle_request_forwards node out payload primary others (inr del) found other =
    rw del (by_owners_forwards node out payload _ primary others _ found other)
