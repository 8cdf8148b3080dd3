-- ===== src/Node/Answers.antt =====
-- When the handling of a request ends, and when it has a reply.
use mini_dynamo.Base.{
  ℕ, ◌≡◌, refl, inl, inr, ◌⊎◌, Bool, true, false, Option, some, List, [], ◌∷◌, if◌then◌else◌,
  Bool-cases, Option-cases,
}
use mini_dynamo.Text.{Str, codes, str_eq}
use mini_dynamo.Text.Split.{split, field}
use mini_dynamo.Clock.{VectorClock}
use mini_dynamo.Clock.Wire.{parse}
use mini_dynamo.Base64.{decode}
use mini_dynamo.Versioned.{VersionedValue, bar}
use mini_dynamo.Ring.{Router, find_owners}
use mini_dynamo.Ring.Walk.{IsValid, find_owners_distinct}
use mini_dynamo.NodeInfo.{NodeInfo}
use mini_dynamo.Gossip.{is_empty, request_leave}
use mini_dynamo.Swim.{Swim}
use mini_dynamo.Coordinator.{
  Coordinator, Happening, PutResult, write_quorum, coordinate_put, coordinate_delete,
}
use mini_dynamo.Coordinator.Reading.{Resp, ReadOutcome, coordinate_get}
use mini_dynamo.Node.{Node, to_int, effective, error_reply, linked}
use mini_dynamo.Node.Requests.{
  either_way, Outside, Handled, answered, by_primary, left_reply, handle_put, handle_get,
  handle_delete, handle_leave, handle_gossip, handle_verb, handle_request, is_swim,
}

-- Handled to the end, with a reply.
abbrev pub Replied : Handled → Type 0
Replied h = (node : Node) × (text : Str) × (h ≡ answered node text)

-- Handled to the end, with a reply or without one.
abbrev pub Ended : Handled → Type 0
Ended h = (node : Node) × (reply : Option Str) × (h ≡ some (node, reply))

owners_found :
    (r : Router) (key : Str) (n : ℕ)
    → IsValid r
    → (owners : List NodeInfo) × (find_owners r key n ≡ some owners)
owners_found r key n v = let found = find_owners_distinct r key n v in (found.0, found.1)

write_quorum_ends :
    (c : Coordinator) (now : ℕ) (key : Str) (vv : VersionedValue) (n w : ℕ)
    (schedule : List (Happening Bool))
    → IsValid c.router
    → (out : Coordinator × PutResult) × (write_quorum c now key vv n w schedule ≡ some out)
unfolding write_quorum
write_quorum_ends c now key vv n w schedule v =
    let (owners, e) = owners_found c.router key n v in rw (e, write_quorum) (_, refl)

coordinate_put_ends :
    (c : Coordinator) (wall now : ℕ) (key value : Str) (context : VectorClock) (n w : ℕ)
    (schedule : List (Happening Bool))
    → IsValid c.router
    → (out : Coordinator × PutResult) × (coordinate_put c wall now key value context n w schedule
        ≡ some out)
unfolding coordinate_put
coordinate_put_ends c wall now key value context n w schedule v =
    write_quorum_ends c now key _ n w schedule v

coordinate_delete_ends :
    (c : Coordinator) (wall now : ℕ) (key : Str) (context : VectorClock) (n w : ℕ)
    (schedule : List (Happening Bool))
    → IsValid c.router
    → (out : Coordinator × PutResult) × (coordinate_delete c wall now key context n w schedule
        ≡ some out)
unfolding coordinate_delete
coordinate_delete_ends c wall now key context n w schedule v =
    write_quorum_ends c now key _ n w schedule v

coordinate_get_ends :
    (c : Coordinator) (key : Str) (n r : ℕ) (schedule : List (Happening (Option Resp)))
    → IsValid c.router
    → (out : ReadOutcome) × (coordinate_get c key n r schedule ≡ some out)
unfolding coordinate_get
coordinate_get_ends c key n r schedule v =
    let (owners, e) = owners_found c.router key n v in rw (e, coordinate_get) (_, refl)

by_owners-Replied :
    (node : Node) (out : Outside) (key raw : Str) (done : Coordinator × PutResult)
    (owners : List NodeInfo)
    → find_owners node.coordinator.router key 1 ≡ some owners
    → Replied (by_primary node out key raw (some done))
unfolding by_primary
by_owners-Replied node out key raw done [] found = rw (found, by_primary) (_, _, refl)
by_owners-Replied node out key raw done (primary ∷ others) found =
    elim (Bool-cases (str_eq primary.node_id node.coordinator.self.node_id)) [
      | inl mine ↦ rw (found, by_primary, mine) (_, _, refl)
      | inr other ↦ rw (found, by_primary, other) (_, _, refl)
    ]

handle_put-Replied :
    (node : Node) (out : Outside) (f : List Str) (raw : Str)
    → IsValid node.coordinator.router
    → Replied (handle_put node out f raw)
unfolding handle_put
handle_put-Replied node out f raw v =
    let (owners, found) = owners_found node.coordinator.router (field f 1) 1 v in
    let (done, e) =
      coordinate_put_ends (linked node) out.wall out.now (field f 1) (decode (field f 2))
        (parse (field f 7)) (effective node.cfg.n (to_int f 4)) (effective node.cfg.w (to_int f 5))
        out.writes v in
    rw e (by_owners-Replied node out (field f 1) raw done owners found)

handle_delete-Replied :
    (node : Node) (out : Outside) (f : List Str) (raw : Str)
    → IsValid node.coordinator.router
    → Replied (handle_delete node out f raw)
unfolding handle_delete
handle_delete-Replied node out f raw v =
    let (owners, found) = owners_found node.coordinator.router (field f 1) 1 v in
    let (done, e) =
      coordinate_delete_ends (linked node) out.wall out.now (field f 1) (parse (field f 5))
        (effective node.cfg.n (to_int f 3)) (effective node.cfg.w (to_int f 4)) out.writes v in
    rw e (by_owners-Replied node out (field f 1) raw done owners found)

handle_get-Replied :
    (node : Node) (out : Outside) (f : List Str)
    → IsValid node.coordinator.router
    → Replied (handle_get node out f)
unfolding handle_get
handle_get-Replied node out f v =
    let (done, e) =
      coordinate_get_ends (linked node) (field f 1) (effective node.cfg.n (to_int f 3))
        (effective node.cfg.r (to_int f 4)) out.reads v in
    rw e (_, _, refl)

left_reply-Replied :
    (node : Node) (before : Swim) (after : Swim × Bool) → Replied (left_reply node before after)
left_reply-Replied node before (s, true) = (_, _, refl)
left_reply-Replied node before (s, false) = (_, _, refl)

handle_leave-Replied : (node : Node) (f : List Str) → Replied (handle_leave node f)
unfolding handle_leave
handle_leave-Replied node f = elim (Bool-cases (is_empty (field f 1))) [
  | inl missing ↦ rw missing (_, _, refl)
  | inr named ↦ elim (Option-cases node.gossip) [
    | inl off ↦ rw (named, off) (_, _, refl)
    | inr (s, on) ↦ rw (named, on) (left_reply-Replied node s (request_leave s (field f 1)))
  ]
]

handle_gossip-Ended :
    (node : Node) (out : Outside) (payload : Str) → Ended (handle_gossip node out payload)
unfolding handle_gossip
handle_gossip-Ended node out payload = elim (Option-cases node.gossip) [
  | inl off ↦ rw off (_, _, refl)
  | inr (s, on) ↦ rw on (_, _, refl)
]

Replied-Ended : (h : Handled) → Replied h → Ended h
Replied-Ended h (node, text, e) = (node, some text, e)

-- The verbs but those of gossip, which `P` is to hold of apart.
verbs :
    (P : Handled → Type 0) (node : Node) (out : Outside) (payload type : Str) (f : List Str)
    → IsValid node.coordinator.router
    → ((h : Handled) → Replied h → P h)
    → P (
        if is_swim type
        then handle_gossip node out payload
        else answered node (error_reply (codes "unknown_command")))
    → P (handle_verb node out payload type f)
unfolding handle_verb
verbs P node out payload type f v rest gossip =
    either_way P (str_eq type (codes "PUT")) (rest _ (handle_put-Replied node out f payload v)) (
      either_way P (str_eq type (codes "GET")) (rest _ (handle_get-Replied node out f v)) (
        either_way P (str_eq type (codes "DELETE"))
          (rest _ (handle_delete-Replied node out f payload v))
          (either_way P (str_eq type (codes "REPLICATE")) (rest _ (_, _, refl)) (
            either_way P (str_eq type (codes "READ")) (rest _ (_, _, refl)) (
              either_way P (str_eq type (codes "RING")) (rest _ (_, _, refl)) (
                either_way P (str_eq type (codes "LEAVE")) (rest _ (handle_leave-Replied node f))
                  gossip))))))

-- Every request is handled to its end where each member of the ring has a slot, and has exactly one
-- reply unless its first field is empty or one of the verbs of gossip, which may have none.
pub handle_request_ends :
    (node : Node) (out : Outside) (payload : Str)
    → IsValid node.coordinator.router
    → Ended (handle_request node out payload)
      × ((is_empty (field (split bar payload) 0) ≡ true)
          ⊎ ((is_swim (field (split bar payload) 0) ≡ true)
              ⊎ Replied (handle_request node out payload)))
unfolding handle_request
handle_request_ends node out payload v =
    let f = split bar payload in
    let type = field f 0 in
    (
      either_way Ended (is_empty type) (_, _, refl)
          (verbs Ended node out payload type f v Replied-Ended
            (either_way Ended (is_swim type) (handle_gossip-Ended node out payload) (_, _, refl))),
      elim (Bool-cases (is_empty type)) [
        | inl empty ↦ inl empty
        | inr some_type ↦ elim (Bool-cases (is_swim type)) [
          | inl gossip ↦ inr (inl gossip)
          | inr other ↦ inr (
              inr (
                rw some_type
                  (verbs Replied node out payload type f v (λ h r. r) (rw other (_, _, refl)))))
        ]
      ],
    )
