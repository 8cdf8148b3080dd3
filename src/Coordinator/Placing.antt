-- ===== src/Coordinator/Placing.antt =====
-- Where a write goes before the coordinator waits: its own copy, the remotes and the hints.
pub mod Copies
use mini_dynamo.Base.{
  ℕ, ◌+◌, ◌≤◌, ◌≡◌, ◌≢◌, ◌⊎◌, inl, inr, refl, Bool, true, false, Option, none, some, List, [], ◌∷◌,
  ◌++◌, if◌then◌else◌, length, length-append, All, All-append, arith, Bool-cases, Option-cases,
  subst, sym,
}
use mini_dynamo.Text.{Str, str_key, str_eq, str_eq_iff}
use mini_dynamo.NodeInfo.{NodeInfo}
use mini_dynamo.Versioned.{VersionedValue}
use mini_dynamo.Ring.{get_all_physical_nodes}
use mini_dynamo.Coordinator.{
  Coordinator, known_dead, among, stand_in, listed, Placed, place, place_all,
}

-- A node that a write may be sent to.
pub record IsTarget (c : Coordinator) (n : NodeInfo) : Type 0 where
  pub not_self : n.node_id ≢ c.self.node_id
  pub not_dead : known_dead c.is_alive n.node_id ≡ false

-- A stand-in is a node other than this one, the dead owner and all the owners, and not known to be dead.
pub stand_in-found :
    (c : Coordinator) (owner : Str) (owners candidates : List NodeInfo) (n : NodeInfo)
    → stand_in c owner owners candidates ≡ some n
    → IsTarget c n × (n.node_id ≢ owner) × (among n.node_id owners ≡ false)
unfolding stand_in
stand_in-found c owner owners [] n e = absurd (ground arith)
stand_in-found c owner owners (m ∷ candidates) n e =
    elim (Bool-cases (str_eq m.node_id c.self.node_id)) [
      | inl p ↦ stand_in-found c owner owners candidates n (ground arith)
      | inr p ↦ elim (Bool-cases (str_eq m.node_id owner)) [
        | inl q ↦ stand_in-found c owner owners candidates n (ground arith)
        | inr q ↦ elim (Bool-cases (among m.node_id owners)) [
          | inl r ↦ stand_in-found c owner owners candidates n (ground arith)
          | inr r ↦ elim (Bool-cases (known_dead c.is_alive m.node_id)) [
            | inl d ↦ stand_in-found c owner owners candidates n (ground arith)
            | inr d ↦
                let same : m ≡ n = ground arith in
                subst (λ x. IsTarget c x × (x.node_id ≢ owner) × (among x.node_id owners ≡ false))
                  same
                  (
                    record {
                      not_self = ground (arith, str_eq_iff m.node_id c.self.node_id);
                      not_dead = d;
                    },
                    ground (arith, str_eq_iff m.node_id owner),
                    r,
                  )
          ]
        ]
      ]
    ]

listed-IsTarget :
    (c : Coordinator) (o : Option NodeInfo)
    → ((n : NodeInfo) → o ≡ some n → IsTarget c n)
    → All (IsTarget c) (listed o)
listed-IsTarget c none f = tt
listed-IsTarget c (some n) f = (f n refl, tt)

place-IsTarget :
    (c : Coordinator) (now : ℕ) (key : Str) (vv : VersionedValue) (owners : List NodeInfo)
    (o : NodeInfo) (p : Placed)
    → All (IsTarget c) p.remotes
    → All (IsTarget c) (place c now key vv owners o p).remotes
place-IsTarget c now key vv owners o p a = elim (Bool-cases (str_eq o.node_id c.self.node_id)) [
  | inl me ↦ rw me a
  | inr other ↦ elim (Bool-cases (known_dead c.is_alive o.node_id)) [
    | inl gone ↦
        rw (other, gone)
          (All-append (IsTarget c) p.remotes _ a (
            listed-IsTarget c (stand_in c o.node_id owners (get_all_physical_nodes c.router.nodes))
              λ n e.
                (stand_in-found c o.node_id owners (get_all_physical_nodes c.router.nodes) n e).0))
    | inr up ↦
        rw (other, up)
          (All-append (IsTarget c) p.remotes (o ∷ []) a (
            record {
              not_self = ground (arith, str_eq_iff o.node_id c.self.node_id);
              not_dead = up;
            },
            tt,
          ))
  ]
]

listed-short : (o : Option NodeInfo) → length (listed o) ≤ 1
listed-short none = omega arith
listed-short (some n) = omega arith

-- The most acks that can come in.
abbrev pub reach : Placed → ℕ
reach p = p.local_acks + length p.remotes

place-reach :
    (c : Coordinator) (now : ℕ) (key : Str) (vv : VersionedValue) (owners : List NodeInfo)
    (o : NodeInfo) (p : Placed)
    → reach (place c now key vv owners o p) ≤ reach p + 1
place-reach c now key vv owners o p = ground (
  arith,
  length-append p.remotes
      (listed (stand_in c o.node_id owners (get_all_physical_nodes c.router.nodes))),
  listed-short (stand_in c o.node_id owners (get_all_physical_nodes c.router.nodes)),
  length-append p.remotes (o ∷ []),
)

-- A write is sent to no node that is known to be dead, and not over the network to the node itself; and
-- with the local ack it can have at most one ack for each owner, stand-ins included.
pub place_all-IsTarget :
    (c : Coordinator) (now : ℕ) (key : Str) (vv : VersionedValue) (owners rest : List NodeInfo)
    (p : Placed)
    → All (IsTarget c) p.remotes
    → All (IsTarget c) (place_all c now key vv owners rest p).remotes
      × (reach (place_all c now key vv owners rest p) ≤ reach p + length rest)
unfolding place_all
place_all-IsTarget c now key vv owners [] p a = (a, omega arith)
place_all-IsTarget c now key vv owners (o ∷ rest) p a =
    let (targets, few) =
      place_all-IsTarget c now key vv owners rest (place c now key vv owners o p)
        (place-IsTarget c now key vv owners o p a) in
    (targets, omega (arith, few, place-reach c now key vv owners o p))
