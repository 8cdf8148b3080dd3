-- ===== src/Node/Callbacks.antt =====
-- The ring that requests read is the ring that the callbacks of membership keep.
use mini_dynamo.Base.{
  ℕ, ◌≡◌, ◌≢◌, refl, ap, sym, ◌∙◌, Bool, not, true, false, some, ◌⊎◌, inl, inr, List, [], ◌∷◌,
  if◌then◌else◌, arith, subst,
}
use mini_dynamo.Text.{Str, str_key, str_eq}
use mini_dynamo.OrdMap.{find, Sorted}
use mini_dynamo.NodeInfo.{NodeInfo}
use mini_dynamo.Ring.Members.{is_some, member-add, member-remove}
use mini_dynamo.Swim.{Swim, MemberState, MemberEntry}
use mini_dynamo.Swim
use mini_dynamo.Swim.Step.{Call, step, run}
use mini_dynamo.Swim.Lifecycle.{Effects, done, more}
use mini_dynamo.Swim.Effects.{step-Effects}
use mini_dynamo.Swim.Departure.{step-Sorted}
use mini_dynamo.Swim.Quiescence.{self-Effect}
use mini_dynamo.Swim.RingSlots.{ring_after, react, has_slots, SlotsFit}
use mini_dynamo.Swim.SlotsKept.{run-new-Kept, run-Sorted}
use mini_dynamo.Swim.Queries.{state_of}
use mini_dynamo.Node.{Node, on_change, on_changes}

-- Whether a name is a member of the ring that the coordinator finds owners on.
abbrev pub in_ring : Node → Str → Bool
in_ring node k = is_some (find k node.coordinator.router.nodes)

on_change_ring :
    (node : Node) (info : NodeInfo) (st : MemberState) (k : Str)
    → in_ring (on_change node (info, st)) k
      ≡ (if str_eq k info.node_id then react st (in_ring node k) else in_ring node k)
unfolding on_change
on_change_ring node info MemberState.alive k = member-add node.coordinator.router info k
on_change_ring node info MemberState.left k = member-remove node.coordinator.router info.node_id k
on_change_ring node info MemberState.suspected k = ground arith
on_change_ring node info MemberState.dead k = ground arith

on_changes_ring :
    (node : Node) (l : List (NodeInfo × MemberState)) (k : Str)
    → in_ring (on_changes node l) k ≡ ring_after k (in_ring node k) l
unfolding on_changes ring_after
on_changes_ring node [] k = refl
on_changes_ring node ((info, st) ∷ l) k =
    on_changes_ring (on_change node (info, st)) l k
    ∙ ap (λ b. ring_after k b l) (on_change_ring node info st k)

Effects-self : {s t : Swim} → Effects s t → t.self ≡ s.self
Effects-self done = refl
Effects-self (more es e) = self-Effect e ∙ Effects-self es

run-self : (s : Swim) (cs : List Call) → Sorted s.members → (run s cs).self ≡ s.self
unfolding run
run-self s [] o = refl
run-self s (c ∷ cs) o =
    run-self (step s c) cs (step-Sorted s c o) ∙ Effects-self (step-Effects s c o)

fired_ring :
    (node : Node) (self : NodeInfo) (s : Swim) (k : Str)
    → s.self ≡ self
    → ((k : Str) → in_ring node k ≡ str_eq k self.node_id)
    → in_ring (on_changes node s.fired) k ≡ has_slots s k
fired_ring node self s k me alone =
    on_changes_ring node s.fired k
    ∙ ap (λ b. ring_after k b s.fired) (alone k ∙ ap (λ i. str_eq k i.node_id) (sym me))

on_changes_stores :
    (node : Node) (l : List (NodeInfo × MemberState))
    → ((on_changes node l).coordinator.storage ≡ node.coordinator.storage)
      × ((on_changes node l).gossip ≡ node.gossip)
unfolding on_changes on_change
on_changes_stores node [] = (refl, refl)
on_changes_stores node ((info, MemberState.alive) ∷ l) =
    on_changes_stores (on_change node (info, MemberState.alive)) l
on_changes_stores node ((info, MemberState.left) ∷ l) =
    on_changes_stores (on_change node (info, MemberState.left)) l
on_changes_stores node ((info, MemberState.suspected) ∷ l) = on_changes_stores node l
on_changes_stores node ((info, MemberState.dead) ∷ l) = on_changes_stores node l

-- The node with the callbacks of any calls of membership, and of any more after those, from the state in
-- which a node starts, when itself is the only member of its ring: each other name is in the ring that
-- requests read if it is held Alive or Suspect, and is not if it is held Left or is not known; the
-- node itself is in it exactly while it has not left; a name that was in it after the first calls is
-- in it after the others or is held Left, so that a node that is found Dead keeps its slots; and the
-- callbacks leave what is stored and the view of the membership as they were.
pub on_changes_served :
    (node : Node) (self : NodeInfo) (mult : ℕ) (cs ds : List Call)
    → ((k : Str) → in_ring node k ≡ str_eq k self.node_id)
    → let s = run (Swim.new self mult) cs in
      let t = run s ds in
      let before = on_changes node s.fired in
      let later = on_changes node t.fired in
      (in_ring later self.node_id ≡ not t.self_left)
      × ((k : Str) → k ≢ self.node_id → SlotsFit (find k t.members) (in_ring later k))
      × ((k : Str)
          → (in_ring before k ≡ false)
            ⊎ ((state_of t k ≡ some MemberState.left) ⊎ (in_ring later k ≡ true)))
      × (later.coordinator.storage ≡ node.coordinator.storage)
      × (later.gossip ≡ node.gossip)
on_changes_served node self mult cs ds alone =
    let s = run (Swim.new self mult) cs in
    let t = run s ds in
    let v = (run-new-Kept self mult cs ds self.node_id).0 in
    let us : s.self ≡ self = unfold Swim.new in run-self (Swim.new self mult) cs tt in
    let me : t.self ≡ self =
      run-self s ds (unfold Swim.new in run-Sorted (Swim.new self mult) cs tt) ∙ us in
    let same = λ (k : Str). fired_ring node self s k us alone in
    let same' = λ (k : Str). fired_ring node self t k me alone in
    (
      same' self.node_id ∙ ap (λ i. has_slots t i.node_id) (sym me) ∙ v.own,
      λ k other.
          subst (SlotsFit (find k t.members)) (sym (same' k))
            (v.slots k λ e. other (e ∙ ap (λ i. i.node_id) me)),
      λ k. elim (run-new-Kept self mult cs ds k).1 [
        | inl not_yet ↦ inl (same k ∙ not_yet)
        | inr (inl gone) ↦ inr (inl gone)
        | inr (inr stays) ↦ inr (inr (same' k ∙ stays))
      ],
      (on_changes_stores node t.fired).0,
      (on_changes_stores node t.fired).1,
    )
