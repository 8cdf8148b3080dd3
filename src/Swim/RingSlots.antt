-- ===== src/Swim/RingSlots.antt =====
-- The callbacks keep the ring in step with the membership (src/gossip/swim.cpp, and the callback that
-- src/gossip/gossip_thread.cpp registers).
use mini_dynamo.Base.{
  ℕ, ◌≡◌, ◌≢◌, inl, inr, refl, ap, subst, sym, not, Bool, true, false, Option, none, some, List, [],
  ◌∷◌, ◌++◌, arith, append-nil, ◌∙◌, if◌then◌else◌, Bool-cases, Option-cases,
}
use mini_dynamo.Text.{Str, str_key, str_eq, str_eq_iff}
use mini_dynamo.OrdMap.{find, insert, find-insert, Sorted}
use mini_dynamo.NodeInfo.{NodeInfo}
use mini_dynamo.Swim.{Swim, MemberState, MemberEntry, new}
use mini_dynamo.Swim.Queries.{is_up}
use mini_dynamo.Swim.Step.{Call, step, run}
use mini_dynamo.Swim.Lifecycle.{
  Move, met, heard, revives, rejoins, doubts, dies, retires, Effect, quiet, retires_self, writes,
  Effects, done, more, calls,
}
use mini_dynamo.Swim.Effects.{step-Effects}
use mini_dynamo.Swim.Departure.{step-Sorted}

-- Alive enters the ring, Left is taken out of it, Dead and Suspect stay as they are.
abbrev pub react : MemberState → Bool → Bool
react MemberState.alive b = true
react MemberState.left b = false
react MemberState.dead b = b
react MemberState.suspected b = b

-- Whether `k` is in the ring after the calls, where `b` says whether it was before.
unfoldable pub ring_after : Str → Bool → List (NodeInfo × MemberState) → Bool
ring_after k b [] = b
ring_after k b ((info, st) ∷ l) = ring_after k (if str_eq k info.node_id then react st b else b) l

pub ring_after-snoc :
    (k : Str) (b : Bool) (l : List (NodeInfo × MemberState)) (info : NodeInfo) (st : MemberState)
    → ring_after k b (l ++ (info, st) ∷ [])
      ≡ (if str_eq k info.node_id then react st (ring_after k b l) else ring_after k b l)
unfolding ring_after
ring_after-snoc k b [] info st = refl
ring_after-snoc k b ((i, t) ∷ l) info st =
    ring_after-snoc k (if str_eq k i.node_id then react t b else b) l info st

-- The ring starts with the node itself.
abbrev pub has_slots : Swim → Str → Bool
has_slots s k = ring_after k (str_eq k s.self.node_id) s.fired

-- What the ring must say of a member.
abbrev pub SlotsFit : Option MemberEntry → Bool → Type 0
SlotsFit none b = b ≡ false
SlotsFit (some e) b = (is_up e.state ≡ true → b ≡ true) × (e.state ≡ MemberState.left → b ≡ false)

pub record IsServed (s : Swim) : Type 0 where
  pub named : (k : Str) (e : MemberEntry) → find k s.members ≡ some e → e.info.node_id ≡ k
  pub apart : find s.self.node_id s.members ≡ none
  pub own : has_slots s s.self.node_id ≡ not s.self_left
  pub slots : (k : Str) → k ≢ s.self.node_id → SlotsFit (find k s.members) (has_slots s k)

pub new-IsServed : (self : NodeInfo) (mult : ℕ) → IsServed (new self mult)
unfolding new ring_after find
new-IsServed self mult = record {
  named = λ k e h. absurd (cc);
  apart = refl;
  own = ground (arith, str_eq_iff self.node_id self.node_id);
  slots = λ k h. ground (arith, str_eq_iff k self.node_id);
}

abbrev pub announce_to : Option MemberState → Bool → Bool
announce_to none b = b
announce_to (some st) b = react st b

pub ring_after-calls :
    (k : Str) (b : Bool) (l : List (NodeInfo × MemberState)) (info : NodeInfo)
    (f : Option MemberState)
    → ring_after k b (l ++ calls info f)
      ≡ (if str_eq k info.node_id then announce_to f (ring_after k b l) else ring_after k b l)
ring_after-calls k b l info none = rw (append-nil l) (ground arith)
ring_after-calls k b l info (some st) = ring_after-snoc k b l info st

pub Move-named :
    {id : Str} {d : Option MemberEntry} {e : MemberEntry} {f : Option MemberState}
    → Move id d e f
    → ((x : MemberEntry) → d ≡ some x → x.info.node_id ≡ id)
    → e.info.node_id ≡ id
Move-named (met n a b c) h = a
Move-named (heard n a b c) h = a
Move-named (revives x n a b c g i) h = a ∙ h x n
Move-named (rejoins x n a b c g i) h = a ∙ h x n
Move-named (doubts x n a b c g i) h = a ∙ h x n
Move-named (dies x n a b c g i) h = a ∙ h x n
Move-named (retires x n a b c g i) h = a ∙ h x n

Move-slots :
    {id : Str} {d : Option MemberEntry} {e : MemberEntry} {f : Option MemberState} (b : Bool)
    → Move id d e f
    → SlotsFit d b
    → SlotsFit (some e) (announce_to f b)
Move-slots b (met n a st c) h = ground arith
Move-slots b (heard n a (inl st) c) h = ground arith
Move-slots b (heard n a (inr st) c) h = ground arith
Move-slots b (revives x n a l st g i) h = ground arith
Move-slots b (rejoins x n a l st g i) h = ground arith
Move-slots b (doubts x n a l st g i) h = ground arith
Move-slots b (dies x n a l st g i) h = ground arith
Move-slots b (retires x n a l st g i) h = ground arith

written_slots :
    (s : Swim) (id k : Str) (e : MemberEntry) (f : Option MemberState)
    → IsServed s
    → e.info.node_id ≡ id
    → id ≢ s.self.node_id
    → k ≢ s.self.node_id
    → Move id (find id s.members) e f
    → SlotsFit
        (find k (insert id e s.members))
        (ring_after k (str_eq k s.self.node_id) (s.fired ++ calls e.info f))
written_slots s id k e f v name elsewhere h q =
    rw
      (
        find-insert id k e s.members,
        ring_after-calls k (str_eq k s.self.node_id) s.fired e.info f,
        name,
      )
      (elim (Bool-cases (str_eq k id)) [
        | inr differ ↦ rw differ (v.slots k h)
        | inl same ↦ rw same (
            subst (λ j. SlotsFit (some e) (announce_to f (has_slots s j)))
              (sym ((str_eq_iff k id).0 same))
              (Move-slots (has_slots s id) q (v.slots id elsewhere)))
      ])

pub written_elsewhere :
    (s : Swim) (id : Str)
    → (find id s.members ≡ none → id ≢ s.self.node_id)
    → IsServed s
    → id ≢ s.self.node_id
written_elsewhere s id p v = elim (Option-cases (find id s.members)) [
  | inl missing ↦ p missing
  | inr (x, there) ↦ λ same. ground (arith, v.apart, there)
]

pub Effect-IsServed : {s t : Swim} → Effect s t → IsServed s → IsServed t
Effect-IsServed {s} {t} (quiet a b m d) v = record {
  named = λ k e h. v.named k e (rw m at h);
  apart = rw (a, m) v.apart;
  own = rw (a, b, d) v.own;
  slots = λ k h. rw (m, d, a) (v.slots k (rw a at h));
}
Effect-IsServed {s} {t} (retires_self a b m d) v = record {
  named = λ k e h. v.named k e (rw m at h);
  apart = rw (a, m) v.apart;
  own =
      rw (a, b, d)
        (ground (
          arith,
          ring_after-snoc s.self.node_id (str_eq s.self.node_id s.self.node_id) s.fired s.self
              MemberState.left,
          str_eq_iff s.self.node_id s.self.node_id,
        ));
  slots = λ k h.
      rw (m, d, a)
        (ground (
          arith,
          ring_after-snoc k (str_eq k s.self.node_id) s.fired s.self MemberState.left,
          str_eq_iff k s.self.node_id,
          v.slots k (rw a at h),
        ));
}
Effect-IsServed {s} {t} (writes id e f a b m d p q) v =
    let name = Move-named q (v.named id) in
    let elsewhere = written_elsewhere s id p v in
    record {
      named = λ k x h. elim (Bool-cases (str_eq k id)) [
        | inl same ↦ ground (arith, find-insert id k e s.members, str_eq_iff k id, ap (find k) m)
        | inr differ ↦ v.named k x (ground (arith, find-insert id k e s.members, ap (find k) m))
      ];
      apart =
          rw (a, m)
            (ground (
              arith,
              find-insert id s.self.node_id e s.members,
              str_eq_iff s.self.node_id id,
              v.apart,
            ));
      own =
          rw (a, b, d)
            (ground (
              arith,
              ring_after-calls s.self.node_id (str_eq s.self.node_id s.self.node_id) s.fired e.info
                  f,
              str_eq_iff s.self.node_id e.info.node_id,
              v.own,
            ));
      slots = λ k h. rw (m, d, a) (written_slots s id k e f v name elsewhere (rw a at h) q);
    }

pub Effects-IsServed : {s t : Swim} → Effects s t → IsServed s → IsServed t
Effects-IsServed done v = v
Effects-IsServed (more p e) v = Effect-IsServed e (Effects-IsServed p v)

pub run-IsServed : (s : Swim) (cs : List Call) → Sorted s.members → IsServed s → IsServed (run s cs)
unfolding run
run-IsServed s [] o v = v
run-IsServed s (c ∷ cs) o v =
    run-IsServed (step s c) cs (step-Sorted s c o) (Effects-IsServed (step-Effects s c o) v)

-- After any calls, in any order, from the state in which a node starts: the callbacks have put every
-- member that is Alive or Suspect into the ring and have taken every member that is Left out of it,
-- no node that is not a member is in the ring, and the node itself is in it exactly while it has not
-- left; the ring begins with the node itself.
pub run-new-IsServed :
    (self : NodeInfo) (mult : ℕ) (cs : List Call) → IsServed (run (new self mult) cs)
unfolding new
run-new-IsServed self mult cs = run-IsServed (new self mult) cs tt (new-IsServed self mult)
