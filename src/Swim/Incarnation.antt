-- ===== src/Swim/Incarnation.antt =====
-- Incarnations order what is believed of a member.
use mini_dynamo.Base.{ℕ, ◌+◌, ◌≤◌, ◌<◌, ◌≡◌, inl, inr, true, Option, some, arith, Bool-cases, two64}
use mini_dynamo.Text.{Str, str_key, str_eq, str_eq_iff}
use mini_dynamo.OrdMap.{find, find-insert, Sorted}
use mini_dynamo.Swim.{Swim, MemberState, MemberEntry}
use mini_dynamo.Swim.Queries.{is_up}
use mini_dynamo.Swim.Step.{
  Call, step, applies, joins, leaves, suspects, confirms_dead, refutes, enqueues, sends,
}
use mini_dynamo.Swim.Step
use mini_dynamo.Swim.Lifecycle.{
  Move, met, heard, revives, rejoins, doubts, dies, retires, Effect, quiet, retires_self, writes,
}
use mini_dynamo.Swim.Effects.{step-Effect}
use mini_dynamo.Swim.Expiry.{expire_suspects_exact, aged}

-- What may become of a member: its incarnation does not fall, and it is up again after a death only at
-- a strictly newer one.
abbrev pub Grows : MemberEntry → MemberEntry → Type 0
Grows x y =
    (x.incarnation ≤ y.incarnation)
    × (x.state ≡ MemberState.dead → is_up y.state ≡ true → x.incarnation < y.incarnation)

Move-Grows :
    {id : Str} {d : Option MemberEntry} {e : MemberEntry} {f : Option MemberState} (x : MemberEntry)
    → Move id d e f
    → d ≡ some x
    → x.incarnation + 1 < two64
    → Grows x e
Move-Grows x (met n a b c) h w = absurd (cc)
Move-Grows x (heard n a b c) h w = absurd (cc)
Move-Grows x (revives y n a b c g i) h w = ground arith
Move-Grows x (rejoins y n a b c g i) h w = ground arith
Move-Grows x (doubts y n a b c g i) h w = ground arith
Move-Grows x (dies y n a b c g i) h w = ground arith
Move-Grows x (retires y n a b c g i) h w = ground arith

abbrev Held : Swim → Str → MemberEntry → Type 0
Held s k x = find k s.members ≡ some x

Effect-Grows :
    {s t : Swim} (k : Str) (x : MemberEntry)
    → Effect s t
    → Held s k x
    → x.incarnation + 1 < two64
    → (y : MemberEntry) × Held t k y × Grows x y
Effect-Grows k x (quiet a b m d) h w = (x, rw m h, ground arith)
Effect-Grows k x (retires_self a b m d) h w = (x, rw m h, ground arith)
Effect-Grows {s} k x (writes id e f a b m d p q) h w = elim (Bool-cases (str_eq k id)) [
  | inl same ↦ (
    e,
    rw m (ground (arith, find-insert id k e s.members)),
    Move-Grows x q (ground (arith, str_eq_iff k id)) w,
  )
  | inr differ ↦ (x, rw m (ground (arith, find-insert id k e s.members)), ground arith)
]

aged-Grows : (now timeout : ℕ) (x : MemberEntry) → Grows x (aged now timeout x)
aged-Grows now timeout x = ground arith

-- Over any call, with the members in key order: who is a member stays one, and its incarnation does
-- not fall; if it was Dead and is up again, its incarnation is strictly newer, so that the peers that
-- hold the death accept the revival. The held incarnation is below the largest uint64_t.
pub step-Grows :
    (s : Swim) (c : Call) (k : Str) (x : MemberEntry)
    → Sorted s.members
    → find k s.members ≡ some x
    → x.incarnation + 1 < two64
    → (y : MemberEntry) × (find k (step s c).members ≡ some y) × Grows x y
unfolding step
step-Grows s (Step.expires now timeout) k x o h w = (
  aged now timeout x,
  ground (arith, (expire_suspects_exact s now timeout o).0 k),
  aged-Grows now timeout x,
)
step-Grows s (applies now ev) k x o h w = Effect-Grows k x (step-Effect s (applies now ev) tt) h w
step-Grows s (joins ev) k x o h w = Effect-Grows k x (step-Effect s (joins ev) tt) h w
step-Grows s (leaves id) k x o h w = Effect-Grows k x (step-Effect s (leaves id) tt) h w
step-Grows s (suspects now id) k x o h w = Effect-Grows k x (step-Effect s (suspects now id) tt) h w
step-Grows s (confirms_dead id) k x o h w =
    Effect-Grows k x (step-Effect s (confirms_dead id) tt) h w
step-Grows s refutes k x o h w = Effect-Grows k x (step-Effect s refutes tt) h w
step-Grows s (enqueues ev) k x o h w = Effect-Grows k x (step-Effect s (enqueues ev) tt) h w
step-Grows s sends k x o h w = Effect-Grows k x (step-Effect s sends tt) h w
