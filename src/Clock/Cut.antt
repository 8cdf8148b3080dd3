-- ===== src/Clock/Cut.antt =====
-- A list of ages cut in two: what `prune` drops and what it leaves.
use mini_dynamo.Base.{
  ℕ, zero, suc, ◌≤◌, ◌≡◌, ◌⊎◌, inl, inr, refl, sym, subst, true, List, [], ◌∷◌, arith, All, length,
  take, drop,
}
use mini_dynamo.Text.{str_key}
use mini_dynamo.Clock.{Age, age_le}
use mini_dynamo.Clock.Ages.{Has, Ordered, Distinct}

pub Has-All : {a : Age} (P : Age → Type 0) (l : List Age) → All P l → Has a l → P a
Has-All P [] p h = absurd h
Has-All P (b ∷ l) p (inl e) = subst P (sym e) p.0
Has-All P (b ∷ l) p (inr h) = Has-All P l p.1 h

pub Has-take : (a : Age) (n : ℕ) (l : List Age) → Has a (take n l) → Has a l
Has-take a zero l h = absurd h
Has-take a (suc n) [] h = absurd h
Has-take a (suc n) (b ∷ l) (inl e) = inl e
Has-take a (suc n) (b ∷ l) (inr h) = inr (Has-take a n l h)

pub Has-split : (a : Age) (n : ℕ) (l : List Age) → Has a l → Has a (take n l) ⊎ Has a (drop n l)
Has-split a zero l h = inr h
Has-split a (suc n) [] h = absurd h
Has-split a (suc n) (b ∷ l) (inl e) = inl (inl e)
Has-split a (suc n) (b ∷ l) (inr h) = elim (Has-split a n l h) [
  | inl t ↦ inl (inr t)
  | inr d ↦ inr d
]

pub Has-drop : (a : Age) (n : ℕ) (l : List Age) → Has a (drop n l) → Has a l
Has-drop a zero l h = h
Has-drop a (suc n) [] h = absurd h
Has-drop a (suc n) (b ∷ l) h = inr (Has-drop a n l h)

-- In an ordered list what is taken is no younger than what is left.
pub take-le-drop :
    (a b : Age) (n : ℕ) (l : List Age)
    → Ordered l
    → Has a (take n l)
    → Has b (drop n l)
    → age_le a b ≡ true
take-le-drop a b zero l o h g = absurd h
take-le-drop a b (suc n) [] o h g = absurd h
take-le-drop a b (suc n) (c ∷ l) o (inl e) g =
    subst (λ x. age_le x b ≡ true) (sym e)
      (Has-All (λ y. age_le c y ≡ true) l o.0 (Has-drop b n l g))
take-le-drop a b (suc n) (c ∷ l) o (inr h) g = take-le-drop a b n l o.1 h g

pub All-take : (P : Age → Type 0) (n : ℕ) (l : List Age) → All P l → All P (take n l)
All-take P zero l p = tt
All-take P (suc n) [] p = tt
All-take P (suc n) (a ∷ l) p = (p.0, All-take P n l p.1)

pub take-Distinct : (n : ℕ) (l : List Age) → Distinct l → Distinct (take n l)
take-Distinct zero l d = tt
take-Distinct (suc n) [] d = tt
take-Distinct (suc n) (a ∷ l) d = (All-take _ n l d.0, take-Distinct n l d.1)

pub length-take : (n : ℕ) (l : List Age) → n ≤ length l → length (take n l) ≡ n
length-take zero l h = refl
length-take (suc n) [] h = absurd (omega arith)
length-take (suc n) (a ∷ l) h = omega (arith, length-take n l (omega arith))
