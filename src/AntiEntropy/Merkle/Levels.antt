-- ===== src/AntiEntropy/Merkle/Levels.antt =====
-- The nodes of the tree by their index: children, levels, and the lists of the comparison.
use mini_dynamo.Base.{
  ℕ, zero, suc, ◌+◌, ◌*◌, ◌/◌, ◌^◌, ◌≤◌, ◌≡◌, Bool, false, not, ◌||◌, List, [], ◌∷◌, ◌==◌, arith,
}
use native.Mathlib.Numerals.{unary_clauses}
use mini_dynamo.AntiEntropy.Merkle.{MerkleTree, DiffRange}

unfoldable pub has : ℕ → List ℕ → Bool
has y [] = false
has y (i ∷ l) = (y == i) || has y l

-- Whether a range of the leaf is among those reported.
unfoldable pub reports : ℕ → List DiffRange → Bool
reports leaf [] = false
reports leaf (r ∷ l) = (leaf == r.leaf_index) || reports leaf l

abbrev pub parted : MerkleTree → MerkleTree → ℕ → Bool
parted a b i = not (a.nodes i == b.nodes i)

pub child : (y i : ℕ) (r : Bool) → ((y == 2 * i) || ((y == (2 * i + 1)) || r)) ≡ ((y / 2 == i) || r)
child y i r = ground arith

-- `low` doubled `k` times: the first index of the level `k` below one that begins at `low`.
unfoldable pub shifted : ℕ → ℕ → ℕ
shifted zero low = low
shifted (suc k) low = shifted k (2 * low)

pub shifted-le : (k low : ℕ) → low ≤ shifted k low
unfolding shifted
shifted-le zero low = omega arith
shifted-le (suc k) low = omega (arith, shifted-le k (2 * low))

double_pow : (k low : ℕ) → 2 ^ k * (2 * low) ≡ 2 ^ suc k * low
double_pow k low = simp unary_clauses (grind arith)

pub shifted-pow : (k low : ℕ) → shifted k low ≡ 2 ^ k * low
unfolding shifted
shifted-pow zero low = omega arith
shifted-pow (suc k) low = omega (arith, shifted-pow k (2 * low), double_pow k low)

pub root_level : (k start : ℕ) → start ≡ 2 ^ k → start ≡ shifted k 1
root_level k start h = omega (arith, h, shifted-pow k 1)

pub or_false : (x : Bool) → (x || false) ≡ x
or_false x = ground arith

-- The shape that the constructor gives a tree and nothing changes.
pub record IsTree (t : MerkleTree) : Type 0 where
  pub start_is : t.leaf_start ≡ 2 ^ t.depth
  pub total_is : t.total ≡ 2 ^ t.depth * 2
