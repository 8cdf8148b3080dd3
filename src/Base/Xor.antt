-- ===== src/Base/Xor.antt =====
-- Exclusive or on the native numbers: its last digit, its halves, and that order does not matter.
use Prim.Native.Nat.{
  ℕ, zero, suc, ◌+◌, ◌*◌, ◌/◌, ◌%◌, ◌≤◌, bit_xor, digits, differ, bit_xor-bitwise,
}
use mathlib.Core.Path.{◌≡◌, refl, ap, ◌∙◌}
use native.Mathlib.Omega.{arith}

-- With count enough, the count does not matter.
same_count : (n a b : ℕ) → a ≤ n → digits (λ y. y) differ n a b ≡ digits (λ y. y) differ a a b
same_count n a b h = go n a a b h (omega arith)
  where
    go : (n m a b : ℕ) → a ≤ n → a ≤ m → digits (λ y. y) differ n a b ≡ digits (λ y. y) differ m a b
    go zero zero zero b p q = refl
    go zero (suc m) zero b p q = refl
    go (suc n) zero zero b p q = refl
    go (suc n) (suc m) zero b p q = refl
    go zero m (suc a) b p q = absurd (omega arith)
    go (suc n) zero (suc a) b p q = absurd (omega arith)
    go (suc n) (suc m) (suc a) b p q =
        omega (arith, go n m (suc a / 2) (b / 2) (omega arith) (omega arith))

differ-parity : (x y : ℕ) → x ≤ 1 → y ≤ 1 → differ x y ≡ (x + y) % 2
differ-parity zero zero p q = refl
differ-parity zero (suc zero) p q = refl
differ-parity (suc zero) zero p q = refl
differ-parity (suc zero) (suc zero) p q = refl
differ-parity zero (suc (suc y)) p q = absurd (omega arith)
differ-parity (suc zero) (suc (suc y)) p q = absurd (omega arith)
differ-parity (suc (suc x)) y p q = absurd (omega arith)

bit_xor-zero_left : (b : ℕ) → bit_xor 0 b ≡ b
bit_xor-zero_left b = bit_xor-bitwise 0 b

bit_xor-step : (a b : ℕ) → bit_xor a b ≡ bit_xor (a / 2) (b / 2) * 2 + (a + b) % 2
bit_xor-step zero b = omega (arith, bit_xor-zero_left b, bit_xor-zero_left (b / 2))
bit_xor-step (suc a) b = omega (
  arith,
  bit_xor-bitwise (suc a) b,
  bit_xor-bitwise (suc a / 2) (b / 2),
  same_count a (suc a / 2) (b / 2) (omega arith),
  differ-parity (suc a % 2) (b % 2) (omega arith) (omega arith),
)

bit_xor-half : (a b : ℕ) → bit_xor a b / 2 ≡ bit_xor (a / 2) (b / 2)
bit_xor-half a b = omega (arith, bit_xor-step a b)

bit_xor-parity : (a b : ℕ) → bit_xor a b % 2 ≡ (a + b) % 2
bit_xor-parity a b = omega (arith, bit_xor-step a b)

comm_up_to : (n a b : ℕ) → a ≤ n → b ≤ n → bit_xor a b ≡ bit_xor b a
comm_up_to zero zero zero p q = refl
comm_up_to zero (suc a) b p q = absurd (omega arith)
comm_up_to zero a (suc b) p q = absurd (omega arith)
comm_up_to (suc n) a b p q = omega (
  arith,
  bit_xor-step a b,
  bit_xor-step b a,
  comm_up_to n (a / 2) (b / 2) (omega arith) (omega arith),
)

pub bit_xor_comm : (a b : ℕ) → bit_xor a b ≡ bit_xor b a
bit_xor_comm a b = comm_up_to (a + b) a b (omega arith) (omega arith)

assoc_up_to :
    (n a b c : ℕ) → a ≤ n → b ≤ n → c ≤ n → bit_xor (bit_xor a b) c ≡ bit_xor a (bit_xor b c)
assoc_up_to zero zero zero zero p q r = refl
assoc_up_to zero (suc a) b c p q r = absurd (omega arith)
assoc_up_to zero a (suc b) c p q r = absurd (omega arith)
assoc_up_to zero a b (suc c) p q r = absurd (omega arith)
assoc_up_to (suc n) a b c p q r =
    let halves = assoc_up_to n (a / 2) (b / 2) (c / 2) (omega arith) (omega arith) (omega arith) in
    let left = ap (λ x. bit_xor x (c / 2)) (bit_xor-half a b) in
    let right = ap (bit_xor (a / 2)) (bit_xor-half b c) in
    omega (
      arith,
      bit_xor-step (bit_xor a b) c,
      bit_xor-step a (bit_xor b c),
      bit_xor-parity a b,
      bit_xor-parity b c,
      halves,
      left,
      right,
    )

pub bit_xor_assoc : (a b c : ℕ) → bit_xor (bit_xor a b) c ≡ bit_xor a (bit_xor b c)
bit_xor_assoc a b c = assoc_up_to (a + b + c) a b c (omega arith) (omega arith) (omega arith)

pub bit_xor-zero : (a : ℕ) → bit_xor a 0 ≡ a
bit_xor-zero a = bit_xor_comm a 0 ∙ bit_xor-zero_left a
