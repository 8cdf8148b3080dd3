-- ===== src/Text.antt =====
-- std::string as the list of its bytes, with the comparisons that std::map<std::string, ...> uses.
pub mod Decimal
pub mod Split
pub mod Integer
use Prim.Native.Char.{code}
use Prim.Native.String.{String}
use mini_dynamo.Base.{
  ℕ, ◌≡◌, ◌↔◌, ◌⊎◌, inl, inr, refl, Bool, true, false, List, [], ◌∷◌, arith, if◌then◌else◌, ltb,
  ◌==◌, ==_iff, ◌&&◌,
}
use mini_dynamo.OrdMap.{Key}

abbrev pub Str : Type 0
Str = List ℕ

-- The bytes of an ASCII literal.
abbrev pub codes : String → Str
codes String.[] = []
codes (String.◌∷◌ c s) = code c ∷ codes s

unfoldable pub str_eq : Str → Str → Bool
str_eq [] [] = true
str_eq [] (d ∷ t) = false
str_eq (c ∷ s) [] = false
str_eq (c ∷ s) (d ∷ t) = (c == d) && str_eq s t

-- operator< of std::string: lexicographic on bytes.
unfoldable pub str_lt : Str → Str → Bool
str_lt [] [] = false
str_lt [] (d ∷ t) = true
str_lt (c ∷ s) [] = false
str_lt (c ∷ s) (d ∷ t) =
    let rest = str_lt s t in if ltb c d then true else if ltb d c then false else rest

pub str_eq_iff : (s t : Str) → (str_eq s t ≡ true) ↔ (s ≡ t)
unfolding str_eq
str_eq_iff [] [] = ground arith
str_eq_iff [] (d ∷ t) = ground arith
str_eq_iff (c ∷ s) [] = ground arith
str_eq_iff (c ∷ s) (d ∷ t) = ground (arith, str_eq_iff s t)

pub str_lt_irrefl : (s : Str) → str_lt s s ≡ false
unfolding str_lt
str_lt_irrefl [] = refl
str_lt_irrefl (c ∷ s) = ground (arith, str_lt_irrefl s)

pub str_lt_trans : (s t u : Str) → str_lt s t ≡ true → str_lt t u ≡ true → str_lt s u ≡ true
unfolding str_lt
str_lt_trans [] [] u p q = absurd (cc)
str_lt_trans (c ∷ s) [] u p q = absurd (cc)
str_lt_trans s (d ∷ t) [] p q = absurd (cc)
str_lt_trans [] (d ∷ t) (e ∷ u) p q = refl
str_lt_trans (c ∷ s) (d ∷ t) (e ∷ u) p q = ground (arith, str_lt_trans s t u)

pub str_lt_total : (s t : Str) → (str_lt s t ≡ true) ⊎ ((s ≡ t) ⊎ (str_lt t s ≡ true))
unfolding str_lt
str_lt_total [] [] = inr (inl refl)
str_lt_total [] (d ∷ t) = inl refl
str_lt_total (c ∷ s) [] = inr (inr refl)
str_lt_total (c ∷ s) (d ∷ t) = ground (arith, str_lt_total s t)

instance abbrev pub str_key : Key Str
str_key = record {
  beq = str_eq;
  lt = str_lt;
  beq_iff = str_eq_iff;
  lt_irrefl = str_lt_irrefl;
  lt_trans = str_lt_trans;
  lt_total = str_lt_total;
}

pub ltb_irrefl : (a : ℕ) → ltb a a ≡ false
ltb_irrefl a = ground arith

pub ltb_trans : (a b c : ℕ) → ltb a b ≡ true → ltb b c ≡ true → ltb a c ≡ true
ltb_trans a b c p q = ground arith

pub ltb_total : (a b : ℕ) → (ltb a b ≡ true) ⊎ ((a ≡ b) ⊎ (ltb b a ≡ true))
ltb_total a b = ground arith

-- Keys of the ring: uint64_t under its own order.
instance abbrev pub nat_key : Key ℕ
nat_key = record {
  beq = ◌==◌;
  lt = ltb;
  beq_iff = ==_iff;
  lt_irrefl = ltb_irrefl;
  lt_trans = ltb_trans;
  lt_total = ltb_total;
}
