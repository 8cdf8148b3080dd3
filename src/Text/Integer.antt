-- ===== src/Text/Integer.antt =====
-- std::stoi, with the int that it returns.
use mini_dynamo.Base.{
  ℕ, zero, suc, ◌<◌, ◌≡◌, ◌≢◌, refl, ap, ◌∙◌, Bool, true, false, Option, none, some, [], ◌∷◌, ◌==◌,
  leb, if◌then◌else◌, arith,
}
use mini_dynamo.Text.{Str}
use mini_dynamo.Text.Decimal.{
  read, is_space, starts_digit, skip_space, AllDigits, to_string, to_string-AllDigits,
  to_string-ne-nil, read-to_string,
}

-- `negsuc n` is -(n + 1).
pub data ℤ : Type 0 where
  pos negsuc : ℕ → ℤ

abbrev pub negated : ℕ → ℤ
negated zero = ℤ.pos zero
negated (suc n) = ℤ.negsuc n

abbrev pub int_value : Bool → Str → Option ℤ
int_value minus s =
    let n = read s 0 in
    if starts_digit s
    then if minus
      then if leb n 2147483648 then some (negated n) else none
      else if leb n 2147483647
      then some (ℤ.pos n)
      else none
    else none

unfoldable pub signed_int : Str → Option ℤ
signed_int [] = none
signed_int (c ∷ s) =
    if c == 43
    then int_value false s
    else if c == 45
    then int_value true s
    else int_value false (c ∷ s)

-- `none` where stoi throws: no digits, or a value past int.
unfoldable pub stoi : Str → Option ℤ
unfolding signed_int
stoi s = signed_int (skip_space s)

digits_read_int :
    (s : Str) → s ≢ [] → AllDigits s → read s 0 < 2147483648 → stoi s ≡ some (ℤ.pos (read s 0))
unfolding stoi skip_space signed_int
digits_read_int [] e d h = absurd (e refl)
digits_read_int (c ∷ s) e d h =
    let space : is_space c ≡ false = ground (arith, d.0) in rw space (ground (arith, d.0))

pub stoi-to_string : (n : ℕ) → n < 2147483648 → stoi (to_string n) ≡ some (ℤ.pos n)
stoi-to_string n h =
    digits_read_int (to_string n) (to_string-ne-nil n) (to_string-AllDigits n) (rw read-to_string h)
    ∙ ap (λ m. some (ℤ.pos m)) (read-to_string n)
