-- ===== src/Text/Decimal.antt =====
-- Decimal numbers as the streams and std::to_string write them, and as std::stoull reads them.
use mini_dynamo.Base.{
  ℕ, zero, suc, ◌+◌, ◌-◌, ◌*◌, ◌/◌, ◌%◌, ◌≤◌, ◌<◌, ◌≡◌, ◌≢◌, refl, ap, ◌∙◌, Bool, true, false, ◌&&◌,
  ◌||◌, Option, none, some, [], ◌∷◌, ◌++◌, ◌==◌, leb, if◌then◌else◌, two64, arith, All, Bool-cases,
  inl, inr, length,
}
use mini_dynamo.Text.{Str}
use mini_dynamo.Text.Split.{Lacks}

-- The digits of `n` before `out`; as much fuel as the number is enough.
unfoldable pub show : ℕ → ℕ → Str → Str
show zero n out = out
show (suc fuel) n out =
    let rest = show fuel (n / 10) ((48 + n % 10) ∷ out) in if n == 0 then out else rest

unfoldable pub to_string : ℕ → Str
unfolding show
to_string n = if n == 0 then 48 ∷ [] else show n n []

abbrev pub is_digit : ℕ → Bool
is_digit c = leb 48 c && leb c 57

abbrev pub is_space : ℕ → Bool
is_space c = (c == 32) || (leb 9 c && leb c 13)

-- The value of the digits at the front, after `n`; the rest is not read.
unfoldable pub read : Str → ℕ → ℕ
read [] n = n
read (c ∷ s) n = let on = read s (n * 10 + (c - 48)) in if is_digit c then on else n

unfoldable pub skip_space : Str → Str
skip_space [] = []
skip_space (c ∷ s) = if is_space c then skip_space s else c ∷ s

abbrev pub starts_digit : Str → Bool
starts_digit [] = false
starts_digit (c ∷ s) = is_digit c

-- strtoull on a text that may begin with '-': the value is negated modulo 2^64.
abbrev signed_value : Bool → Str → Option ℕ
signed_value minus s =
    let n = read s 0 in
    if starts_digit s
    then if leb two64 n then none else some (if minus then (two64 - n) % two64 else n)
    else none

pub after_sign : Str → Option ℕ
unfolding read
after_sign [] = none
after_sign (c ∷ s) =
    if c == 43
    then signed_value false s
    else if c == 45
    then signed_value true s
    else signed_value false (c ∷ s)

-- `none` where std::stoull throws: no digits, or a value past uint64_t.
pub stoull : Str → Option ℕ
unfolding after_sign skip_space
stoull s = after_sign (skip_space s)

read-append :
    (s t : Str) (n : ℕ) → All (λ c. is_digit c ≡ true) s → read (s ++ t) n ≡ read t (read s n)
unfolding read
read-append [] t n d = refl
read-append (c ∷ s) t n d = ground (arith, d.0, read-append s t (n * 10 + (c - 48)) d.1)

abbrev pub AllDigits : Str → Type 0
AllDigits = All (λ c. is_digit c ≡ true)

show-AllDigits : (fuel n : ℕ) (out : Str) → AllDigits out → AllDigits (show fuel n out)
unfolding show
show-AllDigits zero n out d = d
show-AllDigits (suc fuel) n out d = elim (Bool-cases (n == 0)) [
  | inl end ↦ rw end d
  | inr more ↦ rw more (show-AllDigits fuel (n / 10) ((48 + n % 10) ∷ out) (ground arith, d))
]

pub to_string-AllDigits : (n : ℕ) → AllDigits (to_string n)
unfolding to_string
to_string-AllDigits n = elim (Bool-cases (n == 0)) [
  | inl end ↦ rw end (refl, tt)
  | inr more ↦ rw more (show-AllDigits n n [] tt)
]

read-digit : (d m : ℕ) (s : Str) → d < 10 → read ((48 + d) ∷ s) m ≡ read s (m * 10 + d)
unfolding read
read-digit d m s h =
    let shift : 48 + d - 48 ≡ d = omega arith in
    let digit : is_digit (48 + d) ≡ true = ground arith in rw (digit, shift)

-- Reading the digits of `n` from 0, and then `out`, is reading `out` from `n`.
read-show : (fuel n : ℕ) (out : Str) → n ≤ fuel → read (show fuel n out) 0 ≡ read out n
unfolding show
read-show zero n out h = ap (read out) (omega arith)
read-show (suc fuel) n out h = elim (Bool-cases (n == 0)) [
  | inl end ↦ rw end (ap (read out) (ground arith))
  | inr more ↦ rw more (
      read-show fuel (n / 10) ((48 + n % 10) ∷ out) (ground arith)
      ∙ read-digit (n % 10) (n / 10) out (omega arith)
      ∙ ap (read out) (omega arith))
]

pub read-to_string : (n : ℕ) → read (to_string n) 0 ≡ n
unfolding to_string
read-to_string n = elim (Bool-cases (n == 0)) [
  | inl end ↦ rw end (unfold read in ground arith)
  | inr more ↦ rw more (read-show n n [] (omega arith) ∙ unfold read in refl)
]

abbrev ten_to : ℕ → ℕ
ten_to zero = 1
ten_to (suc k) = 10 * ten_to k

length-show : (fuel n k : ℕ) (out : Str) → n < ten_to k → length (show fuel n out) ≤ k + length out
unfolding show
length-show zero n k out h = omega arith
length-show (suc fuel) n zero out h =
    let end : (n == 0) ≡ true = ground arith in rw end (omega arith)
length-show (suc fuel) n (suc k) out h = elim (Bool-cases (n == 0)) [
  | inl end ↦ rw end (omega arith)
  | inr more ↦
      let step = length-show fuel (n / 10) k ((48 + n % 10) ∷ out) (omega arith) in
      rw more (omega (arith, step))
]

-- A number below 10^20 has twenty digits at most.
pub length-to_string : (n : ℕ) → n < 100000000000000000000 → length (to_string n) ≤ 20
unfolding to_string
length-to_string n h = elim (Bool-cases (n == 0)) [
  | inl end ↦ rw end (omega arith)
  | inr more ↦ rw more (length-show n n 20 [] (omega arith))
]

show-ne-nil : (fuel n c : ℕ) (out : Str) → show fuel n (c ∷ out) ≢ []
unfolding show
show-ne-nil zero n c out h = cc
show-ne-nil (suc fuel) n c out h = ground (arith, show-ne-nil fuel (n / 10) (48 + n % 10) (c ∷ out))

pub to_string-ne-nil : (n : ℕ) → to_string n ≢ []
unfolding to_string show
to_string-ne-nil zero h = cc
to_string-ne-nil (suc n) h = ground (arith, show-ne-nil n (suc n / 10) (48 + suc n % 10) [])

digits_read : (s : Str) → s ≢ [] → AllDigits s → read s 0 < two64 → stoull s ≡ some (read s 0)
unfolding stoull skip_space after_sign
digits_read [] e d h = absurd (e refl)
digits_read (c ∷ s) e d h =
    let space : is_space c ≡ false = ground (arith, d.0) in rw space (ground (arith, d.0))

-- What std::to_string writes of a uint64_t, std::stoull reads back.
pub stoull-to_string : (n : ℕ) → n < two64 → stoull (to_string n) ≡ some n
stoull-to_string n h =
    digits_read (to_string n) (to_string-ne-nil n) (to_string-AllDigits n) (rw read-to_string h)
    ∙ ap some (read-to_string n)

pub Digits-Lacks : (sep : ℕ) (s : Str) → is_digit sep ≡ false → AllDigits s → Lacks sep s
Digits-Lacks sep [] h d = tt
Digits-Lacks sep (c ∷ s) h d = (λ e. ground (arith, d.0), Digits-Lacks sep s h d.1)

-- static_cast<uint16_t>(std::stoi(s)); `none` where stoi throws: no digits, or a value past int.
abbrev port_value : Bool → Str → Option ℕ
port_value minus s =
    let n = read s 0 in
    if starts_digit s
    then if minus
      then if leb n 2147483648 then some ((65536 - n % 65536) % 65536) else none
      else if leb n 2147483647
      then some (n % 65536)
      else none
    else none

pub signed_port : Str → Option ℕ
unfolding read
signed_port [] = none
signed_port (c ∷ s) =
    if c == 43
    then port_value false s
    else if c == 45
    then port_value true s
    else port_value false (c ∷ s)

pub stoi_uint16 : Str → Option ℕ
unfolding signed_port skip_space
stoi_uint16 s = signed_port (skip_space s)

digits_read_port :
    (s : Str) → s ≢ [] → AllDigits s → read s 0 < 65536 → stoi_uint16 s ≡ some (read s 0)
unfolding stoi_uint16 skip_space signed_port
digits_read_port [] e d h = absurd (e refl)
digits_read_port (c ∷ s) e d h =
    let space : is_space c ≡ false = ground (arith, d.0) in rw space (ground (arith, d.0))

-- A port is read back from its decimal text.
pub stoi_uint16-to_string : (n : ℕ) → n < 65536 → stoi_uint16 (to_string n) ≡ some n
stoi_uint16-to_string n h =
    digits_read_port (to_string n) (to_string-ne-nil n) (to_string-AllDigits n)
      (rw read-to_string h)
    ∙ ap some (read-to_string n)
