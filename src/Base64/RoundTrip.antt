-- ===== src/Base64/RoundTrip.antt =====
-- What `encode` writes of bytes, `decode` reads back.
use mini_dynamo.Base.{
  ℕ, zero, suc, ◌+◌, ◌-◌, ◌*◌, ◌/◌, ◌%◌, ◌^◌, ◌<◌, ◌≡◌, ◌≢◌, not, refl, ◌∙◌, Bool, true, false,
  if◌then◌else◌, inl, inr, Bool-cases, ◌≤◌, [], ◌∷◌, ◌==◌, ==_iff, leb, two32, arith, All,
}
use mathlib.Core.Path.{ap₂}
use mini_dynamo.Text.{Str}
use mini_dynamo.Base64.{letter, decode_table, encode, decode, decode_from, pad}

-- The check passes at the `n` sextets from `first` on.
passes : (ℕ → Bool) → ℕ → ℕ → Bool
passes check first zero = true
passes check first (suc n) = if check first then passes check (first + 1) n else false

check-passes :
    (check : ℕ → Bool) (first n v : ℕ)
    → first ≤ v
    → v < first + n
    → passes check first n ≡ true
    → check v ≡ true
unfolding passes
check-passes check first zero v l h e = absurd (omega arith)
check-passes check first (suc n) v l h e = elim (Bool-cases (v == first)) [
  | inl here ↦ ground (arith, ==_iff v first)
  | inr later ↦
      check-passes check (first + 1) n v (ground (arith, ==_iff v first)) (omega arith)
        (ground arith)
]

table_checked : passes (λ v. decode_table (letter v) == v) 0 64 ≡ true
unfolding passes decode_table letter
table_checked = refl

decode_table-letter : (v : ℕ) → v < 64 → decode_table (letter v) ≡ v
decode_table-letter v h = (==_iff _ v).0 (check-passes _ 0 64 v (omega arith) h table_checked)

-- A letter of the alphabet fills the buffer; with eight bits or more a byte is pushed.
keep_letter :
    (v buffer bits : ℕ) (s : Str)
    → v < 64
    → leb 8 (bits + 6) ≡ false
    → decode_from buffer bits (letter v ∷ s) ≡ decode_from (buffer * 64 % two32 + v) (bits + 6) s
unfolding decode_from
keep_letter v buffer bits s h few =
    let is = decode_table-letter v h in
    let known : (v == 255) ≡ false = ground arith in rw (is, known, few)

push_letter :
    (v buffer bits : ℕ) (s : Str)
    → v < 64
    → leb 8 (bits + 6) ≡ true
    → decode_from buffer bits (letter v ∷ s)
      ≡ ((buffer * 64 % two32 + v) / 2 ^ (bits + 6 - 8) % 256)
        ∷ decode_from (buffer * 64 % two32 + v) (bits + 6 - 8) s
unfolding decode_from
push_letter v buffer bits s h many =
    let is = decode_table-letter v h in
    let known : (v == 255) ≡ false = ground arith in rw (is, known, many)

skip_pad :
    (buffer bits : ℕ) (s : Str) → decode_from buffer bits (pad ∷ s) ≡ decode_from buffer bits s
unfolding decode_from
skip_pad buffer bits s = refl

first :
    (b u v : ℕ)
    → u < 64
    → v < 64
    → ((b * 64 % two32 + u) * 64 % two32 + v) / 16 % 256 ≡ u * 4 + v / 16
first b u v hu hv = omega arith

second :
    (b v w : ℕ)
    → v < 64
    → w < 64
    → ((b * 64 % two32 + v) * 64 % two32 + w) / 4 % 256 ≡ v % 16 * 16 + w / 4
second b v w hv hw = omega arith

third :
    (b w x : ℕ)
    → w < 64
    → x < 64
    → ((b * 64 % two32 + w) * 64 % two32 + x) / 1 % 256 ≡ w % 4 * 64 + x
third b w x hw hx = omega arith

-- Four letters give three bytes.
decode_group :
    (u v w x buffer : ℕ) (s : Str)
    → u < 64
    → v < 64
    → w < 64
    → x < 64
    → (buffer' : ℕ) × (decode_from buffer 0 (letter u ∷ letter v ∷ letter w ∷ letter x ∷ s)
        ≡ (u * 4 + v / 16) ∷ (v % 16 * 16 + w / 4) ∷ (w % 4 * 64 + x) ∷ decode_from buffer' 0 s)
decode_group u v w x buffer s hu hv hw hx =
    let b1 = buffer * 64 % two32 + u in
    let b2 = b1 * 64 % two32 + v in
    let b3 = b2 * 64 % two32 + w in
    let b4 = b3 * 64 % two32 + x in
    (
      b4,
      keep_letter u buffer 0 (letter v ∷ letter w ∷ letter x ∷ s) hu refl
          ∙ push_letter v b1 6 (letter w ∷ letter x ∷ s) hv refl
          ∙ ap₂ ◌∷◌ (first buffer u v hu hv) (
              push_letter w b2 4 (letter x ∷ s) hw refl
              ∙ ap₂ ◌∷◌ (second b1 v w hv hw)
                  (push_letter x b3 2 s hx refl ∙ ap₂ ◌∷◌ (third b2 w x hw hx) refl)),
    )

-- Three letters, and the padding behind them, give two bytes.
decode_three :
    (u v w : ℕ)
    → u < 64
    → v < 64
    → w < 64
    → (buffer : ℕ)
    → decode_from buffer 0 (letter u ∷ letter v ∷ letter w ∷ pad ∷ [])
      ≡ (u * 4 + v / 16) ∷ (v % 16 * 16 + w / 4) ∷ []
unfolding decode_from
decode_three u v w hu hv hw buffer =
    let b1 = buffer * 64 % two32 + u in
    let b2 = b1 * 64 % two32 + v in
    keep_letter u buffer 0 (letter v ∷ letter w ∷ pad ∷ []) hu refl
    ∙ push_letter v b1 6 (letter w ∷ pad ∷ []) hv refl
    ∙ ap₂ ◌∷◌ (first buffer u v hu hv)
        (push_letter w b2 4 (pad ∷ []) hw refl ∙ ap₂ ◌∷◌ (second b1 v w hv hw) refl)

decode_two :
    (u v : ℕ)
    → u < 64
    → v < 64
    → (buffer : ℕ)
    → decode_from buffer 0 (letter u ∷ letter v ∷ pad ∷ pad ∷ []) ≡ (u * 4 + v / 16) ∷ []
unfolding decode_from
decode_two u v hu hv buffer =
    let b1 = buffer * 64 % two32 + u in
    keep_letter u buffer 0 (letter v ∷ pad ∷ pad ∷ []) hu refl
    ∙ push_letter v b1 6 (pad ∷ pad ∷ []) hv refl
    ∙ ap₂ ◌∷◌ (first buffer u v hu hv) refl

abbrev pub AllBytes : Str → Type 0
AllBytes = All (λ c. c < 256)

decode_from-encode : (s : Str) (buffer : ℕ) → AllBytes s → decode_from buffer 0 (encode s) ≡ s
unfolding encode
decode_from-encode [] buffer h = unfold decode_from in refl
decode_from-encode (a ∷ []) buffer h =
    decode_two (a * 65536 / 2 ^ 18 % 64) (a * 65536 / 2 ^ 12 % 64) (omega arith) (omega arith)
      buffer
    ∙ ap₂ ◌∷◌ (omega arith) refl
decode_from-encode (a ∷ b ∷ []) buffer h =
    let n = a * 65536 + b * 256 in
    decode_three (n / 2 ^ 18 % 64) (n / 2 ^ 12 % 64) (n / 2 ^ 6 % 64) (omega arith) (omega arith)
      (omega arith) buffer
    ∙ ap₂ ◌∷◌ (omega arith) (ap₂ ◌∷◌ (omega arith) refl)
decode_from-encode (a ∷ b ∷ c ∷ s) buffer h =
    let n = a * 65536 + b * 256 + c in
    let (buffer', group) =
      decode_group (n / 2 ^ 18 % 64) (n / 2 ^ 12 % 64) (n / 2 ^ 6 % 64) (n % 64) buffer (encode s)
        (omega arith) (omega arith) (omega arith) (omega arith) in
    group
    ∙ ap₂ ◌∷◌ (omega arith)
        (ap₂ ◌∷◌ (omega arith) (ap₂ ◌∷◌ (omega arith) (decode_from-encode s buffer' (h.1.1.1))))

-- Any bytes, zero bytes and separators among them, are read back from their base64 text as they were.
pub decode-encode : (s : Str) → All (λ (c : ℕ). c < 256) s → decode (encode s) ≡ s
unfolding decode
decode-encode s h = decode_from-encode s 0 h

bars_checked : passes (λ v. not (letter v == 124)) 0 64 ≡ true
unfolding passes letter
bars_checked = refl

letter-ne-bar : (v : ℕ) → v < 64 → letter v ≢ 124
letter-ne-bar v h =
    ground (arith, check-passes (λ u. not (letter u == 124)) 0 64 v (omega arith) h bars_checked)

six_bits-ne-bar : (m : ℕ) → letter (m % 64) ≢ 124
six_bits-ne-bar m = letter-ne-bar (m % 64) (omega arith)

-- The text holds no '|'.
pub encode-Lacks : (s : Str) → All (λ (c : ℕ). c ≢ 124) (encode s)
unfolding encode
encode-Lacks [] = tt
encode-Lacks (a ∷ []) =
    let n = a * 65536 in
    (
      six_bits-ne-bar (n / 2 ^ 18),
      (six_bits-ne-bar (n / 2 ^ 12), ((λ p. omega arith), ((λ p. omega arith), tt))),
    )
encode-Lacks (a ∷ b ∷ []) =
    let n = a * 65536 + b * 256 in
    (
      six_bits-ne-bar (n / 2 ^ 18),
      (six_bits-ne-bar (n / 2 ^ 12), (six_bits-ne-bar (n / 2 ^ 6), ((λ p. omega arith), tt))),
    )
encode-Lacks (a ∷ b ∷ c ∷ s) =
    let n = a * 65536 + b * 256 + c in
    (
      six_bits-ne-bar (n / 2 ^ 18),
      (
        six_bits-ne-bar (n / 2 ^ 12),
        (six_bits-ne-bar (n / 2 ^ 6), (six_bits-ne-bar n, encode-Lacks s)),
      ),
    )
