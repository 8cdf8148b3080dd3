-- ===== src/Base64.antt =====
-- src/base64.cpp: text in base64, by groups of three bytes, and the reader that skips what is not in
-- the alphabet. A byte is a number below 256; the shifts and the disjoint ORs are written as sums.
pub mod RoundTrip
mod Examples
use mini_dynamo.Base.{
  ℕ, zero, suc, ◌+◌, ◌-◌, ◌*◌, ◌/◌, ◌%◌, ◌^◌, Bool, true, false, Option, none, some, List, [], ◌∷◌,
  ◌++◌, ◌==◌, leb, if◌then◌else◌, two32,
}
use mini_dynamo.Text.{Str, codes}

abbrev pub alphabet : Str
alphabet = codes "ABCDEFGHIJKLMNOPQRSTUVWXYZabcdefghijklmnopqrstuvwxyz0123456789+/"

abbrev get_or : Str → ℕ → ℕ → ℕ
get_or [] i d = d
get_or (c ∷ s) zero d = c
get_or (c ∷ s) (suc i) d = get_or s i d

pub letter : ℕ → ℕ
letter v = get_or alphabet v 0

-- The table of `makeDecodeTable`: 255 for what is not in the alphabet.
index_from : ℕ → Str → ℕ → ℕ
index_from c [] i = 255
index_from c (a ∷ s) i = let on = index_from c s (i + 1) in if a == c then i else on

pub decode_table : ℕ → ℕ
unfolding index_from
decode_table c = index_from c alphabet 0

-- The letter of the six bits of `n` that stand at `shift`.
abbrev pub sextet : ℕ → ℕ → ℕ
sextet n shift = letter (n / 2 ^ shift % 64)

abbrev pub pad : ℕ
pad = 61

unfoldable pub encode : Str → Str
unfolding letter
encode [] = []
encode (a ∷ []) = let n = a * 65536 in sextet n 18 ∷ sextet n 12 ∷ pad ∷ pad ∷ []
encode (a ∷ b ∷ []) =
    let n = a * 65536 + b * 256 in sextet n 18 ∷ sextet n 12 ∷ sextet n 6 ∷ pad ∷ []
encode (a ∷ b ∷ c ∷ rest) =
    let n = a * 65536 + b * 256 + c in
    sextet n 18 ∷ sextet n 12 ∷ sextet n 6 ∷ letter (n % 64) ∷ encode rest

-- The loop of `decode` with its `buffer` and `bits`.
pub decode_from : ℕ → ℕ → Str → Str
unfolding decode_table
decode_from buffer bits [] = []
decode_from buffer bits (c ∷ s) =
    let v = decode_table c in
    let filled = buffer * 64 % two32 + v in
    let skipped = decode_from buffer bits s in
    let kept = decode_from filled (bits + 6) s in
    let pushed = (filled / 2 ^ (bits + 6 - 8) % 256) ∷ decode_from filled (bits + 6 - 8) s in
    if v == 255 then skipped else if leb 8 (bits + 6) then pushed else kept

unfoldable pub decode : Str → Str
unfolding decode_from
decode s = decode_from 0 0 s
