-- ===== src/Net/Framing.antt =====
-- src/net/framing.cpp: frames of a decimal length, a newline and that many bytes, on a socket that
-- moves bytes in pieces.
pub mod Accepts
pub mod Delivers
use mini_dynamo.Base.{
  ℕ, zero, suc, ◌+◌, ◌-◌, ◌*◌, min, Bool, true, false, not, List, [], ◌∷◌, ◌++◌, ◌==◌, ltb, leb,
  if◌then◌else◌, two64, length, take, drop,
}
use mini_dynamo.Text.{Str}
use mini_dynamo.Text.Decimal.{to_string, is_digit, read}

-- What the kernel answers to a call of ::read or ::write: EINTR, another error, or a count of bytes.
pub data Outcome : Type 0 where
  interrupted fails : Outcome
  moves : ℕ → Outcome

-- The answer of a call on a socket; `blocked` has the kernel not answer any more.
pub data Io {ℓ} (A : Type ℓ) : Type ℓ where
  done : A → Io A
  failed blocked : Io A

abbrev pub bind {ℓ κ} : {A : Type ℓ} {B : Type κ} → Io A → (A → Io B) → Io B
bind (done a) f = f a
bind failed f = failed
bind blocked f = blocked

abbrev pub k_max_frame : ℕ
k_max_frame = 16777216

-- The kernel takes at most what is offered. `out` is what went out before.
unfoldable pub write_all : Str → Str → List Outcome → Io (Str × List Outcome)
write_all [] out calls = done (out, calls)
write_all (c ∷ rest) out [] = blocked
write_all (c ∷ rest) out (interrupted ∷ calls) = write_all (c ∷ rest) out calls
write_all (c ∷ rest) out (fails ∷ calls) = failed
write_all (c ∷ rest) out (moves n ∷ calls) =
    let on = write_all (drop n (c ∷ rest)) (out ++ take n (c ∷ rest)) calls in
    if n == 0 then failed else on

-- The kernel brings at most what was asked for and what is there; nothing there is the end.
unfoldable pub read_all : ℕ → Str → Str → List Outcome → Io (Str × Str × List Outcome)
read_all zero incoming got calls = done (got, incoming, calls)
read_all (suc k) incoming got [] = blocked
read_all (suc k) incoming got (interrupted ∷ calls) = read_all (suc k) incoming got calls
read_all (suc k) incoming got (fails ∷ calls) = failed
read_all (suc k) incoming got (moves m ∷ calls) =
    let n = min m (min (suc k) (length incoming)) in
    let on = read_all (suc k - n) (drop n incoming) (got ++ take n incoming) calls in
    if n == 0 then failed else on

-- The bytes of one message on the wire.
abbrev pub frame : Str → Str
frame payload = to_string (length payload) ++ 10 ∷ payload

unfoldable pub send_framed : Str → Str → List Outcome → Io (Str × List Outcome)
send_framed payload out calls =
    bind (write_all (to_string (length payload) ++ 10 ∷ []) out calls)
      λ (sent, left). write_all payload sent left

-- The loop of recvFramed, a byte a call.
unfoldable pub read_header : Str → Str → List Outcome → Io (Str × Str × List Outcome)
read_header incoming len_str [] = blocked
read_header incoming len_str (interrupted ∷ calls) = read_header incoming len_str calls
read_header incoming len_str (fails ∷ calls) = failed
read_header [] len_str (moves n ∷ calls) = failed
read_header (c ∷ incoming) len_str (moves n ∷ calls) =
    let on = read_header incoming (len_str ++ c ∷ []) calls in
    if n == 0
    then failed
    else if c == 10
    then done (len_str, incoming, calls)
    else if not (is_digit c)
    then failed
    else if ltb 20 (length (len_str ++ c ∷ []))
    then failed
    else on

-- std::strtoull on digits, which stops at ULLONG_MAX.
abbrev pub strtoull : Str → ℕ
strtoull s = if leb two64 (read s 0) then two64 - 1 else read s 0

unfoldable pub read_payload : Str → Str → List Outcome → Io (Str × Str × List Outcome)
read_payload len_str incoming calls =
    if length len_str == 0
    then failed
    else if ltb k_max_frame (strtoull len_str)
    then failed
    else if strtoull len_str == 0
    then done ([], incoming, calls)
    else read_all (strtoull len_str) incoming [] calls

unfoldable pub recv_framed : Str → List Outcome → Io (Str × Str × List Outcome)
recv_framed incoming calls =
    bind (read_header incoming [] calls) λ (len_str, rest, left). read_payload len_str rest left
