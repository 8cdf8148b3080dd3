-- ===== src/Net/Framing/Accepts.antt =====
-- What recvFramed accepts: a frame that was really there, within the limit, and nothing past it.
use mini_dynamo.Base.{
  ℕ, zero, suc, ◌+◌, ◌-◌, ◌≤◌, ◌<◌, min, ◌≡◌, ◌≢◌, refl, ap, sym, ◌∙◌, inl, inr, List, [], ◌∷◌,
  ◌++◌, ◌==◌, ltb, length, take, drop, length-append, Bool-cases, append_assoc, append-nil, arith,
  take-drop, length-take,
}
use mini_dynamo.Text.{Str}
use mini_dynamo.Text.Split.{cut_at-sep}
use mini_dynamo.Text.Decimal.{
  to_string, is_digit, read, AllDigits, to_string-AllDigits, Digits-Lacks, read-to_string,
}
use mini_dynamo.Net.Framing.{
  frame, Outcome, interrupted, fails, moves, Io, done, failed, blocked, bind, k_max_frame, read_all,
  read_header, strtoull, read_payload, recv_framed,
}

-- `got` and what was read after it, `incoming` being that and the rest.
read_all_exact :
    (k : ℕ) (incoming got : Str) (calls : List Outcome) (p rest : Str) (left : List Outcome)
    → read_all k incoming got calls ≡ done (p, rest, left)
    → (got ++ incoming ≡ p ++ rest) × (length p ≡ length got + k)
unfolding read_all
read_all_exact zero incoming got calls p rest left e = ground arith
read_all_exact (suc k) incoming got [] p rest left e = absurd (cc)
read_all_exact (suc k) incoming got (interrupted ∷ calls) p rest left e =
    read_all_exact (suc k) incoming got calls p rest left e
read_all_exact (suc k) incoming got (fails ∷ calls) p rest left e = absurd (cc)
read_all_exact (suc k) incoming got (moves m ∷ calls) p rest left e =
    let n = min m (min (suc k) (length incoming)) in
    let step =
      read_all_exact (suc k - n) (drop n incoming) (got ++ take n incoming) calls p rest left in
    let whole = append_assoc got (take n incoming) (drop n incoming) in
    elim (Bool-cases (n == 0)) [
      | inl z ↦ absurd (ground (arith, e, z))
      | inr more ↦
          let h = step (ground (arith, e, more)) in
          ground (
            arith,
            h,
            whole,
            take-drop n incoming,
            length-append got (take n incoming),
            length-take n incoming,
          )
    ]

read_header_exact :
    (incoming acc : Str) (calls : List Outcome) (header rest : Str) (left : List Outcome)
    → read_header incoming acc calls ≡ done (header, rest, left)
    → (digits : Str) × (header ≡ acc ++ digits)
      × (incoming ≡ digits ++ 10 ∷ rest)
      × AllDigits digits
unfolding read_header
read_header_exact incoming acc [] header rest left e = absurd (cc)
read_header_exact incoming acc (interrupted ∷ calls) header rest left e =
    read_header_exact incoming acc calls header rest left e
read_header_exact incoming acc (fails ∷ calls) header rest left e = absurd (cc)
read_header_exact [] acc (moves n ∷ calls) header rest left e = absurd (cc)
read_header_exact (c ∷ incoming) acc (moves n ∷ calls) header rest left e =
    elim (Bool-cases (n == 0)) [
      | inl z ↦ absurd (ground (arith, e, z))
      | inr nz ↦ elim (Bool-cases (c == 10)) [
        | inl nl ↦ ([], ground (arith, e, nz, nl, append-nil acc), ground (arith, e, nz, nl), tt)
        | inr on ↦ elim (Bool-cases (is_digit c)) [
          | inr bad ↦ absurd (ground (arith, e, nz, on, bad))
          | inl dig ↦
              let step =
                read_header_exact incoming (acc ++ c ∷ []) calls header rest left
                  (ground (arith, e, nz, on, dig)) in
              (
                c ∷ step.0,
                step.1 ∙ append_assoc acc (c ∷ []) step.0,
                ap (◌∷◌ c) step.2,
                (dig, step.3),
              )
        ]
      ]
    ]

bind_done {ℓ κ} :
    {A : Type ℓ} {B : Type κ} (r : Io A) (f : A → Io B) (b : B)
    → bind r f ≡ done b
    → (a : A) × (r ≡ done a) × (f a ≡ done b)
bind_done (done a) f b e = (a, refl, e)
bind_done failed f b e = absurd (cc)
bind_done blocked f b e = absurd (cc)

strtoull_small : (s : Str) → strtoull s ≤ k_max_frame → read s 0 ≡ strtoull s
strtoull_small s h = ground arith

-- The header that the last byte read was behind has one digit at least and twenty at most.
payload_exact :
    (header incoming : Str) (calls : List Outcome) (p rest : Str) (left : List Outcome)
    → read_payload header incoming calls ≡ done (p, rest, left)
    → (incoming ≡ p ++ rest)
      × (length p ≡ strtoull header)
      × (length p ≤ k_max_frame)
      × (header ≢ [])
unfolding read_payload
payload_exact header incoming calls p rest left e = elim (Bool-cases (length header == 0)) [
  | inl z ↦ absurd (ground (arith, e, z))
  | inr some_digits ↦ elim (Bool-cases (ltb k_max_frame (strtoull header))) [
    | inl big ↦ absurd (ground (arith, e, some_digits, big))
    | inr fits ↦ elim (Bool-cases (strtoull header == 0)) [
      | inl none_left ↦ ground (arith, e, some_digits, fits, none_left)
      | inr more ↦
          let h =
            read_all_exact (strtoull header) incoming [] calls p rest left
              (ground (arith, e, some_digits, fits, more)) in
          ground (arith, h, some_digits, fits)
    ]
  ]
]

-- A frame that is accepted stood at the front of the stream: digits that say its length, a newline,
-- and the payload; the payload is within the limit, and the stream goes on right behind it.
pub recv_framed_exact :
    (incoming : Str) (calls : List Outcome) (p rest : Str) (left : List Outcome)
    → recv_framed incoming calls ≡ done (p, rest, left)
    → (header : Str) × (incoming ≡ header ++ 10 ∷ (p ++ rest))
      × AllDigits header
      × (header ≢ [])
      × (read header 0 ≡ length p)
      × (length p ≤ k_max_frame)
unfolding recv_framed
recv_framed_exact incoming calls p rest left e =
    let (at, seen, read_on) = bind_done (read_header incoming [] calls) _ _ e in
    let (digits, same, front, all) = read_header_exact incoming [] calls at.0 at.1 at.2 seen in
    let (behind, size, fits, some_digits) = payload_exact at.0 at.1 at.2 p rest left read_on in
    let small : strtoull at.0 ≤ k_max_frame = omega (arith, size, fits) in
    let value = strtoull_small at.0 small ∙ sym size in
    (
      digits,
      front ∙ ap (λ b. digits ++ 10 ∷ b) behind,
      all,
      (λ z. some_digits (same ∙ z)),
      ap (λ h. read h 0) (sym same) ∙ value,
      fits,
    )

-- No frame of a payload past the limit is accepted, whatever the socket does.
pub recv_framed_refuses :
    (payload rest : Str) (calls : List Outcome) (got : Str × Str × List Outcome)
    → k_max_frame < length payload
    → recv_framed (frame payload ++ rest) calls ≢ done got
recv_framed_refuses payload rest calls got big e =
    let n = length payload in
    let (header, front, digits, some_digits, value, fits) =
      recv_framed_exact _ calls got.0 got.1 got.2 e in
    let here =
      cut_at-sep 10 (to_string n) (payload ++ rest)
        (Digits-Lacks 10 (to_string n) refl (to_string-AllDigits n)) in
    let there = cut_at-sep 10 header (got.0 ++ got.1) (Digits-Lacks 10 header refl digits) in
    let apart = append_assoc (to_string n) (10 ∷ payload) rest in
    let same : header ≡ to_string n = ground (arith, front, apart, here, there) in
    omega (arith, value, fits, big, read-to_string n, ap (λ d. read d 0) same)
