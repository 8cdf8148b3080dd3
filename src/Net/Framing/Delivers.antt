-- ===== src/Net/Framing/Delivers.antt =====
-- What a steady socket does with a frame: it goes out whole, and comes in as it was sent.
use mini_dynamo.Base.{
  ℕ, zero, suc, ◌+◌, ◌≤◌, min, ◌≡◌, ◌≢◌, refl, ap, sym, ◌∙◌, false, List, [], ◌∷◌, ◌++◌, ◌==◌, ltb,
  length, take, drop, length-append, append_assoc, append-nil, arith, take-drop, length-drop,
  take-append_le, drop-append_le,
}
use mini_dynamo.Text.{Str}
use mini_dynamo.Text.Decimal.{
  to_string, AllDigits, to_string-AllDigits, read-to_string, length-to_string, to_string-ne-nil,
}
use mini_dynamo.Net.Framing.{
  frame, Outcome, interrupted, fails, moves, done, k_max_frame, write_all, read_all, send_framed,
  read_header, strtoull, read_payload, recv_framed,
}

-- No call fails or moves nothing.
abbrev pub Steady : List Outcome → Type 0
Steady [] = Unit {0}
Steady (interrupted ∷ calls) = Steady calls
Steady (fails ∷ calls) = ⊥
Steady (moves n ∷ calls) = (1 ≤ n) × Steady calls

-- The calls that are not interrupted.
abbrev pub progress : List Outcome → ℕ
progress [] = 0
progress (interrupted ∷ calls) = progress calls
progress (fails ∷ calls) = progress calls
progress (moves n ∷ calls) = suc (progress calls)

-- The calls left over are steady, and at most `used` were spent.
abbrev pub Spends : ℕ → List Outcome → List Outcome → Type 0
Spends used calls left = Steady left × (progress calls ≤ progress left + used)

pub write_all_sends :
    (bytes out : Str) (calls : List Outcome)
    → Steady calls
    → length bytes ≤ progress calls
    → (left : List Outcome) × (write_all bytes out calls ≡ done (out ++ bytes, left))
      × Spends (length bytes) calls left
unfolding write_all
write_all_sends [] out calls s h = (calls, ground (arith, append-nil out), (s, omega arith))
write_all_sends (c ∷ rest) out [] s h = absurd (omega arith)
write_all_sends (c ∷ rest) out (interrupted ∷ calls) s h = write_all_sends (c ∷ rest) out calls s h
write_all_sends (c ∷ rest) out (fails ∷ calls) s h = absurd s
write_all_sends (c ∷ rest) out (moves zero ∷ calls) s h = absurd (ground (arith, s))
write_all_sends (c ∷ rest) out (moves (suc n) ∷ calls) s h =
    let (left, e, (steady, cost)) =
      write_all_sends (drop n rest) (out ++ c ∷ take n rest) calls s.1
        (ground (arith, h, length-drop n rest)) in
    (left, ground (arith, e, moved n), (steady, omega (arith, cost, length-drop n rest)))
  where
    moved : (n : ℕ) → (out ++ c ∷ take n rest) ++ drop n rest ≡ out ++ c ∷ rest
    moved n =
        append_assoc out (c ∷ take n rest) (drop n rest) ∙ ap (λ r. out ++ c ∷ r) (take-drop n rest)

-- A call of read that moves the smaller of what the kernel has and what is wanted.
read_piece :
    (c : ℕ) (bytes rest got : Str) (calls : List Outcome) (m : ℕ) (left : List Outcome)
    → let n = min (suc m) (suc (length bytes)) in
      let later = drop n (c ∷ bytes) in
      read_all (length later) (later ++ rest) (got ++ take n (c ∷ bytes)) calls
        ≡ done ((got ++ take n (c ∷ bytes)) ++ later, rest, left)
      → read_all (suc (length bytes)) ((c ∷ bytes) ++ rest) got (moves (suc m) ∷ calls)
        ≡ done (got ++ c ∷ bytes, rest, left)
unfolding read_all
read_piece c bytes rest got calls m left e =
    let b = c ∷ bytes in
    let n = min (suc m) (length b) in
    let fits : n ≤ length b = omega arith in
    let all : min (suc m) (min (length b) (length (b ++ rest))) ≡ n =
      omega (arith, length-append b rest) in
    let some : (n == 0) ≡ false = ground arith in
    let whole = append_assoc got (take n b) (drop n b) ∙ ap (λ x. got ++ x) (take-drop n b) in
    rw
      (all, some, drop-append_le n b rest fits, take-append_le n b rest fits, sym (length-drop n b))
      (e ∙ ap (λ x. done (x, rest, left)) whole)

read_all_gets :
    (bytes rest got : Str) (calls : List Outcome)
    → Steady calls
    → length bytes ≤ progress calls
    → (left : List Outcome) × (read_all (length bytes) (bytes ++ rest) got calls
        ≡ done (got ++ bytes, rest, left))
      × Spends (length bytes) calls left
unfolding read_all
read_all_gets [] rest got calls s h = (calls, ground (arith, append-nil got), (s, omega arith))
read_all_gets (c ∷ bytes) rest got [] s h = absurd (omega arith)
read_all_gets (c ∷ bytes) rest got (interrupted ∷ calls) s h =
    read_all_gets (c ∷ bytes) rest got calls s h
read_all_gets (c ∷ bytes) rest got (fails ∷ calls) s h = absurd s
read_all_gets (c ∷ bytes) rest got (moves zero ∷ calls) s h = absurd (ground (arith, s))
read_all_gets (c ∷ bytes) rest got (moves (suc m) ∷ calls) s h =
    let n = min (suc m) (suc (length bytes)) in
    let (left, e, (steady, cost)) =
      read_all_gets (drop n (c ∷ bytes)) rest (got ++ take n (c ∷ bytes)) calls s.1
        (omega (arith, h, length-drop n (c ∷ bytes))) in
    (
      left,
      read_piece c bytes rest got calls m left e,
      (steady, omega (arith, cost, length-drop n (c ∷ bytes))),
    )

read_header_gets :
    (digits rest acc : Str) (calls : List Outcome)
    → AllDigits digits
    → length acc + length digits ≤ 20
    → Steady calls
    → suc (length digits) ≤ progress calls
    → (left : List Outcome) × (read_header (digits ++ 10 ∷ rest) acc calls
        ≡ done (acc ++ digits, rest, left))
      × Spends (suc (length digits)) calls left
unfolding read_header
read_header_gets digits rest acc [] d small s h = absurd (omega arith)
read_header_gets digits rest acc (interrupted ∷ calls) d small s h =
    read_header_gets digits rest acc calls d small s h
read_header_gets digits rest acc (fails ∷ calls) d small s h = absurd s
read_header_gets digits rest acc (moves zero ∷ calls) d small s h = absurd (ground (arith, s))
read_header_gets [] rest acc (moves (suc m) ∷ calls) d small s h =
    (calls, ground (arith, append-nil acc), (s.1, omega arith))
read_header_gets (c ∷ digits) rest acc (moves (suc m) ∷ calls) d small s h =
    let size = length-append acc (c ∷ []) in
    let (left, e, (steady, cost)) =
      read_header_gets digits rest (acc ++ c ∷ []) calls d.1 (omega (arith, size, small)) s.1
        (omega (arith, h)) in
    (
      left,
      ground (arith, e, append_assoc acc (c ∷ []) digits, d.0, size),
      (steady, omega (arith, cost)),
    )

pub send_framed_sends :
    (payload out : Str) (calls : List Outcome)
    → Steady calls
    → length (frame payload) ≤ progress calls
    → (left : List Outcome) × (send_framed payload out calls ≡ done (out ++ frame payload, left))
      × Spends (length (frame payload)) calls left
unfolding send_framed
send_framed_sends payload out calls s h =
    let header = to_string (length payload) ++ 10 ∷ [] in
    let size = length-append (to_string (length payload)) (10 ∷ payload) in
    let size' = length-append (to_string (length payload)) (10 ∷ []) in
    let (left, e, (s', cost)) =
      write_all_sends header out calls s (omega (arith, h, size, size')) in
    let (left', e', (s'', cost')) =
      write_all_sends payload (out ++ header) left s' (omega (arith, h, size, size', cost)) in
    (
      left',
      rw e (e' ∙ ap (λ o. done (o, left')) (whole header)),
      (s'', omega (arith, cost, cost', size, size')),
    )
  where
    whole :
        (header : Str)
        → (out ++ (to_string (length payload) ++ 10 ∷ [])) ++ payload ≡ out ++ frame payload
    whole _ = ground (
      arith,
      append_assoc out (to_string (length payload) ++ 10 ∷ []) payload,
      append_assoc (to_string (length payload)) (10 ∷ []) payload,
    )

strtoull-to_string : (n : ℕ) → n ≤ k_max_frame → strtoull (to_string n) ≡ n
strtoull-to_string n h = ground (arith, read-to_string n)

read_payload_gets :
    (payload rest : Str) (calls : List Outcome)
    → length payload ≤ k_max_frame
    → Steady calls
    → length payload ≤ progress calls
    → (left : List Outcome) × (read_payload (to_string (length payload)) (payload ++ rest) calls
        ≡ done (payload, rest, left))
      × Spends (length payload) calls left
unfolding read_payload
read_payload_gets [] rest calls fits s h =
    (calls, ground (arith, to_string-ne-nil 0, strtoull-to_string 0), (s, omega arith))
read_payload_gets (c ∷ bytes) rest calls fits s h =
    let n = suc (length bytes) in
    let some : (length (to_string n) == 0) ≡ false =
      length_some (to_string n) (to_string-ne-nil n) in
    let within : ltb k_max_frame n ≡ false = ground (arith, fits) in
    let more : (n == 0) ≡ false = ground arith in
    let (left, e, spent) = read_all_gets (c ∷ bytes) rest [] calls s h in
    (left, rw (some, strtoull-to_string n fits, within, more) e, spent)
  where
    length_some : (l : Str) → l ≢ [] → (length l == 0) ≡ false
    length_some [] h = absurd (h refl)
    length_some (x ∷ l) h = ground arith

pub recv_framed_gets :
    (payload rest : Str) (calls : List Outcome)
    → length payload ≤ k_max_frame
    → Steady calls
    → length (frame payload) ≤ progress calls
    → (left : List Outcome) × (recv_framed (frame payload ++ rest) calls
        ≡ done (payload, rest, left))
      × Spends (length (frame payload)) calls left
unfolding recv_framed read_payload
recv_framed_gets payload rest calls fits s h =
    let n = length payload in
    let size = length-append (to_string n) (10 ∷ payload) in
    let (left, e, (s', cost)) =
      read_header_gets (to_string n) (payload ++ rest) [] calls (to_string-AllDigits n)
        (omega (arith, length-to_string n)) s (omega (arith, h, size)) in
    let (left', e', (s'', cost')) =
      read_payload_gets payload rest left fits s' (omega (arith, h, size, cost)) in
    let apart = append_assoc (to_string n) (10 ∷ payload) rest in
    (left', rw (apart, e) e', (s'', omega (arith, cost, cost', size)))

-- A payload within the limit is sent as bytes that a receiver reads back as that payload, with
-- whatever follows them left on the stream; both ends return, where neither socket fails and each
-- is answered as many times as the frame has bytes, in pieces of any size.
pub frame_crosses :
    (payload out rest : Str) (writes reads : List Outcome)
    → length payload ≤ k_max_frame
    → Steady writes
    → Steady reads
    → length (frame payload) ≤ progress writes
    → length (frame payload) ≤ progress reads
    → (sent : Str) × (left : List Outcome) × (left' : List Outcome) × (send_framed payload out
          writes
        ≡ done (out ++ sent, left))
      × (recv_framed (sent ++ rest) reads ≡ done (payload, rest, left'))
frame_crosses payload out rest writes reads fits w r enough enough' =
    let (left, e, _) = send_framed_sends payload out writes w enough in
    let (left', e', _) = recv_framed_gets payload rest reads fits r enough' in
    (frame payload, left, left', e, e')
