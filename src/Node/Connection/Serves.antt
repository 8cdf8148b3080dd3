-- ===== src/Node/Connection/Serves.antt =====
-- A connection on which a client writes its requests back to back.
use mini_dynamo.Base.{
  ℕ, zero, suc, ◌+◌, ◌≤◌, ◌<◌, ◌≡◌, refl, true, Option, none, some, List, [], ◌∷◌, ◌++◌, length,
  arith, length-append,
}
use mini_dynamo.Text.{Str}
use mini_dynamo.Text.Decimal.{to_string}
use mini_dynamo.Net.Framing.{
  Outcome, interrupted, fails, moves, failed, frame, k_max_frame, read_header, recv_framed,
}
use mini_dynamo.Net.Framing.Delivers.{Steady, progress, recv_framed_gets}
use mini_dynamo.Node.{Node}
use mini_dynamo.Node.Requests.{Outside, Handled, handle_request}
use mini_dynamo.Node.Connection.{Served, said, serve, handle_connection}

unfoldable pub frames : List Str → Str
frames [] = []
frames (payload ∷ l) = frame payload ++ frames l

-- The requests, one after another, with no connection.
unfoldable pub handle_all :
    Node → (ℕ → Outside) → ℕ → List Str → List Str → Option (Node × List Str)
handle_all node outs i replies [] = some (node, replies)
handle_all node outs i replies (payload ∷ l) = elim (handle_request node (outs i) payload) [
  | none ↦ none
  | some h ↦ handle_all h.0 outs (i + 1) (replies ++ said h.1) l
]

abbrev pub closed : Option (Node × List Str) → Served
closed none = none
closed (some (node, replies)) = some (node, replies, true)

abbrev pub AllWithin : List Str → Type 0
AllWithin [] = Unit {0}
AllWithin (payload ∷ l) = (length payload ≤ k_max_frame) × AllWithin l

header_at_end :
    (calls : List Outcome) → Steady calls → 1 ≤ progress calls → read_header [] [] calls ≡ failed
unfolding read_header
header_at_end [] s h = absurd (omega arith)
header_at_end (interrupted ∷ calls) s h = header_at_end calls s h
header_at_end (fails ∷ calls) s h = absurd s
header_at_end (moves n ∷ calls) s h = refl

ends_at_end :
    (calls : List Outcome) → Steady calls → 1 ≤ progress calls → recv_framed [] calls ≡ failed
unfolding recv_framed
ends_at_end calls s h = rw (header_at_end calls s h) refl

after_request :
    (o : Handled) (k : Node × Option Str → Served)
    (k' : Node × Option Str → Option (Node × List Str))
    → ((h : Node × Option Str) → k h ≡ closed (k' h))
    → elim o as (λ x. Served) [ none ↦ none | some h ↦ k h ]
      ≡ closed (elim o as (λ x. Option (Node × List Str)) [ none ↦ none | some h ↦ k' h ])
after_request none k k' e = refl
after_request (some h) k k' e = e h

serve_all :
    (fuel : ℕ) (node : Node) (outs : ℕ → Outside) (i : ℕ) (replies : List Str) (l : List Str)
    (calls : List Outcome)
    → length l < fuel
    → AllWithin l
    → Steady calls
    → length (frames l) < progress calls
    → serve fuel node outs i replies (frames l) calls ≡ closed (handle_all node outs i replies l)
unfolding serve frames handle_all
serve_all zero node outs i replies l calls f w s h = absurd (omega arith)
serve_all (suc fuel) node outs i replies [] calls f w s h =
    rw (serve, frames, ends_at_end calls s (omega arith), handle_all) refl
serve_all (suc fuel) node outs i replies (payload ∷ l) calls f w s h =
    let size = length-append (frame payload) (frames l) in
    let (left, e, (s', cost)) =
      recv_framed_gets payload (frames l) calls w.0 s (omega (arith, h, size)) in
    rw (serve, frames, e, handle_all)
      (after_request (handle_request node (outs i) payload)
        (λ g. serve fuel g.0 outs (i + 1) (replies ++ said g.1) (frames l) left)
        (λ g. handle_all g.0 outs (i + 1) (replies ++ said g.1) l)
        λ g.
          serve_all fuel g.0 outs (i + 1) (replies ++ said g.1) l left (omega (arith, f)) w.1 s'
            (omega (arith, h, size, cost)))

progress_le : (calls : List Outcome) → progress calls ≤ length calls
progress_le [] = omega arith
progress_le (interrupted ∷ calls) = omega (arith, progress_le calls)
progress_le (fails ∷ calls) = omega (arith, progress_le calls)
progress_le (moves n ∷ calls) = omega (arith, progress_le calls)

-- Each frame has its newline at least.
length-frames : (l : List Str) → length l ≤ length (frames l)
unfolding frames
length-frames [] = omega arith
length-frames (payload ∷ l) = omega (
  arith,
  length-frames l,
  length-append (frame payload) (frames l),
  length-append (to_string (length payload)) (10 ∷ payload),
)

-- The requests of a client that writes them back to back and closes the connection, each within the
-- limit of a frame, on a socket that does not fail and brings pieces of any size: the loop ends with
-- the connection closed, the node is as after those requests one by one in their order, and the
-- replies are theirs in that order. Only a walk on the ring that does not end stops both.
pub handle_connection_serves :
    (node : Node) (outs : ℕ → Outside) (requests : List Str) (calls : List Outcome)
    → AllWithin requests
    → Steady calls
    → length (frames requests) < progress calls
    → handle_connection node outs (frames requests) calls
      ≡ closed (handle_all node outs 0 [] requests)
unfolding handle_connection
handle_connection_serves node outs requests calls w s h =
    serve_all (suc (length calls)) node outs 0 [] requests calls
      (omega (arith, h, progress_le calls, length-frames requests)) w s h
