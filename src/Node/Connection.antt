-- ===== src/Node/Connection.antt =====
-- `TCPServer::handleConnection` of src/net/tcp_server.cpp: the requests of a connection, one after
-- another until the peer closes it. A reply is what is given to sendFramed, whose result nothing reads.
pub mod Serves
use mini_dynamo.Base.{
  ℕ, zero, suc, ◌+◌, Bool, true, false, Option, none, some, List, [], ◌∷◌, ◌++◌, length,
}
use mini_dynamo.Text.{Str}
use mini_dynamo.Net.Framing.{Outcome, done, failed, blocked, recv_framed}
use mini_dynamo.Node.{Node}
use mini_dynamo.Node.Requests.{Outside, handle_request}

-- The node afterwards, the replies in order, and whether the connection is closed; a connection that
-- is not closed waits for the kernel. `none` is a walk on the ring that does not end.
abbrev pub Served : Type 0
Served = Option (Node × List Str × Bool)

abbrev pub said : Option Str → List Str
said none = []
said (some reply) = reply ∷ []

-- The loop, on fuel; the i-th request meets `outs i`.
unfoldable pub serve : ℕ → Node → (ℕ → Outside) → ℕ → List Str → Str → List Outcome → Served
serve zero node outs i replies incoming calls = none
serve (suc fuel) node outs i replies incoming calls = elim (recv_framed incoming calls) [
  | failed ↦ some (node, replies, true)
  | blocked ↦ some (node, replies, false)
  | done r ↦
      let (payload, rest, left) = r in
      elim (handle_request node (outs i) payload) [
        | none ↦ none
        | some h ↦ serve fuel h.0 outs (i + 1) (replies ++ said h.1) rest left
      ]
]

-- A received frame takes a call of the kernel, so the number of calls is enough fuel.
unfoldable pub handle_connection : Node → (ℕ → Outside) → Str → List Outcome → Served
unfolding serve
handle_connection node outs incoming calls =
    serve (suc (length calls)) node outs 0 [] incoming calls
