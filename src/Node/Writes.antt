-- ===== src/Node/Writes.antt =====
-- A client's PUT from end to end, at the primary of the key and at any other node.
use mini_dynamo.Base.{ℕ, ◌<◌, ◌≤◌, ◌≡◌, false, Option, none, some, []}
use mini_dynamo.Text.{Str, codes}
use mini_dynamo.Text.Split.{split, join, field, Lacks}
use mini_dynamo.NodeInfo.{NodeInfo}
use mini_dynamo.Clock.Wire
use mini_dynamo.Clock.Wire.{parse}
use mini_dynamo.Versioned.{VersionedValue, bar}
use mini_dynamo.Versioned.RoundTrip.{IsStorable}
use mini_dynamo.Coordinator.{Coordinator, PutResult, WriteError, coordinate_put}
use mini_dynamo.Node.{Node, linked}
use mini_dynamo.Node.Requests.{Outside, Handled}
use mini_dynamo.Node.Clients.{put_fields}

-- What a client reads in the reply to a write of that result.
abbrev pub Reads : PutResult → Str → Type 0
Reads (PutResult.ok clock) text =
    (field (split bar text) 0 ≡ codes "RESPONSE")
    × (field (split bar text) 1 ≡ codes "OK")
    × (parse (field (split bar text) 2) ≡ clock)
Reads (PutResult.failed WriteError.no_nodes_in_ring) text =
    text ≡ codes "RESPONSE|ERROR|no_nodes_in_ring"
Reads (PutResult.failed WriteError.quorum_not_met) text =
    text ≡ codes "RESPONSE|ERROR|quorum_not_met"

-- The clock of a result can be written.
abbrev pub CanSay : PutResult → Type 0
CanSay (PutResult.ok clock) = IsStorable (record { payload = []; clock = clock; deleted = false })
CanSay (PutResult.failed e) = Unit {0}

-- The reply that goes back to who sent the request.
abbrev pub reply_of : Handled → Str
reply_of none = []
reply_of (some (node, none)) = []
reply_of (some (node, some text)) = text

-- A client's PUT, with what it must be to arrive as it was sent: key and origin hold no '|', value and
-- clock can be stored, and N and W are ints above 0.
pub record Put : Type 0 where
  pub origin : Str
  pub key : Str
  pub value : VersionedValue
  pub n : ℕ
  pub w : ℕ
  pub r : ℕ

pub record CanPut (p : Put) : Type 0 where
  pub origin_no_bar : Lacks bar p.origin
  pub key_no_bar : Lacks bar p.key
  pub storable : IsStorable p.value
  pub n_pos : 1 ≤ p.n
  pub n_fits : p.n < 2147483648
  pub w_pos : 1 ≤ p.w
  pub w_fits : p.w < 2147483648

-- The text that the client sends.
abbrev pub put_text : Put → Str
put_text p = join bar (put_fields p.origin p.key p.value p.n p.w p.r)

-- What the coordinator of a node makes of the fields that the client has put in.
abbrev pub coordinated_at : Node → Outside → Put → Option (Coordinator × PutResult)
coordinated_at node out p =
    coordinate_put (linked node) out.wall out.now p.key p.value.payload p.value.clock p.n p.w
      out.writes
