-- ===== src/Replica/Examples.antt =====
-- A replicated write at concrete inputs.
use mini_dynamo.Base.{ℕ, ◌≡◌, ◌≢◌, arith, [], ◌∷◌, false}
use mini_dynamo.Text.{Str}
use mini_dynamo.Versioned.{VersionedValue, serialize}
use mini_dynamo.Versioned.RoundTrip.{IsStorable}
use mini_dynamo.OrdMap.{find}
use mini_dynamo.Text.Decimal.{to_string, show}
use mini_dynamo.NodeInfo.{NodeInfo}
use mini_dynamo.Net.Pool.{ConnectionPool, key_of}
use mini_dynamo.Net.Replicas.{RoundTrip, Attempt}
use mini_dynamo.Net.Replicas.Calls.{read_replica, read_replica_brings}
use mini_dynamo.Replica.{Storage, put, apply_replicate, read_local}
use mini_dynamo.Text.{codes, str_eq}
use mini_dynamo.Text.Split.{Lacks, split}
use mini_dynamo.Base.{some, none, refl, ◌==◌, if◌then◌else◌}
use mini_dynamo.Base64.{encode}
use mini_dynamo.Versioned.{bar}
use mini_dynamo.Replica.Verbs.{
  replicate_message, handle_replicate, read_message, handle_read_replica, parse_read_reply,
}
use mini_dynamo.Replica.Verbs.Arrival.{without_mark, handle_replicate-message, read_over_wire}
use mini_dynamo.Replica.NeverRegress.{read_local-put_same, Held, apply_replicate_keeps}

abbrev name : Str
name = 110 ∷ 49 ∷ []

abbrev value : ℕ → VersionedValue
value n = record {
  payload = 7 ∷ [];
  clock = record { counts = (name, record { counter = n; updated_ms = 10 }) ∷ [] };
  deleted = false;
}

value-IsStorable : IsStorable (value 1)
value-IsStorable = record {
  bytes = (omega arith, tt);
  sorted = (tt, tt);
  printable = (
    record {
      name = ground arith;
      no_comma = (ground arith, (ground arith, tt));
      no_colon = (ground arith, (ground arith, tt));
      counter_pos = omega arith;
      counter_fits = omega arith;
      ms_fits = omega arith;
    },
    tt,
  );
  no_bar = ((ground arith, (ground arith, tt)), tt);
}

-- The replica is one write ahead.
abbrev store : Storage
store = put [] name (serialize (value 2))

apply_replicate_keeps_example :
    Held
      (read_local store name)
      (value 1)
      (read_local (apply_replicate store name (value 1)).0 name)
    × ((k : Str)
        → k ≢ name
        → read_local (apply_replicate store name (value 1)).0 k ≡ read_local store k)
apply_replicate_keeps_example = apply_replicate_keeps store name (value 1) value-IsStorable

name-Lacks : Lacks bar name
name-Lacks = (ground arith, (ground arith, tt))

handle_replicate-message_example :
    (handle_replicate store (split bar (replicate_message name name (value 1)))).0
    ≡ (apply_replicate store name (without_mark (value 1))).0
handle_replicate-message_example =
    handle_replicate-message store name name (value 1) name-Lacks name-Lacks value-IsStorable

abbrev held : Storage
held = put [] name (serialize (value 1))

short_text : encode (value 1).payload ≢ codes "NOTFOUND"
unfolding encode
short_text e = ground arith

held_there : read_local held name ≡ some (value 1)
held_there = read_local-put_same [] name (value 1) value-IsStorable

read_over_wire_example :
    parse_read_reply (handle_read_replica held (split bar (read_message name name)))
    ≡ some (some (without_mark (value 1)))
read_over_wire_example =
    read_over_wire held name name (value 1) name-Lacks name-Lacks value-IsStorable short_text
      held_there

abbrev peer : NodeInfo
peer = record { node_id = name; host = name; port = 1 }

-- A pool whose one idle connection to the replica is dead.
abbrev pool : ConnectionPool
pool = record {
  max_per_peer = 4;
  idle_ttl = 60;
  idle = (key_of name 1, record { fd = 5; returned_at = 3 } ∷ []) ∷ [];
  stopping = false;
  closed = [];
  created = 1;
  reused = 0;
}

abbrev replies : RoundTrip
replies fd request = if fd == 5 then none else some (handle_read_replica held (split bar request))

abbrev opens : ℕ → Attempt
opens fd = record { connected = some fd; returned_at = 20 }

replies_honest :
    (request : Str) (fd : ℕ) (reply : Str)
    → replies fd request ≡ some reply
    → reply ≡ handle_read_replica held (split bar request)
replies_honest request fd reply e = ground arith

read_replica_brings_example :
    (read_replica replies pool name peer name (opens 6) (opens 8)).1
    ≡ some (some (without_mark (value 1)))
unfolding find key_of to_string show str_eq
read_replica_brings_example =
    read_replica_brings replies pool peer (opens 6) (opens 8) 6 8 held name name (value 1)
      (omega arith) refl refl (replies_honest (read_message name name)) refl name-Lacks name-Lacks
      value-IsStorable short_text held_there
