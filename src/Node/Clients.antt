-- ===== src/Node/Clients.antt =====
-- What a client's request comes to, and what it reads in the reply.
use mini_dynamo.Base.{
  ℕ, zero, suc, ◌<◌, ◌≤◌, ◌≡◌, refl, ap, sym, ◌∙◌, false, List, [], ◌∷◌, ◌++◌, map, All, arith,
  length, drop, append-nil,
}
use mini_dynamo.Text.{Str, codes, str_eq}
use mini_dynamo.Text.Decimal.{to_string, to_string-AllDigits, Digits-Lacks}
use mini_dynamo.Text.Integer.{ℤ, stoi-to_string}
use mini_dynamo.Text.Split.{split, join, field, Lacks, lacks, lacks-Lacks, split-join}
use mini_dynamo.Clock.Wire
use mini_dynamo.Clock.Wire.{parse}
use mini_dynamo.Clock.Wire.RoundTrip.{parse-serialize, serialize-Lacks}
use mini_dynamo.Base64.{encode, decode}
use mini_dynamo.Base64.RoundTrip.{decode-encode, encode-Lacks}
use mini_dynamo.Versioned.{VersionedValue, bar}
use mini_dynamo.Versioned.RoundTrip.{IsStorable}
use mini_dynamo.Replica.Verbs.Arrival.{without_mark}
use mini_dynamo.Coordinator.{coordinate_put}
use mini_dynamo.Coordinator.Reading.{GetResult}
use mini_dynamo.Node.{Node, to_int, effective, linked, get_reply, version_fields}
use mini_dynamo.Node.Requests.{Outside, by_primary, handle_put, handle_verb, handle_request}

-- PUT|<key>|<b64value>|<origin>|<N>|<W>|<R>|<clock>, of a value with the clock that the client has.
abbrev pub put_fields : Str → Str → VersionedValue → ℕ → ℕ → ℕ → List Str
put_fields origin key v n w r =
    codes "PUT"
    ∷ key
    ∷ encode v.payload
    ∷ origin
    ∷ to_string n
    ∷ to_string w
    ∷ to_string r
    ∷ Wire.serialize v.clock
    ∷ []

digits_Lack : (n : ℕ) → Lacks bar (to_string n)
digits_Lack n = Digits-Lacks bar (to_string n) refl (to_string-AllDigits n)

put-Lacks : Lacks bar (codes "PUT")
unfolding lacks
put-Lacks = lacks-Lacks bar (codes "PUT") refl

pub split-put :
    (origin key : Str) (v : VersionedValue) (n w r : ℕ)
    → Lacks bar origin
    → Lacks bar key
    → IsStorable v
    → split bar (join bar (put_fields origin key v n w r)) ≡ put_fields origin key v n w r
split-put origin key v n w r o k s = split-join bar (codes "PUT") _ (
  put-Lacks,
  (
    k,
    (
      encode-Lacks v.payload,
      (
        o,
        (digits_Lack n, (digits_Lack w, (digits_Lack r, (serialize-Lacks v.clock s.no_bar, tt)))),
      ),
    ),
  ),
)

asked_for : (default n : ℕ) → 1 ≤ n → effective default (ℤ.pos n) ≡ n
asked_for default zero h = absurd (omega arith)
asked_for default (suc n) h = refl

number_read :
    (default n : ℕ) (f : List Str) (i : ℕ)
    → 1 ≤ n
    → n < 2147483648
    → field f i ≡ to_string n
    → effective default (to_int f i) ≡ n
unfolding to_int
number_read default n f i pos small e =
    ground (arith, e, stoi-to_string n small, asked_for default n pos)

-- A PUT that arrives asks the primary to coordinate just what the client sent.
pub put_coordinated :
    (node : Node) (out : Outside) (origin key : Str) (v : VersionedValue) (n w r : ℕ)
    → Lacks bar origin
    → Lacks bar key
    → IsStorable v
    → 1 ≤ n
    → n < 2147483648
    → 1 ≤ w
    → w < 2147483648
    → let raw = join bar (put_fields origin key v n w r) in
      handle_request node out raw
      ≡ by_primary node out key raw
          (coordinate_put (linked node) out.wall out.now key v.payload v.clock n w out.writes)
unfolding handle_request handle_verb handle_put str_eq field
put_coordinated node out origin key v n w r o k s n1 n2 w1 w2 =
    let f = put_fields origin key v n w r in
    let sp = split-put origin key v n w r o k s in
    let en = number_read node.cfg.n n f 4 n1 n2 refl in
    let ew = number_read node.cfg.w w f 5 w1 w2 refl in
    rw (sp, decode-encode v.payload s.bytes, parse-serialize v.clock s.sorted s.printable, en, ew)
      refl

pub response-Lacks : Lacks bar (codes "RESPONSE")
unfolding lacks
response-Lacks = lacks-Lacks bar (codes "RESPONSE") refl

-- The pairs of value and clock, as a client reads them.
unfoldable pub read_pairs : List Str → List VersionedValue
read_pairs [] = []
read_pairs (b64 ∷ []) = []
read_pairs (b64 ∷ clock ∷ f) =
    record { payload = decode b64; clock = parse clock; deleted = false } ∷ read_pairs f

pair_fields : List VersionedValue → List Str
pair_fields [] = []
pair_fields (v ∷ l) = encode v.payload ∷ Wire.serialize v.clock ∷ pair_fields l

version_fields-join :
    (first : Str) (l : List VersionedValue)
    → join bar (first ∷ pair_fields l) ≡ first ++ version_fields l
unfolding pair_fields version_fields join
version_fields-join first [] = sym (append-nil first)
version_fields-join first (v ∷ l) =
    ap (λ t. first ++ bar ∷ (encode v.payload ++ bar ∷ t))
      (version_fields-join (Wire.serialize v.clock) l)

pair_fields-Lacks : (l : List VersionedValue) → All IsStorable l → All (Lacks bar) (pair_fields l)
unfolding pair_fields
pair_fields-Lacks [] s = tt
pair_fields-Lacks (v ∷ l) s =
    (encode-Lacks v.payload, (serialize-Lacks v.clock s.0.no_bar, pair_fields-Lacks l s.1))

read_pairs-fields :
    (l : List VersionedValue) → All IsStorable l → read_pairs (pair_fields l) ≡ map without_mark l
unfolding pair_fields read_pairs
read_pairs-fields [] s = refl
read_pairs-fields (v ∷ l) s = ground (
  arith,
  decode-encode v.payload s.0.bytes,
  parse-serialize v.clock s.0.sorted s.0.printable,
  read_pairs-fields l s.1,
)

siblings-Lacks : Lacks bar (codes "SIBLINGS")
unfolding lacks
siblings-Lacks = lacks-Lacks bar (codes "SIBLINGS") refl

split-siblings :
    (values : List VersionedValue)
    → All IsStorable values
    → split bar (get_reply (GetResult.siblings values))
      ≡ codes "RESPONSE" ∷ codes "SIBLINGS" ∷ to_string (length values) ∷ pair_fields values
unfolding join
split-siblings values s =
    let n = to_string (length values) in
    ap (λ t. split bar (codes "RESPONSE|SIBLINGS|" ++ t)) (sym (version_fields-join n values))
    ∙ split-join bar (codes "RESPONSE") (codes "SIBLINGS" ∷ n ∷ pair_fields values) (
      response-Lacks,
      (siblings-Lacks, (digits_Lack (length values), pair_fields-Lacks values s)),
    )

-- A client reads out of a reply with siblings their number and each of them, in order, with its bytes
-- and its clock; a sibling that is a tombstone looks like a value of its payload.
pub get_reply-siblings :
    (values : List VersionedValue)
    → All IsStorable values
    → let f = split bar (get_reply (GetResult.siblings values)) in
      (field f 1 ≡ codes "SIBLINGS")
      × (field f 2 ≡ to_string (length values))
      × (read_pairs (drop 3 f) ≡ map without_mark values)
unfolding field
get_reply-siblings values s =
    let sp = split-siblings values s in rw sp (refl, refl, read_pairs-fields values s)
