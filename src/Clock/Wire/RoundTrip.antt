-- ===== src/Clock/Wire/RoundTrip.antt =====
-- The text of a clock is read back as the clock.
use mini_dynamo.Base.{
  ℕ, ◌<◌, ◌≡◌, ◌≢◌, refl, ap, sym, ◌∙◌, true, false, some, List, [], ◌∷◌, ◌++◌, All, All-append,
  arith, two64, ◌==◌, append_assoc, append-nil,
}
use mini_dynamo.Text.{Str, str_key, str_lt, str_eq_iff, str_lt_irrefl, str_lt_trans}
use mini_dynamo.Text.Decimal.{
  Digits-Lacks, to_string, is_digit, to_string-AllDigits, to_string-ne-nil, stoull-to_string,
}
use mini_dynamo.Text.Split.{cut_at, split, join, Lacks, cut_at-sep, split-join}
use mini_dynamo.OrdMap.{Map, insert, Sorted, Above}
use mini_dynamo.Clock.{Entry, VectorClock, empty, set}
use mini_dynamo.Clock.Wire.{
  comma, colon, entry_text, entry_texts, serialize, is_empty, set_numbers, parse_tail, parse_entry,
  parse_entries, parse,
}

-- What the text needs of an entry: a name that is not empty and holds neither separator, and numbers that
-- are uint64_t, the counter not zero.
pub record IsPrintable (kv : Str × Entry) : Type 0 where
  pub name : kv.0 ≢ []
  pub no_comma : Lacks comma kv.0
  pub no_colon : Lacks colon kv.0
  pub counter_pos : 0 < kv.1.counter
  pub counter_fits : kv.1.counter < two64
  pub ms_fits : kv.1.updated_ms < two64

-- An entry's text holds no separator that its name does not hold, but for digits and colons.
entry_text-Lacks :
    (sep : ℕ) (node : Str) (e : Entry)
    → is_digit sep ≡ false
    → colon ≢ sep
    → Lacks sep node
    → Lacks sep (entry_text node e)
unfolding entry_text
entry_text-Lacks sep node e h d l =
    let counter = Digits-Lacks sep (to_string e.counter) h (to_string-AllDigits e.counter) in
    let ms = Digits-Lacks sep (to_string e.updated_ms) h (to_string-AllDigits e.updated_ms) in
    let tail : Lacks sep (to_string e.counter ++ colon ∷ to_string e.updated_ms) =
      All-append (λ c. c ≢ sep) (to_string e.counter) (colon ∷ to_string e.updated_ms) counter
        (d, ms) in
    All-append (λ c. c ≢ sep) node (colon ∷ (to_string e.counter ++ colon ∷ to_string e.updated_ms))
      l (d, tail)

not_empty : (s : Str) → s ≢ [] → is_empty s ≡ false
not_empty [] h = absurd (h refl)
not_empty (c ∷ s) h = refl

set_numbers-lem :
    (vc : VectorClock) (node : Str) (c ms : ℕ)
    → c < two64
    → ms < two64
    → set_numbers vc node (to_string c) (to_string ms) ≡ set vc node c ms
unfolding set_numbers
set_numbers-lem vc node c ms hc hm =
    rw (not_empty (to_string c) (to_string-ne-nil c), stoull-to_string c hc, stoull-to_string ms hm)

parse_entry-cut :
    (vc : VectorClock) (s node tail : Str)
    → cut_at colon s ≡ some (node, tail)
    → is_empty node ≡ false
    → is_empty tail ≡ false
    → parse_entry vc s ≡ parse_tail vc node tail
unfolding parse_entry
parse_entry-cut vc s node tail h n t = ground arith

parse_tail-cut :
    (vc : VectorClock) (node tail num ts : Str)
    → cut_at colon tail ≡ some (num, ts)
    → is_empty ts ≡ false
    → parse_tail vc node tail ≡ set_numbers vc node num ts
unfolding parse_tail
parse_tail-cut vc node tail num ts h t = ground arith

not_empty_tail : (s : Str) (c : ℕ) (t : Str) → is_empty (s ++ c ∷ t) ≡ false
not_empty_tail [] c t = refl
not_empty_tail (d ∷ s) c t = refl

parse_entry-text :
    (vc : VectorClock) (node : Str) (e : Entry)
    → IsPrintable (node, e)
    → parse_entry vc (entry_text node e) ≡ set vc node e.counter e.updated_ms
unfolding entry_text
parse_entry-text vc node e p =
    let tail : Str = to_string e.counter ++ colon ∷ to_string e.updated_ms in
    parse_entry-cut vc (node ++ colon ∷ tail) node tail (cut_at-sep colon node tail p.no_colon)
      (not_empty node p.name) (not_empty_tail (to_string e.counter) colon (to_string e.updated_ms))
    ∙ parse_tail-cut vc node tail (to_string e.counter) (to_string e.updated_ms)
        (cut_at-sep colon (to_string e.counter) (to_string e.updated_ms)
          (Digits-Lacks colon _ refl (to_string-AllDigits e.counter)))
        (not_empty (to_string e.updated_ms) (to_string-ne-nil e.updated_ms))
    ∙ set_numbers-lem vc node e.counter e.updated_ms p.counter_fits p.ms_fits

Above-last :
    (j k : Str) (e : Entry) (m l : Map Str Entry) → Above j (m ++ (k, e) ∷ l) → str_lt j k ≡ true
Above-last j k e [] l a = a.0
Above-last j k e (x ∷ m) l a = Above-last j k e m l a.1

-- A key above all others is inserted at the end.
insert_last :
    (k : Str) (e : Entry) (m l : Map Str Entry)
    → Sorted (m ++ (k, e) ∷ l)
    → insert k e m ≡ m ++ (k, e) ∷ []
unfolding insert
insert_last k e [] l s = refl
insert_last k e ((j, x) ∷ m) l s =
    let up = Above-last j k e m l s.0 in
    ground (arith, insert_last k e m l s.1, str_eq_iff k j, str_lt_irrefl j, str_lt_trans j k j, up)

set_last :
    (k : Str) (e : Entry) (m l : Map Str Entry)
    → Sorted (m ++ (k, e) ∷ l)
    → 0 < e.counter
    → set (record { counts = m }) k e.counter e.updated_ms ≡ record { counts = m ++ (k, e) ∷ [] }
unfolding set
set_last k e m l s pos =
    let kept : (e.counter == 0) ≡ false = ground arith in
    rw kept (ap (λ (c : Map Str Entry). record { counts = c }) (insert_last k e m l s))

parse_entries-texts :
    (m l : Map Str Entry)
    → Sorted (m ++ l)
    → All IsPrintable l
    → parse_entries (record { counts = m }) (entry_texts l) ≡ record { counts = m ++ l }
unfolding parse_entries entry_texts
parse_entries-texts m [] s p =
    ap (λ (c : Map Str Entry). record { counts = c }) (sym (append-nil m))
parse_entries-texts m ((k, e) ∷ l) s p =
    ap (λ (vc : VectorClock). parse_entries vc (entry_texts l))
      (parse_entry-text (record { counts = m }) k e p.0 ∙ set_last k e m l s p.0.counter_pos)
    ∙ parse_entries-texts (m ++ (k, e) ∷ []) l (rw append_assoc s) p.1
    ∙ ap (λ (c : Map Str Entry). record { counts = c }) (append_assoc m ((k, e) ∷ []) l)

texts-Lacks : (m : Map Str Entry) → All IsPrintable m → All (Lacks comma) (entry_texts m)
unfolding entry_texts
texts-Lacks [] p = tt
texts-Lacks ((k, e) ∷ m) p =
    (entry_text-Lacks comma k e refl (λ q. omega arith) p.0.no_comma, texts-Lacks m p.1)

split-serialize :
    (m : Map Str Entry)
    → Sorted m
    → All IsPrintable m
    → parse (serialize (record { counts = m })) ≡ record { counts = m }
unfolding parse serialize
split-serialize [] s p = unfold join split parse_entries parse_entry entry_texts cut_at in refl
split-serialize ((k, e) ∷ m) s p =
    ap (parse_entries empty)
      (split-join comma (entry_text k e) (entry_texts m) (texts-Lacks ((k, e) ∷ m) p))
    ∙ parse_entries-texts [] ((k, e) ∷ m) s p

-- A clock in key order reads back from its text as it was, counters and times, if each entry has a
-- name without ':' and ',' that is not empty, a counter that is not zero, and numbers below 2^64.
pub parse-serialize :
    (vc : VectorClock) → Sorted vc.counts → All IsPrintable vc.counts → parse (serialize vc) ≡ vc
parse-serialize vc s p = split-serialize vc.counts s p

join-Lacks : (sep s : ℕ) (l : List Str) → sep ≢ s → All (Lacks s) l → Lacks s (join sep l)
unfolding join
join-Lacks sep s [] d h = tt
join-Lacks sep s (f ∷ []) d h = h.0
join-Lacks sep s (f ∷ g ∷ fs) d h =
    All-append (λ c. c ≢ s) f (sep ∷ join sep (g ∷ fs)) h.0 (d, join-Lacks sep s (g ∷ fs) d h.1)

texts_lack :
    (s : ℕ) (m : Map Str Entry)
    → is_digit s ≡ false
    → colon ≢ s
    → All (λ (kv : Str × Entry). Lacks s kv.0) m
    → All (Lacks s) (entry_texts m)
unfolding entry_texts
texts_lack s [] h d l = tt
texts_lack s ((k, e) ∷ m) h d l = (entry_text-Lacks s k e h d l.0, texts_lack s m h d l.1)

-- The text of a clock holds no '|' where the names hold none.
pub serialize-Lacks :
    (vc : VectorClock)
    → All (λ (kv : Str × Entry). Lacks 124 kv.0) vc.counts
    → Lacks 124 (serialize vc)
unfolding serialize
serialize-Lacks vc l =
    join-Lacks comma 124 (entry_texts vc.counts) (λ p. omega arith)
      (texts_lack 124 vc.counts refl (λ p. omega arith) l)
