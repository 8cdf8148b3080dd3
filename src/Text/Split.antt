-- ===== src/Text/Split.antt =====
-- Cutting a text at a separator: std::string::find with substr, and the loops that split a message.
use mini_dynamo.Base.{
  Bool, true, false, zero, suc, ℕ, ◌≡◌, ◌≢◌, refl, ap, ◌∙◌, Option, none, some, List, [], ◌∷◌, ◌++◌,
  ◌==◌, if◌then◌else◌, arith, All, append-nil, append_assoc,
}
use mini_dynamo.Text.{Str}

-- What stands before the first `sep` and behind it; `none` is npos.
unfoldable pub cut_at : ℕ → Str → Option (Str × Str)
cut_at sep [] = none
cut_at sep (c ∷ s) =
    let rest = cut_at sep s in
    if c == sep then some ([], s) else elim rest [ none ↦ none | some (a, b) ↦ some (c ∷ a, b) ]

-- The fields of a text, empty ones kept: `splitAll` of src/node.cpp, `split` of
-- src/gossip/gossip_thread.cpp and the tokens of `deserializeEvents`.
unfoldable pub split_from : ℕ → Str → Str → List Str
split_from sep [] field = field ∷ []
split_from sep (c ∷ s) field =
    let next = split_from sep s [] in
    let same = split_from sep s (field ++ c ∷ []) in if c == sep then field ∷ next else same

unfoldable pub split : ℕ → Str → List Str
unfolding split_from
split sep s = split_from sep s []

-- The i-th field, or the empty text: `field` of src/node.cpp and of src/gossip/gossip_thread.cpp.
unfoldable pub field : List Str → ℕ → Str
field [] i = []
field (f ∷ l) zero = f
field (f ∷ l) (suc i) = field l i

abbrev pub Lacks : ℕ → Str → Type 0
Lacks sep = All (λ c. c ≢ sep)

unfoldable pub lacks : ℕ → Str → Bool
lacks sep [] = true
lacks sep (c ∷ s) = let rest = lacks sep s in if c == sep then false else rest

-- For a text that is written out.
pub lacks-Lacks : (sep : ℕ) (s : Str) → lacks sep s ≡ true → Lacks sep s
unfolding lacks
lacks-Lacks sep [] h = tt
lacks-Lacks sep (c ∷ s) h = (λ e. ground arith, lacks-Lacks sep s (ground arith))

unfoldable pub join : ℕ → List Str → Str
join sep [] = []
join sep (f ∷ []) = f
join sep (f ∷ g ∷ fs) = f ++ sep ∷ join sep (g ∷ fs)

pub cut_at-sep : (sep : ℕ) (a b : Str) → Lacks sep a → cut_at sep (a ++ sep ∷ b) ≡ some (a, b)
unfolding cut_at
cut_at-sep sep [] b l = ground arith
cut_at-sep sep (c ∷ a) b l = ground (arith, cut_at-sep sep a b l.1, l.0)

pub cut_at-Lacks : (sep : ℕ) (a : Str) → Lacks sep a → cut_at sep a ≡ none
unfolding cut_at
cut_at-Lacks sep [] l = refl
cut_at-Lacks sep (c ∷ a) l = ground (arith, cut_at-Lacks sep a l.1, l.0)

split_from-Lacks :
    (sep : ℕ) (a field : Str) → Lacks sep a → split_from sep a field ≡ (field ++ a) ∷ []
unfolding split_from
split_from-Lacks sep [] field l = rw append-nil
split_from-Lacks sep (c ∷ a) field l =
    ground (arith, split_from-Lacks sep a (field ++ c ∷ []) l.1, append_assoc field (c ∷ []) a, l.0)

split_from-sep :
    (sep : ℕ) (a b field : Str)
    → Lacks sep a
    → split_from sep (a ++ sep ∷ b) field ≡ (field ++ a) ∷ split_from sep b []
unfolding split_from
split_from-sep sep [] b field l = ground (arith, append-nil field)
split_from-sep sep (c ∷ a) b field l =
    ground (arith, split_from-sep sep a b (field ++ c ∷ []) l.1, append_assoc field (c ∷ []) a, l.0)

-- Fields without the separator, joined and split again.
pub split-join :
    (sep : ℕ) (f : Str) (fs : List Str)
    → All (Lacks sep) (f ∷ fs)
    → split sep (join sep (f ∷ fs)) ≡ f ∷ fs
unfolding split join
split-join sep f [] l = split_from-Lacks sep f [] l.0
split-join sep f (g ∷ fs) l =
    split_from-sep sep f (join sep (g ∷ fs)) [] l.0 ∙ ap (◌∷◌ f) (split-join sep g fs l.1)
