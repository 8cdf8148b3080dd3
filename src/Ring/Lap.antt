-- ===== src/Ring/Lap.antt =====
-- One lap of the ring, from a key's hash on, and the iterator that wraps behind the last slot.
use mini_dynamo.Base.{
  ℕ, suc, ◌≡◌, refl, ap, subst, List, [], ◌∷◌, ◌++◌, arith, if◌then◌else◌, ltb, length,
}
use mini_dynamo.Text.{Str, str_key, nat_key}
use mini_dynamo.OrdMap.{Map}
use mini_dynamo.Ring.{wrap, lower_bound}

abbrev pub slots : Map ℕ Str → List Str
slots [] = []
slots ((h, p) ∷ m) = p ∷ slots m

unfoldable pub below : ℕ → Map ℕ Str → Map ℕ Str
below h [] = []
below h ((k, p) ∷ m) = if ltb k h then (k, p) ∷ below h m else []

-- One lap: the slots from the hash on, and then those before it.
unfoldable pub clockwise : ℕ → Map ℕ Str → List Str
unfolding below
clockwise h ring = slots (lower_bound h ring) ++ slots (below h ring)

pub below-lower_bound : (h : ℕ) (m : Map ℕ Str) → below h m ++ lower_bound h m ≡ m
unfolding below lower_bound
below-lower_bound h [] = refl
below-lower_bound h ((k, p) ∷ m) = ground (arith, below-lower_bound h m)

pub slots-append : (l m : Map ℕ Str) → slots (l ++ m) ≡ slots l ++ slots m
slots-append [] m = refl
slots-append ((h, p) ∷ l) m = ap (◌∷◌ p) (slots-append l m)

pub length-slots : (m : Map ℕ Str) → length (slots m) ≡ length m
length-slots [] = refl
length-slots ((h, p) ∷ m) = ap suc (length-slots m)

-- The slots that the iterator passes, wrapping behind the last one, begin with `l`.
abbrev pub Passes : Map ℕ Str → Map ℕ Str → List Str → Type 0
Passes ring it [] = Unit {0}
Passes ring it (p ∷ l) =
    (h : ℕ) × (rest : Map ℕ Str) × (it ≡ (h, p) ∷ rest) × Passes ring (wrap ring rest) l

Passes-prefix : (ring pre post : Map ℕ Str) → Passes ring (pre ++ post) (slots pre)
Passes-prefix ring [] post = tt
Passes-prefix ring ((h, p) ∷ []) post = (h, post, refl, tt)
Passes-prefix ring ((h, p) ∷ x ∷ pre) post =
    (h, x ∷ pre ++ post, refl, Passes-prefix ring (x ∷ pre) post)

Passes-lap :
    (ring it : Map ℕ Str) (l : List Str)
    → Passes ring ring l
    → Passes ring (wrap ring it) (slots it ++ l)
Passes-lap ring [] l h = h
Passes-lap ring ((k, p) ∷ it) l h = (k, it, refl, Passes-lap ring it l h)

pub clockwise-Passes :
    (h : ℕ) (ring : Map ℕ Str) → Passes ring (wrap ring (lower_bound h ring)) (clockwise h ring)
unfolding clockwise
clockwise-Passes h ring = Passes-lap ring (lower_bound h ring) (slots (below h ring)) (
    subst (λ m. Passes ring m (slots (below h ring))) (below-lower_bound h ring)
      (Passes-prefix ring (below h ring) (lower_bound h ring)))
