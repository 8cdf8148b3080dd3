-- ===== src/OrdMap/Keys.antt =====
-- Lists of keys of a map, and how many there are.
use mini_dynamo.Base.{
  ◌≤◌, ◌≡◌, refl, Bool, true, false, some, List, [], ◌∷◌, ◌++◌, arith, if◌then◌else◌, length,
}
use mini_dynamo.OrdMap.{Key, Map, find, erase, Sorted, find-erase, erase-Sorted}
use mini_dynamo.OrdMap.Entries.{find-head, length-erase}

module _ {K : Type 0} ⦃o : Key K⦄ where
  unfoldable pub elem : K → List K → Bool
  elem k [] = false
  elem k (j ∷ l) = if o.beq k j then true else elem k l

  abbrev pub NoRepeat : List K → Type 0
  NoRepeat [] = Unit {0}
  NoRepeat (k ∷ l) = (elem k l ≡ false) × NoRepeat l

  pub elem-append : (k : K) (l m : List K) → elem k (l ++ m) ≡ (if elem k l then true else elem k m)
  unfolding elem
  elem-append k [] m = refl
  elem-append k (j ∷ l) m = ground (arith, elem-append k l m)

module _ {K V : Type 0} ⦃o : Key K⦄ where
  -- Each of the keys is in the map.
  abbrev pub Within : List K → Map K V → Type 0
  Within l m = (k : K) → elem k l ≡ true → (v : V) × (find k m ≡ some v)

  Within-erase :
      (k : K) (l : List K) (m : Map K V)
      → elem k l ≡ false
      → Within (k ∷ l) m
      → Within l (erase k m)
  unfolding elem
  Within-erase k l m d w j h =
      let (v, e) = w j (ground arith) in (v, ground (arith, find-erase k j m, o.beq_iff j k))

  pub length-Within :
      (l : List K) (m : Map K V) → Sorted m → NoRepeat l → Within l m → length l ≤ length m
  length-Within [] m s d w = omega arith
  length-Within (k ∷ l) m s d w =
      let (v, e) = w k (unfold elem in ground (arith, o.beq_iff k k)) in
      omega (
        arith,
        length-erase k v m s e,
        length-Within l (erase k m) (erase-Sorted k m s) d.1 (Within-erase k l m d.0 w),
      )

  -- Keys of the map, each once, and all of them: as many as the map has entries.
  pub length_all_keys :
      (l : List K) (m : Map K V)
      → Sorted m
      → NoRepeat l
      → Within l m
      → ((k : K) (v : V) → find k m ≡ some v → elem k l ≡ true)
      → length l ≡ length m
  unfolding elem
  length_all_keys [] [] s d w a = refl
  length_all_keys [] ((k, v) ∷ m) s d w a = absurd (ground (arith, a k v (find-head k v m)))
  length_all_keys (k ∷ l) m s d w a =
      let (v, e) = w k (ground (arith, o.beq_iff k k)) in
      omega (
        arith,
        length-erase k v m s e,
        length_all_keys l (erase k m) (erase-Sorted k m s) d.1 (Within-erase k l m d.0 w)
            λ j x h. ground (arith, find-erase k j m, a j x),
      )
