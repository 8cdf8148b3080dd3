-- ===== src/AntiEntropy/Merkle/Order.antt =====
-- The tree does not depend on the order of the inserts.
use Prim.Native.Nat.{bit_xor}
use mathlib.Core.Path.{fun_ext}
use mathlib.Core.List.{foldr, Perm}
use mathlib.Core.List.Perm
use mini_dynamo.Base.{
  ℕ, ◌+◌, ◌≡◌, refl, ap, sym, ◌∙◌, inl, inr, List, [], ◌∷◌, ◌==◌, if◌then◌else◌, arith, Bool-cases,
}
use mini_dynamo.Base.Xor.{bit_xor_comm, bit_xor_assoc, bit_xor-zero}
use mini_dynamo.AntiEntropy.Merkle.{MerkleTree, leaf_of, insert, insert_all}

-- What a pair puts into node `j`.
abbrev weight : MerkleTree → ℕ → ℕ × ℕ → ℕ
weight t j (key_hash, value_hash) =
    if j == (t.leaf_start + leaf_of t.depth key_hash) then value_hash else 0

abbrev pub content : MerkleTree → ℕ → List (ℕ × ℕ) → ℕ
content t j = foldr (λ e x. bit_xor (weight t j e) x) 0

insert-nodes :
    (t : MerkleTree) (k v j : ℕ) → (insert t k v).nodes j ≡ bit_xor (t.nodes j) (weight t j (k, v))
unfolding insert
insert-nodes t k v j = elim (Bool-cases (j == (t.leaf_start + leaf_of t.depth k))) [
  | inl here ↦ ground (arith, here)
  | inr other ↦ rw other (sym (bit_xor-zero (t.nodes j)))
]

pub insert_all-nodes :
    (l : List (ℕ × ℕ)) (t : MerkleTree) (j : ℕ)
    → (insert_all t l).nodes j ≡ bit_xor (t.nodes j) (content t j l)
unfolding insert_all insert
insert_all-nodes [] t j = sym (bit_xor-zero (t.nodes j))
insert_all-nodes ((k, v) ∷ l) t j =
    insert_all-nodes l (insert t k v) j
    ∙ ap (λ x. bit_xor x (content t j l)) (insert-nodes t k v j)
    ∙ bit_xor_assoc (t.nodes j) (weight t j (k, v)) (content t j l)

insert_all-shape :
    (l : List (ℕ × ℕ)) (t : MerkleTree)
    → insert_all t l ≡ record t { nodes = (insert_all t l).nodes }
unfolding insert_all insert
insert_all-shape [] t = refl
insert_all-shape ((k, v) ∷ l) t = insert_all-shape l (insert t k v)

swap_weights :
    (t : MerkleTree) (j : ℕ) (a b : ℕ × ℕ) (x : ℕ)
    → bit_xor (weight t j a) (bit_xor (weight t j b) x)
      ≡ bit_xor (weight t j b) (bit_xor (weight t j a) x)
swap_weights t j a b x =
    sym (bit_xor_assoc (weight t j a) (weight t j b) x)
    ∙ ap (λ y. bit_xor y x) (bit_xor_comm (weight t j a) (weight t j b))
    ∙ bit_xor_assoc (weight t j b) (weight t j a) x

ℕ-IsSet : IsSet ℕ
ℕ-IsSet = hlevel

content-Perm :
    (t : MerkleTree) (j : ℕ) {l m : List (ℕ × ℕ)} → Perm l m → content t j l ≡ content t j m
content-Perm t j p = Perm.foldr-eq ℕ-IsSet (λ e x. bit_xor (weight t j e) x) (swap_weights t j) p 0

-- Whatever order the keys are inserted in, the tree is the same.
pub insert_all-Perm :
    (t : MerkleTree) {l m : List (ℕ × ℕ)} → Perm l m → insert_all t l ≡ insert_all t m
insert_all-Perm t {l} {m} p =
    let same = fun_ext λ j.
      insert_all-nodes l t j
      ∙ ap (bit_xor (t.nodes j)) (content-Perm t j p)
      ∙ sym (insert_all-nodes m t j) in
    insert_all-shape l t ∙ ap (λ f. record t { nodes = f }) same ∙ sym (insert_all-shape m t)
