-- ===== src/AntiEntropy/Trees.antt =====
-- The tree of a store stands for what is stored, not for the order in which it is kept.
use mathlib.Core.List.{Perm}
use mathlib.Core.List.Perm
use mini_dynamo.Base.{ℕ, ◌≡◌, refl, ap, ◌∙◌, sym, [], ◌∷◌, map}
use mini_dynamo.Text.{Str}
use mini_dynamo.Replica.{Storage, for_each}
use mini_dynamo.Ring.{hash64}
use mini_dynamo.AntiEntropy.Merkle.{MerkleTree, k_default_depth, new, insert, insert_all, build}
use mini_dynamo.AntiEntropy.Merkle.Order.{insert_all-Perm}
use mini_dynamo.AntiEntropy.{build_local_tree}

abbrev hashes : Str × Str → ℕ × ℕ
hashes (key, value) = (hash64 key, hash64 value)

for_each-insert :
    (store : Storage) (t : MerkleTree)
    → for_each store (λ t key value. insert t (hash64 key) (hash64 value)) t
      ≡ insert_all t (map hashes store)
unfolding for_each insert_all
for_each-insert [] t = refl
for_each-insert ((key, value) ∷ store) t =
    for_each-insert store (insert t (hash64 key) (hash64 value))

-- Two nodes that hold the same pairs have the same tree, whatever order their stores go through them.
pub build_local_tree-Perm :
    {store other : Storage} → Perm store other → build_local_tree store ≡ build_local_tree other
unfolding build_local_tree
build_local_tree-Perm {store} {other} p = ap build (
    for_each-insert store (new k_default_depth)
    ∙ insert_all-Perm (new k_default_depth) (Perm.map hashes p)
    ∙ sym (for_each-insert other (new k_default_depth)))
