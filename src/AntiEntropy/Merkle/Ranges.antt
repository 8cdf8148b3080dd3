-- ===== src/AntiEntropy/Merkle/Ranges.antt =====
-- The ranges of hashes that the leaves stand for.
use mini_dynamo.Base.{ℕ, ◌^◌, ◌≤◌, ◌<◌, ◌≡◌, ◌↔◌, arith, two64}
use mini_dynamo.AntiEntropy.Merkle.{k_default_depth, leaf_of, range_of}

-- The ranges of the default depth: a key's hash lies in the range of a leaf just where the key is
-- inserted at that leaf.
pub range_of-leaf_of :
    (leaf key_hash : ℕ)
    → leaf < 2 ^ k_default_depth
    → key_hash < two64
    → let r = range_of k_default_depth leaf in
      (leaf_of k_default_depth key_hash ≡ leaf)
      ↔ ((r.range_start ≤ key_hash) × (key_hash ≤ r.range_end))
unfolding range_of leaf_of
range_of-leaf_of leaf key_hash l k = ground arith
