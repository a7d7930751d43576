-- ===== src/Merkle/Tree.antt =====
-- The reference: the root of a complete binary tree over given nodes.
use psy_doge_solana_bridge.Prelude.{ℕ, zero, suc, ◌+◌, List, get_or}
use psy_doge_solana_bridge.Merkle.{MerkleHasher}

module _ {H : Type 0} (m : MerkleHasher H) where
  -- The nodes one level up.
  abbrev pub parents : (ℕ → H) → ℕ → H
  parents nodes k = m.two_to_one (nodes (k + k)) (nodes (k + k + 1))

  -- The root of the tree of a height over the nodes at its lowest level.
  unfoldable pub full_root : ℕ → (ℕ → H) → H
  full_root zero nodes = nodes 0
  full_root (suc height) nodes = full_root height (parents nodes)

  -- The leaves of a tree that holds a list: the rest are empty.
  abbrev pub leaves : List H → ℕ → H
  leaves xs k = get_or xs k (m.zero_hashes 0)

  -- The root that a tree of a height has when it holds a list from the left.
  abbrev pub tree_root : ℕ → List H → H
  tree_root height xs = full_root height (leaves xs)
