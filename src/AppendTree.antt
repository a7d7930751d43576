-- ===== src/AppendTree.antt =====
-- `FixedMerkleAppendTree`, a Merkle tree of height 32 that keeps only the left siblings of its next
-- leaf: crypto/hash/merkle/fixed_append_tree.rs and append.rs of libraries/psy-bridge-core.
pub mod Store
pub mod Holds
pub mod Path
pub mod Sound
pub mod Revert
use psy_doge_solana_bridge.Prelude.{
  ℕ, zero, suc, ◌+◌, ◌/◌, ◌%◌, ◌^◌, ◌<◌, ◌≡◌, Bool, true, false, ◌&&◌, ◌||◌, not, List, [], ◌∷◌,
  ◌++◌, bit_xor, length, get_or, ltb, leb, ◌==◌, if◌then◌else◌,
}
use psy_doge_solana_bridge.Errors.{
  Result, ok, err, panic, Action, pure, fail, ◌>>=◌, ◌>>◌, revert_index_too_high,
  not_enough_changed_left_siblings, too_many_changed_left_siblings,
}
use psy_doge_solana_bridge.Merkle.{MerkleHasher, compute_merkle_root}

abbrev pub tree_height : ℕ
tree_height = 32

-- `core::array::from_fn`.
unfoldable pub from_fn : {A : Type 0} → ℕ → (ℕ → A) → List A
from_fn zero f = []
from_fn (suc n) f = f 0 ∷ from_fn n (λ i. f (suc i))

pub record FixedMerkleAppendTree (H : Type 0) : Type 0 where
  pub next_index : ℕ
  pub current_root : H
  pub next_siblings : List H

-- `FixedMerkleAppendTreePartialMerkleProof`, and `MerkleProofCorePartial` over the same fields.
pub record PartialMerkleProof (H : Type 0) : Type 0 where
  pub index : ℕ
  pub value : H
  pub siblings : List H

module _ {H : Type 0} (m : MerkleHasher H) where
  -- The loop of `update_siblings_append_merkle_tree` from `level` on: the root, and the siblings
  -- with the changes made.
  unfoldable pub update_siblings_loop : ℕ → List H → H → ℕ → ℕ → H × List H
  update_siblings_loop level [] current index next_changes = (current, [])
  update_siblings_loop level (sibling ∷ siblings) current index next_changes =
      let is_left = index % 2 == 0 in
      let (root, rest) =
        update_siblings_loop (suc level) siblings
          (if is_left
            then m.two_to_one current (m.zero_hashes level)
            else m.two_to_one sibling current)
          (index / 2) (next_changes / 2) in
      (
        root,
        (if next_changes % 2 == 1
              then if is_left then current else m.zero_hashes level
              else sibling)
            ∷ rest,
      )

  unfoldable pub update_siblings_append_merkle_tree : List H → H → ℕ → H × List H
  unfolding update_siblings_loop
  update_siblings_append_merkle_tree next_siblings next_value next_index =
      update_siblings_loop 0 next_siblings next_value next_index
        (bit_xor next_index ((next_index + 1) % 2 ^ 64))

  unfoldable pub new_empty : FixedMerkleAppendTree H
  new_empty = record {
    next_index = 0;
    current_root = m.zero_hashes tree_height;
    next_siblings = from_fn tree_height m.zero_hashes;
  }

  -- `new`: the root is computed for the empty leaf at `next_index`.
  unfoldable pub new : ℕ → List H → Result (FixedMerkleAppendTree H)
  unfolding new_empty
  new next_index next_siblings =
      if next_index == 0
      then ok new_empty
      else elim (compute_merkle_root m (m.zero_hashes 0) next_index next_siblings) [
        | ok root ↦
            ok (record {
              next_index = next_index;
              current_root = root;
              next_siblings = next_siblings;
            })
        | err e ↦ err e
        | panic ↦ panic
      ]

  -- `get_value`: the leaf that waits for its right neighbour.
  unfoldable pub get_value : FixedMerkleAppendTree H → H
  get_value tree =
      if tree.next_index % 2 == 1
      then get_or tree.next_siblings 0 (m.zero_hashes 0)
      else m.zero_hashes 0

  unfoldable pub append : H → FixedMerkleAppendTree H → FixedMerkleAppendTree H
  unfolding update_siblings_append_merkle_tree
  append new_value tree =
      let (new_root, next_siblings) =
        update_siblings_append_merkle_tree tree.next_siblings new_value tree.next_index in
      record {
        next_index = (tree.next_index + 1) % 2 ^ 64;
        current_root = new_root;
        next_siblings = next_siblings;
      }
