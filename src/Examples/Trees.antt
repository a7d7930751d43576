-- ===== src/Examples/Trees.antt =====
-- Trees of terms: a hash that keeps its arguments, so that it has no collisions.
use psy_doge_solana_bridge.Prelude.{
  ℕ, zero, suc, ◌≡◌, ◌≢◌, refl, List, [], ◌∷◌, get_elem?, some, arith,
}
use psy_doge_solana_bridge.Errors.{ok}
use psy_doge_solana_bridge.Merkle.{MerkleHasher, IsZeroTable, compute_merkle_root}
use psy_doge_solana_bridge.AppendTree.{FixedMerkleAppendTree, append, new_empty, new}
use psy_doge_solana_bridge.AppendTree.Holds.{Holds, new_empty-Holds, append-Holds}
use psy_doge_solana_bridge.AppendTree.Path.{
  append_delta_merkle_proof, append_delta_merkle_proof_roots,
  get_partial_merkle_proof_for_current_index, stored_siblings_give_the_root,
  compute_merkle_root-appended,
}
use psy_doge_solana_bridge.AppendTree.Sound.{IsCollisionFree, accepted_path_is_leaf}
use psy_doge_solana_bridge.AppendTree.Revert.{
  get_changed_next_siblings_for_revert, revert_to_next_index,
}
use psy_doge_solana_bridge.AppendTree.Revert.RoundTrip.{revert_restores}

data Term : Type 0 where
  leaf : ℕ → Term
  node : Term → Term → Term

zero_terms : ℕ → Term
zero_terms zero = leaf 0
zero_terms (suc i) = node (zero_terms i) (zero_terms i)

abbrev term_hasher : MerkleHasher Term
term_hasher = record { two_to_one = node; zero_hashes = zero_terms }

table : IsZeroTable term_hasher
unfolding zero_terms
table i = refl

collision_free : IsCollisionFree term_hasher
collision_free a b c d e = (cc e, cc e)

abbrev empty_tree : FixedMerkleAppendTree Term
empty_tree = new_empty term_hasher

empty-Holds : Holds term_hasher empty_tree []
empty-Holds = new_empty-Holds term_hasher table

abbrev one_leaf : FixedMerkleAppendTree Term
one_leaf = append term_hasher (leaf 7) empty_tree

one_leaf-Holds : Holds term_hasher one_leaf (leaf 7 ∷ [])
one_leaf-Holds = append-Holds term_hasher table empty_tree [] (leaf 7) (omega arith) empty-Holds

append-Holds_example :
    Holds term_hasher (append term_hasher (leaf 8) one_leaf) (leaf 7 ∷ leaf 8 ∷ [])
append-Holds_example =
    append-Holds term_hasher table one_leaf (leaf 7 ∷ []) (leaf 8) (omega arith) one_leaf-Holds

revert_restores_example :
    (changed : List Term) × (get_changed_next_siblings_for_revert one_leaf.next_index
        empty_tree.next_index empty_tree.next_siblings
      ≡ ok changed)
    × (revert_to_next_index term_hasher empty_tree.next_index changed one_leaf
        ≡ (ok tt, empty_tree))
revert_restores_example =
    revert_restores term_hasher table empty_tree one_leaf [] (leaf 7 ∷ []) (omega arith)
      (omega arith) empty-Holds one_leaf-Holds

stored_siblings_give_the_root_example :
    let proof = get_partial_merkle_proof_for_current_index term_hasher one_leaf in
    (new term_hasher one_leaf.next_index one_leaf.next_siblings ≡ ok one_leaf)
    × (proof.index ≡ 1)
    × (compute_merkle_root term_hasher proof.value proof.index proof.siblings
        ≡ ok one_leaf.current_root)
stored_siblings_give_the_root_example =
    stored_siblings_give_the_root term_hasher table one_leaf (leaf 7 ∷ []) (omega arith)
      one_leaf-Holds

append_delta_merkle_proof_roots_example :
    let (proof, after) = append_delta_merkle_proof term_hasher (leaf 8) one_leaf in
    (proof.index ≡ 1)
    × (proof.old_root ≡ one_leaf.current_root)
    × (proof.new_root ≡ after.current_root)
    × Holds term_hasher after (leaf 7 ∷ leaf 8 ∷ [])
append_delta_merkle_proof_roots_example =
    append_delta_merkle_proof_roots term_hasher table one_leaf (leaf 7 ∷ []) (leaf 8) (omega arith)
      one_leaf-Holds

not_zero : leaf 7 ≢ zero_terms 0
unfolding zero_terms
not_zero e = absurd (cc e)

accepted_path_is_leaf_example : get_elem? {A = Term} (leaf 7 ∷ []) 0 ≡ some (leaf 7)
accepted_path_is_leaf_example =
    accepted_path_is_leaf term_hasher collision_free one_leaf (leaf 7 ∷ []) (leaf 7) 0
      empty_tree.next_siblings one_leaf-Holds empty-Holds.height
      (compute_merkle_root-appended term_hasher table empty_tree [] (leaf 7) (omega arith)
        empty-Holds)
      not_zero
