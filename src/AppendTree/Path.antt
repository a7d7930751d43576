-- ===== src/AppendTree/Path.antt =====
-- The path of the next leaf, and `append` with a proof of what it changed.
use mathlib.Core.List.{append-nil}
use psy_doge_solana_bridge.Prelude.{
  ℕ, suc, ◌/◌, ◌%◌, ◌^◌, ◌<◌, ◌≤◌, ◌≡◌, refl, sym, ap, ◌∙◌, inl, inr, List, [], ◌∷◌, ◌++◌, arith,
  length, length-append, ◌==◌, if◌then◌else◌, Bool-cases,
}
use psy_doge_solana_bridge.Errors.{ok}
use psy_doge_solana_bridge.Merkle.{
  MerkleHasher, IsZeroTable, compute_merkle_root, merkle_root_loop, DeltaMerkleProof, from_params,
  compute_root_merkle_proof_generic,
}
use psy_doge_solana_bridge.Merkle.Tree.{leaves, tree_root, full_root}
use psy_doge_solana_bridge.Merkle.Agree.{compute_root_merkle_proof_generic-merkle_root_loop}
use psy_doge_solana_bridge.AppendTree.{
  FixedMerkleAppendTree, PartialMerkleProof, tree_height, append, new,
}
use psy_doge_solana_bridge.AppendTree.Store.{Store, Store-agree, merkle_root_loop-Store}
use psy_doge_solana_bridge.AppendTree.Holds.{
  Holds, append-Holds, new_empty_unique, get_or_beyond, get_or-append_lt, get_or-append_last,
}

module _ {H : Type 0} (m : MerkleHasher H) where
  -- The loop of `get_partial_merkle_proof_for_current_index`.
  current_siblings : ℕ → ℕ → List H → List H
  current_siblings level temp_idx [] = []
  current_siblings level temp_idx (sibling ∷ siblings) =
      (if temp_idx % 2 == 1 then sibling else m.zero_hashes level)
      ∷ current_siblings (suc level) (temp_idx / 2) siblings

  unfoldable pub get_partial_merkle_proof_for_current_index :
      FixedMerkleAppendTree H → PartialMerkleProof H
  unfolding current_siblings
  get_partial_merkle_proof_for_current_index tree = record {
    index = tree.next_index;
    value = m.zero_hashes 0;
    siblings = current_siblings 0 tree.next_index tree.next_siblings;
  }

  -- The proof, and the tree after the append.
  unfoldable pub append_delta_merkle_proof :
      H → FixedMerkleAppendTree H → DeltaMerkleProof H × FixedMerkleAppendTree H
  append_delta_merkle_proof new_value tree =
      let proof = get_partial_merkle_proof_for_current_index tree in
      (
        from_params m proof.index (m.zero_hashes 0) new_value proof.siblings,
        append m new_value tree,
      )

  current_siblings-Store :
      (level n : ℕ) (siblings : List H) (nodes : ℕ → H)
      → Store m level siblings n nodes
      → current_siblings level n siblings ≡ siblings
  unfolding current_siblings
  current_siblings-Store level n [] nodes store = refl
  current_siblings-Store level n (sibling ∷ siblings) nodes (odd, even, rest) =
      let tail = current_siblings-Store (suc level) (n / 2) siblings _ rest in
      elim (Bool-cases (n % 2 == 1)) [
        | inl e ↦ rw (e, tail)
        | inr e ↦ rw (e, tail, even (ground arith))
      ]

  module _ (table : IsZeroTable m) where
    path_root :
        (tree : FixedMerkleAppendTree H) (xs ys : List H)
        → length xs < 2 ^ tree_height
        → length ys ≤ 1
        → Holds m tree xs
        → merkle_root_loop m (leaves m (xs ++ ys) (length xs)) (length xs) tree.next_siblings
          ≡ (tree_root m tree_height (xs ++ ys), 0)
    path_root tree xs ys room one h =
        merkle_root_loop-Store m table 0 tree.next_siblings (length xs) (leaves m (xs ++ ys))
          (Store-agree m 0 tree.next_siblings (length xs) (leaves m xs) (leaves m (xs ++ ys))
            (λ k lt. get_or-append_lt xs ys k (m.zero_hashes 0) lt) h.stored)
          (λ k lt.
            get_or_beyond (xs ++ ys) k (m.zero_hashes 0) (omega (arith, length-append xs ys)))
          (rw h.height room)
        ∙ ap (λ k. (full_root m k (leaves m (xs ++ ys)), 0)) h.height

    old_path_root :
        (tree : FixedMerkleAppendTree H) (xs : List H)
        → length xs < 2 ^ tree_height
        → Holds m tree xs
        → merkle_root_loop m (m.zero_hashes 0) (length xs) tree.next_siblings
          ≡ (tree.current_root, 0)
    old_path_root tree xs room h =
        ap (λ x. merkle_root_loop m x (length xs) tree.next_siblings)
          (sym (
            get_or_beyond (xs ++ []) (length xs) (m.zero_hashes 0)
              (omega (arith, length-append xs []))))
        ∙ path_root tree xs [] room (omega arith) h
        ∙ ap (λ zs. (tree_root m tree_height zs, 0)) (append-nil xs)
        ∙ ap (λ r. (r, 0)) (sym h.root)

    pub compute_merkle_root-stored :
        (tree : FixedMerkleAppendTree H) (xs : List H)
        → length xs < 2 ^ tree_height
        → Holds m tree xs
        → compute_merkle_root m (m.zero_hashes 0) tree.next_index tree.next_siblings
          ≡ ok tree.current_root
    unfolding compute_merkle_root
    compute_merkle_root-stored tree xs room h =
        let root : merkle_root_loop m (m.zero_hashes 0) tree.next_index tree.next_siblings
            ≡ (tree.current_root, 0) =
          ap (λ n. merkle_root_loop m (m.zero_hashes 0) n tree.next_siblings) h.counted
          ∙ old_path_root tree xs room h in
        rw (root, h.height)

    -- A tree is rebuilt by `new` from its size and its stored siblings.
    new_rebuilds :
        (tree : FixedMerkleAppendTree H) (xs : List H)
        → length xs < 2 ^ tree_height
        → Holds m tree xs
        → new m tree.next_index tree.next_siblings ≡ ok tree
    unfolding new
    new_rebuilds tree xs room h = elim (Bool-cases (tree.next_index == 0)) [
      | inl none_yet ↦ rw none_yet (ap ok (sym (new_empty_unique m table tree xs h (ground arith))))
      | inr some_yet ↦ rw (some_yet, compute_merkle_root-stored tree xs room h)
    ]

    path_of_tree :
        (tree : FixedMerkleAppendTree H) (xs : List H) (value : H)
        → Holds m tree xs
        → compute_root_merkle_proof_generic m value tree.next_index
            (current_siblings 0 tree.next_index tree.next_siblings)
          ≡ (merkle_root_loop m value (length xs) tree.next_siblings).0
    path_of_tree tree xs value h =
        rw (h.counted, current_siblings-Store 0 (length xs) tree.next_siblings _ h.stored)
          (compute_root_merkle_proof_generic-merkle_root_loop m value (length xs)
            tree.next_siblings)

    -- The path of the next leaf, which is empty, leads to the root of the tree.
    compute_merkle_root-current_index :
        (tree : FixedMerkleAppendTree H) (xs : List H)
        → length xs < 2 ^ tree_height
        → Holds m tree xs
        → let proof = get_partial_merkle_proof_for_current_index tree in
          (proof.index ≡ length xs)
          × (compute_merkle_root m proof.value proof.index proof.siblings ≡ ok tree.current_root)
    unfolding get_partial_merkle_proof_for_current_index compute_merkle_root
    compute_merkle_root-current_index tree xs room h = (
      h.counted,
      rw (
        h.counted,
        current_siblings-Store 0 (length xs) tree.next_siblings _ h.stored,
        old_path_root tree xs room h,
        h.height,
      ),
    )

    -- A tree that is not full is rebuilt by `new` from its size and its stored siblings, and the path
    -- that it gives for its next leaf, which is empty, leads to its root.
    pub stored_siblings_give_the_root :
        (tree : FixedMerkleAppendTree H) (xs : List H)
        → length xs < 2 ^ tree_height
        → Holds m tree xs
        → let proof = get_partial_merkle_proof_for_current_index tree in
          (new m tree.next_index tree.next_siblings ≡ ok tree)
          × (proof.index ≡ length xs)
          × (compute_merkle_root m proof.value proof.index proof.siblings ≡ ok tree.current_root)
    stored_siblings_give_the_root tree xs room h =
        let (index, root) = compute_merkle_root-current_index tree xs room h in
        (new_rebuilds tree xs room h, index, root)

    -- `append_delta_merkle_proof` returns the tree that `append` makes and a proof for the leaf that
    -- was written, whose two roots are those of the tree before and after.
    pub append_delta_merkle_proof_roots :
        (tree : FixedMerkleAppendTree H) (xs : List H) (v : H)
        → length xs < 2 ^ tree_height
        → Holds m tree xs
        → let (proof, after) = append_delta_merkle_proof v tree in
          (proof.index ≡ length xs)
          × (proof.old_root ≡ tree.current_root)
          × (proof.new_root ≡ after.current_root)
          × Holds m after (xs ++ v ∷ [])
    unfolding append_delta_merkle_proof get_partial_merkle_proof_for_current_index from_params
    append_delta_merkle_proof_roots tree xs v room h =
        let after = append-Holds m table tree xs v room h in
        (
          h.counted,
          path_of_tree tree xs (m.zero_hashes 0) h ∙ ap (λ p. p.0) (old_path_root tree xs room h),
          path_of_tree tree xs v h
              ∙ ap (λ x. (merkle_root_loop m x (length xs) tree.next_siblings).0)
                  (sym (get_or-append_last xs v (m.zero_hashes 0)))
              ∙ ap (λ p. p.0) (path_root tree xs (v ∷ []) room (omega arith) h)
              ∙ sym after.root,
          after,
        )

    -- The path of the leaf that `append` writes is the one that the tree stored before.
    pub compute_merkle_root-appended :
        (tree : FixedMerkleAppendTree H) (xs : List H) (v : H)
        → length xs < 2 ^ tree_height
        → Holds m tree xs
        → compute_merkle_root m v (length xs) tree.next_siblings ≡ ok (append m v tree).current_root
    unfolding compute_merkle_root
    compute_merkle_root-appended tree xs v room h =
        let root : merkle_root_loop m v (length xs) tree.next_siblings
            ≡ ((append m v tree).current_root, 0) =
          ap (λ x. merkle_root_loop m x (length xs) tree.next_siblings)
            (sym (get_or-append_last xs v (m.zero_hashes 0)))
          ∙ path_root tree xs (v ∷ []) room (omega arith) h
          ∙ ap (λ r. (r, 0)) (sym (append-Holds m table tree xs v room h).root) in
        rw (root, h.height)
