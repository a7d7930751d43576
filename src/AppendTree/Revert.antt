-- ===== src/AppendTree/Revert.antt =====
-- Going back to an earlier size: `get_changed_next_siblings_for_revert`, `revert_to_next_index` and
-- `revert_to_index` of fixed_append_tree.rs.
pub mod RoundTrip
use psy_doge_solana_bridge.Prelude.{
  ℕ, zero, suc, ◌+◌, ◌-◌, ◌/◌, ◌%◌, Bool, true, false, ◌||◌, ◌&&◌, not, List, [], ◌∷◌, bit_xor, leb,
  ◌==◌, if◌then◌else◌,
}
use psy_doge_solana_bridge.Errors.{
  Result, ok, err, panic, Action, revert_index_too_high, not_enough_changed_left_siblings,
  too_many_changed_left_siblings,
}
use psy_doge_solana_bridge.Merkle.{MerkleHasher, compute_merkle_root}
use psy_doge_solana_bridge.AppendTree.{FixedMerkleAppendTree, tree_height, from_fn, new_empty}

-- The loop over the levels; an index past the slice panics, which the array's length rules out.
unfoldable pub changed_left_siblings : {H : Type 0} → ℕ → ℕ → List H → List H
changed_left_siblings temp_index changed_index [] = []
changed_left_siblings temp_index changed_index (sibling ∷ siblings) =
    let rest = changed_left_siblings (temp_index / 2) (changed_index / 2) siblings in
    if temp_index % 2 == 1 && not (changed_index == 0) then sibling ∷ rest else rest

unfoldable pub get_changed_next_siblings_for_revert :
    {H : Type 0} → ℕ → ℕ → List H → Result (List H)
unfolding changed_left_siblings
get_changed_next_siblings_for_revert current_next_index target_next_index target_next_siblings =
    if current_next_index == 0 || leb current_next_index target_next_index
    then err revert_index_too_high
    else ok (
        changed_left_siblings target_next_index (bit_xor target_next_index current_next_index)
          target_next_siblings)

module _ {H : Type 0} (m : MerkleHasher H) where
  -- The loop of `revert_to_next_index`, which stops where no digit of the index changes any more.
  unfoldable pub revert_siblings_loop : ℕ → List H → ℕ → ℕ → List H → Result (Unit {0}) × List H
  revert_siblings_loop level [] target_next_index changed_index changed = (ok tt, [])
  revert_siblings_loop level (sibling ∷ siblings) target_next_index changed_index changed =
      let right : Result (Unit {0}) × List H = elim changed [
        | [] ↦ (err not_enough_changed_left_siblings, sibling ∷ siblings)
        | left ∷ others ↦
            let rest =
              revert_siblings_loop (suc level) siblings (target_next_index / 2) (changed_index / 2)
                others in
            (rest.0, left ∷ rest.1)
      ] in
      let left : Result (Unit {0}) × List H =
        let rest =
          revert_siblings_loop (suc level) siblings (target_next_index / 2) (changed_index / 2)
            changed in
        (rest.0, m.zero_hashes level ∷ rest.1) in
      if changed_index == 0
      then (ok tt, sibling ∷ siblings)
      else if target_next_index % 2 == 1
      then right
      else left

  -- What follows the loop: the root of the path from the empty leaf, or the loop's error.
  unfoldable pub revert_finish :
      ℕ
      → FixedMerkleAppendTree H
      → Result (Unit {0}) × List H
      → Result (Unit {0}) × FixedMerkleAppendTree H
  revert_finish target_next_index tree (ok _, next_siblings) =
      elim (compute_merkle_root m (m.zero_hashes 0) target_next_index next_siblings) [
        | ok root ↦ (
          ok tt,
          record {
            next_index = target_next_index;
            current_root = root;
            next_siblings = next_siblings;
          },
        )
        | err e ↦ (err e, record tree { next_siblings = next_siblings })
        | panic ↦ (panic, record tree { next_siblings = next_siblings })
      ]
  revert_finish target_next_index tree (err e, next_siblings) =
      (err e, record tree { next_siblings = next_siblings })
  revert_finish target_next_index tree (panic, next_siblings) =
      (panic, record tree { next_siblings = next_siblings })

  unfoldable pub revert_to_next_index : ℕ → List H → Action (FixedMerkleAppendTree H) (Unit {0})
  unfolding new_empty revert_siblings_loop revert_finish
  revert_to_next_index target_next_index changed_left_next_siblings tree =
      if tree.next_index == 0 || leb tree.next_index target_next_index
      then (err revert_index_too_high, tree)
      else if target_next_index == 0
      then (ok tt, new_empty m)
      else revert_finish target_next_index tree (
          revert_siblings_loop 0 tree.next_siblings target_next_index
            (bit_xor target_next_index tree.next_index) changed_left_next_siblings)
