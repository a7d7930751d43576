-- ===== src/Bridge/AutoMint.antt =====
-- Automatic mints: `run_auto_mint_group_precheck` and `run_setup_next_pending_buffer` of
-- program_state/auto_mint.rs in libraries/psy-doge-solana-core.
pub mod Claim
pub mod Mints
pub mod Paid
pub mod Committed
use psy_doge_solana_bridge.Prelude.{
  ℕ, ◌+◌, ◌-◌, ◌*◌, ◌%◌, ◌^◌, Bool, not, ◌||◌, Option, some, none, List, length, get_elem?,
  replicate, ltb, leb, ◌==◌,
}
use psy_doge_solana_bridge.Errors.{
  Result, ok, err, panic, Action, pure, lift, ◌>>=◌, ◌>>◌, fail_if, gets, modify,
  no_pending_mints_to_auto_process, invalid_account_key, remaining_pending_mints_in_previous_state,
  invalid_block_height_for_reorg_transition, invalid_auto_claim_txo_buffer_data_account_size,
  invalid_auto_claim_txo_buffer_hash, invalid_pending_mints_buffer_hash,
}
use psy_doge_solana_bridge.Bytes.{Hash, bytes_eq, slice}
use psy_doge_solana_bridge.MintGroups.{
  PendingMintsTracker, tracker_is_empty, get_current_total_pending_mints_groups,
  ensure_can_claim_pending_mints_group, pm_max_pending_mints_per_group,
}
use psy_doge_solana_bridge.MintGroups.Groups.{
  compute_mint_group_info, mints_count_for_group, get_nth_pending_mint_offset,
}
use psy_doge_solana_bridge.MintGroups.Manager.{
  FinalizedBlockMintTxoInfo, FinalizedBlockMintTxoManager, is_empty, fast_forward_empty,
  manager_mark_pending_mints_group_claimed, ensure_ready_to_start_next_pending_finalized_info,
  with_tracker,
}
use psy_doge_solana_bridge.Bridge.{Crypto, PsyBridgeProgramState}
use psy_doge_solana_bridge.Bridge.Blocks.{
  ensure_pending_mints_ready_for_transition_inner, pm_txo_data_account_min_size, doge_block_height,
}

-- On the field `pending_mint_txos`, all the method reads: whether the buffer can be unlocked, the
-- number of mints of the group, and the offset of the first in the buffer.
unfoldable pub run_auto_mint_group_precheck :
    ℕ → List ℕ → Action FinalizedBlockMintTxoManager (Bool × ℕ × ℕ)
run_auto_mint_group_precheck mint_group_index pending_mints_buffer_pubkey m =
    let tracker = m.current_pending_mints_tracker in
    let groups = get_current_total_pending_mints_groups tracker in
    let mints = mints_count_for_group tracker mint_group_index in
    let offset =
      get_nth_pending_mint_offset groups
        ((mint_group_index * pm_max_pending_mints_per_group) % 2 ^ 16) in
    (fail_if (is_empty m) no_pending_mints_to_auto_process
        >> fail_if (groups == 0) no_pending_mints_to_auto_process
        >> fail_if (tracker_is_empty tracker) no_pending_mints_to_auto_process
        >> lift (ensure_can_claim_pending_mints_group tracker mint_group_index)
        >>= λ _.
            fail_if
              (not (
                bytes_eq pending_mints_buffer_pubkey
                  tracker.last_finalized_auto_claim_mints_storage_account))
              invalid_account_key
            >> manager_mark_pending_mints_group_claimed mint_group_index
            >>= λ can_unlock. pure (can_unlock, mints, offset))
      m

module _ (c : Crypto) where
  -- The part of `run_setup_next_pending_buffer` after the index was moved to `info`.
  unfoldable pub setup_buffer :
      List ℕ
      → List ℕ
      → List ℕ
      → List ℕ
      → FinalizedBlockMintTxoInfo
      → Action FinalizedBlockMintTxoManager (Unit {0})
  setup_buffer pub_key mint_buffer_public_key txo_memory mint_memory info m =
      (lift (
            ensure_pending_mints_ready_for_transition_inner c pub_key
              info.pending_mints_finalized_hash mint_memory)
          >>= λ buffer.
              let (hash, mints) = buffer in
              let txo_size = pm_txo_data_account_min_size mints in
              let txo_hash = c.sha256 (slice 48 txo_size txo_memory) in
              let (mint_groups, _) = compute_mint_group_info mints in
              fail_if (ltb (length txo_memory) txo_size)
                invalid_auto_claim_txo_buffer_data_account_size
              >> fail_if
                  (not (
                    doge_block_height txo_memory
                    == (m.start_block_height + m.pending_finalized_info_current_index) % 2 ^ 32))
                  invalid_block_height_for_reorg_transition
              >> fail_if (not (bytes_eq txo_hash info.txo_output_list_finalized_hash))
                  invalid_auto_claim_txo_buffer_hash
              >> fail_if (not (bytes_eq info.pending_mints_finalized_hash hash))
                  invalid_pending_mints_buffer_hash
              >> modify (
                  with_tracker (record {
                    last_finalized_auto_claim_mints_storage_account = mint_buffer_public_key;
                    pending_mint_groups_claimed = replicate 32 0;
                    total_pending_mints = mints;
                    pending_mints_groups_remaining = mint_groups;
                  })))
        m

  -- The checks that come before and after `fast_forward_empty`.
  unfoldable pub ready_for_next : Action FinalizedBlockMintTxoManager (Unit {0})
  ready_for_next m =
      (fail_if (is_empty m || is_empty m) no_pending_mints_to_auto_process
          >> fail_if (not (tracker_is_empty m.current_pending_mints_tracker))
              remaining_pending_mints_in_previous_state
          >> lift (ensure_ready_to_start_next_pending_finalized_info m))
        m

  -- `is_ready_for_new_block_update` is the emptiness of the manager as well.
  unfoldable pub run_setup_next_pending_buffer :
      List ℕ → List ℕ → List ℕ → List ℕ → Action FinalizedBlockMintTxoManager (Unit {0})
  run_setup_next_pending_buffer pub_key mint_buffer_public_key txo_memory mint_memory =
      ready_for_next
      >> (fast_forward_empty
          >> ready_for_next
          >> gets (λ m. get_elem? m.pending_finalized_info m.pending_finalized_info_current_index)
          >>= λ info. elim info [
            | none ↦ lift panic
            | some info ↦ setup_buffer pub_key mint_buffer_public_key txo_memory mint_memory info
          ])
