-- ===== src/Bridge/Inputs.antt =====
-- The public inputs of the proofs: public_inputs/mod.rs and utils/deposit_leaf.rs of
-- libraries/psy-doge-solana-core.
use psy_doge_solana_bridge.Prelude.{ℕ, List, [], ◌∷◌, ◌++◌}
use psy_doge_solana_bridge.Bytes.{Hash, zero_hash, to_le_bytes}
use psy_doge_solana_bridge.MintGroups.Manager.{FinalizedBlockMintTxoInfo}
use psy_doge_solana_bridge.Bridge.{Crypto}

module _ (c : Crypto) where
  -- `hash_impl_sha256_two_to_one_bytes`.
  abbrev pub two_to_one_bytes : Hash → Hash → Hash
  two_to_one_bytes left right = c.sha256 (left ++ right)

  unfoldable pub get_withdrawal_proof_public_inputs :
      Hash → Hash → Hash → Hash → Hash → Hash → ℕ → Hash
  get_withdrawal_proof_public_inputs snapshot_hash old_return_output_hash new_return_output_hash
        old_spent_txo_tree_root new_spent_txo_tree_root custodian_wallet_config_hash
        new_next_processed_withdrawals_index =
      let return_output_hash_transition =
        two_to_one_bytes old_return_output_hash new_return_output_hash in
      let spent_txo_tree_root_transition =
        two_to_one_bytes old_spent_txo_tree_root new_spent_txo_tree_root in
      c.sha256 (
        snapshot_hash
        ++ return_output_hash_transition
        ++ spent_txo_tree_root_transition
        ++ to_le_bytes 8 new_next_processed_withdrawals_index
        ++ custodian_wallet_config_hash)

  unfoldable pub get_block_transition_public_inputs : Hash → Hash → Hash → Hash → Hash
  get_block_transition_public_inputs previous_header_hash new_header_hash config_params_hash
        custodian_wallet_config_hash =
      let transition_hash = two_to_one_bytes previous_header_hash new_header_hash in
      c.sha256 (transition_hash ++ config_params_hash ++ custodian_wallet_config_hash)

  -- The loop of `compute_backlog_hash`, which starts from 32 zeros also for an empty backlog.
  unfoldable pub backlog_hash_loop : Hash → List FinalizedBlockMintTxoInfo → Hash
  backlog_hash_loop current [] = current
  backlog_hash_loop current (mint_info ∷ backlog) =
      let combined_hash =
        two_to_one_bytes mint_info.pending_mints_finalized_hash
          mint_info.txo_output_list_finalized_hash in
      backlog_hash_loop (two_to_one_bytes current combined_hash) backlog

  unfoldable pub compute_backlog_hash : List FinalizedBlockMintTxoInfo → Hash
  unfolding backlog_hash_loop
  compute_backlog_hash backlog = backlog_hash_loop zero_hash backlog

  unfoldable pub get_reorg_block_transition_public_inputs :
      Hash → Hash → List FinalizedBlockMintTxoInfo → Hash → Hash → Hash
  unfolding compute_backlog_hash
  get_reorg_block_transition_public_inputs previous_header_hash new_header_hash backlog
        config_params_hash custodian_wallet_config_hash =
      let backlog_hash = compute_backlog_hash backlog in
      let transition_hash = two_to_one_bytes previous_header_hash new_header_hash in
      let transition_and_backlog_hash = two_to_one_bytes transition_hash backlog_hash in
      c.sha256 (transition_and_backlog_hash ++ config_params_hash ++ custodian_wallet_config_hash)

  unfoldable pub get_manual_deposit_proof_public_inputs :
      Hash → Hash → Hash → Hash → Hash → Hash → Hash → ℕ → ℕ → Hash
  get_manual_deposit_proof_public_inputs recent_block_merkle_tree_root recent_auto_claim_txo_root
        old_manual_claim_deposit_txo_root new_manual_claim_txo_root tx_hash user_ata
        custodian_wallet_config_hash combined_txo_index deposit_amount_sats =
      let recent_info = two_to_one_bytes recent_block_merkle_tree_root recent_auto_claim_txo_root in
      let manual_claim_deposit_txo_transition =
        two_to_one_bytes old_manual_claim_deposit_txo_root new_manual_claim_txo_root in
      let recent_info_with_user_txo_root =
        two_to_one_bytes recent_info manual_claim_deposit_txo_transition in
      let tx_info = c.sha256 (
        tx_hash
        ++ user_ata
        ++ to_le_bytes 8 combined_txo_index
        ++ to_le_bytes 8 deposit_amount_sats) in
      c.sha256 (recent_info_with_user_txo_root ++ tx_info ++ custodian_wallet_config_hash)

  unfoldable pub hash_deposit_leaf : Hash → ℕ → Hash → ℕ → Hash
  hash_deposit_leaf tx_hash txo_combined_index depositor_ata amount =
      c.sha256
        (tx_hash ++ depositor_ata ++ to_le_bytes 8 txo_combined_index ++ to_le_bytes 8 amount)
