-- ===== src/Bridge/Blocks/Reorg.antt =====
-- `run_block_transition_reorg` of program_state/block_update.rs: several blocks at once.
pub mod Accepted
use psy_doge_solana_bridge.Prelude.{
  ℕ, ◌+◌, ◌-◌, Bool, not, Option, some, none, List, [], ◌∷◌, ◌++◌, length, drop, get_elem?, ltb,
  leb, ◌==◌,
}
use psy_doge_solana_bridge.Errors.{
  Result, ok, err, panic, Action, pure, lift, ◌>>=◌, ◌>>◌, fail_if, modify,
  program_state_not_ready_for_block_update, invalid_zk_proof_size, invalid_zk_verifier_key_size,
  invalid_block_height_for_single_block_transition, invalid_auto_claimed_deposits_next_index,
  invalid_bridge_input_zkp, invalid_pending_mints_buffer_hash,
  invalid_auto_claim_txo_buffer_data_account_size, invalid_auto_claim_txo_buffer_hash,
  invalid_auto_claim_txo_buffer_pending_mints_count,
  invalid_extra_finalized_blocks_length_for_reorg,
}
use psy_doge_solana_bridge.Bytes.{Hash, bytes_eq, slice}
use psy_doge_solana_bridge.MintGroups.Groups.{compute_mint_group_info}
use psy_doge_solana_bridge.MintGroups.Manager.{FinalizedBlockMintTxoInfo, standard_append_block}
use psy_doge_solana_bridge.Bridge.{
  Crypto, PsyBridgeProgramState, PsyBridgeHeader, header_bytes, config_bytes,
}
use psy_doge_solana_bridge.Bridge.Inputs.{get_reorg_block_transition_public_inputs}
use psy_doge_solana_bridge.Bridge.Blocks.{
  is_ready_for_new_block_update, get_backlog_contains_pending_mints,
  ensure_pending_mints_ready_for_transition_inner, pm_txo_data_account_min_size, doge_block_height,
  on_pending_mint_txos,
}

module _ (c : Crypto) where
  unfoldable pub reorg_inputs :
      PsyBridgeHeader → List FinalizedBlockMintTxoInfo → PsyBridgeProgramState → Hash
  reorg_inputs new_header extra_finalized_blocks s =
      get_reorg_block_transition_public_inputs c (c.sha256 (header_bytes s.bridge_header))
        (c.sha256 (header_bytes new_header)) extra_finalized_blocks
        (c.sha256 (config_bytes s.config_params)) s.custodian_wallet_config_hash

  -- The extra blocks and the last.
  abbrev pub new_items :
      PsyBridgeHeader → List FinalizedBlockMintTxoInfo → List FinalizedBlockMintTxoInfo
  new_items new_header extra_finalized_blocks =
      extra_finalized_blocks
      ++ (record {
        pending_mints_finalized_hash = new_header.finalized_state.pending_mints_finalized_hash;
        txo_output_list_finalized_hash = new_header.finalized_state.txo_output_list_finalized_hash;
      }
          ∷ [])

  -- The part for a backlog with mints, from the first block that has some, `item`, on.
  unfoldable pub append_backlog :
      PsyBridgeHeader
      → List FinalizedBlockMintTxoInfo
      → ℕ
      → FinalizedBlockMintTxoInfo
      → List ℕ
      → List ℕ
      → List ℕ
      → List ℕ
      → Action PsyBridgeProgramState (Unit {0})
  append_backlog new_header items first item pub_key locker_account txo_memory mint_memory =
      lift (
        ensure_pending_mints_ready_for_transition_inner c pub_key item.pending_mints_finalized_hash
          mint_memory)
      >>= (λ buffer.
          let (hash, mints) = buffer in
          let txo_size = pm_txo_data_account_min_size mints in
          let height = new_header.finalized_state.block_height - (length items - first - 1) in
          let txo_hash = c.sha256 (slice 48 txo_size txo_memory) in
          let (mint_groups, _) = compute_mint_group_info mints in
          fail_if (not (bytes_eq hash item.pending_mints_finalized_hash))
            invalid_pending_mints_buffer_hash
          >> fail_if (ltb (length txo_memory) txo_size)
              invalid_auto_claim_txo_buffer_data_account_size
          >> fail_if (not (doge_block_height txo_memory == height))
              invalid_auto_claim_txo_buffer_pending_mints_count
          >> fail_if (not (bytes_eq txo_hash item.txo_output_list_finalized_hash))
              invalid_auto_claim_txo_buffer_hash
          >> on_pending_mint_txos
              (standard_append_block height (drop first items) locker_account mints mint_groups))

  -- An index of an item that is not there cannot come from the search.
  unfoldable pub append_reorg_mints :
      PsyBridgeHeader
      → List FinalizedBlockMintTxoInfo
      → List ℕ
      → List ℕ
      → List ℕ
      → List ℕ
      → Action PsyBridgeProgramState (Unit {0})
  append_reorg_mints new_header items pub_key locker_account txo_memory mint_memory =
      elim (get_backlog_contains_pending_mints items) [
        | none ↦ pure tt
        | some first ↦ elim (get_elem? items first) [
          | none ↦ lift panic
          | some item ↦
              append_backlog new_header items first item pub_key locker_account txo_memory
                mint_memory
        ]
      ]

  unfoldable pub run_block_transition_reorg :
      List ℕ
      → List ℕ
      → PsyBridgeHeader
      → List FinalizedBlockMintTxoInfo
      → List ℕ
      → List ℕ
      → List ℕ
      → List ℕ
      → Action PsyBridgeProgramState (Unit {0})
  run_block_transition_reorg proof vk new_header extra_finalized_blocks pub_key locker_account
        txo_memory mint_memory s =
      let old = s.bridge_header in
      let fast_forward_size =
        new_header.finalized_state.block_height - old.finalized_state.block_height in
      (fail_if (not (is_ready_for_new_block_update s)) program_state_not_ready_for_block_update
          >> fail_if (not (length proof == 256)) invalid_zk_proof_size
          >> fail_if (not (length vk == 32)) invalid_zk_verifier_key_size
          >> fail_if (leb new_header.finalized_state.block_height old.finalized_state.block_height)
              invalid_block_height_for_single_block_transition
          >> fail_if (leb new_header.tip_state.block_height old.tip_state.block_height)
              invalid_block_height_for_single_block_transition
          >> fail_if (not (length extra_finalized_blocks == fast_forward_size - 1))
              invalid_extra_finalized_blocks_length_for_reorg
          >> fail_if
              (ltb new_header.finalized_state.auto_claimed_deposits_next_index
                old.finalized_state.auto_claimed_deposits_next_index)
              invalid_auto_claimed_deposits_next_index
          >> fail_if
              (not (
                c.verify_compact_zkp_slice proof vk
                  (reorg_inputs new_header extra_finalized_blocks s)))
              invalid_bridge_input_zkp
          >> append_reorg_mints new_header (new_items new_header extra_finalized_blocks) pub_key
              locker_account txo_memory mint_memory
          >> modify (λ t. record t { bridge_header = new_header }))
        s
