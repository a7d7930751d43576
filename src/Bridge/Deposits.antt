-- ===== src/Bridge/Deposits.antt =====
-- Deposits that a user claims: `process_manual_claimed_deposit` of program_state/core.rs and
-- `run_claim_deposit_manual` of program_state/deposit.rs, in libraries/psy-doge-solana-core.
pub mod Claims
use psy_doge_solana_bridge.Prelude.{
  ℕ, ◌+◌, ◌-◌, ◌%◌, ◌^◌, Bool, true, false, not, ◌||◌, Option, some, none, List, [], ◌∷◌, ltb, ◌==◌,
  if◌then◌else◌,
}
use psy_doge_solana_bridge.Errors.{
  Result, ok, err, panic, Action, auto_claimed_deposit_tree_root_not_recent_enough,
  block_merkle_tree_root_not_recent_enough, insufficient_bridge_fees,
}
use psy_doge_solana_bridge.Bytes.{Hash, zero_hash, bytes_eq}
use psy_doge_solana_bridge.AppendTree.{append}
use psy_doge_solana_bridge.Fees.{FeeResult, calcuate_deposit_fee}
use psy_doge_solana_bridge.Txo.{get_txo_block_number_tx_number_output_index_from_combined_index}
use psy_doge_solana_bridge.Bridge.{
  Crypto, sha256_hasher, PsyBridgeProgramState, PsyBridgeStateCommitment,
}
use psy_doge_solana_bridge.Bridge.Inputs.{hash_deposit_leaf}
use psy_doge_solana_bridge.Bridge.Core.{or_no_fee}

abbrev pub invalid_block_height : ℕ
invalid_block_height = 2 ^ 32 - 1

-- The loop over the recent blocks.
unfoldable pub find_recent_loop : Hash → List PsyBridgeStateCommitment → ℕ × Hash
find_recent_loop root [] = (invalid_block_height, zero_hash)
find_recent_loop root (block ∷ blocks) =
    let rest = find_recent_loop root blocks in
    if bytes_eq block.auto_claimed_deposits_tree_root root
    then (block.block_height, block.block_merkle_tree_root)
    else rest

-- The finalized block of the header comes first.
unfoldable pub find_recent_auto_claim_txo_tree_root_and_block_merkle_root :
    Hash → PsyBridgeProgramState → ℕ × Hash
unfolding find_recent_loop
find_recent_auto_claim_txo_tree_root_and_block_merkle_root root s =
    let finalized = s.bridge_header.finalized_state in
    if bytes_eq finalized.auto_claimed_deposits_tree_root root
    then (finalized.block_height, finalized.block_merkle_tree_root)
    else find_recent_loop root s.recent_finalized_blocks

module _ (c : Crypto) where
  unfoldable pub process_manual_claimed_deposit :
      Hash → Hash → Hash → ℕ → List ℕ → ℕ → Action PsyBridgeProgramState ℕ
  process_manual_claimed_deposit tx_hash recent_block_merkle_tree_root recent_auto_claim_txo_root
        combined_txo_index depositor_ata deposit_amount_sats s =
      let (block_height, _, _) =
        get_txo_block_number_tx_number_output_index_from_combined_index combined_txo_index in
      let (block_height_for_root, block_merkle_tree_root) =
        find_recent_auto_claim_txo_tree_root_and_block_merkle_root recent_auto_claim_txo_root s in
      if block_height_for_root == invalid_block_height || ltb block_height_for_root block_height
      then (err auto_claimed_deposit_tree_root_not_recent_enough, s)
      else if not (bytes_eq block_merkle_tree_root recent_block_merkle_tree_root)
      then (err block_merkle_tree_root_not_recent_enough, s)
      else let fee_result = or_no_fee (
          calcuate_deposit_fee deposit_amount_sats s.config_params.deposit_flat_fee_sats
            s.config_params.deposit_fee_rate_numerator
            s.config_params.deposit_fee_rate_denominator) in
        if fee_result.fees_generated == 0 || fee_result.amount_after_fees == 0
        then (err insufficient_bridge_fees, s)
        else (
          ok fee_result.amount_after_fees,
          record s {
            total_manual_deposit_fees_sats =
                (s.total_manual_deposit_fees_sats + fee_result.fees_generated) % 2 ^ 64;
            manual_deposits_tree =
                append (sha256_hasher c)
                  (hash_deposit_leaf c tx_hash combined_txo_index depositor_ata
                    fee_result.amount_after_fees)
                  s.manual_deposits_tree;
          },
        )

  -- The mint is a call to another program: index in the group, account and amount.
  unfoldable pub run_claim_deposit_manual :
      (ℕ → List ℕ → ℕ → Result (Unit {0}))
      → Hash
      → Hash
      → Hash
      → ℕ
      → List ℕ
      → ℕ
      → Action PsyBridgeProgramState (Unit {0})
  run_claim_deposit_manual mint_to recent_block_merkle_tree_root recent_auto_claim_txo_root tx_hash
        combined_txo_index depositor_public_key deposit_amount_sats s =
      let (result, after) =
        process_manual_claimed_deposit tx_hash recent_block_merkle_tree_root
          recent_auto_claim_txo_root combined_txo_index depositor_public_key deposit_amount_sats
          s in
      elim result [
        | err e ↦ (err e, after)
        | panic ↦ (panic, after)
        | ok mint_amount ↦ (mint_to 0 depositor_public_key mint_amount, after)
      ]
