-- ===== src/Examples/Claims.antt =====
-- A claim of a deposit by a user, up to the bridge at its start.
use psy_doge_solana_bridge.Prelude.{
  ℕ, ◌<◌, ◌≤◌, ◌≡◌, refl, true, Bool, List, [], ◌∷◌, replicate, arith,
}
use psy_doge_solana_bridge.Errors.{Result, ok}
use psy_doge_solana_bridge.Bytes.{zero_hash, bytes_eq}
use psy_doge_solana_bridge.AppendTree.Holds.{Holds}
use psy_doge_solana_bridge.Fees.{calcuate_deposit_fee}
use psy_doge_solana_bridge.Txo.{get_txo_block_number_tx_number_output_index_from_combined_index}
use psy_doge_solana_bridge.Bridge.{sha256_hasher, PsyBridgeStateCommitment}
use psy_doge_solana_bridge.Bridge.Core.{initialize}
use psy_doge_solana_bridge.Bridge.Deposits.{
  run_claim_deposit_manual, process_manual_claimed_deposit,
  find_recent_auto_claim_txo_tree_root_and_block_merkle_root,
}
use psy_doge_solana_bridge.Bridge.Deposits.Claims.{IsRecent}
use psy_doge_solana_bridge.Bridge.Inputs.{hash_deposit_leaf}
use psy_doge_solana_bridge.Bridge.DepositManager.{
  ManualClaim, new_empty_manager, manual_claim_deposit, bridge_helper, expected_public_inputs,
}
use psy_doge_solana_bridge.Bridge.DepositManager.Paid.{paid_claim_is_proved_and_recorded}
use psy_doge_solana_bridge.Examples.Requests.{
  plain, start, table, small_rates, deposits-Holds, deposit_index,
}

abbrev pub claim : ManualClaim
claim = record {
  recent_block_merkle_tree_root = zero_hash;
  recent_auto_claim_txo_root = zero_hash;
  new_manual_claim_txo_root = replicate 32 8;
  custodian_wallet_config_hash = zero_hash;
  tx_hash = zero_hash;
  combined_txo_index = deposit_index;
  signer_public_key = replicate 32 7;
  deposit_amount_sats = 100000;
}

abbrev token_account : List ℕ → List ℕ
token_account signer = replicate 32 6

abbrev any_program : List ℕ → Bool
any_program signer = true

abbrev minted_all : ℕ → List ℕ → ℕ → Result (Unit {0})
minted_all index account amount = ok tt

claim_accepted :
    (manual_claim_deposit plain [] []
      (bridge_helper plain token_account any_program minted_all)
      claim
      (new_empty_manager plain, start)).0
    ≡ ok tt
unfolding manual_claim_deposit run_claim_deposit_manual process_manual_claimed_deposit
    find_recent_auto_claim_txo_tree_root_and_block_merkle_root bytes_eq calcuate_deposit_fee
    get_txo_block_number_tx_number_output_index_from_combined_index initialize
claim_accepted = refl

paid_claim_is_proved_and_recorded_example :
    let (user, bridge) =
      (manual_claim_deposit plain [] []
        (bridge_helper plain token_account any_program minted_all)
        claim
        (new_empty_manager plain, start)).1 in
    (true ≡ true)
    × (plain.verify_compact_zkp_slice [] []
          (expected_public_inputs plain (replicate 32 6) claim (new_empty_manager plain))
        ≡ true)
    × (user.manual_claimed_txo_tree_root ≡ replicate 32 8)
    × ((block : PsyBridgeStateCommitment) × IsRecent block start
        × (block.auto_claimed_deposits_tree_root ≡ zero_hash)
        × (block.block_merkle_tree_root ≡ zero_hash)
        × ((get_txo_block_number_tx_number_output_index_from_combined_index deposit_index).0
            ≤ block.block_height))
    × ((minted : ℕ) × (minted_all 0 (replicate 32 6) minted ≡ ok tt)
        × (0 < minted)
        × (minted < 100000)
        × Holds
            (sha256_hasher plain)
            bridge.manual_deposits_tree
            (hash_deposit_leaf plain zero_hash deposit_index (replicate 32 6) minted ∷ []))
paid_claim_is_proved_and_recorded_example =
    paid_claim_is_proved_and_recorded plain [] [] token_account any_program minted_all claim
      (new_empty_manager plain) start [] table (omega arith) small_rates.2 small_rates.3
      (omega arith) deposits-Holds claim_accepted
