-- ===== src/Bridge/DepositManager.antt =====
-- The state in which a user's claims of deposits are recorded, and its calls of the bridge:
-- user_manual_deposit_manager/mod.rs of libraries/psy-doge-solana-core.
pub mod Paid
use psy_doge_solana_bridge.Prelude.{
  ℕ, ◌+◌, ◌^◌, ◌<◌, ◌≤◌, ◌≡◌, ◌⊎◌, refl, ap, inl, inr, Bool, true, false, not, List, [], ◌∷◌, ◌++◌,
  length, if◌then◌else◌, arith, Bool-cases,
}
use psy_doge_solana_bridge.Errors.{
  Result, Result-cases, ok, err, panic, Action, invalid_pda_for_manual_deposit_manager,
  bridge_zkp_error,
}
use psy_doge_solana_bridge.Bytes.{Hash}
use psy_doge_solana_bridge.Merkle.{IsZeroTable}
use psy_doge_solana_bridge.AppendTree.{tree_height}
use psy_doge_solana_bridge.AppendTree.Holds.{Holds}
use psy_doge_solana_bridge.Txo.{
  txo_merkle_index_total_bits, get_txo_block_number_tx_number_output_index_from_combined_index,
}
use psy_doge_solana_bridge.Bridge.{
  Crypto, sha256_hasher, PsyBridgeProgramState, PsyBridgeStateCommitment,
}
use psy_doge_solana_bridge.Bridge.Inputs.{get_manual_deposit_proof_public_inputs, hash_deposit_leaf}
use psy_doge_solana_bridge.Bridge.Deposits.{
  process_manual_claimed_deposit, run_claim_deposit_manual,
}
use psy_doge_solana_bridge.Bridge.Deposits.Claims.{IsRecent, deposit_needs_finalized_block}

pub record UserManualDepositManagerProgramState : Type 0 where
  pub manual_claimed_txo_tree_root : Hash

-- `ManualDepositMainBridgeCPIHelper`; its call of the bridge changes a state of type `S`.
pub record ManualDepositMainBridgeCpiHelper (S : Type 0) : Type 0 where
  pub derive_token_ata_from_signer : List ℕ → List ℕ
  pub ensure_current_program_is_lowest_possible_pda_seed : List ℕ → Bool
  pub process_manual_deposit : Hash → Hash → Hash → ℕ → List ℕ → ℕ → Action S (Unit {0})

-- The arguments of a claim but for the proof and its key.
pub record ManualClaim : Type 0 where
  pub recent_block_merkle_tree_root : Hash
  pub recent_auto_claim_txo_root : Hash
  pub new_manual_claim_txo_root : Hash
  pub custodian_wallet_config_hash : Hash
  pub tx_hash : Hash
  pub combined_txo_index : ℕ
  pub signer_public_key : List ℕ
  pub deposit_amount_sats : ℕ

module _ (c : Crypto) where
  unfoldable pub new_empty_manager : UserManualDepositManagerProgramState
  new_empty_manager = record {
    manual_claimed_txo_tree_root = c.sha256_zero_hashes txo_merkle_index_total_bits;
  }

  -- The public inputs that the proof of a claim is checked against.
  unfoldable pub expected_public_inputs :
      List ℕ → ManualClaim → UserManualDepositManagerProgramState → Hash
  expected_public_inputs token_pda claim m =
      get_manual_deposit_proof_public_inputs c claim.recent_block_merkle_tree_root
        claim.recent_auto_claim_txo_root m.manual_claimed_txo_tree_root
        claim.new_manual_claim_txo_root claim.tx_hash token_pda claim.custodian_wallet_config_hash
        claim.combined_txo_index claim.deposit_amount_sats

  unfoldable pub manual_claim_deposit :
      {S : Type 0}
      → List ℕ
      → List ℕ
      → ManualDepositMainBridgeCpiHelper S
      → ManualClaim
      → Action (UserManualDepositManagerProgramState × S) (Unit {0})
  manual_claim_deposit proof vk helper claim s =
      let token_pda = helper.derive_token_ata_from_signer claim.signer_public_key in
      if not (helper.ensure_current_program_is_lowest_possible_pda_seed claim.signer_public_key)
      then (err invalid_pda_for_manual_deposit_manager, s)
      else if not (c.verify_compact_zkp_slice proof vk (expected_public_inputs token_pda claim s.0))
      then (err bridge_zkp_error, s)
      else let (result, after) =
          helper.process_manual_deposit claim.recent_block_merkle_tree_root
            claim.recent_auto_claim_txo_root claim.tx_hash claim.combined_txo_index
            claim.signer_public_key claim.deposit_amount_sats s.1 in
        (
          result,
          ((record { manual_claimed_txo_tree_root = claim.new_manual_claim_txo_root }), after),
        )

  -- The bridge as the callee: it credits the token account of the signer.
  abbrev pub bridge_helper :
      (List ℕ → List ℕ)
      → (List ℕ → Bool)
      → (ℕ → List ℕ → ℕ → Result (Unit {0}))
      → ManualDepositMainBridgeCpiHelper PsyBridgeProgramState
  bridge_helper ata lowest mint_to = record {
    derive_token_ata_from_signer = ata;
    ensure_current_program_is_lowest_possible_pda_seed = lowest;
    process_manual_deposit = λ merkle_root claim_root tx_hash index signer amount.
        run_claim_deposit_manual c mint_to merkle_root claim_root tx_hash index (ata signer) amount;
  }
