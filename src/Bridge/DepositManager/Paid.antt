-- ===== src/Bridge/DepositManager/Paid.antt =====
-- A user's claim of a deposit with the bridge as the callee.
use psy_doge_solana_bridge.Prelude.{
  ℕ, ◌^◌, ◌<◌, ◌≤◌, ◌≡◌, inl, inr, Bool, true, List, [], ◌∷◌, ◌++◌, length, arith, Bool-cases,
}
use psy_doge_solana_bridge.Errors.{
  Result, Result-cases, ok, err, panic, invalid_pda_for_manual_deposit_manager, bridge_zkp_error,
}
use psy_doge_solana_bridge.Bytes.{Hash}
use psy_doge_solana_bridge.Merkle.{IsZeroTable}
use psy_doge_solana_bridge.AppendTree.{tree_height}
use psy_doge_solana_bridge.AppendTree.Holds.{Holds}
use psy_doge_solana_bridge.Txo.{get_txo_block_number_tx_number_output_index_from_combined_index}
use psy_doge_solana_bridge.Bridge.{
  Crypto, sha256_hasher, PsyBridgeProgramState, PsyBridgeStateCommitment,
}
use psy_doge_solana_bridge.Bridge.Inputs.{hash_deposit_leaf}
use psy_doge_solana_bridge.Bridge.Deposits.{
  process_manual_claimed_deposit, run_claim_deposit_manual,
}
use psy_doge_solana_bridge.Bridge.Deposits.Claims.{IsRecent, deposit_needs_finalized_block}
use psy_doge_solana_bridge.Bridge.DepositManager.{
  UserManualDepositManagerProgramState, ManualClaim, expected_public_inputs, manual_claim_deposit,
  bridge_helper,
}

module _ (c : Crypto) where
  paid_claim :
      (mint_to : ℕ → List ℕ → ℕ → Result (Unit {0})) (merkle_root claim_root tx_hash : Hash)
      (index : ℕ) (ata : List ℕ) (amount : ℕ) (s : PsyBridgeProgramState)
      → (run_claim_deposit_manual c mint_to merkle_root claim_root tx_hash index ata amount s).0
        ≡ ok tt
      → let deposit =
          process_manual_claimed_deposit c tx_hash merkle_root claim_root index ata amount s in
        (minted : ℕ) × (deposit.0 ≡ ok minted)
        × (mint_to 0 ata minted ≡ ok tt)
        × ((run_claim_deposit_manual c mint_to merkle_root claim_root tx_hash index ata amount s).1
            ≡ deposit.1)
  unfolding run_claim_deposit_manual
  paid_claim mint_to merkle_root claim_root tx_hash index ata amount s paid =
      let deposit =
        process_manual_claimed_deposit c tx_hash merkle_root claim_root index ata amount s in
      elim (Result-cases deposit.0) [
        | inl (minted, done) ↦ (
          minted,
          done,
          (rw (run_claim_deposit_manual, done) at paid),
          rw (run_claim_deposit_manual, done),
        )
        | inr (inl (e, failed)) ↦
            let refused : (run_claim_deposit_manual c mint_to merkle_root claim_root tx_hash index
                  ata amount s).0
                ≡ err e =
              rw (run_claim_deposit_manual, failed) in
            absurd (cc (refused, paid))
        | inr (inr failed) ↦
            let refused : (run_claim_deposit_manual c mint_to merkle_root claim_root tx_hash index
                  ata amount s).0
                ≡ panic =
              rw (run_claim_deposit_manual, failed) in
            absurd (cc (refused, paid))
      ]

  -- A user's claim that the bridge accepts and pays: the program is the one with the lowest seed of
  -- the signer; its proof verifies against inputs made from the old and the new root of the user, of
  -- which the new is kept; a finalized block of the bridge has the two roots that the claim names
  -- and is not before the transaction. What is minted, to the token account of the signer that the
  -- inputs name too, is less than the amount, and its leaf is appended.
  pub paid_claim_is_proved_and_recorded :
      (proof vk : List ℕ) (ata : List ℕ → List ℕ) (lowest : List ℕ → Bool)
      (mint_to : ℕ → List ℕ → ℕ → Result (Unit {0})) (claim : ManualClaim)
      (m : UserManualDepositManagerProgramState) (s : PsyBridgeProgramState) (xs : List Hash)
      → IsZeroTable (sha256_hasher c)
      → claim.deposit_amount_sats < 2 ^ 64
      → s.config_params.deposit_flat_fee_sats < 2 ^ 64
      → s.config_params.deposit_fee_rate_numerator < 2 ^ 64
      → length xs < 2 ^ tree_height
      → Holds (sha256_hasher c) s.manual_deposits_tree xs
      → (manual_claim_deposit c proof vk (bridge_helper c ata lowest mint_to) claim (m, s)).0
        ≡ ok tt
      → let (user, bridge) =
          (manual_claim_deposit c proof vk (bridge_helper c ata lowest mint_to) claim (m, s)).1 in
        let account = ata claim.signer_public_key in
        (lowest claim.signer_public_key ≡ true)
        × (c.verify_compact_zkp_slice proof vk (expected_public_inputs c account claim m) ≡ true)
        × (user.manual_claimed_txo_tree_root ≡ claim.new_manual_claim_txo_root)
        × ((block : PsyBridgeStateCommitment) × IsRecent block s
            × (block.auto_claimed_deposits_tree_root ≡ claim.recent_auto_claim_txo_root)
            × (block.block_merkle_tree_root ≡ claim.recent_block_merkle_tree_root)
            × ((get_txo_block_number_tx_number_output_index_from_combined_index
                  claim.combined_txo_index).0
                ≤ block.block_height))
        × ((minted : ℕ) × (mint_to 0 account minted ≡ ok tt)
            × (0 < minted)
            × (minted < claim.deposit_amount_sats)
            × Holds (sha256_hasher c) bridge.manual_deposits_tree (
                xs
                ++ hash_deposit_leaf c claim.tx_hash claim.combined_txo_index account minted ∷ []))
  unfolding manual_claim_deposit
  paid_claim_is_proved_and_recorded proof vk ata lowest mint_to claim m s xs table amount_lt flat_lt
        rate_lt room h accepted =
      let account = ata claim.signer_public_key in
      let call =
        manual_claim_deposit c proof vk (bridge_helper c ata lowest mint_to) claim (m, s) in
      elim (Bool-cases (lowest claim.signer_public_key)) [
        | inr other ↦
            let refused : call.0 ≡ err invalid_pda_for_manual_deposit_manager =
              rw (manual_claim_deposit, other) in
            absurd (cc (refused, accepted))
        | inl seed ↦
            elim (Bool-cases
              (c.verify_compact_zkp_slice proof vk (expected_public_inputs c account claim m))) [
                | inr unproved ↦
                    let refused : call.0 ≡ err bridge_zkp_error =
                      rw (manual_claim_deposit, seed, unproved) in
                    absurd (cc (refused, accepted))
                | inl proved ↦
                    let paid =
                      paid_claim mint_to claim.recent_block_merkle_tree_root
                        claim.recent_auto_claim_txo_root claim.tx_hash claim.combined_txo_index
                        account claim.deposit_amount_sats s
                        (rw (manual_claim_deposit, seed, proved) at accepted) in
                    let (minted, done, credited, same) = paid in
                    let (recent, (fee, split, some_fee, some_rest, _), recorded) =
                      deposit_needs_finalized_block c claim.tx_hash
                        claim.recent_block_merkle_tree_root claim.recent_auto_claim_txo_root
                        claim.combined_txo_index account claim.deposit_amount_sats minted s xs table
                        amount_lt flat_lt rate_lt room h done in
                    (
                      seed,
                      proved,
                      rw (seed, proved),
                      recent,
                      (minted, credited, some_rest, omega arith, rw (seed, proved, same) recorded),
                    )
              ]
      ]
