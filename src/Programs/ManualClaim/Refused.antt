-- ===== src/Programs/ManualClaim/Refused.antt =====
-- How a claim ends in the program of a user, which calls the bridge while it still holds the data of
-- its own account.
use psy_doge_solana_bridge.Prelude.{
  ℕ, ◌≡◌, inl, inr, refl, ap, true, false, some, List, [], ◌∷◌, ◌++◌, arith, Bool-cases,
}
use psy_doge_solana_bridge.Errors.{cpi_manual_deposit_call_error, bridge_zkp_error}
use psy_doge_solana_bridge.Errors
use psy_doge_solana_bridge.Bytes.{bytes_eq}
use psy_doge_solana_bridge.Bytes.Laws.{bytes_eq_refl}
use psy_doge_solana_bridge.Bridge.{Crypto}
use psy_doge_solana_bridge.Bridge.DepositManager.{
  UserManualDepositManagerProgramState, ManualDepositMainBridgeCpiHelper, ManualClaim,
  expected_public_inputs, manual_claim_deposit,
}
use psy_doge_solana_bridge.Programs.{
  ok, err, ◌>>=◌, ◌>>◌, fail_if, Signer, Runtime, manual_claim_error, manual_core_error,
}
use psy_doge_solana_bridge.Programs.DogeBridge.{BridgeState, BridgeAccount, manual_claim_seed}
use psy_doge_solana_bridge.Programs.ManualClaim.{
  ClaimAccount, ClaimRuntime, ClaimKeys, RefusesBorrowed, contains_key, any_borrowed,
  manual_deposit_call, called, claimed, solana_manual_deposit_helper, claim_state_of, process_claim,
}

-- The account of the claims is one of the accounts of the call.
claim_pda-any_borrowed :
    (keys : ClaimKeys) (call_data : List ℕ)
    → any_borrowed (keys.claim_pda ∷ []) (manual_deposit_call keys call_data).accounts ≡ true
unfolding any_borrowed contains_key manual_deposit_call
claim_pda-any_borrowed keys call_data =
    let same = bytes_eq_refl keys.claim_pda in rw same (ground arith)

-- The manager passes an error of the call of the bridge on.
manager_fails :
    {S : Type 0} (c : Crypto) (proof vk : List ℕ) (helper : ManualDepositMainBridgeCpiHelper S)
    (claim : ManualClaim) (m : UserManualDepositManagerProgramState) (before : S)
    → helper.ensure_current_program_is_lowest_possible_pda_seed claim.signer_public_key ≡ true
    → helper.process_manual_deposit claim.recent_block_merkle_tree_root
        claim.recent_auto_claim_txo_root claim.tx_hash claim.combined_txo_index
        claim.signer_public_key claim.deposit_amount_sats before
      ≡ (Errors.err cpi_manual_deposit_call_error, before)
    → claimed (manual_claim_deposit c proof vk helper claim (m, before))
      ≡ err (manual_claim_error manual_core_error)
unfolding manual_claim_deposit claimed
manager_fails c proof vk helper claim m before lowest failed =
    elim (Bool-cases (
      c.verify_compact_zkp_slice proof vk (
        expected_public_inputs c (helper.derive_token_ata_from_signer claim.signer_public_key) claim
          m))) [
            | inl verified ↦ rw (lowest, verified, failed) refl
            | inr refused ↦ rw (lowest, refused) refl
          ]

module _ (c : Crypto) (rt : Runtime) (program_id : List ℕ) {S : Type 0}
    (chain : ClaimRuntime S) where
  -- A claim whose checks of accounts all pass, whatever its proof, ends in the core error, since the
  -- runtime refuses the call of the bridge: the account of the claims is among its accounts, and its
  -- data is still borrowed.
  pub claim_ends_in_core_error :
      (vk : List ℕ) (account : ClaimAccount) (bridge : BridgeAccount)
      (recipient mint token_program bridge_program : List ℕ) (user : Signer) (payer proof : List ℕ)
      (request : ManualClaim) (before : S) (state : UserManualDepositManagerProgramState)
      (bridge_state : BridgeState)
      → RefusesBorrowed chain
      → user.is_signer ≡ true
      → rt.find_program_address (manual_claim_seed ∷ user.key ∷ []) program_id ≡ account.key
      → chain.get_associated_token_address user.key mint ≡ recipient
      → claim_state_of c rt program_id chain payer account ≡ ok state
      → bytes_eq account.key bridge.key ≡ false
      → bridge.state ≡ some bridge_state
      → process_claim c rt program_id chain vk account bridge recipient mint token_program
          bridge_program user payer proof request before
        ≡ err (manual_claim_error manual_core_error)
  unfolding process_claim solana_manual_deposit_helper called fail_if ◌>>=◌ ◌>>◌
  claim_ends_in_core_error vk account bridge recipient mint token_program bridge_program user payer
        proof request before state bridge_state refuses signed pda ata opened apart found =
      let same_pda = bytes_eq_refl account.key in
      let same_ata = bytes_eq_refl recipient in
      let seeds = manual_claim_seed ∷ user.key ∷ [] in
      let keys : ClaimKeys = record {
        bridge_program = bridge_program;
        bridge_state = bridge.key;
        recipient_account = recipient;
        doge_mint = mint;
        token_program = token_program;
        claim_pda = account.key;
        claim_pda_seeds = seeds ++ (chain.bump_of seeds program_id ∷ []) ∷ [];
      } in
      rw (process_claim, signed, pda, same_pda, ata, same_ata, opened, apart, found)
        (manager_fails c proof vk (solana_manual_deposit_helper chain (account.key ∷ []) keys) _
          state before refl
          (ap (λ r. called r before) (refuses _ _ before (claim_pda-any_borrowed keys _))))
