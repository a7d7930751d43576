-- ===== src/Programs/DogeBridge/MintGroup.antt =====
-- `process_process_mint_group` of programs/doge-bridge/src/processor.rs, with the call that unlocks
-- the buffer, of programs/doge-bridge/src/cpi_impl.rs, run by the program of the buffer.
use psy_doge_solana_bridge.Prelude.{
  ℕ, zero, suc, ◌+◌, ◌*◌, Bool, true, not, List, [], ◌∷◌, ◌++◌, length, ltb, ◌==◌, if◌then◌else◌,
}
use psy_doge_solana_bridge.Errors.{
  invalid_account_key, attempted_unlock_pending_mint_buffer, failed_unlock_pending_mint_buffer,
  cpi_unlock_call_error,
}
use psy_doge_solana_bridge.Bytes.{bytes_eq, slice}
use psy_doge_solana_bridge.Bridge.AutoMint.{run_auto_mint_group_precheck}
use psy_doge_solana_bridge.Bridge.AutoMint.Mints.{pending_mint}
use psy_doge_solana_bridge.Programs.{
  ProgramResult, ok, err, panic, ◌>>=◌, ◌>>◌, fail_if, AccountData, short, buffer, Signer, Runtime,
  bridge_error, doge_bridge_error, invalid_account_input, missing_required_signature,
}
use psy_doge_solana_bridge.Programs.MintBuffer.{PendingMintsBufferStateHeader, mint_header_bytes}
use psy_doge_solana_bridge.Programs.MintBuffer.Instructions.{
  MintAccounts, Storage, process_instruction,
}
use psy_doge_solana_bridge.Programs.DogeBridge.{
  BridgeState, BridgeAccount, TokenProgram, from_core, bridge_state_of, solana_mint_to,
}

-- A Boolean difference: `a != b`.
abbrev pub differ : Bool → Bool → Bool
differ a b = if a then not b else b

-- The error of the other program is replaced.
unfoldable pub cpi_unlocked : ProgramResult MintAccounts → ProgramResult Storage
cpi_unlocked (ok after) = ok after.storage
cpi_unlocked (err e) = err (doge_bridge_error cpi_unlock_call_error)
cpi_unlocked panic = panic

-- `unlock_buffer`: the bridge signs for its own account.
unfoldable pub unlock_buffer : Runtime → List ℕ → List ℕ → Storage → ProgramResult Storage
unlock_buffer rt buffer_program_id bridge_key mint_buffer = cpi_unlocked (
    process_instruction rt buffer_program_id (5 ∷ []) (record {
      storage = mint_buffer;
      others = record { key = bridge_key; is_signer = true; lamports = 0 } ∷ [];
    }))

module _ {L : Type 0} (token : TokenProgram L) where
  -- From index `p` on, for the mints that are left.
  unfoldable pub mint_to_recipients :
      List ℕ → List (List ℕ) → List ℕ → ℕ → ℕ → ℕ → L → ProgramResult L
  mint_to_recipients mint recipients memory start p zero ledger = ok ledger
  mint_to_recipients mint recipients memory start p (suc left) ledger =
      let offset = start + p * 40 in
      let minted = pending_mint (slice offset (offset + 40) memory) in
      let next = mint_to_recipients mint recipients memory start (p + 1) left in
      if ltb (length memory) (offset + 40)
      then panic
      else solana_mint_to token mint recipients p minted.recipient minted.amount ledger >>= next

  -- The mints lie behind the header, so memory without one is too short for any.
  unfoldable pub mint_group :
      List ℕ
      → List (List ℕ)
      → AccountData PendingMintsBufferStateHeader
      → ℕ
      → ℕ
      → L
      → ProgramResult L
  mint_group mint recipients (short n) start mints_count ledger =
      if mints_count == 0 then ok ledger else panic
  mint_group mint recipients (buffer h body) start mints_count ledger =
      mint_to_recipients mint recipients (mint_header_bytes h ++ body) start 0 mints_count ledger

  -- From the result of the check of the state on: whether the group is the last, the number of its
  -- mints and their place.
  unfoldable pub mint_and_unlock :
      Runtime
      → List ℕ
      → List ℕ
      → Storage
      → List ℕ
      → List (List ℕ)
      → Bool × ℕ × ℕ
      → Bool
      → L
      → ProgramResult (Storage × L)
  mint_and_unlock rt buffer_program_id bridge_key auto_claim_mint_buffer doge_mint recipients claim
        should_unlock ledger =
      do
        fail_if (differ claim.0 should_unlock) (
            doge_bridge_error (
              if should_unlock
              then attempted_unlock_pending_mint_buffer
              else failed_unlock_pending_mint_buffer))
        fail_if (not (claim.1 == length recipients)) (bridge_error invalid_account_input)
        after ← mint_group doge_mint recipients auto_claim_mint_buffer.memory claim.2 claim.1 ledger
        unlocked ←
            if should_unlock
            then unlock_buffer rt buffer_program_id bridge_key auto_claim_mint_buffer
            else ok auto_claim_mint_buffer
        ok (unlocked, after)

  unfoldable pub process_process_mint_group :
      Runtime
      → List ℕ
      → BridgeAccount
      → Storage
      → Signer
      → List ℕ
      → List (List ℕ)
      → ℕ
      → Bool
      → L
      → ProgramResult (BridgeState × Storage × L)
  process_process_mint_group rt buffer_program_id bridge_state_account auto_claim_mint_buffer
        operator doge_mint recipients mint_group_index should_unlock ledger =
      do
        fail_if (not operator.is_signer) missing_required_signature
        state ← bridge_state_of bridge_state_account
        let manager = state.core_state.pending_mint_txos
        fail_if
            (not (
              bytes_eq auto_claim_mint_buffer.key
                manager.current_pending_mints_tracker.last_finalized_auto_claim_mints_storage_account))
            (doge_bridge_error invalid_account_key)
        fail_if (not (bytes_eq doge_mint state.doge_mint)) (bridge_error invalid_account_input)
        fail_if (not (bytes_eq operator.key state.core_state.access_control.operator_pubkey))
            missing_required_signature
        (claim, manager') ←
            from_core
              (run_auto_mint_group_precheck mint_group_index auto_claim_mint_buffer.key manager)
        (unlocked, after) ←
            mint_and_unlock rt buffer_program_id bridge_state_account.key auto_claim_mint_buffer
              doge_mint recipients claim should_unlock ledger
        ok (
          record state { core_state = record state.core_state { pending_mint_txos = manager' } },
          unlocked,
          after,
        )
