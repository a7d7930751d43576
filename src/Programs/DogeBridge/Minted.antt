-- ===== src/Programs/DogeBridge/Minted.antt =====
-- A group that the program of the bridge mints.
use psy_doge_solana_bridge.Prelude.{
  ℕ, ◌+◌, ◌*◌, ◌%◌, ◌^◌, ◌≡◌, refl, ap, sym, subst, ◌∙◌, Bool, true, false, List, [], ◌∷◌, length,
  some, arith,
}
use psy_doge_solana_bridge.Errors
use psy_doge_solana_bridge.Bytes.Laws.{bytes_eq→eq}
use psy_doge_solana_bridge.MintGroups.{get_current_total_pending_mints_groups}
use psy_doge_solana_bridge.MintGroups.Groups.{mints_count_for_group}
use psy_doge_solana_bridge.Bridge.AutoMint.{run_auto_mint_group_precheck}
use psy_doge_solana_bridge.Bridge.AutoMint.Claim.{precheck_places}
use psy_doge_solana_bridge.Programs.DogeBridge.Mints.{memory_bytes, IsGroupPaid, mint_group_lem}
use psy_doge_solana_bridge.Programs.{
  ProgramResult, Runtime, Signer, ok, err, panic, buffer, ok_injective, >>=-eq-ok, fail_if-eq-ok,
}
use psy_doge_solana_bridge.Programs.MintBuffer.{PendingMintsBufferStateHeader, unlock}
use psy_doge_solana_bridge.Programs.MintBuffer.Instructions.{
  MintAccounts, Storage, process_instruction,
}
use psy_doge_solana_bridge.Programs.MintBuffer.Done.{header_done}
use psy_doge_solana_bridge.Programs.MintBuffer.Calls.{unlock_by_locker}
use psy_doge_solana_bridge.Programs.DogeBridge.{BridgeState, BridgeAccount, TokenProgram}
use psy_doge_solana_bridge.Programs.DogeBridge.Accepted.{from_core-eq-ok, bridge_state_of-eq-ok}
use psy_doge_solana_bridge.Programs.DogeBridge.MintGroup.{
  differ, cpi_unlocked, unlock_buffer, mint_group, mint_and_unlock, process_process_mint_group,
}

-- The buffer after it has been unlocked by a locker.
abbrev pub IsUnlockedBy : List ℕ → Storage → Storage → Type 0
IsUnlockedBy locker before after =
    (h : PendingMintsBufferStateHeader) × (body : List ℕ) × (before.memory ≡ buffer h body)
    × (locker ≡ h.authorized_locker_public_key)
    × (after.memory
        ≡ buffer
            (record h {
              is_locked = 0;
              pending_mint_groups_count = 0;
              pending_mints_count = 0;
              pending_mints_initialized = 0;
            })
            body)

cpi_unlocked-eq-ok :
    (r : ProgramResult MintAccounts) (after : Storage)
    → cpi_unlocked r ≡ ok after
    → (accounts : MintAccounts) × (r ≡ ok accounts) × (accounts.storage ≡ after)
unfolding cpi_unlocked
cpi_unlocked-eq-ok (ok accounts) after done = (accounts, refl, cc done)
cpi_unlocked-eq-ok (err e) after done = absurd (cc done)
cpi_unlocked-eq-ok panic after done = absurd (cc done)

same_flag : (a b : Bool) → differ a b ≡ false → a ≡ b
same_flag a b h = ground (arith, h)

module _ (rt : Runtime) (buffer_program_id : List ℕ) where
  unlock_call :
      (accounts after : MintAccounts) (locker : Signer)
      → accounts.others ≡ locker ∷ []
      → process_instruction rt buffer_program_id (5 ∷ []) accounts ≡ ok after
      → IsUnlockedBy locker.key accounts.storage after.storage
  unfolding process_instruction
  unlock_call accounts after locker others done =
      let (signer, _, h, h', body, first, _, memory, made, result) =
        header_done rt buffer_program_id unlock accounts after done in
      let (by_locker, cleared) = unlock_by_locker rt buffer_program_id signer.key h h' made in
      let same : locker ≡ signer = cc (others, first) in
      (h, body, memory, ap (λ s. s.key) same ∙ by_locker, result ∙ ap (λ x. buffer x body) cleared)

  unlock_buffer_lem :
      (bridge_key : List ℕ) (before after : Storage)
      → unlock_buffer rt buffer_program_id bridge_key before ≡ ok after
      → IsUnlockedBy bridge_key before after
  unfolding unlock_buffer
  unlock_buffer_lem bridge_key before after done =
      let (accounts, called, same) = cpi_unlocked-eq-ok _ after done in
      subst (IsUnlockedBy bridge_key before) same (unlock_call _ accounts _ refl called)

  minted_and_unlocked :
      {L : Type 0} (token : TokenProgram L) (bridge_key : List ℕ) (mint_buffer : Storage)
      (mint : List ℕ) (recipients : List (List ℕ)) (claim : Bool × ℕ × ℕ) (should_unlock : Bool)
      (ledger : L) (r : Storage × L)
      → mint_and_unlock token rt buffer_program_id bridge_key mint_buffer mint recipients claim
          should_unlock ledger
        ≡ ok r
      → (claim ≡ (should_unlock, length recipients, claim.2))
        × (mint_group token mint recipients mint_buffer.memory claim.2 (length recipients) ledger
            ≡ ok r.1)
        × ((should_unlock ≡ false) → r.0 ≡ mint_buffer)
        × ((should_unlock ≡ true) → IsUnlockedBy bridge_key mint_buffer r.0)
  unfolding mint_and_unlock
  minted_and_unlocked token bridge_key mint_buffer mint recipients (last, n, offset) should_unlock
        ledger r done =
      let (flag, step1) = fail_if-eq-ok _ _ _ _ done in
      let (count, step2) = fail_if-eq-ok _ _ _ _ step1 in
      let (paid, minted, step3) = >>=-eq-ok _ _ _ step2 in
      let (unlocked, unlocks, step4) = >>=-eq-ok _ _ _ step3 in
      let same_flag : last ≡ should_unlock = same_flag _ _ flag in
      let same_count : n ≡ length recipients = ground (arith, count) in
      let final = ok_injective _ _ step4 in
      (
        ap (λ l. (l, n, offset)) same_flag ∙ ap (λ m. (should_unlock, m, offset)) same_count,
        sym (
              ap (λ m. mint_group token mint recipients mint_buffer.memory offset m ledger)
                same_count)
            ∙ minted
            ∙ ap (λ x. ok x.1) final,
        (λ closed.
            let left : ProgramResult.ok mint_buffer ≡ ok unlocked = rw closed at unlocks in
            sym (ap (λ x. x.0) final) ∙ sym (ok_injective _ _ left)),
        λ opened.
            let called : unlock_buffer rt buffer_program_id bridge_key mint_buffer ≡ ok unlocked =
              rw opened at unlocks in
            subst (IsUnlockedBy bridge_key mint_buffer) (ap (λ x. x.0) final)
              (unlock_buffer_lem bridge_key mint_buffer unlocked called),
      )

  -- A group that the program mints: the operator of the bridge signs, the token is that of the
  -- bridge and the buffer the one of the tracker. As many recipients are passed as the group has
  -- mints. The mints that stand at the place of the group, behind the hashes and the groups before, lie
  -- within the buffer, are for those recipients in their order, and are all minted by the token
  -- program. The manager of the mints is left as by the check, and exactly if that says that the group
  -- was the last, the bridge unlocks the buffer.
  pub accepted_group_is_minted :
      {L : Type 0} (token : TokenProgram L) (account : BridgeAccount)
      (mint_buffer unlocked : Storage) (operator : Signer) (mint : List ℕ)
      (recipients : List (List ℕ)) (g : ℕ) (should_unlock : Bool) (ledger paid : L)
      (after : BridgeState)
      → process_process_mint_group token rt buffer_program_id account mint_buffer operator mint
          recipients g should_unlock ledger
        ≡ ok (after, unlocked, paid)
      → (state : BridgeState) × (offset : ℕ) × (account.state ≡ some state)
        × (operator.is_signer ≡ true)
        × (operator.key ≡ state.core_state.access_control.operator_pubkey)
        × (mint ≡ state.doge_mint)
        × (run_auto_mint_group_precheck g mint_buffer.key state.core_state.pending_mint_txos ≡ (
          Errors.ok (should_unlock, length recipients, offset),
          after.core_state.pending_mint_txos,
        ))
        × (let t = state.core_state.pending_mint_txos.current_pending_mints_tracker in
            (mint_buffer.key ≡ t.last_finalized_auto_claim_mints_storage_account)
            × (length recipients ≡ mints_count_for_group t g)
            × (offset
                ≡ 72 + get_current_total_pending_mints_groups t * 32 + ((g * 24) % 2 ^ 16) * 40))
        × IsGroupPaid token mint recipients (memory_bytes mint_buffer.memory) offset ledger paid
        × ((should_unlock ≡ false) → unlocked ≡ mint_buffer)
        × ((should_unlock ≡ true) → IsUnlockedBy account.key mint_buffer unlocked)
  unfolding process_process_mint_group
  accepted_group_is_minted token account mint_buffer unlocked operator mint recipients g
        should_unlock ledger paid after done =
      let (signed, step1) = fail_if-eq-ok _ _ _ _ done in
      let (state, found, step2) = >>=-eq-ok _ _ _ step1 in
      let (_, step3) = fail_if-eq-ok _ _ _ _ step2 in
      let (mint_test, step4) = fail_if-eq-ok _ _ _ _ step3 in
      let (key_test, step5) = fail_if-eq-ok _ _ _ _ step4 in
      let (claim, checked, step6) = >>=-eq-ok _ _ _ step5 in
      let (r, ran, step7) = >>=-eq-ok _ _ _ step6 in
      let final = ok_injective _ _ step7 in
      let (same, paid_out, stays, opens) =
        minted_and_unlocked token account.key mint_buffer mint recipients claim.0 should_unlock
          ledger r ran in
      let prechecked =
        from_core-eq-ok _ claim checked
        ∙ ap (λ x. (Errors.ok x, claim.1)) same
        ∙ ap
            (λ x. (
              Errors.ok (should_unlock, length recipients, claim.0.2),
              x.0.core_state.pending_mint_txos,
            ))
            final in
      (
        state,
        claim.0.2,
        bridge_state_of-eq-ok account state found,
        ground (arith, signed),
        bytes_eq→eq _ _ (ground (arith, key_test)),
        bytes_eq→eq _ _ (ground (arith, mint_test)),
        prechecked,
        precheck_places g mint_buffer.key state.core_state.pending_mint_txos should_unlock
            (length recipients) claim.0.2 (ap (λ r. r.0) prechecked),
        mint_group_lem token mint recipients mint_buffer.memory claim.0.2 ledger paid
            (paid_out ∙ ap (λ x. ok x.2) final),
        (λ closed. sym (ap (λ x. x.1) final) ∙ stays closed),
        λ opened. subst (IsUnlockedBy account.key mint_buffer) (ap (λ x. x.1) final) (opens opened),
      )
