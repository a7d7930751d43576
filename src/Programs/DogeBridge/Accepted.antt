-- ===== src/Programs/DogeBridge/Accepted.antt =====
-- What instructions of the bridge show that are accepted.
use psy_doge_solana_bridge.Prelude.{
  ℕ, ◌+◌, ◌%◌, ◌^◌, ◌<◌, ◌≤◌, ◌≡◌, refl, ap, sym, subst, ◌∙◌, true, false, not, Option, some, none,
  List, [], ◌∷◌, length, drop, arith, inl, inr, Option-cases,
}
use psy_doge_solana_bridge.Errors.{no_operator_fees_to_withdraw}
use psy_doge_solana_bridge.Errors
use psy_doge_solana_bridge.Bytes.{Hash, bytes_eq}
use psy_doge_solana_bridge.Bytes.Laws.{bytes_eq→eq, bytes_eq_refl}
use psy_doge_solana_bridge.Bridge.{Crypto, PsyBridgeProgramState, PsyReturnTxOutput}
use psy_doge_solana_bridge.Bridge.Core.{
  run_process_bridge_withdrawal, update_for_withdrawal, get_total_finalized_fees,
  get_operator_withdrawable_fees, run_bridge_operator_withdraw_fees_precheck,
  get_expected_public_inputs_for_withdrawal_proof,
}
use psy_doge_solana_bridge.Bridge.Core.Fees.{operator_is_paid_once}
use psy_doge_solana_bridge.Programs.{
  ProgramResult, Runtime, Signer, ok, err, ◌>>=◌, ◌>>◌, fail_if, ok_injective, >>=-eq-ok,
  fail_if-eq-ok, doge_bridge_error,
}
use psy_doge_solana_bridge.Programs.DogeBridge.{
  BridgeState, BridgeAccount, BufferAccount, TokenProgram, from_core, bridge_state_of,
  bridge_state_seed, vaa_data, solana_mint_to, process_operator_withdraw_fees,
  process_process_withdrawal,
}

pub from_core-eq-ok :
    {A S : Type 0} (r : Errors.Result A × S) (a : A × S)
    → from_core r ≡ ok a
    → r ≡ (Errors.ok a.0, a.1)
unfolding from_core
from_core-eq-ok (Errors.ok a, s) (b, t) done = cc done
from_core-eq-ok (Errors.err e, s) b done = absurd (cc done)
from_core-eq-ok (Errors.panic, s) b done = absurd (cc done)

pub bridge_state_of-eq-ok :
    (account : BridgeAccount) (state : BridgeState)
    → bridge_state_of account ≡ ok state
    → account.state ≡ some state
unfolding bridge_state_of
bridge_state_of-eq-ok account state done = go account.state done
  where
    go :
        (s : Option BridgeState)
        → (elim s as (λ _. ProgramResult BridgeState) [
          | none ↦ err (
              psy_doge_solana_bridge.Programs.bridge_error
                psy_doge_solana_bridge.Programs.serialization_error)
          | some state ↦ ok state
        ])
          ≡ ok state
        → s ≡ some state
    go none h = absurd (cc h)
    go (some s) h = cc h

module _ (c : Crypto) where
  processed_withdrawal :
      (proof vk tx : List ℕ) (output : PsyReturnTxOutput) (root : Hash) (next : ℕ)
      (s : PsyBridgeProgramState) (r : Hash × PsyBridgeProgramState)
      → run_process_bridge_withdrawal c proof vk tx output root next s ≡ (Errors.ok r.0, r.1)
      → (c.sha256 tx ≡ output.sighash)
        × (c.verify_compact_zkp_slice proof vk
              (get_expected_public_inputs_for_withdrawal_proof c output root next s)
            ≡ true)
        × (r.0 ≡ output.sighash)
        × (r.1 ≡ update_for_withdrawal c output root next s)
  unfolding run_process_bridge_withdrawal
  processed_withdrawal proof vk tx output root next s r done =
      let hash : c.sha256 tx ≡ output.sighash = bytes_eq→eq _ _ (ground (arith, done)) in
      let result : c.sha256 tx ≡ r.0 = ground (arith, done) in
      (hash, ground (arith, done), sym result ∙ hash, ground (arith, done))

module _ (c : Crypto) (rt : Runtime) (program_id : List ℕ) where
  -- A withdrawal that the program accepts: the account is that of the bridge, and the buffer belongs
  -- to the program of buffers for call data. The bytes behind its header are a transaction that
  -- hashes to the sighash of the new output, and the proof verifies against inputs made from the
  -- state, which is updated. What is sent carries that sighash and that transaction.
  pub accepted_withdrawal_sends_its_transaction :
      (generic_buffer_program_id vk : List ℕ) (account : BridgeAccount) (tx_buffer : BufferAccount)
      (proof : List ℕ) (output : PsyReturnTxOutput) (root : Hash) (next : ℕ) (after : BridgeState)
      (message : List ℕ)
      → process_process_withdrawal c rt program_id generic_buffer_program_id vk account tx_buffer
          proof output root next
        ≡ ok (after, message)
      → let tx = drop 32 tx_buffer.bytes in
        (state : BridgeState) × (account.state ≡ some state)
        × (account.key ≡ rt.find_program_address (bridge_state_seed ∷ []) program_id)
        × (tx_buffer.owner ≡ generic_buffer_program_id)
        × (32 ≤ length tx_buffer.bytes)
        × (c.sha256 tx ≡ output.sighash)
        × (c.verify_compact_zkp_slice proof vk
              (get_expected_public_inputs_for_withdrawal_proof c output root next state.core_state)
            ≡ true)
        × (after ≡ record state {
          core_state = update_for_withdrawal c output root next state.core_state;
        })
        × (message ≡ vaa_data (next % 2 ^ 32) output.sighash tx)
  unfolding process_process_withdrawal update_for_withdrawal
  accepted_withdrawal_sends_its_transaction generic_buffer_program_id vk account tx_buffer proof
        output root next after message done =
      let tx = drop 32 tx_buffer.bytes in
      let (pda, step1) = fail_if-eq-ok _ _ _ _ done in
      let (owner, step2) = fail_if-eq-ok _ _ _ _ step1 in
      let (state, found, step3) = >>=-eq-ok _ _ _ step2 in
      let (long, step4) = fail_if-eq-ok _ _ _ _ step3 in
      let (core, ran, step5) = >>=-eq-ok _ _ _ step4 in
      let (hash, verified, sighash, updated) =
        processed_withdrawal c proof vk tx output root next state.core_state core
          (from_core-eq-ok _ core ran) in
      let result = ok_injective _ _ step5 in
      let nonce = ap (λ s. s.next_processed_withdrawals_index % 2 ^ 32) updated in
      (
        state,
        bridge_state_of-eq-ok account state found,
        bytes_eq→eq _ _ (ground (arith, pda)),
        bytes_eq→eq _ _ (ground (arith, owner)),
        ground (arith, long),
        hash,
        verified,
        sym (ap (λ r. r.0) result) ∙ ap (λ s. record state { core_state = s }) updated,
        sym (ap (λ r. r.1) result)
            ∙ ap (λ n. vaa_data n core.0 tx) nonce
            ∙ ap (λ h. vaa_data (next % 2 ^ 32) h tx) sighash,
      )

module _ {L : Type 0} (token : TokenProgram L) where
  minted :
      (mint account : List ℕ) (amount : ℕ) (ledger after : L)
      → solana_mint_to token mint (account ∷ []) 0 account amount ledger ≡ ok after
      → token.mint_to mint account amount ledger ≡ some after
  unfolding solana_mint_to
  minted mint account amount ledger after done =
      let called = rw (bytes_eq_refl account) at done in
      elim (Option-cases (token.mint_to mint account amount ledger)) [
        | inl failed ↦ absurd (cc (rw failed at called))
        | inr (paid, found) ↦
            let same : paid ≡ after = cc (rw found at called) in found ∙ ap some same
      ]

  some_fees :
      (s : PsyBridgeProgramState) (r : ℕ × PsyBridgeProgramState)
      → run_bridge_operator_withdraw_fees_precheck s ≡ (Errors.ok r.0, r.1)
      → s.total_fees_withdrawn_sats < get_total_finalized_fees s
  unfolding run_bridge_operator_withdraw_fees_precheck
  some_fees s r done = ground (arith, done)

  withdrawn_once :
      (s : PsyBridgeProgramState) (r : ℕ × PsyBridgeProgramState)
      → run_bridge_operator_withdraw_fees_precheck s ≡ (Errors.ok r.0, r.1)
      → (r.0 ≡ get_operator_withdrawable_fees s)
        × (s.total_fees_withdrawn_sats + get_operator_withdrawable_fees s
            ≡ get_total_finalized_fees s)
        × (r.1.total_fees_withdrawn_sats ≡ get_total_finalized_fees s)
        × (run_bridge_operator_withdraw_fees_precheck r.1
            ≡ (Errors.err no_operator_fees_to_withdraw, r.1))
  withdrawn_once s r done =
      let (result, split, _, withdrawn, again) = operator_is_paid_once s (some_fees s r done) in
      let amount : Errors.ok r.0 ≡ Errors.ok (get_operator_withdrawable_fees s) =
        sym (ap (λ p. p.0) done) ∙ result in
      let core = ap (λ p. p.1) done in
      (
        cc amount,
        split,
        sym (ap (λ t. t.total_fees_withdrawn_sats) core) ∙ withdrawn,
        subst
            (λ t.
              run_bridge_operator_withdraw_fees_precheck t
              ≡ (Errors.err no_operator_fees_to_withdraw, t))
            core again,
      )

  same_operator :
      (s : PsyBridgeProgramState) (r : ℕ × PsyBridgeProgramState)
      → run_bridge_operator_withdraw_fees_precheck s ≡ (Errors.ok r.0, r.1)
      → r.1.access_control.operator_pubkey ≡ s.access_control.operator_pubkey
  unfolding run_bridge_operator_withdraw_fees_precheck
  same_operator s r done = ground (arith, done)

  refused_again :
      (account : BridgeAccount) (after : BridgeState) (token_account mint : List ℕ)
      (operator : Signer) (ledger : L)
      → operator.is_signer ≡ true
      → mint ≡ after.doge_mint
      → operator.key ≡ after.core_state.access_control.operator_pubkey
      → run_bridge_operator_withdraw_fees_precheck after.core_state
        ≡ (Errors.err no_operator_fees_to_withdraw, after.core_state)
      → process_operator_withdraw_fees token
          (record account { state = some after })
          token_account
          mint
          operator
          ledger
        ≡ err (doge_bridge_error no_operator_fees_to_withdraw)
  unfolding process_operator_withdraw_fees bridge_state_of from_core ◌>>=◌ ◌>>◌ fail_if
  refused_again account after token_account mint operator ledger signs same_mint same_key refused =
      let sign_test : not operator.is_signer ≡ false = ap not signs in
      let mint_test : bytes_eq mint after.doge_mint ≡ true =
        ap (λ m. bytes_eq m after.doge_mint) same_mint ∙ bytes_eq_refl after.doge_mint in
      let key_test : bytes_eq operator.key after.core_state.access_control.operator_pubkey ≡ true =
        ap (λ k. bytes_eq k after.core_state.access_control.operator_pubkey) same_key
        ∙ bytes_eq_refl after.core_state.access_control.operator_pubkey in
      rw sign_test (rw mint_test (rw key_test (rw refused refl)))

  -- Fees that the program pays: the operator of the bridge signs, the token is that of the bridge,
  -- and all fees that are left, which are some, are minted to the account that he names. They then
  -- count as withdrawn, and the same call is refused at once afterwards.
  pub accepted_fees_go_to_the_operator :
      (account : BridgeAccount) (token_account mint : List ℕ) (operator : Signer) (ledger paid : L)
      (after : BridgeState)
      → process_operator_withdraw_fees token account token_account mint operator ledger
        ≡ ok (after, paid)
      → (state : BridgeState) × (account.state ≡ some state)
        × (operator.is_signer ≡ true)
        × (operator.key ≡ state.core_state.access_control.operator_pubkey)
        × (mint ≡ state.doge_mint)
        × (0 < get_operator_withdrawable_fees state.core_state)
        × (state.core_state.total_fees_withdrawn_sats
              + get_operator_withdrawable_fees state.core_state
            ≡ get_total_finalized_fees state.core_state)
        × (token.mint_to mint token_account (get_operator_withdrawable_fees state.core_state) ledger
            ≡ some paid)
        × (after.core_state.total_fees_withdrawn_sats ≡ get_total_finalized_fees state.core_state)
        × (process_operator_withdraw_fees token
              (record account { state = some after })
              token_account
              mint
              operator
              paid
            ≡ err (doge_bridge_error no_operator_fees_to_withdraw))
  unfolding process_operator_withdraw_fees
  accepted_fees_go_to_the_operator account token_account mint operator ledger paid after done =
      let (signed, step1) = fail_if-eq-ok _ _ _ _ done in
      let (state, found, step2) = >>=-eq-ok _ _ _ step1 in
      let (mint_test, step3) = fail_if-eq-ok _ _ _ _ step2 in
      let (key_test, step4) = fail_if-eq-ok _ _ _ _ step3 in
      let (core, checked, step5) = >>=-eq-ok _ _ _ step4 in
      let (ledger_after, mints, step6) = >>=-eq-ok _ _ _ step5 in
      let ran = from_core-eq-ok _ core checked in
      let (amount, split, withdrawn, again) = withdrawn_once state.core_state core ran in
      let some_left = some_fees state.core_state core ran in
      let final = ok_injective _ _ step6 in
      let signs : operator.is_signer ≡ true = ground (arith, signed) in
      let same_mint = bytes_eq→eq mint state.doge_mint (ground (arith, mint_test)) in
      let same_key =
        bytes_eq→eq operator.key state.core_state.access_control.operator_pubkey
          (ground (arith, key_test)) in
      let state_after : record state { core_state = core.1 } ≡ after = ap (λ r. r.0) final in
      (
        state,
        bridge_state_of-eq-ok account state found,
        signs,
        same_key,
        same_mint,
        omega (arith, some_left, split),
        split,
        minted mint token_account (get_operator_withdrawable_fees state.core_state) ledger paid (
            ap (λ n. solana_mint_to token mint (token_account ∷ []) 0 token_account n ledger)
              (sym amount)
            ∙ mints
            ∙ ap (λ r. ok r.1) final),
        sym (ap (λ t. t.core_state.total_fees_withdrawn_sats) state_after) ∙ withdrawn,
        subst
            (λ t.
              process_operator_withdraw_fees token (record account { state = some t }) token_account
                mint operator paid
              ≡ err (doge_bridge_error no_operator_fees_to_withdraw))
            state_after
            (refused_again account (record state { core_state = core.1 }) token_account mint
              operator paid signs same_mint
              (same_key ∙ sym (same_operator state.core_state core ran)) again),
      )
