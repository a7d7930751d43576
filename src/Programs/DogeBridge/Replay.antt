-- ===== src/Programs/DogeBridge/Replay.antt =====
-- `process_replay_withdrawal` of programs/doge-bridge/src/processor.rs.
use psy_doge_solana_bridge.Prelude.{
  ℕ, zero, suc, ◌+◌, ◌*◌, ◌%◌, ◌^◌, ◌/◌, ◌≤◌, ◌≡◌, true, not, some, List, [], ◌∷◌, length, take,
  drop, ltb, ◌==◌, if◌then◌else◌, arith, ap, sym, ◌∙◌,
}
use psy_doge_solana_bridge.Errors
use psy_doge_solana_bridge.Bytes.{Hash, bytes_eq, from_le_bytes, slice}
use psy_doge_solana_bridge.Bytes.Laws.{bytes_eq→eq}
use psy_doge_solana_bridge.Merkle.{compute_merkle_root}
use psy_doge_solana_bridge.AppendTree.{PartialMerkleProof}
use psy_doge_solana_bridge.Bridge.{Crypto, sha256_hasher, PsyBridgeProgramState}
use psy_doge_solana_bridge.Bridge.Core.Replay.{replay_accepted}
use psy_doge_solana_bridge.Bridge.Core.{process_replay_withdrawal_proof}
use psy_doge_solana_bridge.Programs.{
  ProgramResult, ok, ◌>>=◌, ◌>>◌, fail_if, Runtime, bridge_error, core_error, invalid_pda,
  invalid_account_input, illegal_owner, ok_injective, >>=-eq-ok, fail_if-eq-ok,
}
use psy_doge_solana_bridge.Programs.DogeBridge.{
  BridgeState, BridgeAccount, BufferAccount, from_core, bridge_state_of, bridge_state_seed,
  vaa_data,
}
use psy_doge_solana_bridge.Programs.DogeBridge.Accepted.{from_core-eq-ok, bridge_state_of-eq-ok}

unfoldable pub hashes_of : ℕ → List ℕ → List Hash
hashes_of zero bytes = []
hashes_of (suc n) bytes = take 32 bytes ∷ hashes_of n (drop 32 bytes)

-- The layout of the path: index, value and 32 siblings, 1064 bytes.
abbrev pub partial_proof_size : ℕ
partial_proof_size = 1064

unfoldable pub partial_proof_of : List ℕ → PartialMerkleProof Hash
partial_proof_of bytes = record {
  index = from_le_bytes (take 8 bytes);
  value = slice 8 40 bytes;
  siblings = hashes_of 32 (drop 40 bytes);
}

unfoldable pub btc_hash256_bytes : Crypto → List ℕ → Hash
btc_hash256_bytes c bytes = c.sha256 (c.sha256 bytes)

-- The time, or the next second if the last time that was entered is the same number.
unfoldable pub replay_timestamp : ℕ → PsyBridgeProgramState → ℕ
replay_timestamp unix_timestamp s =
    let current_timestamp = unix_timestamp % 2 ^ 32 in
    if s.last_processed_withdrawals_at_ms == current_timestamp
    then (current_timestamp + 1) % 2 ^ 32
    else current_timestamp

module _ (c : Crypto) (rt : Runtime) (program_id : List ℕ) where
  unfoldable pub process_replay_withdrawal :
      List ℕ → ℕ → BridgeAccount → BufferAccount → ProgramResult (BridgeState × List ℕ)
  process_replay_withdrawal generic_buffer_program_id unix_timestamp bridge_state_account
        doge_tx_buffer =
      do
        let bridge_pda = rt.find_program_address (bridge_state_seed ∷ []) program_id
        let proof = partial_proof_of (slice 32 (32 + partial_proof_size) doge_tx_buffer.bytes)
        let tx_data = drop (32 + partial_proof_size) doge_tx_buffer.bytes
        let sighash = btc_hash256_bytes c tx_data
        fail_if (not (bytes_eq bridge_state_account.key bridge_pda)) (bridge_error invalid_pda)
        fail_if (not (bytes_eq doge_tx_buffer.owner generic_buffer_program_id)) illegal_owner
        state ← bridge_state_of bridge_state_account
        fail_if (ltb (length doge_tx_buffer.bytes) (32 + partial_proof_size + 10))
            (bridge_error invalid_account_input)
        fail_if (not (bytes_eq proof.value sighash)) (bridge_error invalid_account_input)
        (accepted, core) ← from_core (
            process_replay_withdrawal_proof c proof
              (replay_timestamp unix_timestamp state.core_state) state.core_state)
        fail_if (not accepted) (bridge_error core_error)
        let nonce = core.next_processed_withdrawals_index % 2 ^ 32
        ok (record state { core_state = core }, vaa_data nonce sighash tx_data)

  -- A replay that the program accepts: the buffer belongs to the program of buffers and holds a path
  -- that leads from the double digest of the transaction behind it to the root of the sent
  -- transactions; a minute has passed by the entered time, the new time is entered and nothing else
  -- changes; what is sent carries that digest and the transaction.
  pub accepted_replay_was_sent :
      (generic_buffer_program_id : List ℕ) (unix_timestamp : ℕ) (account : BridgeAccount)
      (tx_buffer : BufferAccount) (after : BridgeState) (message : List ℕ)
      → process_replay_withdrawal generic_buffer_program_id unix_timestamp account tx_buffer
        ≡ ok (after, message)
      → let proof = partial_proof_of (slice 32 (32 + partial_proof_size) tx_buffer.bytes) in
        let tx = drop (32 + partial_proof_size) tx_buffer.bytes in
        (state : BridgeState) × (account.state ≡ some state)
        × (account.key ≡ rt.find_program_address (bridge_state_seed ∷ []) program_id)
        × (tx_buffer.owner ≡ generic_buffer_program_id)
        × (compute_merkle_root (sha256_hasher c) (c.sha256 (c.sha256 tx)) proof.index proof.siblings
            ≡ Errors.ok state.core_state.sent_transactions_tree.current_root)
        × ((state.core_state.last_processed_withdrawals_at_ms / 1000 + 60) % 2 ^ 64
            ≤ replay_timestamp unix_timestamp state.core_state)
        × (after ≡ record state {
          core_state = record state.core_state {
            last_processed_withdrawals_at_ms =
                (replay_timestamp unix_timestamp state.core_state * 1000) % 2 ^ 64;
          };
        })
        × (message
            ≡ vaa_data
                (state.core_state.next_processed_withdrawals_index % 2 ^ 32)
                (c.sha256 (c.sha256 tx))
                tx)
  unfolding process_replay_withdrawal btc_hash256_bytes
  accepted_replay_was_sent generic_buffer_program_id unix_timestamp account tx_buffer after message
        done =
      let proof = partial_proof_of (slice 32 (32 + partial_proof_size) tx_buffer.bytes) in
      let tx = drop (32 + partial_proof_size) tx_buffer.bytes in
      let (pda, step1) = fail_if-eq-ok _ _ _ _ done in
      let (owner, step2) = fail_if-eq-ok _ _ _ _ step1 in
      let (state, found, step3) = >>=-eq-ok _ _ _ step2 in
      let (_, step4) = fail_if-eq-ok _ _ _ _ step3 in
      let (value, step5) = fail_if-eq-ok _ _ _ _ step4 in
      let (core, ran, step6) = >>=-eq-ok _ _ _ step5 in
      let (accepted, step7) = fail_if-eq-ok _ _ _ _ step6 in
      let result = ok_injective _ _ step7 in
      let accept : core.0 ≡ true = ground (arith, accepted) in
      let checked = from_core-eq-ok _ core ran in
      let (rooted, waited, entered) =
        replay_accepted c proof (replay_timestamp unix_timestamp state.core_state) state.core_state
          (ap (λ r. r.0) checked ∙ ap Errors.ok accept) in
      let same : core.1 ≡ record state.core_state {
        last_processed_withdrawals_at_ms =
            (replay_timestamp unix_timestamp state.core_state * 1000) % 2 ^ 64;
      } =
        sym (ap (λ r. r.1) checked) ∙ entered in
      let digest : proof.value ≡ c.sha256 (c.sha256 tx) = bytes_eq→eq _ _ (ground (arith, value)) in
      (
        state,
        bridge_state_of-eq-ok account state found,
        bytes_eq→eq _ _ (ground (arith, pda)),
        bytes_eq→eq _ _ (ground (arith, owner)),
        ap (λ v. compute_merkle_root (sha256_hasher c) v proof.index proof.siblings) (sym digest)
            ∙ rooted,
        waited,
        sym (ap (λ r. r.0) result) ∙ ap (λ s. record state { core_state = s }) same,
        sym (ap (λ r. r.1) result)
            ∙ ap
                (λ s.
                  vaa_data (s.next_processed_withdrawals_index % 2 ^ 32) (c.sha256 (c.sha256 tx))
                    tx)
                same,
      )
