-- ===== src/Bridge/Core.antt =====
-- The operations of `PsyBridgeProgramState` other than block updates and automatic mints:
-- program_state/core.rs, proc_withdrawal.rs and operator.rs of libraries/psy-doge-solana-core.
pub mod RequestLeaf
pub mod Withdrawals
pub mod Fees
pub mod Replay
use psy_doge_solana_bridge.Prelude.{
  ℕ, suc, ◌+◌, ◌-◌, ◌*◌, ◌/◌, ◌%◌, ◌^◌, Bool, true, false, not, ◌||◌, Option, some, none, List,
  replicate, ltb, leb, ◌==◌, if◌then◌else◌,
}
use psy_doge_solana_bridge.Errors.{
  Result, ok, err, panic, Action, invalid_doge_tx_hash, bridge_zkp_error, invalid_withdrawal_amount,
  no_operator_fees_to_withdraw,
}
use psy_doge_solana_bridge.Bytes.{Hash, zero_hash, bytes_eq}
use psy_doge_solana_bridge.Merkle.{compute_merkle_root}
use psy_doge_solana_bridge.AppendTree.{FixedMerkleAppendTree, PartialMerkleProof, append, new_empty}
use psy_doge_solana_bridge.Fees.{FeeResult, calcuate_withdrawal_fee}
use psy_doge_solana_bridge.MintGroups.Manager.{manager_default}
use psy_doge_solana_bridge.Bridge.{
  Crypto, sha256_hasher, PsyBridgeProgramState, PsyReturnTxOutput, PsyWithdrawalRequest,
  PsyWithdrawalChainSnapshot, InitializeBridgeInstructionData, snapshot_bytes, return_output_bytes,
  to_leaf,
}
use psy_doge_solana_bridge.Bridge.Inputs.{get_withdrawal_proof_public_inputs}

-- `calcuate_…_fee(...).unwrap_or(FeeResult { 0, 0 })`.
abbrev pub or_no_fee : Option FeeResult → FeeResult
or_no_fee (some r) = r
or_no_fee none = record { fees_generated = 0; amount_after_fees = 0 }

abbrev pub empty_snapshot : PsyWithdrawalChainSnapshot
empty_snapshot = record {
  auto_claimed_deposits_tree_root = zero_hash;
  requested_withdrawals_tree_root = zero_hash;
  block_merkle_tree_root = zero_hash;
  manual_deposits_tree_root = zero_hash;
  block_height = 0;
  last_snapshotted_for_withdrawals_seconds = 0;
  next_requested_withdrawals_tree_index = 0;
  next_manual_deposits_tree_index = 0;
}

unfoldable pub get_total_finalized_fees : PsyBridgeProgramState → ℕ
get_total_finalized_fees s =
    ((s.total_manual_deposit_fees_sats + s.total_withdrawal_fees_sats) % 2 ^ 64
      + s.bridge_header.total_finalized_fees_collected_chain_history)
    % 2 ^ 64

-- The subtraction wraps around.
unfoldable pub get_operator_withdrawable_fees : PsyBridgeProgramState → ℕ
unfolding get_total_finalized_fees
get_operator_withdrawable_fees s =
    (get_total_finalized_fees s + 2 ^ 64 - s.total_fees_withdrawn_sats) % 2 ^ 64

unfoldable pub snapshot_for_withdrawal : ℕ → PsyBridgeProgramState → PsyBridgeProgramState
snapshot_for_withdrawal current_unix_timestamp_secs s = record s {
  withdrawal_snapshot = record {
    auto_claimed_deposits_tree_root =
        s.bridge_header.finalized_state.auto_claimed_deposits_tree_root;
    requested_withdrawals_tree_root = s.requested_withdrawals_tree.current_root;
    block_merkle_tree_root = s.bridge_header.finalized_state.block_merkle_tree_root;
    manual_deposits_tree_root = s.manual_deposits_tree.current_root;
    block_height = s.bridge_header.finalized_state.block_height;
    last_snapshotted_for_withdrawals_seconds = current_unix_timestamp_secs;
    next_requested_withdrawals_tree_index = s.requested_withdrawals_tree.next_index;
    next_manual_deposits_tree_index = s.manual_deposits_tree.next_index;
  };
}

-- The fees since the last call, which are then counted as withdrawn.
unfoldable pub run_bridge_operator_withdraw_fees_precheck : Action PsyBridgeProgramState ℕ
run_bridge_operator_withdraw_fees_precheck s =
    if leb (get_total_finalized_fees s) s.total_fees_withdrawn_sats
    then (err no_operator_fees_to_withdraw, s)
    else let fees_to_withdraw = get_total_finalized_fees s - s.total_fees_withdrawn_sats in
      if fees_to_withdraw == 0 then (err no_operator_fees_to_withdraw, s) else (
        ok fees_to_withdraw,
        record s {
          total_fees_withdrawn_sats = (s.total_fees_withdrawn_sats + fees_to_withdraw) % 2 ^ 64;
        },
      )

-- The mint is a call to another program: its account number in the group, account and amount.
unfoldable pub run_bridge_operator_withdraw_fees :
    (ℕ → List ℕ → ℕ → Result (Unit {0})) → List ℕ → Action PsyBridgeProgramState (Unit {0})
run_bridge_operator_withdraw_fees mint_to operator_ata s =
    let (result, after) = run_bridge_operator_withdraw_fees_precheck s in
    elim result [
      | err e ↦ (err e, after)
      | panic ↦ (panic, after)
      | ok fees_to_withdraw ↦ (mint_to 0 operator_ata fees_to_withdraw, after)
    ]

module _ (c : Crypto) where
  unfoldable pub get_expected_public_inputs_for_withdrawal_proof :
      PsyReturnTxOutput → Hash → ℕ → PsyBridgeProgramState → Hash
  unfolding get_withdrawal_proof_public_inputs snapshot_bytes return_output_bytes
  get_expected_public_inputs_for_withdrawal_proof new_return_output new_spent_txo_tree_root
        new_next_processed_withdrawals_index s =
      get_withdrawal_proof_public_inputs c (c.sha256 (snapshot_bytes s.withdrawal_snapshot))
        (c.sha256 (return_output_bytes s.last_return_output))
        (c.sha256 (return_output_bytes new_return_output)) s.spent_txo_tree_root
        new_spent_txo_tree_root s.custodian_wallet_config_hash new_next_processed_withdrawals_index

  -- The sums on u64 wrap around.
  unfoldable pub process_request_withdrawal :
      ℕ → List ℕ → ℕ → PsyBridgeProgramState → Bool × PsyBridgeProgramState
  process_request_withdrawal address_type address amount_burned_sats s =
      let fee_result = or_no_fee (
        calcuate_withdrawal_fee amount_burned_sats s.config_params.withdrawal_flat_fee_sats
          s.config_params.withdrawal_fee_rate_numerator
          s.config_params.withdrawal_fee_rate_denominator) in
      if fee_result.fees_generated == 0 || fee_result.amount_after_fees == 0 then (false, s) else (
        true,
        record s {
          total_withdrawal_fees_sats =
              (s.total_withdrawal_fees_sats + fee_result.fees_generated) % 2 ^ 64;
          requested_withdrawals_tree =
              append (sha256_hasher c)
                (to_leaf (record {
                  amount_sats = fee_result.amount_after_fees;
                  address_type = address_type;
                  recipient_address = address;
                }))
                s.requested_withdrawals_tree;
          total_requested_withdrawals_sats =
              (s.total_requested_withdrawals_sats + amount_burned_sats) % 2 ^ 64;
        },
      )

  -- The burn is a call to another program.
  unfoldable pub request_withdrawal :
      (List ℕ → ℕ → Result (Unit {0}))
      → List ℕ
      → PsyWithdrawalRequest
      → Action PsyBridgeProgramState (Unit {0})
  request_withdrawal burn_from requester request s =
      let (accepted, after) =
        process_request_withdrawal request.address_type request.recipient_address
          request.amount_sats s in
      if not accepted
      then (err invalid_withdrawal_amount, after)
      else (burn_from requester request.amount_sats, after)

  unfoldable pub update_for_withdrawal :
      PsyReturnTxOutput → Hash → ℕ → PsyBridgeProgramState → PsyBridgeProgramState
  update_for_withdrawal new_return_output new_spent_txo_tree_root
        new_next_processed_withdrawals_index s =
      record s {
        last_return_output = new_return_output;
        spent_txo_tree_root = new_spent_txo_tree_root;
        next_processed_withdrawals_index = new_next_processed_withdrawals_index;
        sent_transactions_tree =
            append (sha256_hasher c) new_return_output.sighash s.sent_transactions_tree;
      }

  unfoldable pub run_process_bridge_withdrawal :
      List ℕ → List ℕ → List ℕ → PsyReturnTxOutput → Hash → ℕ → Action PsyBridgeProgramState Hash
  run_process_bridge_withdrawal proof vk dogecoin_tx new_return_output new_spent_txo_tree_root
        new_next_processed_withdrawals_index s =
      let doge_tx_hash = c.sha256 dogecoin_tx in
      if not (bytes_eq doge_tx_hash new_return_output.sighash)
      then (err invalid_doge_tx_hash, s)
      else if not (
          c.verify_compact_zkp_slice proof vk (
            get_expected_public_inputs_for_withdrawal_proof new_return_output
              new_spent_txo_tree_root new_next_processed_withdrawals_index s))
      then (err bridge_zkp_error, s)
      else (
        ok doge_tx_hash,
        update_for_withdrawal new_return_output new_spent_txo_tree_root
            new_next_processed_withdrawals_index s,
      )

  -- Whether the proof is accepted. An index beyond the tree is a panic.
  unfoldable pub process_replay_withdrawal_proof :
      PartialMerkleProof Hash → ℕ → Action PsyBridgeProgramState Bool
  process_replay_withdrawal_proof proof current_unix_timestamp_secs s =
      elim (compute_merkle_root (sha256_hasher c) proof.value proof.index proof.siblings) [
        | err e ↦ (err e, s)
        | panic ↦ (panic, s)
        | ok proof_root ↦
            if not (bytes_eq proof_root s.sent_transactions_tree.current_root)
            then (ok false, s)
            else if ltb current_unix_timestamp_secs
                ((s.last_processed_withdrawals_at_ms / 1000 + 60) % 2 ^ 64)
            then (ok false, s)
            else (
              ok true,
              record s {
                last_processed_withdrawals_at_ms = (current_unix_timestamp_secs * 1000) % 2 ^ 64;
              },
            )
      ]

  -- TXO_MERKLE_INDEX_TOTAL_BITS is 45.
  unfoldable pub initialize : InitializeBridgeInstructionData → PsyBridgeProgramState
  initialize i = record {
    bridge_header = i.bridge_header;
    recent_finalized_blocks = replicate 8 i.bridge_header.finalized_state;
    last_return_output = i.start_return_txo_output;
    pending_mint_txos = manager_default;
    spent_txo_tree_root = c.sha256_zero_hashes 45;
    withdrawal_snapshot = empty_snapshot;
    next_processed_withdrawals_index = 0;
    sent_transactions_tree = new_empty (sha256_hasher c);
    manual_deposits_tree = new_empty (sha256_hasher c);
    requested_withdrawals_tree = new_empty (sha256_hasher c);
    custodian_wallet_config_hash = i.custodian_wallet_config_hash;
    bridge_control_mode = 0;
    next_recent_finalized_block_index = 0;
    last_processed_withdrawals_at_ms = 0;
    total_requested_withdrawals_sats = 0;
    total_fees_withdrawn_sats = 0;
    total_manual_deposit_fees_sats = 0;
    total_withdrawal_fees_sats = 0;
    last_received_block_at_ms = 0;
    last_replayed_withdrawal_at_ms = 0;
    config_params = i.config_params;
    access_control = record {
      operator_pubkey = i.operator_pubkey;
      fee_spender_pubkey = i.fee_spender_pubkey;
    };
  }
