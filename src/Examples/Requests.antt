-- ===== src/Examples/Requests.antt =====
-- A bridge at its start, with a hash that does not look at its input: a request, a withdrawal, its
-- replay, the fees and a deposit.
use psy_doge_solana_bridge.Prelude.{
  ℕ, ◌+◌, ◌*◌, ◌%◌, ◌^◌, ◌<◌, ◌≤◌, ◌≡◌, ◌≢◌, ◌⊎◌, refl, true, false, List, [], ◌∷◌, replicate,
  if◌then◌else◌, arith,
}
use psy_doge_solana_bridge.Errors.{Result, ok, err, cpi_token_burn_call_error}
use psy_doge_solana_bridge.Bytes.{Hash, zero_hash, bytes_eq}
use psy_doge_solana_bridge.Fees.{calcuate_withdrawal_fee, calcuate_deposit_fee}
use psy_doge_solana_bridge.Merkle.{IsZeroTable}
use psy_doge_solana_bridge.AppendTree.{new_empty, PartialMerkleProof}
use psy_doge_solana_bridge.AppendTree.Holds.{Holds, new_empty-Holds}
use psy_doge_solana_bridge.Bridge.{
  Crypto, sha256_hasher, PsyBridgeProgramState, PsyBridgeHeader, PsyBridgeStateCommitment,
  PsyReturnTxOutput, PsyWithdrawalRequest, InitializeBridgeInstructionData, to_leaf,
}
use psy_doge_solana_bridge.Bridge.Core.{
  initialize, process_request_withdrawal, request_withdrawal, run_process_bridge_withdrawal,
  get_expected_public_inputs_for_withdrawal_proof, process_replay_withdrawal_proof,
  update_for_withdrawal,
}
use psy_doge_solana_bridge.Bridge.Core.Withdrawals.{
  request_splits_the_amount, withdrawal_needs_hash_and_proof,
}
use psy_doge_solana_bridge.Bridge.Core.Replay.{replay_is_rate_limited, last_sent_is_replayed}
use psy_doge_solana_bridge.Bridge.Deposits.{
  process_manual_claimed_deposit, find_recent_auto_claim_txo_tree_root_and_block_merkle_root,
}
use psy_doge_solana_bridge.Bridge.Deposits.Claims.{IsRecent, deposit_needs_finalized_block}
use psy_doge_solana_bridge.Bridge.Inputs.{hash_deposit_leaf}
use psy_doge_solana_bridge.Txo.{get_txo_block_number_tx_number_output_index_from_combined_index}

abbrev pub plain : Crypto
plain = record {
  sha256 = λ bytes. zero_hash;
  sha256_zero_hashes = λ level. zero_hash;
  verify_compact_zkp_slice = λ proof vk inputs. true;
}

pub table : IsZeroTable (sha256_hasher plain)
table i = refl

abbrev pub block : ℕ → PsyBridgeStateCommitment
block height = record {
  block_hash = zero_hash;
  block_merkle_tree_root = zero_hash;
  pending_mints_finalized_hash = zero_hash;
  txo_output_list_finalized_hash = zero_hash;
  auto_claimed_txo_tree_root = zero_hash;
  auto_claimed_deposits_tree_root = zero_hash;
  auto_claimed_deposits_next_index = 0;
  block_height = height;
}

abbrev pub header : PsyBridgeStateCommitment → ℕ → PsyBridgeHeader
header finalized tip = record {
  tip_state = record {
    block_hash = zero_hash;
    block_merkle_tree_root = zero_hash;
    block_time = 0;
    block_height = tip;
  };
  finalized_state = finalized;
  bridge_state_hash = zero_hash;
  last_rollback_at_secs = 0;
  paused_until_secs = 0;
  total_finalized_fees_collected_chain_history = 9000;
}

abbrev pub output : PsyReturnTxOutput
output = record { sighash = zero_hash; output_index = 0; amount_sats = 4000 }

abbrev pub setup : InitializeBridgeInstructionData
setup = record {
  operator_pubkey = replicate 32 1;
  fee_spender_pubkey = replicate 32 2;
  doge_mint = replicate 32 3;
  bridge_header = header (block 50) 60;
  start_return_txo_output = output;
  config_params = record {
    deposit_fee_rate_numerator = 1;
    deposit_fee_rate_denominator = 100;
    withdrawal_fee_rate_numerator = 1;
    withdrawal_fee_rate_denominator = 100;
    deposit_flat_fee_sats = 500;
    withdrawal_flat_fee_sats = 500;
  };
  custodian_wallet_config_hash = zero_hash;
}

abbrev pub start : PsyBridgeProgramState
start = initialize plain setup

abbrev address : List ℕ
address = replicate 20 5

tree-Holds : Holds (sha256_hasher plain) (new_empty (sha256_hasher plain)) []
tree-Holds = new_empty-Holds (sha256_hasher plain) table

requested-Holds : Holds (sha256_hasher plain) start.requested_withdrawals_tree []
unfolding initialize
requested-Holds = tree-Holds

sent-Holds : Holds (sha256_hasher plain) start.sent_transactions_tree []
unfolding initialize
sent-Holds = tree-Holds

pub deposits-Holds : Holds (sha256_hasher plain) start.manual_deposits_tree []
unfolding initialize
deposits-Holds = tree-Holds

pub small_rates :
    (start.config_params.withdrawal_flat_fee_sats < 2 ^ 64)
    × (start.config_params.withdrawal_fee_rate_numerator < 2 ^ 64)
    × (start.config_params.deposit_flat_fee_sats < 2 ^ 64)
    × (start.config_params.deposit_fee_rate_numerator < 2 ^ 64)
unfolding initialize
small_rates = (omega arith, omega arith, omega arith, omega arith)

abbrev after_request : PsyBridgeProgramState
after_request = (process_request_withdrawal plain 1 address 100000 start).1

abbrev request : PsyWithdrawalRequest
request = record { amount_sats = 100000; address_type = 1; recipient_address = address }

-- One account may burn.
abbrev burn : List ℕ → ℕ → Result (Unit {0})
burn account amount =
    if bytes_eq account (replicate 32 9) then ok tt else err cpi_token_burn_call_error

request_accepted :
    request_withdrawal plain burn (replicate 32 9) request start ≡ (ok tt, after_request)
unfolding request_withdrawal process_request_withdrawal initialize calcuate_withdrawal_fee bytes_eq
request_accepted = refl

request_splits_the_amount_example :
    (fee : ℕ) × (rest : ℕ) × (burn (replicate 32 9) 100000 ≡ ok tt)
    × (fee + rest ≡ 100000)
    × (0 < fee)
    × (0 < rest)
    × Holds
        (sha256_hasher plain)
        after_request.requested_withdrawals_tree
        (to_leaf (record request { amount_sats = rest }) ∷ [])
    × (after_request.total_withdrawal_fees_sats ≡ (start.total_withdrawal_fees_sats + fee) % 2 ^ 64)
    × (after_request.total_requested_withdrawals_sats
        ≡ (start.total_requested_withdrawals_sats + 100000) % 2 ^ 64)
request_splits_the_amount_example =
    request_splits_the_amount plain burn (replicate 32 9) request start after_request [] table
      (omega arith) small_rates.0 small_rates.1 (omega arith) requested-Holds request_accepted

abbrev transaction : List ℕ
transaction = 1 ∷ 2 ∷ 3 ∷ []

withdrawal_needs_hash_and_proof_example :
    let (result, after) =
      run_process_bridge_withdrawal plain
        (replicate 256 0)
        (replicate 32 0)
        transaction
        output
        zero_hash
        1
        start in
    ((plain.sha256 transaction ≡ output.sighash)
      × (plain.verify_compact_zkp_slice
            (replicate 256 0)
            (replicate 32 0)
            (get_expected_public_inputs_for_withdrawal_proof plain output zero_hash 1 start)
          ≡ true)
      × (result ≡ ok (plain.sha256 transaction))
      × Holds (sha256_hasher plain) after.sent_transactions_tree (plain.sha256 transaction ∷ [])
      × (after.last_return_output ≡ output)
      × (after.spent_txo_tree_root ≡ zero_hash)
      × (after.next_processed_withdrawals_index ≡ 1))
    ⊎ (((plain.sha256 transaction ≢ output.sighash)
          ⊎ (plain.verify_compact_zkp_slice
                (replicate 256 0)
                (replicate 32 0)
                (get_expected_public_inputs_for_withdrawal_proof plain output zero_hash 1 start)
              ≡ false))
        × ((hash : Hash) → result ≢ ok hash)
        × (after ≡ start))
withdrawal_needs_hash_and_proof_example =
    withdrawal_needs_hash_and_proof plain (replicate 256 0) (replicate 32 0) transaction output
      zero_hash 1 start [] table (omega arith) sent-Holds

no_replay_yet : start.last_processed_withdrawals_at_ms ≡ 0
unfolding initialize
no_replay_yet = refl

abbrev proof_of_sent : PartialMerkleProof Hash
proof_of_sent = record {
  index = 0;
  value = output.sighash;
  siblings = start.sent_transactions_tree.next_siblings;
}

abbrev after_sent : PsyBridgeProgramState
after_sent = update_for_withdrawal plain output zero_hash 1 start

last_sent_is_replayed_example :
    (process_replay_withdrawal_proof plain proof_of_sent 1000 after_sent).0 ≡ ok true
last_sent_is_replayed_example =
    last_sent_is_replayed plain output zero_hash 1 1000 start [] table sent-Holds (omega arith)
      (omega (arith, no_replay_yet)) (omega (arith, no_replay_yet))

replay_is_rate_limited_example :
    let after = (process_replay_withdrawal_proof plain proof_of_sent 1000 after_sent).1 in
    ((process_replay_withdrawal_proof plain proof_of_sent 1059 after).0 ≢ ok true)
    × ((process_replay_withdrawal_proof plain proof_of_sent 1059 after).1 ≡ after)
replay_is_rate_limited_example =
    replay_is_rate_limited plain proof_of_sent proof_of_sent 1000 1059 after_sent (omega arith)
      (last_sent_is_replayed plain output zero_hash 1 1000 start [] table sent-Holds (omega arith)
        (omega (arith, no_replay_yet)) (omega (arith, no_replay_yet)))
      (omega arith)

-- Output 0 of transaction 3 of block 40.
abbrev pub deposit_index : ℕ
deposit_index = 40 * 2 ^ 25 + 3 * 2 ^ 12

deposit_accepted :
    (process_manual_claimed_deposit plain zero_hash zero_hash zero_hash deposit_index
      (replicate 32 6)
      100000
      start).0
    ≡ ok 98500
unfolding process_manual_claimed_deposit initialize calcuate_deposit_fee
    find_recent_auto_claim_txo_tree_root_and_block_merkle_root
    get_txo_block_number_tx_number_output_index_from_combined_index bytes_eq
deposit_accepted = refl

deposit_needs_finalized_block_example :
    let after =
      (process_manual_claimed_deposit plain zero_hash zero_hash zero_hash deposit_index
        (replicate 32 6)
        100000
        start).1 in
    ((block : PsyBridgeStateCommitment) × IsRecent block start
      × (block.auto_claimed_deposits_tree_root ≡ zero_hash)
      × (block.block_merkle_tree_root ≡ zero_hash)
      × ((get_txo_block_number_tx_number_output_index_from_combined_index deposit_index).0
          ≤ block.block_height))
    × ((fee : ℕ) × (fee + 98500 ≡ 100000)
        × (0 < fee)
        × (0 < 98500)
        × (after.total_manual_deposit_fees_sats
            ≡ (start.total_manual_deposit_fees_sats + fee) % 2 ^ 64))
    × Holds
        (sha256_hasher plain)
        after.manual_deposits_tree
        (hash_deposit_leaf plain zero_hash deposit_index (replicate 32 6) 98500 ∷ [])
deposit_needs_finalized_block_example =
    deposit_needs_finalized_block plain zero_hash zero_hash zero_hash deposit_index (replicate 32 6)
      100000 98500 start [] table (omega arith) small_rates.2 small_rates.3 (omega arith)
      deposits-Holds deposit_accepted
