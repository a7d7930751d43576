-- ===== src/Examples/Processor.antt =====
-- A withdrawal and the fees through the program of the bridge.
use psy_doge_solana_bridge.Prelude.{
  ℕ, ◌+◌, ◌%◌, ◌^◌, ◌<◌, ◌≤◌, ◌≡◌, refl, true, some, List, [], ◌∷◌, ◌++◌, length, replicate, drop,
}
use psy_doge_solana_bridge.Errors.{no_operator_fees_to_withdraw}
use psy_doge_solana_bridge.Errors
use psy_doge_solana_bridge.Bytes.{zero_hash, bytes_eq}
use psy_doge_solana_bridge.Bridge.Core.{
  initialize, run_process_bridge_withdrawal, update_for_withdrawal, get_total_finalized_fees,
  get_operator_withdrawable_fees, run_bridge_operator_withdraw_fees_precheck,
  get_expected_public_inputs_for_withdrawal_proof,
}
use psy_doge_solana_bridge.Programs.{ok, err, ◌>>=◌, ◌>>◌, fail_if, Signer, doge_bridge_error}
use psy_doge_solana_bridge.Programs.DogeBridge.{
  BridgeState, BridgeAccount, BufferAccount, TokenProgram, from_core, bridge_state_of,
  bridge_state_seed, vaa_data, solana_mint_to, process_operator_withdraw_fees,
  process_process_withdrawal,
}
use psy_doge_solana_bridge.Programs.DogeBridge.Accepted.{
  accepted_withdrawal_sends_its_transaction, accepted_fees_go_to_the_operator,
}
use psy_doge_solana_bridge.Examples.Chain.{chain}
use psy_doge_solana_bridge.Examples.Requests.{plain, start, output, setup}

abbrev pub program : List ℕ
program = 8 ∷ []

abbrev pub generic_buffer : List ℕ
generic_buffer = 4 ∷ []

abbrev pub mint : List ℕ
mint = replicate 32 3

abbrev pub state_before : BridgeState
state_before = record { core_state = start; doge_mint = mint }

abbrev pub account : BridgeAccount
account = record { key = 9 ∷ []; state = some state_before }

-- Behind the header is a transaction of three bytes.
abbrev tx_buffer : BufferAccount
tx_buffer = record { owner = generic_buffer; bytes = replicate 32 6 ++ (1 ∷ 2 ∷ 3 ∷ []) }

abbrev state_after : BridgeState
state_after = record state_before {
  core_state = update_for_withdrawal plain output zero_hash 1 start;
}

sent :
    process_process_withdrawal plain chain program generic_buffer
      (replicate 32 0)
      account
      tx_buffer
      (replicate 256 0)
      output
      zero_hash
      1
    ≡ ok (state_after, vaa_data 1 zero_hash (1 ∷ 2 ∷ 3 ∷ []))
unfolding process_process_withdrawal run_process_bridge_withdrawal update_for_withdrawal from_core
    bridge_state_of bytes_eq fail_if ◌>>=◌ ◌>>◌
sent = refl

accepted_withdrawal_sends_its_transaction_example :
    (state : BridgeState) × (account.state ≡ some state)
    × (account.key ≡ chain.find_program_address (bridge_state_seed ∷ []) program)
    × (tx_buffer.owner ≡ generic_buffer)
    × (32 ≤ length tx_buffer.bytes)
    × (plain.sha256 (drop 32 tx_buffer.bytes) ≡ output.sighash)
    × (plain.verify_compact_zkp_slice (replicate 256 0) (replicate 32 0) (
          get_expected_public_inputs_for_withdrawal_proof plain output zero_hash 1 state.core_state)
        ≡ true)
    × (state_after ≡ record state {
      core_state = update_for_withdrawal plain output zero_hash 1 state.core_state;
    })
    × (vaa_data 1 zero_hash (1 ∷ 2 ∷ 3 ∷ [])
        ≡ vaa_data (1 % 2 ^ 32) output.sighash (drop 32 tx_buffer.bytes))
accepted_withdrawal_sends_its_transaction_example =
    accepted_withdrawal_sends_its_transaction plain chain program generic_buffer (replicate 32 0)
      account tx_buffer (replicate 256 0) output zero_hash 1 state_after
      (vaa_data 1 zero_hash (1 ∷ 2 ∷ 3 ∷ [])) sent

-- A ledger that is the sum of what was minted.
abbrev pub sums : TokenProgram ℕ
sums = record {
  mint_to = λ mint account amount ledger. some (ledger + amount);
  burn = λ account mint authority amount ledger. (Errors.ok tt, ledger);
}

abbrev pub operator : Signer
operator = record { key = setup.operator_pubkey; is_signer = true; lamports = 0 }

abbrev paid_state : BridgeState
paid_state = record state_before {
  core_state = (run_bridge_operator_withdraw_fees_precheck start).1;
}

fees_paid :
    process_operator_withdraw_fees sums account (2 ∷ []) mint operator 0 ≡ ok (paid_state, 9000)
unfolding process_operator_withdraw_fees initialize get_total_finalized_fees
    run_bridge_operator_withdraw_fees_precheck solana_mint_to from_core bridge_state_of bytes_eq
    fail_if ◌>>=◌ ◌>>◌
fees_paid = refl

accepted_fees_go_to_the_operator_example :
    (state : BridgeState) × (account.state ≡ some state)
    × (operator.is_signer ≡ true)
    × (operator.key ≡ state.core_state.access_control.operator_pubkey)
    × (mint ≡ state.doge_mint)
    × (0 < get_operator_withdrawable_fees state.core_state)
    × (state.core_state.total_fees_withdrawn_sats + get_operator_withdrawable_fees state.core_state
        ≡ get_total_finalized_fees state.core_state)
    × (sums.mint_to mint (2 ∷ []) (get_operator_withdrawable_fees state.core_state) 0 ≡ some 9000)
    × (paid_state.core_state.total_fees_withdrawn_sats ≡ get_total_finalized_fees state.core_state)
    × (process_operator_withdraw_fees sums
          (record account { state = some paid_state })
          (2 ∷ [])
          mint
          operator
          9000
        ≡ err (doge_bridge_error no_operator_fees_to_withdraw))
accepted_fees_go_to_the_operator_example =
    accepted_fees_go_to_the_operator sums account (2 ∷ []) mint operator 0 9000 paid_state fees_paid
