-- ===== src/Examples/Replay.antt =====
-- A replay through the program of the bridge, whose tree of sent transactions has the root that all
-- paths lead to.
use psy_doge_solana_bridge.Prelude.{
  ℕ, ◌+◌, ◌*◌, ◌%◌, ◌^◌, ◌/◌, ◌≤◌, ◌≡◌, refl, some, List, [], ◌∷◌, ◌++◌, replicate, drop,
}
use psy_doge_solana_bridge.Errors
use psy_doge_solana_bridge.Bytes.{bytes_eq, from_le_bytes, slice, zero_hash}
use psy_doge_solana_bridge.AppendTree.{new_empty}
use psy_doge_solana_bridge.Merkle.{compute_merkle_root, merkle_root_loop}
use psy_doge_solana_bridge.Bridge.{sha256_hasher}
use psy_doge_solana_bridge.Bridge.Core.{initialize, process_replay_withdrawal_proof}
use psy_doge_solana_bridge.Programs.{ok, ◌>>=◌, ◌>>◌, fail_if}
use psy_doge_solana_bridge.Programs.DogeBridge.{
  BridgeState, BufferAccount, from_core, bridge_state_of, bridge_state_seed, vaa_data,
}
use psy_doge_solana_bridge.Programs.DogeBridge.Replay.{
  hashes_of, partial_proof_size, partial_proof_of, btc_hash256_bytes, replay_timestamp,
  process_replay_withdrawal, accepted_replay_was_sent,
}
use psy_doge_solana_bridge.Examples.Chain.{chain}
use psy_doge_solana_bridge.Examples.Requests.{plain, start}
use psy_doge_solana_bridge.Examples.Processor.{account, state_before, program, generic_buffer}

abbrev transaction : List ℕ
transaction = replicate 10 7

abbrev tx_buffer : BufferAccount
tx_buffer = record { owner = generic_buffer; bytes = replicate 1096 0 ++ transaction }

abbrev state_after : BridgeState
state_after = record state_before {
  core_state = record start { last_processed_withdrawals_at_ms = 100000 };
}

replayed :
    process_replay_withdrawal plain chain program generic_buffer 100 account tx_buffer
    ≡ ok (state_after, vaa_data 0 zero_hash transaction)
unfolding process_replay_withdrawal replay_timestamp process_replay_withdrawal_proof
    btc_hash256_bytes partial_proof_of hashes_of compute_merkle_root merkle_root_loop initialize
    new_empty from_core bridge_state_of bytes_eq from_le_bytes fail_if ◌>>=◌ ◌>>◌
replayed = refl

accepted_replay_was_sent_example :
    let proof = partial_proof_of (slice 32 (32 + partial_proof_size) tx_buffer.bytes) in
    let tx = drop (32 + partial_proof_size) tx_buffer.bytes in
    (state : BridgeState) × (account.state ≡ some state)
    × (account.key ≡ chain.find_program_address (bridge_state_seed ∷ []) program)
    × (tx_buffer.owner ≡ generic_buffer)
    × (compute_merkle_root
          (sha256_hasher plain)
          (plain.sha256 (plain.sha256 tx))
          proof.index
          proof.siblings
        ≡ Errors.ok state.core_state.sent_transactions_tree.current_root)
    × ((state.core_state.last_processed_withdrawals_at_ms / 1000 + 60) % 2 ^ 64
        ≤ replay_timestamp 100 state.core_state)
    × (state_after ≡ record state {
      core_state = record state.core_state {
        last_processed_withdrawals_at_ms = (replay_timestamp 100 state.core_state * 1000) % 2 ^ 64;
      };
    })
    × (vaa_data 0 zero_hash transaction
        ≡ vaa_data
            (state.core_state.next_processed_withdrawals_index % 2 ^ 32)
            (plain.sha256 (plain.sha256 tx))
            tx)
accepted_replay_was_sent_example =
    accepted_replay_was_sent plain chain program generic_buffer 100 account tx_buffer state_after
      (vaa_data 0 zero_hash transaction) replayed
