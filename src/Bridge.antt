-- ===== src/Bridge.antt =====
-- The state of the bridge program and its data: header.rs of libraries/psy-bridge-core, and
-- program_state/core.rs, program_state/withdrawal.rs and instructions/doge_bridge.rs of
-- libraries/psy-doge-solana-core.
pub mod Inputs
pub mod Core
pub mod Deposits
pub mod DepositManager
pub mod Blocks
pub mod AutoMint
use psy_doge_solana_bridge.Prelude.{
  ℕ, Bool, List, ◌++◌, ltb, leb, not, ◌-◌, if◌then◌else◌, ◌+◌, ◌*◌,
}
use psy_doge_solana_bridge.Bytes.{Hash, to_le_bytes, from_le_bytes, slice}
use psy_doge_solana_bridge.Merkle.{MerkleHasher}
use psy_doge_solana_bridge.AppendTree.{FixedMerkleAppendTree}
use psy_doge_solana_bridge.MintGroups.Manager.{FinalizedBlockMintTxoManager}

-- What is not part of the repository, or is a table in it: SHA-256, the roots of the empty trees,
-- and the verifier of compact proofs, which takes a proof, a key and public inputs.
pub record Crypto : Type 0 where
  pub sha256 : List ℕ → Hash
  pub sha256_zero_hashes : ℕ → Hash
  pub verify_compact_zkp_slice : List ℕ → List ℕ → Hash → Bool

-- `hash_impl_sha256_two_to_one_bytes` with the table.
abbrev pub sha256_hasher : Crypto → MerkleHasher Hash
sha256_hasher c = record {
  two_to_one = λ left right. c.sha256 (left ++ right);
  zero_hashes = c.sha256_zero_hashes;
}

pub record PsyBridgeStateCommitment : Type 0 where
  pub block_hash : Hash
  pub block_merkle_tree_root : Hash
  pub pending_mints_finalized_hash : Hash
  pub txo_output_list_finalized_hash : Hash
  pub auto_claimed_txo_tree_root : Hash
  pub auto_claimed_deposits_tree_root : Hash
  pub auto_claimed_deposits_next_index : ℕ
  pub block_height : ℕ

pub record PsyBridgeTipStateCommitment : Type 0 where
  pub block_hash : Hash
  pub block_merkle_tree_root : Hash
  pub block_time : ℕ
  pub block_height : ℕ

pub record PsyBridgeHeader : Type 0 where
  pub tip_state : PsyBridgeTipStateCommitment
  pub finalized_state : PsyBridgeStateCommitment
  pub bridge_state_hash : Hash
  pub last_rollback_at_secs : ℕ
  pub paused_until_secs : ℕ
  pub total_finalized_fees_collected_chain_history : ℕ

pub record PsyReturnTxOutput : Type 0 where
  pub sighash : Hash
  pub output_index : ℕ
  pub amount_sats : ℕ

pub record PsyWithdrawalRequest : Type 0 where
  pub amount_sats : ℕ
  pub address_type : ℕ
  pub recipient_address : List ℕ

pub record PsyWithdrawalChainSnapshot : Type 0 where
  pub auto_claimed_deposits_tree_root : Hash
  pub requested_withdrawals_tree_root : Hash
  pub block_merkle_tree_root : Hash
  pub manual_deposits_tree_root : Hash
  pub block_height : ℕ
  pub last_snapshotted_for_withdrawals_seconds : ℕ
  pub next_requested_withdrawals_tree_index : ℕ
  pub next_manual_deposits_tree_index : ℕ

pub record PsyBridgeConfig : Type 0 where
  pub deposit_fee_rate_numerator : ℕ
  pub deposit_fee_rate_denominator : ℕ
  pub withdrawal_fee_rate_numerator : ℕ
  pub withdrawal_fee_rate_denominator : ℕ
  pub deposit_flat_fee_sats : ℕ
  pub withdrawal_flat_fee_sats : ℕ

pub record PsyBridgeAccessControlHeader : Type 0 where
  pub operator_pubkey : List ℕ
  pub fee_spender_pubkey : List ℕ

pub record PsyBridgeProgramState : Type 0 where
  pub bridge_header : PsyBridgeHeader
  pub recent_finalized_blocks : List PsyBridgeStateCommitment
  pub last_return_output : PsyReturnTxOutput
  pub pending_mint_txos : FinalizedBlockMintTxoManager
  pub spent_txo_tree_root : Hash
  pub withdrawal_snapshot : PsyWithdrawalChainSnapshot
  pub next_processed_withdrawals_index : ℕ
  pub sent_transactions_tree : FixedMerkleAppendTree Hash
  pub manual_deposits_tree : FixedMerkleAppendTree Hash
  pub requested_withdrawals_tree : FixedMerkleAppendTree Hash
  pub custodian_wallet_config_hash : Hash
  pub bridge_control_mode : ℕ
  pub next_recent_finalized_block_index : ℕ
  pub last_processed_withdrawals_at_ms : ℕ
  pub total_requested_withdrawals_sats : ℕ
  pub total_fees_withdrawn_sats : ℕ
  pub total_manual_deposit_fees_sats : ℕ
  pub total_withdrawal_fees_sats : ℕ
  pub last_received_block_at_ms : ℕ
  pub last_replayed_withdrawal_at_ms : ℕ
  pub config_params : PsyBridgeConfig
  pub access_control : PsyBridgeAccessControlHeader

pub record InitializeBridgeInstructionData : Type 0 where
  pub operator_pubkey : List ℕ
  pub fee_spender_pubkey : List ℕ
  pub doge_mint : List ℕ
  pub bridge_header : PsyBridgeHeader
  pub start_return_txo_output : PsyReturnTxOutput
  pub config_params : PsyBridgeConfig
  pub custodian_wallet_config_hash : Hash

-- `bytemuck::bytes_of`: the fields in order, as the layout has no padding.
unfoldable pub commitment_bytes : PsyBridgeStateCommitment → List ℕ
commitment_bytes s =
    s.block_hash
    ++ s.block_merkle_tree_root
    ++ s.pending_mints_finalized_hash
    ++ s.txo_output_list_finalized_hash
    ++ s.auto_claimed_txo_tree_root
    ++ s.auto_claimed_deposits_tree_root
    ++ to_le_bytes 4 s.auto_claimed_deposits_next_index
    ++ to_le_bytes 4 s.block_height

unfoldable pub header_bytes : PsyBridgeHeader → List ℕ
unfolding commitment_bytes
header_bytes h =
    h.tip_state.block_hash
    ++ h.tip_state.block_merkle_tree_root
    ++ to_le_bytes 4 h.tip_state.block_time
    ++ to_le_bytes 4 h.tip_state.block_height
    ++ commitment_bytes h.finalized_state
    ++ h.bridge_state_hash
    ++ to_le_bytes 4 h.last_rollback_at_secs
    ++ to_le_bytes 4 h.paused_until_secs
    ++ to_le_bytes 8 h.total_finalized_fees_collected_chain_history

unfoldable pub return_output_bytes : PsyReturnTxOutput → List ℕ
return_output_bytes o = o.sighash ++ to_le_bytes 8 o.output_index ++ to_le_bytes 8 o.amount_sats

unfoldable pub snapshot_bytes : PsyWithdrawalChainSnapshot → List ℕ
snapshot_bytes s =
    s.auto_claimed_deposits_tree_root
    ++ s.requested_withdrawals_tree_root
    ++ s.block_merkle_tree_root
    ++ s.manual_deposits_tree_root
    ++ to_le_bytes 4 s.block_height
    ++ to_le_bytes 4 s.last_snapshotted_for_withdrawals_seconds
    ++ to_le_bytes 8 s.next_requested_withdrawals_tree_index
    ++ to_le_bytes 8 s.next_manual_deposits_tree_index

unfoldable pub config_bytes : PsyBridgeConfig → List ℕ
config_bytes c =
    to_le_bytes 8 c.deposit_fee_rate_numerator
    ++ to_le_bytes 8 c.deposit_fee_rate_denominator
    ++ to_le_bytes 8 c.withdrawal_fee_rate_numerator
    ++ to_le_bytes 8 c.withdrawal_fee_rate_denominator
    ++ to_le_bytes 8 c.deposit_flat_fee_sats
    ++ to_le_bytes 8 c.withdrawal_flat_fee_sats

-- `is_paused` of the header.
unfoldable pub is_paused : PsyBridgeHeader → ℕ → Bool
is_paused h current_unix_timestamp_secs = ltb current_unix_timestamp_secs h.paused_until_secs

-- A leaf of 32 bytes.
unfoldable pub to_leaf : PsyWithdrawalRequest → List ℕ
to_leaf r = to_le_bytes 8 r.amount_sats ++ to_le_bytes 4 r.address_type ++ r.recipient_address

unfoldable pub from_leaf : List ℕ → PsyWithdrawalRequest
from_leaf leaf = record {
  amount_sats = from_le_bytes (slice 0 8 leaf);
  address_type = from_le_bytes (slice 8 12 leaf);
  recipient_address = slice 12 32 leaf;
}
