-- ===== src/Txo.antt =====
-- The indices of transaction outputs in the TXO tree: txo_constants.rs of
-- libraries/psy-bridge-core. A block number has 28 bits, a transaction number 13, an output number
-- 12, of which the low 8 select a bit in a leaf of 256 bits.
pub mod Combined
pub mod Leaf
use psy_doge_solana_bridge.Prelude.{
  ℕ, ◌+◌, ◌-◌, ◌*◌, ◌/◌, ◌%◌, ◌^◌, Bool, ◌&&◌, bit_and, bit_or, ◌==◌,
}

abbrev pub txo_tree_index_bits_block_num_length : ℕ
txo_tree_index_bits_block_num_length = 28

abbrev pub txo_tree_index_bits_tx_num_length : ℕ
txo_tree_index_bits_tx_num_length = 13

abbrev pub txo_tree_leaf_bit_index_length : ℕ
txo_tree_leaf_bit_index_length = 8

abbrev pub txo_tree_combined_index_bits_output_num_length : ℕ
txo_tree_combined_index_bits_output_num_length = 4 + txo_tree_leaf_bit_index_length

abbrev pub txo_merkle_index_total_bits : ℕ
txo_merkle_index_total_bits = 28 + 13 + 4

abbrev pub txo_combined_index_total_bits : ℕ
txo_combined_index_total_bits = 28 + 13 + 12

abbrev pub txo_merkle_index_mask : ℕ
txo_merkle_index_mask = 2 ^ txo_merkle_index_total_bits - 1

abbrev pub txo_combined_index_mask : ℕ
txo_combined_index_mask = 2 ^ txo_combined_index_total_bits - 1

abbrev pub txo_tree_index_block_num_lowered_mask : ℕ
txo_tree_index_block_num_lowered_mask = 2 ^ txo_tree_index_bits_block_num_length - 1

abbrev pub txo_tree_index_tx_num_lowered_mask : ℕ
txo_tree_index_tx_num_lowered_mask = 2 ^ txo_tree_index_bits_tx_num_length - 1

abbrev pub txo_tree_index_output_num_lowered_mask : ℕ
txo_tree_index_output_num_lowered_mask = 2 ^ txo_tree_combined_index_bits_output_num_length - 1

-- `a << k` and `a >> k` on a u64.
abbrev pub shl64 : ℕ → ℕ → ℕ
shl64 a k = (a * 2 ^ k) % 2 ^ 64

abbrev pub shr : ℕ → ℕ → ℕ
shr a k = a / 2 ^ k

unfoldable pub is_valid_txo_combined_index : ℕ → Bool
is_valid_txo_combined_index index = bit_and index txo_combined_index_mask == index

unfoldable pub is_valid_txo_merkle_index : ℕ → Bool
is_valid_txo_merkle_index index = bit_and index txo_merkle_index_mask == index

unfoldable pub get_txo_merkle_index : ℕ → ℕ → ℕ → ℕ
get_txo_merkle_index block_num tx_num output_leaf_index =
    bit_or (bit_or (shl64 block_num 25) (shl64 tx_num 12)) output_leaf_index

unfoldable pub get_txo_merkle_index_with_output_index : ℕ → ℕ → ℕ → ℕ
get_txo_merkle_index_with_output_index block_num tx_num output_index_in_tx =
    get_txo_merkle_index block_num tx_num (shr output_index_in_tx 8 % 2 ^ 8)

unfoldable pub get_txo_combined_index : ℕ → ℕ → ℕ → ℕ
get_txo_combined_index block_num tx_num output_index_in_tx =
    bit_or (bit_or (shl64 block_num 25) (shl64 tx_num 12)) output_index_in_tx

unfoldable pub get_txo_combined_index_for_merkle_index_bit_index : ℕ → ℕ → ℕ → ℕ → ℕ
get_txo_combined_index_for_merkle_index_bit_index block_num tx_num output_merkle_index
      output_bit_index =
    bit_or (bit_or (shl64 block_num 25) (shl64 tx_num 12))
      (bit_or (shl64 output_merkle_index 8) output_bit_index)

unfoldable pub get_txo_block_number_tx_number_output_index_from_combined_index : ℕ → ℕ × ℕ × ℕ
get_txo_block_number_tx_number_output_index_from_combined_index index = (
  bit_and (shr index 25) txo_tree_index_block_num_lowered_mask % 2 ^ 32,
  bit_and (shr index 12) txo_tree_index_tx_num_lowered_mask % 2 ^ 16,
  bit_and index txo_tree_index_output_num_lowered_mask % 2 ^ 16,
)

unfoldable pub is_valid_block_num_tx_num_output_index : ℕ → ℕ → ℕ → Bool
is_valid_block_num_tx_num_output_index block_num tx_num output_index_in_tx =
    bit_and block_num txo_tree_index_block_num_lowered_mask == block_num
    && bit_and tx_num txo_tree_index_tx_num_lowered_mask == tx_num
    && bit_and output_index_in_tx txo_tree_index_output_num_lowered_mask == output_index_in_tx

unfoldable pub get_output_in_tx_merkle_index_bit_index : ℕ → ℕ × ℕ
get_output_in_tx_merkle_index_bit_index output_index_in_tx =
    (shr output_index_in_tx 8 % 2 ^ 8, bit_and output_index_in_tx 255 % 2 ^ 8)

unfoldable pub get_output_index_from_combined_index : ℕ → ℕ
get_output_index_from_combined_index combined_index =
    bit_and combined_index txo_tree_index_output_num_lowered_mask % 2 ^ 16

-- The leaf of the transaction, the bit in the leaf, its byte and its place in the byte.
unfoldable pub get_output_in_tx_merkle_index_bit_index_byte_index_bit_mask : ℕ → ℕ × ℕ × ℕ × ℕ
get_output_in_tx_merkle_index_bit_index_byte_index_bit_mask output_index_in_tx =
    let merkle_index = shr output_index_in_tx 8 % 2 ^ 8 in
    let bit_index = (output_index_in_tx - (merkle_index * 2 ^ 8) % 2 ^ 16) % 2 ^ 8 in
    (merkle_index, bit_index, shr bit_index 3, bit_and bit_index 7)

unfoldable pub get_output_bit_index_in_leaf : ℕ → ℕ × ℕ × ℕ
get_output_bit_index_in_leaf output_index_in_tx =
    let merkle_index = shr output_index_in_tx 8 % 2 ^ 8 in
    let byte_bit_index = (output_index_in_tx - (merkle_index * 256) % 2 ^ 16) % 2 ^ 8 in
    (merkle_index, shr byte_bit_index 3, bit_and byte_bit_index 7)

unfoldable pub get_txo_merkle_index_and_leaf_bit_index_from_combined_index : ℕ → ℕ × ℕ
get_txo_merkle_index_and_leaf_bit_index_from_combined_index combined_index =
    (shr combined_index 8, bit_and combined_index 255 % 2 ^ 8)
