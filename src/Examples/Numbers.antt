-- ===== src/Examples/Numbers.antt =====
-- Fees and indices at concrete numbers.
use psy_doge_solana_bridge.Prelude.{
  ℕ, ◌+◌, ◌-◌, ◌≤◌, ◌*◌, ◌/◌, ◌%◌, ◌^◌, ◌<◌, ◌≡◌, ◌≢◌, ◌↔◌, ◌⊎◌, refl, true, false, some, none,
  arith, replicate, length,
}
use psy_doge_solana_bridge.Fees.{FeeResult, calcuate_deposit_fee, calcuate_withdrawal_fee}
use psy_doge_solana_bridge.Fees.Exact.{fees_on_all_arguments}
use psy_doge_solana_bridge.Txo.{
  get_txo_combined_index, get_txo_block_number_tx_number_output_index_from_combined_index,
  is_valid_txo_merkle_index, get_txo_merkle_index_with_output_index,
  get_output_in_tx_merkle_index_bit_index_byte_index_bit_mask, get_output_bit_index_in_leaf,
  is_valid_txo_combined_index, get_txo_merkle_index_and_leaf_bit_index_from_combined_index,
  get_output_in_tx_merkle_index_bit_index, get_txo_combined_index_for_merkle_index_bit_index,
  is_valid_block_num_tx_num_output_index,
}
use psy_doge_solana_bridge.Txo.Combined.{combined_index_round_trip}
use psy_doge_solana_bridge.Txo.Leaf.{
  place_of_output, late_merkle_index_invalid, valid_fields_give_leaf_and_bit,
}
use psy_doge_solana_bridge.Bridge.{PsyWithdrawalRequest, to_leaf, from_leaf}
use psy_doge_solana_bridge.Bridge.Core.RequestLeaf.{leaf_round_trip}

abbrev denominator : ℕ
denominator = 100000

fees_on_all_arguments_example :
    ((calcuate_withdrawal_fee 123456 100 123 denominator ≡ none)
      ↔ ((denominator ≡ 0) ⊎ (123456 < 251 % 2 ^ 64)))
    × ((r : FeeResult)
        → calcuate_withdrawal_fee 123456 100 123 denominator ≡ some r
        → (r.fees_generated + r.amount_after_fees ≡ 123456)
          × (r.fees_generated ≡ 251 % 2 ^ 64)
          × (denominator ≢ 0))
    × ((0 < denominator)
        → 251 ≤ 123456
        → (calcuate_deposit_fee 123456 100 123 denominator
            ≡ some (record { fees_generated = 251; amount_after_fees = 123456 - 251 }))
          × (calcuate_withdrawal_fee 123456 100 123 denominator
              ≡ some (record { fees_generated = 251; amount_after_fees = 123456 - 251 })))
fees_on_all_arguments_example =
    fees_on_all_arguments 123456 100 123 denominator (omega arith) (omega arith) (omega arith)

valid_index : is_valid_txo_combined_index 33558528 ≡ true
unfolding is_valid_txo_combined_index
valid_index = refl

combined_index_round_trip_example :
    let (b, t, o) = get_txo_block_number_tx_number_output_index_from_combined_index 33558528 in
    (get_txo_block_number_tx_number_output_index_from_combined_index
        (get_txo_combined_index 236520000 6000 2800)
      ≡ (236520000, 6000, 2800))
    × (get_txo_combined_index b t o ≡ 33558528)
combined_index_round_trip_example =
    combined_index_round_trip 236520000 6000 2800 33558528 (omega arith) (omega arith) (omega arith)
      valid_index

place_of_output_example :
    let (leaf, bit, byte_index, bit_mask) =
      get_output_in_tx_merkle_index_bit_index_byte_index_bit_mask 2800 in
    (leaf * 256 + byte_index * 8 + bit_mask ≡ 2800)
    × (bit ≡ byte_index * 8 + bit_mask)
    × (leaf < 16)
    × (byte_index < 32)
    × (bit_mask < 8)
    × (get_output_bit_index_in_leaf 2800 ≡ (leaf, byte_index, bit_mask))
place_of_output_example = place_of_output 2800 (omega arith)

late_merkle_index_invalid_example :
    is_valid_txo_merkle_index (get_txo_merkle_index_with_output_index 236520000 6000 2800) ≡ false
late_merkle_index_invalid_example =
    late_merkle_index_invalid 236520000 6000 2800 (omega arith) (omega arith) (omega arith)
      (omega arith)

valid_fields_give_leaf_and_bit_example :
    ((is_valid_block_num_tx_num_output_index 1000 3 300 ≡ true)
      ↔ ((1000 < 2 ^ 28) × (3 < 2 ^ 13) × (300 < 2 ^ 12)))
    × ((is_valid_block_num_tx_num_output_index 1000 3 300 ≡ true)
        → let (leaf, bit) =
            get_txo_merkle_index_and_leaf_bit_index_from_combined_index
              (get_txo_combined_index 1000 3 300) in
          let (leaf_in_tx, bit_in_leaf) = get_output_in_tx_merkle_index_bit_index 300 in
          (leaf ≡ (1000 * 2 ^ 13 + 3) * 2 ^ 4 + 300 / 2 ^ 8)
          × (bit ≡ 300 % 2 ^ 8)
          × (leaf < 2 ^ 45)
          × (get_txo_combined_index 1000 3 300 ≡ leaf * 2 ^ 8 + bit)
          × (get_txo_combined_index_for_merkle_index_bit_index 1000 3 leaf_in_tx bit_in_leaf
              ≡ get_txo_combined_index 1000 3 300))
valid_fields_give_leaf_and_bit_example = valid_fields_give_leaf_and_bit 1000 3 300

abbrev request : PsyWithdrawalRequest
request = record { amount_sats = 5000; address_type = 1; recipient_address = replicate 20 7 }

leaf_round_trip_example : (from_leaf (to_leaf request) ≡ request) × (length (to_leaf request) ≡ 32)
leaf_round_trip_example = leaf_round_trip request (omega arith) (omega arith) refl
