-- ===== src/Txo/Leaf.antt =====
-- The leaf of an output and the bit in the leaf: txo_constants.rs.
use psy_doge_solana_bridge.Prelude.{
  ℕ, ◌+◌, ◌*◌, ◌/◌, ◌%◌, ◌^◌, ◌<◌, ◌≤◌, ◌≡◌, refl, ◌∙◌, ◌↔◌, true, false, ◌-◌, arith, bit_and,
  bit_or,
}
use psy_doge_solana_bridge.Prelude.Bits.{bit_and_mask, bit_or_fields}
use psy_doge_solana_bridge.Txo.{
  get_txo_combined_index, get_txo_combined_index_for_merkle_index_bit_index, shl64,
  is_valid_block_num_tx_num_output_index, get_txo_merkle_index, is_valid_txo_merkle_index,
  get_txo_merkle_index_and_leaf_bit_index_from_combined_index, get_output_bit_index_in_leaf,
  get_output_in_tx_merkle_index_bit_index_byte_index_bit_mask,
  get_output_in_tx_merkle_index_bit_index, get_txo_merkle_index_with_output_index,
}
use psy_doge_solana_bridge.Txo.Combined.{get_txo_combined_index_lem}

-- A block number, a transaction number and an output number are valid exactly if each fits its
-- field.
is_valid_block_num_tx_num_output_index_iff :
    (b t o : ℕ)
    → (is_valid_block_num_tx_num_output_index b t o ≡ true)
      ↔ ((b < 2 ^ 28) × (t < 2 ^ 13) × (o < 2 ^ 12))
unfolding is_valid_block_num_tx_num_output_index
is_valid_block_num_tx_num_output_index_iff b t o =
    rw (bit_and_mask 28 b, bit_and_mask 13 t, bit_and_mask 12 o) (ground arith)

-- The leaf and the bit that are read from a combined index determine it, and for an index made
-- from three fields they are what the fields give.
leaf_and_bit_of_combined_index :
    (b t o : ℕ)
    → b < 2 ^ 28
    → t < 2 ^ 13
    → o < 2 ^ 12
    → let (leaf, bit) =
        get_txo_merkle_index_and_leaf_bit_index_from_combined_index
          (get_txo_combined_index b t o) in
      (leaf ≡ (b * 2 ^ 13 + t) * 2 ^ 4 + o / 2 ^ 8)
      × (bit ≡ o % 2 ^ 8)
      × (leaf < 2 ^ 45)
      × (get_txo_combined_index b t o ≡ leaf * 2 ^ 8 + bit)
unfolding get_txo_merkle_index_and_leaf_bit_index_from_combined_index
leaf_and_bit_of_combined_index b t o b_lt t_lt o_lt =
    let n = (b * 2 ^ 13 + t) * 2 ^ 12 + o in
    let mask : bit_and n 255 ≡ n % 2 ^ 8 = bit_and_mask 8 n in
    rw (get_txo_combined_index_lem b t o (omega arith) t_lt o_lt, mask)
      (omega arith, omega arith, omega arith, omega arith)

-- The two ways to make a combined index agree: from the output number, or from its leaf and bit.
combined_index_from_leaf_and_bit :
    (b t o : ℕ)
    → b < 2 ^ 28
    → t < 2 ^ 13
    → o < 2 ^ 12
    → let (leaf, bit) = get_output_in_tx_merkle_index_bit_index o in
      get_txo_combined_index_for_merkle_index_bit_index b t leaf bit ≡ get_txo_combined_index b t o
unfolding get_output_in_tx_merkle_index_bit_index get_txo_combined_index_for_merkle_index_bit_index
    get_txo_combined_index
combined_index_from_leaf_and_bit b t o b_lt t_lt o_lt =
    let leaf : (o / 2 ^ 8) % 2 ^ 8 ≡ o / 2 ^ 8 = omega arith in
    let bit : bit_and o 255 % 2 ^ 8 ≡ o % 2 ^ 8 = rw (bit_and_mask 8 o) (omega arith) in
    let shifted : shl64 (o / 2 ^ 8) 8 ≡ (o / 2 ^ 8) * 2 ^ 8 = omega arith in
    let joined : bit_or ((o / 2 ^ 8) * 2 ^ 8) (o % 2 ^ 8) ≡ o =
      bit_or_fields 8 (o / 2 ^ 8) (o % 2 ^ 8) (omega arith) ∙ omega arith in
    rw (leaf, bit, shifted, joined)

-- The validity test of block, transaction and output number passes exactly if each fits its field.
-- Then the leaf and the bit that are read from the combined index determine it and are what the
-- fields give, and the combined index made from the leaf and the bit of the output is the one made
-- from the output number.
pub valid_fields_give_leaf_and_bit :
    (b t o : ℕ)
    → ((is_valid_block_num_tx_num_output_index b t o ≡ true)
        ↔ ((b < 2 ^ 28) × (t < 2 ^ 13) × (o < 2 ^ 12)))
      × ((is_valid_block_num_tx_num_output_index b t o ≡ true)
          → let (leaf, bit) =
              get_txo_merkle_index_and_leaf_bit_index_from_combined_index
                (get_txo_combined_index b t o) in
            let (leaf_in_tx, bit_in_leaf) = get_output_in_tx_merkle_index_bit_index o in
            (leaf ≡ (b * 2 ^ 13 + t) * 2 ^ 4 + o / 2 ^ 8)
            × (bit ≡ o % 2 ^ 8)
            × (leaf < 2 ^ 45)
            × (get_txo_combined_index b t o ≡ leaf * 2 ^ 8 + bit)
            × (get_txo_combined_index_for_merkle_index_bit_index b t leaf_in_tx bit_in_leaf
                ≡ get_txo_combined_index b t o))
valid_fields_give_leaf_and_bit b t o = (
  is_valid_block_num_tx_num_output_index_iff b t o,
  λ valid.
      let (b_lt, t_lt, o_lt) = (is_valid_block_num_tx_num_output_index_iff b t o).0 valid in
      let (leaf, bit, bound, determined) = leaf_and_bit_of_combined_index b t o b_lt t_lt o_lt in
      (leaf, bit, bound, determined, combined_index_from_leaf_and_bit b t o b_lt t_lt o_lt),
)

-- The leaf, the byte in it and the bit in the byte place an output of a transaction: byte and bit
-- are within a leaf of 32 bytes, no two outputs share a place, and the shorter function gives the
-- same.
pub place_of_output :
    (o : ℕ)
    → o < 2 ^ 12
    → let (leaf, bit, byte_index, bit_mask) =
        get_output_in_tx_merkle_index_bit_index_byte_index_bit_mask o in
      (leaf * 256 + byte_index * 8 + bit_mask ≡ o)
      × (bit ≡ byte_index * 8 + bit_mask)
      × (leaf < 16)
      × (byte_index < 32)
      × (bit_mask < 8)
      × (get_output_bit_index_in_leaf o ≡ (leaf, byte_index, bit_mask))
unfolding get_output_in_tx_merkle_index_bit_index_byte_index_bit_mask get_output_bit_index_in_leaf
place_of_output o o_lt =
    let leaf : (o / 2 ^ 8) % 2 ^ 8 ≡ o / 2 ^ 8 = omega arith in
    let bit : (o - ((o / 2 ^ 8) * 2 ^ 8) % 2 ^ 16) % 2 ^ 8 ≡ o % 2 ^ 8 = omega arith in
    let mask : bit_and (o % 2 ^ 8) 7 ≡ (o % 2 ^ 8) % 2 ^ 3 = bit_and_mask 3 (o % 2 ^ 8) in
    rw (leaf, bit, mask) (omega arith, omega arith, omega arith, omega arith, omega arith, refl)

-- `get_txo_merkle_index` shifts by the widths of a combined index. From block 2^20 on its result is
-- no index of the tree, which has 45 levels.
pub late_merkle_index_invalid :
    (b t o : ℕ)
    → 2 ^ 20 ≤ b
    → b < 2 ^ 28
    → t < 2 ^ 13
    → o < 2 ^ 12
    → is_valid_txo_merkle_index (get_txo_merkle_index_with_output_index b t o) ≡ false
unfolding is_valid_txo_merkle_index get_txo_merkle_index_with_output_index get_txo_merkle_index
    get_txo_combined_index
late_merkle_index_invalid b t o late b_lt t_lt o_lt =
    let leaf : (o / 2 ^ 8) % 2 ^ 8 ≡ o / 2 ^ 8 = omega arith in
    let n = (b * 2 ^ 13 + t) * 2 ^ 12 + o / 2 ^ 8 in
    rw
      (
        leaf,
        get_txo_combined_index_lem b t (o / 2 ^ 8) (omega arith) t_lt (omega arith),
        bit_and_mask 45 n,
      )
      (ground arith)
