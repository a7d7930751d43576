-- ===== src/Txo/Combined.antt =====
-- A combined index and its three fields determine each other: txo_constants.rs.
use psy_doge_solana_bridge.Prelude.{
  ℕ, ◌+◌, ◌*◌, ◌/◌, ◌%◌, ◌^◌, ◌<◌, ◌≡◌, ap, ◌∙◌, ◌↔◌, true, ◌-◌, arith, bit_and, bit_or, ◌==◌,
}
use psy_doge_solana_bridge.Prelude.Bits.{bit_and_mask, bit_or_fields}
use psy_doge_solana_bridge.Txo.{
  get_txo_combined_index, shl64, get_txo_block_number_tx_number_output_index_from_combined_index,
  is_valid_txo_combined_index,
}

block_tx_fields :
    (b t : ℕ)
    → b < 2 ^ 32
    → t < 2 ^ 13
    → bit_or (shl64 b 25) (shl64 t 12) ≡ (b * 2 ^ 13 + t) * 2 ^ 12
block_tx_fields b t b_lt t_lt =
    let hi : shl64 b 25 ≡ b * 2 ^ 25 = omega arith in
    let lo : shl64 t 12 ≡ t * 2 ^ 12 = omega arith in
    rw (hi, lo, bit_or_fields 25 b (t * 2 ^ 12) (omega arith)) (omega arith)

pub get_txo_combined_index_lem :
    (b t o : ℕ)
    → b < 2 ^ 32
    → t < 2 ^ 13
    → o < 2 ^ 12
    → get_txo_combined_index b t o ≡ (b * 2 ^ 13 + t) * 2 ^ 12 + o
unfolding get_txo_combined_index
get_txo_combined_index_lem b t o b_lt t_lt o_lt =
    rw (block_tx_fields b t b_lt t_lt) (bit_or_fields 12 (b * 2 ^ 13 + t) o o_lt)

unpacked :
    (i : ℕ)
    → get_txo_block_number_tx_number_output_index_from_combined_index i
      ≡ ((i / 2 ^ 25) % 2 ^ 28, (i / 2 ^ 12) % 2 ^ 13, i % 2 ^ 12)
unfolding get_txo_block_number_tx_number_output_index_from_combined_index
unpacked i =
    let b : bit_and (i / 2 ^ 25) (2 ^ 28 - 1) % 2 ^ 32 ≡ (i / 2 ^ 25) % 2 ^ 28 =
      rw (bit_and_mask 28 (i / 2 ^ 25)) (omega arith) in
    let t : bit_and (i / 2 ^ 12) (2 ^ 13 - 1) % 2 ^ 16 ≡ (i / 2 ^ 12) % 2 ^ 13 =
      rw (bit_and_mask 13 (i / 2 ^ 12)) (omega arith) in
    let o : bit_and i (2 ^ 12 - 1) % 2 ^ 16 ≡ i % 2 ^ 12 = rw (bit_and_mask 12 i) (omega arith) in
    rw (b, t, o)

-- The fields of a combined index are read back.
combined_index_unpacks :
    (b t o : ℕ)
    → b < 2 ^ 28
    → t < 2 ^ 13
    → o < 2 ^ 12
    → get_txo_block_number_tx_number_output_index_from_combined_index (get_txo_combined_index b t o)
      ≡ (b, t, o)
combined_index_unpacks b t o b_lt t_lt o_lt =
    let n = (b * 2 ^ 13 + t) * 2 ^ 12 + o in
    let eb : (n / 2 ^ 25) % 2 ^ 28 ≡ b = omega arith in
    let et : (n / 2 ^ 12) % 2 ^ 13 ≡ t = omega arith in
    let eo : n % 2 ^ 12 ≡ o = omega arith in
    rw (get_txo_combined_index_lem b t o (omega arith) t_lt o_lt, unpacked n, eb, et, eo)

combined_mask : (i : ℕ) → is_valid_txo_combined_index i ≡ (i % 2 ^ 53 == i)
unfolding is_valid_txo_combined_index
combined_mask i = ap (λ k. k == i) (bit_and_mask 53 i)

pub is_valid_txo_combined_index_iff :
    (i : ℕ) → (is_valid_txo_combined_index i ≡ true) ↔ (i < 2 ^ 53)
is_valid_txo_combined_index_iff i = rw (combined_mask i) (ground arith)

-- A valid combined index is made again from the fields that are read from it.
combined_index_packs :
    (i : ℕ)
    → is_valid_txo_combined_index i ≡ true
    → let (b, t, o) = get_txo_block_number_tx_number_output_index_from_combined_index i in
      get_txo_combined_index b t o ≡ i
combined_index_packs i valid =
    let bound : i < 2 ^ 53 = (is_valid_txo_combined_index_iff i).0 valid in
    rw (unpacked i) (
      get_txo_combined_index_lem ((i / 2 ^ 25) % 2 ^ 28) ((i / 2 ^ 12) % 2 ^ 13) (i % 2 ^ 12)
        (omega arith) (omega arith) (omega arith)
      ∙ omega arith)

-- Block, transaction and output number that fit their fields are read back from the combined index
-- that is made of them, and a valid combined index is made again from what is read of it.
pub combined_index_round_trip :
    (b t o i : ℕ)
    → b < 2 ^ 28
    → t < 2 ^ 13
    → o < 2 ^ 12
    → is_valid_txo_combined_index i ≡ true
    → let (b', t', o') = get_txo_block_number_tx_number_output_index_from_combined_index i in
      (get_txo_block_number_tx_number_output_index_from_combined_index
          (get_txo_combined_index b t o)
        ≡ (b, t, o))
      × (get_txo_combined_index b' t' o' ≡ i)
combined_index_round_trip b t o i b_lt t_lt o_lt valid =
    (combined_index_unpacks b t o b_lt t_lt o_lt, combined_index_packs i valid)
