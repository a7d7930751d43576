-- ===== src/Bridge/Core/RequestLeaf.antt =====
-- The leaf of a request for a withdrawal: `to_leaf` and `from_leaf` of withdrawal.rs.
use psy_doge_solana_bridge.Prelude.{
  ℕ, ◌^◌, ◌<◌, ◌≡◌, refl, ap, ◌∙◌, List, [], ◌∷◌, ◌++◌, arith, length, take, drop, drop_twice,
  length-append, zero, suc,
}
use psy_doge_solana_bridge.Bytes.{to_le_bytes, from_le_bytes}
use psy_doge_solana_bridge.Bytes.Laws.{
  length-to_le_bytes, from_le_bytes-to_le_bytes, take-append_length, drop-append_length,
}
use psy_doge_solana_bridge.Bridge.{PsyWithdrawalRequest, to_leaf, from_leaf}

take_all : (n : ℕ) (xs : List ℕ) → length xs ≡ n → take n xs ≡ xs
take_all zero [] h = refl
take_all zero (x ∷ xs) h = absurd (omega arith)
take_all (suc n) [] h = refl
take_all (suc n) (x ∷ xs) h = ap (λ t. x ∷ t) (take_all n xs (omega arith))

-- A request is read back from its leaf, which has 32 bytes.
pub leaf_round_trip :
    (r : PsyWithdrawalRequest)
    → r.amount_sats < 2 ^ 64
    → r.address_type < 2 ^ 32
    → length r.recipient_address ≡ 20
    → (from_leaf (to_leaf r) ≡ r) × (length (to_leaf r) ≡ 32)
unfolding from_leaf to_leaf to_le_bytes
leaf_round_trip r amount_lt type_lt address =
    let amount_bytes = to_le_bytes 8 r.amount_sats in
    let type_bytes = to_le_bytes 4 r.address_type in
    let address_bytes = r.recipient_address in
    let amount_len : length amount_bytes ≡ 8 = length-to_le_bytes 8 r.amount_sats in
    let type_len : length type_bytes ≡ 4 = length-to_le_bytes 4 r.address_type in
    let whole : length (amount_bytes ++ type_bytes ++ address_bytes) ≡ 32 = omega (
      arith,
      length-append amount_bytes (type_bytes ++ address_bytes),
      length-append type_bytes address_bytes,
      amount_len,
      type_len,
      address,
    ) in
    let first : take 8 (amount_bytes ++ type_bytes ++ address_bytes) ≡ amount_bytes =
      take-append_length 8 amount_bytes (type_bytes ++ address_bytes) amount_len in
    let second : take 4 (drop 8 (amount_bytes ++ type_bytes ++ address_bytes)) ≡ type_bytes =
      ap (take 4) (drop-append_length 8 amount_bytes (type_bytes ++ address_bytes) amount_len)
      ∙ take-append_length 4 type_bytes address_bytes type_len in
    let third : take 20 (drop 12 (amount_bytes ++ type_bytes ++ address_bytes)) ≡ address_bytes =
      ap (take 20) (
        drop_twice 8 4 (amount_bytes ++ type_bytes ++ address_bytes)
        ∙ ap (drop 4) (drop-append_length 8 amount_bytes (type_bytes ++ address_bytes) amount_len)
        ∙ drop-append_length 4 type_bytes address_bytes type_len)
      ∙ take_all 20 address_bytes address in
    (
      λ i. record {
        amount_sats =
            (ap from_le_bytes first ∙ from_le_bytes-to_le_bytes 8 r.amount_sats amount_lt) i;
        address_type =
            (ap from_le_bytes second ∙ from_le_bytes-to_le_bytes 4 r.address_type type_lt) i;
        recipient_address = third i;
      },
      whole,
    )
