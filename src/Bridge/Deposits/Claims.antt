-- ===== src/Bridge/Deposits/Claims.antt =====
-- What an accepted claim of a deposit shows.
use psy_doge_solana_bridge.Prelude.{
  ℕ, ◌+◌, ◌%◌, ◌^◌, ◌<◌, ◌≤◌, ◌≡◌, ◌≢◌, ◌⊎◌, refl, ap, sym, ◌∙◌, subst, inl, inr, ◌||◌, some, List,
  [], ◌∷◌, ◌++◌, length, ltb, ◌==◌, if◌then◌else◌, arith, Bool-cases, Option-cases, get_elem?, zero,
  suc,
}
use psy_doge_solana_bridge.Errors.{
  ok, err, auto_claimed_deposit_tree_root_not_recent_enough,
  block_merkle_tree_root_not_recent_enough, insufficient_bridge_fees,
}
use psy_doge_solana_bridge.Bytes.{Hash, bytes_eq}
use psy_doge_solana_bridge.Bytes.Laws.{bytes_eq→eq}
use psy_doge_solana_bridge.Merkle.{IsZeroTable}
use psy_doge_solana_bridge.AppendTree.{append, tree_height}
use psy_doge_solana_bridge.AppendTree.Holds.{Holds, append-Holds}
use psy_doge_solana_bridge.Fees.{FeeResult, calcuate_deposit_fee}
use psy_doge_solana_bridge.Fees.Exact.{deposit_fees_split}
use psy_doge_solana_bridge.Txo.{get_txo_block_number_tx_number_output_index_from_combined_index}
use psy_doge_solana_bridge.Bridge.{
  Crypto, sha256_hasher, PsyBridgeProgramState, PsyBridgeStateCommitment,
}
use psy_doge_solana_bridge.Bridge.Inputs.{hash_deposit_leaf}
use psy_doge_solana_bridge.Bridge.Deposits.{
  invalid_block_height, find_recent_loop,
  find_recent_auto_claim_txo_tree_root_and_block_merkle_root, process_manual_claimed_deposit,
}

-- Blocks that are finalized: the one of the header, or one of the recent ones.
abbrev pub IsRecent : PsyBridgeStateCommitment → PsyBridgeProgramState → Type 0
IsRecent block s =
    (block ≡ s.bridge_header.finalized_state)
    ⊎ ((i : ℕ) × (get_elem? s.recent_finalized_blocks i ≡ some block))

loop_finds :
    (root : Hash) (blocks : List PsyBridgeStateCommitment)
    → ((find_recent_loop root blocks).0 ≢ invalid_block_height)
    → (block : PsyBridgeStateCommitment) × ((i : ℕ) × (get_elem? blocks i ≡ some block))
      × (block.auto_claimed_deposits_tree_root ≡ root)
      × (find_recent_loop root blocks ≡ (block.block_height, block.block_merkle_tree_root))
unfolding find_recent_loop
loop_finds root [] found = absurd (found refl)
loop_finds root (block ∷ blocks) found =
    elim (Bool-cases (bytes_eq block.auto_claimed_deposits_tree_root root)) [
      | inl same ↦ (
        block,
        (zero, refl),
        bytes_eq→eq block.auto_claimed_deposits_tree_root root same,
        rw same,
      )
      | inr other ↦
          let later =
            subst
              (λ b.
                (if b
                  then (block.block_height, block.block_merkle_tree_root)
                  else find_recent_loop root blocks).0
                ≢ invalid_block_height)
              other found in
          let (b, (i, at), rooted, result) = loop_finds root blocks later in
          (b, (suc i, at), rooted, rw other result)
    ]

find_recent_lem :
    (root : Hash) (s : PsyBridgeProgramState)
    → ((find_recent_auto_claim_txo_tree_root_and_block_merkle_root root s).0 ≢ invalid_block_height)
    → (block : PsyBridgeStateCommitment) × IsRecent block s
      × (block.auto_claimed_deposits_tree_root ≡ root)
      × (find_recent_auto_claim_txo_tree_root_and_block_merkle_root root s
          ≡ (block.block_height, block.block_merkle_tree_root))
unfolding find_recent_auto_claim_txo_tree_root_and_block_merkle_root
find_recent_lem root s found =
    let block = s.bridge_header.finalized_state in
    elim (Bool-cases (bytes_eq block.auto_claimed_deposits_tree_root root)) [
      | inl same ↦
          (block, inl refl, bytes_eq→eq block.auto_claimed_deposits_tree_root root same, rw same)
      | inr other ↦
          let later =
            subst
              (λ b.
                (if b
                  then (block.block_height, block.block_merkle_tree_root)
                  else find_recent_loop root s.recent_finalized_blocks).0
                ≢ invalid_block_height)
              other found in
          let (b, at, rooted, result) = loop_finds root s.recent_finalized_blocks later in
          (b, inr at, rooted, rw other result)
    ]

module _ (c : Crypto) where
  -- The state after a claim that is accepted with these fees.
  abbrev deposited : Hash → ℕ → List ℕ → FeeResult → PsyBridgeProgramState → PsyBridgeProgramState
  deposited tx_hash index ata r s = record s {
    total_manual_deposit_fees_sats = (s.total_manual_deposit_fees_sats + r.fees_generated) % 2 ^ 64;
    manual_deposits_tree =
        append (sha256_hasher c) (hash_deposit_leaf c tx_hash index ata r.amount_after_fees)
          s.manual_deposits_tree;
  }

  accepted_claim :
      (tx_hash merkle_root claim_root : Hash) (index : ℕ) (ata : List ℕ) (amount minted : ℕ)
      (s : PsyBridgeProgramState)
      → (process_manual_claimed_deposit c tx_hash merkle_root claim_root index ata amount s).0
        ≡ ok minted
      → let (height, root) =
          find_recent_auto_claim_txo_tree_root_and_block_merkle_root claim_root s in
        (height ≢ invalid_block_height)
        × ((get_txo_block_number_tx_number_output_index_from_combined_index index).0 ≤ height)
        × (root ≡ merkle_root)
        × ((r : FeeResult) × (calcuate_deposit_fee amount s.config_params.deposit_flat_fee_sats
                s.config_params.deposit_fee_rate_numerator
                s.config_params.deposit_fee_rate_denominator
              ≡ some r)
            × (0 < r.fees_generated)
            × (0 < r.amount_after_fees)
            × (minted ≡ r.amount_after_fees)
            × ((process_manual_claimed_deposit c tx_hash merkle_root claim_root index ata amount
                  s).1
                ≡ deposited tx_hash index ata r s))
  unfolding process_manual_claimed_deposit
  accepted_claim tx_hash merkle_root claim_root index ata amount minted s accepted =
      let found = find_recent_auto_claim_txo_tree_root_and_block_merkle_root claim_root s in
      let block = (get_txo_block_number_tx_number_output_index_from_combined_index index).0 in
      let call =
        process_manual_claimed_deposit c tx_hash merkle_root claim_root index ata amount s in
      let computed =
        calcuate_deposit_fee amount s.config_params.deposit_flat_fee_sats
          s.config_params.deposit_fee_rate_numerator s.config_params.deposit_fee_rate_denominator in
      elim (Bool-cases (found.0 == invalid_block_height || ltb found.0 block)) [
        | inl old ↦
            let refused : call.0 ≡ err auto_claimed_deposit_tree_root_not_recent_enough =
              rw (process_manual_claimed_deposit, old) in
            absurd (cc (refused, accepted))
        | inr recent ↦ elim (Bool-cases (bytes_eq found.1 merkle_root)) [
          | inr other ↦
              let refused : call.0 ≡ err block_merkle_tree_root_not_recent_enough =
                rw (process_manual_claimed_deposit, recent, other) in
              absurd (cc (refused, accepted))
          | inl same ↦ elim (Option-cases computed) [
            | inl failed ↦
                let refused : call.0 ≡ err insufficient_bridge_fees =
                  rw (process_manual_claimed_deposit, recent, same, failed) in
                absurd (cc (refused, accepted))
            | inr (r, fees) ↦
                elim (Bool-cases (r.fees_generated == 0 || r.amount_after_fees == 0)) [
                  | inl bad ↦
                      let refused : call.0 ≡ err insufficient_bridge_fees =
                        rw (process_manual_claimed_deposit, recent, same, fees, bad) in
                      absurd (cc (refused, accepted))
                  | inr good ↦
                      let done : call ≡ (ok r.amount_after_fees, deposited tx_hash index ata r s) =
                        rw (process_manual_claimed_deposit, recent, same, fees, good) in
                      let minted_rest : minted ≡ r.amount_after_fees = cc (accepted, done) in
                      (
                        (λ e. absurd (ground (arith, recent, e))),
                        ground (arith, recent),
                        bytes_eq→eq found.1 merkle_root same,
                        (
                          r,
                          fees,
                          ground (arith, good),
                          ground (arith, good),
                          minted_rest,
                          ap (λ p. p.1) done,
                        ),
                      )
                ]
          ]
        ]
      ]

  -- A deposit is minted only for a transaction in a block that is not later than a finalized block,
  -- the one of the header or a recent one, which has the two roots that the caller names. The amount
  -- splits into a fee and what is minted, neither zero, and exactly the leaf of the deposit is
  -- appended.
  pub deposit_needs_finalized_block :
      (tx_hash merkle_root claim_root : Hash) (index : ℕ) (ata : List ℕ) (amount minted : ℕ)
      (s : PsyBridgeProgramState) (xs : List Hash)
      → IsZeroTable (sha256_hasher c)
      → amount < 2 ^ 64
      → s.config_params.deposit_flat_fee_sats < 2 ^ 64
      → s.config_params.deposit_fee_rate_numerator < 2 ^ 64
      → length xs < 2 ^ tree_height
      → Holds (sha256_hasher c) s.manual_deposits_tree xs
      → (process_manual_claimed_deposit c tx_hash merkle_root claim_root index ata amount s).0
        ≡ ok minted
      → let after =
          (process_manual_claimed_deposit c tx_hash merkle_root claim_root index ata amount s).1 in
        ((block : PsyBridgeStateCommitment) × IsRecent block s
          × (block.auto_claimed_deposits_tree_root ≡ claim_root)
          × (block.block_merkle_tree_root ≡ merkle_root)
          × ((get_txo_block_number_tx_number_output_index_from_combined_index index).0
              ≤ block.block_height))
        × ((fee : ℕ) × (fee + minted ≡ amount)
            × (0 < fee)
            × (0 < minted)
            × (after.total_manual_deposit_fees_sats
                ≡ (s.total_manual_deposit_fees_sats + fee) % 2 ^ 64))
        × Holds
            (sha256_hasher c)
            after.manual_deposits_tree
            (xs ++ hash_deposit_leaf c tx_hash index ata minted ∷ [])
  deposit_needs_finalized_block tx_hash merkle_root claim_root index ata amount minted s xs table
        amount_lt flat_lt rate_lt room h accepted =
      let (valid, not_later, rooted, (r, fees, some_fee, some_rest, rest, made)) =
        accepted_claim tx_hash merkle_root claim_root index ata amount minted s accepted in
      let (block, recent, claimed, result) = find_recent_lem claim_root s valid in
      let (split, _, _) = (deposit_fees_split amount _ _ _ amount_lt flat_lt rate_lt).1 r fees in
      (
        (
          block,
          recent,
          claimed,
          ap (λ p. p.1) (sym result) ∙ rooted,
          subst (λ k. (get_txo_block_number_tx_number_output_index_from_combined_index index).0 ≤ k)
              (ap (λ p. p.0) result) not_later,
        ),
        rw (rest, made) (r.fees_generated, split, some_fee, some_rest, refl),
        rw (rest, made) (append-Holds (sha256_hasher c) table s.manual_deposits_tree xs _ room h),
      )
