-- ===== src/Bridge/Core/Withdrawals.antt =====
-- Requests for withdrawals, and withdrawals that are sent: program_state/core.rs and
-- proc_withdrawal.rs.
use psy_doge_solana_bridge.Prelude.{
  ℕ, ◌+◌, ◌%◌, ◌^◌, ◌<◌, ◌≡◌, ◌≢◌, ◌⊎◌, refl, ap, sym, ◌∙◌, subst, inl, inr, true, false, ◌||◌,
  List, [], ◌∷◌, ◌++◌, ◌==◌, arith, Bool-cases, length, some, Option-cases,
}
use psy_doge_solana_bridge.Errors.{Result, ok}
use psy_doge_solana_bridge.Bytes.{Hash, bytes_eq}
use psy_doge_solana_bridge.Bytes.Laws.{bytes_eq_iff, bytes_eq→eq}
use psy_doge_solana_bridge.Fees.{FeeResult, calcuate_withdrawal_fee}
use psy_doge_solana_bridge.Fees.Exact.{fees_split}
use psy_doge_solana_bridge.Merkle.{IsZeroTable}
use psy_doge_solana_bridge.AppendTree.{tree_height, append}
use psy_doge_solana_bridge.AppendTree.Holds.{Holds, append-Holds}
use psy_doge_solana_bridge.Bridge.{
  Crypto, sha256_hasher, PsyBridgeProgramState, PsyReturnTxOutput, PsyWithdrawalRequest, to_leaf,
}
use psy_doge_solana_bridge.Bridge.Core.{
  process_request_withdrawal, request_withdrawal, run_process_bridge_withdrawal,
  update_for_withdrawal, get_expected_public_inputs_for_withdrawal_proof,
}

module _ (c : Crypto) where
  -- The state after a request that is accepted with these fees.
  abbrev requested : ℕ → List ℕ → ℕ → FeeResult → PsyBridgeProgramState → PsyBridgeProgramState
  requested address_type address amount r s = record s {
    total_withdrawal_fees_sats = (s.total_withdrawal_fees_sats + r.fees_generated) % 2 ^ 64;
    requested_withdrawals_tree =
        append (sha256_hasher c)
          (to_leaf (record {
            amount_sats = r.amount_after_fees;
            address_type = address_type;
            recipient_address = address;
          }))
          s.requested_withdrawals_tree;
    total_requested_withdrawals_sats = (s.total_requested_withdrawals_sats + amount) % 2 ^ 64;
  }

  accepted_request :
      (s after : PsyBridgeProgramState) (address_type : ℕ) (address : List ℕ) (amount : ℕ)
      → process_request_withdrawal c address_type address amount s ≡ (true, after)
      → (r : FeeResult) × (calcuate_withdrawal_fee amount s.config_params.withdrawal_flat_fee_sats
            s.config_params.withdrawal_fee_rate_numerator
            s.config_params.withdrawal_fee_rate_denominator
          ≡ some r)
        × (0 < r.fees_generated)
        × (0 < r.amount_after_fees)
        × (after ≡ requested address_type address amount r s)
  unfolding process_request_withdrawal
  accepted_request s after address_type address amount accepted =
      let computed =
        calcuate_withdrawal_fee amount s.config_params.withdrawal_flat_fee_sats
          s.config_params.withdrawal_fee_rate_numerator
          s.config_params.withdrawal_fee_rate_denominator in
      elim (Option-cases computed) [
        | inl failed ↦
            let refused : process_request_withdrawal c address_type address amount s ≡ (false, s) =
              rw (process_request_withdrawal, failed) in
            absurd (cc (refused, accepted))
        | inr (r, found) ↦ elim (Bool-cases (r.fees_generated == 0 || r.amount_after_fees == 0)) [
          | inl bad ↦
              let refused : process_request_withdrawal c address_type address amount s
                  ≡ (false, s) =
                rw (process_request_withdrawal, found, bad) in
              absurd (cc (refused, accepted))
          | inr good ↦
              let done : process_request_withdrawal c address_type address amount s
                  ≡ (true, requested address_type address amount r s) =
                rw (process_request_withdrawal, found, good) in
              (
                r,
                found,
                ground (arith, good),
                ground (arith, good),
                ap (λ p. p.1) (sym accepted ∙ done),
              )
        ]
      ]

  burned_request :
      (burn_from : List ℕ → ℕ → Result (Unit {0})) (requester : List ℕ)
      (request : PsyWithdrawalRequest) (s after : PsyBridgeProgramState)
      → request_withdrawal c burn_from requester request s ≡ (ok tt, after)
      → (process_request_withdrawal c request.address_type request.recipient_address
            request.amount_sats s
          ≡ (true, after))
        × (burn_from requester request.amount_sats ≡ ok tt)
  unfolding request_withdrawal
  burned_request burn_from requester request s after done =
      let (accepted, state) =
        process_request_withdrawal c request.address_type request.recipient_address
          request.amount_sats s in
      elim (Bool-cases accepted) [
        | inr refused ↦ absurd (cc (rw refused at done))
        | inl taken ↦
            let passed = rw taken at done in
            (ap (λ b. (b, state)) taken ∙ ap (λ r. (true, r.1)) passed, ap (λ r. r.0) passed)
      ]

  -- A request that is accepted: the burn of its whole amount, in the name of the one who asks, has
  -- succeeded, and the amount splits into a fee and what the recipient gets,
  -- neither of them zero; exactly the leaf of the request over the rest is appended, the fee is
  -- added to the fees and the amount to the requests.
  pub request_splits_the_amount :
      (burn_from : List ℕ → ℕ → Result (Unit {0})) (requester : List ℕ)
      (request : PsyWithdrawalRequest) (s after : PsyBridgeProgramState) (xs : List Hash)
      → IsZeroTable (sha256_hasher c)
      → request.amount_sats < 2 ^ 64
      → s.config_params.withdrawal_flat_fee_sats < 2 ^ 64
      → s.config_params.withdrawal_fee_rate_numerator < 2 ^ 64
      → length xs < 2 ^ tree_height
      → Holds (sha256_hasher c) s.requested_withdrawals_tree xs
      → request_withdrawal c burn_from requester request s ≡ (ok tt, after)
      → (fee : ℕ) × (rest : ℕ) × (burn_from requester request.amount_sats ≡ ok tt)
        × (fee + rest ≡ request.amount_sats)
        × (0 < fee)
        × (0 < rest)
        × Holds
            (sha256_hasher c)
            after.requested_withdrawals_tree
            (xs ++ to_leaf (record request { amount_sats = rest }) ∷ [])
        × (after.total_withdrawal_fees_sats ≡ (s.total_withdrawal_fees_sats + fee) % 2 ^ 64)
        × (after.total_requested_withdrawals_sats
            ≡ (s.total_requested_withdrawals_sats + request.amount_sats) % 2 ^ 64)
  request_splits_the_amount burn_from requester request s after xs table amount_lt flat_lt rate_lt
        room h done =
      let (accepted, burned) = burned_request burn_from requester request s after done in
      let (r, found, some_fee, some_rest, made) =
        accepted_request s after request.address_type request.recipient_address request.amount_sats
          accepted in
      let (split, _, _) =
        (fees_split request.amount_sats _ _ _ amount_lt flat_lt rate_lt).1 r found in
      rw made (
        r.fees_generated,
        r.amount_after_fees,
        burned,
        split,
        some_fee,
        some_rest,
        append-Holds (sha256_hasher c) table s.requested_withdrawals_tree xs _ room h,
        refl,
        refl,
      )

  -- A withdrawal is processed exactly if the transaction hashes to the sighash of the new output and
  -- the proof verifies against inputs made from the state; then the output, the root and the index
  -- are replaced and the hash of the transaction is appended to the sent transactions. Otherwise the
  -- call fails and changes nothing.
  pub withdrawal_needs_hash_and_proof :
      (proof vk tx : List ℕ) (output : PsyReturnTxOutput) (root : Hash) (next : ℕ)
      (s : PsyBridgeProgramState) (xs : List Hash)
      → IsZeroTable (sha256_hasher c)
      → length xs < 2 ^ tree_height
      → Holds (sha256_hasher c) s.sent_transactions_tree xs
      → let (result, after) = run_process_bridge_withdrawal c proof vk tx output root next s in
        ((c.sha256 tx ≡ output.sighash)
          × (c.verify_compact_zkp_slice proof vk
                (get_expected_public_inputs_for_withdrawal_proof c output root next s)
              ≡ true)
          × (result ≡ ok (c.sha256 tx))
          × Holds (sha256_hasher c) after.sent_transactions_tree (xs ++ c.sha256 tx ∷ [])
          × (after.last_return_output ≡ output)
          × (after.spent_txo_tree_root ≡ root)
          × (after.next_processed_withdrawals_index ≡ next))
        ⊎ (((c.sha256 tx ≢ output.sighash)
              ⊎ (c.verify_compact_zkp_slice proof vk
                    (get_expected_public_inputs_for_withdrawal_proof c output root next s)
                  ≡ false))
            × ((hash : Hash) → result ≢ ok hash)
            × (after ≡ s))
  unfolding run_process_bridge_withdrawal update_for_withdrawal
  withdrawal_needs_hash_and_proof proof vk tx output root next s xs table room h =
      elim (Bool-cases (bytes_eq (c.sha256 tx) output.sighash)) [
        | inr other ↦
            let apart : c.sha256 tx ≢ output.sighash = λ e.
              let same = (bytes_eq_iff (c.sha256 tx) output.sighash).1 e in
              absurd (cc (same, other)) in
            rw other (inr (inl apart, (λ hash e. absurd (cc e)), refl))
        | inl same ↦
            let hashed = bytes_eq→eq (c.sha256 tx) output.sighash same in
            elim (Bool-cases (
              c.verify_compact_zkp_slice proof vk
                (get_expected_public_inputs_for_withdrawal_proof c output root next s))) [
                  | inr unproved ↦
                      rw (same, unproved) (inr (inr refl, (λ hash e. absurd (cc e)), refl))
                  | inl proved ↦
                      rw (same, proved)
                        (inl (
                          hashed,
                          refl,
                          refl,
                          subst
                              (λ v.
                                Holds (sha256_hasher c)
                                  (append (sha256_hasher c) output.sighash s.sent_transactions_tree)
                                  (xs ++ v ∷ []))
                              (sym hashed)
                              (append-Holds (sha256_hasher c) table s.sent_transactions_tree xs
                                output.sighash room h),
                          refl,
                          refl,
                          refl,
                        ))
                ]
      ]
