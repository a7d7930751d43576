-- ===== src/Errors.antt =====
-- Results of the Rust code: `QDogeResult`, with a third case for a panic (an index out of range, a
-- failed assertion), and calls on `&mut self` as state passing. An error keeps the state as it was
-- left: what discards it is the runtime, which rolls the accounts of a failed instruction back.
use psy_doge_solana_bridge.Prelude.{Bool, true, false, ◌≡◌, ◌⊎◌, inl, inr, refl}

-- `DogeBridgeError` of libraries/psy-bridge-core/src/error.rs.
pub data DogeBridgeError : Type 0 where
  deserialization_error : DogeBridgeError
  serialization_error : DogeBridgeError
  invalid_program_owner : DogeBridgeError
  invalid_pda : DogeBridgeError
  expected_empty_account : DogeBridgeError
  expected_non_empty_account : DogeBridgeError
  expected_signer_account : DogeBridgeError
  expected_writable_account : DogeBridgeError
  account_mismatch : DogeBridgeError
  invalid_account_key : DogeBridgeError
  numerical_overflow : DogeBridgeError
  unknown_error : DogeBridgeError
  aux_pow_version_bits_mismatch : DogeBridgeError
  aux_pow_chain_id_mismatch : DogeBridgeError
  difficutly_bits_mismatch : DogeBridgeError
  standard_po_w_check_failed : DogeBridgeError
  aux_pow_parent_block_po_w_check_failed : DogeBridgeError
  aux_pow_coin_base_branch_side_mask_non_zero : DogeBridgeError
  aux_pow_chain_merkle_branch_too_long : DogeBridgeError
  aux_pow_parent_has_our_chain_id : DogeBridgeError
  incorrect_aux_pow_merkle_root : DogeBridgeError
  aux_pow_coinbase_no_inputs : DogeBridgeError
  aux_pow_coinbase_missing_chain_merkle_root : DogeBridgeError
  merged_mining_header_found_twice_in_coinbase : DogeBridgeError
  merged_mining_header_not_found_at_coinbase_script_start : DogeBridgeError
  aux_pow_chain_merkle_root_too_late_in_coinbase_input_script : DogeBridgeError
  aux_pow_coinbase_transaction_input_script_too_short : DogeBridgeError
  aux_pow_coinbase_script_invalid_n_size : DogeBridgeError
  aux_pow_coinbase_script_invalid_side_mask : DogeBridgeError
  block_not_in_cache : DogeBridgeError
  attempted_to_modifiy_finalized_block : DogeBridgeError
  insufficient_blocks_provided_for_rollback : DogeBridgeError
  insert_block_already_in_cache : DogeBridgeError
  insert_block_not_at_tip : DogeBridgeError
  invalid_parent_block_hash : DogeBridgeError
  aux_pow_missing : DogeBridgeError
  aux_pow_not_expected : DogeBridgeError
  block_tip_sync_mismatch : DogeBridgeError
  rollback_block_tree_root_mismatch : DogeBridgeError
  rollback_block_tree_index_mismatch : DogeBridgeError
  revert_index_too_high : DogeBridgeError
  not_enough_changed_left_siblings : DogeBridgeError
  revert_index_not_prefix : DogeBridgeError
  too_many_changed_left_siblings : DogeBridgeError
  bridge_zkp_error : DogeBridgeError
  invalid_bridge_input_zkp : DogeBridgeError
  invalid_verifier_key_for_bridge_zkp : DogeBridgeError
  invalid_public_inputs_for_bridge_zkp : DogeBridgeError
  no_fees_to_send_to_fee_collector : DogeBridgeError
  attempted_rollback_of_finalized_block : DogeBridgeError
  bit_list_buffer_too_small : DogeBridgeError
  bit_list_hash_mismatch : DogeBridgeError
  bit_list_empty : DogeBridgeError
  auto_process_mint_hash_mismatch : DogeBridgeError
  auto_process_mint_hash_not_empty : DogeBridgeError
  deposit_already_processed : DogeBridgeError
  auto_claimed_deposit_tree_root_not_recent_enough : DogeBridgeError
  block_merkle_tree_root_not_recent_enough : DogeBridgeError
  insufficient_bridge_fees : DogeBridgeError
  processed_withdrawals_tree_root_mismatch : DogeBridgeError
  pending_finalized_block_mints_not_empty : DogeBridgeError
  no_pending_mints_to_process : DogeBridgeError
  pending_mints_group_index_out_of_bounds : DogeBridgeError
  pending_mints_group_already_processed : DogeBridgeError
  pending_finalized_block_mints_invalid_group_count : DogeBridgeError
  pending_finalized_block_mints_invalid_auto_claim_mints_data : DogeBridgeError
  program_state_not_ready_for_block_update : DogeBridgeError
  invalid_zk_proof_size : DogeBridgeError
  invalid_zk_verifier_key_size : DogeBridgeError
  invalid_block_height_for_single_block_transition : DogeBridgeError
  invalid_auto_claimed_deposits_next_index : DogeBridgeError
  invalid_mint_buffer_pda_program : DogeBridgeError
  invalid_mint_buffer_header_group_count_or_deposits_count : DogeBridgeError
  invalid_auto_claim_mint_buffer_data_account_size : DogeBridgeError
  invalid_mint_buffer_locking_permission : DogeBridgeError
  invalid_mint_buffer_pending_mint_groups_count : DogeBridgeError
  invalid_mint_buffer_pending_mints_count : DogeBridgeError
  too_many_new_auto_claimed_deposits : DogeBridgeError
  invalid_pending_mints_buffer_hash : DogeBridgeError
  invalid_auto_claim_txo_buffer_data_account_size : DogeBridgeError
  invalid_auto_claim_txo_buffer_pending_mints_count : DogeBridgeError
  invalid_auto_claim_txo_buffer_hash : DogeBridgeError
  invalid_block_height_for_reorg_transition : DogeBridgeError
  invalid_extra_finalized_blocks_length_for_reorg : DogeBridgeError
  invalid_pending_mints_count_for_transition : DogeBridgeError
  no_pending_mints_to_auto_process : DogeBridgeError
  remaining_pending_mints_in_previous_state : DogeBridgeError
  invalid_withdrawal_amount : DogeBridgeError
  insufficient_bridge_balance_for_withdrawal : DogeBridgeError
  no_operator_fees_to_withdraw : DogeBridgeError
  invalid_pda_for_manual_deposit_manager : DogeBridgeError
  cpi_lock_call_error : DogeBridgeError
  cpi_unlock_call_error : DogeBridgeError
  cpi_send_signature_request_call_error : DogeBridgeError
  cpi_create_generic_buffer_call_error : DogeBridgeError
  cpi_close_generic_buffer_call_error : DogeBridgeError
  cpi_create_pending_mint_buffer_call_error : DogeBridgeError
  cpi_create_txo_buffer_call_error : DogeBridgeError
  cpi_close_txo_buffer_call_error : DogeBridgeError
  cpi_token_mint_to_call_error : DogeBridgeError
  cpi_token_burn_call_error : DogeBridgeError
  cpi_manual_deposit_call_error : DogeBridgeError
  attempted_unlock_pending_mint_buffer : DogeBridgeError
  failed_unlock_pending_mint_buffer : DogeBridgeError
  invalid_mint_buffer_pda : DogeBridgeError
  invalid_txo_buffer_pda : DogeBridgeError
  cannot_unlock_after_auto_advance : DogeBridgeError
  invalid_doge_tx_hash : DogeBridgeError

pub data Result {ℓ} (A : Type ℓ) : Type ℓ where
  ok : A → Result A
  err : DogeBridgeError → Result A
  panic : Result A

pub Result-cases :
    {A : Type 0} (r : Result A)
    → ((a : A) × (r ≡ ok a)) ⊎ (((e : DogeBridgeError) × (r ≡ err e)) ⊎ (r ≡ panic))
Result-cases (ok a) = inl (a, refl)
Result-cases (err e) = inr (inl (e, refl))
Result-cases panic = inr (inr refl)

-- A method on `&mut self`.
abbrev pub Action : Type 0 → Type 0 → Type 0
Action S A = S → Result A × S

module _ {S A : Type 0} where
  abbrev pub pure : A → Action S A
  pure a s = (ok a, s)

  abbrev pub fail : DogeBridgeError → Action S A
  fail e s = (err e, s)

  unfoldable pub lift : Result A → Action S A
  lift r s = (r, s)

  abbrev pub gets : (S → A) → Action S A
  gets f s = (ok (f s), s)

infixr 5 ◌>>=◌ ◌>>◌
unfoldable pub ◌>>=◌ : {S A B : Type 0} → Action S A → (A → Action S B) → Action S B
◌>>=◌ m f s = let (r, t) = m s in elim r [ ok a ↦ f a t | err e ↦ (err e, t) | panic ↦ (panic, t) ]

unfoldable pub ◌>>◌ : {S B : Type 0} → Action S (Unit {0}) → Action S B → Action S B
m >> k = m >>= λ _. k

-- `if failed { return Err(e); }`
unfoldable pub fail_if : {S : Type 0} → Bool → DogeBridgeError → Action S (Unit {0})
fail_if true e s = (err e, s)
fail_if false e s = (ok tt, s)

abbrev pub modify : {S : Type 0} → (S → S) → Action S (Unit {0})
modify f s = (ok tt, f s)

-- What a chain of checks that succeeds shows of its first check, and of its first call.
pub fail_if_passes :
    {S B : Type 0} (failed : Bool) (e : DogeBridgeError) (k : Action S B) (s : S) (b : B)
    → ((fail_if failed e >> k) s).0 ≡ ok b
    → (failed ≡ false) × ((fail_if failed e >> k) s ≡ k s) × ((k s).0 ≡ ok b)
unfolding fail_if ◌>>◌ ◌>>=◌
fail_if_passes true e k s b h = absurd (cc h)
fail_if_passes false e k s b h = (refl, refl, h)

pub lift_passes :
    {S A B : Type 0} (r : Result A) (k : A → Action S B) (s : S) (b : B)
    → ((lift r >>= k) s).0 ≡ ok b
    → (a : A) × (r ≡ ok a) × ((lift r >>= k) s ≡ k a s) × ((k a s).0 ≡ ok b)
unfolding lift ◌>>=◌
lift_passes (ok a) k s b h = (a, refl, refl, h)
lift_passes (err e) k s b h = absurd (cc h)
lift_passes panic k s b h = absurd (cc h)

pub then_passes :
    {S B : Type 0} (m : Action S (Unit {0})) (k : Action S B) (s : S) (b : B)
    → ((m >> k) s).0 ≡ ok b
    → ((m s).0 ≡ ok tt) × ((m >> k) s ≡ k (m s).1) × ((k (m s).1).0 ≡ ok b)
unfolding ◌>>◌ ◌>>=◌
then_passes {S = S} {B = B} m k s b h = go (m s) h
  where
    go :
        (r : Result (Unit {0}) × S)
        → (elim r.0 as (λ x. Result B × S) [
          | ok a ↦ k r.1
          | err e ↦ (err e, r.1)
          | panic ↦ (panic, r.1)
        ]).0
          ≡ ok b
        → (r.0 ≡ ok tt)
          × ((elim r.0 as (λ x. Result B × S) [
            | ok a ↦ k r.1
            | err e ↦ (err e, r.1)
            | panic ↦ (panic, r.1)
          ])
              ≡ k r.1)
          × ((k r.1).0 ≡ ok b)
    go (ok a, t) h = (refl, refl, h)
    go (err e, t) h = absurd (cc h)
    go (panic, t) h = absurd (cc h)

-- A check that passes, and a call that returns, are left out.
pub fail_if_skipped :
    {S B : Type 0} (failed : Bool) (e : DogeBridgeError) (k : Action S B) (s : S)
    → failed ≡ false
    → (fail_if failed e >> k) s ≡ k s
unfolding fail_if ◌>>◌ ◌>>=◌
fail_if_skipped true e k s h = absurd (cc h)
fail_if_skipped false e k s h = refl

pub lift_done :
    {S A B : Type 0} (r : Result A) (k : A → Action S B) (s : S) (a : A)
    → r ≡ ok a
    → (lift r >>= k) s ≡ k a s
unfolding lift ◌>>=◌
lift_done r k s a h = rw h

-- A part of the state that a chain keeps.
pub fail_if_keeps :
    {S A B : Type 0} (f : S → A) (failed : Bool) (e : DogeBridgeError) (k : Action S B) (s : S)
    → f (k s).1 ≡ f s
    → f ((fail_if failed e >> k) s).1 ≡ f s
unfolding fail_if ◌>>◌ ◌>>=◌
fail_if_keeps f true e k s kept = refl
fail_if_keeps f false e k s kept = kept

pub lift_keeps :
    {S A B C : Type 0} (f : S → A) (r : Result B) (k : B → Action S C) (s : S)
    → ((b : B) → f (k b s).1 ≡ f s)
    → f ((lift r >>= k) s).1 ≡ f s
unfolding lift ◌>>=◌
lift_keeps f (ok b) k s kept = kept b
lift_keeps f (err e) k s kept = refl
lift_keeps f panic k s kept = refl
