-- ===== src/Bridge/Blocks.antt =====
-- Block updates: program_state/block_update.rs of libraries/psy-doge-solana-core, with the buffers
-- of data_accounts/pending_mint.rs that it reads.
pub mod Transition
pub mod Reorg
use psy_doge_solana_bridge.Prelude.{
  ℕ, zero, suc, ◌+◌, ◌-◌, ◌*◌, ◌/◌, ◌%◌, ◌^◌, Bool, true, false, not, ◌||◌, Option, some, none,
  List, [], ◌∷◌, ◌++◌, length, drop, set, get_or, ltb, leb, ◌==◌, if◌then◌else◌,
}
use psy_doge_solana_bridge.Errors.{
  Result, ok, err, panic, Action, pure, fail, lift, gets, ◌>>=◌, ◌>>◌, fail_if, modify,
  program_state_not_ready_for_block_update, invalid_zk_proof_size, invalid_zk_verifier_key_size,
  invalid_block_height_for_single_block_transition, invalid_auto_claimed_deposits_next_index,
  too_many_new_auto_claimed_deposits, invalid_bridge_input_zkp,
  invalid_auto_claim_mint_buffer_data_account_size, invalid_mint_buffer_locking_permission,
  invalid_mint_buffer_pending_mint_groups_count, invalid_mint_buffer_pending_mints_count,
  invalid_pending_mints_buffer_hash, invalid_pending_mints_count_for_transition,
  invalid_auto_claim_txo_buffer_data_account_size, invalid_auto_claim_txo_buffer_hash,
  invalid_auto_claim_txo_buffer_pending_mints_count,
  invalid_extra_finalized_blocks_length_for_reorg,
}
use psy_doge_solana_bridge.Bytes.{Hash, bytes_eq, from_le_bytes, slice}
use psy_doge_solana_bridge.MintGroups.Groups.{compute_mint_group_info}
use psy_doge_solana_bridge.MintGroups.Manager.{
  FinalizedBlockMintTxoInfo, FinalizedBlockMintTxoManager, info_is_empty, is_empty,
  standard_append_block, pm_da_default_pending_mints_buffer_hash,
}
use psy_doge_solana_bridge.Bridge.{
  Crypto, PsyBridgeProgramState, PsyBridgeHeader, header_bytes, config_bytes,
}
use psy_doge_solana_bridge.Bridge.Inputs.{
  get_block_transition_public_inputs, get_reorg_block_transition_public_inputs,
}

-- `PendingMintsBufferStateHeader`, of 72 bytes, and `PendingMintsTxoBufferHeader`, of 48.
abbrev pub authorized_locker_public_key : List ℕ → List ℕ
authorized_locker_public_key memory = slice 0 32 memory

abbrev pub pending_mint_groups_count : List ℕ → ℕ
pending_mint_groups_count memory = from_le_bytes (slice 66 68 memory)

abbrev pub pending_mints_count : List ℕ → ℕ
pending_mints_count memory = from_le_bytes (slice 70 72 memory)

abbrev pub doge_block_height : List ℕ → ℕ
doge_block_height memory = from_le_bytes (slice 36 40 memory)

abbrev pub data_size : List ℕ → ℕ
data_size memory = from_le_bytes (slice 44 48 memory)

unfoldable pub pm_calculate_data_account_min_size : ℕ → ℕ
pm_calculate_data_account_min_size mints =
    let groups = (mints + 24 - 1) / 24 in 72 + groups * 32 + mints * 40

unfoldable pub pm_txo_data_account_min_size : ℕ → ℕ
pm_txo_data_account_min_size total_pending_mints = 48 + total_pending_mints * 4

-- The index of the first entry that is not empty.
unfoldable pub get_backlog_contains_pending_mints : List FinalizedBlockMintTxoInfo → Option ℕ
get_backlog_contains_pending_mints [] = none
get_backlog_contains_pending_mints (item ∷ items) =
    let rest = get_backlog_contains_pending_mints items in
    if not (info_is_empty item) then some 0 else elim rest [ none ↦ none | some i ↦ some (suc i) ]

unfoldable pub is_ready_for_new_block_update : PsyBridgeProgramState → Bool
is_ready_for_new_block_update s = is_empty s.pending_mint_txos

module _ (c : Crypto) where
  -- The range that is hashed is within the account: its size was checked.
  unfoldable pub ensure_pending_mints_ready_for_transition_inner :
      List ℕ → Hash → List ℕ → Result (Hash × ℕ)
  ensure_pending_mints_ready_for_transition_inner self_bridge_program_pub_key
        expected_pending_mints_buffer_hash memory =
      if ltb (length memory) 72
      then err invalid_auto_claim_mint_buffer_data_account_size
      else if not (bytes_eq (authorized_locker_public_key memory) self_bridge_program_pub_key)
      then err invalid_mint_buffer_locking_permission
      else let mints = pending_mints_count memory in
        let (mint_groups, _) = compute_mint_group_info mints in
        if not (pending_mint_groups_count memory == mint_groups)
        then err invalid_mint_buffer_pending_mint_groups_count
        else if leb 65535 mints || not (pending_mints_count memory == mints)
        then err invalid_mint_buffer_pending_mints_count
        else if ltb (length memory) (pm_calculate_data_account_min_size mints)
        then err invalid_auto_claim_mint_buffer_data_account_size
        else let pending_mints_buffer_hash = c.sha256 (slice 70 (mint_groups * 32 + 72) memory) in
          if not (bytes_eq expected_pending_mints_buffer_hash pending_mints_buffer_hash)
          then err invalid_pending_mints_buffer_hash
          else ok (pending_mints_buffer_hash, mints)

  unfoldable pub ensure_pending_mints_ready_for_transition :
      ℕ → List ℕ → Hash → List ℕ → Result (Hash × Bool)
  ensure_pending_mints_ready_for_transition count self_bridge_program_pub_key
        expected_pending_mints_buffer_hash memory =
      if count == 0
      then ok (pm_da_default_pending_mints_buffer_hash, false)
      else elim (ensure_pending_mints_ready_for_transition_inner self_bridge_program_pub_key
          expected_pending_mints_buffer_hash memory) [
            | err e ↦ err e
            | panic ↦ panic
            | ok (hash, actual) ↦
                if not (actual == count)
                then err invalid_pending_mints_count_for_transition
                else ok (hash, ltb 0 count)
          ]

  -- The public inputs of an update by one block.
  unfoldable pub single_block_inputs : PsyBridgeHeader → PsyBridgeProgramState → Hash
  single_block_inputs new_header s =
      get_block_transition_public_inputs c (c.sha256 (header_bytes s.bridge_header))
        (c.sha256 (header_bytes new_header)) (c.sha256 (config_bytes s.config_params))
        s.custodian_wallet_config_hash

-- A method of the field `pending_mint_txos`.
abbrev pub on_pending_mint_txos :
    {A : Type 0} → Action FinalizedBlockMintTxoManager A → Action PsyBridgeProgramState A
on_pending_mint_txos m s =
    let (result, pending) = m s.pending_mint_txos in
    (result, record s { pending_mint_txos = pending })

-- The assignments at the end of `run_standard_single_block_transition`: the index is below 8.
unfoldable pub finalize_block : PsyBridgeHeader → Action PsyBridgeProgramState (Unit {0})
finalize_block new_header s =
    if leb (length s.recent_finalized_blocks) s.next_recent_finalized_block_index
    then (panic, s)
    else (
      ok tt,
      record s {
        bridge_header = new_header;
        recent_finalized_blocks =
            set s.recent_finalized_blocks s.next_recent_finalized_block_index
              new_header.finalized_state;
        next_recent_finalized_block_index =
            ((s.next_recent_finalized_block_index + 1) % 2 ^ 32) % 8;
      },
    )

module _ (c : Crypto) where
  -- The part of `run_standard_single_block_transition` for a block with new mints.
  unfoldable pub append_new_mints :
      PsyBridgeHeader → Hash → ℕ → List ℕ → List ℕ → Action PsyBridgeProgramState (Unit {0})
  append_new_mints new_header pending_mints_buffer_hash claims storage_account txo_memory =
      let txo_size = pm_txo_data_account_min_size claims in
      let txo_hash = c.sha256 (slice 48 txo_size txo_memory) in
      let (mint_groups, _) = compute_mint_group_info claims in
      fail_if (ltb (length txo_memory) txo_size) invalid_auto_claim_txo_buffer_data_account_size
      >> (fail_if
            (not (doge_block_height txo_memory == new_header.finalized_state.block_height)
              || data_size txo_memory == 0)
            invalid_auto_claim_txo_buffer_pending_mints_count
          >> fail_if
              (not (bytes_eq txo_hash new_header.finalized_state.txo_output_list_finalized_hash))
              invalid_auto_claim_txo_buffer_hash
          >> on_pending_mint_txos (
              standard_append_block new_header.finalized_state.block_height
                (record {
                  pending_mints_finalized_hash = pending_mints_buffer_hash;
                  txo_output_list_finalized_hash = txo_hash;
                }
                  ∷ [])
                storage_account claims mint_groups))

  unfoldable pub run_standard_single_block_transition :
      List ℕ
      → List ℕ
      → PsyBridgeHeader
      → List ℕ
      → List ℕ
      → List ℕ
      → List ℕ
      → Action PsyBridgeProgramState (Unit {0})
  run_standard_single_block_transition proof vk new_header self_bridge_program_pub_key
        mint_buffer_storage_account_pub_key txo_memory mint_memory s =
      let old = s.bridge_header in
      let total_new_auto_claims =
        new_header.finalized_state.auto_claimed_deposits_next_index
        - old.finalized_state.auto_claimed_deposits_next_index in
      let claims = total_new_auto_claims % 2 ^ 16 in
      (fail_if (not (is_ready_for_new_block_update s)) program_state_not_ready_for_block_update
          >> fail_if (not (length proof == 256)) invalid_zk_proof_size
          >> fail_if (not (length vk == 32)) invalid_zk_verifier_key_size
          >> fail_if
              (not (
                new_header.finalized_state.block_height
                == (old.finalized_state.block_height + 1) % 2 ^ 32))
              invalid_block_height_for_single_block_transition
          >> fail_if (leb new_header.tip_state.block_height old.tip_state.block_height)
              invalid_block_height_for_single_block_transition
          >> fail_if
              (ltb new_header.finalized_state.auto_claimed_deposits_next_index
                old.finalized_state.auto_claimed_deposits_next_index)
              invalid_auto_claimed_deposits_next_index
          >> fail_if (ltb 65535 total_new_auto_claims) too_many_new_auto_claimed_deposits
          >> fail_if
              (not (c.verify_compact_zkp_slice proof vk (single_block_inputs c new_header s)))
              invalid_bridge_input_zkp
          >> lift (
              ensure_pending_mints_ready_for_transition c claims self_bridge_program_pub_key
                new_header.finalized_state.pending_mints_finalized_hash mint_memory)
          >>= λ ready.
              fail_if
                (not (bytes_eq ready.0 new_header.finalized_state.pending_mints_finalized_hash))
                invalid_pending_mints_buffer_hash
              >> (if ready.1
                  then append_new_mints new_header ready.0 claims
                      mint_buffer_storage_account_pub_key txo_memory
                  else pure tt)
              >> finalize_block new_header)
        s
