-- ===== src/Examples/Blocks.antt =====
-- Block updates and a claim of mints at concrete inputs.
use psy_doge_solana_bridge.Prelude.{
  ℕ, min, ◌-◌, ◌+◌, ◌*◌, ◌%◌, ◌^◌, ◌<◌, ◌≤◌, ◌≡◌, refl, true, false, List, [], ◌∷◌, length,
  replicate, get_elem?, some, ◌==◌, if◌then◌else◌, arith,
}
use psy_doge_solana_bridge.Errors.{ok, ◌>>◌, ◌>>=◌, fail_if, lift}
use psy_doge_solana_bridge.Bytes.{bytes_eq}
use psy_doge_solana_bridge.MintGroups.{
  tracker_is_empty, get_current_total_pending_mints_groups, ensure_can_claim_pending_mints_group,
  mark_pending_mints_group_claimed,
}
use psy_doge_solana_bridge.MintGroups.Bitmap.{claimed}
use psy_doge_solana_bridge.MintGroups.Groups.{
  mints_before, compute_mint_group_info, mints_count_for_group, get_nth_pending_mint_offset,
}
use psy_doge_solana_bridge.MintGroups.Manager.{
  FinalizedBlockMintTxoManager, FinalizedBlockMintTxoInfo, zero_info,
  pm_da_default_pending_mints_buffer_hash, pm_txo_default_buffer_hash, manager_default, is_empty,
  info_is_empty, manager_mark_pending_mints_group_claimed,
}
use psy_doge_solana_bridge.MintGroups.Manager.Finish.{fresh_tracker, fresh_tracker-Consistent}
use psy_doge_solana_bridge.Bridge.{PsyBridgeProgramState, PsyBridgeHeader, PsyBridgeStateCommitment}
use psy_doge_solana_bridge.Bridge.Core.{initialize}
use psy_doge_solana_bridge.Bridge.Blocks.{
  is_ready_for_new_block_update, run_standard_single_block_transition, single_block_inputs,
  ensure_pending_mints_ready_for_transition, finalize_block, get_backlog_contains_pending_mints,
}
use psy_doge_solana_bridge.Bridge.Blocks.Transition.{accepted_block_is_next}
use psy_doge_solana_bridge.Bridge.Blocks.Reorg.{
  run_block_transition_reorg, reorg_inputs, append_reorg_mints,
}
use psy_doge_solana_bridge.Bridge.Blocks.Reorg.Accepted.{accepted_reorg_advances}
use psy_doge_solana_bridge.Bridge.AutoMint.{run_auto_mint_group_precheck}
use psy_doge_solana_bridge.Bridge.AutoMint.Claim.{claimed_group_is_next_mints}
use psy_doge_solana_bridge.Examples.Requests.{plain, block, header, start}

abbrev proof : List ℕ
proof = replicate 256 0

abbrev key : List ℕ
key = replicate 32 4

-- A block without mints.
abbrev no_mints : ℕ → PsyBridgeStateCommitment
no_mints height = record (block height) {
  pending_mints_finalized_hash = pm_da_default_pending_mints_buffer_hash;
  txo_output_list_finalized_hash = pm_txo_default_buffer_hash;
}

abbrev next : PsyBridgeHeader
next = header (no_mints 51) 61

next_accepted :
    (run_standard_single_block_transition plain proof key next key key [] [] start).0 ≡ ok tt
unfolding run_standard_single_block_transition ◌>>◌ ◌>>=◌ fail_if lift initialize
    is_ready_for_new_block_update is_empty manager_default ensure_pending_mints_ready_for_transition
    finalize_block bytes_eq
next_accepted = refl

accepted_block_is_next_example :
    let after = (run_standard_single_block_transition plain proof key next key key [] [] start).1 in
    let old = start.bridge_header in
    (is_ready_for_new_block_update start ≡ true)
    × (next.finalized_state.block_height ≡ (old.finalized_state.block_height + 1) % 2 ^ 32)
    × (old.tip_state.block_height < next.tip_state.block_height)
    × (old.finalized_state.auto_claimed_deposits_next_index
        ≤ next.finalized_state.auto_claimed_deposits_next_index)
    × (next.finalized_state.auto_claimed_deposits_next_index
        < old.finalized_state.auto_claimed_deposits_next_index + 2 ^ 16)
    × (plain.verify_compact_zkp_slice proof key (single_block_inputs plain next start) ≡ true)
    × (after.bridge_header ≡ next)
    × (get_elem? after.recent_finalized_blocks start.next_recent_finalized_block_index
        ≡ some next.finalized_state)
    × (next.finalized_state.auto_claimed_deposits_next_index
          ≡ old.finalized_state.auto_claimed_deposits_next_index
        → is_ready_for_new_block_update after ≡ true)
accepted_block_is_next_example =
    accepted_block_is_next plain proof key key key [] [] next start next_accepted

-- 30 mints wait in block 50.
abbrev waiting : FinalizedBlockMintTxoManager
waiting = record {
  pending_finalized_info = replicate 8 zero_info;
  pending_finalized_info_current_index = 0;
  pending_finalized_info_total_count = 1;
  start_block_height = 50;
  current_pending_mints_tracker = fresh_tracker key 30;
}

abbrev busy : PsyBridgeProgramState
busy = record start { pending_mint_txos = waiting }

busy_not_ready : is_ready_for_new_block_update busy ≡ false
unfolding is_ready_for_new_block_update is_empty
busy_not_ready = refl

abbrev extra : List FinalizedBlockMintTxoInfo
extra =
    record {
      pending_mints_finalized_hash = pm_da_default_pending_mints_buffer_hash;
      txo_output_list_finalized_hash = pm_txo_default_buffer_hash;
    }
    ∷ []

abbrev two_later : PsyBridgeHeader
two_later = header (no_mints 52) 62

two_later_accepted :
    (run_block_transition_reorg plain proof key two_later extra key key [] [] start).0 ≡ ok tt
unfolding run_block_transition_reorg append_reorg_mints get_backlog_contains_pending_mints
    info_is_empty ◌>>◌ ◌>>=◌ fail_if lift initialize is_ready_for_new_block_update is_empty
    manager_default bytes_eq
two_later_accepted = refl

accepted_reorg_advances_example :
    let after =
      (run_block_transition_reorg plain proof key two_later extra key key [] [] start).1 in
    let old = start.bridge_header in
    (is_ready_for_new_block_update start ≡ true)
    × (old.finalized_state.block_height + length extra + 1 ≡ two_later.finalized_state.block_height)
    × (old.tip_state.block_height < two_later.tip_state.block_height)
    × (old.finalized_state.auto_claimed_deposits_next_index
        ≤ two_later.finalized_state.auto_claimed_deposits_next_index)
    × (plain.verify_compact_zkp_slice proof key (reorg_inputs plain two_later extra start) ≡ true)
    × (after.bridge_header ≡ two_later)
    × (after.recent_finalized_blocks ≡ start.recent_finalized_blocks)
accepted_reorg_advances_example =
    accepted_reorg_advances plain proof key key key [] [] two_later extra start two_later_accepted

claim_accepted :
    (run_auto_mint_group_precheck 1 key waiting).0 ≡ ok (false, 6, 72 + 2 * 32 + 24 * 40)
unfolding run_auto_mint_group_precheck ◌>>◌ ◌>>=◌ fail_if lift is_empty tracker_is_empty
    ensure_can_claim_pending_mints_group manager_mark_pending_mints_group_claimed
    mark_pending_mints_group_claimed compute_mint_group_info mints_count_for_group
    get_nth_pending_mint_offset bytes_eq
claim_accepted = refl

claimed_group_is_next_mints_example :
    let t = waiting.current_pending_mints_tracker in
    let after = (run_auto_mint_group_precheck 1 key waiting).1.current_pending_mints_tracker in
    (key ≡ t.last_finalized_auto_claim_mints_storage_account)
    × (1 < get_current_total_pending_mints_groups t)
    × (claimed t.pending_mint_groups_claimed 1 ≡ false)
    × (1096 ≡ 72 + get_current_total_pending_mints_groups t * 32 + mints_before t 1 * 40)
    × (6 ≡ min 24 (t.total_pending_mints - 1 * 24))
    × (mints_before t 1 ≡ 1 * 24)
    × (mints_before t 1 + 6 ≤ t.total_pending_mints)
    × ((h : ℕ)
        → claimed after.pending_mint_groups_claimed h
          ≡ (if h == 1 then true else claimed t.pending_mint_groups_claimed h))
    × (false ≡ tracker_is_empty after)
claimed_group_is_next_mints_example =
    claimed_group_is_next_mints 1 key waiting false 6 1096
      (fresh_tracker-Consistent key 30 (omega arith)) claim_accepted
