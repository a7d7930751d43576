-- ===== src/MintGroups.antt =====
-- The groups of pending mints that wait to be claimed: program_state/mint_group.rs of
-- libraries/psy-doge-solana-core, and the constants of data_accounts/pending_mint.rs it uses.
pub mod Bitmap
pub mod Claims
pub mod Mark
pub mod Runs
pub mod Orders
pub mod Groups
pub mod Manager
use psy_doge_solana_bridge.Prelude.{
  ℕ, zero, suc, ◌+◌, ◌-◌, ◌*◌, ◌/◌, ◌%◌, ◌^◌, Bool, true, false, not, ◌&&◌, ◌||◌, bit_and, bit_or,
  Option, some, none, List, get_elem?, set, replicate, ltb, leb, ◌==◌, if◌then◌else◌,
}
use psy_doge_solana_bridge.Errors.{
  Result, ok, err, panic, no_pending_mints_to_process, pending_mints_group_index_out_of_bounds,
  pending_mints_group_already_processed,
}
use psy_doge_solana_bridge.Bytes.{Hash}

abbrev pub pm_max_pending_mints_per_group : ℕ
pm_max_pending_mints_per_group = 24

pub record PendingMintsTracker : Type 0 where
  pub last_finalized_auto_claim_mints_storage_account : List ℕ
  pub pending_mint_groups_claimed : List ℕ
  pub total_pending_mints : ℕ
  pub pending_mints_groups_remaining : ℕ

unfoldable pub empty_tracker : PendingMintsTracker
empty_tracker = record {
  last_finalized_auto_claim_mints_storage_account = replicate 32 0;
  pending_mint_groups_claimed = replicate 32 0;
  total_pending_mints = 0;
  pending_mints_groups_remaining = 0;
}

unfoldable pub tracker_is_empty : PendingMintsTracker → Bool
tracker_is_empty t = t.pending_mints_groups_remaining == 0

-- The bitmap has 32 bytes: a group from 256 on is an index out of range.
unfoldable pub is_pending_mints_group_already_claimed : PendingMintsTracker → ℕ → Result Bool
is_pending_mints_group_already_claimed t group_index =
    elim (get_elem? t.pending_mint_groups_claimed (group_index / 2 ^ 3)) [
      | none ↦ panic
      | some byte ↦ ok (bit_and (byte / 2 ^ bit_and group_index 7) 1 == 1)
    ]

unfoldable pub get_current_total_pending_mints_groups : PendingMintsTracker → ℕ
get_current_total_pending_mints_groups t =
    let total = t.total_pending_mints % 2 ^ 16 in
    if total % pm_max_pending_mints_per_group == 0
    then total / pm_max_pending_mints_per_group
    else (total / pm_max_pending_mints_per_group + 1) % 2 ^ 16

unfoldable pub ensure_can_claim_pending_mints_group : PendingMintsTracker → ℕ → Result (Unit {0})
unfolding is_pending_mints_group_already_claimed get_current_total_pending_mints_groups
ensure_can_claim_pending_mints_group t group_index =
    if t.total_pending_mints == 0 || t.pending_mints_groups_remaining == 0
    then err no_pending_mints_to_process
    else if ltb 256 group_index
    then err pending_mints_group_index_out_of_bounds
    else if leb (get_current_total_pending_mints_groups t) group_index
    then err pending_mints_group_index_out_of_bounds
    else elim (is_pending_mints_group_already_claimed t group_index) [
      | ok true ↦ err pending_mints_group_already_processed
      | ok false ↦ ok tt
      | err e ↦ err e
      | panic ↦ panic
    ]

-- The assignment through `|=`, and the count that goes down.
unfoldable pub claim_group : PendingMintsTracker → ℕ → ℕ → PendingMintsTracker
claim_group t group_index byte = record {
  last_finalized_auto_claim_mints_storage_account =
      t.last_finalized_auto_claim_mints_storage_account;
  pending_mint_groups_claimed =
      set t.pending_mint_groups_claimed (group_index / 2 ^ 3)
        (bit_or byte (2 ^ bit_and group_index 7));
  total_pending_mints = t.total_pending_mints;
  pending_mints_groups_remaining = t.pending_mints_groups_remaining - 1;
}

unfoldable pub mark_pending_mints_group_claimed :
    ℕ → PendingMintsTracker → Result Bool × PendingMintsTracker
unfolding is_pending_mints_group_already_claimed claim_group
mark_pending_mints_group_claimed group_index t =
    if t.total_pending_mints == 0 || t.pending_mints_groups_remaining == 0
    then (err no_pending_mints_to_process, t)
    else if ltb 256 group_index
    then (err pending_mints_group_index_out_of_bounds, t)
    else elim (is_pending_mints_group_already_claimed t group_index) [
      | ok true ↦ (err pending_mints_group_already_processed, t)
      | ok false ↦ elim (get_elem? t.pending_mint_groups_claimed (group_index / 2 ^ 3)) [
        | none ↦ (panic, t)
        | some byte ↦
            let after = claim_group t group_index byte in
            (ok (after.pending_mints_groups_remaining == 0), after)
      ]
      | err e ↦ (err e, t)
      | panic ↦ (panic, t)
    ]
