-- ===== src/Examples/Mints.antt =====
-- The groups of a buffer of 30 mints, and of one of 6150.
use psy_doge_solana_bridge.Prelude.{
  ℕ, ◌+◌, ◌-◌, ◌*◌, ◌/◌, ◌<◌, ◌≤◌, ◌≡◌, ◌⊎◌, refl, true, false, ◌||◌, List, [], ◌∷◌, length,
  replicate, ◌==◌, if◌then◌else◌, arith,
}
use psy_doge_solana_bridge.Errors.{
  ok, err, pending_mints_group_already_processed, no_pending_mints_to_process,
}
use psy_doge_solana_bridge.MintGroups.{
  PendingMintsTracker, tracker_is_empty, mark_pending_mints_group_claimed,
  get_current_total_pending_mints_groups, ensure_can_claim_pending_mints_group,
  is_pending_mints_group_already_claimed, claim_group, empty_tracker,
}
use psy_doge_solana_bridge.MintGroups.Bitmap.{claimed}
use psy_doge_solana_bridge.MintGroups.Claims.{Consistent}
use psy_doge_solana_bridge.MintGroups.Mark.{mark_claims_each_group_once}
use psy_doge_solana_bridge.MintGroups.Runs.{
  Run, done, claim, member, no_duplicates, claims_keep_count,
}
use psy_doge_solana_bridge.MintGroups.Orders.{claims_empty_the_tracker, large_tracker_never_empty}
use psy_doge_solana_bridge.MintGroups.Groups.{
  compute_mint_group_info, compute_mint_group_info_lem, mints_before, mints_count_for_group,
  groups_partition_mints,
}
use psy_doge_solana_bridge.MintGroups.Manager.{
  FinalizedBlockMintTxoInfo, FinalizedBlockMintTxoManager, zero_info, info_is_empty, is_empty,
  manager_default, standard_append_block, manager_mark_pending_mints_group_claimed,
  pm_da_default_pending_mints_buffer_hash, pm_txo_default_buffer_hash,
}
use psy_doge_solana_bridge.MintGroups.Manager.Forward.{IsWellFormed}
use psy_doge_solana_bridge.MintGroups.Manager.Ready.{ManagerRun}
use psy_doge_solana_bridge.MintGroups.Manager.Finish.{
  fresh_tracker, fresh_tracker-Consistent, block_is_finished_by_its_claims,
}
use psy_doge_solana_bridge.MintGroups.Manager.Invariant.{
  Reachable, at_start, appended, marked, operations_keep_index_in_array,
}
use psy_doge_solana_bridge.Bytes.{bytes_eq}

abbrev account : List ℕ
account = replicate 32 9

abbrev thirty : PendingMintsTracker
thirty = fresh_tracker account 30

thirty-Consistent : Consistent thirty
thirty-Consistent = fresh_tracker-Consistent account 30 (omega arith)

two_groups : get_current_total_pending_mints_groups thirty ≡ 2
unfolding get_current_total_pending_mints_groups
two_groups = refl

-- Group 1 of two is claimed.
abbrev half_claimed : PendingMintsTracker
half_claimed = record {
  last_finalized_auto_claim_mints_storage_account = account;
  pending_mint_groups_claimed = 2 ∷ replicate 31 0;
  total_pending_mints = 30;
  pending_mints_groups_remaining = 1;
}

half_claimed-Consistent : Consistent half_claimed
unfolding get_current_total_pending_mints_groups psy_doge_solana_bridge.MintGroups.Claims.unclaimed
    claimed
half_claimed-Consistent = record { bytes = refl; total_bound = omega arith; remaining = refl }

group_1_claimed : claimed half_claimed.pending_mint_groups_claimed 1 ≡ true
unfolding claimed
group_1_claimed = refl

mark_claims_each_group_once_example :
    let (result, after) = mark_pending_mints_group_claimed 1 thirty in
    ((1 < get_current_total_pending_mints_groups thirty)
      → claimed thirty.pending_mint_groups_claimed 1 ≡ false
      → (result ≡ ok (tracker_is_empty after))
        × Consistent after
        × (after.pending_mints_groups_remaining + 1 ≡ thirty.pending_mints_groups_remaining)
        × ((h : ℕ)
            → claimed after.pending_mint_groups_claimed h
              ≡ (if h == 1 then true else claimed thirty.pending_mint_groups_claimed h)))
    × (claimed thirty.pending_mint_groups_claimed 1 ≡ true
        → (mark_pending_mints_group_claimed 1 thirty
            ≡ (err pending_mints_group_already_processed, thirty))
          ⊎ (mark_pending_mints_group_claimed 1 thirty ≡ (err no_pending_mints_to_process, thirty)))
mark_claims_each_group_once_example =
    mark_claims_each_group_once thirty 1 thirty-Consistent (omega arith)

claim_1 : ensure_can_claim_pending_mints_group thirty 1 ≡ ok tt
unfolding ensure_can_claim_pending_mints_group compute_mint_group_info
claim_1 = refl

mark_1 : mark_pending_mints_group_claimed 1 thirty ≡ (ok false, half_claimed)
unfolding mark_pending_mints_group_claimed compute_mint_group_info
mark_1 = refl

claims_keep_count_example :
    Consistent half_claimed
    × (half_claimed.pending_mints_groups_remaining + length {A = ℕ} (1 ∷ [])
        ≡ thirty.pending_mints_groups_remaining)
    × (get_current_total_pending_mints_groups half_claimed
        ≡ get_current_total_pending_mints_groups thirty)
    × ((h : ℕ)
        → claimed half_claimed.pending_mint_groups_claimed h
          ≡ (member h (1 ∷ []) || claimed thirty.pending_mint_groups_claimed h))
claims_keep_count_example =
    claims_keep_count thirty half_claimed (1 ∷ []) thirty-Consistent (claim claim_1 mark_1 done)

groups_of_thirty : (g : ℕ) → member g (1 ∷ 0 ∷ []) ≡ true → g < 2
unfolding member
groups_of_thirty g g_in = ground arith

distinct_groups : no_duplicates (1 ∷ 0 ∷ []) ≡ true
unfolding no_duplicates
distinct_groups = refl

claims_empty_the_tracker_example :
    (last : PendingMintsTracker) × Run thirty (1 ∷ 0 ∷ []) last × (tracker_is_empty last ≡ true)
claims_empty_the_tracker_example =
    claims_empty_the_tracker thirty (1 ∷ 0 ∷ []) thirty-Consistent (omega (arith, two_groups)) refl
      distinct_groups (omega (arith, two_groups))
      (λ g g_in. omega (arith, two_groups, groups_of_thirty g g_in))

many_groups : 256 < get_current_total_pending_mints_groups (fresh_tracker account 6150)
unfolding get_current_total_pending_mints_groups
many_groups = omega arith

abbrev large : PendingMintsTracker
large = fresh_tracker account 6150

abbrev one_claimed : PendingMintsTracker
one_claimed = (mark_pending_mints_group_claimed 3 large).1

claim_3 : ensure_can_claim_pending_mints_group large 3 ≡ ok tt
unfolding ensure_can_claim_pending_mints_group compute_mint_group_info
claim_3 = refl

mark_3 : mark_pending_mints_group_claimed 3 large ≡ (ok false, one_claimed)
unfolding mark_pending_mints_group_claimed compute_mint_group_info
mark_3 = refl

large_tracker_never_empty_example :
    (tracker_is_empty one_claimed ≡ false)
    × (get_current_total_pending_mints_groups large
        ≤ one_claimed.pending_mints_groups_remaining + 256)
large_tracker_never_empty_example =
    large_tracker_never_empty large one_claimed (3 ∷ [])
      (fresh_tracker-Consistent account 6150 (omega arith)) many_groups (claim claim_3 mark_3 done)

groups_partition_mints_example :
    (mints_before thirty 1 ≡ 1 * 24)
    × (mints_before thirty 1 + mints_count_for_group thirty 1 ≤ thirty.total_pending_mints)
    × (mints_before thirty (get_current_total_pending_mints_groups thirty)
        ≡ thirty.total_pending_mints)
groups_partition_mints_example =
    groups_partition_mints thirty 1 (omega arith) (omega (arith, two_groups))

compute_mint_group_info_example :
    let (groups, last) = compute_mint_group_info 30 in
    (groups ≡ (30 + 23) / 24) × ((groups - 1) * 24 + last ≡ 30) × (0 < last) × (last ≤ 24)
compute_mint_group_info_example = compute_mint_group_info_lem 30 (omega arith) (omega arith)

-- A block with no mints, and one with some.
abbrev no_mints : FinalizedBlockMintTxoInfo
no_mints = record {
  pending_mints_finalized_hash = pm_da_default_pending_mints_buffer_hash;
  txo_output_list_finalized_hash = pm_txo_default_buffer_hash;
}

abbrev two_blocks : FinalizedBlockMintTxoManager
two_blocks = record {
  pending_finalized_info = no_mints ∷ zero_info ∷ replicate 6 zero_info;
  pending_finalized_info_current_index = 0;
  pending_finalized_info_total_count = 2;
  start_block_height = 100;
  current_pending_mints_tracker = empty_tracker;
}

two_blocks-IsWellFormed : IsWellFormed two_blocks
two_blocks-IsWellFormed = record {
  eight = refl;
  index_bound = omega arith;
  count_bound = omega arith;
}

nothing_left : tracker_is_empty empty_tracker ≡ true
unfolding tracker_is_empty empty_tracker
nothing_left = refl

default_is_empty : is_empty manager_default ≡ true
unfolding is_empty manager_default
default_is_empty = refl

eight_entries : length manager_default.pending_finalized_info ≡ 8
unfolding manager_default
eight_entries = refl

with_mints : info_is_empty zero_info ≡ false
unfolding info_is_empty bytes_eq
with_mints = refl

info_of_thirty : (compute_mint_group_info 30).0 ≡ 2
unfolding compute_mint_group_info
info_of_thirty = refl

block_is_finished_by_its_claims_example :
    let (result, started) =
      standard_append_block 100
        (zero_info ∷ [])
        account
        30
        (compute_mint_group_info 30).0
        manager_default in
    (result ≡ ok tt)
    × (is_empty started ≡ false)
    × ((last : FinalizedBlockMintTxoManager) × ManagerRun started (1 ∷ 0 ∷ []) last
        × (is_empty last ≡ true))
block_is_finished_by_its_claims_example =
    block_is_finished_by_its_claims manager_default zero_info 100 account 30 (1 ∷ 0 ∷ [])
      eight_entries default_is_empty with_mints (omega arith) (omega arith) distinct_groups
      (omega (arith, info_of_thirty))
      (λ g g_in. omega (arith, info_of_thirty, groups_of_thirty g g_in))

-- A block of 30 mints of which the second group is claimed.
abbrev second_claimed : FinalizedBlockMintTxoManager
second_claimed =
    (manager_mark_pending_mints_group_claimed 1
      (standard_append_block 100 (zero_info ∷ []) account 30 2 manager_default).1).1

second_claimed-Reachable : Reachable second_claimed
second_claimed-Reachable = marked 1 (appended 100 (zero_info ∷ []) account 30 2 at_start refl) refl

operations_keep_index_in_array_example : IsWellFormed second_claimed
operations_keep_index_in_array_example =
    operations_keep_index_in_array second_claimed second_claimed-Reachable
