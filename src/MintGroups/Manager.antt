-- ===== src/MintGroups/Manager.antt =====
-- `FinalizedBlockMintTxoManager`, the finalized blocks whose mints wait to be claimed:
-- program_state/mint_group.rs of libraries/psy-doge-solana-core.
pub mod Forward
pub mod Ready
pub mod Finish
pub mod Invariant
use psy_doge_solana_bridge.Prelude.{
  ℕ, zero, suc, ◌+◌, ◌-◌, ◌*◌, ◌/◌, ◌%◌, ◌^◌, Bool, true, false, not, ◌&&◌, ◌||◌, Option, some,
  none, List, [], ◌∷◌, length, get_elem?, set, replicate, ltb, leb, ◌==◌, if◌then◌else◌,
}
use psy_doge_solana_bridge.Errors.{
  Result, ok, err, panic, Action, pure, fail, lift, gets, ◌>>=◌, ◌>>◌, fail_if, modify,
  no_pending_mints_to_auto_process, remaining_pending_mints_in_previous_state,
  pending_finalized_block_mints_not_empty, pending_finalized_block_mints_invalid_group_count,
  pending_finalized_block_mints_invalid_auto_claim_mints_data,
}
use psy_doge_solana_bridge.Bytes.{Hash, zero_hash, bytes_eq}
use psy_doge_solana_bridge.MintGroups.{
  PendingMintsTracker, empty_tracker, tracker_is_empty, mark_pending_mints_group_claimed,
}

-- The SHA-256 of two zero bytes, and of no bytes.
abbrev pub pm_da_default_pending_mints_buffer_hash : Hash
pm_da_default_pending_mints_buffer_hash =
    150 ∷ 162 ∷ 150 ∷ 210 ∷ 36 ∷ 242 ∷ 133 ∷ 198 ∷ 123 ∷ 238 ∷ 147 ∷ 195 ∷ 15 ∷ 138 ∷ 48 ∷ 145 ∷ 87
    ∷ 240 ∷ 218 ∷ 163 ∷ 93 ∷ 197 ∷ 184 ∷ 126 ∷ 65 ∷ 11 ∷ 120 ∷ 99 ∷ 10 ∷ 9 ∷ 207 ∷ 199 ∷ []

abbrev pub pm_txo_default_buffer_hash : Hash
pm_txo_default_buffer_hash =
    227 ∷ 176 ∷ 196 ∷ 66 ∷ 152 ∷ 252 ∷ 28 ∷ 20 ∷ 154 ∷ 251 ∷ 244 ∷ 200 ∷ 153 ∷ 111 ∷ 185 ∷ 36 ∷ 39
    ∷ 174 ∷ 65 ∷ 228 ∷ 100 ∷ 155 ∷ 147 ∷ 76 ∷ 164 ∷ 149 ∷ 153 ∷ 27 ∷ 120 ∷ 82 ∷ 184 ∷ 85 ∷ []

pub record FinalizedBlockMintTxoInfo : Type 0 where
  pub pending_mints_finalized_hash : Hash
  pub txo_output_list_finalized_hash : Hash

unfoldable pub info_is_empty : FinalizedBlockMintTxoInfo → Bool
info_is_empty info =
    bytes_eq info.pending_mints_finalized_hash pm_da_default_pending_mints_buffer_hash
    && bytes_eq info.txo_output_list_finalized_hash pm_txo_default_buffer_hash

abbrev pub zero_info : FinalizedBlockMintTxoInfo
zero_info = record {
  pending_mints_finalized_hash = zero_hash;
  txo_output_list_finalized_hash = zero_hash;
}

-- `pending_finalized_info` is an array of 8.
pub record FinalizedBlockMintTxoManager : Type 0 where
  pub pending_finalized_info : List FinalizedBlockMintTxoInfo
  pub pending_finalized_info_current_index : ℕ
  pub pending_finalized_info_total_count : ℕ
  pub start_block_height : ℕ
  pub current_pending_mints_tracker : PendingMintsTracker

-- `reset`, and `default`, which is all zeros as well.
unfoldable pub manager_default : FinalizedBlockMintTxoManager
manager_default = record {
  pending_finalized_info = replicate 8 zero_info;
  pending_finalized_info_current_index = 0;
  pending_finalized_info_total_count = 0;
  start_block_height = 0;
  current_pending_mints_tracker = empty_tracker;
}

unfoldable pub is_empty : FinalizedBlockMintTxoManager → Bool
is_empty m =
    m.pending_finalized_info_total_count == 0
    || (m.pending_finalized_info_total_count == m.pending_finalized_info_current_index
        && tracker_is_empty m.current_pending_mints_tracker)

abbrev pub with_tracker :
    PendingMintsTracker → FinalizedBlockMintTxoManager → FinalizedBlockMintTxoManager
with_tracker t m = record {
  pending_finalized_info = m.pending_finalized_info;
  pending_finalized_info_current_index = m.pending_finalized_info_current_index;
  pending_finalized_info_total_count = m.pending_finalized_info_total_count;
  start_block_height = m.start_block_height;
  current_pending_mints_tracker = t;
}

abbrev pub with_current_index : ℕ → FinalizedBlockMintTxoManager → FinalizedBlockMintTxoManager
with_current_index i m = record {
  pending_finalized_info = m.pending_finalized_info;
  pending_finalized_info_current_index = i;
  pending_finalized_info_total_count = m.pending_finalized_info_total_count;
  start_block_height = m.start_block_height;
  current_pending_mints_tracker = m.current_pending_mints_tracker;
}

-- The loop of `fast_forward_empty`, over `n` indices from `i` on: the current index, which moves
-- with `i`, and whether it was modified.
unfoldable pub fast_forward_loop :
    ℕ → List FinalizedBlockMintTxoInfo → ℕ → ℕ → Bool → Result (ℕ × Bool)
unfolding info_is_empty
fast_forward_loop zero infos i current modified = ok (current, modified)
fast_forward_loop (suc n) infos i current modified = elim (get_elem? infos i) [
  | none ↦ panic
  | some info ↦ elim (info_is_empty info) [
    | false ↦ ok (current, modified)
    | true ↦ fast_forward_loop n infos (suc i) ((current + 1) % 2 ^ 16) true
  ]
]

unfoldable pub fast_forward_empty : Action FinalizedBlockMintTxoManager (Unit {0})
unfolding fast_forward_loop is_empty
fast_forward_empty m =
    let current = m.pending_finalized_info_current_index in
    let total = m.pending_finalized_info_total_count in
    if leb total current || not (tracker_is_empty m.current_pending_mints_tracker) || is_empty m
    then (ok tt, m)
    else elim (fast_forward_loop (total - current) m.pending_finalized_info current current false) [
      | err e ↦ (err e, m)
      | panic ↦ (panic, m)
      | ok (i, modified) ↦ (
        ok tt,
        if modified
            then with_tracker empty_tracker (with_current_index i m)
            else with_current_index i m,
      )
    ]

unfoldable pub manager_mark_pending_mints_group_claimed :
    ℕ → Action FinalizedBlockMintTxoManager Bool
manager_mark_pending_mints_group_claimed group_index m =
    let (result, tracker) =
      mark_pending_mints_group_claimed group_index m.current_pending_mints_tracker in
    let marked = with_tracker tracker m in
    elim result [
      | err e ↦ (err e, marked)
      | panic ↦ (panic, marked)
      | ok finished ↦ (
        ok finished,
        if finished
              && ltb m.pending_finalized_info_current_index m.pending_finalized_info_total_count
            then with_current_index ((m.pending_finalized_info_current_index + 1) % 2 ^ 16) marked
            else marked,
      )
    ]

unfoldable pub ensure_ready_to_start_next_pending_finalized_info :
    FinalizedBlockMintTxoManager → Result (Unit {0})
ensure_ready_to_start_next_pending_finalized_info m =
    if not (tracker_is_empty m.current_pending_mints_tracker)
    then err remaining_pending_mints_in_previous_state
    else if leb m.pending_finalized_info_total_count m.pending_finalized_info_current_index
    then err no_pending_mints_to_auto_process
    else ok tt

-- The array after the assignments `pending_finalized_info[i] = *block_groups[i]`.
unfoldable pub copy_groups :
    ℕ
    → List FinalizedBlockMintTxoInfo
    → List FinalizedBlockMintTxoInfo
    → List FinalizedBlockMintTxoInfo
copy_groups i [] infos = infos
copy_groups i (group ∷ groups) infos = copy_groups (suc i) groups (set infos i group)

-- The assignments before `fast_forward_empty`.
unfoldable pub start_blocks :
    ℕ
    → List FinalizedBlockMintTxoInfo
    → List ℕ
    → FinalizedBlockMintTxoManager
    → FinalizedBlockMintTxoManager
unfolding copy_groups empty_tracker
start_blocks block_height block_groups account m = record {
  pending_finalized_info = copy_groups 0 block_groups m.pending_finalized_info;
  pending_finalized_info_current_index = 0;
  pending_finalized_info_total_count = length block_groups % 2 ^ 16;
  start_block_height = block_height;
  current_pending_mints_tracker = record {
    last_finalized_auto_claim_mints_storage_account = account;
    pending_mint_groups_claimed = replicate 32 0;
    total_pending_mints = 0;
    pending_mints_groups_remaining = 0;
  };
}

-- The assignments at the end of `standard_append_block`.
unfoldable pub set_counts : ℕ → ℕ → FinalizedBlockMintTxoManager → FinalizedBlockMintTxoManager
set_counts total groups m =
    let t = m.current_pending_mints_tracker in
    with_tracker
      (record {
        last_finalized_auto_claim_mints_storage_account =
            t.last_finalized_auto_claim_mints_storage_account;
        pending_mint_groups_claimed = t.pending_mint_groups_claimed;
        total_pending_mints = total;
        pending_mints_groups_remaining = groups;
      })
      m

unfoldable pub standard_append_block :
    ℕ
    → List FinalizedBlockMintTxoInfo
    → List ℕ
    → ℕ
    → ℕ
    → Action FinalizedBlockMintTxoManager (Unit {0})
standard_append_block block_height block_groups account total groups m =
    if not (is_empty m)
    then (err pending_finalized_block_mints_not_empty, m)
    else if ltb 8 (length block_groups)
    then (err pending_finalized_block_mints_invalid_group_count, m)
    else if length block_groups == 0
    then (ok tt, m)
    else let (result, after) =
        fast_forward_empty (start_blocks block_height block_groups account m) in
      elim result [
        | err e ↦ (err e, after)
        | panic ↦ (panic, after)
        | ok _ ↦
            if is_empty after
            then if not (total == 0) || not (groups == 0)
              then (err pending_finalized_block_mints_invalid_auto_claim_mints_data, after)
              else (ok tt, after)
            else (ok tt, set_counts total groups after)
      ]
