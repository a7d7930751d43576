-- ===== src/MintGroups/Manager/Invariant.antt =====
-- Index and count of the manager stay within its array of 8, whatever the result of the call.
use psy_doge_solana_bridge.Prelude.{
  ℕ, ◌≤◌, ◌≡◌, refl, ap, subst, ◌∙◌, inl, inr, not, ◌||◌, List, length, ltb, ◌==◌, arith,
  Bool-cases,
}
use psy_doge_solana_bridge.Errors.{ok}
use psy_doge_solana_bridge.MintGroups.{PendingMintsTracker, tracker_is_empty}
use psy_doge_solana_bridge.MintGroups.Manager.{
  FinalizedBlockMintTxoInfo, FinalizedBlockMintTxoManager, is_empty, fast_forward_empty,
  manager_default, standard_append_block, start_blocks, set_counts, with_tracker,
  manager_mark_pending_mints_group_claimed,
}
use psy_doge_solana_bridge.MintGroups.Manager.Forward.{
  IsWellFormed, fast_forward_empty_lem, fast_forward_skips_empty_blocks,
}
use psy_doge_solana_bridge.MintGroups.Manager.Ready.{copied_length}

manager_default-IsWellFormed : IsWellFormed manager_default
unfolding manager_default
manager_default-IsWellFormed = record {
  eight = refl;
  index_bound = omega arith;
  count_bound = omega arith;
}

with_tracker-IsWellFormed :
    (t : PendingMintsTracker) (m : FinalizedBlockMintTxoManager)
    → IsWellFormed m
    → IsWellFormed (with_tracker t m)
with_tracker-IsWellFormed t m wf = record {
  eight = wf.eight;
  index_bound = wf.index_bound;
  count_bound = wf.count_bound;
}

mark-IsWellFormed :
    (g : ℕ) (m : FinalizedBlockMintTxoManager)
    → IsWellFormed m
    → IsWellFormed (manager_mark_pending_mints_group_claimed g m).1
unfolding manager_mark_pending_mints_group_claimed
mark-IsWellFormed g m wf = record {
  eight = ground (arith, wf.eight);
  index_bound = ground (arith, wf.index_bound, wf.count_bound);
  count_bound = ground (arith, wf.count_bound);
}

forward-IsWellFormed :
    (m : FinalizedBlockMintTxoManager) → IsWellFormed m → IsWellFormed (fast_forward_empty m).1
forward-IsWellFormed m wf =
    elim (Bool-cases
      (ltb m.pending_finalized_info_current_index m.pending_finalized_info_total_count)) [
        | inl waiting ↦ elim (Bool-cases (tracker_is_empty m.current_pending_mints_tracker)) [
          | inl free ↦ (fast_forward_skips_empty_blocks m wf (ground arith) free).1
          | inr busy ↦ rw (fast_forward_empty_lem m wf, waiting, busy) wf
        ]
        | inr beyond ↦ rw (fast_forward_empty_lem m wf, beyond) wf
      ]

started-IsWellFormed :
    (height : ℕ) (blocks : List FinalizedBlockMintTxoInfo) (account : List ℕ)
    (m : FinalizedBlockMintTxoManager)
    → length blocks ≤ 8
    → IsWellFormed m
    → IsWellFormed (start_blocks height blocks account m)
unfolding start_blocks
started-IsWellFormed height blocks account m few wf = record {
  eight = copied_length 0 blocks m.pending_finalized_info ∙ wf.eight;
  index_bound = omega arith;
  count_bound = omega arith;
}

counts-IsWellFormed :
    (total groups : ℕ) (m : FinalizedBlockMintTxoManager)
    → IsWellFormed m
    → IsWellFormed (set_counts total groups m)
unfolding set_counts
counts-IsWellFormed total groups m wf = with_tracker-IsWellFormed _ m wf

append-IsWellFormed :
    (height : ℕ) (blocks : List FinalizedBlockMintTxoInfo) (account : List ℕ) (total groups : ℕ)
    (m : FinalizedBlockMintTxoManager)
    → IsWellFormed m
    → IsWellFormed (standard_append_block height blocks account total groups m).1
unfolding standard_append_block
append-IsWellFormed height blocks account total groups m wf = elim (Bool-cases (is_empty m)) [
  | inr busy ↦ rw busy wf
  | inl empty ↦ elim (Bool-cases (ltb 8 (length blocks))) [
    | inl many ↦ rw (empty, many) wf
    | inr few ↦ elim (Bool-cases (length blocks == 0)) [
      | inl none_given ↦ rw (empty, few, none_given) wf
      | inr some_given ↦
          let started = start_blocks height blocks account m in
          let started_wf = started-IsWellFormed height blocks account m (ground (arith, few)) wf in
          let after = (fast_forward_empty started).1 in
          let after_wf = forward-IsWellFormed started started_wf in
          let forwarded : (fast_forward_empty started).0 ≡ ok tt =
            ap (λ p. p.0) (fast_forward_empty_lem started started_wf) in
          rw (empty, few, some_given, forwarded)
            (elim (Bool-cases (is_empty after)) [
              | inl none_left ↦
                  rw none_left (elim (Bool-cases (not (total == 0) || not (groups == 0))) [
                    | inl extra ↦ rw extra after_wf
                    | inr no_extra ↦ rw no_extra after_wf
                  ])
              | inr some_left ↦ rw some_left (counts-IsWellFormed total groups after after_wf)
            ])
    ]
  ]
]

-- The managers that calls lead to from the new one, whatever the calls return.
pub data Reachable : FinalizedBlockMintTxoManager → Type 0 where
  at_start : Reachable manager_default
  forwarded :
      {m after : FinalizedBlockMintTxoManager}
      → Reachable m
      → (fast_forward_empty m).1 ≡ after
      → Reachable after
  marked :
      {m after : FinalizedBlockMintTxoManager} (g : ℕ)
      → Reachable m
      → (manager_mark_pending_mints_group_claimed g m).1 ≡ after
      → Reachable after
  appended :
      {m after : FinalizedBlockMintTxoManager} (height : ℕ)
      (blocks : List FinalizedBlockMintTxoInfo) (account : List ℕ) (total groups : ℕ)
      → Reachable m
      → (standard_append_block height blocks account total groups m).1 ≡ after
      → Reachable after

-- In every manager that calls lead to from the new one, accepted or refused, the array has 8
-- entries and the index is at most the count, which is at most 8.
pub operations_keep_index_in_array :
    (m : FinalizedBlockMintTxoManager) → Reachable m → IsWellFormed m
operations_keep_index_in_array m at_start = manager_default-IsWellFormed
operations_keep_index_in_array m (forwarded {m = before} earlier call) =
    subst IsWellFormed call
      (forward-IsWellFormed before (operations_keep_index_in_array before earlier))
operations_keep_index_in_array m (marked {m = before} g earlier call) =
    subst IsWellFormed call
      (mark-IsWellFormed g before (operations_keep_index_in_array before earlier))
operations_keep_index_in_array m
      (appended {m = before} height blocks account total groups earlier call) =
    subst IsWellFormed call (
      append-IsWellFormed height blocks account total groups before
        (operations_keep_index_in_array before earlier))
