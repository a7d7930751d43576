-- ===== src/MintGroups/Manager/Finish.antt =====
-- From `standard_append_block` to the last claim: the manager becomes empty again.
use psy_doge_solana_bridge.Prelude.{
  ℕ, ◌^◌, ◌<◌, ◌≤◌, ◌≡◌, refl, sym, ◌∙◌, true, false, List, [], ◌∷◌, length, replicate, arith,
  subst,
}
use psy_doge_solana_bridge.Errors.{ok}
use psy_doge_solana_bridge.MintGroups.{PendingMintsTracker, tracker_is_empty}
use psy_doge_solana_bridge.MintGroups.Bitmap.{claimed-empty}
use psy_doge_solana_bridge.MintGroups.Claims.{Consistent}
use psy_doge_solana_bridge.MintGroups.Runs.{member, no_duplicates}
use psy_doge_solana_bridge.MintGroups.Orders.{claims_empty_the_tracker, unclaimed-none}
use psy_doge_solana_bridge.MintGroups.Groups.{
  compute_mint_group_info, compute_mint_group_info_lem, group_info_matches,
}
use psy_doge_solana_bridge.MintGroups.Manager.{
  FinalizedBlockMintTxoInfo, FinalizedBlockMintTxoManager, info_is_empty, is_empty,
  standard_append_block, start_blocks, set_counts, with_tracker,
}
use psy_doge_solana_bridge.MintGroups.Manager.Ready.{
  ManagerRun, manager_follows, standard_append_block_lem, after_claims,
}

-- The tracker of a buffer of `total` mints, of which none is claimed.
abbrev pub fresh_tracker : List ℕ → ℕ → PendingMintsTracker
fresh_tracker account total = record {
  last_finalized_auto_claim_mints_storage_account = account;
  pending_mint_groups_claimed = replicate 32 0;
  total_pending_mints = total;
  pending_mints_groups_remaining = (compute_mint_group_info total).0;
}

pub fresh_tracker-Consistent :
    (account : List ℕ) (total : ℕ) → total < 2 ^ 16 → Consistent (fresh_tracker account total)
fresh_tracker-Consistent account total bound = record {
  bytes = refl;
  total_bound = bound;
  remaining =
      sym (group_info_matches (fresh_tracker account total) bound)
      ∙ sym (unclaimed-none (replicate 32 0) _ claimed-empty);
}

fresh_busy :
    (account : List ℕ) (total : ℕ)
    → 0 < (compute_mint_group_info total).0
    → tracker_is_empty (fresh_tracker account total) ≡ false
unfolding tracker_is_empty
fresh_busy account total some_groups = ground (arith, some_groups)

started_lem :
    (height : ℕ) (account : List ℕ) (total : ℕ) (m : FinalizedBlockMintTxoManager)
    (info : FinalizedBlockMintTxoInfo)
    → let started = start_blocks height (info ∷ []) account m in
      (started.pending_finalized_info_current_index ≡ 0)
      × (started.pending_finalized_info_total_count ≡ 1)
      × (set_counts total (compute_mint_group_info total).0 started
          ≡ with_tracker (fresh_tracker account total) started)
unfolding start_blocks set_counts
started_lem height account total m info = (refl, refl, refl)

finished :
    (last : PendingMintsTracker) (m : FinalizedBlockMintTxoManager)
    → m.pending_finalized_info_current_index ≡ 0
    → m.pending_finalized_info_total_count ≡ 1
    → tracker_is_empty last ≡ true
    → is_empty (after_claims (tracker_is_empty last) last m) ≡ true
unfolding is_empty
finished last m index count emptied = rw (emptied, index, count, emptied)

busy_not_empty :
    (t : PendingMintsTracker) (m : FinalizedBlockMintTxoManager)
    → m.pending_finalized_info_total_count ≡ 1
    → tracker_is_empty t ≡ false
    → is_empty (with_tracker t m) ≡ false
unfolding is_empty
busy_not_empty t m count busy = rw (count, busy) (ground arith)

-- The bridge gets ready for its next block: a block whose buffer holds between 1 and 6144 mints is
-- accepted by an empty manager, which is then not empty, and after its groups are claimed, each
-- once and in any order, the manager is empty again.
pub block_is_finished_by_its_claims :
    (m : FinalizedBlockMintTxoManager) (info : FinalizedBlockMintTxoInfo) (height : ℕ)
    (account : List ℕ) (total : ℕ) (gs : List ℕ)
    → length m.pending_finalized_info ≡ 8
    → is_empty m ≡ true
    → info_is_empty info ≡ false
    → 0 < total
    → total ≤ 6144
    → no_duplicates gs ≡ true
    → length gs ≡ (compute_mint_group_info total).0
    → ((g : ℕ) → member g gs ≡ true → g < (compute_mint_group_info total).0)
    → let (result, started) =
        standard_append_block height
          (info ∷ [])
          account
          total
          (compute_mint_group_info total).0
          m in
      (result ≡ ok tt)
      × (is_empty started ≡ false)
      × ((last : FinalizedBlockMintTxoManager) × ManagerRun started gs last
          × (is_empty last ≡ true))
block_is_finished_by_its_claims m info height account total gs eight empty first some_mints few
      distinct all below =
    let groups = (compute_mint_group_info total).0 in
    let t = fresh_tracker account total in
    let matches = group_info_matches t (omega arith) in
    let counted = compute_mint_group_info_lem total (omega arith) some_mints in
    let (last, run, emptied) =
      claims_empty_the_tracker t gs (fresh_tracker-Consistent account total (omega arith))
        (omega (arith, matches, counted.0)) refl distinct (all ∙ sym matches)
        (λ g g_in. subst (λ k. g < k) (sym matches) (below g g_in)) in
    let m0 = start_blocks height (info ∷ []) account m in
    let appended =
      standard_append_block_lem height account total groups m info [] eight empty (omega arith)
        first in
    let busy : tracker_is_empty t ≡ false = fresh_busy account total (omega (arith, counted.0)) in
    let (index, count, fresh) = started_lem height account total m info in
    let followed =
      manager_follows gs t last m0 (fresh_tracker-Consistent account total (omega arith)) busy
        (omega (arith, index, count)) (omega (arith, count)) run in
    rw (appended, fresh)
      (
        refl,
        busy_not_empty t m0 count busy,
        (
          after_claims (tracker_is_empty last) last m0,
          followed,
          finished last m0 index count emptied,
        ),
      )
