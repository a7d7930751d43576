-- ===== src/MintGroups/Manager/Ready.antt =====
-- A block with mints, from `standard_append_block` until its last group is claimed.
use psy_doge_solana_bridge.Prelude.{
  ℕ, zero, suc, ◌+◌, ◌%◌, ◌^◌, ◌<◌, ◌≤◌, ◌≡◌, ◌≢◌, refl, ap, ◌∙◌, inl, inr, Bool, true, false,
  subst, List, [], ◌∷◌, length, get_or, set, ltb, ◌==◌, arith, length-set, get_or-set_self,
  get_or-set_ne, Bool-cases,
}
use psy_doge_solana_bridge.Errors.{ok}
use psy_doge_solana_bridge.MintGroups.{
  PendingMintsTracker, tracker_is_empty, mark_pending_mints_group_claimed,
  ensure_can_claim_pending_mints_group,
}
use psy_doge_solana_bridge.MintGroups.Manager.{
  FinalizedBlockMintTxoInfo, FinalizedBlockMintTxoManager, info_is_empty, zero_info, is_empty,
  fast_forward_empty, standard_append_block, copy_groups, start_blocks, set_counts,
  manager_mark_pending_mints_group_claimed, with_tracker, with_current_index,
}
use psy_doge_solana_bridge.MintGroups.Manager.Forward.{IsWellFormed, fast_forward_stays}
use psy_doge_solana_bridge.MintGroups.Runs.{Run, done, claim, ensure_below_256}
use psy_doge_solana_bridge.MintGroups.Mark.{mark_claims_one_group, ensure_can_claim_iff}
use psy_doge_solana_bridge.MintGroups.Claims.{Consistent}

pub copied_length :
    (i : ℕ) (groups infos : List FinalizedBlockMintTxoInfo)
    → length (copy_groups i groups infos) ≡ length infos
unfolding copy_groups
copied_length i [] infos = refl
copied_length i (group ∷ groups) infos =
    copied_length (suc i) groups (set infos i group) ∙ length-set infos i group

copied_before :
    (i j : ℕ) (groups infos : List FinalizedBlockMintTxoInfo)
    → j < i
    → get_or (copy_groups i groups infos) j zero_info ≡ get_or infos j zero_info
unfolding copy_groups
copied_before i j [] infos lt = refl
copied_before i j (group ∷ groups) infos lt =
    let apart : i ≢ j = λ e. absurd (omega arith) in
    copied_before (suc i) j groups (set infos i group) (omega arith)
    ∙ get_or-set_ne infos group zero_info apart

copied_entry :
    (i j : ℕ) (groups infos : List FinalizedBlockMintTxoInfo)
    → j < length groups
    → i + length groups ≤ length infos
    → get_or (copy_groups i groups infos) (i + j) zero_info ≡ get_or groups j zero_info
unfolding copy_groups
copied_entry i j [] infos lt room = elim lt [ ]
copied_entry i zero (group ∷ groups) infos lt room =
    let at : i + 0 ≡ i = omega arith in
    rw at (
      copied_before (suc i) i groups (set infos i group) (omega arith)
      ∙ get_or-set_self infos i group zero_info (omega arith))
copied_entry i (suc j) (group ∷ groups) infos lt room =
    let at : i + suc j ≡ suc i + j = omega arith in
    rw at (
      copied_entry (suc i) j groups (set infos i group) (omega arith)
        (omega (arith, length-set infos i group)))

module _ (height : ℕ) (account : List ℕ) (total groups : ℕ) where
  started_not_empty :
      (m : FinalizedBlockMintTxoManager) (info : FinalizedBlockMintTxoInfo)
      (infos : List FinalizedBlockMintTxoInfo)
      → length (info ∷ infos) ≤ 8
      → is_empty (start_blocks height (info ∷ infos) account m) ≡ false
  unfolding is_empty start_blocks
  started_not_empty m info infos few = ground (arith, few)

  fast_forward_started :
      (m : FinalizedBlockMintTxoManager) (info : FinalizedBlockMintTxoInfo)
      (infos : List FinalizedBlockMintTxoInfo)
      → length m.pending_finalized_info ≡ 8
      → length (info ∷ infos) ≤ 8
      → info_is_empty info ≡ false
      → fast_forward_empty (start_blocks height (info ∷ infos) account m)
        ≡ (ok tt, start_blocks height (info ∷ infos) account m)
  unfolding start_blocks
  fast_forward_started m info infos eight few first =
      let blocks = info ∷ infos in
      let count : length blocks % 2 ^ 16 ≡ suc (length infos) = omega (arith, few) in
      let wf : IsWellFormed (start_blocks height blocks account m) = record {
        eight = copied_length 0 blocks m.pending_finalized_info ∙ eight;
        index_bound = omega arith;
        count_bound = omega (arith, few);
      } in
      let entry : get_or (copy_groups 0 blocks m.pending_finalized_info) 0 zero_info ≡ info =
        copied_entry 0 0 blocks m.pending_finalized_info (omega arith)
          (omega (arith, few, eight)) in
      let kept : info_is_empty (get_or (copy_groups 0 blocks m.pending_finalized_info) 0 zero_info)
          ≡ false =
        ap info_is_empty entry ∙ first in
      fast_forward_stays _ wf kept

  pub standard_append_block_lem :
      (m : FinalizedBlockMintTxoManager) (info : FinalizedBlockMintTxoInfo)
      (infos : List FinalizedBlockMintTxoInfo)
      → length m.pending_finalized_info ≡ 8
      → is_empty m ≡ true
      → length (info ∷ infos) ≤ 8
      → info_is_empty info ≡ false
      → standard_append_block height (info ∷ infos) account total groups m
        ≡ (ok tt, set_counts total groups (start_blocks height (info ∷ infos) account m))
  unfolding standard_append_block
  standard_append_block_lem m info infos eight empty few first =
      let blocks = info ∷ infos in
      let started = start_blocks height blocks account m in
      let few_ok : ltb 8 (length blocks) ≡ false = ground (arith, few) in
      let some_blocks : (length blocks == 0) ≡ false = ground arith in
      let forwarded : fast_forward_empty started ≡ (ok tt, started) =
        fast_forward_started m info infos eight few first in
      let waits : is_empty started ≡ false = started_not_empty m info infos few in
      rw (empty, few_ok, some_blocks, forwarded, forwarded, waits)

-- The claims of a list of groups on the manager.
pub data ManagerRun
    : FinalizedBlockMintTxoManager → List ℕ → FinalizedBlockMintTxoManager → Type 0 where
  manager_done : {m : FinalizedBlockMintTxoManager} → ManagerRun m [] m
  manager_claim :
      {m after last : FinalizedBlockMintTxoManager} {g : ℕ} {gs : List ℕ} {emptied : Bool}
      → ensure_can_claim_pending_mints_group m.current_pending_mints_tracker g ≡ ok tt
      → manager_mark_pending_mints_group_claimed g m ≡ (ok emptied, after)
      → ManagerRun after gs last
      → ManagerRun m (g ∷ gs) last

-- The manager that a last claim, or no last claim, leaves.
abbrev pub after_claims :
    Bool → PendingMintsTracker → FinalizedBlockMintTxoManager → FinalizedBlockMintTxoManager
after_claims true t m =
    with_tracker t (with_current_index (m.pending_finalized_info_current_index + 1) m)
after_claims false t m = with_tracker t m

manager_mark_lem :
    (m : FinalizedBlockMintTxoManager) (g : ℕ) (after : PendingMintsTracker) (emptied : Bool)
    → m.pending_finalized_info_current_index < m.pending_finalized_info_total_count
    → m.pending_finalized_info_total_count ≤ 8
    → mark_pending_mints_group_claimed g m.current_pending_mints_tracker ≡ (ok emptied, after)
    → manager_mark_pending_mints_group_claimed g m ≡ (ok emptied, after_claims emptied after m)
unfolding manager_mark_pending_mints_group_claimed
manager_mark_lem m g after true waiting few marked =
    let before : ltb m.pending_finalized_info_current_index m.pending_finalized_info_total_count
        ≡ true =
      ground arith in
    let next : (m.pending_finalized_info_current_index + 1) % 2 ^ 16
        ≡ m.pending_finalized_info_current_index + 1 =
      omega arith in
    rw (manager_mark_pending_mints_group_claimed, marked, marked, before, next)
manager_mark_lem m g after false waiting few marked =
    rw (manager_mark_pending_mints_group_claimed, marked, marked)

no_claims_of_empty :
    (t last : PendingMintsTracker) (gs : List ℕ)
    → tracker_is_empty t ≡ true
    → Run t gs last
    → (gs ≡ []) × (last ≡ t)
unfolding tracker_is_empty ensure_can_claim_pending_mints_group
no_claims_of_empty t last [] empty done = (refl, refl)
no_claims_of_empty t last (g ∷ gs) empty (claim passed marked rest) = absurd (ground arith)

-- The manager follows the claims on its tracker, and moves to the next block with the last.
pub manager_follows :
    (gs : List ℕ) (t last : PendingMintsTracker) (m : FinalizedBlockMintTxoManager)
    → Consistent t
    → tracker_is_empty t ≡ false
    → m.pending_finalized_info_current_index < m.pending_finalized_info_total_count
    → m.pending_finalized_info_total_count ≤ 8
    → Run t gs last
    → ManagerRun (with_tracker t m) gs (after_claims (tracker_is_empty last) last m)
manager_follows [] t last m c busy waiting few done = rw busy manager_done
manager_follows (g ∷ gs) t last m c busy waiting few
      (claim {after = after} {emptied = emptied} passed marked rest) =
    let g_256 = ensure_below_256 t g c passed in
    let (below, free) = (ensure_can_claim_iff t g c g_256).0 passed in
    let (result, consistent, _, _) = mark_claims_one_group t g c below g_256 free in
    let moved : (mark_pending_mints_group_claimed g t).1 ≡ after = ap (λ p. p.1) marked in
    let c_after = subst Consistent moved consistent in
    let was_last : emptied ≡ tracker_is_empty after = cc (result, marked, moved) in
    let step = manager_mark_lem (with_tracker t m) g after emptied waiting few marked in
    elim (Bool-cases (tracker_is_empty after)) [
      | inl empty ↦
          let (nil, same) = no_claims_of_empty after last gs empty rest in
          let one : emptied ≡ true = was_last ∙ empty in
          rw (nil, same, empty)
            (manager_claim passed
              (subst
                (λ b.
                  manager_mark_pending_mints_group_claimed g (with_tracker t m)
                  ≡ (ok b, after_claims b after (with_tracker t m)))
                one step)
              manager_done)
      | inr more ↦
          let more_left : emptied ≡ false = was_last ∙ more in
          manager_claim passed
            (subst
              (λ b.
                manager_mark_pending_mints_group_claimed g (with_tracker t m)
                ≡ (ok b, after_claims b after (with_tracker t m)))
              more_left step)
            (manager_follows gs after last m c_after more waiting few rest)
    ]
