-- ===== src/Bridge/AutoMint/Claim.antt =====
-- What an accepted claim of a group of mints shows.
use psy_doge_solana_bridge.Prelude.{
  ℕ, min, ◌-◌, ◌+◌, ◌*◌, ◌%◌, ◌^◌, ◌<◌, ◌≤◌, ◌≡◌, ap, sym, ◌∙◌, Bool, true, false, ◌&&◌, ltb,
  Bool-cases, inl, inr, List, ◌==◌, if◌then◌else◌, arith,
}
use psy_doge_solana_bridge.Errors.{
  Result-cases, ok, Action, ◌>>=◌, fail_if_passes, lift_passes, pure,
}
use psy_doge_solana_bridge.Bytes.Laws.{bytes_eq→eq}
use psy_doge_solana_bridge.MintGroups.{
  PendingMintsTracker, pm_max_pending_mints_per_group, tracker_is_empty,
  get_current_total_pending_mints_groups, mark_pending_mints_group_claimed,
  ensure_can_claim_pending_mints_group,
}
use psy_doge_solana_bridge.MintGroups.Bitmap.{claimed}
use psy_doge_solana_bridge.MintGroups.Claims.{Consistent}
use psy_doge_solana_bridge.MintGroups.Mark.{ensure_can_claim_iff, mark_claims_one_group}
use psy_doge_solana_bridge.MintGroups.Runs.{ensure_below_256}
use psy_doge_solana_bridge.MintGroups.Groups.{
  mints_count_for_group, mints_before, get_nth_pending_mint_offset, groups_partition_mints,
  mints_count_for_group-min,
}
use psy_doge_solana_bridge.MintGroups.Manager.{
  FinalizedBlockMintTxoManager, manager_mark_pending_mints_group_claimed,
}
use psy_doge_solana_bridge.Bridge.AutoMint.{run_auto_mint_group_precheck}

abbrev pub mark_result : ℕ → FinalizedBlockMintTxoManager → Bool → Bool × ℕ × ℕ
mark_result g m b =
    let t = m.current_pending_mints_tracker in
    (
      b,
      mints_count_for_group t g,
      get_nth_pending_mint_offset (get_current_total_pending_mints_groups t)
          ((g * pm_max_pending_mints_per_group) % 2 ^ 16),
    )

precheck_passes :
    (g : ℕ) (key : List ℕ) (m : FinalizedBlockMintTxoManager) (result : Bool × ℕ × ℕ)
    → (run_auto_mint_group_precheck g key m).0 ≡ ok result
    → (ensure_can_claim_pending_mints_group m.current_pending_mints_tracker g ≡ ok tt)
      × (key ≡ m.current_pending_mints_tracker.last_finalized_auto_claim_mints_storage_account)
      × (run_auto_mint_group_precheck g key m
          ≡ (manager_mark_pending_mints_group_claimed g >>= (λ b. pure (mark_result g m b))) m)
unfolding run_auto_mint_group_precheck
precheck_passes g key m result accepted =
    let (_, e1, k1) = fail_if_passes _ _ _ m result accepted in
    let (_, e2, k2) = fail_if_passes _ _ _ m result k1 in
    let (_, e3, k3) = fail_if_passes _ _ _ m result k2 in
    let (_, open_group, e4, k4) = lift_passes _ _ m result k3 in
    let (same, e5, k5) = fail_if_passes _ _ _ m result k4 in
    (
      open_group,
      bytes_eq→eq key
          m.current_pending_mints_tracker.last_finalized_auto_claim_mints_storage_account
          (ground (arith, same)),
      e1 ∙ e2 ∙ e3 ∙ e4 ∙ e5,
    )

manager_result :
    (g : ℕ) (m : FinalizedBlockMintTxoManager) (b : Bool) (t : PendingMintsTracker)
    → mark_pending_mints_group_claimed g m.current_pending_mints_tracker ≡ (ok b, t)
    → ((manager_mark_pending_mints_group_claimed g m).0 ≡ ok b)
      × ((manager_mark_pending_mints_group_claimed g m).1.current_pending_mints_tracker ≡ t)
unfolding manager_mark_pending_mints_group_claimed
manager_result g m b t marked =
    elim (Bool-cases
      (b && ltb m.pending_finalized_info_current_index m.pending_finalized_info_total_count)) [
        | inl last ↦ (
          rw (manager_mark_pending_mints_group_claimed, marked),
          rw (manager_mark_pending_mints_group_claimed, marked, marked, last),
        )
        | inr more ↦ (
          rw (manager_mark_pending_mints_group_claimed, marked),
          rw (manager_mark_pending_mints_group_claimed, marked, marked, more),
        )
      ]

bind_pure :
    {S A B : Type 0} (x : Action S A) (f : A → B) (s : S) (a : A)
    → (x s).0 ≡ ok a
    → (x >>= (λ a. pure (f a))) s ≡ (ok (f a), (x s).1)
unfolding ◌>>=◌
bind_pure x f s a done = rw (◌>>=◌, done)

bind_result :
    {S A B : Type 0} (x : Action S A) (f : A → B) (s : S) (b : B)
    → ((x >>= (λ a. pure (f a))) s).0 ≡ ok b
    → (a : A) × (f a ≡ b)
unfolding ◌>>=◌
bind_result x f s b done = elim (Result-cases (x s).0) [
  | inl (a, found) ↦ (a, cc (rw (◌>>=◌, found) at done))
  | inr (inl (e, failed)) ↦ absurd (cc (rw (◌>>=◌, failed) at done))
  | inr (inr panics) ↦ absurd (cc (rw (◌>>=◌, panics) at done))
]

-- The group is open, and size and place are those of the group.
pub precheck_places :
    (g : ℕ) (key : List ℕ) (m : FinalizedBlockMintTxoManager) (unlock : Bool) (mints offset : ℕ)
    → (run_auto_mint_group_precheck g key m).0 ≡ ok (unlock, mints, offset)
    → let t = m.current_pending_mints_tracker in
      (key ≡ t.last_finalized_auto_claim_mints_storage_account)
      × (mints ≡ mints_count_for_group t g)
      × (offset ≡ 72 + get_current_total_pending_mints_groups t * 32 + ((g * 24) % 2 ^ 16) * 40)
unfolding get_nth_pending_mint_offset
precheck_places g key m unlock mints offset accepted =
    let (_, account, whole) = precheck_passes g key m (unlock, mints, offset) accepted in
    let (_, same) =
      bind_result (manager_mark_pending_mints_group_claimed g) (mark_result g m) m
        (unlock, mints, offset) (sym (ap (λ p. p.0) whole) ∙ accepted) in
    (account, sym (ap (λ p. p.1) same), sym (ap (λ p. p.2) same))

-- The group, the result and the tracker of an accepted claim.
pub accepted_claim :
    (g : ℕ) (key : List ℕ) (m : FinalizedBlockMintTxoManager) (unlock : Bool) (mints offset : ℕ)
    → Consistent m.current_pending_mints_tracker
    → (run_auto_mint_group_precheck g key m).0 ≡ ok (unlock, mints, offset)
    → let t = m.current_pending_mints_tracker in
      let next = (mark_pending_mints_group_claimed g t).1 in
      (g < 256)
      × (g < get_current_total_pending_mints_groups t)
      × (claimed t.pending_mint_groups_claimed g ≡ false)
      × ((unlock, mints, offset) ≡ mark_result g m (tracker_is_empty next))
      × ((run_auto_mint_group_precheck g key m).1.current_pending_mints_tracker ≡ next)
      × (key ≡ t.last_finalized_auto_claim_mints_storage_account)
accepted_claim g key m unlock mints offset c accepted =
    let t = m.current_pending_mints_tracker in
    let (open_group, account, whole) = precheck_passes g key m (unlock, mints, offset) accepted in
    let g_256 = ensure_below_256 t g c open_group in
    let (below, free) = (ensure_can_claim_iff t g c g_256).0 open_group in
    let (result, _, _, _) = mark_claims_one_group t g c below g_256 free in
    let next = (mark_pending_mints_group_claimed g t).1 in
    let (marked, tracker) =
      manager_result g m (tracker_is_empty next) next (ap (λ r. (r, next)) result) in
    let done =
      whole
      ∙ bind_pure (manager_mark_pending_mints_group_claimed g) (mark_result g m) m
          (tracker_is_empty next) marked in
    let values : ok (unlock, mints, offset) ≡ ok (mark_result g m (tracker_is_empty next)) =
      sym accepted ∙ ap (λ p. p.0) done in
    (
      g_256,
      below,
      free,
      cc values,
      ap (λ p. p.1.current_pending_mints_tracker) done ∙ tracker,
      account,
    )

-- A claim of a group that is accepted names the account of the buffer and a group of it that was not
-- claimed. It returns the number of mints of the group, which is 24 or what is left for the last, and
-- the place of its first mint, which is the one after the mints of the groups before; exactly the group becomes claimed, and the buffer
-- is unlocked exactly with the last group.
pub claimed_group_is_next_mints :
    (g : ℕ) (key : List ℕ) (m : FinalizedBlockMintTxoManager) (unlock : Bool) (mints offset : ℕ)
    → Consistent m.current_pending_mints_tracker
    → (run_auto_mint_group_precheck g key m).0 ≡ ok (unlock, mints, offset)
    → let t = m.current_pending_mints_tracker in
      let after = (run_auto_mint_group_precheck g key m).1.current_pending_mints_tracker in
      (key ≡ t.last_finalized_auto_claim_mints_storage_account)
      × (g < get_current_total_pending_mints_groups t)
      × (claimed t.pending_mint_groups_claimed g ≡ false)
      × (offset ≡ 72 + get_current_total_pending_mints_groups t * 32 + mints_before t g * 40)
      × (mints ≡ min 24 (t.total_pending_mints - g * 24))
      × (mints_before t g ≡ g * 24)
      × (mints_before t g + mints ≤ t.total_pending_mints)
      × ((h : ℕ)
          → claimed after.pending_mint_groups_claimed h
            ≡ (if h == g then true else claimed t.pending_mint_groups_claimed h))
      × (unlock ≡ tracker_is_empty after)
unfolding get_nth_pending_mint_offset
claimed_group_is_next_mints g key m unlock mints offset c accepted =
    let t = m.current_pending_mints_tracker in
    let (g_256, below, free, same, moved, account) =
      accepted_claim g key m unlock mints offset c accepted in
    let (_, _, _, bits) = mark_claims_one_group t g c below g_256 free in
    let next = (mark_pending_mints_group_claimed g t).1 in
    let (before, inside, _) = groups_partition_mints t g c.total_bound below in
    let placed : offset
        ≡ 72 + get_current_total_pending_mints_groups t * 32 + ((g * 24) % 2 ^ 16) * 40 =
      ap (λ p. p.2) same in
    let size : mints ≡ mints_count_for_group t g = ap (λ p. p.1) same in
    let unlocked : unlock ≡ tracker_is_empty next = ap (λ p. p.0) same in
    (
      account,
      below,
      free,
      omega (arith, placed, before, g_256),
      size ∙ mints_count_for_group-min t g c.total_bound below,
      before,
      omega (arith, size, inside),
      (λ h. ap (λ u. claimed u.pending_mint_groups_claimed h) moved ∙ bits h),
      unlocked ∙ sym (ap tracker_is_empty moved),
    )
