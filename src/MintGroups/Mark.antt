-- ===== src/MintGroups/Mark.antt =====
-- One claim of a group: what `ensure_can_claim_pending_mints_group` lets through and what
-- `mark_pending_mints_group_claimed` does.
use psy_doge_solana_bridge.Prelude.{
  ℕ, ◌+◌, ◌/◌, ◌%◌, ◌<◌, ◌≡◌, ◌↔◌, refl, ◌∙◌, inl, inr, ◌⊎◌, true, false, bit_and, get_or, ltb, leb,
  ◌==◌, if◌then◌else◌, arith, length-set, Bool-cases,
}
use psy_doge_solana_bridge.Prelude.Bits.{bit_and_mask}
use psy_doge_solana_bridge.Errors.{
  ok, err, pending_mints_group_already_processed, no_pending_mints_to_process,
}
use psy_doge_solana_bridge.MintGroups.{
  PendingMintsTracker, tracker_is_empty, claim_group, mark_pending_mints_group_claimed,
  ensure_can_claim_pending_mints_group, get_current_total_pending_mints_groups,
}
use psy_doge_solana_bridge.MintGroups.Bitmap.{claimed, already_claimed_lem, claimed-set}
use psy_doge_solana_bridge.MintGroups.Claims.{
  Consistent, unclaimed-claim, unclaimed-positive, mark_unclaimed, groups_of_some_mints,
}

claimed-claim_group :
    (t : PendingMintsTracker) (g h : ℕ)
    → Consistent t
    → g < 256
    → claimed
        (claim_group t g
          (get_or t.pending_mint_groups_claimed (g / 8) 0)).pending_mint_groups_claimed
        h
      ≡ (if h == g then true else claimed t.pending_mint_groups_claimed h)
unfolding claim_group
claimed-claim_group t g h c g_256 =
    let low : bit_and g 7 ≡ g % 8 = bit_and_mask 3 g in
    rw low (claimed-set t.pending_mint_groups_claimed g h (omega (arith, c.bytes)))

claim_group-Consistent :
    (t : PendingMintsTracker) (g : ℕ)
    → Consistent t
    → g < get_current_total_pending_mints_groups t
    → g < 256
    → claimed t.pending_mint_groups_claimed g ≡ false
    → let after = claim_group t g (get_or t.pending_mint_groups_claimed (g / 8) 0) in
      Consistent after
      × (after.pending_mints_groups_remaining + 1 ≡ t.pending_mints_groups_remaining)
unfolding claim_group get_current_total_pending_mints_groups
claim_group-Consistent t g c g_lt g_256 free =
    let after = claim_group t g (get_or t.pending_mint_groups_claimed (g / 8) 0) in
    let counted =
      unclaimed-claim t.pending_mint_groups_claimed after.pending_mint_groups_claimed _ g g_lt free
        (λ h. claimed-claim_group t g h c g_256) in
    (
      record {
        bytes = length-set t.pending_mint_groups_claimed _ _ ∙ c.bytes;
        total_bound = c.total_bound;
        remaining = omega (arith, c.remaining, counted);
      },
      omega (arith, c.remaining, counted),
    )

-- A group that is not claimed can be claimed: exactly it becomes claimed, one group fewer remains,
-- the count still agrees with the bitmap, and the call returns whether it was the last.
pub mark_claims_one_group :
    (t : PendingMintsTracker) (g : ℕ)
    → Consistent t
    → g < get_current_total_pending_mints_groups t
    → g < 256
    → claimed t.pending_mint_groups_claimed g ≡ false
    → let (result, after) = mark_pending_mints_group_claimed g t in
      (result ≡ ok (tracker_is_empty after))
      × Consistent after
      × (after.pending_mints_groups_remaining + 1 ≡ t.pending_mints_groups_remaining)
      × ((h : ℕ)
          → claimed after.pending_mint_groups_claimed h
            ≡ (if h == g then true else claimed t.pending_mint_groups_claimed h))
unfolding tracker_is_empty
mark_claims_one_group t g c g_lt g_256 free =
    let (consistent, fewer) = claim_group-Consistent t g c g_lt g_256 free in
    rw (mark_unclaimed t g c g_lt g_256 free)
      (refl, consistent, fewer, λ h. claimed-claim_group t g h c g_256)

-- A claim of a claimed group is refused and leaves the tracker as it was.
mark_refuses_claimed :
    (t : PendingMintsTracker) (g : ℕ)
    → Consistent t
    → g < 256
    → claimed t.pending_mint_groups_claimed g ≡ true
    → (mark_pending_mints_group_claimed g t ≡ (err pending_mints_group_already_processed, t))
      ⊎ (mark_pending_mints_group_claimed g t ≡ (err no_pending_mints_to_process, t))
unfolding mark_pending_mints_group_claimed
mark_refuses_claimed t g c g_256 taken =
    let in_range : ltb 256 g ≡ false = ground arith in
    elim (Bool-cases (t.total_pending_mints == 0)) [
      | inl z ↦ inr (rw z)
      | inr z ↦ elim (Bool-cases (t.pending_mints_groups_remaining == 0)) [
        | inl y ↦ inr (rw (z, y))
        | inr y ↦ inl (rw (z, y, in_range, already_claimed_lem t g c.bytes g_256, taken))
      ]
    ]

-- A claim of a group below 256: if the group is one of the buffer and not claimed, exactly it becomes
-- claimed, one group fewer remains, the count still agrees with the bitmap, and the call returns
-- whether it was the last; if it is claimed, the call is refused and the tracker stays as it was.
pub mark_claims_each_group_once :
    (t : PendingMintsTracker) (g : ℕ)
    → Consistent t
    → g < 256
    → let (result, after) = mark_pending_mints_group_claimed g t in
      ((g < get_current_total_pending_mints_groups t)
        → claimed t.pending_mint_groups_claimed g ≡ false
        → (result ≡ ok (tracker_is_empty after))
          × Consistent after
          × (after.pending_mints_groups_remaining + 1 ≡ t.pending_mints_groups_remaining)
          × ((h : ℕ)
              → claimed after.pending_mint_groups_claimed h
                ≡ (if h == g then true else claimed t.pending_mint_groups_claimed h)))
      × (claimed t.pending_mint_groups_claimed g ≡ true
          → (mark_pending_mints_group_claimed g t ≡ (err pending_mints_group_already_processed, t))
            ⊎ (mark_pending_mints_group_claimed g t ≡ (err no_pending_mints_to_process, t)))
mark_claims_each_group_once t g c g_256 = (
  λ g_lt free. mark_claims_one_group t g c g_lt g_256 free,
  λ taken. mark_refuses_claimed t g c g_256 taken,
)

-- On a group of the first 256, the check before a claim passes exactly for the groups of the
-- buffer that are not claimed.
pub ensure_can_claim_iff :
    (t : PendingMintsTracker) (g : ℕ)
    → Consistent t
    → g < 256
    → (ensure_can_claim_pending_mints_group t g ≡ ok tt) ↔ (
        (g < get_current_total_pending_mints_groups t)
        × (claimed t.pending_mint_groups_claimed g ≡ false))
unfolding ensure_can_claim_pending_mints_group
ensure_can_claim_iff t g c g_256 =
    let in_range : ltb 256 g ≡ false = ground arith in
    let read = already_claimed_lem t g c.bytes g_256 in
    (
      λ passed. ground (arith, read),
      λ p.
          let some_left : (t.pending_mints_groups_remaining == 0) ≡ false =
            ground
              (arith, c.remaining, unclaimed-positive t.pending_mint_groups_claimed _ g p.0 p.1) in
          let below : leb (get_current_total_pending_mints_groups t) g ≡ false =
            ground (arith, p.0) in
          rw (groups_of_some_mints t (omega (arith, p.0)), some_left, in_range, below, read, p.1),
    )
