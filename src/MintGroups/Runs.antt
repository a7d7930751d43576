-- ===== src/MintGroups/Runs.antt =====
-- Sequences of claims: every order of the groups empties a tracker of at most 256 groups, and none
-- empties a larger one.
use psy_doge_solana_bridge.Prelude.{
  ℕ, ◌+◌, ◌/◌, ◌<◌, ◌≤◌, ◌≡◌, refl, sym, ap, ◌∙◌, Bool, true, false, List, [], ◌∷◌, length, ◌==◌,
  if◌then◌else◌, arith, ◌||◌, subst, get_elem?, get_elem?-beyond, none,
}
use psy_doge_solana_bridge.Errors.{ok}
use psy_doge_solana_bridge.MintGroups.{
  PendingMintsTracker, is_pending_mints_group_already_claimed, claim_group,
  mark_pending_mints_group_claimed, ensure_can_claim_pending_mints_group,
  get_current_total_pending_mints_groups,
}
use psy_doge_solana_bridge.MintGroups.Bitmap.{claimed}
use psy_doge_solana_bridge.MintGroups.Claims.{Consistent}
use psy_doge_solana_bridge.MintGroups.Mark.{mark_claims_one_group, ensure_can_claim_iff}

-- The claims of a list of groups, each checked and then marked.
pub data Run : PendingMintsTracker → List ℕ → PendingMintsTracker → Type 0 where
  done : {t : PendingMintsTracker} → Run t [] t
  claim :
      {t after last : PendingMintsTracker} {g : ℕ} {gs : List ℕ} {emptied : Bool}
      → ensure_can_claim_pending_mints_group t g ≡ ok tt
      → mark_pending_mints_group_claimed g t ≡ (ok emptied, after)
      → Run after gs last
      → Run t (g ∷ gs) last

-- Each group once.
unfoldable pub member : ℕ → List ℕ → Bool
member h [] = false
member h (g ∷ gs) = h == g || member h gs

unfoldable pub no_duplicates : List ℕ → Bool
unfolding member
no_duplicates [] = true
no_duplicates (g ∷ gs) = if member g gs then false else no_duplicates gs

ensure_in_range :
    (t : PendingMintsTracker) (g : ℕ)
    → ensure_can_claim_pending_mints_group t g ≡ ok tt
    → (g ≤ 256) × (g < get_current_total_pending_mints_groups t)
unfolding ensure_can_claim_pending_mints_group
ensure_in_range t g passed = ground arith

-- The bitmap has no bit for group 256.
pub ensure_below_256 :
    (t : PendingMintsTracker) (g : ℕ)
    → Consistent t
    → ensure_can_claim_pending_mints_group t g ≡ ok tt
    → g < 256
unfolding ensure_can_claim_pending_mints_group is_pending_mints_group_already_claimed
ensure_below_256 t g c passed =
    let beyond : g ≡ 256 → get_elem? t.pending_mint_groups_claimed (g / 8) ≡ none =
      λ e. get_elem?-beyond t.pending_mint_groups_claimed (g / 8) (omega (arith, c.bytes)) in
    let range = ensure_in_range t g passed in ground arith

mark-total :
    (t : PendingMintsTracker) (g : ℕ)
    → (mark_pending_mints_group_claimed g t).1.total_pending_mints ≡ t.total_pending_mints
unfolding mark_pending_mints_group_claimed claim_group
mark-total t g = ground arith

groups_of_total :
    (t u : PendingMintsTracker)
    → t.total_pending_mints ≡ u.total_pending_mints
    → get_current_total_pending_mints_groups t ≡ get_current_total_pending_mints_groups u
unfolding get_current_total_pending_mints_groups
groups_of_total t u e = rw e

pub mark-groups :
    (t : PendingMintsTracker) (g : ℕ)
    → get_current_total_pending_mints_groups (mark_pending_mints_group_claimed g t).1
      ≡ get_current_total_pending_mints_groups t
mark-groups t g = groups_of_total (mark_pending_mints_group_claimed g t).1 t (mark-total t g)

-- Along any claims the count agrees with the bitmap, each claim takes one group off it, and the
-- groups that become claimed are those of the claims.
pub claims_keep_count :
    (t last : PendingMintsTracker) (gs : List ℕ)
    → Consistent t
    → Run t gs last
    → Consistent last
      × (last.pending_mints_groups_remaining + length gs ≡ t.pending_mints_groups_remaining)
      × (get_current_total_pending_mints_groups last ≡ get_current_total_pending_mints_groups t)
      × ((h : ℕ)
          → claimed last.pending_mint_groups_claimed h
            ≡ (member h gs || claimed t.pending_mint_groups_claimed h))
unfolding member
claims_keep_count t last [] c done = (c, omega arith, refl, λ h. refl)
claims_keep_count t last (g ∷ gs) c (claim {after = after} passed marked rest) =
    let g_256 = ensure_below_256 t g c passed in
    let (below, free) = (ensure_can_claim_iff t g c g_256).0 passed in
    let moved : (mark_pending_mints_group_claimed g t).1 ≡ after = ap (λ p. p.1) marked in
    let (_, consistent, fewer, bits) = mark_claims_one_group t g c below g_256 free in
    let (c_last, counted, groups, members) =
      claims_keep_count after last gs (subst Consistent moved consistent) rest in
    let fewer_after : after.pending_mints_groups_remaining + 1 ≡ t.pending_mints_groups_remaining =
      subst (λ u. u.pending_mints_groups_remaining + 1 ≡ t.pending_mints_groups_remaining) moved
        fewer in
    let bits_after : (h : ℕ)
        → claimed after.pending_mint_groups_claimed h
          ≡ (if h == g then true else claimed t.pending_mint_groups_claimed h) =
      λ h.
        subst
          (λ u.
            claimed u.pending_mint_groups_claimed h
            ≡ (if h == g then true else claimed t.pending_mint_groups_claimed h))
          moved (bits h) in
    (
      c_last,
      omega (arith, counted, fewer_after),
      groups ∙ ap get_current_total_pending_mints_groups (sym moved) ∙ mark-groups t g,
      λ h. members h ∙ rw (bits_after h) (grind arith),
    )
