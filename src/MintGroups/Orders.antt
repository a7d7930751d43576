-- ===== src/MintGroups/Orders.antt =====
-- Orders of claims: every order of the groups empties a tracker of at most 256 groups, and none
-- empties a larger one.
use native.Mathlib.Nat.{zero-div}
use psy_doge_solana_bridge.Prelude.{
  ℕ, zero, suc, ◌+◌, ◌/◌, ◌%◌, ◌^◌, ◌<◌, ◌≤◌, ◌≡◌, refl, ap, ◌∙◌, inl, inr, true, false, List, [],
  ◌∷◌, length, ltb, ◌==◌, if◌then◌else◌, arith, Bool-cases, get_or, replicate, get_or-beyond,
}
use psy_doge_solana_bridge.MintGroups.{
  PendingMintsTracker, tracker_is_empty, mark_pending_mints_group_claimed,
  get_current_total_pending_mints_groups,
}
use psy_doge_solana_bridge.MintGroups.Bitmap.{claimed, claimed-empty}
use psy_doge_solana_bridge.MintGroups.Claims.{Consistent, unclaimed}
use psy_doge_solana_bridge.MintGroups.Mark.{mark_claims_one_group, ensure_can_claim_iff}
use psy_doge_solana_bridge.MintGroups.Runs.{
  Run, done, claim, member, no_duplicates, claims_keep_count, mark-groups,
}

-- Groups of the buffer that are not claimed, each listed once.
pub record Claimable (t : PendingMintsTracker) (gs : List ℕ) : Type 0 where
  pub distinct : no_duplicates gs ≡ true
  pub open_groups :
      (g : ℕ)
      → member g gs ≡ true
      → (g < get_current_total_pending_mints_groups t)
        × (claimed t.pending_mint_groups_claimed g ≡ false)

Claimable-rest :
    (t after : PendingMintsTracker) (g : ℕ) (gs : List ℕ)
    → Claimable t (g ∷ gs)
    → get_current_total_pending_mints_groups after ≡ get_current_total_pending_mints_groups t
    → ((h : ℕ)
        → claimed after.pending_mint_groups_claimed h
          ≡ (if h == g then true else claimed t.pending_mint_groups_claimed h))
    → Claimable after gs
unfolding member no_duplicates
Claimable-rest t after g gs c groups bits =
    let fresh : member g gs ≡ false = ground (arith, c.distinct) in
    record {
      distinct = ground (arith, c.distinct);
      open_groups = λ h h_in.
          let other : (h == g) ≡ false = elim (Bool-cases (h == g)) [
            | inr ne ↦ ne
            | inl same ↦ let e : h ≡ g = ground arith in absurd (cc (fresh, h_in, e))
          ] in
          let (below, free) = c.open_groups h (rw other h_in) in
          (rw groups below, bits h ∙ rw other free);
    }

head_member : (g : ℕ) (gs : List ℕ) → member g (g ∷ gs) ≡ true
unfolding member
head_member g gs = let same : (g == g) ≡ true = ground arith in rw same

pub unclaimed-none :
    (bitmap : List ℕ) (n : ℕ) → ((g : ℕ) → claimed bitmap g ≡ false) → unclaimed bitmap n ≡ n
unfolding unclaimed
unclaimed-none bitmap zero free = refl
unclaimed-none bitmap (suc n) free = rw (free n, unclaimed-none bitmap n free) (omega arith)

claimed-bound : (bitmap : List ℕ) (g : ℕ) → length bitmap ≡ 32 → claimed bitmap g ≡ true → g < 256
unfolding claimed
claimed-bound bitmap g len taken = elim (Bool-cases (ltb g 256)) [
  | inl lt ↦ ground arith
  | inr ge ↦
      let none_there = get_or-beyond bitmap (g / 8) 0 (ground (arith, len)) in
      let zero_byte : (0 / 2 ^ (g % 8)) ≡ 0 = zero-div (2 ^ (g % 8)) in
      let clear : ((get_or bitmap (g / 8) 0 / 2 ^ (g % 8)) % 2 == 1) ≡ false =
        rw (none_there, zero_byte) refl in
      absurd (cc (clear, taken))
]

-- Claims of distinct open groups can be made one after the other in the order of the list.
pub claims_in_any_order :
    (gs : List ℕ) (t : PendingMintsTracker)
    → Consistent t
    → get_current_total_pending_mints_groups t ≤ 256
    → Claimable t gs
    → (last : PendingMintsTracker) × Run t gs last
claims_in_any_order [] t c few claimable = (t, done)
claims_in_any_order (g ∷ gs) t c few claimable =
    let (below, free) = claimable.open_groups g (head_member g gs) in
    let g_256 : g < 256 = omega (arith, below, few) in
    let after = (mark_pending_mints_group_claimed g t).1 in
    let (result, consistent, _, bits) = mark_claims_one_group t g c below g_256 free in
    let groups = mark-groups t g in
    let (last, run) =
      claims_in_any_order gs after consistent (omega (arith, few, groups))
        (Claimable-rest t after g gs claimable groups bits) in
    (
      last,
      claim ((ensure_can_claim_iff t g c g_256).1 (below, free)) (ap (λ r. (r, after)) result) run,
    )

-- A tracker of at most 256 groups, none of them claimed, is emptied by the claims of all its
-- groups, in whatever order they come.
pub claims_empty_the_tracker :
    (t : PendingMintsTracker) (gs : List ℕ)
    → Consistent t
    → get_current_total_pending_mints_groups t ≤ 256
    → t.pending_mint_groups_claimed ≡ replicate 32 0
    → no_duplicates gs ≡ true
    → length gs ≡ get_current_total_pending_mints_groups t
    → ((g : ℕ) → member g gs ≡ true → g < get_current_total_pending_mints_groups t)
    → (last : PendingMintsTracker) × Run t gs last × (tracker_is_empty last ≡ true)
unfolding tracker_is_empty
claims_empty_the_tracker t gs c few fresh distinct all below =
    let free : (g : ℕ) → claimed t.pending_mint_groups_claimed g ≡ false =
      λ g. ap (λ b. claimed b g) fresh ∙ claimed-empty g in
    let (last, run) =
      claims_in_any_order gs t c few
        (record { distinct = distinct; open_groups = λ g g_in. (below g g_in, free g) }) in
    let (_, counted, _, _) = claims_keep_count t last gs c run in
    let whole =
      unclaimed-none t.pending_mint_groups_claimed (get_current_total_pending_mints_groups t)
        free in
    let rest : last.pending_mints_groups_remaining ≡ 0 =
      omega (arith, counted, all, whole, c.remaining) in
    (last, run, rw rest refl)

unclaimed-beyond : (bitmap : List ℕ) (n : ℕ) → length bitmap ≡ 32 → n ≤ unclaimed bitmap n + 256
unfolding unclaimed
unclaimed-beyond bitmap zero len = omega arith
unclaimed-beyond bitmap (suc n) len = elim (Bool-cases (claimed bitmap n)) [
  | inl taken ↦ let below : n < 256 = claimed-bound bitmap n len taken in omega arith
  | inr free ↦ rw free (omega (arith, unclaimed-beyond bitmap n len))
]

-- A tracker of more than 256 groups is empty after no claims at all: at least the groups from 256
-- on remain.
pub large_tracker_never_empty :
    (t last : PendingMintsTracker) (gs : List ℕ)
    → Consistent t
    → 256 < get_current_total_pending_mints_groups t
    → Run t gs last
    → (tracker_is_empty last ≡ false)
      × (get_current_total_pending_mints_groups t ≤ last.pending_mints_groups_remaining + 256)
unfolding tracker_is_empty
large_tracker_never_empty t last gs c many run =
    let (c_last, _, groups, _) = claims_keep_count t last gs c run in
    let left =
      unclaimed-beyond last.pending_mint_groups_claimed
        (get_current_total_pending_mints_groups last) c_last.bytes in
    let rest : get_current_total_pending_mints_groups t
        ≤ last.pending_mints_groups_remaining + 256 =
      omega (arith, left, groups, c_last.remaining) in
    (ground arith, rest)
