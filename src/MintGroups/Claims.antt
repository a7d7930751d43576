-- ===== src/MintGroups/Claims.antt =====
-- Claims of groups on a tracker whose count of groups that remain agrees with its bitmap.
use psy_doge_solana_bridge.Prelude.{
  ℕ, zero, suc, ◌+◌, ◌/◌, ◌^◌, ◌<◌, ◌≡◌, refl, ap, ◌∙◌, inl, inr, true, false, some, List, length,
  get_elem?, get_or, ltb, ◌==◌, if◌then◌else◌, arith, get_elem?-get_or, Bool-cases,
}
use psy_doge_solana_bridge.Errors.{ok}
use psy_doge_solana_bridge.MintGroups.{
  PendingMintsTracker, claim_group, mark_pending_mints_group_claimed,
  get_current_total_pending_mints_groups,
}
use psy_doge_solana_bridge.MintGroups.Bitmap.{claimed, already_claimed_lem}

-- How many of the first `n` groups are not claimed.
unfoldable pub unclaimed : List ℕ → ℕ → ℕ
unclaimed bitmap zero = 0
unclaimed bitmap (suc n) = unclaimed bitmap n + (if claimed bitmap n then 0 else 1)

pub record Consistent (t : PendingMintsTracker) : Type 0 where
  pub bytes : length t.pending_mint_groups_claimed ≡ 32
  pub total_bound : t.total_pending_mints < 2 ^ 16
  pub remaining :
      t.pending_mints_groups_remaining
      ≡ unclaimed t.pending_mint_groups_claimed (get_current_total_pending_mints_groups t)

unclaimed-same :
    (a b : List ℕ) (n : ℕ)
    → ((h : ℕ) → h < n → claimed a h ≡ claimed b h)
    → unclaimed a n ≡ unclaimed b n
unfolding unclaimed
unclaimed-same a b zero same = refl
unclaimed-same a b (suc n) same =
    rw (unclaimed-same a b n (λ h lt. same h (omega arith)), same n (omega arith))

pub unclaimed-claim :
    (a b : List ℕ) (n g : ℕ)
    → g < n
    → claimed a g ≡ false
    → ((h : ℕ) → claimed b h ≡ (if h == g then true else claimed a h))
    → unclaimed b n + 1 ≡ unclaimed a n
unfolding unclaimed
unclaimed-claim a b zero g lt free set_g = elim lt [ ]
unclaimed-claim a b (suc n) g lt free set_g = elim (Bool-cases (n == g)) [
  | inl same ↦
      let e : n ≡ g = ground arith in
      let below : unclaimed b n ≡ unclaimed a n =
        unclaimed-same b a n
          (λ h h_lt. let ne : (h == g) ≡ false = ground arith in set_g h ∙ rw ne refl) in
      let now : claimed b n ≡ true = set_g n ∙ rw same refl in
      let before : claimed a n ≡ false = ap (claimed a) e ∙ free in
      rw (below, now, before) (omega arith)
  | inr other ↦
      let below = unclaimed-claim a b n g (ground arith) free set_g in
      let now : claimed b n ≡ claimed a n = set_g n ∙ rw other refl in rw now (omega arith)
]

pub unclaimed-positive : (a : List ℕ) (n g : ℕ) → g < n → claimed a g ≡ false → 0 < unclaimed a n
unfolding unclaimed
unclaimed-positive a zero g lt free = elim lt [ ]
unclaimed-positive a (suc n) g lt free = elim (Bool-cases (n == g)) [
  | inl same ↦
      let e : n ≡ g = ground arith in
      let before : claimed a n ≡ false = ap (claimed a) e ∙ free in rw before (omega arith)
  | inr other ↦ let below = unclaimed-positive a n g (ground arith) free in omega arith
]

-- No group without mints.
pub groups_of_some_mints :
    (t : PendingMintsTracker)
    → 0 < get_current_total_pending_mints_groups t
    → (t.total_pending_mints == 0) ≡ false
unfolding get_current_total_pending_mints_groups
groups_of_some_mints t some_groups = ground arith

pub mark_unclaimed :
    (t : PendingMintsTracker) (g : ℕ)
    → Consistent t
    → g < get_current_total_pending_mints_groups t
    → g < 256
    → claimed t.pending_mint_groups_claimed g ≡ false
    → mark_pending_mints_group_claimed g t ≡ (
        let after = claim_group t g (get_or t.pending_mint_groups_claimed (g / 8) 0) in
        (ok (after.pending_mints_groups_remaining == 0), after))
unfolding mark_pending_mints_group_claimed
mark_unclaimed t g c g_lt g_256 free =
    let mints = groups_of_some_mints t (omega arith) in
    let left = unclaimed-positive t.pending_mint_groups_claimed _ g g_lt free in
    let some_left : (t.pending_mints_groups_remaining == 0) ≡ false = ground (arith, c.remaining) in
    let in_range : ltb 256 g ≡ false = ground arith in
    let byte : get_elem? t.pending_mint_groups_claimed (g / 8)
        ≡ some (get_or t.pending_mint_groups_claimed (g / 8) 0) =
      get_elem?-get_or t.pending_mint_groups_claimed (g / 8) 0 (omega (arith, c.bytes)) in
    rw (mints, some_left, in_range, already_claimed_lem t g c.bytes g_256, free, byte)
