-- ===== src/Programs/MintBuffer/Filled.antt =====
-- What the slots of a buffer say of its mints: each group that was inserted has the digest of its
-- mints in its slot, and the header counts the mints of the groups.
use psy_doge_solana_bridge.Prelude.{
  ℕ, zero, suc, ◌+◌, ◌-◌, ◌*◌, ◌/◌, ◌^◌, ◌<◌, ◌≤◌, min, ◌≡◌, ◌⊎◌, inl, inr, List, length, arith,
}
use psy_doge_solana_bridge.Bytes.{Hash, slice}
use psy_doge_solana_bridge.Programs.{Runtime}
use psy_doge_solana_bridge.Programs.MintBuffer.{PendingMintsBufferStateHeader, groups_of}

-- The slot of a group, and the first mints of a group, behind the header.
abbrev pub group_slot : List ℕ → ℕ → Hash
group_slot body g = slice (g * 32) (g * 32 + 32) body

abbrev pub group_mints : ℕ → List ℕ → ℕ → ℕ → List ℕ
group_mints groups body g mints =
    slice (groups * 32 + g * 24 * 40) (groups * 32 + g * 24 * 40 + mints * 40) body

unfoldable pub sum_below : ℕ → (ℕ → ℕ) → ℕ
sum_below zero f = 0
sum_below (suc n) f = sum_below n f + f n

abbrev pub Inserted : Runtime → ℕ → List ℕ → ℕ → ℕ → Type 0
Inserted rt groups body g mints =
    (mints ≤ 24)
    × (groups * 32 + (g * 24 + mints) * 40 ≤ length body)
    × (group_slot body g ≡ rt.sha256 (group_mints groups body g mints))

pub record IsFilled (rt : Runtime) (h : PendingMintsBufferStateHeader) (body : List ℕ)
    (filled : ℕ → ℕ) : Type 0 where
  pub counted : h.pending_mint_groups_count ≡ groups_of h.pending_mints_count
  pub small : h.pending_mints_count < 2 ^ 16
  pub size :
      0 < h.pending_mint_groups_count
      → length body ≤ h.pending_mint_groups_count * 32 + h.pending_mints_count * 40
  pub total : sum_below h.pending_mint_groups_count filled ≡ h.pending_mints_initialized
  pub inserted :
      (g : ℕ)
      → g < h.pending_mint_groups_count
      → (filled g ≡ 0) ⊎ Inserted rt h.pending_mint_groups_count body g (filled g)

-- With fewer than 65513 mints the groups are as many as are needed, and else none.
pub groups_of_bounds :
    (count : ℕ)
    → count < 2 ^ 16
    → 0 < groups_of count
    → (groups_of count ≡ (count + 23) / 24) × (count ≤ 65512) × (groups_of count ≤ 2730)
unfolding groups_of
groups_of_bounds count small some_group = (omega arith, omega arith, omega arith)

-- Counts of groups that are within the mints.
module _ (mints : ℕ) (filled : ℕ → ℕ) where
  abbrev pub IsWithin : ℕ → Type 0
  IsWithin groups =
      (g : ℕ) → g < groups → (filled g ≡ 0) ⊎ ((filled g ≤ 24) × (g * 24 + filled g ≤ mints))

  pub sum_below_bound :
      (groups : ℕ)
      → IsWithin groups
      → (sum_below groups filled ≤ groups * 24) × (sum_below groups filled ≤ mints)
  unfolding sum_below
  sum_below_bound zero h = (omega arith, omega arith)
  sum_below_bound (suc n) h =
      let before = sum_below_bound n (λ g lt. h g (omega arith)) in
      elim (h n (omega arith)) [
        | inl none_there ↦ (omega arith, omega arith)
        | inr (few, within) ↦ (omega arith, omega arith)
      ]

  -- The mints up to a group and what is left of all the mints.
  falls :
      (groups g : ℕ)
      → IsWithin groups
      → g < groups
      → filled g + (mints - suc g * 24) ≤ mints - g * 24
  falls groups g h lt = elim (h g lt) [
    | inl none_there ↦ omega arith
    | inr (few, within) ↦ omega arith
  ]

  falls_from_start :
      (groups g : ℕ) → IsWithin groups → g ≤ groups → sum_below g filled + (mints - g * 24) ≤ mints
  unfolding sum_below
  falls_from_start groups zero h le = omega arith
  falls_from_start groups (suc g) h le =
      omega (arith, falls groups g h (omega arith), falls_from_start groups g h (omega arith))

  falls_to_end :
      (left groups g : ℕ)
      → IsWithin groups
      → g + left ≡ groups
      → sum_below groups filled + (mints - groups * 24) ≤ sum_below g filled + (mints - g * 24)
  unfolding sum_below
  falls_to_end zero groups g h e = let same : g ≡ groups = omega arith in rw same (omega arith)
  falls_to_end (suc left) groups g h e =
      omega
        (arith, falls groups g h (omega arith), falls_to_end left groups (suc g) h (omega arith))

  -- Where all mints are counted, each group has all of its own.
  pub all_filled :
      (groups g : ℕ)
      → IsWithin groups
      → g < groups
      → sum_below groups filled ≡ mints
      → filled g ≡ min 24 (mints - g * 24)
  unfolding sum_below
  all_filled groups g h lt whole =
      let before = falls_from_start groups g h (omega arith) in
      let step = falls groups g h lt in
      let after = falls_to_end (groups - suc g) groups (suc g) h (omega arith) in
      elim (h g lt) [ inl none_there ↦ omega arith | inr (few, within) ↦ omega arith ]
