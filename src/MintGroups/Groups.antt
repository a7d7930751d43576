-- ===== src/MintGroups/Groups.antt =====
-- How mints are divided into groups: `compute_mint_group_info` of program_state/block_update.rs, the
-- size of a group and `get_nth_pending_mint_offset` of program_state/auto_mint.rs.
use psy_doge_solana_bridge.Prelude.{
  ℕ, zero, suc, ◌+◌, ◌-◌, ◌*◌, ◌/◌, ◌%◌, ◌^◌, ◌<◌, ◌≤◌, min, ◌≡◌, refl, ap, sym, subst, ◌∙◌, inl,
  inr, true, false, ◌==◌, if◌then◌else◌, arith, Bool-cases,
}
use psy_doge_solana_bridge.MintGroups.{
  PendingMintsTracker, get_current_total_pending_mints_groups, pm_max_pending_mints_per_group,
}

-- The number of groups, and the size of the last.
unfoldable pub compute_mint_group_info : ℕ → ℕ × ℕ
compute_mint_group_info total_mints =
    if total_mints == 0
    then (0, 0)
    else let rem = total_mints % pm_max_pending_mints_per_group in
      let last_group_size = if rem == 0 then pm_max_pending_mints_per_group else rem in
      if rem == 0
      then (total_mints / pm_max_pending_mints_per_group, last_group_size)
      else ((total_mints / pm_max_pending_mints_per_group + 1) % 2 ^ 16, last_group_size)

-- The size that `run_auto_mint_group` uses for a group.
unfoldable pub mints_count_for_group : PendingMintsTracker → ℕ → ℕ
mints_count_for_group t group_index =
    if group_index == get_current_total_pending_mints_groups t - 1
    then (let rem = (t.total_pending_mints % 2 ^ 16) % pm_max_pending_mints_per_group in
        if rem == 0 then pm_max_pending_mints_per_group else rem)
    else pm_max_pending_mints_per_group

-- Header of 72 bytes, a hash of 32 bytes for each group, 40 bytes for each mint.
unfoldable pub get_nth_pending_mint_offset : ℕ → ℕ → ℕ
get_nth_pending_mint_offset pending_mint_groups_count global_mint_idx =
    72 + pending_mint_groups_count * 32 + global_mint_idx * 40

pub group_info_matches :
    (t : PendingMintsTracker)
    → t.total_pending_mints < 2 ^ 16
    → get_current_total_pending_mints_groups t ≡ (compute_mint_group_info t.total_pending_mints).0
unfolding get_current_total_pending_mints_groups compute_mint_group_info
group_info_matches t bound = ground arith

-- Mints are divided into as few groups of at most 24 as hold them, and the sizes add up: all groups
-- but the last are full.
pub compute_mint_group_info_lem :
    (total : ℕ)
    → total < 2 ^ 16
    → 0 < total
    → let (groups, last) = compute_mint_group_info total in
      (groups ≡ (total + 23) / 24) × ((groups - 1) * 24 + last ≡ total) × (0 < last) × (last ≤ 24)
unfolding compute_mint_group_info
compute_mint_group_info_lem total bound some_mints = elim (Bool-cases (total == 0)) [
  | inl z ↦ absurd (ground arith)
  | inr nz ↦ elim (Bool-cases (total % 24 == 0)) [
    | inl whole ↦ rw (nz, whole) (ground arith, ground arith, ground arith, ground arith)
    | inr rest ↦ rw (nz, rest) (ground arith, ground arith, ground arith, ground arith)
  ]
]

-- The mints of the groups before a group.
unfoldable pub mints_before : PendingMintsTracker → ℕ → ℕ
mints_before t zero = 0
mints_before t (suc n) = mints_before t n + mints_count_for_group t n

pub some_mints_of_groups :
    (t : PendingMintsTracker)
    → 0 < get_current_total_pending_mints_groups t
    → 0 < t.total_pending_mints
unfolding get_current_total_pending_mints_groups
some_mints_of_groups t some_groups = ground arith

full_group :
    (t : PendingMintsTracker) (n : ℕ)
    → suc n < get_current_total_pending_mints_groups t
    → mints_count_for_group t n ≡ 24
unfolding mints_count_for_group
full_group t n lt =
    let inner : (n == get_current_total_pending_mints_groups t - 1) ≡ false = ground (arith, lt) in
    rw inner

last_group :
    (t : PendingMintsTracker)
    → t.total_pending_mints < 2 ^ 16
    → 0 < t.total_pending_mints
    → mints_count_for_group t (get_current_total_pending_mints_groups t - 1)
      ≡ (compute_mint_group_info t.total_pending_mints).1
unfolding mints_count_for_group compute_mint_group_info
last_group t bound some_mints =
    let same : (get_current_total_pending_mints_groups t - 1
          == get_current_total_pending_mints_groups t - 1)
        ≡ true =
      ground arith in
    let exact : t.total_pending_mints % 2 ^ 16 ≡ t.total_pending_mints = omega arith in
    let nonzero : (t.total_pending_mints == 0) ≡ false = ground arith in
    rw (same, exact, nonzero)
      (elim (Bool-cases (t.total_pending_mints % 24 == 0)) [
        | inl whole ↦ rw whole
        | inr rest ↦ rw rest
      ])

-- A group has 24 mints, or what is left for the last.
pub mints_count_for_group-min :
    (t : PendingMintsTracker) (g : ℕ)
    → t.total_pending_mints < 2 ^ 16
    → g < get_current_total_pending_mints_groups t
    → mints_count_for_group t g ≡ min 24 (t.total_pending_mints - g * 24)
unfolding mints_count_for_group get_current_total_pending_mints_groups
mints_count_for_group-min t g small lt = ground arith

mints_before_full :
    (t : PendingMintsTracker) (n : ℕ)
    → n < get_current_total_pending_mints_groups t
    → mints_before t n ≡ n * 24
unfolding mints_before
mints_before_full t zero lt = refl
mints_before_full t (suc n) lt =
    rw (mints_before_full t n (omega arith), full_group t n lt) (omega arith)

-- The groups take the mints of the buffer in order, without gap or overlap: a group starts where
-- the groups before it end, and the last ends with the last mint.
pub groups_partition_mints :
    (t : PendingMintsTracker) (n : ℕ)
    → t.total_pending_mints < 2 ^ 16
    → n < get_current_total_pending_mints_groups t
    → (mints_before t n ≡ n * 24)
      × (mints_before t n + mints_count_for_group t n ≤ t.total_pending_mints)
      × (mints_before t (get_current_total_pending_mints_groups t) ≡ t.total_pending_mints)
unfolding mints_before
groups_partition_mints t n bound n_lt =
    let groups = get_current_total_pending_mints_groups t in
    let some_mints = some_mints_of_groups t (omega arith) in
    let info = compute_mint_group_info_lem t.total_pending_mints bound some_mints in
    let matches = group_info_matches t bound in
    let last = last_group t bound some_mints in
    let before = mints_before_full t n n_lt in
    let whole = mints_before_full t (groups - 1) (omega arith) in
    let next : groups ≡ suc (groups - 1) = omega arith in
    let total : mints_before t (groups - 1) + mints_count_for_group t (groups - 1)
        ≡ t.total_pending_mints =
      omega (arith, info.1, matches, last, whole) in
    (
      before,
      elim (Bool-cases (n == groups - 1)) [
        | inl at_last ↦
            let e : n ≡ groups - 1 = ground arith in
            subst (λ k. mints_before t k + mints_count_for_group t k ≤ t.total_pending_mints)
              (sym e) (omega (arith, total))
        | inr inner ↦
            let lt : suc n < groups = ground arith in
            let size = full_group t n lt in omega (arith, size, before, info.1, matches)
      ],
      ap (mints_before t) next ∙ total,
    )
