-- ===== src/Programs/MintBuffer/Insert.antt =====
-- `insert_pending_mints` keeps what the slots of a buffer say.
use psy_doge_solana_bridge.Prelude.{
  ℕ, ◌+◌, ◌*◌, ◌/◌, ◌%◌, ◌^◌, ◌<◌, ◌≤◌, ◌≡◌, ◌≢◌, ◌⊎◌, inl, inr, ap, sym, subst, ◌∙◌, List, length,
  ◌==◌, arith, Bool-cases,
}
use psy_doge_solana_bridge.Bytes.{zero_hash, slice}
use psy_doge_solana_bridge.Bytes.Write.{
  write_at, length-write_at, slice-write_at_self, slice-write_at_apart,
}
use psy_doge_solana_bridge.Programs.{Runtime, IsRuntime, AccountData, buffer, ok}
use psy_doge_solana_bridge.Programs.MintBuffer.{PendingMintsBufferStateHeader, insert_pending_mints}
use psy_doge_solana_bridge.Programs.MintBuffer.Filled.{
  group_slot, group_mints, Inserted, IsFilled, IsWithin, groups_of_bounds, sum_below_bound,
}
use psy_doge_solana_bridge.Programs.MintBuffer.Accepted.{
  with_group, sum_below-with_group, apart, inserted_body, inserted_header, accepted_insert,
}

module _ (rt : Runtime) (real : IsRuntime rt) where
  pub IsFilled-IsWithin :
      (h : PendingMintsBufferStateHeader) (body : List ℕ) (filled : ℕ → ℕ)
      → IsFilled rt h body filled
      → IsWithin h.pending_mints_count filled h.pending_mint_groups_count
  IsFilled-IsWithin h body filled f g lt = elim (f.inserted g lt) [
    | inl empty ↦ inl empty
    | inr (few, inside, digest) ↦ inr (few, omega (arith, f.size (omega arith)))
  ]

  -- The slot and the mints of a group in a body where another group was written.
  other_group_kept :
      (groups g j mints : ℕ) (mint_data digest body : List ℕ)
      → j ≢ g
      → g < groups
      → j < groups
      → length digest ≡ 32
      → length mint_data ≤ 960
      → groups * 32 + g * 24 * 40 + length mint_data ≤ length body
      → Inserted rt groups body j mints
      → Inserted rt groups
          (write_at (groups * 32 + g * 24 * 40) mint_data (write_at (g * 32) digest body))
          j
          mints
  other_group_kept groups g j mints mint_data digest body ne g_lt j_lt digest_len data_len inside
        (few, ends, slot) =
      let first = write_at (g * 32) digest body in
      let first_len : length first ≡ length body =
        length-write_at (g * 32) digest body (omega arith) in
      let second_len =
        length-write_at (groups * 32 + g * 24 * 40) mint_data first (omega (arith, first_len)) in
      let slot_kept : group_slot (write_at (groups * 32 + g * 24 * 40) mint_data first) j
          ≡ group_slot body j =
        slice-write_at_apart (groups * 32 + g * 24 * 40) mint_data first (j * 32) (j * 32 + 32)
          (omega (arith, first_len)) (inl (omega arith))
        ∙ slice-write_at_apart (g * 32) digest body (j * 32) (j * 32 + 32) (omega arith)
            (elim (apart j g ne) [
              | inl below ↦ inl (omega arith)
              | inr above ↦ inr (omega arith)
            ]) in
      let mints_kept : group_mints groups (write_at (groups * 32 + g * 24 * 40) mint_data first) j
            mints
          ≡ group_mints groups body j mints =
        slice-write_at_apart (groups * 32 + g * 24 * 40) mint_data first _ _
          (omega (arith, first_len))
          (elim (apart j g ne) [ inl below ↦ inl (omega arith) | inr above ↦ inr (omega arith) ])
        ∙ slice-write_at_apart (g * 32) digest body _ _ (omega arith) (inr (omega arith)) in
      (few, omega (arith, first_len, second_len), slot_kept ∙ slot ∙ ap rt.sha256 (sym mints_kept))

  new_group-Inserted :
      (groups g : ℕ) (mint_data body : List ℕ)
      → g < groups
      → length mint_data ≤ 960
      → length mint_data % 40 ≡ 0
      → groups * 32 + g * 24 * 40 + length mint_data ≤ length body
      → Inserted rt groups
          (write_at
            (groups * 32 + g * 24 * 40)
            mint_data
            (write_at (g * 32) (rt.sha256 mint_data) body))
          g
          (length mint_data / 40)
  new_group-Inserted groups g mint_data body g_lt data_len whole inside =
      let digest = rt.sha256 mint_data in
      let digest_len : length digest ≡ 32 = real.digest_length mint_data in
      let first = write_at (g * 32) digest body in
      let offset = groups * 32 + g * 24 * 40 in
      let first_len : length first ≡ length body =
        length-write_at (g * 32) digest body (omega arith) in
      let second_len = length-write_at offset mint_data first (omega (arith, first_len)) in
      let end_eq : offset + length mint_data / 40 * 40 ≡ offset + length mint_data = omega arith in
      let slot_end : g * 32 + length digest ≡ g * 32 + 32 = omega arith in
      let slot : group_slot (write_at offset mint_data first) g ≡ digest =
        slice-write_at_apart offset mint_data first (g * 32) (g * 32 + 32)
          (omega (arith, first_len)) (inl (omega arith))
        ∙ ap (λ to. slice (g * 32) to first) (sym slot_end)
        ∙ slice-write_at_self (g * 32) digest body (omega arith) in
      let mints : group_mints groups (write_at offset mint_data first) g (length mint_data / 40)
          ≡ mint_data =
        ap (λ to. slice offset to (write_at offset mint_data first)) end_eq
        ∙ slice-write_at_self offset mint_data first (omega (arith, first_len)) in
      (omega arith, omega (arith, first_len, second_len), slot ∙ ap rt.sha256 (sym mints))

  -- A slot that was zero is that of a group with no mints.
  free_group :
      (h : PendingMintsBufferStateHeader) (body : List ℕ) (filled : ℕ → ℕ) (g : ℕ)
      → IsFilled rt h body filled
      → g < h.pending_mint_groups_count
      → group_slot body g ≡ zero_hash
      → filled g ≡ 0
  free_group h body filled g f lt zero_slot = elim (f.inserted g lt) [
    | inl empty ↦ empty
    | inr (few, inside, digest) ↦ absurd (real.digest_not_zero _ (sym digest ∙ zero_slot))
  ]

  with_group-IsWithin :
      (h : PendingMintsBufferStateHeader) (body : List ℕ) (filled : ℕ → ℕ)
      → IsFilled rt h body filled
      → (g mints : ℕ) → mints ≤ 24
      → g * 24 + mints ≤ h.pending_mints_count
      → IsWithin h.pending_mints_count (with_group g mints filled) h.pending_mint_groups_count
  with_group-IsWithin h body filled f g mints few inside j lt = elim (Bool-cases (j == g)) [
    | inl same ↦ let e : j ≡ g = ground (arith, same) in rw same (inr (few, omega arith))
    | inr other ↦ rw other (IsFilled-IsWithin h body filled f j lt)
  ]

  with_group-Inserted :
      (h : PendingMintsBufferStateHeader) (body : List ℕ) (filled : ℕ → ℕ)
      → IsFilled rt h body filled
      → (g : ℕ) (mint_data : List ℕ) → g < h.pending_mint_groups_count
      → length mint_data ≤ 960
      → length mint_data % 40 ≡ 0
      → h.pending_mint_groups_count * 32 + g * 24 * 40 + length mint_data ≤ length body
      → (j : ℕ) → j < h.pending_mint_groups_count
      → (with_group g (length mint_data / 40) filled j ≡ 0)
        ⊎ Inserted rt h.pending_mint_groups_count
            (write_at
              (h.pending_mint_groups_count * 32 + g * 24 * 40)
              mint_data
              (write_at (g * 32) (rt.sha256 mint_data) body))
            j
            (with_group g (length mint_data / 40) filled j)
  with_group-Inserted h body filled f g mint_data lt data_len whole inside j j_lt =
      elim (Bool-cases (j == g)) [
        | inl same ↦
            let e : j ≡ g = ground (arith, same) in
            rw same (
              inr (
                subst
                  (λ k.
                    Inserted rt h.pending_mint_groups_count
                      (write_at (h.pending_mint_groups_count * 32 + g * 24 * 40) mint_data
                        (write_at (g * 32) (rt.sha256 mint_data) body))
                      k (length mint_data / 40))
                  (sym e)
                  (new_group-Inserted h.pending_mint_groups_count g mint_data body lt data_len whole
                    inside)))
        | inr other ↦ rw other (elim (f.inserted j j_lt) [
          | inl empty ↦ inl empty
          | inr there ↦ inr (
              other_group_kept h.pending_mint_groups_count g j (filled j) mint_data
                (rt.sha256 mint_data) body (λ e. ground (arith, other, e)) lt j_lt
                (real.digest_length mint_data) data_len inside there)
        ])
      ]

  pub insert-IsFilled :
      (g : ℕ) (mint_data : List ℕ) (h : PendingMintsBufferStateHeader) (body : List ℕ)
      (filled : ℕ → ℕ) (memory : AccountData PendingMintsBufferStateHeader)
      → IsFilled rt h body filled
      → insert_pending_mints rt g mint_data h body ≡ ok memory
      → (h' : PendingMintsBufferStateHeader) × (body' : List ℕ) × (memory ≡ buffer h' body')
        × (h'.is_locked ≡ 0)
        × IsFilled rt h' body' (with_group g (length mint_data / 40) filled)
  insert-IsFilled g mint_data h body filled memory f done =
      let (free, lt, data_len, whole, inside, slot_inside, zero_slot, written) =
        accepted_insert rt g mint_data h body done in
      let groups = h.pending_mint_groups_count in
      let mints = length mint_data / 40 in
      let bounds = groups_of_bounds h.pending_mints_count f.small (omega (arith, f.counted)) in
      let offset : (g * 24) % 2 ^ 16 * 40 ≡ g * 24 * 40 = omega (arith, f.counted, bounds) in
      let inside' : groups * 32 + g * 24 * 40 + length mint_data ≤ length body = omega arith in
      let body_eq : inserted_body rt g mint_data h body
          ≡ write_at (groups * 32 + g * 24 * 40) mint_data
              (write_at (g * 32) (rt.sha256 mint_data) body) =
        ap
          (λ o. write_at (groups * 32 + o) mint_data (write_at (g * 32) (rt.sha256 mint_data) body))
          offset in
      let empty : filled g ≡ 0 = free_group h body filled g f lt zero_slot in
      let within : IsWithin h.pending_mints_count (with_group g mints filled) groups = λ j j_lt.
        with_group-IsWithin h body filled f g mints (omega arith)
          (omega (arith, f.size (omega arith))) j j_lt in
      let sum = sum_below-with_group groups g mints filled lt empty in
      let bound =
        (sum_below_bound h.pending_mints_count (with_group g mints filled) groups within).1 in
      let old_bound =
        (sum_below_bound h.pending_mints_count filled groups
          (IsFilled-IsWithin h body filled f)).1 in
      let first_len =
        length-write_at (g * 32) (rt.sha256 mint_data) body
          (omega (arith, real.digest_length mint_data)) in
      let second_len =
        length-write_at (groups * 32 + g * 24 * 40) mint_data
          (write_at (g * 32) (rt.sha256 mint_data) body) (omega (arith, first_len)) in
      (
        inserted_header rt g mint_data h body,
        inserted_body rt g mint_data h body,
        written,
        free,
        record {
          counted = f.counted;
          small = f.small;
          size = λ some. rw body_eq (omega (arith, first_len, second_len, f.size some));
          total = omega (arith, f.total, f.small, sum, bound, old_bound);
          inserted = λ j j_lt.
              rw body_eq
                (with_group-Inserted h body filled f g mint_data lt data_len whole inside' j j_lt);
        },
      )
