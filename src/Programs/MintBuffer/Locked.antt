-- ===== src/Programs/MintBuffer/Locked.antt =====
-- A locked buffer: what it holds, and which instruction changes it.
use psy_doge_solana_bridge.Prelude.{
  ℕ, ◌+◌, ◌-◌, ◌*◌, ◌/◌, ◌<◌, ◌≤◌, min, ◌≡◌, ◌≢◌, inl, inr, ap, sym, subst, ◌∙◌, true, false, List,
  ◌∷◌, length, arith, drop, replicate,
}
use psy_doge_solana_bridge.Bytes.{bytes_eq, slice, from_le_bytes}
use psy_doge_solana_bridge.Programs.{Runtime, IsRuntime, AccountData, buffer, ok, Signer}
use psy_doge_solana_bridge.Programs.MintBuffer.{PendingMintsBufferStateHeader, lock, unlock}
use psy_doge_solana_bridge.Programs.MintBuffer.Instructions.{MintAccounts, process_instruction}
use psy_doge_solana_bridge.Programs.MintBuffer.Filled.{
  group_slot, group_mints, Inserted, groups_of_bounds, all_filled, sum_below_bound,
}
use psy_doge_solana_bridge.Programs.MintBuffer.Insert.{IsFilled-IsWithin, insert-IsFilled}
use psy_doge_solana_bridge.Programs.MintBuffer.Accepted.{accepted_insert, with_group}
use psy_doge_solana_bridge.Programs.MintBuffer.Done.{
  setup_done, setup_done_on, reinit_done, resize_done, insert_done, header_done,
}
use psy_doge_solana_bridge.Programs.MintBuffer.Reach.{
  IsBytes, IsSound, from_le_bytes_two, resize_account_lem, setup-IsSound, reinit-IsSound,
  grown_sound, lock-IsSound, unlock-IsSound,
}
use psy_doge_solana_bridge.Programs.MintBuffer.Calls.{
  Reachable, no_memory, instruction, Call, set_up, reinited, resized, inserted, locked, unlocked,
  new_len_bounds, call_of, reinit_free, lock_free, setup_first, unlock_by_locker,
}

module _ (rt : Runtime) (program_id : List ℕ) where
  -- The one instruction that succeeds on a locked buffer whose locker is set is that its locker
  -- unlocks it: he signs, the counts are cleared, and the bytes stay.
  pub locked_buffer_only_unlocks :
      (input : List ℕ) (accounts after : MintAccounts) (h : PendingMintsBufferStateHeader)
      (body : List ℕ)
      → IsBytes input
      → accounts.storage.memory ≡ buffer h body
      → h.is_locked ≢ 0
      → bytes_eq h.authorized_locker_public_key (replicate 32 0) ≡ false
      → process_instruction rt program_id input accounts ≡ ok after
      → (signer : Signer) × (others : List Signer) × (accounts.others ≡ signer ∷ others)
        × (signer.is_signer ≡ true)
        × (signer.key ≡ h.authorized_locker_public_key)
        × (after.storage.memory
            ≡ buffer
                (record h {
                  is_locked = 0;
                  pending_mint_groups_count = 0;
                  pending_mints_count = 0;
                  pending_mints_initialized = 0;
                })
                body)
  locked_buffer_only_unlocks input accounts after h body bytes there is_locked locker_set done =
      go (call_of rt program_id input accounts after bytes done)
    where
      same_header :
          (h' : PendingMintsBufferStateHeader) (body' : List ℕ)
          → accounts.storage.memory ≡ buffer h' body'
          → (h ≡ h') × (body ≡ body')
      same_header h' body' memory = (cc (there, memory), cc (there, memory))

      go :
          Call rt program_id accounts after
          → (signer : Signer) × (others : List Signer) × (accounts.others ≡ signer ∷ others)
            × (signer.is_signer ≡ true)
            × (signer.key ≡ h.authorized_locker_public_key)
            × (after.storage.memory
                ≡ buffer
                    (record h {
                      is_locked = 0;
                      pending_mint_groups_count = 0;
                      pending_mints_count = 0;
                      pending_mints_initialized = 0;
                    })
                    body)
      go (set_up rest d) =
          let (h', made) = setup_done_on rt program_id rest accounts after h body d there in
          absurd (cc (setup_first rt program_id _ _ h h' made, locker_set))
      go (reinited rest b d) =
          let (payer, h1, h', body1, grown, memory, _, _, _, made, _) =
            reinit_done rt program_id rest accounts after d in
          absurd (
            is_locked (
              ap (λ x. x.is_locked) (same_header h1 body1 memory).0
              ∙ reinit_free rt program_id _ h1 h' made))
      go (resized d) =
          let (payer, h1, body1, grown, memory, _, free, _, _, _) =
            resize_done rt program_id accounts after d in
          absurd (is_locked (ap (λ x. x.is_locked) (same_header h1 body1 memory).0 ∙ free))
      go (inserted rest d) =
          let (payer, h1, body1, grown, memory, _, _, made) =
            insert_done rt program_id rest accounts after d in
          absurd (
            is_locked (
              ap (λ x. x.is_locked) (same_header h1 body1 memory).0
              ∙ (accepted_insert rt _ _ h1 grown.2 made).0))
      go (locked d) =
          let (signer, _, h1, h', body1, _, _, memory, made, _) =
            header_done rt program_id lock accounts after d in
          absurd (
            is_locked (
              ap (λ x. x.is_locked) (same_header h1 body1 memory).0
              ∙ lock_free rt program_id signer.key h1 h' made))
      go (unlocked d) =
          let (signer, others, h1, h', body1, first, signed, memory, made, result) =
            header_done rt program_id unlock accounts after d in
          let (by_locker, cleared) = unlock_by_locker rt program_id signer.key h1 h' made in
          let (same, same_body) = same_header h1 body1 memory in
          (
            signer,
            others,
            first,
            signed,
            by_locker ∙ ap (λ x. x.authorized_locker_public_key) (sym same),
            rw (same, same_body) (result ∙ ap (λ x. buffer x body1) cleared),
          )

  module _ (real : IsRuntime rt) where
    call-IsSound :
        (accounts after : MintAccounts)
        → Call rt program_id accounts after
        → IsSound rt accounts.storage.memory
        → IsSound rt after.storage.memory
    call-IsSound accounts after (set_up rest done) sound =
        let (h, h', body, made, memory) = setup_done rt program_id rest accounts after done in
        rw memory (setup-IsSound rt real _ _ h h' body made)
    call-IsSound accounts after (reinited rest bytes done) sound =
        let (payer, h, h', body, grown, _, _, two, resized', made, memory) =
          reinit_done rt program_id rest accounts after done in
        let count = from_le_bytes (slice 0 2 rest) in
        let (size, _) =
          resize_account_lem rt real accounts.storage payer body _ true grown
            (new_len_bounds count body).0 resized' in
        rw memory (
          reinit-IsSound rt real count h h' grown.2 (from_le_bytes_two rest two bytes)
            (omega (arith, size, new_len_bounds count body)) made)
    call-IsSound accounts after (resized done) sound =
        let (payer, h, body, grown, before, _, free, _, resized', memory) =
          resize_done rt program_id accounts after done in
        let (filled, f, _) = subst (IsSound rt) before sound in
        rw memory (
          filled,
          grown_sound rt real accounts.storage payer h body true grown filled f resized',
          λ is_locked. absurd (is_locked free),
        )
    call-IsSound accounts after (inserted rest done) sound =
        let (payer, h, body, grown, before, _, resized', made) =
          insert_done rt program_id rest accounts after done in
        let (filled, f, _) = subst (IsSound rt) before sound in
        let (h', body', memory, free, f') =
          insert-IsFilled rt real _ _ h grown.2 filled _
            (grown_sound rt real accounts.storage payer h body false grown filled f resized')
            made in
        rw memory (
          with_group (from_le_bytes (slice 0 2 rest)) (length (drop 2 rest) / 40) filled,
          f',
          λ is_locked. absurd (is_locked free),
        )
    call-IsSound accounts after (locked done) sound =
        let (signer, _, h, h', body, _, _, before, made, memory) =
          header_done rt program_id lock accounts after done in
        rw memory (lock-IsSound rt real signer.key h h' body made (subst (IsSound rt) before sound))
    call-IsSound accounts after (unlocked done) sound =
        let (signer, _, h, h', body, _, _, before, made, memory) =
          header_done rt program_id unlock accounts after done in
        rw memory (unlock-IsSound rt real signer.key h h' body made)

    Reachable-IsSound :
        (memory : AccountData PendingMintsBufferStateHeader)
        → Reachable rt program_id memory
        → IsSound rt memory
    Reachable-IsSound memory no_memory = tt
    Reachable-IsSound memory (instruction input accounts after bytes earlier done same) =
        subst (IsSound rt) same (
          call-IsSound accounts after (call_of rt program_id input accounts after bytes done)
            (Reachable-IsSound accounts.storage.memory earlier))

    -- A locked buffer for some mints has as many groups as these need.
    pub locked_counts :
        (h : PendingMintsBufferStateHeader) (body : List ℕ)
        → Reachable rt program_id (buffer h body)
        → h.is_locked ≢ 0
        → 0 < h.pending_mints_count
        → h.pending_mint_groups_count ≡ (h.pending_mints_count + 23) / 24
    locked_counts h body reached is_locked some_mints =
        let (filled, f, whole) = Reachable-IsSound (buffer h body) reached in
        let bound =
          sum_below_bound h.pending_mints_count filled h.pending_mint_groups_count
            (IsFilled-IsWithin rt real h body filled f) in
        let exact =
          groups_of_bounds h.pending_mints_count f.small
            (omega (arith, f.counted, f.total, whole is_locked, bound)) in
        omega (arith, f.counted, exact)

    -- In a locked buffer, whatever instructions led to it, every group is complete: its slot has the
    -- digest of 24 mints, or of what is left of all the mints for the last group, and those are
    -- within the account.
    pub locked_buffer_is_complete :
        (h : PendingMintsBufferStateHeader) (body : List ℕ) (g : ℕ)
        → Reachable rt program_id (buffer h body)
        → h.is_locked ≢ 0
        → g < h.pending_mint_groups_count
        → let mints = min 24 (h.pending_mints_count - g * 24) in
          (0 < mints)
          × (h.pending_mint_groups_count ≡ (h.pending_mints_count + 23) / 24)
          × (h.pending_mint_groups_count * 32 + (g * 24 + mints) * 40 ≤ length body)
          × (group_slot body g ≡ rt.sha256 (group_mints h.pending_mint_groups_count body g mints))
    locked_buffer_is_complete h body g reached is_locked lt =
        let (filled, f, whole) = Reachable-IsSound (buffer h body) reached in
        let (exact, _, _) =
          groups_of_bounds h.pending_mints_count f.small (omega (arith, f.counted)) in
        let own : filled g ≡ min 24 (h.pending_mints_count - g * 24) =
          all_filled h.pending_mints_count filled h.pending_mint_groups_count g
            (IsFilled-IsWithin rt real h body filled f) lt (f.total ∙ whole is_locked) in
        elim (f.inserted g lt) [
          | inl empty ↦ absurd (omega (arith, f.counted))
          | inr there ↦
              let (few, inside, slot) =
                subst (Inserted rt h.pending_mint_groups_count body g) own there in
              (omega (arith, f.counted), omega (arith, f.counted), inside, slot)
        ]
