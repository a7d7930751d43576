-- ===== src/Programs/MintBuffer/Done.antt =====
-- What an instruction on a buffer did that succeeded.
use psy_doge_solana_bridge.Prelude.{
  ℕ, ◌+◌, ◌≤◌, ◌≡◌, ap, sym, subst, ◌∙◌, true, false, List, ◌∷◌, length, ltb, ◌==◌, if◌then◌else◌,
  arith, drop,
}
use psy_doge_solana_bridge.Bytes.{bytes_eq, slice, from_le_bytes}
use psy_doge_solana_bridge.Programs.{
  Runtime, ProgramResult, buffer, data_len, ok, ok_injective, >>=-eq-ok, fail_if-eq-ok,
  header_of-err, header_of-panic, Signer, next_account_lem,
}
use psy_doge_solana_bridge.Programs.MintBuffer.{
  PendingMintsBufferStateHeader, insert_pending_mints, setup, reinit, get_total_buffer_size,
  calculate_target_size,
}
use psy_doge_solana_bridge.Programs.MintBuffer.Instructions.{
  MintAccounts, Storage, verify_writer, grown_len, zero_hashes, resize_account, setup_instruction,
  reinit_instruction, resize_instruction, insert_instruction, header_instruction, allocate_if_empty,
}

-- `verify_writer` passes for the writer that the header names.
pub verify_writer_lem :
    (storage : Storage) (signer : Signer) (r : PendingMintsBufferStateHeader × List ℕ)
    → verify_writer storage signer ≡ ok r
    → (storage.memory ≡ buffer r.0 r.1)
      × (bytes_eq r.0.authorized_writer_public_key signer.key ≡ true)
unfolding verify_writer
verify_writer_lem storage signer (h, body) done =
    let (read, found, step1) = >>=-eq-ok _ _ _ done in
    let (same, step2) = fail_if-eq-ok _ _ _ _ step1 in
    let memory = header_of-err _ _ _ found in
    let e : read.0 ≡ h = cc step2 in
    let e' : read.1 ≡ body = cc step2 in (cc (memory, e, e'), rw (← e) (ground (arith, same)))

memory_of :
    (left right : MintAccounts) → ok left ≡ ok right → right.storage.memory ≡ left.storage.memory
memory_of left right same = sym (ap (λ a. a.storage.memory) (ok_injective left right same))

module _ (rt : Runtime) (program_id : List ℕ) where
  -- Memory that is there stays.
  allocate_if_empty_keeps :
      (storage allocated : Storage) (h : PendingMintsBufferStateHeader) (body : List ℕ)
      → storage.memory ≡ buffer h body
      → allocate_if_empty rt program_id storage ≡ ok allocated
      → allocated ≡ storage
  unfolding allocate_if_empty
  allocate_if_empty_keeps storage allocated h body there done =
      let some_memory : (data_len 72 storage.memory == 0) ≡ false = rw there (ground arith) in
      sym (ok_injective _ _ (rw some_memory at done))

  -- Where there is memory already, `setup` is called on its header.
  pub setup_done_on :
      (rest : List ℕ) (accounts after : MintAccounts) (h : PendingMintsBufferStateHeader)
      (body : List ℕ)
      → setup_instruction rt program_id rest accounts ≡ ok after
      → accounts.storage.memory ≡ buffer h body
      → (h' : PendingMintsBufferStateHeader) × (setup (slice 0 32 rest) (slice 32 64 rest) h
          ≡ ok h')
  unfolding setup_instruction
  setup_done_on rest accounts after h body done there =
      let (_, step1) = fail_if-eq-ok _ _ _ _ done in
      let (_, step2) = fail_if-eq-ok _ _ _ _ step1 in
      let (allocated, made, step3) = >>=-eq-ok _ _ _ step2 in
      let (_, step4) = fail_if-eq-ok _ _ _ _ step3 in
      let (read, found, step5) = >>=-eq-ok _ _ _ step4 in
      let (h', done', step6) = >>=-eq-ok _ _ _ step5 in
      let kept = allocate_if_empty_keeps accounts.storage allocated h body there made in
      let memory : buffer h body ≡ buffer read.0 read.1 =
        sym there ∙ sym (ap (λ a. a.memory) kept) ∙ header_of-err _ _ _ found in
      let same : read.0 ≡ h = cc memory in
      (h', subst (λ x. setup (slice 0 32 rest) (slice 32 64 rest) x ≡ ok h') same done')

  pub setup_done :
      (rest : List ℕ) (accounts after : MintAccounts)
      → setup_instruction rt program_id rest accounts ≡ ok after
      → (h : PendingMintsBufferStateHeader) × (h' : PendingMintsBufferStateHeader) × (body : List ℕ)
        × (setup (slice 0 32 rest) (slice 32 64 rest) h ≡ ok h')
        × (after.storage.memory ≡ buffer h' body)
  unfolding setup_instruction
  setup_done rest accounts after done =
      let (_, step1) = fail_if-eq-ok _ _ _ _ done in
      let (_, step2) = fail_if-eq-ok _ _ _ _ step1 in
      let (allocated, _, step3) = >>=-eq-ok _ _ _ step2 in
      let (_, step4) = fail_if-eq-ok _ _ _ _ step3 in
      let (read, _, step5) = >>=-eq-ok _ _ _ step4 in
      let (h', done', step6) = >>=-eq-ok _ _ _ step5 in
      (read.0, h', read.1, done', memory_of _ _ step6)

  pub reinit_done :
      (rest : List ℕ) (accounts after : MintAccounts)
      → reinit_instruction rt program_id rest accounts ≡ ok after
      → let count = from_le_bytes (slice 0 2 rest) in
        let target = calculate_target_size count in
        (payer : Signer) × (h : PendingMintsBufferStateHeader)
        × (h' : PendingMintsBufferStateHeader) × (body : List ℕ) × (grown : ℕ × ℕ × List ℕ)
        × (accounts.storage.memory ≡ buffer h body)
        × (bytes_eq h.authorized_writer_public_key payer.key ≡ true)
        × (length rest ≡ 2)
        × (resize_account rt accounts.storage payer body
              (if ltb (72 + length body) target
                then grown_len target (72 + length body)
                else target)
              true
            ≡ ok grown)
        × (reinit count h ≡ ok h')
        × (after.storage.memory ≡ buffer h' (zero_hashes h'.pending_mint_groups_count grown.2))
  unfolding reinit_instruction
  reinit_done rest accounts after done =
      let (_, step1) = fail_if-eq-ok _ _ _ _ done in
      let (others, _, step2) = >>=-eq-ok _ _ _ step1 in
      let (_, step3) = fail_if-eq-ok _ _ _ _ step2 in
      let (read, verified, step4) = >>=-eq-ok _ _ _ step3 in
      let (two, step5) = fail_if-eq-ok _ _ _ _ step4 in
      let (grown, resized, step6) = >>=-eq-ok _ _ _ step5 in
      let (h', changed, step7) = >>=-eq-ok _ _ _ step6 in
      let (memory, writer) = verify_writer_lem _ _ _ verified in
      (
        others.0,
        read.0,
        h',
        read.1,
        grown,
        memory,
        writer,
        ground (arith, two),
        resized,
        changed,
        memory_of _ _ step7,
      )

  pub resize_done :
      (accounts after : MintAccounts)
      → resize_instruction rt program_id accounts ≡ ok after
      → (payer : Signer) × (h : PendingMintsBufferStateHeader) × (body : List ℕ) × (grown : ℕ
          × ℕ
          × List ℕ)
        × (accounts.storage.memory ≡ buffer h body)
        × (bytes_eq h.authorized_writer_public_key payer.key ≡ true)
        × (h.is_locked ≡ 0)
        × (72 + length body ≤ get_total_buffer_size h)
        × (resize_account rt accounts.storage payer body
              (grown_len (get_total_buffer_size h) (72 + length body))
              true
            ≡ ok grown)
        × (after.storage.memory ≡ buffer h grown.2)
  unfolding resize_instruction
  resize_done accounts after done =
      let (_, step1) = fail_if-eq-ok _ _ _ _ done in
      let (others, _, step2) = >>=-eq-ok _ _ _ step1 in
      let (_, step3) = fail_if-eq-ok _ _ _ _ step2 in
      let (read, verified, step4) = >>=-eq-ok _ _ _ step3 in
      let (free, step5) = fail_if-eq-ok _ _ _ _ step4 in
      let (large, step6) = fail_if-eq-ok _ _ _ _ step5 in
      let (grown, resized, step7) = >>=-eq-ok _ _ _ step6 in
      let (memory, writer) = verify_writer_lem _ _ _ verified in
      (
        others.0,
        read.0,
        read.1,
        grown,
        memory,
        writer,
        ground (arith, free),
        ground (arith, large),
        resized,
        memory_of _ _ step7,
      )

  pub insert_done :
      (rest : List ℕ) (accounts after : MintAccounts)
      → insert_instruction rt program_id rest accounts ≡ ok after
      → (payer : Signer) × (h : PendingMintsBufferStateHeader) × (body : List ℕ) × (grown : ℕ
          × ℕ
          × List ℕ)
        × (accounts.storage.memory ≡ buffer h body)
        × (bytes_eq h.authorized_writer_public_key payer.key ≡ true)
        × (resize_account rt accounts.storage payer body
              (grown_len (get_total_buffer_size h) (72 + length body))
              false
            ≡ ok grown)
        × (insert_pending_mints rt (from_le_bytes (slice 0 2 rest)) (drop 2 rest) h grown.2
            ≡ ok after.storage.memory)
  unfolding insert_instruction
  insert_done rest accounts after done =
      let (_, step1) = fail_if-eq-ok _ _ _ _ done in
      let (others, _, step2) = >>=-eq-ok _ _ _ step1 in
      let (_, step3) = fail_if-eq-ok _ _ _ _ step2 in
      let (read, verified, step4) = >>=-eq-ok _ _ _ step3 in
      let (_, step5) = fail_if-eq-ok _ _ _ _ step4 in
      let (grown, resized, step6) = >>=-eq-ok _ _ _ step5 in
      let (inserted, written, step7) = >>=-eq-ok _ _ _ step6 in
      let (memory, writer) = verify_writer_lem _ _ _ verified in
      let result = memory_of _ _ step7 in
      (others.0, read.0, read.1, grown, memory, writer, resized, written ∙ ap ok (sym result))

  pub header_done :
      (change : List ℕ
        → PendingMintsBufferStateHeader
        → ProgramResult PendingMintsBufferStateHeader)
      (accounts after : MintAccounts)
      → header_instruction rt program_id change accounts ≡ ok after
      → (signer : Signer) × (others : List Signer) × (h : PendingMintsBufferStateHeader)
        × (h' : PendingMintsBufferStateHeader) × (body : List ℕ) × (accounts.others
            ≡ signer ∷ others)
        × (signer.is_signer ≡ true)
        × (accounts.storage.memory ≡ buffer h body)
        × (change signer.key h ≡ ok h')
        × (after.storage.memory ≡ buffer h' body)
  unfolding header_instruction
  header_done change accounts after done =
      let (_, step1) = fail_if-eq-ok _ _ _ _ done in
      let (others, found_signer, step2) = >>=-eq-ok _ _ _ step1 in
      let (signed, step3) = fail_if-eq-ok _ _ _ _ step2 in
      let (read, found, step4) = >>=-eq-ok _ _ _ step3 in
      let (h', changed, step5) = >>=-eq-ok _ _ _ step4 in
      (
        others.0,
        others.1,
        read.0,
        h',
        read.1,
        next_account_lem accounts.others others found_signer,
        ground (arith, signed),
        header_of-panic _ _ found,
        changed,
        memory_of _ _ step5,
      )
