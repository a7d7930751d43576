-- ===== src/Programs/GenericBuffer/Writes.antt =====
-- Writes into a generic buffer, which grows for them.
use psy_doge_solana_bridge.Prelude.{
  ℕ, true, ◌∷◌, ◌+◌, ◌-◌, ◌<◌, ◌≤◌, ◌≡◌, ◌⊎◌, inl, inr, ap, sym, ◌∙◌, List, length, drop, ltb,
  arith, Bool-cases, get_elem?,
}
use psy_doge_solana_bridge.Bytes.{from_le_bytes, slice}
use psy_doge_solana_bridge.Bytes.Laws.{bytes_eq→eq}
use psy_doge_solana_bridge.Bytes.Write.{
  write_at, length-write_at, slice-write_at_self, slice-write_at_apart, slice_agree,
}
use psy_doge_solana_bridge.Programs.{
  Runtime, IsRuntime, buffer, ok, ok_injective, >>=-eq-ok, fail_if-eq-ok, header_of-err, Signer,
  next_two_accounts_lem,
}
use psy_doge_solana_bridge.Programs.GenericBuffer.{
  BufferBuilderHeader, BufferAccounts, BufferStorage, header_size, max_permitted_data_increase,
  realloc_account, achievable_size, verify_writer, grow_for_write, write_instruction,
  process_instruction,
}

-- A length that one call gives: between the old one and the one that is asked for, and not more
-- than the runtime allows.
achievable_size_lem :
    (target current : ℕ)
    → current < target
    → (current < achievable_size target current)
      × (achievable_size target current ≤ target)
      × (achievable_size target current ≤ current + max_permitted_data_increase)
unfolding achievable_size
achievable_size_lem target current h = (ground arith, ground arith, ground arith)

verify_writer_lem :
    (storage : BufferStorage) (payer : Signer) (r : BufferBuilderHeader × List ℕ)
    → verify_writer storage payer ≡ ok r
    → (storage.memory ≡ buffer r.0 r.1) × (payer.key ≡ r.0.authorized_writer)
unfolding verify_writer
verify_writer_lem storage payer r done =
    let (read, found, step1) = >>=-eq-ok _ _ _ done in
    let (writer, step2) = fail_if-eq-ok _ _ _ _ step1 in
    let same = ok_injective _ _ step2 in
    (
      header_of-err _ _ r (found ∙ ap ok same),
      sym (bytes_eq→eq _ _ (ground (arith, writer))) ∙ ap (λ x. x.0.authorized_writer) same,
    )

module _ (rt : Runtime) (runtime : IsRuntime rt) where
  -- Memory that is set to another length has it, and keeps its bytes.
  realloc_account_lem :
      (storage : BufferStorage) (payer : Signer) (body : List ℕ) (target : ℕ) (r : ℕ × ℕ × List ℕ)
      → realloc_account rt storage payer body target ≡ ok r
      → (length r.2 ≡ target - header_size)
        × ((i : ℕ)
            → i < target - header_size
            → i < length body
            → get_elem? r.2 i ≡ get_elem? body i)
  unfolding realloc_account
  realloc_account_lem storage payer body target r done =
      let (_, _, step1) = >>=-eq-ok _ _ _ done in
      let (after, moved, step2) = >>=-eq-ok _ _ _ step1 in
      let same = ap (λ x. x.2) (ok_injective _ _ step2) in
      let moved' = moved ∙ ap ok same in
      (runtime.realloc_length _ _ _ moved', runtime.realloc_keeps _ _ _ moved')

  -- The memory behind the header after it has grown for a write.
  grow_for_write_lem :
      (storage : BufferStorage) (payer : Signer) (body : List ℕ) (required : ℕ) (r : ℕ × ℕ × List ℕ)
      → grow_for_write rt storage payer body required ≡ ok r
      → (length body ≤ length r.2)
        × (length r.2 ≤ length body + max_permitted_data_increase)
        × ((length body < length r.2) → header_size + length r.2 ≤ required)
        × ((i : ℕ) → i < length body → get_elem? r.2 i ≡ get_elem? body i)
  unfolding grow_for_write
  grow_for_write_lem storage payer body required r done =
      elim (Bool-cases (ltb (header_size + length body) required)) [
        | inl grows ↦
            let size = achievable_size required (header_size + length body) in
            let grown : realloc_account rt storage payer body size ≡ ok r = cc (grows, done) in
            let (new_length, keeps) = realloc_account_lem storage payer body size r grown in
            let between =
              achievable_size_lem required (header_size + length body) (ground (arith, grows)) in
            (
              omega (arith, new_length, between),
              omega (arith, new_length, between),
              omega (arith, new_length, between),
              λ i inside. keeps i (omega (arith, between, inside)) inside,
            )
        | inr stays ↦
            let same : r.2 ≡ body =
              ap (λ x. x.2)
                (sym
                  (ok_injective (storage.lamports, payer.lamports, body) r (cc (stays, done)))) in
            let same_length = ap length same in
            (
              omega (arith, same_length),
              omega (arith, same_length),
              omega (arith, same_length),
              λ i inside. ap (λ xs. get_elem? xs i) same,
            )
      ]

  -- What an accepted write shows, after its payer was read.
  write_instruction_lem :
      (rest : List ℕ) (storage : BufferStorage) (payer : Signer) (others : List Signer)
      (after : BufferAccounts)
      → write_instruction rt rest storage payer others ≡ ok after
      → let offset = from_le_bytes (slice 0 4 rest) in
        let bytes = drop 4 rest in
        (h : BufferBuilderHeader) × (body : List ℕ) × (body' : List ℕ) × (storage.memory
          ≡ buffer h body)
        × (after.storage.memory ≡ buffer h body')
        × (payer.key ≡ h.authorized_writer)
        × (length body ≤ length body')
        × (length body' ≤ length body + max_permitted_data_increase)
        × ((length body < length body') → length body' ≡ offset + length bytes)
        × (slice offset (offset + length bytes) body' ≡ bytes)
        × ((from to : ℕ)
            → to ≤ length body
            → (to ≤ offset) ⊎ (offset + length bytes ≤ from)
            → slice from to body' ≡ slice from to body)
  unfolding write_instruction
  write_instruction_lem rest storage payer others after done =
      let offset = from_le_bytes (slice 0 4 rest) in
      let bytes = drop 4 rest in
      let (_, step1) = fail_if-eq-ok _ _ _ _ done in
      let (read, found, step2) = >>=-eq-ok _ _ _ step1 in
      let (grown, growth, step3) = >>=-eq-ok _ _ _ step2 in
      let (fits, step4) = fail_if-eq-ok _ _ _ _ step3 in
      let (memory, writer) = verify_writer_lem storage payer read found in
      let (longer, bounded, needed, keeps) =
        grow_for_write_lem storage payer read.1 (header_size + offset + length bytes) grown
          growth in
      let inside : offset + length bytes ≤ length grown.2 = ground (arith, fits) in
      let same_length = length-write_at offset bytes grown.2 inside in
      (
        read.0,
        read.1,
        write_at offset bytes grown.2,
        memory,
        sym (ap (λ a. a.storage.memory) (ok_injective _ _ step4)),
        writer,
        omega (arith, same_length, longer),
        omega (arith, same_length, bounded),
        λ more. omega (arith, same_length, inside, needed (omega (arith, more, same_length))),
        slice-write_at_self offset bytes grown.2 inside,
        λ from to old apart.
            slice-write_at_apart offset bytes grown.2 from to inside apart
            ∙ slice_agree from to grown.2 read.1
                (λ i _ before. keeps i (omega (arith, before, old))),
      )

  -- A call of `Write` that is accepted: the account belongs to the program, and the payer signs and is
  -- the writer of the buffer, who stays. The memory has then grown, if it was too short, to the end of
  -- the write and by at most 10240 bytes. The bytes are read back at their place, and what the memory
  -- held elsewhere stays.
  pub accepted_buffer_write :
      (program_id rest : List ℕ) (accounts after : BufferAccounts)
      → process_instruction rt program_id (2 ∷ rest) accounts ≡ ok after
      → let offset = from_le_bytes (slice 0 4 rest) in
        let bytes = drop 4 rest in
        (payer : Signer) × (others : List Signer) × (h : BufferBuilderHeader) × (body : List ℕ)
        × (body' : List ℕ) × (accounts.storage.owner ≡ program_id)
        × (accounts.others ≡ payer ∷ others)
        × (payer.is_signer ≡ true)
        × (accounts.storage.memory ≡ buffer h body)
        × (after.storage.memory ≡ buffer h body')
        × (payer.key ≡ h.authorized_writer)
        × (length body ≤ length body')
        × (length body' ≤ length body + max_permitted_data_increase)
        × ((length body < length body') → length body' ≡ offset + length bytes)
        × (slice offset (offset + length bytes) body' ≡ bytes)
        × ((from to : ℕ)
            → to ≤ length body
            → (to ≤ offset) ⊎ (offset + length bytes ≤ from)
            → slice from to body' ≡ slice from to body)
  unfolding process_instruction
  accepted_buffer_write program_id rest accounts after done =
      let (owner, step1) = fail_if-eq-ok _ _ _ _ done in
      let (read, first, step2) = >>=-eq-ok _ _ _ step1 in
      let (signed, step3) = fail_if-eq-ok _ _ _ _ step2 in
      let (h, body, body', old, new, writer, longer, bounded, exact, bytes_read, stays) =
        write_instruction_lem rest accounts.storage read.0 read.1 after step3 in
      (
        read.0,
        read.1,
        h,
        body,
        body',
        bytes_eq→eq _ _ (ground (arith, owner)),
        next_two_accounts_lem accounts.others read first,
        ground (arith, signed),
        old,
        new,
        writer,
        longer,
        bounded,
        exact,
        bytes_read,
        stays,
      )
