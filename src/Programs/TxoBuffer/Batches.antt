-- ===== src/Programs/TxoBuffer/Batches.antt =====
-- Batches of a buffer of transaction outputs, and what is written in them.
use psy_doge_solana_bridge.Prelude.{
  ℕ, ◌+◌, ◌%◌, ◌^◌, ◌<◌, ◌≤◌, ◌≡◌, Bool, ◌≢◌, ◌⊎◌, inl, inr, refl, ap, sym, ◌∙◌, true, false, not,
  ◌&&◌, List, ◌∷◌, length, drop, ltb, ◌==◌, if◌then◌else◌, arith, Bool-cases,
}
use psy_doge_solana_bridge.Bytes.{from_le_bytes, slice}
use psy_doge_solana_bridge.Bytes.Laws.{bytes_eq→eq}
use psy_doge_solana_bridge.Bytes.Write.{write_at, slice-write_at_self, slice-write_at_apart}
use psy_doge_solana_bridge.Programs.{
  Runtime, buffer, ok, ok_injective, >>=-eq-ok, fail_if-eq-ok, header_of-panic, Signer,
  next_account_lem,
}
use psy_doge_solana_bridge.Programs.TxoBuffer.{
  PendingMintsTxoBufferHeader, TxoAccounts, next_batch, handle_batch_transition, set_batch,
  set_data_length_instruction, write_data_instruction,
}

-- A batch is continued until it is final, or the next is begun.
pub handle_batch_transition_lem :
    (id : ℕ) (h h' : PendingMintsTxoBufferHeader)
    → handle_batch_transition id h ≡ ok h'
    → (h'.batch_id ≡ id)
      × (h'.authorized_writer ≡ h.authorized_writer)
      × (h'.doge_block_height ≡ h.doge_block_height)
      × (h'.data_size ≡ h.data_size)
      × (((id ≡ h.batch_id) × (h.finalized_status ≢ 1) × (h'.finalized_status ≡ h.finalized_status))
          ⊎ ((id ≡ next_batch h) × (h'.finalized_status ≡ 0)))
unfolding handle_batch_transition
handle_batch_transition_lem id h h' done = (
  ground (arith, done),
  ground (arith, done),
  ground (arith, done),
  ground (arith, done),
  elim (Bool-cases (id == h.batch_id)) [
    | inl same ↦ inl (ground (arith, same), ground (arith, done, same), ground (arith, done, same))
    | inr other ↦ inr (ground (arith, done, other), ground (arith, done, other))
  ],
)

height_cases :
    (id height : ℕ) (h moved : PendingMintsTxoBufferHeader)
    → moved.doge_block_height ≡ h.doge_block_height
    → id ≢ next_batch h
    → (not (id == next_batch h)
        && (not (moved.doge_block_height == 0) && not (moved.doge_block_height == height)))
      ≡ false
    → (h.doge_block_height ≡ 0) ⊎ (h.doge_block_height ≡ height)
height_cases id height h moved same not_next allowed =
    elim (Bool-cases (h.doge_block_height == 0)) [
      | inl unset ↦ inl (ground (arith, unset))
      | inr set_before ↦ inr (ground (arith, set_before, same, not_next, allowed))
    ]

-- What the call that sets a length leaves of the header before it.
set_batch_lem :
    (id height : ℕ) (finalize : Bool) (h h' : PendingMintsTxoBufferHeader)
    → set_batch id height finalize h ≡ ok h'
    → (((id ≡ h.batch_id)
          × (h.finalized_status ≢ 1)
          × ((id ≢ next_batch h) → (h.doge_block_height ≡ 0) ⊎ (h.doge_block_height ≡ height)))
        ⊎ (id ≡ next_batch h))
      × (h'.batch_id ≡ id)
      × (h'.doge_block_height ≡ height)
unfolding set_batch
set_batch_lem id height finalize h h' done =
    let (moved, transition, step1) = >>=-eq-ok _ _ _ done in
    let (same_height, step2) = fail_if-eq-ok _ _ _ _ step1 in
    let (same_id, _, old_height, _, open_batch) = handle_batch_transition_lem _ _ _ transition in
    let header = ok_injective _ _ step2 in
    (
      elim open_batch [
        | inl (continued, open_status, _) ↦ inl (
          continued,
          open_status,
          λ not_next. height_cases id height h moved old_height not_next same_height,
        )
        | inr (begun, _) ↦ inr begun
      ],
      sym (ap (λ x. x.batch_id) header) ∙ same_id,
      sym (ap (λ x. x.doge_block_height) header),
    )

abbrev sized : ℕ → PendingMintsTxoBufferHeader → PendingMintsTxoBufferHeader
sized write_end h =
    if ltb h.data_size write_end then record h { data_size = write_end % 2 ^ 32 } else h

sized_lem :
    (write_end : ℕ) (h : PendingMintsTxoBufferHeader)
    → write_end < 2 ^ 32
    → ((sized write_end h).batch_id ≡ h.batch_id)
      × ((sized write_end h).doge_block_height ≡ h.doge_block_height)
      × ((sized write_end h).authorized_writer ≡ h.authorized_writer)
      × (h.data_size ≤ (sized write_end h).data_size)
      × (write_end ≤ (sized write_end h).data_size)
sized_lem write_end h small = (ground arith, ground arith, ground arith, ground arith, ground arith)

module _ (rt : Runtime) (program_id : List ℕ) where
  -- A write that is accepted is signed by the writer of the buffer and in a batch that is open: the
  -- one of the header if it is not final, or the next. The bytes are read back at their place, what
  -- lies before and behind them stays, and the data size covers them; height and writer stay.
  pub accepted_txo_write :
      (rest : List ℕ) (accounts after : TxoAccounts)
      → from_le_bytes (slice 4 8 rest) + length (drop 8 rest) < 2 ^ 32
      → write_data_instruction rt program_id rest accounts ≡ ok after
      → let id = from_le_bytes (slice 0 4 rest) in
        let offset = from_le_bytes (slice 4 8 rest) in
        let bytes = drop 8 rest in
        (h : PendingMintsTxoBufferHeader) × (h' : PendingMintsTxoBufferHeader) × (body : List ℕ)
        × (body' : List ℕ) × (signer : Signer) × (others : List Signer) × (accounts.storage.memory
            ≡ buffer h body)
        × (after.storage.memory ≡ buffer h' body')
        × (accounts.others ≡ signer ∷ others)
        × (signer.is_signer ≡ true)
        × (signer.key ≡ h.authorized_writer)
        × (((id ≡ h.batch_id) × (h.finalized_status ≢ 1)) ⊎ (id ≡ next_batch h))
        × (h'.batch_id ≡ id)
        × (h'.doge_block_height ≡ h.doge_block_height)
        × (h'.authorized_writer ≡ h.authorized_writer)
        × (offset + length bytes ≤ length body)
        × (slice offset (offset + length bytes) body' ≡ bytes)
        × ((from to : ℕ)
            → (to ≤ offset) ⊎ (offset + length bytes ≤ from)
            → slice from to body' ≡ slice from to body)
        × (h.data_size ≤ h'.data_size)
        × (offset + length bytes ≤ h'.data_size)
  unfolding write_data_instruction
  accepted_txo_write rest accounts after small done =
      let id = from_le_bytes (slice 0 4 rest) in
      let offset = from_le_bytes (slice 4 8 rest) in
      let bytes = drop 8 rest in
      let (_, step1) = fail_if-eq-ok _ _ _ _ done in
      let (_, step2) = fail_if-eq-ok _ _ _ _ step1 in
      let (accounts', first, step3) = >>=-eq-ok _ _ _ step2 in
      let (signed, step4) = fail_if-eq-ok _ _ _ _ step3 in
      let (read, found, step5) = >>=-eq-ok _ _ _ step4 in
      let (writer, step6) = fail_if-eq-ok _ _ _ _ step5 in
      let (moved, batch, step7) = >>=-eq-ok _ _ _ step6 in
      let (fits, step8) = fail_if-eq-ok _ _ _ _ step7 in
      let (same_id, same_writer, height, size, open_batch) =
        handle_batch_transition_lem _ _ _ batch in
      let inside : offset + length bytes ≤ length read.1 = ground (arith, fits) in
      let memory_after = ap (λ a. a.storage.memory) (ok_injective _ _ step8) in
      let new_size = sized_lem (offset + length bytes) moved small in
      (
        read.0,
        sized (offset + length bytes) moved,
        read.1,
        write_at offset bytes read.1,
        accounts'.0,
        accounts'.1,
        header_of-panic _ _ found,
        sym memory_after,
        next_account_lem accounts.others accounts' first,
        ground (arith, signed),
        sym (bytes_eq→eq _ _ (ground (arith, writer))),
        elim open_batch [
          | inl (continued, open_status, _) ↦ inl (continued, open_status)
          | inr (begun, _) ↦ inr begun
        ],
        new_size.0 ∙ same_id,
        new_size.1 ∙ height,
        new_size.2 ∙ same_writer,
        inside,
        slice-write_at_self offset bytes read.1 inside,
        λ from to apart. slice-write_at_apart offset bytes read.1 from to inside apart,
        omega (arith, size, new_size.3),
        new_size.4,
      )

  -- A length that is set by an accepted call: the writer signs, the batch is the one of the header,
  -- not yet final, or the next; in a batch that is continued the height is the one that was set
  -- before, if any. After it the header has the batch, the height and the length of the call.
  pub accepted_txo_length :
      (rest : List ℕ) (accounts after : TxoAccounts)
      → set_data_length_instruction rt program_id rest accounts ≡ ok after
      → let id = from_le_bytes (slice 5 9 rest) in
        let height = from_le_bytes (slice 9 13 rest) in
        (h : PendingMintsTxoBufferHeader) × (h' : PendingMintsTxoBufferHeader) × (body : List ℕ)
        × (body' : List ℕ) × (signer : Signer) × (accounts.storage.memory ≡ buffer h body)
        × (after.storage.memory ≡ buffer h' body')
        × (signer.is_signer ≡ true)
        × (signer.key ≡ h.authorized_writer)
        × (((id ≡ h.batch_id)
              × (h.finalized_status ≢ 1)
              × ((id ≢ next_batch h) → (h.doge_block_height ≡ 0) ⊎ (h.doge_block_height ≡ height)))
            ⊎ (id ≡ next_batch h))
        × (h'.batch_id ≡ id)
        × (h'.doge_block_height ≡ height)
        × (h'.data_size ≡ from_le_bytes (slice 0 4 rest))
  unfolding set_data_length_instruction
  accepted_txo_length rest accounts after done =
      let id = from_le_bytes (slice 5 9 rest) in
      let height = from_le_bytes (slice 9 13 rest) in
      let (_, step1) = fail_if-eq-ok _ _ _ _ done in
      let (_, step2) = fail_if-eq-ok _ _ _ _ step1 in
      let (accounts', first, step3) = >>=-eq-ok _ _ _ step2 in
      let (signed, step4) = fail_if-eq-ok _ _ _ _ step3 in
      let (read, found, step5) = >>=-eq-ok _ _ _ step4 in
      let (writer, step6) = fail_if-eq-ok _ _ _ _ step5 in
      let (h', batch, step7) = >>=-eq-ok _ _ _ step6 in
      let (grown, _, step8) = >>=-eq-ok _ _ _ step7 in
      let (open_batch, same_id, same_height) = set_batch_lem id height _ read.0 h' batch in
      let memory_after = ap (λ a. a.storage.memory) (ok_injective _ _ step8) in
      (
        read.0,
        record h' { data_size = from_le_bytes (slice 0 4 rest) },
        read.1,
        grown.2,
        accounts'.0,
        header_of-panic _ _ found,
        sym memory_after,
        ground (arith, signed),
        sym (bytes_eq→eq _ _ (ground (arith, writer))),
        open_batch,
        same_id,
        same_height,
        refl,
      )
