-- ===== src/Client/TxoBuffer/Created.antt =====
-- What the buffer holds after `create_txo_buffer`.
use psy_doge_solana_bridge.Prelude.{
  ℕ, ◌+◌, ◌%◌, ◌^◌, ◌<◌, ◌≡◌, ◌≢◌, ◌⊎◌, inl, inr, refl, ◌∙◌, subst, true, false, List, [], arith,
  length, ltb, ◌==◌,
}
use psy_doge_solana_bridge.Programs.{Runtime, IsRuntime, ok, ◌>>=◌, buffer, Signer}
use psy_doge_solana_bridge.Programs.TxoBuffer.{
  PendingMintsTxoBufferHeader, TxoStorage, header_size, next_batch, handle_batch_transition,
  realloc_account,
}
use psy_doge_solana_bridge.Client.{chunks}
use psy_doge_solana_bridge.Client.TxoBuffer.{
  txo_bytes, write_chunks, create_txo_buffer, batch_after, open_buffer,
}
use psy_doge_solana_bridge.Client.TxoBuffer.Written.{continue_batch, write_chunks_lem}
use psy_doge_solana_bridge.Client.TxoBuffer.Lengths.{
  set_header, realloc_account-length, send_set_len,
}

-- The next batch can always be begun.
next_opens :
    (h : PendingMintsTxoBufferHeader)
    → h.batch_id < 2 ^ 32
    → (moved : PendingMintsTxoBufferHeader) × (handle_batch_transition (batch_after h.batch_id) h
        ≡ ok moved)
      × (moved.authorized_writer ≡ h.authorized_writer)
      × (moved.batch_id ≡ batch_after h.batch_id)
      × (moved.finalized_status ≢ 1)
      × (batch_after h.batch_id ≡ next_batch h)
unfolding handle_batch_transition batch_after
next_opens h small =
    let other : ((1 + h.batch_id) % 2 ^ 32 == h.batch_id) ≡ false = ground (arith, small) in
    let begun : (1 + h.batch_id) % 2 ^ 32 ≡ next_batch h = omega arith in
    let begun_test : ((1 + h.batch_id) % 2 ^ 32 == next_batch h) ≡ true = ground (arith, begun) in
    (
      record h { batch_id = batch_after h.batch_id; finalized_status = 0 },
      rw other (rw begun_test refl),
      refl,
      refl,
      omega arith,
      begun,
    )

module _ (rt : Runtime) (runtime : IsRuntime rt) (program_id : List ℕ)
    (system_program : Signer) where
  -- The calls on a buffer whose header has moved to the batch.
  create_opened :
      (state : TxoStorage × Signer) (storage : TxoStorage) (payer : Signer)
      (h moved : PendingMintsTxoBufferHeader) (body : List ℕ) (id height : ℕ) (indices : List ℕ)
      (own paid : ℕ) (resized : List ℕ)
      → storage.owner ≡ program_id
      → payer.is_signer ≡ true
      → h.authorized_writer ≡ payer.key
      → moved.authorized_writer ≡ payer.key
      → id < 2 ^ 32
      → height < 2 ^ 32
      → length (txo_bytes indices) < 2 ^ 32
      → handle_batch_transition id h ≡ ok moved
      → moved.batch_id ≡ id
      → moved.finalized_status ≢ 1
      → (id ≡ next_batch h) ⊎ (moved.doge_block_height ≡ 0) ⊎ (moved.doge_block_height ≡ height)
      → realloc_account rt
          (record storage { memory = buffer h body })
          payer
          body
          (header_size + length (txo_bytes indices))
        ≡ ok (own, paid, resized)
      → open_buffer rt program_id system_program state
        ≡ ok (id, record storage { memory = buffer h body }, payer)
      → create_txo_buffer rt program_id system_program height indices state
        ≡ ok (
          record storage {
            lamports = own;
            memory =
                buffer
                  (set_header height true (length (txo_bytes indices)) moved)
                  (txo_bytes indices);
          },
          record payer { lamports = paid },
        )
  unfolding create_txo_buffer ◌>>=◌
  create_opened state storage payer h moved body id height indices own paid resized owned signs
        writes writes' small_id small_height small_len moves same_id not_final fits sized opened =
      let bytes = txo_bytes indices in
      let len = length bytes in
      let h2 = set_header height false len moved in
      let total : len % 2 ^ 32 ≡ len = omega (arith, small_len) in
      let resized_length = realloc_account-length rt program_id runtime _ payer body _ _ sized in
      let storage2 = record storage { lamports = own } in
      let payer2 = record payer { lamports = paid } in
      let first =
        send_set_len rt program_id storage payer system_program h moved body len id height true
          false (own, paid, resized) owned signs writes small_len small_id small_height moves fits
          sized in
      let loop : write_chunks rt program_id system_program id 0 (chunks len bytes)
            (record storage2 { memory = buffer h2 resized }, payer2)
          ≡ ok (record storage2 { memory = buffer h2 bytes }, payer2) =
        subst
          (λ n.
            write_chunks rt program_id system_program n 0 (chunks len bytes)
              (record storage2 { memory = buffer h2 resized }, payer2)
            ≡ ok (record storage2 { memory = buffer h2 bytes }, payer2))
          same_id
          (write_chunks_lem rt program_id system_program len 0 storage2 payer2 h2 bytes [] resized
            owned signs writes' (omega (arith, same_id, small_id)) not_final small_len (omega arith)
            (omega arith) (omega (arith, resized_length)) (λ _. refl)) in
      let moves2 : handle_batch_transition id h2 ≡ ok h2 =
        subst (λ n. handle_batch_transition n h2 ≡ ok h2) same_id (continue_batch h2 not_final) in
      let enough : ltb (header_size + len) (header_size + len) ≡ false = ground arith in
      let last =
        send_set_len rt program_id storage2 payer2 system_program h2 h2 bytes len id height false
          true (own, paid, bytes) owned signs writes' small_len small_id small_height moves2
          (inr (inr refl)) (rw enough refl) in
      rw total (rw opened (rw first (rw loop last)))

  -- The client's payer, who is the writer of a buffer, writes the outputs of a block into it. If the
  -- account can be given the length, every call is accepted. The memory then holds the outputs, four
  -- bytes each and nothing else, and the header is final and has the next batch, the height and the
  -- length.
  pub created_buffer_holds_outputs :
      (storage : TxoStorage) (payer : Signer) (h : PendingMintsTxoBufferHeader) (body : List ℕ)
      (height : ℕ) (indices : List ℕ) (own paid : ℕ) (resized : List ℕ)
      → storage.owner ≡ program_id
      → payer.is_signer ≡ true
      → h.authorized_writer ≡ payer.key
      → h.batch_id < 2 ^ 32
      → height < 2 ^ 32
      → length (txo_bytes indices) < 2 ^ 32
      → realloc_account rt
          (record storage { memory = buffer h body })
          payer
          body
          (header_size + length (txo_bytes indices))
        ≡ ok (own, paid, resized)
      → (after : TxoStorage × Signer) × (h' : PendingMintsTxoBufferHeader) × (create_txo_buffer rt
            program_id system_program height indices
            (record storage { memory = buffer h body }, payer)
          ≡ ok after)
        × (after.0.memory ≡ buffer h' (txo_bytes indices))
        × (h'.authorized_writer ≡ h.authorized_writer)
        × (h'.batch_id ≡ batch_after h.batch_id)
        × (h'.doge_block_height ≡ height)
        × (h'.data_size ≡ length (txo_bytes indices))
        × (h'.finalized_status ≡ 1)
  unfolding batch_after open_buffer
  created_buffer_holds_outputs storage payer h body height indices own paid resized owned signs
        writes small small_height small_len sized =
      let (moved, moves, same_writer, same_id, not_final, begun) = next_opens h small in
      (
        _,
        _,
        create_opened _ storage payer h moved body (batch_after h.batch_id) height indices own paid
            resized owned signs writes (same_writer ∙ writes) (omega arith) small_height small_len
            moves same_id not_final (inl begun) sized refl,
        refl,
        same_writer,
        same_id,
        refl,
        refl,
        refl,
      )
