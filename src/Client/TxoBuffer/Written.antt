-- ===== src/Client/TxoBuffer/Written.antt =====
-- The client's loop over the chunks leaves the bytes in the memory of the buffer.
use psy_doge_solana_bridge.Prelude.{
  ℕ, zero, suc, ◌+◌, ◌*◌, ◌%◌, ◌^◌, ◌<◌, ◌≤◌, ◌≡◌, ◌≢◌, refl, ap, ◌∙◌, true, false, not, List, [],
  ◌∷◌, ◌++◌, arith, length, take, drop, ltb, ◌==◌, length-append, length-take, length-drop,
  take-append-drop,
}
use psy_doge_solana_bridge.Bytes.{bytes_eq, from_le_bytes, slice}
use psy_doge_solana_bridge.Bytes.Laws.{bytes_eq_refl}
use psy_doge_solana_bridge.Bytes.Write.{write_at}
use psy_doge_solana_bridge.Programs.{Runtime, ok, ◌>>=◌, ◌>>◌, fail_if, buffer, header_of, Signer}
use psy_doge_solana_bridge.Programs.TxoBuffer.{
  PendingMintsTxoBufferHeader, TxoStorage, handle_batch_transition, write_data_instruction,
  process_instruction,
}
use psy_doge_solana_bridge.Client.{chunk_size, chunks, append_assoc, write_at-append}
use psy_doge_solana_bridge.Client.TxoBuffer.{txo_buffer_write, send_tx, write_chunks}
use psy_doge_solana_bridge.Client.TxoBuffer.Messages.{
  write_rest, read_batch, read_offset, read_chunk, long_enough,
}

-- A batch that is open is continued without a change.
pub continue_batch :
    (h : PendingMintsTxoBufferHeader)
    → h.finalized_status ≢ 1
    → handle_batch_transition h.batch_id h ≡ ok h
unfolding handle_batch_transition
continue_batch h open_batch =
    let same_id : (h.batch_id == h.batch_id) ≡ true = ground arith in
    let not_final : (h.finalized_status == 1) ≡ false = ground (arith, open_batch) in
    rw same_id (rw not_final refl)

module _ (rt : Runtime) (program_id : List ℕ) where
  -- A chunk of the open batch that lies within the memory and the data size.
  write_continues :
      (storage : TxoStorage) (payer : Signer) (h : PendingMintsTxoBufferHeader)
      (body chunk rest : List ℕ) (offset : ℕ)
      → storage.owner ≡ program_id
      → payer.is_signer ≡ true
      → h.authorized_writer ≡ payer.key
      → h.finalized_status ≢ 1
      → offset + length chunk ≤ length body
      → offset + length chunk ≤ h.data_size
      → ltb (length rest) 8 ≡ false
      → from_le_bytes (slice 0 4 rest) ≡ h.batch_id
      → from_le_bytes (slice 4 8 rest) ≡ offset
      → drop 8 rest ≡ chunk
      → write_data_instruction rt program_id rest
          (record { storage = record storage { memory = buffer h body }; others = payer ∷ [] })
        ≡ ok (record {
          storage = record storage { memory = buffer h (write_at offset chunk body) };
          others = payer ∷ [];
        })
  unfolding write_data_instruction header_of ◌>>=◌ ◌>>◌ fail_if
  write_continues storage payer h body chunk rest offset owned signs writes open_batch inside
        covered long id place bytes =
      let owner_test : bytes_eq storage.owner program_id ≡ true =
        ap (λ k. bytes_eq k program_id) owned ∙ bytes_eq_refl program_id in
      let writer_test : bytes_eq h.authorized_writer payer.key ≡ true =
        ap (λ k. bytes_eq k payer.key) writes ∙ bytes_eq_refl payer.key in
      let sign_test : not payer.is_signer ≡ false = ap not signs in
      let continued = continue_batch h open_batch in
      let fits : ltb (length body) (offset + length chunk) ≡ false = ground (arith, inside) in
      let same_size : ltb h.data_size (offset + length chunk) ≡ false = ground (arith, covered) in
      rw owner_test (
        rw long (
          rw sign_test (
            rw writer_test
              (rw id (rw continued (rw place (rw bytes (rw fits (rw same_size refl)))))))))

module _ (rt : Runtime) (program_id : List ℕ) (system_program : Signer) where
  send_chunk :
      (storage : TxoStorage) (payer : Signer) (h : PendingMintsTxoBufferHeader)
      (body chunk : List ℕ) (offset : ℕ)
      → storage.owner ≡ program_id
      → payer.is_signer ≡ true
      → h.authorized_writer ≡ payer.key
      → h.batch_id < 2 ^ 32
      → offset < 2 ^ 32
      → h.finalized_status ≢ 1
      → offset + length chunk ≤ length body
      → offset + length chunk ≤ h.data_size
      → send_tx rt program_id system_program
          (λ p. txo_buffer_write p h.batch_id offset chunk)
          (record storage { memory = buffer h body }, payer)
        ≡ ok (record storage { memory = buffer h (write_at offset chunk body) }, payer)
  unfolding send_tx txo_buffer_write process_instruction ◌>>=◌
  send_chunk storage payer h body chunk offset owned signs writes small_id small_offset open_batch
        inside covered =
      rw
        (write_continues rt program_id storage payer h body chunk
          (write_rest h.batch_id offset chunk) offset owned signs writes open_batch inside covered
          (long_enough h.batch_id offset chunk) (read_batch h.batch_id offset chunk small_id)
          (read_offset h.batch_id offset chunk small_offset) (read_chunk h.batch_id offset chunk))
        refl

  -- The loop writes the chunks one behind the other.
  pub write_chunks_lem :
      (fuel i : ℕ) (storage : TxoStorage) (payer : Signer) (h : PendingMintsTxoBufferHeader)
      (bytes written old : List ℕ)
      → storage.owner ≡ program_id
      → payer.is_signer ≡ true
      → h.authorized_writer ≡ payer.key
      → h.batch_id < 2 ^ 32
      → h.finalized_status ≢ 1
      → h.data_size < 2 ^ 32
      → length written + length bytes ≤ h.data_size
      → length bytes ≤ fuel
      → length old ≡ length bytes
      → ((0 < length bytes) → length written ≡ i * chunk_size)
      → write_chunks rt program_id system_program h.batch_id i
          (chunks fuel bytes)
          (record storage { memory = buffer h (written ++ old) }, payer)
        ≡ ok (record storage { memory = buffer h (written ++ bytes) }, payer)
  unfolding write_chunks chunks ◌>>=◌
  write_chunks_lem zero i storage payer h [] written [] owned signs writes id open_batch small
        covered fuelled same place =
      refl
  write_chunks_lem zero i storage payer h [] written (x ∷ old) owned signs writes id open_batch
        small covered fuelled same place =
      absurd (omega (arith, same))
  write_chunks_lem zero i storage payer h (b ∷ bytes) written old owned signs writes id open_batch
        small covered fuelled same place =
      absurd (omega (arith, fuelled))
  write_chunks_lem (suc fuel) i storage payer h [] written [] owned signs writes id open_batch small
        covered fuelled same place =
      refl
  write_chunks_lem (suc fuel) i storage payer h [] written (x ∷ old) owned signs writes id
        open_batch small covered fuelled same place =
      absurd (omega (arith, same))
  write_chunks_lem (suc fuel) i storage payer h (b ∷ bytes) written old owned signs writes id
        open_batch small covered fuelled same place =
      let chunk = take chunk_size (b ∷ bytes) in
      let rest = drop chunk_size (b ∷ bytes) in
      let chunk_length = length-take chunk_size (b ∷ bytes) in
      let rest_length = length-drop chunk_size (b ∷ bytes) in
      let at_place = place (omega arith) in
      let offset : (i * chunk_size) % 2 ^ 32 ≡ length written =
        omega (arith, at_place, covered, small) in
      let old_length = length-append written old in
      let sent =
        send_chunk storage payer h (written ++ old) chunk (length written) owned signs writes id
          (omega (arith, covered, small)) open_batch (omega (arith, old_length, chunk_length, same))
          (omega (arith, covered, chunk_length)) in
      let new_written = length-append written chunk in
      let new_old = length-drop (length chunk) old in
      let joined : (written ++ chunk) ++ rest ≡ written ++ (b ∷ bytes) =
        append_assoc written chunk rest
        ∙ ap (λ xs. written ++ xs) (take-append-drop chunk_size (b ∷ bytes)) in
      let later =
        write_chunks_lem fuel (suc i) storage payer h rest (written ++ chunk)
          (drop (length chunk) old) owned signs writes id open_batch small
          (omega (arith, new_written, chunk_length, rest_length, covered))
          (omega (arith, rest_length, fuelled))
          (omega (arith, new_old, chunk_length, rest_length, same))
          (λ more. omega (arith, more, new_written, chunk_length, rest_length, at_place)) in
      rw offset (
        rw sent (
          rw (write_at-append written chunk old)
            (later ∙ ap (λ xs. ok (record storage { memory = buffer h xs }, payer)) joined)))
