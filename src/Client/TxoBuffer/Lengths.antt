-- ===== src/Client/TxoBuffer/Lengths.antt =====
-- The calls of the client that set the length of a buffer are accepted.
use psy_doge_solana_bridge.Prelude.{
  ℕ, ◌+◌, ◌-◌, ◌^◌, ◌<◌, ◌≡◌, ◌⊎◌, inl, inr, refl, ap, ◌∙◌, Bool, true, false, not, ◌&&◌, List, [],
  ◌∷◌, arith, length, ltb, ◌==◌, if◌then◌else◌,
}
use psy_doge_solana_bridge.Bytes.{bytes_eq, from_le_bytes, slice}
use psy_doge_solana_bridge.Bytes.Laws.{bytes_eq_refl}
use psy_doge_solana_bridge.Programs.{
  Runtime, IsRuntime, ok, err, account_data_too_small, ok_injective, >>=-eq-ok, ◌>>=◌, ◌>>◌,
  fail_if, buffer, header_of, Signer,
}
use psy_doge_solana_bridge.Programs.TxoBuffer.{
  PendingMintsTxoBufferHeader, TxoStorage, header_size, next_batch, handle_batch_transition,
  set_batch, realloc_account, set_data_length_instruction, process_instruction,
}
use psy_doge_solana_bridge.Client.TxoBuffer.{txo_buffer_set_len, send_tx}
use psy_doge_solana_bridge.Client.TxoBuffer.Messages.{
  set_len_rest, read_len, read_resize, read_len_batch, read_height, read_finalize, right_length,
}

-- The header after the call that sets a length, where the batch moves.
abbrev pub set_header : ℕ → Bool → ℕ → PendingMintsTxoBufferHeader → PendingMintsTxoBufferHeader
set_header height finalize len moved = record moved {
  doge_block_height = height;
  finalized_status = if finalize then 1 else moved.finalized_status;
  data_size = len;
}

set_batch_ok :
    (id height : ℕ) (finalize : Bool) (h moved : PendingMintsTxoBufferHeader)
    → handle_batch_transition id h ≡ ok moved
    → (id ≡ next_batch h) ⊎ (moved.doge_block_height ≡ 0) ⊎ (moved.doge_block_height ≡ height)
    → set_batch id height finalize h
      ≡ ok (record moved {
        doge_block_height = height;
        finalized_status = if finalize then 1 else moved.finalized_status;
      })
unfolding set_batch ◌>>=◌ ◌>>◌ fail_if
set_batch_ok id height finalize h moved moves fits =
    let test : (not (id == next_batch h)
          && (not (moved.doge_block_height == 0) && not (moved.doge_block_height == height)))
        ≡ false =
      elim fits [
        | inl begun ↦ ground (arith, begun)
        | inr (inl unset) ↦ ground (arith, unset)
        | inr (inr same) ↦ ground (arith, same)
      ] in
    rw moves (rw test refl)

module _ (rt : Runtime) (program_id : List ℕ) where
  set_length_ok :
      (storage : TxoStorage) (payer system_program : Signer) (others : List Signer)
      (h moved : PendingMintsTxoBufferHeader) (body rest : List ℕ) (len id height : ℕ)
      (resize finalize : Bool) (r : ℕ × ℕ × List ℕ)
      → storage.owner ≡ program_id
      → payer.is_signer ≡ true
      → h.authorized_writer ≡ payer.key
      → handle_batch_transition id h ≡ ok moved
      → (id ≡ next_batch h) ⊎ (moved.doge_block_height ≡ 0) ⊎ (moved.doge_block_height ≡ height)
      → (if resize
          then realloc_account rt
              (record storage { memory = buffer h body })
              payer
              body
              (header_size + len)
          else if ltb (header_size + length body) (header_size + len)
          then err account_data_too_small
          else ok (storage.lamports, payer.lamports, body))
        ≡ ok r
      → length rest ≡ 14
      → from_le_bytes (slice 0 4 rest) ≡ len
      → not (from_le_bytes (slice 4 5 rest) == 0) ≡ resize
      → from_le_bytes (slice 5 9 rest) ≡ id
      → from_le_bytes (slice 9 13 rest) ≡ height
      → not (from_le_bytes (slice 13 14 rest) == 0) ≡ finalize
      → set_data_length_instruction rt program_id rest (record {
        storage = record storage { memory = buffer h body };
        others = payer ∷ system_program ∷ others;
      })
        ≡ ok (record {
          storage = record storage {
            lamports = r.0;
            memory = buffer (set_header height finalize len moved) r.2;
          };
          others = record payer { lamports = r.1 } ∷ system_program ∷ others;
        })
  unfolding set_data_length_instruction header_of ◌>>=◌ ◌>>◌ fail_if
  set_length_ok storage payer system_program others h moved body rest len id height resize finalize
        r owned signs writes moves fits sized size a b c d e =
      let owner_test : bytes_eq storage.owner program_id ≡ true =
        ap (λ k. bytes_eq k program_id) owned ∙ bytes_eq_refl program_id in
      let writer_test : bytes_eq h.authorized_writer payer.key ≡ true =
        ap (λ k. bytes_eq k payer.key) writes ∙ bytes_eq_refl payer.key in
      let sign_test : not payer.is_signer ≡ false = ap not signs in
      let size_test : (length rest == 14) ≡ true = ground (arith, size) in
      let batch = set_batch_ok id height finalize h moved moves fits in
      rw owner_test (
        rw size_test (
          rw sign_test
            (rw writer_test (rw c (rw d (rw e (rw batch (rw b (rw a (rw sized refl))))))))))

  pub realloc_account-length :
      (runtime : IsRuntime rt) (storage : TxoStorage) (payer : Signer) (body : List ℕ) (size : ℕ)
      (r : ℕ × ℕ × List ℕ)
      → realloc_account rt storage payer body size ≡ ok r
      → length r.2 ≡ size - header_size
  unfolding realloc_account
  realloc_account-length runtime storage payer body size r done =
      let (_, _, step1) = >>=-eq-ok _ _ _ done in
      let (after, moved, step2) = >>=-eq-ok _ _ _ step1 in
      runtime.realloc_length _ _ _ (moved ∙ ap ok (ap (λ x. x.2) (ok_injective _ _ step2)))

  pub send_set_len :
      (storage : TxoStorage) (payer system_program : Signer) (h moved : PendingMintsTxoBufferHeader)
      (body : List ℕ) (len id height : ℕ) (resize finalize : Bool) (r : ℕ × ℕ × List ℕ)
      → storage.owner ≡ program_id
      → payer.is_signer ≡ true
      → h.authorized_writer ≡ payer.key
      → len < 2 ^ 32
      → id < 2 ^ 32
      → height < 2 ^ 32
      → handle_batch_transition id h ≡ ok moved
      → (id ≡ next_batch h) ⊎ (moved.doge_block_height ≡ 0) ⊎ (moved.doge_block_height ≡ height)
      → (if resize
          then realloc_account rt
              (record storage { memory = buffer h body })
              payer
              body
              (header_size + len)
          else if ltb (header_size + length body) (header_size + len)
          then err account_data_too_small
          else ok (storage.lamports, payer.lamports, body))
        ≡ ok r
      → send_tx rt program_id system_program
          (λ p. txo_buffer_set_len p system_program p len resize id height finalize)
          (record storage { memory = buffer h body }, payer)
        ≡ ok (
          record storage {
            lamports = r.0;
            memory = buffer (set_header height finalize len moved) r.2;
          },
          record payer { lamports = r.1 },
        )
  unfolding send_tx txo_buffer_set_len process_instruction ◌>>=◌
  send_set_len storage payer system_program h moved body len id height resize finalize r owned signs
        writes small_len small_id small_height moves fits sized =
      rw
        (set_length_ok storage payer system_program (payer ∷ []) h moved body
          (set_len_rest payer system_program len id height resize finalize) len id height resize
          finalize r owned signs writes moves fits sized
          (right_length payer system_program len id height resize finalize)
          (read_len payer system_program len id height resize finalize small_len)
          (read_resize payer system_program len id height resize finalize)
          (read_len_batch payer system_program len id height resize finalize small_id)
          (read_height payer system_program len id height resize finalize small_height)
          (read_finalize payer system_program len id height resize finalize))
        refl
