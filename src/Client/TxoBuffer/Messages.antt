-- ===== src/Client/TxoBuffer/Messages.antt =====
-- What the program of the buffers of transaction outputs reads of the client's instructions.
use psy_doge_solana_bridge.Prelude.{
  ℕ, ◌^◌, ◌<◌, ◌≡◌, refl, Bool, false, not, List, [], ◌∷◌, ◌++◌, arith, length, drop, ltb, ◌==◌,
}
use psy_doge_solana_bridge.Bytes.{to_le_bytes, from_le_bytes, slice}
use psy_doge_solana_bridge.Bytes.Laws.{from_le_bytes-to_le_bytes}
use psy_doge_solana_bridge.Programs.{Signer}
use psy_doge_solana_bridge.Client.TxoBuffer.{flag}

-- What the program reads of the data of a call that sets the length.
module _ (payer system_program : Signer) (len batch_id height : ℕ) (resize finalize : Bool) where
  abbrev pub set_len_rest : List ℕ
  set_len_rest =
      to_le_bytes 4 len
      ++ (flag resize ∷ (to_le_bytes 4 batch_id ++ (to_le_bytes 4 height ++ (flag finalize ∷ []))))

  pub read_len : len < 2 ^ 32 → from_le_bytes (slice 0 4 set_len_rest) ≡ len
  unfolding to_le_bytes
  read_len small = from_le_bytes-to_le_bytes 4 len small

  pub read_resize : not (from_le_bytes (slice 4 5 set_len_rest) == 0) ≡ resize
  unfolding to_le_bytes from_le_bytes
  read_resize = ground arith

  pub read_len_batch : batch_id < 2 ^ 32 → from_le_bytes (slice 5 9 set_len_rest) ≡ batch_id
  unfolding to_le_bytes
  read_len_batch small = from_le_bytes-to_le_bytes 4 batch_id small

  pub read_height : height < 2 ^ 32 → from_le_bytes (slice 9 13 set_len_rest) ≡ height
  unfolding to_le_bytes
  read_height small = from_le_bytes-to_le_bytes 4 height small

  pub read_finalize : not (from_le_bytes (slice 13 14 set_len_rest) == 0) ≡ finalize
  unfolding to_le_bytes from_le_bytes
  read_finalize = ground arith

  pub right_length : length set_len_rest ≡ 14
  unfolding to_le_bytes
  right_length = refl

-- What the program reads of the data of a write.
module _ (batch_id offset : ℕ) (chunk : List ℕ) where
  abbrev pub write_rest : List ℕ
  write_rest = to_le_bytes 4 batch_id ++ (to_le_bytes 4 offset ++ chunk)

  pub read_batch : batch_id < 2 ^ 32 → from_le_bytes (slice 0 4 write_rest) ≡ batch_id
  unfolding to_le_bytes
  read_batch small = from_le_bytes-to_le_bytes 4 batch_id small

  pub read_offset : offset < 2 ^ 32 → from_le_bytes (slice 4 8 write_rest) ≡ offset
  unfolding to_le_bytes
  read_offset small = from_le_bytes-to_le_bytes 4 offset small

  pub read_chunk : drop 8 write_rest ≡ chunk
  unfolding to_le_bytes
  read_chunk = refl

  pub long_enough : ltb (length write_rest) 8 ≡ false
  unfolding to_le_bytes
  long_enough = ground arith
