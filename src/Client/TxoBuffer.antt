-- ===== src/Client/TxoBuffer.antt =====
-- `create_txo_buffer` of clients/rust/src/buffer_manager.rs, with the
-- instructions of clients/rust/src/instructions.rs.
pub mod Messages
pub mod Written
pub mod Lengths
pub mod Created
use psy_doge_solana_bridge.Prelude.{
  ℕ, zero, suc, ◌+◌, ◌*◌, ◌%◌, ◌^◌, Bool, true, false, ◌==◌, List, [], ◌∷◌, ◌++◌, length,
  if◌then◌else◌,
}
use psy_doge_solana_bridge.Bytes.{to_le_bytes}
use psy_doge_solana_bridge.Programs.{
  ProgramResult, ok, panic, ◌>>=◌, Runtime, Signer, next_account, short, buffer,
}
use psy_doge_solana_bridge.Programs.TxoBuffer.{TxoAccounts, TxoStorage, process_instruction}
use psy_doge_solana_bridge.Client.{chunk_size, chunks}

-- The accounts behind that of the buffer, and the data.
pub record Instruction : Type 0 where
  pub accounts : List Signer
  pub instruction_data : List ℕ

abbrev pub flag : Bool → ℕ
flag on = if on then 1 else 0

unfoldable pub txo_buffer_init : Signer → Signer → Instruction
txo_buffer_init system_program writer = record {
  accounts = system_program ∷ [];
  instruction_data = 0 ∷ writer.key;
}

unfoldable pub txo_buffer_set_len : Signer → Signer → Signer → ℕ → Bool → ℕ → ℕ → Bool → Instruction
txo_buffer_set_len payer system_program writer new_len resize batch_id height finalize = record {
  accounts = payer ∷ system_program ∷ writer ∷ [];
  instruction_data =
      1
      ∷ (to_le_bytes 4 new_len
          ++ (flag resize
              ∷ (to_le_bytes 4 batch_id ++ (to_le_bytes 4 height ++ (flag finalize ∷ [])))));
}

unfoldable pub txo_buffer_write : Signer → ℕ → ℕ → List ℕ → Instruction
txo_buffer_write writer batch_id offset bytes = record {
  accounts = writer ∷ [];
  instruction_data = 2 ∷ (to_le_bytes 4 batch_id ++ (to_le_bytes 4 offset ++ bytes));
}

-- `txo_indices_u32.iter().flat_map(|x| x.to_le_bytes())`
unfoldable pub txo_bytes : List ℕ → List ℕ
txo_bytes [] = []
txo_bytes (index ∷ indices) = to_le_bytes 4 index ++ txo_bytes indices

-- The batch after that of a buffer, whose number is at the bytes 40 to 44 of its memory, in 32 bits.
unfoldable pub batch_after : ℕ → ℕ
batch_after batch_id = (1 + batch_id) % 2 ^ 32

module _ (rt : Runtime) (program_id : List ℕ) (system_program : Signer) where
  -- `send_tx`: the buffer's account and that of the payer, who signs.
  unfoldable pub send_tx :
      (Signer → Instruction) → TxoStorage × Signer → ProgramResult (TxoStorage × Signer)
  send_tx ix (storage, payer) = do
    after ←
        process_instruction rt program_id (ix payer).instruction_data
          (record { storage = storage; others = (ix payer).accounts })
    (payer', others) ← next_account after.others
    ok (after.storage, payer')

  -- The loop over the chunks, each at the place of its number.
  unfoldable pub write_chunks :
      ℕ → ℕ → List (List ℕ) → TxoStorage × Signer → ProgramResult (TxoStorage × Signer)
  write_chunks batch_id i [] state = ok state
  write_chunks batch_id i (chunk ∷ rest) state =
      send_tx (λ payer. txo_buffer_write payer batch_id ((i * chunk_size) % 2 ^ 32) chunk) state
      >>= write_chunks batch_id (suc i) rest

  -- The rent is transferred and the account initialised in one transaction.
  unfoldable pub init_buffer : TxoStorage × Signer → ProgramResult (TxoStorage × Signer)
  init_buffer (storage, payer) = do
    let ix = txo_buffer_init system_program payer
    (paid, own) ← rt.transfer (rt.minimum_balance 48) payer.lamports storage.lamports
    after ←
        process_instruction rt program_id ix.instruction_data
          (record { storage = record storage { lamports = own }; others = ix.accounts })
    ok (after.storage, record payer { lamports = paid })

  -- The batch to write. An account that exists is one of the program, with a header.
  unfoldable pub open_buffer : TxoStorage × Signer → ProgramResult (ℕ × TxoStorage × Signer)
  open_buffer (storage, payer) = elim storage.memory [
    | short n ↦
        if n == 0
        then init_buffer (storage, payer) >>= (λ state. ok (0, state.0, state.1))
        else panic
    | buffer h body ↦ ok (batch_after h.batch_id, storage, payer)
  ]

  unfoldable pub create_txo_buffer :
      ℕ → List ℕ → TxoStorage × Signer → ProgramResult (TxoStorage × Signer)
  create_txo_buffer doge_block_height txo_indices state = do
    let bytes = txo_bytes txo_indices
    let total_len = length bytes % 2 ^ 32
    (batch_id, storage, payer) ← open_buffer state
    sized ←
        send_tx
          (λ payer.
            txo_buffer_set_len payer system_program payer total_len true batch_id doge_block_height
              false)
          (storage, payer)
    written ← write_chunks batch_id 0 (chunks (length bytes) bytes) sized
    send_tx
        (λ payer.
          txo_buffer_set_len payer system_program payer total_len false batch_id doge_block_height
            true)
        written
