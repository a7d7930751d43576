-- ===== src/Examples/Buffers.antt =====
-- What is minted from a locked buffer, and writes into the other buffers.
use psy_doge_solana_bridge.Prelude.{
  ℕ, ◌+◌, ◌^◌, ◌<◌, ◌≤◌, ◌≡◌, ◌≢◌, ◌⊎◌, refl, true, false, List, [], ◌∷◌, arith, length, replicate,
  drop,
}
use psy_doge_solana_bridge.Bytes.{bytes_eq, from_le_bytes, to_le_bytes, slice}
use psy_doge_solana_bridge.Bytes.Write.{write_at}
use psy_doge_solana_bridge.Programs.{buffer, ok, header_of, fail_if, ◌>>=◌, ◌>>◌, Signer}
use psy_doge_solana_bridge.Programs.TxoBuffer.{
  PendingMintsTxoBufferHeader, TxoAccounts, TxoStorage, handle_batch_transition, next_batch,
  write_data_instruction, realloc_account,
}
use psy_doge_solana_bridge.Programs.TxoBuffer.Batches.{accepted_txo_write}
use psy_doge_solana_bridge.Programs.GenericBuffer.{
  BufferBuilderHeader, BufferAccounts, BufferStorage, max_permitted_data_increase, achievable_size,
  verify_writer, grow_for_write, write_instruction,
}
use psy_doge_solana_bridge.Programs.GenericBuffer.Writes.{accepted_buffer_write}
use psy_doge_solana_bridge.Client.TxoBuffer.{batch_after, create_txo_buffer, txo_bytes}
use psy_doge_solana_bridge.Client.TxoBuffer.Created.{created_buffer_holds_outputs}
use psy_doge_solana_bridge.Examples.Chain.{chain, resized, pay, chain-IsRuntime}

abbrev program : List ℕ
program = 8 ∷ []

abbrev writer_key : List ℕ
writer_key = replicate 32 6

abbrev writer : Signer
writer = record { key = writer_key; is_signer = true; lamports = 1000 }

abbrev system_program : Signer
system_program = record { key = []; is_signer = false; lamports = 0 }

abbrev open_header : PendingMintsTxoBufferHeader
open_header = record {
  authorized_writer = writer_key;
  init_status = 1;
  finalized_status = 0;
  doge_block_height = 50;
  batch_id = 3;
  data_size = 8;
}

abbrev storage : TxoStorage
storage = record {
  key = 9 ∷ [];
  owner = program;
  lamports = 56;
  memory = buffer open_header (replicate 8 0);
}

abbrev before : TxoAccounts
before = record { storage = storage; others = writer ∷ [] }

-- Four bytes at the end of the batch 3.
abbrev message : List ℕ
message = 3 ∷ 0 ∷ 0 ∷ 0 ∷ 4 ∷ 0 ∷ 0 ∷ 0 ∷ 1 ∷ 2 ∷ 3 ∷ 4 ∷ []

abbrev after : TxoAccounts
after = record before {
  storage = record storage { memory = buffer open_header (0 ∷ 0 ∷ 0 ∷ 0 ∷ 1 ∷ 2 ∷ 3 ∷ 4 ∷ []) };
}

written : write_data_instruction chain program message before ≡ ok after
unfolding write_data_instruction handle_batch_transition write_at header_of bytes_eq from_le_bytes
    fail_if ◌>>=◌ ◌>>◌
written = refl

within : from_le_bytes (slice 4 8 message) + length (drop 8 message) < 2 ^ 32
unfolding from_le_bytes
within = omega arith

accepted_txo_write_example :
    let id = from_le_bytes (slice 0 4 message) in
    let offset = from_le_bytes (slice 4 8 message) in
    let bytes = drop 8 message in
    (h : PendingMintsTxoBufferHeader) × (h' : PendingMintsTxoBufferHeader) × (body : List ℕ)
    × (body' : List ℕ) × (signer : Signer) × (others : List Signer) × (before.storage.memory
        ≡ buffer h body)
    × (after.storage.memory ≡ buffer h' body')
    × (before.others ≡ signer ∷ others)
    × (signer.is_signer ≡ true)
    × (signer.key ≡ h.authorized_writer)
    × (((id ≡ h.batch_id) × (h.finalized_status ≢ 1)) ⊎ (id ≡ next_batch h))
    × (h'.batch_id ≡ id)
    × (h'.doge_block_height ≡ h.doge_block_height)
    × (h'.authorized_writer ≡ h.authorized_writer)
    × (offset + length bytes ≤ length body)
    × (slice offset (offset + length bytes) body' ≡ bytes)
    × ((from to : ℕ)
        → (to ≤ offset) ⊎ (offset + length bytes ≤ from)
        → slice from to body' ≡ slice from to body)
    × (h.data_size ≤ h'.data_size)
    × (offset + length bytes ≤ h'.data_size)
accepted_txo_write_example = accepted_txo_write chain program message before after within written

abbrev outputs : List ℕ
outputs = 70000 ∷ 5 ∷ 9 ∷ []

two_outputs : length (txo_bytes outputs) ≡ 12
unfolding txo_bytes to_le_bytes
two_outputs = refl

grows :
    realloc_account chain storage writer (replicate 8 0) (48 + length (txo_bytes outputs))
    ≡ ok (60, 996, replicate 12 0)
unfolding realloc_account resized pay txo_bytes to_le_bytes ◌>>=◌
grows = refl

created_buffer_holds_outputs_example :
    (after : TxoStorage × Signer) × (h' : PendingMintsTxoBufferHeader) × (create_txo_buffer chain
        program system_program 51 outputs
        (storage, writer)
      ≡ ok after)
    × (after.0.memory ≡ buffer h' (txo_bytes outputs))
    × (h'.authorized_writer ≡ writer_key)
    × (h'.batch_id ≡ batch_after 3)
    × (h'.doge_block_height ≡ 51)
    × (h'.data_size ≡ length (txo_bytes outputs))
    × (h'.finalized_status ≡ 1)
created_buffer_holds_outputs_example =
    created_buffer_holds_outputs chain chain-IsRuntime program system_program storage writer
      open_header (replicate 8 0) 51 outputs 60 996 (replicate 12 0) refl refl refl (omega arith)
      (omega arith) (omega (arith, two_outputs)) grows

abbrev call_data : BufferStorage
call_data = record {
  key = 9 ∷ [];
  owner = program;
  lamports = 34;
  memory = buffer (record { authorized_writer = writer_key }) (7 ∷ 7 ∷ []);
}

-- Three bytes from the second on.
abbrev longer : List ℕ
longer = 1 ∷ 0 ∷ 0 ∷ 0 ∷ 1 ∷ 2 ∷ 3 ∷ []

abbrev call_data_after : BufferAccounts
call_data_after = record {
  storage = record call_data {
    lamports = 36;
    memory = buffer (record { authorized_writer = writer_key }) (7 ∷ 1 ∷ 2 ∷ 3 ∷ []);
  };
  others = record writer { lamports = 998 } ∷ system_program ∷ [];
}

lengthened :
    psy_doge_solana_bridge.Programs.GenericBuffer.process_instruction chain program
      (2 ∷ longer)
      (record { storage = call_data; others = writer ∷ system_program ∷ [] })
    ≡ ok call_data_after
unfolding psy_doge_solana_bridge.Programs.GenericBuffer.process_instruction write_instruction
    verify_writer grow_for_write achievable_size
    psy_doge_solana_bridge.Programs.GenericBuffer.realloc_account resized pay write_at header_of
    bytes_eq from_le_bytes fail_if ◌>>=◌ ◌>>◌
lengthened = refl

accepted_buffer_write_example :
    let offset = from_le_bytes (slice 0 4 longer) in
    let bytes = drop 4 longer in
    (payer : Signer) × (others : List Signer) × (h : BufferBuilderHeader) × (body : List ℕ)
    × (body' : List ℕ) × (call_data.owner ≡ program)
    × (writer ∷ system_program ∷ [] ≡ payer ∷ others)
    × (payer.is_signer ≡ true)
    × (call_data.memory ≡ buffer h body)
    × (call_data_after.storage.memory ≡ buffer h body')
    × (payer.key ≡ h.authorized_writer)
    × (length body ≤ length body')
    × (length body' ≤ length body + max_permitted_data_increase)
    × ((length body < length body') → length body' ≡ offset + length bytes)
    × (slice offset (offset + length bytes) body' ≡ bytes)
    × ((from to : ℕ)
        → to ≤ length body
        → (to ≤ offset) ⊎ (offset + length bytes ≤ from)
        → slice from to body' ≡ slice from to body)
accepted_buffer_write_example =
    accepted_buffer_write chain chain-IsRuntime program longer
      (record { storage = call_data; others = writer ∷ system_program ∷ [] }) call_data_after
      lengthened
