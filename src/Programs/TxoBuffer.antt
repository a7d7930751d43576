-- ===== src/Programs/TxoBuffer.antt =====
-- The program of the buffers of transaction outputs: programs/txo-buffer/src/lib.rs.
pub mod Batches
use psy_doge_solana_bridge.Prelude.{
  ℕ, ◌+◌, ◌-◌, ◌%◌, ◌^◌, Bool, not, ◌&&◌, List, [], ◌∷◌, ◌++◌, length, drop, replicate, ltb, ◌==◌,
  if◌then◌else◌,
}
use psy_doge_solana_bridge.Bytes.{bytes_eq, from_le_bytes, slice}
use psy_doge_solana_bridge.Bytes.Write.{write_at}
use psy_doge_solana_bridge.Programs.{
  ProgramResult, ok, err, panic, ◌>>=◌, ◌>>◌, fail_if, AccountData, buffer, header_of, data_len,
  StorageAccount, Signer, Accounts, next_account, next_two_accounts, Runtime,
  invalid_instruction_data, invalid_argument, account_data_too_small, account_already_initialized,
  illegal_owner, incorrect_program_id, invalid_seeds, insufficient_funds,
  missing_required_signature,
}

pub record PendingMintsTxoBufferHeader : Type 0 where
  pub authorized_writer : List ℕ
  pub init_status : ℕ
  pub finalized_status : ℕ
  pub doge_block_height : ℕ
  pub batch_id : ℕ
  pub data_size : ℕ

abbrev pub header_size : ℕ
header_size = 48

abbrev pub zero_header : PendingMintsTxoBufferHeader
zero_header = record {
  authorized_writer = replicate 32 0;
  init_status = 0;
  finalized_status = 0;
  doge_block_height = 0;
  batch_id = 0;
  data_size = 0;
}

-- `b"txo_buffer"`.
abbrev pub txo_buffer_seed : List ℕ
txo_buffer_seed = 116 ∷ 120 ∷ 111 ∷ 95 ∷ 98 ∷ 117 ∷ 102 ∷ 102 ∷ 101 ∷ 114 ∷ []

abbrev pub TxoAccounts : Type 0
TxoAccounts = Accounts PendingMintsTxoBufferHeader

abbrev pub TxoStorage : Type 0
TxoStorage = StorageAccount PendingMintsTxoBufferHeader

-- The batch that comes after that of the header, in 32 bits.
abbrev pub next_batch : PendingMintsTxoBufferHeader → ℕ
next_batch h = (h.batch_id + 1) % 2 ^ 32

unfoldable pub handle_batch_transition :
    ℕ → PendingMintsTxoBufferHeader → ProgramResult PendingMintsTxoBufferHeader
handle_batch_transition input_batch_id h =
    if input_batch_id == h.batch_id
    then (if h.finalized_status == 1 then err account_already_initialized else ok h)
    else if input_batch_id == next_batch h
    then ok (record h { batch_id = input_batch_id; finalized_status = 0 })
    else err invalid_argument

-- The header that `SetDataLength` leaves before the length is changed.
unfoldable pub set_batch :
    ℕ → ℕ → Bool → PendingMintsTxoBufferHeader → ProgramResult PendingMintsTxoBufferHeader
set_batch input_batch_id input_doge_height finalize h = do
  let is_new_batch = input_batch_id == next_batch h
  moved ← handle_batch_transition input_batch_id h
  fail_if
      (not is_new_batch
        && (not (moved.doge_block_height == 0)
            && not (moved.doge_block_height == input_doge_height)))
      invalid_instruction_data
  ok (record moved {
    doge_block_height = input_doge_height;
    finalized_status = if finalize then 1 else moved.finalized_status;
  })

module _ (rt : Runtime) where
  -- The balances of the account and of the payer, and the new bytes behind the header. What is paid
  -- back is taken and given in 64 bits.
  unfoldable pub realloc_account : TxoStorage → Signer → List ℕ → ℕ → ProgramResult (ℕ × ℕ × List ℕ)
  realloc_account storage payer body new_size = do
    let old_rent = rt.minimum_balance (header_size + length body)
    let new_rent = rt.minimum_balance new_size
    (own, paid) ←
        if ltb old_rent new_rent
        then rt.transfer (new_rent - old_rent) payer.lamports storage.lamports
          >>= (λ moved. ok (moved.1, moved.0))
        else if ltb new_rent old_rent
        then ok (
          (storage.lamports + 2 ^ 64 - (old_rent - new_rent)) % 2 ^ 64,
          (payer.lamports + (old_rent - new_rent)) % 2 ^ 64,
        )
        else ok (storage.lamports, payer.lamports)
    after ← rt.realloc (new_size - header_size) body
    ok (own, paid, after)

module _ (rt : Runtime) (program_id : List ℕ) where
  unfoldable pub allocate_if_empty : TxoStorage → ProgramResult TxoStorage
  allocate_if_empty storage =
      if not (data_len header_size storage.memory == 0) then ok storage else do
        fail_if (ltb storage.lamports (rt.minimum_balance header_size)) insufficient_funds
        rt.allocate storage.key header_size
        rt.assign storage.key program_id
        ok (record storage { owner = program_id; memory = buffer zero_header [] })

  -- Tag 0.
  unfoldable pub initialize_instruction : List ℕ → TxoAccounts → ProgramResult TxoAccounts
  initialize_instruction rest accounts = do
    let storage = accounts.storage
    let auth_key = slice 0 32 rest
    let pda = rt.find_program_address (txo_buffer_seed ∷ auth_key ∷ []) program_id
    fail_if (not (length rest == 32)) invalid_instruction_data
    fail_if (not (bytes_eq storage.key pda)) invalid_seeds
    allocated ← allocate_if_empty storage
    fail_if (not (bytes_eq allocated.owner program_id)) incorrect_program_id
    (h, body) ← header_of (err account_data_too_small) allocated.memory
    let h' = record h { authorized_writer = auth_key; init_status = 1 }
    ok (record accounts { storage = record allocated { memory = buffer h' body } })

  -- Tag 1. Memory without a header makes the program panic.
  unfoldable pub set_data_length_instruction : List ℕ → TxoAccounts → ProgramResult TxoAccounts
  set_data_length_instruction rest accounts = do
    let storage = accounts.storage
    let new_length = from_le_bytes (slice 0 4 rest)
    let resize = not (from_le_bytes (slice 4 5 rest) == 0)
    let input_batch_id = from_le_bytes (slice 5 9 rest)
    let input_doge_height = from_le_bytes (slice 9 13 rest)
    let finalize = not (from_le_bytes (slice 13 14 rest) == 0)
    fail_if (not (bytes_eq storage.owner program_id)) incorrect_program_id
    fail_if (not (length rest == 14)) invalid_instruction_data
    (signer, others) ← next_two_accounts accounts.others
    fail_if (not signer.is_signer) missing_required_signature
    (h, body) ← header_of panic storage.memory
    fail_if (not (bytes_eq h.authorized_writer signer.key)) illegal_owner
    h' ← set_batch input_batch_id input_doge_height finalize h
    (own, paid, after) ←
        if resize
        then realloc_account rt storage signer body (header_size + new_length)
        else if ltb (header_size + length body) (header_size + new_length)
        then err account_data_too_small
        else ok (storage.lamports, signer.lamports, body)
    ok (record {
      storage = record storage {
        lamports = own;
        memory = buffer (record h' { data_size = new_length }) after;
      };
      others = record signer { lamports = paid } ∷ others;
    })

  -- Tag 2.
  unfoldable pub write_data_instruction : List ℕ → TxoAccounts → ProgramResult TxoAccounts
  write_data_instruction rest accounts = do
    let storage = accounts.storage
    let input_batch_id = from_le_bytes (slice 0 4 rest)
    let offset = from_le_bytes (slice 4 8 rest)
    let raw_data = drop 8 rest
    let write_end = offset + length raw_data
    fail_if (not (bytes_eq storage.owner program_id)) incorrect_program_id
    fail_if (ltb (length rest) 8) invalid_instruction_data
    (signer, others) ← next_account accounts.others
    fail_if (not signer.is_signer) missing_required_signature
    (h, body) ← header_of panic storage.memory
    fail_if (not (bytes_eq h.authorized_writer signer.key)) illegal_owner
    moved ← handle_batch_transition input_batch_id h
    fail_if (ltb (length body) write_end) account_data_too_small
    let h' =
        if ltb moved.data_size write_end
        then record moved { data_size = write_end % 2 ^ 32 }
        else moved
    ok (record accounts {
      storage = record storage { memory = buffer h' (write_at offset raw_data body) };
    })

  unfoldable pub process_instruction : List ℕ → TxoAccounts → ProgramResult TxoAccounts
  process_instruction [] accounts = err invalid_instruction_data
  process_instruction (tag ∷ rest) accounts =
      if tag == 0
      then initialize_instruction rest accounts
      else if tag == 1
      then set_data_length_instruction rest accounts
      else if tag == 2
      then write_data_instruction rest accounts
      else err invalid_instruction_data
