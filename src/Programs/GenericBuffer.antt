-- ===== src/Programs/GenericBuffer.antt =====
-- The program of the buffers for call data: programs/generic-buffer/src/lib.rs.
pub mod Writes
use psy_doge_solana_bridge.Prelude.{
  ℕ, ◌+◌, ◌-◌, ◌%◌, ◌^◌, min, Bool, not, List, [], ◌∷◌, ◌++◌, length, drop, replicate, ltb, ◌==◌,
  if◌then◌else◌,
}
use psy_doge_solana_bridge.Bytes.{bytes_eq, from_le_bytes, slice}
use psy_doge_solana_bridge.Bytes.Write.{write_at}
use psy_doge_solana_bridge.Programs.{
  ProgramResult, ok, err, panic, ◌>>=◌, ◌>>◌, fail_if, AccountData, buffer, header_of,
  StorageAccount, Signer, Accounts, next_two_accounts, Runtime, invalid_instruction_data,
  account_data_too_small, account_already_initialized, illegal_owner, incorrect_program_id,
  missing_required_signature,
}

pub record BufferBuilderHeader : Type 0 where
  pub authorized_writer : List ℕ

abbrev pub header_size : ℕ
header_size = 32

abbrev pub max_permitted_data_increase : ℕ
max_permitted_data_increase = 10240

abbrev pub BufferAccounts : Type 0
BufferAccounts = Accounts BufferBuilderHeader

abbrev pub BufferStorage : Type 0
BufferStorage = StorageAccount BufferBuilderHeader

module _ (rt : Runtime) where
  -- The balances of the account and of the payer, and the new bytes behind the header. The balances
  -- are subtracted, and what is paid back is moved, in 64 bits.
  unfoldable pub realloc_account :
      BufferStorage → Signer → List ℕ → ℕ → ProgramResult (ℕ × ℕ × List ℕ)
  realloc_account storage payer body target_size = do
    let current_size = header_size + length body
    let current_minimum_balance = rt.minimum_balance current_size
    let target_minimum_balance = rt.minimum_balance target_size
    let lamports_diff =
        if ltb current_size target_size
        then (target_minimum_balance + 2 ^ 64 - current_minimum_balance) % 2 ^ 64
        else (current_minimum_balance + 2 ^ 64 - target_minimum_balance) % 2 ^ 64
    (own, paid) ←
        if ltb current_size target_size
        then rt.transfer lamports_diff payer.lamports storage.lamports
          >>= (λ moved. ok (moved.1, moved.0))
        else if ltb target_size current_size
        then ok (
          (storage.lamports + 2 ^ 64 - lamports_diff) % 2 ^ 64,
          (payer.lamports + lamports_diff) % 2 ^ 64,
        )
        else ok (storage.lamports, payer.lamports)
    after ← rt.realloc (target_size - header_size) body
    ok (own, paid, after)

-- The size that one call reaches.
unfoldable pub achievable_size : ℕ → ℕ → ℕ
achievable_size target_total_size current_size =
    if ltb current_size target_total_size
    then current_size + min (target_total_size - current_size) max_permitted_data_increase
    else target_total_size

-- The header of an account whose writer signs.
unfoldable pub verify_writer : BufferStorage → Signer → ProgramResult (BufferBuilderHeader × List ℕ)
verify_writer storage payer = do
  (h, body) ← header_of (err account_data_too_small) storage.memory
  fail_if (not (bytes_eq h.authorized_writer payer.key)) illegal_owner
  ok (h, body)

module _ (rt : Runtime) where
  abbrev updated :
      BufferStorage → Signer → List Signer → ℕ × ℕ → BufferBuilderHeader → List ℕ → BufferAccounts
  updated storage payer others (own, paid) h body = record {
    storage = record storage { lamports = own; memory = buffer h body };
    others = record payer { lamports = paid } ∷ others;
  }

  -- Tag 0.
  unfoldable pub init_instruction :
      List ℕ → BufferStorage → Signer → List Signer → ProgramResult BufferAccounts
  init_instruction rest storage payer others = do
    fail_if (not (length rest == 4)) invalid_instruction_data
    let target_total_size = header_size + from_le_bytes rest
    (h, body) ← header_of (err account_data_too_small) storage.memory
    fail_if (not (bytes_eq h.authorized_writer (replicate 32 0))) account_already_initialized
    (own, paid, after) ←
        realloc_account rt storage payer body
          (achievable_size target_total_size (header_size + length body))
    ok (updated storage payer others (own, paid) (record { authorized_writer = payer.key }) after)

  -- Tag 1.
  unfoldable pub resize_instruction :
      List ℕ → BufferStorage → Signer → List Signer → ProgramResult BufferAccounts
  resize_instruction rest storage payer others = do
    fail_if (not (length rest == 4)) invalid_instruction_data
    let target_total_size = header_size + from_le_bytes rest
    (h, body) ← verify_writer storage payer
    (own, paid, after) ←
        realloc_account rt storage payer body
          (achievable_size target_total_size (header_size + length body))
    ok (updated storage payer others (own, paid) h after)

  -- The memory grows for a write that ends beyond it.
  unfoldable pub grow_for_write :
      BufferStorage → Signer → List ℕ → ℕ → ProgramResult (ℕ × ℕ × List ℕ)
  grow_for_write storage payer body required_total_size =
      let current_total_size = header_size + length body in
      if ltb current_total_size required_total_size
      then realloc_account rt storage payer body
          (achievable_size required_total_size current_total_size)
      else ok (storage.lamports, payer.lamports, body)

  -- Tag 2.
  unfoldable pub write_instruction :
      List ℕ → BufferStorage → Signer → List Signer → ProgramResult BufferAccounts
  write_instruction rest storage payer others = do
    let offset = from_le_bytes (slice 0 4 rest)
    let write_data = drop 4 rest
    fail_if (ltb (length rest) 4) invalid_instruction_data
    (h, body) ← verify_writer storage payer
    let required_total_size = header_size + offset + length write_data
    (own, paid, grown) ← grow_for_write storage payer body required_total_size
    fail_if (ltb (header_size + length grown) required_total_size) account_data_too_small
    ok (updated storage payer others (own, paid) h (write_at offset write_data grown))

module _ (rt : Runtime) (program_id : List ℕ) where
  unfoldable pub process_instruction : List ℕ → BufferAccounts → ProgramResult BufferAccounts
  process_instruction [] accounts = err invalid_instruction_data
  process_instruction (tag ∷ rest) accounts = do
    let storage = accounts.storage
    fail_if (not (bytes_eq storage.owner program_id)) incorrect_program_id
    (payer, others) ← next_two_accounts accounts.others
    fail_if (not payer.is_signer) missing_required_signature
    if tag == 0
        then init_instruction rt rest storage payer others
        else if tag == 1
        then resize_instruction rt rest storage payer others
        else if tag == 2
        then write_instruction rt rest storage payer others
        else err invalid_instruction_data
