-- ===== src/Programs/MintBuffer/Instructions.antt =====
-- `process_instruction` of programs/pending-mint-buffer/src/lib.rs, one function for each tag.
use psy_doge_solana_bridge.Prelude.{
  ℕ, ◌+◌, ◌-◌, ◌*◌, ◌^◌, min, Bool, true, false, not, ◌&&◌, List, [], ◌∷◌, length, drop, replicate,
  ltb, leb, ◌==◌, if◌then◌else◌,
}
use psy_doge_solana_bridge.Bytes.{bytes_eq, from_le_bytes, slice}
use psy_doge_solana_bridge.Bytes.Write.{write_at}
use psy_doge_solana_bridge.Programs.{
  ProgramResult, ok, err, panic, ◌>>=◌, ◌>>◌, fail_if, AccountData, buffer, header_of, data_len,
  StorageAccount, Signer, Accounts, next_account, next_two_accounts, Runtime,
  invalid_instruction_data, invalid_account_data, account_data_too_small,
  account_already_initialized, uninitialized_account, illegal_owner, incorrect_program_id,
  invalid_seeds, insufficient_funds, missing_required_signature,
}
use psy_doge_solana_bridge.Programs.MintBuffer.{
  PendingMintsBufferStateHeader, header_size, max_permitted_data_increase, zero_header, setup,
  reinit, lock, unlock, get_total_buffer_size, calculate_target_size, insert_pending_mints,
}

-- The accounts of an instruction of the program.
abbrev pub MintAccounts : Type 0
MintAccounts = Accounts PendingMintsBufferStateHeader

-- `checked_sub` and `checked_add` on balances of 64 bits.
unfoldable pub transfer_lamports_from_pdas : ℕ → ℕ → ℕ → ProgramResult (ℕ × ℕ)
transfer_lamports_from_pdas from to lamports =
    if ltb from lamports
    then err insufficient_funds
    else if ltb (2 ^ 64 - 1) (to + lamports)
    then err invalid_account_data
    else ok (from - lamports, to + lamports)

abbrev pub Storage : Type 0
Storage = StorageAccount PendingMintsBufferStateHeader

-- `verify_writer`, with the header that its callers read again.
unfoldable pub verify_writer :
    Storage → Signer → ProgramResult (PendingMintsBufferStateHeader × List ℕ)
verify_writer storage signer = do
  (h, body) ← header_of (err uninitialized_account) storage.memory
  fail_if (not (bytes_eq h.authorized_writer_public_key signer.key)) illegal_owner
  ok (h, body)

-- `b"mint_buffer"`.
abbrev pub mint_buffer_seed : List ℕ
mint_buffer_seed = 109 ∷ 105 ∷ 110 ∷ 116 ∷ 95 ∷ 98 ∷ 117 ∷ 102 ∷ 102 ∷ 101 ∷ 114 ∷ []

-- The length after one call: at most `max_permitted_data_increase` is added.
unfoldable pub grown_len : ℕ → ℕ → ℕ
grown_len target_size current_len =
    current_len + min (target_size - current_len) max_permitted_data_increase

-- `reinit` empties the slots of the groups as far as the account reaches.
unfoldable pub zero_hashes : ℕ → List ℕ → List ℕ
zero_hashes groups body =
    let hash_area_size = groups * 32 in
    if leb hash_area_size (length body)
    then write_at 0 (replicate hash_area_size 0) body
    else write_at 0 (replicate (length body) 0) body

module _ (rt : Runtime) where
  -- The balances of the account and of the payer, and the new bytes behind the header.
  unfoldable pub realloc_account :
      Storage → Signer → List ℕ → ℕ → Bool → ProgramResult (ℕ × ℕ × List ℕ)
  realloc_account storage payer body new_size refund = do
    let old_minimum_balance = rt.minimum_balance (header_size + length body)
    let new_minimum_balance = rt.minimum_balance new_size
    let increase = new_minimum_balance - old_minimum_balance
    let decrease = old_minimum_balance - new_minimum_balance
    (own, paid) ←
        if ltb old_minimum_balance new_minimum_balance
        then rt.transfer increase payer.lamports storage.lamports
          >>= (λ moved. ok (moved.1, moved.0))
        else if refund && ltb new_minimum_balance old_minimum_balance
        then transfer_lamports_from_pdas storage.lamports payer.lamports decrease
        else ok (storage.lamports, payer.lamports)
    after ← rt.realloc (new_size - header_size) body
    ok (own, paid, after)

  -- The same where the length changes.
  unfoldable pub resize_account :
      Storage → Signer → List ℕ → ℕ → Bool → ProgramResult (ℕ × ℕ × List ℕ)
  resize_account storage payer body new_size refund =
      if new_size == header_size + length body
      then ok (storage.lamports, payer.lamports, body)
      else realloc_account storage payer body new_size refund

module _ (rt : Runtime) (program_id : List ℕ) where
  -- The accounts after the instruction, the payer in front of the others.
  abbrev pub updated :
      Storage
      → Signer
      → List Signer
      → ℕ × ℕ
      → AccountData PendingMintsBufferStateHeader
      → MintAccounts
  updated storage payer others (own, paid) memory = record {
    storage = record storage { lamports = own; memory = memory };
    others = record payer { lamports = paid } ∷ others;
  }

  -- The memory is allocated if there is none yet.
  unfoldable pub allocate_if_empty : Storage → ProgramResult Storage
  allocate_if_empty storage =
      if not (data_len header_size storage.memory == 0) then ok storage else do
        fail_if (ltb storage.lamports (rt.minimum_balance header_size)) insufficient_funds
        rt.allocate storage.key header_size
        rt.assign storage.key program_id
        ok (record storage { owner = program_id; memory = buffer zero_header [] })

  -- Tag 0.
  unfoldable pub setup_instruction : List ℕ → MintAccounts → ProgramResult MintAccounts
  setup_instruction rest accounts = do
    let storage = accounts.storage
    let locker_key = slice 0 32 rest
    let writer_key = slice 32 64 rest
    let pda = rt.find_program_address (mint_buffer_seed ∷ writer_key ∷ []) program_id
    fail_if (not (length rest == 64)) invalid_instruction_data
    fail_if (not (bytes_eq storage.key pda)) invalid_seeds
    allocated ← allocate_if_empty storage
    fail_if (not (bytes_eq allocated.owner program_id)) incorrect_program_id
    (h, body) ← header_of (err account_data_too_small) allocated.memory
    h' ← setup locker_key writer_key h
    ok (record accounts { storage = record allocated { memory = buffer h' body } })

  -- Tag 1.
  unfoldable pub reinit_instruction : List ℕ → MintAccounts → ProgramResult MintAccounts
  reinit_instruction rest accounts = do
    let storage = accounts.storage
    let count = from_le_bytes (slice 0 2 rest)
    let target_size = calculate_target_size count
    fail_if (not (bytes_eq storage.owner program_id)) incorrect_program_id
    (payer, others) ← next_two_accounts accounts.others
    fail_if (not payer.is_signer) missing_required_signature
    (h, body) ← verify_writer storage payer
    fail_if (not (length rest == 2)) invalid_instruction_data
    let current_len = header_size + length body
    let new_len =
        if ltb current_len target_size then grown_len target_size current_len else target_size
    (own, paid, after) ← resize_account rt storage payer body new_len true
    h' ← reinit count h
    ok (
        updated storage payer others (own, paid)
          (buffer h' (zero_hashes h'.pending_mint_groups_count after)))

  -- Tag 2.
  unfoldable pub resize_instruction : MintAccounts → ProgramResult MintAccounts
  resize_instruction accounts = do
    let storage = accounts.storage
    fail_if (not (bytes_eq storage.owner program_id)) incorrect_program_id
    (payer, others) ← next_two_accounts accounts.others
    fail_if (not payer.is_signer) missing_required_signature
    (h, body) ← verify_writer storage payer
    let target_size = get_total_buffer_size h
    let current_len = header_size + length body
    fail_if (not (h.is_locked == 0)) account_already_initialized
    fail_if (ltb target_size current_len) invalid_account_data
    (own, paid, after) ←
        resize_account rt storage payer body (grown_len target_size current_len) true
    ok (updated storage payer others (own, paid) (buffer h after))

  -- Tag 3.
  unfoldable pub insert_instruction : List ℕ → MintAccounts → ProgramResult MintAccounts
  insert_instruction rest accounts = do
    let storage = accounts.storage
    let group_index = from_le_bytes (slice 0 2 rest)
    let mint_data = drop 2 rest
    fail_if (not (bytes_eq storage.owner program_id)) incorrect_program_id
    (payer, others) ← next_two_accounts accounts.others
    fail_if (not payer.is_signer) missing_required_signature
    (h, body) ← verify_writer storage payer
    fail_if (ltb (length rest) 2) invalid_instruction_data
    let target_size = get_total_buffer_size h
    let current_len = header_size + length body
    (own, paid, grown) ←
        resize_account rt storage payer body (grown_len target_size current_len) false
    memory ← insert_pending_mints rt group_index mint_data h grown
    ok (updated storage payer others (own, paid) memory)

  -- Tags 4 and 5. Memory without a header makes the program panic.
  unfoldable pub header_instruction :
      (List ℕ → PendingMintsBufferStateHeader → ProgramResult PendingMintsBufferStateHeader)
      → MintAccounts
      → ProgramResult MintAccounts
  header_instruction change accounts = do
    let storage = accounts.storage
    fail_if (not (bytes_eq storage.owner program_id)) incorrect_program_id
    (signer, others) ← next_account accounts.others
    fail_if (not signer.is_signer) missing_required_signature
    (h, body) ← header_of panic storage.memory
    h' ← change signer.key h
    ok (record accounts { storage = record storage { memory = buffer h' body } })

  unfoldable pub process_instruction : List ℕ → MintAccounts → ProgramResult MintAccounts
  process_instruction [] accounts = err invalid_instruction_data
  process_instruction (tag ∷ rest) accounts =
      if tag == 0
      then setup_instruction rest accounts
      else if tag == 1
      then reinit_instruction rest accounts
      else if tag == 2
      then resize_instruction accounts
      else if tag == 3
      then insert_instruction rest accounts
      else if tag == 4
      then header_instruction lock accounts
      else if tag == 5
      then header_instruction unlock accounts
      else err invalid_instruction_data
