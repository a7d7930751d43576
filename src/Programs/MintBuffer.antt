-- ===== src/Programs/MintBuffer.antt =====
-- The program of the buffers of pending mints: programs/pending-mint-buffer/src/lib.rs.
pub mod Instructions
pub mod Resizes
pub mod Filled
pub mod Accepted
pub mod Insert
pub mod Done
pub mod Reach
pub mod Calls
pub mod Locked
use psy_doge_solana_bridge.Prelude.{
  ℕ, ◌+◌, ◌-◌, ◌*◌, ◌/◌, ◌%◌, ◌^◌, min, Bool, not, List, [], ◌∷◌, ◌++◌, length, take, drop,
  replicate, ltb, leb, ◌==◌, if◌then◌else◌,
}
use psy_doge_solana_bridge.Bytes.{zero_hash, bytes_eq, to_le_bytes, slice}
use psy_doge_solana_bridge.Bytes.Write.{write_at}
use psy_doge_solana_bridge.Programs.{
  ProgramResult, ok, err, panic, ◌>>=◌, ◌>>◌, fail_if, AccountData, short, buffer, data_len,
  StorageAccount, Signer, Accounts, next_account, next_two_accounts, Runtime,
  invalid_instruction_data, invalid_argument, invalid_account_data, account_data_too_small,
  account_already_initialized, uninitialized_account, illegal_owner, incorrect_program_id,
  invalid_seeds, insufficient_funds, missing_required_signature,
}

pub record PendingMintsBufferStateHeader : Type 0 where
  pub authorized_locker_public_key : List ℕ
  pub authorized_writer_public_key : List ℕ
  pub is_locked : ℕ
  pub mode : ℕ
  pub pending_mint_groups_count : ℕ
  pub pending_mints_initialized : ℕ
  pub pending_mints_count : ℕ

-- The header as it stands in memory.
unfoldable pub mint_header_bytes : PendingMintsBufferStateHeader → List ℕ
mint_header_bytes h =
    h.authorized_locker_public_key
    ++ (h.authorized_writer_public_key
        ++ (h.is_locked
            ∷ h.mode
            ∷ (to_le_bytes 2 h.pending_mint_groups_count
                ++ (to_le_bytes 2 h.pending_mints_initialized
                    ++ to_le_bytes 2 h.pending_mints_count))))

abbrev pub header_size : ℕ
header_size = 72

abbrev pub max_permitted_data_increase : ℕ
max_permitted_data_increase = 10240

-- The header of memory that was just allocated.
abbrev pub zero_header : PendingMintsBufferStateHeader
zero_header = record {
  authorized_locker_public_key = replicate 32 0;
  authorized_writer_public_key = replicate 32 0;
  is_locked = 0;
  mode = 0;
  pending_mint_groups_count = 0;
  pending_mints_initialized = 0;
  pending_mints_count = 0;
}

unfoldable pub setup :
    List ℕ → List ℕ → PendingMintsBufferStateHeader → ProgramResult PendingMintsBufferStateHeader
setup locker writer h =
    if not (bytes_eq h.authorized_locker_public_key (replicate 32 0))
    then err account_already_initialized
    else ok (record {
      authorized_locker_public_key = locker;
      authorized_writer_public_key = writer;
      is_locked = 0;
      mode = 0;
      pending_mint_groups_count = 0;
      pending_mints_initialized = 0;
      pending_mints_count = 0;
    })

-- `(pending_mints_count + 24 - 1) / 24` in 16 bits.
unfoldable pub groups_of : ℕ → ℕ
groups_of count = ((count + 24) % 2 ^ 16 + 2 ^ 16 - 1) % 2 ^ 16 / 24

unfoldable pub reinit :
    ℕ → PendingMintsBufferStateHeader → ProgramResult PendingMintsBufferStateHeader
reinit count h =
    if not (h.is_locked == 0)
    then err account_already_initialized
    else ok (record h {
      pending_mints_count = count;
      pending_mint_groups_count = groups_of count;
      pending_mints_initialized = 0;
    })

unfoldable pub lock :
    List ℕ → PendingMintsBufferStateHeader → ProgramResult PendingMintsBufferStateHeader
lock locker h =
    if not (h.is_locked == 0)
    then err account_already_initialized
    else if not (h.pending_mints_initialized == h.pending_mints_count)
    then err invalid_account_data
    else if not (bytes_eq locker h.authorized_locker_public_key)
    then err illegal_owner
    else ok (record h { is_locked = 1 })

unfoldable pub unlock :
    List ℕ → PendingMintsBufferStateHeader → ProgramResult PendingMintsBufferStateHeader
unlock locker h =
    if h.is_locked == 0
    then err invalid_account_data
    else if not (bytes_eq locker h.authorized_locker_public_key)
    then err illegal_owner
    else ok (record h {
      is_locked = 0;
      pending_mint_groups_count = 0;
      pending_mints_count = 0;
      pending_mints_initialized = 0;
    })

unfoldable pub get_total_buffer_size : PendingMintsBufferStateHeader → ℕ
get_total_buffer_size h =
    header_size + 32 * h.pending_mint_groups_count + h.pending_mints_count * 40

unfoldable pub calculate_target_size : ℕ → ℕ
calculate_target_size count =
    let groups = (count + 24 - 1) / 24 in header_size + groups * 32 + count * 40

-- Offsets are from the end of the header.
unfoldable pub get_nth_group_hash_offset : ℕ → ℕ
get_nth_group_hash_offset group_index = group_index * 32

unfoldable pub get_nth_pending_mint_offset : PendingMintsBufferStateHeader → ℕ → ℕ
get_nth_pending_mint_offset h global_mint_index =
    h.pending_mint_groups_count * 32 + global_mint_index * 40

module _ (rt : Runtime) where
  unfoldable pub insert_pending_mints :
      ℕ
      → List ℕ
      → PendingMintsBufferStateHeader
      → List ℕ
      → ProgramResult (AccountData PendingMintsBufferStateHeader)
  insert_pending_mints group_index mint_data h body =
      let global_start = (group_index * 24) % 2 ^ 16 in
      let hash_offset = get_nth_group_hash_offset group_index in
      let mint_offset = get_nth_pending_mint_offset h global_start in
      let data_end = mint_offset + length mint_data in
      let hash_end = hash_offset + 32 in
      let digest = rt.sha256 mint_data in
      let count_inc = (length mint_data / 40) % 2 ^ 16 in
      if not (h.is_locked == 0)
      then err account_already_initialized
      else if leb h.pending_mint_groups_count group_index
      then err invalid_argument
      else if ltb (24 * 40) (length mint_data)
      then err invalid_instruction_data
      else if not (length mint_data % 40 == 0)
      then err invalid_instruction_data
      else if ltb (length body) data_end
      then err account_data_too_small
      else if ltb (length body) hash_end
      then err account_data_too_small
      else if not (bytes_eq (slice hash_offset hash_end body) zero_hash)
      then err account_already_initialized
      else ok (
          buffer
            (record h {
              pending_mints_initialized = (h.pending_mints_initialized + count_inc) % 2 ^ 16;
            })
            (write_at mint_offset mint_data (write_at hash_offset digest body)))
