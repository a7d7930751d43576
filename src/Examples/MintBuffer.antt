-- ===== src/Examples/MintBuffer.antt =====
-- A buffer of one pending mint: it is set up, sized, filled and locked.
use psy_doge_solana_bridge.Prelude.{
  ℕ, ◌+◌, ◌-◌, ◌*◌, ◌/◌, ◌<◌, ◌≤◌, ◌≡◌, refl, Bool, true, false, ◌&&◌, ltb, List, [], ◌∷◌, ◌++◌,
  arith, length, min, replicate, get_elem?,
}
use psy_doge_solana_bridge.Bytes.{bytes_eq, from_le_bytes}
use psy_doge_solana_bridge.Bytes.Write.{write_at}
use psy_doge_solana_bridge.Programs.{
  AccountData, short, buffer, ok, header_of, fail_if, ◌>>=◌, ◌>>◌, Signer,
}
use psy_doge_solana_bridge.Programs.MintBuffer.{
  PendingMintsBufferStateHeader, setup, reinit, groups_of, lock, unlock, get_total_buffer_size,
  calculate_target_size, get_nth_group_hash_offset, get_nth_pending_mint_offset,
  insert_pending_mints, header_size,
}
use psy_doge_solana_bridge.Programs.MintBuffer.Instructions.{
  MintAccounts, verify_writer, zero_hashes, grown_len, realloc_account, resize_account,
  allocate_if_empty, setup_instruction, reinit_instruction, insert_instruction, header_instruction,
  process_instruction,
}
use psy_doge_solana_bridge.Programs.MintBuffer.Filled.{group_slot, group_mints}
use psy_doge_solana_bridge.Programs.MintBuffer.Reach.{IsBytes}
use psy_doge_solana_bridge.Programs.MintBuffer.Locked.{
  locked_buffer_is_complete, locked_buffer_only_unlocks,
}
use psy_doge_solana_bridge.Programs.MintBuffer.Calls.{Reachable, no_memory, instruction}
use psy_doge_solana_bridge.Programs.MintBuffer.Resizes.{resizes, resizes_reach_target}
use psy_doge_solana_bridge.Examples.Chain.{chain, resized, pay, chain-IsRuntime, chain-AllowsGrowth}

abbrev pub locker_key : List ℕ
locker_key = replicate 32 5

abbrev pub writer_key : List ℕ
writer_key = replicate 32 6

abbrev pub program : List ℕ
program = 8 ∷ []

abbrev writer : Signer
writer = record { key = writer_key; is_signer = true; lamports = 1000 }

abbrev locker : Signer
locker = record { key = locker_key; is_signer = true; lamports = 0 }

abbrev system_program : Signer
system_program = record { key = []; is_signer = false; lamports = 0 }

abbrev account_of : ℕ → AccountData PendingMintsBufferStateHeader → List Signer → MintAccounts
account_of lamports memory others = record {
  storage = record { key = 9 ∷ []; owner = program; lamports = lamports; memory = memory };
  others = others;
}

abbrev paying : ℕ → List Signer
paying lamports = record writer { lamports = lamports } ∷ system_program ∷ []

abbrev header : ℕ → ℕ → ℕ → ℕ → PendingMintsBufferStateHeader
header is_locked groups initialized count = record {
  authorized_locker_public_key = locker_key;
  authorized_writer_public_key = writer_key;
  is_locked = is_locked;
  mode = 0;
  pending_mint_groups_count = groups;
  pending_mints_initialized = initialized;
  pending_mints_count = count;
}

-- A recipient and an amount.
abbrev mint : List ℕ
mint = replicate 32 3 ++ replicate 8 1

abbrev pub body : List ℕ
body = replicate 32 1 ++ mint

abbrev pub locked : PendingMintsBufferStateHeader
locked = header 1 1 1 1

set_up :
    process_instruction chain program (0 ∷ (locker_key ++ writer_key)) (account_of 72 (short 0) [])
    ≡ ok (account_of 72 (buffer (header 0 0 0 0) []) [])
unfolding process_instruction setup_instruction allocate_if_empty setup header_of bytes_eq fail_if
    ◌>>=◌ ◌>>◌
set_up = refl

sized :
    process_instruction chain program
      (1 ∷ 1 ∷ 0 ∷ [])
      (account_of 72 (buffer (header 0 0 0 0) []) (paying 1000))
    ≡ ok (account_of 144 (buffer (header 0 1 0 1) (replicate 72 0)) (paying 928))
unfolding process_instruction reinit_instruction verify_writer resize_account realloc_account
    resized pay reinit groups_of calculate_target_size grown_len zero_hashes write_at header_of
    bytes_eq from_le_bytes fail_if ◌>>=◌ ◌>>◌
sized = refl

filled :
    process_instruction chain program
      (3 ∷ 0 ∷ 0 ∷ mint)
      (account_of 144 (buffer (header 0 1 0 1) (replicate 72 0)) (paying 928))
    ≡ ok (account_of 144 (buffer (header 0 1 1 1) body) (paying 928))
unfolding process_instruction insert_instruction verify_writer resize_account grown_len
    get_total_buffer_size insert_pending_mints get_nth_group_hash_offset get_nth_pending_mint_offset
    write_at header_of bytes_eq from_le_bytes fail_if ◌>>=◌ ◌>>◌
filled = refl

locks :
    process_instruction chain program
      (4 ∷ [])
      (account_of 144 (buffer (header 0 1 1 1) body) (locker ∷ []))
    ≡ ok (account_of 144 (buffer locked body) (locker ∷ []))
unfolding process_instruction header_instruction lock header_of bytes_eq fail_if ◌>>=◌ ◌>>◌
locks = refl

unfoldable all_bytes : List ℕ → Bool
all_bytes [] = true
all_bytes (b ∷ bs) = ltb b 256 && all_bytes bs

all_bytes_lem : (bs : List ℕ) → all_bytes bs ≡ true → IsBytes bs
unfolding all_bytes
all_bytes_lem [] h = tt
all_bytes_lem (b ∷ bs) h = (ground (arith, h), all_bytes_lem bs (ground (arith, h)))

mint_bytes : all_bytes (3 ∷ 0 ∷ 0 ∷ mint) ≡ true
unfolding all_bytes
mint_bytes = refl

key_bytes : all_bytes (0 ∷ (locker_key ++ writer_key)) ≡ true
unfolding all_bytes
key_bytes = refl

size_bytes : all_bytes (1 ∷ 1 ∷ 0 ∷ []) ≡ true
unfolding all_bytes
size_bytes = refl

unlock_bytes : all_bytes (5 ∷ []) ≡ true
unfolding all_bytes
unlock_bytes = refl

lock_bytes : all_bytes (4 ∷ []) ≡ true
unfolding all_bytes
lock_bytes = refl

pub locked-Reachable : Reachable chain program (buffer locked body)
locked-Reachable =
    instruction (4 ∷ []) _ _ (all_bytes_lem _ lock_bytes)
      (instruction (3 ∷ 0 ∷ 0 ∷ mint) _ _ (all_bytes_lem _ mint_bytes)
        (instruction (1 ∷ 1 ∷ 0 ∷ []) _ _ (all_bytes_lem _ size_bytes)
          (instruction (0 ∷ (locker_key ++ writer_key)) _ _ (all_bytes_lem _ key_bytes) no_memory
            set_up refl)
          sized refl)
        filled refl)
      locks refl

locked_buffer_is_complete_example :
    (0 < min 24 (1 - 0 * 24))
    × (1 ≡ (1 + 23) / 24)
    × (1 * 32 + (0 * 24 + min 24 (1 - 0 * 24)) * 40 ≤ length body)
    × (group_slot body 0 ≡ chain.sha256 (group_mints 1 body 0 (min 24 (1 - 0 * 24))))
locked_buffer_is_complete_example =
    locked_buffer_is_complete chain program chain-IsRuntime locked body 0 locked-Reachable
      (omega arith) (omega arith)

locker_set : bytes_eq locker_key (replicate 32 0) ≡ false
unfolding bytes_eq
locker_set = refl

unlocks :
    process_instruction chain program (5 ∷ []) (account_of 144 (buffer locked body) (locker ∷ []))
    ≡ ok (account_of 144 (buffer (header 0 0 0 0) body) (locker ∷ []))
unfolding process_instruction header_instruction unlock header_of bytes_eq fail_if ◌>>=◌ ◌>>◌
unlocks = refl

locked_buffer_only_unlocks_example :
    (signer : Signer) × (others : List Signer) × ((locker ∷ []) ≡ signer ∷ others)
    × (signer.is_signer ≡ true)
    × (signer.key ≡ locker_key)
    × (buffer (header 0 0 0 0) body ≡ buffer (header 0 0 0 0) body)
locked_buffer_only_unlocks_example =
    locked_buffer_only_unlocks chain program (5 ∷ [])
      (account_of 144 (buffer locked body) (locker ∷ []))
      (account_of 144 (buffer (header 0 0 0 0) body) (locker ∷ [])) locked body
      (all_bytes_lem _ unlock_bytes) refl (omega arith) locker_set unlocks

total : get_total_buffer_size (header 0 1 0 1) ≡ 144
unfolding get_total_buffer_size
total = refl

-- An account of 12 bytes behind the header for a buffer of 72.
resizes_reach_target_example :
    (after : MintAccounts) × (body' : List ℕ) × (resizes chain program 1
        (account_of 84 (buffer (header 0 1 0 1) (replicate 12 0)) (paying 1000))
      ≡ ok after)
    × (after.storage.memory ≡ buffer (header 0 1 0 1) body')
    × (header_size + length body' ≡ get_total_buffer_size (header 0 1 0 1))
    × ((i : ℕ) → i < 12 → get_elem? body' i ≡ get_elem? (replicate 12 0) i)
resizes_reach_target_example =
    resizes_reach_target chain chain-IsRuntime chain-AllowsGrowth program 1
      (account_of 84 (buffer (header 0 1 0 1) (replicate 12 0)) (paying 1000)).storage
      (record writer { lamports = 1000 }) system_program [] (header 0 1 0 1) (replicate 12 0) refl
      refl refl refl refl (omega (arith, total)) (omega (arith, total)) (omega (arith, total))
