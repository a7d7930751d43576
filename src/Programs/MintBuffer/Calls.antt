-- ===== src/Programs/MintBuffer/Calls.antt =====
-- The instructions of the program one by one, and the memory that they lead to.
use psy_doge_solana_bridge.Prelude.{
  ℕ, ◌+◌, ◌≤◌, ◌≡◌, inl, inr, true, List, [], ◌∷◌, length, ltb, ◌==◌, if◌then◌else◌, arith,
  Bool-cases, replicate,
}
use psy_doge_solana_bridge.Bytes.{bytes_eq}
use psy_doge_solana_bridge.Bytes.Laws.{bytes_eq→eq}
use psy_doge_solana_bridge.Programs.{Runtime, AccountData, short, ok}
use psy_doge_solana_bridge.Programs.MintBuffer.{
  PendingMintsBufferStateHeader, setup, reinit, lock, unlock, calculate_target_size,
}
use psy_doge_solana_bridge.Programs.MintBuffer.Instructions.{
  MintAccounts, grown_len, process_instruction, setup_instruction, reinit_instruction,
  resize_instruction, insert_instruction, header_instruction,
}
use psy_doge_solana_bridge.Programs.MintBuffer.Reach.{IsBytes}

-- The memory that instructions lead to from an account with none, in any order and with any other
-- accounts.
pub data Reachable (rt : Runtime) (program_id : List ℕ)
    : AccountData PendingMintsBufferStateHeader → Type 0 where
  no_memory : Reachable rt program_id (short 0)
  instruction :
      {memory : AccountData PendingMintsBufferStateHeader} (input : List ℕ)
      (accounts after : MintAccounts)
      → IsBytes input
      → Reachable rt program_id accounts.storage.memory
      → process_instruction rt program_id input accounts ≡ ok after
      → after.storage.memory ≡ memory
      → Reachable rt program_id memory

-- One of the six instructions.
pub data Call (rt : Runtime) (program_id : List ℕ) (accounts after : MintAccounts) : Type 0 where
  set_up :
      (rest : List ℕ)
      → setup_instruction rt program_id rest accounts ≡ ok after
      → Call rt program_id accounts after
  reinited :
      (rest : List ℕ)
      → IsBytes rest
      → reinit_instruction rt program_id rest accounts ≡ ok after
      → Call rt program_id accounts after
  resized : resize_instruction rt program_id accounts ≡ ok after → Call rt program_id accounts after
  inserted :
      (rest : List ℕ)
      → insert_instruction rt program_id rest accounts ≡ ok after
      → Call rt program_id accounts after
  locked :
      header_instruction rt program_id lock accounts ≡ ok after → Call rt program_id accounts after
  unlocked :
      header_instruction rt program_id unlock accounts ≡ ok after
      → Call rt program_id accounts after

pub new_len_bounds :
    (count : ℕ) (body : List ℕ)
    → let target = calculate_target_size count in
      let current = 72 + length body in
      let new_len = if ltb current target then grown_len target current else target in
      (72 ≤ new_len) × (new_len ≤ target)
unfolding calculate_target_size grown_len
new_len_bounds count body = (ground arith, ground arith)

module _ (rt : Runtime) (program_id : List ℕ) where
  pub call_of :
      (input : List ℕ) (accounts after : MintAccounts)
      → IsBytes input
      → process_instruction rt program_id input accounts ≡ ok after
      → Call rt program_id accounts after
  unfolding process_instruction
  call_of [] accounts after bytes done = absurd (cc done)
  call_of (tag ∷ rest) accounts after bytes done = elim (Bool-cases (tag == 0)) [
    | inl t0 ↦ set_up rest (rw t0 at done)
    | inr n0 ↦ elim (Bool-cases (tag == 1)) [
      | inl t1 ↦ reinited rest bytes.1 (rw (n0, t1) at done)
      | inr n1 ↦ elim (Bool-cases (tag == 2)) [
        | inl t2 ↦ resized (rw (n0, n1, t2) at done)
        | inr n2 ↦ elim (Bool-cases (tag == 3)) [
          | inl t3 ↦ inserted rest (rw (n0, n1, n2, t3) at done)
          | inr n3 ↦ elim (Bool-cases (tag == 4)) [
            | inl t4 ↦ locked (rw (n0, n1, n2, n3, t4) at done)
            | inr n4 ↦ elim (Bool-cases (tag == 5)) [
              | inl t5 ↦ unlocked (rw (n0, n1, n2, n3, n4, t5) at done)
              | inr n5 ↦ absurd (cc (rw (n0, n1, n2, n3, n4, n5) at done))
            ]
          ]
        ]
      ]
    ]
  ]

  pub reinit_free :
      (count : ℕ) (h h' : PendingMintsBufferStateHeader) → reinit count h ≡ ok h' → h.is_locked ≡ 0
  unfolding reinit
  reinit_free count h h' done = ground (arith, done)

  pub lock_free :
      (key : List ℕ) (h h' : PendingMintsBufferStateHeader) → lock key h ≡ ok h' → h.is_locked ≡ 0
  unfolding lock
  lock_free key h h' done = ground (arith, done)

  pub setup_first :
      (locker writer : List ℕ) (h h' : PendingMintsBufferStateHeader)
      → setup locker writer h ≡ ok h'
      → bytes_eq h.authorized_locker_public_key (replicate 32 0) ≡ true
  unfolding setup
  setup_first locker writer h h' done = ground (arith, done)

  pub unlock_by_locker :
      (key : List ℕ) (h h' : PendingMintsBufferStateHeader)
      → unlock key h ≡ ok h'
      → (key ≡ h.authorized_locker_public_key)
        × (h' ≡ record h {
          is_locked = 0;
          pending_mint_groups_count = 0;
          pending_mints_count = 0;
          pending_mints_initialized = 0;
        })
  unfolding unlock
  unlock_by_locker key h h' done = (bytes_eq→eq _ _ (ground (arith, done)), ground (arith, done))
