-- ===== src/Examples/Group.antt =====
-- The last group of a block through the program of the bridge.
use psy_doge_solana_bridge.Prelude.{
  ℕ, ◌+◌, ◌*◌, ◌%◌, ◌^◌, ◌≡◌, refl, true, false, some, List, [], ◌∷◌, length, replicate,
}
use psy_doge_solana_bridge.Errors
use psy_doge_solana_bridge.Bytes.{bytes_eq, from_le_bytes, to_le_bytes}
use psy_doge_solana_bridge.MintGroups.{
  get_current_total_pending_mints_groups, tracker_is_empty, ensure_can_claim_pending_mints_group,
  mark_pending_mints_group_claimed,
}
use psy_doge_solana_bridge.MintGroups.Groups.{
  compute_mint_group_info, mints_count_for_group, get_nth_pending_mint_offset,
}
use psy_doge_solana_bridge.MintGroups.Manager.{is_empty, manager_mark_pending_mints_group_claimed}
use psy_doge_solana_bridge.Bridge.Core.{initialize}
use psy_doge_solana_bridge.Bridge.AutoMint.{run_auto_mint_group_precheck}
use psy_doge_solana_bridge.Programs.{ok, ◌>>=◌, ◌>>◌, fail_if, buffer, header_of}
use psy_doge_solana_bridge.Programs.MintBuffer.{mint_header_bytes, unlock}
use psy_doge_solana_bridge.Programs.MintBuffer.Instructions.{
  Storage, header_instruction, process_instruction,
}
use psy_doge_solana_bridge.Programs.DogeBridge.{
  BridgeState, BridgeAccount, from_core, bridge_state_of, solana_mint_to,
}
use psy_doge_solana_bridge.Programs.DogeBridge.MintGroup.{
  cpi_unlocked, unlock_buffer, mint_to_recipients, mint_group, mint_and_unlock,
  process_process_mint_group,
}
use psy_doge_solana_bridge.Programs.DogeBridge.Mints.{memory_bytes, IsGroupPaid}
use psy_doge_solana_bridge.Programs.DogeBridge.Minted.{IsUnlockedBy, accepted_group_is_minted}
use psy_doge_solana_bridge.Examples.Chain.{chain}
use psy_doge_solana_bridge.Examples.Requests.{start}
use psy_doge_solana_bridge.Examples.MintBuffer.{locker_key, program, body, locked}
use psy_doge_solana_bridge.Examples.Minted.{buffer_key, waiting}
use psy_doge_solana_bridge.Examples.Processor.{mint, operator, sums}

abbrev before : BridgeState
before = record { core_state = record start { pending_mint_txos = waiting }; doge_mint = mint }

abbrev account : BridgeAccount
account = record { key = locker_key; state = some before }

abbrev mint_buffer : Storage
mint_buffer = record {
  key = buffer_key;
  owner = program;
  lamports = 144;
  memory = buffer locked body;
}

-- The counts are cleared.
abbrev unlocked : Storage
unlocked = record mint_buffer {
  memory =
      buffer
        (record locked {
          is_locked = 0;
          pending_mint_groups_count = 0;
          pending_mints_count = 0;
          pending_mints_initialized = 0;
        })
        body;
}

abbrev after : BridgeState
after = record before {
  core_state = record start {
    pending_mint_txos = (run_auto_mint_group_precheck 0 buffer_key waiting).1;
  };
}

-- The eight bytes of the amount are ones.
abbrev amount : ℕ
amount = from_le_bytes (replicate 8 1)

abbrev recipient : List ℕ
recipient = replicate 32 3

minted :
    process_process_mint_group sums chain program account mint_buffer operator mint
      (recipient ∷ [])
      0
      true
      0
    ≡ ok (after, unlocked, amount)
unfolding process_process_mint_group run_auto_mint_group_precheck mint_and_unlock mint_group
    mint_to_recipients solana_mint_to unlock_buffer cpi_unlocked process_instruction
    header_instruction unlock header_of from_core bridge_state_of initialize mint_header_bytes
    to_le_bytes from_le_bytes fail_if ◌>>=◌ ◌>>◌ Errors.◌>>=◌ Errors.◌>>◌ Errors.fail_if Errors.lift
    is_empty tracker_is_empty ensure_can_claim_pending_mints_group
    manager_mark_pending_mints_group_claimed mark_pending_mints_group_claimed
    compute_mint_group_info mints_count_for_group get_nth_pending_mint_offset bytes_eq
minted = refl

accepted_group_is_minted_example :
    (state : BridgeState) × (offset : ℕ) × (account.state ≡ some state)
    × (operator.is_signer ≡ true)
    × (operator.key ≡ state.core_state.access_control.operator_pubkey)
    × (mint ≡ state.doge_mint)
    × (run_auto_mint_group_precheck 0 mint_buffer.key state.core_state.pending_mint_txos
        ≡ (Errors.ok (true, length (recipient ∷ []), offset), after.core_state.pending_mint_txos))
    × (let t = state.core_state.pending_mint_txos.current_pending_mints_tracker in
        (mint_buffer.key ≡ t.last_finalized_auto_claim_mints_storage_account)
        × (length (recipient ∷ []) ≡ mints_count_for_group t 0)
        × (offset ≡ 72 + get_current_total_pending_mints_groups t * 32 + ((0 * 24) % 2 ^ 16) * 40))
    × IsGroupPaid sums mint (recipient ∷ []) (memory_bytes mint_buffer.memory) offset 0 amount
    × ((true ≡ false) → unlocked ≡ mint_buffer)
    × ((true ≡ true) → IsUnlockedBy account.key mint_buffer unlocked)
accepted_group_is_minted_example =
    accepted_group_is_minted chain program sums account mint_buffer unlocked operator mint
      (recipient ∷ []) 0 true 0 amount after minted
