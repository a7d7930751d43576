-- ===== src/Bridge/AutoMint/Mints.antt =====
-- `run_auto_mint_group` and `run_auto_mint_group_old` of program_state/auto_mint.rs: the claim of a
-- group, and the loop that mints what the buffer holds for it.
use psy_doge_solana_bridge.Prelude.{
  ℕ, zero, suc, ◌+◌, ◌*◌, ◌%◌, ◌^◌, Bool, true, not, List, length, ltb, leb, ◌==◌, if◌then◌else◌,
}
use psy_doge_solana_bridge.Errors.{
  Result, ok, err, panic, Action, pure, lift, ◌>>=◌, ◌>>◌, fail_if,
  no_pending_mints_to_auto_process, invalid_account_key, pending_mints_group_index_out_of_bounds,
  invalid_mint_buffer_locking_permission,
}
use psy_doge_solana_bridge.Bytes.{bytes_eq, slice, from_le_bytes}
use psy_doge_solana_bridge.MintGroups.{
  tracker_is_empty, get_current_total_pending_mints_groups, ensure_can_claim_pending_mints_group,
  pm_max_pending_mints_per_group,
}
use psy_doge_solana_bridge.MintGroups.Groups.{mints_count_for_group, get_nth_pending_mint_offset}
use psy_doge_solana_bridge.MintGroups.Manager.{
  FinalizedBlockMintTxoManager, is_empty, manager_mark_pending_mints_group_claimed,
}
use psy_doge_solana_bridge.Bridge.Blocks.{authorized_locker_public_key, pending_mint_groups_count}

pub record PendingMint : Type 0 where
  pub recipient : List ℕ
  pub amount : ℕ

-- The 40 bytes of a mint.
abbrev pub pending_mint : List ℕ → PendingMint
pending_mint bytes = record {
  recipient = slice 0 32 bytes;
  amount = from_le_bytes (slice 32 40 bytes);
}

-- `MintCPIHelper`: the index in the group, the recipient and the amount, on a ledger.
abbrev pub Minter : Type 0 → Type 0
Minter L = ℕ → List ℕ → ℕ → Action L (Unit {0})

-- The loop from index `p` on, for the mints that are left. A range beyond the memory panics.
unfoldable pub mint_loop : {L : Type 0} → Minter L → List ℕ → ℕ → ℕ → ℕ → Action L (Unit {0})
mint_loop mint_to memory start p zero ledger = (ok tt, ledger)
mint_loop mint_to memory start p (suc left) ledger =
    let offset = start + p * 40 in
    let mint = pending_mint (slice offset (offset + 40) memory) in
    let next = mint_loop mint_to memory start (p + 1) left in
    if ltb (length memory) (offset + 40)
    then (panic, ledger)
    else (mint_to p mint.recipient mint.amount >> next) ledger

-- The header of the buffer is read before the key of the account is compared.
unfoldable pub check_mint_header : List ℕ → List ℕ → ℕ → Result (Unit {0})
check_mint_header self_bridge_program_pub_key memory mint_group_index =
    if ltb (length memory) 72
    then panic
    else if leb (pending_mint_groups_count memory) mint_group_index
    then err pending_mints_group_index_out_of_bounds
    else if not (bytes_eq (authorized_locker_public_key memory) self_bridge_program_pub_key)
    then err invalid_mint_buffer_locking_permission
    else ok tt

-- The part of both methods before the loop; `same_account` is the comparison of the keys.
unfoldable pub claim_group_checked :
    List ℕ → List ℕ → ℕ → Bool → Action FinalizedBlockMintTxoManager (Bool × ℕ × ℕ)
claim_group_checked self_bridge_program_pub_key memory mint_group_index same_account m =
    let tracker = m.current_pending_mints_tracker in
    let groups = get_current_total_pending_mints_groups tracker in
    let mints = mints_count_for_group tracker mint_group_index in
    let offset =
      get_nth_pending_mint_offset groups
        ((mint_group_index * pm_max_pending_mints_per_group) % 2 ^ 16) in
    (fail_if (is_empty m) no_pending_mints_to_auto_process
        >> fail_if (groups == 0) no_pending_mints_to_auto_process
        >> fail_if (tracker_is_empty tracker) no_pending_mints_to_auto_process
        >> lift (ensure_can_claim_pending_mints_group tracker mint_group_index)
        >>= λ _.
            lift (check_mint_header self_bridge_program_pub_key memory mint_group_index) >>= λ _.
            fail_if (not same_account) invalid_account_key
            >> manager_mark_pending_mints_group_claimed mint_group_index
            >>= λ can_unlock. pure (can_unlock, mints, offset))
      m

-- The state is the manager with the ledger of the token.
unfoldable pub mint_claimed :
    {L : Type 0}
    → Minter L
    → List ℕ
    → Result (Bool × ℕ × ℕ)
    → Action (FinalizedBlockMintTxoManager × L) (Bool × ℕ)
mint_claimed mint_to memory claim (m, ledger) = elim claim [
  | err e ↦ (err e, (m, ledger))
  | panic ↦ (panic, (m, ledger))
  | ok (can_unlock, mints, offset) ↦
      let (minted, after) = mint_loop mint_to memory offset 0 mints ledger in
      elim minted [
        | err e ↦ (err e, (m, after))
        | panic ↦ (panic, (m, after))
        | ok _ ↦ (ok (can_unlock, mints), (m, after))
      ]
]

unfoldable pub run_auto_mint_group :
    {L : Type 0}
    → Minter L
    → List ℕ
    → List ℕ
    → List ℕ
    → ℕ
    → Action (FinalizedBlockMintTxoManager × L) (Bool × ℕ)
run_auto_mint_group mint_to self_bridge_program_pub_key mint_buffer_public_key memory
      mint_group_index (m, ledger) =
    let same_account =
      bytes_eq mint_buffer_public_key
        m.current_pending_mints_tracker.last_finalized_auto_claim_mints_storage_account in
    let (claim, after) =
      claim_group_checked self_bridge_program_pub_key memory mint_group_index same_account m in
    mint_claimed mint_to memory claim (after, ledger)

-- The older method does not compare the keys, and calls the buffer to unlock it at the end.
unfoldable pub run_auto_mint_group_old :
    {L : Type 0}
    → Minter L
    → (List ℕ → Action L (Unit {0}))
    → List ℕ
    → List ℕ
    → ℕ
    → Action (FinalizedBlockMintTxoManager × L) (Unit {0})
run_auto_mint_group_old mint_to unlock_buffer self_bridge_program_pub_key memory mint_group_index
      (m, ledger) =
    let buffer_account =
      m.current_pending_mints_tracker.last_finalized_auto_claim_mints_storage_account in
    let (claim, claimed) =
      claim_group_checked self_bridge_program_pub_key memory mint_group_index true m in
    let (result, (after, paid)) = mint_claimed mint_to memory claim (claimed, ledger) in
    elim result [
      | err e ↦ (err e, (after, paid))
      | panic ↦ (panic, (after, paid))
      | ok (can_unlock, _) ↦
          if can_unlock
          then (let (unlocked, last) = unlock_buffer buffer_account paid in
              (unlocked, (after, last)))
          else (ok tt, (after, paid))
    ]
