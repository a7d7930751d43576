-- ===== src/Examples/Minted.antt =====
-- The bridge mints what a locked buffer holds.
use psy_doge_solana_bridge.Prelude.{
  ℕ, ◌*◌, ◌<◌, ◌≡◌, refl, true, List, [], ◌∷◌, arith, length, replicate,
}
use psy_doge_solana_bridge.Errors.{ok, Action, ◌>>=◌, ◌>>◌, fail_if, lift}
use psy_doge_solana_bridge.Bytes.{bytes_eq, from_le_bytes, to_le_bytes}
use psy_doge_solana_bridge.MintGroups.{
  tracker_is_empty, ensure_can_claim_pending_mints_group, mark_pending_mints_group_claimed,
}
use psy_doge_solana_bridge.MintGroups.Groups.{
  compute_mint_group_info, mints_count_for_group, get_nth_pending_mint_offset,
}
use psy_doge_solana_bridge.MintGroups.Manager.{
  FinalizedBlockMintTxoManager, zero_info, is_empty, manager_mark_pending_mints_group_claimed,
}
use psy_doge_solana_bridge.MintGroups.Manager.Finish.{fresh_tracker, fresh_tracker-Consistent}
use psy_doge_solana_bridge.Programs.MintBuffer.{mint_header_bytes}
use psy_doge_solana_bridge.Programs.MintBuffer.Filled.{group_slot}
use psy_doge_solana_bridge.Bridge.AutoMint.{run_auto_mint_group_precheck}
use psy_doge_solana_bridge.Bridge.AutoMint.Mints.{
  mint_loop, check_mint_header, claim_group_checked, mint_claimed, run_auto_mint_group,
}
use psy_doge_solana_bridge.Bridge.AutoMint.Paid.{parse_mints, mint_all}
use psy_doge_solana_bridge.Bridge.AutoMint.Committed.{account_bytes, minted_mints_are_committed}
use psy_doge_solana_bridge.Examples.Chain.{chain, chain-IsRuntime}
use psy_doge_solana_bridge.Examples.MintBuffer.{locker_key, program, body, locked, locked-Reachable}

abbrev pub buffer_key : List ℕ
buffer_key = replicate 32 9

-- One mint waits.
abbrev pub waiting : FinalizedBlockMintTxoManager
waiting = record {
  pending_finalized_info = replicate 8 zero_info;
  pending_finalized_info_current_index = 0;
  pending_finalized_info_total_count = 1;
  start_block_height = 50;
  current_pending_mints_tracker = fresh_tracker buffer_key 1;
}

-- A ledger that lists what was minted.
abbrev list_mint : ℕ → List ℕ → ℕ → Action (List (List ℕ × ℕ)) (Unit {0})
list_mint p recipient amount ledger = (ok tt, (recipient, amount) ∷ ledger)

mints_one :
    (run_auto_mint_group list_mint locker_key buffer_key
      (account_bytes locked body)
      0
      (waiting, [])).0
    ≡ ok (true, 1)
unfolding run_auto_mint_group claim_group_checked mint_claimed mint_loop check_mint_header
    mint_header_bytes to_le_bytes from_le_bytes ◌>>◌ ◌>>=◌ fail_if lift is_empty tracker_is_empty
    ensure_can_claim_pending_mints_group manager_mark_pending_mints_group_claimed
    mark_pending_mints_group_claimed compute_mint_group_info mints_count_for_group
    get_nth_pending_mint_offset bytes_eq
mints_one = refl

minted_mints_are_committed_example :
    let (after, paid) =
      (run_auto_mint_group list_mint locker_key buffer_key
        (account_bytes locked body)
        0
        (waiting, [])).1 in
    (bytes : List ℕ) × (chain.sha256 bytes ≡ group_slot body 0)
    × (length bytes ≡ 1 * 40)
    × (0 < 1)
    × (paid ≡ (mint_all list_mint 0 (parse_mints 1 bytes) []).1)
    × (after ≡ (run_auto_mint_group_precheck 0 buffer_key waiting).1)
minted_mints_are_committed_example =
    minted_mints_are_committed chain program chain-IsRuntime list_mint locker_key buffer_key 0
      locked body waiting [] true 1 locked-Reachable (omega arith) refl refl
      (fresh_tracker-Consistent buffer_key 1 (omega arith)) refl mints_one
