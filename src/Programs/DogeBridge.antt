-- ===== src/Programs/DogeBridge.antt =====
-- Handlers of the bridge program: programs/doge-bridge/src/processor.rs, with the checks of accounts
-- around the operations on the state.
pub mod Accepted
pub mod MintGroup
pub mod Mints
pub mod Minted
pub mod Replay
use psy_doge_solana_bridge.Prelude.{
  ℕ, ◌+◌, ◌%◌, ◌^◌, Bool, not, Option, some, none, List, [], ◌∷◌, ◌++◌, length, drop, ltb, leb,
  ◌==◌, if◌then◌else◌, get_elem?,
}
use psy_doge_solana_bridge.Errors.{DogeBridgeError, account_mismatch, cpi_token_mint_to_call_error}
use psy_doge_solana_bridge.Errors
use psy_doge_solana_bridge.Bytes.{Hash, bytes_eq, to_le_bytes}
use psy_doge_solana_bridge.Bridge.{
  Crypto, PsyBridgeProgramState, PsyReturnTxOutput, PsyWithdrawalRequest,
}
use psy_doge_solana_bridge.Bridge.Core.{
  snapshot_for_withdrawal, run_bridge_operator_withdraw_fees_precheck, request_withdrawal,
  run_process_bridge_withdrawal,
}
use psy_doge_solana_bridge.Bridge.Deposits.{process_manual_claimed_deposit}
use psy_doge_solana_bridge.Programs.{
  ProgramResult, ok, err, panic, ◌>>=◌, ◌>>◌, fail_if, Signer, Runtime, bridge_error,
  doge_bridge_error, serialization_error, invalid_pda, invalid_account_input,
  missing_required_signature, illegal_owner, invalid_seeds,
}

-- `BridgeProgramStateWithDogeMint`
pub record BridgeState : Type 0 where
  pub core_state : PsyBridgeProgramState
  pub doge_mint : List ℕ

-- The account of the bridge; memory that is no state has none.
pub record BridgeAccount : Type 0 where
  pub key : List ℕ
  pub state : Option BridgeState

-- A buffer whose bytes are read.
pub record BufferAccount : Type 0 where
  pub owner : List ℕ
  pub bytes : List ℕ

-- `?` on a result of the core: its error becomes one of the program.
unfoldable pub from_core : {A S : Type 0} → Errors.Result A × S → ProgramResult (A × S)
from_core (Errors.ok a, s) = ok (a, s)
from_core (Errors.err e, s) = err (doge_bridge_error e)
from_core (Errors.panic, s) = panic

unfoldable pub bridge_state_of : BridgeAccount → ProgramResult BridgeState
bridge_state_of account = elim account.state [
  | none ↦ err (bridge_error serialization_error)
  | some state ↦ ok state
]

-- `b"bridge_state"` and `b"manual-claim"`.
abbrev pub bridge_state_seed : List ℕ
bridge_state_seed = 98 ∷ 114 ∷ 105 ∷ 100 ∷ 103 ∷ 101 ∷ 95 ∷ 115 ∷ 116 ∷ 97 ∷ 116 ∷ 101 ∷ []

abbrev pub manual_claim_seed : List ℕ
manual_claim_seed = 109 ∷ 97 ∷ 110 ∷ 117 ∷ 97 ∷ 108 ∷ 45 ∷ 99 ∷ 108 ∷ 97 ∷ 105 ∷ 109 ∷ []

-- `sha256("global:post_message")[..8]`
abbrev pub wormhole_vaa_discriminator : List ℕ
wormhole_vaa_discriminator = 214 ∷ 50 ∷ 100 ∷ 209 ∷ 38 ∷ 34 ∷ 7 ∷ 76 ∷ []

-- What is sent to the shim.
unfoldable pub vaa_data : ℕ → List ℕ → List ℕ → List ℕ
vaa_data withdrawal_nonce sighash transaction_buffer =
    wormhole_vaa_discriminator
    ++ (to_le_bytes 4 withdrawal_nonce
        ++ (1
            ∷ (to_le_bytes 4 ((length sighash + length transaction_buffer) % 2 ^ 32)
                ++ (sighash ++ transaction_buffer))))

-- The calls of the token program, on a ledger, and of the shim: the key of the mint, the account and
-- the amount; the data.
pub record TokenProgram (L : Type 0) : Type 0 where
  pub mint_to : List ℕ → List ℕ → ℕ → L → Option L
  pub burn : List ℕ → List ℕ → List ℕ → ℕ → L → Errors.Result (Unit {0}) × L

-- `SolanaMinter`: the recipient must be the account at the index.
unfoldable pub solana_mint_to :
    {L : Type 0} → TokenProgram L → List ℕ → List (List ℕ) → ℕ → List ℕ → ℕ → L → ProgramResult L
solana_mint_to token mint recipient_map index_in_mint_group account amount ledger =
    elim (get_elem? recipient_map index_in_mint_group) [
      | none ↦ err (doge_bridge_error account_mismatch)
      | some recipient ↦
          if not (bytes_eq recipient account)
          then err (doge_bridge_error account_mismatch)
          else elim (token.mint_to mint recipient amount ledger) [
            | none ↦ err (doge_bridge_error cpi_token_mint_to_call_error)
            | some after ↦ ok after
          ]
    ]

module _ (rt : Runtime) where
  unfoldable pub verify_lowest_pda : List ℕ → List ℕ → List ℕ → List ℕ → ProgramResult (Unit {0})
  verify_lowest_pda base_seed provided_account program_id user_key =
      fail_if
        (not (
          bytes_eq provided_account
            (rt.find_program_address (base_seed ∷ user_key ∷ []) program_id)))
        invalid_seeds

module _ {L : Type 0} (token : TokenProgram L) where
  unfoldable pub process_operator_withdraw_fees :
      BridgeAccount → List ℕ → List ℕ → Signer → L → ProgramResult (BridgeState × L)
  process_operator_withdraw_fees bridge_state_account operator_token_account doge_mint operator
        ledger =
      do
        fail_if (not operator.is_signer) missing_required_signature
        state ← bridge_state_of bridge_state_account
        fail_if (not (bytes_eq doge_mint state.doge_mint)) (bridge_error invalid_account_input)
        fail_if (not (bytes_eq operator.key state.core_state.access_control.operator_pubkey))
            missing_required_signature
        (fees_to_withdraw, core) ←
            from_core (run_bridge_operator_withdraw_fees_precheck state.core_state)
        after ←
            solana_mint_to token doge_mint (operator_token_account ∷ []) 0 operator_token_account
              fees_to_withdraw ledger
        ok (record state { core_state = core }, after)

  -- The mint account is not compared with that of the state.
  unfoldable pub process_process_manual_deposit :
      Crypto
      → Runtime
      → List ℕ
      → BridgeAccount
      → List ℕ
      → List ℕ
      → Signer
      → Hash
      → Hash
      → Hash
      → ℕ
      → ℕ
      → List ℕ
      → L
      → ProgramResult (BridgeState × L)
  process_process_manual_deposit c rt manual_claim_program_id bridge_state_account recipient_account
        doge_mint manual_claim_program_signer tx_hash recent_block_merkle_tree_root
        recent_auto_claim_txo_root combined_txo_index deposit_amount_sats
        depositor_solana_public_key ledger =
      do
        fail_if (not manual_claim_program_signer.is_signer) missing_required_signature
        verify_lowest_pda rt manual_claim_seed manual_claim_program_signer.key
            manual_claim_program_id depositor_solana_public_key
        state ← bridge_state_of bridge_state_account
        (mint_amount, core) ← from_core (
            process_manual_claimed_deposit c tx_hash recent_block_merkle_tree_root
              recent_auto_claim_txo_root combined_txo_index recipient_account deposit_amount_sats
              state.core_state)
        after ←
            solana_mint_to token doge_mint (recipient_account ∷ []) 0 recipient_account mint_amount
              ledger
        ok (record state { core_state = core }, after)

  -- Here neither.
  unfoldable pub process_request_withdrawal :
      Crypto
      → BridgeAccount
      → List ℕ
      → List ℕ
      → List ℕ
      → PsyWithdrawalRequest
      → L
      → ProgramResult (BridgeState × L)
  process_request_withdrawal c bridge_state_account user_token_account doge_mint user_authority
        request ledger =
      do
        state ← bridge_state_of bridge_state_account
        let (burned, after) =
            token.burn user_token_account doge_mint user_authority request.amount_sats ledger
        (done, core) ← from_core (
            request_withdrawal c (λ account amount. burned) user_authority request state.core_state)
        ok (record state { core_state = core }, after)

module _ (c : Crypto) (rt : Runtime) (program_id : List ℕ) where
  -- The state after the withdrawal, and the data that are sent to the shim.
  unfoldable pub process_process_withdrawal :
      List ℕ
      → List ℕ
      → BridgeAccount
      → BufferAccount
      → List ℕ
      → PsyReturnTxOutput
      → Hash
      → ℕ
      → ProgramResult (BridgeState × List ℕ)
  process_process_withdrawal generic_buffer_program_id withdrawal_vk bridge_state_account
        doge_tx_buffer proof new_return_output new_spent_txo_tree_root
        new_next_processed_withdrawals_index =
      do
        let bridge_pda = rt.find_program_address (bridge_state_seed ∷ []) program_id
        let tx_data = drop 32 doge_tx_buffer.bytes
        fail_if (not (bytes_eq bridge_state_account.key bridge_pda)) (bridge_error invalid_pda)
        fail_if (not (bytes_eq doge_tx_buffer.owner generic_buffer_program_id)) illegal_owner
        state ← bridge_state_of bridge_state_account
        fail_if (ltb (length doge_tx_buffer.bytes) 32) (bridge_error invalid_account_input)
        (sighash, core) ← from_core (
            run_process_bridge_withdrawal c proof withdrawal_vk tx_data new_return_output
              new_spent_txo_tree_root new_next_processed_withdrawals_index state.core_state)
        let nonce = core.next_processed_withdrawals_index % 2 ^ 32
        ok (record state { core_state = core }, vaa_data nonce sighash tx_data)

  unfoldable pub process_snapshot_withdrawals :
      ℕ → BridgeAccount → Signer → ProgramResult BridgeState
  process_snapshot_withdrawals unix_timestamp bridge_state_account operator = do
    let bridge_pda = rt.find_program_address (bridge_state_seed ∷ []) program_id
    fail_if (not operator.is_signer) missing_required_signature
    fail_if (not (bytes_eq bridge_pda bridge_state_account.key)) (bridge_error invalid_pda)
    state ← bridge_state_of bridge_state_account
    fail_if (not (bytes_eq state.core_state.access_control.operator_pubkey operator.key))
        missing_required_signature
    ok (record state {
      core_state = snapshot_for_withdrawal (unix_timestamp % 2 ^ 32) state.core_state;
    })
