-- ===== src/Programs/ManualClaim.antt =====
-- The program in which a user claims a deposit: programs/manual-claim/src/processor.rs.
pub mod Refused
use psy_doge_solana_bridge.Prelude.{
  ℕ, ◌≡◌, Bool, true, false, not, ◌||◌, Option, some, none, List, [], ◌∷◌, ◌++◌, replicate,
  if◌then◌else◌,
}
use psy_doge_solana_bridge.Errors.{cpi_manual_deposit_call_error}
use psy_doge_solana_bridge.Errors
use psy_doge_solana_bridge.Bytes.{Hash, bytes_eq, to_le_bytes}
use psy_doge_solana_bridge.Bridge.{Crypto}
use psy_doge_solana_bridge.Bridge.DepositManager.{
  UserManualDepositManagerProgramState, ManualDepositMainBridgeCpiHelper, ManualClaim,
  new_empty_manager, manual_claim_deposit,
}
use psy_doge_solana_bridge.Programs.{
  ProgramResult, ok, err, panic, ◌>>=◌, ◌>>◌, fail_if, Signer, Runtime, manual_claim_error,
  manual_core_error, manual_serialization_error, manual_invalid_pda, invalid_recipient_ata,
  missing_required_signature, account_borrow_failed,
}
use psy_doge_solana_bridge.Programs.DogeBridge.{BridgeAccount, manual_claim_seed}

-- The account of a user's claims: not created yet, or memory that is a state or not.
pub data ClaimMemory : Type 0 where
  no_data : ClaimMemory
  holds : UserManualDepositManagerProgramState → ClaimMemory
  other_data : ClaimMemory

pub record ClaimAccount : Type 0 where
  pub key : List ℕ
  pub owner : List ℕ
  pub memory : ClaimMemory

-- `AccountMeta`: an account of a call, whether it is written, and whether it signs.
pub record AccountMeta : Type 0 where
  pub pubkey : List ℕ
  pub is_signer : Bool
  pub is_writable : Bool

-- A call of a program: its key, the accounts, the data, and the seeds of the address that signs.
pub record CpiCall : Type 0 where
  pub program_id : List ℕ
  pub accounts : List AccountMeta
  pub call_data : List ℕ
  pub signer_seeds : List (List ℕ)

-- Calls that are not part of the repository: the address of a token account of an owner for a mint;
-- the number that `find_program_address` adds to the seeds; the creation of an account of a size,
-- paid by another; the call of a program, made while the caller holds the data of some accounts
-- mutably borrowed, on all that it changes.
pub record ClaimRuntime (S : Type 0) : Type 0 where
  pub get_associated_token_address : List ℕ → List ℕ → List ℕ
  pub bump_of : List (List ℕ) → List ℕ → ℕ
  pub create_account : List ℕ → List ℕ → ℕ → ℕ → ProgramResult (Unit {0})
  pub invoke_signed : List (List ℕ) → CpiCall → S → ProgramResult S

unfoldable pub contains_key : List (List ℕ) → List ℕ → Bool
contains_key [] key = false
contains_key (k ∷ keys) key = bytes_eq k key || contains_key keys key

unfoldable pub any_borrowed : List (List ℕ) → List AccountMeta → Bool
any_borrowed borrowed [] = false
any_borrowed borrowed (account ∷ accounts) =
    contains_key borrowed account.pubkey || any_borrowed borrowed accounts

-- What the runtime documents of `invoke_signed`: it checks the borrows of the accounts of the call,
-- writable or not, and refuses it if the data of one of them is mutably borrowed.
abbrev pub RefusesBorrowed : {S : Type 0} → ClaimRuntime S → Type 0
RefusesBorrowed {S} chain =
    (borrowed : List (List ℕ)) (call : CpiCall) (before : S)
    → any_borrowed borrowed call.accounts ≡ true
    → chain.invoke_signed borrowed call before ≡ err account_borrow_failed

-- The keys of the accounts that the claim passes on, with the seeds of the account of the claims.
pub record ClaimKeys : Type 0 where
  pub bridge_program : List ℕ
  pub bridge_state : List ℕ
  pub recipient_account : List ℕ
  pub doge_mint : List ℕ
  pub token_program : List ℕ
  pub claim_pda : List ℕ
  pub claim_pda_seeds : List (List ℕ)

-- The tag of the instruction and the bytes of `ProcessManualDepositInstructionData`.
unfoldable pub manual_deposit_data : Hash → Hash → Hash → ℕ → List ℕ → ℕ → List ℕ
manual_deposit_data recent_block_merkle_tree_root recent_auto_claim_txo_root tx_hash
      combined_txo_index depositor_solana_public_key deposit_amount_sats =
    (5 ∷ replicate 7 0)
    ++ (tx_hash
        ++ (recent_block_merkle_tree_root
            ++ (recent_auto_claim_txo_root
                ++ (to_le_bytes 8 combined_txo_index
                    ++ (depositor_solana_public_key ++ to_le_bytes 8 deposit_amount_sats)))))

-- `map_err` on the call; a call that fails changes nothing.
unfoldable pub called : {S : Type 0} → ProgramResult S → S → Errors.Result (Unit {0}) × S
called (ok after) before = (Errors.ok tt, after)
called (err e) before = (Errors.err cpi_manual_deposit_call_error, before)
called panic before = (Errors.panic, before)

-- `map_err` on the claim.
unfoldable pub claimed : {S : Type 0} → Errors.Result (Unit {0}) × S → ProgramResult S
claimed (Errors.ok done, after) = ok after
claimed (Errors.err e, after) = err (manual_claim_error manual_core_error)
claimed (Errors.panic, after) = panic

-- `AccountMeta::new` and `AccountMeta::new_readonly`.
abbrev writable : List ℕ → Bool → AccountMeta
writable key signs = record { pubkey = key; is_signer = signs; is_writable = true }

abbrev readonly : List ℕ → Bool → AccountMeta
readonly key signs = record { pubkey = key; is_signer = signs; is_writable = false }

-- The instruction that the helper makes for the program that was passed; the account of the claims
-- signs it.
unfoldable pub manual_deposit_call : ClaimKeys → List ℕ → CpiCall
manual_deposit_call keys call_data = record {
  program_id = keys.bridge_program;
  accounts =
      writable keys.bridge_state false
      ∷ writable keys.recipient_account false
      ∷ writable keys.doge_mint false
      ∷ readonly keys.token_program false
      ∷ readonly keys.claim_pda true
      ∷ [];
  call_data = call_data;
  signer_seeds = keys.claim_pda_seeds;
}

-- `SolanaManualDepositHelper`, called while the data of some accounts is mutably borrowed.
unfoldable pub solana_manual_deposit_helper :
    {S : Type 0} → ClaimRuntime S → List (List ℕ) → ClaimKeys → ManualDepositMainBridgeCpiHelper S
solana_manual_deposit_helper chain borrowed keys = record {
  derive_token_ata_from_signer = λ signer_public_key. keys.recipient_account;
  ensure_current_program_is_lowest_possible_pda_seed = λ signer_public_key. true;
  process_manual_deposit = λ block_root claim_root tx_hash index depositor amount before.
      called
        (chain.invoke_signed borrowed
          (manual_deposit_call keys
            (manual_deposit_data block_root claim_root tx_hash index depositor amount))
          before)
        before;
}

module _ (c : Crypto) (rt : Runtime) (program_id : List ℕ) {S : Type 0}
    (chain : ClaimRuntime S) where
  -- The state of the account, which is created if it has no data: 32 bytes.
  unfoldable pub claim_state_of :
      List ℕ → ClaimAccount → ProgramResult UserManualDepositManagerProgramState
  claim_state_of payer claim_state_pda = elim claim_state_pda.memory [
    | no_data ↦
        chain.create_account payer claim_state_pda.key (rt.minimum_balance 32) 32
        >> ok (new_empty_manager c)
    | holds state ↦
        fail_if (not (bytes_eq claim_state_pda.owner program_id))
          (manual_claim_error manual_invalid_pda)
        >> ok state
    | other_data ↦
        fail_if (not (bytes_eq claim_state_pda.owner program_id))
          (manual_claim_error manual_invalid_pda)
        >> err (manual_claim_error manual_serialization_error)
  ]

  -- The hash of the wallet is read from the state of the bridge, and not from `request`, whose other
  -- fields are the instruction's; the state of the bridge need not belong to a certain program. From
  -- the state on, the data of the account of the claims is mutably borrowed, up to the end.
  unfoldable pub process_claim :
      List ℕ
      → ClaimAccount
      → BridgeAccount
      → List ℕ
      → List ℕ
      → List ℕ
      → List ℕ
      → Signer
      → List ℕ
      → List ℕ
      → ManualClaim
      → S
      → ProgramResult (UserManualDepositManagerProgramState × S)
  process_claim manual_claim_vk claim_state_pda bridge_state_account recipient_account doge_mint
        token_program main_bridge_program user payer proof request before =
      do
        fail_if (not user.is_signer) missing_required_signature
        fail_if
            (not (
              bytes_eq (rt.find_program_address (manual_claim_seed ∷ user.key ∷ []) program_id)
                claim_state_pda.key))
            (manual_claim_error manual_invalid_pda)
        fail_if
            (not
              (bytes_eq (chain.get_associated_token_address user.key doge_mint) recipient_account))
            (manual_claim_error invalid_recipient_ata)
        state ← claim_state_of payer claim_state_pda
        fail_if (bytes_eq claim_state_pda.key bridge_state_account.key) account_borrow_failed
        bridge_state ← elim bridge_state_account.state [
          | none ↦ err (manual_claim_error manual_serialization_error)
          | some bridge_state ↦ ok bridge_state
        ]
        let claim = record request {
          custodian_wallet_config_hash = bridge_state.core_state.custodian_wallet_config_hash;
          signer_public_key = user.key;
        }
        let seeds = manual_claim_seed ∷ user.key ∷ []
        let helper = solana_manual_deposit_helper chain (claim_state_pda.key ∷ []) (record {
          bridge_program = main_bridge_program;
          bridge_state = bridge_state_account.key;
          recipient_account = recipient_account;
          doge_mint = doge_mint;
          token_program = token_program;
          claim_pda = claim_state_pda.key;
          claim_pda_seeds = seeds ++ (chain.bump_of seeds program_id ∷ []) ∷ [];
        })
        claimed (manual_claim_deposit c proof manual_claim_vk helper claim (state, before))
