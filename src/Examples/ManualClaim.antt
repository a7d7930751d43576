-- ===== src/Examples/ManualClaim.antt =====
-- A claim through the program of the user: the first one, in a new account.
use psy_doge_solana_bridge.Prelude.{
  ℕ, ◌+◌, ◌≡◌, refl, true, false, some, List, [], ◌∷◌, replicate, if◌then◌else◌,
}
use psy_doge_solana_bridge.Bytes.{bytes_eq}
use psy_doge_solana_bridge.Bridge.DepositManager.{new_empty_manager}
use psy_doge_solana_bridge.Programs.{
  ok, err, ◌>>=◌, ◌>>◌, Signer, manual_claim_error, manual_core_error, account_borrow_failed,
}
use psy_doge_solana_bridge.Programs.DogeBridge.{BridgeAccount}
use psy_doge_solana_bridge.Programs.ManualClaim.{
  ClaimAccount, ClaimRuntime, RefusesBorrowed, no_data, any_borrowed, claim_state_of, process_claim,
}
use psy_doge_solana_bridge.Programs.ManualClaim.Refused.{claim_ends_in_core_error}
use psy_doge_solana_bridge.Examples.Chain.{chain}
use psy_doge_solana_bridge.Examples.Requests.{plain}
use psy_doge_solana_bridge.Examples.Claims.{claim}
use psy_doge_solana_bridge.Examples.Processor.{state_before, mint, program}

abbrev user : Signer
user = record { key = replicate 32 7; is_signer = true; lamports = 0 }

abbrev bridge : BridgeAccount
bridge = record { key = 3 ∷ []; state = some state_before }

abbrev token_account : List ℕ
token_account = replicate 32 6

abbrev new_account : ClaimAccount
new_account = record { key = 9 ∷ []; owner = []; memory = no_data }

-- Calls are counted, and refused if an account of theirs is borrowed.
abbrev counted : ClaimRuntime ℕ
counted = record {
  get_associated_token_address = λ owner doge_mint. token_account;
  bump_of = λ seeds program_id. 255;
  create_account = λ payer new rent space. ok tt;
  invoke_signed = λ borrowed call calls.
      if any_borrowed borrowed call.accounts then err account_borrow_failed else ok (calls + 1);
}

counted-RefusesBorrowed : RefusesBorrowed counted
counted-RefusesBorrowed borrowed call calls held = rw held

created : claim_state_of plain chain program counted [] new_account ≡ ok (new_empty_manager plain)
unfolding claim_state_of ◌>>=◌ ◌>>◌
created = refl

other_account : bytes_eq new_account.key (3 ∷ []) ≡ false
unfolding bytes_eq
other_account = refl

claim_ends_in_core_error_example :
    process_claim plain chain program counted [] new_account bridge token_account mint []
      (2 ∷ [])
      user
      []
      []
      claim
      0
    ≡ err (manual_claim_error manual_core_error)
claim_ends_in_core_error_example =
    claim_ends_in_core_error plain chain program counted [] new_account bridge token_account mint []
      (2 ∷ []) user [] [] claim 0 (new_empty_manager plain) state_before counted-RefusesBorrowed
      refl refl refl created other_account refl
