-- ===== src/Programs.antt =====
-- What the programs on Solana share: errors, accounts, and the calls of the runtime and of the
-- system program, which are not part of the repository.
pub mod MintBuffer
pub mod TxoBuffer
pub mod GenericBuffer
pub mod DogeBridge
pub mod ManualClaim
use psy_doge_solana_bridge.Prelude.{
  ℕ, ◌+◌, ◌-◌, ◌≡◌, ◌⊎◌, inl, inr, refl, Bool, true, false, List, [], ◌∷◌, ◌++◌, length, get_elem?,
  ◌<◌, ◌≢◌,
}
use psy_doge_solana_bridge.Errors.{DogeBridgeError}
use psy_doge_solana_bridge.Bytes.{Hash, zero_hash}

-- The errors of the program doge-bridge's own, of programs/doge-bridge/src/error.rs.
pub data BridgeError : Type 0 where
  core_error : BridgeError
  serialization_error : BridgeError
  invalid_pda : BridgeError
  invalid_account_input : BridgeError
  unauthorized_manual_claimer : BridgeError

-- The errors of programs/manual-claim/src/error.rs.
pub data ManualClaimError : Type 0 where
  manual_core_error : ManualClaimError
  manual_serialization_error : ManualClaimError
  manual_invalid_pda : ManualClaimError
  invalid_recipient_ata : ManualClaimError

-- The cases of `ProgramError` that the programs return; the errors of the repository, which are
-- custom codes there, are cases of their own.
pub data ProgramError : Type 0 where
  invalid_instruction_data : ProgramError
  invalid_argument : ProgramError
  invalid_account_data : ProgramError
  account_data_too_small : ProgramError
  account_already_initialized : ProgramError
  uninitialized_account : ProgramError
  illegal_owner : ProgramError
  incorrect_program_id : ProgramError
  invalid_seeds : ProgramError
  insufficient_funds : ProgramError
  missing_required_signature : ProgramError
  not_enough_account_keys : ProgramError
  invalid_realloc : ProgramError
  account_borrow_failed : ProgramError
  bridge_error : BridgeError → ProgramError
  doge_bridge_error : DogeBridgeError → ProgramError
  manual_claim_error : ManualClaimError → ProgramError

-- An instruction that fails or panics changes nothing: the runtime discards what it wrote.
pub data ProgramResult (A : Type 0) : Type 0 where
  ok : A → ProgramResult A
  err : ProgramError → ProgramResult A
  panic : ProgramResult A

infixr 5 ◌>>=◌ ◌>>◌
unfoldable pub ◌>>=◌ : {A B : Type 0} → ProgramResult A → (A → ProgramResult B) → ProgramResult B
ok a >>= f = f a
err e >>= f = err e
panic >>= f = panic

unfoldable pub ◌>>◌ : {B : Type 0} → ProgramResult (Unit {0}) → ProgramResult B → ProgramResult B
m >> k = m >>= λ _. k

-- `if failed { return Err(e); }`
unfoldable pub fail_if : Bool → ProgramError → ProgramResult (Unit {0})
fail_if true e = err e
fail_if false e = ok tt

pub ok_injective : {A : Type 0} (a b : A) → ok a ≡ ok b → a ≡ b
ok_injective a b h = cc h

-- What a chain that succeeds shows of its first step.
pub >>=-eq-ok :
    {A B : Type 0} (m : ProgramResult A) (f : A → ProgramResult B) (b : B)
    → (m >>= f) ≡ ok b
    → (a : A) × (m ≡ ok a) × (f a ≡ ok b)
unfolding ◌>>=◌
>>=-eq-ok (ok a) f b h = (a, refl, h)
>>=-eq-ok (err e) f b h = absurd (cc h)
>>=-eq-ok panic f b h = absurd (cc h)

pub fail_if-eq-ok :
    {B : Type 0} (failed : Bool) (e : ProgramError) (k : ProgramResult B) (b : B)
    → (fail_if failed e >> k) ≡ ok b
    → (failed ≡ false) × (k ≡ ok b)
unfolding ◌>>=◌ ◌>>◌ fail_if
fail_if-eq-ok true e k b h = absurd (cc h)
fail_if-eq-ok false e k b h = (refl, h)

-- The memory of an account: too short for the program's header, or a header with what follows it.
pub data AccountData (H : Type 0) : Type 0 where
  short : ℕ → AccountData H
  buffer : H → List ℕ → AccountData H

abbrev pub data_len : {H : Type 0} → ℕ → AccountData H → ℕ
data_len header_size (short n) = n
data_len header_size (buffer h body) = header_size + length body

-- The header and what follows it, where the code says what it does with memory that is too short.
unfoldable pub header_of :
    {H : Type 0} → ProgramResult (H × List ℕ) → AccountData H → ProgramResult (H × List ℕ)
header_of too_short (short n) = too_short
header_of too_short (buffer h body) = ok (h, body)

pub header_of-err :
    {H : Type 0} (e : ProgramError) (memory : AccountData H) (r : H × List ℕ)
    → header_of (err e) memory ≡ ok r
    → memory ≡ buffer r.0 r.1
unfolding header_of
header_of-err e (short n) r done = absurd (cc done)
header_of-err e (buffer h body) (h', body') done = cc done

pub header_of-panic :
    {H : Type 0} (memory : AccountData H) (r : H × List ℕ)
    → header_of panic memory ≡ ok r
    → memory ≡ buffer r.0 r.1
unfolding header_of
header_of-panic (short n) r done = absurd (cc done)
header_of-panic (buffer h body) (h', body') done = cc done

pub record StorageAccount (H : Type 0) : Type 0 where
  pub key : List ℕ
  pub owner : List ℕ
  pub lamports : ℕ
  pub memory : AccountData H

-- An account that signs or pays.
pub record Signer : Type 0 where
  pub key : List ℕ
  pub is_signer : Bool
  pub lamports : ℕ

-- The accounts of an instruction: the one of the program, and the others in their order.
pub record Accounts (H : Type 0) : Type 0 where
  pub storage : StorageAccount H
  pub others : List Signer

-- `next_account_info` for the signer alone, and for the payer and the system program.
abbrev pub next_account : List Signer → ProgramResult (Signer × List Signer)
next_account [] = err not_enough_account_keys
next_account (payer ∷ others) = ok (payer, others)

abbrev pub next_two_accounts : List Signer → ProgramResult (Signer × List Signer)
next_two_accounts [] = err not_enough_account_keys
next_two_accounts (payer ∷ []) = err not_enough_account_keys
next_two_accounts (payer ∷ system_program ∷ others) = ok (payer, system_program ∷ others)

pub next_account_lem :
    (accounts : List Signer) (r : Signer × List Signer)
    → next_account accounts ≡ ok r
    → accounts ≡ r.0 ∷ r.1
next_account_lem [] r done = absurd (cc done)
next_account_lem (signer ∷ others) (signer', others') done = cc done

pub next_two_accounts_lem :
    (accounts : List Signer) (r : Signer × List Signer)
    → next_two_accounts accounts ≡ ok r
    → accounts ≡ r.0 ∷ r.1
next_two_accounts_lem [] r done = absurd (cc done)
next_two_accounts_lem (signer ∷ []) r done = absurd (cc done)
next_two_accounts_lem (signer ∷ system_program ∷ others) (signer', others') done = cc done

-- The runtime and the system program. `transfer` moves an amount between two balances; `realloc`
-- sets the length of what follows the header.
pub record Runtime : Type 0 where
  pub sha256 : List ℕ → Hash
  pub find_program_address : List (List ℕ) → List ℕ → List ℕ
  pub minimum_balance : ℕ → ℕ
  pub transfer : ℕ → ℕ → ℕ → ProgramResult (ℕ × ℕ)
  pub realloc : ℕ → List ℕ → ProgramResult (List ℕ)
  pub allocate : List ℕ → ℕ → ProgramResult (Unit {0})
  pub assign : List ℕ → List ℕ → ProgramResult (Unit {0})

-- What the runtime documents: an account that is set to a length has it and keeps its bytes up to
-- there. A digest has 32 bytes, and none that is met is zero.
pub record IsRuntime (rt : Runtime) : Type 0 where
  pub realloc_length :
      (n : ℕ) (body after : List ℕ) → rt.realloc n body ≡ ok after → length after ≡ n
  pub realloc_keeps :
      (n : ℕ) (body after : List ℕ)
      → rt.realloc n body ≡ ok after
      → (i : ℕ) → i < n
      → i < length body
      → get_elem? after i ≡ get_elem? body i
  pub digest_length : (bytes : List ℕ) → length (rt.sha256 bytes) ≡ 32
  pub digest_not_zero : (bytes : List ℕ) → rt.sha256 bytes ≢ zero_hash
