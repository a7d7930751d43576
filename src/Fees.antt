-- ===== src/Fees.antt =====
-- The fees on deposits and withdrawals: utils/fees.rs of libraries/psy-doge-solana-core.
pub mod Exact
use psy_doge_solana_bridge.Prelude.{
  ℕ, ◌-◌, ◌*◌, ◌/◌, ◌%◌, ◌+◌, ◌^◌, Option, some, none, ltb, ◌==◌, if◌then◌else◌, leb,
}

pub record FeeResult : Type 0 where
  pub fees_generated : ℕ
  pub amount_after_fees : ℕ

-- The checked operations on u128, and `checked_sub` on u64.
abbrev pub checked_mul : ℕ → ℕ → Option ℕ
checked_mul a b = if ltb (a * b) (2 ^ 128) then some (a * b) else none

abbrev pub checked_div : ℕ → ℕ → Option ℕ
checked_div a b = if b == 0 then none else some (a / b)

abbrev pub checked_add : ℕ → ℕ → Option ℕ
checked_add a b = if ltb (a + b) (2 ^ 128) then some (a + b) else none

abbrev pub checked_sub : ℕ → ℕ → Option ℕ
checked_sub a b = if leb b a then some (a - b) else none

infixl 5 ◌and_then◌
abbrev pub ◌and_then◌ : {A B : Type 0} → Option A → (A → Option B) → Option B
◌and_then◌ o f = elim o [ none ↦ none | some a ↦ f a ]

-- The errors are values of `anyhow`, which every caller replaces.
unfoldable pub calcuate_deposit_fee : ℕ → ℕ → ℕ → ℕ → Option FeeResult
calcuate_deposit_fee total_deposit_amount flat_fee rate_numerator rate_denominator =
    checked_mul total_deposit_amount rate_numerator
    and_then (λ product. checked_div product rate_denominator)
    and_then (λ rated. checked_add rated flat_fee)
    and_then (λ fees.
        let fees_generated = fees % 2 ^ 64 in
        checked_sub total_deposit_amount fees_generated and_then (λ rest.
          some (record { fees_generated = fees_generated; amount_after_fees = rest })))

unfoldable pub calcuate_withdrawal_fee : ℕ → ℕ → ℕ → ℕ → Option FeeResult
calcuate_withdrawal_fee total_withdrawal_amount flat_fee rate_numerator rate_denominator =
    checked_mul total_withdrawal_amount rate_numerator
    and_then (λ product. checked_div product rate_denominator)
    and_then (λ rated. checked_add rated flat_fee)
    and_then (λ fees.
        let fees_generated = fees % 2 ^ 64 in
        checked_sub total_withdrawal_amount fees_generated and_then (λ rest.
          some (record { fees_generated = fees_generated; amount_after_fees = rest })))
