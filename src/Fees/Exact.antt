-- ===== src/Fees/Exact.antt =====
-- What the fee functions return, on all arguments of their machine types.
use native.Mathlib.Nat.{mul-le-mul, div-le_self, le_trans}
use psy_doge_solana_bridge.Prelude.{
  ℕ, ◌-◌, ◌*◌, ◌/◌, ◌%◌, ◌+◌, ◌^◌, ◌≡◌, ◌≤◌, ◌<◌, refl, ◌≢◌, ◌↔◌, ◌⊎◌, ◌∙◌, inl, inr, Option, some,
  none, ltb, ◌==◌, leb, if◌then◌else◌, arith, true, false, Bool-cases,
}
use psy_doge_solana_bridge.Fees.{FeeResult, calcuate_deposit_fee, calcuate_withdrawal_fee}

-- The fee before it is cut to 64 bits, for a denominator that is not zero.
abbrev pub full_fee : ℕ → ℕ → ℕ → ℕ → ℕ
full_fee amount flat numerator denominator = amount * numerator / denominator + flat

rated_fits :
    (a n d : ℕ)
    → a < 2 ^ 64
    → n < 2 ^ 64
    → (a * n ≤ (2 ^ 64 - 1) * (2 ^ 64 - 1)) × (a * n / d ≤ (2 ^ 64 - 1) * (2 ^ 64 - 1))
rated_fits a n d a_lt n_lt =
    let product : a * n ≤ (2 ^ 64 - 1) * (2 ^ 64 - 1) =
      mul-le-mul {n₂ = 2 ^ 64 - 1} {m₂ = 2 ^ 64 - 1} (omega arith) (omega arith) in
    (product, le_trans (div-le_self (a * n) d) product)

-- What is left of an amount after a fee that was cut to 64 bits.
abbrev pub fee_of : ℕ → ℕ → Option FeeResult
fee_of amount fee =
    if leb fee amount
    then some (record { fees_generated = fee; amount_after_fees = amount - fee })
    else none

pub calcuate_deposit_fee_lem :
    (amount flat numerator denominator : ℕ)
    → amount < 2 ^ 64
    → flat < 2 ^ 64
    → numerator < 2 ^ 64
    → calcuate_deposit_fee amount flat numerator denominator ≡ (
        if denominator == 0
        then none
        else fee_of amount (full_fee amount flat numerator denominator % 2 ^ 64))
unfolding calcuate_deposit_fee
calcuate_deposit_fee_lem a flat n d a_lt flat_lt n_lt =
    let fits = rated_fits a n d a_lt n_lt in
    let product : ltb (a * n) (2 ^ 128) ≡ true = ground (arith, fits.0) in
    let sum : ltb (a * n / d + flat) (2 ^ 128) ≡ true = ground (arith, fits.1) in
    elim (Bool-cases (d == 0)) [
      | inl e ↦ rw (product, e)
      | inr e ↦
          rw (product, e, sum)
            (elim (Bool-cases (leb ((a * n / d + flat) % 2 ^ 64) a)) [
              | inl l ↦ rw l
              | inr l ↦ rw l
            ])
    ]

fee_of-split :
    (a fee d : ℕ) (o : Option FeeResult)
    → o ≡ (if d == 0 then none else fee_of a fee)
    → ((o ≡ none) ↔ ((d ≡ 0) ⊎ (a < fee)))
      × ((r : FeeResult)
          → o ≡ some r
          → (r.fees_generated + r.amount_after_fees ≡ a) × (r.fees_generated ≡ fee) × (d ≢ 0))
fee_of-split a fee d o e = elim (Bool-cases (d == 0)) [
  | inl z ↦ let none_yet : o ≡ none = e ∙ rw z refl in ground arith
  | inr z ↦ elim (Bool-cases (leb fee a)) [
    | inl l ↦
        let made : o ≡ some (record { fees_generated = fee; amount_after_fees = a - fee }) =
          e ∙ rw (z, l) refl in
        ground arith
    | inr l ↦ let none_yet : o ≡ none = e ∙ rw (z, l) refl in ground arith
  ]
]

-- A deposit and a withdrawal pay the same fee. It is computed exactly when the denominator is not
-- zero, and where the fee is at most the amount, the call returns it and the rest.
fees_exact :
    (amount flat numerator denominator : ℕ)
    → amount < 2 ^ 64
    → flat < 2 ^ 64
    → numerator < 2 ^ 64
    → 0 < denominator
    → full_fee amount flat numerator denominator ≤ amount
    → let fee = full_fee amount flat numerator denominator in
      (calcuate_deposit_fee amount flat numerator denominator
        ≡ some (record { fees_generated = fee; amount_after_fees = amount - fee }))
      × (calcuate_withdrawal_fee amount flat numerator denominator
          ≡ some (record { fees_generated = fee; amount_after_fees = amount - fee }))
unfolding calcuate_deposit_fee calcuate_withdrawal_fee
fees_exact a flat n d a_lt flat_lt n_lt positive small =
    let nonzero : (d == 0) ≡ false = ground arith in
    let cut : full_fee a flat n d % 2 ^ 64 ≡ full_fee a flat n d = omega arith in
    let le : leb (full_fee a flat n d) a ≡ true = ground arith in
    let done = calcuate_deposit_fee_lem a flat n d a_lt flat_lt n_lt ∙ rw (nonzero, cut, le) refl in
    (done, done)

-- A result splits the amount: what is left and the fee add up to it, the denominator was not zero,
-- and the fee is the full one unless that does not fit in 64 bits. There is a result exactly if
-- the denominator is not zero and the fee, cut to 64 bits, is at most the amount.
pub fees_split :
    (amount flat numerator denominator : ℕ)
    → amount < 2 ^ 64
    → flat < 2 ^ 64
    → numerator < 2 ^ 64
    → let fee = full_fee amount flat numerator denominator in
      ((calcuate_withdrawal_fee amount flat numerator denominator ≡ none)
        ↔ ((denominator ≡ 0) ⊎ (amount < fee % 2 ^ 64)))
      × ((r : FeeResult)
          → calcuate_withdrawal_fee amount flat numerator denominator ≡ some r
          → (r.fees_generated + r.amount_after_fees ≡ amount)
            × (r.fees_generated ≡ fee % 2 ^ 64)
            × (denominator ≢ 0))
unfolding calcuate_withdrawal_fee calcuate_deposit_fee
fees_split a flat n d a_lt flat_lt n_lt =
    fee_of-split a _ d _ (calcuate_deposit_fee_lem a flat n d a_lt flat_lt n_lt)

-- The withdrawal fee on all arguments of 64 bits: there is a result exactly if the denominator is
-- not zero and the fee, cut to 64 bits, is at most the amount; a result splits the amount into that
-- fee and the rest. Where the fee is at most the amount, both calls return it and the rest.
pub fees_on_all_arguments :
    (amount flat numerator denominator : ℕ)
    → amount < 2 ^ 64
    → flat < 2 ^ 64
    → numerator < 2 ^ 64
    → let fee = full_fee amount flat numerator denominator in
      ((calcuate_withdrawal_fee amount flat numerator denominator ≡ none)
        ↔ ((denominator ≡ 0) ⊎ (amount < fee % 2 ^ 64)))
      × ((r : FeeResult)
          → calcuate_withdrawal_fee amount flat numerator denominator ≡ some r
          → (r.fees_generated + r.amount_after_fees ≡ amount)
            × (r.fees_generated ≡ fee % 2 ^ 64)
            × (denominator ≢ 0))
      × ((0 < denominator)
          → fee ≤ amount
          → (calcuate_deposit_fee amount flat numerator denominator
              ≡ some (record { fees_generated = fee; amount_after_fees = amount - fee }))
            × (calcuate_withdrawal_fee amount flat numerator denominator
                ≡ some (record { fees_generated = fee; amount_after_fees = amount - fee })))
fees_on_all_arguments a flat n d a_lt flat_lt n_lt =
    let (refused, split) = fees_split a flat n d a_lt flat_lt n_lt in
    (refused, split, λ positive small. fees_exact a flat n d a_lt flat_lt n_lt positive small)

pub deposit_fees_split :
    (amount flat numerator denominator : ℕ)
    → amount < 2 ^ 64
    → flat < 2 ^ 64
    → numerator < 2 ^ 64
    → let fee = full_fee amount flat numerator denominator in
      ((calcuate_deposit_fee amount flat numerator denominator ≡ none)
        ↔ ((denominator ≡ 0) ⊎ (amount < fee % 2 ^ 64)))
      × ((r : FeeResult)
          → calcuate_deposit_fee amount flat numerator denominator ≡ some r
          → (r.fees_generated + r.amount_after_fees ≡ amount)
            × (r.fees_generated ≡ fee % 2 ^ 64)
            × (denominator ≢ 0))
deposit_fees_split a flat n d a_lt flat_lt n_lt =
    fee_of-split a _ d _ (calcuate_deposit_fee_lem a flat n d a_lt flat_lt n_lt)
