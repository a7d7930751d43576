-- ===== src/Prelude/Bits.antt =====
-- Laws of the Rust operators `&`, `|` and `^` on unsigned values, from the recursion on the lowest
-- binary digit that the native operations stand for.
use Prim.Native.Nat.{ℕ, zero, suc, ◌+◌, ◌-◌, ◌*◌, ◌/◌, ◌%◌, ◌^◌, ◌≤◌, ◌<◌, min, max, digits, differ}
use Prim.Native.Nat.{bit_and, bit_or, bit_xor, bit_and-bitwise, bit_or-bitwise, bit_xor-bitwise}
use mathlib.Core.Path.{◌≡◌, refl, sym, ap, ◌∙◌}
use native.Mathlib.Nat.{pow-suc, one-le-pow, div-add-mod}
use native.Mathlib.Omega.{arith}

module _ (low : ℕ → ℕ) (combine : ℕ → ℕ → ℕ) where
  no_digits : (fuel y : ℕ) → digits low combine fuel 0 y ≡ low y
  no_digits zero y = refl
  no_digits (suc fuel) y = refl

  -- Fuel beyond the number itself changes nothing.
  spare_fuel :
      (x fuel extra y : ℕ)
      → x ≤ fuel
      → digits low combine (extra + fuel) x y ≡ digits low combine fuel x y
  spare_fuel zero fuel extra y enough = no_digits (extra + fuel) y ∙ sym (no_digits fuel y)
  spare_fuel (suc x) zero extra y enough = absurd (omega arith)
  spare_fuel (suc x) (suc fuel) extra y enough =
      let one_more : extra + suc fuel ≡ suc (extra + fuel) = omega arith in
      rw one_more (
        ap (λ d. d * 2 + combine (suc x % 2) (y % 2))
          (spare_fuel (suc x / 2) fuel extra (y / 2) (omega arith)))

  lowest_digit :
      (x y : ℕ)
      → digits low combine (suc x) (suc x) y
        ≡ digits low combine (suc x / 2) (suc x / 2) (y / 2) * 2 + combine (suc x % 2) (y % 2)
  lowest_digit x y =
      let half = suc x / 2 in
      let split : (x - half) + half ≡ x = omega arith in
      ap (λ n. digits low combine n half (y / 2) * 2 + combine (suc x % 2) (y % 2)) (sym split)
      ∙ ap (λ d. d * 2 + combine (suc x % 2) (y % 2))
          (spare_fuel half half (x - half) (y / 2) (omega arith))

pub bit_and-zero_left : (b : ℕ) → bit_and 0 b ≡ 0
bit_and-zero_left b = bit_and-bitwise 0 b

pub bit_or-zero_left : (b : ℕ) → bit_or 0 b ≡ b
bit_or-zero_left b = bit_or-bitwise 0 b

pub bit_xor-zero_left : (b : ℕ) → bit_xor 0 b ≡ b
bit_xor-zero_left b = bit_xor-bitwise 0 b

pub bit_and_step : (x y : ℕ) → bit_and x y ≡ bit_and (x / 2) (y / 2) * 2 + min (x % 2) (y % 2)
bit_and_step zero y = omega (arith, bit_and-zero_left y, bit_and-zero_left (y / 2))
bit_and_step (suc x) y = omega (
  arith,
  bit_and-bitwise (suc x) y,
  bit_and-bitwise (suc x / 2) (y / 2),
  lowest_digit (λ y. zero) min x y,
)

pub bit_or_step : (x y : ℕ) → bit_or x y ≡ bit_or (x / 2) (y / 2) * 2 + max (x % 2) (y % 2)
bit_or_step zero y = omega (arith, bit_or-zero_left y, bit_or-zero_left (y / 2))
bit_or_step (suc x) y = omega (
  arith,
  bit_or-bitwise (suc x) y,
  bit_or-bitwise (suc x / 2) (y / 2),
  lowest_digit (λ y. y) max x y,
)

differ-zero : (b : ℕ) → differ 0 b ≡ b
differ-zero b = refl

pub bit_xor_step : (x y : ℕ) → bit_xor x y ≡ bit_xor (x / 2) (y / 2) * 2 + differ (x % 2) (y % 2)
bit_xor_step zero y =
    omega (arith, bit_xor-zero_left y, bit_xor-zero_left (y / 2), differ-zero (y % 2))
bit_xor_step (suc x) y = omega (
  arith,
  bit_xor-bitwise (suc x) y,
  bit_xor-bitwise (suc x / 2) (y / 2),
  lowest_digit (λ y. y) differ x y,
)

differ_self : (x : ℕ) → differ x x ≡ 0
differ_self zero = refl
differ_self (suc x) = differ_self x

-- Induction on the number of binary digits.
halving_below :
    (P : ℕ → Type 0) → P 0 → ((x : ℕ) → P (suc x / 2) → P (suc x)) → (bound x : ℕ) → x < bound → P x
halving_below P base step zero x small = absurd (omega arith)
halving_below P base step (suc bound) zero small = base
halving_below P base step (suc bound) (suc x) small =
    step x (halving_below P base step bound (suc x / 2) (omega arith))

halving : (P : ℕ → Type 0) → P 0 → ((x : ℕ) → P (suc x / 2) → P (suc x)) → (x : ℕ) → P x
halving P base step x = halving_below P base step (suc x) x (omega arith)

pub bit_xor_self : (a : ℕ) → bit_xor a a ≡ 0
bit_xor_self =
    halving (λ a. bit_xor a a ≡ 0) (bit_xor-zero_left 0)
      (λ x half. omega (arith, half, bit_xor_step (suc x) (suc x), differ_self (suc x % 2)))

differ-lt : (x y : ℕ) → x < 2 → y < 2 → differ x y < 2
differ-lt zero y a b = b
differ-lt (suc zero) zero a b = omega arith
differ-lt (suc zero) (suc zero) a b = omega arith
differ-lt (suc zero) (suc (suc y)) a b = absurd (omega arith)
differ-lt (suc (suc x)) y a b = absurd (omega arith)

differ-eq_zero : (x y : ℕ) → differ x y ≡ 0 → x ≡ y
differ-eq_zero zero y e = omega arith
differ-eq_zero (suc x) zero e = absurd (omega arith)
differ-eq_zero (suc x) (suc y) e = omega (arith, differ-eq_zero x y e)

pub bit_xor_half : (a b : ℕ) → bit_xor a b / 2 ≡ bit_xor (a / 2) (b / 2)
bit_xor_half a b =
    let d : differ (a % 2) (b % 2) < 2 = differ-lt (a % 2) (b % 2) (omega arith) (omega arith) in
    omega (arith, bit_xor_step a b)

pub bit_xor-eq_zero : (a b : ℕ) → bit_xor a b ≡ 0 → a ≡ b
bit_xor-eq_zero =
    halving (λ a. (b : ℕ) → bit_xor a b ≡ 0 → a ≡ b) (λ b e. omega (arith, bit_xor-zero_left b))
      (λ x higher b e.
        let s = bit_xor_step (suc x) b in
        let high : suc x / 2 ≡ b / 2 = higher (b / 2) (omega arith) in
        let low : suc x % 2 ≡ b % 2 = differ-eq_zero (suc x % 2) (b % 2) (omega arith) in
        omega arith)

digit_up : (x : ℕ) → x < 2 → differ x (1 - x) ≡ 1
digit_up zero h = refl
digit_up (suc zero) h = refl
digit_up (suc (suc x)) h = absurd (omega arith)

half_of_even : (n : ℕ) → n % 2 ≡ 0 → (n + 1) / 2 ≡ n / 2
half_of_even n h = omega arith

-- `n ^ (n + 1)`: the digits that an increment changes.
pub bit_xor-next_even : (n : ℕ) → n % 2 ≡ 0 → bit_xor n (n + 1) ≡ 1
bit_xor-next_even n h =
    let d : (n + 1) % 2 ≡ 1 - n % 2 = omega arith in
    rw
      (
        bit_xor_step n (n + 1),
        half_of_even n h,
        bit_xor_self (n / 2),
        d,
        digit_up (n % 2) (omega arith),
      )
      (omega arith)

half_of_odd : (n : ℕ) → n % 2 ≡ 1 → (n + 1) / 2 ≡ n / 2 + 1
half_of_odd n h = omega arith

pub bit_xor-next_odd : (n : ℕ) → n % 2 ≡ 1 → bit_xor n (n + 1) ≡ bit_xor (n / 2) (n / 2 + 1) * 2 + 1
bit_xor-next_odd n h =
    let d : (n + 1) % 2 ≡ 1 - n % 2 = omega arith in
    rw (bit_xor_step n (n + 1), half_of_odd n h, d, digit_up (n % 2) (omega arith)) (refl)

bit_and-zero_right : (x : ℕ) → bit_and x 0 ≡ 0
bit_and-zero_right =
    halving (λ x. bit_and x 0 ≡ 0) (bit_and-zero_left 0)
      (λ x half. omega (arith, half, bit_and_step (suc x) 0))

low_digit : (a m : ℕ) → 0 < m → a % (m * 2) ≡ (a / 2) % m * 2 + a % 2
low_digit a m h = grind (arith, div-add-mod (a / 2) m, div-add-mod a (m * 2))

-- `a & (2 ^ k - 1)` keeps the low digits.
pub bit_and_mask : (k a : ℕ) → bit_and a (2 ^ k - 1) ≡ a % 2 ^ k
bit_and_mask zero a = omega (arith, bit_and-zero_right a)
bit_and_mask (suc k) a =
    let p : 0 < 2 ^ k = one-le-pow k 2 (omega arith) in
    let m : (2 ^ k * 2 - 1) / 2 ≡ 2 ^ k - 1 = omega arith in
    let d : (2 ^ k * 2 - 1) % 2 ≡ 1 = omega arith in
    rw (pow-suc 2 k, bit_and_step a (2 ^ k * 2 - 1), m, d, bit_and_mask k (a / 2))
      (omega (arith, low_digit a (2 ^ k) p))

bit_or-zero_right : (x : ℕ) → bit_or x 0 ≡ x
bit_or-zero_right =
    halving (λ x. bit_or x 0 ≡ x) (bit_or-zero_left 0)
      (λ x half. omega (arith, half, bit_or_step (suc x) 0))

-- `hi << k | lo` for disjoint fields.
pub bit_or_fields : (k hi lo : ℕ) → lo < 2 ^ k → bit_or (hi * 2 ^ k) lo ≡ hi * 2 ^ k + lo
bit_or_fields zero hi lo h =
    let e : lo ≡ 0 = omega arith in
    let d : hi * 1 ≡ hi = omega arith in rw (e, d, bit_or-zero_right hi) (omega arith)
bit_or_fields (suc k) hi lo h =
    let m : hi * (2 ^ k * 2) / 2 ≡ hi * 2 ^ k = omega arith in
    let d : hi * (2 ^ k * 2) % 2 ≡ 0 = omega arith in
    let b : lo < 2 ^ k * 2 = rw pow-suc at h in
    rw
      (
        pow-suc 2 k,
        bit_or_step (hi * (2 ^ k * 2)) lo,
        m,
        d,
        bit_or_fields k hi (lo / 2) (omega arith),
      )
      (omega arith)
