-- ===== src/MintGroups/Bitmap.antt =====
-- The bitmap of claimed groups as a predicate on group numbers.
use native.Mathlib.Nat.{div-div-eq-div-mul, mul_comm, zero-div}
use psy_doge_solana_bridge.Prelude.{
  ℕ, zero, suc, ◌+◌, ◌*◌, ◌/◌, ◌%◌, ◌^◌, ◌<◌, ◌≡◌, ◌≢◌, refl, sym, ap, ◌∙◌, inl, inr, Bool, true,
  false, bit_and, bit_or, some, List, length, get_elem?, get_or, set, replicate, ◌==◌,
  if◌then◌else◌, arith, get_elem?-get_or, get_or-set_self, get_or-set_ne, get_or-replicate,
  Bool-cases,
}
use psy_doge_solana_bridge.Prelude.Bits.{bit_or_step, bit_or_fields, bit_and_mask}
use psy_doge_solana_bridge.Errors.{ok}
use psy_doge_solana_bridge.MintGroups.{PendingMintsTracker, is_pending_mints_group_already_claimed}

halve : (j x : ℕ) → x / 2 ^ suc j ≡ x / 2 / 2 ^ j
halve j x =
    let next : 2 ^ suc j ≡ 2 ^ j * 2 = omega arith in
    rw next (sym (div-div-eq-div-mul x 2 (2 ^ j) ∙ ap (λ d. x / d) (mul_comm 2 (2 ^ j))))

set_bit : (k b : ℕ) → bit_or b (2 ^ suc k) ≡ bit_or (b / 2) (2 ^ k) * 2 + b % 2
set_bit k b =
    let half : 2 ^ suc k / 2 ≡ 2 ^ k = omega arith in
    let low : 2 ^ suc k % 2 ≡ 0 = omega arith in
    bit_or_step b (2 ^ suc k) ∙ rw (half, low) (omega arith)

bit_or-zero_right : (b : ℕ) → bit_or b 0 ≡ b
bit_or-zero_right b =
    let whole : b * 1 ≡ b = omega arith in
    let e : bit_or (b * 2 ^ 0) 0 ≡ b * 2 ^ 0 + 0 = bit_or_fields 0 b 0 (omega arith) in
    ap (λ x. bit_or x 0) (sym whole) ∙ e ∙ omega arith

set_bit_zero : (b : ℕ) → bit_or b 1 ≡ b / 2 * 2 + 1
set_bit_zero b =
    let none_set : bit_or (b / 2) 0 ≡ b / 2 = bit_or-zero_right (b / 2) in
    let half : 1 / 2 ≡ 0 = refl in bit_or_step b 1 ∙ rw (half, none_set) (omega arith)

set_bit_lem : (k j b : ℕ) → (bit_or b (2 ^ k) / 2 ^ j) % 2 ≡ (if j == k then 1 else (b / 2 ^ j) % 2)
set_bit_lem zero zero b = rw (set_bit_zero b) (omega arith)
set_bit_lem zero (suc j) b =
    let half : (b / 2 * 2 + 1) / 2 ≡ b / 2 = omega arith in
    let other : (suc j == 0) ≡ false = ground arith in
    rw (set_bit_zero b, halve j (b / 2 * 2 + 1), half, halve j b, other)
set_bit_lem (suc k) zero b =
    let other : (0 == suc k) ≡ false = ground arith in rw (set_bit k b, other) (omega arith)
set_bit_lem (suc k) (suc j) b =
    let half : (bit_or (b / 2) (2 ^ k) * 2 + b % 2) / 2 ≡ bit_or (b / 2) (2 ^ k) = omega arith in
    let same : (suc j == suc k) ≡ (j == k) = ground arith in
    rw (set_bit k b, halve j (bit_or (b / 2) (2 ^ k) * 2 + b % 2), half, halve j b, same)
      (set_bit_lem k j (b / 2))

-- Whether the group is claimed, in a bitmap that goes on with zeros.
unfoldable pub claimed : List ℕ → ℕ → Bool
claimed bitmap g = (get_or bitmap (g / 8) 0 / 2 ^ (g % 8)) % 2 == 1

pub already_claimed_lem :
    (t : PendingMintsTracker) (g : ℕ)
    → length t.pending_mint_groups_claimed ≡ 32
    → g < 256
    → is_pending_mints_group_already_claimed t g ≡ ok (claimed t.pending_mint_groups_claimed g)
unfolding is_pending_mints_group_already_claimed claimed
already_claimed_lem t g len g_lt =
    let low : bit_and g 7 ≡ g % 8 = bit_and_mask 3 g in
    let byte = get_or t.pending_mint_groups_claimed (g / 8) 0 in
    let found : get_elem? t.pending_mint_groups_claimed (g / 8) ≡ some byte =
      get_elem?-get_or t.pending_mint_groups_claimed (g / 8) 0 (omega arith) in
    let bit : bit_and (byte / 2 ^ (g % 8)) 1 ≡ (byte / 2 ^ (g % 8)) % 2 =
      bit_and_mask 1 (byte / 2 ^ (g % 8)) in
    rw (is_pending_mints_group_already_claimed, found, low, bit)

pub claimed-set :
    (bitmap : List ℕ) (g h : ℕ)
    → g / 8 < length bitmap
    → claimed (set bitmap (g / 8) (bit_or (get_or bitmap (g / 8) 0) (2 ^ (g % 8)))) h
      ≡ (if h == g then true else claimed bitmap h)
unfolding claimed
claimed-set bitmap g h lt =
    let byte = get_or bitmap (g / 8) 0 in
    elim (Bool-cases (h / 8 == g / 8)) [
      | inl same ↦
          let e : h / 8 ≡ g / 8 = ground arith in
          let eq : (h == g) ≡ (h % 8 == g % 8) = ground arith in
          rw
            (
              e,
              get_or-set_self bitmap (g / 8) (bit_or byte (2 ^ (g % 8))) 0 lt,
              eq,
              set_bit_lem (g % 8) (h % 8) byte,
            )
            (elim (Bool-cases (h % 8 == g % 8)) [ inl b ↦ rw b | inr b ↦ rw b ])
      | inr other ↦
          let ne : (h == g) ≡ false = ground arith in
          let apart : g / 8 ≢ h / 8 = λ e. absurd (ground arith) in
          rw (ne, get_or-set_ne bitmap (bit_or byte (2 ^ (g % 8))) 0 apart)
    ]

pub claimed-empty : (g : ℕ) → claimed (replicate 32 0) g ≡ false
unfolding claimed
claimed-empty g =
    let e : (0 / 2 ^ (g % 8)) ≡ 0 = zero-div (2 ^ (g % 8)) in
    rw (get_or-replicate {A = ℕ} 32 (g / 8) 0, e)
