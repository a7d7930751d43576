-- ===== src/Bytes/Laws.antt =====
-- The comparison decides equality, and the integer encodings are inverse to one another.
use native.Mathlib.Nat.{pow-suc}
use psy_doge_solana_bridge.Prelude.{
  ℕ, zero, suc, ◌*◌, ◌/◌, ◌^◌, ◌<◌, ◌≡◌, refl, ap, ◌↔◌, true, List, [], ◌∷◌, ◌++◌, arith, length,
  take, drop,
}
use psy_doge_solana_bridge.Bytes.{bytes_eq, to_le_bytes, from_le_bytes}

pub bytes_eq→eq : (as' bs : List ℕ) → bytes_eq as' bs ≡ true → as' ≡ bs
unfolding bytes_eq
bytes_eq→eq [] [] h = refl
bytes_eq→eq [] (b ∷ bs) h = cc
bytes_eq→eq (a ∷ as') [] h = cc
bytes_eq→eq (a ∷ as') (b ∷ bs) h = ground (arith, bytes_eq→eq as' bs)

pub bytes_eq_refl : (as' : List ℕ) → bytes_eq as' as' ≡ true
unfolding bytes_eq
bytes_eq_refl [] = refl
bytes_eq_refl (a ∷ as') = ground (arith, bytes_eq_refl as')

pub bytes_eq_iff : (as' bs : List ℕ) → (bytes_eq as' bs ≡ true) ↔ (as' ≡ bs)
bytes_eq_iff as' bs = (bytes_eq→eq as' bs, λ e. rw e (bytes_eq_refl bs))

pub length-to_le_bytes : (w n : ℕ) → length (to_le_bytes w n) ≡ w
unfolding to_le_bytes
length-to_le_bytes zero n = refl
length-to_le_bytes (suc w) n = ap suc (length-to_le_bytes w (n / 256))

pub from_le_bytes-to_le_bytes : (w n : ℕ) → n < 256 ^ w → from_le_bytes (to_le_bytes w n) ≡ n
unfolding from_le_bytes to_le_bytes
from_le_bytes-to_le_bytes zero n h = omega arith
from_le_bytes-to_le_bytes (suc w) n h =
    let b : n < 256 ^ w * 256 = rw pow-suc at h in
    omega (arith, from_le_bytes-to_le_bytes w (n / 256) (omega arith))

-- A slice of a concatenation at the first part's length.
pub take-append_length {ℓ} :
    {A : Type ℓ} (n : ℕ) (xs ys : List A) → length xs ≡ n → take n (xs ++ ys) ≡ xs
take-append_length zero [] ys h = refl
take-append_length zero (x ∷ xs) ys h = absurd (omega arith)
take-append_length (suc n) [] ys h = absurd (omega arith)
take-append_length (suc n) (x ∷ xs) ys h =
    ap (λ t. x ∷ t) (take-append_length n xs ys (omega arith))

pub drop-append_length {ℓ} :
    {A : Type ℓ} (n : ℕ) (xs ys : List A) → length xs ≡ n → drop n (xs ++ ys) ≡ ys
drop-append_length zero [] ys h = refl
drop-append_length zero (x ∷ xs) ys h = absurd (omega arith)
drop-append_length (suc n) [] ys h = absurd (omega arith)
drop-append_length (suc n) (x ∷ xs) ys h = drop-append_length n xs ys (omega arith)
