-- ===== src/Bytes.antt =====
-- Byte arrays: `QHash256` and account memory as lists of bytes, their comparison, and the
-- little-endian integers of `to_le_bytes` and `from_le_bytes`.
pub mod Laws
pub mod Write
use psy_doge_solana_bridge.Prelude.{
  ℕ, zero, suc, ◌+◌, ◌*◌, ◌/◌, ◌%◌, ◌<◌, Bool, true, false, ◌&&◌, List, [], ◌∷◌, ◌==◌, replicate,
  drop, take, ◌-◌,
}

-- `QHash256` and `[u8; 32]`.
abbrev pub Hash : Type 0
Hash = List ℕ

abbrev pub zero_hash : Hash
zero_hash = replicate 32 0

unfoldable pub bytes_eq : List ℕ → List ℕ → Bool
bytes_eq [] [] = true
bytes_eq [] (b ∷ bs) = false
bytes_eq (a ∷ as') [] = false
bytes_eq (a ∷ as') (b ∷ bs) = a == b && bytes_eq as' bs

-- The `w` low bytes of `n`, lowest first.
unfoldable pub to_le_bytes : ℕ → ℕ → List ℕ
to_le_bytes zero n = []
to_le_bytes (suc w) n = (n % 256) ∷ to_le_bytes w (n / 256)

unfoldable pub from_le_bytes : List ℕ → ℕ
from_le_bytes [] = 0
from_le_bytes (b ∷ bs) = b + 256 * from_le_bytes bs

-- `&bytes[from..to]` where the range is valid.
abbrev pub slice {ℓ} : {A : Type ℓ} → ℕ → ℕ → List A → List A
slice from to bytes = take (to - from) (drop from bytes)
