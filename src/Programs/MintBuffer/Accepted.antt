-- ===== src/Programs/MintBuffer/Accepted.antt =====
-- What an accepted insertion of a group shows, and the number of mints after it.
use psy_doge_solana_bridge.Prelude.{
  ℕ, zero, suc, ◌+◌, ◌*◌, ◌/◌, ◌%◌, ◌^◌, ◌<◌, ◌≤◌, ◌≡◌, ◌≢◌, ◌⊎◌, inl, inr, refl, ap, false, List,
  length, ltb, ◌==◌, if◌then◌else◌, arith, Bool-cases,
}
use psy_doge_solana_bridge.Bytes.{zero_hash, slice}
use psy_doge_solana_bridge.Bytes.Laws.{bytes_eq→eq}
use psy_doge_solana_bridge.Bytes.Write.{write_at}
use psy_doge_solana_bridge.Programs.{Runtime, AccountData, buffer, ok}
use psy_doge_solana_bridge.Programs.MintBuffer.{
  PendingMintsBufferStateHeader, insert_pending_mints, get_nth_group_hash_offset,
  get_nth_pending_mint_offset,
}
use psy_doge_solana_bridge.Programs.MintBuffer.Filled.{sum_below}

-- A group is given its number of mints.
abbrev pub with_group : ℕ → ℕ → (ℕ → ℕ) → ℕ → ℕ
with_group g mints filled i = if i == g then mints else filled i

pub sum_below-with_group_beyond :
    (n g mints : ℕ) (filled : ℕ → ℕ)
    → n ≤ g
    → sum_below n (with_group g mints filled) ≡ sum_below n filled
unfolding sum_below
sum_below-with_group_beyond zero g mints filled h = refl
sum_below-with_group_beyond (suc n) g mints filled h =
    let other : (n == g) ≡ false = ground arith in
    rw other (ap (λ s. s + filled n) (sum_below-with_group_beyond n g mints filled (omega arith)))

pub sum_below-with_group :
    (n g mints : ℕ) (filled : ℕ → ℕ)
    → g < n
    → filled g ≡ 0
    → sum_below n (with_group g mints filled) ≡ sum_below n filled + mints
unfolding sum_below
sum_below-with_group zero g mints filled h empty = absurd (omega arith)
sum_below-with_group (suc n) g mints filled h empty = elim (Bool-cases (n == g)) [
  | inl last ↦
      let same : n ≡ g = ground (arith, last) in
      rw last
        (omega (arith, sum_below-with_group_beyond n g mints filled (omega arith), ap filled same))
  | inr earlier ↦
      rw earlier
        (omega (arith, sum_below-with_group n g mints filled (ground (arith, earlier)) empty))
]

pub apart : (j g : ℕ) → j ≢ g → (j < g) ⊎ (g < j)
apart j g ne = elim (Bool-cases (ltb j g)) [
  | inl below ↦ inl (ground (arith, below))
  | inr above ↦ inr (ground (arith, above, ne))
]

module _ (rt : Runtime) where
  module _ (g : ℕ) (mint_data : List ℕ) (h : PendingMintsBufferStateHeader) (body : List ℕ) where
    abbrev pub hash_offset : ℕ
    hash_offset = g * 32

    abbrev pub mint_offset : ℕ
    mint_offset = h.pending_mint_groups_count * 32 + (g * 24) % 2 ^ 16 * 40

    abbrev pub inserted_body : List ℕ
    inserted_body = write_at mint_offset mint_data (write_at hash_offset (rt.sha256 mint_data) body)

    abbrev pub inserted_header : PendingMintsBufferStateHeader
    inserted_header = record h {
      pending_mints_initialized =
          (h.pending_mints_initialized + length mint_data / 40 % 2 ^ 16) % 2 ^ 16;
    }

    pub accepted_insert :
        {memory : AccountData PendingMintsBufferStateHeader}
        → insert_pending_mints rt g mint_data h body ≡ ok memory
        → (h.is_locked ≡ 0)
          × (g < h.pending_mint_groups_count)
          × (length mint_data ≤ 960)
          × (length mint_data % 40 ≡ 0)
          × (mint_offset + length mint_data ≤ length body)
          × (hash_offset + 32 ≤ length body)
          × (slice hash_offset (hash_offset + 32) body ≡ zero_hash)
          × (memory ≡ buffer inserted_header inserted_body)
    unfolding insert_pending_mints get_nth_group_hash_offset get_nth_pending_mint_offset
    accepted_insert done = (
      ground (arith, done),
      ground (arith, done),
      ground (arith, done),
      ground (arith, done),
      ground (arith, done),
      ground (arith, done),
      bytes_eq→eq _ _ (ground (arith, done)),
      ground (arith, done),
    )
