-- ===== src/Programs/MintBuffer/Reach.antt =====
-- The memory of a buffer that instructions lead to: what its slots say holds at every point, and a
-- locked buffer is complete.
use psy_doge_solana_bridge.Prelude.{
  ℕ, zero, suc, ◌+◌, ◌*◌, ◌^◌, ◌<◌, ◌≤◌, ◌≡◌, ◌≢◌, inl, inr, refl, ap, sym, ◌∙◌, Bool, List, [],
  ◌∷◌, length, leb, ◌==◌, arith, Bool-cases, replicate, length-replicate, get_elem?,
}
use psy_doge_solana_bridge.Bytes.{slice, from_le_bytes}
use psy_doge_solana_bridge.Bytes.Write.{length-write_at, slice_agree}
use psy_doge_solana_bridge.Programs.{
  Runtime, IsRuntime, AccountData, short, buffer, ok, >>=-eq-ok, ok_injective, Signer,
}
use psy_doge_solana_bridge.Programs.MintBuffer.{
  PendingMintsBufferStateHeader, groups_of, setup, reinit, lock, unlock, get_total_buffer_size,
  calculate_target_size,
}
use psy_doge_solana_bridge.Programs.MintBuffer.Instructions.{
  Storage, grown_len, zero_hashes, realloc_account, resize_account,
}
use psy_doge_solana_bridge.Programs.MintBuffer.Filled.{
  group_slot, group_mints, sum_below, Inserted, IsFilled, groups_of_bounds,
}

-- The bytes that both have are the same.
abbrev pub Extends : List ℕ → List ℕ → Type 0
Extends body body' =
    (length body ≤ length body')
    × ((i : ℕ) → i < length body → get_elem? body' i ≡ get_elem? body i)

length-zero_hashes : (groups : ℕ) (body : List ℕ) → length (zero_hashes groups body) ≡ length body
unfolding zero_hashes
length-zero_hashes groups body = elim (Bool-cases (leb (groups * 32) (length body))) [
  | inl within ↦ rw within (
      length-write_at 0 (replicate (groups * 32) 0) body
        (ground (arith, within, length-replicate {A = ℕ} (groups * 32) 0)))
  | inr beyond ↦ rw beyond (
      length-write_at 0 (replicate (length body) 0) body
        (omega (arith, length-replicate {A = ℕ} (length body) 0)))
]

sum_below-none : (n : ℕ) → sum_below n (λ g. 0) ≡ 0
unfolding sum_below
sum_below-none zero = refl
sum_below-none (suc n) = omega (arith, sum_below-none n)

-- Instruction data are bytes.
abbrev pub IsBytes : List ℕ → Type 0
IsBytes [] = Unit
IsBytes (b ∷ bs) = (b < 256) × IsBytes bs

pub from_le_bytes_two :
    (rest : List ℕ) → length rest ≡ 2 → IsBytes rest → from_le_bytes (slice 0 2 rest) < 2 ^ 16
unfolding from_le_bytes
from_le_bytes_two [] len bytes = absurd (omega arith)
from_le_bytes_two (a ∷ []) len bytes = absurd (omega arith)
from_le_bytes_two (a ∷ b ∷ []) len (a_lt, (b_lt, _)) = omega arith
from_le_bytes_two (a ∷ b ∷ d ∷ rest) len bytes = absurd (omega arith)

-- What holds of memory at every point: the slots are those of the groups that were inserted, and a
-- locked buffer has as many mints as it is for.
abbrev pub IsSound : Runtime → AccountData PendingMintsBufferStateHeader → Type 0
IsSound rt (short n) = Unit
IsSound rt (buffer h body) =
    (filled : ℕ → ℕ) × IsFilled rt h body filled
    × (h.is_locked ≢ 0 → h.pending_mints_initialized ≡ h.pending_mints_count)

module _ (rt : Runtime) (real : IsRuntime rt) where
  pub resize_account_lem :
      (storage : Storage) (payer : Signer) (body : List ℕ) (new_size : ℕ) (refund : Bool)
      (grown : ℕ × ℕ × List ℕ)
      → 72 ≤ new_size
      → resize_account rt storage payer body new_size refund ≡ ok grown
      → (72 + length grown.2 ≡ new_size)
        × ((i : ℕ) → i < length body → i < length grown.2 → get_elem? grown.2 i ≡ get_elem? body i)
  unfolding resize_account realloc_account
  resize_account_lem storage payer body new_size refund grown header done =
      elim (Bool-cases (new_size == 72 + length body)) [
        | inl same ↦
            let kept : body ≡ grown.2 = ap (λ r. r.2) (ok_injective _ _ (rw same at done)) in
            rw (← kept) (ground (arith, same), λ i in_body in_grown. refl)
        | inr other ↦
            let (balances, _, step1) = >>=-eq-ok _ _ _ (rw other at done) in
            let (after, changed, step2) = >>=-eq-ok _ _ _ step1 in
            let kept : after ≡ grown.2 = ap (λ r. r.2) (ok_injective _ _ step2) in
            let size = real.realloc_length _ _ _ changed in
            rw (← kept) (
              omega (arith, size),
              λ i in_body in_after.
                  real.realloc_keeps _ _ _ changed i (omega (arith, size)) in_body,
            )
      ]

  Inserted-extended :
      (groups : ℕ) (body body' : List ℕ) (g mints : ℕ)
      → Extends body body'
      → g < groups
      → Inserted rt groups body g mints
      → Inserted rt groups body' g mints
  Inserted-extended groups body body' g mints (longer, same) lt (few, inside, slot) =
      let slot_kept : group_slot body' g ≡ group_slot body g =
        slice_agree _ _ body' body (λ i low high. same i (omega arith)) in
      let mints_kept : group_mints groups body' g mints ≡ group_mints groups body g mints =
        slice_agree _ _ body' body (λ i low high. same i (omega arith)) in
      (few, omega arith, slot_kept ∙ slot ∙ ap rt.sha256 (sym mints_kept))

  IsFilled-extended :
      (h : PendingMintsBufferStateHeader) (body body' : List ℕ) (filled : ℕ → ℕ)
      → IsFilled rt h body filled
      → Extends body body'
      → (0 < h.pending_mint_groups_count
          → length body' ≤ h.pending_mint_groups_count * 32 + h.pending_mints_count * 40)
      → IsFilled rt h body' filled
  IsFilled-extended h body body' filled f longer size = record {
    counted = f.counted;
    small = f.small;
    size = size;
    total = f.total;
    inserted = λ g lt. elim (f.inserted g lt) [
      | inl empty ↦ inl empty
      | inr there ↦
          inr
            (Inserted-extended h.pending_mint_groups_count body body' g (filled g) longer lt there)
    ];
  }

  -- A buffer with nothing inserted.
  IsFilled-none :
      (h : PendingMintsBufferStateHeader) (body : List ℕ)
      → h.pending_mint_groups_count ≡ groups_of h.pending_mints_count
      → h.pending_mints_count < 2 ^ 16
      → h.pending_mints_initialized ≡ 0
      → (0 < h.pending_mint_groups_count
          → length body ≤ h.pending_mint_groups_count * 32 + h.pending_mints_count * 40)
      → IsFilled rt h body (λ g. 0)
  IsFilled-none h body counted small zero_initialized size = record {
    counted = counted;
    small = small;
    size = size;
    total = sum_below-none h.pending_mint_groups_count ∙ sym zero_initialized;
    inserted = λ g lt. inl refl;
  }

  pub setup-IsSound :
      (locker writer : List ℕ) (h h' : PendingMintsBufferStateHeader) (body : List ℕ)
      → setup locker writer h ≡ ok h'
      → IsSound rt (buffer h' body)
  unfolding setup groups_of
  setup-IsSound locker writer h h' body done =
      let none_there : h'.pending_mints_count ≡ 0 = ground (arith, done) in
      let no_groups : h'.pending_mint_groups_count ≡ 0 = ground (arith, done) in
      let none_inserted : h'.pending_mints_initialized ≡ 0 = ground (arith, done) in
      (
        (λ g. 0),
        IsFilled-none h' body (rw none_there (omega arith)) (omega arith) none_inserted
            (λ some. absurd (omega arith)),
        λ locked. omega arith,
      )

  pub reinit-IsSound :
      (count : ℕ) (h h' : PendingMintsBufferStateHeader) (body : List ℕ)
      → count < 2 ^ 16
      → 72 + length body ≤ calculate_target_size count
      → reinit count h ≡ ok h'
      → IsSound rt (buffer h' (zero_hashes h'.pending_mint_groups_count body))
  unfolding reinit calculate_target_size
  reinit-IsSound count h h' body small size done =
      let mints : h'.pending_mints_count ≡ count = ground (arith, done) in
      let groups : h'.pending_mint_groups_count ≡ groups_of count = ground (arith, done) in
      let none_inserted : h'.pending_mints_initialized ≡ 0 = ground (arith, done) in
      let free : h'.is_locked ≡ 0 = ground (arith, done) in
      (
        (λ g. 0),
        IsFilled-none h' (zero_hashes h'.pending_mint_groups_count body)
            (groups ∙ ap groups_of (sym mints)) (omega arith) none_inserted
            (λ some.
              let bounds = groups_of_bounds count small (omega arith) in
              omega (arith, length-zero_hashes h'.pending_mint_groups_count body)),
        λ locked. absurd (locked free),
      )

  pub grown_sound :
      (storage : Storage) (payer : Signer) (h : PendingMintsBufferStateHeader) (body : List ℕ)
      (refund : Bool) (grown : ℕ × ℕ × List ℕ) (filled : ℕ → ℕ)
      → IsFilled rt h body filled
      → resize_account rt storage payer body
          (grown_len (get_total_buffer_size h) (72 + length body))
          refund
        ≡ ok grown
      → IsFilled rt h grown.2 filled
  unfolding grown_len get_total_buffer_size
  grown_sound storage payer h body refund grown filled f done =
      let (size, same) = resize_account_lem storage payer body _ refund grown (omega arith) done in
      IsFilled-extended h body grown.2 filled f (omega arith, λ i lt. same i lt (omega arith))
        (λ some. omega (arith, f.size some))

  pub lock-IsSound :
      (locker : List ℕ) (h h' : PendingMintsBufferStateHeader) (body : List ℕ)
      → lock locker h ≡ ok h'
      → IsSound rt (buffer h body)
      → IsSound rt (buffer h' body)
  unfolding lock
  lock-IsSound locker h h' body done (filled, f, _) =
      let whole : h.pending_mints_initialized ≡ h.pending_mints_count = ground (arith, done) in
      let e : h' ≡ record h { is_locked = 1 } = ground (arith, done) in
      rw e (
        filled,
        record {
          counted = f.counted;
          small = f.small;
          size = f.size;
          total = f.total;
          inserted = f.inserted;
        },
        λ locked. whole,
      )

  pub unlock-IsSound :
      (locker : List ℕ) (h h' : PendingMintsBufferStateHeader) (body : List ℕ)
      → unlock locker h ≡ ok h'
      → IsSound rt (buffer h' body)
  unfolding unlock groups_of
  unlock-IsSound locker h h' body done =
      let none_there : h'.pending_mints_count ≡ 0 = ground (arith, done) in
      let no_groups : h'.pending_mint_groups_count ≡ 0 = ground (arith, done) in
      let none_inserted : h'.pending_mints_initialized ≡ 0 = ground (arith, done) in
      (
        (λ g. 0),
        IsFilled-none h' body (rw none_there (omega arith)) (omega arith) none_inserted
            (λ some. absurd (omega arith)),
        λ locked. omega arith,
      )
