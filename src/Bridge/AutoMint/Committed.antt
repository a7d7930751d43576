-- ===== src/Bridge/AutoMint/Committed.antt =====
-- The bridge and the program of the buffers together: what the bridge mints from a locked buffer.
use psy_doge_solana_bridge.Prelude.{
  ℕ, zero, suc, ◌+◌, ◌-◌, ◌*◌, ◌/◌, ◌<◌, ◌≤◌, min, ◌≡◌, ◌≢◌, refl, ap, sym, subst, ◌∙◌, Bool, List,
  [], ◌∷◌, ◌++◌, length, length-append, take, drop, drop_twice, take_nil, arith,
}
use psy_doge_solana_bridge.Errors.{ok}
use psy_doge_solana_bridge.Bytes.{slice, to_le_bytes}
use psy_doge_solana_bridge.Bytes.Laws.{drop-append_length, length-to_le_bytes}
use psy_doge_solana_bridge.Bytes.Write.{take_agree, get_elem?-take, length-slice}
use psy_doge_solana_bridge.Programs.{Runtime, IsRuntime, buffer}
use psy_doge_solana_bridge.Programs.MintBuffer.{PendingMintsBufferStateHeader, mint_header_bytes}
use psy_doge_solana_bridge.Programs.MintBuffer.Filled.{group_slot, group_mints}
use psy_doge_solana_bridge.Programs.MintBuffer.Locked.{locked_counts, locked_buffer_is_complete}
use psy_doge_solana_bridge.Programs.MintBuffer.Calls.{Reachable}
use psy_doge_solana_bridge.MintGroups.{get_current_total_pending_mints_groups}
use psy_doge_solana_bridge.MintGroups.Claims.{Consistent}
use psy_doge_solana_bridge.MintGroups.Groups.{
  compute_mint_group_info_lem, group_info_matches, mints_count_for_group, mints_count_for_group-min,
  some_mints_of_groups, groups_partition_mints,
}
use psy_doge_solana_bridge.MintGroups.Manager.{FinalizedBlockMintTxoManager}
use psy_doge_solana_bridge.Bridge.AutoMint.{run_auto_mint_group_precheck}
use psy_doge_solana_bridge.Bridge.AutoMint.Claim.{accepted_claim, claimed_group_is_next_mints}
use psy_doge_solana_bridge.Bridge.AutoMint.Mints.{Minter, pending_mint, run_auto_mint_group}
use psy_doge_solana_bridge.Bridge.AutoMint.Paid.{
  parse_mints, mint_all, mint_loop-mint_all, claim_group_checked-precheck, mint_claimed_done,
}

-- The memory of the account as the bridge reads it.
abbrev pub account_bytes : PendingMintsBufferStateHeader → List ℕ → List ℕ
account_bytes h body = mint_header_bytes h ++ body

length-mint_header_bytes :
    (h : PendingMintsBufferStateHeader)
    → length h.authorized_locker_public_key ≡ 32
    → length h.authorized_writer_public_key ≡ 32
    → length (mint_header_bytes h) ≡ 72
unfolding mint_header_bytes
length-mint_header_bytes h locker writer =
    let groups = to_le_bytes 2 h.pending_mint_groups_count in
    let initialized = to_le_bytes 2 h.pending_mints_initialized in
    let mints = to_le_bytes 2 h.pending_mints_count in
    let counts = groups ++ (initialized ++ mints) in
    omega (
      arith,
      locker,
      writer,
      length-append h.authorized_locker_public_key
          (h.authorized_writer_public_key ++ (h.is_locked ∷ h.mode ∷ counts)),
      length-append h.authorized_writer_public_key (h.is_locked ∷ h.mode ∷ counts),
      length-append groups (initialized ++ mints),
      length-append initialized mints,
      length-to_le_bytes 2 h.pending_mint_groups_count,
      length-to_le_bytes 2 h.pending_mints_initialized,
      length-to_le_bytes 2 h.pending_mints_count,
    )

take_of_take : (m n : ℕ) (xs : List ℕ) → m ≤ n → take m (take n xs) ≡ take m xs
take_of_take m n xs h = take_agree m (take n xs) xs (λ i lt. get_elem?-take n xs i (omega arith))

drop_of_take : (m n : ℕ) (xs : List ℕ) → drop m (take (m + n) xs) ≡ take n (drop m xs)
drop_of_take zero n xs = let e : 0 + n ≡ n = omega arith in rw e
drop_of_take (suc m) n [] = ap (drop (suc m)) (take_nil (suc m + n)) ∙ sym (take_nil n)
drop_of_take (suc m) n (x ∷ xs) =
    let e : suc m + n ≡ suc (m + n) = omega arith in rw e (drop_of_take m n xs)

-- The mints of a row of bytes are in as many bytes as they take.
parse_mints-take :
    (n : ℕ) (bytes : List ℕ) → parse_mints n (take (n * 40) bytes) ≡ parse_mints n bytes
unfolding parse_mints
parse_mints-take zero bytes = refl
parse_mints-take (suc n) bytes =
    let size : suc n * 40 ≡ 40 + n * 40 = omega arith in
    let first : take 40 (take (suc n * 40) bytes) ≡ take 40 bytes =
      take_of_take 40 (suc n * 40) bytes (omega arith) in
    let others : drop 40 (take (suc n * 40) bytes) ≡ take (n * 40) (drop 40 bytes) =
      ap (λ k. drop 40 (take k bytes)) size ∙ drop_of_take 40 (n * 40) bytes in
    ap (λ b. pending_mint b ∷ parse_mints n (drop 40 (take (suc n * 40) bytes))) first
    ∙ ap (λ b. pending_mint (take 40 bytes) ∷ parse_mints n b) others
    ∙ ap (λ l. pending_mint (take 40 bytes) ∷ l) (parse_mints-take n (drop 40 bytes))

-- The mints at a place behind the header.
parse_mints-slice :
    (n offset : ℕ) (h : PendingMintsBufferStateHeader) (body : List ℕ)
    → length (mint_header_bytes h) ≡ 72
    → parse_mints n (drop (72 + offset) (account_bytes h body))
      ≡ parse_mints n (slice offset (offset + n * 40) body)
parse_mints-slice n offset h body header =
    let size : offset + n * 40 - offset ≡ n * 40 = omega arith in
    ap (parse_mints n) (
      drop_twice 72 offset (account_bytes h body)
      ∙ ap (drop offset) (drop-append_length 72 (mint_header_bytes h) body header))
    ∙ sym (parse_mints-take n (drop offset body))
    ∙ ap (λ k. parse_mints n (take k (drop offset body))) (sym size)

abbrev IsComplete : Runtime → PendingMintsBufferStateHeader → List ℕ → ℕ → ℕ → Type 0
IsComplete rt h body g mints =
    (0 < mints)
    × (h.pending_mint_groups_count ≡ (h.pending_mints_count + 23) / 24)
    × (h.pending_mint_groups_count * 32 + (g * 24 + mints) * 40 ≤ length body)
    × (group_slot body g ≡ rt.sha256 (group_mints h.pending_mint_groups_count body g mints))

module _ (rt : Runtime) (program_id : List ℕ) (real : IsRuntime rt) where
  -- What the bridge mints for a group of a locked buffer, where its tracker is for as many mints as
  -- the buffer: the mints, in their order, of the bytes whose digest stands in the slot of the group.
  -- They are as many as are returned, at least one, and the manager is left as by the precheck.
  pub minted_mints_are_committed :
      {L : Type 0} (mint_to : Minter L) (pub_key key : List ℕ) (g : ℕ)
      (h : PendingMintsBufferStateHeader) (body : List ℕ) (m : FinalizedBlockMintTxoManager)
      (ledger : L) (unlock : Bool) (mints : ℕ)
      → Reachable rt program_id (buffer h body)
      → h.is_locked ≢ 0
      → length h.authorized_locker_public_key ≡ 32
      → length h.authorized_writer_public_key ≡ 32
      → Consistent m.current_pending_mints_tracker
      → m.current_pending_mints_tracker.total_pending_mints ≡ h.pending_mints_count
      → (run_auto_mint_group mint_to pub_key key (account_bytes h body) g (m, ledger)).0
        ≡ ok (unlock, mints)
      → let (after, paid) =
          (run_auto_mint_group mint_to pub_key key (account_bytes h body) g (m, ledger)).1 in
        (bytes : List ℕ) × (rt.sha256 bytes ≡ group_slot body g)
        × (length bytes ≡ mints * 40)
        × (0 < mints)
        × (paid ≡ (mint_all mint_to 0 (parse_mints mints bytes) ledger).1)
        × (after ≡ (run_auto_mint_group_precheck g key m).1)
  unfolding run_auto_mint_group
  minted_mints_are_committed mint_to pub_key key g h body m ledger unlock mints reached locked
        locker writer c same_total accepted =
      let t = m.current_pending_mints_tracker in
      let (offset, claim, paid) = mint_claimed_done mint_to _ _ _ ledger (unlock, mints) accepted in
      let (_, precheck) =
        claim_group_checked-precheck pub_key _ key g m (unlock, mints, offset) claim in
      let prechecked : (run_auto_mint_group_precheck g key m).0 ≡ ok (unlock, mints, offset) =
        sym (ap (λ p. p.0) precheck) ∙ claim in
      let (_, below, _, values, _, _) = accepted_claim g key m unlock mints offset c prechecked in
      let size : mints ≡ mints_count_for_group t g = ap (λ p. p.1) values in
      let (_, _, _, placed, _, _, _, _, _) =
        claimed_group_is_next_mints g key m unlock mints offset c prechecked in
      let (before, inside_total, _) = groups_partition_mints t g c.total_bound below in
      let exact = mints_count_for_group-min t g c.total_bound below in
      let some_mints = some_mints_of_groups t (omega (arith, below)) in
      let (info, _, _, _) =
        compute_mint_group_info_lem t.total_pending_mints c.total_bound some_mints in
      let groups : get_current_total_pending_mints_groups t ≡ (t.total_pending_mints + 23) / 24 =
        group_info_matches t c.total_bound ∙ info in
      let counts =
        locked_counts rt program_id real h body reached locked
          (omega (arith, some_mints, same_total)) in
      let same_groups : get_current_total_pending_mints_groups t ≡ h.pending_mint_groups_count =
        omega (arith, groups, counts, same_total) in
      let own : min 24 (h.pending_mints_count - g * 24) ≡ mints =
        sym (size ∙ exact ∙ ap (λ n. min 24 (n - g * 24)) same_total) in
      let (some, _, inside, slot) = subst (IsComplete rt h body g) own (
        locked_buffer_is_complete rt program_id real h body g reached locked
          (omega (arith, below, same_groups))) in
      let start = h.pending_mint_groups_count * 32 + g * 24 * 40 in
      let header = length-mint_header_bytes h locker writer in
      let place : offset + 0 * 40 ≡ 72 + start = omega (arith, placed, before, same_groups) in
      let loop =
        mint_loop-mint_all mint_to (account_bytes h body) offset 0 mints ledger
          (omega (arith, place, inside, header, length-append (mint_header_bytes h) body)) in
      let parsed : parse_mints mints (drop (offset + 0 * 40) (account_bytes h body))
          ≡ parse_mints mints (group_mints h.pending_mint_groups_count body g mints) =
        ap (λ o. parse_mints mints (drop o (account_bytes h body))) place
        ∙ parse_mints-slice mints start h body header in
      let ledger_after =
        ap (λ r. r.1.1) paid
        ∙ ap (λ r. r.1) loop
        ∙ ap (λ l. (mint_all mint_to 0 l ledger).1) parsed in
      (
        group_mints h.pending_mint_groups_count body g mints,
        sym slot,
        length-slice start (start + mints * 40) body (omega arith) (omega (arith, inside))
            ∙ omega arith,
        some,
        ledger_after,
        ap (λ r. r.1.0) paid ∙ ap (λ r. r.1) precheck,
      )
