-- ===== src/Bridge/AutoMint/Paid.antt =====
-- What an accepted `run_auto_mint_group` mints.
use psy_doge_solana_bridge.Prelude.{
  ℕ, zero, suc, ◌+◌, ◌-◌, ◌*◌, ◌≤◌, ◌≡◌, refl, ap, sym, fun_ext, ◌∙◌, Bool, false, List, [], ◌∷◌,
  length, take, drop, drop_twice, ltb, arith, inl, inr,
}
use psy_doge_solana_bridge.Errors.{
  Result, ok, err, panic, Action, ◌>>=◌, ◌>>◌, fail_if_passes, lift_passes, fail_if_skipped,
  lift_done, Result-cases,
}
use psy_doge_solana_bridge.Bytes.{bytes_eq}
use psy_doge_solana_bridge.MintGroups.Manager.{FinalizedBlockMintTxoManager}
use psy_doge_solana_bridge.Bridge.AutoMint.{run_auto_mint_group_precheck}
use psy_doge_solana_bridge.Bridge.AutoMint.Mints.{
  PendingMint, pending_mint, Minter, mint_loop, check_mint_header, claim_group_checked,
  mint_claimed,
}

-- The mints that stand in a row of bytes, one after the other.
unfoldable pub parse_mints : ℕ → List ℕ → List PendingMint
parse_mints zero bytes = []
parse_mints (suc n) bytes = pending_mint (take 40 bytes) ∷ parse_mints n (drop 40 bytes)

-- A minter called for each mint of a list.
unfoldable pub mint_all : {L : Type 0} → Minter L → ℕ → List PendingMint → Action L (Unit {0})
mint_all mint_to p [] ledger = (ok tt, ledger)
mint_all mint_to p (mint ∷ mints) ledger =
    let next = mint_all mint_to (p + 1) mints in
    (mint_to p mint.recipient mint.amount >> next) ledger

-- The loop calls the minter for the mints of a row of bytes, in their order.
pub mint_loop-mint_all :
    {L : Type 0} (mint_to : Minter L) (memory : List ℕ) (start p left : ℕ) (ledger : L)
    → start + (p + left) * 40 ≤ length memory
    → mint_loop mint_to memory start p left ledger
      ≡ mint_all mint_to p (parse_mints left (drop (start + p * 40) memory)) ledger
unfolding mint_loop mint_all parse_mints ◌>>◌ ◌>>=◌
mint_loop-mint_all {L} mint_to memory start p zero ledger inside = refl
mint_loop-mint_all {L} mint_to memory start p (suc left) ledger inside =
    let within : ltb (length memory) (start + p * 40 + 40) ≡ false = ground arith in
    let size : start + p * 40 + 40 - (start + p * 40) ≡ 40 = omega arith in
    let next : start + (p + 1) * 40 ≡ start + p * 40 + 40 = omega arith in
    let dropped = drop_twice (start + p * 40) 40 memory in
    let others : (later : L)
        → mint_loop mint_to memory start (p + 1) left later
          ≡ mint_all mint_to (p + 1) (parse_mints left (drop 40 (drop (start + p * 40) memory)))
              later =
      λ later.
        mint_loop-mint_all mint_to memory start (p + 1) left later (omega arith)
        ∙ ap (λ bytes. mint_all mint_to (p + 1) (parse_mints left bytes) later)
            (ap (λ o. drop o memory) next ∙ dropped) in
    let mint = pending_mint (take 40 (drop (start + p * 40) memory)) in
    rw (within, size)
      (ap (λ k. (mint_to p mint.recipient mint.amount >> k) ledger) (fun_ext others))

-- Where the checks before the loop pass, the claim is that of the precheck.
pub claim_group_checked-precheck :
    (pub_key memory key : List ℕ) (g : ℕ) (m : FinalizedBlockMintTxoManager) (result : Bool × ℕ × ℕ)
    → let same =
        bytes_eq key
          m.current_pending_mints_tracker.last_finalized_auto_claim_mints_storage_account in
      (claim_group_checked pub_key memory g same m).0 ≡ ok result
      → (check_mint_header pub_key memory g ≡ ok tt)
        × (claim_group_checked pub_key memory g same m ≡ run_auto_mint_group_precheck g key m)
unfolding claim_group_checked run_auto_mint_group_precheck
claim_group_checked-precheck pub_key memory key g m result accepted =
    let (f1, e1, k1) = fail_if_passes _ _ _ m result accepted in
    let (f2, e2, k2) = fail_if_passes _ _ _ m result k1 in
    let (f3, e3, k3) = fail_if_passes _ _ _ m result k2 in
    let (_, claimable, e4, k4) = lift_passes _ _ m result k3 in
    let (_, header, e5, k5) = lift_passes _ _ m result k4 in
    let (f6, e6, k6) = fail_if_passes _ _ _ m result k5 in
    (
      header,
      e1
          ∙ e2
          ∙ e3
          ∙ e4
          ∙ e5
          ∙ sym (
              fail_if_skipped _ _ _ m f1
              ∙ fail_if_skipped _ _ _ m f2
              ∙ fail_if_skipped _ _ _ m f3
              ∙ lift_done _ _ m tt claimable),
    )

pub mint_claimed_done :
    {L : Type 0} (mint_to : Minter L) (memory : List ℕ) (claim : Result (Bool × ℕ × ℕ))
    (m : FinalizedBlockMintTxoManager) (ledger : L) (result : Bool × ℕ)
    → (mint_claimed mint_to memory claim (m, ledger)).0 ≡ ok result
    → (offset : ℕ) × (claim ≡ ok (result.0, result.1, offset))
      × (mint_claimed mint_to memory claim (m, ledger)
          ≡ (ok result, (m, (mint_loop mint_to memory offset 0 result.1 ledger).1)))
unfolding mint_claimed
mint_claimed_done mint_to memory (err e) m ledger result done = absurd (cc done)
mint_claimed_done mint_to memory panic m ledger result done = absurd (cc done)
mint_claimed_done mint_to memory (ok (unlock, mints, offset)) m ledger result done =
    elim (Result-cases (mint_loop mint_to memory offset 0 mints ledger).0) [
      | inl (_, minted) ↦
          let same : (unlock, mints) ≡ result = cc (rw (mint_claimed, minted) at done) in
          (offset, rw (← same) refl, rw (mint_claimed, minted, ← same) refl)
      | inr (inl (e, failed)) ↦ absurd (cc (rw (mint_claimed, failed) at done))
      | inr (inr failed) ↦ absurd (cc (rw (mint_claimed, failed) at done))
    ]
