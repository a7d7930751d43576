-- ===== src/Bridge/Core/Fees.antt =====
-- What the operator is paid: program_state/operator.rs.
use psy_doge_solana_bridge.Prelude.{
  ℕ, ◌+◌, ◌-◌, ◌%◌, ◌^◌, ◌<◌, ◌≤◌, ◌≡◌, refl, false, leb, ◌==◌, arith,
}
use psy_doge_solana_bridge.Errors.{ok, err, no_operator_fees_to_withdraw}
use psy_doge_solana_bridge.Bridge.{PsyBridgeProgramState}
use psy_doge_solana_bridge.Bridge.Core.{
  get_total_finalized_fees, run_bridge_operator_withdraw_fees_precheck,
  get_operator_withdrawable_fees,
}

total_bound : (s : PsyBridgeProgramState) → get_total_finalized_fees s < 2 ^ 64
unfolding get_total_finalized_fees
total_bound s = omega arith

not_paid_lem :
    (s : PsyBridgeProgramState)
    → get_total_finalized_fees s ≤ s.total_fees_withdrawn_sats
    → run_bridge_operator_withdraw_fees_precheck s ≡ (err no_operator_fees_to_withdraw, s)
unfolding run_bridge_operator_withdraw_fees_precheck
not_paid_lem s none_left = ground (arith, none_left)

same_total :
    (s : PsyBridgeProgramState) (withdrawn : ℕ)
    → get_total_finalized_fees (record s { total_fees_withdrawn_sats = withdrawn })
      ≡ get_total_finalized_fees s
unfolding get_total_finalized_fees
same_total s withdrawn = refl

abbrev all_withdrawn : PsyBridgeProgramState → PsyBridgeProgramState
all_withdrawn s = record s { total_fees_withdrawn_sats = get_total_finalized_fees s }

paid :
    (s : PsyBridgeProgramState)
    → s.total_fees_withdrawn_sats < get_total_finalized_fees s
    → run_bridge_operator_withdraw_fees_precheck s
      ≡ (ok (get_operator_withdrawable_fees s), all_withdrawn s)
unfolding run_bridge_operator_withdraw_fees_precheck get_operator_withdrawable_fees
paid s some_fees =
    let bound = total_bound s in
    let left : leb (get_total_finalized_fees s) s.total_fees_withdrawn_sats ≡ false =
      ground (arith, some_fees) in
    let nonzero : (get_total_finalized_fees s - s.total_fees_withdrawn_sats == 0) ≡ false =
      ground (arith, some_fees) in
    let amount : get_total_finalized_fees s - s.total_fees_withdrawn_sats
        ≡ (get_total_finalized_fees s + 2 ^ 64 - s.total_fees_withdrawn_sats) % 2 ^ 64 =
      omega (arith, some_fees, bound) in
    let all : (s.total_fees_withdrawn_sats
            + (get_total_finalized_fees s - s.total_fees_withdrawn_sats))
          % 2 ^ 64
        ≡ get_total_finalized_fees s =
      omega (arith, some_fees, bound) in
    rw (run_bridge_operator_withdraw_fees_precheck, left, nonzero, all, amount)

-- With fees left, the operator is paid all of them, which is what `get_operator_withdrawable_fees`
-- reports; the total of the fees stays, all of it counts as withdrawn, and a second call at once is
-- refused and changes nothing.
pub operator_is_paid_once :
    (s : PsyBridgeProgramState)
    → s.total_fees_withdrawn_sats < get_total_finalized_fees s
    → let (result, after) = run_bridge_operator_withdraw_fees_precheck s in
      (result ≡ ok (get_operator_withdrawable_fees s))
      × (s.total_fees_withdrawn_sats + get_operator_withdrawable_fees s
          ≡ get_total_finalized_fees s)
      × (get_total_finalized_fees after ≡ get_total_finalized_fees s)
      × (after.total_fees_withdrawn_sats ≡ get_total_finalized_fees s)
      × (run_bridge_operator_withdraw_fees_precheck after
          ≡ (err no_operator_fees_to_withdraw, after))
unfolding get_operator_withdrawable_fees
operator_is_paid_once s some_fees =
    let bound = total_bound s in
    let after = all_withdrawn s in
    let split : s.total_fees_withdrawn_sats + get_operator_withdrawable_fees s
        ≡ get_total_finalized_fees s =
      omega (arith, some_fees, bound) in
    let none_left : get_total_finalized_fees after ≤ get_total_finalized_fees s =
      omega (arith, same_total s (get_total_finalized_fees s)) in
    rw (paid s some_fees)
      (refl, split, same_total s (get_total_finalized_fees s), refl, not_paid_lem after none_left)
