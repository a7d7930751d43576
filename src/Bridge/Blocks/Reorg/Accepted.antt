-- ===== src/Bridge/Blocks/Reorg/Accepted.antt =====
-- What an accepted update by several blocks shows.
use psy_doge_solana_bridge.Prelude.{
  ℕ, ◌+◌, ◌<◌, ◌≤◌, ◌≡◌, refl, ◌∙◌, true, List, length, arith, some, none, Option, get_elem?,
}
use psy_doge_solana_bridge.Errors.{
  ok, panic, Action, lift, fail_if_passes, then_passes, fail_if_keeps, lift_keeps, pure,
}
use psy_doge_solana_bridge.MintGroups.Manager.{FinalizedBlockMintTxoInfo}
use psy_doge_solana_bridge.Bridge.{Crypto, PsyBridgeProgramState, PsyBridgeHeader}
use psy_doge_solana_bridge.Bridge.Blocks.{
  is_ready_for_new_block_update, get_backlog_contains_pending_mints,
}
use psy_doge_solana_bridge.Bridge.Blocks.Reorg.{
  run_block_transition_reorg, reorg_inputs, append_reorg_mints, append_backlog,
}

module _ (c : Crypto) where
  backlog_keeps_recent :
      (h : PsyBridgeHeader) (items : List FinalizedBlockMintTxoInfo) (first : ℕ)
      (item : FinalizedBlockMintTxoInfo) (pub_key account txo_memory mint_memory : List ℕ)
      (s : PsyBridgeProgramState)
      → (append_backlog c h items first item pub_key account txo_memory mint_memory
          s).1.recent_finalized_blocks
        ≡ s.recent_finalized_blocks
  unfolding append_backlog
  backlog_keeps_recent h items first item pub_key account txo_memory mint_memory s =
      lift_keeps (λ t. t.recent_finalized_blocks) _ _ s
        (λ buffer.
          fail_if_keeps (λ t. t.recent_finalized_blocks) _ _ _ s
            (fail_if_keeps (λ t. t.recent_finalized_blocks) _ _ _ s
              (fail_if_keeps (λ t. t.recent_finalized_blocks) _ _ _ s
                (fail_if_keeps (λ t. t.recent_finalized_blocks) _ _ _ s refl))))

  mints_keep_recent :
      (h : PsyBridgeHeader) (items : List FinalizedBlockMintTxoInfo)
      (pub_key account txo_memory mint_memory : List ℕ) (s : PsyBridgeProgramState)
      → (append_reorg_mints c h items pub_key account txo_memory mint_memory
          s).1.recent_finalized_blocks
        ≡ s.recent_finalized_blocks
  unfolding append_reorg_mints lift
  mints_keep_recent h items pub_key account txo_memory mint_memory s =
      go (get_backlog_contains_pending_mints items)
    where
      go :
          (o : Option ℕ)
          → ((elim o as (λ x. Action PsyBridgeProgramState (Unit {0})) [
            | none ↦ pure tt
            | some first ↦
                elim (get_elem? items first) as (λ x. Action PsyBridgeProgramState (Unit {0})) [
                  | none ↦ lift panic
                  | some item ↦
                      append_backlog c h items first item pub_key account txo_memory mint_memory
                ]
          ])
              s).1.recent_finalized_blocks
            ≡ s.recent_finalized_blocks
      go none = refl
      go (some first) = at_first first (get_elem? items first)
        where
          at_first :
              (first : ℕ) (o : Option FinalizedBlockMintTxoInfo)
              → ((elim o as (λ x. Action PsyBridgeProgramState (Unit {0})) [
                | none ↦ lift panic
                | some item ↦
                    append_backlog c h items first item pub_key account txo_memory mint_memory
              ])
                  s).1.recent_finalized_blocks
                ≡ s.recent_finalized_blocks
          at_first first none = refl
          at_first first (some item) =
              backlog_keeps_recent h items first item pub_key account txo_memory mint_memory s

  -- An update by several blocks that is accepted raises the finalized height and the height of the tip,
  -- names one extra block for each height between the old and the new, and does not lower the
  -- number of claimed deposits; its proof verifies against inputs made from the old state, the new
  -- header and the extra blocks; the header is replaced. The recent finalized blocks stay what they
  -- were, without the new one.
  pub accepted_reorg_advances :
      (proof vk pub_key account txo_memory mint_memory : List ℕ) (h : PsyBridgeHeader)
      (extra : List FinalizedBlockMintTxoInfo) (s : PsyBridgeProgramState)
      → (run_block_transition_reorg c proof vk h extra pub_key account txo_memory mint_memory s).0
        ≡ ok tt
      → let after =
          (run_block_transition_reorg c proof vk h extra pub_key account txo_memory mint_memory
            s).1 in
        let old = s.bridge_header in
        (is_ready_for_new_block_update s ≡ true)
        × (old.finalized_state.block_height + length extra + 1 ≡ h.finalized_state.block_height)
        × (old.tip_state.block_height < h.tip_state.block_height)
        × (old.finalized_state.auto_claimed_deposits_next_index
            ≤ h.finalized_state.auto_claimed_deposits_next_index)
        × (c.verify_compact_zkp_slice proof vk (reorg_inputs c h extra s) ≡ true)
        × (after.bridge_header ≡ h)
        × (after.recent_finalized_blocks ≡ s.recent_finalized_blocks)
  unfolding run_block_transition_reorg
  accepted_reorg_advances proof vk pub_key account txo_memory mint_memory h extra s accepted =
      let (ready, e1, k1) = fail_if_passes _ _ _ s tt accepted in
      let (_, e2, k2) = fail_if_passes _ _ _ s tt k1 in
      let (_, e3, k3) = fail_if_passes _ _ _ s tt k2 in
      let (height, e4, k4) = fail_if_passes _ _ _ s tt k3 in
      let (tip, e5, k5) = fail_if_passes _ _ _ s tt k4 in
      let (count, e6, k6) = fail_if_passes _ _ _ s tt k5 in
      let (claims, e7, k7) = fail_if_passes _ _ _ s tt k6 in
      let (proved, e8, k8) = fail_if_passes _ _ _ s tt k7 in
      let (_, e9, k9) = then_passes _ _ s tt k8 in
      let whole = e1 ∙ e2 ∙ e3 ∙ e4 ∙ e5 ∙ e6 ∙ e7 ∙ e8 ∙ e9 in
      rw whole (
        ground (arith, ready),
        ground (arith, height, count),
        ground (arith, tip),
        ground (arith, claims),
        ground (arith, proved),
        refl,
        mints_keep_recent h _ pub_key account txo_memory mint_memory s,
      )
