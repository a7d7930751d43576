-- ===== src/Bridge/Blocks/Transition.antt =====
-- What an accepted block update shows.
use psy_doge_solana_bridge.Prelude.{
  ℕ, ◌+◌, ◌-◌, ◌%◌, ◌^◌, ◌<◌, ◌≤◌, ◌≡◌, refl, ap, sym, ◌∙◌, subst, Bool, true, false, List, length,
  get_elem?, some, get_elem?-set_self, leb, ◌==◌, if◌then◌else◌, arith, Bool-cases, inl, inr,
}
use psy_doge_solana_bridge.Errors.{
  ok, err, panic, fail_if, ◌>>=◌, ◌>>◌, fail_if_passes, lift_passes, then_passes, fail_if_keeps,
  pure, program_state_not_ready_for_block_update,
}
use psy_doge_solana_bridge.Bytes.{Hash}
use psy_doge_solana_bridge.MintGroups.Manager.{pm_da_default_pending_mints_buffer_hash}
use psy_doge_solana_bridge.Bridge.{Crypto, PsyBridgeProgramState, PsyBridgeHeader}
use psy_doge_solana_bridge.Bridge.Blocks.{
  is_ready_for_new_block_update, run_standard_single_block_transition, single_block_inputs,
  finalize_block, append_new_mints, ensure_pending_mints_ready_for_transition,
}

finalize_lem :
    (h : PsyBridgeHeader) (t : PsyBridgeProgramState)
    → (finalize_block h t).0 ≡ ok tt
    → let after = (finalize_block h t).1 in
      (after.bridge_header ≡ h)
      × (get_elem? after.recent_finalized_blocks t.next_recent_finalized_block_index
          ≡ some h.finalized_state)
      × (after.pending_mint_txos ≡ t.pending_mint_txos)
unfolding finalize_block
finalize_lem h t done =
    elim (Bool-cases (leb (length t.recent_finalized_blocks) t.next_recent_finalized_block_index)) [
      | inl beyond ↦
          let panics : (finalize_block h t).0 ≡ panic = rw (finalize_block, beyond) in
          absurd (cc (panics, done))
      | inr within ↦ rw within (
        refl,
        get_elem?-set_self t.recent_finalized_blocks t.next_recent_finalized_block_index
            h.finalized_state (ground (arith, within)),
        refl,
      )
    ]

ready_of_pending :
    (t s : PsyBridgeProgramState)
    → t.pending_mint_txos ≡ s.pending_mint_txos
    → is_ready_for_new_block_update s ≡ true
    → is_ready_for_new_block_update t ≡ true
unfolding is_ready_for_new_block_update
ready_of_pending t s same ready = rw same ready

module _ (c : Crypto) where
  middle_keeps_index :
      (some_new : Bool) (h : PsyBridgeHeader) (hash : Hash) (claims : ℕ)
      (storage txo_memory : List ℕ) (s : PsyBridgeProgramState)
      → ((if some_new then append_new_mints c h hash claims storage txo_memory else pure tt)
          s).1.next_recent_finalized_block_index
        ≡ s.next_recent_finalized_block_index
  unfolding append_new_mints
  middle_keeps_index false h hash claims storage txo_memory s = refl
  middle_keeps_index true h hash claims storage txo_memory s =
      fail_if_keeps (λ t. t.next_recent_finalized_block_index) _ _ _ s
        (fail_if_keeps (λ t. t.next_recent_finalized_block_index) _ _ _ s
          (fail_if_keeps (λ t. t.next_recent_finalized_block_index) _ _ _ s refl))

  -- While mints of an earlier block wait, no block is accepted, and the state stays.
  pub not_ready_refuses_block :
      (proof vk pub_key storage txo_memory mint_memory : List ℕ) (h : PsyBridgeHeader)
      (s : PsyBridgeProgramState)
      → is_ready_for_new_block_update s ≡ false
      → run_standard_single_block_transition c proof vk h pub_key storage txo_memory mint_memory s
        ≡ (err program_state_not_ready_for_block_update, s)
  unfolding run_standard_single_block_transition ◌>>◌ ◌>>=◌ fail_if
  not_ready_refuses_block proof vk pub_key storage txo_memory mint_memory h s waiting = rw waiting

  no_middle :
      (some_new : Bool) (h : PsyBridgeHeader) (hash : Hash) (claims : ℕ)
      (storage txo_memory : List ℕ) (s : PsyBridgeProgramState)
      → some_new ≡ false
      → ((if some_new then append_new_mints c h hash claims storage txo_memory else pure tt) s).1
        ≡ s
  no_middle some_new h hash claims storage txo_memory s none_new = rw none_new

  no_claims :
      (claims : ℕ) (pub_key : List ℕ) (expected : Hash) (memory : List ℕ) (buffers : Hash × Bool)
      → claims ≡ 0
      → ensure_pending_mints_ready_for_transition c claims pub_key expected memory ≡ ok buffers
      → buffers.1 ≡ false
  unfolding ensure_pending_mints_ready_for_transition
  no_claims claims pub_key expected memory buffers none_new found =
      let z : (claims == 0) ≡ true = ground (arith, none_new) in
      let done : ensure_pending_mints_ready_for_transition c claims pub_key expected memory
          ≡ ok (pm_da_default_pending_mints_buffer_hash, false) =
        rw (ensure_pending_mints_ready_for_transition, z) in
      let same : ok buffers ≡ ok (pm_da_default_pending_mints_buffer_hash, false) =
        sym found ∙ done in
      cc same

  -- A block update that is accepted raises the finalized height by one and the height of the tip, does
  -- not lower the number of claimed deposits and adds fewer than 2^16; its proof verifies against
  -- inputs made from the old state and the new header, which replaces the old; the finalized block
  -- is entered among the recent ones. The bridge was ready, and if no deposits are new, it stays so.
  pub accepted_block_is_next :
      (proof vk pub_key storage txo_memory mint_memory : List ℕ) (h : PsyBridgeHeader)
      (s : PsyBridgeProgramState)
      → (run_standard_single_block_transition c proof vk h pub_key storage txo_memory mint_memory
          s).0
        ≡ ok tt
      → let after =
          (run_standard_single_block_transition c proof vk h pub_key storage txo_memory mint_memory
            s).1 in
        let old = s.bridge_header in
        (is_ready_for_new_block_update s ≡ true)
        × (h.finalized_state.block_height ≡ (old.finalized_state.block_height + 1) % 2 ^ 32)
        × (old.tip_state.block_height < h.tip_state.block_height)
        × (old.finalized_state.auto_claimed_deposits_next_index
            ≤ h.finalized_state.auto_claimed_deposits_next_index)
        × (h.finalized_state.auto_claimed_deposits_next_index
            < old.finalized_state.auto_claimed_deposits_next_index + 2 ^ 16)
        × (c.verify_compact_zkp_slice proof vk (single_block_inputs c h s) ≡ true)
        × (after.bridge_header ≡ h)
        × (get_elem? after.recent_finalized_blocks s.next_recent_finalized_block_index
            ≡ some h.finalized_state)
        × (h.finalized_state.auto_claimed_deposits_next_index
              ≡ old.finalized_state.auto_claimed_deposits_next_index
            → is_ready_for_new_block_update after ≡ true)
  unfolding run_standard_single_block_transition
  accepted_block_is_next proof vk pub_key storage txo_memory mint_memory h s accepted =
      let (ready, e1, k1) = fail_if_passes _ _ _ s tt accepted in
      let (_, e2, k2) = fail_if_passes _ _ _ s tt k1 in
      let (_, e3, k3) = fail_if_passes _ _ _ s tt k2 in
      let (height, e4, k4) = fail_if_passes _ _ _ s tt k3 in
      let (tip, e5, k5) = fail_if_passes _ _ _ s tt k4 in
      let (claims, e6, k6) = fail_if_passes _ _ _ s tt k5 in
      let (few, e7, k7) = fail_if_passes _ _ _ s tt k6 in
      let (proved, e8, k8) = fail_if_passes _ _ _ s tt k7 in
      let (buffers, found, e9, k9) = lift_passes _ _ s tt k8 in
      let (_, e10, k10) = fail_if_passes _ _ _ s tt k9 in
      let (_, e11, k11) = then_passes _ _ s tt k10 in
      let middle =
        ((if buffers.1 then append_new_mints c h buffers.0 _ storage txo_memory else pure tt)
          s).1 in
      let whole = e1 ∙ e2 ∙ e3 ∙ e4 ∙ e5 ∙ e6 ∙ e7 ∙ e8 ∙ e9 ∙ e10 ∙ e11 in
      let (installed, entered, pending) = finalize_lem h middle k11 in
      let index : middle.next_recent_finalized_block_index ≡ s.next_recent_finalized_block_index =
        middle_keeps_index buffers.1 h buffers.0 _ storage txo_memory s in
      let old = s.bridge_header in
      rw whole (
        ground (arith, ready),
        ground (arith, height),
        ground (arith, tip),
        ground (arith, claims),
        ground (arith, claims, few),
        ground (arith, proved),
        installed,
        subst
            (λ i.
              get_elem? (finalize_block h middle).1.recent_finalized_blocks i
              ≡ some h.finalized_state)
            index entered,
        λ none_new.
            let zero_claims : (h.finalized_state.auto_claimed_deposits_next_index
                    - old.finalized_state.auto_claimed_deposits_next_index)
                  % 2 ^ 16
                ≡ 0 =
              omega (arith, none_new) in
            let same : middle ≡ s =
              no_middle buffers.1 h buffers.0 _ storage txo_memory s
                (no_claims _ pub_key _ mint_memory buffers zero_claims found) in
            ready_of_pending (finalize_block h middle).1 s
              (pending ∙ ap (λ t. t.pending_mint_txos) same) (ground (arith, ready)),
      )
