-- ===== src/Bridge/Core/Replay.antt =====
-- The replay of a sent transaction: `process_replay_withdrawal_proof` of program_state/core.rs.
use psy_doge_solana_bridge.Prelude.{
  ℕ, ◌+◌, ◌*◌, ◌/◌, ◌%◌, ◌^◌, ◌<◌, ◌≤◌, ◌≡◌, ◌≢◌, ap, ◌∙◌, inl, inr, true, false, List, ltb, arith,
  Bool-cases, length,
}
use psy_doge_solana_bridge.Errors.{ok, err, panic, Result-cases}
use psy_doge_solana_bridge.Bytes.{Hash, bytes_eq}
use psy_doge_solana_bridge.Bytes.Laws.{bytes_eq→eq, bytes_eq_refl}
use psy_doge_solana_bridge.Merkle.{IsZeroTable, compute_merkle_root}
use psy_doge_solana_bridge.AppendTree.{PartialMerkleProof, tree_height, append}
use psy_doge_solana_bridge.AppendTree.Holds.{Holds}
use psy_doge_solana_bridge.AppendTree.Path.{compute_merkle_root-appended}
use psy_doge_solana_bridge.Bridge.{Crypto, sha256_hasher, PsyBridgeProgramState, PsyReturnTxOutput}
use psy_doge_solana_bridge.Bridge.Core.{process_replay_withdrawal_proof, update_for_withdrawal}

module _ (c : Crypto) where
  unchanged :
      (proof : PartialMerkleProof Hash) (now : ℕ) (s : PsyBridgeProgramState)
      → (process_replay_withdrawal_proof c proof now s).0 ≢ ok true
      → (process_replay_withdrawal_proof c proof now s).1 ≡ s
  unfolding process_replay_withdrawal_proof
  unchanged proof now s refused =
      elim (Result-cases
        (compute_merkle_root (sha256_hasher c) proof.value proof.index proof.siblings)) [
          | inr (inl (e, failed)) ↦ rw (process_replay_withdrawal_proof, failed)
          | inr (inr failed) ↦ rw (process_replay_withdrawal_proof, failed)
          | inl (r, rooted) ↦ elim (Bool-cases (bytes_eq r s.sent_transactions_tree.current_root)) [
            | inr other ↦ rw (process_replay_withdrawal_proof, rooted, other)
            | inl same ↦
                elim (Bool-cases
                  (ltb now ((s.last_processed_withdrawals_at_ms / 1000 + 60) % 2 ^ 64))) [
                    | inl early ↦ rw (process_replay_withdrawal_proof, rooted, same, early)
                    | inr late ↦
                        absurd (refused (rw (process_replay_withdrawal_proof, rooted, same, late)))
                  ]
          ]
        ]

  -- What an accepted replay shows.
  pub replay_accepted :
      (proof : PartialMerkleProof Hash) (now : ℕ) (s : PsyBridgeProgramState)
      → (process_replay_withdrawal_proof c proof now s).0 ≡ ok true
      → (compute_merkle_root (sha256_hasher c) proof.value proof.index proof.siblings
          ≡ ok s.sent_transactions_tree.current_root)
        × ((s.last_processed_withdrawals_at_ms / 1000 + 60) % 2 ^ 64 ≤ now)
        × ((process_replay_withdrawal_proof c proof now s).1
            ≡ record s { last_processed_withdrawals_at_ms = (now * 1000) % 2 ^ 64 })
  unfolding process_replay_withdrawal_proof
  replay_accepted proof now s accepted =
      let root = compute_merkle_root (sha256_hasher c) proof.value proof.index proof.siblings in
      let call = process_replay_withdrawal_proof c proof now s in
      elim (Result-cases root) [
        | inr (inl (e, failed)) ↦
            let refused : call.0 ≡ err e = rw (process_replay_withdrawal_proof, failed) in
            absurd (cc (refused, accepted))
        | inr (inr failed) ↦
            let refused : call.0 ≡ panic = rw (process_replay_withdrawal_proof, failed) in
            absurd (cc (refused, accepted))
        | inl (r, rooted) ↦ elim (Bool-cases (bytes_eq r s.sent_transactions_tree.current_root)) [
          | inr other ↦
              let refused : call.0 ≡ ok false =
                rw (process_replay_withdrawal_proof, rooted, other) in
              absurd (cc (refused, accepted))
          | inl same ↦
              elim (Bool-cases
                (ltb now ((s.last_processed_withdrawals_at_ms / 1000 + 60) % 2 ^ 64))) [
                  | inl early ↦
                      let refused : call.0 ≡ ok false =
                        rw (process_replay_withdrawal_proof, rooted, same, early) in
                      absurd (cc (refused, accepted))
                  | inr late ↦
                      let equal = bytes_eq→eq r s.sent_transactions_tree.current_root same in
                      (
                        rooted ∙ ap ok equal,
                        ground (arith, late),
                        rw (process_replay_withdrawal_proof, rooted, same, late),
                      )
                ]
        ]
      ]

  -- A replay is refused, and changes nothing, in the 60 seconds after one that was accepted.
  pub replay_is_rate_limited :
      (proof again : PartialMerkleProof Hash) (now soon : ℕ) (s : PsyBridgeProgramState)
      → now < 2 ^ 32
      → (process_replay_withdrawal_proof c proof now s).0 ≡ ok true
      → soon < now + 60
      → let after = (process_replay_withdrawal_proof c proof now s).1 in
        ((process_replay_withdrawal_proof c again soon after).0 ≢ ok true)
        × ((process_replay_withdrawal_proof c again soon after).1 ≡ after)
  replay_is_rate_limited proof again now soon s now_lt accepted early =
      let (_, _, made) = replay_accepted proof now s accepted in
      let after = (process_replay_withdrawal_proof c proof now s).1 in
      let stamp : after.last_processed_withdrawals_at_ms ≡ (now * 1000) % 2 ^ 64 =
        ap (λ t. t.last_processed_withdrawals_at_ms) made in
      let refused : (process_replay_withdrawal_proof c again soon after).0 ≢ ok true = λ passed.
        let (_, late, _) = replay_accepted again soon after passed in
        absurd (omega (arith, late, stamp)) in
      (refused, unchanged again soon after refused)

  -- The transaction that was sent last is replayed with the siblings that the tree stored before
  -- it, once 60 seconds have passed since the last replay.
  pub last_sent_is_replayed :
      (output : PsyReturnTxOutput) (root : Hash) (next now : ℕ) (s : PsyBridgeProgramState)
      (sent : List Hash)
      → IsZeroTable (sha256_hasher c)
      → Holds (sha256_hasher c) s.sent_transactions_tree sent
      → length sent < 2 ^ tree_height
      → s.last_processed_withdrawals_at_ms < 2 ^ 63
      → s.last_processed_withdrawals_at_ms / 1000 + 60 ≤ now
      → (process_replay_withdrawal_proof c
          (record {
            index = length sent;
            value = output.sighash;
            siblings = s.sent_transactions_tree.next_siblings;
          })
          now
          (update_for_withdrawal c output root next s)).0
        ≡ ok true
  unfolding process_replay_withdrawal_proof update_for_withdrawal
  last_sent_is_replayed output root next now s sent table h room stamp late =
      let path =
        compute_merkle_root-appended (sha256_hasher c) table s.sent_transactions_tree sent
          output.sighash room h in
      let same =
        bytes_eq_refl
          (append (sha256_hasher c) output.sighash s.sent_transactions_tree).current_root in
      let in_time : ltb now ((s.last_processed_withdrawals_at_ms / 1000 + 60) % 2 ^ 64) ≡ false =
        ground (arith, late, stamp) in
      rw (process_replay_withdrawal_proof, path, same, in_time)
