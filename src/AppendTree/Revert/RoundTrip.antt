-- ===== src/AppendTree/Revert/RoundTrip.antt =====
-- A tree that grew can be taken back: the siblings that the earlier tree hands over suffice.
use psy_doge_solana_bridge.Prelude.{
  ℕ, suc, ◌+◌, ◌/◌, ◌%◌, ◌^◌, ◌<◌, ◌≡◌, refl, sym, ap, ◌∙◌, inl, inr, false, ◌||◌, leb, List, [],
  ◌∷◌, ◌++◌, arith, bit_xor, length, length-append, ◌==◌, Bool-cases,
}
use psy_doge_solana_bridge.Prelude.Bits.{bit_xor_half, bit_xor-eq_zero}
use psy_doge_solana_bridge.Errors.{ok}
use psy_doge_solana_bridge.Merkle.{MerkleHasher, IsZeroTable}
use psy_doge_solana_bridge.Merkle.Tree.{parents, leaves}
use psy_doge_solana_bridge.AppendTree.{FixedMerkleAppendTree, tree_height}
use psy_doge_solana_bridge.AppendTree.Store.{Store}
use psy_doge_solana_bridge.AppendTree.Holds.{
  Holds, get_or-append_lt, Store-unique, new_empty_unique,
}
use psy_doge_solana_bridge.AppendTree.Path.{compute_merkle_root-stored}
use psy_doge_solana_bridge.AppendTree.Revert.{
  changed_left_siblings, get_changed_next_siblings_for_revert, revert_siblings_loop, revert_finish,
  revert_to_next_index,
}

module _ {H : Type 0} (m : MerkleHasher H) where
  revert_siblings_loop_restores :
      (level : ℕ) (ss ts : List H) (t n : ℕ) (f g : ℕ → H)
      → length ss ≡ length ts
      → ((k : ℕ) → k < t → f k ≡ g k)
      → Store m level ss n f
      → Store m level ts t g
      → revert_siblings_loop m level ss t (bit_xor t n) (changed_left_siblings t (bit_xor t n) ts)
        ≡ (ok tt, ts)
  unfolding revert_siblings_loop changed_left_siblings
  revert_siblings_loop_restores level [] [] t n f g e agree a b = refl
  revert_siblings_loop_restores level [] (y ∷ ts) t n f g e agree a b = absurd (omega arith)
  revert_siblings_loop_restores level (x ∷ ss) [] t n f g e agree a b = absurd (omega arith)
  revert_siblings_loop_restores level (x ∷ ss) (y ∷ ts) t n f g e agree a b =
      let half = bit_xor_half t n in
      let rest =
        revert_siblings_loop_restores (suc level) ss ts (t / 2) (n / 2) (parents m f) (parents m g)
          (omega arith) (λ k h. cc (agree (k + k) (omega arith), agree (k + k + 1) (omega arith)))
          a.2 b.2 in
      elim (Bool-cases (bit_xor t n == 0)) [
        | inl same ↦
            let z : bit_xor t n ≡ 0 = ground arith in
            let q : t ≡ n = bit_xor-eq_zero t n z in
            rw (same) (
              ap (λ l. (ok tt, l))
                (Store-unique m level (x ∷ ss) (y ∷ ts) n f g e (rw q at agree) a (rw q at b)))
        | inr differ ↦ elim (Bool-cases (t % 2 == 1)) [
          | inl odd ↦ rw (differ, odd, half, rest)
          | inr even ↦ let o : t % 2 ≡ 0 = ground arith in rw (differ, even, half, rest, b.1 o)
        ]
      ]

  module _ (table : IsZeroTable m) where
    -- Where a tree that stands for `xs ++ ys` is taken back with the siblings that the tree of `xs`
    -- hands over, the result is that tree.
    pub revert_restores :
        (old tree : FixedMerkleAppendTree H) (xs ys : List H)
        → 0 < length ys
        → length xs < 2 ^ tree_height
        → Holds m old xs
        → Holds m tree (xs ++ ys)
        → (changed : List H) × (get_changed_next_siblings_for_revert tree.next_index old.next_index
              old.next_siblings
            ≡ ok changed)
          × (revert_to_next_index m old.next_index changed tree ≡ (ok tt, old))
    unfolding get_changed_next_siblings_for_revert revert_to_next_index
    revert_restores old tree xs ys more room h g =
        let fewer : old.next_index < tree.next_index =
          omega (arith, h.counted, g.counted, length-append xs ys) in
        let test : (tree.next_index == 0 || leb tree.next_index old.next_index) ≡ false =
          ground arith in
        let changed =
          changed_left_siblings old.next_index (bit_xor old.next_index tree.next_index)
            old.next_siblings in
        let restored : revert_siblings_loop m 0 tree.next_siblings old.next_index
              (bit_xor old.next_index tree.next_index) changed
            ≡ (ok tt, old.next_siblings) =
          rw (h.counted, g.counted)
            (revert_siblings_loop_restores 0 tree.next_siblings old.next_siblings (length xs)
              (length (xs ++ ys)) (leaves m (xs ++ ys)) (leaves m xs) (g.height ∙ sym h.height)
              (λ k lt. sym (get_or-append_lt xs ys k (m.zero_hashes 0) lt)) g.stored h.stored) in
        (
          changed,
          rw test,
          elim (Bool-cases (old.next_index == 0)) [
            | inl none_left ↦
                rw (test, none_left)
                  (ap (λ t. (ok tt, t)) (sym (new_empty_unique m table old xs h (ground arith))))
            | inr some_left ↦ rw (
              test,
              some_left,
              restored,
              compute_merkle_root-stored m table old xs room h,
              revert_finish,
            )
          ],
        )
