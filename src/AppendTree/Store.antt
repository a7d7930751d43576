-- ===== src/AppendTree/Store.antt =====
-- What the stored siblings mean: at each level where the next index is odd, the node to the left of
-- the next one; and what the loop of `append` makes of them.
use native.Mathlib.Nat.{pow-suc}
use psy_doge_solana_bridge.Prelude.{
  ℕ, suc, ◌+◌, ◌-◌, ◌*◌, ◌/◌, ◌%◌, ◌^◌, ◌<◌, ◌≤◌, ◌≡◌, refl, ap, ◌∙◌, inl, inr, List, [], ◌∷◌,
  arith, bit_xor, length, ◌==◌, Bool-cases,
}
use psy_doge_solana_bridge.Prelude.Bits.{bit_xor-next_even, bit_xor-next_odd}
use psy_doge_solana_bridge.Merkle.{MerkleHasher, IsZeroTable, merkle_root_loop}
use psy_doge_solana_bridge.Merkle.Tree.{parents, full_root}
use psy_doge_solana_bridge.AppendTree.{update_siblings_loop}

half-lt-pow : (n k : ℕ) → n < 2 ^ suc k → n / 2 < 2 ^ k
half-lt-pow n k h = let b : n < 2 ^ k * 2 = rw pow-suc at h in omega arith

module _ {H : Type 0} (m : MerkleHasher H) where
  -- The siblings from `level` on belong to a tree whose first `n` nodes at that level are `nodes`.
  abbrev pub Store : ℕ → List H → ℕ → (ℕ → H) → Type 0
  Store level [] n nodes = Unit
  Store level (sibling ∷ siblings) n nodes =
      (n % 2 ≡ 1 → sibling ≡ nodes (n - 1))
      × (n % 2 ≡ 0 → sibling ≡ m.zero_hashes level)
      × Store (suc level) siblings (n / 2) (parents m nodes)

  -- Nodes that agree up to the `n` filled ones store alike.
  pub Store-agree :
      (level : ℕ) (siblings : List H) (n : ℕ) (f g : ℕ → H)
      → ((k : ℕ) → k < n → f k ≡ g k)
      → Store level siblings n f
      → Store level siblings n g
  Store-agree level [] n f g agree store = tt
  Store-agree level (sibling ∷ siblings) n f g agree (odd, even, rest) = (
    λ e. odd e ∙ agree (n - 1) (omega arith),
    even,
    Store-agree (suc level) siblings (n / 2) (parents m f) (parents m g)
        (λ k h. cc (agree (k + k) (omega arith), agree (k + k + 1) (omega arith))) rest,
  )

  parent_of_right :
      (n : ℕ) (nodes : ℕ → H)
      → n % 2 ≡ 1
      → m.two_to_one (nodes (n - 1)) (nodes n) ≡ parents m nodes (n / 2)
  parent_of_right n nodes e =
      let a : n / 2 + n / 2 ≡ n - 1 = omega arith in
      let b : n - 1 + 1 ≡ n = omega arith in cc (ap nodes a, ap (λ t. nodes (t + 1)) a, ap nodes b)

  module _ (table : IsZeroTable m) where
    -- The nodes from `n` on are roots of empty trees.
    abbrev EmptyFrom : ℕ → ℕ → (ℕ → H) → Type 0
    EmptyFrom level n nodes = (k : ℕ) → n ≤ k → nodes k ≡ m.zero_hashes level

    EmptyFrom-parents :
        (level n : ℕ) (nodes : ℕ → H)
        → EmptyFrom level (suc n) nodes
        → EmptyFrom (suc level) (suc (n / 2)) (parents m nodes)
    EmptyFrom-parents level n nodes empty k h =
        cc (empty (k + k) (omega arith), empty (k + k + 1) (omega arith), table level)

    -- One step up the path from the next node: its parent is the next node one level up.
    parent_of_left :
        (level n : ℕ) (nodes : ℕ → H)
        → EmptyFrom level (suc n) nodes
        → n % 2 ≡ 0
        → m.two_to_one (nodes n) (m.zero_hashes level) ≡ parents m nodes (n / 2)
    parent_of_left level n nodes empty e =
        let a : n / 2 + n / 2 ≡ n = omega arith in
        cc (ap nodes a, ap (λ t. nodes (t + 1)) a, empty (n + 1) (omega arith))

    -- The root that `append` computes is the root of the whole tree.
    pub update_siblings_loop_root :
        (level : ℕ) (siblings : List H) (n changes : ℕ) (nodes : ℕ → H)
        → Store level siblings n nodes
        → EmptyFrom level (suc n) nodes
        → n < 2 ^ length siblings
        → (update_siblings_loop m level siblings (nodes n) n changes).0
          ≡ full_root m (length siblings) nodes
    unfolding update_siblings_loop full_root
    update_siblings_loop_root level [] n changes nodes store empty h =
        cc (ap nodes (let z : n ≡ 0 = omega arith in z))
    update_siblings_loop_root level (sibling ∷ siblings) n changes nodes store empty h =
        elim (Bool-cases (n % 2 == 0)) [
          | inl even ↦
              rw (even, parent_of_left level n nodes empty (ground arith))
                (update_siblings_loop_root (suc level) siblings (n / 2) (changes / 2)
                  (parents m nodes) store.2 (EmptyFrom-parents level n nodes empty)
                  (half-lt-pow n (length siblings) h))
          | inr odd ↦
              let e : n % 2 ≡ 1 = ground arith in
              rw (odd, store.0 e, parent_of_right n nodes e)
                (update_siblings_loop_root (suc level) siblings (n / 2) (changes / 2)
                  (parents m nodes) store.2 (EmptyFrom-parents level n nodes empty)
                  (half-lt-pow n (length siblings) h))
        ]

    -- The path from the next leaf leads to the root, whether that leaf is empty or not.
    pub merkle_root_loop-Store :
        (level : ℕ) (siblings : List H) (n : ℕ) (nodes : ℕ → H)
        → Store level siblings n nodes
        → EmptyFrom level (suc n) nodes
        → n < 2 ^ length siblings
        → merkle_root_loop m (nodes n) n siblings ≡ (full_root m (length siblings) nodes, 0)
    unfolding merkle_root_loop full_root
    merkle_root_loop-Store level [] n nodes store empty h = let z : n ≡ 0 = omega arith in rw z
    merkle_root_loop-Store level (sibling ∷ siblings) n nodes store empty h =
        elim (Bool-cases (n % 2 == 0)) [
          | inl even ↦
              let e : n % 2 ≡ 0 = ground arith in
              rw (even, store.1 e, parent_of_left level n nodes empty e)
                (merkle_root_loop-Store (suc level) siblings (n / 2) (parents m nodes) store.2
                  (EmptyFrom-parents level n nodes empty) (half-lt-pow n (length siblings) h))
          | inr odd ↦
              let e : n % 2 ≡ 1 = ground arith in
              rw (odd, store.0 e, parent_of_right n nodes e)
                (merkle_root_loop-Store (suc level) siblings (n / 2) (parents m nodes) store.2
                  (EmptyFrom-parents level n nodes empty) (half-lt-pow n (length siblings) h))
        ]

  no_changes :
      (level : ℕ) (siblings : List H) (current : H) (n : ℕ)
      → (update_siblings_loop m level siblings current n 0).1 ≡ siblings
  unfolding update_siblings_loop
  no_changes level [] current n = refl
  no_changes level (sibling ∷ siblings) current n = cc (no_changes (suc level) siblings _ (n / 2))

  -- The siblings after `append` belong to the tree with one more leaf.
  pub update_siblings_loop-Store :
      (level : ℕ) (siblings : List H) (n : ℕ) (nodes : ℕ → H)
      → Store level siblings n nodes
      → Store level
          (update_siblings_loop m level siblings (nodes n) n (bit_xor n (n + 1))).1
          (n + 1)
          nodes
  unfolding update_siblings_loop
  update_siblings_loop-Store level [] n nodes store = tt
  update_siblings_loop-Store level (sibling ∷ siblings) n nodes store =
      elim (Bool-cases (n % 2 == 0)) [
        | inl even ↦
            let e : n % 2 ≡ 0 = ground arith in
            let x : bit_xor n (n + 1) ≡ 1 = bit_xor-next_even n e in
            let half : (n + 1) / 2 ≡ n / 2 = omega arith in
            let last : n + 1 - 1 ≡ n = omega arith in
            rw (x, even, no_changes (suc level) siblings _ (n / 2), half, last)
              (λ _. refl, λ f. absurd (omega arith), store.2)
        | inr odd ↦
            let e : n % 2 ≡ 1 = ground arith in
            let x : bit_xor n (n + 1) ≡ bit_xor (n / 2) (n / 2 + 1) * 2 + 1 =
              bit_xor-next_odd n e in
            let low : (bit_xor (n / 2) (n / 2 + 1) * 2 + 1) % 2 ≡ 1 = omega arith in
            let high : (bit_xor (n / 2) (n / 2 + 1) * 2 + 1) / 2 ≡ bit_xor (n / 2) (n / 2 + 1) =
              omega arith in
            let half : (n + 1) / 2 ≡ n / 2 + 1 = omega arith in
            rw (x, low, high, odd, store.0 e, parent_of_right n nodes e, half)
              (
                λ f. absurd (omega arith),
                λ _. refl,
                update_siblings_loop-Store (suc level) siblings (n / 2) (parents m nodes) store.2,
              )
      ]
