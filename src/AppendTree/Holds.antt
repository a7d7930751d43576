-- ===== src/AppendTree/Holds.antt =====
-- The contract of `FixedMerkleAppendTree`: it stands for a list of leaves, and its root is that of
-- the whole tree of height 32 over them.
use mathlib.Core.Path.{subst₂}
use psy_doge_solana_bridge.Prelude.{
  inl, inr, ◌==◌, Bool-cases, ◌-◌, ◌/◌, ℕ, zero, suc, ◌+◌, ◌%◌, ◌^◌, ◌<◌, ◌≤◌, ◌≡◌, refl, sym, ap,
  ◌∙◌, List, [], ◌∷◌, ◌++◌, arith, length, length-append, get_or, bit_xor,
}
use psy_doge_solana_bridge.Merkle.{MerkleHasher, IsZeroTable}
use psy_doge_solana_bridge.Merkle.Tree.{parents, full_root, leaves, tree_root}
use psy_doge_solana_bridge.AppendTree.{
  FixedMerkleAppendTree, tree_height, from_fn, new_empty, append,
  update_siblings_append_merkle_tree, update_siblings_loop,
}
use psy_doge_solana_bridge.AppendTree.Store.{
  Store, Store-agree, update_siblings_loop_root, update_siblings_loop-Store,
}

pub get_or-append_lt {ℓ} :
    {A : Type ℓ} (xs ys : List A) (k : ℕ) (d : A)
    → k < length xs
    → get_or xs k d ≡ get_or (xs ++ ys) k d
get_or-append_lt [] ys k d h = elim h [ ]
get_or-append_lt (x ∷ xs) ys zero d h = refl
get_or-append_lt (x ∷ xs) ys (suc k) d h = get_or-append_lt xs ys k d (omega arith)

pub get_or-append_last {ℓ} :
    {A : Type ℓ} (xs : List A) (v d : A) → get_or (xs ++ v ∷ []) (length xs) d ≡ v
get_or-append_last [] v d = refl
get_or-append_last (x ∷ xs) v d = get_or-append_last xs v d

pub get_or_beyond {ℓ} :
    {A : Type ℓ} (xs : List A) (k : ℕ) (d : A) → length xs ≤ k → get_or xs k d ≡ d
get_or_beyond [] k d h = refl
get_or_beyond (x ∷ xs) zero d h = absurd (omega arith)
get_or_beyond (x ∷ xs) (suc k) d h = get_or_beyond xs k d (omega arith)

length-update_siblings_loop :
    {H : Type 0} (m : MerkleHasher H) (level : ℕ) (siblings : List H) (current : H) (n changes : ℕ)
    → length (update_siblings_loop m level siblings current n changes).1 ≡ length siblings
unfolding update_siblings_loop
length-update_siblings_loop m level [] current n changes = refl
length-update_siblings_loop m level (sibling ∷ siblings) current n changes =
    ap suc (length-update_siblings_loop m (suc level) siblings _ _ _)

module _ {H : Type 0} (m : MerkleHasher H) where
  -- The tree stands for the leaves `xs`.
  pub record Holds (tree : FixedMerkleAppendTree H) (xs : List H) : Type 0 where
    pub counted : tree.next_index ≡ length xs
    pub height : length tree.next_siblings ≡ tree_height
    pub root : tree.current_root ≡ tree_root m tree_height xs
    pub stored : Store m 0 tree.next_siblings (length xs) (leaves m xs)

  -- The nodes decide what is stored.
  pub Store-unique :
      (level : ℕ) (ss ts : List H) (n : ℕ) (f g : ℕ → H)
      → length ss ≡ length ts
      → ((k : ℕ) → k < n → f k ≡ g k)
      → Store m level ss n f
      → Store m level ts n g
      → ss ≡ ts
  Store-unique level [] [] n f g e agree a b = refl
  Store-unique level [] (t ∷ ts) n f g e agree a b = absurd (omega arith)
  Store-unique level (s ∷ ss) [] n f g e agree a b = absurd (omega arith)
  Store-unique level (s ∷ ss) (t ∷ ts) n f g e agree a b =
      let rest =
        Store-unique (suc level) ss ts (n / 2) (parents m f) (parents m g) (omega arith)
          (λ k h. cc (agree (k + k) (omega arith), agree (k + k + 1) (omega arith))) a.2 b.2 in
      elim (Bool-cases (n % 2 == 1)) [
        | inl odd ↦
            let o : n % 2 ≡ 1 = ground arith in cc (rest, a.0 o, b.0 o, agree (n - 1) (omega arith))
        | inr even ↦ let o : n % 2 ≡ 0 = ground arith in cc (rest, a.1 o, b.1 o)
      ]

  -- The leaves decide the tree.
  pub Holds-unique : (s t : FixedMerkleAppendTree H) (xs : List H) → Holds s xs → Holds t xs → s ≡ t
  Holds-unique s t xs h g =
      let siblings =
        Store-unique 0 s.next_siblings t.next_siblings (length xs) (leaves m xs) (leaves m xs)
          (h.height ∙ sym g.height) (λ k lt. refl) h.stored g.stored in
      λ i. record {
        next_index = (h.counted ∙ sym g.counted) i;
        current_root = (h.root ∙ sym g.root) i;
        next_siblings = siblings i;
      }

  full_root_empty :
      IsZeroTable m
      → (height level : ℕ) (nodes : ℕ → H) → ((k : ℕ) → nodes k ≡ m.zero_hashes level)
      → full_root m height nodes ≡ m.zero_hashes (level + height)
  unfolding full_root
  full_root_empty table zero level nodes empty = empty 0 ∙ ap m.zero_hashes (omega arith)
  full_root_empty table (suc height) level nodes empty =
      full_root_empty table height (suc level) (parents m nodes)
        (λ k. cc (empty (k + k), empty (k + k + 1), table level))
      ∙ ap m.zero_hashes (omega arith)

  Store-empty :
      (height level : ℕ) (f nodes : ℕ → H)
      → ((i : ℕ) → f i ≡ m.zero_hashes (level + i))
      → Store m level (from_fn height f) 0 nodes
  unfolding from_fn
  Store-empty zero level f nodes zeros = tt
  Store-empty (suc height) level f nodes zeros = (
    λ e. absurd (omega arith),
    λ _. zeros 0 ∙ ap m.zero_hashes (omega arith),
    Store-empty height (suc level) (λ i. f (suc i)) (parents m nodes)
        (λ i. zeros (suc i) ∙ ap m.zero_hashes (omega arith)),
  )

  length-from_fn : (height : ℕ) (f : ℕ → H) → length (from_fn height f) ≡ height
  unfolding from_fn
  length-from_fn zero f = refl
  length-from_fn (suc height) f = ap suc (length-from_fn height (λ i. f (suc i)))

  module _ (table : IsZeroTable m) where
    -- The empty tree stands for no leaves.
    pub new_empty-Holds : Holds (new_empty m) []
    unfolding new_empty
    new_empty-Holds = record {
      counted = refl;
      height = length-from_fn tree_height m.zero_hashes;
      root = sym (full_root_empty table tree_height 0 (leaves m []) (λ k. refl));
      stored =
          Store-empty tree_height 0 m.zero_hashes (leaves m [])
            (λ i. ap m.zero_hashes (omega arith));
    }

    pub new_empty_unique :
        (tree : FixedMerkleAppendTree H) (xs : List H)
        → Holds tree xs
        → tree.next_index ≡ 0
        → tree ≡ new_empty m
    new_empty_unique tree [] h e = Holds-unique tree (new_empty m) [] h new_empty-Holds
    new_empty_unique tree (x ∷ xs) h e = absurd (omega (arith, h.counted))

    -- What `append` computes, in terms of the nodes of the tree that it leads to.
    append_step :
        (tree : FixedMerkleAppendTree H) (n : ℕ) (nodes : ℕ → H) {v : H}
        → n < 2 ^ tree_height
        → tree.next_index ≡ n
        → nodes n ≡ v
        → update_siblings_append_merkle_tree m tree.next_siblings v tree.next_index
          ≡ update_siblings_loop m 0 tree.next_siblings (nodes n) n (bit_xor n (n + 1))
    unfolding update_siblings_append_merkle_tree
    append_step tree n nodes room counted new =
        let bound : (n + 1) % 2 ^ 64 ≡ n + 1 = omega arith in rw (counted, bound, new)

    -- After `append` the tree stands for the leaves with the new one at their end, while there is
    -- room for it among the 2 ^ 32 leaves.
    pub append-Holds :
        (tree : FixedMerkleAppendTree H) (xs : List H) (v : H)
        → length xs < 2 ^ tree_height
        → Holds tree xs
        → Holds (append m v tree) (xs ++ v ∷ [])
    unfolding append
    append-Holds tree xs v room h =
        let n = length xs in
        let nodes = leaves m (xs ++ v ∷ []) in
        let grown : length (xs ++ v ∷ []) ≡ n + 1 = length-append xs (v ∷ []) in
        let store : Store m 0 tree.next_siblings n nodes =
          Store-agree m 0 tree.next_siblings n (leaves m xs) nodes
            (λ k lt. get_or-append_lt xs (v ∷ []) k (m.zero_hashes 0) lt) h.stored in
        let step =
          append_step tree n nodes room h.counted (get_or-append_last xs v (m.zero_hashes 0)) in
        let bound : (n + 1) % 2 ^ 64 ≡ n + 1 = omega arith in
        record {
          counted = rw (h.counted, bound) (sym grown);
          height =
              ap (λ p. length p.1) step
              ∙ length-update_siblings_loop m 0 tree.next_siblings (nodes n) n (bit_xor n (n + 1))
              ∙ h.height;
          root =
              ap (λ p. p.0) step
              ∙ update_siblings_loop_root m table 0 tree.next_siblings n (bit_xor n (n + 1)) nodes
                  store
                  (λ k lt. get_or_beyond (xs ++ v ∷ []) k (m.zero_hashes 0) (omega (arith, grown)))
                  (rw h.height room)
              ∙ ap (λ k. full_root m k nodes) h.height;
          stored =
              subst₂ (λ p k. Store m 0 p.1 k nodes) (sym step) (sym grown)
                (update_siblings_loop-Store m 0 tree.next_siblings n nodes store);
        }
