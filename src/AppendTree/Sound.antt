-- ===== src/AppendTree/Sound.antt =====
-- What a verified path shows, for a hash without collisions.
use psy_doge_solana_bridge.Prelude.{
  ℕ, zero, suc, ◌+◌, ◌*◌, ◌/◌, ◌%◌, ◌^◌, ◌<◌, ◌≡◌, ◌≢◌, sym, ap, ◌∙◌, inl, inr, List, [], ◌∷◌, some,
  arith, length, get_or, get_elem?, ◌==◌, if◌then◌else◌, Bool-cases,
}
use native.Mathlib.Nat.{pow-suc}
use psy_doge_solana_bridge.Errors.{ok}
use psy_doge_solana_bridge.Merkle.{MerkleHasher, compute_merkle_root, merkle_root_loop}
use psy_doge_solana_bridge.Merkle.Tree.{leaves, full_root, parents}
use psy_doge_solana_bridge.AppendTree.{FixedMerkleAppendTree, tree_height}
use psy_doge_solana_bridge.AppendTree.Holds.{Holds}

-- The compression function has no collisions: what is assumed of SHA-256.
abbrev pub IsCollisionFree : {H : Type 0} → MerkleHasher H → Type 0
IsCollisionFree {H} m = (a b c d : H) → m.two_to_one a b ≡ m.two_to_one c d → (a ≡ c) × (b ≡ d)

get_elem?-get_or {ℓ} :
    {A : Type ℓ} (xs : List A) (i : ℕ) (d v : A)
    → v ≡ get_or xs i d
    → v ≢ d
    → get_elem? xs i ≡ some v
get_elem?-get_or [] i d v e n = absurd (n e)
get_elem?-get_or (x ∷ xs) zero d v e n = ap some (sym e)
get_elem?-get_or (x ∷ xs) (suc i) d v e n = get_elem?-get_or xs i d v e n

module _ {H : Type 0} (m : MerkleHasher H) where
  loop_ends :
      (value : H) (index : ℕ) (siblings : List H)
      → (merkle_root_loop m value index siblings).1 ≡ 0
      → index < 2 ^ length siblings
  unfolding merkle_root_loop
  loop_ends value index [] e = omega arith
  loop_ends value index (sibling ∷ siblings) e =
      let half =
        loop_ends
          (if index % 2 == 0 then m.two_to_one value sibling else m.two_to_one sibling value)
          (index / 2) siblings e in
      rw (pow-suc 2 (length siblings)) (omega arith)

  accepted_loop :
      (value : H) (index : ℕ) (siblings : List H) (root : H)
      → compute_merkle_root m value index siblings ≡ ok root
      → ((merkle_root_loop m value index siblings).0 ≡ root)
        × ((merkle_root_loop m value index siblings).1 ≡ 0)
  unfolding compute_merkle_root
  accepted_loop value index siblings root e = ground arith

  module _ (free : IsCollisionFree m) where
    loop_sound :
        (value : H) (index : ℕ) (siblings : List H) (nodes : ℕ → H)
        → index < 2 ^ length siblings
        → (merkle_root_loop m value index siblings).0 ≡ full_root m (length siblings) nodes
        → value ≡ nodes index
    unfolding merkle_root_loop full_root
    loop_sound value index [] nodes h e = let z : index ≡ 0 = omega arith in e ∙ ap nodes (sym z)
    loop_sound value index (sibling ∷ siblings) nodes h e =
        let b : index < 2 ^ length siblings * 2 = rw pow-suc at h in
        let up =
          loop_sound
            (if index % 2 == 0 then m.two_to_one value sibling else m.two_to_one sibling value)
            (index / 2) siblings (parents m nodes) (omega arith) e in
        elim (Bool-cases (index % 2 == 0)) [
          | inl even ↦
              let i : index / 2 + index / 2 ≡ index = ground arith in
              (free _ _ _ _ (rw even at up)).0 ∙ ap nodes i
          | inr odd ↦
              let i : index / 2 + index / 2 + 1 ≡ index = ground arith in
              (free _ _ _ _ (rw odd at up)).1 ∙ ap nodes i
        ]

    -- Where a path of 32 siblings leads to the root of the tree, the value that it starts from is
    -- the leaf at its index, unless it is the empty leaf.
    pub accepted_path_is_leaf :
        (tree : FixedMerkleAppendTree H) (xs : List H) (value : H) (index : ℕ) (siblings : List H)
        → Holds m tree xs
        → length siblings ≡ tree_height
        → compute_merkle_root m value index siblings ≡ ok tree.current_root
        → value ≢ m.zero_hashes 0
        → get_elem? xs index ≡ some value
    accepted_path_is_leaf tree xs value index siblings h height accepted filled =
        let (root, rest) = accepted_loop value index siblings tree.current_root accepted in
        let found : value ≡ get_or xs index (m.zero_hashes 0) =
          loop_sound value index siblings (leaves m xs) (loop_ends value index siblings rest)
            (root ∙ h.root ∙ ap (λ k. full_root m k (leaves m xs)) (sym height)) in
        get_elem?-get_or xs index (m.zero_hashes 0) value found filled
