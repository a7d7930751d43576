-- ===== src/Merkle/Agree.antt =====
-- The two ways in which the source computes a root from a path give the same root.
use psy_doge_solana_bridge.Prelude.{
  ℕ, ◌/◌, ◌%◌, ◌≡◌, refl, ◌∙◌, ap, List, [], ◌∷◌, arith, ◌==◌, if◌then◌else◌,
}
use psy_doge_solana_bridge.Merkle.{
  MerkleHasher, two_to_one_swap, merkle_root_loop, compute_root_merkle_proof_generic,
}

module _ {H : Type 0} (m : MerkleHasher H) where
  two_to_one_swap_lem :
      (index : ℕ) (a b : H)
      → two_to_one_swap m (index % 2 == 1) a b
        ≡ (if index % 2 == 0 then m.two_to_one a b else m.two_to_one b a)
  unfolding two_to_one_swap
  two_to_one_swap_lem index a b = ground arith

  pub compute_root_merkle_proof_generic-merkle_root_loop :
      (value : H) (index : ℕ) (siblings : List H)
      → compute_root_merkle_proof_generic m value index siblings
        ≡ (merkle_root_loop m value index siblings).0
  unfolding compute_root_merkle_proof_generic merkle_root_loop
  compute_root_merkle_proof_generic-merkle_root_loop value index [] = refl
  compute_root_merkle_proof_generic-merkle_root_loop value index (sibling ∷ siblings) =
      ap (λ x. compute_root_merkle_proof_generic m x (index / 2) siblings)
        (two_to_one_swap_lem index value sibling)
      ∙ compute_root_merkle_proof_generic-merkle_root_loop
          (if index % 2 == 0 then m.two_to_one value sibling else m.two_to_one sibling value)
          (index / 2) siblings
