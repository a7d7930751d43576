-- ===== src/Merkle.antt =====
-- Merkle roots from a leaf and its siblings: crypto/hash/traits.rs, crypto/hash/sha256_impl.rs and
-- crypto/hash/merkle/utils.rs of libraries/psy-bridge-core.
pub mod Tree
pub mod Agree
use psy_doge_solana_bridge.Prelude.{
  ℕ, suc, ◌/◌, ◌%◌, ◌≡◌, Bool, true, false, List, [], ◌∷◌, length, leb, ◌==◌, if◌then◌else◌,
}
use psy_doge_solana_bridge.Errors.{Result, ok, panic}

-- The trait `MerkleHasher`, with the table of the roots of empty trees that the source holds as
-- `SHA256_ZERO_HASHES`.
pub record MerkleHasher (H : Type 0) : Type 0 where
  pub two_to_one : H → H → H
  pub zero_hashes : ℕ → H

-- The table of `MerkleHasher` holds the root of an empty tree at each height.
abbrev pub IsZeroTable : {H : Type 0} → MerkleHasher H → Type 0
IsZeroTable m = (i : ℕ) → m.two_to_one (m.zero_hashes i) (m.zero_hashes i) ≡ m.zero_hashes (suc i)

module _ {H : Type 0} (m : MerkleHasher H) where
  unfoldable pub two_to_one_swap : Bool → H → H → H
  two_to_one_swap swap left right =
      if swap then m.two_to_one right left else m.two_to_one left right

  -- The loop of `hash_impl_sha256_compute_merkle_root`: the hash and what is left of the index.
  unfoldable pub merkle_root_loop : H → ℕ → List H → H × ℕ
  merkle_root_loop current idx [] = (current, idx)
  merkle_root_loop current idx (sibling ∷ siblings) =
      merkle_root_loop
        (if idx % 2 == 0 then m.two_to_one current sibling else m.two_to_one sibling current)
        (idx / 2) siblings

  -- The two assertions are panics.
  unfoldable pub compute_merkle_root : H → ℕ → List H → Result H
  compute_merkle_root value index siblings =
      let (current, idx) = merkle_root_loop value index siblings in
      if leb (length siblings) 64 then if idx == 0 then ok current else panic else panic

  -- `compute_root_merkle_proof_generic`, which reads as many digits as there are siblings.
  unfoldable pub compute_root_merkle_proof_generic : H → ℕ → List H → H
  unfolding two_to_one_swap
  compute_root_merkle_proof_generic value index [] = value
  compute_root_merkle_proof_generic value index (sibling ∷ siblings) =
      compute_root_merkle_proof_generic (two_to_one_swap (index % 2 == 1) value sibling) (index / 2)
        siblings

  -- `iterate_merkle_hasher`.
  unfoldable pub iterate_merkle_hasher : H → ℕ → H
  iterate_merkle_hasher current ℕ.zero = current
  iterate_merkle_hasher current (suc reverse_level) =
      iterate_merkle_hasher (m.two_to_one current current) reverse_level

-- `DeltaMerkleProofCore`: a leaf before and after a write, with the roots before and after.
pub record DeltaMerkleProof (H : Type 0) : Type 0 where
  pub old_root : H
  pub old_value : H
  pub new_root : H
  pub new_value : H
  pub index : ℕ
  pub siblings : List H

module _ {H : Type 0} (m : MerkleHasher H) where
  -- `DeltaMerkleProofCore::from_params`.
  unfoldable pub from_params : ℕ → H → H → List H → DeltaMerkleProof H
  from_params index old_value new_value siblings = record {
    old_root = compute_root_merkle_proof_generic m old_value index siblings;
    old_value = old_value;
    new_root = compute_root_merkle_proof_generic m new_value index siblings;
    new_value = new_value;
    index = index;
    siblings = siblings;
  }
