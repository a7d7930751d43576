-- ===== src/Lib.antt =====
-- The Psy bridge between Dogecoin and Solana: its on-chain core, as definitions and theorems.
--
-- Parts of the program and how they interact. The bridge keeps one state (PsyBridgeProgramState).
-- A block update replaces the header of the bridge after a proof of its correctness, and hands the
-- deposits that the block finalizes, as a buffer of mints divided into groups, to the manager of
-- pending mints. Groups are claimed one by one, and no further block is accepted before the last
-- one is. Deposits that were not minted in this way are claimed by their users against the roots
-- of recent blocks. Requests for withdrawals and sent transactions are leaves of append trees whose
-- roots the proofs refer to; fees are taken on both ways and paid to the operator. The mints and the
-- outputs of a block stand in buffers, accounts of three programs of their own, which an operator
-- fills through the client and which the bridge locks, reads and unlocks.
--
-- Files. Paths are from the root of the repository; CORE is libraries/psy-bridge-core/src and
-- SOLANA is libraries/psy-doge-solana-core/src.
--   Prelude, with Tests, Lists and Bits: names of the libraries, Boolean tests on native numbers,
--     lists indexed by them, and laws of the operations on bits.
--   Errors: DogeBridgeError of CORE/error.rs; QDogeResult with a third case for a panic; methods
--     on `&mut self` as functions from a state to a result and a state.
--   Bytes: byte arrays as lists of numbers, little-endian integers.
--   Merkle: CORE/crypto/hash/traits.rs, sha256_impl.rs, merkle/utils.rs and delta_merkle_proof.rs;
--     Merkle.Tree is the full tree that the others are compared with.
--   AppendTree: CORE/crypto/hash/merkle/append.rs and fixed_append_tree.rs. Store and Holds are the
--     abstract view, a list of leaves; Path, Sound and Revert are the operations on paths.
--   Txo: CORE/txo_constants.rs.
--   Fees: SOLANA/utils/fees.rs.
--   MintGroups: SOLANA/program_state/mint_group.rs, the tracker of one buffer; Bitmap and Claims
--     are its abstract view, a set of claimed groups; Runs and Orders are sequences of claims as a
--     step relation; Groups is compute_mint_group_info and the offsets of program_state/auto_mint.rs.
--   MintGroups.Manager: the manager of the blocks whose mints wait, same file of the source.
--   Bridge: the data of CORE/header.rs, SOLANA/program_state/core.rs and withdrawal.rs; Inputs is
--     SOLANA/public_inputs/mod.rs; Core is core.rs, proc_withdrawal.rs and operator.rs of
--     SOLANA/program_state; Deposits is deposit.rs; Blocks and Blocks.Reorg are block_update.rs;
--     AutoMint is auto_mint.rs; DepositManager is
--     SOLANA/user_manual_deposit_manager/mod.rs, with CPI helpers of SOLANA/generic_cpi/mod.rs.
--     AutoMint.Mints is the loop of mints, and AutoMint.Committed is about it and the buffer program.
--   Programs: what the programs on Solana share; MintBuffer is
--     programs/pending-mint-buffer/src/lib.rs, TxoBuffer is programs/txo-buffer/src/lib.rs and
--     GenericBuffer is programs/generic-buffer/src/lib.rs. The memory of an account is a header and
--     the bytes behind it. MintBuffer.Filled, Insert, Done and Reach are the invariant of the memory
--     that instructions lead to; Resizes is the repeated growth of an account.
--     DogeBridge is programs/doge-bridge/src/processor.rs, error.rs and cpi_impl.rs, the handlers
--     with their checks of accounts; MintGroup is the one that mints a group, Mints is
--     about its loop; it runs MintBuffer for
--     the call that unlocks the buffer. A withdrawal or its replay, in
--     Replay, returns the data that are sent to the shim. ManualClaim is
--     programs/manual-claim/src/processor.rs and error.rs.
--   Client: create_txo_buffer of clients/rust/src/buffer_manager.rs, with the instructions of
--     clients/rust/src/instructions.rs, run against the program.
--   Examples: the theorems at concrete inputs.
--
-- Names are those of the source in snake case, with its error cases as constructors. Additions
-- wrap around as in a release build, since no Cargo.toml turns overflow checks on; `as` casts and
-- shifts are written with `%`. Subtractions that the source guards are plain. Arrays are lists
-- whose length the theorems assume or keep; an index out of range and a failed assertion are the
-- case `panic`. All loops run over a list or a number, but for the chunks of the client, whose
-- fuel is the number of the bytes, enough since a chunk takes at least one. An error keeps the
-- state as it was left at that point: the runtime discards the accounts of a failed instruction.
--
-- Parameters. SHA-256, the table SHA256_ZERO_HASHES and the verifier of compact proofs are the
-- fields of Bridge.Crypto, a compression function and the table those of Merkle.MerkleHasher;
-- that the table holds the roots of empty trees is the hypothesis IsZeroTable. Calls of the token
-- program are functions to a result, in the programs the fields of DogeBridge.TokenProgram; token
-- addresses, new accounts and called programs of a claim are those of ManualClaim.ClaimRuntime,
-- and RefusesBorrowed is what is documented of calls with borrowed accounts. The runtime and the
-- system program are the fields of Programs.Runtime; what they document is in IsRuntime and
-- MintBuffer.Resizes.AllowsGrowth.
--
-- Not modelled: of doge-bridge the handlers of initialisation, block updates and auto-advance,
-- and the dispatch; the other buffers of the client, revert_to_index and
-- get_merkle_proof_for_current_index, clients and command line, and the layout of account memory
-- beyond the fields that are read, whose alignment is taken for granted.
pub mod Prelude
pub mod Errors
pub mod Bytes
pub mod Merkle
pub mod AppendTree
pub mod Txo
pub mod Fees
pub mod MintGroups
pub mod Bridge
pub mod Client
pub mod Programs
pub mod Examples
