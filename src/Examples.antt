-- ===== src/Examples.antt =====
-- The theorems at concrete inputs.
mod Chain
mod MintBuffer
mod Buffers
mod Minted
mod Processor
mod ManualClaim
mod Replay
mod Group
mod Numbers
mod Mints
mod Trees
mod Requests
mod Claims
mod Blocks
