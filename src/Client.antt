-- ===== src/Client.antt =====
-- The client's buffer manager, clients/rust/src/buffer_manager.rs: the data that a buffer is to hold
-- is written chunk by chunk.
pub mod TxoBuffer
use psy_doge_solana_bridge.Prelude.{
  ℕ, zero, suc, ◌+◌, ◌-◌, ◌≤◌, ◌≡◌, refl, ap, sym, ◌∙◌, List, [], ◌∷◌, ◌++◌, arith, length, take,
  drop, length-append, length-take, drop_twice,
}
use psy_doge_solana_bridge.Bytes.Laws.{take-append_length, drop-append_length}
use psy_doge_solana_bridge.Bytes.Write.{write_at}

abbrev pub chunk_size : ℕ
chunk_size = 900

-- `bytes.chunks(CHUNK_SIZE)`, on as much fuel as there are bytes.
unfoldable pub chunks : ℕ → List ℕ → List (List ℕ)
chunks zero bytes = []
chunks (suc fuel) [] = []
chunks (suc fuel) (b ∷ bytes) =
    take chunk_size (b ∷ bytes) ∷ chunks fuel (drop chunk_size (b ∷ bytes))

pub append_assoc : (xs ys zs : List ℕ) → (xs ++ ys) ++ zs ≡ xs ++ (ys ++ zs)
append_assoc [] ys zs = refl
append_assoc (x ∷ xs) ys zs = ap (λ t. x ∷ t) (append_assoc xs ys zs)

-- A chunk is written behind what is written already.
pub write_at-append :
    (written chunk old : List ℕ)
    → write_at (length written) chunk (written ++ old)
      ≡ (written ++ chunk) ++ drop (length chunk) old
unfolding write_at
write_at-append written chunk old =
    let before = take-append_length (length written) written old refl in
    let behind : drop (length written + length chunk) (written ++ old) ≡ drop (length chunk) old =
      drop_twice (length written) (length chunk) (written ++ old)
      ∙ ap (drop (length chunk)) (drop-append_length (length written) written old refl) in
    rw before (rw behind (sym (append_assoc written chunk (drop (length chunk) old))))
