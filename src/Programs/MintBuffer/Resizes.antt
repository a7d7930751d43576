-- ===== src/Programs/MintBuffer/Resizes.antt =====
-- `Resize` of the buffer of pending mints, repeated until the account has its length.
use psy_doge_solana_bridge.Prelude.{
  ℕ, zero, suc, ◌+◌, ◌-◌, ◌*◌, ◌<◌, ◌≤◌, ◌≡◌, inl, inr, refl, ap, ◌∙◌, true, false, not, List, [],
  ◌∷◌, length, ltb, ◌==◌, arith, Bool-cases, get_elem?,
}
use psy_doge_solana_bridge.Bytes.{bytes_eq}
use psy_doge_solana_bridge.Bytes.Laws.{bytes_eq_refl}
use psy_doge_solana_bridge.Programs.{
  Runtime, IsRuntime, ProgramResult, buffer, header_of, ok, ◌>>=◌, ◌>>◌, fail_if, Signer,
}
use psy_doge_solana_bridge.Programs.MintBuffer.{
  PendingMintsBufferStateHeader, header_size, max_permitted_data_increase, get_total_buffer_size,
}
use psy_doge_solana_bridge.Programs.MintBuffer.Instructions.{
  MintAccounts, Storage, grown_len, verify_writer, realloc_account, resize_account,
  resize_instruction, process_instruction,
}

-- What the runtime documents: a transfer that the sender can pay is made, an account can grow by so
-- much in a call, and a longer account has no smaller rent.
pub record AllowsGrowth (rt : Runtime) : Type 0 where
  pub transfers :
      (amount from to : ℕ)
      → amount ≤ from
      → rt.transfer amount from to ≡ ok (from - amount, to + amount)
  pub reallocs :
      (n : ℕ) (body : List ℕ)
      → n ≤ length body + max_permitted_data_increase
      → (after : List ℕ) × (rt.realloc n body ≡ ok after)
  pub rent_grows : (m n : ℕ) → m ≤ n → rt.minimum_balance m ≤ rt.minimum_balance n

-- `Resize`, called so often.
unfoldable pub resizes : Runtime → List ℕ → ℕ → MintAccounts → ProgramResult MintAccounts
resizes rt program_id zero accounts = ok accounts
resizes rt program_id (suc n) accounts =
    process_instruction rt program_id (2 ∷ []) accounts >>= resizes rt program_id n

verify_writer_ok :
    (storage : Storage) (signer : Signer) (h : PendingMintsBufferStateHeader) (body : List ℕ)
    → storage.memory ≡ buffer h body
    → h.authorized_writer_public_key ≡ signer.key
    → verify_writer storage signer ≡ ok (h, body)
unfolding verify_writer header_of ◌>>=◌ ◌>>◌ fail_if
verify_writer_ok storage signer h body memory writes =
    let writer_test : bytes_eq h.authorized_writer_public_key signer.key ≡ true =
      ap (λ k. bytes_eq k signer.key) writes ∙ bytes_eq_refl signer.key in
    rw memory (rw writer_test refl)

module _ (rt : Runtime) (runtime : IsRuntime rt) (allows : AllowsGrowth rt) where
  -- An account that grows is paid for by the payer.
  realloc_account_pays :
      (storage : Storage) (payer : Signer) (body : List ℕ) (size : ℕ)
      → header_size + length body ≤ size
      → size ≤ header_size + length body + max_permitted_data_increase
      → rt.minimum_balance size - rt.minimum_balance (header_size + length body) ≤ payer.lamports
      → let rent = rt.minimum_balance size - rt.minimum_balance (header_size + length body) in
        (after : List ℕ) × (realloc_account rt storage payer body size true
          ≡ ok (storage.lamports + rent, payer.lamports - rent, after))
        × (rt.realloc (size - header_size) body ≡ ok after)
  unfolding realloc_account ◌>>=◌
  realloc_account_pays storage payer body size grows little funded =
      let (after, moved) =
        allows.reallocs (size - header_size) body (omega (arith, grows, little)) in
      let rents = allows.rent_grows (header_size + length body) size grows in
      (
        after,
        elim (Bool-cases
            (ltb (rt.minimum_balance (header_size + length body)) (rt.minimum_balance size))) [
              | inl pays ↦
                  rw pays (rw (allows.transfers _ _ storage.lamports funded) (rw moved refl))
              | inr same ↦
                  let no_refund : ltb (rt.minimum_balance size)
                        (rt.minimum_balance (header_size + length body))
                      ≡ false =
                    ground (arith, rents) in
                  let own : storage.lamports
                      ≡ storage.lamports
                        + (rt.minimum_balance size
                            - rt.minimum_balance (header_size + length body)) =
                    ground (arith, same) in
                  let paid : payer.lamports
                      ≡ payer.lamports
                        - (rt.minimum_balance size
                            - rt.minimum_balance (header_size + length body)) =
                    ground (arith, same) in
                  rw same (rw no_refund (rw moved (cc (own, paid))))
            ],
        moved,
      )

  resize_account_pays :
      (storage : Storage) (payer : Signer) (body : List ℕ) (size : ℕ)
      → header_size + length body ≤ size
      → size ≤ header_size + length body + max_permitted_data_increase
      → rt.minimum_balance size - rt.minimum_balance (header_size + length body) ≤ payer.lamports
      → let rent = rt.minimum_balance size - rt.minimum_balance (header_size + length body) in
        (after : List ℕ) × (resize_account rt storage payer body size true
          ≡ ok (storage.lamports + rent, payer.lamports - rent, after))
        × (length after ≡ size - header_size)
        × ((i : ℕ) → i < length body → get_elem? after i ≡ get_elem? body i)
  unfolding resize_account
  resize_account_pays storage payer body size grows little funded =
      let (after, paid, moved) = realloc_account_pays storage payer body size grows little funded in
      elim (Bool-cases (size == header_size + length body)) [
        | inl same ↦
            let same_size : size ≡ header_size + length body = ground (arith, same) in
            let same_rent = ap (λ n. rt.minimum_balance n) same_size in
            let own : storage.lamports
                ≡ storage.lamports
                  + (rt.minimum_balance size - rt.minimum_balance (header_size + length body)) =
              omega (arith, same_rent) in
            let payer' : payer.lamports
                ≡ payer.lamports
                  - (rt.minimum_balance size - rt.minimum_balance (header_size + length body)) =
              omega (arith, same_rent) in
            (body, rw same (cc (own, payer')), omega (arith, same_size), λ i _. refl)
        | inr other ↦ (
          after,
          rw other paid,
          runtime.realloc_length _ _ _ moved,
          λ i inside. runtime.realloc_keeps _ _ _ moved i (omega (arith, grows, inside)) inside,
        )
      ]

  -- One call: the account grows by at most 10240 bytes and the payer keeps enough for the rest.
  resize_step :
      (program_id : List ℕ) (storage : Storage) (payer system_program : Signer)
      (others : List Signer) (h : PendingMintsBufferStateHeader) (body : List ℕ)
      → storage.owner ≡ program_id
      → storage.memory ≡ buffer h body
      → payer.is_signer ≡ true
      → h.authorized_writer_public_key ≡ payer.key
      → h.is_locked ≡ 0
      → header_size + length body ≤ get_total_buffer_size h
      → rt.minimum_balance (get_total_buffer_size h)
          - rt.minimum_balance (header_size + length body)
        ≤ payer.lamports
      → let size = grown_len (get_total_buffer_size h) (header_size + length body) in
        let rent = rt.minimum_balance size - rt.minimum_balance (header_size + length body) in
        (after : List ℕ) × (process_instruction rt program_id
            (2 ∷ [])
            (record { storage = storage; others = payer ∷ system_program ∷ others })
          ≡ ok (record {
            storage = record storage {
              lamports = storage.lamports + rent;
              memory = buffer h after;
            };
            others = record payer { lamports = payer.lamports - rent } ∷ system_program ∷ others;
          }))
        × (length after ≡ size - header_size)
        × ((i : ℕ) → i < length body → get_elem? after i ≡ get_elem? body i)
  unfolding process_instruction resize_instruction grown_len ◌>>=◌ ◌>>◌ fail_if
  resize_step program_id storage payer system_program others h body owned memory signs writes free
        short_of funded =
      let size = grown_len (get_total_buffer_size h) (header_size + length body) in
      let rents = allows.rent_grows size (get_total_buffer_size h) (omega (arith, short_of)) in
      let (after, paid, new_length, keeps) =
        resize_account_pays storage payer body size (omega arith) (omega arith)
          (omega (arith, rents, funded)) in
      let enough : ltb (get_total_buffer_size h) (header_size + length body) ≡ false =
        ground (arith, short_of) in
      let owner_test : bytes_eq storage.owner program_id ≡ true =
        ap (λ k. bytes_eq k program_id) owned ∙ bytes_eq_refl program_id in
      let read = verify_writer_ok storage payer h body memory writes in
      let sign_test : not payer.is_signer ≡ false = ap not signs in
      let lock_test : (h.is_locked == 0) ≡ true = ground (arith, free) in
      (
        after,
        rw owner_test (rw sign_test (rw read (rw lock_test (rw enough (rw paid refl))))),
        new_length,
        keeps,
      )

  -- A buffer whose groups are counted but whose account is still too short reaches its length: as
  -- many calls of `Resize` as it takes in steps of 10240 bytes are all accepted, if the writer pays
  -- and has the rent of the whole length, and no byte that was written is lost.
  pub resizes_reach_target :
      (program_id : List ℕ) (n : ℕ) (storage : Storage) (payer system_program : Signer)
      (others : List Signer) (h : PendingMintsBufferStateHeader) (body : List ℕ)
      → storage.owner ≡ program_id
      → storage.memory ≡ buffer h body
      → payer.is_signer ≡ true
      → h.authorized_writer_public_key ≡ payer.key
      → h.is_locked ≡ 0
      → header_size + length body ≤ get_total_buffer_size h
      → rt.minimum_balance (get_total_buffer_size h)
          - rt.minimum_balance (header_size + length body)
        ≤ payer.lamports
      → get_total_buffer_size h ≤ header_size + length body + n * max_permitted_data_increase
      → (after : MintAccounts) × (body' : List ℕ) × (resizes rt program_id n
            (record { storage = storage; others = payer ∷ system_program ∷ others })
          ≡ ok after)
        × (after.storage.memory ≡ buffer h body')
        × (header_size + length body' ≡ get_total_buffer_size h)
        × ((i : ℕ) → i < length body → get_elem? body' i ≡ get_elem? body i)
  unfolding resizes grown_len ◌>>=◌
  resizes_reach_target program_id zero storage payer system_program others h body owned memory signs
        writes free short_of funded enough =
      (_, body, refl, memory, omega (arith, short_of, enough), λ i _. refl)
  resizes_reach_target program_id (suc n) storage payer system_program others h body owned memory
        signs writes free short_of funded enough =
      let size = grown_len (get_total_buffer_size h) (header_size + length body) in
      let (grown, called, new_length, keeps) =
        resize_step program_id storage payer system_program others h body owned memory signs writes
          free short_of funded in
      let new_size : header_size + length grown ≡ size = omega (arith, new_length, short_of) in
      let same_rent = ap (λ m. rt.minimum_balance m) new_size in
      let rents = allows.rent_grows (header_size + length body) size (omega (arith, short_of)) in
      let (after, body', calls, memory', full, keeps') =
        resizes_reach_target program_id n
          (record storage {
            lamports =
                storage.lamports
                + (rt.minimum_balance size - rt.minimum_balance (header_size + length body));
            memory = buffer h grown;
          })
          (record payer {
            lamports =
                payer.lamports
                - (rt.minimum_balance size - rt.minimum_balance (header_size + length body));
          })
          system_program others h grown owned refl signs writes free
          (omega (arith, new_size, short_of)) (omega (arith, same_rent, rents, funded))
          (omega (arith, new_size, short_of, enough)) in
      (
        after,
        body',
        rw called calls,
        memory',
        full,
        λ i inside. keeps' i (omega (arith, new_size, short_of, inside)) ∙ keeps i inside,
      )
