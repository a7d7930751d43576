-- ===== src/Programs/DogeBridge/Mints.antt =====
-- What the loop of mints of the bridge program does: `process_process_mint_group` of
-- programs/doge-bridge/src/processor.rs, lines 545 to 551.
use psy_doge_solana_bridge.Prelude.{
  ℕ, zero, suc, ◌+◌, ◌-◌, ◌*◌, ◌≤◌, ◌≡◌, ◌⊎◌, refl, ap, sym, ◌∙◌, false, some, Option-cases, List,
  [], ◌∷◌, ◌++◌, length, take, drop, drop_twice, ltb, ◌==◌, get_elem?, arith, inl, inr, Bool-cases,
  subst,
}
use psy_doge_solana_bridge.Bytes.{bytes_eq, slice}
use psy_doge_solana_bridge.Bytes.Laws.{bytes_eq→eq}
use psy_doge_solana_bridge.Bridge.AutoMint.Mints.{PendingMint}
use psy_doge_solana_bridge.Bridge.AutoMint.Paid.{parse_mints}
use psy_doge_solana_bridge.Programs.{AccountData, short, buffer, ok, >>=-eq-ok, ok_injective}
use psy_doge_solana_bridge.Programs.DogeBridge.{TokenProgram, solana_mint_to}
use psy_doge_solana_bridge.Programs.DogeBridge.MintGroup.{mint_to_recipients, mint_group}
use psy_doge_solana_bridge.Programs.MintBuffer.{PendingMintsBufferStateHeader, mint_header_bytes}

-- The recipients of mints, in their order.
unfoldable pub recipients_of : List PendingMint → List (List ℕ)
recipients_of [] = []
recipients_of (m ∷ mints) = m.recipient ∷ recipients_of mints

-- The token program mints each amount to its recipient, one after the other, and none fails.
unfoldable pub PaysAll : {L : Type 0} → TokenProgram L → List ℕ → List PendingMint → L → L → Type 0
PaysAll token mint [] ledger paid = ledger ≡ paid
PaysAll {L} token mint (m ∷ mints) ledger paid =
    (next : L) × (token.mint_to mint m.recipient m.amount ledger ≡ some next)
    × PaysAll token mint mints next paid

-- The bytes of the account of a buffer, if it has a header.
unfoldable pub memory_bytes : AccountData PendingMintsBufferStateHeader → List ℕ
memory_bytes (short n) = []
memory_bytes (buffer h body) = mint_header_bytes h ++ body

-- As many mints as recipients stand in the bytes from an offset on, within them; they are for the
-- recipients, in their order, and the token program has minted them all.
unfoldable pub IsGroupPaid :
    {L : Type 0} → TokenProgram L → List ℕ → List (List ℕ) → List ℕ → ℕ → L → L → Type 0
IsGroupPaid token mint recipients bytes offset ledger paid =
    let mints = parse_mints (length recipients) (drop offset bytes) in
    (recipients_of mints ≡ recipients)
    × PaysAll token mint mints ledger paid
    × ((length recipients ≡ 0) ⊎ (offset + length recipients * 40 ≤ length bytes))

drop-get_elem? :
    {A : Type 0} (xs : List A) (p : ℕ) (x : A)
    → get_elem? xs p ≡ some x
    → drop p xs ≡ x ∷ drop (p + 1) xs
drop-get_elem? [] p x found = absurd (cc found)
drop-get_elem? (y ∷ ys) zero x found = ap (λ a. a ∷ ys) (cc found)
drop-get_elem? (y ∷ ys) (suc p) x found =
    drop-get_elem? ys p x found ∙ ap (λ n. x ∷ drop n (y ∷ ys)) place
  where
    place : suc (p + 1) ≡ suc p + 1
    place = omega arith

drop_all : {A : Type 0} (xs : List A) (n : ℕ) → length xs ≤ n → drop n xs ≡ []
drop_all [] zero h = refl
drop_all [] (suc n) h = refl
drop_all (x ∷ xs) zero h = absurd (omega arith)
drop_all (x ∷ xs) (suc n) h = drop_all xs n (omega arith)

module _ {L : Type 0} (token : TokenProgram L) where
  -- The recipient at the index is the account, and the token program has minted to it.
  solana_mint_to-eq-ok :
      (mint : List ℕ) (recipients : List (List ℕ)) (p : ℕ) (account : List ℕ) (amount : ℕ)
      (ledger after : L)
      → solana_mint_to token mint recipients p account amount ledger ≡ ok after
      → (get_elem? recipients p ≡ some account)
        × (token.mint_to mint account amount ledger ≡ some after)
  unfolding solana_mint_to
  solana_mint_to-eq-ok mint recipients p account amount ledger after done =
      elim (Option-cases (get_elem? recipients p)) [
        | inl missing ↦ absurd (cc (rw (solana_mint_to, missing) at done))
        | inr (recipient, found) ↦
            let step = rw (solana_mint_to, found) at done in
            elim (Bool-cases (bytes_eq recipient account)) [
              | inr other ↦ absurd (cc (rw other at step))
              | inl equal ↦
                  let called = rw equal at step in
                  let same = bytes_eq→eq recipient account equal in
                  elim (Option-cases (token.mint_to mint recipient amount ledger)) [
                    | inl failed ↦ absurd (cc (rw failed at called))
                    | inr (paid, minted) ↦
                        let final : paid ≡ after = cc (rw minted at called) in
                        (
                          found ∙ ap some same,
                          ap (λ a. token.mint_to mint a amount ledger) (sym same)
                              ∙ minted
                              ∙ ap some final,
                        )
                  ]
            ]
      ]

  -- The mints that stand in a row of bytes are paid, in their order, to the recipients that are left.
  pub mint_to_recipients_lem :
      (mint : List ℕ) (recipients : List (List ℕ)) (memory : List ℕ) (start p left : ℕ)
      (ledger paid : L)
      → length recipients ≡ p + left
      → mint_to_recipients token mint recipients memory start p left ledger ≡ ok paid
      → let mints = parse_mints left (drop (start + p * 40) memory) in
        (recipients_of mints ≡ drop p recipients)
        × PaysAll token mint mints ledger paid
        × ((left ≡ 0) ⊎ (start + (p + left) * 40 ≤ length memory))
  unfolding mint_to_recipients parse_mints recipients_of PaysAll
  mint_to_recipients_lem mint recipients memory start p zero ledger paid count done =
      (sym (drop_all recipients p (omega arith)), ok_injective _ _ done, inl refl)
  mint_to_recipients_lem mint recipients memory start p (suc left) ledger paid count done =
      let bytes = drop (start + p * 40) memory in
      let size : start + p * 40 + 40 - (start + p * 40) ≡ 40 = omega arith in
      let place : start + (p + 1) * 40 ≡ start + p * 40 + 40 = omega arith in
      let next_bytes : drop (start + (p + 1) * 40) memory ≡ drop 40 bytes =
        ap (λ o. drop o memory) place ∙ drop_twice (start + p * 40) 40 memory in
      let within : ltb (length memory) (start + p * 40 + 40) ≡ false =
        elim (Bool-cases (ltb (length memory) (start + p * 40 + 40))) [
          | inl beyond ↦ absurd (cc (rw beyond at done))
          | inr inside ↦ inside
        ] in
      let run = rw (within, size) at done in
      let (next, minted, later) = >>=-eq-ok _ _ _ run in
      let (at_place, called) =
        solana_mint_to-eq-ok mint recipients p (slice 0 32 (take 40 bytes)) _ ledger next minted in
      let (others, pays, reach) =
        mint_to_recipients_lem mint recipients memory start (p + 1) left next paid (omega arith)
          later in
      (
        ap (λ bs. slice 0 32 (take 40 bytes) ∷ recipients_of (parse_mints left bs)) (sym next_bytes)
            ∙ ap (λ rs. slice 0 32 (take 40 bytes) ∷ rs) others
            ∙ sym (drop-get_elem? recipients p _ at_place),
        (
          next,
          called,
          subst (λ bs. PaysAll token mint (parse_mints left bs) next paid) next_bytes pays,
        ),
        inr (elim reach [
          | inl none_left ↦ ground (arith, within, none_left)
          | inr far ↦ omega arith
        ]),
      )

  -- The group of a buffer: what stands at the offset is paid to the recipients.
  pub mint_group_lem :
      (mint : List ℕ) (recipients : List (List ℕ))
      (memory : AccountData PendingMintsBufferStateHeader) (offset : ℕ) (ledger paid : L)
      → mint_group token mint recipients memory offset (length recipients) ledger ≡ ok paid
      → IsGroupPaid token mint recipients (memory_bytes memory) offset ledger paid
  unfolding mint_group memory_bytes IsGroupPaid parse_mints recipients_of PaysAll
  mint_group_lem mint [] (short n) offset ledger paid done = (refl, ok_injective _ _ done, inl refl)
  mint_group_lem mint (r ∷ rs) (short n) offset ledger paid done =
      let some_left : (suc (length rs) == 0) ≡ false = ground arith in
      absurd (cc (rw some_left at done))
  mint_group_lem mint recipients (buffer h body) offset ledger paid done =
      let bytes = mint_header_bytes h ++ body in
      let (same, pays, reach) =
        mint_to_recipients_lem mint recipients bytes offset 0 (length recipients) ledger paid
          (omega arith) done in
      let start : offset + 0 * 40 ≡ offset = omega arith in
      let mints : ℕ → List PendingMint = λ o. parse_mints (length recipients) (drop o bytes) in
      (
        ap (λ o. recipients_of (mints o)) (sym start) ∙ same,
        subst (λ o. PaysAll token mint (mints o) ledger paid) start pays,
        elim reach [ inl empty ↦ inl empty | inr far ↦ inr (omega arith) ],
      )
