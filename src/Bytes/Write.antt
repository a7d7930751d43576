-- ===== src/Bytes/Write.antt =====
-- `copy_from_slice` and `fill` on a part of a byte array, and what is read from it afterwards.
use psy_doge_solana_bridge.Prelude.{
  ℕ, zero, suc, ◌+◌, ◌-◌, ◌<◌, ◌≤◌, ◌≡◌, refl, ap, sym, ◌∙◌, List, [], ◌∷◌, ◌++◌, false, true,
  arith, ◌⊎◌, inl, inr, length, take, drop, get_elem?, ltb, if◌then◌else◌, length-append,
  length-take, length-drop,
}
use psy_doge_solana_bridge.Bytes.{slice}

module _ {A : Type 0} where
  -- `xs[offset..offset + bytes.len()].copy_from_slice(bytes)` where the range is valid.
  unfoldable pub write_at : ℕ → List A → List A → List A
  write_at offset bytes xs = take offset xs ++ (bytes ++ drop (offset + length bytes) xs)

  pub get_elem?-append :
      (xs ys : List A) (i : ℕ)
      → get_elem? (xs ++ ys) i
        ≡ (if ltb i (length xs) then get_elem? xs i else get_elem? ys (i - length xs))
  get_elem?-append [] ys i = ground arith
  get_elem?-append (x ∷ xs) ys zero = ground arith
  get_elem?-append (x ∷ xs) ys (suc i) = ground (arith, get_elem?-append xs ys i)

  pub get_elem?-take :
      (n : ℕ) (xs : List A) (i : ℕ) → i < n → get_elem? (take n xs) i ≡ get_elem? xs i
  get_elem?-take zero xs i h = absurd (omega arith)
  get_elem?-take (suc n) [] i h = refl
  get_elem?-take (suc n) (x ∷ xs) zero h = refl
  get_elem?-take (suc n) (x ∷ xs) (suc i) h = get_elem?-take n xs i (omega arith)

  pub get_elem?-drop :
      (n : ℕ) (xs : List A) (i : ℕ) → get_elem? (drop n xs) i ≡ get_elem? xs (n + i)
  get_elem?-drop zero xs i = ap (get_elem? xs) (omega arith)
  get_elem?-drop (suc n) [] i = refl
  get_elem?-drop (suc n) (x ∷ xs) i =
      let e : suc n + i ≡ suc (n + i) = omega arith in rw e (get_elem?-drop n xs i)

  pub take_agree :
      (n : ℕ) (xs ys : List A)
      → ((i : ℕ) → i < n → get_elem? xs i ≡ get_elem? ys i)
      → take n xs ≡ take n ys
  take_agree zero xs ys h = refl
  take_agree (suc n) [] [] h = refl
  take_agree (suc n) [] (y ∷ ys) h = absurd (cc (h 0 (omega arith)))
  take_agree (suc n) (x ∷ xs) [] h = absurd (cc (h 0 (omega arith)))
  take_agree (suc n) (x ∷ xs) (y ∷ ys) h =
      let first : x ≡ y = cc (h 0 (omega arith)) in
      let others : take n xs ≡ take n ys = take_agree n xs ys (λ i lt. h (suc i) (omega arith)) in
      cc (first, others)

  take_whole : (n : ℕ) (xs : List A) → length xs ≤ n → take n xs ≡ xs
  take_whole zero [] h = refl
  take_whole zero (x ∷ xs) h = absurd (omega arith)
  take_whole (suc n) [] h = refl
  take_whole (suc n) (x ∷ xs) h = ap (λ t. x ∷ t) (take_whole n xs (omega arith))

  pub slice_agree :
      (from to : ℕ) (xs ys : List A)
      → ((i : ℕ) → from ≤ i → i < to → get_elem? xs i ≡ get_elem? ys i)
      → slice from to xs ≡ slice from to ys
  slice_agree from to xs ys h = take_agree (to - from) (drop from xs) (drop from ys) (λ i lt.
      get_elem?-drop from xs i
      ∙ h (from + i) (omega arith) (omega arith)
      ∙ sym (get_elem?-drop from ys i))

  pub length-slice :
      (from to : ℕ) (xs : List A)
      → from ≤ to
      → to ≤ length xs
      → length (slice from to xs) ≡ to - from
  length-slice from to xs ordered inside =
      omega (arith, length-take (to - from) (drop from xs), length-drop from xs)

  pub length-write_at :
      (offset : ℕ) (bytes xs : List A)
      → offset + length bytes ≤ length xs
      → length (write_at offset bytes xs) ≡ length xs
  unfolding write_at
  length-write_at offset bytes xs h =
      length-append (take offset xs) (bytes ++ drop (offset + length bytes) xs)
      ∙ omega (
        arith,
        length-append bytes (drop (offset + length bytes) xs),
        length-take offset xs,
        length-drop (offset + length bytes) xs,
      )

  get_elem?-append_left :
      (xs ys : List A) (i : ℕ) → i < length xs → get_elem? (xs ++ ys) i ≡ get_elem? xs i
  get_elem?-append_left xs ys i h =
      let left : ltb i (length xs) ≡ true = ground arith in get_elem?-append xs ys i ∙ rw left

  get_elem?-append_right :
      (xs ys : List A) (i : ℕ)
      → length xs ≤ i
      → get_elem? (xs ++ ys) i ≡ get_elem? ys (i - length xs)
  get_elem?-append_right xs ys i h =
      let right : ltb i (length xs) ≡ false = ground arith in get_elem?-append xs ys i ∙ rw right

  module _ (offset : ℕ) (bytes xs : List A) (i : ℕ)
      (inside : offset + length bytes ≤ length xs) where
    get_elem?-write_at_before : i < offset → get_elem? (write_at offset bytes xs) i ≡ get_elem? xs i
    unfolding write_at
    get_elem?-write_at_before h =
        get_elem?-append_left (take offset xs) (bytes ++ drop (offset + length bytes) xs) i
          (omega (arith, length-take offset xs))
        ∙ get_elem?-take offset xs i h

    prefix : length (take offset xs) ≡ offset
    prefix = omega (arith, length-take offset xs)

    get_elem?-write_at_within :
        offset ≤ i
        → i < offset + length bytes
        → get_elem? (write_at offset bytes xs) i ≡ get_elem? bytes (i - offset)
    unfolding write_at
    get_elem?-write_at_within low high =
        get_elem?-append_right (take offset xs) (bytes ++ drop (offset + length bytes) xs) i
          (omega (arith, prefix))
        ∙ rw prefix (
            get_elem?-append_left bytes (drop (offset + length bytes) xs) (i - offset)
              (omega arith))

    get_elem?-write_at_behind :
        offset + length bytes ≤ i → get_elem? (write_at offset bytes xs) i ≡ get_elem? xs i
    unfolding write_at
    get_elem?-write_at_behind h =
        let index : offset + length bytes + (i - offset - length bytes) ≡ i = omega arith in
        get_elem?-append_right (take offset xs) (bytes ++ drop (offset + length bytes) xs) i
          (omega (arith, prefix))
        ∙ rw prefix (
            get_elem?-append_right bytes (drop (offset + length bytes) xs) (i - offset)
              (omega arith)
            ∙ get_elem?-drop (offset + length bytes) xs (i - offset - length bytes)
            ∙ ap (get_elem? xs) index)

  -- What was written is read back.
  pub slice-write_at_self :
      (offset : ℕ) (bytes xs : List A)
      → offset + length bytes ≤ length xs
      → slice offset (offset + length bytes) (write_at offset bytes xs) ≡ bytes
  slice-write_at_self offset bytes xs h =
      let size : offset + length bytes - offset ≡ length bytes = omega arith in
      rw size (
        take_agree (length bytes) (drop offset (write_at offset bytes xs)) bytes (λ i lt.
          let index : offset + i - offset ≡ i = omega arith in
          get_elem?-drop offset (write_at offset bytes xs) i
          ∙ get_elem?-write_at_within offset bytes xs (offset + i) h (omega arith) (omega arith)
          ∙ ap (get_elem? bytes) index)
        ∙ take_whole (length bytes) bytes (omega arith))

  -- What lies before or behind what was written stays.
  pub slice-write_at_apart :
      (offset : ℕ) (bytes xs : List A) (from to : ℕ)
      → offset + length bytes ≤ length xs
      → (to ≤ offset) ⊎ (offset + length bytes ≤ from)
      → slice from to (write_at offset bytes xs) ≡ slice from to xs
  slice-write_at_apart offset bytes xs from to h (inl before) =
      slice_agree from to (write_at offset bytes xs) xs
        (λ i low high. get_elem?-write_at_before offset bytes xs i h (omega arith))
  slice-write_at_apart offset bytes xs from to h (inr behind) =
      slice_agree from to (write_at offset bytes xs) xs
        (λ i low high. get_elem?-write_at_behind offset bytes xs i h (omega arith))
