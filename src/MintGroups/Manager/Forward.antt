-- ===== src/MintGroups/Manager/Forward.antt =====
-- `fast_forward_empty` on a manager whose index and count are within its array.
use psy_doge_solana_bridge.Prelude.{
  ℕ, zero, suc, ◌+◌, ◌-◌, ◌%◌, ◌^◌, ◌<◌, ◌≤◌, ◌≡◌, refl, ◌∙◌, inl, inr, ◌⊎◌, Bool, true, false,
  ◌&&◌, ◌||◌, subst, List, length, get_or, ltb, leb, ◌==◌, if◌then◌else◌, arith, get_elem?-get_or,
  Bool-cases,
}
use psy_doge_solana_bridge.Errors.{ok}
use psy_doge_solana_bridge.MintGroups.{empty_tracker, tracker_is_empty}
use psy_doge_solana_bridge.MintGroups.Manager.{
  FinalizedBlockMintTxoInfo, FinalizedBlockMintTxoManager, info_is_empty, zero_info, is_empty,
  fast_forward_loop, fast_forward_empty, with_tracker, with_current_index,
}

pub record IsWellFormed (m : FinalizedBlockMintTxoManager) : Type 0 where
  pub eight : length m.pending_finalized_info ≡ 8
  pub index_bound : m.pending_finalized_info_current_index ≤ m.pending_finalized_info_total_count
  pub count_bound : m.pending_finalized_info_total_count ≤ 8

-- The first index from `i` on, among `n`, whose entry is not empty; `i + n` if there is none.
unfoldable pub first_non_empty : ℕ → List FinalizedBlockMintTxoInfo → ℕ → ℕ
first_non_empty zero infos i = i
first_non_empty (suc n) infos i =
    let rest = first_non_empty n infos (suc i) in
    if info_is_empty (get_or infos i zero_info) then rest else i

first_non_empty_bounds :
    (n : ℕ) (infos : List FinalizedBlockMintTxoInfo) (i : ℕ)
    → (i ≤ first_non_empty n infos i) × (first_non_empty n infos i ≤ i + n)
unfolding first_non_empty
first_non_empty_bounds zero infos i = (omega arith, omega arith)
first_non_empty_bounds (suc n) infos i =
    let rest = first_non_empty_bounds n infos (suc i) in ground (arith, rest.0, rest.1)

fast_forward_loop_lem :
    (n : ℕ) (infos : List FinalizedBlockMintTxoInfo) (i : ℕ) (modified : Bool)
    → length infos ≡ 8
    → i + n ≤ 8
    → fast_forward_loop n infos i i modified
      ≡ ok (first_non_empty n infos i, modified || ltb i (first_non_empty n infos i))
unfolding fast_forward_loop first_non_empty
fast_forward_loop_lem zero infos i modified len bound =
    let still : ltb i i ≡ false = ground arith in rw still (ground arith)
fast_forward_loop_lem (suc n) infos i modified len bound =
    let found = get_elem?-get_or infos i zero_info (omega arith) in
    elim (Bool-cases (info_is_empty (get_or infos i zero_info))) [
      | inl skipped ↦
          let next : (i + 1) % 2 ^ 16 ≡ suc i = omega arith in
          let bounds = first_non_empty_bounds n infos (suc i) in
          let moved : ltb i (first_non_empty n infos (suc i)) ≡ true = ground (arith, bounds.0) in
          rw
            (
              fast_forward_loop,
              found,
              skipped,
              next,
              moved,
              fast_forward_loop_lem n infos (suc i) true len (omega arith),
            )
            (ground arith)
      | inr kept ↦
          let still : ltb i i ≡ false = ground arith in
          rw (fast_forward_loop, found, kept, still) (ground arith)
    ]

first_non_empty_skips :
    (n : ℕ) (infos : List FinalizedBlockMintTxoInfo) (i j : ℕ)
    → i ≤ j
    → j < first_non_empty n infos i
    → info_is_empty (get_or infos j zero_info) ≡ true
unfolding first_non_empty
first_non_empty_skips zero infos i j ge lt = absurd (omega arith)
first_non_empty_skips (suc n) infos i j ge lt =
    elim (Bool-cases (info_is_empty (get_or infos i zero_info))) [
      | inl skipped ↦ elim (Bool-cases (i == j)) [
        | inl same ↦
            let e : i ≡ j = ground arith in
            subst (λ k. info_is_empty (get_or infos k zero_info) ≡ true) e skipped
        | inr other ↦
            first_non_empty_skips n infos (suc i) j (ground arith)
              (subst (λ b. j < (if b then first_non_empty n infos (suc i) else i)) skipped lt)
      ]
      | inr kept ↦
          let none_between : j < i =
            subst (λ b. j < (if b then first_non_empty n infos (suc i) else i)) kept lt in
          absurd (omega arith)
    ]

first_non_empty_stops :
    (n : ℕ) (infos : List FinalizedBlockMintTxoInfo) (i : ℕ)
    → first_non_empty n infos i < i + n
    → info_is_empty (get_or infos (first_non_empty n infos i) zero_info) ≡ false
unfolding first_non_empty
first_non_empty_stops zero infos i lt = absurd (omega arith)
first_non_empty_stops (suc n) infos i lt =
    elim (Bool-cases (info_is_empty (get_or infos i zero_info))) [
      | inl skipped ↦ rw skipped (
          first_non_empty_stops n infos (suc i) (
            omega (
              arith,
              subst (λ b. (if b then first_non_empty n infos (suc i) else i) < i + suc n) skipped
                  lt,
            )))
      | inr kept ↦ rw kept kept
    ]

-- What `fast_forward_empty` does: nothing while mints remain or no block waits, and otherwise it
-- moves the index over the blocks without mints to the first with some, or to the end, and clears
-- the tracker if it moved.
pub fast_forward_empty_lem :
    (m : FinalizedBlockMintTxoManager)
    → IsWellFormed m
    → let from = m.pending_finalized_info_current_index in
      let to =
        first_non_empty
          (m.pending_finalized_info_total_count - from)
          m.pending_finalized_info
          from in
      fast_forward_empty m ≡ (
        ok tt,
        if ltb from m.pending_finalized_info_total_count
              && tracker_is_empty m.current_pending_mints_tracker
            then if ltb from to then with_tracker empty_tracker (with_current_index to m) else m
            else m,
      )
unfolding fast_forward_empty is_empty
fast_forward_empty_lem m wf =
    let from = m.pending_finalized_info_current_index in
    let total = m.pending_finalized_info_total_count in
    let n = total - from in
    let looped =
      fast_forward_loop_lem n m.pending_finalized_info from false wf.eight
        (omega (arith, wf.index_bound, wf.count_bound)) in
    let to = first_non_empty n m.pending_finalized_info from in
    let at_least : from ≤ to = (first_non_empty_bounds n m.pending_finalized_info from).0 in
    elim (Bool-cases (ltb from total)) [
      | inr beyond ↦ let past : leb total from ≡ true = ground arith in rw (beyond, past)
      | inl waiting ↦
          let before : leb total from ≡ false = ground arith in
          let some_blocks : (total == 0) ≡ false = ground arith in
          let some_left : (total == from) ≡ false = ground arith in
          elim (Bool-cases (tracker_is_empty m.current_pending_mints_tracker)) [
            | inr busy ↦ rw (waiting, before, busy)
            | inl free ↦ elim (Bool-cases (ltb from to)) [
              | inl moves ↦
                  rw (
                    fast_forward_empty, waiting, before, free, some_blocks, some_left, looped,
                    moves,
                  )
              | inr stays ↦
                  let here : to ≡ from = ground (arith, at_least) in
                  rw (
                    fast_forward_empty, waiting, before, free, some_blocks, some_left, looped,
                    stays, here,
                  )
            ]
          ]
    ]

-- A manager that waits for its next block is moved to the first block with mints, over blocks that
-- have none, or to the end if there is no such block; its index and count stay within the array.
pub fast_forward_skips_empty_blocks :
    (m : FinalizedBlockMintTxoManager)
    → IsWellFormed m
    → m.pending_finalized_info_current_index < m.pending_finalized_info_total_count
    → tracker_is_empty m.current_pending_mints_tracker ≡ true
    → let (result, after) = fast_forward_empty m in
      let to = after.pending_finalized_info_current_index in
      (result ≡ ok tt)
      × IsWellFormed after
      × ((j : ℕ)
          → m.pending_finalized_info_current_index ≤ j
          → j < to
          → info_is_empty (get_or m.pending_finalized_info j zero_info) ≡ true)
      × ((to ≡ m.pending_finalized_info_total_count)
          ⊎ (info_is_empty (get_or m.pending_finalized_info to zero_info) ≡ false))
      × (tracker_is_empty after.current_pending_mints_tracker ≡ true)
unfolding empty_tracker tracker_is_empty
fast_forward_skips_empty_blocks m wf waiting free =
    let from = m.pending_finalized_info_current_index in
    let total = m.pending_finalized_info_total_count in
    let to = first_non_empty (total - from) m.pending_finalized_info from in
    let bounds = first_non_empty_bounds (total - from) m.pending_finalized_info from in
    let skips = first_non_empty_skips (total - from) m.pending_finalized_info from in
    let stops : (to ≡ total)
        ⊎ (info_is_empty (get_or m.pending_finalized_info to zero_info) ≡ false) =
      elim (Bool-cases (to == total)) [
        | inl end ↦ inl (ground arith)
        | inr inside ↦ inr (
            first_non_empty_stops (total - from) m.pending_finalized_info from
              (ground (arith, wf.index_bound, bounds.1)))
      ] in
    let before : ltb from total ≡ true = ground arith in
    elim (Bool-cases (ltb from to)) [
      | inl moves ↦
          rw (fast_forward_empty_lem m wf, before, free, moves)
            (
              refl,
              record {
                eight = wf.eight;
                index_bound = omega (arith, wf.index_bound, bounds.1);
                count_bound = wf.count_bound;
              },
              skips,
              stops,
              refl,
            )
      | inr stays ↦
          let here : to ≡ from = ground (arith, bounds.0) in
          rw (fast_forward_empty_lem m wf, before, free, stays)
            (
              refl,
              wf,
              subst
                  (λ k.
                    (j : ℕ)
                    → from ≤ j
                    → j < k
                    → info_is_empty (get_or m.pending_finalized_info j zero_info) ≡ true)
                  here skips,
              subst
                  (λ k.
                    (k ≡ total)
                    ⊎ (info_is_empty (get_or m.pending_finalized_info k zero_info) ≡ false))
                  here stops,
              free,
            )
    ]

-- A block with mints is not passed over.
pub fast_forward_stays :
    (m : FinalizedBlockMintTxoManager)
    → IsWellFormed m
    → info_is_empty
        (get_or m.pending_finalized_info m.pending_finalized_info_current_index zero_info)
      ≡ false
    → fast_forward_empty m ≡ (ok tt, m)
unfolding first_non_empty
fast_forward_stays m wf kept =
    let from = m.pending_finalized_info_current_index in
    let total = m.pending_finalized_info_total_count in
    let stays : ltb from (first_non_empty (total - from) m.pending_finalized_info from) ≡ false =
      elim (Bool-cases (total - from == 0)) [
        | inl at_end ↦ let e : total - from ≡ 0 = ground arith in rw e (ground arith)
        | inr before ↦
            let e : total - from ≡ suc (total - from - 1) = ground arith in
            rw (e, kept) (ground arith)
      ] in
    fast_forward_empty_lem m wf ∙ rw stays (ground arith)
