-- ===== src/Examples/Chain.antt =====
-- A runtime for the examples of the programs: every digest is the same, an account is cut or filled
-- up with zeros, and the rent of a byte is one lamport.
use psy_doge_solana_bridge.Prelude.{
  ℕ, zero, suc, ◌+◌, ◌-◌, ◌<◌, ◌≡◌, refl, ap, List, [], ◌∷◌, arith, length, replicate, get_elem?,
  ltb, if◌then◌else◌, false,
}
use psy_doge_solana_bridge.Programs.{
  Runtime, IsRuntime, ProgramResult, ok, err, insufficient_funds, ok_injective,
}
use psy_doge_solana_bridge.Programs.MintBuffer.Resizes.{AllowsGrowth}

unfoldable pub resized : ℕ → List ℕ → List ℕ
resized zero body = []
resized (suc n) [] = 0 ∷ resized n []
resized (suc n) (b ∷ body) = b ∷ resized n body

unfoldable pub pay : ℕ → ℕ → ℕ → ProgramResult (ℕ × ℕ)
pay amount from to =
    if ltb from amount then err insufficient_funds else ok (from - amount, to + amount)

abbrev pub chain : Runtime
chain = record {
  sha256 = λ bytes. replicate 32 1;
  find_program_address = λ seeds program_id. 9 ∷ [];
  minimum_balance = λ n. n;
  transfer = pay;
  realloc = λ n body. ok (resized n body);
  allocate = λ key n. ok tt;
  assign = λ key owner. ok tt;
}

length-resized : (n : ℕ) (body : List ℕ) → length (resized n body) ≡ n
unfolding resized
length-resized zero body = refl
length-resized (suc n) [] = ap suc (length-resized n [])
length-resized (suc n) (b ∷ body) = ap suc (length-resized n body)

get_elem?-resized :
    (n : ℕ) (body : List ℕ) (i : ℕ)
    → i < n
    → i < length body
    → get_elem? (resized n body) i ≡ get_elem? body i
unfolding resized
get_elem?-resized zero body i lt inside = absurd (omega arith)
get_elem?-resized (suc n) [] i lt inside = absurd (omega arith)
get_elem?-resized (suc n) (b ∷ body) zero lt inside = refl
get_elem?-resized (suc n) (b ∷ body) (suc i) lt inside =
    get_elem?-resized n body i (omega arith) (omega arith)

pub chain-IsRuntime : IsRuntime chain
chain-IsRuntime = record {
  realloc_length = λ n body after done. rw (← ok_injective _ _ done) (length-resized n body);
  realloc_keeps = λ n body after done i lt inside.
      rw (← ok_injective _ _ done) (get_elem?-resized n body i lt inside);
  digest_length = λ bytes. refl;
  digest_not_zero = λ bytes same. absurd (cc same);
}

pub chain-AllowsGrowth : AllowsGrowth chain
unfolding pay
chain-AllowsGrowth = record {
  transfers = λ amount from to funded.
      let enough : ltb from amount ≡ false = ground (arith, funded) in rw enough refl;
  reallocs = λ n body little. (resized n body, refl);
  rent_grows = λ m n le. le;
}
