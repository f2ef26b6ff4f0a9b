-- ===== src/Stock/Retry.antt =====
-- src/modules/stock/posting-service.ts, `createStockPostingService`, and src/modules/stock/errors.ts,
-- `findSqlState`: a posting is tried again after a serialization failure or a deadlock.
pub mod Attempts
use ckitchen_backend.Prelude.{
  ℕ, zero, suc, ◌+◌, Bool, true, false, ◌&&◌, ◌||◌, not, Option, none, some, List, [], ◌∷◌, Text,
  text_eq, codes, all, length, ltb, leb, ◌==◌, if◌then◌else◌, Result, ok, err,
}
use ckitchen_backend.Stock.Types.{PostingError, sql_error, PostingInput, PostingResult, Db}
use ckitchen_backend.Stock.Canonical.{Plan}
use ckitchen_backend.Stock.Posting.{Dependencies, Env, execute_posting}

-- `/^[0-9A-Z]{5}$/`
abbrev is_state_char : ℕ → Bool
is_state_char c = (leb b'0' c && leb c b'9') || (leb b'A' c && leb c b'Z')

abbrev is_sql_state : Text → Bool
is_sql_state t = length t == 5 && all is_state_char t

-- The loop over the chain of causes; `depth` is what is left of the 8 steps.
unfoldable pub find_in_chain : ℕ → List (Option Text) → Option Text
find_in_chain zero chain = none
find_in_chain (suc depth) [] = none
find_in_chain (suc depth) (none ∷ chain) = find_in_chain depth chain
find_in_chain (suc depth) (some code ∷ chain) =
    let rest = find_in_chain depth chain in if is_sql_state code then some code else rest

-- A `StockPostingError` has a code that is longer, and no cause; the other errors have no code.
unfoldable pub find_sql_state : PostingError → Option Text
unfolding find_in_chain
find_sql_state (sql_error chain) = find_in_chain 8 chain
find_sql_state _ = none

abbrev pub Outcome : Type 0
Outcome = Result PostingError (PostingResult × Db)

-- `["40001", "40P01"].includes(findSqlState(error) ?? "")`, on an attempt that threw.
unfoldable pub is_retryable : Outcome → Bool
unfolding find_sql_state text_eq
is_retryable (ok r) = false
is_retryable (err e) = elim (find_sql_state e) [
  | none ↦ false
  | some code ↦ text_eq code (codes "40001") || text_eq code (codes "40P01")
]

-- `Math.max(0, Math.min(maxSerializationRetries ?? 3, 3))`
unfoldable pub max_retries : Option ℕ → ℕ
max_retries none = 3
max_retries (some n) = if ltb 3 n then 3 else n

-- What an attempt meets: the tables by then, and the error if the database aborts it.
pub record Attempt : Type 0 where
  pub env : Env
  pub dependencies : Dependencies
  pub db : Db
  pub aborted : Option (List (Option Text))

module _ (hash : Plan → ℕ) (input : PostingInput) (attempts : ℕ → Attempt) where
  unfoldable pub run_attempt : ℕ → Outcome
  run_attempt n =
      let a = attempts n in
      elim a.aborted [
        | some chain ↦ err (sql_error chain)
        | none ↦ execute_posting hash a.env a.dependencies a.db input
      ]

  -- The loop of `post` from an attempt on; none where the fuel ends first.
  unfoldable pub post_from : ℕ → ℕ → ℕ → Option Outcome
  post_from zero limit attempt = none
  post_from (suc fuel) limit attempt =
      let rest = post_from fuel limit (attempt + 1) in
      if not (is_retryable (run_attempt attempt)) || leb limit attempt
      then some (run_attempt attempt)
      else rest

  -- `post`, with fuel for the largest number of attempts.
  unfoldable pub post : Option ℕ → Option Outcome
  unfolding post_from max_retries
  post max_serialization_retries = post_from 4 (max_retries max_serialization_retries) 0
