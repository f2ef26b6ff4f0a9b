-- ===== src/Stock/Retry/Attempts.antt =====
-- How many attempts a posting makes, and which one's outcome it returns.
use ckitchen_backend.Prelude.{
  ℕ, zero, suc, ◌==◌, ◌+◌, ◌≤◌, ◌<◌, ◌≡◌, true, false, Option, none, some, ◌⊎◌, inl, inr, leb,
  Bool-cases, arith,
}
use ckitchen_backend.Stock.Types.{PostingInput}
use ckitchen_backend.Stock.Canonical.{Plan}
use ckitchen_backend.Stock.Retry.{Attempt, is_retryable, max_retries, run_attempt, post_from, post}

max_retries_bound : (o : Option ℕ) → max_retries o ≤ 3
unfolding max_retries
max_retries_bound none = omega arith
max_retries_bound (some n) = ground arith

module _ (hash : Plan → ℕ) (input : PostingInput) (attempts : ℕ → Attempt) where
  -- Attempt n is the first from `start` on that ends the loop.
  abbrev pub EndsAt : ℕ → ℕ → ℕ → Type 0
  EndsAt limit start n =
      ((k : ℕ) → start ≤ k → k < n → is_retryable (run_attempt hash input attempts k) ≡ true)
      × ((is_retryable (run_attempt hash input attempts n) ≡ false) ⊎ (n ≡ limit))

  post_from-ends :
      (fuel limit start : ℕ)
      → start ≤ limit
      → limit < fuel + start
      → (n : ℕ) × (start ≤ n)
        × (n ≤ limit)
        × (post_from hash input attempts fuel limit start
            ≡ some (run_attempt hash input attempts n))
        × EndsAt limit start n
  unfolding post_from
  post_from-ends zero limit start below enough = absurd (omega arith)
  post_from-ends (suc fuel) limit start below enough =
      elim (Bool-cases (is_retryable (run_attempt hash input attempts start))) [
        | inr final ↦
            (start, omega arith, below, rw final, ((λ k lo hi. absurd (omega arith)), inl final))
        | inl again ↦ elim (Bool-cases (leb limit start)) [
          | inl last ↦
              let same : start ≡ limit = ground arith in
              (
                start,
                omega arith,
                below,
                rw (again, last),
                ((λ k lo hi. absurd (omega arith)), inr same),
              )
          | inr more ↦
              let before : start + 1 ≤ limit = ground arith in
              let (n, lo, hi, eq, (each, end)) =
                post_from-ends fuel limit (start + 1) before (omega arith) in
              (n, omega arith, hi, rw (again, more, eq), (first n each again, end))
        ]
      ]
    where
      first :
          (n : ℕ)
          → ((k : ℕ)
              → start + 1 ≤ k
              → k < n
              → is_retryable (run_attempt hash input attempts k) ≡ true)
          → is_retryable (run_attempt hash input attempts start) ≡ true
          → (k : ℕ) → start ≤ k
          → k < n
          → is_retryable (run_attempt hash input attempts k) ≡ true
      first n each again k lo hi = elim (Bool-cases (k == start)) [
        | inl e ↦ let same : k ≡ start = ground arith in rw (same, again)
        | inr e ↦ each k (ground arith) hi
      ]

  -- post always returns: the outcome of the first attempt that did not fail by a serialization
  -- failure or a deadlock, or of attempt number max_retries, which is at most 3 (counted from 0).
  pub post-first_final :
      (o : Option ℕ)
      → (n : ℕ) × (n ≤ max_retries o)
        × (max_retries o ≤ 3)
        × (post hash input attempts o ≡ some (run_attempt hash input attempts n))
        × EndsAt (max_retries o) 0 n
  unfolding post
  post-first_final o =
      let (n, _, hi, eq, ends) =
        post_from-ends 4 (max_retries o) 0 (omega arith) (omega (arith, max_retries_bound o)) in
      (n, hi, max_retries_bound o, eq, ends)
