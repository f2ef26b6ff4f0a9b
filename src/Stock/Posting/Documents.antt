-- ===== src/Stock/Posting/Documents.antt =====
-- What a posting does to its document.
pub mod Rows
use ckitchen_backend.Prelude.{
  ℕ, suc, ◌+◌, ◌≤◌, ◌≡◌, ◌≢◌, refl, sym, ap, ◌∙◌, Bool, true, false, ◌&&◌, ◌||◌, not, Option, none,
  some, List, [], ◌∷◌, Text, text_eq, text_eq_iff, any, find?, select, update_where, updated,
  map_option, find?-update_where, find?-holds, some_eq, length, ◌==◌, if◌then◌else◌, Bool-cases,
  not-eq-false, inl, inr, arith, Result, ok, err, ◌>>=◌, ◌>>◌, throw_if, or_throw, Option-cases,
  ok-injective, throw_if-eq-ok, or_throw-eq-ok,
}
use ckitchen_backend.Stock.Types.{
  PostingInput, DocumentPolicy, PostingResult, Document, Posting, Db,
}
use ckitchen_backend.Stock.Canonical.{Plan, plan_of}
use ckitchen_backend.Stock.Guards.{is_document, lock_operational_document}
use ckitchen_backend.Stock.Ledger.{advance_document, is_free_document}
use ckitchen_backend.Stock.Posting.{Env, Dependencies, status_includes, has_key, execute_posting}
use ckitchen_backend.Stock.Posting.Runs.{
  Run, Claimed, Outcome, answered, claimed, execute_posting-eq-ok,
}
use ckitchen_backend.Stock.Posting.Documents.Rows.{
  AreUnique, posted, document_of, document_of-locked, document_of-advanced,
}

module _ (hash : Plan → ℕ) (env : Env) (deps : Dependencies) (db : Db) (input : PostingInput)
    {r : PostingResult} {db' : Db} where
  -- A posting under a new key finds its document in one of the statuses that its policy accepts, not
  -- yet posted, and gives it the policy's next status, the next version and the posting's id, if no
  -- two documents share a module and a number.
  pub execute_posting-document :
      execute_posting hash env deps db input ≡ ok (r, db')
      → find? (has_key input.idempotency_key) db.postings ≡ none
      → AreUnique db.documents
      → (policy : DocumentPolicy) → deps.document_policies input.source_module ≡ some policy
      → (d : Document) × (document_of input db ≡ some d)
        × (status_includes policy.from_statuses d.status ≡ true)
        × (d.stock_posting_id ≡ none)
        × (document_of input db' ≡ some (posted policy.next_status env.posting_id d))
  execute_posting-document h fresh unique policy policy_eq =
      let run = execute_posting-eq-ok hash env deps db input h in
      end_of run run.outcome (some_eq (sym run.policy_eq ∙ policy_eq))
    where
      clash : {o : Option Posting} {row : Posting} → o ≡ some row → o ≡ none → ⊥
      clash e f = cc

      end_of :
          (run : Run hash env deps db input r db')
          → Outcome env deps db input run.policy run.actor.allowed_location_ids run.document
              (hash (plan_of input run.movements))
              run.movements
              r
              db'
          → run.policy ≡ policy
          → (d : Document) × (document_of input db ≡ some d)
            × (status_includes policy.from_statuses d.status ≡ true)
            × (d.stock_posting_id ≡ none)
            × (document_of input db' ≡ some (posted policy.next_status env.posting_id d))
      end_of run (answered row found _ _) same = absurd (clash found fresh)
      end_of run (claimed _ c) same =
          let found = document_of-locked db input run.document_eq in
          let (unposted, after, _) =
            document_of-advanced db db' input run.document run.policy.next_status env.posting_id
              unique found (rw c.db_eq c.documents_eq) in
          (run.document, found, rw (← same) c.status_ok, unposted, rw (← same) after)

  -- What a posting under a new key leaves of its document: the id of the posting, and the documents
  -- with their identities.
  execute_posting-posted :
      execute_posting hash env deps db input ≡ ok (r, db')
      → find? (has_key input.idempotency_key) db.postings ≡ none
      → AreUnique db.documents
      → (d : Document) × (document_of input db' ≡ some d)
        × (d.stock_posting_id ≡ some env.posting_id)
        × AreUnique db'.documents
  execute_posting-posted h fresh unique =
      let run = execute_posting-eq-ok hash env deps db input h in end_of run run.outcome
    where
      clash : {o : Option Posting} {row : Posting} → o ≡ some row → o ≡ none → ⊥
      clash e f = cc

      end_of :
          (run : Run hash env deps db input r db')
          → Outcome env deps db input run.policy run.actor.allowed_location_ids run.document
              (hash (plan_of input run.movements))
              run.movements
              r
              db'
          → (d : Document) × (document_of input db' ≡ some d)
            × (d.stock_posting_id ≡ some env.posting_id)
            × AreUnique db'.documents
      end_of run (answered row found _ _) = absurd (clash found fresh)
      end_of run (claimed _ c) =
          let (_, after, still) =
            document_of-advanced db db' input run.document run.policy.next_status env.posting_id
              unique (document_of-locked db input run.document_eq) (rw c.db_eq c.documents_eq) in
          (posted run.policy.next_status env.posting_id run.document, after, refl, still)

-- A document is posted once: after a posting under a new key, no posting under another new key for
-- the same document returns, whatever its policy, if no two documents share a module and a number.
pub execute_posting-once :
    (hash : Plan → ℕ) (env env' : Env) (deps deps' : Dependencies) (db : Db)
    (input input' : PostingInput) {r r' : PostingResult} {db' db″ : Db}
    → execute_posting hash env deps db input ≡ ok (r, db')
    → find? (has_key input.idempotency_key) db.postings ≡ none
    → AreUnique db.documents
    → input'.source_module ≡ input.source_module
    → input'.source_document_no ≡ input.source_document_no
    → find? (has_key input'.idempotency_key) db'.postings ≡ none
    → execute_posting hash env' deps' db' input' ≢ ok (r', db″)
execute_posting-once hash env env' deps deps' db input input' {db' = db'} h fresh unique same_module
      same_number fresh' h' =
    let (d, found, taken, still) = execute_posting-posted hash env deps db input h fresh unique in
    let run = execute_posting-eq-ok hash env' deps' db' input' h' in
    let (d', found', _, unposted, _) =
      execute_posting-document hash env' deps' db' input' h' fresh' still run.policy
        run.policy_eq in
    let here : document_of input db' ≡ some d' =
      (λ i. find? (is_document (sym same_module i) (sym same_number i)) db'.documents) ∙ found' in
    let same : d ≡ d' = some_eq (sym found ∙ here) in clash (rw same unposted) taken
  where
    clash : {o : Option ℕ} {n : ℕ} → o ≡ none → o ≡ some n → ⊥
    clash e f = cc
