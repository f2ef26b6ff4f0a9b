-- ===== src/Stock/Posting/Runs.antt =====
-- What a posting that returns has gone through, step by step.
use ckitchen_backend.Prelude.{
  ℕ, ◌≡◌, refl, true, false, Option, none, some, List, ◌∷◌, ◌++◌, find?, not, ok, ◌>>=◌, sym, ap,
  ok-injective, not-eq-false, >>=-eq-ok, >>-eq-ok, throw_if-eq-ok, or_throw-eq-ok,
}
use ckitchen_backend.Stock.Types.{
  PostingInput, Movement, DocumentPolicy, Line, PostingResult, Balance, Document, Posting, Db,
  posting_error, invalid_transition,
}
use ckitchen_backend.Stock.Canonical.{Plan, canonical_movements, plan_of}
use ckitchen_backend.Stock.Locks.{KeyState, lock_movement_keys}
use ckitchen_backend.Stock.Guards.{
  Actor, validate_input, authorize_actor, assert_feature_flags, flags_of, assert_topology_ready,
  lock_operational_document,
}
use ckitchen_backend.Stock.Ledger.{plan_lines, write_balances, advance_document, complete_posting}
use ckitchen_backend.Stock.Posting.{
  Env, Dependencies, inject, after_claim, after_ledger, after_balance, after_document, after_audit,
  after_outbox, ledger_rows, claimed_row, result_of, event_of, status_includes, post_claimed,
  answer_existing, has_key, transaction_body, execute_posting,
}

-- The steps of `post_claimed`.
pub record Claimed (env : Env) (deps : Dependencies) (db : Db) (input : PostingInput)
    (policy : DocumentPolicy) (allowed : Option (List ℕ)) (document : Document) (request_hash : ℕ)
    (movements : List Movement) (r : PostingResult) (db' : Db) : Type 0 where
  pub status_ok : status_includes policy.from_statuses document.status ≡ true
  pub states : List KeyState
  pub ready : List Balance
  pub locked_eq :
      lock_movement_keys db policy.route_class input.location_id allowed env.today movements
      ≡ ok (states, ready)
  pub lines : List Line
  pub planned : List KeyState
  pub planned_eq : plan_lines 1 movements states ≡ ok (lines, planned)
  pub balances : List Balance
  pub balances_eq : write_balances planned ready ≡ ok balances
  pub documents : List Document
  pub documents_eq :
      advance_document document policy.next_status env.posting_id db.documents ≡ ok documents
  pub postings : List Posting
  pub postings_eq :
      complete_posting env.posting_id
        (result_of env input request_hash lines)
        (claimed_row env input request_hash ∷ db.postings)
      ≡ ok postings
  pub result_eq : r ≡ result_of env input request_hash lines
  pub db_eq : db' ≡ record db {
    documents = documents;
    postings = postings;
    balances = balances;
    ledger = ledger_rows env.posting_id movements lines ++ db.ledger;
    audits = event_of env input policy.next_status lines ∷ db.audits;
    outbox = event_of env input policy.next_status lines ∷ db.outbox;
  }

module _ (env : Env) (deps : Dependencies) (db : Db) (input : PostingInput)
    (policy : DocumentPolicy) (allowed : Option (List ℕ)) (document : Document) (request_hash : ℕ)
    (movements : List Movement) {r : PostingResult} {db' : Db} where
  pub post_claimed-eq-ok :
      post_claimed env deps db input policy allowed document request_hash movements ≡ ok (r, db')
      → Claimed env deps db input policy allowed document request_hash movements r db'
  unfolding post_claimed
  post_claimed-eq-ok h =
      let (status, h₁) =
        throw_if-eq-ok (not (status_includes policy.from_statuses document.status))
          (posting_error invalid_transition 409) _ h in
      let (_, h₂) = >>-eq-ok (inject deps after_claim) _ h₁ in
      let (locked, locked_eq, h₃) = >>=-eq-ok (lock_movement_keys _ _ _ _ _ _) _ h₂ in
      let (planned, planned_eq, h₄) = >>=-eq-ok (plan_lines _ _ _) _ h₃ in
      let (_, h₅) = >>-eq-ok (inject deps after_ledger) _ h₄ in
      let (balances, balances_eq, h₆) = >>=-eq-ok (write_balances _ _) _ h₅ in
      let (_, h₇) = >>-eq-ok (inject deps after_balance) _ h₆ in
      let (documents, documents_eq, h₈) = >>=-eq-ok (advance_document _ _ _ _) _ h₇ in
      let (_, h₉) = >>-eq-ok (inject deps after_document) _ h₈ in
      let (_, h₁₀) = >>-eq-ok (inject deps after_audit) _ h₉ in
      let (_, h₁₁) = >>-eq-ok (inject deps after_outbox) _ h₁₀ in
      let (postings, postings_eq, h₁₂) = >>=-eq-ok (complete_posting _ _ _) _ h₁₁ in
      record {
        status_ok = not-eq-false _ status;
        states = locked.0;
        ready = locked.1;
        locked_eq = locked_eq;
        lines = planned.0;
        planned = planned.1;
        planned_eq = planned_eq;
        balances = balances;
        balances_eq = balances_eq;
        documents = documents;
        documents_eq = documents_eq;
        postings = postings;
        postings_eq = postings_eq;
        result_eq = sym (ap (λ (p : PostingResult × Db). p.0) (ok-injective h₁₂));
        db_eq = sym (ap (λ (p : PostingResult × Db). p.1) (ok-injective h₁₂));
      }

-- How a posting whose checks passed has ended: by the answer to a taken key, or by a new posting.
pub data Outcome (env : Env) (deps : Dependencies) (db : Db) (input : PostingInput)
    (policy : DocumentPolicy) (allowed : Option (List ℕ)) (document : Document) (request_hash : ℕ)
    (movements : List Movement) (r : PostingResult) (db' : Db) : Type 0 where
  answered :
      (row : Posting)
      → find? (has_key input.idempotency_key) db.postings ≡ some row
      → answer_existing request_hash row ≡ ok r
      → db' ≡ db
      → Outcome env deps db input policy allowed document request_hash movements r db'
  claimed :
      find? (has_key input.idempotency_key) db.postings ≡ none
      → Claimed env deps db input policy allowed document request_hash movements r db'
      → Outcome env deps db input policy allowed document request_hash movements r db'

-- The steps of `executePosting`.
pub record Run (hash : Plan → ℕ) (env : Env) (deps : Dependencies) (db : Db) (input : PostingInput)
    (r : PostingResult) (db' : Db) : Type 0 where
  pub valid : validate_input input ≡ ok tt
  pub enabled : env.posting_disabled ≡ false
  pub policy : DocumentPolicy
  pub policy_eq : deps.document_policies input.source_module ≡ some policy
  pub movements : List Movement
  pub movements_eq : canonical_movements input ≡ ok movements
  pub actor : Actor
  pub actor_eq : authorize_actor db input policy ≡ ok actor
  pub flags_eq : assert_feature_flags db.flags (flags_of policy) ≡ ok tt
  pub topology_eq : assert_topology_ready db ≡ ok tt
  pub document : Document
  pub document_eq : lock_operational_document db input ≡ ok document
  pub outcome :
      Outcome env deps db input policy actor.allowed_location_ids document
        (hash (plan_of input movements))
        movements
        r
        db'

module _ (env : Env) (deps : Dependencies) (db : Db) (input : PostingInput)
    (policy : DocumentPolicy) (allowed : Option (List ℕ)) (document : Document) (request_hash : ℕ)
    (movements : List Movement) {r : PostingResult} {db' : Db} where
  outcome_of :
      (found : Option Posting)
      → find? (has_key input.idempotency_key) db.postings ≡ found
      → elim found [
        | some row ↦ answer_existing request_hash row >>= λ r. ok (r, db)
        | none ↦ post_claimed env deps db input policy allowed document request_hash movements
      ]
        ≡ ok (r, db')
      → Outcome env deps db input policy allowed document request_hash movements r db'
  outcome_of none e h =
      claimed e
        (post_claimed-eq-ok env deps db input policy allowed document request_hash movements h)
  outcome_of (some row) e h =
      let (r', answer, same) = >>=-eq-ok (answer_existing request_hash row) _ h in
      answered row e (cc) (cc)

module _ (hash : Plan → ℕ) (env : Env) (deps : Dependencies) (db : Db) (input : PostingInput)
    {r : PostingResult} {db' : Db} where
  pub execute_posting-eq-ok :
      execute_posting hash env deps db input ≡ ok (r, db') → Run hash env deps db input r db'
  unfolding execute_posting transaction_body
  execute_posting-eq-ok h =
      let (valid, h₁) = >>-eq-ok (validate_input input) _ h in
      let (enabled, h₂) = throw_if-eq-ok _ _ _ h₁ in
      let (policy, policy_eq, h₃) =
        or_throw-eq-ok (deps.document_policies input.source_module) _ _ h₂ in
      let (movements, movements_eq, h₄) = >>=-eq-ok (canonical_movements input) _ h₃ in
      let (actor, actor_eq, h₅) = >>=-eq-ok (authorize_actor _ _ _) _ h₄ in
      let (flags_eq, h₆) = >>-eq-ok (assert_feature_flags _ _) _ h₅ in
      let (topology_eq, h₇) = >>-eq-ok (assert_topology_ready _) _ h₆ in
      let (document, document_eq, h₈) = >>=-eq-ok (lock_operational_document _ _) _ h₇ in
      record {
        valid = valid;
        enabled = enabled;
        policy = policy;
        policy_eq = policy_eq;
        movements = movements;
        movements_eq = movements_eq;
        actor = actor;
        actor_eq = actor_eq;
        flags_eq = flags_eq;
        topology_eq = topology_eq;
        document = document;
        document_eq = document_eq;
        outcome =
            outcome_of env deps db input policy actor.allowed_location_ids document
              (hash (plan_of input movements)) movements _ refl h₈;
      }
