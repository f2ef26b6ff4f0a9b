-- ===== src/Stock/Posting/Replay.antt =====
-- Idempotency: a posting that is sent again.
use ckitchen_backend.Prelude.{
  ℕ, ◌+◌, ◌≡◌, refl, ◌∙◌, true, false, ◌||◌, not, some, List, ◌∷◌, Text, text_eq_refl, any, find?,
  find?-update_where, updated, ◌==◌, ==_iff, ok, ok-injective, throw_if-eq-ok, or_throw-eq-ok,
  Bool-cases, inl, inr,
}
use ckitchen_backend.Stock.Types.{
  PostingInput, Movement, DocumentPolicy, PostingResult, Balance, Document, Posting, LedgerLine,
  Event, Db,
}
use ckitchen_backend.Stock.Canonical.{Plan, canonical_movements, plan_of, posting_hash_version}
use ckitchen_backend.Stock.Guards.{
  Actor, validate_input, authorize_actor, assert_feature_flags, flags_of, assert_topology_ready,
  lock_operational_document, is_document,
}
use ckitchen_backend.Stock.Ledger.{
  advance_document, complete_posting, is_free_document, is_processing,
}
use ckitchen_backend.Stock.Posting.{
  Env, Dependencies, claimed_row, result_of, answer_existing, has_key, transaction_body,
  execute_posting,
}
use ckitchen_backend.Stock.Posting.Runs.{
  Run, Claimed, Outcome, answered, claimed, execute_posting-eq-ok,
}

-- Advancing a document leaves every document's identity and outlet.
lock_after_advance :
    (db db' : Db) (input : PostingInput) (d row : Document) (status : Text) (id : ℕ)
    → lock_operational_document db input ≡ ok row
    → advance_document d status id db.documents ≡ ok db'.documents
    → (row' : Document) × (lock_operational_document db' input ≡ ok row')
unfolding lock_operational_document advance_document
lock_after_advance db db' input d row status id h a =
    let (found, found_eq, h₁) =
      or_throw-eq-ok (find? (is_document input.source_module input.source_document_no) db.documents)
        _ _ h in
    let (same, h₂) = throw_if-eq-ok (not (found.location_id == input.location_id)) _ _ h₁ in
    let (_, a₁) = throw_if-eq-ok (not (any (is_free_document d) db.documents)) _ _ a in
    let p = is_free_document d in
    let f = λ (x : Document). record x {
      status = status;
      version = x.version + 1;
      stock_posting_id = some id;
    } in
    let found' =
      find?-update_where p (is_document input.source_module input.source_document_no) f (λ x. refl)
        db.documents in
    let located : (updated p f found).location_id ≡ found.location_id =
      elim (Bool-cases (p found)) [ inl e ↦ rw e | inr e ↦ rw e ] in
    (updated p f found, rw (← ok-injective a₁, found', found_eq, located, same))

-- A completed claim is found by its key, with its result.
find_completed :
    (env : Env) (input : PostingInput) (request_hash : ℕ) (result : PostingResult)
    (postings after : List Posting)
    → complete_posting env.posting_id result (claimed_row env input request_hash ∷ postings)
      ≡ ok after
    → find? (has_key input.idempotency_key) after
      ≡ some
          (record (claimed_row env input request_hash) { completed = true; result = some result })
unfolding complete_posting
find_completed env input request_hash result postings after h =
    let (_, h₁) =
      throw_if-eq-ok
        (not (any (is_processing env.posting_id) (claimed_row env input request_hash ∷ postings))) _
        _ h in
    let same : (env.posting_id == env.posting_id) ≡ true = (==_iff _ _).1 refl in
    rw (← ok-injective h₁, same, text_eq_refl input.idempotency_key)

-- The way of a posting whose key is taken.
run_answered :
    (hash : Plan → ℕ) (env : Env) (deps : Dependencies) (db : Db) (input : PostingInput)
    (policy : DocumentPolicy) (movements : List Movement) (actor : Actor) (document : Document)
    (row : Posting) (r : PostingResult)
    → validate_input input ≡ ok tt
    → env.posting_disabled ≡ false
    → deps.document_policies input.source_module ≡ some policy
    → canonical_movements input ≡ ok movements
    → authorize_actor db input policy ≡ ok actor
    → assert_feature_flags db.flags (flags_of policy) ≡ ok tt
    → assert_topology_ready db ≡ ok tt
    → lock_operational_document db input ≡ ok document
    → find? (has_key input.idempotency_key) db.postings ≡ some row
    → answer_existing (hash (plan_of input movements)) row ≡ ok r
    → execute_posting hash env deps db input ≡ ok (r, db)
unfolding execute_posting transaction_body
run_answered hash env deps db input policy movements actor document row r v e p m a f t d k x =
    rw (v, e, p, m, a, f, t, d, k, x)

answer_own :
    (env : Env) (input : PostingInput) (request_hash : ℕ) (result : PostingResult)
    → answer_existing request_hash
        (record (claimed_row env input request_hash) { completed = true; result = some result })
      ≡ ok (record result { replayed = true })
unfolding answer_existing
answer_own env input request_hash result =
    let same : (request_hash == request_hash) ≡ true = (==_iff _ _).1 refl in rw same

answer_replayed :
    (request_hash : ℕ) (row : Posting) (r : PostingResult)
    → answer_existing request_hash row ≡ ok r
    → r ≡ record r { replayed = true }
unfolding answer_existing
answer_replayed request_hash row r h =
    let (_, h₁) =
      throw_if-eq-ok
        (not (row.request_hash == request_hash) || not (row.hash_version == posting_hash_version)) _
        _ h in
    let (_, h₂) = throw_if-eq-ok (not row.completed) _ _ h₁ in
    let (stored, _, h₃) = or_throw-eq-ok row.result _ _ h₂ in rw (← ok-injective h₃)

-- The checks of the actor and of the topology do not read what a posting writes.
module _ (db : Db) (documents : List Document) (postings : List Posting) (balances : List Balance)
    (ledger : List LedgerLine) (audits outbox : List Event) where
  abbrev written : Db
  written = record db {
    documents = documents;
    postings = postings;
    balances = balances;
    ledger = ledger;
    audits = audits;
    outbox = outbox;
  }

  authorize_actor-written :
      (input : PostingInput) (policy : DocumentPolicy)
      → authorize_actor written input policy ≡ authorize_actor db input policy
  unfolding authorize_actor
  authorize_actor-written input policy = refl

  assert_topology_ready-written : assert_topology_ready written ≡ assert_topology_ready db
  unfolding assert_topology_ready
  assert_topology_ready-written = refl

module _ (hash : Plan → ℕ) (env env' : Env) (deps : Dependencies) (db : Db) (input : PostingInput)
    {r : PostingResult} {db' : Db} where
  replay-Claimed :
      (run : Run hash env deps db input r db')
      → env'.posting_disabled ≡ false
      → Claimed env deps db input run.policy run.actor.allowed_location_ids run.document
          (hash (plan_of input run.movements))
          run.movements
          r
          db'
      → execute_posting hash env' deps db' input ≡ ok (record r { replayed = true }, db')
  replay-Claimed run on c =
      let h = hash (plan_of input run.movements) in
      let (document', document_eq) =
        lock_after_advance db db' input run.document run.document run.policy.next_status
          env.posting_id run.document_eq (rw c.db_eq c.documents_eq) in
      run_answered hash env' deps db' input run.policy run.movements run.actor document'
        (record (claimed_row env input h) {
          completed = true;
          result = some (result_of env input h c.lines);
        })
        (record r { replayed = true }) run.valid on run.policy_eq run.movements_eq
        (rw c.db_eq (authorize_actor-written db _ _ _ _ _ _ input run.policy ∙ run.actor_eq))
        (rw c.db_eq run.flags_eq)
        (rw c.db_eq (assert_topology_ready-written db _ _ _ _ _ _ ∙ run.topology_eq)) document_eq
        (rw c.db_eq (find_completed env input h _ db.postings c.postings c.postings_eq))
        (rw c.result_eq (answer_own env input h (result_of env input h c.lines)))

  -- A request that was answered is answered again the same way, marked as a replay, and changes
  -- nothing, whatever the date and the new row's id are by then, as long as the kill switch is off.
  pub execute_posting-replay :
      execute_posting hash env deps db input ≡ ok (r, db')
      → env'.posting_disabled ≡ false
      → execute_posting hash env' deps db' input ≡ ok (record r { replayed = true }, db')
  execute_posting-replay h on =
      let run = execute_posting-eq-ok hash env deps db input h in end_of run on run.outcome
    where
      end_of :
          (run : Run hash env deps db input r db')
          → env'.posting_disabled ≡ false
          → Outcome env deps db input run.policy run.actor.allowed_location_ids run.document
              (hash (plan_of input run.movements))
              run.movements
              r
              db'
          → execute_posting hash env' deps db' input ≡ ok (record r { replayed = true }, db')
      end_of run on (claimed fresh c) = replay-Claimed run on c
      end_of run on (answered row found answer same) =
          rw (same, ← answer_replayed (hash (plan_of input run.movements)) row r answer)
            (run_answered hash env' deps db input run.policy run.movements run.actor run.document
              row r run.valid on run.policy_eq run.movements_eq run.actor_eq run.flags_eq
              run.topology_eq run.document_eq found answer)
