-- ===== src/Stock/Posting.antt =====
-- src/modules/stock/posting-service.ts: the atomic stock posting. `db.transaction` commits the
-- database that the body returns, and on a thrown error keeps the one that it began with. Row locks
-- make concurrent postings run one after the other, so a posting is a function of the database.
pub mod Runs
pub mod Replay
pub mod Conservation
pub mod Documents
pub mod Nets
use ckitchen_backend.Prelude.{
  ℕ, Bool, true, false, ◌||◌, not, Option, none, some, List, [], ◌∷◌, ◌++◌, Text, text_eq, any,
  find?, length, ◌==◌, Result, ok, err, ◌>>=◌, ◌>>◌, throw_if, or_throw,
}
use ckitchen_backend.Stock.Types.{
  feature_disabled, invalid_transition, idempotency_key_reused, posting_in_progress,
  invalid_movement, PostingError, posting_error, PostingInput, Movement, DocumentPolicy, Line,
  PostingResult, Document, Posting, LedgerLine, Event, Db,
}
use ckitchen_backend.Stock.Canonical.{Plan, posting_hash_version, canonical_movements, plan_of}
use ckitchen_backend.Stock.Locks.{lock_movement_keys}
use ckitchen_backend.Stock.Guards.{
  validate_input, authorize_actor, assert_feature_flags, flags_of, assert_topology_ready,
  lock_operational_document,
}
use ckitchen_backend.Stock.Ledger.{plan_lines, write_balances, advance_document, complete_posting}

-- `PostingFaultStage`
pub data FaultStage : Type 0 where
  after_claim after_ledger after_balance after_document after_audit after_outbox : FaultStage

-- `StockPostingDependencies`. The injector's answer is the error that it throws, if any.
pub record Dependencies : Type 0 where
  pub fault_injector : FaultStage → Option PostingError
  pub max_serialization_retries : Option ℕ
  pub document_policies : Text → Option DocumentPolicy

-- What the process and the database supply: the kill switch, Manila's date, the new row's id.
pub record Env : Type 0 where
  pub posting_disabled : Bool
  pub today : ℕ
  pub posting_id : ℕ

abbrev pub inject : Dependencies → FaultStage → Result PostingError (Unit {0})
inject deps stage = elim (deps.fault_injector stage) [ none ↦ ok tt | some e ↦ err e ]

unfoldable pub stored_replay : Posting → Result PostingError PostingResult
stored_replay row = do
  throw_if (not row.completed) (posting_error posting_in_progress 409)
  result ← or_throw row.result (posting_error posting_in_progress 409)
  ok (record result { replayed = true })

abbrev pub claimed_row : Env → PostingInput → ℕ → Posting
claimed_row env input request_hash = record {
  id = env.posting_id;
  idempotency_key = input.idempotency_key;
  request_hash = request_hash;
  hash_version = posting_hash_version;
  source_module = input.source_module;
  source_document_no = input.source_document_no;
  location_id = input.location_id;
  actor_user_id = input.actor_user_id;
  completed = false;
  result = none;
}

abbrev pub result_of : Env → PostingInput → ℕ → List Line → PostingResult
result_of env input request_hash lines = record {
  posting_id = env.posting_id;
  replayed = false;
  idempotency_key = input.idempotency_key;
  request_hash = request_hash;
  source_module = input.source_module;
  source_document_no = input.source_document_no;
  lines = lines;
}

abbrev pub event_of : Env → PostingInput → Text → List Line → Event
event_of env input status lines = record {
  posting_id = env.posting_id;
  location_id = input.location_id;
  correlation_id = input.correlation_id;
  line_count = length lines;
  document_status = status;
}

-- The inserted rows of the ledger: each planned line with the metadata of its movement.
abbrev pub ledger_rows : ℕ → List Movement → List Line → List LedgerLine
ledger_rows id [] lines = []
ledger_rows id (m ∷ ms) [] = []
ledger_rows id (m ∷ ms) (l ∷ lines) =
    record { posting_id = id; line = l; metadata = m.metadata } ∷ ledger_rows id ms lines

abbrev pub status_includes : List Text → Text → Bool
status_includes statuses t = any (λ s. text_eq s t) statuses

-- The transaction from the claim of the idempotency key on.
unfoldable pub post_claimed :
    Env
    → Dependencies
    → Db
    → PostingInput
    → DocumentPolicy
    → Option (List ℕ)
    → Document
    → ℕ
    → List Movement
    → Result PostingError (PostingResult × Db)
post_claimed env deps db input policy allowed document request_hash movements = do
  throw_if (not (status_includes policy.from_statuses document.status))
      (posting_error invalid_transition 409)
  inject deps after_claim
  locked ← lock_movement_keys db policy.route_class input.location_id allowed env.today movements
  planned ← plan_lines 1 movements locked.0
  let lines = planned.0
  inject deps after_ledger
  balances ← write_balances planned.1 locked.1
  inject deps after_balance
  documents ← advance_document document policy.next_status env.posting_id db.documents
  inject deps after_document
  inject deps after_audit
  inject deps after_outbox
  let result = result_of env input request_hash lines
  let event = event_of env input policy.next_status lines
  postings ←
      complete_posting env.posting_id result (claimed_row env input request_hash ∷ db.postings)
  ok (
    result,
    record db {
      documents = documents;
      postings = postings;
      balances = balances;
      ledger = ledger_rows env.posting_id movements lines ++ db.ledger;
      audits = event ∷ db.audits;
      outbox = event ∷ db.outbox;
    },
  )

-- A posting whose key is taken: the same plan is replayed, any other is refused.
unfoldable pub answer_existing : ℕ → Posting → Result PostingError PostingResult
unfolding stored_replay
answer_existing request_hash row = do
  throw_if
      (not (row.request_hash == request_hash) || not (row.hash_version == posting_hash_version))
      (posting_error idempotency_key_reused 409)
  stored_replay row

abbrev pub has_key : Text → Posting → Bool
has_key key p = text_eq p.idempotency_key key

module _ (hash : Plan → ℕ) where
  -- The body of `db.transaction`.
  unfoldable pub transaction_body :
      Env
      → Dependencies
      → Db
      → PostingInput
      → DocumentPolicy
      → List Movement
      → Result PostingError (PostingResult × Db)
  transaction_body env deps db input policy movements = do
    actor ← authorize_actor db input policy
    assert_feature_flags db.flags (flags_of policy)
    assert_topology_ready db
    document ← lock_operational_document db input
    let request_hash = hash (plan_of input movements)
    elim (find? (has_key input.idempotency_key) db.postings) [
      | some row ↦ answer_existing request_hash row >>= λ r. ok (r, db)
      | none ↦
          post_claimed env deps db input policy actor.allowed_location_ids document request_hash
            movements
    ]

  unfoldable pub execute_posting :
      Env → Dependencies → Db → PostingInput → Result PostingError (PostingResult × Db)
  execute_posting env deps db input = do
    validate_input input
    throw_if env.posting_disabled (posting_error feature_disabled 503)
    policy ←
        or_throw (deps.document_policies input.source_module) (posting_error invalid_movement 409)
    movements ← canonical_movements input
    transaction_body env deps db input policy movements
