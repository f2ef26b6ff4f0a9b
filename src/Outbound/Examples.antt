-- ===== src/Outbound/Examples.antt =====
-- Runs of the outbound commands of src/modules/outbound at concrete inputs: a listing in API mode with
-- one order, and an adapter that times out.
use ckitchen_backend.Prelude.{
  ℕ, ◌+◌, ◌≡◌, refl, true, false, none, some, List, [], ◌∷◌, codes, arith, ok, err, find?, text_eq,
  map_option,
}
use ckitchen_backend.Stock.Types.{Flag}
use ckitchen_backend.Outbound.Types.{
  CommandType, command_name, CommandStatus, string, Payload, no_payload, object, Command,
  ControlMode, Listing, ChannelOrder, OutboundDb, out_of_order, outbound_error, CommandRequest,
  Answer, threw,
}
use ckitchen_backend.Outbound.Policies.{outbound_commands_flag, outbound_backoff_ms}
use ckitchen_backend.Outbound.Payloads.{Readers, assert_valid_reject_reason_payload}
use ckitchen_backend.Outbound.Worker.{
  claim, claim_one, resolved, resolve, send_one, process_claimed, process_ids,
}
use ckitchen_backend.Outbound.Enqueue.{
  EnqueueInput, is_outbound_enabled, build_stored_key, check_payload, check_order, check_scope,
  rejects, check_command, new_command, has_key, inserted, insert_command, record_command,
  enqueue_command,
}
use ckitchen_backend.Outbound.Worker.Leases.{row_of, claim_one-exclusive}
use ckitchen_backend.Outbound.Worker.Turns.{attempt}
use ckitchen_backend.Outbound.Worker.Attempts.{process_commands-row}
use ckitchen_backend.Prelude.{if◌then◌else◌, includes}
use ckitchen_backend.Outbound.Worker.{worker_of, process_commands, candidates}
use ckitchen_backend.Outbound.Worker.Settled.{
  Round, run_round, run_rounds, IsSettled, AreFair, run_rounds-settles,
}
use ckitchen_backend.Outbound.Enqueue.Replays.{enqueue_command-again, record_command-race}
use ckitchen_backend.Outbound.Enqueue.Sequence.{AreInSequence, record_command-overtaken}
use ckitchen_backend.Outbound.Enqueue.StoredKeys.{build_stored_key-injective}
use ckitchen_backend.Outbound.History.{
  with_tables, no_commands, Reach, start, changed, enqueued, enqueued_late, claimed_by, answered,
}
use ckitchen_backend.Outbound.History.Invariant.{IsSoundDb}
use ckitchen_backend.Outbound.History.Sound.{Reach-IsSoundDb}

abbrev readers : Readers
readers = record { is_uuid = λ s. true; is_date = λ s. true }

abbrev listing : Listing
listing = record {
  id = codes "a1";
  brand_id = 3;
  location_id = 11;
  control_mode = ControlMode.api;
  api_merchant_id = some (codes "m1");
}

abbrev order : ChannelOrder
order = record {
  id = codes "o1";
  aggregator_account_id = some (codes "a1");
  location_id = 11;
  is_cancelled = false;
  external_ref = some (codes "x1");
}

abbrev flag : Flag
flag = record { key = outbound_commands_flag; enabled = true }

abbrev db : OutboundDb
db = with_tables (flag ∷ []) (listing ∷ []) [] (order ∷ []) no_commands

abbrev input_of : CommandType → Payload → EnqueueInput
input_of type payload = record {
  aggregator_account_id = codes "a1";
  order_id = some (codes "o1");
  command_type = type;
  payload = payload;
  idempotency_key = codes "k1";
  actor_user_id = some 5;
  session_id = none;
}

abbrev accept : EnqueueInput
accept = input_of CommandType.accept_order no_payload

abbrev reject : EnqueueInput
reject =
    input_of CommandType.reject_order
      (object (record { name = codes "reason_code"; value = string (codes "TOO_BUSY") } ∷ []))

abbrev accepted_db : OutboundDb
accepted_db = inserted 1 1000 accept listing db

abbrev rejected_db : OutboundDb
rejected_db = inserted 2 1500 reject listing db

accept_checked : check_command readers db accept ≡ ok listing
unfolding check_command is_outbound_enabled check_payload check_scope check_order text_eq
accept_checked = refl

accept_enqueued :
    enqueue_command readers 1 1000 db accept ≡ ok (new_command 1 1000 accept, accepted_db)
unfolding enqueue_command check_command is_outbound_enabled check_payload check_scope check_order
    text_eq record_command insert_command
accept_enqueued = refl

reject_enqueued :
    enqueue_command readers 2 1500 db reject ≡ ok (new_command 2 1500 reject, rejected_db)
unfolding enqueue_command check_command is_outbound_enabled check_payload check_scope check_order
    text_eq record_command insert_command assert_valid_reject_reason_payload
reject_enqueued = refl

-- After the rejection an acceptance is refused.
accept_after_reject :
    enqueue_command readers 3 2000 rejected_db accept ≡ err (outbound_error out_of_order 409)
unfolding enqueue_command check_command is_outbound_enabled check_payload check_scope check_order
    text_eq
accept_after_reject = refl

enqueue_command-again_example :
    enqueue_command readers 7 9000 accepted_db accept ≡ ok (new_command 1 1000 accept, accepted_db)
enqueue_command-again_example =
    enqueue_command-again readers 1 7 1000 9000 db accept accept_enqueued

unseen : find? (has_key (build_stored_key accept)) db.commands ≡ none
unseen = refl

not_seen :
    (c : Command)
    → find? (has_key (build_stored_key accept)) db.commands ≡ some c
    → find? (has_key (build_stored_key accept)) rejected_db.commands ≡ some c
not_seen c h = absurd (clash h)
  where
    clash : {c : Command} → none ≡ some c → ⊥
    clash h = cc

record_command-race_example :
    record_command 9 1002 accept listing db (record_command 8 1001 accept listing db rejected_db).1
    ≡ record_command 8 1001 accept listing db rejected_db
record_command-race_example =
    record_command-race 8 9 1001 1002 accept listing db rejected_db not_seen

unused : find? (has_key (build_stored_key accept)) rejected_db.commands ≡ none
unfolding text_eq build_stored_key command_name
unused = refl

rejected : rejects rejected_db (codes "a1") (some (codes "o1")) ≡ true
unfolding text_eq
rejected = refl

record_command-overtaken_example :
    ¬ AreInSequence (record_command 3 2000 accept listing db rejected_db).1.commands
record_command-overtaken_example =
    record_command-overtaken 3 2000 accept listing db rejected_db unseen unused refl rejected

abbrev same_key_accept : EnqueueInput
same_key_accept = record accept { payload = object []; actor_user_id = some 6 }

build_stored_key-injective_example :
    (accept.aggregator_account_id ≡ same_key_accept.aggregator_account_id)
    × (accept.order_id ≡ same_key_accept.order_id)
    × (accept.command_type ≡ same_key_accept.command_type)
    × (accept.idempotency_key ≡ same_key_accept.idempotency_key)
unfolding build_stored_key
build_stored_key-injective_example =
    build_stored_key-injective accept same_key_accept refl refl (refl, not_listing_mark)
      (refl, not_listing_mark) refl
  where
    not_listing_mark : codes "o1" ≡ codes "L" → ⊥
    not_listing_mark h = cc

abbrev claimed_db : OutboundDb
claimed_db = record accepted_db {
  commands = claim (codes "w1") 60 2000 (new_command 1 1000 accept) ∷ [];
}

command_claimed :
    claim_one accepted_db 1 (codes "w1") 60 2000
    ≡ (some (claim (codes "w1") 60 2000 (new_command 1 1000 accept)), claimed_db)
unfolding claim_one
command_claimed = refl

claim_one-exclusive_example : claim_one claimed_db 1 (codes "w2") 60 30000 ≡ (none, claimed_db)
claim_one-exclusive_example =
    claim_one-exclusive accepted_db 1 (codes "w1") (codes "w2") 60 60 2000 30000 (refl, tt)
      command_claimed (ground arith)

-- An adapter that always times out.
abbrev time_out : CommandRequest → Answer
time_out request = threw (codes "timeout")

abbrev round_at : ℕ → Round
round_at time = record {
  send_command = time_out;
  opts = record { limit = none; lease_seconds = none };
  owner = codes "w1";
  now = time;
  clock = λ id. record { claimed_at = time + 1; resolved_at = time + 100 };
}

abbrev rounds : List Round
rounds = round_at 2000 ∷ round_at 20000 ∷ round_at 40000 ∷ []

rounds_fair : AreFair 1 2000 accepted_db rounds
unfolding run_round process_commands candidates process_ids process_claimed claim_one send_one
    resolve resolved outbound_backoff_ms text_eq
rounds_fair = (
  ground arith,
  ground arith,
  (λ c found h. refl),
  (
    ground arith,
    ground arith,
    (λ c found h. refl),
    (ground arith, ground arith, (λ c found h. refl), tt),
  ),
)

run_rounds-settles_example :
    (d : Command) × (row_of 1 (run_rounds rounds accepted_db) ≡ some d) × IsSettled d
run_rounds-settles_example =
    run_rounds-settles rounds 2000 1 accepted_db (refl, tt) rounds_fair refl
      (refl, ground arith, refl) (ground arith)

-- The third timeout leaves the command dead.
third_timeout :
    map_option (λ d. d.status) (row_of 1 (run_rounds rounds accepted_db)) ≡ some CommandStatus.dead
unfolding run_rounds run_round process_commands candidates process_ids process_claimed claim_one
    send_one resolve resolved outbound_backoff_ms text_eq
third_timeout = refl

process_commands-row_example :
    row_of 1
      (process_commands time_out accepted_db
        (record { limit = none; lease_seconds = none })
        (codes "w1")
        2000
        (λ id. record { claimed_at = 2001; resolved_at = 2100 })).1
    ≡ some (
        if includes (candidates accepted_db 10 2000) 1
        then attempt
            (worker_of time_out
              (record { limit = none; lease_seconds = none })
              (codes "w1")
              (λ id. record { claimed_at = 2001; resolved_at = 2100 }))
            accepted_db
            (new_command 1 1000 accept)
        else new_command 1 1000 accept)
process_commands-row_example =
    process_commands-row time_out accepted_db (record { limit = none; lease_seconds = none })
      (codes "w1") 2000 (λ id. record { claimed_at = 2001; resolved_at = 2100 }) 1 (refl, tt) refl

abbrev held : List Command
held = claim (codes "w1") 60 2000 (new_command 1 1000 accept) ∷ []

lifetime :
    Reach false
      (send_one time_out claimed_db
        (claim (codes "w1") 60 2000 (new_command 1 1000 accept))
        (codes "w1")
        3000).1
      held
lifetime =
    answered (λ c. true) time_out (codes "w1") 3000
      (claimed_by 1 60 2000 (codes "w1")
        (enqueued readers 1 1000 accept (changed (flag ∷ []) (listing ∷ []) [] (order ∷ []) start)
          accept_enqueued)
        command_claimed)
      refl

Reach-IsSoundDb_example :
    IsSoundDb false
      (send_one time_out claimed_db
        (claim (codes "w1") 60 2000 (new_command 1 1000 accept))
        (codes "w1")
        3000).1
      held
Reach-IsSoundDb_example = Reach-IsSoundDb lifetime

-- A history in which a rejection comes between the checks of an acceptance and its insertion.
overtaken_lifetime : Reach true (record_command 3 2000 accept listing db rejected_db).1 []
overtaken_lifetime =
    enqueued_late readers db db 3 2000 accept
      (enqueued readers 2 1500 reject (changed (flag ∷ []) (listing ∷ []) [] (order ∷ []) start)
        reject_enqueued)
      accept_checked
