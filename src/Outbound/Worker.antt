-- ===== src/Outbound/Worker.antt =====
-- src/modules/outbound/worker.ts: a worker claims the oldest eligible commands, one by one, and sends
-- each through the adapter. The adapter and the clock are parameters: the times at which a command is
-- claimed and its answer stored. The lease owner is a name that the caller gives.
pub mod Leases
pub mod Turns
pub mod Candidates
pub mod Attempts
pub mod Settled
use ckitchen_backend.Prelude.{
  ℕ, ◌+◌, ◌*◌, Bool, true, false, ◌&&◌, ◌||◌, Option, none, some, List, [], ◌∷◌, Text, text_eq,
  find?, select, take, update_where, ltb, leb, ◌==◌, if◌then◌else◌, map, map_option,
}
use ckitchen_backend.Outbound.Types.{
  CommandStatus, pending, claimed, sent, dead, is_pending, is_claimed, Command, Listing,
  ChannelOrder, OutboundDb, CommandRequest, FailureKind, retryable, terminal, SendResult, accepted,
  refused, Answer, returned, threw,
}
use ckitchen_backend.Outbound.Policies.{
  max_send_attempts, default_lease_seconds, min_ℕ, max_ℕ, outbound_backoff_ms,
}

-- `leaseExpiry`
abbrev pub lease_expiry : ℕ → ℕ → ℕ
lease_expiry now seconds = now + seconds * 1000

-- `lte` of a column that may be null, which a null column fails.
abbrev pub is_due : Option ℕ → ℕ → Bool
is_due none now = false
is_due (some time) now = leb time now

abbrev pub is_null_or_due : Option ℕ → ℕ → Bool
is_null_or_due none now = true
is_null_or_due (some time) now = leb time now

-- `claimableWhere`
abbrev pub is_claimable : ℕ → Command → Bool
is_claimable now c =
    is_pending c.status && is_null_or_due c.next_attempt_at now
    || is_claimed c.status && is_due c.lease_until now

abbrev pub is_claimable_row : ℕ → ℕ → Command → Bool
is_claimable_row id now c = c.id == id && is_claimable now c

abbrev pub claim : Text → ℕ → ℕ → Command → Command
claim owner seconds now c = record c {
  status = claimed;
  lease_owner = some owner;
  lease_until = some (lease_expiry now seconds);
  updated_at = now;
}

unfoldable pub claim_one : OutboundDb → ℕ → Text → ℕ → ℕ → Option Command × OutboundDb
claim_one db id owner seconds now = (
  map_option (claim owner seconds now) (find? (is_claimable_row id now) db.commands),
  record db {
    commands = update_where (is_claimable_row id now) (claim owner seconds now) db.commands;
  },
)

abbrev pub is_listing : Text → Listing → Bool
is_listing id l = text_eq l.id id

abbrev pub is_order : Text → ChannelOrder → Bool
is_order id o = text_eq o.id id

abbrev pub flatten : {A : Type 0} → Option (Option A) → Option A
flatten none = none
flatten (some a) = a

abbrev pub external_ref_of : OutboundDb → Option Text → Option Text
external_ref_of db none = none
external_ref_of db (some order_id) =
    flatten (map_option (λ o. o.external_ref) (find? (is_order order_id) db.orders))

abbrev pub request_of : OutboundDb → Command → CommandRequest
request_of db c = record {
  command_id = c.id;
  command_type = c.command_type;
  api_merchant_id = flatten (
      map_option (λ l. l.api_merchant_id) (find? (is_listing c.aggregator_account_id) db.listings));
  external_ref = external_ref_of db c.order_id;
  payload = c.payload;
  attempt = c.attempts + 1;
}

-- An error that the adapter throws is a retryable failure.
abbrev pub send_result : Answer → SendResult
send_result (returned result) = result
send_result (threw message) = refused retryable message

abbrev pub is_terminal : FailureKind → Bool
is_terminal terminal = true
is_terminal retryable = false

pub data Outcome : Type 0 where
  was_sent was_retried was_dead : Outcome

abbrev pub is_exhausted : FailureKind → ℕ → Bool
is_exhausted kind attempt = is_terminal kind || leb max_send_attempts attempt

-- What the answer to an attempt sets.
unfoldable pub resolved : SendResult → ℕ → ℕ → Command → Command
resolved (accepted provider_ref) attempt now c = record c {
  status = sent;
  attempts = attempt;
  provider_ref = provider_ref;
  last_error = none;
  next_attempt_at = none;
  lease_owner = none;
  lease_until = none;
  updated_at = now;
}
resolved (refused kind message) attempt now c = record c {
  status = if is_exhausted kind attempt then dead else pending;
  attempts = attempt;
  last_error = some message;
  next_attempt_at =
      if is_exhausted kind attempt then none else some (now + outbound_backoff_ms attempt);
  lease_owner = none;
  lease_until = none;
  updated_at = now;
}

abbrev pub outcome_of : SendResult → ℕ → Outcome
outcome_of (accepted provider_ref) attempt = was_sent
outcome_of (refused kind message) attempt =
    if is_exhausted kind attempt then was_dead else was_retried

abbrev pub is_owned_by : Option Text → Text → Bool
is_owned_by none owner = false
is_owned_by (some holder) owner = text_eq holder owner

abbrev pub is_held : ℕ → Text → Command → Bool
is_held id owner c = c.id == id && is_owned_by c.lease_owner owner

-- The resolve of a sent command, on the condition that the row names the owner.
unfoldable pub resolve : OutboundDb → Command → Text → SendResult → ℕ → Outcome × OutboundDb
resolve db c owner result now = (
  outcome_of result (c.attempts + 1),
  record db {
    commands = update_where (is_held c.id owner) (resolved result (c.attempts + 1) now) db.commands;
  },
)

unfoldable pub send_one :
    (CommandRequest → Answer) → OutboundDb → Command → Text → ℕ → Outcome × OutboundDb
send_one send_command db c owner now =
    resolve db c owner (send_result (send_command (request_of db c))) now

pub record Tally : Type 0 where
  pub claimed : ℕ
  pub sent : ℕ
  pub retried : ℕ
  pub dead : ℕ

abbrev pub counted : Outcome → Tally → Tally
counted was_sent t = record t { claimed = t.claimed + 1; sent = t.sent + 1 }
counted was_dead t = record t { claimed = t.claimed + 1; dead = t.dead + 1 }
counted was_retried t = record t { claimed = t.claimed + 1; retried = t.retried + 1 }

-- When a command is claimed, and when its answer is stored.
pub record Times : Type 0 where
  pub claimed_at : ℕ
  pub resolved_at : ℕ

pub record Worker : Type 0 where
  pub send_command : CommandRequest → Answer
  pub lease_owner : Text
  pub lease_seconds : ℕ
  pub clock : ℕ → Times

unfoldable pub process_claimed :
    Worker → ℕ → Option Command × OutboundDb → Tally → Tally × OutboundDb
process_claimed w id (none, db) tally = (tally, db)
process_claimed w id (some c, db) tally =
    let answered = send_one w.send_command db c w.lease_owner (w.clock id).resolved_at in
    (counted answered.0 tally, answered.1)

unfoldable pub process_ids : Worker → List ℕ → Tally × OutboundDb → Tally × OutboundDb
process_ids w [] state = state
process_ids w (id ∷ ids) (tally, db) = process_ids w ids (
    process_claimed w id (claim_one db id w.lease_owner w.lease_seconds (w.clock id).claimed_at)
      tally)

-- `orderBy(asc(createdAt))`
abbrev pub insert_by_age : Command → List Command → List Command
insert_by_age c [] = c ∷ []
insert_by_age c (d ∷ ds) =
    let rest = insert_by_age c ds in if ltb d.created_at c.created_at then d ∷ rest else c ∷ d ∷ ds

abbrev pub by_age : List Command → List Command
by_age [] = []
by_age (c ∷ cs) = insert_by_age c (by_age cs)

unfoldable pub candidates : OutboundDb → ℕ → ℕ → List ℕ
candidates db limit now =
    map (λ c. c.id) (take limit (by_age (select (is_claimable now) db.commands)))

pub record Options : Type 0 where
  pub limit : Option ℕ
  pub lease_seconds : Option ℕ

abbrev pub or_default : Option ℕ → ℕ → ℕ
or_default none d = d
or_default (some n) d = n

abbrev pub limit_of : Options → ℕ
limit_of opts = min_ℕ (max_ℕ (or_default opts.limit 10) 1) 50

abbrev pub lease_seconds_of : Options → ℕ
lease_seconds_of opts = min_ℕ (max_ℕ (or_default opts.lease_seconds default_lease_seconds) 5) 300

-- The worker that a call is.
abbrev pub worker_of : (CommandRequest → Answer) → Options → Text → (ℕ → Times) → Worker
worker_of send_command opts owner clock = record {
  send_command = send_command;
  lease_owner = owner;
  lease_seconds = lease_seconds_of opts;
  clock = clock;
}

unfoldable pub process_commands :
    (CommandRequest → Answer) → OutboundDb → Options → Text → ℕ → (ℕ → Times) → Tally × OutboundDb
process_commands send_command db opts owner now clock =
    process_ids (worker_of send_command opts owner clock) (candidates db (limit_of opts) now)
      (record { claimed = 0; sent = 0; retried = 0; dead = 0 }, db)
