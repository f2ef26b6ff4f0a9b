-- ===== src/Outbound/Worker/Settled.antt =====
-- src/modules/outbound/worker.ts: a command is sent or dead after at most `MAX_SEND_ATTEMPTS` calls of
-- `processCommands`, whatever the adapter answers.
use ckitchen_backend.Prelude.{Text, Bool, if◌then◌else◌, Bool-cases}
use ckitchen_backend.Outbound.Types.{CommandRequest, Answer}
use ckitchen_backend.Outbound.Worker.{
  Options, Times, is_claimable, limit_of, candidates, process_commands, worker_of,
}
use ckitchen_backend.Prelude.{
  ℕ, suc, ◌+◌, ◌≤◌, ◌<◌, ◌≡◌, ◌⊎◌, refl, sym, subst, inl, inr, true, false, Option, none, some,
  List, [], length, ◌∷◌, arith, leb, ==_iff, find?-holds, has_id, includes, Bool-cases,
}
use ckitchen_backend.Prelude.{or_false}
use ckitchen_backend.Outbound.Types.{
  CommandStatus, sent, dead, pending, is_pending, is_claimed, Command, OutboundDb, SendResult,
  accepted, refused,
}
use ckitchen_backend.Outbound.Policies.{
  max_send_attempts, outbound_backoff_ms, outbound_backoff_ms-bounds,
}
use ckitchen_backend.Outbound.Worker.{is_null_or_due, is_exhausted, is_terminal, resolved, Worker}
use ckitchen_backend.Outbound.Worker.Leases.{row_of, HasDistinctIds, id_of}
use ckitchen_backend.Outbound.Worker.Turns.{attempt, answer_to, claim_by}
use ckitchen_backend.Outbound.Worker.Attempts.{
  process_commands-row, process_commands-HasDistinctIds,
}

-- A call of `processCommands`.
pub record Round : Type 0 where
  pub send_command : CommandRequest → Answer
  pub opts : Options
  pub owner : Text
  pub now : ℕ
  pub clock : ℕ → Times

unfoldable pub run_round : Round → OutboundDb → OutboundDb
run_round r db = (process_commands r.send_command db r.opts r.owner r.now r.clock).1

unfoldable pub run_rounds : List Round → OutboundDb → OutboundDb
run_rounds [] db = db
run_rounds (r ∷ rs) db = run_rounds rs (run_round r db)

abbrev worker_in : Round → Worker
worker_in r = worker_of r.send_command r.opts r.owner r.clock

-- The longest wait.
abbrev pub max_wait : ℕ
max_wait = 9000

-- Each round begins when the wait of the last is over, claims after it begins, and takes the command
-- among its candidates if the command is eligible.
abbrev pub AreFair : ℕ → ℕ → OutboundDb → List Round → Type 0
AreFair id time db [] = Unit
AreFair id time db (r ∷ rs) =
    (time ≤ r.now)
    × (r.now ≤ (r.clock id).claimed_at)
    × ((c : Command)
        → row_of id db ≡ some c
        → is_claimable r.now c ≡ true
        → includes (candidates db (limit_of r.opts) r.now) id ≡ true)
    × AreFair id ((r.clock id).resolved_at + max_wait) (run_round r db) rs

abbrev pub IsSettled : Command → Type 0
IsSettled c = (c.status ≡ sent) ⊎ (c.status ≡ dead)

-- Waiting for an attempt that is due at the time.
abbrev pub IsWaiting : ℕ → Command → Type 0
IsWaiting time c =
    (c.status ≡ pending)
    × (c.attempts < max_send_attempts)
    × (is_null_or_due c.next_attempt_at time ≡ true)

-- Settled, or waiting with no more than a number of attempts left.
abbrev HasLeft : ℕ → ℕ → Command → Type 0
HasLeft left time c = IsSettled c ⊎ (IsWaiting time c × (max_send_attempts ≤ c.attempts + left))

resolved-HasLeft :
    (result : SendResult) (left now : ℕ) (c : Command)
    → c.attempts < max_send_attempts
    → max_send_attempts ≤ c.attempts + suc left
    → HasLeft left (now + max_wait) (resolved result (c.attempts + 1) now c)
unfolding resolved
resolved-HasLeft (accepted provider_ref) left now c few enough = inl (inl refl)
resolved-HasLeft (refused kind message) left now c few enough =
    elim (Bool-cases (is_exhausted kind (c.attempts + 1))) [
      | inl over ↦ inl (inr (rw over refl))
      | inr more ↦
          let last : leb max_send_attempts (c.attempts + 1) ≡ false =
            (or_false (is_terminal kind) more).1 in
          inr (
            (rw more refl, ground (arith, last), rw more (soon (c.attempts + 1))),
            ground (arith, enough),
          )
    ]
  where
    soon : (attempts : ℕ) → leb (now + outbound_backoff_ms attempts) (now + max_wait) ≡ true
    soon attempts = ground (arith, outbound_backoff_ms-bounds attempts)

waiting-claimable :
    (time now : ℕ) (c : Command) → time ≤ now → IsWaiting time c → is_claimable now c ≡ true
waiting-claimable time now c early (waiting, few, due) =
    rw (waiting, still_due c.next_attempt_at due) refl
  where
    still_due : (wait : Option ℕ) → is_null_or_due wait time ≡ true → is_null_or_due wait now ≡ true
    still_due none h = refl
    still_due (some t) h = ground (arith, early, h)

attempt-HasLeft :
    (w : Worker) (db : OutboundDb) (left time : ℕ) (c : Command)
    → time ≤ (w.clock c.id).claimed_at
    → HasLeft (suc left) time c
    → HasLeft left ((w.clock c.id).resolved_at + max_wait) (attempt w db c)
attempt-HasLeft w db left time c late (inl settled) =
    inl (subst IsSettled (sym (kept (idle c.status settled))) settled)
  where
    idle :
        (s : CommandStatus)
        → (s ≡ sent) ⊎ (s ≡ dead)
        → (is_pending s ≡ false) × (is_claimed s ≡ false)
    idle s (inl e) = rw e (refl, refl)
    idle s (inr e) = rw e (refl, refl)

    kept : (is_pending c.status ≡ false) × (is_claimed c.status ≡ false) → attempt w db c ≡ c
    kept (p, q) = rw (p, q) refl
attempt-HasLeft w db left time c late (inr (waiting, enough)) =
    subst (HasLeft left ((w.clock c.id).resolved_at + max_wait))
      (sym (made (waiting-claimable time (w.clock c.id).claimed_at c late waiting)))
      (resolved-HasLeft (answer_to w db c) left (w.clock c.id).resolved_at (claim_by w c) waiting.1
        enough)
  where
    made :
        is_claimable (w.clock c.id).claimed_at c ≡ true
        → attempt w db c
          ≡ resolved (answer_to w db c) (c.attempts + 1) (w.clock c.id).resolved_at (claim_by w c)
    made h = rw h refl

-- A settled command stays in a round, and one that waits is attempted.
round-HasLeft :
    (r : Round) (left time id : ℕ) (db : OutboundDb) (c : Command)
    → c.id ≡ id
    → time ≤ r.now
    → r.now ≤ (r.clock id).claimed_at
    → (is_claimable r.now c ≡ true → includes (candidates db (limit_of r.opts) r.now) id ≡ true)
    → HasLeft (suc left) time c
    → HasLeft left ((r.clock id).resolved_at + max_wait) (
        if includes (candidates db (limit_of r.opts) r.now) id
        then attempt (worker_in r) db c
        else c)
round-HasLeft r left time id db c same early late fair state =
    elim (Bool-cases (includes (candidates db (limit_of r.opts) r.now) id)) [
      | inl e ↦ rw e (
          subst
            (λ i. HasLeft left ((r.clock i).resolved_at + max_wait) (attempt (worker_in r) db c))
            same
            (attempt-HasLeft (worker_in r) db left time c
              (subst (λ i. time ≤ (r.clock i).claimed_at) (sym same) (ground (arith, early, late)))
              state))
      | inr e ↦ rw e (skipped e state)
    ]
  where
    differ : {b : Bool} → b ≡ true → b ≡ false → ⊥
    differ h e = cc

    skipped :
        includes (candidates db (limit_of r.opts) r.now) id ≡ false
        → HasLeft (suc left) time c
        → HasLeft left ((r.clock id).resolved_at + max_wait) c
    skipped e (inl settled) = inl settled
    skipped e (inr (waiting, enough)) =
        absurd (differ (fair (waiting-claimable time r.now c early waiting)) e)

run_round-row :
    (r : Round) (id : ℕ) (db : OutboundDb) {c : Command}
    → HasDistinctIds db
    → row_of id db ≡ some c
    → row_of id (run_round r db)
      ≡ some (
          if includes (candidates db (limit_of r.opts) r.now) id
          then attempt (worker_in r) db c
          else c)
unfolding run_round
run_round-row r id db distinct found =
    process_commands-row r.send_command db r.opts r.owner r.now r.clock id distinct found

run_round-HasDistinctIds :
    (r : Round) (db : OutboundDb) → HasDistinctIds db → HasDistinctIds (run_round r db)
unfolding run_round
run_round-HasDistinctIds r db distinct =
    process_commands-HasDistinctIds r.send_command db r.opts r.owner r.now r.clock distinct

rounds-HasLeft :
    (rounds : List Round) (time id : ℕ) (db : OutboundDb) {c : Command}
    → HasDistinctIds db
    → AreFair id time db rounds
    → row_of id db ≡ some c
    → HasLeft (length rounds) time c
    → (d : Command) × (row_of id (run_rounds rounds db) ≡ some d) × IsSettled d
unfolding run_rounds
rounds-HasLeft [] time id db {c} distinct fair found (inl settled) = (c, found, settled)
rounds-HasLeft [] time id db {c} distinct fair found (inr ((waiting, few, due), enough)) =
    absurd (ground (arith, few, enough))
rounds-HasLeft (r ∷ rs) time id db {c} distinct (early, late, fair, later) found state =
    rounds-HasLeft rs ((r.clock id).resolved_at + max_wait) id (run_round r db)
      (run_round-HasDistinctIds r db distinct) later (run_round-row r id db distinct found)
      (round-HasLeft r (length rs) time id db c
        ((==_iff c.id id).0 (find?-holds (has_id id_of id) db.commands found)) early late
        (fair c found) state)

-- Where the ids of the commands are distinct, a command that waits is sent or dead after as many calls
-- of processCommands as it has attempts left of three, whatever the adapters answer or throw, if each
-- call begins when the longest wait after the last is over and has the command among its candidates
-- when it is eligible.
pub run_rounds-settles :
    (rounds : List Round) (time id : ℕ) (db : OutboundDb) {c : Command}
    → HasDistinctIds db
    → AreFair id time db rounds
    → row_of id db ≡ some c
    → IsWaiting time c
    → max_send_attempts ≤ c.attempts + length rounds
    → (d : Command) × (row_of id (run_rounds rounds db) ≡ some d) × IsSettled d
run_rounds-settles rounds time id db distinct fair found waiting enough =
    rounds-HasLeft rounds time id db distinct fair found (inr (waiting, enough))
