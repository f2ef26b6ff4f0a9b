-- ===== src/Outbound/Worker/Attempts.antt =====
-- src/modules/outbound/worker.ts: what a call of `processCommands` does to one command, namely at most
-- one attempt, by the row of its id before and after.
use ckitchen_backend.Prelude.{
  ℕ, ◌≡◌, refl, sym, subst, ap, ◌∙◌, inl, inr, true, false, Option, none, some, List, [], ◌∷◌, Text,
  ◌==◌, ==_iff, HasDistinct, includes, Bool-cases,
}
use ckitchen_backend.Prelude.{or_false, if◌then◌else◌, Text}
use ckitchen_backend.Outbound.Types.{CommandRequest, Answer}
use ckitchen_backend.Outbound.Worker.{
  Options, Times, limit_of, candidates, process_commands, worker_of,
}
use ckitchen_backend.Outbound.Worker.Candidates.{candidates-HasDistinct}
use ckitchen_backend.Outbound.Types.{Command, OutboundDb}
use ckitchen_backend.Outbound.Worker.{external_ref_of, Worker, Tally, process_ids}
use ckitchen_backend.Outbound.Worker.Leases.{row_of, HasDistinctIds}
use ckitchen_backend.Outbound.Worker.Turns.{
  turn, attempt, turn-row, turn-others, turn-HasDistinctIds, turn-listings,
}

attempt-by :
    (w : Worker) (db db₁ : OutboundDb) (c : Command)
    → (db₁.listings ≡ db.listings) × (db₁.orders ≡ db.orders)
    → attempt w db₁ c ≡ attempt w db c
attempt-by w db db₁ c (listings, orders) = rw (listings, external_ref_of-by c.order_id) refl
  where
    external_ref_of-by : (id : Option Text) → external_ref_of db₁ id ≡ external_ref_of db id
    external_ref_of-by none = refl
    external_ref_of-by (some id) = rw orders refl

-- The loop leaves the commands that are not among its ids,
pub process_ids-others :
    (w : Worker) (ids : List ℕ) (other : ℕ) (state : Tally × OutboundDb) {c : Command}
    → includes ids other ≡ false
    → row_of other state.1 ≡ some c
    → row_of other (process_ids w ids state).1 ≡ some c
unfolding process_ids
process_ids-others w [] other state absent found = found
process_ids-others w (id ∷ ids) other (tally, db) absent found =
    process_ids-others w ids other (turn w id tally db) (or_false (id == other) absent).1
      (turn-others w id other tally db (or_false (id == other) absent).0 found)

-- and attempts each of the others once, on the tables as they were.
pub process_ids-row :
    (w : Worker) (ids : List ℕ) (id : ℕ) (state : Tally × OutboundDb) {c : Command}
    → HasDistinct ids
    → HasDistinctIds state.1
    → includes ids id ≡ true
    → row_of id state.1 ≡ some c
    → row_of id (process_ids w ids state).1 ≡ some (attempt w state.1 c)
unfolding process_ids
process_ids-row w [] id state ids_distinct distinct among found = cc
process_ids-row w (first ∷ ids) id (tally, db) {c} ids_distinct distinct among found =
    elim (Bool-cases (first == id)) [
      | inl e ↦
          process_ids-others w ids id (turn w first tally db)
            (subst (λ i. includes ids i ≡ false) ((==_iff first id).0 e) ids_distinct.0)
            (subst (λ i. row_of id (turn w i tally db).1 ≡ some (attempt w db c))
              (sym ((==_iff first id).0 e)) (turn-row w id tally db distinct found))
      | inr e ↦
          process_ids-row w ids id (turn w first tally db) ids_distinct.1
            (turn-HasDistinctIds w first tally db distinct) (rw e at among)
            (turn-others w first id tally db e found)
          ∙ ap some (attempt-by w db (turn w first tally db).1 c (turn-listings w first tally db))
    ]

pub process_ids-HasDistinctIds :
    (w : Worker) (ids : List ℕ) (state : Tally × OutboundDb)
    → HasDistinctIds state.1
    → HasDistinctIds (process_ids w ids state).1
unfolding process_ids
process_ids-HasDistinctIds w [] state distinct = distinct
process_ids-HasDistinctIds w (id ∷ ids) (tally, db) distinct =
    process_ids-HasDistinctIds w ids (turn w id tally db)
      (turn-HasDistinctIds w id tally db distinct)

-- Where the ids of the commands are distinct, a call attempts each of its candidates once, on the
-- tables as it found them, and leaves the other commands.
pub process_commands-row :
    (send_command : CommandRequest → Answer) (db : OutboundDb) (opts : Options) (owner : Text)
    (now : ℕ) (clock : ℕ → Times) (id : ℕ) {c : Command}
    → HasDistinctIds db
    → row_of id db ≡ some c
    → row_of id (process_commands send_command db opts owner now clock).1
      ≡ some (
          if includes (candidates db (limit_of opts) now) id
          then attempt (worker_of send_command opts owner clock) db c
          else c)
unfolding process_commands
process_commands-row send_command db opts owner now clock id {c} distinct found =
    elim (Bool-cases (includes (candidates db (limit_of opts) now) id)) [
      | inl e ↦
          process_ids-row (worker_of send_command opts owner clock)
            (candidates db (limit_of opts) now) id (_, db)
            (candidates-HasDistinct db (limit_of opts) now distinct) distinct e found
          ∙ ap some (taken e)
      | inr e ↦
          process_ids-others (worker_of send_command opts owner clock)
            (candidates db (limit_of opts) now) id (_, db) e found
          ∙ ap some (left e)
    ]
  where
    taken :
        includes (candidates db (limit_of opts) now) id ≡ true
        → attempt (worker_of send_command opts owner clock) db c ≡ (
            if includes (candidates db (limit_of opts) now) id
            then attempt (worker_of send_command opts owner clock) db c
            else c)
    taken e = rw e refl

    left :
        includes (candidates db (limit_of opts) now) id ≡ false
        → c ≡ (
            if includes (candidates db (limit_of opts) now) id
            then attempt (worker_of send_command opts owner clock) db c
            else c)
    left e = rw e refl

pub process_commands-HasDistinctIds :
    (send_command : CommandRequest → Answer) (db : OutboundDb) (opts : Options) (owner : Text)
    (now : ℕ) (clock : ℕ → Times)
    → HasDistinctIds db
    → HasDistinctIds (process_commands send_command db opts owner now clock).1
unfolding process_commands
process_commands-HasDistinctIds send_command db opts owner now clock distinct =
    process_ids-HasDistinctIds (worker_of send_command opts owner clock)
      (candidates db (limit_of opts) now) (_, db) distinct
