-- ===== src/Outbound/Worker/Turns.antt =====
-- src/modules/outbound/worker.ts: a turn of the loop of `processCommands`, by the row of a command
-- before and after.
use ckitchen_backend.Prelude.{
  ℕ, ◌+◌, ◌≡◌, refl, sym, subst, ap, ◌∙◌, inl, inr, Bool, true, false, Option, none, some, Text,
  arith, find?, ◌==◌, ==_iff, if◌then◌else◌, HasDistinct, has_id, find?-by_id, find?-update_where,
  updated, map_option, keys-update_where, some_eq, find?-holds, find?-narrow, Option-cases,
  Bool-cases, text_eq_refl, ◌&&◌,
}
use ckitchen_backend.Outbound.Types.{Command, OutboundDb, SendResult}
use ckitchen_backend.Outbound.Worker.{
  is_claimable, is_claimable_row, claim, claim_one, resolved, resolve, is_held, send_one,
  send_result, request_of, Worker, Tally, process_claimed,
}
use ckitchen_backend.Outbound.Worker.Leases.{
  id_of, row_of, HasDistinctIds, claimable-keyed, claim_one-HasDistinctIds, claim_one-claimed,
  claim_one-none,
}

-- A turn of the loop: the claim of an id, and the send.
abbrev pub turn : Worker → ℕ → Tally → OutboundDb → Tally × OutboundDb
turn w id tally db =
    process_claimed w id (claim_one db id w.lease_owner w.lease_seconds (w.clock id).claimed_at)
      tally

-- The claimed row, and what the adapter answers to it.
abbrev pub claim_by : Worker → Command → Command
claim_by w c = claim w.lease_owner w.lease_seconds (w.clock c.id).claimed_at c

abbrev pub answer_to : Worker → OutboundDb → Command → SendResult
answer_to w db c = send_result (w.send_command (request_of db (claim_by w c)))

-- One attempt: an eligible command is claimed and resolved.
abbrev pub attempt : Worker → OutboundDb → Command → Command
attempt w db c =
    if is_claimable (w.clock c.id).claimed_at c
    then resolved (answer_to w db c) (c.attempts + 1) (w.clock c.id).resolved_at (claim_by w c)
    else c

pub resolved-id :
    (result : SendResult) (attempt now : ℕ) (c : Command)
    → (resolved result attempt now c).id ≡ c.id
unfolding resolved
resolved-id (SendResult.accepted provider_ref) attempt now c = refl
resolved-id (SendResult.refused kind message) attempt now c = refl

resolve-row :
    (db : OutboundDb) (c : Command) (owner : Text) (result : SendResult) (now id : ℕ)
    → row_of id (resolve db c owner result now).1
      ≡ map_option
          (updated (is_held c.id owner) (resolved result (c.attempts + 1) now))
          (row_of id db)
unfolding resolve
resolve-row db c owner result now id =
    find?-update_where (is_held c.id owner) (has_id id_of id) (resolved result (c.attempts + 1) now)
      (λ x. ap (λ i. i == id) (resolved-id result (c.attempts + 1) now x)) db.commands

pub resolve-HasDistinctIds :
    (db : OutboundDb) (c : Command) (owner : Text) (result : SendResult) (now : ℕ)
    → HasDistinctIds db
    → HasDistinctIds (resolve db c owner result now).1
unfolding resolve
resolve-HasDistinctIds db c owner result now distinct =
    subst HasDistinct
      (sym (
        keys-update_where id_of (is_held c.id owner) (resolved result (c.attempts + 1) now)
          (resolved-id result (c.attempts + 1) now) db.commands))
      distinct

-- A turn of a worker that claims nothing, and of one that claims a row.
turn-idle :
    (w : Worker) (id : ℕ) (tally : Tally) (db : OutboundDb)
    → find? (is_claimable_row id (w.clock id).claimed_at) db.commands ≡ none
    → (turn w id tally db).1 ≡ db
unfolding process_claimed
turn-idle w id tally db missed =
    rw (claim_one-none db id w.lease_owner w.lease_seconds (w.clock id).claimed_at missed) refl

abbrev claimed_db : Worker → ℕ → OutboundDb → OutboundDb
claimed_db w id db = (claim_one db id w.lease_owner w.lease_seconds (w.clock id).claimed_at).1

turn-claimed :
    (w : Worker) (id : ℕ) (tally : Tally) (db : OutboundDb) {c : Command}
    → find? (is_claimable_row id (w.clock id).claimed_at) db.commands ≡ some c
    → (turn w id tally db).1
      ≡ (resolve
          (claimed_db w id db)
          (claim w.lease_owner w.lease_seconds (w.clock id).claimed_at c)
          w.lease_owner
          (send_result (
            w.send_command
              (request_of db (claim w.lease_owner w.lease_seconds (w.clock id).claimed_at c))))
          (w.clock id).resolved_at).1
unfolding process_claimed send_one claim_one
turn-claimed w id tally db found = rw found refl

attempt-idle :
    (w : Worker) (db : OutboundDb) (c : Command)
    → is_claimable (w.clock c.id).claimed_at c ≡ false
    → attempt w db c ≡ c
attempt-idle w db c h = rw h refl

-- An update of other rows leaves the row of an id.
untouched :
    (q : Command → Bool) (f : Command → Command) (other : ℕ) {c : Command} {r : Option Command}
    → ((y : Command) → has_id id_of other y ≡ true → q y ≡ false)
    → r ≡ some c
    → has_id id_of other c ≡ true
    → map_option (updated q f) r ≡ some c
untouched q f other {c} elsewhere found keyed =
    ap (map_option (updated q f)) found ∙ ap some (miss (elsewhere c keyed))
  where
    miss : q c ≡ false → updated q f c ≡ c
    miss h = rw h refl

not_held :
    (x y : Command) (owner : Text) (id other now : ℕ)
    → is_claimable_row id now x ≡ true
    → (id == other) ≡ false
    → has_id id_of other y ≡ true
    → is_held x.id owner y ≡ false
not_held x y owner id other now claimed differ keyed = ground (arith, claimed, differ, keyed)

-- The claim of another id leaves the row.
other_claim :
    (w : Worker) (id other : ℕ) (db : OutboundDb) {c : Command}
    → (id == other) ≡ false
    → row_of other db ≡ some c
    → row_of other (claimed_db w id db) ≡ some c
unfolding claim_one
other_claim w id other db {c} differ found =
    find?-update_where (is_claimable_row id (w.clock id).claimed_at) (has_id id_of other)
      (claim w.lease_owner w.lease_seconds (w.clock id).claimed_at) (λ x. refl) db.commands
    ∙ untouched (is_claimable_row id (w.clock id).claimed_at)
        (claim w.lease_owner w.lease_seconds (w.clock id).claimed_at) other
        (λ y keyed. ground (arith, keyed, differ)) found
        (find?-holds (has_id id_of other) db.commands found)

own_turn :
    (w : Worker) (tally : Tally) (db : OutboundDb) {c : Command}
    → HasDistinctIds db
    → row_of c.id db ≡ some c
    → row_of c.id (turn w c.id tally db).1 ≡ some (attempt w db c)
own_turn w tally db {c} distinct found =
    elim (Option-cases (find? (is_claimable_row c.id (w.clock c.id).claimed_at) db.commands)) [
      | inl missed ↦
          ap (row_of c.id) (turn-idle w c.id tally db missed)
          ∙ found
          ∙ ap some (sym (attempt-idle w db c (not_claimable missed)))
      | inr (x, hit) ↦
          let same : x ≡ c = some_eq (
            sym (
              find?-by_id id_of (is_claimable_row c.id (w.clock c.id).claimed_at) c.id
                (claimable-keyed c.id (w.clock c.id).claimed_at) db.commands distinct hit)
            ∙ found) in
          attempted (
            subst
              (λ y. find? (is_claimable_row c.id (w.clock c.id).claimed_at) db.commands ≡ some y)
              same hit)
    ]
  where
    not_claimable :
        find? (is_claimable_row c.id (w.clock c.id).claimed_at) db.commands ≡ none
        → is_claimable (w.clock c.id).claimed_at c ≡ false
    not_claimable missed = elim (Bool-cases (is_claimable (w.clock c.id).claimed_at c)) [
      | inl h ↦ absurd (
          conflict missed (
            find?-narrow (has_id id_of c.id) (is_claimable_row c.id (w.clock c.id).claimed_at)
              (claimable-keyed c.id (w.clock c.id).claimed_at) db.commands found (keyed_and h)))
      | inr h ↦ h
    ]
      where
        conflict : {r : Option Command} → r ≡ none → r ≡ some c → ⊥
        conflict e h = cc

        keyed_and :
            is_claimable (w.clock c.id).claimed_at c ≡ true
            → is_claimable_row c.id (w.clock c.id).claimed_at c ≡ true
        keyed_and h = rw ((==_iff c.id c.id).1 refl, h) refl

    held :
        updated
          (is_held c.id w.lease_owner)
          (resolved (answer_to w db c) (c.attempts + 1) (w.clock c.id).resolved_at)
          (claim_by w c)
        ≡ resolved (answer_to w db c) (c.attempts + 1) (w.clock c.id).resolved_at (claim_by w c)
    held = rw ((==_iff c.id c.id).1 refl, text_eq_refl w.lease_owner) refl

    eligible :
        is_claimable_row c.id (w.clock c.id).claimed_at c ≡ true
        → attempt w db c
          ≡ resolved (answer_to w db c) (c.attempts + 1) (w.clock c.id).resolved_at (claim_by w c)
    eligible h = rw (right (c.id == c.id) (is_claimable (w.clock c.id).claimed_at c) h) refl
      where
        right : (a b : Bool) → (a && b) ≡ true → b ≡ true
        right true b h = h
        right false b h = cc

    attempted :
        find? (is_claimable_row c.id (w.clock c.id).claimed_at) db.commands ≡ some c
        → row_of c.id (turn w c.id tally db).1 ≡ some (attempt w db c)
    attempted hit =
        ap (row_of c.id) (turn-claimed w c.id tally db hit)
        ∙ resolve-row (claimed_db w c.id db) (claim_by w c) w.lease_owner _
            (w.clock c.id).resolved_at c.id
        ∙ ap
            (map_option (
              updated (is_held c.id w.lease_owner)
                (resolved (answer_to w db c) (c.attempts + 1) (w.clock c.id).resolved_at)))
            (claim_one-claimed db c.id w.lease_owner w.lease_seconds (w.clock c.id).claimed_at
              distinct hit)
        ∙ ap some (
            held
            ∙ sym (
                eligible
                  (find?-holds (is_claimable_row c.id (w.clock c.id).claimed_at) db.commands hit)))

-- A turn attempts the command of its id, if it is eligible.
pub turn-row :
    (w : Worker) (id : ℕ) (tally : Tally) (db : OutboundDb) {c : Command}
    → HasDistinctIds db
    → row_of id db ≡ some c
    → row_of id (turn w id tally db).1 ≡ some (attempt w db c)
turn-row w id tally db {c} distinct found =
    subst (λ i. row_of i db ≡ some c → row_of i (turn w i tally db).1 ≡ some (attempt w db c))
      ((==_iff c.id id).0 (find?-holds (has_id id_of id) db.commands found))
      (λ here. own_turn w tally db distinct here) found

-- It leaves the other commands.
pub turn-others :
    (w : Worker) (id other : ℕ) (tally : Tally) (db : OutboundDb) {c : Command}
    → (id == other) ≡ false
    → row_of other db ≡ some c
    → row_of other (turn w id tally db).1 ≡ some c
turn-others w id other tally db {c} differ found =
    elim (Option-cases (find? (is_claimable_row id (w.clock id).claimed_at) db.commands)) [
      | inl missed ↦ ap (row_of other) (turn-idle w id tally db missed) ∙ found
      | inr (x, hit) ↦
          ap (row_of other) (turn-claimed w id tally db hit)
          ∙ resolve-row (claimed_db w id db) _ w.lease_owner _ (w.clock id).resolved_at other
          ∙ untouched (is_held x.id w.lease_owner) (resolved _ _ (w.clock id).resolved_at) other
              (λ y keyed.
                not_held x y w.lease_owner id other (w.clock id).claimed_at
                  (find?-holds (is_claimable_row id (w.clock id).claimed_at) db.commands hit) differ
                  keyed)
              (other_claim w id other db differ found)
              (find?-holds (has_id id_of other) db.commands found)
    ]

pub turn-HasDistinctIds :
    (w : Worker) (id : ℕ) (tally : Tally) (db : OutboundDb)
    → HasDistinctIds db
    → HasDistinctIds (turn w id tally db).1
turn-HasDistinctIds w id tally db distinct =
    elim (Option-cases (find? (is_claimable_row id (w.clock id).claimed_at) db.commands)) [
      | inl missed ↦ subst HasDistinctIds (sym (turn-idle w id tally db missed)) distinct
      | inr (c, hit) ↦ subst HasDistinctIds (sym (turn-claimed w id tally db hit)) (
          resolve-HasDistinctIds (claimed_db w id db) _ w.lease_owner _ (w.clock id).resolved_at (
            claim_one-HasDistinctIds db id w.lease_owner w.lease_seconds (w.clock id).claimed_at
              distinct))
    ]

pub turn-listings :
    (w : Worker) (id : ℕ) (tally : Tally) (db : OutboundDb)
    → ((turn w id tally db).1.listings ≡ db.listings) × ((turn w id tally db).1.orders ≡ db.orders)
unfolding process_claimed send_one claim_one resolve
turn-listings w id tally db =
    elim (Option-cases (find? (is_claimable_row id (w.clock id).claimed_at) db.commands)) [
      | inl missed ↦ rw missed (refl, refl)
      | inr (c, hit) ↦ rw hit (refl, refl)
    ]
