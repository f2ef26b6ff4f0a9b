-- ===== src/Stock/Posting/Conservation.antt =====
-- What a new posting does to the balances.
use ckitchen_backend.Prelude.{
  ℕ, ◌≡◌, refl, sym, ap, ◌∙◌, true, Option, none, some, List, [], ◌∷◌, find?, find?-holds,
  find?-All, map_option, not, any, update_where, throw_if-eq-ok, Bool-cases, All, ok, ok-injective,
  inl, inr, arith,
}
use ckitchen_backend.Prelude.Int.{◌+ℤ◌, int_laws}
use ckitchen_backend.Stock.Types.{
  PostingInput, Movement, DocumentPolicy, PostingResult, Document, Posting, Balance, Db,
}
use ckitchen_backend.Stock.Canonical.{Plan, canonical_movements, plan_of}
use ckitchen_backend.Stock.Locks.{KeyState, is_row, keys_of}
use ckitchen_backend.Stock.Locks.Rows.{
  on_hand_of, on_hand_at, reserved_of, reserved_at, IsSound, ensure_balances-same,
  ensure_balances-IsSound,
}
use ckitchen_backend.Stock.Locks.Laws.{Locked, lock_movement_keys-Locked, item_of}
use ckitchen_backend.Stock.Ledger.{new_balance, is_unchanged, write_balances}
use ckitchen_backend.Stock.Ledger.Plan.{is_at, net_at, moved, plan_lines-find, net_at-of_none}
use ckitchen_backend.Stock.Ledger.Writes.{Tracks, row_after, write_balances_complete}
use ckitchen_backend.Stock.Ledger.Kept.{plan_lines-Held, plan_lines-Apart}
use ckitchen_backend.Stock.Posting.{Env, Dependencies, has_key, execute_posting}
use ckitchen_backend.Stock.Posting.Runs.{
  Run, Claimed, Outcome, answered, claimed, execute_posting-eq-ok,
}

module _ (env : Env) (deps : Dependencies) (db : Db) (input : PostingInput)
    (policy : DocumentPolicy) (allowed : Option (List ℕ)) (document : Document) (request_hash : ℕ)
    (movements : List Movement) {r : PostingResult} {db' : Db}
    (c : Claimed env deps db input policy allowed document request_hash movements r db')
    (sound : All IsSound db.balances) where
  locked : Locked db movements c.states c.ready
  locked =
      lock_movement_keys-Locked db policy.route_class input.location_id allowed env.today movements
        sound c.locked_eq

  -- The row of a warehouse and lot after the posting, by its state when it was locked.
  row_written :
      (w l : ℕ)
      → find? (is_row w l) c.balances
        ≡ row_after
            (map_option (moved (net_at w l movements)) (find? (is_at w l) c.states))
            (find? (is_row w l) c.ready)
  row_written w l =
      let held =
        plan_lines-Held c.ready 1 movements c.states locked.tracks locked.covers c.planned_eq in
      let apart = plan_lines-Apart 1 movements c.states locked.apart c.planned_eq in
      let (bs', done, rows) = write_balances_complete c.planned c.ready held.0 apart held.1 in
      let same : bs' ≡ c.balances = ok-injective (sym done ∙ c.balances_eq) in
      let found =
        plan_lines-find (item_of db.lots) w l 1 movements c.states locked.moves_fit
          locked.states_fit c.planned_eq in
      ap (find? (is_row w l)) (sym same)
      ∙ rows w l
      ∙ ap (λ (o : Option KeyState). row_after o (find? (is_row w l) c.ready)) found

  abbrev AddsNet : ℕ → ℕ → Type 0
  AddsNet w l =
      (on_hand_at w l c.balances ≡ on_hand_at w l c.ready +ℤ net_at w l movements)
      × (reserved_at w l c.balances ≡ reserved_at w l c.ready)

  adds_net : (w l : ℕ) (o : Option KeyState) → find? (is_at w l) c.states ≡ o → AddsNet w l
  adds_net w l none e =
      let zero =
        net_at-of_none (item_of db.lots) w l 1 movements c.states locked.moves_fit locked.states_fit
          c.planned_eq e in
      let row : find? (is_row w l) c.balances ≡ find? (is_row w l) c.ready =
        row_written w l ∙ rw e in
      (rw (row, zero) (omega int_laws), rw row)
  adds_net w l (some s) e =
      let here = find?-holds (is_at w l) c.states e in
      let t : Tracks c.ready s = find?-All (Tracks c.ready) (is_at w l) c.states locked.tracks e in
      let fresh : s.current_on_hand ≡ s.initial_on_hand =
        find?-All (λ s. s.current_on_hand ≡ s.initial_on_hand) (is_at w l) c.states locked.fresh
          e in
      let ew : s.warehouse_id ≡ w = ground arith in
      let el : s.lot_id ≡ l = ground arith in
      let before : find? (is_row w l) c.ready ≡ some t.row =
        (λ i. find? (is_row (sym ew i) (sym el i)) c.ready) ∙ t.row_eq in
      let after : find? (is_row w l) c.balances
          ≡ some (new_balance (moved (net_at w l movements) s) t.row) =
        row_written w l ∙ rw (e, before) in
      (rw (after, before, fresh, t.on_hand_eq), rw (after, before))

  claimed_adds_net :
      (w l : ℕ)
      → (on_hand_at w l db'.balances ≡ on_hand_at w l db.balances +ℤ net_at w l movements)
        × (reserved_at w l db'.balances ≡ reserved_at w l db.balances)
  claimed_adds_net w l =
      let written : db'.balances ≡ c.balances = ap (λ (d : Db). d.balances) c.db_eq in
      let (added, kept) = adds_net w l (find? (is_at w l) c.states) refl in
      let ready = locked.balances_eq in
      let on_hand : on_hand_at w l c.ready ≡ on_hand_at w l db.balances =
        ap (on_hand_at w l) ready
        ∙ ensure_balances-same on_hand_of w l movements (keys_of movements) db.balances refl
            (λ v k. refl) in
      let reserved : reserved_at w l c.ready ≡ reserved_at w l db.balances =
        ap (reserved_at w l) ready
        ∙ ensure_balances-same reserved_of w l movements (keys_of movements) db.balances refl
            (λ v k. refl) in
      (
        ap (on_hand_at w l) written ∙ added ∙ ap (λ z. z +ℤ net_at w l movements) on_hand,
        ap (reserved_at w l) written ∙ kept ∙ reserved,
      )

-- The writes keep the check constraints of the balances.
write_balances-IsSound :
    (ss : List KeyState) (bs bs' : List Balance)
    → write_balances ss bs ≡ ok bs'
    → All IsSound bs
    → All IsSound bs'
unfolding write_balances
write_balances-IsSound [] bs bs' h sound = rw (← ok-injective h) sound
write_balances-IsSound (s ∷ ss) bs bs' h sound =
    let (_, h₁) = throw_if-eq-ok (not (any (is_unchanged s) bs)) _ _ h in
    write_balances-IsSound ss (update_where (is_unchanged s) (new_balance s) bs) bs' h₁
      (updates bs sound)
  where
    one : (b : Balance) → is_unchanged s b ≡ true → IsSound b → IsSound (new_balance s b)
    one b hit h = (h.0, ground arith)

    updates :
        (rows : List Balance)
        → All IsSound rows
        → All IsSound (update_where (is_unchanged s) (new_balance s) rows)
    updates [] h = tt
    updates (b ∷ rows) h = elim (Bool-cases (is_unchanged s b)) [
      | inl e ↦ rw e (one b e h.0, updates rows h.1)
      | inr e ↦ rw e (h.0, updates rows h.1)
    ]

module _ (hash : Plan → ℕ) (env : Env) (deps : Dependencies) (db : Db) (input : PostingInput)
    {r : PostingResult} {db' : Db} where
  -- A posting under a new key changes what each warehouse holds of each lot by exactly the net of the
  -- canonical movements there, and no reservation, if the stored balances satisfy their check
  -- constraints (no reservation below 0 or above the amount on hand).
  pub execute_posting-balances :
      execute_posting hash env deps db input ≡ ok (r, db')
      → find? (has_key input.idempotency_key) db.postings ≡ none
      → All IsSound db.balances
      → (ms : List Movement) → canonical_movements input ≡ ok ms
      → (w l : ℕ)
      → (on_hand_at w l db'.balances ≡ on_hand_at w l db.balances +ℤ net_at w l ms)
        × (reserved_at w l db'.balances ≡ reserved_at w l db.balances)
  execute_posting-balances h fresh sound ms canonical w l =
      let run = execute_posting-eq-ok hash env deps db input h in
      let same : run.movements ≡ ms = ok-injective (sym run.movements_eq ∙ canonical) in
      end_of run run.outcome same
    where
      clash : {o : Option Posting} {row : Posting} → o ≡ some row → o ≡ none → ⊥
      clash e f = cc

      end_of :
          (run : Run hash env deps db input r db')
          → Outcome env deps db input run.policy run.actor.allowed_location_ids run.document
              (hash (plan_of input run.movements))
              run.movements
              r
              db'
          → run.movements ≡ ms
          → (on_hand_at w l db'.balances ≡ on_hand_at w l db.balances +ℤ net_at w l ms)
            × (reserved_at w l db'.balances ≡ reserved_at w l db.balances)
      end_of run (claimed _ c) same = rw (← same) (
          claimed_adds_net env deps db input run.policy run.actor.allowed_location_ids run.document
            (hash (plan_of input run.movements)) run.movements c sound w l)
      end_of run (answered row found _ _) same = absurd (clash found fresh)

  -- Every posting that returns keeps the check constraints of the balances: no reservation is below
  -- 0, and none is above the amount on hand.
  pub execute_posting-IsSound :
      execute_posting hash env deps db input ≡ ok (r, db')
      → All IsSound db.balances
      → All IsSound db'.balances
  execute_posting-IsSound h sound =
      let run = execute_posting-eq-ok hash env deps db input h in end_of run run.outcome
    where
      end_of :
          (run : Run hash env deps db input r db')
          → Outcome env deps db input run.policy run.actor.allowed_location_ids run.document
              (hash (plan_of input run.movements))
              run.movements
              r
              db'
          → All IsSound db'.balances
      end_of run (answered row found answer same) = rw same sound
      end_of run (claimed fresh c) =
          let lk =
            locked env deps db input run.policy run.actor.allowed_location_ids run.document
              (hash (plan_of input run.movements)) run.movements c sound in
          let ready : All IsSound c.ready =
            rw lk.balances_eq
              (ensure_balances-IsSound run.movements (keys_of run.movements) db.balances sound) in
          rw c.db_eq (write_balances-IsSound c.planned c.ready c.balances c.balances_eq ready)
