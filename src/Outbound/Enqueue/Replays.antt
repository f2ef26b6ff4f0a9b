-- ===== src/Outbound/Enqueue/Replays.antt =====
-- src/modules/outbound/service.ts: an enqueue that is repeated, by the same caller or by one that
-- raced, answers the same row and inserts none.
use ckitchen_backend.Prelude.{
  ℕ, ◌≡◌, ◌⊎◌, refl, sym, subst, ap, ◌∙◌, inl, inr, Bool, true, false, ◌&&◌, Option, none, some,
  Text, text_eq, text_eq_refl, find?, Option-cases, ok, throw_if, ok-injective, >>=-eq-ok,
}
use ckitchen_backend.Outbound.Types.{
  CommandType, is_reject, Command, Listing, OutboundDb, outbound_error, out_of_order,
}
use ckitchen_backend.Outbound.Policies.{is_blocked_after_reject}
use ckitchen_backend.Outbound.Payloads.{
  Readers, assert_valid_item_availability_payload, check_option_group,
}
use ckitchen_backend.Outbound.Enqueue.{
  EnqueueInput, build_stored_key, check_command, check_payload, check_scope, check_order,
  check_sequence, rejects, is_at, is_outbound_enabled, new_command, has_key, inserted,
  insert_command, record_command, enqueue_command,
}

module _ (id now : ℕ) (input : EnqueueInput) (l : Listing) (seen current : OutboundDb) where
  abbrev key : Text
  key = build_stored_key input

  pub record_command-seen :
      {c : Command}
      → find? (has_key key) seen.commands ≡ some c
      → record_command id now input l seen current ≡ (c, current)
  unfolding record_command
  record_command-seen e = rw (e, record_command)

  pub record_command-raced :
      {c : Command}
      → find? (has_key key) seen.commands ≡ none
      → find? (has_key key) current.commands ≡ some c
      → record_command id now input l seen current ≡ (c, current)
  unfolding record_command insert_command
  record_command-raced e h = rw (e, record_command, h, insert_command)

  pub record_command-new :
      find? (has_key key) seen.commands ≡ none
      → find? (has_key key) current.commands ≡ none
      → record_command id now input l seen current
        ≡ (new_command id now input, inserted id now input l current)
  unfolding record_command insert_command
  record_command-new e h = rw (e, record_command, h, insert_command)

  -- What was seen is still there.
  abbrev Kept : Type 0
  Kept =
      (c : Command)
      → find? (has_key key) seen.commands ≡ some c
      → find? (has_key key) current.commands ≡ some c

  -- The row that is returned is the row with the stored key.
  pub record_command-found :
      Kept
      → find? (has_key key) (record_command id now input l seen current).1.commands
        ≡ some (record_command id now input l seen current).0
  record_command-found kept = elim (Option-cases (find? (has_key key) seen.commands)) [
    | inr (c, e) ↦ at (record_command-seen e) (kept c e)
    | inl e ↦ elim (Option-cases (find? (has_key key) current.commands)) [
      | inr (c, h) ↦ at (record_command-raced e h) h
      | inl h ↦ at (record_command-new e h) (rw (text_eq_refl key) refl)
    ]
  ]
    where
      at :
          {made result : Command × OutboundDb}
          → ◌≡◌ {A = Command × OutboundDb} made result
          → find? (has_key key) result.1.commands ≡ some result.0
          → find? (has_key key) made.1.commands ≡ some made.0
      at e h = subst (λ r. find? (has_key key) r.1.commands ≡ some r.0) (sym e) h

-- Of two requests with the same input that saw the same tables, whose row of the stored key, if there
-- is one, is still there, the second gets the row of the first and leaves the tables.
pub record_command-race :
    (id id₁ now now₁ : ℕ) (input : EnqueueInput) (l : Listing) (seen current : OutboundDb)
    → ((c : Command)
        → find? (has_key (build_stored_key input)) seen.commands ≡ some c
        → find? (has_key (build_stored_key input)) current.commands ≡ some c)
    → record_command id₁ now₁ input l seen (record_command id now input l seen current).1
      ≡ record_command id now input l seen current
record_command-race id id₁ now now₁ input l seen current kept =
    elim (Option-cases (find? (has_key (build_stored_key input)) seen.commands)) [
      | inr (c, e) ↦
          record_command-seen id₁ now₁ input l seen (record_command id now input l seen current).1 e
          ∙ back (record_command-seen id now input l seen current e)
      | inl e ↦
          record_command-raced id₁ now₁ input l seen (record_command id now input l seen current).1
            e (record_command-found id now input l seen current kept)
    ]
  where
    back :
        {made : Command × OutboundDb} {c : Command} {db : OutboundDb}
        → ◌≡◌ {A = Command × OutboundDb} made (c, db)
        → ◌≡◌ {A = Command × OutboundDb} (c, made.1) made
    back h = cc

blocked_or_reject : (t : CommandType) → (is_blocked_after_reject t ≡ false) ⊎ (is_reject t ≡ false)
blocked_or_reject CommandType.reject_order = inl refl
blocked_or_reject CommandType.accept_order = inr refl
blocked_or_reject CommandType.mark_ready = inr refl
blocked_or_reject CommandType.update_ready_time = inl refl
blocked_or_reject CommandType.pause_store = inl refl
blocked_or_reject CommandType.resume_store = inl refl
blocked_or_reject CommandType.set_item_availability = inl refl
blocked_or_reject CommandType.notify_menu_updated = inl refl
blocked_or_reject CommandType.contest_cancellation = inl refl

-- A command does not block itself.
check_sequence-inserted :
    (id now : ℕ) (input : EnqueueInput) (l : Listing) (db : OutboundDb)
    → check_sequence (inserted id now input l db) input ≡ check_sequence db input
check_sequence-inserted id now input l db = elim (blocked_or_reject input.command_type) [
  | inl e ↦ rw e refl
  | inr e ↦
      ap
        (λ b.
          throw_if (is_blocked_after_reject input.command_type && b)
            (outbound_error out_of_order 409))
        (same input.order_id e)
]
  where
    and_false : (a b : Bool) → b ≡ false → (a && b) ≡ false
    and_false true b e = e
    and_false false b e = refl

    same :
        (order : Option Text)
        → is_reject input.command_type ≡ false
        → rejects (inserted id now input l db) input.aggregator_account_id order
          ≡ rejects db input.aggregator_account_id order
    same none e = refl
    same (some order) e =
        rw
          (and_false
            (text_eq input.aggregator_account_id input.aggregator_account_id
              && is_at input.order_id order)
            (is_reject input.command_type) e)
          refl

check_command-inserted :
    (readers : Readers) (id now : ℕ) (input : EnqueueInput) (l : Listing) (db : OutboundDb)
    → check_command readers (inserted id now input l db) input ≡ check_command readers db input
unfolding check_command is_outbound_enabled check_payload check_scope check_order
    assert_valid_item_availability_payload check_option_group
check_command-inserted readers id now input l db =
    rw (check_sequence-inserted id now input l db) refl

check_command-recorded :
    (readers : Readers) (id now : ℕ) (input : EnqueueInput) (l : Listing) (db : OutboundDb)
    → check_command readers (record_command id now input l db db).1 input
      ≡ check_command readers db input
check_command-recorded readers id now input l db =
    elim (Option-cases (find? (has_key (build_stored_key input)) db.commands)) [
      | inr (c, e) ↦
          ap (λ r. check_command readers r.1 input) (record_command-seen id now input l db db e)
      | inl e ↦
          ap (λ r. check_command readers r.1 input) (record_command-new id now input l db db e e)
          ∙ check_command-inserted readers id now input l db
    ]

-- An enqueue that succeeded, repeated with the same input on the tables that it made, answers the same
-- row and leaves the tables.
pub enqueue_command-again :
    (readers : Readers) (id id₁ now now₁ : ℕ) (db : OutboundDb) (input : EnqueueInput) {c : Command}
    {db₁ : OutboundDb}
    → enqueue_command readers id now db input ≡ ok (c, db₁)
    → enqueue_command readers id₁ now₁ db₁ input ≡ ok (c, db₁)
unfolding enqueue_command
enqueue_command-again readers id id₁ now now₁ db input {c} {db₁} done =
    let checked = >>=-eq-ok (check_command readers db input) _ done in
    let l : Listing = checked.0 in
    let made : ◌≡◌ {A = Command × OutboundDb} (record_command id now input l db db) (c, db₁) =
      ok-injective checked.2 in
    let valid : check_command readers db₁ input ≡ ok l =
      ap (λ r. check_command readers r.1 input) (sym made)
      ∙ check_command-recorded readers id now input l db
      ∙ checked.1 in
    let found : find? (has_key (build_stored_key input)) db₁.commands ≡ some c =
      subst (λ r. find? (has_key (build_stored_key input)) r.1.commands ≡ some r.0) made
        (record_command-found id now input l db db (λ x e. e)) in
    rw valid (ap ok (record_command-seen id₁ now₁ input l db₁ db₁ found))
