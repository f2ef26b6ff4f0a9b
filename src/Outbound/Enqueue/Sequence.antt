-- ===== src/Outbound/Enqueue/Sequence.antt =====
-- src/modules/outbound/service.ts: the out-of-order guard. The table lists the newest command first,
-- as every insertion puts it there.
use ckitchen_backend.Prelude.{
  ℕ, ◌≡◌, refl, sym, subst, ap, ◌∙◌, inl, inr, Bool, true, false, ◌&&◌, not, Option, none, some,
  List, Text, Never, find?, any, Option-cases, ok, ok-injective, >>=-eq-ok, >>-eq-ok,
  throw_if-eq-ok, or_throw-eq-ok, not-eq-false,
}
use ckitchen_backend.Outbound.Types.{Command, Listing, OutboundDb}
use ckitchen_backend.Outbound.Policies.{is_blocked_after_reject}
use ckitchen_backend.Outbound.Payloads.{Readers}
use ckitchen_backend.Outbound.Worker.{is_listing}
use ckitchen_backend.Outbound.Enqueue.{
  EnqueueInput, build_stored_key, is_outbound_enabled, mode_allows, check_command, check_payload,
  check_scope, rejects, is_of_order, has_key, record_command, enqueue_command,
}
use ckitchen_backend.Outbound.Enqueue.Replays.{record_command-seen, record_command-new}

abbrev pub rejected_in : Text → Option Text → List Command → Bool
rejected_in account none cs = false
rejected_in account (some order) cs = any (is_of_order account order) cs

-- No command that a rejection blocks has a rejection of its order behind it.
abbrev pub is_overtaken : Command → List Command → Bool
is_overtaken c cs =
    is_blocked_after_reject c.command_type && rejected_in c.aggregator_account_id c.order_id cs

abbrev pub AreInSequence : List Command → Type 0
AreInSequence cs = Never is_overtaken cs

rejects-rejected_in :
    (db : OutboundDb) (account : Text) (order : Option Text)
    → rejects db account order ≡ rejected_in account order db.commands
rejects-rejected_in db account none = refl
rejects-rejected_in db account (some order) = refl

-- What the checks of a command that is enqueued have found.
pub check_command-ok :
    (readers : Readers) (db : OutboundDb) (input : EnqueueInput) {l : Listing}
    → check_command readers db input ≡ ok l
    → (is_outbound_enabled db ≡ true)
      × (find? (is_listing input.aggregator_account_id) db.listings ≡ some l)
      × (mode_allows l input.command_type ≡ true)
      × (check_scope db input ≡ ok tt)
      × ((is_blocked_after_reject input.command_type
            && rejected_in input.aggregator_account_id input.order_id db.commands)
          ≡ false)
unfolding check_command
check_command-ok readers db input {l} done =
    let enabled = throw_if-eq-ok (not (is_outbound_enabled db)) _ _ done in
    let listed =
      or_throw-eq-ok (find? (is_listing input.aggregator_account_id) db.listings) _ _ enabled.1 in
    let mode = throw_if-eq-ok (not (mode_allows listed.0 input.command_type)) _ _ listed.2 in
    let payload = >>-eq-ok (check_payload readers db listed.0 input) _ mode.1 in
    let scope = >>-eq-ok (check_scope db input) _ payload.1 in
    let sequence =
      throw_if-eq-ok
        (is_blocked_after_reject input.command_type
          && rejects db input.aggregator_account_id input.order_id)
        _ _ scope.1 in
    (
      not-eq-false (is_outbound_enabled db) enabled.0,
      listed.1 ∙ ap some (ok-injective sequence.1),
      subst (λ x. mode_allows x input.command_type ≡ true) (ok-injective sequence.1)
          (not-eq-false (mode_allows listed.0 input.command_type) mode.0),
      scope.0,
      ap (λ b. is_blocked_after_reject input.command_type && b)
            (sym (rejects-rejected_in db input.aggregator_account_id input.order_id))
          ∙ sequence.0,
    )

-- What an enqueue inserts is in sequence.
pub enqueue_command-AreInSequence :
    (readers : Readers) (id now : ℕ) (db : OutboundDb) (input : EnqueueInput) {c : Command}
    {db₁ : OutboundDb}
    → enqueue_command readers id now db input ≡ ok (c, db₁)
    → AreInSequence db.commands
    → AreInSequence db₁.commands
unfolding enqueue_command
enqueue_command-AreInSequence readers id now db input {c} {db₁} done before =
    let checked = >>=-eq-ok (check_command readers db input) _ done in
    subst (λ r. AreInSequence r.1.commands) (ok-injective checked.2)
      (recorded checked.0 (check_command-ok readers db input checked.1).4)
  where
    recorded :
        (l : Listing)
        → (is_blocked_after_reject input.command_type
            && rejected_in input.aggregator_account_id input.order_id db.commands)
          ≡ false
        → AreInSequence (record_command id now input l db db).1.commands
    recorded l guard = elim (Option-cases (find? (has_key (build_stored_key input)) db.commands)) [
      | inr (x, e) ↦
          subst (λ r. AreInSequence r.1.commands) (sym (record_command-seen id now input l db db e))
            before
      | inl e ↦
          subst (λ r. AreInSequence r.1.commands)
            (sym (record_command-new id now input l db db e e)) (guard, before)
    ]

-- Where a rejection of its order is in the tables that the insertion of an ACCEPT_ORDER or MARK_READY
-- meets, and no row has the stored key, the command is inserted all the same after its checks on other
-- tables, and the table is then out of sequence.
pub record_command-overtaken :
    (id now : ℕ) (input : EnqueueInput) (l : Listing) (seen current : OutboundDb)
    → find? (has_key (build_stored_key input)) seen.commands ≡ none
    → find? (has_key (build_stored_key input)) current.commands ≡ none
    → is_blocked_after_reject input.command_type ≡ true
    → rejects current input.aggregator_account_id input.order_id ≡ true
    → ¬ AreInSequence (record_command id now input l seen current).1.commands
record_command-overtaken id now input l seen current unseen unused blocked rejected kept =
    differ
      (ap (λ b. b && rejected_in input.aggregator_account_id input.order_id current.commands)
          blocked
        ∙ sym (rejects-rejected_in current input.aggregator_account_id input.order_id)
        ∙ rejected)
      (subst (λ r. AreInSequence r.1.commands)
        (record_command-new id now input l seen current unseen unused) kept).0
  where
    differ : {b : Bool} → b ≡ true → b ≡ false → ⊥
    differ h e = cc
