-- ===== src/Outbound/History/Sound.antt =====
-- The invariant holds of the outbound tables after every step.
use ckitchen_backend.Prelude.{Bool, refl}
use ckitchen_backend.Prelude.{
  ℕ, ◌≡◌, refl, sym, subst, inl, inr, List, Never, Never-update_where, updated-keeps,
  any-update_where, find?-none-any, find?-All, find?, update_where, updated, Option-cases,
  Bool-cases, ok, ok-injective, >>=-eq-ok, or_throw-eq-ok,
}
use ckitchen_backend.Outbound.Types.{
  Command, Dispute, Listing, OutboundDb, DisputeReason, ChannelOrder,
}
use ckitchen_backend.Outbound.Payloads.{Readers}
use ckitchen_backend.Outbound.Worker.{is_listing}
use ckitchen_backend.Outbound.Enqueue.{is_mode, enqueue_command}
use ckitchen_backend.Outbound.Disputes.{
  ControlInput, update_control_mode, DisputeInput, create_dispute, ResolveInput, resolve_dispute,
  is_dispute_of, is_dispute_by, check_dispute, raise_dispute, dispute_command, insert_dispute,
  record_dispute, settle, has_dispute_id,
}
use ckitchen_backend.Outbound.History.{
  Reach, start, enqueued_late, disputed_late, changed, enqueued, claimed_by, answered, mode_changed,
  disputed, decided,
}
use ckitchen_backend.Outbound.History.Steps.{
  enqueue_command-AreSound, record_command-keeps, claim_one-IsSoundDb, send_one-IsSoundDb,
}
use ckitchen_backend.Outbound.History.Invariant.{same_order, HasAttemptLeft, AreSound, IsSoundDb}

-- One dispute per order.
insert_dispute-Never :
    (id : ℕ) (input : DisputeInput) (reason : DisputeReason) (order : ChannelOrder) (command : ℕ)
    (db : OutboundDb)
    → Never same_order db.disputes
    → Never same_order (insert_dispute id input reason order command db).1.disputes
unfolding insert_dispute
insert_dispute-Never id input reason order command db distinct =
    elim (Option-cases (find? (is_dispute_of input.order_id) db.disputes)) [
      | inr (d, e) ↦ rw (e, insert_dispute) distinct
      | inl e ↦
          rw (e, insert_dispute)
            (find?-none-any (is_dispute_of input.order_id) db.disputes e, distinct)
    ]

insert_dispute-commands :
    (id : ℕ) (input : DisputeInput) (reason : DisputeReason) (order : ChannelOrder) (command : ℕ)
    (db : OutboundDb)
    → (insert_dispute id input reason order command db).1.commands ≡ db.commands
unfolding insert_dispute
insert_dispute-commands id input reason order command db =
    elim (Option-cases (find? (is_dispute_of input.order_id) db.disputes)) [
      | inr (d, e) ↦ rw (e, insert_dispute) refl
      | inl e ↦ rw (e, insert_dispute) refl
    ]

record_dispute-keeps :
    (id : ℕ) (input : DisputeInput) (reason : DisputeReason) (order : ChannelOrder)
    (command : Command) (seen db : OutboundDb)
    → Never same_order db.disputes
    → ((record_dispute id input reason order command seen db).1.commands ≡ db.commands)
      × Never same_order (record_dispute id input reason order command seen db).1.disputes
unfolding record_dispute
record_dispute-keeps id input reason order command seen db distinct =
    elim (Option-cases (find? (is_dispute_by command.id) seen.disputes)) [
      | inr (d, e) ↦ rw (e, record_dispute) (refl, distinct)
      | inl e ↦
          rw (e, record_dispute)
            (
              insert_dispute-commands id input reason order command.id db,
              insert_dispute-Never id input reason order command.id db distinct,
            )
    ]

create_dispute-IsSoundDb :
    (readers : Readers) (id command_id now : ℕ) (parted : Bool) (db : OutboundDb)
    (input : DisputeInput) {d : Dispute} {db₁ : OutboundDb}
    → create_dispute readers id command_id now db input ≡ ok (d, db₁)
    → AreSound parted db.commands × Never same_order db.disputes
    → AreSound parted db₁.commands × Never same_order db₁.disputes
unfolding create_dispute
create_dispute-IsSoundDb readers id command_id now parted db input {d} {db₁} done
      (sound, distinct) =
    let checked = >>=-eq-ok (check_dispute db input) _ done in
    raised checked.0.0 checked.0.1 checked.2
  where
    raised :
        (reason : DisputeReason) (order : ChannelOrder)
        → raise_dispute readers id command_id now db input (reason, order) ≡ ok (d, db₁)
        → AreSound parted db₁.commands × Never same_order db₁.disputes
    raised reason order made =
        elim (Option-cases (find? (is_dispute_of input.order_id) db.disputes)) [
          | inr (x, e) ↦
              let same : ◌≡◌ {A = Dispute × OutboundDb} (x, db) (d, db₁) =
                ok-injective (rw (e, raise_dispute) at made) in
              subst (λ r. AreSound parted r.1.commands × Never same_order r.1.disputes) same
                (sound, distinct)
          | inl e ↦
              let step =
                >>=-eq-ok (enqueue_command readers command_id now db (dispute_command input reason))
                  (λ enqueued.
                    ok (record_dispute id input reason order enqueued.0 enqueued.1 enqueued.1))
                  (rw (e, raise_dispute) at made) in
              let kept =
                enqueue_command-AreSound readers command_id now db (dispute_command input reason)
                  parted step.1 sound in
              let last =
                record_dispute-keeps id input reason order step.0.0 step.0.1 step.0.1
                  (subst (Never same_order) (sym kept.1) distinct) in
              subst (λ r. AreSound parted r.1.commands × Never same_order r.1.disputes)
                (ok-injective step.2) (subst (AreSound parted) (sym last.0) kept.0, last.1)
        ]

update_control_mode-keeps :
    (db : OutboundDb) (input : ControlInput) {l : Listing} {db₁ : OutboundDb}
    → update_control_mode db input ≡ ok (l, db₁)
    → (db₁.commands ≡ db.commands) × (db₁.disputes ≡ db.disputes)
unfolding update_control_mode
update_control_mode-keeps db input done =
    let found =
      or_throw-eq-ok (find? (is_listing input.aggregator_account_id) db.listings) _ _ done in
    elim (Bool-cases (is_mode input.control_mode found.0)) [
      | inl e ↦ kept (ok-injective (rw e at found.2)) (refl, refl)
      | inr e ↦ kept (ok-injective (rw e at found.2)) (refl, refl)
    ]
  where
    kept :
        {made result : Listing × OutboundDb}
        → ◌≡◌ {A = Listing × OutboundDb} made result
        → (made.1.commands ≡ db.commands) × (made.1.disputes ≡ db.disputes)
        → (result.1.commands ≡ db.commands) × (result.1.disputes ≡ db.disputes)
    kept e h = subst (λ r. (r.1.commands ≡ db.commands) × (r.1.disputes ≡ db.disputes)) e h

resolve_dispute-keeps :
    (db : OutboundDb) (input : ResolveInput) (now : ℕ) {d : Dispute} {db₁ : OutboundDb}
    → resolve_dispute db input now ≡ ok (d, db₁)
    → Never same_order db.disputes
    → (db₁.commands ≡ db.commands) × Never same_order db₁.disputes
unfolding resolve_dispute
resolve_dispute-keeps db input now done distinct =
    let found = or_throw-eq-ok (find? (has_dispute_id input.dispute_id) db.disputes) _ _ done in
    subst (λ r. (r.1.commands ≡ db.commands) × Never same_order r.1.disputes) (ok-injective found.2)
      (
        refl,
        Never-update_where same_order (has_dispute_id input.dispute_id) (settle input now) same
            db.disputes distinct,
      )
  where
    same :
        (d : Dispute) (ds : List Dispute)
        → same_order
            (updated (has_dispute_id input.dispute_id) (settle input now) d)
            (update_where (has_dispute_id input.dispute_id) (settle input now) ds)
          ≡ same_order d ds
    same d ds =
        rw
          (updated-keeps (λ x. x.order_id) (has_dispute_id input.dispute_id) (settle input now)
            (λ x. refl) d)
          (any-update_where (is_dispute_of d.order_id) (has_dispute_id input.dispute_id)
            (settle input now) (λ x. refl) ds)

-- In every table that the requests and the workers reach, in any order of their transactions and
-- whatever came between a request's checks and its insertion, each command has at most three attempts,
-- and fewer while it is open; it has a lease exactly while it is claimed, and never the status FAILED.
-- No two commands have the same stored key, and no two disputes the same order. While no enqueue was
-- parted from its checks, no ACCEPT_ORDER and no MARK_READY was enqueued after a rejection of its order.
pub Reach-IsSoundDb :
    {parted : Bool} {db : OutboundDb} {held : List Command}
    → Reach parted db held
    → IsSoundDb parted db held
Reach-IsSoundDb start = ((tt, (λ whole. tt), tt), tt, tt)
Reach-IsSoundDb (changed flags listings groups orders before) = Reach-IsSoundDb before
Reach-IsSoundDb (enqueued {parted} {db} {db₁} {held} readers id now input before done) =
    let (sound, distinct, left) = Reach-IsSoundDb before in
    let kept = enqueue_command-AreSound readers id now db input parted done sound in
    (kept.0, subst (Never same_order) (sym kept.1) distinct, left)
Reach-IsSoundDb
      (enqueued_late {parted} {db} {held} {l} readers looked seen id now input before checked) =
    let (sound, distinct, left) = Reach-IsSoundDb before in
    let kept = record_command-keeps id now input l seen db sound.0 sound.2 in
    ((kept.0, (λ whole. cc), kept.1), subst (Never same_order) (sym kept.2) distinct, left)
Reach-IsSoundDb (claimed_by {parted} {db} {db₁} {held} id seconds now owner before done) =
    claim_one-IsSoundDb parted db held id seconds now owner done (Reach-IsSoundDb before)
Reach-IsSoundDb (answered {parted} {db} {held} {c} chosen send_command owner now before found) =
    send_one-IsSoundDb parted db held send_command c owner now
      (find?-All HasAttemptLeft chosen held (Reach-IsSoundDb before).2 found)
      (Reach-IsSoundDb before)
Reach-IsSoundDb (mode_changed {parted} {db} {db₁} {held} input before done) =
    let (sound, distinct, left) = Reach-IsSoundDb before in
    let kept = update_control_mode-keeps db input done in
    (
      subst (AreSound parted) (sym kept.0) sound,
      subst (Never same_order) (sym kept.1) distinct,
      left,
    )
Reach-IsSoundDb (disputed {parted} {db} {db₁} {held} readers id command_id now input before done) =
    let (sound, distinct, left) = Reach-IsSoundDb before in
    let kept =
      create_dispute-IsSoundDb readers id command_id now parted db input done (sound, distinct) in
    (kept.0, kept.1, left)
Reach-IsSoundDb
      (disputed_late {parted} {db} {held} {reason} {order} {command} looked seen id input before
        checked unseen found) =
    let (sound, distinct, left) = Reach-IsSoundDb before in
    let kept = record_dispute-keeps id input reason order command seen db distinct in
    (subst (AreSound parted) (sym kept.0) sound, kept.1, left)
Reach-IsSoundDb (decided {parted} {db} {db₁} {held} input now before done) =
    let (sound, distinct, left) = Reach-IsSoundDb before in
    let kept = resolve_dispute-keeps db input now done distinct in
    (subst (AreSound parted) (sym kept.0) sound, kept.1, left)
