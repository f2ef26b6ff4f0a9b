-- ===== src/Outbound/History/Invariant.antt =====
-- The invariant of the outbound tables: the attempts and the leases of the commands, the order of the
-- commands of one order, the stored keys, and the disputes.
use ckitchen_backend.Prelude.{
  ℕ, ◌≤◌, ◌<◌, ◌≡◌, ◌≢◌, refl, ap, inl, inr, Bool, true, false, ◌&&◌, ◌||◌, Option, none, some,
  List, Text, arith, text_eq, All, Never, Never-update_where, updated-keeps, any-update_where,
  update_where-All, any, update_where, updated, Bool-cases, leb, ◌==◌,
}
use ckitchen_backend.Outbound.Types.{
  failed, is_pending, is_claimed, Command, Dispute, OutboundDb, SendResult, accepted, refused,
}
use ckitchen_backend.Outbound.Policies.{max_send_attempts}
use ckitchen_backend.Outbound.Worker.{
  is_claimable_row, claim, is_due, is_null_or_due, resolved, is_exhausted, is_terminal,
}
use ckitchen_backend.Prelude.{or_false}
use ckitchen_backend.Outbound.Enqueue.{EnqueueInput, new_command, has_key, is_of_order}
use ckitchen_backend.Outbound.Enqueue.Sequence.{rejected_in, is_overtaken, AreInSequence}
use ckitchen_backend.Outbound.Disputes.{is_dispute_of}

abbrev pub is_some : {A : Type 0} → Option A → Bool
is_some none = false
is_some (some a) = true

-- At most three attempts, and fewer while the command is open; a lease exactly while it is claimed; and
-- never the status FAILED.
abbrev pub IsSound : Command → Type 0
IsSound c =
    (c.status ≢ failed)
    × (c.attempts ≤ max_send_attempts)
    × ((is_pending c.status || is_claimed c.status) ≡ true → c.attempts < max_send_attempts)
    × (is_some c.lease_owner ≡ is_claimed c.status)
    × (is_some c.lease_until ≡ is_claimed c.status)

abbrev pub same_key : Command → List Command → Bool
same_key c cs = any (has_key c.idempotency_key) cs

abbrev pub same_order : Dispute → List Dispute → Bool
same_order d ds = any (is_dispute_of d.order_id) ds

abbrev pub HasAttemptLeft : Command → Type 0
HasAttemptLeft c = c.attempts < max_send_attempts

-- The order of the commands is kept as long as no enqueue is parted from its checks.
abbrev pub AreSound : Bool → List Command → Type 0
AreSound parted cs = All IsSound cs × (parted ≡ false → AreInSequence cs) × Never same_key cs

-- The invariant of the tables and of the rows that workers hold.
abbrev pub IsSoundDb : Bool → OutboundDb → List Command → Type 0
IsSoundDb parted db held =
    AreSound parted db.commands × Never same_order db.disputes × All HasAttemptLeft held

-- An update that keeps what the guard and the stored key are about.
pub update_where-AreSound :
    (q : Command → Bool) (f : Command → Command)
    → ((x : Command) → (f x).aggregator_account_id ≡ x.aggregator_account_id)
    → ((x : Command) → (f x).order_id ≡ x.order_id)
    → ((x : Command) → (f x).command_type ≡ x.command_type)
    → ((x : Command) → (f x).idempotency_key ≡ x.idempotency_key)
    → ((x : Command) → q x ≡ true → IsSound x → IsSound (f x))
    → (parted : Bool) (cs : List Command) → AreSound parted cs
    → AreSound parted (update_where q f cs)
update_where-AreSound q f account order type key step parted cs (each, sequence, distinct) = (
  update_where-All IsSound q f step cs each,
  (λ whole. Never-update_where is_overtaken q f overtaken cs (sequence whole)),
  Never-update_where same_key q f same cs distinct,
)
  where
    rejected :
        (account₁ : Text) (order₁ : Option Text) (xs : List Command)
        → rejected_in account₁ order₁ (update_where q f xs) ≡ rejected_in account₁ order₁ xs
    rejected account₁ none xs = refl
    rejected account₁ (some o) xs =
        any-update_where (is_of_order account₁ o) q f (λ x. rw (account x, order x, type x) refl) xs

    overtaken :
        (x : Command) (xs : List Command)
        → is_overtaken (updated q f x) (update_where q f xs) ≡ is_overtaken x xs
    overtaken x xs =
        rw
          (
            updated-keeps (λ y. y.command_type) q f type x,
            updated-keeps (λ y. y.aggregator_account_id) q f account x,
            updated-keeps (λ y. y.order_id) q f order x,
            rejected x.aggregator_account_id x.order_id xs,
          )
          refl

    same :
        (x : Command) (xs : List Command)
        → same_key (updated q f x) (update_where q f xs) ≡ same_key x xs
    same x xs = rw (updated-keeps (λ y. y.idempotency_key) q f key x) (
        any-update_where (has_key x.idempotency_key) q f
          (λ y. ap (λ k. text_eq k x.idempotency_key) (key y)) xs)

-- The steps of a command.
pub new_command-IsSound : (id now : ℕ) (input : EnqueueInput) → IsSound (new_command id now input)
new_command-IsSound id now input = ((λ e. cc), ground arith, (λ h. ground arith), refl, refl)

pub claimable-open :
    (id now : ℕ) (c : Command)
    → is_claimable_row id now c ≡ true
    → IsSound c
    → c.attempts < max_send_attempts
claimable-open id now c hit sound = sound.2 (
    status_of (c.id == id) (is_pending c.status) (is_null_or_due c.next_attempt_at now)
      (is_claimed c.status) (is_due c.lease_until now) hit)
  where
    status_of : (k p d q e : Bool) → (k && (p && d || q && e)) ≡ true → (p || q) ≡ true
    status_of true true d q e h = refl
    status_of true false d true e h = refl
    status_of true false d false e h = cc
    status_of false p d q e h = cc

pub claim-IsSound :
    (owner : Text) (seconds now : ℕ) (c : Command)
    → c.attempts < max_send_attempts
    → IsSound (claim owner seconds now c)
claim-IsSound owner seconds now c few = ((λ e. cc), ground (arith, few), (λ h. few), refl, refl)

pub resolved-IsSound :
    (result : SendResult) (attempt now : ℕ) (c : Command)
    → attempt ≤ max_send_attempts
    → IsSound (resolved result attempt now c)
unfolding resolved
resolved-IsSound (accepted provider_ref) attempt now c few = ((λ e. cc), few, (λ h. cc), refl, refl)
resolved-IsSound (refused kind message) attempt now c few =
    elim (Bool-cases (is_exhausted kind attempt)) [
      | inl over ↦ rw over ((λ e. cc), few, (λ h. cc), refl, refl)
      | inr more ↦
          rw more ((λ e. cc), few, (λ h. below (or_false (is_terminal kind) more).1), refl, refl)
    ]
  where
    below : leb max_send_attempts attempt ≡ false → attempt < max_send_attempts
    below h = ground (arith, h)

-- What an answer leaves of a command.
pub resolved-keeps :
    (result : SendResult) (attempt now : ℕ) (c : Command)
    → ((resolved result attempt now c).aggregator_account_id ≡ c.aggregator_account_id)
      × ((resolved result attempt now c).order_id ≡ c.order_id)
      × ((resolved result attempt now c).command_type ≡ c.command_type)
      × ((resolved result attempt now c).idempotency_key ≡ c.idempotency_key)
unfolding resolved
resolved-keeps (accepted provider_ref) attempt now c = (refl, refl, refl, refl)
resolved-keeps (refused kind message) attempt now c = (refl, refl, refl, refl)
