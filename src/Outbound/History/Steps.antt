-- ===== src/Outbound/History/Steps.antt =====
-- The steps of the outbound tables keep the invariant.
use ckitchen_backend.Prelude.{
  ℕ, ◌+◌, ◌≡◌, refl, sym, subst, Bool, inl, inr, none, some, List, ◌∷◌, Text, arith, All, Never,
  find?-none-any, find?-All, find?, Option-cases, some_eq, map_option, ok, ok-injective, >>=-eq-ok,
  find?-holds,
}
use ckitchen_backend.Outbound.Types.{
  Command, Listing, OutboundDb, SendResult, CommandRequest, Answer,
}
use ckitchen_backend.Outbound.Payloads.{Readers}
use ckitchen_backend.Outbound.Worker.{
  is_claimable_row, claim, claim_one, send_result, request_of, is_held, resolved, resolve, send_one,
}
use ckitchen_backend.Outbound.Enqueue.{
  EnqueueInput, check_command, has_key, record_command, enqueue_command, build_stored_key,
}
use ckitchen_backend.Outbound.Enqueue.Replays.{
  record_command-seen, record_command-raced, record_command-new,
}
use ckitchen_backend.Outbound.Enqueue.Sequence.{enqueue_command-AreInSequence}
use ckitchen_backend.Outbound.History.Invariant.{
  IsSound, same_key, same_order, HasAttemptLeft, AreSound, IsSoundDb, update_where-AreSound,
  new_command-IsSound, claimable-open, claim-IsSound, resolved-IsSound, resolved-keeps,
}

-- What an insertion keeps, whatever its query saw.
pub record_command-keeps :
    (id now : ℕ) (input : EnqueueInput) (l : Listing) (seen db : OutboundDb)
    → All IsSound db.commands
    → Never same_key db.commands
    → All IsSound (record_command id now input l seen db).1.commands
      × Never same_key (record_command id now input l seen db).1.commands
      × ((record_command id now input l seen db).1.disputes ≡ db.disputes)
record_command-keeps id now input l seen db each distinct =
    elim (Option-cases (find? (has_key (build_stored_key input)) seen.commands)) [
      | inr (x, e) ↦ at (record_command-seen id now input l seen db e) (each, distinct, refl)
      | inl e ↦ elim (Option-cases (find? (has_key (build_stored_key input)) db.commands)) [
        | inr (x, h) ↦ at (record_command-raced id now input l seen db e h) (each, distinct, refl)
        | inl h ↦ at (record_command-new id now input l seen db e h) (
          (new_command-IsSound id now input, each),
          (find?-none-any (has_key (build_stored_key input)) db.commands h, distinct),
          refl,
        )
      ]
    ]
  where
    at :
        {made result : Command × OutboundDb}
        → ◌≡◌ {A = Command × OutboundDb} made result
        → All IsSound result.1.commands
          × Never same_key result.1.commands
          × (result.1.disputes ≡ db.disputes)
        → All IsSound made.1.commands
          × Never same_key made.1.commands
          × (made.1.disputes ≡ db.disputes)
    at e h =
        subst
          (λ r.
            All IsSound r.1.commands × Never same_key r.1.commands × (r.1.disputes ≡ db.disputes))
          (sym e) h

pub enqueue_command-AreSound :
    (readers : Readers) (id now : ℕ) (db : OutboundDb) (input : EnqueueInput) (parted : Bool)
    {c : Command} {db₁ : OutboundDb}
    → enqueue_command readers id now db input ≡ ok (c, db₁)
    → AreSound parted db.commands
    → AreSound parted db₁.commands × (db₁.disputes ≡ db.disputes)
unfolding enqueue_command
enqueue_command-AreSound readers id now db input parted {c} {db₁} done (each, sequence, distinct) =
    let checked = >>=-eq-ok (check_command readers db input) _ done in
    let kept =
      subst
        (λ r. All IsSound r.1.commands × Never same_key r.1.commands × (r.1.disputes ≡ db.disputes))
        (ok-injective checked.2)
        (record_command-keeps id now input checked.0 db db each distinct) in
    (
      (
        kept.0,
        (λ whole. enqueue_command-AreInSequence readers id now db input done (sequence whole)),
        kept.1,
      ),
      kept.2,
    )

pub claim_one-IsSoundDb :
    (parted : Bool) (db : OutboundDb) (held : List Command) (id seconds now : ℕ) (owner : Text)
    {c : Command} {db₁ : OutboundDb}
    → claim_one db id owner seconds now ≡ (some c, db₁)
    → IsSoundDb parted db held
    → IsSoundDb parted db₁ (c ∷ held)
unfolding claim_one
claim_one-IsSoundDb parted db held id seconds now owner {c} {db₁} done (sound, disputes, left) =
    let after =
      subst
        (λ r.
          AreSound parted r.1.commands
          × Never same_order r.1.disputes
          × ((x : Command) → r.0 ≡ some x → HasAttemptLeft x))
        done
        (
          update_where-AreSound (is_claimable_row id now) (claim owner seconds now) (λ x. refl)
              (λ x. refl) (λ x. refl) (λ x. refl)
              (λ x hit h. claim-IsSound owner seconds now x (claimable-open id now x hit h)) parted
              db.commands sound,
          disputes,
          claimed_left,
        ) in
    (after.0, after.1, (after.2 c refl, left))
  where
    claimed_left :
        (x : Command)
        → map_option (claim owner seconds now) (find? (is_claimable_row id now) db.commands)
          ≡ some x
        → HasAttemptLeft x
    claimed_left x made = elim (Option-cases (find? (is_claimable_row id now) db.commands)) [
      | inl e ↦ absurd (clash (rw e at made))
      | inr (y, e) ↦
          let same : claim owner seconds now y ≡ x = some_eq (rw e at made) in
          subst HasAttemptLeft same (
            claimable-open id now y (find?-holds (is_claimable_row id now) db.commands e)
              (find?-All IsSound (is_claimable_row id now) db.commands sound.0 e))
    ]
      where
        clash : none ≡ some x → ⊥
        clash h = cc

pub send_one-IsSoundDb :
    (parted : Bool) (db : OutboundDb) (held : List Command) (send_command : CommandRequest → Answer)
    (c : Command) (owner : Text) (now : ℕ)
    → HasAttemptLeft c
    → IsSoundDb parted db held
    → IsSoundDb parted (send_one send_command db c owner now).1 held
unfolding send_one resolve
send_one-IsSoundDb parted db held send_command c owner now few (sound, disputes, left) = (
  update_where-AreSound (is_held c.id owner) (resolved result (c.attempts + 1) now)
      (λ x. (resolved-keeps result (c.attempts + 1) now x).0)
      (λ x. (resolved-keeps result (c.attempts + 1) now x).1)
      (λ x. (resolved-keeps result (c.attempts + 1) now x).2)
      (λ x. (resolved-keeps result (c.attempts + 1) now x).3)
      (λ x hit h. resolved-IsSound result (c.attempts + 1) now x (ground (arith, few))) parted
      db.commands sound,
  disputes,
  left,
)
  where
    result : SendResult
    result = send_result (send_command (request_of db c))
