-- ===== src/Outbound/Worker/Leases.antt =====
-- src/modules/outbound/worker.ts: the lease of a claimed command. A time is one of the same clock,
-- and the ids of the commands are distinct, as the primary key has it.
use ckitchen_backend.Prelude.{
  ℕ, ◌<◌, ◌≡◌, refl, sym, subst, ap, ◌∙◌, inl, inr, true, false, Option, none, some, Text, arith,
  map, find?, HasDistinct, has_id, find?-by_id, find?-update_where, find?-found_none,
  update_where-none, updated, map_option, keys-update_where, find?-holds, Option-cases,
}
use ckitchen_backend.Outbound.Types.{Command, OutboundDb}
use ckitchen_backend.Outbound.Worker.{is_claimable_row, claim, claim_one, lease_expiry}

abbrev pub id_of : Command → ℕ
id_of c = c.id

-- The row of an id.
abbrev pub row_of : ℕ → OutboundDb → Option Command
row_of id db = find? (has_id id_of id) db.commands

abbrev pub HasDistinctIds : OutboundDb → Type 0
HasDistinctIds db = HasDistinct (map id_of db.commands)

pub claimable-keyed :
    (id now : ℕ) (c : Command) → is_claimable_row id now c ≡ true → has_id id_of id c ≡ true
claimable-keyed id now c h = ground arith

pub claim_one-row :
    (db : OutboundDb) (id : ℕ) (owner : Text) (seconds now : ℕ)
    → row_of id (claim_one db id owner seconds now).1
      ≡ map_option (updated (is_claimable_row id now) (claim owner seconds now)) (row_of id db)
unfolding claim_one
claim_one-row db id owner seconds now =
    find?-update_where (is_claimable_row id now) (has_id id_of id) (claim owner seconds now)
      (λ x. refl) db.commands

pub claim_one-HasDistinctIds :
    (db : OutboundDb) (id : ℕ) (owner : Text) (seconds now : ℕ)
    → HasDistinctIds db
    → HasDistinctIds (claim_one db id owner seconds now).1
unfolding claim_one
claim_one-HasDistinctIds db id owner seconds now distinct =
    subst HasDistinct
      (sym (
        keys-update_where id_of (is_claimable_row id now) (claim owner seconds now) (λ x. refl)
          db.commands))
      distinct

-- What a successful claim returns is the row, claimed.
pub claim_one-claimed :
    (db : OutboundDb) (id : ℕ) (owner : Text) (seconds now : ℕ) {c : Command}
    → HasDistinctIds db
    → find? (is_claimable_row id now) db.commands ≡ some c
    → row_of id (claim_one db id owner seconds now).1 ≡ some (claim owner seconds now c)
claim_one-claimed db id owner seconds now {c} distinct found =
    claim_one-row db id owner seconds now
    ∙ ap (map_option (updated (is_claimable_row id now) (claim owner seconds now))) (
        find?-by_id id_of (is_claimable_row id now) id (claimable-keyed id now) db.commands distinct
          found)
    ∙ ap some (hit (find?-holds (is_claimable_row id now) db.commands found))
  where
    hit :
        is_claimable_row id now c ≡ true
        → updated (is_claimable_row id now) (claim owner seconds now) c ≡ claim owner seconds now c
    hit h = rw h refl

-- A claim that finds no row changes nothing.
pub claim_one-none :
    (db : OutboundDb) (id : ℕ) (owner : Text) (seconds now : ℕ)
    → find? (is_claimable_row id now) db.commands ≡ none
    → claim_one db id owner seconds now ≡ (none, db)
unfolding claim_one
claim_one-none db id owner seconds now missed = rw (
  missed,
  update_where-none (is_claimable_row id now) (claim owner seconds now) db.commands missed,
)

-- A claimed row is not claimable before its lease ends.
not_due :
    (id : ℕ) (owner : Text) (seconds now later : ℕ) (c : Command)
    → later < lease_expiry now seconds
    → is_claimable_row id later (claim owner seconds now c) ≡ false
not_due id owner seconds now later c early = ground (arith, early)

-- Where the ids of the commands are distinct, and while the lease of a successful claim runs, a claim
-- of the same command by any owner gets no row and changes nothing.
pub claim_one-exclusive :
    (db : OutboundDb) (id : ℕ) (owner other : Text) (seconds other_seconds now later : ℕ)
    {c : Command} {db₁ : OutboundDb}
    → HasDistinctIds db
    → claim_one db id owner seconds now ≡ (some c, db₁)
    → later < lease_expiry now seconds
    → claim_one db₁ id other other_seconds later ≡ (none, db₁)
claim_one-exclusive db id owner other seconds other_seconds now later {c} {db₁} distinct done
      early =
    elim (Option-cases (find? (is_claimable_row id now) db.commands)) [
      | inl missed ↦ absurd (no_row (claim_one-none db id owner seconds now missed) done)
      | inr (x, found) ↦ claim_one-none db₁ id other other_seconds later (
          find?-found_none id_of (is_claimable_row id later) id (claimable-keyed id later)
            db₁.commands
            (subst HasDistinctIds (ap second done)
              (claim_one-HasDistinctIds db id owner seconds now distinct))
            (sym (ap (row_of id) (ap second done))
              ∙ claim_one-claimed db id owner seconds now distinct found)
            (not_due id owner seconds now later x early))
    ]
  where
    second : Option Command × OutboundDb → OutboundDb
    second p = p.1

    no_row :
        {r : Option Command × OutboundDb} {a : Command} {d e : OutboundDb}
        → ◌≡◌ {A = Option Command × OutboundDb} r (none, d)
        → ◌≡◌ {A = Option Command × OutboundDb} r (some a, e)
        → ⊥
    no_row h k = cc
