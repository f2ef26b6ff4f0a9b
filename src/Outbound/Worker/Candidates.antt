-- ===== src/Outbound/Worker/Candidates.antt =====
-- src/modules/outbound/worker.ts: the candidates of a call are commands of the table, each once.
use ckitchen_backend.Prelude.{both_false, select-HasDistinct}
use ckitchen_backend.Prelude.{
  ℕ, zero, suc, ◌≡◌, refl, inl, inr, false, List, [], ◌∷◌, map, includes, HasDistinct, select, take,
  ltb, ◌==◌, Bool-cases, or_false, arith,
}
use ckitchen_backend.Outbound.Types.{Command, OutboundDb}
use ckitchen_backend.Outbound.Worker.{is_claimable, insert_by_age, by_age, candidates}
use ckitchen_backend.Outbound.Worker.Leases.{id_of, HasDistinctIds}

abbrev ids : List Command → List ℕ
ids cs = map id_of cs

insert_by_age-absent :
    (k : ℕ) (c : Command) (ds : List Command)
    → (c.id == k) ≡ false
    → includes (ids ds) k ≡ false
    → includes (ids (insert_by_age c ds)) k ≡ false
insert_by_age-absent k c [] own h = both_false (c.id == k) own refl
insert_by_age-absent k c (d ∷ ds) own h = elim (Bool-cases (ltb d.created_at c.created_at)) [
  | inl e ↦ rw e (
      both_false (d.id == k) (or_false (d.id == k) h).0
        (insert_by_age-absent k c ds own (or_false (d.id == k) h).1))
  | inr e ↦ rw e (both_false (c.id == k) own h)
]

insert_by_age-HasDistinct :
    (c : Command) (ds : List Command)
    → includes (ids ds) c.id ≡ false
    → HasDistinct (ids ds)
    → HasDistinct (ids (insert_by_age c ds))
insert_by_age-HasDistinct c [] absent h = (refl, tt)
insert_by_age-HasDistinct c (d ∷ ds) absent h = elim (Bool-cases (ltb d.created_at c.created_at)) [
  | inl e ↦ rw e (
    insert_by_age-absent d.id c ds (apart d.id c.id (or_false (d.id == c.id) absent).0) h.0,
    insert_by_age-HasDistinct c ds (or_false (d.id == c.id) absent).1 h.1,
  )
  | inr e ↦ rw e (absent, h)
]
  where
    apart : (a b : ℕ) → (a == b) ≡ false → (b == a) ≡ false
    apart a b h = ground (arith, h)

by_age-absent :
    (k : ℕ) (cs : List Command) → includes (ids cs) k ≡ false → includes (ids (by_age cs)) k ≡ false
by_age-absent k [] h = refl
by_age-absent k (c ∷ cs) h =
    insert_by_age-absent k c (by_age cs) (or_false (c.id == k) h).0
      (by_age-absent k cs (or_false (c.id == k) h).1)

by_age-HasDistinct : (cs : List Command) → HasDistinct (ids cs) → HasDistinct (ids (by_age cs))
by_age-HasDistinct [] h = tt
by_age-HasDistinct (c ∷ cs) h =
    insert_by_age-HasDistinct c (by_age cs) (by_age-absent c.id cs h.0) (by_age-HasDistinct cs h.1)

take-absent :
    (n k : ℕ) (cs : List Command)
    → includes (ids cs) k ≡ false
    → includes (ids (take n cs)) k ≡ false
take-absent zero k cs h = refl
take-absent (suc n) k [] h = refl
take-absent (suc n) k (c ∷ cs) h =
    both_false (c.id == k) (or_false (c.id == k) h).0
      (take-absent n k cs (or_false (c.id == k) h).1)

take-HasDistinct :
    (n : ℕ) (cs : List Command) → HasDistinct (ids cs) → HasDistinct (ids (take n cs))
take-HasDistinct zero cs h = tt
take-HasDistinct (suc n) [] h = tt
take-HasDistinct (suc n) (c ∷ cs) h = (take-absent n c.id cs h.0, take-HasDistinct n cs h.1)

pub candidates-HasDistinct :
    (db : OutboundDb) (limit now : ℕ) → HasDistinctIds db → HasDistinct (candidates db limit now)
unfolding candidates
candidates-HasDistinct db limit now distinct =
    take-HasDistinct limit (by_age (select (is_claimable now) db.commands)) (
      by_age-HasDistinct (select (is_claimable now) db.commands)
        (select-HasDistinct id_of (is_claimable now) db.commands distinct))
