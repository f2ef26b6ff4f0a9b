-- ===== src/Transfers/Fefo/Expiry.antt =====
-- The lot that a dispatch in src/modules/transfers/service.ts takes for a line without one.
use mathlib.Core.List.{Mem, mem-cons}
use mathlib.Core.Logic.Or
use ckitchen_backend.Prelude.{
  ℕ, ◌≡◌, sym, subst, Bool, true, false, Option, some, none, List, [], ◌∷◌, Text, find?,
  find?-holds, some_eq, Bool-cases, inl, inr, ok, or_throw-eq-ok, ok-injective, All, All-map, arith,
}
use ckitchen_backend.Prelude.Int.{ℤ, leb_ℤ}
use ckitchen_backend.Stock.Types.{Balance, Db}
use ckitchen_backend.CustomerOrders.Allocation.{Candidate, expires_before, candidates_of}
use ckitchen_backend.CustomerOrders.Allocation.Fefo.{IsOrdered, candidates_of-IsOrdered}
use ckitchen_backend.Transfers.Fefo.{free_quantity, first_cover, select_fefo_lot}

find?-Mem : {A : Type 0} (q : A → Bool) (xs : List A) {a : A} → find? q xs ≡ some a → Mem a xs
find?-Mem q [] h = cc
find?-Mem q (x ∷ xs) {a} h = elim (Bool-cases (q x)) [
  | inl e ↦ mem-cons.1 (Or.inl (sym (some_eq (rw e at h))))
  | inr e ↦ mem-cons.1 (Or.inr (find?-Mem q xs (rw e at h)))
]

module _ (balances : List Balance) (needed : ℤ) where
  -- No candidate that expires before `c` covers what is needed.
  abbrev pub IsFirst : Candidate → Candidate → Type 0
  IsFirst c x =
      expires_before x.expires_at c.expires_at ≡ true
      → leb_ℤ needed (free_quantity balances x) ≡ false

  first_cover-IsFirst :
      (cs : List Candidate) {c : Candidate}
      → IsOrdered cs
      → first_cover balances needed cs ≡ some c
      → All (IsFirst c) cs
  first_cover-IsFirst [] ordered h = tt
  first_cover-IsFirst (x ∷ xs) {c} ordered h =
      elim (Bool-cases (leb_ℤ needed (free_quantity balances x))) [
        | inl e ↦
            let same : x ≡ c = some_eq (rw e at h) in
            subst (λ y. All (IsFirst y) (x ∷ xs)) same
              (
                (λ before. absurd (irreflexive x.expires_at before)),
                All-map (λ y. expires_before y.expires_at x.expires_at ≡ false) (IsFirst x)
                    (λ y after before. absurd (differ before after)) xs ordered.0,
              )
        | inr e ↦ ((λ _. e), first_cover-IsFirst xs ordered.1 (rw e at h))
      ]
    where
      differ : {b : Bool} → b ≡ true → b ≡ false → ⊥
      differ h e = cc

      irreflexive : (d : Option ℕ) → expires_before d d ≡ true → ⊥
      irreflexive none h = cc
      irreflexive (some d) h = ground arith

-- The lot that is taken for a line is that of one of the candidates, whose free quantity covers what
-- the line needs, and no candidate that expires before it covers that.
pub select_fefo_lot-IsFirst :
    (collates : Text → Text → Bool) (db : Db) (today item warehouse : ℕ) (needed : ℤ) {lot : ℕ}
    → select_fefo_lot collates db today item warehouse needed ≡ ok lot
    → (c : Candidate) × Mem c
        (candidates_of collates db.lots item (warehouse ∷ []) none today db.balances)
      × (lot ≡ c.lot_id)
      × (leb_ℤ needed (free_quantity db.balances c) ≡ true)
      × All
          (IsFirst db.balances needed c)
          (candidates_of collates db.lots item (warehouse ∷ []) none today db.balances)
unfolding select_fefo_lot
select_fefo_lot-IsFirst collates db today item warehouse needed h =
    let cs = candidates_of collates db.lots item (warehouse ∷ []) none today db.balances in
    let (c, found, h₁) = or_throw-eq-ok (first_cover db.balances needed cs) _ _ h in
    let ordered =
      candidates_of-IsOrdered collates db.lots item (warehouse ∷ []) none today db.balances in
    (
      c,
      find?-Mem (λ x. leb_ℤ needed (free_quantity db.balances x)) cs found,
      sym (ok-injective h₁),
      find?-holds (λ x. leb_ℤ needed (free_quantity db.balances x)) cs found,
      first_cover-IsFirst db.balances needed cs ordered found,
    )
