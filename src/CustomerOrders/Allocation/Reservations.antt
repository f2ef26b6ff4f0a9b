-- ===== src/CustomerOrders/Allocation/Reservations.antt =====
-- The reservations that an allocation writes are covered by what is on hand.
use ckitchen_backend.Prelude.{
  ℕ, ◌≡◌, refl, sym, ap, ◌∙◌, Bool, true, false, ◌&&◌, ◌||◌, none, List, [], ◌∷◌, Text, any, length,
  ◌==◌, Bool-cases, inl, inr, arith, All, ok, ok-injective, >>=-eq-ok, throw_if-eq-ok,
}
use ckitchen_backend.Prelude.Int.{ℤ, pos, ◌+ℤ◌, ◌-ℤ◌, ◌≤ℤ◌, ltb_ℤ, leb_ℤ}
use ckitchen_backend.Stock.Types.{Lot, Balance}
use ckitchen_backend.CustomerOrders.Allocation.{
  Allocation, Portion, Candidate, reserved_by_key, on_hand_by_key, candidates_of, available_of,
  smaller, take_portions, select_portions, holds_lot, allocation_of, insert_portions,
  allocate_against_item,
}

module _ (balances : List Balance) (rows : List Allocation) where
  -- No more than what the lot has free there.
  abbrev pub IsFree : Portion → Type 0
  IsFree p =
      p.qty_base
      ≤ℤ on_hand_by_key balances p.warehouse_id p.lot_id
        -ℤ reserved_by_key rows p.warehouse_id p.lot_id

  take_portions-IsFree :
      (cs : List Candidate) (r : ℤ) → All IsFree (take_portions balances rows cs r).0
  unfolding take_portions
  take_portions-IsFree [] r = tt
  take_portions-IsFree (c ∷ cs) r = elim (Bool-cases (leb_ℤ r (pos 0))) [
    | inl e ↦ rw e tt
    | inr e ↦ elim (Bool-cases (leb_ℤ (available_of balances rows c) (pos 0))) [
      | inl f ↦ rw (e, f) (take_portions-IsFree cs r)
      | inr f ↦ rw (e, f) (below (available_of balances rows c) r, take_portions-IsFree cs _)
    ]
  ]
    where
      below : (a r : ℤ) → smaller a r ≤ℤ a
      below a r = ground arith

  select_portions-IsFree :
      (warehouses : List ℕ) (cs : List Candidate) (needed : ℤ) (ps : List Portion)
      → select_portions balances rows warehouses cs needed ≡ ok ps
      → All IsFree ps
  unfolding select_portions
  select_portions-IsFree warehouses cs needed ps h =
      let (_, h₁) = throw_if-eq-ok (length warehouses == 0) _ _ h in
      let (_, h₂) = throw_if-eq-ok (length cs == 0) _ _ h₁ in
      let (_, h₃) =
        throw_if-eq-ok (ltb_ℤ (pos 0) (take_portions balances rows cs needed).1) _ _ h₂ in
      rw (← ok-injective h₃) (take_portions-IsFree cs needed)

-- A lot that the line holds gets no further reservation.
insert_portions-held :
    (line w l : ℕ) (ps : List Portion) (rows rows' : List Allocation)
    → any (holds_lot line l) rows ≡ true
    → insert_portions line ps rows ≡ ok rows'
    → reserved_by_key rows' w l ≡ reserved_by_key rows w l
unfolding insert_portions reserved_by_key
insert_portions-held line w l [] rows rows' held h =
    ap (λ r. reserved_by_key r w l) (sym (ok-injective h))
insert_portions-held line w l (p ∷ ps) rows rows' held h =
    let (new, h₁) = throw_if-eq-ok (any (holds_lot line p.lot_id) rows) _ _ h in
    elim (Bool-cases (p.lot_id == l)) [
      | inl e ↦
          let same : p.lot_id ≡ l = ground arith in
          absurd (clash (ap (λ z. any (holds_lot line z) rows) same) new held)
      | inr e ↦
          let other : (p.warehouse_id == w && p.lot_id == l) ≡ false =
            both_false (p.warehouse_id == w) e in
          insert_portions-held line w l ps (allocation_of line p ∷ rows) rows' (or_true _ held) h₁
          ∙ rw other
    ]
  where
    clash : {a b : Bool} → a ≡ b → a ≡ false → b ≡ true → ⊥
    clash e f t = cc

    both_false : (a : Bool) {b : Bool} → b ≡ false → (a && b) ≡ false
    both_false true e = e
    both_false false e = refl

    or_true : (a : Bool) {b : Bool} → b ≡ true → (a || b) ≡ true
    or_true true t = refl
    or_true false t = t

abbrev is_for : ℕ → ℕ → Portion → Bool
is_for w l p = p.warehouse_id == w && p.lot_id == l

covers : (q a b : ℤ) → q ≤ℤ a -ℤ b → b +ℤ q ≤ℤ a
unfolding ◌+ℤ◌ ◌-ℤ◌
covers q a b h = ground arith

insert_portions-covered :
    (held : ℤ) (line w l : ℕ) (ps : List Portion) (rows rows' : List Allocation) (reserved : ℤ)
    → All (λ p. is_for w l p ≡ true → p.qty_base ≤ℤ held -ℤ reserved) ps
    → reserved_by_key rows w l ≡ reserved
    → insert_portions line ps rows ≡ ok rows'
    → reserved ≤ℤ held
    → reserved_by_key rows' w l ≤ℤ held
unfolding insert_portions reserved_by_key
insert_portions-covered held line w l [] rows rows' reserved free same h covered =
    rw (← ok-injective h, same) covered
insert_portions-covered held line w l (p ∷ ps) rows rows' reserved free same h covered =
    let (new, h₁) = throw_if-eq-ok (any (holds_lot line p.lot_id) rows) _ _ h in
    elim (Bool-cases (is_for w l p)) [
      | inr e ↦
          insert_portions-covered held line w l ps (allocation_of line p ∷ rows) rows' reserved
            free.1 (rw e same) h₁ covered
      | inl e ↦
          let lot : p.lot_id ≡ l = ground arith in
          let now : reserved_by_key (allocation_of line p ∷ rows) w l ≡ reserved +ℤ p.qty_base =
            rw (e, same) in
          rw
            (
              insert_portions-held line w l ps (allocation_of line p ∷ rows) rows'
                  (rw (← lot, own line p.lot_id)) h₁,
              now,
            )
            (covers p.qty_base held reserved (free.0 e))
    ]
  where
    own : (n m : ℕ) → (n == n && m == m) ≡ true
    own n m = ground arith

-- An allocation (allocateAgainstItemAtOutlet) keeps the active reservations of every lot at every warehouse within
-- what is on hand there, for each pair where they were within it before.
pub allocate_against_item-covered :
    (collates : Text → Text → Bool) (lots : List Lot) (balances : List Balance)
    (today line item : ℕ) (needed : ℤ) (warehouses : List ℕ) (rows rows' : List Allocation)
    → allocate_against_item collates lots balances today line item needed warehouses rows ≡ ok rows'
    → (w l : ℕ) → reserved_by_key rows w l ≤ℤ on_hand_by_key balances w l
    → reserved_by_key rows' w l ≤ℤ on_hand_by_key balances w l
unfolding allocate_against_item
allocate_against_item-covered collates lots balances today line item needed warehouses rows rows' h
      w l covered =
    let cs = candidates_of collates lots item warehouses none today balances in
    let (ps, selected, inserted) =
      >>=-eq-ok (select_portions balances rows warehouses cs needed) _ h in
    insert_portions-covered (on_hand_by_key balances w l) line w l ps rows rows'
      (reserved_by_key rows w l)
      (free_here ps (select_portions-IsFree balances rows warehouses cs needed ps selected)) refl
      inserted covered
  where
    at_key :
        (p : Portion)
        → IsFree balances rows p
        → is_for w l p ≡ true
        → p.qty_base ≤ℤ on_hand_by_key balances w l -ℤ reserved_by_key rows w l
    at_key p free e =
        let warehouse : p.warehouse_id ≡ w = ground arith in
        let lot : p.lot_id ≡ l = ground arith in rw (← warehouse, ← lot) free

    free_here :
        (ps : List Portion)
        → All (IsFree balances rows) ps
        → All
            (λ p.
              is_for w l p ≡ true
              → p.qty_base ≤ℤ on_hand_by_key balances w l -ℤ reserved_by_key rows w l)
            ps
    free_here [] free = tt
    free_here (p ∷ ps) free = (at_key p free.0, free_here ps free.1)
