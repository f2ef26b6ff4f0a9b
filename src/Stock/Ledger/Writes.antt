-- ===== src/Stock/Ledger/Writes.antt =====
-- What the conditional updates of the balances write.
use ckitchen_backend.Prelude.{
  ℕ, ◌≡◌, refl, sym, ◌∙◌, true, false, Option, none, some, List, [], ◌∷◌, find?, update_where,
  find?-update_where, any_of_found, find?-holds, map_option, All, ok, Bool-cases, Option-cases, inl,
  inr, arith,
}
use ckitchen_backend.Prelude.Int.{◌≤ℤ◌}
use ckitchen_backend.Stock.Types.{Balance}
use ckitchen_backend.Stock.Locks.{KeyState, is_row}
use ckitchen_backend.Stock.Ledger.{is_unchanged, new_balance, write_balances}
use ckitchen_backend.Stock.Ledger.Plan.{is_at}

-- The row that was locked for a state, and is still as it was.
pub record Tracks (bs : List Balance) (s : KeyState) : Type 0 where
  pub row : Balance
  pub row_eq : find? (is_row s.warehouse_id s.lot_id) bs ≡ some row
  pub version_eq : row.version ≡ s.version
  pub on_hand_eq : row.on_hand ≡ s.initial_on_hand
  pub reserved_eq : row.reserved ≡ s.reserved

-- Two states of different warehouses or lots.
abbrev pub Differs : KeyState → KeyState → Type 0
Differs s t = is_at s.warehouse_id s.lot_id t ≡ false

abbrev pub Apart : List KeyState → Type 0
Apart [] = Unit
Apart (s ∷ ss) = All (Differs s) ss × Apart ss

abbrev pub write : KeyState → List Balance → List Balance
write s bs = update_where (is_unchanged s) (new_balance s) bs

unwritten :
    (s : KeyState) (w l : ℕ) (b : Balance)
    → is_at w l s ≡ false
    → is_row w l b ≡ true
    → is_unchanged s b ≡ false
unwritten s w l b apart here = elim (Bool-cases (is_row s.warehouse_id s.lot_id b)) [
  | inl there ↦ absurd (meet (ground arith) (ground arith))
  | inr gone ↦ rw gone
]
  where
    meet : w ≡ s.warehouse_id → l ≡ s.lot_id → ⊥
    meet ew el = ground arith

-- A write at one warehouse and lot leaves every other row.
write-find_other :
    (s : KeyState) (w l : ℕ) (bs : List Balance)
    → is_at w l s ≡ false
    → find? (is_row w l) (write s bs) ≡ find? (is_row w l) bs
write-find_other s w l bs apart =
    find?-update_where (is_unchanged s) (is_row w l) (new_balance s) (λ b. refl) bs
    ∙ elim (Option-cases (find? (is_row w l) bs)) [
      | inl missing ↦ rw missing
      | inr (b, e) ↦
          let here = find?-holds (is_row w l) bs e in
          let kept : is_unchanged s b ≡ false = unwritten s w l b apart here in rw (e, kept)
    ]

-- The state covers its row's reservations.
abbrev pub Covers : KeyState → Type 0
Covers s = s.reserved ≤ℤ s.current_on_hand

tracked_unchanged :
    (bs : List Balance) (s : KeyState) (t : Tracks bs s) → Covers s → is_unchanged s t.row ≡ true
tracked_unchanged bs s t c =
    let here = find?-holds (is_row s.warehouse_id s.lot_id) bs t.row_eq in
    rw (here, t.version_eq, t.on_hand_eq, t.reserved_eq) (ground arith)

write-find_self :
    (bs : List Balance) (s : KeyState) (t : Tracks bs s)
    → Covers s
    → find? (is_row s.warehouse_id s.lot_id) (write s bs) ≡ some (new_balance s t.row)
write-find_self bs s t c =
    find?-update_where (is_unchanged s) (is_row s.warehouse_id s.lot_id) (new_balance s) (λ b. refl)
      bs
    ∙ rw (t.row_eq, tracked_unchanged bs s t c)

Tracks-write :
    (bs : List Balance) (s u : KeyState) → Differs s u → Tracks bs u → Tracks (write s bs) u
Tracks-write bs s u apart t = record {
  row = t.row;
  row_eq = write-find_other s u.warehouse_id u.lot_id bs (flip apart) ∙ t.row_eq;
  version_eq = t.version_eq;
  on_hand_eq = t.on_hand_eq;
  reserved_eq = t.reserved_eq;
}
  where
    flip : Differs s u → is_at u.warehouse_id u.lot_id s ≡ false
    flip h = ground arith

All-Tracks-write :
    (bs : List Balance) (s : KeyState) (ss : List KeyState)
    → All (Differs s) ss
    → All (Tracks bs) ss
    → All (Tracks (write s bs)) ss
All-Tracks-write bs s [] apart t = tt
All-Tracks-write bs s (u ∷ ss) apart t =
    (Tracks-write bs s u apart.0 t.0, All-Tracks-write bs s ss apart.1 t.1)

-- The row of a warehouse and lot after the writes of a list of states.
abbrev pub row_after : Option KeyState → Option Balance → Option Balance
row_after none row = row
row_after (some s) row = map_option (new_balance s) row

none_apart :
    (s : KeyState) (ss : List KeyState)
    → All (Differs s) ss
    → find? (is_at s.warehouse_id s.lot_id) ss ≡ none
none_apart s [] apart = refl
none_apart s (u ∷ ss) apart = rw apart.0 (none_apart s ss apart.1)

row_step :
    (w l : ℕ) (s : KeyState) (ss : List KeyState) (bs : List Balance)
    → Tracks bs s
    → Covers s
    → All (Differs s) ss
    → row_after (find? (is_at w l) ss) (find? (is_row w l) (write s bs))
      ≡ row_after (find? (is_at w l) (s ∷ ss)) (find? (is_row w l) bs)
row_step w l s ss bs t c apart = elim (Bool-cases (is_at w l s)) [
  | inl here ↦
      let ew : s.warehouse_id ≡ w = ground arith in
      let el : s.lot_id ≡ l = ground arith in
      let gone : find? (is_at w l) ss ≡ none =
        (λ i. find? (is_at (sym ew i) (sym el i)) ss) ∙ none_apart s ss apart in
      let row : find? (is_row w l) bs ≡ some t.row =
        (λ i. find? (is_row (sym ew i) (sym el i)) bs) ∙ t.row_eq in
      let after : find? (is_row w l) (write s bs) ≡ some (new_balance s t.row) =
        (λ i. find? (is_row (sym ew i) (sym el i)) (write s bs)) ∙ write-find_self bs s t c in
      rw (here, gone, row, after)
  | inr away ↦ rw (away, write-find_other s w l bs away)
]

-- States that still match their rows, one for each warehouse and lot, and that cover their
-- reservations are all written, and no other row changes.
pub write_balances_complete :
    (ss : List KeyState) (bs : List Balance)
    → All (Tracks bs) ss
    → Apart ss
    → All Covers ss
    → (bs' : List Balance) × (write_balances ss bs ≡ ok bs')
      × ((w l : ℕ)
          → find? (is_row w l) bs' ≡ row_after (find? (is_at w l) ss) (find? (is_row w l) bs))
unfolding write_balances
write_balances_complete [] bs t apart c = (bs, refl, λ w l. refl)
write_balances_complete (s ∷ ss) bs t apart c =
    let hit =
      any_of_found (is_unchanged s) (is_row s.warehouse_id s.lot_id) bs t.0.row_eq
        (tracked_unchanged bs s t.0 c.0) in
    let (bs', done, rows) =
      write_balances_complete ss (write s bs) (All-Tracks-write bs s ss apart.0 t.1) apart.1 c.1 in
    (bs', rw (hit, done), λ w l. rows w l ∙ row_step w l s ss bs t.0 c.0 apart.0)
