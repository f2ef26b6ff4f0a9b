-- ===== src/Transfers/Phases/Dispatched.antt =====
-- The lines that a dispatch in src/modules/transfers/service.ts writes.
use ckitchen_backend.Prelude.{
  ℕ, ◌≡◌, refl, sym, ap, ◌∙◌, Bool, true, false, some, none, List, [], ◌∷◌, map, includes, find?,
  find?-update_where, find?-holds, update_where, updated, map_option, ◌==◌, ==_iff, HasDistinct,
  has_id, IsRowIn, ok, >>=-eq-ok, or_throw-eq-ok, ok-injective, All, Option-cases, inl, inr,
  or_false, if◌then◌else◌, Text, arith,
}
use ckitchen_backend.Stock.Types.{LedgerLine, Db}
use ckitchen_backend.Transfers.Types.{dispatched, TransferOrderLine}
use ckitchen_backend.Transfers.Fefo.{pin_lots, select_fefo_lot}
use ckitchen_backend.Transfers.Posted.{LineMetadata, is_posting_line_of, posting_line_id}
use ckitchen_backend.Transfers.Dispatch.{is_undispatched, dispatched_line, dispatch_lines}

abbrev pub line_id : TransferOrderLine → ℕ
line_id l = l.id

-- The line that the loop goes over, without its lot.
abbrev pub line_of : TransferOrderLine × ℕ → TransferOrderLine
line_of p = p.0

-- The lots are pinned to the lines as they come.
pub pin_lots-lines :
    (collates : Text → Text → Bool) (db : Db) (today warehouse : ℕ) (lines : List TransferOrderLine)
    {pinned : List (TransferOrderLine × ℕ)}
    → pin_lots collates db today warehouse lines ≡ ok pinned
    → map line_of pinned ≡ lines
unfolding pin_lots
pin_lots-lines collates db today warehouse [] done = ap (map line_of) (sym (ok-injective done))
pin_lots-lines collates db today warehouse (line ∷ lines) {pinned} done =
    let (lot, _, h) =
      >>=-eq-ok
        (if line.lot_id == 0
          then select_fefo_lot collates db today line.item_id warehouse line.base_quantity
          else ok line.lot_id)
        _ done in
    let (rest, rest_eq, h₁) = >>=-eq-ok (pin_lots collates db today warehouse lines) _ h in
    ap (map line_of) (sym (ok-injective h₁))
    ∙ ap (λ ls. line ∷ ls) (pin_lots-lines collates db today warehouse lines rest_eq)

-- The row of a line, before it is dispatched.
abbrev pub IsOpenIn : List TransferOrderLine → TransferOrderLine × ℕ → Type 0
IsOpenIn rows (line, lot) =
    (find? (has_id line_id line.id) rows ≡ some line) × (line.dispatch_posting_line_id ≡ none)

pub IsOpenIn-All :
    (rows : List TransferOrderLine) (lines : List (TransferOrderLine × ℕ))
    → All (IsRowIn line_id rows) (map line_of lines)
    → All (λ l. l.dispatch_posting_line_id ≡ none) (map line_of lines)
    → All (IsOpenIn rows) lines
IsOpenIn-All rows [] found fresh = tt
IsOpenIn-All rows (p ∷ lines) found fresh =
    ((found.0, fresh.0), IsOpenIn-All rows lines found.1 fresh.1)

-- What the loop does with a line and its posting line.
abbrev write_line : TransferOrderLine × ℕ → ℕ × ℕ → List TransferOrderLine → List TransferOrderLine
write_line (line, lot) posting_line rows =
    update_where (is_undispatched line.id) (dispatched_line lot line.base_quantity posting_line)
      rows

-- Whether a row holds what the posting moved for a line: its lot, its quantity and its posting line.
module _ (json : LineMetadata) (ledger : List LedgerLine) (posting : ℕ) where
  abbrev pub HoldsDispatch : List TransferOrderLine → TransferOrderLine × ℕ → Type 0
  HoldsDispatch rows (line, lot) =
      (row : TransferOrderLine) × (moved : LedgerLine) × (find? (has_id line_id line.id) rows
        ≡ some row)
      × (find? (is_posting_line_of json posting line.id) ledger ≡ some moved)
      × (row.status ≡ dispatched)
      × (row.lot_id ≡ lot)
      × (row.dispatched_quantity ≡ some line.base_quantity)
      × (row.dispatch_posting_line_id ≡ some (moved.posting_id, (moved.line).line_no))

  -- The first line of the loop, and the rest.
  dispatch_lines-cons :
      (p : TransferOrderLine × ℕ) (lines : List (TransferOrderLine × ℕ))
      (rows : List TransferOrderLine) {rows' : List TransferOrderLine}
      → dispatch_lines json ledger posting (p ∷ lines) rows ≡ ok rows'
      → (moved : LedgerLine) × (find? (is_posting_line_of json posting (p.0).id) ledger
          ≡ some moved)
        × (dispatch_lines json ledger posting lines
              (write_line p (moved.posting_id, (moved.line).line_no) rows)
            ≡ ok rows')
  unfolding dispatch_lines posting_line_id
  dispatch_lines-cons (line, lot) lines rows done =
      let (_, found, h) = >>=-eq-ok (posting_line_id json ledger posting line.id) _ done in
      let (moved, moved_eq, h₁) =
        or_throw-eq-ok (find? (is_posting_line_of json posting line.id) ledger) _ _ found in
      (
        moved,
        moved_eq,
        ap (λ l. dispatch_lines json ledger posting lines (write_line (line, lot) l rows))
              (ok-injective h₁)
            ∙ h,
      )

-- A line leaves the row of another id,
write_line-others :
    (p : TransferOrderLine × ℕ) (posting_line : ℕ × ℕ) (rows : List TransferOrderLine) (k : ℕ)
    → ((p.0).id == k) ≡ false
    → find? (has_id line_id k) (write_line p posting_line rows) ≡ find? (has_id line_id k) rows
write_line-others (line, lot) posting_line rows k differ =
    find?-update_where (is_undispatched line.id) (has_id line_id k)
      (dispatched_line lot line.base_quantity posting_line) (λ x. refl) rows
    ∙ elim (Option-cases (find? (has_id line_id k) rows)) [
      | inl e ↦ rw e refl
      | inr (x, e) ↦ rw e (rw (missed x (find?-holds (has_id line_id k) rows e)) refl)
    ]
  where
    missed : (x : TransferOrderLine) → (x.id == k) ≡ true → is_undispatched line.id x ≡ false
    missed x keyed = ground (arith, keyed, differ)

-- and writes its own.
write_line-own :
    (p : TransferOrderLine × ℕ) (posting_line : ℕ × ℕ) (rows : List TransferOrderLine)
    → IsOpenIn rows p
    → find? (has_id line_id (p.0).id) (write_line p posting_line rows)
      ≡ some (dispatched_line p.1 (p.0).base_quantity posting_line p.0)
write_line-own (line, lot) posting_line rows (found, fresh) =
    find?-update_where (is_undispatched line.id) (has_id line_id line.id)
      (dispatched_line lot line.base_quantity posting_line) (λ x. refl) rows
    ∙ ap
        (map_option
          (updated (is_undispatched line.id) (dispatched_line lot line.base_quantity posting_line)))
        found
    ∙ ap some (hit fresh)
  where
    hit :
        line.dispatch_posting_line_id ≡ none
        → updated
            (is_undispatched line.id)
            (dispatched_line lot line.base_quantity posting_line)
            line
          ≡ dispatched_line lot line.base_quantity posting_line line
    hit e = rw ((==_iff line.id line.id).1 refl, e) refl

-- The lines that the loop has still to come to stay open.
write_line-IsOpenIn :
    (p : TransferOrderLine × ℕ) (posting_line : ℕ × ℕ) (rows : List TransferOrderLine)
    (lines : List (TransferOrderLine × ℕ))
    → includes (map line_id (map line_of lines)) (p.0).id ≡ false
    → All (IsOpenIn rows) lines
    → All (IsOpenIn (write_line p posting_line rows)) lines
write_line-IsOpenIn p posting_line rows [] absent each = tt
write_line-IsOpenIn p posting_line rows (q ∷ lines) absent each =
    let apart = or_false ((q.0).id == (p.0).id) absent in
    (
      (
        write_line-others p posting_line rows (q.0).id (flip (q.0).id (p.0).id apart.0) ∙ each.0.0,
        each.0.1,
      ),
      write_line-IsOpenIn p posting_line rows lines apart.1 each.1,
    )
  where
    flip : (a b : ℕ) → (a == b) ≡ false → (b == a) ≡ false
    flip a b h = ground (arith, h)

module _ (json : LineMetadata) (ledger : List LedgerLine) (posting : ℕ) where
  dispatch_lines-others :
      (lines : List (TransferOrderLine × ℕ)) (rows : List TransferOrderLine) (k : ℕ)
      {rows' : List TransferOrderLine}
      → dispatch_lines json ledger posting lines rows ≡ ok rows'
      → includes (map line_id (map line_of lines)) k ≡ false
      → find? (has_id line_id k) rows' ≡ find? (has_id line_id k) rows
  unfolding dispatch_lines
  dispatch_lines-others [] rows k done absent =
      ap (find? (has_id line_id k)) (sym (ok-injective done))
  dispatch_lines-others (p ∷ lines) rows k done absent =
      let (moved, _, h) = dispatch_lines-cons json ledger posting p lines rows done in
      let apart = or_false ((p.0).id == k) absent in
      dispatch_lines-others lines (write_line p (moved.posting_id, (moved.line).line_no) rows) k h
        apart.1
      ∙ write_line-others p (moved.posting_id, (moved.line).line_no) rows k apart.0

  -- After the loop the row of each line holds what the posting moved for it.
  pub dispatch_lines-HoldsDispatch :
      (lines : List (TransferOrderLine × ℕ)) (rows : List TransferOrderLine)
      {rows' : List TransferOrderLine}
      → dispatch_lines json ledger posting lines rows ≡ ok rows'
      → HasDistinct (map line_id (map line_of lines))
      → All (IsOpenIn rows) lines
      → All (HoldsDispatch json ledger posting rows') lines
  dispatch_lines-HoldsDispatch [] rows done distinct each = tt
  dispatch_lines-HoldsDispatch (p ∷ lines) rows done distinct each =
      let (moved, moved_eq, h) = dispatch_lines-cons json ledger posting p lines rows done in
      let posting_line : ℕ × ℕ = (moved.posting_id, (moved.line).line_no) in
      let after = write_line p posting_line rows in
      (
        (
          dispatched_line p.1 (p.0).base_quantity posting_line p.0,
          moved,
          dispatch_lines-others lines after (p.0).id h distinct.0
              ∙ write_line-own p posting_line rows each.0,
          moved_eq,
          refl,
          refl,
          refl,
          refl,
        ),
        dispatch_lines-HoldsDispatch lines after h distinct.1
            (write_line-IsOpenIn p posting_line rows lines distinct.0 each.1),
      )
