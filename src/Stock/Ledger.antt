-- ===== src/Stock/Ledger.antt =====
-- src/modules/stock/posting-service.ts: the planned ledger lines, and the conditional updates of the
-- balances, the document and the posting.
pub mod Plan
pub mod Writes
pub mod Kept
use ckitchen_backend.Prelude.{
  ℕ, ◌+◌, Bool, true, false, ◌&&◌, ◌||◌, not, none, some, List, [], ◌∷◌, Text, text_eq, any, find?,
  update_where, ◌==◌, if◌then◌else◌, Result, ok, ◌>>=◌, ◌>>◌, throw_if, or_throw,
}
use ckitchen_backend.Prelude.Int.{ℤ, pos, ◌+ℤ◌, ◌-ℤ◌, ◌==ℤ◌, ltb_ℤ, leb_ℤ}
use ckitchen_backend.Stock.Types.{
  is_in, insufficient_stock, concurrent_modification, PostingError, posting_error, type_error,
  Movement, Line, PostingResult, Balance, Document, Posting,
}
use ckitchen_backend.Stock.Locks.{KeyState, Key, key_of, key_eq, is_row}
use ckitchen_backend.Stock.Guards.{is_document}

abbrev pub state_key : KeyState → Key
state_key s = (s.warehouse_id, s.item_id, s.lot_id)

abbrev pub move_balance : Movement → ℤ → ℤ
move_balance m before = if is_in m.movement_type then before +ℤ m.quantity else before -ℤ m.quantity

-- `state.currentOnHand = after`
unfoldable pub set_current : Key → ℤ → List KeyState → List KeyState
set_current key v =
    update_where (λ s. key_eq (state_key s) key) (λ s. record s { current_on_hand = v })

abbrev pub line_of : ℕ → Movement → ℤ → ℤ → Line
line_of number m before after = record {
  line_no = number;
  warehouse_id = m.warehouse_id;
  item_id = m.item_id;
  lot_id = m.lot_id;
  movement_type = m.movement_type;
  quantity = m.quantity;
  balance_before = before;
  balance_after = after;
}

-- The loop that plans the ledger lines; `number` is the next line number.
unfoldable pub plan_lines :
    ℕ → List Movement → List KeyState → Result PostingError (List Line × List KeyState)
unfolding set_current ◌+ℤ◌ ◌-ℤ◌
plan_lines number [] states = ok ([], states)
plan_lines number (m ∷ ms) states = do
  state ← or_throw (find? (λ s. key_eq (state_key s) (key_of m)) states) type_error
  let after = move_balance m state.current_on_hand
  throw_if (ltb_ℤ after state.reserved || ltb_ℤ after (pos 0))
      (posting_error insufficient_stock 409)
  planned ← plan_lines (number + 1) ms (set_current (key_of m) after states)
  ok (line_of number m state.current_on_hand after ∷ planned.0, planned.1)

-- The row is still as it was locked, and the new balance covers its reservations.
abbrev pub is_unchanged : KeyState → Balance → Bool
is_unchanged s b =
    is_row s.warehouse_id s.lot_id b
    && b.version == s.version
    && b.on_hand ==ℤ s.initial_on_hand
    && leb_ℤ b.reserved s.current_on_hand

abbrev pub new_balance : KeyState → Balance → Balance
new_balance s b = record b { on_hand = s.current_on_hand; version = b.version + 1 }

unfoldable pub write_balances : List KeyState → List Balance → Result PostingError (List Balance)
write_balances [] bs = ok bs
write_balances (s ∷ ss) bs = do
  throw_if (not (any (is_unchanged s) bs)) (posting_error concurrent_modification 409)
  write_balances ss (update_where (is_unchanged s) (new_balance s) bs)

abbrev pub is_free_document : Document → Document → Bool
is_free_document d row =
    is_document d.module_name d.document_no row
    && text_eq row.status d.status
    && row.version == d.version
    && elim row.stock_posting_id [ none ↦ true | some _ ↦ false ]

unfoldable pub advance_document :
    Document → Text → ℕ → List Document → Result PostingError (List Document)
advance_document d status posting_id documents = do
  throw_if (not (any (is_free_document d) documents)) (posting_error concurrent_modification 409)
  ok (
      update_where (is_free_document d)
        (λ row. record row {
          status = status;
          version = row.version + 1;
          stock_posting_id = some posting_id;
        })
        documents)

abbrev pub is_processing : ℕ → Posting → Bool
is_processing id p = p.id == id && not p.completed

unfoldable pub complete_posting :
    ℕ → PostingResult → List Posting → Result PostingError (List Posting)
complete_posting id result postings = do
  throw_if (not (any (is_processing id) postings)) (posting_error concurrent_modification 409)
  ok (
      update_where (is_processing id) (λ p. record p { completed = true; result = some result })
        postings)
