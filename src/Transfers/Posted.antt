-- ===== src/Transfers/Posted.antt =====
-- src/modules/transfers/service.ts: what a dispatch and a receipt share about the posting that they
-- make. The posting service, and the JSON text of a movement's metadata, are parameters.
use ckitchen_backend.Prelude.{
  ℕ, Bool, true, false, ◌&&◌, not, Option, none, some, List, Text, text_eq, select, find?, ◌==◌,
  Result, ok, err, ◌>>=◌, or_throw,
}
use ckitchen_backend.Stock.Types.{
  PostingError, PostingInput, PostingResult, Document, LedgerLine, Db,
}
use ckitchen_backend.Stock.Guards.{is_document}
use ckitchen_backend.Transfers.Types.{
  TransferError, transfer_error, concurrent_modification, TransferDb, OrderWithLines,
}

-- The JSON text of `{ transferOrderLineId, lineNo }`, and the first property read from such a text.
pub record LineMetadata : Type 0 where
  pub text_of : ℕ → ℕ → Text
  pub order_line_id : Text → Option ℕ

-- `StockPostingServiceLike`
abbrev pub PostingService : Type 0
PostingService = Db → PostingInput → Result PostingError (PostingResult × Db)

-- The compensation: the document is deleted if no posting has touched it.
unfoldable pub delete_untouched : Text × Text → Text → List Document → List Document
delete_untouched key status = select (λ d. not (
    is_document key.0 key.1 d
    && text_eq d.status status
    && elim d.stock_posting_id [ none ↦ true | some _ ↦ false ]))

abbrev pub compensated : Text × Text → Text → TransferDb → TransferDb
compensated key status db = record db {
  stock = record db.stock { documents = delete_untouched key status db.stock.documents };
}

-- The end of an operation: a last transaction that throws is rolled back.
abbrev pub settled :
    TransferDb
    → Result TransferError (OrderWithLines × TransferDb)
    → TransferDb × Result TransferError OrderWithLines
settled db (ok (answer, db')) = (db', ok answer)
settled db (err e) = (db, err e)

module _ (json : LineMetadata) where
  abbrev pub is_posting_line_of : ℕ → ℕ → LedgerLine → Bool
  is_posting_line_of posting line row =
      row.posting_id == posting
      && elim (json.order_line_id row.metadata) [ none ↦ false | some id ↦ id == line ]

  -- `postingLineIdByLineId.get(line.id)`
  unfoldable pub posting_line_id : List LedgerLine → ℕ → ℕ → Result TransferError (ℕ × ℕ)
  posting_line_id ledger posting line = do
    row ←
        or_throw (find? (is_posting_line_of posting line) ledger)
          (transfer_error concurrent_modification 409)
    ok (row.posting_id, row.line.line_no)
