-- ===== src/Transfers/Phases/Compensation.antt =====
-- A dispatch and a receipt in src/modules/transfers/service.ts whose posting fails.
use ckitchen_backend.Prelude.{
  ℕ, ◌≡◌, refl, ap, ◌∙◌, Bool, true, false, ◌||◌, List, [], ◌∷◌, Text, codes, text_eq_refl, any, ok,
  err,
}
use ckitchen_backend.Stock.Types.{PostingError, Document}
use ckitchen_backend.Stock.Guards.{is_document}
use ckitchen_backend.Transfers.Types.{
  posting_failed, TransferOrder, TransferDb, VersionInput, ReceiveInput,
}
use ckitchen_backend.Transfers.Guards.{
  transfer_order_dispatch_module, transfer_order_receipt_module, ensure_operational_document,
}
use ckitchen_backend.Transfers.Posted.{LineMetadata, PostingService, delete_untouched, compensated}
use ckitchen_backend.Transfers.Dispatch.{
  DispatchPlan, dispatch_posting, prepare_dispatch, dispatch_transfer_order, answer_dispatch,
  post_dispatch,
}
use ckitchen_backend.Transfers.Receipt.{ReceiptPlan, prepare_receipt}
use ckitchen_backend.Transfers.Receive.{
  receipt_posting, receive_transfer_order, answer_receipt, post_receipt,
}
use ckitchen_backend.Transfers.Phases.Prepares.{
  with_documents, prepare_dispatch-eq-ok, prepare_receipt-eq-ok,
}

module _ (name number : Text) (location : ℕ) (status : Text) where
  delete_untouched-absent :
      (documents : List Document)
      → any (is_document name number) documents ≡ false
      → delete_untouched (name, number) status documents ≡ documents
  unfolding delete_untouched
  delete_untouched-absent [] h = refl
  delete_untouched-absent (d ∷ ds) h =
      let (other, rest) = parts (is_document name number d) _ h in
      rw other (ap (λ rows. d ∷ rows) (delete_untouched-absent ds rest))
    where
      parts : (a b : Bool) → (a || b) ≡ false → (a ≡ false) × (b ≡ false)
      parts true b h = cc
      parts false b h = (refl, h)

  -- The document that was created is deleted again.
  delete_untouched-ensure :
      (documents : List Document)
      → any (is_document name number) documents ≡ false
      → delete_untouched
          (name, number)
          status
          (ensure_operational_document name number location status documents)
        ≡ documents
  unfolding delete_untouched ensure_operational_document
  delete_untouched-ensure documents h =
      rw (h, text_eq_refl name, text_eq_refl number, text_eq_refl status)
        (delete_untouched-absent documents h)

restored :
    (db prepared : TransferDb) (name status : Text) (o : TransferOrder) (location : ℕ)
    (key : Text × Text)
    → any (is_document name o.document_no) db.stock.documents ≡ false
    → key ≡ (name, o.document_no)
    → prepared ≡ with_documents db name o location status
    → compensated key status prepared ≡ db
unfolding delete_untouched
restored db prepared name status o location key absent key_eq prepared_eq =
    rw (prepared_eq, key_eq)
      (ap (λ (ds : List Document). record db { stock = record db.stock { documents = ds } })
        (delete_untouched-ensure name o.document_no location status db.stock.documents absent))

-- A dispatch whose posting is refused throws the refusal, and leaves every table as it was before,
-- if its order had no dispatch document then.
pub dispatch_transfer_order-restores :
    (json : LineMetadata) (collates : Text → Text → Bool) (post : PostingService) (today : ℕ)
    (db : TransferDb) (input : VersionInput) {plan : DispatchPlan} {prepared : TransferDb}
    {e : PostingError}
    → prepare_dispatch collates today db input ≡ ok (plan, prepared)
    → any (is_document transfer_order_dispatch_module (plan.order).document_no) db.stock.documents
      ≡ false
    → post prepared.stock (dispatch_posting json plan input) ≡ err e
    → dispatch_transfer_order json collates post today db input ≡ (db, err (posting_failed e))
unfolding dispatch_transfer_order post_dispatch answer_dispatch
dispatch_transfer_order-restores json collates post today db input {plan} {prepared} {e} h absent
      refused =
    let p = prepare_dispatch-eq-ok collates today db input h in
    let back : compensated plan.document (codes "APPROVED") prepared ≡ db =
      restored db prepared transfer_order_dispatch_module (codes "APPROVED") plan.order
        (plan.order).source_location_id plan.document absent p.document_eq p.db_eq in
    ap (post_dispatch json post db input) h
    ∙ ap (answer_dispatch json prepared input plan) refused
    ∙ ap (λ d. (d, err (posting_failed e))) back

-- A receipt whose posting is refused throws the refusal, and leaves every table as it was before,
-- if its order had no receipt document then.
pub receive_transfer_order-restores :
    (json : LineMetadata) (post : PostingService) (db : TransferDb) (input : ReceiveInput)
    {plan : ReceiptPlan} {prepared : TransferDb} {e : PostingError}
    → prepare_receipt db input ≡ ok (plan, prepared)
    → any (is_document transfer_order_receipt_module (plan.order).document_no) db.stock.documents
      ≡ false
    → post prepared.stock (receipt_posting json plan input) ≡ err e
    → receive_transfer_order json post db input ≡ (db, err (posting_failed e))
unfolding receive_transfer_order post_receipt answer_receipt
receive_transfer_order-restores json post db input {plan} {prepared} {e} h absent refused =
    let p = prepare_receipt-eq-ok db input h in
    let back : compensated plan.document (codes "DISPATCHED") prepared ≡ db =
      restored db prepared transfer_order_receipt_module (codes "DISPATCHED") plan.order
        (plan.order).destination_location_id plan.document absent p.document_eq p.db_eq in
    ap (post_receipt json post db input) h
    ∙ ap (answer_receipt json prepared input plan) refused
    ∙ ap (λ d. (d, err (posting_failed e))) back
