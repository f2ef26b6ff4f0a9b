-- ===== src/Transfers/Spec/Final.antt =====
-- An order of src/modules/transfers/service.ts that was received or cancelled.
use ckitchen_backend.Prelude.{
  ℕ, ◌≡◌, ap, ◌∙◌, ◌==◌, ◌||◌, Bool, true, some, List, [], ◌∷◌, Text, find?, inl, inr,
}
use ckitchen_backend.Transfers.Types.{
  TransferStatus, received, cancelled, ◌is◌, TransferOrder, TransferDb,
}
use ckitchen_backend.Transfers.Posted.{LineMetadata, PostingService}
use ckitchen_backend.Transfers.Spec.{
  Moves, edits, submits, approves, dispatches, receives, drops_draft, drops_submitted,
  drops_approved, Call, run, run_all, IsNew,
}
use ckitchen_backend.Transfers.Spec.Refinement.{run-Refines}

abbrev pub is_final : TransferStatus → Bool
is_final s = s is received || s is cancelled

-- No arrow leaves a final status.
final_stays : {s t : TransferStatus} → Moves s t → is_final s ≡ true → ⊥
final_stays edits h = cc
final_stays submits h = cc
final_stays approves h = cc
final_stays dispatches h = cc
final_stays receives h = cc
final_stays drops_draft h = cc
final_stays drops_submitted h = cc
final_stays drops_approved h = cc

module _ (json : LineMetadata) (collates : Text → Text → Bool) (post : PostingService)
    (today : ℕ) where
  -- The primary key of the orders, at each call.
  abbrev pub AreNew : TransferDb → List Call → Type 0
  AreNew db [] = Unit
  AreNew db (c ∷ cs) = IsNew db c × AreNew (run json collates post today db c) cs

  -- An order that was received or cancelled stays exactly as it is, however many calls follow and
  -- whatever they return, if the orders that they create get ids that are not taken.
  pub run_all-final :
      (db : TransferDb) (calls : List Call) (id : ℕ) (o : TransferOrder)
      → AreNew db calls
      → find? (λ o. o.id == id) db.orders ≡ some o
      → is_final o.status ≡ true
      → find? (λ o. o.id == id) (run_all json collates post today db calls).orders ≡ some o
  run_all-final db [] id o new found final = found
  run_all-final db (c ∷ cs) id o new found final =
      let (o', found', advance) = run-Refines json collates post today db c new.0 id o found in
      run_all-final (run json collates post today db c) cs id o new.1
        (found'
          ∙ ap some
              (elim advance [ inl same ↦ same | inr (m, _, _) ↦ absurd (final_stays m final) ]))
        final
