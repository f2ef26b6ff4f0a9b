-- ===== src/Transfers/Fefo.antt =====
-- src/modules/transfers/service.ts, `selectFefoLot` and the loop of a dispatch that pins the lots.
pub mod Expiry
use ckitchen_backend.Prelude.{
  ℕ, Bool, Option, none, some, List, [], ◌∷◌, Text, find?, ◌==◌, if◌then◌else◌, Result, ok, ◌>>=◌,
  or_throw,
}
use ckitchen_backend.Prelude.Int.{ℤ, pos, ◌-ℤ◌, leb_ℤ}
use ckitchen_backend.Stock.Types.{Balance, Db}
use ckitchen_backend.Stock.Locks.{is_row}
use ckitchen_backend.CustomerOrders.Allocation.{Candidate, candidates_of}
use ckitchen_backend.Transfers.Types.{
  TransferError, transfer_error, insufficient_stock, TransferOrderLine,
}

-- `parseFixed(candidate.onHand, 6) - parseFixed(candidate.reserved, 6)`
abbrev pub free_quantity : List Balance → Candidate → ℤ
free_quantity balances c = elim (find? (is_row c.warehouse_id c.lot_id) balances) [
  | none ↦ pos 0
  | some b ↦ b.on_hand -ℤ b.reserved
]

-- The loop over the candidates: the first that covers what is needed.
abbrev pub first_cover : List Balance → ℤ → List Candidate → Option Candidate
first_cover balances needed = find? (λ c. leb_ℤ needed (free_quantity balances c))

module _ (collates_before : Text → Text → Bool) where
  unfoldable pub select_fefo_lot : Db → ℕ → ℕ → ℕ → ℤ → Result TransferError ℕ
  select_fefo_lot db today item warehouse needed = do
    c ←
        or_throw
          (first_cover db.balances needed
            (candidates_of collates_before db.lots item (warehouse ∷ []) none today db.balances))
          (transfer_error insufficient_stock 409)
    ok c.lot_id

  -- The loop that pins a lot to each line.
  unfoldable pub pin_lots :
      Db → ℕ → ℕ → List TransferOrderLine → Result TransferError (List (TransferOrderLine × ℕ))
  unfolding select_fefo_lot
  pin_lots db today warehouse [] = ok []
  pin_lots db today warehouse (line ∷ lines) = do
    lot ←
        if line.lot_id == 0
        then select_fefo_lot db today line.item_id warehouse line.base_quantity
        else ok line.lot_id
    rest ← pin_lots db today warehouse lines
    ok ((line, lot) ∷ rest)
