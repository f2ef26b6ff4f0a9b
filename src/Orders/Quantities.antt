-- ===== src/Orders/Quantities.antt =====
-- What the deduction of an order and its restock do to each row of stock.
use ckitchen_backend.Prelude.{
  ℕ, ◌≡◌, refl, sym, ap, ◌∙◌, ◌&&◌, Option, none, some, List, [], ◌∷◌, ◌++◌, map, any, find?,
  update_where, map_option, updated, find?-update_where, find?-holds, find?-of_not_any, ◌==◌,
  if◌then◌else◌, Bool-cases, Option-cases, inl, inr, arith, All,
}
use ckitchen_backend.Prelude.Int.{ℤ, pos, ◌+ℤ◌, ◌-ℤ◌}
use ckitchen_backend.Orders.Types.{Doubles, StockRow}
use ckitchen_backend.Orders.Deduction.{is_stock, Amounts, missing_rows, subtract_all, add_all}

abbrev pub quantity_at : ℕ → ℕ → List StockRow → Option ℤ
quantity_at w i stock = map_option (λ s. s.quantity) (find? (is_stock w i) stock)

abbrev pub or_zero : Option ℤ → ℤ
or_zero none = pos 0
or_zero (some q) = q

-- An amount that is not there is 0.
abbrev pub stock_at : ℕ → ℕ → List StockRow → ℤ
stock_at w i stock = or_zero (quantity_at w i stock)

updated_quantity :
    (g : ℤ → ℤ) (w i v j : ℕ) (stock : List StockRow)
    → quantity_at v j
        (update_where (is_stock w i) (λ s. record s { quantity = g s.quantity }) stock)
      ≡ map_option (λ q. if v == w && j == i then g q else q) (quantity_at v j stock)
updated_quantity g w i v j stock =
    let f = λ (s : StockRow). record s { quantity = g s.quantity } in
    let found = find?-update_where (is_stock w i) (is_stock v j) f (λ s. refl) stock in
    elim (Option-cases (find? (is_stock v j) stock)) [
      | inl e ↦ rw (found, e)
      | inr (s, e) ↦
          let hit = find?-holds (is_stock v j) stock e in
          let warehouse : s.warehouse_id ≡ v = ground arith in
          let ingredient : s.ingredient_id ≡ j = ground arith in
          rw (found, e) (one s warehouse ingredient)
    ]
  where
    one :
        (s : StockRow)
        → s.warehouse_id ≡ v
        → s.ingredient_id ≡ j
        → some (
            (updated
              (is_stock w i)
              (λ (s : StockRow). record s { quantity = g s.quantity })
              s).quantity)
          ≡ some (if v == w && j == i then g s.quantity else s.quantity)
    one s e f = elim (Bool-cases (v == w && j == i)) [ inl h ↦ rw (e, f, h) | inr h ↦ rw (e, f, h) ]

less_twice : (q x t : ℤ) → q -ℤ x -ℤ t ≡ q -ℤ (x +ℤ t)
unfolding ◌+ℤ◌ ◌-ℤ◌
less_twice q x t = ground arith

more_twice : (q x t : ℤ) → q +ℤ x +ℤ t ≡ q +ℤ (x +ℤ t)
unfolding ◌+ℤ◌
more_twice q x t = ground arith

zero_first : (t : ℤ) → pos 0 +ℤ t ≡ t
unfolding ◌+ℤ◌
zero_first t = ground arith

less_zero : (q : ℤ) → q -ℤ pos 0 ≡ q
unfolding ◌-ℤ◌
less_zero q = ground arith

more_zero : (q : ℤ) → q +ℤ pos 0 ≡ q
unfolding ◌+ℤ◌
more_zero q = ground arith

back : (q t : ℤ) → q -ℤ t +ℤ t ≡ q
unfolding ◌+ℤ◌ ◌-ℤ◌
back q t = ground arith

module _ (n : Doubles) where
  -- What the amounts take from an ingredient at a warehouse.
  unfoldable pub taken : ℕ → ℕ → ℕ → Amounts n → ℤ
  taken w v j [] = pos 0
  taken w v j ((i, x) ∷ amounts) =
      (if v == w && j == i then n.stored x else pos 0) +ℤ taken w v j amounts

  -- The database subtracts what it would store.
  abbrev pub IsExact : ℕ × n.D → Type 0
  IsExact (i, x) = (s : ℤ) → n.subtracted s x ≡ s -ℤ n.stored x

  -- A stored amount that is read and added is what was stored.
  abbrev pub ReadsBack : ℕ × n.D → Type 0
  ReadsBack (i, x) =
      (s : ℤ) → n.added s (n.plus n.zero_number (n.number (n.stored x))) ≡ s +ℤ n.stored x

  abbrev pub restock_entry : ℕ → ℕ × n.D → ℕ × ℕ × n.D
  restock_entry w (i, x) = (w, i, n.plus n.zero_number (n.number (n.stored x)))

  subtract_all-quantity :
      (w v j : ℕ) (amounts : Amounts n) (stock : List StockRow)
      → All IsExact amounts
      → quantity_at v j (subtract_all n w amounts stock)
        ≡ map_option (λ q. q -ℤ taken w v j amounts) (quantity_at v j stock)
  unfolding subtract_all taken
  subtract_all-quantity w v j [] stock exact = elim (Option-cases (quantity_at v j stock)) [
    | inl e ↦ rw e
    | inr (q, e) ↦ rw e (ap some (sym (less_zero q)))
  ]
  subtract_all-quantity w v j ((i, x) ∷ amounts) stock exact =
      let stock' =
        update_where (is_stock w i) (λ s. record s { quantity = n.subtracted s.quantity x })
          stock in
      let rest = subtract_all-quantity w v j amounts stock' exact.1 in
      let now = updated_quantity (λ q. n.subtracted q x) w i v j stock in
      elim (Option-cases (quantity_at v j stock)) [
        | inl e ↦ rw (rest, now, e)
        | inr (q, e) ↦ elim (Bool-cases (v == w && j == i)) [
          | inl h ↦
              rw (rest, now, e, h, exact.0 q)
                (ap some (less_twice q (n.stored x) (taken w v j amounts)))
          | inr h ↦ rw (rest, now, e, h, zero_first (taken w v j amounts))
        ]
      ]

  add_all-quantity :
      (w v j : ℕ) (amounts : Amounts n) (stock : List StockRow)
      → All ReadsBack amounts
      → quantity_at v j (add_all n (map (restock_entry w) amounts) stock)
        ≡ map_option (λ q. q +ℤ taken w v j amounts) (quantity_at v j stock)
  unfolding add_all taken
  add_all-quantity w v j [] stock exact = elim (Option-cases (quantity_at v j stock)) [
    | inl e ↦ rw e
    | inr (q, e) ↦ rw e (ap some (sym (more_zero q)))
  ]
  add_all-quantity w v j ((i, x) ∷ amounts) stock exact =
      let y = n.plus n.zero_number (n.number (n.stored x)) in
      let stock' =
        update_where (is_stock w i) (λ s. record s { quantity = n.added s.quantity y }) stock in
      let rest = add_all-quantity w v j amounts stock' exact.1 in
      let now = updated_quantity (λ q. n.added q y) w i v j stock in
      elim (Option-cases (quantity_at v j stock)) [
        | inl e ↦ rw (rest, now, e)
        | inr (q, e) ↦ elim (Bool-cases (v == w && j == i)) [
          | inl h ↦
              rw (rest, now, e, h, exact.0 q)
                (ap some (more_twice q (n.stored x) (taken w v j amounts)))
          | inr h ↦ rw (rest, now, e, h, zero_first (taken w v j amounts))
        ]
      ]

  -- The rows that are created at 0 change no amount.
  missing_rows-stock_at :
      (w v j : ℕ) (amounts : Amounts n) (stock : List StockRow)
      → stock_at v j (missing_rows n w amounts stock ++ stock) ≡ stock_at v j stock
  unfolding missing_rows
  missing_rows-stock_at w v j [] stock = refl
  missing_rows-stock_at w v j ((i, x) ∷ amounts) stock =
      elim (Bool-cases (any (is_stock w i) stock)) [
        | inl e ↦ rw e (missing_rows-stock_at w v j amounts stock)
        | inr e ↦ elim (Bool-cases (w == v && i == j)) [
          | inl h ↦
              let warehouse : w ≡ v = ground arith in
              let ingredient : i ≡ j = ground arith in
              let none_there : find? (is_stock v j) stock ≡ none =
                (λ k. find? (is_stock (sym warehouse k) (sym ingredient k)) stock)
                ∙ find?-of_not_any (is_stock w i) stock e in
              rw (e, h, none_there)
          | inr h ↦ rw (e, h) (missing_rows-stock_at w v j amounts stock)
        ]
      ]

  -- A deduction and then its restock leave every amount as it was.
  pub deduct-then-restock :
      (w v j : ℕ) (amounts : Amounts n) (stock : List StockRow)
      → All IsExact amounts
      → All ReadsBack amounts
      → stock_at v j (
          add_all n
            (map (restock_entry w) amounts)
            (subtract_all n w amounts (missing_rows n w amounts stock ++ stock)))
        ≡ stock_at v j stock
  deduct-then-restock w v j amounts stock exact reads =
      let ready = missing_rows n w amounts stock ++ stock in
      let lessened = subtract_all-quantity w v j amounts ready exact in
      let restored = add_all-quantity w v j amounts (subtract_all n w amounts ready) reads in
      elim (Option-cases (quantity_at v j ready)) [
        | inl e ↦
            rw (restored, lessened, e)
              (sym (ap or_zero e) ∙ missing_rows-stock_at w v j amounts stock)
        | inr (q, e) ↦
            rw (restored, lessened, e, back q (taken w v j amounts))
              (sym (ap or_zero e) ∙ missing_rows-stock_at w v j amounts stock)
      ]
