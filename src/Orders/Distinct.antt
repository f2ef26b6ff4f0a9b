-- ===== src/Orders/Distinct.antt =====
-- The amounts of an order name each ingredient once, so that each of its log rows is restocked alone.
use ckitchen_backend.Prelude.{
  ℕ, ◌≡◌, refl, sym, ap, false, ◌&&◌, List, [], ◌∷◌, ◌++◌, map, append_assoc, append-nil, select,
  ◌==◌, Bool-cases, inl, inr, arith, All, All-append, ok,
}
use ckitchen_backend.Orders.Types.{Doubles, Order, Component, OrderItem, OrderDb}
use ckitchen_backend.Orders.Deduction.{
  components_of, Amounts, add_amount, add_components, add_items, deductions, log_row, Restocks,
  add_restock, restocks_of,
}
use ckitchen_backend.Orders.Quantities.{restock_entry}

module _ (n : Doubles) where
  abbrev IsNot : ℕ → ℕ × n.D → Type 0
  IsNot j a = (a.0 == j) ≡ false

  abbrev pub AreDistinct : Amounts n → Type 0
  AreDistinct [] = Unit
  AreDistinct (a ∷ amounts) = All (IsNot a.0) amounts × AreDistinct amounts

  add_amount-IsNot :
      (i j : ℕ) (x : n.D) (amounts : Amounts n)
      → (i == j) ≡ false
      → All (IsNot j) amounts
      → All (IsNot j) (add_amount n i x amounts)
  unfolding add_amount
  add_amount-IsNot i j x [] other each = (other, tt)
  add_amount-IsNot i j x ((k, y) ∷ amounts) other each = elim (Bool-cases (k == i)) [
    | inl e ↦ rw e each
    | inr e ↦ rw e (each.0, add_amount-IsNot i j x amounts other each.1)
  ]

  add_amount-AreDistinct :
      (i : ℕ) (x : n.D) (amounts : Amounts n)
      → AreDistinct amounts
      → AreDistinct (add_amount n i x amounts)
  unfolding add_amount
  add_amount-AreDistinct i x [] d = (tt, tt)
  add_amount-AreDistinct i x ((k, y) ∷ amounts) d = elim (Bool-cases (k == i)) [
    | inl e ↦ rw e d
    | inr e ↦
        let other : (i == k) ≡ false = ground arith in
        rw e (add_amount-IsNot i k x amounts other d.0, add_amount-AreDistinct i x amounts d.1)
  ]

  add_components-AreDistinct :
      (qty : ℕ) (cs : List Component) (amounts : Amounts n)
      → AreDistinct amounts
      → AreDistinct (add_components n qty cs amounts)
  unfolding add_components
  add_components-AreDistinct qty [] amounts d = d
  add_components-AreDistinct qty (c ∷ cs) amounts d =
      add_components-AreDistinct qty cs _ (add_amount-AreDistinct c.ingredient_id _ amounts d)

  add_items-AreDistinct :
      (db : OrderDb) (items : List OrderItem) (amounts : Amounts n)
      → AreDistinct amounts
      → AreDistinct (add_items n db items amounts)
  unfolding add_items
  add_items-AreDistinct db [] amounts d = d
  add_items-AreDistinct db (item ∷ items) amounts d =
      add_items-AreDistinct db items _
        (add_components-AreDistinct item.qty (components_of db item) amounts d)

  pub deductions-AreDistinct : (db : OrderDb) (id : ℕ) → AreDistinct (deductions n db id)
  unfolding deductions
  deductions-AreDistinct db id =
      add_items-AreDistinct db (select (λ i. i.order_id == id) db.items) [] tt

  abbrev IsApart : ℕ → Restocks n → ℕ × n.D → Type 0
  IsApart w restocks a = All (λ r. (r.0 == w && r.1 == a.0) ≡ false) restocks

  add_restock-IsApart :
      (w i : ℕ) (x : n.D) (restocks : Restocks n)
      → All (λ (r : ℕ × ℕ × n.D). (r.0 == w && r.1 == i) ≡ false) restocks
      → add_restock n w i x restocks ≡ restocks ++ ((w, i, n.plus n.zero_number x) ∷ [])
  unfolding add_restock
  add_restock-IsApart w i x [] apart = refl
  add_restock-IsApart w i x ((v, j, y) ∷ restocks) apart =
      rw (apart.0, add_restock-IsApart w i x restocks apart.1)

  -- The restocks of the rows that a deduction logged.
  pub restocks_of-logged :
      (db : OrderDb) (order : Order) (id user w : ℕ) (amounts : Amounts n) (restocks : Restocks n)
      → AreDistinct amounts
      → All (IsApart w restocks) amounts
      → restocks_of n db order (map (log_row n id user w) amounts) restocks
        ≡ ok (restocks ++ map (restock_entry n w) amounts)
  unfolding restocks_of
  restocks_of-logged db order id user w [] restocks d apart = ap ok (sym (append-nil restocks))
  restocks_of-logged db order id user w ((i, x) ∷ amounts) restocks d apart =
      let now = add_restock-IsApart w i (n.number (n.stored x)) restocks apart.0 in
      let rest =
        restocks_of-logged db order id user w amounts (restocks ++ (restock_entry n w (i, x) ∷ []))
          d.1 (later amounts d.0 apart.1) in
      rw (now, rest) (ap ok (append_assoc restocks _ _))
    where
      one :
          (a : ℕ × n.D)
          → IsNot i a
          → IsApart w restocks a
          → IsApart w (restocks ++ (restock_entry n w (i, x) ∷ [])) a
      one a other apart =
          let last : (w == w && i == a.0) ≡ false = ground arith in
          All-append (λ (r : ℕ × ℕ × n.D). (r.0 == w && r.1 == a.0) ≡ false) restocks _ apart
            (last, tt)

      later :
          (rest : Amounts n)
          → All (IsNot i) rest
          → All (IsApart w restocks) rest
          → All (IsApart w (restocks ++ (restock_entry n w (i, x) ∷ []))) rest
      later [] other apart = tt
      later (a ∷ rest) other apart = (one a other.0 apart.0, later rest other.1 apart.1)
