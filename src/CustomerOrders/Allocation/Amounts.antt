-- ===== src/CustomerOrders/Allocation/Amounts.antt =====
-- How much the portions of an allocation take, and when there is enough.
use ckitchen_backend.Prelude.{
  ℕ, ◌+◌, ◌-◌, ◌≤◌, ◌<◌, ◌≡◌, sym, ap, ◌∙◌, true, false, List, [], ◌∷◌, length, ◌==◌, Bool-cases,
  inl, inr, arith, ok, err,
}
use ckitchen_backend.Prelude.Int.{
  ℤ, pos, pos_part, ◌+ℤ◌, ◌-ℤ◌, ltb_ℤ, leb_ℤ, +ℤ_assoc, +ℤ_comm, int_laws,
}
use ckitchen_backend.Stock.Types.{Balance}
use ckitchen_backend.CustomerOrders.Allocation.{
  Allocation, insufficient_stock, Portion, Candidate, available_of, smaller, take_portions,
  select_portions,
}

-- What the portions take in all.
unfoldable pub sum_of : List Portion → ℤ
sum_of [] = pos 0
sum_of (p ∷ ps) = p.qty_base +ℤ sum_of ps

pub step_left :
    (a : ℤ) (n : ℕ) → leb_ℤ a (pos 0) ≡ false → pos n -ℤ smaller a (pos n) ≡ pos (n - pos_part a)
unfolding ◌-ℤ◌
step_left a n h = ground arith

+ℤ-cancels : (t r : ℤ) → t +ℤ (r -ℤ t) ≡ r
unfolding ◌+ℤ◌ ◌-ℤ◌
+ℤ-cancels t r = ground arith

+ℤ_zero : (a : ℤ) → a +ℤ pos 0 ≡ a
+ℤ_zero a = omega int_laws

module _ (balances : List Balance) (rows : List Allocation) where
  -- What the candidates have free in all, none counted below 0.
  unfoldable pub total : List Candidate → ℕ
  total [] = 0
  total (c ∷ cs) = pos_part (available_of balances rows c) + total cs

  pub take_portions-left :
      (cs : List Candidate) (n : ℕ)
      → (take_portions balances rows cs (pos n)).1 ≡ pos (n - total cs)
  unfolding take_portions total
  take_portions-left [] n = ap pos (omega arith)
  take_portions-left (c ∷ cs) n = elim (Bool-cases (leb_ℤ (pos n) (pos 0))) [
    | inl e ↦
        let z : n - (pos_part (available_of balances rows c) + total cs) ≡ n = ground arith in
        rw (e, z)
    | inr e ↦ elim (Bool-cases (leb_ℤ (available_of balances rows c) (pos 0))) [
      | inl f ↦
          let z : pos_part (available_of balances rows c) ≡ 0 = ground arith in
          rw (e, f, take_portions-left cs n, z) (ap pos (omega arith))
      | inr f ↦
          rw
            (
              e,
              f,
              step_left (available_of balances rows c) n f,
              take_portions-left cs (n - pos_part (available_of balances rows c)),
            )
            (ap pos (omega arith))
    ]
  ]

  take_portions-sum :
      (cs : List Candidate) (r : ℤ)
      → sum_of (take_portions balances rows cs r).0 +ℤ (take_portions balances rows cs r).1 ≡ r
  unfolding take_portions sum_of
  take_portions-sum [] r = +ℤ_comm (pos 0) r ∙ +ℤ_zero r
  take_portions-sum (c ∷ cs) r = elim (Bool-cases (leb_ℤ r (pos 0))) [
    | inl e ↦ rw e (+ℤ_comm (pos 0) r ∙ +ℤ_zero r)
    | inr e ↦ elim (Bool-cases (leb_ℤ (available_of balances rows c) (pos 0))) [
      | inl f ↦ rw (e, f) (take_portions-sum cs r)
      | inr f ↦
          let t = smaller (available_of balances rows c) r in
          rw (e, f)
            (+ℤ_assoc t _ _ ∙ ap (λ z. t +ℤ z) (take_portions-sum cs (r -ℤ t)) ∙ +ℤ-cancels t r)
    ]
  ]

  -- selectFefoAllocationPortions, given a warehouse and a candidate, returns portions that add up to
  -- exactly what is needed when the candidates have that much free in all (what is not reserved,
  -- none counted below 0), and throws INSUFFICIENT_STOCK when they have less.
  pub select_portions-decides :
      (warehouses : List ℕ) (cs : List Candidate) (n : ℕ)
      → 0 < length warehouses
      → 0 < length cs
      → (n ≤ total cs
          → (ps : List Portion) × (select_portions balances rows warehouses cs (pos n) ≡ ok ps)
            × (sum_of ps ≡ pos n))
        × (total cs < n
            → select_portions balances rows warehouses cs (pos n) ≡ err insufficient_stock)
  unfolding select_portions
  select_portions-decides warehouses cs n some_warehouse some_candidate =
      let left = take_portions-left cs n in
      let w : (length warehouses == 0) ≡ false = ground arith in
      let c : (length cs == 0) ≡ false = ground arith in
      (
        (λ enough.
            let nothing : n - total cs ≡ 0 = omega arith in
            let all_taken : (take_portions balances rows cs (pos n)).1 ≡ pos 0 =
              left ∙ ap pos nothing in
            (
              (take_portions balances rows cs (pos n)).0,
              rw (w, c, all_taken),
              sym (+ℤ_zero _)
                  ∙ ap (λ z. sum_of (take_portions balances rows cs (pos n)).0 +ℤ z) (sym all_taken)
                  ∙ take_portions-sum cs (pos n),
            )),
        λ short.
            let t : ltb_ℤ (pos 0) (pos (n - total cs)) ≡ true = ground arith in rw (w, c, left, t),
      )
