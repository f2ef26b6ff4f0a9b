-- ===== src/CustomerOrders/Allocation/Fefo.antt =====
-- Lots are taken first expired first out.
use ckitchen_backend.Prelude.{
  ℕ, suc, ◌-◌, ◌≤◌, ◌≡◌, refl, subst, sym, Bool, true, false, ◌&&◌, ◌||◌, not, Option, none, some,
  List, [], ◌∷◌, ◌++◌, Text, find?, includes, length, ◌==◌, if◌then◌else◌, Bool-cases, Option-cases,
  inl, inr, arith, All, All-map,
}
use ckitchen_backend.Prelude.Int.{ℤ, pos, pos_part, leb_ℤ}
use ckitchen_backend.Stock.Types.{Lot, Balance}
use ckitchen_backend.Stock.Route.{is_available, not_expired}
use ckitchen_backend.CustomerOrders.Allocation.{
  Allocation, Candidate, expires_before, goes_before, insert_candidate, candidates_of, available_of,
  take_portions, select_portions,
}
use ckitchen_backend.CustomerOrders.Allocation.Amounts.{total, step_left}

-- No candidate goes before one that expires before it; one that does not expire is last.
abbrev pub IsOrdered : List Candidate → Type 0
IsOrdered [] = Unit
IsOrdered (c ∷ cs) = All (λ x. expires_before x.expires_at c.expires_at ≡ false) cs × IsOrdered cs

before_asym : (a b : Option ℕ) → expires_before a b ≡ true → expires_before b a ≡ false
before_asym none b h = cc
before_asym (some d) none h = refl
before_asym (some d) (some e) h = ground arith

not_before_trans :
    (a b c : Option ℕ)
    → expires_before a b ≡ false
    → expires_before b c ≡ false
    → expires_before a c ≡ false
not_before_trans none b c h k = refl
not_before_trans (some d) none c h k = cc
not_before_trans (some d) (some e) none h k = cc
not_before_trans (some d) (some e) (some f) h k = ground arith

module _ (collates : Text → Text → Bool) where
  went_before :
      (x c : Candidate)
      → goes_before collates x c ≡ true
      → expires_before c.expires_at x.expires_at ≡ false
  unfolding goes_before
  went_before x c h = elim (Bool-cases (expires_before x.expires_at c.expires_at)) [
    | inl e ↦ before_asym x.expires_at c.expires_at e
    | inr e ↦ first (expires_before c.expires_at x.expires_at) _ (rw e at h)
  ]
    where
      first : (a b : Bool) → (not a && b) ≡ true → a ≡ false
      first true b h = cc
      first false b h = refl

  stays_after :
      (x c : Candidate)
      → goes_before collates x c ≡ false
      → expires_before x.expires_at c.expires_at ≡ false
  unfolding goes_before
  stays_after x c h = first (expires_before x.expires_at c.expires_at) _ h
    where
      first : (a b : Bool) → (a || b) ≡ false → a ≡ false
      first true b h = cc
      first false b h = refl

  insert_candidate-All :
      (P : Candidate → Type 0) (c : Candidate) (cs : List Candidate)
      → P c
      → All P cs
      → All P (insert_candidate collates c cs)
  unfolding insert_candidate
  insert_candidate-All P c [] p h = (p, tt)
  insert_candidate-All P c (x ∷ xs) p h = elim (Bool-cases (goes_before collates x c)) [
    | inl e ↦ rw e (h.0, insert_candidate-All P c xs p h.1)
    | inr e ↦ rw e (p, h)
  ]

  insert_candidate-IsOrdered :
      (c : Candidate) (cs : List Candidate)
      → IsOrdered cs
      → IsOrdered (insert_candidate collates c cs)
  unfolding insert_candidate
  insert_candidate-IsOrdered c [] h = (tt, tt)
  insert_candidate-IsOrdered c (x ∷ xs) h = elim (Bool-cases (goes_before collates x c)) [
    | inl e ↦ rw e (
      insert_candidate-All (λ y. expires_before y.expires_at x.expires_at ≡ false) c xs
          (went_before x c e) h.0,
      insert_candidate-IsOrdered c xs h.1,
    )
    | inr e ↦
        let after = stays_after x c e in
        rw e (
          (
            after,
            All-map _ _ (λ y k. not_before_trans y.expires_at x.expires_at c.expires_at k after) xs
                h.0,
          ),
          h,
        )
  ]

  pub candidates_of-IsOrdered :
      (lots : List Lot) (item : ℕ) (warehouses : List ℕ) (lot : Option ℕ) (today : ℕ)
      (balances : List Balance)
      → IsOrdered (candidates_of collates lots item warehouses lot today balances)
  unfolding candidates_of
  candidates_of-IsOrdered lots item warehouses lot today [] = tt
  candidates_of-IsOrdered lots item warehouses lot today (b ∷ bs) =
      let ordered = candidates_of-IsOrdered lots item warehouses lot today bs in
      elim (Option-cases (find? (λ l. l.id == b.lot_id) lots)) [
        | inl e ↦
            let same : candidates_of collates lots item warehouses lot today (b ∷ bs)
                ≡ candidates_of collates lots item warehouses lot today bs =
              rw (e, candidates_of) in
            subst IsOrdered (sym same) ordered
        | inr (l, e) ↦
            let joins =
              l.item_id == item
              && includes warehouses b.warehouse_id
              && is_available l.status
              && not_expired l.expires_at today
              && elim lot [ none ↦ true | some id ↦ l.id == id ] in
            let c : Candidate = record {
              lot_id = l.id;
              lot_code = l.lot_code;
              warehouse_id = b.warehouse_id;
              expires_at = l.expires_at;
            } in
            let same : candidates_of collates lots item warehouses lot today (b ∷ bs) ≡ (
                if joins
                then insert_candidate collates c
                    (candidates_of collates lots item warehouses lot today bs)
                else candidates_of collates lots item warehouses lot today bs) =
              rw (e, candidates_of) in
            subst IsOrdered (sym same)
              (kept joins c (candidates_of collates lots item warehouses lot today bs) ordered)
      ]
    where
      kept :
          (joined : Bool) (c : Candidate) (cs : List Candidate)
          → IsOrdered cs
          → IsOrdered (if joined then insert_candidate collates c cs else cs)
      kept true c cs h = insert_candidate-IsOrdered c cs h
      kept false c cs h = h

module _ (balances : List Balance) (rows : List Allocation) where
  nothing_needed :
      (cs : List Candidate) (r : ℤ)
      → leb_ℤ r (pos 0) ≡ true
      → take_portions balances rows cs r ≡ ([], r)
  unfolding take_portions
  nothing_needed [] r h = refl
  nothing_needed (c ∷ cs) r h = rw h

  take_portions-prefix :
      (xs ys : List Candidate) (n : ℕ)
      → n ≤ total balances rows xs
      → take_portions balances rows (xs ++ ys) (pos n) ≡ take_portions balances rows xs (pos n)
  unfolding take_portions total
  take_portions-prefix [] ys n enough = nothing_needed ys (pos n) (ground arith)
  take_portions-prefix (c ∷ xs) ys n enough = elim (Bool-cases (leb_ℤ (pos n) (pos 0))) [
    | inl e ↦ rw e
    | inr e ↦ elim (Bool-cases (leb_ℤ (available_of balances rows c) (pos 0))) [
      | inl f ↦ rw (e, f, take_portions-prefix xs ys n (ground arith))
      | inr f ↦ rw (
        e,
        f,
        step_left (available_of balances rows c) n f,
        take_portions-prefix xs ys (n - pos_part (available_of balances rows c)) (omega arith),
      )
    ]
  ]

-- The candidates of an allocation stand in the order of their expiry, those that do not expire
-- last, and when the first of them have what is needed, an allocation is the same with the others
-- and without: a lot is not touched while the lots before it suffice.
pub select_portions-fefo :
    (collates : Text → Text → Bool) (lots : List Lot) (balances : List Balance)
    (rows : List Allocation) (item : ℕ) (warehouses : List ℕ) (lot : Option ℕ) (today : ℕ)
    (c : Candidate) (xs ys : List Candidate)
    → candidates_of collates lots item warehouses lot today balances ≡ c ∷ (xs ++ ys)
    → (n : ℕ) → n ≤ total balances rows (c ∷ xs)
    → IsOrdered (c ∷ (xs ++ ys))
      × (select_portions balances rows warehouses
            (candidates_of collates lots item warehouses lot today balances)
            (pos n)
          ≡ select_portions balances rows warehouses (c ∷ xs) (pos n))
unfolding select_portions
select_portions-fefo collates lots balances rows item warehouses lot today c xs ys split n enough =
    let some_left : (suc (length (xs ++ ys)) == 0) ≡ false = ground arith in
    let some_first : (suc (length xs) == 0) ≡ false = ground arith in
    (
      subst IsOrdered split
          (candidates_of-IsOrdered collates lots item warehouses lot today balances),
      rw (split, some_left, some_first, take_portions-prefix balances rows (c ∷ xs) ys n enough),
    )
