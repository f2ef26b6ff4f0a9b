-- ===== src/Stock/Route/Outlets.antt =====
-- Which outlets a posting of a route class touches.
use ckitchen_backend.Prelude.{
  ℕ, suc, ◌≤◌, ◌≡◌, refl, subst, ◌∙◌, All-map, Bool, true, false, ◌&&◌, List, [], ◌∷◌, map,
  insert_sorted, sorted_set, length, ltb, Bool-cases, inl, inr, arith, All, ok, throw_if-eq-ok,
}
use ckitchen_backend.Stock.Types.{RouteClass, Movement, Warehouse}
use ckitchen_backend.Stock.Route.{location_of, is_single_outlet, validate_route}

insert_sorted-length : (a : ℕ) (xs : List ℕ) → 1 ≤ length (insert_sorted ltb a xs)
insert_sorted-length a [] = omega arith
insert_sorted-length a (x ∷ xs) = elim (Bool-cases (ltb a x)) [
  | inl e ↦ rw e (omega arith)
  | inr e ↦ elim (Bool-cases (ltb x a)) [
    | inl f ↦ rw (e, f) (omega arith)
    | inr f ↦ rw (e, f) (omega arith)
  ]
]

-- A set with at most one number comes from a list of one number, repeated.
insert_sorted-single :
    (a : ℕ) (xs : List ℕ) → length (insert_sorted ltb a xs) ≤ 1 → All (λ x. x ≡ a) xs
insert_sorted-single a [] h = tt
insert_sorted-single a (x ∷ xs) h = elim (Bool-cases (ltb a x)) [
  | inl e ↦ absurd (two (length xs) (rw e at h))
  | inr e ↦ elim (Bool-cases (ltb x a)) [
    | inl f ↦
        absurd
          (one_more (length (insert_sorted ltb a xs)) (insert_sorted-length a xs) (rw (e, f) at h))
    | inr f ↦ (ground arith, empty xs (rw (e, f) at h))
  ]
]
  where
    two : (k : ℕ) → suc (suc k) ≤ 1 → ⊥
    two k h = omega arith

    one_more : (k : ℕ) → 1 ≤ k → suc k ≤ 1 → ⊥
    one_more k g h = omega arith

    empty : (ys : List ℕ) → suc (length ys) ≤ 1 → All (λ y. y ≡ a) ys
    empty [] h = tt
    empty (y ∷ ys) h = absurd (two (length ys) h)

insert_sorted-grows : (a : ℕ) (xs : List ℕ) → length xs ≤ length (insert_sorted ltb a xs)
insert_sorted-grows a [] = omega arith
insert_sorted-grows a (x ∷ xs) = elim (Bool-cases (ltb a x)) [
  | inl e ↦ rw e (omega arith)
  | inr e ↦ elim (Bool-cases (ltb x a)) [
    | inl f ↦ rw (e, f) (omega (arith, insert_sorted-grows a xs))
    | inr f ↦ rw (e, f) (omega arith)
  ]
]

-- What holds of a set holds of the number that was put in.
insert_sorted-holds : (P : ℕ → Type 0) (a : ℕ) (xs : List ℕ) → All P (insert_sorted ltb a xs) → P a
insert_sorted-holds P a [] h = h.0
insert_sorted-holds P a (x ∷ xs) h = elim (Bool-cases (ltb a x)) [
  | inl e ↦ (rw e at h).0
  | inr e ↦ elim (Bool-cases (ltb x a)) [
    | inl f ↦ insert_sorted-holds P a xs (rw (e, f) at h).1
    | inr f ↦ let same : x ≡ a = ground arith in subst P same (rw (e, f) at h).0
  ]
]

sorted_set-single :
    (a : ℕ) (xs : List ℕ) → length (sorted_set ltb (a ∷ xs)) ≤ 1 → All (λ x. x ≡ a) xs
sorted_set-single a [] h = tt
sorted_set-single a (b ∷ xs) h =
    let set = sorted_set ltb (b ∷ xs) in
    let few : length set ≤ 1 = omega (arith, insert_sorted-grows a set, h) in
    let first : b ≡ a =
      insert_sorted-holds (λ x. x ≡ a) b (sorted_set ltb xs) (insert_sorted-single a set h) in
    (first, All-map (λ x. x ≡ b) (λ x. x ≡ a) (λ x e. e ∙ first) xs (sorted_set-single b xs few))

module _ (warehouses : List Warehouse) where
  mapped :
      (place : ℕ) (ms : List Movement)
      → All (λ x. x ≡ place) (map (location_of warehouses) ms)
      → All (λ m. location_of warehouses m ≡ place) ms
  mapped place [] h = tt
  mapped place (m ∷ ms) h = (h.0, mapped place ms h.1)

  single :
      (ms : List Movement)
      → length (sorted_set ltb (map (location_of warehouses) ms)) ≤ 1
      → (place : ℕ) × All (λ m. location_of warehouses m ≡ place) ms
  single [] h = (0, tt)
  single (m ∷ ms) h =
      let place = location_of warehouses m in
      (place, (refl, mapped place ms (sorted_set-single place (map (location_of warehouses) ms) h)))

  -- A route that is validated keeps to one outlet when its class is one of those that do (receipts,
  -- order deductions, adjustments, internal transfers, return dispatches and QA releases): there is
  -- an outlet where the warehouses of all its movements stand.
  pub validate_route-one_outlet :
      (class : RouteClass) (location : ℕ) (ms : List Movement)
      → is_single_outlet warehouses class ≡ true
      → validate_route warehouses class location ms ≡ ok tt
      → (place : ℕ) × All (λ m. location_of warehouses m ≡ place) ms
  unfolding validate_route
  validate_route-one_outlet class location ms kept h =
      let many = ltb 1 (length (sorted_set ltb (map (location_of warehouses) ms))) in
      let (tested, _) = throw_if-eq-ok (is_single_outlet warehouses class && many) _ _ h in
      single ms
        (few (length (sorted_set ltb (map (location_of warehouses) ms))) (right kept tested))
    where
      right : {a b : Bool} → a ≡ true → (a && b) ≡ false → b ≡ false
      right e f = cc

      few : (k : ℕ) → ltb 1 k ≡ false → k ≤ 1
      few k h = ground arith
