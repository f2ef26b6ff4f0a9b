-- ===== src/Prelude/Tables.antt =====
-- What a query finds after an update, and what an update keeps.
use ckitchen_backend.Prelude.Tests.{if◌then◌else◌, Bool-cases}
use ckitchen_backend.Prelude.Queries.{find?, any, select, update_where}
use ckitchen_backend.Prelude.Alls.{All}
use mathlib.Core.Path.{◌≡◌, refl, sym, subst}
use mathlib.Core.Logic.{inl, inr}
use mathlib.Core.Bool.{Bool, true, false, ◌||◌}
use mathlib.Core.Option.{Option, none, some}
use mathlib.Core.List.{List, [], ◌∷◌}
use native.Mathlib.Omega.{arith}

module _ {A : Type 0} where
  abbrev pub map_option : {B : Type 0} → (A → B) → Option A → Option B
  map_option f none = none
  map_option f (some a) = some (f a)

  pub some_eq : {a b : A} → some a ≡ some b → a ≡ b
  some_eq h = cc

  -- A row after an update.
  abbrev pub updated : (A → Bool) → (A → A) → A → A
  updated p f x = if p x then f x else x

  -- An update that a query does not see changes the row that the query finds, and no more.
  pub find?-update_where :
      (p q : A → Bool) (f : A → A)
      → ((x : A) → q (f x) ≡ q x)
      → (xs : List A) → find? q (update_where p f xs) ≡ map_option (updated p f) (find? q xs)
  find?-update_where p q f keeps [] = refl
  find?-update_where p q f keeps (x ∷ xs) = elim (Bool-cases (p x)) [
    | inl hit ↦ elim (Bool-cases (q x)) [
      | inl e ↦ rw (hit, keeps x, e) (rw (hit))
      | inr e ↦ rw (hit, keeps x, e) (find?-update_where p q f keeps xs)
    ]
    | inr miss ↦ elim (Bool-cases (q x)) [
      | inl e ↦ rw (miss, e) (rw (miss))
      | inr e ↦ rw (miss, e) (find?-update_where p q f keeps xs)
    ]
  ]

  -- The row that a query finds satisfies it.
  pub find?-holds : (q : A → Bool) (xs : List A) {a : A} → find? q xs ≡ some a → q a ≡ true
  find?-holds q [] h = cc
  find?-holds q (x ∷ xs) h = elim (Bool-cases (q x)) [
    | inl e ↦ ground (arith, e)
    | inr e ↦ find?-holds q xs (rw e at h)
  ]

  pub find?-All {κ} :
      (P : A → Type κ) (q : A → Bool) (xs : List A) {a : A} → All P xs → find? q xs ≡ some a → P a
  find?-All P q [] each h = cc
  find?-All P q (x ∷ xs) {a} each h = elim (Bool-cases (q x)) [
    | inl e ↦ subst P (some_eq (rw e at h)) each.0
    | inr e ↦ find?-All P q xs each.1 (rw e at h)
  ]

  pub any_of_found :
      (p q : A → Bool) (xs : List A) {a : A} → find? q xs ≡ some a → p a ≡ true → any p xs ≡ true
  any_of_found p q [] h t = cc
  any_of_found p q (x ∷ xs) {a} h t = elim (Bool-cases (q x)) [
    | inl e ↦ let same : x ≡ a = some_eq (rw e at h) in rw (same, t)
    | inr e ↦ or_right (p x) (any_of_found p q xs (rw e at h) t)
  ]
    where
      or_right : (b : Bool) {c : Bool} → c ≡ true → (b || c) ≡ true
      or_right true e = refl
      or_right false e = e

  pub find?-of_not_any : (q : A → Bool) (xs : List A) → any q xs ≡ false → find? q xs ≡ none
  find?-of_not_any q [] h = refl
  find?-of_not_any q (x ∷ xs) h = elim (Bool-cases (q x)) [
    | inl e ↦ absurd (bad (rw e at h))
    | inr e ↦ rw e (find?-of_not_any q xs (rw e at h))
  ]
    where
      bad : true ≡ false → ⊥
      bad e = cc

  -- An update that matches no row.
  pub update_where-none :
      (q : A → Bool) (f : A → A) (xs : List A) → find? q xs ≡ none → update_where q f xs ≡ xs
  update_where-none q f [] h = refl
  update_where-none q f (x ∷ xs) h = elim (Bool-cases (q x)) [
    | inl e ↦ absurd (found (rw e at h))
    | inr e ↦ rw (e, update_where-none q f xs (rw e at h))
  ]
    where
      found : some x ≡ none → ⊥
      found e = cc

  -- A predicate that the update keeps on the rows that it changes.
  pub update_where-All {κ} :
      (P : A → Type κ) (q : A → Bool) (f : A → A)
      → ((x : A) → q x ≡ true → P x → P (f x))
      → (xs : List A) → All P xs
      → All P (update_where q f xs)
  update_where-All P q f step [] each = tt
  update_where-All P q f step (x ∷ xs) each = elim (Bool-cases (q x)) [
    | inl e ↦ rw e (step x e each.0, update_where-All P q f step xs each.1)
    | inr e ↦ rw e (each.0, update_where-All P q f step xs each.1)
  ]

  -- A narrower query that the row of a query satisfies finds the same row.
  pub find?-narrow :
      (p q : A → Bool)
      → ((x : A) → q x ≡ true → p x ≡ true)
      → (xs : List A) {o : A} → find? p xs ≡ some o
      → q o ≡ true
      → find? q xs ≡ some o
  find?-narrow p q implies [] found hit = cc
  find?-narrow p q implies (x ∷ xs) {o} found hit = elim (Bool-cases (p x)) [
    | inl e ↦
        let same : x ≡ o = some_eq (rw e at found) in
        rw (subst (λ y. q y ≡ true) (sym same) hit) (rw same)
    | inr e ↦ rw (unmatched x e) (find?-narrow p q implies xs (rw e at found) hit)
  ]
    where
      unmatched : (x : A) → p x ≡ false → q x ≡ false
      unmatched x e = elim (Bool-cases (q x)) [
        | inl h ↦ absurd (differ (implies x h) e)
        | inr h ↦ h
      ]
        where
          differ : {b : Bool} → b ≡ true → b ≡ false → ⊥
          differ h e = cc

  pub All-select {κ} :
      (P : A → Type κ) (q : A → Bool) (xs : List A) → All P xs → All P (select q xs)
  All-select P q [] h = tt
  All-select P q (x ∷ xs) h = elim (Bool-cases (q x)) [
    | inl e ↦ rw e (h.0, All-select P q xs h.1)
    | inr e ↦ rw e (All-select P q xs h.1)
  ]
