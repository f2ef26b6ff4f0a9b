-- ===== src/Prelude/Keys.antt =====
-- Tables whose rows have distinct keys: an update of the row that a query by key finds.
use Prim.Native.Nat.{ℕ}
use ckitchen_backend.Prelude.Tests.{◌==◌, if◌then◌else◌, Bool-cases, ==_iff, or_false, both_false}
use ckitchen_backend.Prelude.Queries.{find?, includes, select, update_where}
use ckitchen_backend.Prelude.Tables.{some_eq}
use ckitchen_backend.Prelude.Alls.{All}
use mathlib.Core.Path.{◌≡◌, refl, subst, sym}
use mathlib.Core.Logic.{inl, inr}
use mathlib.Core.Bool.{Bool, true, false, ◌||◌}
use mathlib.Core.Option.{Option, none, some}
use mathlib.Core.List.{List, [], ◌∷◌, map}

abbrev pub HasDistinct : List ℕ → Type 0
HasDistinct [] = Unit
HasDistinct (k ∷ ks) = (includes ks k ≡ false) × HasDistinct ks

module _ {A : Type 0} (key : A → ℕ) where
  abbrev pub has_id : ℕ → A → Bool
  has_id k x = key x == k

  pub keys-update_where :
      (q : A → Bool) (f : A → A)
      → ((x : A) → key (f x) ≡ key x)
      → (xs : List A) → map key (update_where q f xs) ≡ map key xs
  keys-update_where q f keeps [] = refl
  keys-update_where q f keeps (x ∷ xs) = elim (Bool-cases (q x)) [
    | inl e ↦ rw (e, keeps x, keys-update_where q f keeps xs)
    | inr e ↦ rw (e, keys-update_where q f keeps xs)
  ]

  -- No other row has the key.
  update_where-absent :
      (q : A → Bool) (f : A → A) (k : ℕ)
      → ((x : A) → q x ≡ true → has_id k x ≡ true)
      → (xs : List A) → includes (map key xs) k ≡ false
      → update_where q f xs ≡ xs
  update_where-absent q f k keyed [] h = refl
  update_where-absent q f k keyed (x ∷ xs) h = elim (Bool-cases (q x)) [
    | inl e ↦ absurd (clash (has_id k x) _ (keyed x e) h)
    | inr e ↦ rw (e, update_where-absent q f k keyed xs (rest (has_id k x) _ h))
  ]
    where
      clash : (a b : Bool) → a ≡ true → (a || b) ≡ false → ⊥
      clash true b e h = cc
      clash false b e h = cc

      rest : (a b : Bool) → (a || b) ≡ false → b ≡ false
      rest true b h = cc
      rest false b h = h

  find?-absent :
      (q : A → Bool) (k : ℕ)
      → ((x : A) → q x ≡ true → has_id k x ≡ true)
      → (xs : List A) → includes (map key xs) k ≡ false
      → find? q xs ≡ none
  find?-absent q k keyed [] h = refl
  find?-absent q k keyed (x ∷ xs) h = elim (Bool-cases (q x)) [
    | inl e ↦ absurd (clash (has_id k x) _ (keyed x e) h)
    | inr e ↦ rw e (find?-absent q k keyed xs (rest (has_id k x) _ h))
  ]
    where
      clash : (a b : Bool) → a ≡ true → (a || b) ≡ false → ⊥
      clash true b e h = cc
      clash false b e h = cc

      rest : (a b : Bool) → (a || b) ≡ false → b ≡ false
      rest true b h = cc
      rest false b h = h

  -- An update under a key changes no more than the row that a query by the key finds.
  pub update_found-All {κ} :
      (P : A → Type κ) (q : A → Bool) (f : A → A) (k : ℕ)
      → ((x : A) → q x ≡ true → has_id k x ≡ true)
      → (xs : List A) {o : A} → HasDistinct (map key xs)
      → find? (has_id k) xs ≡ some o
      → (q o ≡ true → P o → P (f o))
      → All P xs
      → All P (update_where q f xs)
  update_found-All P q f k keyed [] distinct found step each = tt
  update_found-All P q f k keyed (x ∷ xs) {o} distinct found step each =
      elim (Bool-cases (has_id k x)) [
        | inl e ↦
            let same : x ≡ o = some_eq (rw e at found) in
            let here : key x ≡ k = (==_iff (key x) k).0 e in
            let others : update_where q f xs ≡ xs =
              update_where-absent q f k keyed xs
                (subst (λ i. includes (map key xs) i ≡ false) here distinct.0) in
            (
              head x (subst (λ y. q y ≡ true → P y → P (f y)) (sym same) step) each.0,
              subst (All P) (sym others) each.1,
            )
        | inr e ↦ (
          elsewhere x (unmatched x e) each.0,
          update_found-All P q f k keyed xs distinct.1 (rw e at found) step each.1,
        )
      ]
    where
      head : (x : A) → (q x ≡ true → P x → P (f x)) → P x → P (if q x then f x else x)
      head x step p = elim (Bool-cases (q x)) [ inl e ↦ rw e (step e p) | inr e ↦ rw e p ]

      elsewhere : (x : A) → q x ≡ false → P x → P (if q x then f x else x)
      elsewhere x e p = rw e p

      unmatched : (x : A) → has_id k x ≡ false → q x ≡ false
      unmatched x e = elim (Bool-cases (q x)) [ inl h ↦ absurd (differ (keyed x h) e) | inr h ↦ h ]
        where
          differ : {b : Bool} → b ≡ true → b ≡ false → ⊥
          differ h e = cc

  -- A key under which a query finds a row is one of the keys.
  pub found-includes :
      (k : ℕ) (xs : List A) {o : A} → find? (has_id k) xs ≡ some o → includes (map key xs) k ≡ true
  found-includes k [] h = cc
  found-includes k (x ∷ xs) h = elim (Bool-cases (has_id k x)) [
    | inl e ↦ rw e refl
    | inr e ↦ rw e (found-includes k xs (rw e at h))
  ]

  -- A query under a key that the row of the key does not satisfy finds nothing.
  pub find?-found_none :
      (q : A → Bool) (k : ℕ)
      → ((x : A) → q x ≡ true → has_id k x ≡ true)
      → (xs : List A) {o : A} → HasDistinct (map key xs)
      → find? (has_id k) xs ≡ some o
      → q o ≡ false
      → find? q xs ≡ none
  find?-found_none q k keyed [] distinct found miss = refl
  find?-found_none q k keyed (x ∷ xs) {o} distinct found miss = elim (Bool-cases (has_id k x)) [
    | inl e ↦
        let same : x ≡ o = some_eq (rw e at found) in
        let here : key x ≡ k = (==_iff (key x) k).0 e in
        let none_there : includes (map key xs) k ≡ false =
          subst (λ i. includes (map key xs) i ≡ false) here distinct.0 in
        rw (subst (λ y. q y ≡ false) (sym same) miss) (find?-absent q k keyed xs none_there)
    | inr e ↦ rw (unmatched x e) (find?-found_none q k keyed xs distinct.1 (rw e at found) miss)
  ]
    where
      unmatched : (x : A) → has_id k x ≡ false → q x ≡ false
      unmatched x e = elim (Bool-cases (q x)) [ inl h ↦ absurd (differ (keyed x h) e) | inr h ↦ h ]
        where
          differ : {b : Bool} → b ≡ true → b ≡ false → ⊥
          differ h e = cc

  -- Where keys are distinct, a query under a key finds the row of the key.
  pub find?-by_id :
      (q : A → Bool) (k : ℕ)
      → ((x : A) → q x ≡ true → has_id k x ≡ true)
      → (xs : List A) {o : A} → HasDistinct (map key xs)
      → find? q xs ≡ some o
      → find? (has_id k) xs ≡ some o
  find?-by_id q k keyed [] distinct found = cc
  find?-by_id q k keyed (x ∷ xs) {o} distinct found = elim (Bool-cases (q x)) [
    | inl e ↦ rw (keyed x e) (rw e at found)
    | inr e ↦ elim (Bool-cases (has_id k x)) [
      | inl h ↦
          let here : key x ≡ k = (==_iff (key x) k).0 h in
          let none_there : includes (map key xs) k ≡ false =
            subst (λ i. includes (map key xs) i ≡ false) here distinct.0 in
          absurd (differ (find?-absent q k keyed xs none_there) (rw e at found))
      | inr h ↦ rw h (find?-by_id q k keyed xs distinct.1 (rw e at found))
    ]
  ]
    where
      differ : {p : Option A} {b : A} → p ≡ none → p ≡ some b → ⊥
      differ e h = cc

  select-absent :
      (p : A → Bool) (k : ℕ) (xs : List A)
      → includes (map key xs) k ≡ false
      → includes (map key (select p xs)) k ≡ false
  select-absent p k [] h = refl
  select-absent p k (x ∷ xs) h = elim (Bool-cases (p x)) [
    | inl e ↦ rw e (
        both_false (key x == k) (or_false (key x == k) h).0
          (select-absent p k xs (or_false (key x == k) h).1))
    | inr e ↦ rw e (select-absent p k xs (or_false (key x == k) h).1)
  ]

  pub select-HasDistinct :
      (p : A → Bool) (xs : List A) → HasDistinct (map key xs) → HasDistinct (map key (select p xs))
  select-HasDistinct p [] h = tt
  select-HasDistinct p (x ∷ xs) h = elim (Bool-cases (p x)) [
    | inl e ↦ rw e (select-absent p (key x) xs h.0, select-HasDistinct p xs h.1)
    | inr e ↦ rw e (select-HasDistinct p xs h.1)
  ]

  -- Where keys are distinct, each row is the row of its key.
  abbrev pub IsRowIn : List A → A → Type 0
  IsRowIn xs x = find? (has_id (key x)) xs ≡ some x

  rows-cons :
      (x : A) (xs ys : List A)
      → includes (map key xs) (key x) ≡ false
      → All (IsRowIn xs) ys
      → All (IsRowIn (x ∷ xs)) ys
  rows-cons x xs [] absent each = tt
  rows-cons x xs (y ∷ ys) absent each = (behind, rows-cons x xs ys absent each.1)
    where
      differ : {b : Bool} → b ≡ true → b ≡ false → ⊥
      differ h e = cc

      behind : find? (has_id (key y)) (x ∷ xs) ≡ some y
      behind = elim (Bool-cases (key x == key y)) [
        | inl e ↦ absurd (
            differ (found-includes (key y) xs each.0)
              (subst (λ k. includes (map key xs) k ≡ false) ((==_iff (key x) (key y)).0 e) absent))
        | inr e ↦ rw e each.0
      ]

  pub rows-All : (xs : List A) → HasDistinct (map key xs) → All (IsRowIn xs) xs
  rows-All [] h = tt
  rows-All (x ∷ xs) h =
      (rw ((==_iff (key x) (key x)).1 refl) refl, rows-cons x xs xs h.0 (rows-All xs h.1))
