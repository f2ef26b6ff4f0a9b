-- ===== src/Prelude/Nevers.antt =====
-- A test of each row with the rows behind it, which none passes: distinct columns, and orders of rows.
use ckitchen_backend.Prelude.Tests.{Bool-cases}
use ckitchen_backend.Prelude.Queries.{any, find?, update_where}
use ckitchen_backend.Prelude.Tables.{updated}
use mathlib.Core.Path.{◌≡◌, refl, ◌∙◌}
use mathlib.Core.Logic.{inl, inr}
use mathlib.Core.Bool.{Bool, false}
use mathlib.Core.Option.{none, some}
use mathlib.Core.List.{List, [], ◌∷◌}

module _ {A : Type 0} where
  abbrev pub Never : (A → List A → Bool) → List A → Type 0
  Never p [] = Unit
  Never p (x ∷ xs) = (p x xs ≡ false) × Never p xs

  -- An update that the test does not see.
  pub Never-update_where :
      (p : A → List A → Bool) (q : A → Bool) (f : A → A)
      → ((x : A) (xs : List A) → p (updated q f x) (update_where q f xs) ≡ p x xs)
      → (xs : List A) → Never p xs
      → Never p (update_where q f xs)
  Never-update_where p q f keeps [] h = tt
  Never-update_where p q f keeps (x ∷ xs) h =
      (keeps x xs ∙ h.0, Never-update_where p q f keeps xs h.1)

  -- A column that an update keeps.
  pub updated-keeps :
      {B : Type 0} (g : A → B) (q : A → Bool) (f : A → A)
      → ((x : A) → g (f x) ≡ g x)
      → (x : A) → g (updated q f x) ≡ g x
  updated-keeps g q f keeps x = elim (Bool-cases (q x)) [
    | inl e ↦ rw e (keeps x)
    | inr e ↦ rw e refl
  ]

  pub any-update_where :
      (p q : A → Bool) (f : A → A)
      → ((x : A) → p (f x) ≡ p x)
      → (xs : List A) → any p (update_where q f xs) ≡ any p xs
  any-update_where p q f keeps [] = refl
  any-update_where p q f keeps (x ∷ xs) =
      rw (updated-keeps p q f keeps x, any-update_where p q f keeps xs) refl

  pub find?-none-any : (p : A → Bool) (xs : List A) → find? p xs ≡ none → any p xs ≡ false
  find?-none-any p [] h = refl
  find?-none-any p (x ∷ xs) h = elim (Bool-cases (p x)) [
    | inl e ↦ absurd (found (rw e at h))
    | inr e ↦ rw e (find?-none-any p xs (rw e at h))
  ]
    where
      found : some x ≡ none → ⊥
      found e = cc
