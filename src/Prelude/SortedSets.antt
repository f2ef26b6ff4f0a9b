-- ===== src/Prelude/SortedSets.antt =====
-- The sorted set of a list of keys.
use ckitchen_backend.Prelude.Tests.{Bool-cases}
use ckitchen_backend.Prelude.Queries.{insert_sorted, sorted_set}
use ckitchen_backend.Prelude.Alls.{All, All-map}
use mathlib.Core.Path.{◌≡◌}
use mathlib.Core.Logic.{inl, inr}
use mathlib.Core.Bool.{Bool, true}
use mathlib.Core.List.{List, [], ◌∷◌}

-- A sorted set holds what the list holds, each once.
module _ {A : Type 0} (lt : A → A → Bool) where
  pub insert_sorted-All :
      (P : A → Type 0) (a : A) (xs : List A) → P a → All P xs → All P (insert_sorted lt a xs)
  insert_sorted-All P a [] p h = (p, tt)
  insert_sorted-All P a (x ∷ xs) p h = elim (Bool-cases (lt a x)) [
    | inl e ↦ rw e (p, h)
    | inr e ↦ elim (Bool-cases (lt x a)) [
      | inl f ↦ rw (e, f) (h.0, insert_sorted-All P a xs p h.1)
      | inr f ↦ rw (e, f) (h.0, h.1)
    ]
  ]

  pub sorted_set-All : (P : A → Type 0) (xs : List A) → All P xs → All P (sorted_set lt xs)
  sorted_set-All P [] h = tt
  sorted_set-All P (x ∷ xs) h =
      insert_sorted-All P x (sorted_set lt xs) h.0 (sorted_set-All P xs h.1)

  abbrev pub Ascending : List A → Type 0
  Ascending [] = Unit
  Ascending (x ∷ xs) = All (λ y. lt x y ≡ true) xs × Ascending xs

  module _ (trans : (a b c : A) → lt a b ≡ true → lt b c ≡ true → lt a c ≡ true) where
    insert_sorted-Ascending :
        (a : A) (xs : List A) → Ascending xs → Ascending (insert_sorted lt a xs)
    insert_sorted-Ascending a [] h = (tt, tt)
    insert_sorted-Ascending a (x ∷ xs) h = elim (Bool-cases (lt a x)) [
      | inl e ↦ rw e ((e, All-map _ _ (λ y. trans a x y e) xs h.0), h)
      | inr e ↦ elim (Bool-cases (lt x a)) [
        | inl f ↦
            rw (e, f)
              (insert_sorted-All (λ y. lt x y ≡ true) a xs f h.0, insert_sorted-Ascending a xs h.1)
        | inr f ↦ rw (e, f) (h.0, h.1)
      ]
    ]

    pub sorted_set-Ascending : (xs : List A) → Ascending (sorted_set lt xs)
    sorted_set-Ascending [] = tt
    sorted_set-Ascending (x ∷ xs) =
        insert_sorted-Ascending x (sorted_set lt xs) (sorted_set-Ascending xs)
