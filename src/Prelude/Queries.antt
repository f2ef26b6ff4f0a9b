-- ===== src/Prelude/Queries.antt =====
-- The queries of the source on a table, which is a list of rows: the first row that matches, the
-- tests `some` and `every`, an update with a condition, and a sorted set of keys.
use Prim.Native.Nat.{ℕ}
use ckitchen_backend.Prelude.Tests.{◌==◌, if◌then◌else◌}
use mathlib.Core.Bool.{Bool, true, false, ◌&&◌, ◌||◌}
use mathlib.Core.Option.{Option, none, some}
use mathlib.Core.List.{List, [], ◌∷◌}

module _ {A : Type 0} where
  -- `const [row] = select … where p`
  abbrev pub find? : (A → Bool) → List A → Option A
  find? p [] = none
  find? p (x ∷ xs) = if p x then some x else find? p xs

  -- `some`
  abbrev pub any : (A → Bool) → List A → Bool
  any p [] = false
  any p (x ∷ xs) = p x || any p xs

  -- `every`
  abbrev pub all : (A → Bool) → List A → Bool
  all p [] = true
  all p (x ∷ xs) = p x && all p xs

  -- `filter`, and `select … where p`
  abbrev pub select : (A → Bool) → List A → List A
  select p [] = []
  select p (x ∷ xs) = let rest = select p xs in if p x then x ∷ rest else rest

  -- `update … set … where p`
  abbrev pub update_where : (A → Bool) → (A → A) → List A → List A
  update_where p f [] = []
  update_where p f (x ∷ xs) = (if p x then f x else x) ∷ update_where p f xs

-- Insertion into a strictly sorted list, by a comparison; an element that is there stays alone.
module _ {A : Type 0} (lt : A → A → Bool) where
  abbrev pub insert_sorted : A → List A → List A
  insert_sorted a [] = a ∷ []
  insert_sorted a (x ∷ xs) =
      let rest = insert_sorted a xs in
      if lt a x then a ∷ x ∷ xs else if lt x a then x ∷ rest else x ∷ xs

  -- `[...new Set(xs)].sort()`
  abbrev pub sorted_set : List A → List A
  sorted_set [] = []
  sorted_set (x ∷ xs) = insert_sorted x (sorted_set xs)

-- `includes` on a list of ids
abbrev pub includes : List ℕ → ℕ → Bool
includes xs a = any (λ x. x == a) xs
