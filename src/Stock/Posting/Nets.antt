-- ===== src/Stock/Posting/Nets.antt =====
-- Grouping and ordering the movements of a request keeps what they add to each balance.
use ckitchen_backend.Prelude.{
  ℕ, ◌≡◌, refl, sym, ap, ◌∙◌, Bool, true, false, ◌&&◌, List, [], ◌∷◌, ◌==◌, if◌then◌else◌,
  Bool-cases, inl, inr, arith, Result, ok, ◌>>=◌, ok-injective, >>=-eq-ok,
}
use ckitchen_backend.Prelude.Int.{ℤ, pos, ◌+ℤ◌, +ℤ_assoc, +ℤ_comm}
use ckitchen_backend.Stock.Types.{PostingError, MovementInput, PostingInput, Movement}
use ckitchen_backend.Stock.Canonical.{
  normalize_movement, same_type, same_line, add_group, group_movements, sort_key_lt,
  insert_movement, sort_movements, canonical_movements,
}
use ckitchen_backend.Stock.Route.{signed}
use ckitchen_backend.Stock.Ledger.Plan.{moves_at, net_at}

-- The movements of a request, each with its numbers read, as they stand.
unfoldable pub normalize_each : List MovementInput → Result PostingError (List Movement)
normalize_each [] = ok []
normalize_each (m ∷ ms) = do
  first ← normalize_movement m
  rest ← normalize_each ms
  ok (first ∷ rest)

abbrev adds : ℕ → ℕ → Movement → ℤ
adds w l m = if moves_at w l m then signed m else pos 0

and_first :
    (a b c d e f g h i j : Bool)
    → (a && b && c && d && e && f && g && h && i && j) ≡ true
    → (a ≡ true) × (c ≡ true) × (d ≡ true)
and_first true true true true e f g h i j all_true = (refl, refl, refl)
and_first true true true false e f g h i j all_true = cc
and_first true true false d e f g h i j all_true = cc
and_first true false c d e f g h i j all_true = cc
and_first false b c d e f g h i j all_true = cc

swap : (a b c : ℤ) → a +ℤ (b +ℤ c) ≡ b +ℤ (a +ℤ c)
swap a b c = sym (+ℤ_assoc a b c) ∙ ap (λ z. z +ℤ c) (+ℤ_comm a b) ∙ +ℤ_assoc b a c

zero_first : (a : ℤ) → pos 0 +ℤ a ≡ a
unfolding ◌+ℤ◌
zero_first a = ground arith

zero_last : (a : ℤ) → a +ℤ pos 0 ≡ a
unfolding ◌+ℤ◌
zero_last a = ground arith

zero_twice : pos 0 ≡ pos 0 +ℤ pos 0
unfolding ◌+ℤ◌
zero_twice = refl

signed_sum :
    (g m : Movement)
    → same_type g.movement_type m.movement_type ≡ true
    → signed (record g {
      quantity = g.quantity +ℤ m.quantity;
      entered_quantity = g.entered_quantity +ℤ m.entered_quantity;
    })
      ≡ signed g +ℤ signed m
unfolding ◌+ℤ◌
signed_sum g m h = ground arith

module _ (w l : ℕ) where
  adds-merged :
      (g m : Movement)
      → same_line g m ≡ true
      → adds w l (record g {
        quantity = g.quantity +ℤ m.quantity;
        entered_quantity = g.entered_quantity +ℤ m.entered_quantity;
      })
        ≡ adds w l g +ℤ adds w l m
  unfolding same_line
  adds-merged g m h =
      let (t, u, v) =
        and_first (g.warehouse_id == m.warehouse_id) (g.item_id == m.item_id) (g.lot_id == m.lot_id)
          (same_type g.movement_type m.movement_type) _ _ _ _ _ _ h in
      let warehouse : g.warehouse_id ≡ m.warehouse_id = ground arith in
      let lot : g.lot_id ≡ m.lot_id = ground arith in
      let same : moves_at w l m ≡ moves_at w l g = rw (warehouse, lot) in
      elim (Bool-cases (moves_at w l g)) [
        | inl e ↦ rw (same, e) (signed_sum g m v)
        | inr e ↦ rw (same, e) zero_twice
      ]

  net_at-add_group :
      (m : Movement) (gs : List Movement)
      → net_at w l (add_group m gs) ≡ adds w l m +ℤ net_at w l gs
  unfolding add_group net_at
  net_at-add_group m [] = refl
  net_at-add_group m (g ∷ gs) = elim (Bool-cases (same_line g m)) [
    | inl e ↦ rw e (
        ap (λ z. z +ℤ net_at w l gs) (adds-merged g m e ∙ +ℤ_comm (adds w l g) (adds w l m))
        ∙ +ℤ_assoc (adds w l m) (adds w l g) (net_at w l gs))
    | inr e ↦ rw e (
        ap (λ z. adds w l g +ℤ z) (net_at-add_group m gs)
        ∙ swap (adds w l g) (adds w l m) (net_at w l gs))
  ]

  net_at-insert_movement :
      (m : Movement) (ms : List Movement)
      → net_at w l (insert_movement m ms) ≡ adds w l m +ℤ net_at w l ms
  unfolding insert_movement net_at
  net_at-insert_movement m [] = refl
  net_at-insert_movement m (x ∷ xs) = elim (Bool-cases (sort_key_lt x m)) [
    | inl e ↦ rw e (
        ap (λ z. adds w l x +ℤ z) (net_at-insert_movement m xs)
        ∙ swap (adds w l x) (adds w l m) (net_at w l xs))
    | inr e ↦ rw e
  ]

  net_at-sort_movements : (ms : List Movement) → net_at w l (sort_movements ms) ≡ net_at w l ms
  unfolding sort_movements net_at
  net_at-sort_movements [] = refl
  net_at-sort_movements (m ∷ ms) =
      net_at-insert_movement m (sort_movements ms)
      ∙ ap (λ z. adds w l m +ℤ z) (net_at-sort_movements ms)

-- Grouping from a list of groups on.
group_movements-net :
    (inputs : List MovementInput) (groups ms : List Movement)
    → group_movements inputs groups ≡ ok ms
    → (ns : List Movement) × (normalize_each inputs ≡ ok ns)
      × ((w l : ℕ) → net_at w l ms ≡ net_at w l ns +ℤ net_at w l groups)
unfolding group_movements net_at normalize_each
group_movements-net [] groups ms h =
    ([], refl, λ w l. ap (net_at w l) (sym (ok-injective h)) ∙ sym (zero_first (net_at w l groups)))
group_movements-net (m ∷ inputs) groups ms h =
    let (first, first_eq, h₁) = >>=-eq-ok (normalize_movement m) _ h in
    let (ns, ns_eq, nets) = group_movements-net inputs (add_group first groups) ms h₁ in
    (
      first ∷ ns,
      rw (first_eq, ns_eq),
      λ w l.
          nets w l
          ∙ ap (λ z. net_at w l ns +ℤ z) (net_at-add_group w l first groups)
          ∙ swap (net_at w l ns) (adds w l first) (net_at w l groups)
          ∙ sym (+ℤ_assoc (adds w l first) (net_at w l ns) (net_at w l groups)),
    )

-- The canonical movements of a request add to every balance what its movements add as they stand:
-- grouping equal lines and ordering them loses and invents no quantity.
pub canonical_movements-net :
    (input : PostingInput) (ms : List Movement)
    → canonical_movements input ≡ ok ms
    → (ns : List Movement) × (normalize_each input.movements ≡ ok ns)
      × ((w l : ℕ) → net_at w l ms ≡ net_at w l ns)
unfolding canonical_movements net_at
canonical_movements-net input ms h =
    let (groups, groups_eq, h₁) = >>=-eq-ok (group_movements input.movements []) _ h in
    let (ns, ns_eq, nets) = group_movements-net input.movements [] groups groups_eq in
    (
      ns,
      ns_eq,
      λ w l.
          ap (net_at w l) (sym (ok-injective h₁))
          ∙ net_at-sort_movements w l groups
          ∙ nets w l
          ∙ zero_last (net_at w l ns),
    )
