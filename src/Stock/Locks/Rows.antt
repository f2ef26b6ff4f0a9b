-- ===== src/Stock/Locks/Rows.antt =====
-- The balances that a warehouse has of a lot, and what creating missing rows does to them.
use ckitchen_backend.Prelude.{
  ℕ, ◌≡◌, refl, sym, ◌∙◌, Bool, ◌&&◌, Option, none, some, List, [], ◌∷◌, any, find?,
  find?-of_not_any, All, Bool-cases, inl, inr, arith,
}
use ckitchen_backend.Prelude.Int.{ℤ, pos, ◌≤ℤ◌}
use ckitchen_backend.Stock.Types.{Movement, Balance, is_in}
use ckitchen_backend.Stock.Locks.{
  Key, key_of, key_eq, is_row, empty_balance, ensure_balance, ensure_balances,
}

-- What a warehouse holds of a lot, and what is reserved of it; 0 where there is no row.
abbrev pub on_hand_of : Option Balance → ℤ
on_hand_of none = pos 0
on_hand_of (some b) = b.on_hand

abbrev pub on_hand_at : ℕ → ℕ → List Balance → ℤ
on_hand_at w l bs = on_hand_of (find? (is_row w l) bs)

abbrev pub reserved_of : Option Balance → ℤ
reserved_of none = pos 0
reserved_of (some b) = b.reserved

abbrev pub reserved_at : ℕ → ℕ → List Balance → ℤ
reserved_at w l bs = reserved_of (find? (is_row w l) bs)

-- The check constraints of the balance table.
abbrev pub IsSound : Balance → Type 0
IsSound b = (pos 0 ≤ℤ b.reserved) × (b.reserved ≤ℤ b.on_hand)

ensure_balance-same :
    (f : Option Balance → ℤ) (w l v k : ℕ) (bs : List Balance)
    → f none ≡ pos 0
    → f (some (empty_balance v k)) ≡ pos 0
    → f (find? (is_row w l) (ensure_balance v k bs)) ≡ f (find? (is_row w l) bs)
unfolding ensure_balance
ensure_balance-same f w l v k bs zero empty = elim (Bool-cases (any (is_row v k) bs)) [
  | inl there ↦ rw there
  | inr missing ↦ elim (Bool-cases (is_row w l (empty_balance v k))) [
    | inl here ↦
        let ev : v ≡ w = ground arith in
        let ek : k ≡ l = ground arith in
        let gone : find? (is_row w l) bs ≡ none =
          (λ i. find? (is_row (sym ev i) (sym ek i)) bs)
          ∙ find?-of_not_any (is_row v k) bs missing in
        rw (missing, here, gone, zero, empty)
    | inr away ↦ rw (missing, away)
  ]
]

ensure_balance-IsSound :
    (v k : ℕ) (bs : List Balance) → All IsSound bs → All IsSound (ensure_balance v k bs)
unfolding ensure_balance
ensure_balance-IsSound v k bs h = elim (Bool-cases (any (is_row v k) bs)) [
  | inl there ↦ rw there h
  | inr missing ↦ rw missing ((omega arith, omega arith), h)
]

abbrev wanted : List Movement → Key → Bool
wanted ms k = any (λ m. key_eq (key_of m) k && is_in m.movement_type) ms

-- Creating the missing rows changes no amount on hand and no reservation.
pub ensure_balances-same :
    (f : Option Balance → ℤ) (w l : ℕ) (ms : List Movement) (keys : List Key) (bs : List Balance)
    → f none ≡ pos 0
    → ((v k : ℕ) → f (some (empty_balance v k)) ≡ pos 0)
    → f (find? (is_row w l) (ensure_balances ms keys bs)) ≡ f (find? (is_row w l) bs)
unfolding ensure_balances
ensure_balances-same f w l ms [] bs zero empty = refl
ensure_balances-same f w l ms (k ∷ keys) bs zero empty = elim (Bool-cases (wanted ms k)) [
  | inl yes_in ↦ rw yes_in (
      ensure_balances-same f w l ms keys (ensure_balance k.0 k.2 bs) zero empty
      ∙ ensure_balance-same f w l k.0 k.2 bs zero (empty k.0 k.2))
  | inr not_in ↦ rw not_in (ensure_balances-same f w l ms keys bs zero empty)
]

pub ensure_balances-IsSound :
    (ms : List Movement) (keys : List Key) (bs : List Balance)
    → All IsSound bs
    → All IsSound (ensure_balances ms keys bs)
unfolding ensure_balances
ensure_balances-IsSound ms [] bs h = h
ensure_balances-IsSound ms (k ∷ keys) bs h = elim (Bool-cases (wanted ms k)) [
  | inl yes_in ↦ rw yes_in (
      ensure_balances-IsSound ms keys (ensure_balance k.0 k.2 bs)
        (ensure_balance-IsSound k.0 k.2 bs h))
  | inr not_in ↦ rw not_in (ensure_balances-IsSound ms keys bs h)
]
