-- ===== src/Stock/Ledger/Kept.antt =====
-- What planning keeps of the states: their rows, their distinctness, and that each covers its
-- reservations.
use ckitchen_backend.Prelude.{
  ℕ, ◌+◌, ◌≡◌, sym, ap, ◌∙◌, Bool, true, false, ◌||◌, some, List, [], ◌∷◌, find?, find?-holds,
  find?-All, some_eq, All, ok, ok-injective, >>=-eq-ok, throw_if-eq-ok, or_throw-eq-ok, Bool-cases,
  inl, inr, arith,
}
use ckitchen_backend.Prelude.Int.{ℤ, pos, ltb_ℤ, ◌≤ℤ◌}
use ckitchen_backend.Stock.Types.{Movement, Line, Balance}
use ckitchen_backend.Stock.Locks.{KeyState, key_of, key_eq, is_row}
use ckitchen_backend.Stock.Ledger.{state_key, move_balance, set_current, plan_lines}
use ckitchen_backend.Stock.Ledger.Writes.{Tracks, Covers, Differs, Apart}

abbrev has_key : Movement → KeyState → Bool
has_key m s = key_eq (state_key s) (key_of m)

-- What each accepted movement keeps holds after planning.
plan_lines_inv :
    (P : List KeyState → Type 0)
    → ((m : Movement) (state : KeyState) (ss : List KeyState)
        → P ss
        → find? (has_key m) ss ≡ some state
        → (ltb_ℤ (move_balance m state.current_on_hand) state.reserved
            || ltb_ℤ (move_balance m state.current_on_hand) (pos 0))
          ≡ false
        → P (set_current (key_of m) (move_balance m state.current_on_hand) ss))
    → (n : ℕ) (ms : List Movement) (ss : List KeyState) {lines : List Line} {ss' : List KeyState}
    → P ss
    → plan_lines n ms ss ≡ ok (lines, ss')
    → P ss'
unfolding plan_lines
plan_lines_inv P step n [] ss {ss' = ss'} p h =
    let e : ss ≡ ss' = ap (λ (q : List Line × List KeyState). q.1) (ok-injective h) in rw (← e) p
plan_lines_inv P step n (m ∷ ms) ss {ss' = ss'} p h =
    let (state, found, h₁) = or_throw-eq-ok (find? (has_key m) ss) _ _ h in
    let x = move_balance m state.current_on_hand in
    let (safe, h₂) = throw_if-eq-ok (ltb_ℤ x state.reserved || ltb_ℤ x (pos 0)) _ _ h₁ in
    let (planned, planned_eq, h₃) =
      >>=-eq-ok (plan_lines (n + 1) ms (set_current (key_of m) x ss)) _ h₂ in
    let e : planned.1 ≡ ss' = ap (λ (q : List Line × List KeyState). q.1) (ok-injective h₃) in
    rw (← e) (
      plan_lines_inv P step (n + 1) ms (set_current (key_of m) x ss) (step m state ss p found safe)
        planned_eq)

module _ (bs : List Balance) where
  set_current-Tracks :
      (m : Movement) (x : ℤ) (ss : List KeyState)
      → All (Tracks bs) ss
      → All (Tracks bs) (set_current (key_of m) x ss)
  unfolding set_current
  set_current-Tracks m x [] h = tt
  set_current-Tracks m x (s ∷ ss) h = elim (Bool-cases (has_key m s)) [
    | inl e ↦ rw e (
      record {
        row = h.0.row;
        row_eq = h.0.row_eq;
        version_eq = h.0.version_eq;
        on_hand_eq = h.0.on_hand_eq;
        reserved_eq = h.0.reserved_eq;
      },
      set_current-Tracks m x ss h.1,
    )
    | inr e ↦ rw e (h.0, set_current-Tracks m x ss h.1)
  ]

  -- Two states of one row have its reservations.
  same_reserved :
      (m : Movement) (s t : KeyState)
      → has_key m s ≡ true
      → has_key m t ≡ true
      → Tracks bs s
      → Tracks bs t
      → s.reserved ≡ t.reserved
  same_reserved m s t es et ts tt' =
      let ew : s.warehouse_id ≡ t.warehouse_id = ground arith in
      let el : s.lot_id ≡ t.lot_id = ground arith in
      let row : ts.row ≡ tt'.row =
        some_eq (sym ts.row_eq ∙ (λ i. find? (is_row (ew i) (el i)) bs) ∙ tt'.row_eq) in
      sym ts.reserved_eq ∙ ap (λ (b : Balance). b.reserved) row ∙ tt'.reserved_eq

  set_current-Covers :
      (m : Movement) (state : KeyState) (x : ℤ) (ss : List KeyState)
      → has_key m state ≡ true
      → Tracks bs state
      → state.reserved ≤ℤ x
      → All (Tracks bs) ss
      → All Covers ss
      → All Covers (set_current (key_of m) x ss)
  unfolding set_current
  set_current-Covers m state x [] k t le ts cs = tt
  set_current-Covers m state x (s ∷ ss) k t le ts cs = elim (Bool-cases (has_key m s)) [
    | inl e ↦
        rw (e, same_reserved m s state e k ts.0 t)
          (le, set_current-Covers m state x ss k t le ts.1 cs.1)
    | inr e ↦ rw e (cs.0, set_current-Covers m state x ss k t le ts.1 cs.1)
  ]

  abbrev Held : List KeyState → Type 0
  Held ss = All (Tracks bs) ss × All Covers ss

  -- After planning the states have the rows they had, and each covers its reservations.
  pub plan_lines-Held :
      (n : ℕ) (ms : List Movement) (ss : List KeyState) {lines : List Line} {ss' : List KeyState}
      → All (Tracks bs) ss
      → All Covers ss
      → plan_lines n ms ss ≡ ok (lines, ss')
      → All (Tracks bs) ss' × All Covers ss'
  plan_lines-Held n ms ss ts cs h =
      plan_lines_inv Held
        (λ m state ss p found safe.
          let x = move_balance m state.current_on_hand in
          (
            set_current-Tracks m x ss p.0,
            set_current-Covers m state x ss (find?-holds (has_key m) ss found)
                (find?-All (Tracks bs) (has_key m) ss p.0 found) (covered x state.reserved safe) p.0
                p.1,
          ))
        n ms ss (ts, cs) h
    where
      covered : (x r : ℤ) → (ltb_ℤ x r || ltb_ℤ x (pos 0)) ≡ false → r ≤ℤ x
      covered x r h = ground arith

set_current-Differs :
    (s : KeyState) (m : Movement) (x : ℤ) (ss : List KeyState)
    → All (Differs s) ss
    → All (Differs s) (set_current (key_of m) x ss)
unfolding set_current
set_current-Differs s m x [] h = tt
set_current-Differs s m x (t ∷ ss) h = elim (Bool-cases (has_key m t)) [
  | inl e ↦ rw e (h.0, set_current-Differs s m x ss h.1)
  | inr e ↦ rw e (h.0, set_current-Differs s m x ss h.1)
]

set_current-Apart :
    (m : Movement) (x : ℤ) (ss : List KeyState) → Apart ss → Apart (set_current (key_of m) x ss)
unfolding set_current
set_current-Apart m x [] h = tt
set_current-Apart m x (t ∷ ss) h =
    let rest = set_current-Differs t m x ss h.0 in
    elim (Bool-cases (has_key m t)) [
      | inl e ↦ rw e (rest, set_current-Apart m x ss h.1)
      | inr e ↦ rw e (rest, set_current-Apart m x ss h.1)
    ]

-- The states stay those of different warehouses or lots.
pub plan_lines-Apart :
    (n : ℕ) (ms : List Movement) (ss : List KeyState) {lines : List Line} {ss' : List KeyState}
    → Apart ss
    → plan_lines n ms ss ≡ ok (lines, ss')
    → Apart ss'
plan_lines-Apart n ms ss a h =
    plan_lines_inv Apart (λ m state ss p found safe. set_current-Apart m _ ss p) n ms ss a h
