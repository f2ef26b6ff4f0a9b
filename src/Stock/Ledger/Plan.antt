-- ===== src/Stock/Ledger/Plan.antt =====
-- What planning the lines does to the state of each stock key.
use ckitchen_backend.Prelude.{
  ℕ, ◌+◌, ◌≡◌, refl, sym, ap, ◌∙◌, Bool, true, false, ◌&&◌, ◌||◌, Option, none, some, List, [], ◌∷◌,
  find?, find?-update_where, find?-holds, find?-All, some_eq, updated, map_option, if◌then◌else◌,
  ◌==◌, ==_iff, All, ok, ok-injective, >>=-eq-ok, throw_if-eq-ok, or_throw-eq-ok, Bool-cases,
  Option-cases, inl, inr, arith,
}
use ckitchen_backend.Prelude.Int.{ℤ, pos, ◌+ℤ◌, ◌-ℤ◌, ltb_ℤ, int_laws, +ℤ_assoc}
use ckitchen_backend.Stock.Types.{Movement, Line}
use ckitchen_backend.Stock.Route.{signed}
use ckitchen_backend.Stock.Locks.{KeyState, key_of, key_eq}
use ckitchen_backend.Stock.Ledger.{state_key, move_balance, set_current, plan_lines}

-- The state of a warehouse and a lot.
abbrev pub is_at : ℕ → ℕ → KeyState → Bool
is_at w l s = s.warehouse_id == w && s.lot_id == l

abbrev pub moves_at : ℕ → ℕ → Movement → Bool
moves_at w l m = m.warehouse_id == w && m.lot_id == l

-- What the movements add to a warehouse's balance of a lot.
unfoldable pub net_at : ℕ → ℕ → List Movement → ℤ
net_at w l [] = pos 0
net_at w l (m ∷ ms) = (if moves_at w l m then signed m else pos 0) +ℤ net_at w l ms

abbrev pub moved : ℤ → KeyState → KeyState
moved x s = record s { current_on_hand = s.current_on_hand +ℤ x }

+ℤ_zero : (a : ℤ) → a +ℤ pos 0 ≡ a
+ℤ_zero a = omega int_laws

move_balance-signed : (m : Movement) (b : ℤ) → move_balance m b ≡ b +ℤ signed m
unfolding ◌+ℤ◌ ◌-ℤ◌
move_balance-signed m b = ground arith

-- A lot has one item, which its states and its movements carry.
module _ (item_of : ℕ → ℕ) where
  abbrev pub Fits : KeyState → Type 0
  Fits s = s.item_id ≡ item_of s.lot_id

  abbrev pub FitsMove : Movement → Type 0
  FitsMove m = m.item_id ≡ item_of m.lot_id

  key_at :
      (m : Movement) (s : KeyState)
      → FitsMove m
      → Fits s
      → key_eq (state_key s) (key_of m) ≡ is_at m.warehouse_id m.lot_id s
  key_at m s fm fs = ground (arith, ap item_of {x = s.lot_id} {y = m.lot_id})

  find_key :
      (m : Movement) (ss : List KeyState)
      → FitsMove m
      → All Fits ss
      → find? (λ s. key_eq (state_key s) (key_of m)) ss ≡ find? (is_at m.warehouse_id m.lot_id) ss
  find_key m [] fm fs = refl
  find_key m (s ∷ ss) fm fs = rw (key_at m s fm fs.0, find_key m ss fm fs.1)

  -- The update of one movement, seen at a warehouse and a lot.
  moved_once :
      (w l : ℕ) (m : Movement) (s : KeyState) (x : ℤ)
      → FitsMove m
      → Fits s
      → is_at w l s ≡ true
      → (moves_at w l m ≡ true → x ≡ s.current_on_hand +ℤ signed m)
      → updated (λ t. key_eq (state_key t) (key_of m)) (λ t. record t { current_on_hand = x }) s
        ≡ moved (if moves_at w l m then signed m else pos 0) s
  moved_once w l m s x fm fs here e = elim (Bool-cases (moves_at w l m)) [
    | inl yes_at ↦
        let k : key_eq (state_key s) (key_of m) ≡ true =
          key_at m s fm fs ∙ ground (arith, ==_iff s.warehouse_id w) in
        rw (k, yes_at, e yes_at)
    | inr not_at ↦
        let k : key_eq (state_key s) (key_of m) ≡ false =
          key_at m s fm fs ∙ ground (arith, ==_iff s.warehouse_id w) in
        rw (k, not_at, +ℤ_zero s.current_on_hand)
  ]

  moved_twice :
      (x y : ℤ) (o : Option KeyState)
      → map_option (moved y) (map_option (moved x) o) ≡ map_option (moved (x +ℤ y)) o
  moved_twice x y none = refl
  moved_twice x y (some s) = rw (+ℤ_assoc s.current_on_hand x y)

  set_current-keeps :
      (m : Movement) (x : ℤ) (ss : List KeyState)
      → All Fits ss
      → All Fits (set_current (key_of m) x ss)
  unfolding set_current
  set_current-keeps m x [] h = tt
  set_current-keeps m x (s ∷ ss) h = elim (Bool-cases (key_eq (state_key s) (key_of m))) [
    | inl e ↦ rw e (h.0, set_current-keeps m x ss h.1)
    | inr e ↦ rw e (h.0, set_current-keeps m x ss h.1)
  ]

  same_state :
      (w l : ℕ) (m : Movement) {state s : KeyState} (ss : List KeyState)
      → FitsMove m
      → All Fits ss
      → moves_at w l m ≡ true
      → find? (λ s. key_eq (state_key s) (key_of m)) ss ≡ some state
      → find? (is_at w l) ss ≡ some s
      → state ≡ s
  same_state w l m ss fm fs t found e =
      let ew : m.warehouse_id ≡ w = ground arith in
      let el : m.lot_id ≡ l = ground arith in
      some_eq (sym found ∙ find_key m ss fm fs ∙ (λ i. find? (is_at (ew i) (el i)) ss) ∙ e)

  -- One movement moves the state of its own warehouse and lot.
  set_current-find :
      (w l : ℕ) (m : Movement) (state : KeyState) (ss : List KeyState)
      → FitsMove m
      → All Fits ss
      → find? (λ s. key_eq (state_key s) (key_of m)) ss ≡ some state
      → find? (is_at w l) (set_current (key_of m) (move_balance m state.current_on_hand) ss)
        ≡ map_option (moved (if moves_at w l m then signed m else pos 0)) (find? (is_at w l) ss)
  unfolding set_current
  set_current-find w l m state ss fm fs found =
      let x = move_balance m state.current_on_hand in
      find?-update_where (λ s. key_eq (state_key s) (key_of m)) (is_at w l)
        (λ s. record s { current_on_hand = x }) (λ s. refl) ss
      ∙ elim (Option-cases (find? (is_at w l) ss)) [
        | inl missing ↦ rw missing
        | inr (s, e) ↦
            let here = find?-holds (is_at w l) ss e in
            let same : moves_at w l m ≡ true → x ≡ s.current_on_hand +ℤ signed m = λ t.
              move_balance-signed m state.current_on_hand
              ∙ ap (λ (z : KeyState). z.current_on_hand +ℤ signed m)
                  (same_state w l m ss fm fs t found e) in
            rw e (ap some (moved_once w l m s x fm (find?-All Fits (is_at w l) ss fs e) here same))
      ]

  -- After planning, the state of each warehouse and lot has moved by the net of its movements.
  pub plan_lines-find :
      (w l n : ℕ) (ms : List Movement) (ss : List KeyState) {lines : List Line}
      {ss' : List KeyState}
      → All FitsMove ms
      → All Fits ss
      → plan_lines n ms ss ≡ ok (lines, ss')
      → find? (is_at w l) ss' ≡ map_option (moved (net_at w l ms)) (find? (is_at w l) ss)
  unfolding plan_lines net_at
  plan_lines-find w l n [] ss {ss' = ss'} fm fs h =
      let e : ss ≡ ss' = ap (λ (p : List Line × List KeyState). p.1) (ok-injective h) in
      rw (← e) (unmoved (find? (is_at w l) ss))
    where
      unmoved : (o : Option KeyState) → o ≡ map_option (moved (pos 0)) o
      unmoved none = refl
      unmoved (some s) = rw (+ℤ_zero s.current_on_hand)
  plan_lines-find w l n (m ∷ ms) ss {ss' = ss'} fm fs h =
      let (state, found, h₁) =
        or_throw-eq-ok (find? (λ s. key_eq (state_key s) (key_of m)) ss) _ _ h in
      let x = move_balance m state.current_on_hand in
      let (_, h₂) = throw_if-eq-ok (ltb_ℤ x state.reserved || ltb_ℤ x (pos 0)) _ _ h₁ in
      let (planned, planned_eq, h₃) =
        >>=-eq-ok (plan_lines (n + 1) ms (set_current (key_of m) x ss)) _ h₂ in
      let e : planned.1 ≡ ss' = ap (λ (p : List Line × List KeyState). p.1) (ok-injective h₃) in
      rw (← e) (
        plan_lines-find w l (n + 1) ms (set_current (key_of m) x ss) fm.1
          (set_current-keeps m x ss fs) planned_eq
        ∙ ap (map_option (moved (net_at w l ms))) (set_current-find w l m state ss fm.0 fs found)
        ∙ moved_twice _ (net_at w l ms) (find? (is_at w l) ss))

  -- A movement that was planned has a state at its warehouse and lot.
  state_exists :
      (w l : ℕ) (m : Movement) (ss : List KeyState) {state : KeyState}
      → FitsMove m
      → All Fits ss
      → find? (λ s. key_eq (state_key s) (key_of m)) ss ≡ some state
      → find? (is_at w l) ss ≡ none
      → moves_at w l m ≡ false
  state_exists w l m ss {state} fm fs found missing = elim (Bool-cases (moves_at w l m)) [
    | inl t ↦
        let ew : m.warehouse_id ≡ w = ground arith in
        let el : m.lot_id ≡ l = ground arith in
        let bad : some state ≡ none =
          sym found ∙ find_key m ss fm fs ∙ (λ i. find? (is_at (ew i) (el i)) ss) ∙ missing in
        cc
    | inr f ↦ f
  ]

  -- Where there is no state, no planned movement goes.
  pub net_at-of_none :
      (w l n : ℕ) (ms : List Movement) (ss : List KeyState) {lines : List Line}
      {ss' : List KeyState}
      → All FitsMove ms
      → All Fits ss
      → plan_lines n ms ss ≡ ok (lines, ss')
      → find? (is_at w l) ss ≡ none
      → net_at w l ms ≡ pos 0
  unfolding plan_lines net_at
  net_at-of_none w l n [] ss fm fs h missing = refl
  net_at-of_none w l n (m ∷ ms) ss fm fs h missing =
      let (state, found, h₁) =
        or_throw-eq-ok (find? (λ s. key_eq (state_key s) (key_of m)) ss) _ _ h in
      let x = move_balance m state.current_on_hand in
      let (_, h₂) = throw_if-eq-ok (ltb_ℤ x state.reserved || ltb_ℤ x (pos 0)) _ _ h₁ in
      let (planned, planned_eq, _) =
        >>=-eq-ok (plan_lines (n + 1) ms (set_current (key_of m) x ss)) _ h₂ in
      let still =
        set_current-find w l m state ss fm.0 fs found ∙ ap (map_option (moved _)) missing in
      let zero =
        net_at-of_none w l (n + 1) ms (set_current (key_of m) x ss) fm.1
          (set_current-keeps m x ss fs) planned_eq still in
      rw (state_exists w l m ss fm.0 fs found missing, zero) (omega int_laws)
