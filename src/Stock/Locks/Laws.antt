-- ===== src/Stock/Locks/Laws.antt =====
-- What the locks give: one state for each warehouse and lot, with its row.
use ckitchen_backend.Prelude.{
  ℕ, ◌≡◌, refl, ap, true, not, Option, none, some, List, [], ◌∷◌, map, find?, find?-All, sorted_set,
  sorted_set-All, Ascending, sorted_set-Ascending, ltb, ◌==◌, All, All-map, Result, ok, for_each,
  ok-injective, >>-eq-ok, >>=-eq-ok, throw_if-eq-ok, or_throw-eq-ok, arith,
}
use ckitchen_backend.Stock.Types.{PostingError, Movement, Lot, Balance, Db, RouteClass}
use ckitchen_backend.Stock.Locks.{
  KeyState, Key, key_of, key_lt, keys_of, check_warehouse, check_item, check_conversions,
  check_quantity, check_lot_exists, check_lot, is_row, ensure_balances, state_of, lock_balances,
  check_movements, lock_movement_keys,
}
use ckitchen_backend.Stock.Route.{validate_route}
use ckitchen_backend.Stock.Locks.Rows.{IsSound, ensure_balances-IsSound}
use ckitchen_backend.Stock.Ledger.Plan.{Fits, FitsMove}
use ckitchen_backend.Stock.Ledger.Writes.{Tracks, Covers, Differs, Apart}

-- The item of a lot.
abbrev pub item_of : List Lot → ℕ → ℕ
item_of lots id = elim (find? (λ l. l.id == id) lots) [ none ↦ 0 | some l ↦ l.item_id ]

check_lot-FitsMove :
    (lots : List Lot) (today : ℕ) (m : Movement)
    → check_lot lots today m ≡ ok tt
    → FitsMove (item_of lots) m
unfolding check_lot
check_lot-FitsMove lots today m h =
    let (lot, found, h₁) = or_throw-eq-ok (find? (λ l. l.id == m.lot_id) lots) _ _ h in
    let (same, _) = throw_if-eq-ok (not (lot.item_id == m.item_id)) _ _ h₁ in
    rw (found, item_of) (ground arith)

for_each-All :
    {A : Type 0} (check : A → Result PostingError (Unit {0})) (xs : List A)
    → for_each check xs ≡ ok tt
    → All (λ x. check x ≡ ok tt) xs
for_each-All check [] h = tt
for_each-All check (x ∷ xs) h =
    let (first, rest) = >>-eq-ok (check x) _ h in (first, for_each-All check xs rest)

-- The movements that pass the checks carry the items of their lots.
pub check_movements-FitsMove :
    (db : Db) (class : RouteClass) (location : ℕ) (allowed : Option (List ℕ)) (today : ℕ)
    (ms : List Movement)
    → check_movements db class location allowed today ms ≡ ok tt
    → All (FitsMove (item_of db.lots)) ms
unfolding check_movements
check_movements-FitsMove db class location allowed today ms h =
    let warehouses = sorted_set ltb (map (λ m. m.warehouse_id) ms) in
    let (_, h₁) = >>-eq-ok (for_each (check_warehouse db.warehouses allowed) warehouses) _ h in
    let (_, h₂) = >>-eq-ok (validate_route db.warehouses class location ms) _ h₁ in
    let items = sorted_set ltb (map (λ m. m.item_id) ms) in
    let (_, h₃) = >>-eq-ok (for_each (check_item db.items) items) _ h₂ in
    let (_, h₄) = >>-eq-ok (check_conversions db ms) _ h₃ in
    let (_, h₅) = >>-eq-ok (for_each (check_quantity db) ms) _ h₄ in
    let lots = sorted_set ltb (map (λ m. m.lot_id) ms) in
    let (_, h₆) = >>-eq-ok (for_each (check_lot_exists db.lots) lots) _ h₅ in
    All-map _ (FitsMove (item_of db.lots)) (check_lot-FitsMove db.lots today) ms
      (for_each-All (check_lot db.lots today) ms h₆)

key_lt_trans : (a b c : Key) → key_lt a b ≡ true → key_lt b c ≡ true → key_lt a c ≡ true
key_lt_trans (w, i, l) (w', i', l') (w'', i'', l'') h k = ground arith

-- A key names the item of its lot.
abbrev KeyFits : List Lot → Key → Type 0
KeyFits lots k = k.1 ≡ item_of lots k.2

map_key-All :
    (lots : List Lot) (ms : List Movement)
    → All (FitsMove (item_of lots)) ms
    → All (KeyFits lots) (map key_of ms)
map_key-All lots [] h = tt
map_key-All lots (m ∷ ms) h = (h.0, map_key-All lots ms h.1)

-- What holds of each key and its row holds of each state.
lock_balances-All :
    (P : KeyState → Type 0) (Q : Key → Type 0) (bs : List Balance)
    → ((k : Key) (b : Balance) → Q k → find? (is_row k.0 k.2) bs ≡ some b → P (state_of k b))
    → (keys : List Key) (ss : List KeyState) → All Q keys
    → lock_balances bs keys ≡ ok ss
    → All P ss
unfolding lock_balances
lock_balances-All P Q bs each [] ss q h = rw (← ok-injective h) tt
lock_balances-All P Q bs each (k ∷ keys) ss q h =
    let (b, found, h₁) = or_throw-eq-ok (find? (is_row k.0 k.2) bs) _ _ h in
    let (rest, rest_eq, h₂) = >>=-eq-ok (lock_balances bs keys) _ h₁ in
    rw (← ok-injective h₂) (each k b q.0 found, lock_balances-All P Q bs each keys rest q.1 rest_eq)

lock_balances-Apart :
    (lots : List Lot) (bs : List Balance) (keys : List Key) (ss : List KeyState)
    → All (KeyFits lots) keys
    → Ascending key_lt keys
    → lock_balances bs keys ≡ ok ss
    → Apart ss
unfolding lock_balances
lock_balances-Apart lots bs [] ss q asc h = rw (← ok-injective h) tt
lock_balances-Apart lots bs (k ∷ keys) ss q asc h =
    let (b, found, h₁) = or_throw-eq-ok (find? (is_row k.0 k.2) bs) _ _ h in
    let (rest, rest_eq, h₂) = >>=-eq-ok (lock_balances bs keys) _ h₁ in
    rw (← ok-injective h₂) (
      lock_balances-All (Differs (state_of k b)) (λ j. KeyFits lots j × (key_lt k j ≡ true)) bs
          (λ j c f e. apart k j b c q.0 f.0 f.1) keys rest (both keys q.1 asc.0) rest_eq,
      lock_balances-Apart lots bs keys rest q.1 asc.1 rest_eq,
    )
  where
    apart :
        (k j : Key) (b c : Balance)
        → KeyFits lots k
        → KeyFits lots j
        → key_lt k j ≡ true
        → Differs (state_of k b) (state_of j c)
    apart k j b c fk fj lt = ground (arith, ap (item_of lots) {x = k.2} {y = j.2})

    both :
        (js : List Key)
        → All (KeyFits lots) js
        → All (λ j. key_lt k j ≡ true) js
        → All (λ j. KeyFits lots j × (key_lt k j ≡ true)) js
    both [] f l = tt
    both (j ∷ js) f l = ((f.0, l.0), both js f.1 l.1)

keys_of-All :
    (lots : List Lot) (ms : List Movement)
    → All (FitsMove (item_of lots)) ms
    → All (KeyFits lots) (keys_of ms)
unfolding keys_of
keys_of-All lots ms h = sorted_set-All key_lt (KeyFits lots) (map key_of ms) (map_key-All lots ms h)

keys_of-Ascending : (ms : List Movement) → Ascending key_lt (keys_of ms)
unfolding keys_of
keys_of-Ascending ms = sorted_set-Ascending key_lt key_lt_trans (map key_of ms)

-- What `lockMovementKeys` gives.
pub record Locked (db : Db) (ms : List Movement) (ss : List KeyState) (bs : List Balance)
    : Type 0 where
  pub balances_eq : bs ≡ ensure_balances ms (keys_of ms) db.balances
  pub moves_fit : All (FitsMove (item_of db.lots)) ms
  pub states_fit : All (Fits (item_of db.lots)) ss
  pub tracks : All (Tracks bs) ss
  pub covers : All Covers ss
  pub apart : Apart ss
  pub fresh : All (λ s. s.current_on_hand ≡ s.initial_on_hand) ss

state-Tracks :
    (bs : List Balance) (k : Key) (b : Balance)
    → find? (is_row k.0 k.2) bs ≡ some b
    → Tracks bs (state_of k b)
state-Tracks bs k b e = record {
  row = b;
  row_eq = e;
  version_eq = refl;
  on_hand_eq = refl;
  reserved_eq = refl;
}

pub lock_movement_keys-Locked :
    (db : Db) (class : RouteClass) (location : ℕ) (allowed : Option (List ℕ)) (today : ℕ)
    (ms : List Movement) {ss : List KeyState} {bs : List Balance}
    → All IsSound db.balances
    → lock_movement_keys db class location allowed today ms ≡ ok (ss, bs)
    → Locked db ms ss bs
unfolding lock_movement_keys
lock_movement_keys-Locked db class location allowed today ms {ss} {bs} sound h =
    let (checked, h₁) = >>-eq-ok (check_movements db class location allowed today ms) _ h in
    let ready = ensure_balances ms (keys_of ms) db.balances in
    let (states, states_eq, h₂) = >>=-eq-ok (lock_balances ready (keys_of ms)) _ h₁ in
    let e₁ : states ≡ ss = ap (λ (p : List KeyState × List Balance). p.0) (ok-injective h₂) in
    let e₂ : ready ≡ bs = ap (λ (p : List KeyState × List Balance). p.1) (ok-injective h₂) in
    let fit = check_movements-FitsMove db class location allowed today ms checked in
    let keys_fit : All (KeyFits db.lots) (keys_of ms) = keys_of-All db.lots ms fit in
    let sound_rows = ensure_balances-IsSound ms (keys_of ms) db.balances sound in
    rw (← e₁, ← e₂)
      (record {
        balances_eq = refl;
        moves_fit = fit;
        states_fit =
            lock_balances-All (Fits (item_of db.lots)) (KeyFits db.lots) ready (λ k b q e. q)
              (keys_of ms) states keys_fit states_eq;
        tracks =
            lock_balances-All (Tracks ready) (KeyFits db.lots) ready
              (λ k b q e. state-Tracks ready k b e) (keys_of ms) states keys_fit states_eq;
        covers =
            lock_balances-All Covers (KeyFits db.lots) ready
              (λ k b q e. (find?-All IsSound (is_row k.0 k.2) ready sound_rows e).1) (keys_of ms)
              states keys_fit states_eq;
        apart =
            lock_balances-Apart db.lots ready (keys_of ms) states keys_fit (keys_of-Ascending ms)
              states_eq;
        fresh =
            lock_balances-All (λ s. s.current_on_hand ≡ s.initial_on_hand) (KeyFits db.lots) ready
              (λ k b q e. refl) (keys_of ms) states keys_fit states_eq;
      })
