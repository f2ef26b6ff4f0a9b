-- ===== src/Transfers/Lifecycle/Created.antt =====
-- What a creation in src/modules/transfers/service.ts that returns has found and written.
use ckitchen_backend.Prelude.{
  ℕ, ◌≡◌, sym, ap, true, false, not, List, ◌∷◌, find?, ◌==◌, ==_iff, find?-holds, subst, ok,
  ok-injective, >>=-eq-ok, >>-eq-ok, throw_if-eq-ok, or_throw-eq-ok,
}
use ckitchen_backend.Stock.Guards.{Actor}
use ckitchen_backend.Stock.Types.{Warehouse, Db}
use ckitchen_backend.Transfers.Types.{TransferDb, CreateInput, OrderWithLines}
use ckitchen_backend.Transfers.Guards.{
  authorize_transfer_actor, assert_location_in_scope, resolve_header_route, active_warehouse,
  transfer_allowed_route_pairs,
}
use ckitchen_backend.Transfers.Lines.{resolve_and_validate_lines}
use ckitchen_backend.Transfers.Lifecycle.{Fresh, inserted_order, create_transfer_order_draft}

-- A created order has a route of the table between two active warehouses.
pub record Created (fresh : Fresh) (db db' : TransferDb) (input : CreateInput) : Type 0 where
  pub actor : Actor
  pub source : Warehouse
  pub destination : Warehouse
  pub route_eq :
      resolve_header_route db.stock input.source_warehouse_id input.destination_warehouse_id
      ≡ ok (source, destination)
  pub orders_eq :
      db'.orders
      ≡ inserted_order fresh input actor source.id destination.id source.location_id
          destination.location_id
        ∷ db.orders

pub create_transfer_order_draft-Created :
    (fresh : Fresh) {db db' : TransferDb} {answer : OrderWithLines} (input : CreateInput)
    → create_transfer_order_draft fresh db input ≡ ok (answer, db')
    → Created fresh db db' input
unfolding create_transfer_order_draft
create_transfer_order_draft-Created fresh {db} {db'} input h =
    let (actor, _, h₁) = >>=-eq-ok (authorize_transfer_actor _ _ _) _ h in
    let ((source, destination), route_eq, h₂) =
      >>=-eq-ok
        (resolve_header_route db.stock input.source_warehouse_id input.destination_warehouse_id) _
        h₁ in
    let (_, h₃) = >>-eq-ok (assert_location_in_scope _ _) _ h₂ in
    let (_, _, h₄) = >>=-eq-ok (resolve_and_validate_lines _ _) _ h₃ in
    record {
      actor = actor;
      source = source;
      destination = destination;
      route_eq = route_eq;
      orders_eq = sym (ap (λ (p : OrderWithLines × TransferDb). (p.1).orders) (ok-injective h₄));
    }

active_warehouse-id :
    (warehouses : List Warehouse) (id : ℕ) {w : Warehouse}
    → active_warehouse warehouses id ≡ ok w
    → (w.id == id) ≡ true
unfolding active_warehouse
active_warehouse-id warehouses id h =
    let (w, found, h₁) = or_throw-eq-ok (find? (λ w. w.id == id) warehouses) _ _ h in
    let (_, h₂) = throw_if-eq-ok (not w.is_active) _ _ h₁ in
    subst (λ (v : Warehouse). (v.id == id) ≡ true) (ok-injective h₂)
      (find?-holds (λ w. w.id == id) warehouses found)

-- The route that is found is between two different warehouses.
pub resolve_header_route-differ :
    (db : Db) (source_id destination_id : ℕ) {source destination : Warehouse}
    → resolve_header_route db source_id destination_id ≡ ok (source, destination)
    → (source.id == destination.id) ≡ false
unfolding resolve_header_route
resolve_header_route-differ db a b {source} {destination} h =
    let (other, h₁) = throw_if-eq-ok (a == b) _ _ h in
    let (s, s_eq, h₂) = >>=-eq-ok (active_warehouse db.warehouses a) _ h₁ in
    let (d, d_eq, h₃) = >>=-eq-ok (active_warehouse db.warehouses b) _ h₂ in
    let (_, h₄) = throw_if-eq-ok (not (transfer_allowed_route_pairs s.purpose d.purpose)) _ _ h₃ in
    ids (ok-injective h₄) (active_warehouse-id db.warehouses a s_eq)
      (active_warehouse-id db.warehouses b d_eq) other
  where
    ids :
        {s d : Warehouse}
        → ◌≡◌ {A = Warehouse × Warehouse} (s, d) (source, destination)
        → (s.id == a) ≡ true
        → (d.id == b) ≡ true
        → (a == b) ≡ false
        → (source.id == destination.id) ≡ false
    ids same e f other =
        let s_eq = ap (λ (p : Warehouse × Warehouse). p.0) same in
        let d_eq = ap (λ (p : Warehouse × Warehouse). p.1) same in
        rw (← s_eq, ← d_eq, (==_iff _ _).0 e, (==_iff _ _).0 f) other
