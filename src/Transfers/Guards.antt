-- ===== src/Transfers/Guards.antt =====
-- src/modules/transfers/service.ts, the shared helpers, and policies.ts: who may act, the feature
-- flag, the route of the header, and the rows that an operation locks or creates.
use ckitchen_backend.Prelude.{
  ℕ, Bool, true, false, ◌&&◌, not, Option, none, some, List, [], ◌∷◌, map, Text, codes, text_eq,
  any, find?, select, includes, ◌==◌, if◌then◌else◌, Result, ok, err, ◌>>=◌, ◌>>◌, throw_if,
  or_throw,
}
use ckitchen_backend.Auth.Roles.{
  Role, all_outlets, assigned, normalize_role, outlet_scope_for_role, role_includes,
}
use ckitchen_backend.Stock.Types.{
  Purpose, hq_main, outlet_storage, production, hq_transfer, DocumentPolicy, User, Warehouse,
  Document, Db,
}
use ckitchen_backend.Stock.Guards.{Actor, is_document}
use ckitchen_backend.Transfers.Types.{
  TransferError, transfer_error, feature_disabled, unauthorized, not_found, validation,
  route_not_allowed, TransferOrder, TransferOrderLine, TransferDb, Caller,
}

abbrev pub transfer_feature_key : Text
transfer_feature_key = codes "stock.transfers"

abbrev pub transfer_order_dispatch_module : Text
transfer_order_dispatch_module = codes "TRANSFER_ORDER_DISPATCH"

abbrev pub transfer_order_receipt_module : Text
transfer_order_receipt_module = codes "TRANSFER_ORDER_RECEIPT"

abbrev pub transfer_roles : List Role
transfer_roles = Role.owner ∷ Role.warehouse_main ∷ Role.outlet_manager ∷ Role.warehouse_outlet ∷ []

abbrev pub transfer_approve_roles : List Role
transfer_approve_roles = Role.owner ∷ Role.warehouse_main ∷ Role.outlet_manager ∷ []

abbrev pub transfer_order_dispatch_policy : DocumentPolicy
transfer_order_dispatch_policy = record {
  feature_flag = some transfer_feature_key;
  route_class = hq_transfer;
  allowed_roles = transfer_roles;
  from_statuses = codes "APPROVED" ∷ [];
  next_status = codes "DISPATCHED";
}

abbrev pub transfer_order_receipt_policy : DocumentPolicy
transfer_order_receipt_policy = record {
  feature_flag = some transfer_feature_key;
  route_class = hq_transfer;
  allowed_roles = transfer_roles;
  from_statuses = codes "DISPATCHED" ∷ [];
  next_status = codes "RECEIVED";
}

-- The user's role, if the user is active and the role is one of those that are allowed.
unfoldable pub permitted_role : List Role → User → Option Role
permitted_role roles user = elim (normalize_role (some user.role)) [
  | none ↦ none
  | some r ↦ if user.active && role_includes roles r then some r else none
]

unfoldable pub authorize_transfer_actor : Db → Caller → List Role → Result TransferError Actor
unfolding permitted_role
authorize_transfer_actor db caller roles = do
  user ←
      or_throw (find? (λ u. u.id == caller.actor_user_id) db.users)
        (transfer_error unauthorized 403)
  role ← or_throw (permitted_role roles user) (transfer_error unauthorized 403)
  throw_if
      (not (caller.session_id == 0)
        && not (
            any (λ s. s.id == caller.session_id && s.user_id == user.id && not s.logged_out)
              db.sessions))
      (transfer_error unauthorized 401)
  let locations = map (λ a. a.location_id) (select (λ a. a.user_id == user.id) db.access)
  ok (record {
    id = user.id;
    role = role;
    allowed_location_ids = elim (outlet_scope_for_role (some role)) [
      | all_outlets ↦ none
      | assigned ↦ some locations
    ];
  })

-- `allowedLocationIds !== null && !allowedLocationIds.includes(locationId)`
abbrev pub is_out_of_scope : Option (List ℕ) → ℕ → Bool
is_out_of_scope none location = false
is_out_of_scope (some allowed) location = not (includes allowed location)

unfoldable pub assert_location_in_scope : Option (List ℕ) → ℕ → Result TransferError (Unit {0})
assert_location_in_scope allowed location =
    throw_if (is_out_of_scope allowed location) (transfer_error unauthorized 403)

unfoldable pub assert_feature_enabled : Db → Result TransferError (Unit {0})
assert_feature_enabled db = elim (find? (λ f. text_eq f.key transfer_feature_key) db.flags) [
  | none ↦ err (transfer_error feature_disabled 503)
  | some flag ↦ throw_if (not flag.enabled) (transfer_error feature_disabled 503)
]

-- `TRANSFER_ALLOWED_ROUTE_PAIRS.has(pairKey)`
abbrev pub transfer_allowed_route_pairs : Option Purpose → Option Purpose → Bool
transfer_allowed_route_pairs (some hq_main) (some outlet_storage) = true
transfer_allowed_route_pairs (some hq_main) (some production) = true
transfer_allowed_route_pairs (some production) (some hq_main) = true
transfer_allowed_route_pairs (some production) (some outlet_storage) = true
transfer_allowed_route_pairs source destination = false

unfoldable pub active_warehouse : List Warehouse → ℕ → Result TransferError Warehouse
active_warehouse warehouses id = do
  w ← or_throw (find? (λ w. w.id == id) warehouses) (transfer_error validation 400)
  throw_if (not w.is_active) (transfer_error validation 400)
  ok w

unfoldable pub resolve_header_route : Db → ℕ → ℕ → Result TransferError (Warehouse × Warehouse)
unfolding active_warehouse
resolve_header_route db source_id destination_id = do
  throw_if (source_id == destination_id) (transfer_error validation 400)
  source ← active_warehouse db.warehouses source_id
  destination ← active_warehouse db.warehouses destination_id
  throw_if (not (transfer_allowed_route_pairs source.purpose destination.purpose))
      (transfer_error route_not_allowed 409)
  ok (source, destination)

abbrev pub new_document : Text → Text → ℕ → Text → Document
new_document name number location status = record {
  module_name = name;
  document_no = number;
  location_id = location;
  status = status;
  version = 1;
  stock_posting_id = none;
}

-- `insert … onConflictDoNothing()` on the unique index of module and number. The row is there then,
-- so the last error of the function cannot arise in a transaction that runs alone.
unfoldable pub ensure_operational_document : Text → Text → ℕ → Text → List Document → List Document
ensure_operational_document name number location status documents =
    if any (is_document name number) documents
    then documents
    else new_document name number location status ∷ documents

unfoldable pub lock_order : TransferDb → ℕ → Result TransferError TransferOrder
lock_order db id = or_throw (find? (λ o. o.id == id) db.orders) (transfer_error not_found 404)

unfoldable pub fetch_lines : List TransferOrderLine → ℕ → List TransferOrderLine
fetch_lines lines id = select (λ l. l.order_id == id) lines
