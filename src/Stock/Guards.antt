-- ===== src/Stock/Guards.antt =====
-- src/modules/stock/posting-service.ts: what a posting checks before it claims its key: the input,
-- the actor, the feature flags, the topology and the document.
use ckitchen_backend.Prelude.{
  ℕ, Bool, ◌&&◌, ◌||◌, not, Option, none, some, List, [], ◌∷◌, map, Text, text_eq, text_lt, trim,
  is_empty, codes, any, find?, select, sorted_set, includes, length, ltb, leb, ◌==◌, if◌then◌else◌,
  Result, ok, err, ◌>>=◌, ◌>>◌, throw_if, or_throw, for_each,
}
use ckitchen_backend.Prelude.Int.{pos, leb_ℤ}
use ckitchen_backend.Auth.Roles.{
  Role, all_outlets, assigned, normalize_role, outlet_scope_for_role, role_includes,
}
use ckitchen_backend.Stock.Decimal.{parse_fixed}
use ckitchen_backend.Stock.Types.{
  hq_main, purpose_in, feature_disabled, unauthorized, document_not_found, invalid_movement,
  PostingError, posting_error, MovementInput, PostingInput, DocumentPolicy, User, Session, Flag,
  Document, Db,
}
use ckitchen_backend.Stock.Canonical.{lift_decimal}

abbrev pub invalid : PostingError
invalid = posting_error invalid_movement 400

unfoldable pub check_movement_input : MovementInput → Result PostingError (Unit {0})
check_movement_input m = do
  throw_if (m.warehouse_id == 0 || m.item_id == 0 || m.lot_id == 0 || is_empty (trim m.entered_uom))
      invalid
  q ← lift_decimal (parse_fixed m.quantity 6)
  throw_if (leb_ℤ q (pos 0)) invalid

abbrev is_bounded : Text → Bool
is_bounded t = not (is_empty (trim t)) && leb (length t) 200

unfoldable pub validate_input : PostingInput → Result PostingError (Unit {0})
unfolding check_movement_input
validate_input input = do
  throw_if (input.actor_user_id == 0) (posting_error unauthorized 401)
  throw_if (not (is_bounded input.idempotency_key)) invalid
  throw_if (not (is_bounded input.correlation_id)) invalid
  throw_if (is_empty (trim input.source_module) || is_empty (trim input.source_document_no)) invalid
  throw_if (length input.movements == 0 || ltb 500 (length input.movements)) invalid
  for_each check_movement_input input.movements

pub record Actor : Type 0 where
  pub id : ℕ
  pub role : Role
  pub allowed_location_ids : Option (List ℕ)

-- The user's role, if the user is active and the policy allows the role.
unfoldable pub allowed_role : DocumentPolicy → User → Option Role
allowed_role policy user = elim (normalize_role (some user.role)) [
  | none ↦ none
  | some r ↦ if user.active && role_includes policy.allowed_roles r then some r else none
]

abbrev is_live : PostingInput → Session → Bool
is_live input s = s.id == input.session_id && s.user_id == input.actor_user_id && not s.logged_out

unfoldable pub authorize_actor : Db → PostingInput → DocumentPolicy → Result PostingError Actor
unfolding allowed_role
authorize_actor db input policy = do
  user ←
      or_throw (find? (λ u. u.id == input.actor_user_id) db.users) (posting_error unauthorized 403)
  role ← or_throw (allowed_role policy user) (posting_error unauthorized 403)
  throw_if (not (input.session_id == 0) && not (any (is_live input) db.sessions))
      (posting_error unauthorized 401)
  let locations = map (λ a. a.location_id) (select (λ a. a.user_id == user.id) db.access)
  elim (outlet_scope_for_role (some role)) [
    | all_outlets ↦ ok (record { id = user.id; role = role; allowed_location_ids = none })
    | assigned ↦
        if includes locations input.location_id
        then ok (record { id = user.id; role = role; allowed_location_ids = some locations })
        else err (posting_error unauthorized 403)
  ]

unfoldable pub assert_feature_flags : List Flag → List Text → Result PostingError (Unit {0})
assert_feature_flags flags keys =
    for_each
      (λ key. do
        flag ← or_throw (find? (λ f. text_eq f.key key) flags) (posting_error feature_disabled 503)
        throw_if (not flag.enabled) (posting_error feature_disabled 503))
      (sorted_set text_lt keys)

-- `["stock.lot_writes", policy.featureFlag].filter((value) => !!value)`
abbrev pub flags_of : DocumentPolicy → List Text
flags_of policy = elim policy.feature_flag [
  | none ↦ codes "stock.lot_writes" ∷ []
  | some key ↦
      if is_empty key then codes "stock.lot_writes" ∷ [] else codes "stock.lot_writes" ∷ key ∷ []
]

unfoldable pub assert_topology_ready : Db → Result PostingError (Unit {0})
assert_topology_ready db =
    throw_if
      (not (
          length (select (λ w. purpose_in (hq_main ∷ []) w.purpose && w.is_active) db.warehouses)
          == 1)
        || ltb 0 db.open_exceptions)
      (posting_error feature_disabled 503)

abbrev pub is_document : Text → Text → Document → Bool
is_document name number d = text_eq d.module_name name && text_eq d.document_no number

unfoldable pub lock_operational_document : Db → PostingInput → Result PostingError Document
lock_operational_document db input = do
  d ←
      or_throw (find? (is_document input.source_module input.source_document_no) db.documents)
        (posting_error document_not_found 404)
  throw_if (not (d.location_id == input.location_id)) (posting_error unauthorized 403)
  ok d
