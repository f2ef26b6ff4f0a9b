-- ===== src/Outbound/Payloads.antt =====
-- src/modules/outbound/service.ts: the checks of the payload of a rejection and of an item's
-- availability. What `UUID_RE` matches and what `Date.parse` reads are parameters.
use ckitchen_backend.Prelude.{
  Bool, true, false, ◌&&◌, not, Option, none, some, List, [], Text, codes, text_eq, trim, is_empty,
  find?, any, ◌==◌, ◌∷◌, map_option, Result, ◌>>◌, throw_if,
}
use ckitchen_backend.Outbound.Types.{
  Value, string, null, Field, Payload, object, Listing, OptionGroup, OutboundDb, OutboundError,
  outbound_error, validation, not_found,
}

-- The language's own readers of texts.
pub record Readers : Type 0 where
  pub is_uuid : Text → Bool
  pub is_date : Text → Bool

-- `asPayloadObject`
abbrev pub payload_fields : Payload → List Field
payload_fields (object fields) = fields
payload_fields _ = []

abbrev pub field : Payload → Text → Option Value
field p name = map_option (λ f. f.value) (find? (λ f. text_eq f.name name) (payload_fields p))

abbrev pub reject_reason_codes : List Text
reject_reason_codes =
    codes "OUT_OF_STOCK"
    ∷ codes "KITCHEN_CLOSED"
    ∷ codes "TOO_BUSY"
    ∷ codes "CUSTOMER_REQUEST"
    ∷ codes "INCORRECT_ORDER"
    ∷ codes "OTHER"
    ∷ []

-- Whether a field is a string that passes a test.
abbrev pub is_string : (Text → Bool) → Option Value → Bool
is_string test (some (string s)) = test s
is_string test _ = false

abbrev pub is_among : List Text → Text → Bool
is_among texts s = any (λ t. text_eq t s) texts

abbrev pub invalid : OutboundError
invalid = outbound_error validation 400

unfoldable pub assert_valid_reject_reason_payload : Payload → Result OutboundError (Unit {0})
assert_valid_reject_reason_payload p = do
  throw_if (not (is_string (is_among reject_reason_codes) (field p (codes "reason_code")))) invalid
  throw_if
      (is_string (text_eq (codes "OTHER")) (field p (codes "reason_code"))
        && not (is_string (λ note. not (is_empty (trim note))) (field p (codes "note"))))
      invalid

abbrev pub availability_scopes : List Text
availability_scopes = codes "ITEM" ∷ codes "OPTION_GROUP" ∷ []

abbrev pub or_item : Option Value → Option Value
or_item none = some (string (codes "ITEM"))
or_item (some v) = some v

abbrev pub is_undefined : Option Value → Bool
is_undefined none = true
is_undefined (some v) = false

abbrev pub is_brand_group : Listing → Option OptionGroup → Bool
is_brand_group listing none = false
is_brand_group listing (some g) = g.brand_id == listing.brand_id

abbrev pub group_named : OutboundDb → Option Value → Option OptionGroup
group_named db (some (string id)) = find? (λ g. text_eq g.id id) db.groups
group_named db _ = none

-- The option group of a payload, which only the scope of option groups has.
unfoldable pub check_option_group :
    Readers → OutboundDb → Listing → Bool → Option Value → Result OutboundError (Unit {0})
check_option_group readers db listing true group_id = do
  throw_if (not (is_string readers.is_uuid group_id)) invalid
  throw_if (not (is_brand_group listing (group_named db group_id))) (outbound_error not_found 404)
check_option_group readers db listing false group_id =
    throw_if (not (is_undefined group_id)) invalid

abbrev pub is_date_or_absent : Readers → Option Value → Bool
is_date_or_absent readers none = true
is_date_or_absent readers (some null) = true
is_date_or_absent readers (some v) = is_string readers.is_date (some v)

unfoldable pub assert_valid_item_availability_payload :
    Readers → OutboundDb → Listing → Payload → Result OutboundError (Unit {0})
assert_valid_item_availability_payload readers db listing p = do
  throw_if (not (is_string (is_among availability_scopes) (or_item (field p (codes "scope")))))
      invalid
  check_option_group readers db listing
      (is_string (text_eq (codes "OPTION_GROUP")) (or_item (field p (codes "scope"))))
      (field p (codes "option_group_id"))
  throw_if (not (is_date_or_absent readers (field p (codes "unavailable_until")))) invalid
