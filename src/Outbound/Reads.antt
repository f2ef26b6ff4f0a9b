-- ===== src/Outbound/Reads.antt =====
-- src/modules/outbound/service.ts: the commands that a user sees, by the outlets of the user, the newest
-- first, with the number of all of them.
use ckitchen_backend.Prelude.{
  ℕ, Bool, true, ◌&&◌, Option, none, some, List, [], ◌∷◌, Text, text_eq, is_empty, any, select,
  includes, find?, map, take, drop, length, ltb, ◌==◌, if◌then◌else◌,
}
use ckitchen_backend.Outbound.Types.{CommandStatus, Command, Listing, Dispute, OutboundDb}
use ckitchen_backend.Outbound.Worker.{is_listing}
use ckitchen_backend.Outbound.Disputes.{has_dispute_id}

abbrev pub status_rank : CommandStatus → ℕ
status_rank CommandStatus.pending = 0
status_rank CommandStatus.claimed = 1
status_rank CommandStatus.sent = 2
status_rank CommandStatus.failed = 3
status_rank CommandStatus.dead = 4

-- The text is empty where no listing is asked for, and the outlets are `none` where all are allowed.
pub record ListCommandsInput : Type 0 where
  pub aggregator_account_id : Text
  pub status : Option CommandStatus
  pub limit : ℕ
  pub offset : ℕ
  pub allowed_location_ids : Option (List ℕ)

abbrev pub listings_at : OutboundDb → List ℕ → List Text
listings_at db locations =
    map (λ l. l.id) (select (λ l. includes locations l.location_id) db.listings)

abbrev pub has_listing_in : OutboundDb → Option (List ℕ) → Command → Bool
has_listing_in db none c = true
has_listing_in db (some locations) c =
    any (λ id. text_eq c.aggregator_account_id id) (listings_at db locations)

abbrev pub has_status : Option CommandStatus → Command → Bool
has_status none c = true
has_status (some s) c = status_rank c.status == status_rank s

abbrev pub is_shown : OutboundDb → ListCommandsInput → Command → Bool
is_shown db input c =
    (if is_empty input.aggregator_account_id
      then true
      else text_eq c.aggregator_account_id input.aggregator_account_id)
    && has_status input.status c
    && has_listing_in db input.allowed_location_ids c

abbrev pub insert_newest : Command → List Command → List Command
insert_newest c [] = c ∷ []
insert_newest c (d ∷ ds) =
    let rest = insert_newest c ds in if ltb c.created_at d.created_at then d ∷ rest else c ∷ d ∷ ds

-- `orderBy(desc(createdAt))`
abbrev pub newest_first : List Command → List Command
newest_first [] = []
newest_first (c ∷ cs) = insert_newest c (newest_first cs)

unfoldable pub list_commands : OutboundDb → ListCommandsInput → List Command × ℕ
list_commands db input = (
  take input.limit (drop input.offset (newest_first (select (is_shown db input) db.commands))),
  length (select (is_shown db input) db.commands),
)

unfoldable pub get_command_by_id : OutboundDb → ℕ → Option Command
get_command_by_id db id = find? (λ c. c.id == id) db.commands

unfoldable pub get_listing_by_id : OutboundDb → Text → Option Listing
get_listing_by_id db id = find? (is_listing id) db.listings

unfoldable pub get_dispute_by_id : OutboundDb → ℕ → Option Dispute
get_dispute_by_id db id = find? (has_dispute_id id) db.disputes
