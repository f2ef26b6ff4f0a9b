-- ===== src/Outbound/Policies.antt =====
-- src/modules/outbound/policies.ts: the flag, the sets of command types, the bound of the attempts,
-- and the backoff.
use ckitchen_backend.Prelude.{
  ℕ, zero, suc, ◌≡◌, ◌*◌, ◌^◌, ◌≤◌, Bool, true, false, Text, codes, arith, if◌then◌else◌, leb,
}
use ckitchen_backend.Outbound.Types.{CommandType}

abbrev pub outbound_commands_flag : Text
outbound_commands_flag = codes "integration.outbound_commands"

abbrev pub max_send_attempts : ℕ
max_send_attempts = 3

abbrev pub default_lease_seconds : ℕ
default_lease_seconds = 60

abbrev pub min_ℕ : ℕ → ℕ → ℕ
min_ℕ a b = if leb a b then a else b

abbrev pub max_ℕ : ℕ → ℕ → ℕ
max_ℕ a b = if leb a b then b else a

unfoldable pub outbound_backoff_ms : ℕ → ℕ
outbound_backoff_ms attempts = min_ℕ attempts max_send_attempts ^ 2 * 1000

abbrev pub is_order_scoped : CommandType → Bool
is_order_scoped CommandType.accept_order = true
is_order_scoped CommandType.reject_order = true
is_order_scoped CommandType.mark_ready = true
is_order_scoped CommandType.update_ready_time = true
is_order_scoped CommandType.contest_cancellation = true
is_order_scoped _ = false

abbrev pub is_listing_scoped : CommandType → Bool
is_listing_scoped CommandType.pause_store = true
is_listing_scoped CommandType.resume_store = true
is_listing_scoped CommandType.set_item_availability = true
is_listing_scoped CommandType.notify_menu_updated = true
is_listing_scoped _ = false

abbrev pub is_kitchen_crew_allowed : CommandType → Bool
is_kitchen_crew_allowed CommandType.accept_order = true
is_kitchen_crew_allowed CommandType.reject_order = true
is_kitchen_crew_allowed CommandType.mark_ready = true
is_kitchen_crew_allowed _ = false

abbrev pub is_shadow_allowed : CommandType → Bool
is_shadow_allowed CommandType.notify_menu_updated = true
is_shadow_allowed _ = false

abbrev pub is_blocked_after_reject : CommandType → Bool
is_blocked_after_reject CommandType.accept_order = true
is_blocked_after_reject CommandType.mark_ready = true
is_blocked_after_reject _ = false

-- The waits are 0, 1, 4 and 9 seconds.
pub outbound_backoff_ms-bounds : (attempts : ℕ) → outbound_backoff_ms attempts ≤ 9000
unfolding outbound_backoff_ms
outbound_backoff_ms-bounds zero = ground arith
outbound_backoff_ms-bounds (suc zero) = ground arith
outbound_backoff_ms-bounds (suc (suc zero)) = ground arith
outbound_backoff_ms-bounds (suc (suc (suc zero))) = ground arith
outbound_backoff_ms-bounds (suc (suc (suc (suc n)))) = rw (not_leb n) (ground arith)
  where
    not_leb : (n : ℕ) → leb (suc (suc (suc (suc n)))) 3 ≡ false
    not_leb n = ground arith
