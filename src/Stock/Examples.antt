-- ===== src/Stock/Examples.antt =====
-- The theorems of src/modules/stock at the sample tables.
use ckitchen_backend.Prelude.{
  List, ℕ, ◌≢◌, text_eq, true, none, some, ◌≡◌, refl, Text, codes, ok, All, ◌≤◌, arith,
}
use ckitchen_backend.Prelude.Int.{pos, neg, ◌+ℤ◌}
use ckitchen_backend.Stock.Decimal.{parse_fixed, format_fixed, normalize_fixed}
use ckitchen_backend.Stock.Decimal.RoundTrip.{parse_fixed-format_fixed, normalize_fixed_stable}
use ckitchen_backend.Stock.Types.{receive, Document, Movement}
use ckitchen_backend.Stock.Posting.{status_includes, execute_posting}
use ckitchen_backend.Stock.Retry.{run_attempt, max_retries, post}
use ckitchen_backend.Stock.Retry.Attempts.{post-first_final, EndsAt}
use ckitchen_backend.Stock.Posting.Replay.{execute_posting-replay}
use ckitchen_backend.Stock.Posting.Conservation.{execute_posting-balances, execute_posting-IsSound}
use ckitchen_backend.Stock.Posting.Documents.{execute_posting-document, execute_posting-once}
use ckitchen_backend.Stock.Posting.Documents.Rows.{posted, document_of}
use ckitchen_backend.Stock.Locks.Rows.{IsSound, on_hand_at, reserved_at}
use ckitchen_backend.Stock.Ledger.Plan.{net_at}
use ckitchen_backend.Stock.Sample.{
  padded_text, padded_text_eq, request, receive_policy, dependencies, process, later, request_hash,
  order, tables, planned, request_planned, answer, tables', request_answered, tables-IsSound,
  attempts, one_row-AreUnique, request_again,
}
use ckitchen_backend.Stock.Posting.Nets.{normalize_each, canonical_movements-net}
use ckitchen_backend.Stock.Route.Outlets.{validate_route-one_outlet}
use ckitchen_backend.Stock.Route.{location_of, validate_route, route_rejects}

printed_negative : format_fixed (neg (pos 12500000)) 6 ≡ codes "-12.500000"
unfolding format_fixed
printed_negative = refl

parse_fixed-format_fixed_example :
    parse_fixed (format_fixed (neg (pos 12500000)) 6) 6 ≡ ok (neg (pos 12500000))
parse_fixed-format_fixed_example = parse_fixed-format_fixed (neg (pos 12500000)) 6 (omega arith)

normalize_fixed_stable_example :
    (n : Text) × (normalize_fixed padded_text 6 ≡ ok n)
    × (parse_fixed n 6 ≡ ok (neg (pos 12500000)))
    × (normalize_fixed n 6 ≡ ok n)
normalize_fixed_stable_example = normalize_fixed_stable padded_text 6 (omega arith) padded_text_eq

execute_posting-replay_example :
    execute_posting request_hash later dependencies tables' request
    ≡ ok (record answer { replayed = true }, tables')
execute_posting-replay_example =
    execute_posting-replay request_hash process later dependencies tables request request_answered
      refl

execute_posting-balances_example :
    (on_hand_at 7 9 tables'.balances ≡ on_hand_at 7 9 tables.balances +ℤ net_at 7 9 planned)
    × (reserved_at 7 9 tables'.balances ≡ reserved_at 7 9 tables.balances)
unfolding text_eq
execute_posting-balances_example =
    execute_posting-balances request_hash process dependencies tables request request_answered refl
      tables-IsSound planned request_planned 7 9

execute_posting-IsSound_example : All IsSound tables'.balances
execute_posting-IsSound_example =
    execute_posting-IsSound request_hash process dependencies tables request request_answered
      tables-IsSound

post-first_final_example :
    (n : ℕ) × (n ≤ max_retries none)
    × (max_retries none ≤ 3)
    × (post request_hash request attempts none ≡ some (run_attempt request_hash request attempts n))
    × EndsAt request_hash request attempts (max_retries none) 0 n
post-first_final_example = post-first_final request_hash request attempts none

execute_posting-document_example :
    (d : Document) × (document_of request tables ≡ some d)
    × (status_includes receive_policy.from_statuses d.status ≡ true)
    × (d.stock_posting_id ≡ none)
    × (document_of request tables' ≡ some (posted receive_policy.next_status 77 d))
execute_posting-document_example =
    execute_posting-document request_hash process dependencies tables request request_answered refl
      (one_row-AreUnique order) receive_policy refl

execute_posting-once_example :
    execute_posting request_hash later dependencies tables' request_again ≢ ok (answer, tables)
unfolding text_eq
execute_posting-once_example =
    execute_posting-once request_hash process later dependencies dependencies tables request
      request_again request_answered refl (one_row-AreUnique order) refl refl refl

canonical_movements-net_example :
    (ns : List Movement) × (normalize_each request.movements ≡ ok ns)
    × ((w l : ℕ) → net_at w l planned ≡ net_at w l ns)
canonical_movements-net_example = canonical_movements-net request planned request_planned

validate_route-one_outlet_example :
    (place : ℕ) × All (λ m. location_of tables.warehouses m ≡ place) planned
unfolding validate_route route_rejects
validate_route-one_outlet_example =
    validate_route-one_outlet tables.warehouses receive 1 planned refl refl
