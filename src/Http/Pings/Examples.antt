-- ===== src/Http/Pings/Examples.antt =====
-- A batch of one ping, sent twice.
use aul_private_location.Base.{
  ℕ, ◌==◌, select, ◌-◌, ◌≡◌, refl, some, List, [], ◌∷◌, ◌++◌, map, length, find_row, any_row,
  modify, All, pos, empty, get, put,
}
use aul_private_location.Store.Schema.{Ping}
use aul_private_location.Store.{ok, World, run_query, send, with_tx, finish_tx, publish_ping}
use aul_private_location.Store.Circles.{get_membership}
use aul_private_location.Store.Pings.{insert_ping, prune_stale_pings}
use aul_private_location.Store.Accounts.{touch_device}
use aul_private_location.Http.{decode_blob, internal}
use aul_private_location.Http.Examples.{plain, reporting, limits}
use aul_private_location.Http.Pings.{
  PingItem, BatchResult, handle_ping_batch, prepare_items, prepare_item, store_batch, insert_all,
  fan_out,
}
use aul_private_location.Http.Pings.Batches.{
  ping_batch_atomic, ping_batch-fan_out, ping_batch-retry, Reported,
}

abbrev fix : PingItem
fix = record {
  circle_id = some 4;
  client_id = 1 ∷ [];
  nonce = 1 ∷ [];
  ciphertext = 2 ∷ [];
  captured_at = some 5;
  ttl_seconds = pos 0;
}

abbrev stored_one : BatchResult
stored_one = record { accepted = 1; stored = 1; duplicate = 0 }

abbrev stored_none : BatchResult
stored_none = record { accepted = 1; stored = 0; duplicate = 1 }

ping_batch-fan_out_example :
    let after = (handle_ping_batch plain limits 9 (λ n. n) 1 2 (some (fix ∷ [])) reporting).1 in
    (rows : List Ping) × (after.db.pings ≡ [] ++ rows)
    × All (λ p. Reported 1 2 reporting.db p.circle_id p.device_id) rows
    × (after.sent ≡ [] ++ map publish_ping rows)
    × (stored_one.accepted ≡ 1)
    × (stored_one.stored ≡ length rows)
    × (stored_one.duplicate ≡ 1 - length rows)
unfolding handle_ping_batch prepare_items prepare_item decode_blob get put empty run_query
    get_membership find_row with_tx finish_tx store_batch insert_all insert_ping any_row
    touch_device fan_out send
ping_batch-fan_out_example =
    ping_batch-fan_out plain limits 9 (λ n. n) 1 2 (fix ∷ []) reporting stored_one refl

abbrev reported_once : World
reported_once = (handle_ping_batch plain limits 9 (λ n. n) 1 2 (some (fix ∷ [])) reporting).1

ping_batch-retry_example :
    let again = handle_ping_batch plain limits 11 (λ n. n) 1 2 (some (fix ∷ [])) reported_once in
    (stored_none.stored ≡ 0)
    × (stored_none.duplicate ≡ 1)
    × (again.1.db.pings ≡ reported_once.db.pings)
    × (again.1.sent ≡ reported_once.sent)
unfolding handle_ping_batch prepare_items prepare_item decode_blob get put empty run_query
    get_membership find_row with_tx finish_tx store_batch insert_all insert_ping any_row
    touch_device fan_out send modify
ping_batch-retry_example =
    ping_batch-retry plain limits 9 11 (λ n. n) (λ n. n) 1 2 (fix ∷ []) reporting reported_once
      stored_one stored_none refl (λ p h. h) refl

-- The first of two pings is pruned after six hours, since the second is newer. The batch that held both
-- is sent once more, within the time that the server accepts: the first is stored and announced again.
abbrev newer : PingItem
newer = record fix { client_id = 2 ∷ []; captured_at = some 5000000 }

abbrev both : List PingItem
both = fix ∷ newer ∷ []

abbrev seven_hours : ℕ
seven_hours = 25200000000000

abbrev pruned_between : World
pruned_between =
    let after = (handle_ping_batch plain limits 9 (λ n. n) 1 2 (some both) reporting).1 in
    record after { db = (prune_stale_pings seven_hours 6 after.db).1 }

stored_again :
    (handle_ping_batch plain limits seven_hours (λ n. n) 1 2 (some both) pruned_between).0
    ≡ ok (record { accepted = 2; stored = 1; duplicate = 1 })
unfolding handle_ping_batch prepare_items prepare_item decode_blob get put empty run_query
    get_membership find_row with_tx finish_tx store_batch insert_all insert_ping any_row
    touch_device fan_out send modify prune_stale_pings select
stored_again = refl

-- The statement after the insertion fails.
abbrev not_touched : World
not_touched = record reporting { outage = λ n. n == 3 }

ping_batch_atomic_example :
    let after = (handle_ping_batch plain limits 9 (λ n. n) 1 2 (some (fix ∷ [])) not_touched).1 in
    (after.db ≡ not_touched.db) × (after.sent ≡ not_touched.sent)
unfolding handle_ping_batch prepare_items prepare_item decode_blob get put empty run_query
    get_membership find_row with_tx finish_tx store_batch insert_all insert_ping any_row
    touch_device fan_out send modify
ping_batch_atomic_example =
    ping_batch_atomic plain limits 9 (λ n. n) 1 2 (some (fix ∷ [])) not_touched internal refl
