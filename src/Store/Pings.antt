-- ===== src/Store/Pings.antt =====
-- The ping queries of server/internal/store/sqlite_queries.go (pings.sql, misc.sql) and
-- `PruneAllPingsBefore` of store.go. `now` is the clock read by the call, `id` the value of
-- uuid.New().
pub mod Newest
use aul_private_location.Base.{
  ℕ, ◌+◌, ◌*◌, ◌-◌, Bool, true, false, not, ◌&&◌, Option, none, some, List, [], ◌∷◌, ◌++◌, ◌==◌,
  same_text, ltb, if◌then◌else◌, select, any_row, delete, count_rows,
}
use aul_private_location.Store.Schema.{Db, Ping, tv}
use aul_private_location.Store.{DbError, no_rows, unavailable, Outcome, ok, err, Query}
use aul_private_location.Store.Sessions.{hour_ns}

unfoldable pub count_pings_for_circle : ℕ → Query ℕ
count_pings_for_circle circle db = (ok (count_rows (λ p. p.circle_id == circle) db.pings), db)

pub record InsertPingParams : Type 0 where
  pub circle_id : ℕ
  pub device_id : ℕ
  pub client_id : List ℕ
  pub nonce : List ℕ
  pub ciphertext : List ℕ
  pub captured_at : ℕ
  pub expires_at : Option ℕ

abbrev stored : Option ℕ → Option ℕ
stored none = none
stored (some t) = some (tv t)

abbrev pub new_ping : ℕ → ℕ → InsertPingParams → Ping
new_ping now id p = record {
  id = id;
  circle_id = p.circle_id;
  device_id = p.device_id;
  client_id = p.client_id;
  nonce = p.nonce;
  ciphertext = p.ciphertext;
  captured_at = tv p.captured_at;
  received_at = tv now;
  expires_at = stored p.expires_at;
}

-- The unique key (device_id, client_id, captured_at).
abbrev pub same_ping : InsertPingParams → Ping → Bool
same_ping p q =
    q.device_id == p.device_id
    && same_text q.client_id p.client_id
    && q.captured_at == tv p.captured_at

-- INSERT … ON CONFLICT DO NOTHING: a ping that is there already returns no row.
unfoldable pub insert_ping : ℕ → ℕ → InsertPingParams → Query Ping
insert_ping now id p db =
    if any_row (same_ping p) db.pings
    then (err no_rows, db)
    else if not (any_row (λ q. q.id == id) db.pings)
        && any_row (λ c. c.id == p.circle_id) db.circles
        && any_row (λ d. d.id == p.device_id) db.devices
    then (ok (new_ping now id p), record db { pings = db.pings ++ new_ping now id p ∷ [] })
    else (err unavailable, db)

-- The subquery: a newer ping of the same device in the same circle.
abbrev pub superseded : List Ping → Ping → Bool
superseded rows p =
    any_row
      (λ q.
        q.circle_id == p.circle_id && q.device_id == p.device_id && ltb p.captured_at q.captured_at)
      rows

abbrev pub outdated : ℕ → List Ping → Ping → Bool
outdated cutoff rows p = ltb p.captured_at cutoff && superseded rows p

unfoldable pub prune_stale_pings : ℕ → ℕ → Query (Unit {0})
prune_stale_pings now keep_hours db = (
  ok tt,
  record db { pings = delete (outdated (tv (now - keep_hours * hour_ns)) db.pings) db.pings },
)

abbrev pub outdated_in : ℕ → ℕ → List Ping → Ping → Bool
outdated_in circle cutoff rows p = p.circle_id == circle && outdated cutoff rows p

-- AddDate with days, on UTC.
unfoldable pub delete_expired_pings_for_circle : ℕ → ℕ → ℕ → Query (Unit {0})
delete_expired_pings_for_circle now circle retention_days db = (
  ok tt,
  record db {
    pings =
        delete (outdated_in circle (tv (now - retention_days * 24 * hour_ns)) db.pings) db.pings;
  },
)

-- The backstop, which takes the newest ping as well.
unfoldable pub prune_all_pings_before : ℕ → Query (Unit {0})
prune_all_pings_before cutoff db =
    (ok tt, record db { pings = delete (λ p. ltb p.captured_at (tv cutoff)) db.pings })

abbrev pub as_recent : Ping → Ping → Bool
as_recent p q =
    q.circle_id == p.circle_id && q.device_id == p.device_id && q.captured_at == p.captured_at

abbrev pub latest_among : ℕ → List Ping → List Ping → List Ping
latest_among circle all [] = []
latest_among circle all (p ∷ rest) =
    let others = latest_among circle all rest in
    if p.circle_id == circle && not (superseded all p) && not (any_row (as_recent p) rest)
    then p ∷ others
    else others

-- The row numbered 1 of each device: the newest, and the last in the table among equals, where the
-- database may take any. The order of the rows is not modelled.
unfoldable pub latest_pings_for_circle : ℕ → Query (List Ping)
latest_pings_for_circle circle db = (ok (latest_among circle db.pings db.pings), db)
