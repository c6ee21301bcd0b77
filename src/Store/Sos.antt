-- ===== src/Store/Sos.antt =====
-- The SOS queries of server/internal/store/sqlite_queries.go (sos.sql).
use aul_private_location.Base.{
  ℕ, Bool, not, ◌&&◌, none, some, List, [], ◌∷◌, ◌++◌, ◌==◌, if◌then◌else◌, is_none, find_row,
  select, any_row, delete,
}
use aul_private_location.Store.Schema.{SosEvent, tv}
use aul_private_location.Store.{unavailable, ok, err, Query, one_row, update_returning}
use aul_private_location.Store.Shares.{before}

abbrev pub new_sos : ℕ → ℕ → ℕ → ℕ → List ℕ → SosEvent
new_sos now id circle device ciphertext = record {
  id = id;
  circle_id = circle;
  device_id = some device;
  ciphertext = ciphertext;
  created_at = tv now;
  resolved_at = none;
  resolved_by = none;
}

unfoldable pub create_sos : ℕ → ℕ → ℕ → ℕ → List ℕ → Query SosEvent
create_sos now id circle device ciphertext db =
    if not (any_row (λ e. e.id == id) db.sos_events)
      && any_row (λ c. c.id == circle) db.circles
      && any_row (λ d. d.id == device) db.devices
    then (
      ok (new_sos now id circle device ciphertext),
      record db { sos_events = db.sos_events ++ new_sos now id circle device ciphertext ∷ [] },
    )
    else (err unavailable, db)

unfoldable pub get_sos : ℕ → Query SosEvent
get_sos id db = (one_row (find_row (λ e. e.id == id) db.sos_events), db)

abbrev pub is_active_sos : ℕ → SosEvent → Bool
is_active_sos circle e = e.circle_id == circle && is_none e.resolved_at

-- The rows of ListActiveSOS; their order is not modelled.
unfoldable pub list_active_sos : ℕ → Query (List SosEvent)
list_active_sos circle db = (ok (select (is_active_sos circle) db.sos_events), db)

unfoldable pub prune_resolved_sos : ℕ → Query (Unit {0})
prune_resolved_sos horizon db = (
  ok tt,
  record db { sos_events = delete (λ e. before (tv horizon) e.resolved_at) db.sos_events },
)

abbrev pub unresolved : ℕ → ℕ → SosEvent → Bool
unresolved id circle e = e.id == id && e.circle_id == circle && is_none e.resolved_at

abbrev pub resolved : ℕ → ℕ → SosEvent → SosEvent
resolved now user e = record e { resolved_at = some (tv now); resolved_by = some user }

unfoldable pub resolve_sos : ℕ → ℕ → ℕ → ℕ → Query SosEvent
resolve_sos now id circle user db =
    update_returning (unresolved id circle) (resolved now user) db.sos_events
      (λ rows. record db { sos_events = rows }) db
