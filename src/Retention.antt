-- ===== src/Retention.antt =====
-- The maintenance pass of server/internal/retention/retention.go on a SQLite store, where the
-- partitions of PostgreSQL have no part. Dates are days of 24 hours (AddDate on UTC), and one
-- reading of the clock serves a pass.
pub mod Spares
pub mod Kept
pub mod Expiry
mod Examples
use aul_private_location.Base.{ℕ, ◌*◌, ◌-◌, List, [], ◌∷◌, ◌==◌, if◌then◌else◌, ℤ, pos, negsuc}
use aul_private_location.Store.Schema.{Db, Circle}
use aul_private_location.Store.{
  DbError, Outcome, ok, World, Act, pure, stop, ◌>>=◌, ◌>>◌, ignore, Query, run_query,
}
use aul_private_location.Store.Circles.{all_circle_retention}
use aul_private_location.Store.Pings.{
  prune_all_pings_before, prune_stale_pings, delete_expired_pings_for_circle,
}
use aul_private_location.Store.LoginAttempts.{prune_login_attempts}
use aul_private_location.Store.Sessions.{delete_expired_sessions}
use aul_private_location.Store.KeyEnvelopes.{prune_key_envelopes}
use aul_private_location.Store.Sos.{prune_resolved_sos}
use aul_private_location.Store.Places.{prune_place_tombstones}
use aul_private_location.Store.Shares.{prune_share_sessions}

abbrev day_ns : ℕ
day_ns = 86400000000000

abbrev pub share_grace_hours : ℕ
share_grace_hours = 24

abbrev pub default_ping_retention_hours : ℕ
default_ping_retention_hours = 6

-- `Worker`, without its clock and its ticker.
pub record Worker : Type 0 where
  pub max_retention_days : ℕ
  pub ping_retention_hours : ℕ

abbrev ping_hours : ℤ → ℕ
ping_hours (negsuc n) = default_ping_retention_hours
ping_hours (pos n) = if n == 0 then default_ping_retention_hours else n

-- `New`
abbrev pub new_worker : ℕ → ℤ → Worker
new_worker days hours = record {
  max_retention_days = days;
  ping_retention_hours = ping_hours hours;
}

abbrev pub horizon : Worker → ℕ → ℕ
horizon c now = now - c.max_retention_days * day_ns

-- The loop over the circles: the error of one does not stop the next.
unfoldable pub delete_each : ℕ → List Circle → Act DbError (Unit {0})
delete_each now [] = pure tt
delete_each now (c ∷ cs) =
    ignore {E = DbError} (run_query (delete_expired_pings_for_circle now c.id c.retention_days))
    >> delete_each now cs

-- `deleteExpiredPings`
unfoldable pub delete_expired_pings : ℕ → Act DbError (Unit {0})
delete_expired_pings now = do circles ← run_query all_circle_retention; delete_each now circles

-- `PruneAuditIPs` changes the audit log, which is not modelled.
scrub_audit_ips : Query (Unit {0})
scrub_audit_ips db = (ok tt, db)

-- A step of the pass, whose error is logged.
abbrev pub logged : {A : Type 0} → Act DbError A → Act DbError (Unit {0})
logged m = ignore m

-- `RunOnce`
unfoldable pub run_once : Worker → ℕ → Act DbError (Unit {0})
unfolding scrub_audit_ips
run_once c now = do
  logged (run_query (prune_all_pings_before (horizon c now)))
  logged (run_query (prune_stale_pings now c.ping_retention_hours))
  logged (delete_expired_pings now)
  logged (run_query (prune_login_attempts now 1))
  logged (run_query scrub_audit_ips)
  logged (run_query (delete_expired_sessions now))
  logged (run_query (prune_key_envelopes now))
  logged (run_query (prune_resolved_sos (horizon c now)))
  logged (run_query (prune_place_tombstones (horizon c now)))
  logged (run_query (prune_share_sessions now share_grace_hours))
