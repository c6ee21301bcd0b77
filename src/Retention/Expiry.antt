-- ===== src/Retention/Expiry.antt =====
-- What a maintenance pass deletes when none of its statements fails.
use aul_private_location.Base.{
  ℕ, ◌+◌, ◌*◌, ◌-◌, ◌≡◌, refl, sym, subst, Bool, false, ◌&&◌, List, [], ◌∷◌, arith, ◌==◌, ltb,
  any_row-delete, delete, All, All-delete, All-delete_kept,
}
use aul_private_location.Store.Schema.{Db, Ping, Circle, tv}
use aul_private_location.Store.{World, Effect, run_query}
use aul_private_location.Store.Circles.{all_circle_retention}
use aul_private_location.Store.Pings.{
  prune_all_pings_before, prune_stale_pings, delete_expired_pings_for_circle, outdated, outdated_in,
}
use aul_private_location.Store.LoginAttempts.{prune_login_attempts}
use aul_private_location.Store.Sessions.{delete_expired_sessions, hour_ns}
use aul_private_location.Store.KeyEnvelopes.{prune_key_envelopes, day_ns}
use aul_private_location.Store.Sos.{prune_resolved_sos}
use aul_private_location.Store.Places.{prune_place_tombstones}
use aul_private_location.Store.Shares.{prune_share_sessions, before}
use aul_private_location.Retention.{
  Worker, horizon, delete_each, delete_expired_pings, scrub_audit_ips, run_once, share_grace_hours,
}

-- The pings that are left: none older than the horizon, and none older than the window unless it is
-- the newest of its device in its circle.
abbrev pub WithinHorizon : ℕ → List Ping → Type 0
WithinHorizon h = All (λ p. ltb p.captured_at (tv h) ≡ false)

abbrev pub WithinWindow : ℕ → List Ping → Type 0
WithinWindow cutoff rows = All (λ p. outdated cutoff rows p ≡ false) rows

kept_outdated :
    (cutoff : ℕ) (gone : Ping → Bool) (rows more : List Ping)
    → All (λ p. outdated cutoff rows p ≡ false) more
    → All (λ p. outdated cutoff (delete gone rows) p ≡ false) more
kept_outdated cutoff gone rows [] a = tt
kept_outdated cutoff gone rows (p ∷ more) a = (
  ground (
    arith,
    a.0,
    any_row-delete
        (λ q.
          q.circle_id == p.circle_id
          && q.device_id == p.device_id
          && ltb p.captured_at q.captured_at)
        gone rows,
  ),
  kept_outdated cutoff gone rows more a.1,
)

-- Further deletions keep both.
delete-WithinWindow :
    (cutoff : ℕ) (gone : Ping → Bool) (rows : List Ping)
    → WithinWindow cutoff rows
    → WithinWindow cutoff (delete gone rows)
delete-WithinWindow cutoff gone rows a =
    All-delete (λ p. outdated cutoff (delete gone rows) p ≡ false) gone rows
      (kept_outdated cutoff gone rows rows a)

-- A world whose database answers every call.
abbrev pub steady : Db → ℕ → List Effect → World
steady db calls sent = record { db = db; outage = λ n. false; calls = calls; sent = sent }

-- What the loop over the circles leaves of the tables.
record Thinned (h cutoff : ℕ) (old : Db) (new : World) : Type 0 where
  answers : new ≡ steady new.db new.calls new.sent
  horizon_kept : WithinHorizon h new.db.pings
  window_kept : WithinWindow cutoff new.db.pings

each-Thinned :
    (now h cutoff : ℕ) (cs : List Circle) (db : Db) (calls : ℕ) (sent : List Effect)
    → WithinHorizon h db.pings
    → WithinWindow cutoff db.pings
    → Thinned h cutoff db (delete_each now cs (steady db calls sent)).1
unfolding delete_each run_query delete_expired_pings_for_circle
each-Thinned now h cutoff [] db calls sent a b = record {
  answers = refl;
  horizon_kept = a;
  window_kept = b;
}
each-Thinned now h cutoff (c ∷ cs) db calls sent a b =
    let gone = outdated_in c.id (tv (now - c.retention_days * 24 * hour_ns)) db.pings in
    let rest =
      each-Thinned now h cutoff cs (record db { pings = delete gone db.pings }) (calls + 1) sent
        (All-delete (λ p. ltb p.captured_at (tv h) ≡ false) gone db.pings a)
        (delete-WithinWindow cutoff gone db.pings b) in
    record {
      answers = rest.answers;
      horizon_kept = rest.horizon_kept;
      window_kept = rest.window_kept;
    }

-- The statements after the loop over the circles.
abbrev later_steps : Worker → ℕ → World → World
later_steps c now w =
    let w = (run_query (prune_login_attempts now 1) w).1 in
    let w = (run_query scrub_audit_ips w).1 in
    let w = (run_query (delete_expired_sessions now) w).1 in
    let w = (run_query (prune_key_envelopes now) w).1 in
    let w = (run_query (prune_resolved_sos (horizon c now)) w).1 in
    let w = (run_query (prune_place_tombstones (horizon c now)) w).1 in
    (run_query (prune_share_sessions now share_grace_hours) w).1

-- The tables without what is expired.
abbrev pub NothingExpired : Worker → ℕ → Db → Type 0
NothingExpired c now db =
    WithinHorizon (horizon c now) db.pings
    × WithinWindow (tv (now - c.ping_retention_hours * hour_ns)) db.pings
    × All (λ e. before (tv (horizon c now)) e.resolved_at ≡ false) db.sos_events
    × All (λ p. (p.deleted && ltb p.updated_at (tv (horizon c now))) ≡ false) db.places
    × All (λ a. ltb a.created_at (tv (now - 1 * day_ns)) ≡ false) db.login_attempts

later_steps-expire :
    (c : Worker) (now : ℕ) (db : Db) (calls : ℕ) (sent : List Effect)
    → WithinHorizon (horizon c now) db.pings
    → WithinWindow (tv (now - c.ping_retention_hours * hour_ns)) db.pings
    → NothingExpired c now (later_steps c now (steady db calls sent)).db
unfolding run_query scrub_audit_ips prune_login_attempts delete_expired_sessions prune_key_envelopes
    prune_resolved_sos prune_place_tombstones prune_share_sessions
later_steps-expire c now db calls sent a b = (
  a,
  b,
  All-delete_kept (λ e. before (tv (horizon c now)) e.resolved_at) db.sos_events,
  All-delete_kept (λ p. p.deleted && ltb p.updated_at (tv (horizon c now))) db.places,
  All-delete_kept (λ a. ltb a.created_at (tv (now - 1 * day_ns))) db.login_attempts,
)

-- After a maintenance pass none of whose statements fails, no ping is older than the horizon, and
-- each ping is within the window or the newest of its device in its circle; no SOS that was resolved
-- before the horizon is left, no place that was deleted before it, and no login attempt older than a
-- day.
pub run_once-expires :
    (c : Worker) (now : ℕ) (db : Db) (calls : ℕ) (sent : List Effect)
    → NothingExpired c now (run_once c now (steady db calls sent)).1.db
unfolding run_once run_query delete_expired_pings all_circle_retention prune_all_pings_before
    prune_stale_pings
run_once-expires c now db calls sent =
    let h = horizon c now in
    let cutoff = tv (now - c.ping_retention_hours * hour_ns) in
    let first = delete (λ p. ltb p.captured_at (tv h)) db.pings in
    let second = delete (outdated cutoff first) first in
    let thin =
      each-Thinned now h cutoff db.circles (record db { pings = second }) (calls + 1 + 1 + 1) sent
        (All-delete (λ p. ltb p.captured_at (tv h) ≡ false) (outdated cutoff first) first
          (All-delete_kept (λ p. ltb p.captured_at (tv h)) db.pings))
        (kept_outdated cutoff (outdated cutoff first) first second
          (All-delete_kept (outdated cutoff first) first)) in
    let w =
      (delete_each now db.circles
        (steady (record db { pings = second }) (calls + 1 + 1 + 1) sent)).1 in
    subst (λ w. NothingExpired c now (later_steps c now w).db) (sym thin.answers)
      (later_steps-expire c now w.db w.calls w.sent thin.horizon_kept thin.window_kept)
