-- ===== src/Retention/Kept.antt =====
-- What a whole maintenance pass keeps.
use aul_private_location.Base.{ℕ, ◌+◌, ◌≡◌, refl, List, [], ◌∷◌, Bool-cases, inl, inr}
use aul_private_location.Store.Schema.{Db, Circle}
use aul_private_location.Store.{DbError, ok, World, Act, Query, run_query}
use aul_private_location.Store.Circles.{all_circle_retention}
use aul_private_location.Store.Pings.{
  prune_all_pings_before, prune_stale_pings, delete_expired_pings_for_circle,
}
use aul_private_location.Store.LoginAttempts.{prune_login_attempts}
use aul_private_location.Store.Sessions.{delete_expired_sessions}
use aul_private_location.Store.KeyEnvelopes.{prune_key_envelopes}
use aul_private_location.Store.Sos.{prune_resolved_sos}
use aul_private_location.Store.Places.{prune_place_tombstones}
use aul_private_location.Store.Shares.{prune_share_sessions}
use aul_private_location.Retention.{
  Worker, horizon, delete_each, delete_expired_pings, scrub_audit_ips, run_once, share_grace_hours,
}
use aul_private_location.Retention.Spares.{
  Spares, same-Spares, then-Spares, all_pings-Spares, stale_pings-Spares, circle_pings-Spares,
  login_attempts-Spares, sessions-Spares, envelopes-Spares, sos-Spares, places-Spares,
  shares-Spares,
}

module _ (h now : ℕ) where
  -- A program that keeps what is still there, from whatever tables it starts.
  abbrev Sparing : {A : Type 0} → Act DbError A → Type 0
  Sparing m = (w : World) → Spares h now w.db (m w).1.db

  query-Sparing :
      {A : Type 0} → (q : Query A) → ((db : Db) → Spares h now db (q db).1) → Sparing (run_query q)
  unfolding run_query
  query-Sparing q s w = elim (Bool-cases (w.outage w.calls)) [
    | inl o ↦ rw o (same-Spares w.db)
    | inr o ↦ rw o (s w.db)
  ]

  each-Sparing : (cs : List Circle) → Sparing (delete_each now cs)
  unfolding delete_each
  each-Sparing [] w = same-Spares w.db
  each-Sparing (c ∷ cs) w =
      let q = delete_expired_pings_for_circle now c.id c.retention_days in
      then-Spares (query-Sparing q (λ db. circle_pings-Spares h now db c.id c.retention_days) w)
        (each-Sparing cs (run_query q w).1)

  circles-Sparing : Sparing (delete_expired_pings now)
  unfolding delete_expired_pings run_query all_circle_retention
  circles-Sparing w = elim (Bool-cases (w.outage w.calls)) [
    | inl o ↦ rw o (same-Spares w.db)
    | inr o ↦ rw o (each-Sparing w.db.circles (record w { calls = w.calls + 1 }))
  ]

-- A maintenance pass keeps what is still needed, whichever of its statements fail: the newest ping
-- of each device in a circle unless it is older than the horizon, every SOS that is not resolved,
-- every place that is not deleted, every session and live share that is neither over nor revoked,
-- every envelope that is not consumed and not a month old, and all memberships. It never fails.
pub run_once-Spares :
    (c : Worker) (now : ℕ) (w : World)
    → ((run_once c now w).0 ≡ ok tt) × Spares (horizon c now) now w.db (run_once c now w).1.db
unfolding run_once
run_once-Spares c now w =
    let h = horizon c now in
    let w1 = (run_query (prune_all_pings_before h) w).1 in
    let w2 = (run_query (prune_stale_pings now c.ping_retention_hours) w1).1 in
    let w3 = (delete_expired_pings now w2).1 in
    let w4 = (run_query (prune_login_attempts now 1) w3).1 in
    let w5 = (run_query (scrub_audit_ips) w4).1 in
    let w6 = (run_query (delete_expired_sessions now) w5).1 in
    let w7 = (run_query (prune_key_envelopes now) w6).1 in
    let w8 = (run_query (prune_resolved_sos h) w7).1 in
    let w9 = (run_query (prune_place_tombstones h) w8).1 in
    (
      refl,
      then-Spares (query-Sparing h now (prune_all_pings_before h) (all_pings-Spares h now) w) (
          then-Spares
            (query-Sparing h now (prune_stale_pings now c.ping_retention_hours)
              (λ db. stale_pings-Spares h now db c.ping_retention_hours) w1)
            (then-Spares (circles-Sparing h now w2) (
              then-Spares
                (query-Sparing h now (prune_login_attempts now 1)
                  (λ db. login_attempts-Spares h now db 1) w3)
                (then-Spares (query-Sparing h now (scrub_audit_ips) same-Spares w4) (
                  then-Spares
                    (query-Sparing h now (delete_expired_sessions now) (sessions-Spares h now) w5)
                    (then-Spares
                      (query-Sparing h now (prune_key_envelopes now) (envelopes-Spares h now) w6)
                      (then-Spares
                        (query-Sparing h now (prune_resolved_sos h) (λ db. sos-Spares h now db h)
                          w7)
                        (then-Spares
                          (query-Sparing h now (prune_place_tombstones h)
                            (λ db. places-Spares h now db h) w8)
                          (query-Sparing h now (prune_share_sessions now share_grace_hours)
                            (λ db. shares-Spares h now db share_grace_hours) w9))))))))),
    )
