-- ===== src/Store/Shares.antt =====
-- The live-share queries of server/internal/store/sqlite_queries.go (share.sql). `now` is the clock
-- read by the call, `id` the value of uuid.New().
use aul_private_location.Base.{
  ℕ, ◌*◌, ◌-◌, Bool, false, not, ◌&&◌, ◌||◌, Option, none, some, List, [], ◌∷◌, ◌++◌, ◌==◌, ltb,
  if◌then◌else◌, is_none, get_or, find_row, select, modify, any_row, delete,
}
use aul_private_location.Store.Schema.{ShareSession, SharePosition, tv}
use aul_private_location.Store.{no_rows, unavailable, ok, err, Query, one_row}
use aul_private_location.Store.Sessions.{hour_ns}

abbrev pub is_share : ℕ → ShareSession → Bool
is_share id s = s.id == id

abbrev pub unbound : ℕ → ShareSession → Bool
unbound id s = s.id == id && is_none s.viewer_token_hash

abbrev pub bound_to : ℕ → ℕ → ShareSession → ShareSession
bound_to now hash s = record s { viewer_token_hash = some hash; viewer_bound_at = some (tv now) }

-- The compare-and-swap on the column `viewer_token_hash`.
unfoldable pub bind_share_viewer : ℕ → ℕ → ℕ → Query ShareSession
bind_share_viewer now id hash db = elim (find_row (unbound id) db.shares) [
  | none ↦ (err no_rows, db)
  | some s ↦ (
    ok (bound_to now hash s),
    record db { shares = modify (unbound id) (bound_to now hash) db.shares },
  )
]

abbrev pub new_share : ℕ → ℕ → ℕ → ℕ → ShareSession
new_share now id user expires_at = record {
  id = id;
  user_id = user;
  created_at = tv now;
  expires_at = tv expires_at;
  revoked_at = none;
  viewer_token_hash = none;
  viewer_bound_at = none;
}

unfoldable pub create_share_session : ℕ → ℕ → ℕ → ℕ → Query ShareSession
create_share_session now id user expires_at db =
    if not (any_row (is_share id) db.shares) && any_row (λ u. u.id == user) db.users
    then (
      ok (new_share now id user expires_at),
      record db { shares = db.shares ++ new_share now id user expires_at ∷ [] },
    )
    else (err unavailable, db)

abbrev pub is_position : ℕ → SharePosition → Bool
is_position id p = p.session_id == id

unfoldable pub get_share_position : ℕ → Query SharePosition
get_share_position id db = (one_row (find_row (is_position id) db.positions), db)

unfoldable pub get_share_session : ℕ → Query ShareSession
get_share_session id db = (one_row (find_row (is_share id) db.shares), db)

unfoldable pub get_share_session_for_owner : ℕ → ℕ → Query ShareSession
get_share_session_for_owner id user db =
    (one_row (find_row (λ s. s.id == id && s.user_id == user) db.shares), db)

-- The rows of ListShareSessionsForUser; their order is not modelled.
unfoldable pub list_share_sessions_for_user : ℕ → ℕ → Query (List ShareSession)
list_share_sessions_for_user now user db =
    (ok (select (λ s. s.user_id == user && ltb (tv now) s.expires_at) db.shares), db)

abbrev pub before : ℕ → Option ℕ → Bool
before cutoff none = false
before cutoff (some t) = ltb t cutoff

abbrev pub stale : ℕ → ShareSession → Bool
stale cutoff s = ltb s.expires_at cutoff || before cutoff s.revoked_at

-- Deleting a session takes its position along (ON DELETE CASCADE).
unfoldable pub prune_share_sessions : ℕ → ℕ → Query (Unit {0})
prune_share_sessions now grace_hours db =
    let cutoff = tv (now - grace_hours * hour_ns) in
    (
      ok tt,
      record db {
        shares = delete (stale cutoff) db.shares;
        positions =
            delete (λ p. any_row (λ s. s.id == p.session_id && stale cutoff s) db.shares)
              db.positions;
      },
    )

-- COALESCE(revoked_at, now)
abbrev pub revoked_once : ℕ → ShareSession → ShareSession
revoked_once now s = record s { revoked_at = some (get_or s.revoked_at (tv now)) }

abbrev pub owned_share : ℕ → ℕ → ShareSession → Bool
owned_share id user s = s.id == id && s.user_id == user

unfoldable pub revoke_share_session : ℕ → ℕ → ℕ → Query ShareSession
revoke_share_session now id user db = elim (find_row (owned_share id user) db.shares) [
  | none ↦ (err no_rows, db)
  | some s ↦ (
    ok (revoked_once now s),
    record db { shares = modify (owned_share id user) (revoked_once now) db.shares },
  )
]

abbrev replaced : ℕ → List ℕ → List ℕ → ℕ → SharePosition → SharePosition
replaced now nonce ciphertext captured_at p = record p {
  nonce = nonce;
  ciphertext = ciphertext;
  captured_at = tv captured_at;
  updated_at = tv now;
}

-- One position per session: it replaces its predecessor.
unfoldable pub upsert_share_position : ℕ → ℕ → List ℕ → List ℕ → ℕ → Query (Unit {0})
upsert_share_position now id nonce ciphertext captured_at db =
    let new : SharePosition = record {
      session_id = id;
      nonce = nonce;
      ciphertext = ciphertext;
      captured_at = tv captured_at;
      updated_at = tv now;
    } in
    if not (any_row (is_share id) db.shares)
    then (err unavailable, db)
    else if any_row (is_position id) db.positions
    then (
      ok tt,
      record db {
        positions =
            modify (is_position id) (replaced now nonce ciphertext captured_at) db.positions;
      },
    )
    else (ok tt, record db { positions = db.positions ++ new ∷ [] })
