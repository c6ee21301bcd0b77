-- ===== src/Auth/Reuse.antt =====
-- Rotation and reuse detection of refresh tokens (`Refresh` in server/internal/auth/service.go).
use aul_private_location.Base.{
  ℕ, ◌+◌, ◌≡◌, refl, sym, subst, Bool, true, false, not, ◌&&◌, Option, none, some, List, [], ◌∷◌,
  arith, ◌==◌, is_none, find_row, find_row-holds, modify, any_row, All,
}
use aul_private_location.Store.Schema.{Session}
use aul_private_location.Store.{World, ok, err, run_query, send}
use aul_private_location.Store.Sessions.{
  RotateSessionParams, live_refresh, live_access, replayed, rotated, revoke_at, rotation_allowed,
  rotate_session, revoke_session, get_session_by_refresh_hash, get_session_by_prev_refresh_hash,
  get_session_by_access_hash,
}
use aul_private_location.Auth.{
  unauthorized, resolve, Service, Refreshed, refresh, rotation, refresh_reused, refresh_invalid,
}
use aul_private_location.Auth.Tokens.{
  Owned, Unused, previous-not_live, previous-replayed, find_row-swaps, swapped, revoke-All,
}

-- No call of the database fails.
abbrev pub IsSteady : World → Type 0
IsSteady w = (n : ℕ) → w.outage n ≡ false

-- A token that is neither the current token of a live session nor the previous token of a session
-- that is not revoked is refused, and no table changes.
pub refresh-unknown :
    (svc : Service) (now token : ℕ) (a r : Option ℕ) (w : World)
    → IsSteady w
    → find_row (live_refresh now (svc.hash_token token)) w.db.sessions ≡ none
    → find_row (replayed (svc.hash_token token)) w.db.sessions ≡ none
    → ((refresh svc now (some token) a r w).0 ≡ err refresh_invalid)
      × ((refresh svc now (some token) a r w).1.db ≡ w.db)
unfolding refresh run_query get_session_by_refresh_hash get_session_by_prev_refresh_hash
refresh-unknown svc now token a r w st l p = ground (arith, st w.calls, st (w.calls + 1))

-- A previous token is answered with the reuse error, and the session it belonged to is revoked:
-- no row with that session's id is live afterwards.
pub refresh-replay :
    (svc : Service) (now token : ℕ) (a r : Option ℕ) (s : Session) (w : World)
    → IsSteady w
    → find_row (live_refresh now (svc.hash_token token)) w.db.sessions ≡ none
    → find_row (replayed (svc.hash_token token)) w.db.sessions ≡ some s
    → ((refresh svc now (some token) a r w).0 ≡ err refresh_reused)
      × ((refresh svc now (some token) a r w).1.db.sessions
          ≡ modify (λ t. t.id == s.id && is_none t.revoked_at) (revoke_at now) w.db.sessions)
unfolding refresh run_query get_session_by_refresh_hash get_session_by_prev_refresh_hash
    revoke_session send
refresh-replay svc now token a r s w st l p =
    ground (arith, st w.calls, st (w.calls + 1), st (w.calls + 1 + 1))

-- No row of the table holds the hash as its access hash.
abbrev pub access_unused : ℕ → List Session → Bool
access_unused h rows = not (any_row (λ t. t.access_token_hash == h) rows)

rotation_fits :
    (p : RotateSessionParams) (rows : List Session)
    → Unused p.refresh_token_hash rows
    → access_unused p.access_token_hash rows ≡ true
    → rotation_allowed p rows ≡ true
unfolding rotation_allowed any_row
rotation_fits p [] u a = refl
rotation_fits p (t ∷ rows) u a = ground (arith, rotation_fits p rows u.1)

-- What a successful refresh hands out.
abbrev pub handed_out : Service → ℕ → ℕ → ℕ → ℕ → Session → Refreshed
handed_out svc now token access new_refresh s = record {
  session = rotated now (rotation svc now (svc.hash_token token) access new_refresh s) s;
  access_token = access;
  refresh_token = new_refresh;
  access_expires_at = now + svc.access_ttl;
  refresh_expires_at = now + svc.refresh_ttl;
}

module _ (svc : Service) (now token access new_refresh : ℕ) (s : Session) (w : World) where
  abbrev swap : RotateSessionParams
  swap = rotation svc now (svc.hash_token token) access new_refresh s

  refresh-current :
      IsSteady w
      → Owned w.db.sessions
      → Unused (svc.hash_token new_refresh) w.db.sessions
      → access_unused (svc.hash_token access) w.db.sessions ≡ true
      → find_row (live_refresh now (svc.hash_token token)) w.db.sessions ≡ some s
      → ((refresh svc now (some token) (some access) (some new_refresh) w).0
          ≡ ok (handed_out svc now token access new_refresh s))
        × ((refresh svc now (some token) (some access) (some new_refresh) w).1.db.sessions
            ≡ swapped now (svc.hash_token token) swap refl w.db.sessions)
        × ((refresh svc now (some token) (some access) (some new_refresh) w).1.outage ≡ w.outage)
  unfolding refresh run_query get_session_by_refresh_hash rotate_session send
  refresh-current st o u a l = ground (
    arith,
    st w.calls,
    st (w.calls + 1),
    find_row-swaps now (svc.hash_token token) swap refl s w.db.sessions refl o l,
    rotation_fits swap w.db.sessions u a,
  )

-- Only rows of the session `id` hold the access hash.
abbrev pub AccessOf : ℕ → ℕ → List Session → Type 0
AccessOf h id = All (λ s. (s.access_token_hash == h && not (s.id == id)) ≡ false)

swapped-AccessOf :
    (now h : ℕ) (p : RotateSessionParams) (m : p.old_refresh_hash ≡ h) (rows : List Session)
    → access_unused p.access_token_hash rows ≡ true
    → AccessOf p.access_token_hash p.id (swapped now h p m rows)
unfolding modify any_row
swapped-AccessOf now h p m [] a = tt
swapped-AccessOf now h p m (s ∷ rows) a =
    (ground arith, swapped-AccessOf now h p m rows (ground arith))

-- Once a session is revoked, its access token is found no more.
revoked-no_access :
    (now later h id : ℕ) (rows : List Session)
    → AccessOf h id rows
    → find_row
        (live_access later h)
        (modify (λ t. t.id == id && is_none t.revoked_at) (revoke_at now) rows)
      ≡ none
unfolding modify find_row
revoked-no_access now later h id [] a = refl
revoked-no_access now later h id (s ∷ rows) a =
    ground (arith, a.0, revoked-no_access now later h id rows a.1)

resolve-unauthorized :
    (svc : Service) (now token : ℕ) (w : World)
    → IsSteady w
    → find_row (live_access now (svc.hash_token token)) w.db.sessions ≡ none
    → (resolve svc now (some token) w).0 ≡ err unauthorized
unfolding resolve run_query get_session_by_access_hash
resolve-unauthorized svc now token w st e = ground (arith, st w.calls)

refresh-outage :
    (svc : Service) (now : ℕ) (token a r : Option ℕ) (w : World)
    → (refresh svc now token a r w).1.outage ≡ w.outage
unfolding refresh run_query send
refresh-outage svc now token a r w = ground arith

-- Rotation with reuse detection. A refresh with the current token of a live session hands out the
-- new tokens. If the old token is presented again, at any later time, as long as the row of the
-- session is as the refresh returned it, whatever becomes of the other sessions, the answer is the
-- reuse error, no row of the session is live afterwards, and the access token that had been handed
-- out is refused. The hypotheses: no call of the database fails, in the table of either request every
-- refresh hash belongs to one row, the hashes of the two new tokens are not in the table of the
-- first, and no other session has the hash of the access token in that of the second.
pub refresh_twice :
    (svc : Service) (now later after token access new_refresh : ℕ) (a r : Option ℕ) (s : Session)
    (w between : World)
    → IsSteady w
    → Owned w.db.sessions
    → Unused (svc.hash_token new_refresh) w.db.sessions
    → access_unused (svc.hash_token access) w.db.sessions ≡ true
    → find_row (live_refresh now (svc.hash_token token)) w.db.sessions ≡ some s
    → IsSteady between
    → Owned between.db.sessions
    → AccessOf (svc.hash_token access) s.id between.db.sessions
    → find_row (λ t. t.id == s.id) between.db.sessions
      ≡ some (handed_out svc now token access new_refresh s).session
    → let (first, w₁) = refresh svc now (some token) (some access) (some new_refresh) w in
      let (second, w₂) = refresh svc later (some token) a r between in
      (first ≡ ok (handed_out svc now token access new_refresh s))
      × (second ≡ err refresh_reused)
      × All (λ t. (t.id == s.id && is_none t.revoked_at) ≡ false) w₂.db.sessions
      × ((resolve svc after (some access) w₂).0 ≡ err unauthorized)
refresh_twice svc now later after token access new_refresh a r s w between st o u ua l st' o' ao k =
    let h = svc.hash_token token in
    let row = (handed_out svc now token access new_refresh s).session in
    let w₂ = (refresh svc later (some token) a r between).1 in
    let first = (refresh-current svc now token access new_refresh s w st o u ua l).0 in
    let live = find_row-holds (live_refresh now h) w.db.sessions s l in
    let unrevoked : row.revoked_at ≡ none = ground (arith, live) in
    let (second, rows₂) =
      refresh-replay svc later token a r row between st'
        (previous-not_live h s.id row refl later between.db.sessions o' k)
        (previous-replayed h s.id row refl between.db.sessions unrevoked o' k) in
    (
      first,
      second,
      subst (All (λ t. (t.id == s.id && is_none t.revoked_at) ≡ false)) (sym rows₂)
          (revoke-All later s.id between.db.sessions),
      resolve-unauthorized svc after access w₂
          (subst (λ f. (n : ℕ) → f n ≡ false)
            (sym (refresh-outage svc later (some token) a r between)) st')
          (subst (λ rows. find_row (live_access after (svc.hash_token access)) rows ≡ none)
            (sym rows₂)
            (revoked-no_access later after (svc.hash_token access) s.id between.db.sessions ao)),
    )
