-- ===== src/Http/Accounts/Revoking.antt =====
-- A device that is revoked, and a session that is logged out.
use aul_private_location.Base.{
  ℕ, ◌≡◌, refl, sym, subst, ◌∙◌, Bool, false, ◌&&◌, Option, none, some, List, [], ◌∷◌, arith, ◌==◌,
  ==_iff, is_none, find_row, find_row-holds, All, All-find_row, modify, Option-cases, inl, inr,
}
use aul_private_location.Store.Schema.{Session, Device}
use aul_private_location.Store.{ok, World, run_query, send}
use aul_private_location.Store.Sessions.{
  live_access, revoke_at, revoke_session, revoke_sessions_for_device, get_session_by_access_hash,
}
use aul_private_location.Auth.{
  Service, resolve, log_out, revoke_device, get_device_for_user, device_error,
}
use aul_private_location.Auth.Tokens.{revoke-All}
use aul_private_location.Store.Transactions.{Outcome-cases}
use aul_private_location.Store.{Outcome, err}
use aul_private_location.Http.{HttpError}
use aul_private_location.Http.Accounts.{token_of, require_auth, handle_logout, handle_revoke_device}

revoke_device-All :
    (now device : ℕ) (rows : List Session)
    → let rows' =
        modify (λ s. s.device_id == device && is_none s.revoked_at) (revoke_at now) rows in
      All (λ s. (s.device_id == device && is_none s.revoked_at) ≡ false) rows'
unfolding modify
revoke_device-All now device [] = tt
revoke_device-All now device (s ∷ rows) = (ground arith, revoke_device-All now device rows)

-- A row that is found by a token is not revoked, so it is none of those that are.
no_live_row :
    (p : Session → Bool) (now hash : ℕ) (r : Session) (rows : List Session)
    → find_row (live_access now hash) rows ≡ some r
    → All (λ x. (p x && is_none x.revoked_at) ≡ false) rows
    → p r ≡ false
no_live_row p now hash r rows f a =
    let live = find_row-holds (live_access now hash) rows r f in
    let not_both =
      All-find_row (λ x. (p x && is_none x.revoked_at) ≡ false) (live_access now hash) rows r a f in
    ground (arith, live, not_both)

row_of :
    (svc : Service) (now : ℕ) (token : Option ℕ) (w : World) (u d s : ℕ)
    → (resolve svc now token w).0 ≡ ok (u, d, s)
    → (hash : ℕ) × (r : Session) × (find_row (live_access now hash) w.db.sessions ≡ some r)
      × (r.user_id ≡ u)
      × (r.device_id ≡ d)
      × (r.id ≡ s)
unfolding resolve run_query get_session_by_access_hash
row_of svc now none w u d s e = ground arith
row_of svc now (some token) w u d s e =
    elim (Option-cases (find_row (live_access now (svc.hash_token token)) w.db.sessions)) [
      | inl n ↦ ground arith
      | inr (r, f) ↦ (svc.hash_token token, r, f, ground arith, ground arith, ground arith)
    ]

require_auth-row :
    (svc : Service) (now : ℕ) (bearer cookie : Option ℕ) (w : World) (u d s : ℕ)
    → (require_auth svc now bearer cookie w).0 ≡ ok (u, d, s)
    → (hash : ℕ) × (r : Session) × (find_row (live_access now hash) w.db.sessions ≡ some r)
      × (r.user_id ≡ u)
      × (r.device_id ≡ d)
      × (r.id ≡ s)
unfolding require_auth
require_auth-row svc now bearer cookie w u d s e =
    row_of svc now (token_of bearer cookie) w u d s (ground arith)

-- The request is authenticated, as the device.
abbrev pub acts_as : ℕ → Outcome HttpError (ℕ × ℕ × ℕ) → Bool
acts_as device (ok (u, d, s)) = d == device
acts_as device (err e) = false

not_revoked :
    (svc : Service) (later id : ℕ) (bearer cookie : Option ℕ) (after : World)
    → All (λ x. (x.device_id == id && is_none x.revoked_at) ≡ false) after.db.sessions
    → acts_as id (require_auth svc later bearer cookie after).0 ≡ false
not_revoked svc later id bearer cookie after gone =
    elim (Outcome-cases (require_auth svc later bearer cookie after).0) [
      | inl (x, h) ↦ ground (arith, h)
      | inr ((u, d, s), h) ↦
          let (hash, r, f, ru, rd, rs) = require_auth-row svc later bearer cookie after u d s h in
          let other = no_live_row (λ x. x.device_id == id) later hash r after.db.sessions f gone in
          ground (arith, h, other, rd)
    ]

-- After a caller has revoked a device with success, the device is one of the caller's, and no
-- request is authenticated as that device, by whichever token, at whatever time, as long as the
-- table of sessions is as the revocation left it.
pub revoke_device-refused :
    (svc : Service) (now later user : ℕ) (device bearer cookie : Option ℕ) (w after : World)
    → (handle_revoke_device now user device w).0 ≡ ok tt
    → after.db.sessions ≡ (handle_revoke_device now user device w).1.db.sessions
    → (id : ℕ) × (row : Device) × (device ≡ some id)
      × (find_row (λ x. x.id == id && x.user_id == user) w.db.devices ≡ some row)
      × (acts_as id (require_auth svc later bearer cookie after).0 ≡ false)
unfolding handle_revoke_device revoke_device run_query get_device_for_user
    revoke_sessions_for_device send device_error
revoke_device-refused svc now later user none bearer cookie w after e t = ground arith
revoke_device-refused svc now later user (some id) bearer cookie w after e t =
    elim (Option-cases (find_row (λ x. x.id == id && x.user_id == user) w.db.devices)) [
      | inl n ↦ ground arith
      | inr (row, g) ↦
          let own = find_row-holds (λ x. x.id == id && x.user_id == user) w.db.devices row g in
          let same : row.id ≡ id = ground (arith, own, ==_iff row.id id) in
          let rows : after.db.sessions
              ≡ modify (λ x. x.device_id == row.id && is_none x.revoked_at) (revoke_at now)
                  w.db.sessions =
            t ∙ ground arith in
          let gone =
            subst (All (λ x. (x.device_id == row.id && is_none x.revoked_at) ≡ false)) (sym rows)
              (revoke_device-All now row.id w.db.sessions) in
          (
            id,
            row,
            refl,
            g,
            not_revoked svc later id bearer cookie after (
                subst
                  (λ k.
                    All (λ x. (x.device_id == k && is_none x.revoked_at) ≡ false) after.db.sessions)
                  same gone),
          )
    ]

-- After a session is logged out with success, no request is authenticated as that session, as long
-- as the table of sessions is as the logout left it.
logout-refused :
    (svc : Service) (now later session : ℕ) (bearer cookie : Option ℕ) (w after : World) (u d s : ℕ)
    → (handle_logout now session w).0 ≡ ok tt
    → after.db.sessions ≡ (handle_logout now session w).1.db.sessions
    → (require_auth svc later bearer cookie after).0 ≡ ok (u, d, s)
    → (s == session) ≡ false
unfolding handle_logout log_out run_query revoke_session send
logout-refused svc now later session bearer cookie w after u d s e t a =
    let (hash, r, f, ru, rd, rs) = require_auth-row svc later bearer cookie after u d s a in
    let rows : after.db.sessions
        ≡ modify (λ x. x.id == session && is_none x.revoked_at) (revoke_at now) w.db.sessions =
      t ∙ ground arith in
    let gone =
      no_live_row (λ x. x.id == session) later hash r after.db.sessions f
        (subst (All (λ x. (x.id == session && is_none x.revoked_at) ≡ false)) (sym rows)
          (revoke-All now session w.db.sessions)) in
    ground (arith, gone, rs)
