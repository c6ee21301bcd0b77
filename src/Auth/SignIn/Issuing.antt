-- ===== src/Auth/SignIn/Issuing.antt =====
-- The session that a sign-in issues.
use aul_private_location.Base.{
  ℕ, ◌+◌, ◌≡◌, true, false, ◌||◌, Option, none, some, List, [], ◌∷◌, ◌++◌, arith, ◌==◌, ==_refl,
  find_row, any_row, Bool-cases, inl, inr,
}
use aul_private_location.Store.Schema.{Db, Session, tv}
use aul_private_location.Store.{ok, World, run_query}
use aul_private_location.Store.Sessions.{
  create_session, session_allowed, new_session, CreateSessionParams,
}
use aul_private_location.Auth.{Service, Refreshed, issue_session}

-- A session that is issued is in the table, as that of the user and the device, under the hash of the
-- token that is handed out, which no other session of the table has.
pub record Issued (svc : Service) (now user device : ℕ) (r : Refreshed) (db : Db) : Type 0 where
  pub of_user : r.session.user_id ≡ user
  pub of_device : r.session.device_id ≡ device
  pub found :
      find_row (λ s. s.access_token_hash == svc.hash_token r.access_token) db.sessions
      ≡ some r.session
  pub expires : r.session.access_expires_at ≡ tv (now + svc.access_ttl)
  pub unrevoked : r.session.revoked_at ≡ none

find_row-new :
    (hash : ℕ) (s : Session) (id refresh : ℕ) (rows : List Session)
    → (s.access_token_hash == hash) ≡ true
    → any_row
        (λ s. s.id == id || s.access_token_hash == hash || s.refresh_token_hash == refresh)
        rows
      ≡ false
    → find_row (λ s. s.access_token_hash == hash) (rows ++ s ∷ []) ≡ some s
unfolding find_row any_row
find_row-new hash s id refresh [] h a = ground arith
find_row-new hash s id refresh (x ∷ rows) h a = ground (arith, find_row-new hash s id refresh rows)

pub issue_session-Issued :
    (svc : Service) (now id user device : ℕ) (access fresh : Option ℕ) (w : World) (r : Refreshed)
    → (issue_session svc now id user device access fresh w).0 ≡ ok r
    → Issued svc now user device r (issue_session svc now id user device access fresh w).1.db
unfolding issue_session run_query create_session session_allowed
issue_session-Issued svc now id user device none fresh w r e = ground arith
issue_session-Issued svc now id user device (some a) none w r e = ground arith
issue_session-Issued svc now id user device (some a) (some f) w r e =
    elim (Bool-cases (
      any_row
        (λ s.
          s.id == id
          || s.access_token_hash == svc.hash_token a
          || s.refresh_token_hash == svc.hash_token f)
        w.db.sessions)) [
          | inl h ↦ ground arith
          | inr h ↦
              let p : CreateSessionParams = record {
                user_id = user;
                device_id = device;
                access_token_hash = svc.hash_token a;
                refresh_token_hash = svc.hash_token f;
                access_expires_at = now + svc.access_ttl;
                refresh_expires_at = now + svc.refresh_ttl;
              } in
              let there =
                find_row-new (svc.hash_token a) (new_session now id p) id (svc.hash_token f)
                  w.db.sessions (==_refl (svc.hash_token a)) h in
              record {
                of_user = ground arith;
                of_device = ground arith;
                found = ground (arith, there);
                expires = ground arith;
                unrevoked = ground arith;
              }
        ]
