-- ===== src/Auth/Rotation.antt =====
-- Rotating a refresh token (`Refresh` in server/internal/auth/service.go, RotateSession of the
-- store).
use aul_private_location.Base.{
  ℕ, ◌+◌, ◌≡◌, refl, sym, ap, subst, ◌∙◌, false, ◌&&◌, ◌++◌, All, is_none, Option, none, some, List,
  [], ◌∷◌, arith, ◌==◌, ==_iff, find_row, modify, find_row-cases, inl, inr, Option-cases,
}
use aul_private_location.Store.Schema.{Session, Db}
use aul_private_location.Store.{
  World, ok, err, no_rows, run_query, send, audit, refresh_reuse_detected,
}
use aul_private_location.Store.Sessions.{
  RotateSessionParams, live_refresh, swaps, rotated, rotate_session, revoke_session, revoke_at,
  get_session_by_refresh_hash, get_session_by_prev_refresh_hash,
}
use aul_private_location.Auth.{Service, Refreshed, refresh, refresh_found, refresh_reused, rotation}
use aul_private_location.Auth.Tokens.{revoke-All}

swapped-no_swap :
    (now : ℕ) (p q : RotateSessionParams) (rows : List Session)
    → (p.refresh_token_hash == q.old_refresh_hash) ≡ false
    → q.id ≡ p.id
    → q.old_refresh_hash ≡ p.old_refresh_hash
    → find_row (swaps q) (modify (swaps p) (rotated now p) rows) ≡ none
unfolding modify find_row
swapped-no_swap now p q [] n i o = refl
swapped-no_swap now p q (s ∷ rows) n i o = ground (arith, swapped-no_swap now p q rows n i o)

-- Two statements that rotate the same hash cannot both do so: after one succeeded, the other finds no
-- row and changes nothing, whatever tokens and clock it brings.
rotate_once :
    (now later : ℕ) (p q : RotateSessionParams) (db db' : Db) (s : Session)
    → q.id ≡ p.id
    → q.old_refresh_hash ≡ p.old_refresh_hash
    → (p.refresh_token_hash == p.old_refresh_hash) ≡ false
    → rotate_session now p db ≡ (ok s, db')
    → rotate_session later q db' ≡ (err no_rows, db')
unfolding rotate_session
rotate_once now later p q db db' s i o n e =
    ground (arith, swapped-no_swap now p q db.sessions (ground arith) i o)

-- Of two requests that have both looked up the same refresh token, at most one rotates it. When one has
-- handed out tokens, to a different refresh hash, and no other change of the sessions comes between,
-- the other is answered with the reuse error, no row of the session is live afterwards, and the reuse
-- is logged, whatever tokens and clock it brings. No call of the database fails in the second.
pub double_spend :
    (svc : Service) (now later hash access new_refresh access' new_refresh' : ℕ) (s : Session)
    (w between : World) (out : Refreshed)
    → (refresh_found svc now hash (some access) (some new_refresh) (ok s) w).0 ≡ ok out
    → between.db.sessions
      ≡ (refresh_found svc now hash (some access) (some new_refresh) (ok s) w).1.db.sessions
    → ((n : ℕ) → between.outage n ≡ false)
    → (svc.hash_token new_refresh == hash) ≡ false
    → let (second, w₂) =
        refresh_found svc later hash (some access') (some new_refresh') (ok s) between in
      (second ≡ err refresh_reused)
      × All (λ t. (t.id == s.id && is_none t.revoked_at) ≡ false) w₂.db.sessions
      × (w₂.sent ≡ between.sent ++ audit refresh_reuse_detected ∷ [])
unfolding refresh_found run_query send rotate_session revoke_session
double_spend svc now later hash access new_refresh access' new_refresh' s w between out e same st
      n =
    let p = rotation svc now hash access new_refresh s in
    let q = rotation svc later hash access' new_refresh' s in
    let rows : between.db.sessions ≡ modify (swaps p) (rotated now p) w.db.sessions =
      same ∙ ground arith in
    let gone : find_row (swaps q) between.db.sessions ≡ none =
      ap (find_row (swaps q)) rows ∙ swapped-no_swap now p q w.db.sessions n refl refl in
    let revoked : (refresh_found svc later hash (some access') (some new_refresh') (ok s)
          between).1.db.sessions
        ≡ modify (λ t. t.id == s.id && is_none t.revoked_at) (revoke_at later) between.db.sessions =
      ground (arith, gone, st between.calls, st (between.calls + 1)) in
    (
      ground (arith, gone, st between.calls, st (between.calls + 1)),
      subst (All (λ t. (t.id == s.id && is_none t.revoked_at) ≡ false)) (sym revoked)
          (revoke-All later s.id between.db.sessions),
      ground (arith, gone, st between.calls, st (between.calls + 1)),
    )

-- A successful rotation returns the row with the id that was asked for.
rotate_session-id :
    (now : ℕ) (p : RotateSessionParams) (db : Db) (s : Session)
    → (rotate_session now p db).0 ≡ ok s
    → s.id ≡ p.id
unfolding rotate_session
rotate_session-id now p db s e = elim (find_row-cases (swaps p) db.sessions) [
  | inl n ↦ ground arith
  | inr (t, f, h) ↦ ground (arith, ==_iff t.id p.id)
]

-- Whatever fails on the way, a refresh that hands out tokens was shown the current token of a live
-- session, and the session it returns is that one.
pub refresh_sound :
    (svc : Service) (now token : ℕ) (a r : Option ℕ) (w : World) (out : Refreshed)
    → (refresh svc now (some token) a r w).0 ≡ ok out
    → (s : Session) × (find_row (live_refresh now (svc.hash_token token)) w.db.sessions ≡ some s)
      × (out.session.id ≡ s.id)
unfolding refresh run_query get_session_by_refresh_hash get_session_by_prev_refresh_hash send
refresh_sound svc now token none r w out e = ground arith
refresh_sound svc now token (some a) none w out e = ground arith
refresh_sound svc now token (some a) (some r) w out e =
    elim (Option-cases (find_row (live_refresh now (svc.hash_token token)) w.db.sessions)) [
      | inl n ↦ ground arith
      | inr (s, f) ↦ (
        s,
        f,
        ground (
          arith,
          rotate_session-id now (rotation svc now (svc.hash_token token) a r s) w.db out.session,
        ),
      )
    ]
