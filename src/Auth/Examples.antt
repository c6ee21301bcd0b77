-- ===== src/Auth/Examples.antt =====
-- The theorems on sessions and on the lockout at a small database.
use aul_private_location.Base.{
  ℕ, ◌+◌, ◌≤◌, ◌≡◌, refl, true, false, ◌&&◌, none, some, [], ◌∷◌, ◌++◌, arith, ◌==◌, All, find_row,
  modify, any_row, is_none,
}
use aul_private_location.Store.Schema.{no_tables, Db, Session, LoginAttempt}
use aul_private_location.Store.{
  DbError, ok, err, World, run_query, send, audit, refresh_reuse_detected,
}
use aul_private_location.Store.Sessions.{
  RotateSessionParams, live_refresh, rotate_session, get_session_by_refresh_hash,
  get_session_by_prev_refresh_hash,
}
use aul_private_location.Auth.{
  refresh_invalid, refresh_found, refresh_reused, unauthorized, Service, refresh, resolve,
}
use aul_private_location.Auth.Reuse.{refresh_twice, handed_out}
use aul_private_location.Auth.Tokens.{Owned}
use aul_private_location.Auth.Ownership.{rotate_session-Owned}
use aul_private_location.Auth.Rotation.{double_spend, refresh_sound}
use aul_private_location.Auth.Lockout.{
  default_lockout, check_lockout, record_attempt, locked_account,
}
use aul_private_location.Auth.Lockout.Limits.{account_locked, success_unlocks, failures}

abbrev phone : Session
phone = record {
  id = 7;
  user_id = 1;
  device_id = 2;
  access_token_hash = 1011;
  refresh_token_hash = 1012;
  prev_refresh_hash = none;
  access_expires_at = 1000;
  refresh_expires_at = 2000;
  revoked_at = none;
  created_at = 0;
  rotated_at = 0;
}

abbrev steady : Db → World
steady db = record { db = db; outage = λ n. false; calls = 0; sent = [] }

abbrev signed_in : World
signed_in = steady (record no_tables { sessions = phone ∷ [] })

-- The hash of a token adds 1000 to it, so the current refresh token is 12.
abbrev service : Service
service = record { hash_token = λ t. t + 1000; access_ttl = 900000000; refresh_ttl = 2592000000000 }

abbrev after_first : Db
after_first = (refresh service 0 (some 12) (some 21) (some 22) signed_in).1.db

-- What the first refresh leaves, and another session that is opened before the replay.
abbrev replayed_later : World
replayed_later = steady (record no_tables {
  sessions =
      (handed_out service 0 12 21 22 phone).session
      ∷ record phone { id = 8; access_token_hash = 1051; refresh_token_hash = 1052 }
      ∷ [];
})

refresh_twice_example :
    let (first, w₁) = refresh service 0 (some 12) (some 21) (some 22) signed_in in
    let (second, w₂) = refresh service 5000000 (some 12) none none replayed_later in
    (first ≡ ok (handed_out service 0 12 21 22 phone))
    × (second ≡ err refresh_reused)
    × All (λ t. (t.id == 7 && is_none t.revoked_at) ≡ false) w₂.db.sessions
    × ((resolve service 6000000 (some 21) w₂).0 ≡ err unauthorized)
unfolding find_row any_row
refresh_twice_example =
    refresh_twice service 0 5000000 6000000 12 21 22 none none phone signed_in replayed_later
      (λ n. refl) (refl, tt, tt) (refl, tt) refl refl (λ n. refl)
      (
        refl,
        (record { ids = refl; current = refl; current' = refl; previous = λ h. ground arith }, tt),
        (refl, tt, tt),
      )
      (refl, (refl, tt)) refl

-- A token that was rotated twice ago is only unknown: presenting it revokes nothing.
abbrev two_later : World
two_later = (refresh service 5000000 (some 22) (some 31) (some 32) (steady after_first)).1

oldest_token :
    refresh service 6000000 (some 12) none none two_later
    ≡ (err refresh_invalid, record two_later { calls = two_later.calls + 2 })
unfolding refresh find_row any_row run_query get_session_by_refresh_hash rotate_session modify send
    get_session_by_prev_refresh_hash
oldest_token = refl

abbrev swap_to : ℕ → RotateSessionParams
swap_to fresh = record {
  id = 7;
  access_token_hash = fresh + 1000;
  refresh_token_hash = fresh + 1001;
  access_expires_at = 900000000;
  refresh_expires_at = 2592000000000;
  old_refresh_hash = 1012;
}

double_spend_example :
    let (second, w₂) =
      refresh_found service 3000000 1012 (some 31) (some 32) (ok phone) (steady after_first) in
    (second ≡ err refresh_reused)
    × All (λ t. (t.id == 7 && is_none t.revoked_at) ≡ false) w₂.db.sessions
    × (w₂.sent ≡ [] ++ audit refresh_reuse_detected ∷ [])
unfolding find_row any_row refresh_found rotate_session run_query send modify refresh
    get_session_by_refresh_hash
double_spend_example =
    double_spend service 0 3000000 1012 21 22 31 32 phone signed_in (steady after_first)
      (handed_out service 0 12 21 22 phone) refl refl (λ n. refl) refl

refresh_sound_example :
    (s : Session) × (find_row (live_refresh 0 1012) signed_in.db.sessions ≡ some s) × (7 ≡ s.id)
unfolding refresh run_query get_session_by_refresh_hash find_row rotate_session any_row send
refresh_sound_example =
    refresh_sound service 0 12 (some 21) (some 22) signed_in (handed_out service 0 12 21 22 phone)
      refl

abbrev failure : ℕ → LoginAttempt
failure time = record { email = some 3; ip = none; success = false; created_at = time }

-- The clock reads 1,000 seconds, in nanoseconds.
abbrev clock : ℕ
clock = 1000000000000

abbrev attacked : World
attacked = steady (record no_tables {
  login_attempts =
      failure 999001 ∷ failure 999002 ∷ failure 999003 ∷ failure 999004 ∷ failure 999005 ∷ [];
})

account_locked_example :
    let (r, w') = check_lockout default_lockout clock 3 none attacked in
    ((t : ℕ)
      → r ≡ ok (locked_account t)
      → (5 ≤ failures default_lockout clock 3 attacked) × (1 ≤ t) × (t ≤ 900000000000))
    × (attacked.outage 0 ≡ false
        → 5 ≤ failures default_lockout clock 3 attacked
        → (t : ℕ) × (r ≡ ok (locked_account t)))
    × (w'.db ≡ attacked.db)
account_locked_example = account_locked default_lockout clock 3 none attacked (omega arith)

success_unlocks_example : ¬ (
    (check_lockout default_lockout
      (clock + 5000000)
      3
      none
      (record_attempt {E = DbError} true clock 3 none true attacked).1).0
    ≡ ok (locked_account 30000000000))
success_unlocks_example =
    success_unlocks default_lockout true clock (clock + 5000000) 3 none none attacked (omega arith)
      (omega arith, (omega arith, (omega arith, (omega arith, (omega arith, tt))))) refl 30000000000

rotate_session-Owned_example : Owned (rotate_session 0 (swap_to 21) signed_in.db).1.sessions
rotate_session-Owned_example =
    rotate_session-Owned 0 (swap_to 21) signed_in.db (refl, tt, tt) (refl, tt)
