-- ===== src/Http/Accounts/Examples.antt =====
-- Two devices of one account, and an address that has an account or none.
use aul_private_location.Base.{
  ℕ, ◌+◌, ◌≡◌, refl, true, false, ◌&&◌, none, some, [], ◌∷◌, ◌==◌, find_row, modify, List,
}
use aul_private_location.Store.Schema.{no_tables, Db, Session, Device, User, web}
use aul_private_location.Store.{World, run_query, send}
use aul_private_location.Store.Accounts.{new_user}
use aul_private_location.Store.Sessions.{revoke_sessions_for_device, get_session_by_access_hash}
use aul_private_location.Auth.{Service, revoke_device, get_device_for_user, resolve}
use aul_private_location.Auth.Lockout.{default_lockout}
use aul_private_location.Auth.Validation.{Texts}
use aul_private_location.Auth.SignIn.{Drawn}
use aul_private_location.Auth.SignIn.Enumeration.{with_users, Alike}
use aul_private_location.Http.{Base64}
use aul_private_location.Http.Accounts.{handle_revoke_device, require_auth}
use aul_private_location.Http.Accounts.Revoking.{revoke_device-refused, acts_as}
use aul_private_location.Http.Accounts.Login.{SignInReq, handle_login}
use aul_private_location.Http.Accounts.Guessing.{handle_login-Alike}

abbrev session_of : ℕ → Session
session_of device = record {
  id = device + 5;
  user_id = 1;
  device_id = device;
  access_token_hash = device + 10;
  refresh_token_hash = device + 20;
  prev_refresh_hash = none;
  access_expires_at = 1000;
  refresh_expires_at = 2000;
  revoked_at = none;
  created_at = 0;
  rotated_at = 0;
}

abbrev device_of : ℕ → Device
device_of id = record {
  id = id;
  user_id = 1;
  platform = web;
  display_name = none;
  pubkey = [];
  push_token = none;
  last_seen = none;
  created_at = 0;
}

abbrev world : Db → World
world db = record { db = db; outage = λ n. false; calls = 0; sent = [] }

abbrev two_devices : World
two_devices = world (record no_tables {
  devices = device_of 2 ∷ device_of 3 ∷ [];
  sessions = session_of 2 ∷ session_of 3 ∷ [];
})

abbrev service : Service
service = record { hash_token = λ t. t; access_ttl = 900000000; refresh_ttl = 2592000000000 }

revoke_device-refused_example :
    (id : ℕ) × (row : Device) × (some 2 ≡ some id)
    × (find_row (λ x. x.id == id && x.user_id == 1) two_devices.db.devices ≡ some row)
    × (acts_as id
          (require_auth service 5000000 none
            (some 12)
            (handle_revoke_device 0 1 (some 2) two_devices).1).0
        ≡ false)
unfolding handle_revoke_device require_auth find_row revoke_device run_query get_device_for_user
    revoke_sessions_for_device send resolve get_session_by_access_hash modify
revoke_device-refused_example =
    revoke_device-refused service 0 5000000 1 (some 2) none (some 12) two_devices
      (handle_revoke_device 0 1 (some 2) two_devices).1 refl refl

-- A password is right when it is the number of its hash.
abbrev texts : Texts
texts = record {
  lower_trimmed = λ e. e;
  size = λ t. 9;
  valid_utf8 = λ t. true;
  parse_address = λ e. some e;
  verify_password = λ h p. some (h == p, false);
}

abbrev drawn : Drawn
drawn = record {
  user_id = 1;
  device_id = 2;
  session_id = 3;
  access = some 10;
  refresh = some 11;
  hash_password = λ p. some p;
}

abbrev guess : SignInReq
guess = record {
  email = 4;
  password = 6;
  platform = some web;
  display_name = none;
  device_id = none;
  pubkey = [];
}

abbrev no_base64 : Base64
no_base64 = record { std = λ t. none; raw_std = λ t. none; url = λ t. none }

abbrev accounts : List User
accounts = new_user 0 1 4 5 ∷ []

handle_login-Alike_example :
    Alike accounts
      (new_user 0 1 4 5)
      4
      none
      (world no_tables)
      (handle_login no_base64 service texts default_lockout false 0 drawn none
        (some guess)
        (world no_tables))
      (handle_login no_base64 service texts default_lockout false 0 drawn none
        (some guess)
        (with_users accounts (world no_tables)))
unfolding find_row
handle_login-Alike_example =
    handle_login-Alike no_base64 service texts default_lockout false 0 drawn none guess accounts
      (new_user 0 1 4 5) false (world no_tables) refl refl refl
