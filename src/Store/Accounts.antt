-- ===== src/Store/Accounts.antt =====
-- The user and device queries of server/internal/store/sqlite_queries.go (users.sql, devices.sql).
use aul_private_location.Base.{
  ℕ, Bool, not, ◌&&◌, Option, none, some, List, [], ◌∷◌, ◌++◌, ◌==◌, if◌then◌else◌, find_row,
  select, modify, any_row,
}
use aul_private_location.Store.Schema.{User, Device, Platform, CircleMember, tv}
use aul_private_location.Store.{unavailable, ok, err, Query, one_row}

abbrev pub new_user : ℕ → ℕ → ℕ → ℕ → User
new_user now id email pass_hash = record {
  id = id;
  email = email;
  pass_hash = pass_hash;
  created_at = tv now;
  updated_at = tv now;
}

abbrev pub has_email : ℕ → User → Bool
has_email email u = u.email == email

-- The primary key and the unique `email`.
unfoldable pub create_user : ℕ → ℕ → ℕ → ℕ → Query User
create_user now id email pass_hash db =
    if any_row (λ u. u.id == id) db.users
    then (err unavailable, db)
    else if any_row (has_email email) db.users
    then (err unavailable, db)
    else (
      ok (new_user now id email pass_hash),
      record db { users = db.users ++ new_user now id email pass_hash ∷ [] },
    )

unfoldable pub email_exists : ℕ → Query Bool
email_exists email db = (ok (any_row (has_email email) db.users), db)

unfoldable pub get_user_by_email : ℕ → Query User
get_user_by_email email db = (one_row (find_row (has_email email) db.users), db)

unfoldable pub get_user_by_id : ℕ → Query User
get_user_by_id id db = (one_row (find_row (λ u. u.id == id) db.users), db)

unfoldable pub update_user_password : ℕ → ℕ → ℕ → Query (Unit {0})
update_user_password now id pass_hash db = (
  ok tt,
  record db {
    users =
        modify (λ u. u.id == id) (λ u. record u { pass_hash = pass_hash; updated_at = tv now })
          db.users;
  },
)

pub record CreateDeviceParams : Type 0 where
  pub user_id : ℕ
  pub platform : Platform
  pub display_name : Option ℕ
  pub pubkey : List ℕ

abbrev pub new_device : ℕ → ℕ → CreateDeviceParams → Device
new_device now id p = record {
  id = id;
  user_id = p.user_id;
  platform = p.platform;
  display_name = p.display_name;
  pubkey = p.pubkey;
  push_token = none;
  created_at = tv now;
  last_seen = none;
}

unfoldable pub create_device : ℕ → ℕ → CreateDeviceParams → Query Device
create_device now id p db =
    if not (any_row (λ d. d.id == id) db.devices) && any_row (λ u. u.id == p.user_id) db.users
    then (ok (new_device now id p), record db { devices = db.devices ++ new_device now id p ∷ [] })
    else (err unavailable, db)

unfoldable pub get_device : ℕ → Query Device
get_device id db = (one_row (find_row (λ d. d.id == id) db.devices), db)

-- The devices of the users that `cm` joins; their order is not modelled.
abbrev pub belongs_to : ℕ → List CircleMember → Device → Bool
belongs_to circle members d = any_row (λ m. m.circle_id == circle && m.user_id == d.user_id) members

unfoldable pub list_circle_devices : ℕ → Query (List Device)
list_circle_devices circle db = (ok (select (belongs_to circle db.members) db.devices), db)

-- The rows of ListDevicesForUser; the order of creation is that of the table.
unfoldable pub list_devices_for_user : ℕ → Query (List Device)
list_devices_for_user user db = (ok (select (λ d. d.user_id == user) db.devices), db)

unfoldable pub set_device_pubkey : ℕ → List ℕ → Query (Unit {0})
set_device_pubkey id pubkey db = (
  ok tt,
  record db { devices = modify (λ d. d.id == id) (λ d. record d { pubkey = pubkey }) db.devices },
)

unfoldable pub touch_device : ℕ → ℕ → Query (Unit {0})
touch_device now id db = (
  ok tt,
  record db {
    devices = modify (λ d. d.id == id) (λ d. record d { last_seen = some (tv now) }) db.devices;
  },
)
