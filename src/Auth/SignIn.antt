-- ===== src/Auth/SignIn.antt =====
-- Registration and login: server/internal/auth/service.go.
pub mod Devices
pub mod Issuing
pub mod Registration
pub mod Verified
pub mod Enumeration
mod Examples
use aul_private_location.Base.{
  ℕ, ◌+◌, Bool, true, false, not, ◌&&◌, ◌||◌, Option, none, some, List, [], ◌∷◌, ◌==◌, ltb,
  same_text, if◌then◌else◌, length, find_row,
}
use aul_private_location.Store.Schema.{User, Device, Platform}
use aul_private_location.Store.{
  DbError, no_rows, unavailable, Outcome, ok, err, World, Act, stop, pure, ◌>>=◌, ◌>>◌, or_else,
  try, ignore, run_query, with_tx_as, send, audit, register, login, login_failed,
}
use aul_private_location.Store.Accounts.{
  create_user, email_exists, get_user_by_email, update_user_password, create_device,
  list_devices_for_user, set_device_pubkey,
}
use aul_private_location.Auth.{
  AuthError, Service, Refreshed, any_error, generated, email_taken, invalid_credentials,
  invalid_email, weak_password, password_too_long, invalid_platform, invalid_pubkey, locked_out,
  device_not_found, other, get_device_for_user, device_error, issue_session,
}
use aul_private_location.Auth.Lockout.{
  LockoutPolicy, LockStatus, unlocked, locked_account, locked_network, check_lockout,
  record_attempt,
}
use aul_private_location.Auth.Validation.{
  Texts, public_key_length, validate_email, validate_password, valid, validate_pubkey,
}

-- The outcomes of uuid.New() and of crypto.GenerateToken, and crypto.HashPasswordWithParams with the
-- salt that it draws.
pub record Drawn : Type 0 where
  pub user_id : ℕ
  pub device_id : ℕ
  pub session_id : ℕ
  pub access : Option ℕ
  pub refresh : Option ℕ
  pub hash_password : ℕ → Option ℕ

-- `RegisterInput` and `LoginInput`; a platform that validatePlatform refuses is `none`, and so is a
-- name that is empty.
pub record SignInInput : Type 0 where
  pub email : ℕ
  pub password : ℕ
  pub platform : Option Platform
  pub display_name : Option ℕ
  pub device_id : Option ℕ
  pub pubkey : List ℕ
  pub ip : Option ℕ

-- `Result`
pub record SignedIn : Type 0 where
  pub user : User
  pub device : Device
  pub tokens : Refreshed

abbrev pub signed_in : User → Device → Refreshed → SignedIn
signed_in u d r = record { user = u; device = d; tokens = r }

abbrev pub new_device_of : ℕ → Drawn → ℕ → Platform → SignInInput → Act AuthError Device
new_device_of now drawn user platform input =
    or_else
      (run_query (
        create_device now drawn.device_id (record {
          user_id = user;
          platform = platform;
          display_name = input.display_name;
          pubkey = input.pubkey;
        })))
      any_error

-- The transaction of `Register`.
unfoldable pub create_account :
    Service → ℕ → Drawn → ℕ → ℕ → Platform → SignInInput → Act AuthError SignedIn
create_account svc now drawn email hash platform input = do
  user ← or_else (run_query (create_user now drawn.user_id email hash)) any_error
  device ← new_device_of now drawn user.id platform input
  tokens ← issue_session svc now drawn.session_id user.id device.id drawn.access drawn.refresh
  pure (signed_in user device tokens)

-- What is settled before the transaction: the address, the platform and the hash of the password.
unfoldable pub check_registration :
    Texts → ℕ → Drawn → SignInInput → Act AuthError (ℕ × Platform × ℕ)
check_registration t now drawn input = do
  email ← valid invalid_email (validate_email t input.email)
  validate_password t input.password
  platform ← valid invalid_platform input.platform
  validate_pubkey input.pubkey
  exists ← or_else (run_query (email_exists email)) any_error
  if exists then stop email_taken else pure tt
  hash ← generated (drawn.hash_password input.password)
  pure (email, platform, hash)

-- `Register`
unfoldable pub register_user : Service → Texts → ℕ → Drawn → SignInInput → Act AuthError SignedIn
register_user svc t now drawn input = do
  c ← check_registration t now drawn input
  r ← with_tx_as any_error (create_account svc now drawn c.0 c.2 c.1 input)
  send (audit register)
  pure r

-- A device that lacks a key adopts the one that is given.
adopt_key : SignInInput → Device → Act AuthError Device
adopt_key input device =
    if length input.pubkey == public_key_length && length device.pubkey == 0
    then or_else (run_query (set_device_pubkey device.id input.pubkey)) any_error
      >> pure (record device { pubkey = input.pubkey })
    else pure device

device_or_new : ℕ → Drawn → ℕ → Platform → SignInInput → Option Device → Act AuthError Device
device_or_new now drawn user platform input (some d) = pure d
device_or_new now drawn user platform input none = new_device_of now drawn user platform input

-- The devices with the given key, if it has the length of one.
same_key_device : ℕ → Drawn → ℕ → Platform → SignInInput → Act AuthError Device
same_key_device now drawn user platform input =
    if length input.pubkey == public_key_length
    then (or_else (run_query (list_devices_for_user user)) any_error >>= (λ existing.
        device_or_new now drawn user platform input
          (find_row (λ d. same_text d.pubkey input.pubkey) existing)))
    else new_device_of now drawn user platform input

pub device_by_id : ℕ → Drawn → ℕ → Platform → SignInInput → Option ℕ → Act AuthError Device
device_by_id now drawn user platform input none = same_key_device now drawn user platform input
device_by_id now drawn user platform input (some id) = do
  device ← or_else (run_query (get_device_for_user id user)) device_error
  adopt_key input device

-- `resolveOrCreateDevice`
unfoldable pub resolve_or_create_device :
    ℕ → Drawn → ℕ → Platform → SignInInput → Act AuthError Device
unfolding device_by_id same_key_device device_or_new adopt_key device_error
resolve_or_create_device now drawn user platform input =
    device_by_id now drawn user platform input input.device_id

-- The transaction of `Login`.
unfoldable pub open_session :
    Service → ℕ → Drawn → User → Platform → SignInInput → Act AuthError SignedIn
open_session svc now drawn user platform input = do
  device ← resolve_or_create_device now drawn user.id platform input
  tokens ← issue_session svc now drawn.session_id user.id device.id drawn.access drawn.refresh
  pure (signed_in user device tokens)

-- `LockedError`
abbrev pub refuse_locked : LockStatus → Act AuthError (Unit {0})
refuse_locked unlocked = pure tt
refuse_locked (locked_account n) = stop (locked_out n)
refuse_locked (locked_network n) = stop (locked_out n)

-- A failed attempt is recorded and logged, with the account or with the address that has none.
refuse_login : Bool → ℕ → ℕ → SignInInput → Option ℕ → Option ℕ → Act AuthError (Unit {0})
refuse_login store_ip now email input user detail = do
  record_attempt store_ip now email input.ip false
  send (audit (login_failed user input.ip detail))
  stop invalid_credentials

rehash : ℕ → User → Bool → Option ℕ → Act AuthError (Unit {0})
rehash now user true (some h) =
    ignore {E = DbError} (run_query (update_user_password now user.id h))
rehash now user true none = pure tt
rehash now user false h = pure tt

check_password :
    Bool → ℕ → Drawn → ℕ → SignInInput → User → Option (Bool × Bool) → Act AuthError (Unit {0})
check_password store_ip now drawn email input user none = stop other
check_password store_ip now drawn email input user (some (false, outdated)) =
    refuse_login store_ip now email input (some user.id) none
check_password store_ip now drawn email input user (some (true, outdated)) =
    rehash now user outdated (drawn.hash_password input.password)
    >> record_attempt store_ip now email input.ip true

check_user : Texts → Bool → ℕ → Drawn → ℕ → SignInInput → Outcome DbError User → Act AuthError User
check_user t store_ip now drawn email input (err no_rows) =
    refuse_login store_ip now email input none (some email) >> stop invalid_credentials
check_user t store_ip now drawn email input (err unavailable) = stop other
check_user t store_ip now drawn email input (ok user) =
    check_password store_ip now drawn email input user
      (t.verify_password user.pass_hash input.password)
    >> pure user

-- `Login`
unfoldable pub login_user :
    Service → Texts → LockoutPolicy → Bool → ℕ → Drawn → SignInInput → Act AuthError SignedIn
unfolding check_user check_password rehash refuse_login
login_user svc t policy store_ip now drawn input = do
  platform ← valid invalid_platform input.platform
  validate_pubkey input.pubkey
  status ← or_else (check_lockout policy now (t.lower_trimmed input.email) input.ip) any_error
  refuse_locked status
  found ← try (run_query (get_user_by_email (t.lower_trimmed input.email)))
  user ← check_user t store_ip now drawn (t.lower_trimmed input.email) input found
  r ← with_tx_as any_error (open_session svc now drawn user platform input)
  send (audit login)
  pure r
