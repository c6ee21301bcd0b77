-- ===== src/Http/Accounts/Login.antt =====
-- Registering, signing in and refreshing over HTTP: server/internal/httpapi/auth_handlers.go. The
-- cookies of an answer are left out.
use aul_private_location.Base.{
  ℕ, Bool, true, false, Option, none, some, List, [], ◌∷◌, length, ◌==◌, if◌then◌else◌, ◌/◌,
}
use aul_private_location.Store.Schema.{Platform}
use aul_private_location.Store.{pure, ◌>>=◌, or_else}
use aul_private_location.Auth.{
  AuthError, Service, Refreshed, refresh, email_taken, invalid_credentials, refresh_invalid,
  refresh_reused, device_not_found, invalid_email, weak_password, password_too_long,
  invalid_platform, locked_out,
}
use aul_private_location.Auth.Lockout.{LockoutPolicy}
use aul_private_location.Auth.Validation.{Texts}
use aul_private_location.Auth.SignIn.{Drawn, SignInInput, SignedIn, register_user, login_user}
use aul_private_location.Http.{
  HttpError, bad_request, unauthorized, not_found, conflict, internal, too_many, Handler, parsed,
  required, Base64, decode_blob,
}
use aul_private_location.Http.Accounts.{token_of}

-- `registerReq` and `loginReq`. The public key is the text that is sent, empty where there is none; a
-- device that is no UUID is `some none`.
pub record SignInReq : Type 0 where
  pub email : ℕ
  pub password : ℕ
  pub platform : Option Platform
  pub display_name : Option ℕ
  pub device_id : Option (Option ℕ)
  pub pubkey : List ℕ

abbrev of_key_length : Option (List ℕ) → Option (List ℕ)
of_key_length none = none
of_key_length (some pk) = if length pk == 32 then some pk else none

-- `optionalPubkey`
unfoldable pub optional_pubkey : Base64 → List ℕ → Option (List ℕ)
optional_pubkey b64 [] = some []
optional_pubkey b64 (c ∷ cs) = of_key_length (decode_blob b64 64 (c ∷ cs))

-- `writeAuthError`; a lockout says after how many whole seconds to come back.
abbrev pub auth_answer : AuthError → HttpError
auth_answer (locked_out n) = too_many (n / 1000000000)
auth_answer email_taken = conflict
auth_answer invalid_credentials = unauthorized
auth_answer refresh_reused = unauthorized
auth_answer refresh_invalid = unauthorized
auth_answer device_not_found = not_found
auth_answer invalid_email = bad_request
auth_answer weak_password = bad_request
auth_answer password_too_long = bad_request
auth_answer invalid_platform = bad_request
auth_answer _ = internal

abbrev pub sign_in_input : SignInReq → Option ℕ → Option ℕ → List ℕ → SignInInput
sign_in_input req ip device pubkey = record {
  email = req.email;
  password = req.password;
  platform = req.platform;
  display_name = req.display_name;
  device_id = device;
  pubkey = pubkey;
  ip = ip;
}

-- A registration names no device.
unfoldable pub handle_register :
    Base64 → Service → Texts → ℕ → Drawn → Option ℕ → Option SignInReq → Handler SignedIn
handle_register b64 svc t now drawn ip body = do
  req ← required body
  pubkey ← required (optional_pubkey b64 req.pubkey)
  or_else (register_user svc t now drawn (sign_in_input req ip none pubkey)) auth_answer

abbrev pub named_device : Option (Option ℕ) → Handler (Option ℕ)
named_device none = pure none
named_device (some id) = parsed bad_request id >>= (λ device. pure (some device))

unfoldable pub handle_login :
    Base64
    → Service
    → Texts
    → LockoutPolicy
    → Bool
    → ℕ
    → Drawn
    → Option ℕ
    → Option SignInReq
    → Handler SignedIn
handle_login b64 svc t policy store_ip now drawn ip body = do
  req ← required body
  pubkey ← required (optional_pubkey b64 req.pubkey)
  device ← named_device req.device_id
  or_else (login_user svc t policy store_ip now drawn (sign_in_input req ip device pubkey))
      auth_answer

-- The body is decoded only where there is one; the token in it is preferred to that of the cookie.
abbrev pub refresh_body : Bool → Option (Option ℕ) → Handler (Option ℕ)
refresh_body true body = required body
refresh_body false body = pure none

unfoldable pub handle_refresh :
    Service → ℕ → Option ℕ → Option ℕ → Bool → Option (Option ℕ) → Option ℕ → Handler Refreshed
handle_refresh svc now fresh_access fresh_refresh has_body body cookie = do
  token ← refresh_body has_body body
  or_else (refresh svc now (token_of token cookie) fresh_access fresh_refresh) auth_answer
