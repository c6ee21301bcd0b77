-- ===== src/Http/Accounts.antt =====
-- Who a request comes from, and the handlers that end sessions: server/internal/auth/middleware.go
-- and server/internal/httpapi/auth_handlers.go. The tokens of the Authorization header and of the
-- cookie are given as found, `none` where there is none; the cookies of an answer are left out.
pub mod Revoking
pub mod Login
pub mod Guessing
mod Examples
use aul_private_location.Base.{ℕ, Option, none, some, List, ◌==◌, select}
use aul_private_location.Store.Schema.{User, Device}
use aul_private_location.Store.{pure, ◌>>=◌, ◌>>◌, or_else, run_query}
use aul_private_location.Store.Accounts.{get_user_by_id, list_devices_for_user}
use aul_private_location.Auth.{
  AuthError, device_not_found, Service, resolve, log_out, revoke_device,
}
use aul_private_location.Http.{
  HttpError, unauthorized, not_found, bad_request, internal, any_internal, Handler, parsed,
}

-- The token of the header is preferred to that of the cookie.
abbrev pub token_of : Option ℕ → Option ℕ → Option ℕ
token_of none cookie = cookie
token_of (some token) cookie = some token

abbrev pub refused : AuthError → HttpError
refused _ = unauthorized

-- `RequireAuth`: the user, the device and the session that the handlers see.
unfoldable pub require_auth : Service → ℕ → Option ℕ → Option ℕ → Handler (ℕ × ℕ × ℕ)
require_auth svc now bearer cookie = or_else (resolve svc now (token_of bearer cookie)) refused

abbrev failed_logout : AuthError → HttpError
failed_logout _ = internal

unfoldable pub handle_logout : ℕ → ℕ → Handler (Unit {0})
handle_logout now session = or_else (log_out now session) failed_logout

-- `errors.Is(err, ErrDeviceNotFound)` answers 404, and any other error 500.
abbrev pub missing_device : AuthError → HttpError
missing_device device_not_found = not_found
missing_device _ = internal

unfoldable pub handle_revoke_device : ℕ → ℕ → Option ℕ → Handler (Unit {0})
handle_revoke_device now user device = do
  id ← parsed bad_request device
  or_else (revoke_device now user id) missing_device

unfoldable pub handle_me : ℕ → Handler (ℕ × ℕ)
handle_me user = do
  found ← or_else (run_query (get_user_by_id user)) any_internal
  pure (found.id, found.email)

unfoldable pub handle_list_devices : ℕ → Handler (List Device)
handle_list_devices user = or_else (run_query (list_devices_for_user user)) any_internal
