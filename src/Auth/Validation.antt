-- ===== src/Auth/Validation.antt =====
-- The input checks of server/internal/auth/validate.go and of service.go. A text is a
-- number; `Texts` stands for what the Go libraries and the crypto package do with texts.
use aul_private_location.Base.{
  ℕ, Bool, not, ◌&&◌, ◌||◌, Option, none, some, List, ◌==◌, ltb, if◌then◌else◌, length,
}
use aul_private_location.Store.{Act, stop, pure}
use aul_private_location.Auth.{AuthError, weak_password, password_too_long, invalid_pubkey}

-- strings.ToLower of strings.TrimSpace, len, utf8.ValidString, mail.ParseAddress, and
-- crypto.VerifyPassword, whose results are whether the password is right and the hash outdated.
pub record Texts : Type 0 where
  pub lower_trimmed : ℕ → ℕ
  pub size : ℕ → ℕ
  pub valid_utf8 : ℕ → Bool
  pub parse_address : ℕ → Option ℕ
  pub verify_password : ℕ → ℕ → Option (Bool × Bool)

abbrev pub max_email_len : ℕ
max_email_len = 254

abbrev pub min_password_len : ℕ
min_password_len = 8

abbrev pub max_password_len : ℕ
max_password_len = 1024

abbrev pub public_key_length : ℕ
public_key_length = 32

abbrev same_address : ℕ → Option ℕ → Option ℕ
same_address e none = none
same_address e (some a) = if a == e then some e else none

unfoldable pub validate_email : Texts → ℕ → Option ℕ
validate_email t email =
    let e = t.lower_trimmed email in
    if t.size e == 0 || ltb max_email_len (t.size e)
    then none
    else same_address e (t.parse_address e)

unfoldable pub validate_password : Texts → ℕ → Act AuthError (Unit {0})
validate_password t password =
    if not (t.valid_utf8 password)
    then stop weak_password
    else if ltb (t.size password) min_password_len
    then stop weak_password
    else if ltb max_password_len (t.size password)
    then stop password_too_long
    else pure tt

abbrev pub valid : {A : Type 0} → AuthError → Option A → Act AuthError A
valid e none = stop e
valid e (some a) = pure a

unfoldable pub validate_pubkey : List ℕ → Act AuthError (Unit {0})
validate_pubkey pk =
    if not (length pk == 0) && not (length pk == public_key_length)
    then stop invalid_pubkey
    else pure tt
