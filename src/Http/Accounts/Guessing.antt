-- ===== src/Http/Accounts/Guessing.antt =====
-- What a login over HTTP tells of the accounts that exist.
use aul_private_location.Base.{
  ℕ, ◌≡◌, Bool, false, Option, none, some, List, arith, find_row, Option-cases, inl, inr,
}
use aul_private_location.Store.Schema.{User}
use aul_private_location.Store.{World}
use aul_private_location.Store.Accounts.{has_email}
use aul_private_location.Auth.{Service}
use aul_private_location.Auth.Lockout.{LockoutPolicy}
use aul_private_location.Auth.Validation.{Texts}
use aul_private_location.Auth.SignIn.{Drawn}
use aul_private_location.Auth.SignIn.Enumeration.{with_users, Alike, login-Alike}
use aul_private_location.Http.{Base64}
use aul_private_location.Http.Accounts.Login.{
  SignInReq, optional_pubkey, sign_in_input, handle_login,
}

-- Two servers that differ only in their accounts answer a login over HTTP alike, where the address
-- that is sent has no account on the first and, on the second, one whose password is not the one
-- that is sent. They give the same answer, make the same calls of the database and change the other
-- tables in the same way, whichever calls fail and whatever else the request holds. Both log nothing,
-- or one failed login each, with the address on the first and the account on the second.
pub handle_login-Alike :
    (b64 : Base64) (svc : Service) (t : Texts) (policy : LockoutPolicy) (store_ip : Bool) (now : ℕ)
    (drawn : Drawn) (ip : Option ℕ) (req : SignInReq) (users : List User) (u : User)
    (outdated : Bool) (w : World)
    → find_row (has_email (t.lower_trimmed req.email)) w.db.users ≡ none
    → find_row (has_email (t.lower_trimmed req.email)) users ≡ some u
    → t.verify_password u.pass_hash req.password ≡ some (false, outdated)
    → Alike users u
        (t.lower_trimmed req.email)
        ip
        w
        (handle_login b64 svc t policy store_ip now drawn ip (some req) w)
        (handle_login b64 svc t policy store_ip now drawn ip (some req) (with_users users w))
unfolding handle_login
handle_login-Alike b64 svc t policy store_ip now drawn ip req users u outdated w n f v =
    elim (Option-cases (optional_pubkey b64 req.pubkey)) [
      | inl p ↦ ground (arith, p)
      | inr (pubkey, p) ↦
          let alike : (device : Option ℕ) → _ = λ device.
            login-Alike svc t policy store_ip now drawn (sign_in_input req ip device pubkey) users u
              outdated w n f v in
          elim (Option-cases req.device_id) [
            | inl d ↦
                let a = alike none in
                record {
                  answer = ground (arith, p, d, a.answer);
                  tables = ground (arith, p, d, a.tables);
                  calls = ground (arith, p, d, a.calls);
                  events = ground (arith, p, d, a.events);
                }
            | inr (given, d) ↦ elim (Option-cases given) [
              | inl g ↦ ground (arith, p, d, g)
              | inr (id, g) ↦
                  let a = alike (some id) in
                  record {
                    answer = ground (arith, p, d, g, a.answer);
                    tables = ground (arith, p, d, g, a.tables);
                    calls = ground (arith, p, d, g, a.calls);
                    events = ground (arith, p, d, g, a.events);
                  }
            ]
          ]
    ]
