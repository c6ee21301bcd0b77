-- ===== src/Auth/SignIn/Examples.antt =====
-- A registration, and a login with its token.
use aul_private_location.Base.{
  ℕ, ◌≡◌, refl, Bool, true, false, some, none, [], ◌∷◌, arith, ◌==◌, find_row, any_row, select,
}
use aul_private_location.Store.Schema.{no_tables, web}
use aul_private_location.Store.{ok, World, run_query, with_tx_as, finish_tx_as, send}
use aul_private_location.Store.Accounts.{
  create_user, email_exists, get_user_by_email, has_email, create_device, new_user, new_device,
}
use aul_private_location.Store.Sessions.{create_session, session_allowed, new_session}
use aul_private_location.Store.LoginAttempts.{
  count_recent_failures_by_email, last_success, record_login_attempt,
}
use aul_private_location.Auth.{Service, issue_session, resolve}
use aul_private_location.Auth.Lockout.{
  default_lockout, check_lockout, check_network, unlocked, record_attempt,
}
use aul_private_location.Auth.Validation.{Texts, validate_email, validate_password, validate_pubkey}
use aul_private_location.Auth.SignIn.{
  Drawn, SignInInput, SignedIn, register_user, check_registration, create_account, login_user,
  open_session, resolve_or_create_device,
}
use aul_private_location.Auth.SignIn.Issuing.{Issued}
use aul_private_location.Auth.SignIn.Verified.{login-Issued, login_then_resolve}
use aul_private_location.Auth.SignIn.Registration.{register-Account, Account}

abbrev svc : Service
svc = record { hash_token = λ t. t; access_ttl = 900000000000; refresh_ttl = 9000000000000 }

-- A password is right when it is the number of its hash.
abbrev texts : Texts
texts = record {
  lower_trimmed = λ e. e;
  size = λ t. 9;
  valid_utf8 = λ t. true;
  parse_address = λ e. some e;
  verify_password = λ h p. some (h == p, false);
}

abbrev drawn : Drawn
drawn = record {
  user_id = 1;
  device_id = 2;
  session_id = 3;
  access = some 10;
  refresh = some 11;
  hash_password = λ p. some p;
}

abbrev input : SignInInput
input = record {
  email = 4;
  password = 5;
  platform = some web;
  display_name = none;
  device_id = none;
  pubkey = [];
  ip = none;
}

abbrev nobody : World
nobody = record { db = no_tables; outage = λ n. false; calls = 0; sent = [] }

abbrev somebody : World
somebody = record nobody { db = record no_tables { users = new_user 0 1 4 5 ∷ [] } }

abbrev result : SignedIn
result = record {
  user = new_user 0 1 4 5;
  device =
      new_device 0 2 (record { user_id = 1; platform = web; display_name = none; pubkey = [] });
  tokens = record {
    session = new_session 0 3 (record {
      user_id = 1;
      device_id = 2;
      access_token_hash = 10;
      refresh_token_hash = 11;
      access_expires_at = 900000000000;
      refresh_expires_at = 9000000000000;
    });
    access_token = 10;
    refresh_token = 11;
    access_expires_at = 900000000000;
    refresh_expires_at = 9000000000000;
  };
}

register-Account_example :
    (email : ℕ) × (validate_email texts 4 ≡ some email)
    × (hash : ℕ) × (some 5 ≡ some hash)
    × Account svc 0 email hash result no_tables (register_user svc texts 0 drawn input nobody).1.db
unfolding register_user check_registration validate_email validate_password validate_pubkey
    run_query email_exists any_row with_tx_as finish_tx_as create_account create_user create_device
    issue_session create_session session_allowed send
register-Account_example = register-Account svc texts 0 drawn input nobody result refl

login-Issued_example :
    let after = (login_user svc texts default_lockout false 0 drawn input somebody).1.db in
    ((check_lockout default_lockout 0 4 none somebody).0 ≡ ok unlocked)
    × (find_row (has_email 4) somebody.db.users ≡ some result.user)
    × (outdated : Bool) × (texts.verify_password 5 5 ≡ some (true, outdated))
    × (result.device.user_id ≡ 1)
    × Issued svc 0 1 2 result.tokens after
unfolding login_user validate_pubkey check_lockout check_network run_query
    count_recent_failures_by_email select last_success get_user_by_email find_row record_attempt
    record_login_attempt with_tx_as finish_tx_as open_session resolve_or_create_device create_device
    any_row issue_session create_session session_allowed send
login-Issued_example =
    login-Issued svc texts default_lockout false 0 drawn input somebody result refl

login_then_resolve_example :
    let after = (login_user svc texts default_lockout false 0 drawn input somebody).1 in
    (resolve svc 1000000 (some 10) after).0 ≡ ok (1, 2, 3)
unfolding login_user validate_pubkey check_lockout check_network run_query
    count_recent_failures_by_email select last_success get_user_by_email find_row record_attempt
    record_login_attempt with_tx_as finish_tx_as open_session resolve_or_create_device create_device
    any_row issue_session create_session session_allowed send
login_then_resolve_example =
    login_then_resolve svc texts default_lockout false 0 1000000 drawn input somebody
      (login_user svc texts default_lockout false 0 drawn input somebody).1 result refl refl refl
      (omega arith)
