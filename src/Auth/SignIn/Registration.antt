-- ===== src/Auth/SignIn/Registration.antt =====
-- What a registration leaves.
use aul_private_location.Base.{
  ℕ, ◌≡◌, refl, sym, ap, subst, ◌∙◌, true, false, Option, none, some, List, [], ◌∷◌, ◌++◌, arith,
  ◌==◌, ==_refl, find_row, any_row, Bool-cases, Option-cases, inl, inr,
}
use aul_private_location.Store.Schema.{Db, User, Platform}
use aul_private_location.Store.{ok, err, World, run_query, with_tx_as, send}
use aul_private_location.Store.Transactions.{
  Outcome-cases, begun, with_tx_as-commits, with_tx_as_atomic,
}
use aul_private_location.Store.Accounts.{
  create_user, email_exists, has_email, new_user, create_device,
}
use aul_private_location.Store.Sessions.{create_session}
use aul_private_location.Auth.{AuthError, Service, any_error, issue_session}
use aul_private_location.Auth.Validation.{Texts, validate_email, validate_password, validate_pubkey}
use aul_private_location.Auth.SignIn.{
  Drawn, SignInInput, SignedIn, signed_in, new_device_of, create_account, check_registration,
  register_user,
}
use aul_private_location.Auth.SignIn.Devices.{new_device_of-own}
use aul_private_location.Auth.SignIn.Issuing.{Issued, issue_session-Issued}

check_registration-reads :
    (t : Texts) (now : ℕ) (drawn : Drawn) (input : SignInInput) (w : World)
    → (check_registration t now drawn input w).1.db ≡ w.db
unfolding check_registration validate_password validate_pubkey run_query email_exists
check_registration-reads t now drawn input w = elim (Option-cases (validate_email t input.email)) [
  | inl n ↦ ground arith
  | inr (email, f) ↦ ground arith
]

-- A registration that is refused, for whatever reason and whichever call of the database fails,
-- leaves no account, no device and no session.
pub register_atomic :
    (svc : Service) (t : Texts) (now : ℕ) (drawn : Drawn) (input : SignInInput) (w : World)
    (e : AuthError)
    → (register_user svc t now drawn input w).0 ≡ err e
    → (register_user svc t now drawn input w).1.db ≡ w.db
unfolding register_user send
register_atomic svc t now drawn input w e h =
    let checks = check_registration t now drawn input w in
    let read = check_registration-reads t now drawn input w in
    elim (Outcome-cases checks.0) [
      | inl (x, f) ↦ ground (arith, read)
      | inr (c, f) ↦
          let body = create_account svc now drawn c.0 c.2 c.1 input in
          elim (Outcome-cases (with_tx_as any_error body checks.1).0) [
            | inl (x, i) ↦ ground (arith, read, with_tx_as_atomic any_error body checks.1 x i)
            | inr (r, i) ↦ ground arith
          ]
    ]

find_row-added :
    (email : ℕ) (u : User) (rows : List User)
    → (u.email == email) ≡ true
    → any_row (has_email email) rows ≡ false
    → find_row (has_email email) (rows ++ u ∷ []) ≡ some u
unfolding find_row any_row
find_row-added email u [] h a = ground arith
find_row-added email u (x ∷ rows) h a = ground (arith, find_row-added email u rows)

new_device_of-users :
    (now : ℕ) (drawn : Drawn) (user : ℕ) (platform : Platform) (input : SignInInput) (w : World)
    → (new_device_of now drawn user platform input w).1.db.users ≡ w.db.users
unfolding run_query create_device
new_device_of-users now drawn user platform input w = ground arith

issue_session-users :
    (svc : Service) (now id user device : ℕ) (access fresh : Option ℕ) (w : World)
    → (issue_session svc now id user device access fresh w).1.db.users ≡ w.db.users
unfolding issue_session run_query create_session
issue_session-users svc now id user device none fresh w = refl
issue_session-users svc now id user device (some a) none w = refl
issue_session-users svc now id user device (some a) (some f) w = ground arith

-- What the transaction of a registration leaves.
pub record Account (svc : Service) (now email hash : ℕ) (r : SignedIn) (old new : Db) : Type 0 where
  fresh : any_row (has_email email) old.users ≡ false
  added : new.users ≡ old.users ++ r.user ∷ []
  there : find_row (has_email email) new.users ≡ some r.user
  hashed : r.user.pass_hash ≡ hash
  own : r.device.user_id ≡ r.user.id
  issued : Issued svc now r.user.id r.device.id r.tokens new

create_user-added :
    (now id email hash : ℕ) (w : World) (u : User)
    → (run_query (create_user now id email hash) w).0 ≡ ok u
    → (any_row (has_email email) w.db.users ≡ false)
      × (find_row (has_email email) (run_query (create_user now id email hash) w).1.db.users
          ≡ some u)
      × (u.pass_hash ≡ hash)
      × ((run_query (create_user now id email hash) w).1.db.users ≡ w.db.users ++ u ∷ [])
unfolding run_query create_user
create_user-added now id email hash w u e =
    elim (Bool-cases (any_row (has_email email) w.db.users)) [
      | inl h ↦ ground arith
      | inr h ↦ (
        h,
        ground (arith, find_row-added email (new_user now id email hash) w.db.users, ==_refl email),
        ground arith,
        ground arith,
      )
    ]

moved-Account :
    (svc : Service) (now email hash : ℕ) (old : Db) {r q : SignedIn} {new kept : Db}
    → q ≡ r
    → kept ≡ new
    → Account svc now email hash q old kept
    → Account svc now email hash r old new
moved-Account svc now email hash old {q = q} {new = new} same final a =
    subst (λ r. Account svc now email hash r old new) same
      (subst (λ db. Account svc now email hash q old db) final a)

create_account-Account :
    (svc : Service) (now : ℕ) (drawn : Drawn) (email hash : ℕ) (platform : Platform)
    (input : SignInInput) (w : World) (r : SignedIn)
    → (create_account svc now drawn email hash platform input w).0 ≡ ok r
    → Account svc now email hash r w.db
        (create_account svc now drawn email hash platform input w).1.db
unfolding create_account
create_account-Account svc now drawn email hash platform input w r e =
    let made = run_query (create_user now drawn.user_id email hash) w in
    elim (Outcome-cases made.0) [
      | inl (x, h) ↦ ground arith
      | inr (u, h) ↦
          let device = new_device_of now drawn u.id platform input made.1 in
          elim (Outcome-cases device.0) [
            | inl (x, i) ↦ ground arith
            | inr (d, i) ↦
                let issue =
                  issue_session svc now drawn.session_id u.id d.id drawn.access drawn.refresh
                    device.1 in
                elim (Outcome-cases issue.0) [
                  | inl (x, j) ↦ ground arith
                  | inr (q, j) ↦
                      let same : signed_in u d q ≡ r = ground arith in
                      let final : (create_account svc now drawn email hash platform input w).1.db
                          ≡ issue.1.db =
                        ground arith in
                      let (unused, added, with_hash, one_more) =
                        create_user-added now drawn.user_id email hash w u h in
                      let users =
                        issue_session-users svc now drawn.session_id u.id d.id drawn.access
                          drawn.refresh device.1
                        ∙ new_device_of-users now drawn u.id platform input made.1 in
                      moved-Account svc now email hash w.db same (sym final) (record {
                        fresh = unused;
                        added = users ∙ one_more;
                        there = ap (find_row (has_email email)) users ∙ added;
                        hashed = with_hash;
                        own = new_device_of-own now drawn u.id platform input made.1 d i;
                        issued =
                            issue_session-Issued svc now drawn.session_id u.id d.id drawn.access
                              drawn.refresh device.1 q j;
                      })
                ]
          ]
    ]

check_registration-email :
    (t : Texts) (now : ℕ) (drawn : Drawn) (input : SignInInput) (w : World) (c : ℕ × Platform × ℕ)
    → (check_registration t now drawn input w).0 ≡ ok c
    → (validate_email t input.email ≡ some c.0) × (drawn.hash_password input.password ≡ some c.2)
unfolding check_registration validate_password validate_pubkey run_query email_exists
check_registration-email t now drawn input w c e = (ground arith, ground arith)

-- A registration that succeeds adds exactly one account: its e-mail address is valid and was not
-- taken, it is found by that address, with what the password that was sent hashes to, its device is
-- its own, and the session is in the table, unrevoked, of that account and device, found by the token
-- that is handed out.
pub register-Account :
    (svc : Service) (t : Texts) (now : ℕ) (drawn : Drawn) (input : SignInInput) (w : World)
    (r : SignedIn)
    → (register_user svc t now drawn input w).0 ≡ ok r
    → (email : ℕ) × (validate_email t input.email ≡ some email)
      × (hash : ℕ) × (drawn.hash_password input.password ≡ some hash)
      × Account svc now email hash r w.db (register_user svc t now drawn input w).1.db
unfolding register_user send
register-Account svc t now drawn input w r e =
    let checks = check_registration t now drawn input w in
    let read = check_registration-reads t now drawn input w in
    elim (Outcome-cases checks.0) [
      | inl (x, f) ↦ ground arith
      | inr (c, f) ↦
          let body = create_account svc now drawn c.0 c.2 c.1 input in
          let (email, hash) = check_registration-email t now drawn input w c f in
          elim (Outcome-cases (with_tx_as any_error body checks.1).0) [
            | inl (x, i) ↦ ground arith
            | inr (q, i) ↦
                let tx = with_tx_as-commits any_error body checks.1 q i in
                let a =
                  create_account-Account svc now drawn c.0 c.2 c.1 input (begun checks.1) q tx.0 in
                let same : q ≡ r = ground arith in
                let final : (body (begun checks.1)).1.db
                    ≡ (register_user svc t now drawn input w).1.db =
                  ground (arith, tx.1) in
                (
                  c.0,
                  email,
                  c.2,
                  hash,
                  subst
                      (λ db.
                        Account svc now c.0 c.2 r db (register_user svc t now drawn input w).1.db)
                      read (moved-Account svc now c.0 c.2 checks.1.db same final a),
                )
          ]
    ]
