-- ===== src/Auth/SignIn/Devices.antt =====
-- The device of a sign-in belongs to the account.
use aul_private_location.Base.{
  ℕ, ◌+◌, ◌≡◌, ◌&&◌, Option, none, some, List, [], ◌∷◌, arith, ◌==◌, ==_iff, same_text, length,
  find_row, find_row-holds, select, All, All-find_row, if-All, Bool-cases, Option-cases, inl, inr,
}
use aul_private_location.Store.Schema.{Device, Platform}
use aul_private_location.Store.{ok, World, run_query}
use aul_private_location.Store.Accounts.{list_devices_for_user, create_device}
use aul_private_location.Auth.{get_device_for_user, device_error}
use aul_private_location.Auth.Validation.{public_key_length}
use aul_private_location.Auth.SignIn.{
  Drawn, SignInInput, new_device_of, adopt_key, device_or_new, same_key_device, device_by_id,
}

users_devices :
    (user : ℕ) (rows : List Device)
    → All (λ d. d.user_id ≡ user) (select (λ d. d.user_id == user) rows)
unfolding select
users_devices user [] = tt
users_devices user (d ∷ rows) =
    if-All (λ d. d.user_id ≡ user) (d.user_id == user) d (select (λ d. d.user_id == user) rows)
      (λ e. (==_iff d.user_id user).0 e) (users_devices user rows)

pub new_device_of-own :
    (now : ℕ) (drawn : Drawn) (user : ℕ) (platform : Platform) (input : SignInInput) (w : World)
    (d : Device)
    → (new_device_of now drawn user platform input w).0 ≡ ok d
    → d.user_id ≡ user
unfolding run_query create_device
new_device_of-own now drawn user platform input w d e = ground arith

same_key-own :
    (now : ℕ) (drawn : Drawn) (user : ℕ) (platform : Platform) (input : SignInInput) (w : World)
    (d : Device)
    → (same_key_device now drawn user platform input w).0 ≡ ok d
    → d.user_id ≡ user
unfolding same_key_device device_or_new run_query list_devices_for_user
same_key-own now drawn user platform input w d e =
    let owned = select (λ d. d.user_id == user) w.db.devices in
    let listed : World = record w { calls = w.calls + 1 } in
    elim (Bool-cases (length input.pubkey == public_key_length)) [
      | inl k ↦ elim (Option-cases (find_row (λ d. same_text d.pubkey input.pubkey) owned)) [
        | inl n ↦ new_device_of-own now drawn user platform input listed d (ground arith)
        | inr (x, f) ↦
            let own =
              All-find_row (λ d. d.user_id ≡ user) (λ d. same_text d.pubkey input.pubkey) owned x
                (users_devices user w.db.devices) f in
            ground (arith, own)
      ]
      | inr k ↦ new_device_of-own now drawn user platform input w d (ground arith)
    ]

pub resolve-own :
    (now : ℕ) (drawn : Drawn) (user : ℕ) (platform : Platform) (input : SignInInput) (id : Option ℕ)
    (w : World) (d : Device)
    → (device_by_id now drawn user platform input id w).0 ≡ ok d
    → d.user_id ≡ user
unfolding device_by_id run_query get_device_for_user device_error adopt_key
resolve-own now drawn user platform input (some id) w d e =
    elim (Option-cases (find_row (λ d. d.id == id && d.user_id == user) w.db.devices)) [
      | inl n ↦ ground arith
      | inr (x, f) ↦
          let own = find_row-holds (λ d. d.id == id && d.user_id == user) w.db.devices x f in
          ground (arith, own, ==_iff x.user_id user)
    ]
resolve-own now drawn user platform input none w d e =
    same_key-own now drawn user platform input w d e
