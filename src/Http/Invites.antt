-- ===== src/Http/Invites.antt =====
-- The handlers of server/internal/httpapi/invites.go.
pub mod Accepting
pub mod Ttl
use aul_private_location.Base.{
  ℕ, ◌+◌, ◌*◌, ◌-◌, ◌%◌, List, Bool, true, false, not, ◌&&◌, ◌||◌, Option, none, some, ◌==◌, ltb,
  leb, if◌then◌else◌, ℤ, pos, negsuc,
}
use aul_private_location.Store.Schema.{
  Invite, CircleMember, Role, owner, member, guardian, Status, ns_per_ms, stime,
}
use aul_private_location.Store.{
  DbError, no_rows, unavailable, Outcome, ok, err, World, Act, stop, pure, ◌>>=◌, ◌>>◌, or_else,
  try, run_query, with_tx, send, audit, publish, invite_created, invite_accepted, member_changed,
}
use aul_private_location.Store.Circles.{get_membership, add_member}
use aul_private_location.Store.Invites.{
  CreateInviteParams, create_invite, get_invite, revoke_invite, list_invites_for_circle,
  consume_invite, is_active,
}
use aul_private_location.Http.{
  Handler, HttpError, bad_request, forbidden, not_found, gone, internal, any_internal,
  missing_is_404, parsed, require_owner, required,
}

abbrev pub second_ns : ℕ
second_ns = 1000 * ns_per_ms

abbrev pub day_ns : ℕ
day_ns = 24 * 3600 * second_ns

-- The role of the request: empty, or a text that is read or not.
pub data RoleField : Type 0 where
  empty_role other_role : RoleField
  named_role : Role → RoleField

pub record CreateInviteReq : Type 0 where
  pub role : RoleField
  pub max_uses : ℤ
  pub ttl_seconds : ℤ

-- `role != "member" && role != "guardian"` is refused; an empty role is a member.
invited_role : RoleField → Option Role
invited_role empty_role = some member
invited_role other_role = none
invited_role (named_role owner) = none
invited_role (named_role member) = some member
invited_role (named_role guardian) = some guardian

-- `max_uses <= 0` means 1, and more than 1000 is refused.
invited_uses : ℤ → Option ℕ
invited_uses (negsuc n) = some 1
invited_uses (pos n) = if n == 0 then some 1 else if ltb 1000 n then none else some n

-- `time.Duration(seconds) * time.Second` on int64, whose product wraps: its 64 bits.
abbrev pub int64_half : ℕ
int64_half = 9223372036854775808

abbrev pub int64_mod : ℕ
int64_mod = 18446744073709551616

unfoldable pub duration_bits : ℤ → ℕ
duration_bits (pos n) = (n * second_ns) % int64_mod
duration_bits (negsuc n) = (int64_mod - (((n + 1) * second_ns) % int64_mod)) % int64_mod

-- The time to live: seven days when the product is not positive, none when it exceeds thirty.
unfoldable pub invite_ttl : ℤ → Option ℕ
unfolding duration_bits
invite_ttl seconds =
    let bits = duration_bits seconds in
    if bits == 0 || leb int64_half bits
    then some (7 * day_ns)
    else if ltb (30 * day_ns) bits
    then none
    else some bits

abbrev refuse_guardian : Role → Handler (Unit {0})
refuse_guardian owner = pure tt
refuse_guardian member = pure tt
refuse_guardian guardian = stop forbidden

unfoldable pub handle_create_invite : ℕ → ℕ → CircleMember → Option CreateInviteReq → Handler Invite
unfolding invited_role invited_uses
handle_create_invite now id m body = do
  refuse_guardian m.role
  req ← required body
  role ← required (invited_role req.role)
  max_uses ← required (invited_uses req.max_uses)
  ttl ← required (invite_ttl req.ttl_seconds)
  inv ←
      or_else
        (run_query (
          create_invite now id (record {
            circle_id = m.circle_id;
            created_by = m.user_id;
            role = role;
            max_uses = max_uses;
            expires_at = now + ttl;
          })))
        any_internal
  send (audit invite_created)
  pure inv

unfoldable pub handle_list_invites : ℕ → CircleMember → Handler (List Invite)
handle_list_invites now m =
    or_else (run_query (list_invites_for_circle now m.circle_id)) any_internal

unfoldable pub handle_revoke_invite : CircleMember → Option ℕ → Handler (Unit {0})
handle_revoke_invite m param = do
  require_owner m.role
  id ← parsed bad_request param
  or_else (run_query (revoke_invite id m.circle_id)) any_internal

-- What a prospective member is shown; `ExpiresAt` is stored in milliseconds.
pub record InviteStatus : Type 0 where
  pub circle_id : ℕ
  pub role : Role
  pub expires_at : ℕ
  pub valid : Bool

abbrev pub is_valid : ℕ → Invite → Bool
is_valid now inv =
    is_active inv.status && ltb now (stime inv.expires_at) && ltb inv.uses inv.max_uses

unfoldable pub handle_get_invite : ℕ → Option ℕ → Handler InviteStatus
handle_get_invite now param = do
  id ← parsed bad_request param
  inv ← or_else (run_query (get_invite id)) missing_is_404
  pure (record {
    circle_id = inv.circle_id;
    role = inv.role;
    expires_at = stime inv.expires_at;
    valid = is_valid now inv;
  })

pub data Accepted : Type 0 where
  already_member : ℕ → Accepted
  joined : ℕ → Role → Accepted

abbrev gone_error : DbError → HttpError
gone_error no_rows = gone
gone_error unavailable = internal

-- The transaction: one use of the invite is consumed, and the caller joins with its role.
unfoldable pub consume_and_join : ℕ → ℕ → ℕ → Act DbError Role
consume_and_join now id user = do
  consumed ← run_query (consume_invite now id)
  run_query (add_member now consumed.circle_id user consumed.role)
  pure consumed.role

join_unless_member : ℕ → ℕ → ℕ → Invite → Outcome DbError CircleMember → Handler Accepted
join_unless_member now user id inv (ok m) = pure (already_member inv.circle_id)
join_unless_member now user id inv (err unavailable) = stop internal
join_unless_member now user id inv (err no_rows) = do
  role ← or_else (with_tx (consume_and_join now id user)) gone_error
  send (audit invite_accepted)
  send (publish member_changed inv.circle_id)
  pure (joined inv.circle_id role)

unfoldable pub handle_accept_invite : ℕ → ℕ → Option ℕ → Handler Accepted
unfolding join_unless_member
handle_accept_invite now user param = do
  id ← parsed bad_request param
  inv ← or_else (run_query (get_invite id)) missing_is_404
  membership ← try (run_query (get_membership inv.circle_id user))
  join_unless_member now user id inv membership
