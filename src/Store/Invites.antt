-- ===== src/Store/Invites.antt =====
-- The invite queries of server/internal/store/sqlite_queries.go (invites.sql).
use aul_private_location.Base.{
  ℕ, ◌+◌, Bool, true, false, not, ◌&&◌, none, some, List, [], ◌∷◌, ◌++◌, ◌==◌, leb, ltb,
  if◌then◌else◌, find_row, select, modify, any_row, count_rows, ◌-◌,
}
use aul_private_location.Store.Schema.{
  Db, Invite, Role, owner, member, guardian, Status, active, revoked, tv,
}
use aul_private_location.Store.{no_rows, unavailable, ok, err, Query, one_row}
use aul_private_location.Store.Sessions.{hour_ns}

abbrev pub is_active : Status → Bool
is_active active = true
is_active revoked = false

-- The check on the column `role`.
abbrev pub may_invite_as : Role → Bool
may_invite_as owner = false
may_invite_as member = true
may_invite_as guardian = true

abbrev pub is_invite : ℕ → Invite → Bool
is_invite id i = i.id == id

-- The clause of ConsumeInvite.
abbrev pub consumable : ℕ → ℕ → Invite → Bool
consumable now id i =
    i.id == id && is_active i.status && ltb (tv now) i.expires_at && ltb i.uses i.max_uses

abbrev pub used_once_more : Invite → Invite
used_once_more i = record i { uses = i.uses + 1 }

unfoldable pub consume_invite : ℕ → ℕ → Query Invite
consume_invite now id db = elim (find_row (consumable now id) db.invites) [
  | none ↦ (err no_rows, db)
  | some i ↦ (
    ok (used_once_more i),
    record db { invites = modify (consumable now id) used_once_more db.invites },
  )
]

pub record CreateInviteParams : Type 0 where
  pub circle_id : ℕ
  pub created_by : ℕ
  pub role : Role
  pub max_uses : ℕ
  pub expires_at : ℕ

abbrev pub new_invite : ℕ → ℕ → CreateInviteParams → Invite
new_invite now id p = record {
  id = id;
  circle_id = p.circle_id;
  created_by = p.created_by;
  role = p.role;
  max_uses = p.max_uses;
  uses = 0;
  expires_at = tv p.expires_at;
  status = active;
  created_at = tv now;
}

-- The keys and the checks of the table.
invite_allowed : Db → ℕ → CreateInviteParams → Bool
invite_allowed db id p =
    not (any_row (is_invite id) db.invites)
    && any_row (λ c. c.id == p.circle_id) db.circles
    && any_row (λ u. u.id == p.created_by) db.users
    && may_invite_as p.role
    && leb 1 p.max_uses
    && leb p.max_uses 1000

unfoldable pub create_invite : ℕ → ℕ → CreateInviteParams → Query Invite
unfolding invite_allowed
create_invite now id p db =
    if invite_allowed db id p
    then (ok (new_invite now id p), record db { invites = db.invites ++ new_invite now id p ∷ [] })
    else (err unavailable, db)

unfoldable pub get_invite : ℕ → Query Invite
get_invite id db = (one_row (find_row (is_invite id) db.invites), db)

-- The rows of ListInvitesForCircle; their order is not modelled.
unfoldable pub list_invites_for_circle : ℕ → ℕ → Query (List Invite)
list_invites_for_circle now circle db = (
  ok (
      select (λ i. i.circle_id == circle && is_active i.status && ltb (tv now) i.expires_at)
        db.invites),
  db,
)

unfoldable pub count_recent_invites_by_user : ℕ → ℕ → Query ℕ
count_recent_invites_by_user now user db = (
  ok (count_rows (λ i. i.created_by == user && ltb (tv (now - hour_ns)) i.created_at) db.invites),
  db,
)

unfoldable pub revoke_invite : ℕ → ℕ → Query (Unit {0})
revoke_invite id circle db = (
  ok tt,
  record db {
    invites =
        modify (λ i. i.id == id && i.circle_id == circle) (λ i. record i { status = revoked })
          db.invites;
  },
)
