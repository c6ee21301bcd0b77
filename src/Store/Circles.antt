-- ===== src/Store/Circles.antt =====
-- The circle and membership queries of server/internal/store/sqlite_queries.go (circles.sql). `now`
-- is the clock read by the call, `id` the value of uuid.New().
pub mod Membership
use aul_private_location.Base.{
  ℕ, ◌+◌, ◌≡◌, Bool, true, false, not, ◌&&◌, ◌||◌, Option, none, some, List, [], ◌∷◌, ◌++◌, ◌==◌,
  leb, if◌then◌else◌, find_row, select, modify, any_row, delete, count_rows, is_none, map,
}
use aul_private_location.Store.Schema.{
  Db, Circle, CircleMember, Role, owner, member, guardian, Precision, precise, Invite, Place,
  SosEvent, Ping, NotificationMute, tv,
}
use aul_private_location.Store.{DbError, no_rows, unavailable, Outcome, ok, err, Query, one_row}

abbrev pub is_owner : Role → Bool
is_owner owner = true
is_owner member = false
is_owner guardian = false

-- The primary key of circle_members.
abbrev pub is_member : ℕ → ℕ → CircleMember → Bool
is_member circle user m = m.circle_id == circle && m.user_id == user

abbrev pub is_circle : ℕ → Circle → Bool
is_circle id c = c.id == id

unfoldable pub get_membership : ℕ → ℕ → Query CircleMember
get_membership circle user db = (one_row (find_row (is_member circle user) db.members), db)

unfoldable pub get_circle : ℕ → Query Circle
get_circle id db = (one_row (find_row (is_circle id) db.circles), db)

abbrev pub new_member : ℕ → ℕ → ℕ → Role → CircleMember
new_member now circle user role = record {
  circle_id = circle;
  user_id = user;
  role = role;
  precision_mode = precise;
  joined_at = tv now;
  profile_enc = [];
}

abbrev pub with_role : Role → CircleMember → CircleMember
with_role role m = record m { role = role }

-- INSERT … ON CONFLICT DO UPDATE SET role: the two foreign keys hold, or the call fails.
unfoldable pub add_member : ℕ → ℕ → ℕ → Role → Query CircleMember
add_member now circle user role db =
    if any_row (is_circle circle) db.circles && any_row (λ u. u.id == user) db.users
    then elim (find_row (is_member circle user) db.members) [
      | none ↦ (
        ok (new_member now circle user role),
        record db { members = db.members ++ new_member now circle user role ∷ [] },
      )
      | some m ↦ (
        ok (with_role role m),
        record db { members = modify (is_member circle user) (with_role role) db.members },
      )
    ]
    else (err unavailable, db)

-- The defaults and the check of the table: retention_days between 1 and 3650.
unfoldable pub create_circle : ℕ → ℕ → List ℕ → ℕ → ℕ → Query Circle
create_circle now id name_enc retention_days created_by db =
    let c : Circle = record {
      id = id;
      name_enc = name_enc;
      retention_days = retention_days;
      key_epoch = 1;
      created_by = created_by;
      created_at = tv now;
    } in
    if not (any_row (is_circle id) db.circles)
      && any_row (λ u. u.id == created_by) db.users
      && leb 1 retention_days
      && leb retention_days 3650
    then (ok c, record db { circles = db.circles ++ c ∷ [] })
    else (err unavailable, db)

-- DELETE FROM circles, with the rows that ON DELETE CASCADE takes along.
unfoldable pub delete_circle : ℕ → Query (Unit {0})
delete_circle id db = (
  ok tt,
  record db {
    circles = delete (is_circle id) db.circles;
    members = delete (λ m. m.circle_id == id) db.members;
    invites = delete (λ i. i.circle_id == id) db.invites;
    places = delete (λ p. p.circle_id == id) db.places;
    sos_events = delete (λ e. e.circle_id == id) db.sos_events;
    pings = delete (λ p. p.circle_id == id) db.pings;
    mutes = delete (λ m. m.circle_id == id) db.mutes;
    key_envelopes = delete (λ e. e.circle_id == id) db.key_envelopes;
  },
)

abbrev pub owners_of : ℕ → List CircleMember → ℕ
owners_of circle = count_rows (λ m. m.circle_id == circle && is_owner m.role)

unfoldable pub count_owners : ℕ → Query ℕ
count_owners circle db = (ok (owners_of circle db.members), db)

unfoldable pub remove_member : ℕ → ℕ → Query (Unit {0})
remove_member circle user db =
    (ok tt, record db { members = delete (is_member circle user) db.members })

abbrev pub next_epoch : Circle → Circle
next_epoch c = record c { key_epoch = c.key_epoch + 1 }

-- UPDATE … RETURNING on the row of a circle.
update_circle : ℕ → (Circle → Circle) → Query Circle
update_circle id f db = elim (find_row (is_circle id) db.circles) [
  | none ↦ (err no_rows, db)
  | some c ↦ (ok (f c), record db { circles = modify (is_circle id) f db.circles })
]

unfoldable pub bump_circle_key_epoch : ℕ → Query Circle
unfolding update_circle
bump_circle_key_epoch id = update_circle id next_epoch

unfoldable pub update_circle_name : ℕ → List ℕ → Query Circle
unfolding update_circle
update_circle_name id name_enc = update_circle id (λ c. record c { name_enc = name_enc })

-- The check of the table is made on the row that the clause selects.
unfoldable pub update_circle_retention : ℕ → ℕ → Query Circle
unfolding update_circle
update_circle_retention id days db =
    if any_row (is_circle id) db.circles && not (leb 1 days && leb days 3650)
    then (err unavailable, db)
    else update_circle id (λ c. record c { retention_days = days }) db

-- UPDATE … RETURNING on the row of a member.
update_member : ℕ → ℕ → (CircleMember → CircleMember) → Query CircleMember
update_member circle user f db = elim (find_row (is_member circle user) db.members) [
  | none ↦ (err no_rows, db)
  | some m ↦ (ok (f m), record db { members = modify (is_member circle user) f db.members })
]

unfoldable pub set_precision_mode : ℕ → ℕ → Precision → Query CircleMember
unfolding update_member
set_precision_mode circle user mode =
    update_member circle user (λ m. record m { precision_mode = mode })

unfoldable pub set_member_role : ℕ → ℕ → Role → Query CircleMember
unfolding update_member
set_member_role circle user role = update_member circle user (with_role role)

unfoldable pub set_member_profile : ℕ → ℕ → List ℕ → Query (Unit {0})
set_member_profile circle user profile db = (
  ok tt,
  record db {
    members = modify (is_member circle user) (λ m. record m { profile_enc = profile }) db.members;
  },
)

-- `SELECT id, retention_days FROM circles`, as the rows that hold them.
unfoldable pub all_circle_retention : Query (List Circle)
all_circle_retention db = (ok db.circles, db)
