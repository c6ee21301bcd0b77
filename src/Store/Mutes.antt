-- ===== src/Store/Mutes.antt =====
-- The mute queries of server/internal/store/sqlite_queries.go (mutes.sql). `none` is the null
-- `muted_user_id`, which mutes the whole circle.
use aul_private_location.Base.{
  ℕ, Bool, true, false, ◌&&◌, Option, none, some, List, [], ◌∷◌, ◌++◌, map, ◌==◌, if◌then◌else◌,
  select, any_row, delete, count_rows,
}
use aul_private_location.Store.Schema.{Db, NotificationMute, tv}
use aul_private_location.Store.{unavailable, ok, err, Query}

abbrev pub mute_of : ℕ → ℕ → NotificationMute → Bool
mute_of user circle m = m.user_id == user && m.circle_id == circle

-- The rows of one list_mutes call; those of one PUT have the order of their insertion.
unfoldable pub list_mutes : ℕ → ℕ → Query (List (Option ℕ))
list_mutes user circle db =
    (ok (map (λ m. m.muted_user_id) (select (mute_of user circle) db.mutes)), db)

unfoldable pub delete_mutes : ℕ → ℕ → Query (Unit {0})
delete_mutes user circle db = (ok tt, record db { mutes = delete (mute_of user circle) db.mutes })

abbrev pub same_target : Option ℕ → Option ℕ → Bool
same_target none none = true
same_target none (some u) = false
same_target (some u) none = false
same_target (some u) (some v) = u == v

-- The two partial unique indexes together.
abbrev pub same_mute : ℕ → ℕ → Option ℕ → NotificationMute → Bool
same_mute user circle muted m = mute_of user circle m && same_target m.muted_user_id muted

abbrev pub new_mute : ℕ → ℕ → ℕ → Option ℕ → NotificationMute
new_mute now user circle muted = record {
  user_id = user;
  circle_id = circle;
  muted_user_id = muted;
  created_at = tv now;
}

abbrev pub user_exists : Db → Option ℕ → Bool
user_exists db none = true
user_exists db (some id) = any_row (λ u. u.id == id) db.users

-- ON CONFLICT DO NOTHING.
unfoldable pub insert_mute : ℕ → ℕ → ℕ → Option ℕ → Query (Unit {0})
insert_mute now user circle muted db =
    if any_row (same_mute user circle muted) db.mutes
    then (ok tt, db)
    else if any_row (λ u. u.id == user) db.users
        && any_row (λ c. c.id == circle) db.circles
        && user_exists db muted
    then (ok tt, record db { mutes = db.mutes ++ new_mute now user circle muted ∷ [] })
    else (err unavailable, db)

abbrev pub listed : List ℕ → ℕ → Bool
listed ids u = any_row (λ id. id == u) ids

unfoldable pub count_members_in : ℕ → List ℕ → Query ℕ
count_members_in circle ids db =
    (ok (count_rows (λ m. m.circle_id == circle && listed ids m.user_id) db.members), db)
