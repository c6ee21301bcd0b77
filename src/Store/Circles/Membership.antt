-- ===== src/Store/Circles/Membership.antt =====
-- The rows of circle_members after the statements that change them.
use aul_private_location.Base.{
  ℕ, ◌≡◌, refl, true, false, ◌&&◌, none, some, List, [], ◌∷◌, ◌++◌, arith, ◌==◌, ==_iff, ==_refl,
  find_row, modify, delete, select, Option-cases, inl, inr,
}
use aul_private_location.Store.Schema.{Db, CircleMember, Role}
use aul_private_location.Store.{ok}
use aul_private_location.Store.Circles.{add_member, new_member, with_role, is_member}

find_row-append :
    (circle user : ℕ) (m : CircleMember) (rows : List CircleMember)
    → is_member circle user m ≡ true
    → find_row (is_member circle user) rows ≡ none
    → find_row (is_member circle user) (rows ++ m ∷ []) ≡ some m
unfolding find_row
find_row-append circle user m [] h e = ground arith
find_row-append circle user m (x ∷ rows) h e = ground (arith, find_row-append circle user m rows h)

find_row-with_role :
    (circle user : ℕ) (role : Role) (m : CircleMember) (rows : List CircleMember)
    → find_row (is_member circle user) rows ≡ some m
    → find_row (is_member circle user) (modify (is_member circle user) (with_role role) rows)
      ≡ some (with_role role m)
unfolding find_row modify
find_row-with_role circle user role m [] e = cc
find_row-with_role circle user role m (x ∷ rows) e =
    ground (arith, find_row-with_role circle user role m rows)

pub add_member-joins :
    (now circle user : ℕ) (role : Role) (db : Db) (m : CircleMember)
    → (add_member now circle user role db).0 ≡ ok m
    → (find_row (is_member circle user) (add_member now circle user role db).1.members ≡ some m)
      × (m.role ≡ role)
unfolding add_member
add_member-joins now circle user role db m e =
    elim (Option-cases (find_row (is_member circle user) db.members)) [
      | inl n ↦ (
        ground (
          arith,
          ==_refl circle,
          ==_refl user,
          find_row-append circle user (new_member now circle user role) db.members,
        ),
        ground arith,
      )
      | inr (old, f) ↦
          (ground (arith, find_row-with_role circle user role old db.members), ground arith)
    ]

-- A member who was removed is found no more.
pub find_row-removed :
    (circle user : ℕ) (rows : List CircleMember)
    → find_row (is_member circle user) (delete (is_member circle user) rows) ≡ none
unfolding find_row select
find_row-removed circle user [] = refl
find_row-removed circle user (x ∷ rows) = ground (arith, find_row-removed circle user rows)

-- The membership of another user, or in another circle, stays.
pub find_row-kept :
    (circle user circle' user' : ℕ) (rows : List CircleMember)
    → (circle == circle' && user == user') ≡ false
    → find_row (is_member circle' user') (delete (is_member circle user) rows)
      ≡ find_row (is_member circle' user') rows
unfolding find_row select
find_row-kept circle user circle' user' [] h = refl
find_row-kept circle user circle' user' (x ∷ rows) h = ground (
  arith,
  ==_iff x.circle_id circle,
  ==_iff x.circle_id circle',
  ==_iff x.user_id user,
  ==_iff x.user_id user',
  ==_iff circle circle',
  ==_iff user user',
  find_row-kept circle user circle' user' rows h,
)
