-- ===== src/Http/Circles/Members.antt =====
-- Who may change a circle, and what leaving it and being removed do.
use aul_private_location.Base.{
  ℕ, ◌≡◌, refl, true, false, ◌&&◌, none, some, List, [], ◌∷◌, ◌++◌, arith, ◌==◌, find_row, delete,
  select, count_rows, ◌+◌, ◌≤◌, ◌⊎◌, inl, inr,
}
use aul_private_location.Store.Schema.{CircleMember, Role, owner, member, guardian}
use aul_private_location.Store.{
  ok, err, World, run_query, send, audit, evict_user, publish, member_removed, member_changed,
}
use aul_private_location.Store.Circles.{
  get_membership, is_member, remove_member, count_owners, owners_of, is_owner,
}
use aul_private_location.Store.Circles.Membership.{find_row-removed, find_row-kept}
use aul_private_location.Http.{not_found, require_circle_member}
use aul_private_location.Http.Circles.{handle_remove_member, handle_leave_circle}

no_membership :
    (circle user : ℕ) (w : World)
    → find_row (is_member circle user) w.db.members ≡ none
    → w.outage w.calls ≡ false
    → (require_circle_member (some circle) user w).0 ≡ err not_found
unfolding require_circle_member run_query get_membership
no_membership circle user w n o = ground arith

-- Removing a member, when it succeeds: the caller is an owner and another user, the membership of
-- the target is gone and every other is kept, the next request of the target for the circle is
-- answered 404 unless the database fails, and the hub is asked to evict the target before the
-- change is published.
pub remove-revokes :
    (m : CircleMember) (target : ℕ) (w : World)
    → (handle_remove_member m (some target) w).0 ≡ ok tt
    → let after = (handle_remove_member m (some target) w).1 in
      (is_owner m.role ≡ true)
      × ((target == m.user_id) ≡ false)
      × (find_row (is_member m.circle_id target) after.db.members ≡ none)
      × ((circle user : ℕ)
          → (m.circle_id == circle && target == user) ≡ false
          → find_row (is_member circle user) after.db.members
            ≡ find_row (is_member circle user) w.db.members)
      × (after.outage after.calls ≡ false
          → (require_circle_member (some m.circle_id) target after).0 ≡ err not_found)
      × (after.sent
          ≡ ((w.sent ++ audit member_removed ∷ []) ++ evict_user m.circle_id target ∷ [])
            ++ publish member_changed m.circle_id ∷ [])
unfolding handle_remove_member run_query remove_member send
remove-revokes m target w e = (
  ground arith,
  ground arith,
  ground (arith, find_row-removed m.circle_id target w.db.members),
  (λ circle user h. ground (arith, find_row-kept m.circle_id target circle user w.db.members h)),
  no_membership m.circle_id target (handle_remove_member m (some target) w).1
      (ground (arith, find_row-removed m.circle_id target w.db.members)),
  ground arith,
)

-- The rows with one primary key number at most one.
owners-delete :
    (circle user : ℕ) (rows : List CircleMember)
    → owners_of circle rows
      ≤ owners_of circle (delete (is_member circle user) rows)
        + count_rows (is_member circle user) rows
unfolding select
owners-delete circle user [] = omega arith
owners-delete circle user (x ∷ rows) = ground (arith, owners-delete circle user rows)

absent-delete :
    (circle user : ℕ) (rows : List CircleMember)
    → count_rows (is_member circle user) rows ≡ 0
    → delete (is_member circle user) rows ≡ rows
unfolding select
absent-delete circle user [] e = refl
absent-delete circle user (x ∷ rows) e = ground (arith, absent-delete circle user rows)

other-delete :
    (circle user : ℕ) (m : CircleMember) (rows : List CircleMember)
    → count_rows (is_member circle user) rows ≤ 1
    → find_row (is_member circle user) rows ≡ some m
    → is_owner m.role ≡ false
    → owners_of circle (delete (is_member circle user) rows) ≡ owners_of circle rows
unfolding select find_row
other-delete circle user m [] c e o = refl
other-delete circle user m (x ∷ rows) c e o =
    ground (arith, absent-delete circle user rows, other-delete circle user m rows)

Role-cases : (r : Role) → (r ≡ owner) ⊎ ((r ≡ member) ⊎ (r ≡ guardian))
Role-cases owner = inl refl
Role-cases member = inr (inl refl)
Role-cases guardian = inr (inr refl)

-- A circle that has an owner has one after any of its members has left. `m` is the row of the
-- caller, and the table holds it once.
pub leave-keeps_owner :
    (m : CircleMember) (w : World)
    → find_row (is_member m.circle_id m.user_id) w.db.members ≡ some m
    → count_rows (is_member m.circle_id m.user_id) w.db.members ≤ 1
    → 1 ≤ owners_of m.circle_id w.db.members
    → 1 ≤ owners_of m.circle_id (handle_leave_circle m w).1.db.members
unfolding handle_leave_circle run_query remove_member count_owners send
leave-keeps_owner m w f k o = elim (Role-cases m.role) [
  | inl e ↦ ground (arith, owners-delete m.circle_id m.user_id w.db.members)
  | inr (inl e) ↦ ground (arith, other-delete m.circle_id m.user_id m w.db.members)
  | inr (inr e) ↦ ground (arith, other-delete m.circle_id m.user_id m w.db.members)
]
