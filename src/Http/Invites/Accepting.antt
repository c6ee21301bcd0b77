-- ===== src/Http/Invites/Accepting.antt =====
-- What accepting an invite does to the tables.
use aul_private_location.Base.{
  ℕ, ◌+◌, ◌≤◌, ◌≡◌, refl, subst, sym, ap, ◌∙◌, true, false, Option, none, some, List, [], ◌∷◌,
  arith, ◌==◌, ==_iff, find_row, modify, All, All-modify, Bool-cases, Option-cases, inl, inr,
}
use aul_private_location.Store.Schema.{Db, Invite, CircleMember, Role}
use aul_private_location.Store.{no_rows, ok, err, World, run_query, with_tx, finish_tx, send}
use aul_private_location.Store.Circles.{get_membership, add_member, is_member}
use aul_private_location.Store.Invites.{
  consume_invite, consumable, used_once_more, get_invite, is_invite,
}
use aul_private_location.Store.Transactions.{Outcome-cases}
use aul_private_location.Store.Circles.Membership.{add_member-joins}
use aul_private_location.Http.{HttpError}
use aul_private_location.Http.Invites.{
  handle_accept_invite, consume_and_join, already_member, joined,
}

-- Whichever calls of the database fail, an invite that is not accepted leaves the tables as they
-- were: no use is consumed without the caller having joined.
pub accept_atomic :
    (now user : ℕ) (param : Option ℕ) (w : World) (e : HttpError)
    → (handle_accept_invite now user param w).0 ≡ err e
    → (handle_accept_invite now user param w).1.db ≡ w.db
unfolding handle_accept_invite run_query with_tx finish_tx send get_invite get_membership
accept_atomic now user none w e h = refl
accept_atomic now user (some id) w e h = ground arith

-- The table check `uses <= max_uses`.
abbrev pub InBudget : List Invite → Type 0
InBudget = All (λ i. i.uses ≤ i.max_uses)

consumed_after :
    (now id : ℕ) (db : Db) (i : Invite)
    → find_row (consumable now id) db.invites ≡ some i
    → consume_invite now id db ≡ (
      ok (used_once_more i),
      record db { invites = modify (consumable now id) used_once_more db.invites },
    )
unfolding consume_invite
consumed_after now id db i f = ground arith

consumed_none :
    (now id : ℕ) (db : Db)
    → find_row (consumable now id) db.invites ≡ none
    → consume_invite now id db ≡ (err no_rows, db)
unfolding consume_invite
consumed_none now id db f = ground arith

-- A caller who is a member already consumes no use.
accept-already_member :
    (now user id circle : ℕ) (w : World)
    → (handle_accept_invite now user (some id) w).0 ≡ ok (already_member circle)
    → (handle_accept_invite now user (some id) w).1.db ≡ w.db
unfolding handle_accept_invite run_query with_tx finish_tx send get_invite get_membership
accept-already_member now user id circle w e = ground arith

-- What a transaction that commits has done.
record Joined (now id user : ℕ) (role : Role) (before after : Db) : Type 0 where
  invite : Invite
  found : find_row (consumable now id) before.invites ≡ some invite
  same_role : invite.role ≡ role
  used : after.invites ≡ modify (consumable now id) used_once_more before.invites
  membership : CircleMember
  inserted : find_row (is_member invite.circle_id user) after.members ≡ some membership
  same_membership : membership.role ≡ role

add_member-invites :
    (now circle user : ℕ) (role : Role) (db : Db)
    → (add_member now circle user role db).1.invites ≡ db.invites
unfolding add_member
add_member-invites now circle user role db = ground arith

with_tx-Joined :
    (now id user : ℕ) (role : Role) (w : World)
    → (with_tx (consume_and_join now id user) w).0 ≡ ok role
    → Joined now id user role w.db (with_tx (consume_and_join now id user) w).1.db
unfolding with_tx finish_tx consume_and_join run_query
with_tx-Joined now id user role w e =
    elim (Option-cases (find_row (consumable now id) w.db.invites)) [
      | inl n ↦ ground (arith, consumed_none now id w.db n)
      | inr (i, f) ↦
          let used : Db = record w.db {
            invites = modify (consumable now id) used_once_more w.db.invites;
          } in
          elim (Outcome-cases (add_member now i.circle_id user i.role used).0) [
            | inl (x, h) ↦ ground (arith, consumed_after now id w.db i f)
            | inr (m, h) ↦ record {
              invite = i;
              found = f;
              same_role = ground (arith, consumed_after now id w.db i f);
              used = ground (
                arith,
                consumed_after now id w.db i f,
                add_member-invites now i.circle_id user i.role used,
              );
              membership = m;
              inserted = ground (
                arith,
                consumed_after now id w.db i f,
                add_member-joins now i.circle_id user i.role used m,
              );
              same_membership = ground (
                arith,
                consumed_after now id w.db i f,
                add_member-joins now i.circle_id user i.role used m,
              );
            }
          ]
    ]

-- The transaction starts after the two lookups.
abbrev looked_up : World → World
looked_up w = record w { calls = w.calls + 2 }

joined_by_tx :
    (now user id circle : ℕ) (role : Role) (w : World)
    → (handle_accept_invite now user (some id) w).0 ≡ ok (joined circle role)
    → ((with_tx (consume_and_join now id user) (looked_up w)).0 ≡ ok role)
      × ((handle_accept_invite now user (some id) w).1.db
          ≡ (with_tx (consume_and_join now id user) (looked_up w)).1.db)
      × (inv : Invite) × (find_row (is_invite id) w.db.invites ≡ some inv)
      × (inv.circle_id ≡ circle)
unfolding handle_accept_invite run_query send get_invite get_membership
joined_by_tx now user id circle role w e =
    elim (Option-cases (find_row (is_invite id) w.db.invites)) [
      | inl n ↦ ground arith
      | inr (inv, f) ↦ (ground arith, ground arith, inv, f, ground arith)
    ]

-- The primary key of the table of invites.
abbrev pub Keyed : List Invite → Type 0
Keyed [] = Unit {0}
Keyed (i ∷ rows) = All (λ j. (j.id == i.id) ≡ false) rows × Keyed rows

no_other :
    (now id : ℕ) (i : Invite) (rows : List Invite)
    → (i.id == id) ≡ true
    → All (λ j. (j.id == i.id) ≡ false) rows
    → find_row (consumable now id) rows ≡ none
unfolding find_row
no_other now id i [] h a = refl
no_other now id i (j ∷ rows) h a = ground (arith, ==_iff i.id id, a.0, no_other now id i rows h a.1)

same_row :
    (now id : ℕ) (i j : Invite) (rows : List Invite)
    → Keyed rows
    → find_row (is_invite id) rows ≡ some i
    → find_row (consumable now id) rows ≡ some j
    → i ≡ j
unfolding find_row
same_row now id i j [] k e f = cc
same_row now id i j (x ∷ rows) k e f = elim (Bool-cases (x.id == id)) [
  | inl h ↦ ground (arith, no_other now id x rows h k.0)
  | inr h ↦ same_row now id i j rows k.1 (ground arith) (ground arith)
]

consumed-InBudget :
    (now id : ℕ) (invites : List Invite)
    → InBudget invites
    → InBudget (modify (consumable now id) used_once_more invites)
consumed-InBudget now id invites =
    All-modify (λ i. i.uses ≤ i.max_uses) (consumable now id) used_once_more invites
      (λ i c h. ground arith)

same_rows :
    (before after : World)
    → after.db ≡ before.db
    → InBudget before.db.invites
    → InBudget after.db.invites
same_rows before after e = subst (λ db. InBudget db.invites) (sym e)

accept-no_id : (now user : ℕ) (w : World) → (handle_accept_invite now user none w).1.db ≡ w.db
unfolding handle_accept_invite
accept-no_id now user w = refl

-- No invite is used more often than it allows: accepting keeps `uses <= max_uses` in every row,
-- whichever way the call ends and whichever calls of the database fail.
pub accept-InBudget :
    (now user : ℕ) (param : Option ℕ) (w : World)
    → InBudget w.db.invites
    → InBudget (handle_accept_invite now user param w).1.db.invites
accept-InBudget now user none w a =
    same_rows w (handle_accept_invite now user none w).1 (accept-no_id now user w) a
accept-InBudget now user (some id) w a =
    let after = (handle_accept_invite now user (some id) w).1 in
    elim (Outcome-cases (handle_accept_invite now user (some id) w).0) [
      | inl (e, h) ↦ same_rows w after (accept_atomic now user (some id) w e h) a
      | inr (already_member c, h) ↦ same_rows w after (accept-already_member now user id c w h) a
      | inr (joined c role, h) ↦
          let (t, d, inv, f, g) = joined_by_tx now user id c role w h in
          let j = with_tx-Joined now id user role (looked_up w) t in
          subst InBudget (sym (ap (λ db. db.invites) d ∙ j.used))
            (consumed-InBudget now id w.db.invites a)
    ]

-- A caller who joins was admitted by an invite of the circle that the table held, active,
-- unexpired and with a use left, and gets its role. Afterwards that invite has one more use, and
-- the caller is a member of the circle with that role. The ids of the invites are a key.
pub accept-joined :
    (now user id circle : ℕ) (role : Role) (w : World)
    → Keyed w.db.invites
    → (handle_accept_invite now user (some id) w).0 ≡ ok (joined circle role)
    → let after = (handle_accept_invite now user (some id) w).1.db in
      (i : Invite) × (find_row (consumable now id) w.db.invites ≡ some i)
      × (i.circle_id ≡ circle)
      × (i.role ≡ role)
      × (after.invites ≡ modify (consumable now id) used_once_more w.db.invites)
      × (m : CircleMember) × (find_row (is_member circle user) after.members ≡ some m)
      × (m.role ≡ role)
accept-joined now user id circle role w k e =
    let (t, d, inv, f, c) = joined_by_tx now user id circle role w e in
    let j = with_tx-Joined now id user role (looked_up w) t in
    let same : j.invite.circle_id ≡ circle =
      ap (λ i. i.circle_id) (sym (same_row now id inv j.invite w.db.invites k f j.found)) ∙ c in
    (
      j.invite,
      j.found,
      same,
      j.same_role,
      ap (λ db. db.invites) d ∙ j.used,
      j.membership,
      subst
          (λ g.
            find_row (is_member g user) (handle_accept_invite now user (some id) w).1.db.members
            ≡ some j.membership)
          same (ap (λ db. find_row (is_member j.invite.circle_id user) db.members) d ∙ j.inserted),
      j.same_membership,
    )
