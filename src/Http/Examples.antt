-- ===== src/Http/Examples.antt =====
-- The theorems on the handlers at a small database.
use aul_private_location.Base.{
  ℕ, ◌≤◌, ◌≡◌, refl, true, false, ◌&&◌, none, some, [], ◌∷◌, ◌++◌, arith, ◌==◌, find_row, any_row,
  modify, select, pos,
}
use aul_private_location.Store.Schema.{
  Device, web, no_tables, Db, Circle, CircleMember, Role, owner, member, precise, active, Invite,
  User, ShareSession,
}
use aul_private_location.Store.{
  err, World, run_query, with_tx, send, audit, member_removed, evict_user, publish, member_changed,
}
use aul_private_location.Store.Circles.{
  is_member, owners_of, is_owner, get_membership, remove_member, add_member,
}
use aul_private_location.Store.Invites.{consumable, used_once_more, get_invite, consume_invite}
use aul_private_location.Http.{not_found, internal, require_circle_member, Base64}
use aul_private_location.Http.Invites.{
  handle_accept_invite, consume_and_join, invite_ttl, duration_bits,
}
use aul_private_location.Http.Invites.Accepting.{
  accept_atomic, accept-InBudget, InBudget, accept-joined,
}
use aul_private_location.Http.Circles.{handle_remove_member, handle_leave_circle, Limits}
use aul_private_location.Http.Circles.Members.{remove-revokes, leave-keeps_owner}

abbrev pub person : ℕ → User
person id = record { id = id; email = id; pass_hash = 0; created_at = 0; updated_at = 0 }

abbrev pub family : Circle
family = record {
  id = 4;
  name_enc = [];
  retention_days = 30;
  key_epoch = 1;
  created_by = 1;
  created_at = 0;
}

abbrev pub in_family : ℕ → Role → CircleMember
in_family user role = record {
  circle_id = 4;
  user_id = user;
  role = role;
  precision_mode = precise;
  joined_at = 0;
  profile_enc = [];
}

abbrev invitation : Invite
invitation = record {
  id = 9;
  circle_id = 4;
  created_by = 1;
  role = member;
  max_uses = 1;
  uses = 0;
  expires_at = 100;
  status = active;
  created_at = 0;
}

abbrev pub link : ShareSession
link = record {
  id = 5;
  user_id = 1;
  created_at = 0;
  expires_at = 900000;
  revoked_at = none;
  viewer_token_hash = none;
  viewer_bound_at = none;
}

abbrev pub home : Db
home = record no_tables {
  users = person 1 ∷ person 2 ∷ person 3 ∷ [];
  circles = family ∷ [];
  members = in_family 1 owner ∷ in_family 2 owner ∷ [];
  invites = invitation ∷ [];
  shares = link ∷ [];
}

abbrev pub steady : World
steady = record { db = home; outage = λ n. false; calls = 0; sent = [] }

abbrev pub plain : Base64
plain = record { std = λ t. some t; raw_std = λ t. none; url = λ t. none }

abbrev pub phone : Device
phone = record {
  id = 2;
  user_id = 1;
  platform = web;
  display_name = none;
  pubkey = [];
  push_token = none;
  created_at = 0;
  last_seen = none;
}

abbrev pub reporting : World
reporting = record steady { db = record home { devices = phone ∷ [] } }

-- The sixth call fails, which is the commit of a transaction after two lookups and two statements.
abbrev no_commit : World
no_commit = record steady { outage = λ n. n == 5 }

accept_atomic_example : (handle_accept_invite 0 3 (some 9) no_commit).1.db ≡ home
unfolding handle_accept_invite run_query get_invite find_row get_membership with_tx consume_and_join
    consume_invite add_member any_row
accept_atomic_example = accept_atomic 0 3 (some 9) no_commit internal refl

accept-InBudget_example : InBudget (handle_accept_invite 0 3 (some 9) steady).1.db.invites
accept-InBudget_example = accept-InBudget 0 3 (some 9) steady (omega arith, tt)

accept-joined_example :
    let after = (handle_accept_invite 0 3 (some 9) steady).1.db in
    (i : Invite) × (find_row (consumable 0 9) home.invites ≡ some i)
    × (i.circle_id ≡ 4)
    × (i.role ≡ member)
    × (after.invites ≡ modify (consumable 0 9) used_once_more home.invites)
    × (m : CircleMember) × (find_row (is_member 4 3) after.members ≡ some m)
    × (m.role ≡ member)
unfolding handle_accept_invite run_query get_invite find_row get_membership with_tx consume_and_join
    consume_invite add_member any_row send
accept-joined_example = accept-joined 0 3 9 4 member steady (tt, tt) refl

remove-revokes_example :
    let after = (handle_remove_member (in_family 1 owner) (some 2) steady).1 in
    (is_owner owner ≡ true)
    × ((2 == 1) ≡ false)
    × (find_row (is_member 4 2) after.db.members ≡ none)
    × ((circle user : ℕ)
        → (4 == circle && 2 == user) ≡ false
        → find_row (is_member circle user) after.db.members
          ≡ find_row (is_member circle user) home.members)
    × (after.outage after.calls ≡ false
        → (require_circle_member (some 4) 2 after).0 ≡ err not_found)
    × (after.sent
        ≡ (([] ++ audit member_removed ∷ []) ++ evict_user 4 2 ∷ [])
          ++ publish member_changed 4 ∷ [])
unfolding handle_remove_member run_query remove_member send
remove-revokes_example = remove-revokes (in_family 1 owner) 2 steady refl

leave-keeps_owner_example :
    1 ≤ owners_of 4 (handle_leave_circle (in_family 1 owner) steady).1.db.members
unfolding find_row select
leave-keeps_owner_example =
    leave-keeps_owner (in_family 1 owner) steady refl (omega arith) (omega arith)

abbrev no_base64 : Base64
no_base64 = record { std = λ t. none; raw_std = λ t. none; url = λ t. none }

abbrev pub limits : Limits
limits = record { default_retention_days = 30; max_retention_days = 90 }

-- A request of 18,446,744,074 seconds, over five hundred years, is accepted: the product wraps.
long_ttl_wraps : invite_ttl (pos 18446744074) ≡ some 290448384
unfolding invite_ttl duration_bits
long_ttl_wraps = refl
