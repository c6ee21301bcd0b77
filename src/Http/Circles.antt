-- ===== src/Http/Circles.antt =====
-- The handlers of server/internal/httpapi/circles.go that change a circle or its members. A request
-- body that DecodeJSON refuses is `none`. `m` is the membership that `requireCircleMember` loaded.
pub mod Members
pub mod Creation
use aul_private_location.Base.{
  ℕ, Bool, true, false, not, ◌&&◌, ◌||◌, Option, none, some, List, [], ◌∷◌, ◌==◌, leb,
  if◌then◌else◌, ℤ, pos, negsuc,
}
use aul_private_location.Store.Schema.{
  Circle, CircleMember, Role, owner, member, guardian, Precision, precise,
}
use aul_private_location.Store.{
  DbError, Outcome, World, Act, stop, pure, ◌>>=◌, ◌>>◌, or_else, run_query, with_tx, send, audit,
  evict_user, evict_circle, publish, circle_created, member_removed, member_left, key_rotation,
  precision_mode, member_changed,
}
use aul_private_location.Store.Circles.{
  get_circle, create_circle, add_member, update_circle_name, update_circle_retention, delete_circle,
  remove_member, count_owners, set_precision_mode, set_member_profile, bump_circle_key_epoch,
}
use aul_private_location.Http.{
  Handler, HttpError, bad_request, conflict, internal, any_internal, parsed, require_owner,
  required, Base64, decode_blob, max_blob_bytes,
}

pub record Limits : Type 0 where
  pub default_retention_days : ℕ
  pub max_retention_days : ℕ

pub record CircleDto : Type 0 where
  pub circle : Circle
  pub role : Role
  pub precision : Precision

-- `validRetention`, as the number of days when it is one.
unfoldable pub valid_retention : Limits → ℤ → Option ℕ
valid_retention cfg (pos n) = if leb 1 n && leb n cfg.max_retention_days then some n else none
valid_retention cfg (negsuc n) = none

pub record CreateCircleReq : Type 0 where
  pub name_enc : List ℕ
  pub retention_days : Option ℤ

abbrev optional_name : Base64 → List ℕ → Handler (List ℕ)
optional_name b64 [] = pure []
optional_name b64 (c ∷ cs) = required (decode_blob b64 max_blob_bytes (c ∷ cs))

abbrev days_or_default : Limits → Option ℤ → ℤ
days_or_default cfg none = pos cfg.default_retention_days
days_or_default cfg (some d) = d

-- The transaction: the circle, and its creator as an owner.
unfoldable pub create_with_owner : ℕ → ℕ → List ℕ → ℕ → ℕ → Act DbError Circle
create_with_owner now id name_enc days user = do
  c ← run_query (create_circle now id name_enc days user)
  run_query (add_member now c.id user owner)
  pure c

unfoldable pub handle_create_circle :
    Base64 → Limits → ℕ → ℕ → ℕ → Option CreateCircleReq → Handler CircleDto
handle_create_circle b64 cfg now id user body = do
  req ← required body
  name_enc ← optional_name b64 req.name_enc
  days ← required (valid_retention cfg (days_or_default cfg req.retention_days))
  circle ← or_else (with_tx (create_with_owner now id name_enc days user)) any_internal
  send (audit circle_created)
  pure (record { circle = circle; role = owner; precision = precise })

unfoldable pub handle_get_circle : CircleMember → Handler CircleDto
handle_get_circle m = do
  circle ← or_else (run_query (get_circle m.circle_id)) any_internal
  pure (record { circle = circle; role = m.role; precision = m.precision_mode })

pub record PatchCircleReq : Type 0 where
  pub name_enc : Option (List ℕ)
  pub retention_days : Option ℤ

patch_name : Base64 → CircleMember → Option (List ℕ) → Handler (Unit {0})
patch_name b64 m none = pure tt
patch_name b64 m (some text) = do
  name_enc ← required (decode_blob b64 max_blob_bytes text)
  or_else (run_query (update_circle_name m.circle_id name_enc)) any_internal
  pure tt

patch_retention : Limits → CircleMember → Option ℤ → Handler (Unit {0})
patch_retention cfg m none = pure tt
patch_retention cfg m (some d) = do
  days ← required (valid_retention cfg d)
  or_else (run_query (update_circle_retention m.circle_id days)) any_internal
  pure tt

unfoldable pub handle_patch_circle :
    Base64 → Limits → CircleMember → Option PatchCircleReq → Handler CircleDto
unfolding patch_name patch_retention handle_get_circle
handle_patch_circle b64 cfg m body = do
  require_owner m.role
  req ← required body
  patch_name b64 m req.name_enc
  patch_retention cfg m req.retention_days
  handle_get_circle m

unfoldable pub handle_delete_circle : CircleMember → Handler (Unit {0})
handle_delete_circle m = do
  require_owner m.role
  or_else (run_query (delete_circle m.circle_id)) any_internal
  send (evict_circle m.circle_id)

-- `decode` is base64.StdEncoding, and the limit maxProfileBytes; an empty field is null.
unfoldable pub handle_set_profile :
    (List ℕ → Option (List ℕ))
    → (List ℕ → Bool)
    → CircleMember
    → Option (Option (List ℕ))
    → Handler (Unit {0})
handle_set_profile decode fits m body = do
  profile ← required body
  blob ← (elim profile [ none ↦ pure [] | some text ↦ required (decode text) ])
  if fits blob
      then or_else (run_query (set_member_profile m.circle_id m.user_id blob)) any_internal
      else stop bad_request

unfoldable pub handle_remove_member : CircleMember → Option ℕ → Handler (Unit {0})
handle_remove_member m param = do
  require_owner m.role
  target ← parsed bad_request param
  if target == m.user_id then stop bad_request else (do
    or_else (run_query (remove_member m.circle_id target)) any_internal
    send (audit member_removed)
    send (evict_user m.circle_id target)
    send (publish member_changed m.circle_id))

leave : CircleMember → Handler (Unit {0})
leave m = do
  or_else (run_query (remove_member m.circle_id m.user_id)) any_internal
  send (audit member_left)
  send (evict_user m.circle_id m.user_id)
  send (publish member_changed m.circle_id)

-- The guard of `handleLeaveCircle`: the only owner may not leave.
leave_allowed : Role → ℕ → Handler (Unit {0})
leave_allowed owner circle = do
  owners ← or_else (run_query (count_owners circle)) any_internal
  if leb owners 1 then stop conflict else pure tt
leave_allowed member circle = pure tt
leave_allowed guardian circle = pure tt

unfoldable pub handle_leave_circle : CircleMember → Handler (Unit {0})
unfolding leave leave_allowed
handle_leave_circle m = do leave_allowed m.role m.circle_id; leave m

-- A mode that is none of the three is `none`.
unfoldable pub handle_set_precision : CircleMember → Option (Option Precision) → Handler Precision
handle_set_precision m body = do
  req ← required body
  mode ← required req
  updated ← or_else (run_query (set_precision_mode m.circle_id m.user_id mode)) any_internal
  send (publish precision_mode m.circle_id)
  pure updated.precision_mode

unfoldable pub handle_rotate_key : CircleMember → Handler ℕ
handle_rotate_key m = do
  require_owner m.role
  circle ← or_else (run_query (bump_circle_key_epoch m.circle_id)) any_internal
  send (audit key_rotation)
  pure circle.key_epoch
