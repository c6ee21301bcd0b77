-- ===== src/Http/Circles/Creation.antt =====
-- Creating a circle, and the guard of the handlers that only an owner may use.
use aul_private_location.Base.{
  ℕ, refl, subst, sym, Option-cases, false, List, [], ◌∷◌, ◌++◌, find_row, any_row, ==_refl, ◌≤◌,
  ◌≡◌, Option, none, some, arith, ◌⊎◌, inl, inr, ℤ, pos, negsuc,
}
use aul_private_location.Store.Schema.{Db, Circle, Role, owner, CircleMember, member, guardian}
use aul_private_location.Store.{ok, run_query, err, World, with_tx, finish_tx, send}
use aul_private_location.Store.Circles.{create_circle, add_member, is_member, is_circle}
use aul_private_location.Store.Circles.Membership.{add_member-joins}
use aul_private_location.Store.Transactions.{Outcome-cases}
use aul_private_location.Http.{
  HttpError, bad_request, decode_blob, max_blob_bytes, forbidden, Base64,
}
use aul_private_location.Http.Circles.{
  Limits, CreateCircleReq, valid_retention, optional_name, days_or_default, create_with_owner,
  CircleDto, handle_create_circle, handle_delete_circle, handle_patch_circle, PatchCircleReq,
  handle_rotate_key, handle_remove_member,
}

-- Whichever calls of the database fail, a circle that is not created leaves the tables as they
-- were: no circle stays behind without an owner.
create_circle_atomic :
    (b64 : Base64) (cfg : Limits) (now id user : ℕ) (body : Option CreateCircleReq) (w : World)
    (e : HttpError)
    → (handle_create_circle b64 cfg now id user body w).0 ≡ err e
    → (handle_create_circle b64 cfg now id user body w).1.db ≡ w.db
unfolding handle_create_circle with_tx finish_tx send
create_circle_atomic b64 cfg now id user none w e h = ground arith
create_circle_atomic b64 cfg now id user (some req) w e h = ground arith

valid_retention-bounds :
    (cfg : Limits) (days : ℤ) (n : ℕ)
    → valid_retention cfg days ≡ some n
    → (1 ≤ n) × (n ≤ cfg.max_retention_days)
unfolding valid_retention
valid_retention-bounds cfg (negsuc d) n e = ground arith
valid_retention-bounds cfg (pos d) n e = (ground arith, ground arith)

-- What a circle that was created has left in the tables.
pub record Created (id days user : ℕ) (c : Circle) (after : Db) : Type 0 where
  named : c.id ≡ id
  kept : c.retention_days ≡ days
  listed : find_row (is_circle id) after.circles ≡ some c
  membership : CircleMember
  inserted : find_row (is_member id user) after.members ≡ some membership
  as_owner : membership.role ≡ owner

find_row-new_circle :
    (id : ℕ) (c : Circle) (rows : List Circle)
    → c.id ≡ id
    → any_row (is_circle id) rows ≡ false
    → find_row (is_circle id) (rows ++ c ∷ []) ≡ some c
unfolding find_row any_row
find_row-new_circle id c [] e n = ground (arith, ==_refl id)
find_row-new_circle id c (x ∷ rows) e n = ground (arith, find_row-new_circle id c rows e)

created_circle :
    (now id : ℕ) (name_enc : List ℕ) (days user : ℕ) (db : Db) (c : Circle)
    → (create_circle now id name_enc days user db).0 ≡ ok c
    → (c.id ≡ id)
      × (c.retention_days ≡ days)
      × (find_row (is_circle id) (create_circle now id name_enc days user db).1.circles ≡ some c)
unfolding create_circle
created_circle now id name_enc days user db c e =
    (ground arith, ground arith, ground (arith, find_row-new_circle id c db.circles))

add_member-circles :
    (now circle user : ℕ) (role : Role) (db : Db)
    → (add_member now circle user role db).1.circles ≡ db.circles
unfolding add_member
add_member-circles now circle user role db = ground arith

with_tx-Created :
    (now id : ℕ) (name_enc : List ℕ) (days user : ℕ) (w : World) (c : Circle)
    → (with_tx (create_with_owner now id name_enc days user) w).0 ≡ ok c
    → Created id days user c (with_tx (create_with_owner now id name_enc days user) w).1.db
unfolding with_tx finish_tx create_with_owner run_query
with_tx-Created now id name_enc days user w c e =
    let made = create_circle now id name_enc days user w.db in
    elim (Outcome-cases made.0) [
      | inl (x, h) ↦ ground arith
      | inr (c', h) ↦ elim (Outcome-cases (add_member now c'.id user owner made.1).0) [
        | inl (x, h') ↦ ground arith
        | inr (m, h') ↦
            let d = created_circle now id name_enc days user w.db c' h in
            let j = add_member-joins now c'.id user owner made.1 m h' in
            let k = add_member-circles now c'.id user owner made.1 in
            record {
              named = ground (arith, d);
              kept = ground (arith, d);
              listed = ground (arith, d, k);
              membership = m;
              inserted = ground (arith, d, j);
              as_owner = ground (arith, j);
            }
      ]
    ]

optional_name-cases :
    (b64 : Base64) (text : List ℕ) (w : World)
    → ((x : HttpError) × (optional_name b64 text w ≡ (err x, w)))
      ⊎ ((name_enc : List ℕ) × (optional_name b64 text w ≡ (ok name_enc, w)))
optional_name-cases b64 [] w = inr ([], refl)
optional_name-cases b64 (c ∷ cs) w = elim (Option-cases (decode_blob b64 max_blob_bytes (c ∷ cs))) [
  | inl n ↦ inl (bad_request, ground arith)
  | inr (name_enc, d) ↦ inr (name_enc, ground arith)
]

created_by_tx :
    (b64 : Base64) (cfg : Limits) (now id user : ℕ) (req : CreateCircleReq) (name_enc : List ℕ)
    (days : ℕ) (w : World) (dto : CircleDto)
    → optional_name b64 req.name_enc w ≡ (ok name_enc, w)
    → valid_retention cfg (days_or_default cfg req.retention_days) ≡ some days
    → (handle_create_circle b64 cfg now id user (some req) w).0 ≡ ok dto
    → ((with_tx (create_with_owner now id name_enc days user) w).0 ≡ ok dto.circle)
      × ((handle_create_circle b64 cfg now id user (some req) w).1.db
          ≡ (with_tx (create_with_owner now id name_enc days user) w).1.db)
unfolding handle_create_circle send
created_by_tx b64 cfg now id user req name_enc days w dto h v e = (ground arith, ground arith)

no_body :
    (b64 : Base64) (cfg : Limits) (now id user : ℕ) (w : World) (dto : CircleDto)
    → ¬ ((handle_create_circle b64 cfg now id user none w).0 ≡ ok dto)
unfolding handle_create_circle
no_body b64 cfg now id user w dto e = ground arith

accepted :
    (b64 : Base64) (cfg : Limits) (now id user : ℕ) (req : CreateCircleReq) (w : World)
    (dto : CircleDto)
    → (handle_create_circle b64 cfg now id user (some req) w).0 ≡ ok dto
    → (name_enc : List ℕ) × (days : ℕ) × (optional_name b64 req.name_enc w ≡ (ok name_enc, w))
      × (valid_retention cfg (days_or_default cfg req.retention_days) ≡ some days)
unfolding handle_create_circle
accepted b64 cfg now id user req w dto e = elim (optional_name-cases b64 req.name_enc w) [
  | inl (x, h) ↦ ground arith
  | inr (name_enc, h) ↦
      elim (Option-cases (valid_retention cfg (days_or_default cfg req.retention_days))) [
        | inl n ↦ ground arith
        | inr (days, v) ↦ (name_enc, days, h, v)
      ]
]

-- A circle that is created is in the table under its id, keeps its positions between a day and the
-- configured maximum, and has its creator as an owner.
create_circle-Created :
    (b64 : Base64) (cfg : Limits) (now id user : ℕ) (body : Option CreateCircleReq) (w : World)
    (dto : CircleDto)
    → (handle_create_circle b64 cfg now id user body w).0 ≡ ok dto
    → (days : ℕ) × (1 ≤ days)
      × (days ≤ cfg.max_retention_days)
      × Created id days user dto.circle (handle_create_circle b64 cfg now id user body w).1.db
create_circle-Created b64 cfg now id user none w dto e =
    absurd (no_body b64 cfg now id user w dto e)
create_circle-Created b64 cfg now id user (some req) w dto e =
    let (name_enc, days, h, v) = accepted b64 cfg now id user req w dto e in
    let (low, high) = valid_retention-bounds cfg (days_or_default cfg req.retention_days) days v in
    let (t, d) = created_by_tx b64 cfg now id user req name_enc days w dto h v e in
    (
      days,
      low,
      high,
      subst (Created id days user dto.circle) (sym d)
          (with_tx-Created now id name_enc days user w dto.circle t),
    )

-- A caller who is no owner is refused by every handler that only an owner may use, before it reads
-- its body or the database.
owner_only :
    (b64 : Base64) (cfg : Limits) (m : CircleMember) (patch : Option PatchCircleReq)
    (target : Option ℕ) (w : World)
    → (m.role ≡ member) ⊎ (m.role ≡ guardian)
    → (handle_patch_circle b64 cfg m patch w ≡ (err forbidden, w))
      × (handle_delete_circle m w ≡ (err forbidden, w))
      × (handle_remove_member m target w ≡ (err forbidden, w))
      × (handle_rotate_key m w ≡ (err forbidden, w))
unfolding handle_patch_circle handle_delete_circle handle_remove_member handle_rotate_key
owner_only b64 cfg m patch target w (inl r) =
    (ground arith, ground arith, ground arith, ground arith)
owner_only b64 cfg m patch target w (inr r) =
    (ground arith, ground arith, ground arith, ground arith)
