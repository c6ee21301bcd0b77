-- ===== src/Http/Places/Conflicts.antt =====
-- Two clients that update the same version of a place.
use aul_private_location.Base.{
  ℕ, ◌+◌, ◌≡◌, refl, true, false, none, some, List, [], ◌∷◌, arith, find_row, find_row-holds,
  modify, Option-cases, inl, inr, ℤ,
}
use aul_private_location.Store.Schema.{Place, CircleMember}
use aul_private_location.Store.{ok, err, World, run_query, send, update_returning}
use aul_private_location.Store.Places.{update_place, at_version, has_version, revised}
use aul_private_location.Http.{conflict, Base64, decode_blob, max_blob_bytes}
use aul_private_location.Http.Places.{PlaceReq, handle_update_place}

has_version-once : (v : ℤ) (n : ℕ) → has_version v n ≡ true → has_version v (n + 1) ≡ false
has_version-once v n h = ground arith

no_version-left :
    (now id circle user : ℕ) (content : List ℕ) (v : ℤ) (rows : List Place)
    → find_row
        (at_version id circle v)
        (modify (at_version id circle v) (revised now content user) rows)
      ≡ none
unfolding find_row modify
no_version-left now id circle user content v [] = refl
no_version-left now id circle user content v (p ∷ rows) =
    ground (arith, has_version-once v p.version, no_version-left now id circle user content v rows)

updated_rows :
    (b64 : Base64) (now : ℕ) (m : CircleMember) (id : ℕ) (req : PlaceReq) (w : World) (p : Place)
    → (handle_update_place b64 now m (some id) (some req) w).0 ≡ ok p
    → (content : List ℕ) × (decode_blob b64 max_blob_bytes req.ciphertext ≡ some content)
      × (p.ciphertext ≡ content)
      × (has_version req.version p.version ≡ false)
      × ((handle_update_place b64 now m (some id) (some req) w).1.db.places
          ≡ modify
              (at_version id m.circle_id req.version)
              (revised now content m.user_id)
              w.db.places)
unfolding handle_update_place run_query update_place update_returning send
updated_rows b64 now m id req w p e =
    elim (Option-cases (decode_blob b64 max_blob_bytes req.ciphertext)) [
      | inl n ↦ ground arith
      | inr (content, d) ↦
          elim (Option-cases (find_row (at_version id m.circle_id req.version) w.db.places)) [
            | inl n ↦ ground arith
            | inr (q, f) ↦
                let holds =
                  find_row-holds (at_version id m.circle_id req.version) w.db.places q f in
                (
                  content,
                  d,
                  ground arith,
                  ground (arith, holds, has_version-once req.version q.version),
                  ground arith,
                )
          ]
    ]

-- Of two updates of a place that name the same version, the second is refused: once an update has
-- succeeded, another by a member of the same circle with the same version and a body that decodes
-- is answered 409 and changes nothing, where its call of the database does not fail. The first
-- stores the body it was sent.
pub update_place-once :
    (b64 : Base64) (now now' : ℕ) (m m' : CircleMember) (id : ℕ) (req req' : PlaceReq) (w : World)
    (p : Place) (content : List ℕ)
    → (handle_update_place b64 now m (some id) (some req) w).0 ≡ ok p
    → m'.circle_id ≡ m.circle_id
    → req'.version ≡ req.version
    → decode_blob b64 max_blob_bytes req'.ciphertext ≡ some content
    → let after = (handle_update_place b64 now m (some id) (some req) w).1 in
      (decode_blob b64 max_blob_bytes req.ciphertext ≡ some p.ciphertext)
      × (after.outage after.calls ≡ false
          → ((handle_update_place b64 now' m' (some id) (some req') after).0 ≡ err conflict)
            × ((handle_update_place b64 now' m' (some id) (some req') after).1.db ≡ after.db))
unfolding handle_update_place run_query update_place update_returning
update_place-once b64 now now' m m' id req req' w p content e c v d =
    let (stored_content, s, same, other, rows) = updated_rows b64 now m id req w p e in
    let left =
      no_version-left now id m.circle_id m.user_id stored_content req.version w.db.places in
    let after = (handle_update_place b64 now m (some id) (some req) w).1 in
    let gone : find_row (at_version id m'.circle_id req'.version) after.db.places ≡ none =
      rw (c, v, rows) left in
    (ground arith, (λ o. (ground arith, ground arith)))
