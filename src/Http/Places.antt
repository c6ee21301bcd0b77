-- ===== src/Http/Places.antt =====
-- The handlers of server/internal/httpapi/places.go.
pub mod Conflicts
mod Examples
use aul_private_location.Base.{ℕ, Option, none, some, List, ℤ}
use aul_private_location.Store.Schema.{Place, CircleMember}
use aul_private_location.Store.{
  DbError, no_rows, unavailable, World, Act, stop, pure, ◌>>=◌, ◌>>◌, or_else, run_query, send,
  publish, place_updated,
}
use aul_private_location.Store.Places.{list_places, create_place, update_place, soft_delete_place}
use aul_private_location.Http.{
  Handler, HttpError, bad_request, conflict, internal, any_internal, missing_is_404, parsed,
  required, Base64, decode_blob, max_blob_bytes,
}

pub record PlaceReq : Type 0 where
  pub ciphertext : List ℕ
  pub version : ℤ

unfoldable pub handle_list_places : CircleMember → Handler (List Place)
handle_list_places m = or_else (run_query (list_places m.circle_id)) any_internal

unfoldable pub handle_create_place : Base64 → ℕ → ℕ → CircleMember → Option PlaceReq → Handler Place
handle_create_place b64 now id m body = do
  req ← required body
  ciphertext ← required (decode_blob b64 max_blob_bytes req.ciphertext)
  p ← or_else (run_query (create_place now id m.circle_id ciphertext m.user_id)) any_internal
  send (publish place_updated m.circle_id)
  pure p

-- No row is a place that is gone, or whose version the client has not seen.
abbrev pub missing_is_409 : DbError → HttpError
missing_is_409 no_rows = conflict
missing_is_409 unavailable = internal

unfoldable pub handle_update_place :
    Base64 → ℕ → CircleMember → Option ℕ → Option PlaceReq → Handler Place
handle_update_place b64 now m param body = do
  id ← parsed bad_request param
  req ← required body
  ciphertext ← required (decode_blob b64 max_blob_bytes req.ciphertext)
  p ←
      or_else (run_query (update_place now id m.circle_id ciphertext m.user_id req.version))
        missing_is_409
  send (publish place_updated m.circle_id)
  pure p

unfoldable pub handle_delete_place : ℕ → CircleMember → Option ℕ → Handler (Unit {0})
handle_delete_place now m param = do
  id ← parsed bad_request param
  or_else (run_query (soft_delete_place now id m.circle_id m.user_id)) missing_is_404
  send (publish place_updated m.circle_id)
