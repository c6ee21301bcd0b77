-- ===== src/Http/Sos.antt =====
-- The handlers of server/internal/httpapi/sos.go.
pub mod Resolving
mod Examples
use aul_private_location.Base.{ℕ, Option, none, some, List}
use aul_private_location.Store.Schema.{SosEvent, CircleMember}
use aul_private_location.Store.{
  World, Act, stop, pure, ◌>>=◌, ◌>>◌, or_else, run_query, send, audit, publish, sos_created,
  sos_resolved, sos, sos_resolved_topic,
}
use aul_private_location.Store.Sos.{create_sos, resolve_sos, list_active_sos}
use aul_private_location.Http.{
  Handler, bad_request, any_internal, missing_is_404, parsed, required, Base64, decode_blob,
  max_blob_bytes,
}

-- The request is its one field.
unfoldable pub handle_create_sos :
    Base64 → ℕ → ℕ → CircleMember → ℕ → Option (List ℕ) → Handler SosEvent
handle_create_sos b64 now id m device body = do
  req ← required body
  ciphertext ← required (decode_blob b64 max_blob_bytes req)
  e ← or_else (run_query (create_sos now id m.circle_id device ciphertext)) any_internal
  send (audit sos_created)
  send (publish sos m.circle_id)
  pure e

unfoldable pub handle_resolve_sos : ℕ → CircleMember → Option ℕ → Handler SosEvent
handle_resolve_sos now m param = do
  id ← parsed bad_request param
  e ← or_else (run_query (resolve_sos now id m.circle_id m.user_id)) missing_is_404
  send (audit sos_resolved)
  send (publish sos_resolved_topic m.circle_id)
  pure e

unfoldable pub handle_list_sos : CircleMember → Handler (List SosEvent)
handle_list_sos m = or_else (run_query (list_active_sos m.circle_id)) any_internal
