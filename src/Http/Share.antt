-- ===== src/Http/Share.antt =====
-- The handlers of server/internal/httpapi/share.go. Tokens are numbers; `hash` stands for
-- crypto.HashTokenBytes under the server's pepper, whose outputs are compared for equality. The
-- cookie that a viewer presents is the one named after the link, `none` when there is none.
pub mod OneDevice
mod Examples
use aul_private_location.Base.{
  ℕ, ◌+◌, ◌*◌, ◌-◌, ◌/◌, Bool, true, false, not, ◌&&◌, ◌||◌, Option, none, some, List, [], ◌∷◌,
  ◌==◌, ltb, leb, if◌then◌else◌, is_none, ℤ, pos, negsuc,
}
use aul_private_location.Store.Schema.{ShareSession, SharePosition, ns_per_ms, stime}
use aul_private_location.Store.{
  DbError, no_rows, unavailable, Outcome, ok, err, World, Act, stop, pure, ◌>>=◌, ◌>>◌, or_else,
  try, run_query, send, set_share_cookie,
}
use aul_private_location.Store.Shares.{
  bind_share_viewer, create_share_session, get_share_position, get_share_session,
  get_share_session_for_owner, list_share_sessions_for_user, revoke_share_session,
  upsert_share_position,
}
use aul_private_location.Http.{
  Handler, HttpError, bad_request, forbidden, not_found, gone, internal, any_internal,
  missing_is_404, parsed, required, Base64, decode_blob, max_blob_bytes, max_nonce_bytes,
}

abbrev second_ns : ℕ
second_ns = 1000000000

abbrev pub min_share_ttl : ℕ
min_share_ttl = 60 * second_ns

abbrev pub max_share_ttl : ℕ
max_share_ttl = 3600 * second_ns

abbrev pub default_share_ttl : ℕ
default_share_ttl = 900 * second_ns

abbrev ping_future_skew : ℕ
ping_future_skew = 300 * second_ns

-- The comparison stays in seconds, as the source does it.
unfoldable pub clamp_share_ttl : ℤ → ℕ
clamp_share_ttl (negsuc n) = default_share_ttl
clamp_share_ttl (pos n) =
    if n == 0
    then default_share_ttl
    else if ltb n 60
    then min_share_ttl
    else if ltb 3600 n
    then max_share_ttl
    else n * second_ns

-- The body is optional, and `none` is one that DecodeJSON refuses.
unfoldable pub handle_create_share : ℕ → ℕ → ℕ → Option ℤ → Handler ShareSession
handle_create_share now id user body = do
  ttl_seconds ← required body
  or_else (run_query (create_share_session now id user (now + clamp_share_ttl ttl_seconds)))
      any_internal

unfoldable pub handle_list_shares : ℕ → ℕ → Handler (List ShareSession)
handle_list_shares now user =
    or_else (run_query (list_share_sessions_for_user now user)) any_internal

unfoldable pub handle_revoke_share : ℕ → ℕ → Option ℕ → Handler (Unit {0})
handle_revoke_share now user param = do
  id ← parsed not_found param
  or_else (run_query (revoke_share_session now id user)) missing_is_404
  pure tt

abbrev pub share_live : ℕ → ShareSession → Bool
share_live now s = is_none s.revoked_at && ltb now (stime s.expires_at)

abbrev when_live : ℕ → ShareSession → Handler (Unit {0})
when_live now s = if share_live now s then pure tt else stop gone

-- `loadOwnedShare`
unfoldable pub load_owned_share : ℕ → ℕ → Option ℕ → Handler ShareSession
load_owned_share now user param = do
  id ← parsed not_found param
  s ← or_else (run_query (get_share_session_for_owner id user)) missing_is_404
  when_live now s
  pure s

-- `captured_at` is `none` when it is no RFC 3339 time.
pub record SharePingReq : Type 0 where
  pub nonce : List ℕ
  pub ciphertext : List ℕ
  pub captured_at : Option ℕ

abbrev in_window : ℕ → ℕ → Bool
in_window now captured =
    not (ltb (captured + max_share_ttl) now) && not (ltb (now + ping_future_skew) captured)

unfoldable pub handle_share_ping :
    Base64 → ℕ → ℕ → Option ℕ → Option SharePingReq → Handler (Unit {0})
handle_share_ping b64 now user param body = do
  s ← load_owned_share now user param
  req ← required body
  nonce ← required (decode_blob b64 max_nonce_bytes req.nonce)
  ciphertext ← required (decode_blob b64 max_blob_bytes req.ciphertext)
  captured ← required req.captured_at
  if in_window now captured
      then or_else (run_query (upsert_share_position now s.id nonce ciphertext captured))
          any_internal
      else stop bad_request

-- `setShareCookie`: the cookie lives as long as the session, a second at least.
abbrev pub cookie_max_age : ℕ → ShareSession → ℕ
cookie_max_age now s =
    let seconds = (stime s.expires_at - now) / second_ns in if ltb seconds 1 then 1 else seconds

abbrev pub hash_matches : ℕ → Option ℕ → Bool
hash_matches h none = false
hash_matches h (some stored) = h == stored

abbrev pub cookie_matches : (ℕ → ℕ) → Option ℕ → ShareSession → Bool
cookie_matches hash none s = false
cookie_matches hash (some token) s = hash_matches (hash token) s.viewer_token_hash

abbrev check_cookie : (ℕ → ℕ) → Option ℕ → ShareSession → Handler ShareSession
check_cookie hash cookie s = if cookie_matches hash cookie s then pure s else stop forbidden

gone_error : DbError → HttpError
gone_error no_rows = gone
gone_error unavailable = internal

-- The outcome of the compare-and-swap: bound, or another viewer was first.
after_bind : (ℕ → ℕ) → ℕ → Option ℕ → ℕ → ℕ → Outcome DbError ShareSession → Handler ShareSession
after_bind hash now cookie id token (ok bound) = do
  send (set_share_cookie bound.id token (cookie_max_age now bound))
  pure bound
after_bind hash now cookie id token (err no_rows) = do
  reloaded ← or_else (run_query (get_share_session id)) gone_error
  check_cookie hash cookie reloaded
after_bind hash now cookie id token (err unavailable) = stop internal

bind_first : (ℕ → ℕ) → ℕ → Option ℕ → Option ℕ → ShareSession → Option ℕ → Handler ShareSession
bind_first hash now cookie fresh s (some h) = check_cookie hash cookie s
bind_first hash now cookie none s none = stop internal
bind_first hash now cookie (some token) s none = do
  swapped ← try (run_query (bind_share_viewer now s.id (hash token)))
  after_bind hash now cookie s.id token swapped

-- `bindShareViewer`: the session as it is afterwards, where the request may proceed. `fresh` is the
-- outcome of crypto.GenerateToken.
unfoldable pub bind_viewer : (ℕ → ℕ) → ℕ → Option ℕ → Option ℕ → ShareSession → Handler ShareSession
unfolding bind_first after_bind gone_error
bind_viewer hash now cookie fresh s = bind_first hash now cookie fresh s s.viewer_token_hash

pub record Viewed : Type 0 where
  pub expires_at : ℕ
  pub position : Option SharePosition

abbrev seen_position : Outcome DbError SharePosition → Handler (Option SharePosition)
seen_position (ok p) = pure (some p)
seen_position (err no_rows) = pure none
seen_position (err unavailable) = stop internal

unfoldable pub handle_get_share : (ℕ → ℕ) → ℕ → Option ℕ → Option ℕ → Option ℕ → Handler Viewed
handle_get_share hash now cookie fresh param = do
  id ← parsed not_found param
  s ← or_else (run_query (get_share_session id)) missing_is_404
  when_live now s
  viewed ← bind_viewer hash now cookie fresh s
  found ← try (run_query (get_share_position viewed.id))
  position ← seen_position found
  pure (record { expires_at = stime viewed.expires_at; position = position })
