-- ===== src/Http/Pings.antt =====
-- The handlers of server/internal/httpapi/pings.go. A time counts nanoseconds from the year 0, before
-- which RFC 3339 has none; a text is its bytes.
pub mod Storing
pub mod Preparing
pub mod Batches
mod Examples
use aul_private_location.Base.{
  ℕ, ◌+◌, ◌-◌, ◌*◌, Bool, true, false, not, ◌&&◌, Option, none, some, List, [], ◌∷◌, ◌++◌, ◌==◌,
  ltb, leb, if◌then◌else◌, length, ℤ, pos, negsuc, Map, get, put, empty,
}
use aul_private_location.Store.Schema.{Ping, CircleMember}
use aul_private_location.Store.{
  DbError, no_rows, unavailable, Outcome, ok, err, World, Act, stop, pure, ◌>>=◌, ◌>>◌, or_else,
  try, run_query, with_tx, send, publish_ping,
}
use aul_private_location.Store.Circles.{get_membership}
use aul_private_location.Store.Pings.{InsertPingParams, insert_ping, latest_pings_for_circle}
use aul_private_location.Store.Accounts.{touch_device}
use aul_private_location.Http.{
  Handler, bad_request, forbidden, internal, any_internal, required, Base64, decode_blob,
  max_blob_bytes, max_nonce_bytes,
}
use aul_private_location.Http.Circles.{Limits}
use aul_private_location.Http.Invites.{duration_bits, int64_half, int64_mod, day_ns, second_ns}

abbrev pub max_batch_pings : ℕ
max_batch_pings = 100

abbrev pub ping_future_skew : ℕ
ping_future_skew = 300 * second_ns

-- `circle_id` is `none` when it is no UUID, and `captured_at` when it is no RFC 3339 time.
pub record PingItem : Type 0 where
  pub circle_id : Option ℕ
  pub client_id : List ℕ
  pub nonce : List ℕ
  pub ciphertext : List ℕ
  pub captured_at : Option ℕ
  pub ttl_seconds : ℤ

-- `checkMember`, with the map `memberOf`.
remembered : Map Bool → ℕ → Outcome DbError CircleMember → Handler (Bool × Map Bool)
remembered seen circle (ok m) = pure (true, put seen circle true)
remembered seen circle (err no_rows) = pure (false, put seen circle false)
remembered seen circle (err unavailable) = stop internal

check_member : ℕ → Map Bool → ℕ → Handler (Bool × Map Bool)
unfolding remembered
check_member user seen circle = elim (get seen circle) [
  | some v ↦ pure (v, seen)
  | none ↦ do found ← try (run_query (get_membership circle user)); remembered seen circle found
]

-- `captured.Add(d)` for the signed 64 bits of `d`.
abbrev pub plus_bits : ℕ → ℕ → ℕ
plus_bits t bits = if leb int64_half bits then t - (int64_mod - bits) else t + bits

abbrev pub ping_expiry : ℕ → ℤ → Option ℕ
ping_expiry captured (negsuc n) = none
ping_expiry captured (pos n) =
    if n == 0 then none else some (plus_bits captured (duration_bits (pos n)))

abbrev pub in_ping_window : Limits → ℕ → ℕ → Bool
in_ping_window limits now captured =
    not (ltb (captured + limits.max_retention_days * day_ns) now)
    && not (ltb (now + ping_future_skew) captured)

abbrev valid_client_id : List ℕ → Option (List ℕ)
valid_client_id [] = none
valid_client_id (c ∷ cs) = if ltb 128 (length (c ∷ cs)) then none else some (c ∷ cs)

-- One round of the loop over the items: the checks in their order.
unfoldable pub prepare_item :
    Base64 → Limits → ℕ → ℕ → ℕ → Map Bool → PingItem → Handler (InsertPingParams × Map Bool)
unfolding check_member
prepare_item b64 limits now user device seen item = do
  circle ← required item.circle_id
  checked ← check_member user seen circle
  if checked.0 then pure tt else stop forbidden
  client_id ← required (valid_client_id item.client_id)
  nonce ← required (decode_blob b64 max_nonce_bytes item.nonce)
  ciphertext ← required (decode_blob b64 max_blob_bytes item.ciphertext)
  captured ← required item.captured_at
  if in_ping_window limits now captured then pure tt else stop bad_request
  pure (
    record {
      circle_id = circle;
      device_id = device;
      client_id = client_id;
      nonce = nonce;
      ciphertext = ciphertext;
      captured_at = captured;
      expires_at = ping_expiry captured item.ttl_seconds;
    },
    checked.1,
  )

unfoldable pub prepare_items :
    Base64 → Limits → ℕ → ℕ → ℕ → Map Bool → List PingItem → Handler (List InsertPingParams)
prepare_items b64 limits now user device seen [] = pure []
prepare_items b64 limits now user device seen (item ∷ items) = do
  p ← prepare_item b64 limits now user device seen item
  rest ← prepare_items b64 limits now user device p.1 items
  pure (p.0 ∷ rest)

-- A ping that is there already is skipped.
abbrev pub inserted_row : Outcome DbError Ping → Act DbError (List Ping)
inserted_row (ok row) = pure (row ∷ [])
inserted_row (err no_rows) = pure []
inserted_row (err unavailable) = stop unavailable

-- `fresh n` is the id of the ping that has n pings after it.
unfoldable pub insert_all : ℕ → (ℕ → ℕ) → List InsertPingParams → Act DbError (List Ping)
insert_all now fresh [] = pure []
insert_all now fresh (p ∷ ps) = do
  o ← try (run_query (insert_ping now (fresh (length ps)) p))
  row ← inserted_row o
  rest ← insert_all now fresh ps
  pure (row ++ rest)

-- The transaction.
unfoldable pub store_batch : ℕ → (ℕ → ℕ) → ℕ → List InsertPingParams → Act DbError (List Ping)
store_batch now fresh device ps = do
  inserted ← insert_all now fresh ps
  run_query (touch_device now device)
  pure inserted

unfoldable pub fan_out : List Ping → Handler (Unit {0})
fan_out [] = pure tt
fan_out (row ∷ rows) = send (publish_ping row) >> fan_out rows

pub record BatchResult : Type 0 where
  pub accepted : ℕ
  pub stored : ℕ
  pub duplicate : ℕ

-- `len(req.Pings)`, with 400 for an empty batch and one over the limit.
batch_size : List PingItem → Option ℕ
batch_size items =
    if length items == 0
    then none
    else if ltb max_batch_pings (length items)
    then none
    else some (length items)

unfoldable pub handle_ping_batch :
    Base64 → Limits → ℕ → (ℕ → ℕ) → ℕ → ℕ → Option (List PingItem) → Handler BatchResult
unfolding batch_size
handle_ping_batch b64 limits now fresh user device body = do
  items ← required body
  size ← required (batch_size items)
  params ← prepare_items b64 limits now user device empty items
  inserted ← or_else (with_tx (store_batch now fresh device params)) any_internal
  fan_out inserted
  pure (record { accepted = size; stored = length inserted; duplicate = size - length inserted })

unfoldable pub handle_latest_pings : CircleMember → Handler (List Ping)
handle_latest_pings m = or_else (run_query (latest_pings_for_circle m.circle_id)) any_internal
