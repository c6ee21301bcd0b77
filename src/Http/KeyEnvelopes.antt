-- ===== src/Http/KeyEnvelopes.antt =====
-- The handlers of server/internal/httpapi/keyenvelopes.go.
pub mod Waiting
pub mod Distribution
mod Examples
use aul_private_location.Base.{
  ℕ, Bool, true, false, Option, none, some, List, [], ◌∷◌, map, ◌==◌, ltb, if◌then◌else◌, length,
  has, ℤ, pos, negsuc,
}
use aul_private_location.Store.Schema.{Device, KeyEnvelope, CircleMember}
use aul_private_location.Store.{
  DbError, World, Act, stop, pure, ◌>>=◌, ◌>>◌, or_else, run_query, with_tx_as, send, audit,
  publish, key_envelope_sent, key_envelope,
}
use aul_private_location.Store.Circles.{get_membership, get_circle}
use aul_private_location.Store.Accounts.{list_circle_devices}
use aul_private_location.Store.KeyEnvelopes.{
  CreateKeyEnvelopeParams, create_key_envelope, pending_envelopes_for_device,
  mark_envelope_consumed,
}
use aul_private_location.Http.{
  Handler, HttpError, bad_request, internal, any_internal, missing_is_404, parsed, required,
  require_owner, Base64, decode_blob, max_blob_bytes,
}

unfoldable pub handle_circle_devices : CircleMember → Handler (List Device)
handle_circle_devices m = or_else (run_query (list_circle_devices m.circle_id)) any_internal

abbrev pub max_key_envelopes : ℕ
max_key_envelopes = 200

pub record KeyEnvelopeItem : Type 0 where
  pub recipient_device_id : Option ℕ
  pub ciphertext : List ℕ
  pub key_epoch : ℤ

pub record PostKeyEnvelopesReq : Type 0 where
  pub circle_id : Option ℕ
  pub envelopes : List KeyEnvelopeItem

-- `itemError`, and any other error of the transaction.
pub data TxError : Type 0 where
  item_error : TxError
  db_error : DbError → TxError

abbrev pub tx_answer : TxError → HttpError
tx_answer item_error = bad_request
tx_answer (db_error e) = internal

abbrev pub demand : {A : Type 0} → Option A → Act TxError A
demand none = stop item_error
demand (some a) = pure a

-- An epoch that is not positive means the circle's own.
abbrev pub epoch_or : ℕ → ℤ → ℕ
epoch_or current (negsuc n) = current
epoch_or current (pos n) = if n == 0 then current else n

abbrev pub envelope_params : ℕ → ℕ → ℕ → ℕ → List ℕ → ℤ → CreateKeyEnvelopeParams
envelope_params circle current device recipient ciphertext epoch = record {
  circle_id = circle;
  recipient_device_id = recipient;
  sender_device_id = device;
  ciphertext = ciphertext;
  key_epoch = epoch_or current epoch;
}

-- One round of the loop: `current` is the epoch of the circle, `valid` the devices of its members.
unfoldable pub post_envelope :
    Base64 → ℕ → ℕ → ℕ → ℕ → ℕ → List ℕ → KeyEnvelopeItem → Act TxError (Unit {0})
post_envelope b64 now id circle current device valid item = do
  recipient ← demand item.recipient_device_id
  if has recipient valid then pure tt else stop item_error
  ciphertext ← demand (decode_blob b64 max_blob_bytes item.ciphertext)
  or_else
      (run_query (
        create_key_envelope now id
          (envelope_params circle current device recipient ciphertext item.key_epoch)))
      db_error
  pure tt

-- `fresh n` is the id of the envelope that has n after it.
unfoldable pub post_envelopes :
    Base64 → ℕ → (ℕ → ℕ) → ℕ → ℕ → ℕ → List ℕ → List KeyEnvelopeItem → Act TxError (Unit {0})
post_envelopes b64 now fresh circle current device valid [] = pure tt
post_envelopes b64 now fresh circle current device valid (item ∷ items) =
    post_envelope b64 now (fresh (length items)) circle current device valid item
    >> post_envelopes b64 now fresh circle current device valid items

-- 1 to 200 items.
envelope_count : List KeyEnvelopeItem → Option ℕ
envelope_count items =
    if length items == 0
    then none
    else if ltb max_key_envelopes (length items)
    then none
    else some (length items)

abbrev pub device_ids : List Device → List ℕ
device_ids ds = map (λ d. d.id) ds

-- The answer counts the envelopes delivered.
unfoldable pub handle_post_key_envelopes :
    Base64 → ℕ → (ℕ → ℕ) → ℕ → ℕ → Option PostKeyEnvelopesReq → Handler ℕ
unfolding envelope_count
handle_post_key_envelopes b64 now fresh user device body = do
  req ← required body
  circle ← parsed bad_request req.circle_id
  m ← or_else (run_query (get_membership circle user)) missing_is_404
  require_owner m.role
  count ← required (envelope_count req.envelopes)
  c ← or_else (run_query (get_circle circle)) any_internal
  ds ← or_else (run_query (list_circle_devices circle)) any_internal
  or_else
      (with_tx_as db_error
        (post_envelopes b64 now fresh circle c.key_epoch device (device_ids ds) req.envelopes))
      tx_answer
  send (audit key_envelope_sent)
  send (publish key_envelope circle)
  pure count

unfoldable pub handle_pending_key_envelopes : ℕ → Handler (List KeyEnvelope)
handle_pending_key_envelopes device =
    or_else (run_query (pending_envelopes_for_device device)) any_internal

unfoldable pub handle_consume_key_envelope : ℕ → ℕ → Option ℕ → Handler (Unit {0})
handle_consume_key_envelope now device param = do
  id ← parsed bad_request param
  or_else (run_query (mark_envelope_consumed now id device)) any_internal
