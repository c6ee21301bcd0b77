-- ===== src/Store/KeyEnvelopes.antt =====
-- The envelope queries of server/internal/store/sqlite_queries.go (key_envelopes.sql).
use aul_private_location.Base.{
  ℕ, ◌*◌, ◌-◌, Bool, not, ◌&&◌, ◌||◌, none, some, List, [], ◌∷◌, ◌++◌, ◌==◌, ltb, if◌then◌else◌,
  is_none, find_row, select, modify, any_row, delete,
}
use aul_private_location.Store.Schema.{Db, KeyEnvelope, tv}
use aul_private_location.Store.{unavailable, ok, err, Query}
use aul_private_location.Store.Shares.{before}

pub record CreateKeyEnvelopeParams : Type 0 where
  pub circle_id : ℕ
  pub recipient_device_id : ℕ
  pub sender_device_id : ℕ
  pub ciphertext : List ℕ
  pub key_epoch : ℕ

abbrev pub new_envelope : ℕ → ℕ → CreateKeyEnvelopeParams → KeyEnvelope
new_envelope now id p = record {
  id = id;
  circle_id = p.circle_id;
  recipient_device_id = p.recipient_device_id;
  sender_device_id = some p.sender_device_id;
  ciphertext = p.ciphertext;
  key_epoch = p.key_epoch;
  created_at = tv now;
  consumed_at = none;
}

-- The unique key (circle_id, recipient_device_id, key_epoch).
abbrev pub same_envelope : CreateKeyEnvelopeParams → KeyEnvelope → Bool
same_envelope p e =
    e.circle_id == p.circle_id
    && e.recipient_device_id == p.recipient_device_id
    && e.key_epoch == p.key_epoch

abbrev pub resealed : ℕ → CreateKeyEnvelopeParams → KeyEnvelope → KeyEnvelope
resealed now p e = record e {
  ciphertext = p.ciphertext;
  sender_device_id = some p.sender_device_id;
  created_at = tv now;
  consumed_at = none;
}

abbrev envelope_allowed : Db → ℕ → CreateKeyEnvelopeParams → Bool
envelope_allowed db id p =
    any_row (λ c. c.id == p.circle_id) db.circles
    && any_row (λ d. d.id == p.recipient_device_id) db.devices
    && any_row (λ d. d.id == p.sender_device_id) db.devices

-- INSERT … ON CONFLICT DO UPDATE.
unfoldable pub create_key_envelope : ℕ → ℕ → CreateKeyEnvelopeParams → Query KeyEnvelope
create_key_envelope now id p db =
    if not (envelope_allowed db id p)
    then (err unavailable, db)
    else elim (find_row (same_envelope p) db.key_envelopes) [
      | some e ↦ (
        ok (resealed now p e),
        record db { key_envelopes = modify (same_envelope p) (resealed now p) db.key_envelopes },
      )
      | none ↦ if any_row (λ e. e.id == id) db.key_envelopes then (err unavailable, db) else (
        ok (new_envelope now id p),
        record db { key_envelopes = db.key_envelopes ++ new_envelope now id p ∷ [] },
      )
    ]

abbrev pub awaits : ℕ → ℕ → KeyEnvelope → Bool
awaits id device e = e.id == id && e.recipient_device_id == device && is_none e.consumed_at

abbrev pub consumed : ℕ → KeyEnvelope → KeyEnvelope
consumed now e = record e { consumed_at = some (tv now) }

unfoldable pub mark_envelope_consumed : ℕ → ℕ → ℕ → Query (Unit {0})
mark_envelope_consumed now id device db =
    (ok tt, record db { key_envelopes = modify (awaits id device) (consumed now) db.key_envelopes })

abbrev pub pending_for : ℕ → KeyEnvelope → Bool
pending_for device e = e.recipient_device_id == device && is_none e.consumed_at

-- The rows of PendingEnvelopesForDevice before its LIMIT of 500, and not in its order.
unfoldable pub pending_envelopes_for_device : ℕ → Query (List KeyEnvelope)
pending_envelopes_for_device device db = (ok (select (pending_for device) db.key_envelopes), db)

abbrev pub day_ns : ℕ
day_ns = 86400000000000

abbrev pub is_spent : ℕ → KeyEnvelope → Bool
is_spent now e =
    before (tv (now - 7 * day_ns)) e.consumed_at
    || (is_none e.consumed_at && ltb e.created_at (tv (now - 30 * day_ns)))

unfoldable pub prune_key_envelopes : ℕ → Query (Unit {0})
prune_key_envelopes now db =
    (ok tt, record db { key_envelopes = delete (is_spent now) db.key_envelopes })
