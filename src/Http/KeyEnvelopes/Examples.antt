-- ===== src/Http/KeyEnvelopes/Examples.antt =====
-- An owner who seals the key for one device.
use aul_private_location.Base.{
  ℕ, ◌≡◌, refl, some, [], ◌∷◌, ◌++◌, has, find_row, select, any_row, All, pos,
}
use aul_private_location.Store.Schema.{Circle, CircleMember, owner}
use aul_private_location.Store.{
  run_query, send, with_tx_as, finish_tx_as, audit, publish, key_envelope_sent, key_envelope,
}
use aul_private_location.Store.Circles.{get_membership, get_circle, is_circle, is_member}
use aul_private_location.Store.Accounts.{list_circle_devices, belongs_to}
use aul_private_location.Store.KeyEnvelopes.{create_key_envelope}
use aul_private_location.Http.{decode_blob}
use aul_private_location.Http.Examples.{plain, reporting}
use aul_private_location.Http.KeyEnvelopes.{
  KeyEnvelopeItem, PostKeyEnvelopesReq, handle_post_key_envelopes, post_envelopes, post_envelope,
  device_ids,
}
use aul_private_location.Http.KeyEnvelopes.Waiting.{Delivered}
use aul_private_location.Http.KeyEnvelopes.Distribution.{post_key_envelopes-Delivered}

abbrev sealed : KeyEnvelopeItem
sealed = record { recipient_device_id = some 2; ciphertext = 3 ∷ []; key_epoch = pos 0 }

post_key_envelopes-Delivered_example :
    let req : PostKeyEnvelopesReq = record { circle_id = some 4; envelopes = sealed ∷ [] } in
    let after = (handle_post_key_envelopes plain 0 (λ n. n) 1 2 (some req) reporting).1 in
    let count : ℕ = 1 in
    (c : Circle) × (find_row (is_circle 4) reporting.db.circles ≡ some c)
    × (m : CircleMember) × (find_row (is_member 4 1) reporting.db.members ≡ some m)
    × (m.role ≡ owner)
    × (count ≡ 1)
    × All
        (Delivered 4 c.key_epoch
          (device_ids (select (belongs_to 4 reporting.db.members) reporting.db.devices))
          after.db.key_envelopes)
        (sealed ∷ [])
    × (after.sent ≡ ([] ++ audit key_envelope_sent ∷ []) ++ publish key_envelope 4 ∷ [])
unfolding handle_post_key_envelopes run_query get_membership get_circle list_circle_devices find_row
    select any_row with_tx_as finish_tx_as post_envelopes post_envelope has decode_blob
    create_key_envelope send
post_key_envelopes-Delivered_example =
    post_key_envelopes-Delivered plain 0 (λ n. n) 1 2 4 1 (sealed ∷ []) reporting refl
