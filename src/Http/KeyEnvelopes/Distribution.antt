-- ===== src/Http/KeyEnvelopes/Distribution.antt =====
-- What an owner who distributes a key leaves for the devices.
use aul_private_location.Base.{
  ℕ, ◌+◌, ◌≡◌, refl, sym, subst, some, List, [], ◌∷◌, ◌++◌, arith, length, find_row, select, All,
  Option-cases, inl, inr,
}
use aul_private_location.Store.Schema.{Circle, CircleMember, owner}
use aul_private_location.Store.{
  ok, World, run_query, with_tx_as, send, audit, publish, key_envelope_sent, key_envelope,
}
use aul_private_location.Store.Transactions.{
  Outcome-cases, begun, with_tx_as-commits, with_tx_as-sent,
}
use aul_private_location.Store.Circles.{get_membership, get_circle, is_member, is_circle}
use aul_private_location.Store.Accounts.{list_circle_devices, belongs_to}
use aul_private_location.Http.{Base64}
use aul_private_location.Http.KeyEnvelopes.{
  KeyEnvelopeItem, PostKeyEnvelopesReq, db_error, post_envelope, post_envelopes, envelope_count,
  device_ids, handle_post_key_envelopes,
}
use aul_private_location.Http.KeyEnvelopes.Waiting.{Delivered, post_envelopes-Delivered}

post_envelope-sent :
    (b64 : Base64) (now id circle current device : ℕ) (valid : List ℕ) (item : KeyEnvelopeItem)
    (w : World)
    → (post_envelope b64 now id circle current device valid item w).1.sent ≡ w.sent
unfolding post_envelope run_query
post_envelope-sent b64 now id circle current device valid item w = ground arith

post_envelopes-sent :
    (b64 : Base64) (now : ℕ) (fresh : ℕ → ℕ) (circle current device : ℕ) (valid : List ℕ)
    (items : List KeyEnvelopeItem) (w : World)
    → (post_envelopes b64 now fresh circle current device valid items w).1.sent ≡ w.sent
unfolding post_envelopes
post_envelopes-sent b64 now fresh circle current device valid [] w = refl
post_envelopes-sent b64 now fresh circle current device valid (item ∷ items) w =
    let one = post_envelope b64 now (fresh (length items)) circle current device valid item w in
    ground (
      arith,
      post_envelope-sent b64 now (fresh (length items)) circle current device valid item w,
      post_envelopes-sent b64 now fresh circle current device valid items one.1,
    )

-- When an owner distributes keys and the request succeeds, the caller is an owner of the circle, and
-- every item is for a device of a member of the circle, which has an envelope of the circle at the
-- item's epoch, or at the circle's where the item names none, that it has not consumed; the audit
-- log and then the circle are told.
pub post_key_envelopes-Delivered :
    (b64 : Base64) (now : ℕ) (fresh : ℕ → ℕ) (user device circle count : ℕ)
    (items : List KeyEnvelopeItem) (w : World)
    → let req : PostKeyEnvelopesReq = record { circle_id = some circle; envelopes = items } in
      let after = (handle_post_key_envelopes b64 now fresh user device (some req) w).1 in
      (handle_post_key_envelopes b64 now fresh user device (some req) w).0 ≡ ok count
      → (c : Circle) × (find_row (is_circle circle) w.db.circles ≡ some c)
        × (m : CircleMember) × (find_row (is_member circle user) w.db.members ≡ some m)
        × (m.role ≡ owner)
        × (count ≡ length items)
        × All
            (Delivered circle c.key_epoch
              (device_ids (select (belongs_to circle w.db.members) w.db.devices))
              after.db.key_envelopes)
            items
        × (after.sent
            ≡ (w.sent ++ audit key_envelope_sent ∷ []) ++ publish key_envelope circle ∷ [])
unfolding handle_post_key_envelopes envelope_count run_query get_membership get_circle
    list_circle_devices send
post_key_envelopes-Delivered b64 now fresh user device circle count items w e =
    elim (Option-cases (find_row (is_member circle user) w.db.members)) [
      | inl n ↦ ground arith
      | inr (m, f) ↦ elim (Option-cases (find_row (is_circle circle) w.db.circles)) [
        | inl n ↦ ground arith
        | inr (c, g) ↦
            let valid = device_ids (select (belongs_to circle w.db.members) w.db.devices) in
            let body = post_envelopes b64 now fresh circle c.key_epoch device valid items in
            let read : World = record w { calls = w.calls + 1 + 1 + 1 } in
            elim (Outcome-cases (with_tx_as db_error body read).0) [
              | inl (x, h) ↦ ground arith
              | inr (u, h) ↦
                  let tx = with_tx_as-commits db_error body read tt h in
                  let all =
                    (post_envelopes-Delivered b64 now fresh circle c.key_epoch device valid items
                      (begun read) tx.0).0 in
                  let quiet =
                    with_tx_as-sent db_error body read
                      (post_envelopes-sent b64 now fresh circle c.key_epoch device valid items) in
                  let final : (handle_post_key_envelopes b64 now fresh user device
                        (some (record { circle_id = some circle; envelopes = items })) w).1.db
                      ≡ (body (begun read)).1.db =
                    ground (arith, tx.1) in
                  (
                    c,
                    g,
                    m,
                    f,
                    ground arith,
                    ground arith,
                    subst (λ db. All (Delivered circle c.key_epoch valid db.key_envelopes) items)
                        (sym final) all,
                    ground (arith, quiet),
                  )
            ]
      ]
    ]
