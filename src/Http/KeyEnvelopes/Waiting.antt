-- ===== src/Http/KeyEnvelopes/Waiting.antt =====
-- The envelopes that the transaction of a request leaves waiting.
use aul_private_location.Base.{
  ℕ, ◌≡◌, sym, subst, Bool, true, ◌&&◌, ◌||◌, some, List, [], ◌∷◌, ◌++◌, arith, ◌==◌, ==_refl,
  length, has, is_none, find_row, any_row, any_row-find_row, modify, All, Option-cases, inl, inr,
}
use aul_private_location.Store.Schema.{Db, KeyEnvelope}
use aul_private_location.Store.{ok, World, run_query}
use aul_private_location.Store.Transactions.{Outcome-cases}
use aul_private_location.Store.KeyEnvelopes.{
  CreateKeyEnvelopeParams, create_key_envelope, same_envelope, resealed, new_envelope,
}
use aul_private_location.Http.{Base64, decode_blob, max_blob_bytes}
use aul_private_location.Http.KeyEnvelopes.{
  KeyEnvelopeItem, epoch_or, envelope_params, post_envelope, post_envelopes,
}

-- An envelope that its device has not consumed.
abbrev pub waiting : ℕ → ℕ → ℕ → KeyEnvelope → Bool
waiting circle device epoch e =
    e.circle_id == circle
    && e.recipient_device_id == device
    && e.key_epoch == epoch
    && is_none e.consumed_at

abbrev pub Waiting : ℕ → ℕ → ℕ → List KeyEnvelope → Type 0
Waiting circle device epoch rows = any_row (waiting circle device epoch) rows ≡ true

append-Waiting :
    (c d n : ℕ) (e : KeyEnvelope) (rows : List KeyEnvelope)
    → (any_row (waiting c d n) rows || waiting c d n e) ≡ true
    → Waiting c d n (rows ++ e ∷ [])
unfolding any_row
append-Waiting c d n e [] h = ground arith
append-Waiting c d n e (r ∷ rows) h = ground (arith, append-Waiting c d n e rows)

resealed-Waiting :
    (c d n now : ℕ) (p : CreateKeyEnvelopeParams) (rows : List KeyEnvelope)
    → Waiting c d n rows
    → Waiting c d n (modify (same_envelope p) (resealed now p) rows)
unfolding any_row modify
resealed-Waiting c d n now p [] h = ground arith
resealed-Waiting c d n now p (r ∷ rows) h = ground (arith, resealed-Waiting c d n now p rows)

resealed-here :
    (now : ℕ) (p : CreateKeyEnvelopeParams) (rows : List KeyEnvelope)
    → any_row (same_envelope p) rows ≡ true
    → Waiting p.circle_id p.recipient_device_id p.key_epoch
        (modify (same_envelope p) (resealed now p) rows)
unfolding any_row modify
resealed-here now p [] h = ground arith
resealed-here now p (r ∷ rows) h = ground (arith, resealed-here now p rows)

-- An insertion that succeeds leaves its envelope waiting, and every envelope that was.
create-Waiting :
    (now id : ℕ) (p : CreateKeyEnvelopeParams) (db : Db) (e : KeyEnvelope)
    → (create_key_envelope now id p db).0 ≡ ok e
    → let rows = (create_key_envelope now id p db).1.key_envelopes in
      Waiting p.circle_id p.recipient_device_id p.key_epoch rows
      × ((c d n : ℕ) → Waiting c d n db.key_envelopes → Waiting c d n rows)
unfolding create_key_envelope
create-Waiting now id p db e h = elim (Option-cases (find_row (same_envelope p) db.key_envelopes)) [
  | inl n ↦ (
    ground (
      arith,
      append-Waiting p.circle_id p.recipient_device_id p.key_epoch (new_envelope now id p)
          db.key_envelopes,
      ==_refl p.circle_id,
      ==_refl p.recipient_device_id,
      ==_refl p.key_epoch,
    ),
    (λ c d k w. ground (arith, append-Waiting c d k (new_envelope now id p) db.key_envelopes)),
  )
  | inr (r, f) ↦ (
    ground (
      arith,
      any_row-find_row (same_envelope p) db.key_envelopes r f,
      resealed-here now p db.key_envelopes,
    ),
    (λ c d k w. ground (arith, resealed-Waiting c d k now p db.key_envelopes)),
  )
]

-- The device of an item is one of `valid`, and its envelope waits for it.
abbrev pub Delivered : ℕ → ℕ → List ℕ → List KeyEnvelope → KeyEnvelopeItem → Type 0
Delivered circle current valid rows item =
    (r : ℕ) × (item.recipient_device_id ≡ some r)
    × (has r valid ≡ true)
    × (any_row (waiting circle r (epoch_or current item.key_epoch)) rows ≡ true)

post_envelope-Delivered :
    (b64 : Base64) (now id circle current device : ℕ) (valid : List ℕ) (item : KeyEnvelopeItem)
    (w : World)
    → (post_envelope b64 now id circle current device valid item w).0 ≡ ok tt
    → let rows = (post_envelope b64 now id circle current device valid item w).1.db.key_envelopes in
      Delivered circle current valid rows item
      × ((c d n : ℕ) → Waiting c d n w.db.key_envelopes → Waiting c d n rows)
unfolding post_envelope run_query
post_envelope-Delivered b64 now id circle current device valid item w e =
    elim (Option-cases item.recipient_device_id) [
      | inl n ↦ ground arith
      | inr (r, f) ↦ elim (Option-cases (decode_blob b64 max_blob_bytes item.ciphertext)) [
        | inl n ↦ ground arith
        | inr (text, g) ↦
            let p = envelope_params circle current device r text item.key_epoch in
            elim (Outcome-cases (create_key_envelope now id p w.db).0) [
              | inl (x, h) ↦ ground arith
              | inr (k, h) ↦
                  let (here, kept) = create-Waiting now id p w.db k h in
                  let final : (post_envelope b64 now id circle current device valid item
                        w).1.db.key_envelopes
                      ≡ (create_key_envelope now id p w.db).1.key_envelopes =
                    ground arith in
                  (
                    (
                      r,
                      f,
                      ground arith,
                      subst (Waiting circle r (epoch_or current item.key_epoch)) (sym final) here,
                    ),
                    (λ c d n a. subst (Waiting c d n) (sym final) (kept c d n a)),
                  )
            ]
      ]
    ]

pub post_envelopes-Delivered :
    (b64 : Base64) (now : ℕ) (fresh : ℕ → ℕ) (circle current device : ℕ) (valid : List ℕ)
    (items : List KeyEnvelopeItem) (w : World)
    → (post_envelopes b64 now fresh circle current device valid items w).0 ≡ ok tt
    → let rows =
        (post_envelopes b64 now fresh circle current device valid items w).1.db.key_envelopes in
      All (Delivered circle current valid rows) items
      × ((c d n : ℕ) → Waiting c d n w.db.key_envelopes → Waiting c d n rows)
unfolding post_envelopes
post_envelopes-Delivered b64 now fresh circle current device valid [] w e = (tt, (λ c d n a. a))
post_envelopes-Delivered b64 now fresh circle current device valid (item ∷ items) w e =
    let one = post_envelope b64 now (fresh (length items)) circle current device valid item w in
    let w' = one.1 in
    elim (Outcome-cases one.0) [
      | inl (x, h) ↦ ground arith
      | inr (u, h) ↦
          let step =
            post_envelope-Delivered b64 now (fresh (length items)) circle current device valid item
              w h in
          let here = step.0 in
          let kept = step.1 in
          let final : (post_envelopes b64 now fresh circle current device valid (item ∷ items)
                w).1.db.key_envelopes
              ≡ (post_envelopes b64 now fresh circle current device valid items
                  w').1.db.key_envelopes =
            ground arith in
          let rest =
            post_envelopes-Delivered b64 now fresh circle current device valid items w'
              (ground arith) in
          let all = rest.0 in
          let still = rest.1 in
          (
            (
              (
                here.0,
                here.1,
                here.2,
                subst (Waiting circle here.0 (epoch_or current item.key_epoch)) (sym final)
                    (still circle here.0 (epoch_or current item.key_epoch) here.3),
              ),
              subst (λ rows. All (Delivered circle current valid rows) items) (sym final) all,
            ),
            (λ c d n a. subst (Waiting c d n) (sym final) (still c d n (kept c d n a))),
          )
    ]
