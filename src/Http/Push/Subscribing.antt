-- ===== src/Http/Push/Subscribing.antt =====
-- The two shapes of a subscription, and a subscription that is taken back.
use aul_private_location.Base.{
  ℕ, ◌≡◌, refl, true, false, some, List, [], ◌∷◌, arith, ltb, length, ◌⊎◌, inl, inr,
}
use aul_private_location.Store.Schema.{web_push, fcm}
use aul_private_location.Store.Push.{UpsertPushSubscriptionParams}
use aul_private_location.Http.Push.{
  PushSubscribeReq, push_subscription_params, target, kind_web_push, kind_fcm, other_kind, is_empty,
  Kind,
}

Kind-cases : (k : Kind) → (k ≡ kind_web_push) ⊎ ((k ≡ kind_fcm) ⊎ (k ≡ other_kind))
Kind-cases kind_web_push = inl refl
Kind-cases kind_fcm = inr (inl refl)
Kind-cases other_kind = inr (inr refl)

nil_of : (l : List ℕ) → is_empty l ≡ true → l ≡ []
nil_of [] e = refl
nil_of (c ∷ cs) e = ground arith

-- The shapes of a subscription are never mixed: what is accepted is either an FCM token without any
-- field of a browser, stored as the endpoint with no keys, or an endpoint with both keys and no
-- token. The stored endpoint is the one that the same request takes back, is not empty and has at
-- most 4096 bytes.
pub params-Shape :
    (req : PushSubscribeReq) (p : UpsertPushSubscriptionParams)
    → push_subscription_params req ≡ some p
    → (((p.channel ≡ fcm)
          × (p.endpoint ≡ req.token)
          × (req.endpoint ≡ [])
          × (req.p256dh ≡ [])
          × (req.auth ≡ []))
        ⊎ ((p.channel ≡ web_push req.p256dh req.auth)
            × (p.endpoint ≡ req.endpoint)
            × (req.token ≡ [])
            × (is_empty req.p256dh ≡ false)
            × (is_empty req.auth ≡ false)))
      × (p.endpoint ≡ target req)
      × (is_empty p.endpoint ≡ false)
      × (ltb 4096 (length p.endpoint) ≡ false)
unfolding push_subscription_params
params-Shape req p e = elim (Kind-cases req.kind) [
  | inl k ↦ (
    inr (
      ground (arith, k),
      ground (arith, k),
      nil_of req.token (ground (arith, k)),
      ground (arith, k),
      ground (arith, k),
    ),
    ground (arith, k),
    ground (arith, k),
    ground (arith, k),
  )
  | inr (inl k) ↦ (
    inl (
      ground (arith, k),
      ground (arith, k),
      nil_of req.endpoint (ground (arith, k)),
      nil_of req.p256dh (ground (arith, k)),
      nil_of req.auth (ground (arith, k)),
    ),
    ground (arith, k),
    ground (arith, k),
    ground (arith, k),
  )
  | inr (inr k) ↦ ground (arith, k)
]
