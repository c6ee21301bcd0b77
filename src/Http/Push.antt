-- ===== src/Http/Push.antt =====
-- Push subscriptions and the fan-out of a sealed notification: server/internal/httpapi/push.go and
-- misc.go. What becomes of one delivery over the network is given by `deliver`, and how many are
-- queued before the time budget runs out by `queued`; the workers of the fan-out are modelled one after the other, since they share only a counter and the table.
pub mod FanOut
pub mod Subscribing
mod Examples
use aul_private_location.Base.{
  ℕ, zero, suc, ◌+◌, ◌-◌, Bool, true, false, not, ◌&&◌, ◌||◌, Option, none, some, List, [], ◌∷◌,
  ltb, if◌then◌else◌, length, select,
}
use aul_private_location.Store.Schema.{PushSubscription, Channel, web_push, fcm, CircleMember}
use aul_private_location.Store.{
  DbError, World, Act, stop, pure, ◌>>=◌, ◌>>◌, or_else, ignore, run_query,
}
use aul_private_location.Store.Push.{
  UpsertPushSubscriptionParams, upsert_push_subscription, delete_push_subscription,
  delete_push_subscription_by_id, list_circle_push_subscriptions,
}
use aul_private_location.Http.{
  Handler, bad_request, not_configured, any_internal, required, Base64, decode_blob,
}

abbrev pub max_push_endpoint_bytes : ℕ
max_push_endpoint_bytes = 2048

abbrev pub max_push_key_bytes : ℕ
max_push_key_bytes = 512

abbrev pub max_fcm_token_bytes : ℕ
max_fcm_token_bytes = 4096

abbrev pub max_notify_bytes : ℕ
max_notify_bytes = 3072

abbrev pub max_push_plaintext_bytes : ℕ
max_push_plaintext_bytes = 3993

-- An absent kind is that of a browser.
pub data Kind : Type 0 where
  kind_web_push kind_fcm other_kind : Kind

pub record PushSubscribeReq : Type 0 where
  pub kind : Kind
  pub endpoint : List ℕ
  pub p256dh : List ℕ
  pub auth : List ℕ
  pub token : List ℕ

abbrev pub is_empty : List ℕ → Bool
is_empty [] = true
is_empty (c ∷ cs) = false

abbrev params_fcm : PushSubscribeReq → Option UpsertPushSubscriptionParams
params_fcm req =
    if is_empty req.token
    then none
    else if ltb max_fcm_token_bytes (length req.token)
    then none
    else if not (is_empty req.p256dh) || not (is_empty req.auth)
    then none
    else if not (is_empty req.endpoint)
    then none
    else some (record { endpoint = req.token; channel = fcm })

abbrev params_web_push : PushSubscribeReq → Option UpsertPushSubscriptionParams
params_web_push req =
    if is_empty req.endpoint || is_empty req.p256dh || is_empty req.auth
    then none
    else if ltb max_push_endpoint_bytes (length req.endpoint)
        || ltb max_push_key_bytes (length req.p256dh)
        || ltb max_push_key_bytes (length req.auth)
    then none
    else if not (is_empty req.token)
    then none
    else some (record { endpoint = req.endpoint; channel = web_push req.p256dh req.auth })

abbrev params_of_kind : Kind → PushSubscribeReq → Option UpsertPushSubscriptionParams
params_of_kind kind_fcm req = params_fcm req
params_of_kind kind_web_push req = params_web_push req
params_of_kind other_kind req = none

-- `pushSubscriptionParams`
unfoldable pub push_subscription_params : PushSubscribeReq → Option UpsertPushSubscriptionParams
push_subscription_params req = params_of_kind req.kind req

unfoldable pub handle_push_subscribe : ℕ → ℕ → ℕ → ℕ → Option PushSubscribeReq → Handler (Unit {0})
handle_push_subscribe now id user device body = do
  req ← required body
  params ← required (push_subscription_params req)
  or_else (run_query (upsert_push_subscription now id user device params)) any_internal
  pure tt

-- The endpoint, and the token where there is none.
abbrev pub target : PushSubscribeReq → List ℕ
target req = if is_empty req.endpoint then req.token else req.endpoint

unfoldable pub handle_push_unsubscribe : ℕ → Option PushSubscribeReq → Handler (Unit {0})
handle_push_unsubscribe user body = do
  req ← required body
  if is_empty (target req) then stop bad_request else pure tt
  or_else (run_query (delete_push_subscription (target req) user)) any_internal

-- What becomes of a send that is attempted: `dead` is a subscription that the service reports as gone,
-- `failed` any other send that does not land: refused, timed out, or a panic that is contained.
pub data Delivery : Type 0 where
  landed dead failed : Delivery

abbrev runs_channel : Bool → Bool → Channel → Bool
runs_channel push_enabled fcm_enabled fcm = fcm_enabled
runs_channel push_enabled fcm_enabled (web_push p256dh auth) = push_enabled

unfoldable pub deliverable : Bool → Bool → List PushSubscription → List PushSubscription
deliverable push_enabled fcm_enabled subs =
    if push_enabled && fcm_enabled
    then subs
    else select (λ s. runs_channel push_enabled fcm_enabled s.channel) subs

-- `sendPush`, with `prunePushSubscription`, whose error is logged.
abbrev pub after_delivery : PushSubscription → Delivery → Handler ℕ
after_delivery s landed = pure 1
after_delivery s dead =
    ignore {E = DbError} (run_query (delete_push_subscription_by_id s.id)) >> pure 0
after_delivery s failed = pure 0

-- `fanOutPush`: only the first `queued` subscriptions reach a worker before the budget runs out.
unfoldable pub fan_out_push : (PushSubscription → Delivery) → ℕ → List PushSubscription → Handler ℕ
fan_out_push deliver queued [] = pure 0
fan_out_push deliver zero (s ∷ subs) = pure 0
fan_out_push deliver (suc queued) (s ∷ subs) = do
  n ← after_delivery s (deliver s)
  rest ← fan_out_push deliver queued subs
  pure (n + rest)

pub record NotifyResult : Type 0 where
  pub sent : ℕ
  pub failed : ℕ

unfoldable pub handle_notify :
    Base64
    → Bool
    → Bool
    → (PushSubscription → Delivery)
    → ℕ
    → CircleMember
    → Option (List ℕ)
    → Handler NotifyResult
handle_notify b64 push_enabled fcm_enabled deliver queued m body = do
  if push_enabled || fcm_enabled then pure tt else stop not_configured
  payload ← required body
  required (decode_blob b64 max_notify_bytes payload)
  if ltb max_push_plaintext_bytes (length payload) then stop bad_request else pure tt
  subs ← or_else (run_query (list_circle_push_subscriptions m.circle_id m.user_id)) any_internal
  count ← fan_out_push deliver queued (deliverable push_enabled fcm_enabled subs)
  pure
      (record { sent = count; failed = length (deliverable push_enabled fcm_enabled subs) - count })
