-- ===== src/Http/Push/Examples.antt =====
-- Two subscriptions in a circle, and the requests that make them.
use aul_private_location.Base.{
  ℕ, ◌+◌, ◌≡◌, refl, true, false, some, none, List, [], ◌∷◌, length, select, any_row, ◌⊎◌, ltb,
  ◌==◌, if◌then◌else◌,
}
use aul_private_location.Store.Schema.{PushSubscription, web_push, fcm, owner}
use aul_private_location.Store.{World, run_query}
use aul_private_location.Store.Push.{
  reaches, list_circle_push_subscriptions, delete_push_subscription_by_id,
  UpsertPushSubscriptionParams,
}
use aul_private_location.Http.{decode_blob}
use aul_private_location.Http.Examples.{plain, home, steady, in_family}
use aul_private_location.Http.Push.{
  PushSubscribeReq, kind_fcm, push_subscription_params, target, is_empty, Delivery, landed, dead,
  deliverable, fan_out_push, handle_notify, NotifyResult,
}
use aul_private_location.Http.Push.FanOut.{notify-counts, has_landed, attempted, Survives}
use aul_private_location.Http.Push.Subscribing.{params-Shape}

abbrev subscription : ℕ → PushSubscription
subscription id = record {
  id = id;
  user_id = 2;
  device_id = none;
  endpoint = id ∷ [];
  channel = fcm;
  created_at = 0;
}

abbrev subscribed : World
subscribed = record steady {
  db = record home { push_subscriptions = subscription 5 ∷ subscription 6 ∷ [] };
}

-- The second registration is dead, and is not queued in time.
abbrev service : PushSubscription → Delivery
service s = if s.id == 6 then dead else landed

abbrev one_queued : NotifyResult
one_queued = record { sent = 1; failed = 1 }

notify-counts_example :
    let subs = deliverable false true (
      select
        (reaches 4 1 subscribed.db.members subscribed.db.mutes)
        subscribed.db.push_subscriptions) in
    let after =
      (handle_notify plain false true service 1 (in_family 1 owner) (some (1 ∷ [])) subscribed).1 in
    (one_queued.sent ≡ length (select (λ s. has_landed (service s)) (attempted 1 subs)))
    × (one_queued.sent + one_queued.failed ≡ length subs)
    × Survives service
        (attempted 1 subs)
        subscribed.db.push_subscriptions
        after.db.push_subscriptions
unfolding handle_notify decode_blob run_query list_circle_push_subscriptions select any_row
    deliverable fan_out_push delete_push_subscription_by_id
notify-counts_example =
    notify-counts plain false true service 1 (in_family 1 owner) (1 ∷ []) subscribed one_queued refl

abbrev registration : PushSubscribeReq
registration = record { kind = kind_fcm; endpoint = []; p256dh = []; auth = []; token = 9 ∷ [] }

abbrev registered : UpsertPushSubscriptionParams
registered = record { endpoint = 9 ∷ []; channel = fcm }

abbrev nothing : List ℕ
nothing = []

params-Shape_example :
    (((registered.channel ≡ fcm)
        × (registered.endpoint ≡ 9 ∷ [])
        × (nothing ≡ [])
        × (nothing ≡ [])
        × (nothing ≡ []))
      ⊎ ((registered.channel ≡ web_push [] [])
          × (registered.endpoint ≡ [])
          × (registered.endpoint ≡ [])
          × (is_empty [] ≡ false)
          × (is_empty [] ≡ false)))
    × (registered.endpoint ≡ target registration)
    × (is_empty registered.endpoint ≡ false)
    × (ltb 4096 (length registered.endpoint) ≡ false)
unfolding push_subscription_params
params-Shape_example = params-Shape registration registered refl
