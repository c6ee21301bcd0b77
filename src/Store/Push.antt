-- ===== src/Store/Push.antt =====
-- The push-subscription queries of server/internal/store/sqlite_queries.go (misc.sql).
use aul_private_location.Base.{
  ℕ, Bool, true, not, ◌&&◌, Option, none, some, List, [], ◌∷◌, ◌++◌, ◌==◌, if◌then◌else◌, same_text,
  find_row, select, modify, any_row, delete,
}
use aul_private_location.Store.Schema.{
  PushSubscription, Channel, NotificationMute, CircleMember, tv,
}
use aul_private_location.Store.{unavailable, ok, err, Query}

unfoldable pub delete_push_subscription : List ℕ → ℕ → Query (Unit {0})
delete_push_subscription endpoint user db = (
  ok tt,
  record db {
    push_subscriptions =
        delete (λ s. same_text s.endpoint endpoint && s.user_id == user) db.push_subscriptions;
  },
)

unfoldable pub delete_push_subscription_by_id : ℕ → Query (Unit {0})
delete_push_subscription_by_id id db =
    (ok tt, record db { push_subscriptions = delete (λ s. s.id == id) db.push_subscriptions })

-- The subquery: the member muted the circle, or the sender.
abbrev pub mutes_target : ℕ → Option ℕ → Bool
mutes_target sender none = true
mutes_target sender (some u) = u == sender

abbrev pub silences : ℕ → ℕ → ℕ → NotificationMute → Bool
silences user circle sender m =
    m.user_id == user && m.circle_id == circle && mutes_target sender m.muted_user_id

abbrev pub reaches : ℕ → ℕ → List CircleMember → List NotificationMute → PushSubscription → Bool
reaches circle sender members mutes s =
    any_row (λ m. m.circle_id == circle && m.user_id == s.user_id) members
    && not (s.user_id == sender)
    && not (any_row (silences s.user_id circle sender) mutes)

-- The rows of ListCirclePushSubscriptions; their order is not modelled.
unfoldable pub list_circle_push_subscriptions : ℕ → ℕ → Query (List PushSubscription)
list_circle_push_subscriptions circle sender db =
    (ok (select (reaches circle sender db.members db.mutes) db.push_subscriptions), db)

pub record UpsertPushSubscriptionParams : Type 0 where
  pub endpoint : List ℕ
  pub channel : Channel

abbrev pub resubscribed : ℕ → UpsertPushSubscriptionParams → PushSubscription → PushSubscription
resubscribed user p s = record s { channel = p.channel; user_id = user }

abbrev pub new_subscription : ℕ → ℕ → ℕ → ℕ → UpsertPushSubscriptionParams → PushSubscription
new_subscription now id user device p = record {
  id = id;
  user_id = user;
  device_id = some device;
  endpoint = p.endpoint;
  channel = p.channel;
  created_at = tv now;
}

-- The keys of the table, and ON CONFLICT (endpoint) DO UPDATE.
unfoldable pub upsert_push_subscription :
    ℕ → ℕ → ℕ → ℕ → UpsertPushSubscriptionParams → Query PushSubscription
upsert_push_subscription now id user device p db =
    if not (any_row (λ u. u.id == user) db.users && any_row (λ d. d.id == device) db.devices)
    then (err unavailable, db)
    else elim (find_row (λ s. same_text s.endpoint p.endpoint) db.push_subscriptions) [
      | some s ↦ (
        ok (resubscribed user p s),
        record db {
          push_subscriptions =
              modify (λ s. same_text s.endpoint p.endpoint) (resubscribed user p)
                db.push_subscriptions;
        },
      )
      | none ↦ if any_row (λ s. s.id == id) db.push_subscriptions then (err unavailable, db) else (
        ok (new_subscription now id user device p),
        record db {
          push_subscriptions = db.push_subscriptions ++ new_subscription now id user device p ∷ [];
        },
      )
    ]
