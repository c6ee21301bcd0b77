-- ===== src/Http/Push/FanOut.antt =====
-- What a notification counts and deletes.
use aul_private_location.Base.{
  ℕ, zero, suc, ◌+◌, ◌≤◌, ◌≡◌, refl, sym, ap, subst, ◌∙◌, Bool, true, false, ◌&&◌, some, List, [],
  ◌∷◌, arith, ◌==◌, ==_iff, if◌then◌else◌, length, find_row, find_row-delete, select, any_row,
  Option-cases, inl, inr,
}
use aul_private_location.Store.Schema.{PushSubscription, CircleMember}
use aul_private_location.Store.{ok, World, run_query}
use aul_private_location.Store.Push.{
  delete_push_subscription_by_id, list_circle_push_subscriptions, reaches,
}
use aul_private_location.Http.{Base64, decode_blob}
use aul_private_location.Http.Push.{
  Delivery, landed, dead, failed, after_delivery, fan_out_push, deliverable, NotifyResult,
  handle_notify, max_notify_bytes,
}

abbrev pub has_landed : Delivery → Bool
has_landed landed = true
has_landed dead = false
has_landed failed = false

abbrev pub is_dead : Delivery → Bool
is_dead landed = false
is_dead dead = true
is_dead failed = false

-- A delivery that is known to have failed is a row that may go; every other row stays.
abbrev pub Survives :
    (PushSubscription → Delivery)
    → List PushSubscription
    → List PushSubscription
    → List PushSubscription
    → Type 0
Survives deliver subs old new =
    (id : ℕ) (s : PushSubscription)
    → find_row (λ r. r.id == id) old ≡ some s
    → any_row (λ r. r.id == s.id && is_dead (deliver r)) subs ≡ false
    → find_row (λ r. r.id == id) new ≡ some s

after_delivery-kept :
    (s r : PushSubscription) (d : Delivery) (id : ℕ) (w : World)
    → find_row (λ q. q.id == id) w.db.push_subscriptions ≡ some r
    → (s.id == r.id && is_dead d) ≡ false
    → find_row (λ q. q.id == id) (after_delivery s d w).1.db.push_subscriptions ≡ some r
unfolding run_query delete_push_subscription_by_id
after_delivery-kept s r landed id w f n = f
after_delivery-kept s r failed id w f n = f
after_delivery-kept s r dead id w f n =
    let other : (r.id == s.id) ≡ false = ground (arith, ==_iff r.id s.id, ==_iff s.id r.id) in
    ground (
      arith,
      find_row-delete (λ q. q.id == id) (λ q. q.id == s.id) r w.db.push_subscriptions f other,
    )

after_delivery-quiet :
    (s : PushSubscription) (d : Delivery) (w : World)
    → ((after_delivery s d w).0 ≡ ok (if has_landed d then 1 else 0))
      × ((after_delivery s d w).1.sent ≡ w.sent)
unfolding run_query delete_push_subscription_by_id
after_delivery-quiet s landed w = (refl, refl)
after_delivery-quiet s failed w = (refl, refl)
after_delivery-quiet s dead w = (refl, ground arith)

-- The subscriptions that reach a worker.
abbrev pub attempted : ℕ → List PushSubscription → List PushSubscription
attempted queued [] = []
attempted zero (s ∷ subs) = []
attempted (suc queued) (s ∷ subs) = s ∷ attempted queued subs

fan_out_push-counts :
    (deliver : PushSubscription → Delivery) (queued : ℕ) (subs : List PushSubscription) (w : World)
    → ((fan_out_push deliver queued subs w).0
        ≡ ok (length (select (λ s. has_landed (deliver s)) (attempted queued subs))))
      × Survives deliver
          (attempted queued subs)
          w.db.push_subscriptions
          (fan_out_push deliver queued subs w).1.db.push_subscriptions
      × ((fan_out_push deliver queued subs w).1.sent ≡ w.sent)
unfolding fan_out_push select any_row
fan_out_push-counts deliver queued [] w = (refl, (λ id s f n. f), refl)
fan_out_push-counts deliver zero (s ∷ subs) w = (refl, (λ id r f n. f), refl)
fan_out_push-counts deliver (suc queued) (s ∷ subs) w =
    let w' = (after_delivery s (deliver s) w).1 in
    let (one, still) = after_delivery-quiet s (deliver s) w in
    let (count, kept, quiet) = fan_out_push-counts deliver queued subs w' in
    let rows : (fan_out_push deliver (suc queued) (s ∷ subs) w).1.db.push_subscriptions
        ≡ (fan_out_push deliver queued subs w').1.db.push_subscriptions =
      ground (arith, one, count) in
    (
      ground (arith, one, count),
      (λ id r f n.
          ap (find_row (λ q. q.id == id)) rows
          ∙ kept id r (after_delivery-kept s r (deliver s) id w f (ground arith)) (ground arith)),
      ground (arith, one, count, still, quiet),
    )

landed_le :
    (deliver : PushSubscription → Delivery) (queued : ℕ) (subs : List PushSubscription)
    → length (select (λ s. has_landed (deliver s)) (attempted queued subs)) ≤ length subs
unfolding select
landed_le deliver queued [] = omega arith
landed_le deliver zero (s ∷ subs) = omega arith
landed_le deliver (suc queued) (s ∷ subs) = ground (arith, landed_le deliver queued subs)

-- A notification that is answered is for the subscriptions of the circle that the mutes let the
-- sender reach, on a channel that the server runs, and is attempted at those of them that are queued
-- before the time budget runs out. The answer counts the sends that landed as sent and all the other
-- subscriptions as failed. Whichever deletions fail, no subscription goes but those that were
-- attempted and that their service reports as gone.
pub notify-counts :
    (b64 : Base64) (push_enabled fcm_enabled : Bool) (deliver : PushSubscription → Delivery)
    (queued : ℕ) (m : CircleMember) (payload : List ℕ) (w : World) (r : NotifyResult)
    → (handle_notify b64 push_enabled fcm_enabled deliver queued m (some payload) w).0 ≡ ok r
    → let subs =
        deliverable push_enabled fcm_enabled (
          select (reaches m.circle_id m.user_id w.db.members w.db.mutes) w.db.push_subscriptions) in
      let after =
        (handle_notify b64 push_enabled fcm_enabled deliver queued m (some payload) w).1 in
      (r.sent ≡ length (select (λ s. has_landed (deliver s)) (attempted queued subs)))
      × (r.sent + r.failed ≡ length subs)
      × Survives deliver (attempted queued subs) w.db.push_subscriptions after.db.push_subscriptions
unfolding handle_notify run_query list_circle_push_subscriptions
notify-counts b64 push_enabled fcm_enabled deliver queued m payload w r e =
    let listed : World = record w { calls = w.calls + 1 } in
    let subs =
      deliverable push_enabled fcm_enabled
        (select (reaches m.circle_id m.user_id w.db.members w.db.mutes) w.db.push_subscriptions) in
    let (count, kept, quiet) = fan_out_push-counts deliver queued subs listed in
    let most = landed_le deliver queued subs in
    elim (Option-cases (decode_blob b64 max_notify_bytes payload)) [
      | inl n ↦ ground arith
      | inr (blob, f) ↦
          let rows : (handle_notify b64 push_enabled fcm_enabled deliver queued m (some payload)
                w).1.db.push_subscriptions
              ≡ (fan_out_push deliver queued subs listed).1.db.push_subscriptions =
            ground (arith, count) in
          (
            ground (arith, count),
            ground (arith, count, most),
            subst (Survives deliver (attempted queued subs) w.db.push_subscriptions) (sym rows)
                kept,
          )
    ]
