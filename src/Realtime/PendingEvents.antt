-- ===== src/Realtime/PendingEvents.antt =====
-- The events that the hub still holds when an eviction is asked for
-- (`EvictUser` in server/internal/realtime/hub.go).
use aul_private_location.Base.{
  ℕ, ◌≡◌, ap, ◌∙◌, true, false, Option, some, List, [], ◌∷◌, ◌++◌, arith, length, ltb, has,
  Bool-cases, inl, inr,
}
use aul_private_location.Realtime.{
  evict_buffer, Hub, encoded, Event, EvictReq, next_broadcast, dispatch, evict_user, take_broadcast,
  serve,
}
use aul_private_location.Realtime.Consistency.{Consistent}
use aul_private_location.Realtime.Delivery.{is_full, dispatch-Delivered}
use aul_private_location.Realtime.Steps.{channels-Consistent}

-- A request to evict changes the hub's own channel at most.
abbrev pub asked : Hub → List EvictReq → Hub
asked h reqs = record h { evict = reqs }

evict_user-asked :
    (h : Hub) (circle user : ℕ) → (reqs : List EvictReq) × (evict_user h circle user ≡ asked h reqs)
unfolding evict_user
evict_user-asked h circle user = elim (Bool-cases (ltb (length h.evict) evict_buffer)) [
  | inl e ↦ (h.evict ++ record { circle_id = circle; user_id = user; all_users = false } ∷ [], rw e)
  | inr e ↦ (h.evict, rw e)
]

serve-next_broadcast :
    (marshal : Event → Option (List ℕ)) (h : Hub) (ev : Event) (rest : List Event)
    → h.broadcast ≡ ev ∷ rest
    → serve marshal h next_broadcast ≡ dispatch marshal (record h { broadcast = rest }) ev
unfolding serve take_broadcast
serve-next_broadcast marshal h ev rest b = ap (take_broadcast marshal h) b

-- The eviction is not immediate. After `evict_user` has returned, whether the request was queued or
-- found the channel full, a round of the loop that takes a pending event of the circle still
-- delivers it to every client of the user that subscribes to the circle and has room.
pub late_eviction :
    (marshal : Event → Option (List ℕ)) (h : Hub) (user c : ℕ) (ev : Event) (rest : List Event)
    (bytes : List ℕ)
    → Consistent h
    → has c h.clients ≡ true
    → (h.heap c).user_id ≡ user
    → has ev.circle_id (h.heap c).circles ≡ true
    → is_full h c ≡ false
    → h.broadcast ≡ ev ∷ rest
    → marshal ev ≡ some bytes
    → (h' : Hub) × (serve marshal (evict_user h ev.circle_id user) next_broadcast ≡ some h')
      × ((h'.heap c).queue ≡ (h.heap c).queue ++ encoded bytes ∷ [])
late_eviction marshal h user c ev rest bytes v r u k room b m =
    let (reqs, e) = evict_user-asked h ev.circle_id user in
    let (h', e', d) = dispatch-Delivered marshal _ ev bytes m (channels-Consistent h rest reqs v) in
    (
      h',
      ap (λ x. serve marshal x next_broadcast) e
          ∙ serve-next_broadcast marshal (asked h reqs) ev rest b
          ∙ e',
      ground (arith, d.queues c, v.linked ev.circle_id c),
    )
