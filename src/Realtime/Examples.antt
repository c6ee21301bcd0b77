-- ===== src/Realtime/Examples.antt =====
-- The theorems about the hub at concrete inputs, and runs of it.
use aul_private_location.Base.{
  ℕ, ◌≡◌, refl, true, false, Option, some, List, [], ◌∷◌, ◌++◌, pos, has, add,
}
use aul_private_location.Realtime.{
  Client, Event, encoded, ping, EvictReq, Hub, new_client, new_hub, subscribers, add_client,
  dispatch, do_evict, evict_user, publish, unregister, next_broadcast, serve,
}
use aul_private_location.Realtime.Consistency.{Consistent, new_hub-Consistent}
use aul_private_location.Realtime.Delivery.{is_full, Delivered, dispatch-Delivered}
use aul_private_location.Realtime.Eviction.{do_evict-Evicted}
use aul_private_location.Realtime.Eviction.Rounds.{Evicted}
use aul_private_location.Realtime.Steps.{
  Reach, here, next, Step, connects, publishes, connect, Step-Consistent, serve_never_panics,
}
use aul_private_location.Realtime.Privacy.{Away, instant_leave}
use aul_private_location.Realtime.PendingEvents.{late_eviction}

abbrev blank : Client
blank = record { user_id = 0; circles = []; queue = []; buffer = 0; closed = true }

abbrev to_bytes : Event → Option (List ℕ)
to_bytes ev = some ev.payload

abbrev start : Hub
start = new_hub (λ c. blank)

-- User 10 listens to circle 7, user 20 to circles 7 and 8.
abbrev one_client : Hub
one_client = connect start 1 10 (7 ∷ []) (pos 2)

abbrev two_clients : Hub
two_clients = connect one_client 2 20 (7 ∷ 8 ∷ []) (pos 2)

abbrev fix : Event
fix = record { type = ping; circle_id = 7; payload = 1 ∷ 2 ∷ [] }

first_connects : Step to_bytes start one_client
first_connects = connects 1 10 (7 ∷ []) (pos 2) (unfold new_hub has in refl) refl

second_connects : Step to_bytes one_client two_clients
second_connects =
    connects 2 20 (7 ∷ 8 ∷ []) (pos 2) (unfold new_hub connect add_client add has in refl) refl

two_clients_reached : Reach to_bytes start two_clients
two_clients_reached = next (next here first_connects) second_connects

two_clients-Consistent : Consistent two_clients
two_clients-Consistent =
    Step-Consistent to_bytes second_connects
      (Step-Consistent to_bytes first_connects (new_hub-Consistent (λ c. blank)))

serve_never_panics_example :
    (h' : Hub) × (serve to_bytes two_clients (unregister 1) ≡ some h') × Consistent h'
serve_never_panics_example =
    serve_never_panics to_bytes (λ c. blank) two_clients (unregister 1) two_clients_reached tt

dispatch-Delivered_example :
    (h' : Hub) × (dispatch to_bytes two_clients fix ≡ some h')
    × Delivered two_clients (subscribers two_clients 7) (encoded (1 ∷ 2 ∷ [])) h'
dispatch-Delivered_example =
    dispatch-Delivered to_bytes two_clients fix (1 ∷ 2 ∷ []) refl two_clients-Consistent

abbrev evict_20 : EvictReq
evict_20 = record { circle_id = 7; user_id = 20; all_users = false }

do_evict-Evicted_example :
    (h' : Hub) × (do_evict two_clients evict_20 ≡ some h')
    × Consistent h'
    × Evicted two_clients evict_20 (subscribers two_clients 7) h'
do_evict-Evicted_example = do_evict-Evicted two_clients evict_20 two_clients-Consistent

abbrev after_eviction : Hub
after_eviction = (do_evict-Evicted two_clients evict_20 two_clients-Consistent).0

instant_leave_example :
    (h₃ : Hub) × (dispatch to_bytes after_eviction fix ≡ some h₃)
    × ((c : ℕ)
        → (after_eviction.heap c).user_id ≡ 20
        → (h₃.heap c).queue ≡ (after_eviction.heap c).queue)
instant_leave_example =
    instant_leave to_bytes 7 20 two_clients after_eviction after_eviction false fix
      two_clients-Consistent (do_evict-Evicted two_clients evict_20 two_clients-Consistent).1
      Away.here refl

abbrev published : Hub
published = publish two_clients fix

published_has_room : is_full published 2 ≡ false
unfolding publish connect new_client new_hub add_client
published_has_room = refl

late_eviction_example :
    (h' : Hub) × (serve to_bytes (evict_user published 7 20) next_broadcast ≡ some h')
    × ((h'.heap 2).queue ≡ (published.heap 2).queue ++ encoded (1 ∷ 2 ∷ []) ∷ [])
unfolding publish connect new_client new_hub add_client has add
late_eviction_example =
    late_eviction to_bytes published 20 2 fix [] (1 ∷ 2 ∷ [])
      (Step-Consistent to_bytes (publishes fix refl) two_clients-Consistent) refl refl refl
      published_has_room refl refl
