-- ===== src/Realtime/Privacy.antt =====
-- The instant-leave guarantee (`doEvict` and its callers, server/internal/realtime/hub.go).
use aul_private_location.Base.{
  ℕ, ◌≡◌, refl, ap, on_result, ==_iff, Bool, true, false, ◌&&◌, Option, some, List, [], ◌∷◌, arith,
  length, ltb, has, has-add, has-del, has-cons, has-nil, Bool-cases, Option-cases, inl, inr, ◌==◌,
  ℤ,
}
use aul_private_location.Realtime.{
  broadcast_buffer, evict_buffer, Hub, Frame, Event, EvictReq, Request, done, register, unregister,
  next_broadcast, next_evict, stats_req, circle_set, new_client, add_client, remove_client,
  dispatch, do_evict, request_evict, publish, shut_down, take_broadcast, take_evict, serve,
}
use aul_private_location.Realtime.Consistency.{
  Consistent, remove_client-registered, remove_client-absent,
}
use aul_private_location.Realtime.Delivery.{Delivered, dispatch-Delivered, dispatch-unencodable}
use aul_private_location.Realtime.Eviction.{do_evict-Evicted, IsCutOff, do_evict-IsCutOff}
use aul_private_location.Realtime.Eviction.Rounds.{Evicted}
use aul_private_location.Realtime.Steps.{
  Step, connects, serves, publishes, evicts, drains, connect, drain, IsServed, Step-Consistent,
  channels-Consistent,
}

-- No client is registered, subscribed or given to another user between `h` and `h'`.
record Shrinks (h h' : Hub) : Type 0 where
  clients : (j : ℕ) → has j h'.clients ≡ true → has j h.clients ≡ true
  circles : (j i : ℕ) → has i (h'.heap j).circles ≡ true → has i (h.heap j).circles ≡ true
  users : (j : ℕ) → (h'.heap j).user_id ≡ (h.heap j).user_id

IsCutOff-Shrinks : {h h' : Hub} (k user : ℕ) → Shrinks h h' → IsCutOff k user h → IsCutOff k user h'
IsCutOff-Shrinks k user s cut c r u = ground (arith, s.clients c, s.circles c k, s.users c, cut c)

Shrinks-same : (h : Hub) → Shrinks h h
Shrinks-same h = record { clients = λ j p. p; circles = λ j i p. p; users = λ j. refl }

remove_client-Shrinks :
    (h h' : Hub) (c : ℕ) → Consistent h → remove_client h c ≡ some h' → Shrinks h h'
remove_client-Shrinks h h' c v e = elim (Bool-cases (has c h.clients)) [
  | inl r ↦ on_result (Shrinks h) (remove_client-registered h c r (v.is_open c r)) e (record {
    clients = λ j p. ground (arith, has-del c j h.clients);
    circles = λ j i p. ground arith;
    users = λ j. ground arith;
  })
  | inr r ↦ on_result (Shrinks h) (remove_client-absent h c r) e (Shrinks-same h)
]

Delivered-Shrinks : {h h' : Hub} {cs : List ℕ} {f : Frame} → Delivered h cs f h' → Shrinks h h'
Delivered-Shrinks d = record {
  clients = λ j p. ground (arith, d.kept j);
  circles = λ j i p. ground (arith, d.circles j);
  users = d.users;
}

Evicted-Shrinks : {h h' : Hub} {req : EvictReq} {cs : List ℕ} → Evicted h req cs h' → Shrinks h h'
Evicted-Shrinks d = record {
  clients = λ j p. ground (arith, d.clients);
  circles = λ j i p. ground (arith, d.circles j i);
  users = d.users;
}

dispatch-Shrinks :
    (marshal : Event → Option (List ℕ)) (h h' : Hub) (ev : Event)
    → Consistent h
    → dispatch marshal h ev ≡ some h'
    → Shrinks h h'
dispatch-Shrinks marshal h h' ev v e = elim (Option-cases (marshal ev)) [
  | inl m ↦ on_result (Shrinks h) (dispatch-unencodable marshal h ev m) e (Shrinks-same h)
  | inr (bytes, m) ↦
      let (h₂, e₂, d) = dispatch-Delivered marshal h ev bytes m v in
      on_result (Shrinks h) e₂ e (Delivered-Shrinks d)
]

shut_down-clients : (h h' : Hub) → shut_down h ≡ some h' → h'.clients ≡ []
unfolding shut_down
shut_down-clients h h' e = ground arith

has-circle_set : (k : ℕ) (ks : List ℕ) → has k (circle_set ks) ≡ has k ks
unfolding circle_set
has-circle_set k [] = refl
has-circle_set k (i ∷ ks) =
    ground (arith, has-circle_set k ks, has-add i k (circle_set ks), has-cons k i ks)

module _ (marshal : Event → Option (List ℕ)) (k user : ℕ) where
  take_broadcast-IsCutOff :
      (h h' : Hub) (evs : List Event)
      → Consistent h
      → take_broadcast marshal h evs ≡ some h'
      → IsCutOff k user h
      → IsCutOff k user h'
  unfolding take_broadcast
  take_broadcast-IsCutOff h h' [] v e cut = on_result (IsCutOff k user) refl e cut
  take_broadcast-IsCutOff h h' (ev ∷ rest) v e cut =
      IsCutOff-Shrinks k user
        (dispatch-Shrinks marshal _ h' ev (channels-Consistent h rest h.evict v) e) cut

  take_evict-IsCutOff :
      (h h' : Hub) (reqs : List EvictReq)
      → Consistent h
      → take_evict h reqs ≡ some h'
      → IsCutOff k user h
      → IsCutOff k user h'
  unfolding take_evict
  take_evict-IsCutOff h h' [] v e cut = on_result (IsCutOff k user) refl e cut
  take_evict-IsCutOff h h' (req ∷ rest) v e cut =
      let (h₂, e₂, _, d) = do_evict-Evicted _ req (channels-Consistent h h.broadcast rest v) in
      on_result (IsCutOff k user) e₂ e (IsCutOff-Shrinks k user (Evicted-Shrinks d) cut)

  serve-IsCutOff :
      (h h' : Hub) (r : Request)
      → IsServed r
      → Consistent h
      → serve marshal h r ≡ some h'
      → IsCutOff k user h
      → IsCutOff k user h'
  unfolding serve take_broadcast take_evict
  serve-IsCutOff h h' done s v e cut =
      λ c r u. ground (arith, ap (has c) (shut_down-clients h h' e), has-nil c)
  serve-IsCutOff h h' (register c) s v e cut = absurd s
  serve-IsCutOff h h' (unregister c) s v e cut =
      IsCutOff-Shrinks k user (remove_client-Shrinks h h' c v e) cut
  serve-IsCutOff h h' next_broadcast s v e cut = take_broadcast-IsCutOff h h' h.broadcast v e cut
  serve-IsCutOff h h' next_evict s v e cut = take_evict-IsCutOff h h' h.evict v e cut
  serve-IsCutOff h h' stats_req s v e cut = on_result (IsCutOff k user) refl e cut

  -- The step connects no client of the user that lists the circle.
  abbrev pub NoRejoin : {h h' : Hub} → Step marshal h h' → Type 0
  NoRejoin (connects c u circles buffer f e) = (u == user && has k circles) ≡ false
  NoRejoin (serves r s e) = Unit
  NoRejoin (publishes ev e) = Unit
  NoRejoin (evicts req e) = Unit
  NoRejoin (drains c f rest q e) = Unit

  connect-IsCutOff :
      (h : Hub) (c u : ℕ) (circles : List ℕ) (buffer : ℤ)
      → (u == user && has k circles) ≡ false
      → IsCutOff k user h
      → IsCutOff k user (connect h c u circles buffer)
  unfolding connect add_client new_client
  connect-IsCutOff h c u circles buffer n cut j r e =
      ground (arith, has-add c j h.clients, has-circle_set k circles, cut j, ==_iff u user)

  publish-IsCutOff : (h : Hub) (ev : Event) → IsCutOff k user h → IsCutOff k user (publish h ev)
  unfolding publish
  publish-IsCutOff h ev cut = elim (Bool-cases (ltb (length h.broadcast) broadcast_buffer)) [
    | inl e ↦ rw e cut
    | inr e ↦ rw e cut
  ]

  request_evict-IsCutOff :
      (h : Hub) (req : EvictReq) → IsCutOff k user h → IsCutOff k user (request_evict h req)
  unfolding request_evict
  request_evict-IsCutOff h req cut = elim (Bool-cases (ltb (length h.evict) evict_buffer)) [
    | inl e ↦ rw e cut
    | inr e ↦ rw e cut
  ]

  drain-IsCutOff :
      (h : Hub) (c : ℕ) (rest : List Frame) → IsCutOff k user h → IsCutOff k user (drain h c rest)
  unfolding drain
  drain-IsCutOff h c rest cut j r e = ground (arith, cut j)

  Step-IsCutOff :
      {h h' : Hub} (st : Step marshal h h')
      → NoRejoin st
      → Consistent h
      → IsCutOff k user h
      → IsCutOff k user h'
  Step-IsCutOff {h} (connects c u circles buffer f e) n v cut =
      rw e (connect-IsCutOff h c u circles buffer n cut)
  Step-IsCutOff {h} {h'} (serves r s e) n v cut = serve-IsCutOff h h' r s v e cut
  Step-IsCutOff {h} (publishes ev e) n v cut = rw e (publish-IsCutOff h ev cut)
  Step-IsCutOff {h} (evicts req e) n v cut = rw e (request_evict-IsCutOff h req cut)
  Step-IsCutOff {h} (drains c f rest q e) n v cut = rw e (drain-IsCutOff h c rest cut)

  -- A history in which no client of the user connects with the circle.
  pub data Away (h : Hub) : Hub → Type 0 where
    here : Away h h
    next : {h₁ h₂ : Hub} → Away h h₁ → (st : Step marshal h₁ h₂) → NoRejoin st → Away h h₂

  Away-IsCutOff :
      {h h' : Hub}
      → Consistent h
      → IsCutOff k user h
      → Away h h'
      → Consistent h' × IsCutOff k user h'
  Away-IsCutOff v cut here = (v, cut)
  Away-IsCutOff v cut (next r st n) =
      let (v₁, cut₁) = Away-IsCutOff v cut r in
      (Step-Consistent marshal st v₁, Step-IsCutOff st n v₁ cut₁)

  -- A client that is cut off does not stand in the circle's set, so an event passes it by.
  unheard :
      (h : Hub) (ev : Event)
      → Consistent h
      → IsCutOff k user h
      → ev.circle_id ≡ k
      → (h' : Hub) × (dispatch marshal h ev ≡ some h')
        × ((c : ℕ) → (h.heap c).user_id ≡ user → (h'.heap c).queue ≡ (h.heap c).queue)
  unheard h ev v cut at_k = elim (Option-cases (marshal ev)) [
    | inl m ↦ (h, dispatch-unencodable marshal h ev m, λ c u. refl)
    | inr (bytes, m) ↦
        let (h', e, d) = dispatch-Delivered marshal h ev bytes m v in
        (h', e, λ c u. ground (arith, d.queues c, v.linked ev.circle_id c, cut c))
  ]

  -- The instant-leave guarantee. Once the loop has handled the eviction of a user from a circle, no
  -- event of that circle is put into the channel of any client of the user, whatever happens in
  -- between, as long as no client of the user connects with the circle again: dispatching such an
  -- event succeeds and leaves every channel of the user as it was.
  pub instant_leave :
      (h h₁ h₂ : Hub) (all_users : Bool) (ev : Event)
      → Consistent h
      → do_evict h (record { circle_id = k; user_id = user; all_users = all_users }) ≡ some h₁
      → Away h₁ h₂
      → ev.circle_id ≡ k
      → (h₃ : Hub) × (dispatch marshal h₂ ev ≡ some h₃)
        × ((c : ℕ) → (h₂.heap c).user_id ≡ user → (h₃.heap c).queue ≡ (h₂.heap c).queue)
  instant_leave h h₁ h₂ all_users ev v e away at_k =
      let (h', e', v', _) = do_evict-Evicted h _ v in
      let (v₂, cut₂) =
        Away-IsCutOff (on_result Consistent e' e v') (do_evict-IsCutOff h h₁ k user all_users v e)
          away in
      unheard h₂ ev v₂ cut₂ at_k
