-- ===== src/Realtime/Steps.antt =====
-- Histories of the hub: the loop of `Run`, the handlers that put into its channels, and the
-- transport goroutines that drain the clients' channels (server/internal/realtime/hub.go and
-- server/internal/httpapi/ws.go), in any order.
use aul_private_location.Base.{
  ℕ, zero, suc, ◌<◌, ◌≡◌, refl, ap, on_result, ==_iff, true, false, Option, some, List, [], ◌∷◌,
  ◌++◌, arith, length, ltb, update, has, Distinct, has-cons, has-nil, empty, get-empty, Bool-cases,
  inl, inr, ℤ, pos, negsuc,
}
use aul_private_location.Realtime.{
  broadcast_buffer, evict_buffer, Hub, Client, Frame, Event, EvictReq, Request, done, register,
  unregister, next_broadcast, next_evict, stats_req, new_client, new_hub, add_client, request_evict,
  publish, close_send, close_all, shut_down, take_broadcast, take_evict, serve,
}
use aul_private_location.Realtime.Consistency.{
  Consistent, add_client-Consistent, remove_client-Consistent, new_hub-Consistent,
}
use aul_private_location.Realtime.Delivery.{dispatch-Consistent}
use aul_private_location.Realtime.Eviction.{do_evict-Evicted}

-- ws.go: a client object is allocated at an address that no registered client has, and registered.
unfoldable pub connect : Hub → ℕ → ℕ → List ℕ → ℤ → Hub
connect h c user circles buffer =
    add_client (record h { heap = update h.heap c (new_client user circles buffer) }) c

-- ws.go: the transport takes the oldest frame from the channel.
unfoldable pub drain : Hub → ℕ → List Frame → Hub
drain h c rest = record h { heap = update h.heap c (record (h.heap c) { queue = rest }) }

-- A request of the loop other than a registration, which is `connect`.
abbrev pub IsServed : Request → Type 0
IsServed (register c) = ⊥
IsServed _ = Unit {0}

pub data Step (marshal : Event → Option (List ℕ)) (h h' : Hub) : Type 0 where
  connects :
      (c user : ℕ) (circles : List ℕ) (buffer : ℤ)
      → has c h.clients ≡ false
      → h' ≡ connect h c user circles buffer
      → Step marshal h h'
  serves : (r : Request) → IsServed r → serve marshal h r ≡ some h' → Step marshal h h'
  publishes : (ev : Event) → h' ≡ publish h ev → Step marshal h h'
  evicts : (req : EvictReq) → h' ≡ request_evict h req → Step marshal h h'
  drains :
      (c : ℕ) (f : Frame) (rest : List Frame)
      → (h.heap c).queue ≡ f ∷ rest
      → h' ≡ drain h c rest
      → Step marshal h h'

pub data Reach (marshal : Event → Option (List ℕ)) (h : Hub) : Hub → Type 0 where
  here : Reach marshal h h
  next : {h₁ h₂ : Hub} → Reach marshal h h₁ → Step marshal h₁ h₂ → Reach marshal h h₂

send_buffer-fits : (b : ℤ) (user : ℕ) (circles : List ℕ) → 0 < (new_client user circles b).buffer
unfolding new_client
send_buffer-fits (pos zero) user circles = omega arith
send_buffer-fits (pos (suc n)) user circles = omega arith
send_buffer-fits (negsuc n) user circles = omega arith

connect-Consistent :
    (h : Hub) (c user : ℕ) (circles : List ℕ) (buffer : ℤ)
    → has c h.clients ≡ false
    → Consistent h
    → Consistent (connect h c user circles buffer)
unfolding connect new_client
connect-Consistent h c user circles buffer f v =
    add_client-Consistent _ c (ground arith) (ground arith) f (record {
      linked = λ k j. ground (arith, v.linked k j);
      tidy = v.tidy;
      roster = v.roster;
      is_open = λ j p. ground (arith, v.is_open j);
      within = λ j p. ground (arith, v.within j);
    })

drain-Consistent :
    (h : Hub) (c : ℕ) (f : Frame) (rest : List Frame)
    → (h.heap c).queue ≡ f ∷ rest
    → Consistent h
    → Consistent (drain h c rest)
unfolding drain
drain-Consistent h c f rest q v = record {
  linked = λ k j. ground (arith, v.linked k j);
  tidy = v.tidy;
  roster = v.roster;
  is_open = λ j p. ground (arith, v.is_open j);
  within = λ j p. ground (arith, v.within j, ap length q);
}

-- The contents of the hub's own channels are not part of `Consistent`.
pub channels-Consistent :
    (h : Hub) (broadcast : List Event) (evict : List EvictReq)
    → Consistent h
    → Consistent (record h { broadcast = broadcast; evict = evict })
channels-Consistent h broadcast evict v = record {
  linked = v.linked;
  tidy = v.tidy;
  roster = v.roster;
  is_open = v.is_open;
  within = v.within;
}

publish-Consistent : (h : Hub) (ev : Event) → Consistent h → Consistent (publish h ev)
unfolding publish
publish-Consistent h ev v = elim (Bool-cases (ltb (length h.broadcast) broadcast_buffer)) [
  | inl e ↦ rw e (channels-Consistent h (h.broadcast ++ ev ∷ []) h.evict v)
  | inr e ↦ rw e v
]

request_evict-Consistent :
    (h : Hub) (req : EvictReq) → Consistent h → Consistent (request_evict h req)
unfolding request_evict
request_evict-Consistent h req v = elim (Bool-cases (ltb (length h.evict) evict_buffer)) [
  | inl e ↦ rw e (channels-Consistent h h.broadcast (h.evict ++ req ∷ []) v)
  | inr e ↦ rw e v
]

close_all-total :
    (h : Hub) (cs : List ℕ)
    → Distinct cs
    → ((j : ℕ) → has j cs ≡ true → (h.heap j).closed ≡ false)
    → (h' : Hub) × (close_all h cs ≡ some h')
unfolding close_all close_send
close_all-total h [] d open_all = (h, refl)
close_all-total h (c ∷ cs) d open_all =
    let h₁ : Hub = record h { heap = update h.heap c (record (h.heap c) { closed = true }) } in
    let (h', e) =
      close_all-total h₁ cs d.1 (λ j p. ground (arith, open_all j, has-cons j c cs, ==_iff c j)) in
    (h', rw (open_all c (ground (arith, has-cons c c cs)), close_all) e)

-- At shutdown every channel is closed once.
shut_down-Consistent :
    (h : Hub) → Consistent h → (h' : Hub) × (shut_down h ≡ some h') × Consistent h'
unfolding shut_down
shut_down-Consistent h v =
    let (h', e) = close_all-total h h.clients v.roster v.is_open in
    (
      record h' { clients = []; circles = empty },
      rw (e, shut_down),
      record {
        linked = λ k c. ground (arith, get-empty {V = List ℕ} k, has-nil c);
        tidy = record {
          distinct = λ k. ground (arith, get-empty {V = List ℕ} k);
          nonempty = λ k. ground (arith, get-empty {V = List ℕ} k);
        };
        roster = tt;
        is_open = λ c. ground (arith, has-nil c);
        within = λ c. ground (arith, has-nil c);
      },
    )

module _ (marshal : Event → Option (List ℕ)) where
  take_broadcast-Consistent :
      (h : Hub) (evs : List Event)
      → Consistent h
      → (h' : Hub) × (take_broadcast marshal h evs ≡ some h') × Consistent h'
  unfolding take_broadcast
  take_broadcast-Consistent h [] v = (h, refl, v)
  take_broadcast-Consistent h (ev ∷ rest) v =
      dispatch-Consistent marshal _ ev (channels-Consistent h rest h.evict v)

  take_evict-Consistent :
      (h : Hub) (reqs : List EvictReq)
      → Consistent h
      → (h' : Hub) × (take_evict h reqs ≡ some h') × Consistent h'
  unfolding take_evict
  take_evict-Consistent h [] v = (h, refl, v)
  take_evict-Consistent h (req ∷ rest) v =
      let (h', e, c, _) = do_evict-Evicted _ req (channels-Consistent h h.broadcast rest v) in
      (h', e, c)

  -- Every request that the loop serves in a consistent hub is served without a panic, and leaves
  -- the hub consistent.
  pub serve-Consistent :
      (h : Hub) (r : Request)
      → IsServed r
      → Consistent h
      → (h' : Hub) × (serve marshal h r ≡ some h') × Consistent h'
  unfolding serve
  serve-Consistent h done s v = shut_down-Consistent h v
  serve-Consistent h (register c) s v = absurd s
  serve-Consistent h (unregister c) s v = remove_client-Consistent h c v
  serve-Consistent h next_broadcast s v = take_broadcast-Consistent h h.broadcast v
  serve-Consistent h next_evict s v = take_evict-Consistent h h.evict v
  serve-Consistent h stats_req s v = (h, refl, v)

  pub Step-Consistent : {h h' : Hub} → Step marshal h h' → Consistent h → Consistent h'
  Step-Consistent {h} (connects c user circles buffer f e) v =
      rw e (connect-Consistent h c user circles buffer f v)
  Step-Consistent {h} {h'} (serves r s e) v =
      let (h₂, e₂, v₂) = serve-Consistent h r s v in on_result Consistent e₂ e v₂
  Step-Consistent {h} (publishes ev e) v = rw e (publish-Consistent h ev v)
  Step-Consistent {h} (evicts req e) v = rw e (request_evict-Consistent h req v)
  Step-Consistent {h} (drains c f rest q e) v = rw e (drain-Consistent h c f rest q v)

  Reach-Consistent : {h h' : Hub} → Consistent h → Reach marshal h h' → Consistent h'
  Reach-Consistent v here = v
  Reach-Consistent v (next r st) = Step-Consistent st (Reach-Consistent v r)

  -- In every history from a new hub, however the clients, the handlers and the loop interleave, the
  -- loop never sends on a closed channel and never closes one twice: each request is served, and
  -- the tables agree with each other afterwards.
  pub serve_never_panics :
      (heap : ℕ → Client) (h : Hub) (r : Request)
      → Reach marshal (new_hub heap) h
      → IsServed r
      → (h' : Hub) × (serve marshal h r ≡ some h') × Consistent h'
  serve_never_panics heap h r reach s =
      serve-Consistent h r s (Reach-Consistent (new_hub-Consistent heap) reach)
