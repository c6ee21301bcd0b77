-- ===== src/Realtime/Eviction.antt =====
-- What an eviction does to each client (`doEvict` in server/internal/realtime/hub.go).
pub mod Rounds
use aul_private_location.Base.{
  ℕ, ◌≤◌, ◌≡◌, refl, ap, ◌∙◌, ◌≢◌, Bool, true, false, not, ◌&&◌, some, List, [], ◌∷◌, ◌++◌, arith,
  length, length-append, update, has, del, Distinct, has-del, has-cons, has-nil, get, put, get-put,
  get-remove, del-Distinct, Bool-cases, inl, inr, if◌then◌else◌, ◌==◌,
}
use aul_private_location.Realtime.{
  Hub, Client, unsubscribed, EvictReq, subscribers, evicts, evict_client, evict_all, drop_if_empty,
  do_evict, push_frame,
}
use aul_private_location.Realtime.Consistency.{Consistent}
use aul_private_location.Realtime.Delivery.{is_full}
use aul_private_location.Realtime.Eviction.Rounds.{
  Loop, Evicted, evict_client_lem, told-Loop, evict_client-Evicted, skip-Evicted, nothing-Evicted,
  evict_round, evict_all-Evicted,
}

drop_if_empty-Consistent :
    (h : Hub) (k : ℕ) (set : List ℕ)
    → subscribers h k ≡ set
    → Loop k h
    → Consistent (drop_if_empty h k set)
unfolding drop_if_empty
drop_if_empty-Consistent h k [] e v = record {
  linked = λ i j. ground (arith, get-remove h.circles k i, v.linked i j, ap (has j) e, has-nil j);
  tidy = record {
    distinct = λ i. ground (arith, get-remove h.circles k i, v.distinct i);
    nonempty = λ i. ground (arith, get-remove h.circles k i, v.nonempty i);
  };
  roster = v.roster;
  is_open = v.is_open;
  within = v.within;
}
drop_if_empty-Consistent h k (c ∷ cs) e v = record {
  linked = v.linked;
  tidy = record { distinct = v.distinct; nonempty = λ i. ground (arith, v.nonempty i) };
  roster = v.roster;
  is_open = v.is_open;
  within = v.within;
}

to_Loop : (k : ℕ) (h : Hub) → Consistent h → Loop k h
to_Loop k h v = record {
  linked = v.linked;
  distinct = v.tidy.distinct;
  nonempty = λ i n. v.tidy.nonempty i;
  roster = v.roster;
  is_open = v.is_open;
  within = v.within;
}

drop_if_empty-Evicted :
    {h : Hub} {req : EvictReq} {cs : List ℕ} (h' : Hub) (k : ℕ) (set : List ℕ)
    → Evicted h req cs h'
    → Evicted h req cs (drop_if_empty h' k set)
unfolding drop_if_empty
drop_if_empty-Evicted h' k [] d = record {
  clients = d.clients;
  circles = d.circles;
  queues = d.queues;
  users = d.users;
  buffers = d.buffers;
  pending_evicts = d.pending_evicts;
  pending_events = d.pending_events;
}
drop_if_empty-Evicted h' k (c ∷ set) d = d

-- `do_evict` on the set that it finds.
do_evict_at :
    (h : Hub) (req : EvictReq) (set : List ℕ)
    → subscribers h req.circle_id ≡ set
    → Consistent h
    → (h' : Hub) × (do_evict h req ≡ some h') × Consistent h' × Evicted h req set h'
unfolding do_evict
do_evict_at h req [] s v = (h, rw (s, do_evict), v, nothing-Evicted h req)
do_evict_at h req (c ∷ cs) s v =
    let (h', e, l, d) =
      evict_all-Evicted h req (c ∷ cs) (to_Loop req.circle_id h v)
        (rw s at (v.tidy.distinct req.circle_id))
        (λ j p. ground (arith, v.linked req.circle_id j, ap (has j) s)) in
    let set' = subscribers h' req.circle_id in
    (
      drop_if_empty h' req.circle_id set',
      rw (s, do_evict, e),
      drop_if_empty-Consistent h' req.circle_id set' refl l,
      drop_if_empty-Evicted h' req.circle_id set' d,
    )

-- An eviction never panics and keeps the hub consistent. Exactly the clients in the circle's set
-- that the request names lose the circle from their subscriptions; each of them with room in its
-- channel gets the `unsubscribed` frame, and nothing else of any client changes.
pub do_evict-Evicted :
    (h : Hub) (req : EvictReq)
    → Consistent h
    → (h' : Hub) × (do_evict h req ≡ some h')
      × Consistent h'
      × Evicted h req (subscribers h req.circle_id) h'
do_evict-Evicted h req v = do_evict_at h req (subscribers h req.circle_id) refl v

-- No registered client of the user subscribes to the circle.
abbrev pub IsCutOff : ℕ → ℕ → Hub → Type 0
IsCutOff k user h =
    (c : ℕ) → has c h.clients ≡ true → (h.heap c).user_id ≡ user → has k (h.heap c).circles ≡ false

-- Once the eviction of a user was handled, none of the user's registered clients listens to the
-- circle.
pub do_evict-IsCutOff :
    (h h' : Hub) (k user : ℕ) (all_users : Bool)
    → Consistent h
    → do_evict h (record { circle_id = k; user_id = user; all_users = all_users }) ≡ some h'
    → IsCutOff k user h'
do_evict-IsCutOff h h' k user all_users v e c r u =
    let req : EvictReq = record { circle_id = k; user_id = user; all_users = all_users } in
    let (h₂, e₂, _, d) = do_evict-Evicted h req v in
    ground (arith, d.circles c k, d.users c, v.linked k c, d.clients)
