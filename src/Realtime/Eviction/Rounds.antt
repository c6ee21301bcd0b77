-- ===== src/Realtime/Eviction/Rounds.antt =====
-- The loop of `doEvict` over the set of a circle (server/internal/realtime/hub.go).
use aul_private_location.Base.{
  ℕ, ◌≤◌, ◌≡◌, refl, ◌∙◌, ◌≢◌, true, false, not, ◌&&◌, some, List, [], ◌∷◌, ◌++◌, arith, length,
  length-append, update, has, del, Distinct, has-del, has-cons, has-nil, get, put, get-put,
  del-Distinct, Bool-cases, inl, inr, if◌then◌else◌, ◌==◌,
}
use aul_private_location.Realtime.{
  Hub, Client, unsubscribed, EvictReq, subscribers, evicts, evict_client, evict_all, push_frame,
}
use aul_private_location.Realtime.Delivery.{is_full}

-- `Consistent` inside the loop, where the set of circle `k` may be empty.
pub record Loop (k : ℕ) (h : Hub) : Type 0 where
  pub linked : (i c : ℕ) → has c (subscribers h i) ≡ (has c h.clients && has i (h.heap c).circles)
  pub distinct : (i : ℕ) → Distinct (subscribers h i)
  pub nonempty : (i : ℕ) → (k == i) ≡ false → get h.circles i ≢ some []
  pub roster : Distinct h.clients
  pub is_open : (c : ℕ) → has c h.clients ≡ true → (h.heap c).closed ≡ false
  pub within : (c : ℕ) → has c h.clients ≡ true → length (h.heap c).queue ≤ (h.heap c).buffer

-- The clients that `req` names were evicted from its circle, as far as they stand in `cs`.
pub record Evicted (h : Hub) (req : EvictReq) (cs : List ℕ) (h' : Hub) : Type 0 where
  pub clients : h'.clients ≡ h.clients
  pub circles :
      (j i : ℕ)
      → has i (h'.heap j).circles ≡ (
          if req.circle_id == i && (has j cs && evicts req (h.heap j))
          then false
          else has i (h.heap j).circles)
  pub queues :
      (j : ℕ)
      → (h'.heap j).queue ≡ (
          if has j cs && evicts req (h.heap j) && not (is_full h j)
          then (h.heap j).queue ++ unsubscribed req.circle_id ∷ []
          else (h.heap j).queue)
  pub users : (j : ℕ) → (h'.heap j).user_id ≡ (h.heap j).user_id
  pub buffers : (j : ℕ) → (h'.heap j).buffer ≡ (h.heap j).buffer
  pub pending_evicts : h'.evict ≡ h.evict
  pub pending_events : h'.broadcast ≡ h.broadcast

-- The object of a client that is evicted, and the hub after it.
abbrev pub left : Hub → ℕ → ℕ → Client
left h k c = record (h.heap c) { circles = del k (h.heap c).circles }

abbrev pub cut_off : Hub → ℕ → ℕ → Hub
cut_off h k c = record h {
  heap = update h.heap c (left h k c);
  circles = put h.circles k (del c (subscribers h k));
}

abbrev pub told : Hub → ℕ → ℕ → Hub
told h k c = if is_full h c then cut_off h k c else push_frame (cut_off h k c) c (unsubscribed k)

pub evict_client_lem :
    (h : Hub) (k c : ℕ) → (h.heap c).closed ≡ false → evict_client h k c ≡ some (told h k c)
unfolding evict_client
evict_client_lem h k c o = ground arith

pub told-Loop : (h : Hub) (k c : ℕ) → has c h.clients ≡ true → Loop k h → Loop k (told h k c)
told-Loop h k c r v = record {
  linked = λ i j. ground (
    arith,
    v.linked i j,
    v.linked k j,
    get-put h.circles k i (del c (subscribers h k)),
    has-del c j (subscribers h k),
    has-del k i (h.heap c).circles,
  );
  distinct = λ i. ground (
    arith,
    v.distinct i,
    get-put h.circles k i (del c (subscribers h k)),
    del-Distinct c (subscribers h k) (v.distinct k),
  );
  nonempty = λ i n. ground (arith, v.nonempty i, get-put h.circles k i (del c (subscribers h k)));
  roster = ground (arith, v.roster);
  is_open = λ j p. ground (arith, v.is_open j);
  within = λ j p. ground (arith, v.within j, length-append (h.heap c).queue (unsubscribed k ∷ []));
}

pub evict_client-Evicted :
    (h : Hub) (req : EvictReq) (c : ℕ)
    → evicts req (h.heap c) ≡ true
    → Evicted h req (c ∷ []) (told h req.circle_id c)
evict_client-Evicted h req c e = record {
  clients = ground arith;
  circles =
      λ j i. ground (arith, has-cons j c [], has-nil j, has-del req.circle_id i (h.heap c).circles);
  queues = λ j. ground (arith, has-cons j c [], has-nil j);
  users = λ j. ground arith;
  buffers = λ j. ground arith;
  pending_evicts = ground arith;
  pending_events = ground arith;
}

pub skip-Evicted :
    (h : Hub) (req : EvictReq) (c : ℕ) → evicts req (h.heap c) ≡ false → Evicted h req (c ∷ []) h
skip-Evicted h req c e = record {
  clients = refl;
  circles = λ j i. ground (arith, has-cons j c [], has-nil j);
  queues = λ j. ground (arith, has-cons j c [], has-nil j);
  users = λ j. refl;
  buffers = λ j. refl;
  pending_evicts = refl;
  pending_events = refl;
}

pub nothing-Evicted : (h : Hub) (req : EvictReq) → Evicted h req [] h
nothing-Evicted h req = record {
  clients = refl;
  circles = λ j i. ground (arith, has-nil j);
  queues = λ j. ground (arith, has-nil j);
  users = λ j. refl;
  buffers = λ j. refl;
  pending_evicts = refl;
  pending_events = refl;
}

Evicted-cons :
    {h h₁ h₂ : Hub} {req : EvictReq} (c : ℕ) (cs : List ℕ)
    → has c cs ≡ false
    → Evicted h req (c ∷ []) h₁
    → Evicted h₁ req cs h₂
    → Evicted h req (c ∷ cs) h₂
Evicted-cons c cs n d e = record {
  clients = e.clients ∙ d.clients;
  circles = λ j i.
      ground (
        arith,
        d.circles j i,
        e.circles j i,
        d.users j,
        has-cons j c cs,
        has-cons j c [],
        has-nil j,
      );
  queues = λ j. ground (
    arith,
    d.queues j,
    e.queues j,
    d.users j,
    d.buffers j,
    has-cons j c cs,
    has-cons j c [],
    has-nil j,
  );
  users = λ j. e.users j ∙ d.users j;
  buffers = λ j. e.buffers j ∙ d.buffers j;
  pending_evicts = e.pending_evicts ∙ d.pending_evicts;
  pending_events = e.pending_events ∙ d.pending_events;
}

-- One round of the loop: the client is evicted or skipped.
pub evict_round :
    (h : Hub) (req : EvictReq) (c : ℕ) (cs : List ℕ)
    → has c h.clients ≡ true
    → Loop req.circle_id h
    → (h₁ : Hub) × (evict_all h req (c ∷ cs) ≡ evict_all h₁ req cs)
      × Loop req.circle_id h₁
      × Evicted h req (c ∷ []) h₁
unfolding evict_all
evict_round h req c cs r v = elim (Bool-cases (evicts req (h.heap c))) [
  | inl e ↦ (
    told h req.circle_id c,
    rw (e, evict_all, evict_client_lem h req.circle_id c (v.is_open c r)),
    told-Loop h req.circle_id c r v,
    evict_client-Evicted h req c e,
  )
  | inr e ↦ (h, rw (e, evict_all), v, skip-Evicted h req c e)
]

pub evict_all-Evicted :
    (h : Hub) (req : EvictReq) (cs : List ℕ)
    → Loop req.circle_id h
    → Distinct cs
    → ((j : ℕ) → has j cs ≡ true → has j h.clients ≡ true)
    → (h' : Hub) × (evict_all h req cs ≡ some h') × Loop req.circle_id h' × Evicted h req cs h'
unfolding evict_all
evict_all-Evicted h req [] v d all = (h, refl, v, nothing-Evicted h req)
evict_all-Evicted h req (c ∷ cs) v d all =
    let (h₁, e₁, v₁, d₁) = evict_round h req c cs (all c (ground (arith, has-cons c c cs))) v in
    let (h₂, e₂, v₂, d₂) =
      evict_all-Evicted h₁ req cs v₁ d.1
        (λ j p. ground (arith, d₁.clients, all j, has-cons j c cs)) in
    (h₂, e₁ ∙ e₂, v₂, Evicted-cons c cs d.0 d₁ d₂)
