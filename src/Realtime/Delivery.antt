-- ===== src/Realtime/Delivery.antt =====
-- What a broadcast does to each client (`dispatch` in server/internal/realtime/hub.go).
use aul_private_location.Base.{
  ℕ, ◌≡◌, refl, ◌∙◌, Bool, true, false, not, ◌&&◌, Option, none, some, List, [], ◌∷◌, ◌++◌, arith,
  length, length-append, ltb, has, Distinct, has-del, has-cons, has-nil, Bool-cases, Option-cases,
  inl, inr, if◌then◌else◌,
}
use aul_private_location.Realtime.{
  Hub, Frame, encoded, Event, subscribers, deliver, deliver_all, dispatch, push_frame,
}
use aul_private_location.Realtime.Consistency.{
  Consistent, removed, removed-Consistent, remove_client-registered,
}

-- The channel of a client has no room left.
abbrev pub is_full : Hub → ℕ → Bool
is_full h c = not (ltb (length (h.heap c).queue) (h.heap c).buffer)

-- The frame was sent to the clients `cs` of `h`, with `h'` as the result.
pub record Delivered (h : Hub) (cs : List ℕ) (f : Frame) (h' : Hub) : Type 0 where
  pub consistent : Consistent h'
  pub kept : (j : ℕ) → has j h'.clients ≡ (has j h.clients && not (has j cs && is_full h j))
  pub queues :
      (j : ℕ)
      → (h'.heap j).queue
        ≡ (if has j cs && not (is_full h j) then (h.heap j).queue ++ f ∷ [] else (h.heap j).queue)
  pub circles : (j : ℕ) → (h'.heap j).circles ≡ (h.heap j).circles
  pub users : (j : ℕ) → (h'.heap j).user_id ≡ (h.heap j).user_id
  pub buffers : (j : ℕ) → (h'.heap j).buffer ≡ (h.heap j).buffer
  pub pending_evicts : h'.evict ≡ h.evict
  pub pending_events : h'.broadcast ≡ h.broadcast

push_frame-Consistent :
    (h : Hub) (c : ℕ) (f : Frame)
    → is_full h c ≡ false
    → Consistent h
    → Consistent (push_frame h c f)
push_frame-Consistent h c f r v = record {
  linked = λ k j. ground (arith, v.linked k j);
  tidy = v.tidy;
  roster = v.roster;
  is_open = λ j p. ground (arith, v.is_open j p);
  within = λ j p. ground (arith, v.within j p, length-append (h.heap c).queue (f ∷ []));
}

deliver-Delivered :
    (h : Hub) (c : ℕ) (f : Frame)
    → Consistent h
    → has c h.clients ≡ true
    → (h' : Hub) × (deliver h c f ≡ some h') × Delivered h (c ∷ []) f h'
unfolding deliver
deliver-Delivered h c f v r = elim (Bool-cases (is_full h c)) [
  | inl full ↦ (
    removed h c,
    ground (arith, v.is_open c r, remove_client-registered h c r (v.is_open c r)),
    record {
      consistent = removed-Consistent h c v;
      kept = λ j. ground (arith, has-del c j h.clients, has-cons j c [], has-nil j);
      queues = λ j. ground (arith, has-cons j c [], has-nil j);
      circles = λ j. ground arith;
      users = λ j. ground arith;
      buffers = λ j. ground arith;
      pending_evicts = refl;
      pending_events = refl;
    },
  )
  | inr room ↦ (
    push_frame h c f,
    ground (arith, v.is_open c r),
    record {
      consistent = push_frame-Consistent h c f room v;
      kept = λ j. ground (arith, has-cons j c [], has-nil j);
      queues = λ j. ground (arith, has-cons j c [], has-nil j);
      circles = λ j. ground arith;
      users = λ j. ground arith;
      buffers = λ j. ground arith;
      pending_evicts = refl;
      pending_events = refl;
    },
  )
]

-- Sending to one client and then to the others is sending to all.
Delivered-cons :
    {h h₁ h₂ : Hub} (c : ℕ) (cs : List ℕ) {f : Frame}
    → has c cs ≡ false
    → Delivered h (c ∷ []) f h₁
    → Delivered h₁ cs f h₂
    → Delivered h (c ∷ cs) f h₂
Delivered-cons c cs n d e = record {
  consistent = e.consistent;
  kept = λ j. ground (
    arith,
    d.kept j,
    e.kept j,
    d.queues j,
    d.buffers j,
    has-cons j c cs,
    has-cons j c [],
    has-nil j,
  );
  queues = λ j.
      ground
        (arith, d.queues j, e.queues j, d.buffers j, has-cons j c cs, has-cons j c [], has-nil j);
  circles = λ j. e.circles j ∙ d.circles j;
  users = λ j. e.users j ∙ d.users j;
  buffers = λ j. e.buffers j ∙ d.buffers j;
  pending_evicts = e.pending_evicts ∙ d.pending_evicts;
  pending_events = e.pending_events ∙ d.pending_events;
}

-- The other clients of a distinct list stay registered when its head is served.
still_registered :
    {h h₁ : Hub} (c : ℕ) (cs : List ℕ) {f : Frame}
    → has c cs ≡ false
    → Delivered h (c ∷ []) f h₁
    → ((j : ℕ) → has j (c ∷ cs) ≡ true → has j h.clients ≡ true)
    → (j : ℕ) → has j cs ≡ true
    → has j h₁.clients ≡ true
still_registered c cs n d all j p =
    ground (arith, d.kept j, all j, has-cons j c cs, has-cons j c [], has-nil j)

deliver_all-Delivered :
    (h : Hub) (cs : List ℕ) (f : Frame)
    → Consistent h
    → Distinct cs
    → ((j : ℕ) → has j cs ≡ true → has j h.clients ≡ true)
    → (h' : Hub) × (deliver_all h cs f ≡ some h') × Delivered h cs f h'
unfolding deliver_all
deliver_all-Delivered h [] f v d all = (
  h,
  refl,
  record {
    consistent = v;
    kept = λ j. ground (arith, has-nil j);
    queues = λ j. ground (arith, has-nil j);
    circles = λ j. refl;
    users = λ j. refl;
    buffers = λ j. refl;
    pending_evicts = refl;
    pending_events = refl;
  },
)
deliver_all-Delivered h (c ∷ cs) f v d all =
    let (h₁, e₁, d₁) = deliver-Delivered h c f v (all c (ground (arith, has-cons c c cs))) in
    let (h₂, e₂, d₂) =
      deliver_all-Delivered h₁ cs f d₁.consistent d.1 (still_registered c cs d.0 d₁ all) in
    (h₂, rw (e₁, deliver_all) e₂, Delivered-cons c cs d.0 d₁ d₂)

-- Dispatching an event whose payload encodes reaches every subscriber of its circle: each one with
-- room in its channel gets the frame at the end of its queue, each one without is removed, and for
-- every other client nothing changes. No send meets a closed channel.
pub dispatch-Delivered :
    (marshal : Event → Option (List ℕ)) (h : Hub) (ev : Event) (bytes : List ℕ)
    → marshal ev ≡ some bytes
    → Consistent h
    → (h' : Hub) × (dispatch marshal h ev ≡ some h')
      × Delivered h (subscribers h ev.circle_id) (encoded bytes) h'
unfolding dispatch
dispatch-Delivered marshal h ev bytes m v =
    let (h', e, d) =
      deliver_all-Delivered h (subscribers h ev.circle_id) (encoded bytes) v
        (v.tidy.distinct ev.circle_id) (λ j p. ground (arith, v.linked ev.circle_id j)) in
    (h', rw (m, dispatch) e, d)

pub dispatch-unencodable :
    (marshal : Event → Option (List ℕ)) (h : Hub) (ev : Event)
    → marshal ev ≡ none
    → dispatch marshal h ev ≡ some h
unfolding dispatch
dispatch-unencodable marshal h ev m = rw (m, dispatch)

pub dispatch-Consistent :
    (marshal : Event → Option (List ℕ)) (h : Hub) (ev : Event)
    → Consistent h
    → (h' : Hub) × (dispatch marshal h ev ≡ some h') × Consistent h'
dispatch-Consistent marshal h ev v = elim (Option-cases (marshal ev)) [
  | inl m ↦ (h, dispatch-unencodable marshal h ev m, v)
  | inr (bytes, m) ↦
      let (h', e, d) = dispatch-Delivered marshal h ev bytes m v in (h', e, d.consistent)
]
