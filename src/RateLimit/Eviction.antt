-- ===== src/RateLimit/Eviction.antt =====
-- Forgetting idle buckets does not change an answer.
use aul_private_location.Base.{
  ℕ, ◌+◌, ◌<◌, ◌≤◌, ◌≡◌, refl, sym, ap, subst, ◌∙◌, Bool, not, Option, none, some, List, [], ◌∷◌,
  arith, ltb, ◌==◌, Bool-cases, ◌⊎◌, inl, inr, Map, get, put, get-empty, get-put, get-retain,
  passing, update,
}
use aul_private_location.RateLimit.{Bucket, KeyedLimiter, new_limiter, lim_or, allow, cleanup}

-- What happens to a limiter, with the time of it.
pub data Event : Type 0 where
  allow_at : ℕ → ℕ → Event
  cleanup_at : ℕ → Event

abbrev pub time : Event → ℕ
time (allow_at now key) = now
time (cleanup_at now) = now

-- The clock does not go back.
abbrev pub Ordered : ℕ → List Event → Type 0
Ordered t [] = Unit {0}
Ordered t (e ∷ events) = (t ≤ time e) × Ordered (time e) events

module _ {B : Type 0} (fresh : B) (allow_n : ℕ → B → Bool × B) where
  abbrev pub answers : List Event → KeyedLimiter B → List Bool
  answers [] k = []
  answers (allow_at now key ∷ events) k =
      let (answer, k') = allow fresh allow_n now key k in answer ∷ answers events k'
  answers (cleanup_at now ∷ events) k = answers events (cleanup now k)

  -- Every key has a bucket of its own from the start, and it is never forgotten.
  abbrev pub unbounded : List Event → (ℕ → B) → List Bool
  unbounded [] f = []
  unbounded (allow_at now key ∷ events) f =
      (allow_n now (f key)).0 ∷ unbounded events (update f key (allow_n now (f key)).1)
  unbounded (cleanup_at now ∷ events) f = unbounded events f

  abbrev Agrees : ℕ → ℕ → Option (Bucket B) → B → Type 0
  Agrees ttl now (some e) b = (e.lim ≡ b) × (before : B) × (b ≡ (allow_n e.last_seen before).1)
  Agrees ttl now none b =
      (b ≡ fresh) ⊎ ((seen : ℕ) × (before : B) × (b ≡ (allow_n seen before).1) × (seen + ttl < now))

  later-Agrees :
      (ttl now later : ℕ) (o : Option (Bucket B)) (b : B)
      → now ≤ later
      → Agrees ttl now o b
      → Agrees ttl later o b
  later-Agrees ttl now later (some e) b l a = a
  later-Agrees ttl now later none b l (inl f) = inl f
  later-Agrees ttl now later none b l (inr (seen, before, e, h)) =
      inr (seen, before, e, omega arith)

  -- A bucket that is forgotten is idle.
  passing-Agrees :
      (ttl now : ℕ) (o : Option (Bucket B)) (b : B)
      → Agrees ttl now o b
      → Agrees ttl now (passing (λ e. not (ltb (e.last_seen + ttl) now)) o) b
  passing-Agrees ttl now none b a = a
  passing-Agrees ttl now (some e) b a = elim (Bool-cases (ltb (e.last_seen + ttl) now)) [
    | inl h ↦ rw h (inr (e.last_seen, a.1, a.2, ground arith))
    | inr h ↦ rw h a
  ]

  -- The documented refill: a bucket that was left alone for longer than `ttl` answers, and goes on,
  -- as a new one.
  abbrev pub Refills : ℕ → Type 0
  Refills ttl =
      (seen now : ℕ) (b : B) → seen + ttl < now → allow_n now (allow_n seen b).1 ≡ allow_n now fresh

  same_answer :
      (ttl now : ℕ) (o : Option (Bucket B)) (b : B)
      → Refills ttl
      → Agrees ttl now o b
      → allow_n now (lim_or fresh o) ≡ allow_n now b
  same_answer ttl now (some e) b r a = ap (allow_n now) a.0
  same_answer ttl now none b r (inl f) = ap (allow_n now) (sym f)
  same_answer ttl now none b r (inr (seen, before, e, h)) =
      sym (r seen now before h) ∙ ap (allow_n now) (sym e)

  later_at :
      (ttl t now : ℕ) (k : KeyedLimiter B) (f : ℕ → B)
      → t ≤ now
      → ((key : ℕ) → Agrees ttl t (get k.buckets key) (f key))
      → (key : ℕ) → Agrees ttl now (get k.buckets key) (f key)
  later_at ttl t now k f l a key = later-Agrees ttl t now (get k.buckets key) (f key) l (a key)

  updated-Agrees :
      (ttl now key j : ℕ) (m : Map (Bucket B)) (f : ℕ → B) (next : Bucket B)
      → next.lim ≡ (allow_n now (f key)).1
      → next.last_seen ≡ now
      → ((i : ℕ) → Agrees ttl now (get m i) (f i))
      → Agrees ttl now (get (put m key next) j) (update f key (allow_n now (f key)).1 j)
  updated-Agrees ttl now key j m f next e s a = elim (Bool-cases (key == j)) [
    | inl h ↦ rw (get-put m key j next, h) (e, f key, ap (λ t. (allow_n t (f key)).1) (sym s))
    | inr h ↦ rw (get-put m key j next, h) (a j)
  ]

  agreeing :
      (ttl : ℕ) (events : List Event) (t : ℕ) (k : KeyedLimiter B) (f : ℕ → B)
      → Refills ttl
      → k.ttl ≡ ttl
      → Ordered t events
      → ((key : ℕ) → Agrees ttl t (get k.buckets key) (f key))
      → answers events k ≡ unbounded events f
  unfolding allow cleanup
  agreeing ttl [] t k f r same o a = refl
  agreeing ttl (allow_at now key ∷ events) t k f r same o a =
      let said =
        same_answer ttl now (get k.buckets key) (f key) r (later_at ttl t now k f o.0 a key) in
      let lim = (allow_n now (lim_or fresh (get k.buckets key))).1 in
      let next : Bucket B = record { lim = lim; last_seen = now } in
      let still : (j : ℕ)
          → Agrees ttl now (get (put k.buckets key next) j)
              (update f key (allow_n now (f key)).1 j) =
        λ j.
          updated-Agrees ttl now key j k.buckets f next (ap (λ p. p.1) said) refl
            (later_at ttl t now k f o.0 a) in
      let rest =
        agreeing ttl events now (allow fresh allow_n now key k).1
          (update f key (allow_n now (f key)).1) r same o.1 still in
      ground (arith, said, rest)
  agreeing ttl (cleanup_at now ∷ events) t k f r same o a =
      agreeing ttl events now (cleanup now k) f r same o.1 (λ key.
        subst (λ b. Agrees ttl now b (f key))
          (sym (get-retain (λ b. not (ltb (b.last_seen + k.ttl) now)) k.buckets key))
          (rw same (
            passing-Agrees ttl now (get k.buckets key) (f key) (later_at ttl t now k f o.0 a key))))

  -- The limiter answers as if it never forgot a bucket, however calls and clean-ups are mixed, where
  -- the clock does not go back and a bucket that is left alone for longer than `ttl` refills.
  pub limiter_forgets_nothing :
      (ttl : ℕ) (events : List Event)
      → Refills ttl
      → Ordered 0 events
      → answers events (new_limiter ttl) ≡ unbounded events (λ key. fresh)
  limiter_forgets_nothing ttl events r o =
      agreeing ttl events 0 (new_limiter ttl) (λ key. fresh) r refl o
        (λ key. subst (λ b. Agrees ttl 0 b fresh) (sym (get-empty key)) (inl refl))
