-- ===== src/Auth/Tokens.antt =====
-- The refresh tokens of the session table: which row a hash belongs to, and what a rotation and a
-- revocation do to it (server/internal/store/sqlite_queries.go, sessions.sql).
use aul_private_location.Base.{
  ℕ, ◌≡◌, refl, ap, ◌∙◌, Bool, true, false, ◌&&◌, ◌||◌, none, some, List, [], ◌∷◌, arith, ◌==◌,
  ==_iff, ==_refl, is_none, find_row, modify, any_row, All, All-find_row, find_row-holds,
  modify-none, Bool-cases, inl, inr,
}
use aul_private_location.Store.Schema.{Session}
use aul_private_location.Store.Sessions.{
  RotateSessionParams, live_refresh, replayed, column_is, swaps, rotated, revoke_at,
}

-- The hash is the current or the previous refresh hash of the row.
abbrev pub mentions : ℕ → Session → Bool
mentions h s = s.refresh_token_hash == h || column_is h s.prev_refresh_hash

-- Two rows differ in their ids, and neither mentions the other's current hash.
pub record Apart (s t : Session) : Type 0 where
  pub ids : (s.id == t.id) ≡ false
  pub current : mentions t.refresh_token_hash s ≡ false
  pub current' : mentions s.refresh_token_hash t ≡ false
  pub previous :
      (h : ℕ) → (column_is h s.prev_refresh_hash && column_is h t.prev_refresh_hash) ≡ false

-- Every refresh hash, current or previous, belongs to one row, and to one column of it.
abbrev pub Owned : List Session → Type 0
Owned [] = Unit {0}
Owned (s ∷ rows) =
    (column_is s.refresh_token_hash s.prev_refresh_hash ≡ false) × All (Apart s) rows × Owned rows

abbrev pub Unused : ℕ → List Session → Type 0
Unused h = All (λ s. mentions h s ≡ false)

-- A row that is looked up by a hash, and the rows apart from it.
pub skip_swap :
    (p : RotateSessionParams) (s : Session) (rows : List Session)
    → p.id ≡ s.id
    → All (Apart s) rows
    → any_row (swaps p) rows ≡ false
unfolding any_row
skip_swap p s [] e a = refl
skip_swap p s (t ∷ rows) e a = ground (arith, a.0.ids, skip_swap p s rows e a.1)

skip_live :
    (now h : ℕ) (s : Session) (rows : List Session)
    → mentions h s ≡ true
    → All (Apart s) rows
    → find_row (live_refresh now h) rows ≡ none
unfolding find_row
skip_live now h s [] m a = refl
skip_live now h s (t ∷ rows) m a =
    ground (arith, a.0.current, ==_iff t.refresh_token_hash h, skip_live now h s rows m a.1)

skip_replayed :
    (h : ℕ) (s : Session) (rows : List Session)
    → mentions h s ≡ true
    → All (Apart s) rows
    → find_row (replayed h) rows ≡ none
unfolding find_row
skip_replayed h s [] m a = refl
skip_replayed h s (t ∷ rows) m a = ground (
  arith,
  a.0.current',
  a.0.previous h,
  ==_iff s.refresh_token_hash h,
  skip_replayed h s rows m a.1,
)

-- The row of a live current hash, and the table around it, as a rotation of that hash finds them.
module _ (now h : ℕ) (p : RotateSessionParams) (matches : p.old_refresh_hash ≡ h) where
  before_head :
      (t s : Session) (rows : List Session)
      → p.id ≡ s.id
      → find_row (live_refresh now h) rows ≡ some s
      → All (Apart t) rows
      → (swaps p t ≡ false) × (mentions h t ≡ false)
  before_head t s rows i e a =
      let ap_ts = All-find_row (Apart t) (live_refresh now h) rows s a e in
      let live = find_row-holds (live_refresh now h) rows s e in
      (
        ground (arith, ap_ts.ids, live),
        ground (arith, ap_ts.current, live, ==_iff s.refresh_token_hash h),
      )

  -- The compare-and-swap finds the row that the lookup found.
  pub find_row-swaps :
      (s : Session) (rows : List Session)
      → p.id ≡ s.id
      → Owned rows
      → find_row (live_refresh now h) rows ≡ some s
      → find_row (swaps p) rows ≡ some s
  unfolding find_row
  find_row-swaps s [] i o e = cc
  find_row-swaps s (t ∷ rows) i o e = elim (Bool-cases (live_refresh now h t)) [
    | inl l ↦ ground (arith, ==_iff t.id s.id)
    | inr l ↦ ground (arith, find_row-swaps s rows i o.2, before_head t s rows i)
  ]

  -- The table after the swap.
  abbrev pub swapped : List Session → List Session
  swapped = modify (swaps p) (rotated now p)

  -- Under no clock is the old hash a live current hash after the swap.
  pub swapped-not_live :
      (later : ℕ) (s : Session) (rows : List Session)
      → p.id ≡ s.id
      → Owned rows
      → Unused p.refresh_token_hash rows
      → find_row (live_refresh now h) rows ≡ some s
      → find_row (live_refresh later h) (swapped rows) ≡ none
  unfolding find_row modify
  swapped-not_live later s [] i o u e = cc
  swapped-not_live later s (t ∷ rows) i o u e = elim (Bool-cases (live_refresh now h t)) [
    | inl l ↦ ground (
      arith,
      u.0,
      matches,
      modify-none (swaps p) (rotated now p) rows (skip_swap p t rows (ground arith) o.1),
      skip_live later h t rows (ground arith) o.1,
      ==_iff t.refresh_token_hash h,
      ==_iff t.refresh_token_hash p.refresh_token_hash,
      ==_iff p.refresh_token_hash h,
      ==_iff t.id p.id,
    )
    | inr l ↦ ground (
      arith,
      swapped-not_live later s rows i o.2 u.1 (ground arith),
      before_head t s rows i (ground arith) o.1,
    )
  ]

  -- The old hash is now the previous hash of the same session, and of no earlier row.
  pub swapped-replayed :
      (s : Session) (rows : List Session)
      → p.id ≡ s.id
      → Owned rows
      → find_row (live_refresh now h) rows ≡ some s
      → find_row (replayed h) (swapped rows) ≡ some (rotated now p s)
  unfolding find_row modify
  swapped-replayed s [] i o e = cc
  swapped-replayed s (t ∷ rows) i o e = elim (Bool-cases (live_refresh now h t)) [
    | inl l ↦ ground (
      arith,
      matches,
      ==_refl h,
      ==_iff t.id p.id,
      ==_iff t.refresh_token_hash p.old_refresh_hash,
    )
    | inr l ↦ ground (
      arith,
      swapped-replayed s rows i o.2 (ground arith),
      before_head t s rows i (ground arith) o.1,
    )
  ]

-- A previous hash of a session that is not revoked, in a table where hashes belong to one row: it is no
-- current hash, and it is found as the previous hash of that session alone.
module _ (h id : ℕ) (r : Session) (previous : r.prev_refresh_hash ≡ some h) where
  pub previous-not_live :
      (later : ℕ) (rows : List Session)
      → Owned rows
      → find_row (λ t. t.id == id) rows ≡ some r
      → find_row (live_refresh later h) rows ≡ none
  unfolding find_row
  previous-not_live later [] o f = refl
  previous-not_live later (t ∷ rows) o f = elim (Bool-cases (t.id == id)) [
    | inl e ↦
        let same : t ≡ r = ground arith in
        let was : t.prev_refresh_hash ≡ some h = ap (λ x. x.prev_refresh_hash) same ∙ previous in
        ground (
          arith,
          was,
          o.0,
          ==_iff t.refresh_token_hash h,
          ==_iff h t.refresh_token_hash,
          ==_refl h,
          skip_live later h t rows (ground (arith, was, ==_refl h)) o.1,
        )
    | inr e ↦
        let rest : find_row (λ x. x.id == id) rows ≡ some r = ground arith in
        let apart = All-find_row (Apart t) (λ x. x.id == id) rows r o.1 rest in
        ground (
          arith,
          previous,
          apart.current',
          ==_iff t.refresh_token_hash h,
          ==_iff t.refresh_token_hash h,
          ==_refl h,
          previous-not_live later rows o.2 rest,
        )
  ]

  pub previous-replayed :
      (rows : List Session)
      → r.revoked_at ≡ none
      → Owned rows
      → find_row (λ t. t.id == id) rows ≡ some r
      → find_row (replayed h) rows ≡ some r
  unfolding find_row
  previous-replayed [] l o f = cc
  previous-replayed (t ∷ rows) l o f = elim (Bool-cases (t.id == id)) [
    | inl e ↦
        let same : t ≡ r = ground arith in
        let was : t.prev_refresh_hash ≡ some h = ap (λ x. x.prev_refresh_hash) same ∙ previous in
        let live : t.revoked_at ≡ none = ap (λ x. x.revoked_at) same ∙ l in
        ground (arith, was, live, same, ==_refl h)
    | inr e ↦
        let rest : find_row (λ x. x.id == id) rows ≡ some r = ground arith in
        let apart = All-find_row (Apart t) (λ x. x.id == id) rows r o.1 rest in
        ground (arith, previous, apart.previous h, ==_refl h, previous-replayed rows l o.2 rest)
  ]

-- After a session was revoked, no row of its id is live.
pub revoke-All :
    (now id : ℕ) (rows : List Session)
    → let rows' = modify (λ s. s.id == id && is_none s.revoked_at) (revoke_at now) rows in
      All (λ s. (s.id == id && is_none s.revoked_at) ≡ false) rows'
unfolding modify
revoke-All now id [] = tt
revoke-All now id (s ∷ rows) = (ground arith, revoke-All now id rows)
