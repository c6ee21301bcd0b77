-- ===== src/Auth/Ownership.antt =====
-- Which row of the session table a refresh hash belongs to, before and after RotateSession of
-- server/internal/store/sqlite_queries.go).
use aul_private_location.Base.{
  Option-cases, ◌⊎◌, subst, sym, ℕ, ◌≡◌, refl, true, false, some, List, [], ◌∷◌, arith, ==_iff,
  ==_refl, find_row, modify, All, All-modify, modify-none, Bool-cases, inl, inr,
}
use aul_private_location.Store.Schema.{Db, Session}
use aul_private_location.Auth.Tokens.{mentions, Apart, Owned, Unused, skip_swap, swapped}
use aul_private_location.Store.Sessions.{
  rotate_session, rotation_allowed, RotateSessionParams, column_is, swaps, rotated,
}

module _ (now h : ℕ) (p : RotateSessionParams) (matches : p.old_refresh_hash ≡ h) where
  rotated-Apart :
      (s t : Session)
      → swaps p s ≡ true
      → mentions p.refresh_token_hash t ≡ false
      → Apart s t
      → Apart (rotated now p s) t
  rotated-Apart s t w u a = record {
    ids = a.ids;
    current = ground (
      arith,
      a.current,
      ==_iff s.refresh_token_hash p.old_refresh_hash,
      ==_iff p.refresh_token_hash t.refresh_token_hash,
      ==_refl p.refresh_token_hash,
    );
    current' = u;
    previous = λ k. ground (
      arith,
      a.current',
      ==_iff s.refresh_token_hash p.old_refresh_hash,
      ==_iff p.old_refresh_hash k,
    );
  }

  Apart-rotated :
      (s t : Session)
      → swaps p t ≡ true
      → mentions p.refresh_token_hash s ≡ false
      → Apart s t
      → Apart s (rotated now p t)
  Apart-rotated s t w u a = record {
    ids = a.ids;
    current = u;
    current' = ground (
      arith,
      a.current,
      a.current',
      ==_iff t.refresh_token_hash p.old_refresh_hash,
      ==_iff p.refresh_token_hash s.refresh_token_hash,
      ==_iff p.old_refresh_hash s.refresh_token_hash,
      ==_refl s.refresh_token_hash,
      ==_refl p.refresh_token_hash,
    );
    previous = λ k. ground (
      arith,
      a.current,
      ==_iff t.refresh_token_hash p.old_refresh_hash,
      ==_iff p.old_refresh_hash k,
    );
  }

  rotated-own :
      (s : Session)
      → swaps p s ≡ true
      → mentions p.refresh_token_hash s ≡ false
      → column_is p.refresh_token_hash (some p.old_refresh_hash) ≡ false
  rotated-own s w u = ground (
    arith,
    ==_iff s.refresh_token_hash p.old_refresh_hash,
    ==_iff p.old_refresh_hash p.refresh_token_hash,
  )

  All-Apart-rotated :
      (s : Session) (rows : List Session)
      → mentions p.refresh_token_hash s ≡ false
      → All (Apart s) rows
      → All (Apart s) (swapped now h p matches rows)
  All-Apart-rotated s rows u =
      All-modify (Apart s) (swaps p) (rotated now p) rows (λ t w. Apart-rotated s t w u)

  All-rotated-Apart :
      (s : Session) (rows : List Session)
      → swaps p s ≡ true
      → Unused p.refresh_token_hash rows
      → All (Apart s) rows
      → All (Apart (rotated now p s)) rows
  All-rotated-Apart s [] w u a = tt
  All-rotated-Apart s (t ∷ rows) w u a =
      (rotated-Apart s t w u.0 a.0, All-rotated-Apart s rows w u.1 a.1)

  -- The hashes stay owned when the new one was unused.
  pub swapped-Owned :
      (rows : List Session)
      → Owned rows
      → Unused p.refresh_token_hash rows
      → Owned (swapped now h p matches rows)
  unfolding modify
  swapped-Owned [] o u = tt
  swapped-Owned (s ∷ rows) o u = elim (Bool-cases (swaps p s)) [
    | inl w ↦ rw w (
      rotated-own s w u.0,
      rw
          (modify-none (swaps p) (rotated now p) rows
            (skip_swap p s rows (ground (arith, ==_iff s.id p.id)) o.1))
          (All-rotated-Apart s rows w u.1 o.1),
      swapped-Owned rows o.2 u.1,
    )
    | inr w ↦ rw w (o.0, All-Apart-rotated s rows u.0 o.1, swapped-Owned rows o.2 u.1)
  ]

-- A rotation writes the swapped now h p matches rows, or none.
rotate_session-rows :
    (now : ℕ) (p : RotateSessionParams) (db : Db)
    → ((rotate_session now p db).1.sessions ≡ db.sessions)
      ⊎ ((rotate_session now p db).1.sessions ≡ modify (swaps p) (rotated now p) db.sessions)
unfolding rotate_session
rotate_session-rows now p db = elim (Option-cases (find_row (swaps p) db.sessions)) [
  | inl n ↦ inl (ground arith)
  | inr (s, f) ↦ elim (Bool-cases (rotation_allowed p db.sessions)) [
    | inl a ↦ inr (ground arith)
    | inr a ↦ inl (ground arith)
  ]
]

-- Every refresh hash, current or previous, goes on belonging to one row of the table after a
-- rotation, whichever way it ends, when the hash of the new token is not in the table.
pub rotate_session-Owned :
    (now : ℕ) (p : RotateSessionParams) (db : Db)
    → Owned db.sessions
    → Unused p.refresh_token_hash db.sessions
    → Owned (rotate_session now p db).1.sessions
rotate_session-Owned now p db o u = elim (rotate_session-rows now p db) [
  | inl e ↦ subst Owned (sym e) o
  | inr e ↦ subst Owned (sym e) (swapped-Owned now p.old_refresh_hash p refl db.sessions o u)
]
