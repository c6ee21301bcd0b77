-- ===== src/Http/Mutes/Inserting.antt =====
-- The statements of a PUT of the mutes, as what the user mutes afterwards.
use aul_private_location.Base.{
  ℕ, ◌+◌, ◌≡◌, refl, sym, ap, subst, Bool, true, false, ◌||◌, Option, some, List, [], ◌∷◌, ◌++◌,
  map, arith, ==_iff, ==_refl, has, select, any_row, delete, All, Bool-cases, inl, inr, Distinct,
}
use aul_private_location.Store.Schema.{Db, NotificationMute}
use aul_private_location.Store.{ok, World, run_query}
use aul_private_location.Store.Transactions.{Outcome-cases}
use aul_private_location.Store.Mutes.{insert_mute, mute_of, same_target, same_mute, new_mute}
use aul_private_location.Http.Mutes.{insert_ids}

-- What a user mutes in a circle.
abbrev pub targets : ℕ → ℕ → List NotificationMute → List (Option ℕ)
targets user circle rows = map (λ m. m.muted_user_id) (select (mute_of user circle) rows)

abbrev pub holds : Option ℕ → List (Option ℕ) → Bool
holds t ts = any_row (λ x. same_target x t) ts

targets-append :
    (user circle : ℕ) (m : NotificationMute) (rows : List NotificationMute)
    → mute_of user circle m ≡ true
    → targets user circle (rows ++ m ∷ []) ≡ targets user circle rows ++ m.muted_user_id ∷ []
unfolding select
targets-append user circle m [] h = ground arith
targets-append user circle m (r ∷ rows) h = ground (arith, targets-append user circle m rows h)

pub targets-delete :
    (user circle : ℕ) (rows : List NotificationMute)
    → targets user circle (delete (mute_of user circle) rows) ≡ []
unfolding select
targets-delete user circle [] = refl
targets-delete user circle (r ∷ rows) = ground (arith, targets-delete user circle rows)

holds-targets :
    (user circle : ℕ) (t : Option ℕ) (rows : List NotificationMute)
    → any_row (same_mute user circle t) rows ≡ holds t (targets user circle rows)
unfolding select any_row
holds-targets user circle t [] = refl
holds-targets user circle t (r ∷ rows) = ground (arith, holds-targets user circle t rows)

pub insert_mute-targets :
    (now user circle : ℕ) (t : Option ℕ) (db : Db)
    → holds t (targets user circle db.mutes) ≡ false
    → (insert_mute now user circle t db).0 ≡ ok tt
    → targets user circle (insert_mute now user circle t db).1.mutes
      ≡ targets user circle db.mutes ++ t ∷ []
unfolding insert_mute
insert_mute-targets now user circle t db h e = ground (
  arith,
  holds-targets user circle t db.mutes,
  targets-append user circle (new_mute now user circle t) db.mutes,
  ==_refl user,
  ==_refl circle,
)

holds-append :
    (t x : Option ℕ) (ts : List (Option ℕ))
    → holds t (ts ++ x ∷ []) ≡ (holds t ts || same_target x t)
unfolding any_row
holds-append t x [] = ground arith
holds-append t x (y ∷ ts) = ground (arith, holds-append t x ts)

-- Ids that a list of targets does not hold.
abbrev pub Fresh : List (Option ℕ) → List ℕ → Type 0
Fresh ts = All (λ id. holds (some id) ts ≡ false)

append-Fresh :
    (x : ℕ) (ts : List (Option ℕ)) (ids : List ℕ)
    → has x ids ≡ false
    → Fresh ts ids
    → Fresh (ts ++ some x ∷ []) ids
unfolding has
append-Fresh x ts [] h f = tt
append-Fresh x ts (id ∷ ids) h f = (
  ground (arith, holds-append (some id) (some x) ts, f.0, ==_iff id x, ==_iff x id),
  append-Fresh x ts ids (ground arith) f.1,
)

pub append_nil : (ts : List (Option ℕ)) → ts ++ [] ≡ ts
append_nil [] = refl
append_nil (t ∷ ts) = ap (λ l. t ∷ l) (append_nil ts)

pub append_assoc : (ts us : List (Option ℕ)) (x : Option ℕ) → (ts ++ x ∷ []) ++ us ≡ ts ++ x ∷ us
append_assoc [] us x = refl
append_assoc (t ∷ ts) us x = ap (λ l. t ∷ l) (append_assoc ts us x)

pub insert_ids-targets :
    (now user circle : ℕ) (ids : List ℕ) (w : World)
    → Distinct ids
    → Fresh (targets user circle w.db.mutes) ids
    → (insert_ids now user circle ids w).0 ≡ ok tt
    → targets user circle (insert_ids now user circle ids w).1.db.mutes
      ≡ targets user circle w.db.mutes ++ map some ids
unfolding insert_ids run_query
insert_ids-targets now user circle [] w d f e =
    ground (arith, append_nil (targets user circle w.db.mutes))
insert_ids-targets now user circle (id ∷ ids) w d f e = elim (Bool-cases (w.outage w.calls)) [
  | inl h ↦ ground arith
  | inr h ↦ elim (Outcome-cases (insert_mute now user circle (some id) w.db).0) [
    | inl (x, g) ↦ ground arith
    | inr (u, g) ↦
        let w' : World = record w {
          db = (insert_mute now user circle (some id) w.db).1;
          calls = w.calls + 1;
        } in
        let step = insert_mute-targets now user circle (some id) w.db f.0 g in
        let rest =
          insert_ids-targets now user circle ids w' d.1
            (subst (λ ts. Fresh ts ids) (sym step)
              (append-Fresh id (targets user circle w.db.mutes) ids d.0 f.1))
            (ground arith) in
        ground (
          arith,
          step,
          rest,
          append_assoc (targets user circle w.db.mutes) (map some ids) (some id),
        )
  ]
]
