-- ===== src/Http/Mutes/Replacing.antt =====
-- What a PUT of the mutes stores, and what GET then answers.
use aul_private_location.Base.{
  ℕ, ◌+◌, ◌≡◌, refl, sym, ap, subst, ◌∙◌, Bool, true, false, Option, none, some, List, [], ◌∷◌,
  ◌++◌, map, arith, ◌==◌, ==_iff, has, add, has-add, any_row, All, Bool-cases, Option-cases, inl,
  inr, Distinct,
}
use aul_private_location.Store.Schema.{Db, CircleMember}
use aul_private_location.Store.{ok, World, run_query, with_tx}
use aul_private_location.Store.Transactions.{Outcome-cases, begun, with_tx-commits}
use aul_private_location.Store.Mutes.{list_mutes, delete_mutes, insert_mute}
use aul_private_location.Http.Mutes.{
  insert_ids, insert_circle, replace_mutes, deduped, mutes_from_rows, MuteSet, handle_set_mutes,
  handle_get_mutes, all_members,
}
use aul_private_location.Http.Mutes.Inserting.{
  targets, holds, Fresh, targets-delete, insert_mute-targets, insert_ids-targets,
}

-- The rows of one PUT.
abbrev pub asked : Bool → List ℕ → List (Option ℕ)
asked true ids = none ∷ map some ids
asked false ids = map some ids

nothing-Fresh : (ids : List ℕ) → Fresh [] ids
unfolding any_row
nothing-Fresh [] = tt
nothing-Fresh (id ∷ ids) = (refl, nothing-Fresh ids)

circle-Fresh : (ids : List ℕ) → Fresh (none ∷ []) ids
unfolding any_row
circle-Fresh [] = tt
circle-Fresh (id ∷ ids) = (refl, circle-Fresh ids)

pub holds-nil : (t : Option ℕ) → holds t [] ≡ false
unfolding any_row
holds-nil t = refl

abbrev emptied : ℕ → ℕ → World → World
emptied user circle w = record w { db = (delete_mutes user circle w.db).1; calls = w.calls + 1 }

emptied-targets :
    (user circle : ℕ) (w : World) → targets user circle (emptied user circle w).db.mutes ≡ []
unfolding delete_mutes
emptied-targets user circle w = targets-delete user circle w.db.mutes

insert_asked :
    (now user circle : ℕ) (whole : Bool) (ids : List ℕ) (w : World)
    → Distinct ids
    → targets user circle w.db.mutes ≡ []
    → (insert_ids now user circle ids (insert_circle now user circle whole w).1).0 ≡ ok tt
    → (insert_circle now user circle whole w).0 ≡ ok tt
    → targets user circle
        (insert_ids now user circle ids (insert_circle now user circle whole w).1).1.db.mutes
      ≡ asked whole ids
unfolding run_query
insert_asked now user circle false ids w d n e f =
    insert_ids-targets now user circle ids w d
      (subst (λ ts. Fresh ts ids) (sym n) (nothing-Fresh ids)) e
    ∙ ap (λ ts. ts ++ map some ids) n
insert_asked now user circle true ids w d n e f =
    let w' = (run_query (insert_mute now user circle none) w).1 in
    let step : targets user circle w'.db.mutes ≡ none ∷ [] =
      ground (arith, insert_mute-targets now user circle none w.db, holds-nil none) in
    insert_ids-targets now user circle ids w' d
      (subst (λ ts. Fresh ts ids) (sym step) (circle-Fresh ids)) e
    ∙ ap (λ ts. ts ++ map some ids) step

replace_mutes-targets :
    (now user circle : ℕ) (whole : Bool) (ids : List ℕ) (w : World)
    → Distinct ids
    → (replace_mutes now user circle whole ids w).0 ≡ ok tt
    → targets user circle (replace_mutes now user circle whole ids w).1.db.mutes ≡ asked whole ids
unfolding replace_mutes run_query delete_mutes
replace_mutes-targets now user circle whole ids w d e = elim (Bool-cases (w.outage w.calls)) [
  | inl h ↦ ground arith
  | inr h ↦
      let w' = emptied user circle w in
      let none_left = emptied-targets user circle w in
      elim (Outcome-cases (insert_circle now user circle whole w').0) [
        | inl (x, g) ↦ ground arith
        | inr (u, g) ↦
            let f : (insert_circle now user circle whole w').0 ≡ ok tt = g in
            ground (arith, insert_asked now user circle whole ids w' d none_left, f)
      ]
]

has-listed :
    (x : ℕ) (ids seen : List ℕ)
    → All (λ id. has id (add x seen) ≡ false) ids
    → (has x ids ≡ false) × All (λ id. has id seen ≡ false) ids
unfolding has
has-listed x [] seen a = (refl, tt)
has-listed x (id ∷ ids) seen a =
    let rest = has-listed x ids seen a.1 in
    (
      ground (arith, has-add x id seen, a.0, rest.0, ==_iff x id, ==_iff id x),
      (ground (arith, has-add x id seen, a.0), rest.1),
    )

-- The ids are those of the request, each once.
deduped-Distinct :
    (user : ℕ) (req seen ids : List ℕ)
    → deduped user seen req ≡ some ids
    → Distinct ids × All (λ id. has id seen ≡ false) ids
unfolding deduped
deduped-Distinct user [] seen ids e = ground arith
deduped-Distinct user (id ∷ req) seen ids e = elim (Bool-cases (id == user)) [
  | inl h ↦ ground arith
  | inr h ↦ elim (Bool-cases (has id seen)) [
    | inl g ↦ deduped-Distinct user req seen ids (ground arith)
    | inr g ↦ elim (Option-cases (deduped user (add id seen) req)) [
      | inl n ↦ ground arith
      | inr (rest, f) ↦
          let (d, a) = deduped-Distinct user req (add id seen) rest f in
          let (l, s) = has-listed id rest seen a in
          let same : id ∷ rest ≡ ids = ground arith in
          subst (λ l. Distinct l × All (λ i. has i seen ≡ false) l) same ((l, d), (g, s))
    ]
  ]
]

pub deduped-has :
    (user x : ℕ) (req seen ids : List ℕ)
    → deduped user seen req ≡ some ids
    → has x seen ≡ false
    → has x ids ≡ has x req
unfolding deduped has
deduped-has user x [] seen ids e s = ground arith
deduped-has user x (id ∷ req) seen ids e s = elim (Bool-cases (id == user)) [
  | inl h ↦ ground arith
  | inr h ↦ elim (Bool-cases (has id seen)) [
    | inl g ↦ ground (arith, deduped-has user x req seen ids, ==_iff id x)
    | inr g ↦ elim (Option-cases (deduped user (add id seen) req)) [
      | inl n ↦ ground arith
      | inr (rest, f) ↦
          ground (arith, deduped-has user x req (add id seen) rest f, has-add id x seen)
    ]
  ]
]

rows_read :
    (ids : List ℕ)
    → mutes_from_rows (map some ids) ≡ record { circle_muted = false; muted_user_ids = ids }
unfolding mutes_from_rows
rows_read [] = refl
rows_read (id ∷ ids) = ground (arith, rows_read ids)

asked_read :
    (whole : Bool) (ids : List ℕ)
    → mutes_from_rows (asked whole ids) ≡ record { circle_muted = whole; muted_user_ids = ids }
unfolding mutes_from_rows
asked_read true ids = ground (arith, rows_read ids)
asked_read false ids = rows_read ids

-- A PUT that succeeds.
pub record Replaced (user circle : ℕ) (req dto : MuteSet) (after : Db) : Type 0 where
  pub once : deduped user [] req.muted_user_ids ≡ some dto.muted_user_ids
  pub whole : dto.circle_muted ≡ req.circle_muted
  pub kept : targets user circle after.mutes ≡ asked dto.circle_muted dto.muted_user_ids

pub set_mutes-Replaced :
    (now : ℕ) (m : CircleMember) (req dto : MuteSet) (w : World)
    → (handle_set_mutes now m (some req) w).0 ≡ ok dto
    → Replaced m.user_id m.circle_id req dto (handle_set_mutes now m (some req) w).1.db
unfolding handle_set_mutes all_members
set_mutes-Replaced now m req dto w e =
    elim (Option-cases (deduped m.user_id [] req.muted_user_ids)) [
      | inl n ↦ ground arith
      | inr (ids, f) ↦
          let checked = (all_members m.circle_id ids w).1 in
          let body = replace_mutes now m.user_id m.circle_id req.circle_muted ids in
          elim (Outcome-cases (with_tx body checked).0) [
            | inl (x, g) ↦ ground arith
            | inr (u, g) ↦
                let same : record { circle_muted = req.circle_muted; muted_user_ids = ids } ≡ dto =
                  ground arith in
                let (b, c) = with_tx-commits body checked tt g in
                let t =
                  replace_mutes-targets now m.user_id m.circle_id req.circle_muted ids
                    (begun checked) (deduped-Distinct m.user_id req.muted_user_ids [] ids f).0 b in
                let committed : (handle_set_mutes now m (some req) w).1.db
                    ≡ (with_tx body checked).1.db =
                  ground arith in
                record {
                  once = ground arith;
                  whole = ground arith;
                  kept =
                      ap (λ db. targets m.user_id m.circle_id db.mutes) (committed ∙ c)
                      ∙ t
                      ∙ ap (λ d. asked d.circle_muted d.muted_user_ids) same;
                }
          ]
    ]

-- A PUT that succeeds answers with what the caller then reads back: the GET that follows it, where
-- its call of the database does not fail, answers exactly the same set. The ids are those of the
-- request, each once, and `circle_muted` is as it was asked for.
pub set_then_get_mutes :
    (now : ℕ) (m : CircleMember) (req dto : MuteSet) (w : World)
    → (handle_set_mutes now m (some req) w).0 ≡ ok dto
    → let after = (handle_set_mutes now m (some req) w).1 in
      (after.outage after.calls ≡ false → (handle_get_mutes m after).0 ≡ ok dto)
      × (dto.circle_muted ≡ req.circle_muted)
      × ((id : ℕ) → has id dto.muted_user_ids ≡ has id req.muted_user_ids)
      × Distinct dto.muted_user_ids
unfolding handle_get_mutes run_query list_mutes has
set_then_get_mutes now m req dto w e =
    let after = (handle_set_mutes now m (some req) w).1 in
    let r = set_mutes-Replaced now m req dto w e in
    (
      (λ o. ground (
        arith,
        r.kept,
        asked_read dto.circle_muted dto.muted_user_ids,
        ap mutes_from_rows r.kept,
      )),
      r.whole,
      (λ id. deduped-has m.user_id id req.muted_user_ids [] dto.muted_user_ids r.once refl),
      (deduped-Distinct m.user_id req.muted_user_ids [] dto.muted_user_ids r.once).0,
    )
