-- ===== src/Store/Places/Versions/Statements.antt =====
-- Each place statement, against the versioned registers.
use aul_private_location.Base.{
  ℕ, ◌+◌, ◌≡◌, refl, sym, ap, ◌∙◌, true, false, ◌&&◌, none, some, List, [], ◌∷◌, ◌++◌, arith, ◌==◌,
  ==_iff, find_row, find_row-holds, any_row, any_row-none, modify, Bool-cases, Option-cases, inl,
  inr, ℤ, update,
}
use aul_private_location.Store.Schema.{Db, Place}
use aul_private_location.Store.{update_returning}
use aul_private_location.Store.Places.{
  create_place, update_place, soft_delete_place, has_version, at_version, live_place, revised,
  buried, new_place,
}
use aul_private_location.Store.Places.Versions.{
  register_of, view, live, create_op, answer, compare_and_set, drop, Allows,
}
use aul_private_location.Store.Places.Versions.Rows.{
  Keyed, find-at_version, live-modify, find-live_place, live-buried, live-append, unused-live,
  modify-Keyed, append-Keyed,
}

pub update-Keyed :
    (now id circle : ℕ) (content : List ℕ) (user : ℕ) (version : ℤ) (db : Db)
    → Keyed db.places
    → Keyed (update_place now id circle content user version db).1.places
unfolding update_place update_returning
update-Keyed now id circle content user version db k = ground (
  arith,
  modify-Keyed (at_version id circle version) (revised now content user) db.places (λ p. refl) k,
)

pub delete_place-Keyed :
    (now id circle user : ℕ) (db : Db)
    → Keyed db.places
    → Keyed (soft_delete_place now id circle user db).1.places
unfolding soft_delete_place update_returning
delete_place-Keyed now id circle user db k =
    ground (arith, modify-Keyed (live_place id circle) (buried now user) db.places (λ p. refl) k)

pub create-Keyed :
    (now id circle : ℕ) (content : List ℕ) (author : ℕ) (db : Db)
    → Keyed db.places
    → Keyed (create_place now id circle content author db).1.places
unfolding create_place
create-Keyed now id circle content author db k =
    ground (arith, append-Keyed (new_place now id circle content author) db.places)

abbrev rows_of : List Place → Db → Db
rows_of rows db = record db { places = rows }

view-revised :
    (now id circle : ℕ) (content : List ℕ) (user : ℕ) (version : ℤ) (db : Db) (p : Place)
    → find_row (live id) db.places ≡ some p
    → (p.circle_id == circle && has_version version p.version) ≡ true
    → (j : ℕ)
    → view
        (rows_of (modify (at_version id circle version) (revised now content user) db.places) db)
        j
      ≡ update
          (view db)
          id
          (some (record { circle = p.circle_id; version = p.version + 1; content = content }))
          j
view-revised now id circle content user version db p f h j =
    let moved = live-modify j id circle version now content user db.places in
    elim (Bool-cases (id == j)) [
      | inl g ↦
          let same : find_row (live j) db.places ≡ some p =
            ap (λ i. find_row (live i) db.places) (sym ((==_iff id j).0 g)) ∙ f in
          ground (arith, moved, same, h, find_row-holds (live id) db.places p f)
      | inr g ↦ elim (Option-cases (find_row (live j) db.places)) [
        | inl n ↦ ground (arith, moved, n)
        | inr (r, e) ↦ ground (
          arith,
          moved,
          e,
          find_row-holds (live j) db.places r e,
          ==_iff r.id j,
          ==_iff r.id id,
          ==_iff id j,
        )
      ]
    ]

pub update-Allows :
    (now id circle : ℕ) (content : List ℕ) (user : ℕ) (version : ℤ) (db : Db)
    → Keyed db.places
    → let (r, db') = update_place now id circle content user version db in
      (answer r, view db') ≡ compare_and_set (view db) id circle content version (view db id)
unfolding update_place update_returning
update-Allows now id circle content user version db k =
    let q = at_version id circle version in
    let seen = find-at_version id circle version db.places k in
    elim (Option-cases (find_row (live id) db.places)) [
      | inl n ↦ ground (arith, seen, any_row-none q db.places)
      | inr (p, f) ↦ elim (Bool-cases (p.circle_id == circle && has_version version p.version)) [
        | inl h ↦
            let views : view (rows_of (modify q (revised now content user) db.places) db)
                ≡ update (view db) id (
                    some (record {
                      circle = p.circle_id;
                      version = p.version + 1;
                      content = content;
                    })) =
              λ i j. view-revised now id circle content user version db p f h j i in
            ground (arith, seen, views)
        | inr h ↦ ground (arith, seen, any_row-none q db.places)
      ]
    ]

view-buried :
    (now id circle user : ℕ) (db : Db) (p : Place)
    → Keyed db.places
    → find_row (live id) db.places ≡ some p
    → (p.circle_id == circle) ≡ true
    → (j : ℕ)
    → view (rows_of (modify (live_place id circle) (buried now user) db.places) db) j
      ≡ update (view db) id none j
view-buried now id circle user db p k f h j =
    let moved = live-buried j id circle now user db.places k in
    elim (Bool-cases (id == j)) [
      | inl g ↦
          let same : find_row (live j) db.places ≡ some p =
            ap (λ i. find_row (live i) db.places) (sym ((==_iff id j).0 g)) ∙ f in
          ground (arith, moved, same, h)
      | inr g ↦ elim (Option-cases (find_row (live j) db.places)) [
        | inl n ↦ ground (arith, moved, n)
        | inr (r, e) ↦ ground (arith, moved, e)
      ]
    ]

pub delete-Allows :
    (now id circle user : ℕ) (db : Db)
    → Keyed db.places
    → let (r, db') = soft_delete_place now id circle user db in
      (answer r, view db') ≡ drop (view db) id circle (view db id)
unfolding soft_delete_place update_returning
delete-Allows now id circle user db k =
    let q = live_place id circle in
    let seen = find-live_place id circle db.places k in
    elim (Option-cases (find_row (live id) db.places)) [
      | inl n ↦ ground (arith, seen, any_row-none q db.places)
      | inr (p, f) ↦ elim (Bool-cases (p.circle_id == circle)) [
        | inl h ↦
            let views : view (rows_of (modify q (buried now user) db.places) db)
                ≡ update (view db) id none =
              λ i j. view-buried now id circle user db p k f h j i in
            ground (arith, seen, views)
        | inr h ↦ ground (arith, seen, any_row-none q db.places)
      ]
    ]

view-created :
    (now id circle : ℕ) (content : List ℕ) (author : ℕ) (db : Db)
    → any_row (λ p. p.id == id) db.places ≡ false
    → (j : ℕ)
    → view (rows_of (db.places ++ new_place now id circle content author ∷ []) db) j
      ≡ update (view db) id (some (record { circle = circle; version = 1; content = content })) j
view-created now id circle content author db h j =
    let moved = live-append j (new_place now id circle content author) db.places in
    elim (Bool-cases (id == j)) [
      | inl g ↦
          let gone : find_row (live j) db.places ≡ none =
            ap (λ i. find_row (live i) db.places) (sym ((==_iff id j).0 g))
            ∙ unused-live id db.places h in
          ground (arith, moved, gone)
      | inr g ↦ elim (Option-cases (find_row (live j) db.places)) [
        | inl n ↦ ground (arith, moved, n)
        | inr (r, e) ↦ ground (arith, moved, e)
      ]
    ]

pub create-Allows :
    (now id circle : ℕ) (content : List ℕ) (author : ℕ) (db : Db)
    → let (r, db') = create_place now id circle content author db in
      Allows (create_op now id circle content author) (view db) (answer r) (view db')
unfolding create_place
create-Allows now id circle content author db =
    elim (Bool-cases (any_row (λ p. p.id == id) db.places)) [
      | inl h ↦ rw h refl
      | inr h ↦
          elim (Bool-cases
            (any_row (λ c. c.id == circle) db.circles && any_row (λ u. u.id == author) db.users)) [
              | inl g ↦
                  rw (h, g)
                    (
                      ap register_of (unused-live id db.places h),
                      refl,
                      λ i j. view-created now id circle content author db h j i,
                    )
              | inr g ↦ rw (h, g) refl
            ]
    ]
