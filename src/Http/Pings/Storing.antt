-- ===== src/Http/Pings/Storing.antt =====
-- What the transaction of a batch stores.
use aul_private_location.Base.{
  ℕ, ◌≡◌, refl, sym, ap, subst, ◌∙◌, Bool, true, List, [], ◌∷◌, ◌++◌, arith, ==_refl,
  same_text_refl, length, any_row, All, Bool-cases, inl, inr,
}
use aul_private_location.Store.Schema.{Db, Ping, tv}
use aul_private_location.Store.{DbError, Outcome, ok, World, run_query}
use aul_private_location.Store.Transactions.{Outcome-cases}
use aul_private_location.Store.Pings.{InsertPingParams, insert_ping, new_ping, same_ping}
use aul_private_location.Store.Accounts.{touch_device}
use aul_private_location.Http.Pings.{inserted_row, insert_all, store_batch}

-- The row of the parameters is in the table.
abbrev pub Stored : List Ping → InsertPingParams → Type 0
Stored rows p = any_row (same_ping p) rows ≡ true

append_nil : (rows : List Ping) → rows ++ [] ≡ rows
append_nil [] = refl
append_nil (r ∷ rows) = ap (λ l. r ∷ l) (append_nil rows)

append_assoc : (rows more others : List Ping) → (rows ++ more) ++ others ≡ rows ++ (more ++ others)
append_assoc [] more others = refl
append_assoc (r ∷ rows) more others = ap (λ l. r ∷ l) (append_assoc rows more others)

any_row-append :
    (q : Ping → Bool) (rows more : List Ping)
    → any_row q rows ≡ true
    → any_row q (rows ++ more) ≡ true
unfolding any_row
any_row-append q [] more h = ground arith
any_row-append q (r ∷ rows) more h = ground (arith, any_row-append q rows more)

any_row-last :
    (q : Ping → Bool) (r : Ping) (rows : List Ping) → q r ≡ true → any_row q (rows ++ r ∷ []) ≡ true
unfolding any_row
any_row-last q r [] h = ground arith
any_row-last q r (x ∷ rows) h = ground (arith, any_row-last q r rows h)

-- One insertion that does not stop.
abbrev pub inserting : ℕ → ℕ → InsertPingParams → World → Outcome DbError (List Ping) × World
inserting now id p w = let (r, w') = run_query (insert_ping now id p) w in inserted_row r w'

insert_ping-Stored :
    (now id : ℕ) (p : InsertPingParams) (w : World) (rows : List Ping)
    → (inserting now id p w).0 ≡ ok rows
    → ((inserting now id p w).1.db.pings ≡ w.db.pings ++ rows)
      × Stored (inserting now id p w).1.db.pings p
      × (Stored w.db.pings p → rows ≡ [])
unfolding run_query insert_ping
insert_ping-Stored now id p w rows e = elim (Bool-cases (w.outage w.calls)) [
  | inl h ↦ ground arith
  | inr h ↦ elim (Bool-cases (any_row (same_ping p) w.db.pings)) [
    | inl g ↦ (ground (arith, append_nil w.db.pings), ground arith, ground arith)
    | inr g ↦
        let here : same_ping p (new_ping now id p) ≡ true =
          ground
            (arith, ==_refl p.device_id, same_text_refl p.client_id, ==_refl (tv p.captured_at)) in
        (
          ground arith,
          ground (arith, any_row-last (same_ping p) (new_ping now id p) w.db.pings here),
          ground arith,
        )
  ]
]

-- All the parameters are stored afterwards, in rows that are added to the table, and none is added
-- where they were stored before.
pub insert_all-Stored :
    (now : ℕ) (fresh : ℕ → ℕ) (ps : List InsertPingParams) (w : World) (rows : List Ping)
    → (insert_all now fresh ps w).0 ≡ ok rows
    → ((insert_all now fresh ps w).1.db.pings ≡ w.db.pings ++ rows)
      × All (Stored (insert_all now fresh ps w).1.db.pings) ps
      × (All (Stored w.db.pings) ps → rows ≡ [])
unfolding insert_all
insert_all-Stored now fresh [] w rows e = (ground (arith, append_nil w.db.pings), tt, ground arith)
insert_all-Stored now fresh (p ∷ ps) w rows e =
    elim (Outcome-cases (inserting now (fresh (length ps)) p w).0) [
      | inl (x, h) ↦ ground arith
      | inr (row, h) ↦
          let w' = (inserting now (fresh (length ps)) p w).1 in
          let (added, here, again) = insert_ping-Stored now (fresh (length ps)) p w row h in
          elim (Outcome-cases (insert_all now fresh ps w').0) [
            | inl (x, g) ↦ ground arith
            | inr (rest, g) ↦
                let (more, all, none_new) = insert_all-Stored now fresh ps w' rest g in
                let final : (insert_all now fresh (p ∷ ps) w).1.db.pings
                    ≡ (insert_all now fresh ps w').1.db.pings =
                  ground arith in
                let same : row ++ rest ≡ rows = ground arith in
                (
                  final
                      ∙ more
                      ∙ ap (λ l. l ++ rest) added
                      ∙ append_assoc w.db.pings row rest
                      ∙ ap (λ l. w.db.pings ++ l) same,
                  subst (λ l. All (Stored l) (p ∷ ps)) (sym final)
                      (
                        subst (λ l. Stored l p) (sym more)
                            (any_row-append (same_ping p) w'.db.pings rest here),
                        all,
                      ),
                  (λ a.
                      let nothing = again a.0 in
                      let kept : w.db.pings ≡ w'.db.pings =
                        ground (arith, added, nothing, append_nil w.db.pings) in
                      let rest_none = none_new (subst (λ l. All (Stored l) ps) kept a.1) in
                      ground (arith, nothing, rest_none, same)),
                )
          ]
    ]

touch_device-pings : (now device : ℕ) (db : Db) → (touch_device now device db).1.pings ≡ db.pings
unfolding touch_device
touch_device-pings now device db = refl

-- The same of the transaction.
pub store_batch-Stored :
    (now : ℕ) (fresh : ℕ → ℕ) (device : ℕ) (ps : List InsertPingParams) (w : World)
    (rows : List Ping)
    → (store_batch now fresh device ps w).0 ≡ ok rows
    → ((store_batch now fresh device ps w).1.db.pings ≡ w.db.pings ++ rows)
      × All (Stored (store_batch now fresh device ps w).1.db.pings) ps
      × (All (Stored w.db.pings) ps → rows ≡ [])
unfolding store_batch run_query
store_batch-Stored now fresh device ps w rows e =
    elim (Outcome-cases (insert_all now fresh ps w).0) [
      | inl (x, h) ↦ ground arith
      | inr (new, h) ↦
          let w' = (insert_all now fresh ps w).1 in
          let (added, all, again) = insert_all-Stored now fresh ps w new h in
          let final : (store_batch now fresh device ps w).1.db.pings ≡ w'.db.pings =
            ground (arith, touch_device-pings now device w'.db) in
          let same : new ≡ rows = ground arith in
          (
            final ∙ added ∙ ap (λ l. w.db.pings ++ l) same,
            subst (λ l. All (Stored l) ps) (sym final) all,
            (λ a. sym same ∙ again a),
          )
    ]

-- Nothing is announced within the transaction.
pub insert_all-sent :
    (now : ℕ) (fresh : ℕ → ℕ) (ps : List InsertPingParams) (w : World)
    → (insert_all now fresh ps w).1.sent ≡ w.sent
unfolding insert_all run_query
insert_all-sent now fresh [] w = refl
insert_all-sent now fresh (p ∷ ps) w =
    ground (arith, insert_all-sent now fresh ps (inserting now (fresh (length ps)) p w).1)

-- What the rows of a batch keep of their parameters.
module _ (P : ℕ → ℕ → Type 0) where
  All-append :
      (rows more : List Ping)
      → All (λ r. P r.circle_id r.device_id) rows
      → All (λ r. P r.circle_id r.device_id) more
      → All (λ r. P r.circle_id r.device_id) (rows ++ more)
  All-append [] more a b = b
  All-append (r ∷ rows) more a b = (a.0, All-append rows more a.1 b)

  inserting-All :
      (now id : ℕ) (p : InsertPingParams) (w : World) (rows : List Ping)
      → P p.circle_id p.device_id
      → (inserting now id p w).0 ≡ ok rows
      → All (λ r. P r.circle_id r.device_id) rows
  unfolding run_query insert_ping
  inserting-All now id p w [] h e = tt
  inserting-All now id p w (r ∷ []) h e = elim (Bool-cases (w.outage w.calls)) [
    | inl o ↦ ground arith
    | inr o ↦
        let same : new_ping now id p ≡ r = ground arith in
        (subst (λ r. P r.circle_id r.device_id) same h, tt)
  ]
  inserting-All now id p w (r ∷ q ∷ rows) h e = ground arith

  pub insert_all-All :
      (now : ℕ) (fresh : ℕ → ℕ) (ps : List InsertPingParams) (w : World) (rows : List Ping)
      → All (λ p. P p.circle_id p.device_id) ps
      → (insert_all now fresh ps w).0 ≡ ok rows
      → All (λ r. P r.circle_id r.device_id) rows
  unfolding insert_all
  insert_all-All now fresh [] w rows a e =
      let same : [] ≡ rows = ground arith in subst (All (λ r. P r.circle_id r.device_id)) same tt
  insert_all-All now fresh (p ∷ ps) w rows a e =
      elim (Outcome-cases (inserting now (fresh (length ps)) p w).0) [
        | inl (x, h) ↦ ground arith
        | inr (row, h) ↦
            let w' = (inserting now (fresh (length ps)) p w).1 in
            elim (Outcome-cases (insert_all now fresh ps w').0) [
              | inl (x, g) ↦ ground arith
              | inr (rest, g) ↦
                  let same : row ++ rest ≡ rows = ground arith in
                  subst (All (λ r. P r.circle_id r.device_id)) same (
                    All-append row rest (inserting-All now (fresh (length ps)) p w row a.0 h)
                      (insert_all-All now fresh ps w' rest a.1 g))
            ]
      ]

  pub store_batch-All :
      (now : ℕ) (fresh : ℕ → ℕ) (device : ℕ) (ps : List InsertPingParams) (w : World)
      (rows : List Ping)
      → All (λ p. P p.circle_id p.device_id) ps
      → (store_batch now fresh device ps w).0 ≡ ok rows
      → All (λ r. P r.circle_id r.device_id) rows
  unfolding store_batch run_query
  store_batch-All now fresh device ps w rows a e =
      elim (Outcome-cases (insert_all now fresh ps w).0) [
        | inl (x, h) ↦ ground arith
        | inr (new, h) ↦ insert_all-All now fresh ps w rows a (ground arith)
      ]
