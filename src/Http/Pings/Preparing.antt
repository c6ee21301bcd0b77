-- ===== src/Http/Pings/Preparing.antt =====
-- The checks on the items of a batch.
use aul_private_location.Base.{
  ℕ, ◌≡◌, refl, sym, ap, subst, Bool, true, false, some, List, [], ◌∷◌, arith, ==_iff, any_row,
  any_row-find_row, find_row, All, Option-cases, inl, inr, Map, get, empty, get-empty, get-put,
}
use aul_private_location.Store.Schema.{Db}
use aul_private_location.Store.{ok, World, run_query}
use aul_private_location.Store.Transactions.{Outcome-cases}
use aul_private_location.Store.Circles.{get_membership, is_member}
use aul_private_location.Store.Pings.{InsertPingParams}
use aul_private_location.Http.{Base64}
use aul_private_location.Http.Circles.{Limits}
use aul_private_location.Http.Pings.{
  PingItem, check_member, remembered, prepare_item, prepare_items, in_ping_window,
}

-- Only what the table holds is remembered as a membership.
abbrev pub Remembers : ℕ → Db → Map Bool → Type 0
Remembers user db seen =
    (c : ℕ) → get seen c ≡ some true → any_row (is_member c user) db.members ≡ true

-- What a parameter has passed.
pub record Checked (limits : Limits) (now user device : ℕ) (db : Db) (p : InsertPingParams)
    : Type 0 where
  pub is_in : any_row (is_member p.circle_id user) db.members ≡ true
  pub own : p.device_id ≡ device
  pub timely : in_ping_window limits now p.captured_at ≡ true

check_member-reads :
    (user : ℕ) (seen : Map Bool) (circle : ℕ) (w : World)
    → ((check_member user seen circle w).1.db ≡ w.db)
      × ((check_member user seen circle w).1.sent ≡ w.sent)
unfolding check_member remembered run_query get_membership
check_member-reads user seen circle w = (ground arith, ground arith)

pub prepare_item-reads :
    (b64 : Base64) (limits : Limits) (now user device : ℕ) (seen : Map Bool) (item : PingItem)
    (w : World)
    → ((prepare_item b64 limits now user device seen item w).1.db ≡ w.db)
      × ((prepare_item b64 limits now user device seen item w).1.sent ≡ w.sent)
unfolding prepare_item
prepare_item-reads b64 limits now user device seen item w = elim (Option-cases item.circle_id) [
  | inl n ↦ (ground arith, ground arith)
  | inr (c, f) ↦
      let (d, s) = check_member-reads user seen c w in (ground (arith, d), ground (arith, s))
]

pub prepare_items-reads :
    (b64 : Base64) (limits : Limits) (now user device : ℕ) (seen : Map Bool) (items : List PingItem)
    (w : World)
    → ((prepare_items b64 limits now user device seen items w).1.db ≡ w.db)
      × ((prepare_items b64 limits now user device seen items w).1.sent ≡ w.sent)
unfolding prepare_items
prepare_items-reads b64 limits now user device seen [] w = (refl, refl)
prepare_items-reads b64 limits now user device seen (item ∷ items) w =
    let (d, s) = prepare_item-reads b64 limits now user device seen item w in
    let w' = (prepare_item b64 limits now user device seen item w).1 in
    elim (Outcome-cases (prepare_item b64 limits now user device seen item w).0) [
      | inl (x, h) ↦ (ground arith, ground arith)
      | inr (p, h) ↦
          let (d', s') = prepare_items-reads b64 limits now user device p.1 items w' in
          (ground (arith, d, d'), ground (arith, s, s'))
    ]

check_member-Remembers :
    (user : ℕ) (seen : Map Bool) (circle : ℕ) (w : World) (r : Bool × Map Bool)
    → Remembers user w.db seen
    → (check_member user seen circle w).0 ≡ ok r
    → Remembers user w.db r.1 × (r.0 ≡ true → any_row (is_member circle user) w.db.members ≡ true)
unfolding check_member remembered run_query get_membership
check_member-Remembers user seen circle w r known e = elim (Option-cases (get seen circle)) [
  | inl n ↦ elim (Option-cases (find_row (is_member circle user) w.db.members)) [
    | inl g ↦ ((λ c t. ground (arith, get-put seen circle c false, known c)), (λ t. ground arith))
    | inr (m, g) ↦
        let there = any_row-find_row (is_member circle user) w.db.members m g in
        (
          (λ c t. ground (
            arith,
            get-put seen circle c true,
            known c,
            ==_iff circle c,
            ap (λ i. any_row (is_member i user) w.db.members),
            there,
          )),
          (λ t. there),
        )
  ]
  | inr (v, f) ↦ ((λ c g. known c (ground arith)), (λ t. known circle (ground arith)))
]

prepare_item-Checked :
    (b64 : Base64) (limits : Limits) (now user device : ℕ) (seen : Map Bool) (item : PingItem)
    (w : World) (p : InsertPingParams × Map Bool)
    → Remembers user w.db seen
    → (prepare_item b64 limits now user device seen item w).0 ≡ ok p
    → Checked limits now user device w.db p.0 × Remembers user w.db p.1
unfolding prepare_item
prepare_item-Checked b64 limits now user device seen item w p known e =
    elim (Option-cases item.circle_id) [
      | inl n ↦ ground arith
      | inr (c, f) ↦ elim (Outcome-cases (check_member user seen c w).0) [
        | inl (x, h) ↦ ground arith
        | inr (r, h) ↦
            let (still, member_if) = check_member-Remembers user seen c w r known h in
            (
              record {
                is_in = ground (arith, member_if);
                own = ground arith;
                timely = ground arith;
              },
              subst (Remembers user w.db) (ground arith) still,
            )
      ]
    ]

pub prepare_items-Checked :
    (b64 : Base64) (limits : Limits) (now user device : ℕ) (seen : Map Bool) (items : List PingItem)
    (w : World) (ps : List InsertPingParams)
    → Remembers user w.db seen
    → (prepare_items b64 limits now user device seen items w).0 ≡ ok ps
    → All (Checked limits now user device w.db) ps
unfolding prepare_items
prepare_items-Checked b64 limits now user device seen [] w ps known e =
    let same : [] ≡ ps = ground arith in subst (All (Checked limits now user device w.db)) same tt
prepare_items-Checked b64 limits now user device seen (item ∷ items) w ps known e =
    let w' = (prepare_item b64 limits now user device seen item w).1 in
    let d = (prepare_item-reads b64 limits now user device seen item w).0 in
    elim (Outcome-cases (prepare_item b64 limits now user device seen item w).0) [
      | inl (x, h) ↦ ground arith
      | inr (p, h) ↦
          elim (Outcome-cases (prepare_items b64 limits now user device p.1 items w').0) [
            | inl (x, g) ↦ ground arith
            | inr (rest, g) ↦
                let (c, still) =
                  prepare_item-Checked b64 limits now user device seen item w p known h in
                let all =
                  prepare_items-Checked b64 limits now user device p.1 items w' rest
                    (subst (λ db. Remembers user db p.1) (sym d) still) g in
                let same : p.0 ∷ rest ≡ ps = ground arith in
                subst (All (Checked limits now user device w.db)) same
                  (c, subst (λ db. All (Checked limits now user device db) rest) d all)
          ]
    ]

pub empty-Remembers : (user : ℕ) (db : Db) → Remembers user db empty
empty-Remembers user db c e = ground (arith, get-empty {V = Bool} c)

-- The parameters of an item depend on the item alone, and not on the time or the tables.
prepare_item-once :
    (b64 : Base64) (limits : Limits) (now now' user device : ℕ) (seen seen' : Map Bool)
    (item : PingItem) (w w' : World) (a b : InsertPingParams × Map Bool)
    → (prepare_item b64 limits now user device seen item w).0 ≡ ok a
    → (prepare_item b64 limits now' user device seen' item w').0 ≡ ok b
    → a.0 ≡ b.0
unfolding prepare_item
prepare_item-once b64 limits now now' user device seen seen' item w w' a b e f = ground arith

pub prepare_items-once :
    (b64 : Base64) (limits : Limits) (now now' user device : ℕ) (seen seen' : Map Bool)
    (items : List PingItem) (w w' : World) (ps qs : List InsertPingParams)
    → (prepare_items b64 limits now user device seen items w).0 ≡ ok ps
    → (prepare_items b64 limits now' user device seen' items w').0 ≡ ok qs
    → ps ≡ qs
unfolding prepare_items
prepare_items-once b64 limits now now' user device seen seen' [] w w' ps qs e f = ground arith
prepare_items-once b64 limits now now' user device seen seen' (item ∷ items) w w' ps qs e f =
    elim (Outcome-cases (prepare_item b64 limits now user device seen item w).0) [
      | inl (x, h) ↦ ground arith
      | inr (p, h) ↦
          elim (Outcome-cases (prepare_item b64 limits now' user device seen' item w').0) [
            | inl (x, g) ↦ ground arith
            | inr (q, g) ↦
                let u = (prepare_item b64 limits now user device seen item w).1 in
                let v = (prepare_item b64 limits now' user device seen' item w').1 in
                elim (Outcome-cases (prepare_items b64 limits now user device p.1 items u).0) [
                  | inl (x, i) ↦ ground arith
                  | inr (ps', i) ↦
                      elim (Outcome-cases
                        (prepare_items b64 limits now' user device q.1 items v).0) [
                          | inl (x, j) ↦ ground arith
                          | inr (qs', j) ↦
                              let head =
                                prepare_item-once b64 limits now now' user device seen seen' item w
                                  w' p q h g in
                              let tail =
                                prepare_items-once b64 limits now now' user device p.1 q.1 items u v
                                  ps' qs' i j in
                              let split : p.0 ∷ ps' ≡ q.0 ∷ qs' = rw (head, tail) refl in
                              ground (arith, split)
                        ]
                ]
          ]
    ]
