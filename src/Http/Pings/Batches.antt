-- ===== src/Http/Pings/Batches.antt =====
-- A batch of pings as a whole.
use aul_private_location.Base.{
  ℕ, ◌-◌, ◌≡◌, refl, sym, ap, subst, ◌∙◌, true, Option, none, some, List, [], ◌∷◌, ◌++◌, map, arith,
  length, any_row, All, inl, inr, empty,
}
use aul_private_location.Store.Schema.{Db, Ping}
use aul_private_location.Store.{ok, err, World, with_tx, run_query, Effect, publish_ping, send}
use aul_private_location.Store.Transactions.{Outcome-cases, begun, with_tx-commits, with_tx_atomic}
use aul_private_location.Store.Circles.{is_member}
use aul_private_location.Store.Pings.{InsertPingParams}
use aul_private_location.Http.{HttpError, Base64}
use aul_private_location.Http.Circles.{Limits}
use aul_private_location.Http.Pings.{
  PingItem, prepare_items, store_batch, fan_out, BatchResult, batch_size, handle_ping_batch,
}
use aul_private_location.Http.Pings.Storing.{
  Stored, store_batch-Stored, store_batch-All, insert_all-sent,
}
use aul_private_location.Http.Pings.Preparing.{
  Checked, prepare_items-reads, prepare_items-Checked, prepare_items-once, empty-Remembers,
}

append_nil : (l : List Effect) → l ++ [] ≡ l
append_nil [] = refl
append_nil (e ∷ l) = ap (λ k. e ∷ k) (append_nil l)

pings_nil : (l : List Ping) → l ++ [] ≡ l
pings_nil [] = refl
pings_nil (p ∷ l) = ap (λ k. p ∷ k) (pings_nil l)

append_assoc : (l : List Effect) (e : Effect) (k : List Effect) → (l ++ e ∷ []) ++ k ≡ l ++ (e ∷ k)
append_assoc [] e k = refl
append_assoc (x ∷ l) e k = ap (λ m. x ∷ m) (append_assoc l e k)

fan_out-sent :
    (rows : List Ping) (w : World)
    → ((fan_out rows w).0 ≡ ok tt)
      × ((fan_out rows w).1.db ≡ w.db)
      × ((fan_out rows w).1.sent ≡ w.sent ++ map publish_ping rows)
unfolding fan_out send
fan_out-sent [] w = (refl, refl, ground (arith, append_nil w.sent))
fan_out-sent (row ∷ rows) w =
    let w' : World = record w { sent = w.sent ++ publish_ping row ∷ [] } in
    let (r, d, s) = fan_out-sent rows w' in
    (r, d, s ∙ append_assoc w.sent (publish_ping row) (map publish_ping rows))

store_batch-sent :
    (now : ℕ) (fresh : ℕ → ℕ) (device : ℕ) (ps : List InsertPingParams) (w : World)
    → (with_tx (store_batch now fresh device ps) w).1.sent ≡ w.sent
unfolding with_tx store_batch run_query
store_batch-sent now fresh device ps w = ground (arith, insert_all-sent now fresh ps (begun w))

-- The run of a batch up to its transaction, and from there.
record Ran (b64 : Base64) (limits : Limits) (now : ℕ) (fresh : ℕ → ℕ) (user device : ℕ)
    (items : List PingItem) (w : World) (r : BatchResult) (after : World) : Type 0 where
  params : List InsertPingParams
  rows : List Ping
  prepared : (prepare_items b64 limits now user device empty items w).0 ≡ ok params
  inserted :
      (with_tx
        (store_batch now fresh device params)
        (prepare_items b64 limits now user device empty items w).1).0
      ≡ ok rows
  kept :
      after.db
      ≡ (with_tx
          (store_batch now fresh device params)
          (prepare_items b64 limits now user device empty items w).1).1.db
  sent : after.sent ≡ w.sent ++ map publish_ping rows
  counts :
      (r.accepted ≡ length items)
      × (r.stored ≡ length rows)
      × (r.duplicate ≡ length items - length rows)

ping_batch-Ran :
    (b64 : Base64) (limits : Limits) (now : ℕ) (fresh : ℕ → ℕ) (user device : ℕ)
    (items : List PingItem) (w : World) (r : BatchResult)
    → (handle_ping_batch b64 limits now fresh user device (some items) w).0 ≡ ok r
    → Ran b64 limits now fresh user device items w r
        (handle_ping_batch b64 limits now fresh user device (some items) w).1
unfolding handle_ping_batch batch_size
ping_batch-Ran b64 limits now fresh user device items w r e =
    elim (Outcome-cases (prepare_items b64 limits now user device empty items w).0) [
      | inl (x, h) ↦ ground arith
      | inr (ps, h) ↦
          let w' = (prepare_items b64 limits now user device empty items w).1 in
          elim (Outcome-cases (with_tx (store_batch now fresh device ps) w').0) [
            | inl (x, g) ↦ ground arith
            | inr (rows, g) ↦
                let w'' = (with_tx (store_batch now fresh device ps) w').1 in
                let (f, d, s) = fan_out-sent rows w'' in
                let still = store_batch-sent now fresh device ps w' in
                let read = (prepare_items-reads b64 limits now user device empty items w).1 in
                record {
                  params = ps;
                  rows = rows;
                  prepared = h;
                  inserted = g;
                  kept = ground (arith, f, d);
                  sent = ground (arith, f, s, still, read);
                  counts = (ground (arith, f), ground (arith, f), ground (arith, f));
                }
          ]
    ]

-- A batch that is refused, for whatever reason and whichever call of the database fails, stores
-- nothing and announces nothing.
pub ping_batch_atomic :
    (b64 : Base64) (limits : Limits) (now : ℕ) (fresh : ℕ → ℕ) (user device : ℕ)
    (body : Option (List PingItem)) (w : World) (e : HttpError)
    → (handle_ping_batch b64 limits now fresh user device body w).0 ≡ err e
    → let after = (handle_ping_batch b64 limits now fresh user device body w).1 in
      (after.db ≡ w.db) × (after.sent ≡ w.sent)
unfolding handle_ping_batch batch_size
ping_batch_atomic b64 limits now fresh user device none w e h = (refl, refl)
ping_batch_atomic b64 limits now fresh user device (some items) w e h =
    let w' = (prepare_items b64 limits now user device empty items w).1 in
    let (d, s) = prepare_items-reads b64 limits now user device empty items w in
    elim (Outcome-cases (prepare_items b64 limits now user device empty items w).0) [
      | inl (x, g) ↦ (ground (arith, d), ground (arith, s))
      | inr (ps, g) ↦ elim (Outcome-cases (with_tx (store_batch now fresh device ps) w').0) [
        | inl (x, t) ↦
            let back = with_tx_atomic (store_batch now fresh device ps) w' x t in
            let still = store_batch-sent now fresh device ps w' in
            (ground (arith, d, back), ground (arith, s, still))
        | inr (rows, t) ↦
            let (f, u, v) = fan_out-sent rows (with_tx (store_batch now fresh device ps) w').1 in
            ground (arith, f)
      ]
    ]

-- A ping of the caller's device, in a circle that the caller is a member of.
abbrev pub Reported : ℕ → ℕ → Db → ℕ → ℕ → Type 0
Reported user device db circle d =
    (any_row (is_member circle user) db.members ≡ true) × (d ≡ device)

reported :
    (limits : Limits) (now user device : ℕ) (db : Db) (ps : List InsertPingParams)
    → All (Checked limits now user device db) ps
    → All (λ p. Reported user device db p.circle_id p.device_id) ps
reported limits now user device db [] a = tt
reported limits now user device db (p ∷ ps) a =
    ((a.0.is_in, a.0.own), reported limits now user device db ps a.1)

-- A batch that succeeds adds rows to the table of pings and changes none: each is of the caller's
-- device and in a circle of which the caller is a member. Exactly the added rows are announced, in
-- their order, and the answer counts them: every item of the batch is stored or a duplicate.
pub ping_batch-fan_out :
    (b64 : Base64) (limits : Limits) (now : ℕ) (fresh : ℕ → ℕ) (user device : ℕ)
    (items : List PingItem) (w : World) (r : BatchResult)
    → (handle_ping_batch b64 limits now fresh user device (some items) w).0 ≡ ok r
    → let after = (handle_ping_batch b64 limits now fresh user device (some items) w).1 in
      (rows : List Ping) × (after.db.pings ≡ w.db.pings ++ rows)
      × All (λ p. Reported user device w.db p.circle_id p.device_id) rows
      × (after.sent ≡ w.sent ++ map publish_ping rows)
      × (r.accepted ≡ length items)
      × (r.stored ≡ length rows)
      × (r.duplicate ≡ length items - length rows)
ping_batch-fan_out b64 limits now fresh user device items w r e =
    let run = ping_batch-Ran b64 limits now fresh user device items w r e in
    let w' = (prepare_items b64 limits now user device empty items w).1 in
    let d = (prepare_items-reads b64 limits now user device empty items w).0 in
    let (b, c) =
      with_tx-commits (store_batch now fresh device run.params) w' run.rows run.inserted in
    let added = (store_batch-Stored now fresh device run.params (begun w') run.rows b).0 in
    let checked =
      prepare_items-Checked b64 limits now user device empty items w run.params
        (empty-Remembers user w.db) run.prepared in
    (
      run.rows,
      ap (λ db. db.pings) (run.kept ∙ c) ∙ added ∙ ap (λ db. db.pings ++ run.rows) d,
      store_batch-All (Reported user device w.db) now fresh device run.params (begun w') run.rows
          (reported limits now user device w.db run.params checked) b,
      run.sent,
      run.counts.0,
      run.counts.1,
      run.counts.2,
    )

-- Every ping of the one table, as its device, its client id and its time name it, is in the other.
abbrev pub NonePruned : List Ping → List Ping → Type 0
NonePruned old new = (p : InsertPingParams) → Stored old p → Stored new p

kept_params :
    (old new : List Ping) (ps : List InsertPingParams)
    → NonePruned old new
    → All (Stored old) ps
    → All (Stored new) ps
kept_params old new [] kept a = tt
kept_params old new (p ∷ ps) kept a = (kept p a.0, kept_params old new ps kept a.1)

-- A batch can be sent again: when a batch that succeeded is repeated, at whatever time and whatever
-- else has happened to the tables in between, as long as no ping that was stored has been pruned,
-- and succeeds, it stores no ping, answers that every item is a duplicate, and announces nothing.
pub ping_batch-retry :
    (b64 : Base64) (limits : Limits) (now now' : ℕ) (fresh fresh' : ℕ → ℕ) (user device : ℕ)
    (items : List PingItem) (w between : World) (r s : BatchResult)
    → (handle_ping_batch b64 limits now fresh user device (some items) w).0 ≡ ok r
    → NonePruned
        (handle_ping_batch b64 limits now fresh user device (some items) w).1.db.pings
        between.db.pings
    → let again = handle_ping_batch b64 limits now' fresh' user device (some items) between in
      again.0 ≡ ok s
      → (s.stored ≡ 0)
        × (s.duplicate ≡ length items)
        × (again.1.db.pings ≡ between.db.pings)
        × (again.1.sent ≡ between.sent)
ping_batch-retry b64 limits now now' fresh fresh' user device items w between r s e kept f =
    let after = (handle_ping_batch b64 limits now fresh user device (some items) w).1 in
    let first = ping_batch-Ran b64 limits now fresh user device items w r e in
    let second = ping_batch-Ran b64 limits now' fresh' user device items between s f in
    let u = (prepare_items b64 limits now user device empty items w).1 in
    let v = (prepare_items b64 limits now' user device empty items between).1 in
    let same =
      prepare_items-once b64 limits now now' user device empty empty items w between first.params
        second.params first.prepared second.prepared in
    let (b, c) =
      with_tx-commits (store_batch now fresh device first.params) u first.rows first.inserted in
    let (b', c') =
      with_tx-commits (store_batch now' fresh' device second.params) v second.rows
        second.inserted in
    let there = (store_batch-Stored now fresh device first.params (begun u) first.rows b).1 in
    let (added, all, none_new) =
      store_batch-Stored now' fresh' device second.params (begun v) second.rows b' in
    let d = (prepare_items-reads b64 limits now' user device empty items between).0 in
    let stored : after.db.pings ≡ (store_batch now fresh device first.params (begun u)).1.db.pings =
      ap (λ db. db.pings) (first.kept ∙ c) in
    let still =
      kept_params after.db.pings between.db.pings first.params kept
        (subst (λ l. All (Stored l) first.params) (sym stored) there) in
    let nothing : second.rows ≡ [] = none_new (
      subst (λ ps. All (Stored v.db.pings) ps) same
        (subst (λ db. All (Stored db.pings) first.params) (sym d) still)) in
    (
      second.counts.1 ∙ ap length nothing,
      omega (arith, second.counts.2, ap length nothing),
      ap (λ db. db.pings) (second.kept ∙ c')
          ∙ added
          ∙ ap (λ l. v.db.pings ++ l) nothing
          ∙ pings_nil v.db.pings
          ∙ ap (λ db. db.pings) d,
      second.sent ∙ ap (λ l. between.sent ++ map publish_ping l) nothing ∙ append_nil between.sent,
    )
