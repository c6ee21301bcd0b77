-- ===== src/Store/Transactions.antt =====
-- Transactions that do not commit (server/internal/store/store.go).
use aul_private_location.Base.{◌+◌, ◌≡◌, refl, arith, ◌⊎◌, inl, inr}
use aul_private_location.Store.Schema.{Db}
use aul_private_location.Store.{
  DbError, Outcome, ok, err, World, Act, with_tx, finish_tx, with_tx_as, finish_tx_as,
}

pub Outcome-cases :
    {E A : Type 0} → (o : Outcome E A) → ((e : E) × (o ≡ err e)) ⊎ ((a : A) × (o ≡ ok a))
Outcome-cases (err e) = inl (e, refl)
Outcome-cases (ok a) = inr (a, refl)

finish_tx-db :
    {A : Type 0}
    → (before : Db) (r : Outcome DbError A) (w : World) (e : DbError)
    → (finish_tx before r w).0 ≡ err e
    → (finish_tx before r w).1.db ≡ before
unfolding finish_tx
finish_tx-db before (err x) w e h = refl
finish_tx-db before (ok a) w e h = ground arith

-- Whatever the body of a transaction does, and whichever call fails, commit included: when the
-- transaction returns an error, the tables are those from before it.
pub with_tx_atomic :
    {A : Type 0}
    → (body : Act DbError A) (w : World) (e : DbError) → (with_tx body w).0 ≡ err e
    → (with_tx body w).1.db ≡ w.db
unfolding with_tx
with_tx_atomic body w e h =
    let begun : World = record w { calls = w.calls + 1 } in
    ground (arith, finish_tx-db w.db (body begun).0 (body begun).1 e)

abbrev pub begun : World → World
begun w = record w { calls = w.calls + 1 }

-- A transaction that returns a result has committed what its body did.
pub with_tx-commits :
    {A : Type 0}
    → (body : Act DbError A) (w : World) (a : A) → (with_tx body w).0 ≡ ok a
    → ((body (begun w)).0 ≡ ok a) × ((with_tx body w).1.db ≡ (body (begun w)).1.db)
unfolding with_tx finish_tx
with_tx-commits body w a h = elim (Outcome-cases (body (begun w)).0) [
  | inl (e, g) ↦ (ground arith, ground arith)
  | inr (b, g) ↦ (ground arith, ground arith)
]

finish_tx_as-db :
    {E A : Type 0}
    → (f : DbError → E) (before : Db) (r : Outcome E A) (w : World) (e : E)
    → (finish_tx_as f before r w).0 ≡ err e
    → (finish_tx_as f before r w).1.db ≡ before
unfolding finish_tx_as
finish_tx_as-db f before (err x) w e h = refl
finish_tx_as-db f before (ok a) w e h = ground arith

pub with_tx_as_atomic :
    {E A : Type 0}
    → (f : DbError → E) (body : Act E A) (w : World) (e : E) → (with_tx_as f body w).0 ≡ err e
    → (with_tx_as f body w).1.db ≡ w.db
unfolding with_tx_as
with_tx_as_atomic f body w e h =
    ground (arith, finish_tx_as-db f w.db (body (begun w)).0 (body (begun w)).1 e)

pub with_tx_as-commits :
    {E A : Type 0}
    → (f : DbError → E) (body : Act E A) (w : World) (a : A) → (with_tx_as f body w).0 ≡ ok a
    → ((body (begun w)).0 ≡ ok a) × ((with_tx_as f body w).1.db ≡ (body (begun w)).1.db)
unfolding with_tx_as finish_tx_as
with_tx_as-commits f body w a h = elim (Outcome-cases (body (begun w)).0) [
  | inl (e, g) ↦ (ground arith, ground arith)
  | inr (b, g) ↦ (ground arith, ground arith)
]

-- A transaction announces what its body does.
pub with_tx_as-sent :
    {E A : Type 0}
    → (f : DbError → E) (body : Act E A) (w : World) → ((v : World) → (body v).1.sent ≡ v.sent)
    → (with_tx_as f body w).1.sent ≡ w.sent
unfolding with_tx_as finish_tx_as
with_tx_as-sent f body w h = elim (Outcome-cases (body (begun w)).0) [
  | inl (e, g) ↦ ground (arith, h (begun w))
  | inr (b, g) ↦ ground (arith, h (begun w))
]
