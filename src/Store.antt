-- ===== src/Store.antt =====
-- The store of server/internal/store as its callers see it: a database whose every call may fail,
-- queries that find no row, and transactions (store.go).
pub mod Schema
pub mod Sessions
pub mod Circles
pub mod Invites
pub mod Shares
pub mod Pings
pub mod Places
pub mod Sos
pub mod Mutes
pub mod KeyEnvelopes
pub mod Accounts
pub mod Push
pub mod LoginAttempts
pub mod Transactions
use aul_private_location.Base.{
  ℕ, suc, ◌+◌, Bool, true, false, Option, none, some, List, [], ◌∷◌, ◌++◌, if◌then◌else◌, find_row,
  modify,
}
use Schema.{Db, Ping}

-- `no_rows` is sql.ErrNoRows, which `IsNotFound` recognises; `unavailable` any other error of the
-- driver, a violated constraint included.
pub data DbError : Type 0 where
  no_rows unavailable : DbError

pub data Outcome {ℓ} (E A : Type ℓ) : Type ℓ where
  ok : A → Outcome E A
  err : E → Outcome E A

-- What a handler asks of the hub and of the audit log, in order. An audit event is its name, and for
-- a failed login also the account, the IP address and the e-mail address that are logged.
pub data AuditEvent : Type 0 where
  login_failed : Option ℕ → Option ℕ → Option ℕ → AuditEvent
  register login logout token_refresh refresh_reuse_detected session_revoked : AuditEvent
  circle_created invite_created invite_accepted member_removed member_left key_rotation : AuditEvent
  key_envelope_sent sos_created sos_resolved : AuditEvent

pub data Topic : Type 0 where
  ping sos sos_resolved_topic place_updated key_envelope precision_mode member_changed : Topic

pub data Effect : Type 0 where
  audit : AuditEvent → Effect
  evict_user : ℕ → ℕ → Effect
  evict_circle : ℕ → Effect
  publish : Topic → ℕ → Effect
  publish_ping : Ping → Effect
  set_share_cookie : ℕ → ℕ → ℕ → Effect

-- `outage n` says whether the n-th call of the database from the start of the history fails.
pub record World : Type 0 where
  pub db : Db
  pub outage : ℕ → Bool
  pub calls : ℕ
  pub sent : List Effect

-- A program that reads and changes the world and may stop with an error.
abbrev pub Act : Type 0 → Type 0 → Type 0
Act E A = World → Outcome E A × World

module _ {E : Type 0} where
  abbrev pub pure : {A : Type 0} → A → Act E A
  pure a w = (ok a, w)

  abbrev pub stop : {A : Type 0} → E → Act E A
  stop e w = (err e, w)

  abbrev pub then_do : {A B : Type 0} → (A → Act E B) → Outcome E A → World → Outcome E B × World
  then_do f (ok a) w = f a w
  then_do f (err e) w = (err e, w)

  infixl 5 ◌>>=◌ ◌>>◌
  abbrev pub ◌>>=◌ : {A B : Type 0} → Act E A → (A → Act E B) → Act E B
  ◌>>=◌ m f w = let (r, w') = m w in then_do f r w'

  abbrev pub ◌>>◌ : {A B : Type 0} → Act E A → Act E B → Act E B
  m >> k = m >>= λ _. k

-- The error of a query, as the caller answers it.
abbrev pub relabel : {E F A : Type 0} → (E → F) → Outcome E A → Outcome F A
relabel f (ok a) = ok a
relabel f (err e) = err (f e)

abbrev pub or_else : {E F A : Type 0} → Act E A → (E → F) → Act F A
or_else m f w = let (r, w') = m w in (relabel f r, w')

-- `_ = q(...)`: the outcome is dropped.
abbrev pub ignore : {E F A : Type 0} → Act E A → Act F (Unit {0})
ignore m w = let (r, w') = m w in (ok tt, w')

-- `if rowErr == nil { … } else { … }`: the outcome is looked at by the caller.
abbrev pub try : {E F A : Type 0} → Act E A → Act F (Outcome E A)
try m w = let (r, w') = m w in (ok r, w')

-- One statement, as what it returns and the tables that it leaves.
abbrev pub Query : Type 0 → Type 0
Query A = Db → Outcome DbError A × Db

-- A call that fails changes nothing.
unfoldable pub run_query : {A : Type 0} → Query A → Act DbError A
run_query q w =
    if w.outage w.calls
    then (err unavailable, record w { calls = w.calls + 1 })
    else let (r, db') = q w.db in (r, record w { db = db'; calls = w.calls + 1 })

-- A statement with one row in its result, and no rows otherwise.
abbrev pub one_row : {A : Type 0} → Option A → Outcome DbError A
one_row none = err no_rows
one_row (some a) = ok a

-- `tx.Commit`, with the tables from before the transaction at hand for the rollback.
unfoldable pub finish_tx : {A : Type 0} → Db → Outcome DbError A → World → Outcome DbError A × World
finish_tx before (err e) w = (err e, record w { db = before })
finish_tx before (ok a) w =
    if w.outage w.calls
    then (err unavailable, record w { db = before; calls = w.calls + 1 })
    else (ok a, record w { calls = w.calls + 1 })

-- `WithTx`: begin, the body, and commit or roll back. No body of the model panics, so the rollback on
-- a panic does not occur.
unfoldable pub with_tx : {A : Type 0} → Act DbError A → Act DbError A
unfolding finish_tx
with_tx body w =
    if w.outage w.calls
    then (err unavailable, record w { calls = w.calls + 1 })
    else let (r, w') = body (record w { calls = w.calls + 1 }) in finish_tx w.db r w'

-- The same of a body that has errors of its own beside those of the database.
unfoldable pub finish_tx_as :
    {E A : Type 0} → (DbError → E) → Db → Outcome E A → World → Outcome E A × World
finish_tx_as f before (err e) w = (err e, record w { db = before })
finish_tx_as f before (ok a) w =
    if w.outage w.calls
    then (err (f unavailable), record w { db = before; calls = w.calls + 1 })
    else (ok a, record w { calls = w.calls + 1 })

unfoldable pub with_tx_as : {E A : Type 0} → (DbError → E) → Act E A → Act E A
unfolding finish_tx_as
with_tx_as f body w =
    if w.outage w.calls
    then (err (f unavailable), record w { calls = w.calls + 1 })
    else let (r, w') = body (record w { calls = w.calls + 1 }) in finish_tx_as f w.db r w'

-- `audit.Log`, `hub.Publish` and the evictions.
unfoldable pub send : {E : Type 0} → Effect → Act E (Unit {0})
send e w = (ok tt, record w { sent = w.sent ++ e ∷ [] })

-- UPDATE … RETURNING on one table.
unfoldable pub update_returning :
    {A : Type 0} → (A → Bool) → (A → A) → List A → (List A → Db) → Query A
update_returning p f rows store db = elim (find_row p rows) [
  | none ↦ (err no_rows, db)
  | some a ↦ (ok (f a), store (modify p f rows))
]
