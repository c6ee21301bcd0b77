-- ===== src/Retention/Examples.antt =====
-- A maintenance pass over two pings of one device.
use aul_private_location.Base.{ℕ, ◌≡◌, none, [], ◌∷◌}
use aul_private_location.Store.Schema.{Db, Ping, no_tables}
use aul_private_location.Store.{ok}
use aul_private_location.Retention.{Worker, horizon, run_once}
use aul_private_location.Retention.Spares.{Spares}
use aul_private_location.Retention.Kept.{run_once-Spares}
use aul_private_location.Retention.Expiry.{run_once-expires, NothingExpired, steady}

abbrev position : ℕ → Ping
position t = record {
  id = t;
  circle_id = 4;
  device_id = 2;
  client_id = t ∷ [];
  nonce = [];
  ciphertext = [];
  captured_at = t;
  received_at = t;
  expires_at = none;
}

abbrev tracked : Db
tracked = record no_tables { pings = position 1 ∷ position 2 ∷ [] }

abbrev worker : Worker
worker = record { max_retention_days = 90; ping_retention_hours = 6 }

-- A day after the pings.
abbrev tomorrow : ℕ
tomorrow = 86400000000000

run_once-Spares_example :
    ((run_once worker tomorrow (steady tracked 0 [])).0 ≡ ok tt)
    × Spares
        (horizon worker tomorrow)
        tomorrow
        tracked
        (run_once worker tomorrow (steady tracked 0 [])).1.db
run_once-Spares_example = run_once-Spares worker tomorrow (steady tracked 0 [])

run_once-expires_example :
    NothingExpired worker tomorrow (run_once worker tomorrow (steady tracked 0 [])).1.db
run_once-expires_example = run_once-expires worker tomorrow tracked 0 []
