-- ===== src/Realtime/Admission.antt =====
-- The connection ceilings of the hub: `Admit`, `Release` and `SetConnLimits` in
-- server/internal/realtime/hub.go. Each runs under the mutex `connMu`, so a history of the three is
-- a sequence of whole calls.
pub mod Ceilings
mod Examples
use aul_private_location.Base.{
  ℕ, zero, suc, ◌+◌, ◌-◌, Bool, true, false, ◌||◌, Map, get, put, remove, empty, ltb, leb, ◌==◌,
  if◌then◌else◌, get_or, ℤ, pos, negsuc,
}

pub record Conns : Type 0 where
  pub total_conns : ℕ
  pub per_user : Map ℕ
  pub max_per_user : ℕ
  pub max_total : ℕ

abbrev pub default_max_conns_per_user : ℕ
default_max_conns_per_user = 10

abbrev pub default_max_conns_total : ℕ
default_max_conns_total = 10000

unfoldable pub new_conns : Conns
new_conns = record {
  total_conns = 0;
  per_user = empty;
  max_per_user = default_max_conns_per_user;
  max_total = default_max_conns_total;
}

-- `h.perUser[userID]`, which is 0 for a missing key.
abbrev pub conns_of : Conns → ℕ → ℕ
conns_of c user = get_or (get c.per_user user) 0

-- A limit that is not positive leaves the ceiling as it is.
limit_or : ℤ → ℕ → ℕ
limit_or (pos zero) old = old
limit_or (pos (suc n)) old = suc n
limit_or (negsuc n) old = old

pub set_conn_limits : Conns → ℤ → ℤ → Conns
unfolding limit_or
set_conn_limits c per_user total = record c {
  max_per_user = limit_or per_user c.max_per_user;
  max_total = limit_or total c.max_total;
}

unfoldable pub admit : Conns → ℕ → Conns × Bool
admit c user =
    if leb c.max_total c.total_conns || leb c.max_per_user (conns_of c user) then (c, false) else (
      record c {
        total_conns = c.total_conns + 1;
        per_user = put c.per_user user (conns_of c user + 1);
      },
      true,
    )

-- The counter of a user, with the entry deleted when it reaches 0.
count_down : Map ℕ → ℕ → ℕ → Map ℕ
count_down m user zero = m
count_down m user (suc zero) = remove m user
count_down m user (suc (suc n)) = put m user (suc n)

pub release : Conns → ℕ → Conns
unfolding count_down
release c user = record c {
  total_conns = c.total_conns - 1;
  per_user = count_down c.per_user user (conns_of c user);
}
