-- ===== src/Realtime/Admission/Ceilings.antt =====
-- The counters of `Admit` and `Release` against the list of the connections that are open.
use aul_private_location.Base.{
  ℕ, zero, suc, ◌+◌, ◌≤◌, ◌<◌, ◌≡◌, refl, true, false, List, [], ◌∷◌, arith, length, ◌==◌, Map, get,
  get-put, get-remove, get-empty, ◌⊎◌, get_or, ◌-◌, if◌then◌else◌, some, ◌≢◌, has, has-cons,
  has-nil,
}
use aul_private_location.Realtime.Admission.{Conns, conns_of, new_conns, admit, release, count_down}

-- How many of the open connections are the user's.
abbrev pub count : ℕ → List ℕ → ℕ
count u [] = 0
count u (x ∷ xs) = let rest = count u xs in if x == u then suc rest else rest

-- The list without the first connection of the user.
abbrev pub close_one : ℕ → List ℕ → List ℕ
close_one u [] = []
close_one u (x ∷ xs) = let rest = close_one u xs in if x == u then xs else x ∷ rest

-- `open_conns` lists the user of each connection that holds a slot.
pub record Holds (c : Conns) (open_conns : List ℕ) : Type 0 where
  pub total : c.total_conns ≡ length open_conns
  pub each : (u : ℕ) → conns_of c u ≡ count u open_conns
  pub no_zero : (u : ℕ) → get c.per_user u ≢ some 0
  pub total_fits : c.total_conns ≤ c.max_total
  pub each_fits : (u : ℕ) → conns_of c u ≤ c.max_per_user

pub new_conns-Holds : Holds new_conns []
unfolding new_conns
new_conns-Holds = record {
  total = refl;
  each = λ u. ground (arith, get-empty {V = ℕ} u);
  no_zero = λ u. ground (arith, get-empty {V = ℕ} u);
  total_fits = omega arith;
  each_fits = λ u. ground (arith, get-empty {V = ℕ} u);
}

-- `Admit` takes a slot for the user exactly if both ceilings leave room, and changes nothing
-- otherwise; the counters then still count the open connections, and no ceiling is passed.
pub admit-Holds :
    (c : Conns) (open_conns : List ℕ) (user : ℕ)
    → Holds c open_conns
    → ((admit c user).1 ≡ true
        → (length open_conns < c.max_total)
          × (count user open_conns < c.max_per_user)
          × Holds (admit c user).0 (user ∷ open_conns))
      × ((admit c user).1 ≡ false
          → (c.max_total ≤ length open_conns) ⊎ (c.max_per_user ≤ count user open_conns))
      × ((admit c user).1 ≡ false → (admit c user).0 ≡ c)
unfolding admit
admit-Holds c os user v = (
  (λ e. (
    ground (arith, v.total),
    ground (arith, v.each user),
    record {
      total = ground (arith, v.total);
      each = λ u. ground (arith, v.each u, get-put c.per_user user u (conns_of c user + 1));
      no_zero = λ u. ground (arith, v.no_zero u, get-put c.per_user user u (conns_of c user + 1));
      total_fits = ground arith;
      each_fits =
          λ u. ground (arith, v.each_fits u, get-put c.per_user user u (conns_of c user + 1));
    },
  )),
  (λ e. ground (arith, v.total, v.each user)),
  (λ e. ground arith),
)

count-close_one :
    (user u : ℕ) (os : List ℕ)
    → has user os ≡ true
    → count u os
      ≡ (if user == u then suc (count u (close_one user os)) else count u (close_one user os))
count-close_one user u [] h = absurd (cc (has-nil user, h))
count-close_one user u (x ∷ xs) h = ground (arith, count-close_one user u xs, has-cons user x xs)

length-close_one :
    (user : ℕ) (os : List ℕ) → has user os ≡ true → length os ≡ suc (length (close_one user os))
length-close_one user [] h = absurd (cc (has-nil user, h))
length-close_one user (x ∷ xs) h = ground (arith, length-close_one user xs, has-cons user x xs)

count_down-get :
    (m : Map ℕ) (user u n : ℕ)
    → get m user ≢ some 0
    → get_or (get m user) 0 ≡ n
    → (get_or (get (count_down m user n) u) 0 ≡ (if user == u then n - 1 else get_or (get m u) 0))
      × (get m u ≢ some 0 → get (count_down m user n) u ≢ some 0)
unfolding count_down
count_down-get m user u zero z e = ground arith
count_down-get m user u (suc zero) z e = ground (arith, get-remove m user u)
count_down-get m user u (suc (suc n)) z e = ground (arith, get-put m user u (suc n))

-- `Release` by a user with an open connection gives back one slot of that user and no other's, and
-- keeps no entry for a user without connections.
pub release-Holds :
    (c : Conns) (open_conns : List ℕ) (user : ℕ)
    → Holds c open_conns
    → has user open_conns ≡ true
    → Holds (release c user) (close_one user open_conns)
unfolding release
release-Holds c os user v h = record {
  total = ground (arith, v.total, length-close_one user os h);
  each = λ u. ground (
    arith,
    v.each u,
    v.each user,
    count-close_one user u os h,
    count_down-get c.per_user user u (conns_of c user) (v.no_zero user) refl,
  );
  no_zero = λ u.
      (count_down-get c.per_user user u (conns_of c user) (v.no_zero user) refl).1 (v.no_zero u);
  total_fits = ground (arith, v.total_fits);
  each_fits = λ u. ground (
    arith,
    v.each_fits u,
    count_down-get c.per_user user u (conns_of c user) (v.no_zero user) refl,
  );
}
