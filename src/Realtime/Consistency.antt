-- ===== src/Realtime/Consistency.antt =====
-- The consistency of the tables of the hub with each other (server/internal/realtime/hub.go).
pub mod Tables
use aul_private_location.Base.{
  ℕ, ◌≤◌, ◌≡◌, refl, ◌≢◌, Bool, true, false, ◌&&◌, Option, none, some, List, [], ◌∷◌, arith, length,
  update, has, add, del, Distinct, has-add, has-del, add-Distinct, del-Distinct, get, get-put,
  get-remove, get-empty, has-nil, Bool-cases, inl, inr, if◌then◌else◌, ◌==◌,
}
use aul_private_location.Realtime.{
  Hub, Client, subscribers, unsubscribe_all, add_client, remove_client, new_hub,
}
use Tables.{
  subscribe_all-has, unsubscribe_all-has, subscribe_all-IsTidy, unsubscribe_all-IsTidy, IsTidy,
}

-- A client stands in a circle's set exactly if it is registered and subscribes to that circle;
-- registered clients have open channels that are not over full; no set is empty or has repetitions.
pub record Consistent (h : Hub) : Type 0 where
  pub linked : (k c : ℕ) → has c (subscribers h k) ≡ (has c h.clients && has k (h.heap c).circles)
  pub tidy : IsTidy h.circles
  pub roster : Distinct h.clients
  pub is_open : (c : ℕ) → has c h.clients ≡ true → (h.heap c).closed ≡ false
  pub within : (c : ℕ) → has c h.clients ≡ true → length (h.heap c).queue ≤ (h.heap c).buffer

pub add_client-Consistent :
    (h : Hub) (c : ℕ)
    → (h.heap c).closed ≡ false
    → length (h.heap c).queue ≤ (h.heap c).buffer
    → has c h.clients ≡ false
    → Consistent h
    → Consistent (add_client h c)
unfolding add_client
add_client-Consistent h c o w f v = record {
  linked = λ k j. ground (
    arith,
    v.linked k j,
    has-add c j h.clients,
    subscribe_all-has h.circles c (h.heap c).circles k j,
  );
  tidy = subscribe_all-IsTidy h.circles c (h.heap c).circles v.tidy;
  roster = add-Distinct c h.clients v.roster;
  is_open = λ j p. ground (arith, v.is_open j, has-add c j h.clients);
  within = λ j p. ground (arith, v.within j, has-add c j h.clients);
}

-- The hub after a registered client was removed.
abbrev pub removed : Hub → ℕ → Hub
removed h c = record h {
  heap = update h.heap c (record (h.heap c) { closed = true });
  clients = del c h.clients;
  circles = unsubscribe_all h.circles c (h.heap c).circles;
}

pub remove_client-registered :
    (h : Hub) (c : ℕ)
    → has c h.clients ≡ true
    → (h.heap c).closed ≡ false
    → remove_client h c ≡ some (removed h c)
unfolding remove_client
remove_client-registered h c r o = rw (r, o)

pub remove_client-absent : (h : Hub) (c : ℕ) → has c h.clients ≡ false → remove_client h c ≡ some h
unfolding remove_client
remove_client-absent h c r = rw r

pub removed-Consistent : (h : Hub) (c : ℕ) → Consistent h → Consistent (removed h c)
removed-Consistent h c v = record {
  linked = λ k j. ground (
    arith,
    v.linked k j,
    has-del c j h.clients,
    unsubscribe_all-has h.circles c (h.heap c).circles k j,
  );
  tidy = unsubscribe_all-IsTidy h.circles c (h.heap c).circles v.tidy;
  roster = del-Distinct c h.clients v.roster;
  is_open = λ j p. ground (arith, v.is_open j, has-del c j h.clients);
  within = λ j p. ground (arith, v.within j, has-del c j h.clients);
}

pub remove_client-Consistent :
    (h : Hub) (c : ℕ) → Consistent h → (h' : Hub) × (remove_client h c ≡ some h') × Consistent h'
remove_client-Consistent h c v = elim (Bool-cases (has c h.clients)) [
  | inl r ↦ (removed h c, remove_client-registered h c r (v.is_open c r), removed-Consistent h c v)
  | inr r ↦ (h, remove_client-absent h c r, v)
]

pub new_hub-Consistent : (heap : ℕ → Client) → Consistent (new_hub heap)
unfolding new_hub
new_hub-Consistent heap = record {
  linked = λ k c. ground (arith, get-empty {V = List ℕ} k, has-nil c);
  tidy = record {
    distinct = λ k. ground (arith, get-empty {V = List ℕ} k);
    nonempty = λ k. ground (arith, get-empty {V = List ℕ} k);
  };
  roster = tt;
  is_open = λ c. ground (arith, has-nil c);
  within = λ c. ground (arith, has-nil c);
}
