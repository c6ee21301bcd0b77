-- ===== src/Realtime/Consistency/Tables.antt =====
-- What the loops over a client's circles do to the table of subscribers.
use aul_private_location.Base.{
  ℕ, ◌≡◌, ◌≢◌, true, false, ◌&&◌, some, List, [], ◌∷◌, arith, has, add, del, Distinct, has-add,
  has-del, add-Distinct, del-Distinct, add-ne-nil, Map, get, get-put, get-remove, if◌then◌else◌,
  ◌==◌, Option-cases, inl, inr,
}
use aul_private_location.Realtime.{
  set_of, subscribe, subscribe_all, store_set, unsubscribe, unsubscribe_all,
}

pub record IsTidy (m : Map (List ℕ)) : Type 0 where
  pub distinct : (k : ℕ) → Distinct (set_of m k)
  pub nonempty : (k : ℕ) → get m k ≢ some []

subscribe-has :
    (m : Map (List ℕ)) (c i k j : ℕ)
    → has j (set_of (subscribe m c i) k) ≡ (if c == j && i == k then true else has j (set_of m k))
unfolding subscribe
subscribe-has m c i k j =
    ground (arith, get-put m i k (add c (set_of m i)), has-add c j (set_of m i))

pub subscribe_all-has :
    (m : Map (List ℕ)) (c : ℕ) (ks : List ℕ) (k j : ℕ)
    → has j (set_of (subscribe_all m c ks) k)
      ≡ (if c == j && has k ks then true else has j (set_of m k))
unfolding subscribe_all has
subscribe_all-has m c [] k j = ground arith
subscribe_all-has m c (i ∷ ks) k j =
    ground (arith, subscribe_all-has (subscribe m c i) c ks k j, subscribe-has m c i k j)

store_set-get :
    (m : Map (List ℕ)) (i : ℕ) (set : List ℕ) (k : ℕ)
    → set_of (store_set m i set) k ≡ (if i == k then set else set_of m k)
unfolding store_set
store_set-get m i [] k = ground (arith, get-remove m i k)
store_set-get m i (c ∷ set) k = ground (arith, get-put m i k (c ∷ set))

unsubscribe-has :
    (m : Map (List ℕ)) (c i k j : ℕ)
    → has j (set_of (unsubscribe m c i) k)
      ≡ (if c == j && i == k then false else has j (set_of m k))
unfolding unsubscribe has
unsubscribe-has m c i k j = elim (Option-cases (get m i)) [
  | inl e ↦ rw (e, unsubscribe) (ground (arith, has-del c j []))
  | inr (set, e) ↦ ground (arith, store_set-get m i (del c set) k, has-del c j set)
]

pub unsubscribe_all-has :
    (m : Map (List ℕ)) (c : ℕ) (ks : List ℕ) (k j : ℕ)
    → has j (set_of (unsubscribe_all m c ks) k)
      ≡ (if c == j && has k ks then false else has j (set_of m k))
unfolding unsubscribe_all has
unsubscribe_all-has m c [] k j = ground arith
unsubscribe_all-has m c (i ∷ ks) k j =
    ground (arith, unsubscribe_all-has (unsubscribe m c i) c ks k j, unsubscribe-has m c i k j)

pub subscribe-IsTidy : (m : Map (List ℕ)) (c i : ℕ) → IsTidy m → IsTidy (subscribe m c i)
unfolding subscribe
subscribe-IsTidy m c i t = record {
  distinct = λ k. ground (
    arith,
    get-put m i k (add c (set_of m i)),
    add-Distinct c (set_of m i) (t.distinct i),
    t.distinct k,
  );
  nonempty = λ k.
      ground (arith, get-put m i k (add c (set_of m i)), t.nonempty k, add-ne-nil c (set_of m i));
}

store_set-IsTidy :
    (m : Map (List ℕ)) (i : ℕ) (set : List ℕ) → IsTidy m → Distinct set → IsTidy (store_set m i set)
unfolding store_set
store_set-IsTidy m i [] t d = record {
  distinct = λ k. ground (arith, get-remove m i k, t.distinct k);
  nonempty = λ k. ground (arith, get-remove m i k, t.nonempty k);
}
store_set-IsTidy m i (c ∷ set) t d = record {
  distinct = λ k. ground (arith, get-put m i k (c ∷ set), t.distinct k);
  nonempty = λ k. ground (arith, get-put m i k (c ∷ set), t.nonempty k);
}

unsubscribe-IsTidy : (m : Map (List ℕ)) (c i : ℕ) → IsTidy m → IsTidy (unsubscribe m c i)
unfolding unsubscribe
unsubscribe-IsTidy m c i t = elim (Option-cases (get m i)) [
  | inl e ↦ rw (e, unsubscribe) t
  | inr (set, e) ↦
      rw (e, unsubscribe)
        (store_set-IsTidy m i (del c set) t (del-Distinct c set (rw e at (t.distinct i))))
]

pub subscribe_all-IsTidy :
    (m : Map (List ℕ)) (c : ℕ) (ks : List ℕ) → IsTidy m → IsTidy (subscribe_all m c ks)
unfolding subscribe_all
subscribe_all-IsTidy m c [] t = t
subscribe_all-IsTidy m c (i ∷ ks) t =
    subscribe_all-IsTidy (subscribe m c i) c ks (subscribe-IsTidy m c i t)

pub unsubscribe_all-IsTidy :
    (m : Map (List ℕ)) (c : ℕ) (ks : List ℕ) → IsTidy m → IsTidy (unsubscribe_all m c ks)
unfolding unsubscribe_all
unsubscribe_all-IsTidy m c [] t = t
unsubscribe_all-IsTidy m c (i ∷ ks) t =
    unsubscribe_all-IsTidy (unsubscribe m c i) c ks (unsubscribe-IsTidy m c i t)
