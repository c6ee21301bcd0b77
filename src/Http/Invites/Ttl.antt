-- ===== src/Http/Invites/Ttl.antt =====
-- How long an invite lives.
use aul_private_location.Base.{ℕ, ◌*◌, ◌≤◌, ◌<◌, ◌≡◌, none, some, arith, ℤ, pos}
use aul_private_location.Http.Invites.{invite_ttl, duration_bits, second_ns, day_ns}

-- An invite never lives longer than thirty days and never has an empty life, whatever is asked for.
-- A request between one second and thirty days gets what it asks for, and one above thirty days is
-- refused where its nanoseconds fit int64.
invite_ttl-bounds :
    (seconds : ℤ) (n : ℕ)
    → ((t : ℕ) → invite_ttl seconds ≡ some t → (1 ≤ t) × (t ≤ 30 * day_ns))
      × (1 ≤ n → n ≤ 2592000 → invite_ttl (pos n) ≡ some (n * second_ns))
      × (2592000 < n → n ≤ 9223372036 → invite_ttl (pos n) ≡ none)
unfolding invite_ttl duration_bits
invite_ttl-bounds seconds n =
    ((λ t e. (ground arith, ground arith)), (λ l h. ground arith), (λ l h. ground arith))
