-- ===== src/RateLimit.antt =====
-- The keyed limiter of server/internal/ratelimit/ratelimit.go. `fresh` and `allow_n` stand for
-- rate.NewLimiter and AllowN(now, 1) of golang.org/x/time/rate, with the state of a bucket made
-- explicit; a key is a number, and a time counts nanoseconds.
pub mod Eviction
mod Examples
use aul_private_location.Base.{
  ℕ, ◌+◌, Bool, not, Option, none, some, List, ltb, Map, get, put, empty, retain, size,
}

-- `bucket`
pub record Bucket (B : Type 0) : Type 0 where
  pub lim : B
  pub last_seen : ℕ

pub record KeyedLimiter (B : Type 0) : Type 0 where
  pub buckets : Map (Bucket B)
  pub ttl : ℕ

module _ {B : Type 0} where
  abbrev pub new_limiter : ℕ → KeyedLimiter B
  new_limiter ttl = record { buckets = empty; ttl = ttl }

  abbrev pub lim_or : B → Option (Bucket B) → B
  lim_or fresh none = fresh
  lim_or fresh (some b) = b.lim

  -- `Allow`
  unfoldable pub allow : B → (ℕ → B → Bool × B) → ℕ → ℕ → KeyedLimiter B → Bool × KeyedLimiter B
  allow fresh allow_n now key k =
      let (answer, lim) = allow_n now (lim_or fresh (get k.buckets key)) in
      (answer, record k { buckets = put k.buckets key (record { lim = lim; last_seen = now }) })

  -- `cleanup`: a bucket that was last seen more than `ttl` ago is forgotten.
  unfoldable pub cleanup : ℕ → KeyedLimiter B → KeyedLimiter B
  cleanup now k = record k { buckets = retain (λ b. not (ltb (b.last_seen + k.ttl) now)) k.buckets }

  -- `Len`
  abbrev pub len : KeyedLimiter B → ℕ
  len k = size k.buckets
