-- ===== src/RateLimit/Examples.antt =====
-- A bucket of one token, which is back a given time after the last call.
use aul_private_location.Base.{
  ℕ, ◌+◌, ◌≡◌, Bool, true, Option, none, some, List, [], ◌∷◌, arith, ltb,
}
use aul_private_location.RateLimit.{new_limiter}
use aul_private_location.RateLimit.Eviction.{
  Event, allow_at, cleanup_at, answers, unbounded, Refills, limiter_forgets_nothing,
}

abbrev one_token : ℕ → Option ℕ → Bool × Option ℕ
one_token now none = (true, some now)
one_token now (some seen) = (ltb (seen + 10) now, some now)

one_token-Refills : Refills none one_token 10
one_token-Refills seen now none l = ground arith
one_token-Refills seen now (some s) l = ground arith

abbrev calls : List Event
calls = allow_at 1 7 ∷ allow_at 2 7 ∷ cleanup_at 40 ∷ allow_at 41 7 ∷ []

limiter_forgets_nothing_example :
    answers none one_token calls (new_limiter 10) ≡ unbounded none one_token calls (λ key. none)
limiter_forgets_nothing_example =
    limiter_forgets_nothing none one_token 10 calls one_token-Refills
      (omega arith, (omega arith, (omega arith, (omega arith, tt))))
