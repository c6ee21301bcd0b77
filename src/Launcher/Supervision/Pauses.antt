-- ===== src/Launcher/Supervision/Pauses.antt =====
-- When the supervisor stops, and how long it waits.
use aul_private_location.Base.{
  ℕ, zero, suc, ◌*◌, ◌≤◌, ◌<◌, true, false, Option, none, some, List, [], ◌∷◌, ltb, if◌then◌else◌,
}
use aul_private_location.Launcher.Supervision.{
  Supervisor, Round, not_started, shut_down, exited, crashed, Ending, cancelled, clean,
}

-- How the first round that is not followed by another ends.
abbrev pub first_ending : List Round → Option Ending
first_ending [] = none
first_ending (not_started true ∷ rounds) = first_ending rounds
first_ending (not_started false ∷ rounds) = some cancelled
first_ending (shut_down ∷ rounds) = some cancelled
first_ending (exited ∷ rounds) = some clean
first_ending (crashed ran true ∷ rounds) = first_ending rounds
first_ending (crashed ran false ∷ rounds) = some cancelled

-- Positive pauses up to the cap, whose double does not leave int64.
abbrev pub Sensible : Supervisor → Type 0
Sensible s =
    (1 ≤ s.min_backoff) × (s.min_backoff ≤ s.max_backoff) × (s.max_backoff < 4611686018427387904)

abbrev Within : Supervisor → ℕ → Type 0
Within s p = (s.min_backoff ≤ p) × (p ≤ s.max_backoff)

-- A child that keeps failing early, and the doubles of a pause.
abbrev pub crashes : ℕ → ℕ → List Round
crashes zero ran = []
crashes (suc n) ran = crashed ran true ∷ crashes n ran

abbrev pub capped : ℕ → ℕ → ℕ
capped ceil p = if ltb ceil p then ceil else p

abbrev pub doubles : ℕ → ℕ → List ℕ
doubles p zero = []
doubles p (suc n) = p ∷ doubles (p * 2) n
