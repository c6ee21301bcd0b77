-- ===== src/Launcher/Supervision.antt =====
-- The loop of server/internal/launcher/supervise.go. Processes and the clock are outside: what the
-- loop observes of a child and of the pause after it is one `Round`. Durations are in nanoseconds.
pub mod Pauses
mod Examples
use aul_private_location.Base.{
  ℕ, ◌*◌, ◌%◌, Bool, true, false, ◌&&◌, Option, none, some, List, [], ◌∷◌, ltb, leb, if◌then◌else◌,
}

pub record Supervisor : Type 0 where
  pub min_backoff : ℕ
  pub max_backoff : ℕ
  pub stable_run : ℕ

-- The child could not be started; it was stopped because of a shutdown, or had exited when the
-- shutdown was seen; it exited without an error; or it failed after it ran for a time. The Boolean
-- says whether the pause that follows is slept to its end, and is false where a shutdown ends it.
pub data Round : Type 0 where
  not_started : Bool → Round
  shut_down exited : Round
  crashed : ℕ → Bool → Round

-- What `run` returns: the error of the context, or nil.
pub data Ending : Type 0 where
  cancelled clean : Ending

abbrev int64_half : ℕ
int64_half = 9223372036854775808

-- `nextBackoff`, with the product on int64.
unfoldable pub next_backoff : ℕ → ℕ → ℕ
next_backoff cur ceil =
    let next = (cur * 2) % (int64_half * 2) in
    if ltb next int64_half && ltb ceil next then ceil else next

-- A run that was long enough starts over with the shortest pause.
abbrev pub backoff_after : Supervisor → ℕ → ℕ → ℕ
backoff_after s ran backoff = if leb s.stable_run ran then s.min_backoff else backoff

-- `sleepCtx` and the next round, or the end.
abbrev pub pause_then : Bool → ℕ → List ℕ × Option Ending → List ℕ × Option Ending
pause_then true pause (pauses, end) = (pause ∷ pauses, end)
pause_then false pause (pauses, end) = (pause ∷ [], some cancelled)

-- `run` from a given backoff: the pauses between the attempts, and how it ends; `none` after rounds
-- that all lead to another.
unfoldable pub run_from : Supervisor → ℕ → List Round → List ℕ × Option Ending
run_from s backoff [] = ([], none)
run_from s backoff (not_started slept ∷ rounds) =
    pause_then slept backoff (run_from s (next_backoff backoff s.max_backoff) rounds)
run_from s backoff (shut_down ∷ rounds) = ([], some cancelled)
run_from s backoff (exited ∷ rounds) = ([], some clean)
run_from s backoff (crashed ran slept ∷ rounds) =
    pause_then slept (backoff_after s ran backoff)
      (run_from s (next_backoff (backoff_after s ran backoff) s.max_backoff) rounds)

-- `run`
unfoldable pub run : Supervisor → List Round → List ℕ × Option Ending
run s rounds = run_from s s.min_backoff rounds
