-- ===== src/Runner/Rounds.antt =====
-- plugins/LumaeAnalysis/runner.py: the loop of `_lead` once the runner leads.
pub mod Paced
pub mod Ends
use lumae_plugin.Prelude.{
  ℕ, Bool, true, false, String, Option, none, some, List, [], ◌∷◌, not, if◌then◌else◌,
}
use lumae_plugin.Runner.{Runner, Turn, Report, stop, turn, next_wait, pause_time}

-- What one round meets: whether the runner is stopped, whether its code is still the installed one,
-- what its turn reports and returns (none where it raises), and whether a stop ends the pause.
pub record Round : Type 0 where
  pub stopped : Bool
  pub installed : Bool
  pub reports : List Report
  pub outcome : Option Turn
  pub stopped_in_pause : Bool

pub data Ending : Type 0 where
  on_stop on_change on_error still_leading : Ending

-- What the loop did: its waits, how it ended, and the runner.
pub record Led : Type 0 where
  pub waits : List ℕ
  pub ending : Ending
  pub runner : Runner

pub ended : Ending → Runner → Led
ended e r = record { waits = []; ending = e; runner = r }

pub after_wait : ℕ → Led → Led
after_wait wait led = record led { waits = wait ∷ led.waits }

-- `_drain()`: notices and local wakes that came during the turn are dropped.
pub drain : Runner → Runner
drain r = record r { woken = false }

-- The rest of a round after its turn: the pause, or the wait for work.
pub wait_after : Turn → Bool → Runner → Led → Led
unfolding after_wait ended drain
wait_after t in_pause r rest =
    if t.worked
    then after_wait pause_time (if in_pause then ended on_stop (drain r) else rest)
    else after_wait (next_wait t.due) rest

-- The runner once the wait of a round is over: `next_wake_in` was set only for the wait's heartbeat.
pub after_round : Turn → Runner → Runner
unfolding drain
after_round t r = if t.worked then drain r else record r { next_wake_in = none }

-- What follows the turn of a round: a turn that raises ends the loop.
pub after_turn : Option Turn → Bool → Runner → (Runner → Led) → Led
unfolding ended wait_after after_round
after_turn none in_pause r rest = ended on_error r
after_turn (some t) in_pause r rest = wait_after t in_pause r (rest (after_round t r))

-- The rounds of `_lead`.
pub rounds : List Round → Runner → Led
unfolding ended after_turn turn stop
rounds [] r = ended still_leading r
rounds (round ∷ more) r =
    let later =
      after_turn round.outcome round.stopped_in_pause (turn round.reports round.outcome r)
        (rounds more) in
    if round.stopped
    then ended on_stop r
    else if not round.installed
    then ended on_change (stop r)
    else later
