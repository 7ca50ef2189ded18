-- ===== src/Runner/Rounds/Ends.antt =====
-- How the loop of `_lead` in plugins/LumaeAnalysis/runner.py ends, and what it waited before.
use lumae_plugin.Prelude.{
  ℕ, ◌≡◌, if◌then◌else◌, ◌&&◌, not, map, Bool, Option, none, some, List, [], ◌∷◌,
}
use lumae_plugin.Runner.{Runner, Turn, next_wait, pause_time}
use lumae_plugin.Runner.Rounds.{Round, Ending, on_stop, on_change, on_error, Led}

-- Why a round is the last of a leader, and the wait it still makes: none where it is not the last.
abbrev pub end_of_turn : Option Turn → Bool → Option (Ending × List ℕ)
end_of_turn none in_pause = some (on_error, [])
end_of_turn (some t) in_pause =
    if t.worked && in_pause then some (on_stop, pause_time ∷ []) else none

abbrev pub end_of : Round → Option (Ending × List ℕ)
end_of round =
    if round.stopped
    then some (on_stop, [])
    else if not round.installed
    then some (on_change, [])
    else end_of_turn round.outcome round.stopped_in_pause

-- The wait of a round that is not the last: a pause after a turn that worked, or a wait for work.
abbrev pub wait_of_turn : Option Turn → ℕ
wait_of_turn none = 0
wait_of_turn (some t) = if t.worked then pause_time else next_wait t.due

abbrev pub waits_of : List Round → List ℕ
waits_of rs = map (λ round. wait_of_turn round.outcome) rs

abbrev pub GoesOn : Round → Type 0
GoesOn round = end_of round ≡ none

-- The loop has waited and ended so.
pub record IsEnded (led : Led) (waits : List ℕ) (why : Ending) : Type 0 where
  pub waited : led.waits ≡ waits
  pub because : led.ending ≡ why
