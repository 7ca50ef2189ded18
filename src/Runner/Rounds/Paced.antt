-- ===== src/Runner/Rounds/Paced.antt =====
-- The pace of the loop of `_lead` in plugins/LumaeAnalysis/runner.py, and what it leaves.
use lumae_plugin.Prelude.{
  ℕ, ◌≤◌, ◌≡◌, refl, inl, inr, Bool, true, false, Option, none, some, List, [], ◌∷◌, All,
  Bool-cases, arith,
}
use lumae_plugin.Runner.{
  Runner, Turn, Report, stop, turn, next_wait, pause_time, sweep_time, is_named, settle, end_action,
  report, at_work,
}
use lumae_plugin.Runner.Rounds.{
  Round, on_stop, on_change, on_error, Led, ended, after_wait, drain, wait_after, after_round,
  after_turn, rounds,
}

-- Waits between a pause and a sweep, a stopped runner after a change of code, and no action shown
-- after an error.
pub record IsPaced (led : Led) : Type 0 where
  pub paced : All (λ wait. (pause_time ≤ wait) × (wait ≤ sweep_time)) led.waits
  pub changed : led.ending ≡ on_change → led.runner.stopped ≡ true
  pub failed : led.ending ≡ on_error → is_named led.runner.action ≡ false

next_wait_bounds : (due : Option ℕ) → (pause_time ≤ next_wait due) × (next_wait due ≤ sweep_time)
unfolding next_wait
next_wait_bounds none = (omega arith, omega arith)
next_wait_bounds (some due) = (ground arith, ground arith)

settle-is_named : (r : Runner) → is_named (settle r).action ≡ false
unfolding settle end_action is_named
settle-is_named r = elim (Bool-cases (is_named r.action)) [ inl e ↦ rw e refl | inr e ↦ rw e e ]

after_wait-IsPaced :
    (wait : ℕ) (led : Led)
    → (pause_time ≤ wait) × (wait ≤ sweep_time)
    → IsPaced led
    → IsPaced (after_wait wait led)
unfolding after_wait
after_wait-IsPaced wait led b p = record {
  paced = (b, p.paced);
  changed = p.changed;
  failed = p.failed;
}

wait_after-IsPaced :
    (t : Turn) (in_pause : Bool) (r : Runner) (rest : Led)
    → IsPaced rest
    → IsPaced (wait_after t in_pause r rest)
unfolding wait_after ended
wait_after-IsPaced t in_pause r rest p = elim (Bool-cases t.worked) [
  | inr e ↦ rw e (after_wait-IsPaced (next_wait t.due) rest (next_wait_bounds t.due) p)
  | inl e ↦ elim (Bool-cases in_pause) [
    | inl f ↦
        rw (e, f)
          (after_wait-IsPaced pause_time (ended on_stop (drain r)) (omega arith, omega arith)
            (record { paced = tt; changed = λ h. absurd cc; failed = λ h. absurd cc }))
    | inr f ↦ rw (e, f) (after_wait-IsPaced pause_time rest (omega arith, omega arith) p)
  ]
]

after_turn-IsPaced :
    (reports : List Report) (o : Option Turn) (in_pause : Bool) (r : Runner) (rest : Runner → Led)
    → ((s : Runner) → IsPaced (rest s))
    → IsPaced (after_turn o in_pause (turn reports o r) rest)
unfolding after_turn turn ended
after_turn-IsPaced reports none in_pause r rest p = record {
  paced = tt;
  changed = λ h. absurd cc;
  failed = λ h. settle-is_named (report reports (at_work r));
}
after_turn-IsPaced reports (some t) in_pause r rest p =
    wait_after-IsPaced t in_pause (turn reports (some t) r) _
      (p (after_round t (turn reports (some t) r)))

pub rounds-IsPaced : (rs : List Round) (r : Runner) → IsPaced (rounds rs r)
unfolding rounds ended stop
rounds-IsPaced [] r = record { paced = tt; changed = λ h. absurd cc; failed = λ h. absurd cc }
rounds-IsPaced (round ∷ more) r = elim (Bool-cases round.stopped) [
  | inl e ↦ rw e (record { paced = tt; changed = λ h. absurd cc; failed = λ h. absurd cc })
  | inr e ↦ elim (Bool-cases round.installed) [
    | inr f ↦ rw (e, f) (record { paced = tt; changed = λ h. refl; failed = λ h. absurd cc })
    | inl f ↦
        rw (e, f)
          (after_turn-IsPaced round.reports round.outcome round.stopped_in_pause r (rounds more)
            (λ s. rounds-IsPaced more s))
  ]
]
