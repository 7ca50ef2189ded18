-- ===== src/Runner/Quiet.antt =====
-- The changes of a runner in plugins/LumaeAnalysis/runner.py that leave its lead and connection alone.
use lumae_plugin.Prelude.{
  ◌≡◌, refl, ◌∙◌, inl, inr, Bool, true, false, ◌&&◌, Option, none, some, List, [], ◌∷◌, Bool-cases,
}
use lumae_plugin.Runner.{
  Runner, Turn, Report, begins, ends, start, stop, wake, turn, report, begin_action, end_action,
  count_action, settle, at_work, no_longer_new, show, is_named,
}

-- A change of a runner that keeps what it holds.
pub record IsQuiet (f : Runner → Runner) : Type 0 where
  pub leading : (r : Runner) → (f r).leading ≡ r.leading
  pub connected : (r : Runner) → (f r).connected ≡ r.connected

pub count_action-IsQuiet : (counts : Bool) → IsQuiet (count_action counts)
unfolding count_action
count_action-IsQuiet true = record { leading = λ r. refl; connected = λ r. refl }
count_action-IsQuiet false = record { leading = λ r. refl; connected = λ r. refl }

pub end_action-IsQuiet : (ran : Bool) → IsQuiet (end_action ran)
unfolding end_action
end_action-IsQuiet ran = record {
  leading = λ r. (count_action-IsQuiet (is_named r.action && ran)).leading r;
  connected = λ r. (count_action-IsQuiet (is_named r.action && ran)).connected r;
}

pub report-IsQuiet : (reports : List Report) → IsQuiet (report reports)
unfolding report begin_action
report-IsQuiet [] = record { leading = λ r. refl; connected = λ r. refl }
report-IsQuiet (begins name ∷ more) =
    let rest = report-IsQuiet more in
    record {
      leading = λ r. rest.leading (begin_action name r);
      connected = λ r. rest.connected (begin_action name r);
    }
report-IsQuiet (ends ran ∷ more) =
    let rest = report-IsQuiet more in
    let now = end_action-IsQuiet ran in
    record {
      leading = λ r. rest.leading (end_action ran r) ∙ now.leading r;
      connected = λ r. rest.connected (end_action ran r) ∙ now.connected r;
    }

pub settle-IsQuiet : IsQuiet settle
unfolding settle
settle-IsQuiet = record {
  leading = λ r. elim (Bool-cases (is_named r.action)) [ inl e ↦ rw e refl | inr e ↦ rw e refl ];
  connected = λ r. elim (Bool-cases (is_named r.action)) [ inl e ↦ rw e refl | inr e ↦ rw e refl ];
}

pub compose-IsQuiet : {f g : Runner → Runner} → IsQuiet f → IsQuiet g → IsQuiet (λ r. f (g r))
compose-IsQuiet {f} {g} p q = record {
  leading = λ r. p.leading (g r) ∙ q.leading r;
  connected = λ r. p.connected (g r) ∙ q.connected r;
}

pub at_work-IsQuiet : IsQuiet at_work
unfolding at_work
at_work-IsQuiet = record { leading = λ r. refl; connected = λ r. refl }

pub no_longer_new-IsQuiet : IsQuiet no_longer_new
unfolding no_longer_new
no_longer_new-IsQuiet = record { leading = λ r. refl; connected = λ r. refl }

pub show-IsQuiet : (t : Turn) → IsQuiet (show t)
unfolding show
show-IsQuiet t = record { leading = λ r. refl; connected = λ r. refl }

pub turn-IsQuiet : (reports : List Report) (t : Option Turn) → IsQuiet (turn reports t)
unfolding turn
turn-IsQuiet reports none =
    compose-IsQuiet settle-IsQuiet (compose-IsQuiet (report-IsQuiet reports) at_work-IsQuiet)
turn-IsQuiet reports (some t) = compose-IsQuiet (show-IsQuiet t) (
    compose-IsQuiet settle-IsQuiet (
      compose-IsQuiet no_longer_new-IsQuiet
        (compose-IsQuiet (report-IsQuiet reports) at_work-IsQuiet)))

pub start-IsQuiet : (alive : Bool) → IsQuiet (λ r. (start alive r).1)
unfolding start
start-IsQuiet true = record { leading = λ r. refl; connected = λ r. refl }
start-IsQuiet false = record { leading = λ r. refl; connected = λ r. refl }

pub wake-IsQuiet : (own : Bool) → IsQuiet (wake own)
unfolding wake
wake-IsQuiet true = record { leading = λ r. refl; connected = λ r. refl }
wake-IsQuiet false = record { leading = λ r. refl; connected = λ r. refl }

pub stop-IsQuiet : IsQuiet stop
unfolding stop
stop-IsQuiet = record { leading = λ r. refl; connected = λ r. refl }
