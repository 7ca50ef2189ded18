-- ===== src/Runner/Leaders.antt =====
-- plugins/LumaeAnalysis/runner.py: the processes that run one role's loop, with the role's advisory
-- lock, which the server keeps for a session until it unlocks or closes.
pub mod Leading
use lumae_plugin.Prelude.{
  ℕ, ◌≡◌, Bool, true, false, ◌&&◌, Option, none, some, List, nat_eq, if◌then◌else◌,
}
use lumae_plugin.Runner.{Runner, Turn, Report, created, start, stop, wake, turn}

-- The process whose session holds the lock, and the runner of each process.
pub record World : Type 0 where
  pub holder : Option ℕ
  pub runners : ℕ → Runner

abbrev pub at_start : World
at_start = record { holder = none; runners = λ p. created }

pub update : ℕ → Runner → (ℕ → Runner) → ℕ → Runner
update p r runners q = if nat_eq q p then r else runners q

-- The lock once the session of `p` is closed.
pub without : ℕ → Option ℕ → Option ℕ
without p none = none
without p (some q) = if nat_eq q p then none else some q

pub released_lock : Bool → ℕ → Option ℕ → Option ℕ
unfolding without
released_lock true p holder = without p holder
released_lock false p holder = holder

-- `_release()`: the connection, if there is one, is closed.
pub release : ℕ → World → World
unfolding update released_lock
release p w =
    let r = w.runners p in
    record {
      holder = released_lock r.connected p w.holder;
      runners = update p (record r { connected = false; leading = false }) w.runners;
    }

-- The connection of `_lead` and its `pg_try_advisory_lock`: the leader, or a standby.
pub lead_with : ℕ → Option ℕ → World → World
unfolding update
lead_with p none w = record {
  holder = some p;
  runners =
      update p
        (record (w.runners p) {
          connected = true;
          leading = true;
          new_leader = true;
          mode = "working";
          reason = some "leader";
        })
        w.runners;
}
lead_with p (some q) w = record w {
  runners =
      update p (record (w.runners p) { connected = false; leading = false; mode = "standby" })
        w.runners;
}

unfoldable pub lead : ℕ → World → World
unfolding lead_with
lead p w = lead_with p w.holder w

-- A change of a runner's own state.
unfoldable pub change : ℕ → (Runner → Runner) → World → World
unfolding update
change p f w = record w { runners = update p (f (w.runners p)) w.runners }

-- What the processes reach. `_lead` runs without a connection: it starts after the runner is made or
-- released.
pub data Reached : World → Type 0 where
  at_first : Reached at_start
  started :
      (p : ℕ) (alive : Bool) (w : World) → Reached w → Reached (change p (λ r. (start alive r).1) w)
  led : (p : ℕ) (w : World) → (w.runners p).connected ≡ false → Reached w → Reached (lead p w)
  turned :
      (p : ℕ) (reports : List Report) (t : Option Turn) (w : World)
      → Reached w
      → Reached (change p (turn reports t) w)
  stopped : (p : ℕ) (w : World) → Reached w → Reached (change p stop w)
  woke : (p : ℕ) (own : Bool) (w : World) → Reached w → Reached (change p (wake own) w)
  released : (p : ℕ) (w : World) → Reached w → Reached (release p w)
