-- ===== src/Runner.antt =====
-- plugins/LumaeAnalysis/runner.py: one role's loop in one process, what its turn reports, its waits and
-- its row of `runner_state`. Times are counted in milliseconds.
pub mod Marks
pub mod Registry
pub mod Rounds
pub mod Quiet
pub mod Leaders
use lumae_plugin.Prelude.{
  ℕ, zero, suc, ◌+◌, Bool, true, false, ◌&&◌, ◌||◌, not, String, Option, none, some, List, [], ◌∷◌,
  ◌==◌, ltb, leb, min, max, if◌then◌else◌,
}

pub data Role : Type 0 where
  server worker : Role

abbrev pub standby_time : ℕ
standby_time = 60000

abbrev pub heartbeat_time : ℕ
heartbeat_time = 30000

abbrev pub worker_online_time : ℕ
worker_online_time = 90000

abbrev pub sweep_time : ℕ
sweep_time = 900000

abbrev pub pause_time : ℕ
pause_time = 1000

pub startup_delay : Role → ℕ
startup_delay server = 120000
startup_delay worker = 30000

abbrev pub restart_delays : List ℕ
restart_delays = 30000 ∷ 60000 ∷ 120000 ∷ 240000 ∷ 480000 ∷ 900000 ∷ []

-- The element at an index, or the last one.
pub at_most_last : ℕ → List ℕ → ℕ
at_most_last n [] = 0
at_most_last zero (x ∷ xs) = x
at_most_last (suc n) (x ∷ []) = x
at_most_last (suc n) (x ∷ y ∷ more) = at_most_last n (y ∷ more)

-- The waits of `_main` between the runs of `_lead`, each of which returns (true) or raises.
pub restart_waits : ℕ → List Bool → List ℕ
unfolding at_most_last
restart_waits failures [] = []
restart_waits failures (true ∷ more) = restart_waits 0 more
restart_waits failures (false ∷ more) =
    at_most_last failures restart_delays ∷ restart_waits (suc failures) more

-- What a turn returns; `due` is its `next_due_seconds`.
pub record Turn : Type 0 where
  pub worked : Bool
  pub mode : String
  pub reason : String
  pub due : Option ℕ
  pub action : Option String

-- `idle_turn(next_due_seconds, reason)`
unfoldable pub idle_turn : Option ℕ → String → Turn
idle_turn due reason = record {
  worked = false;
  mode = "idle";
  reason = reason;
  due = due;
  action = none;
}

-- A runner, `connected` when it has its connection.
pub record Runner : Type 0 where
  pub stopped : Bool
  pub woken : Bool
  pub connected : Bool
  pub leading : Bool
  pub new_leader : Bool
  pub mode : String
  pub reason : Option String
  pub action : Option String
  pub last_action : Option String
  pub actions : ℕ
  pub next_wake_in : Option ℕ
  pub action_changed : Bool

abbrev pub created : Runner
created = record {
  stopped = false;
  woken = false;
  connected = false;
  leading = false;
  new_leader = false;
  mode = "starting";
  reason = none;
  action = none;
  last_action = none;
  actions = 0;
  next_wake_in = none;
  action_changed = false;
}

-- `start()`, told whether the thread is alive: whether it starts one.
pub start : Bool → Runner → Bool × Runner
start true r = (false, r)
start false r = (true, record r { stopped = false })

-- `stop()`
pub stop : Runner → Runner
stop r = record r { stopped = true; woken = true }

-- `wake()`, in the process that made the runner or in another.
pub wake : Bool → Runner → Runner
wake true r = record r { woken = true }
wake false r = r

pub is_named : Option String → Bool
is_named none = false
is_named (some s) = not (s == "")

-- `begin_action(action)`
pub begin_action : String → Runner → Runner
begin_action name r = record r { action = some name; action_changed = true }

-- The count of an action that ran.
pub count_action : Bool → Runner → Runner
count_action true r = record r { last_action = r.action; actions = suc r.actions }
count_action false r = r

-- `end_action(ran)`
pub end_action : Bool → Runner → Runner
unfolding count_action is_named
end_action ran r =
    let counted = count_action (is_named r.action && ran) r in
    record counted { action = none; action_changed = true }

-- What a turn reports while it works.
pub data Report : Type 0 where
  begins : String → Report
  ends : Bool → Report

pub report : List Report → Runner → Runner
unfolding begin_action end_action
report [] r = r
report (begins name ∷ more) r = report more (begin_action name r)
report (ends ran ∷ more) r = report more (end_action ran r)

-- The `finally` of a turn.
pub settle : Runner → Runner
unfolding is_named end_action
settle r = if is_named r.action then end_action true r else r

-- What the page shows while a turn works.
pub at_work : Runner → Runner
at_work r = record r { mode = "working"; reason = some "turn" }

-- A turn that returned is no longer a new leader's.
pub no_longer_new : Runner → Runner
no_longer_new r = record r { new_leader = false }

pub show : Turn → Runner → Runner
show t r = record r { mode = t.mode; reason = some t.reason }

-- `_turn()`: the turn reports and returns, or raises, which is `none`.
unfoldable pub turn : List Report → Option Turn → Runner → Runner
unfolding report settle at_work no_longer_new show
turn reports none r = settle (report reports (at_work r))
turn reports (some t) r = show t (settle (no_longer_new (report reports (at_work r))))

-- How long a leader waits after a turn that did not work.
unfoldable pub next_wait : Option ℕ → ℕ
next_wait none = sweep_time
next_wait (some due) = max pause_time (min sweep_time due)

pub data Woken : Type 0 where
  timeout wake_set notified stopped_early : Woken

-- What a turn of the loop of `_wait_for_wake` finds: whether the runner is stopped, the time, a local
-- wake, a NOTIFY already read, and one that the wait on the socket brings.
pub record Look : Type 0 where
  pub stopped : Bool
  pub now : ℕ
  pub woken : Bool
  pub pending : Bool
  pub arrived : Bool

-- `_wait_for_wake(seconds)` up to `deadline`; none while it still waits.
pub wait_for_wake : ℕ → List Look → Option Woken
wait_for_wake deadline [] = none
wait_for_wake deadline (l ∷ ls) =
    let rest = wait_for_wake deadline ls in
    if l.stopped
    then some stopped_early
    else if leb deadline l.now
    then some timeout
    else if l.woken
    then some wake_set
    else if l.pending || l.arrived
    then some notified
    else rest

-- A row of `runner_state`, less the host and the process id.
pub record StateRow : Type 0 where
  pub mode : String
  pub reason : Option String
  pub current_action : Option String
  pub last_action : Option String
  pub actions : ℕ
  pub next_wake_at : Option ℕ
  pub started_at : Option ℕ
  pub action_started_at : Option ℕ
  pub heartbeat_at : Option ℕ

-- `left IS NOT DISTINCT FROM right`
pub not_distinct : Option String → Option String → Bool
not_distinct none none = true
not_distinct (some a) (some b) = a == b
not_distinct _ _ = false

pub wake_at : ℕ → Option ℕ → Option ℕ
wake_at now none = none
wake_at now (some wait) = some (now + wait)

-- The CASE of `action_started_at`.
pub action_start : Bool → ℕ → Option String → Option StateRow → Option ℕ
unfolding not_distinct
action_start started now none row = none
action_start started now (some a) none = some now
action_start started now (some a) (some row) =
    if not_distinct row.current_action (some a) && not started
    then row.action_started_at
    else some now

-- The CASE of `started_at`.
pub start_time : Bool → ℕ → Option StateRow → Option ℕ
start_time started now none = some now
start_time true now (some row) = some now
start_time false now (some row) = row.started_at

-- `_heartbeat(started)`'s row, for the row that is there.
pub heartbeat : Bool → ℕ → Runner → Option StateRow → StateRow
unfolding wake_at action_start start_time
heartbeat started now r row = record {
  mode = r.mode;
  reason = r.reason;
  current_action = r.action;
  last_action = r.last_action;
  actions = r.actions;
  next_wake_at = wake_at now r.next_wake_in;
  started_at = start_time started now row;
  action_started_at = action_start started now r.action row;
  heartbeat_at = some now;
}

-- `record_unavailable(cur, role, reason)`
pub record_unavailable : String → Option StateRow → StateRow
record_unavailable reason none = record {
  mode = "unavailable";
  reason = some reason;
  current_action = none;
  last_action = none;
  actions = 0;
  next_wake_at = none;
  started_at = none;
  action_started_at = none;
  heartbeat_at = none;
}
record_unavailable reason (some row) = record row {
  mode = "unavailable";
  reason = some reason;
  current_action = none;
  heartbeat_at = none;
}

-- `worker_online(cur, seconds)` of the worker's row.
pub worker_online : ℕ → ℕ → Option StateRow → Bool
worker_online now window none = false
worker_online now window (some row) = elim row.heartbeat_at [
  | none ↦ false
  | some beat ↦ ltb now (beat + window)
]
