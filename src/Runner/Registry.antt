-- ===== src/Runner/Registry.antt =====
-- plugins/LumaeAnalysis/runner.py: the runners of a process by role, `start`, `current`, `stop_all` and
-- `wake_local`. An entry keeps the process that made it: after a fork it is another's.
use lumae_plugin.Prelude.{ℕ, Bool, false, ◌&&◌, Option, none, some, nat_eq, if◌then◌else◌}
use lumae_plugin.Runner.{Role, server, worker, Runner, created, start, stop, wake}

pub record Entry : Type 0 where
  pub pid : ℕ
  pub runner : Runner

-- `_runners`
pub record Registry : Type 0 where
  pub of_server : Option Entry
  pub of_worker : Option Entry

pub entry_of : Role → Registry → Option Entry
entry_of server g = g.of_server
entry_of worker g = g.of_worker

pub put_entry : Role → Entry → Registry → Registry
put_entry server e g = record g { of_server = some e }
put_entry worker e g = record g { of_worker = some e }

-- The runner of this process, a new one where there is none.
pub own_runner : ℕ → Option Entry → Runner
own_runner pid none = created
own_runner pid (some e) = if nat_eq e.pid pid then e.runner else created

-- A runner that this process did not make yet has no thread.
pub has_thread : ℕ → Option Entry → Bool → Bool
has_thread pid none alive = false
has_thread pid (some e) alive = nat_eq e.pid pid && alive

-- `start(role)`, told whether the runner's thread is alive.
pub start_role : Role → ℕ → Bool → Registry → Registry
unfolding put_entry own_runner has_thread entry_of start
start_role role pid alive g =
    let old = entry_of role g in
    put_entry role
      (record { pid = pid; runner = (start (has_thread pid old alive) (own_runner pid old)).1 }) g

-- `current(role)`
pub current : Role → ℕ → Registry → Option Runner
unfolding entry_of
current role pid g = elim (entry_of role g) [
  | none ↦ none
  | some e ↦ if nat_eq e.pid pid then some e.runner else none
]

pub stop_entry : Option Entry → Option Entry
unfolding stop
stop_entry none = none
stop_entry (some e) = some (record e { runner = stop e.runner })

-- `stop_all()`
pub stop_all : Registry → Registry
unfolding stop_entry
stop_all g = record { of_server = stop_entry g.of_server; of_worker = stop_entry g.of_worker }

pub wake_entry : ℕ → Option Entry → Option Entry
unfolding wake
wake_entry pid none = none
wake_entry pid (some e) = some (record e { runner = wake (nat_eq pid e.pid) e.runner })

-- `wake_local()`
pub wake_local : ℕ → Registry → Registry
unfolding wake_entry
wake_local pid g = record {
  of_server = wake_entry pid g.of_server;
  of_worker = wake_entry pid g.of_worker;
}
