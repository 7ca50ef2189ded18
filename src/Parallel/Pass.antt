-- ===== src/Parallel/Pass.antt =====
-- One pass over the units (`run` and `Report` of plugins/LumaeAnalysis/parallel_analysis.py). The
-- clock, `between`, `prepare` and the threads are the pass's surroundings: a step is given what they
-- answer. Times are whole ticks of the monotonic clock, and the average time per file is kept as its
-- sum and the number of files, where the code keeps the quotient in floating point.
pub mod Counts
pub mod Tally
pub mod Cancel
pub mod Reached
pub mod Taking
pub mod Stopping
use lumae_plugin.Prelude.{
  ℕ, suc, ◌+◌, ◌-◌, ◌*◌, ◌≡◌, Bool, true, false, ◌&&◌, ◌||◌, not, Option, none, some, List, [], ◌∷◌,
  ◌++◌, ltb, leb, nat_eq, if◌then◌else◌, length, first, any,
}

-- `report.stopped`
pub data Stop : Type 0 where
  deadline_reached : Stop
  told_to_stop : Stop

-- How a job came back: with a result or an error of its own after so many ticks, or `Cancelled`.
pub data Ending : Type 0 where
  worked : ℕ → Ending
  cut_off : Ending

-- What surrounds one turn of the taking loop: the clock, whether `between()` is False, and whether
-- `prepare(unit)` is None because it handled the unit itself.
pub record Moment : Type 0 where
  pub now : ℕ
  pub asked_to_stop : Bool
  pub inline : Bool

-- A job in flight: the index of its unit among the units taken, and the unit.
pub record Flight (U : Type 0) : Type 0 where
  pub index : ℕ
  pub unit : U

-- `Report`, its `cancelled` units with their indexes.
pub record Report (U : Type 0) : Type 0 where
  pub taken : List U
  pub finished : List ℕ
  pub cancelled : List (Flight U)
  pub stopped : Option Stop

-- The local state of `run`. `calls` lists the indexes of the units that `finish` was called for.
pub record Running (U : Type 0) : Type 0 where
  pub units : List U
  pub report : Report U
  pub in_flight : List (Flight U)
  pub total : ℕ
  pub files : ℕ
  pub exhausted : Bool
  pub calls : List ℕ

-- What `_cancel_in_flight` leaves, and whether a `finish` raised in it.
pub record Left (U : Type 0) : Type 0 where
  pub running : Running U
  pub raised : Bool

pub is_running : Option Stop → Bool
is_running none = true
is_running (some s) = false

-- Whether an index is in the set `report.done`.
abbrev pub is_done : List ℕ → ℕ → Bool
is_done [] i = false
is_done (j ∷ js) i = nat_eq j i || is_done js i

module _ {U : Type 0} where
  unfoldable pub begin : List U → Running U
  begin units = record {
    units = units;
    report = record { taken = []; finished = []; cancelled = []; stopped = none };
    in_flight = [];
    total = 0;
    files = 0;
    exhausted = false;
    calls = [];
  }

  -- The condition of the taking loop.
  unfoldable pub is_open : ℕ → Running U → Bool
  unfolding is_running
  is_open workers p =
      not p.exhausted && is_running p.report.stopped && ltb (length p.in_flight) workers

  -- `can_start()`
  unfoldable pub can_start : Option ℕ → ℕ → Running U → Bool
  can_start none now p = true
  can_start (some deadline) now p =
      ltb now deadline && (nat_eq p.files 0 || leb p.total ((deadline - now) * p.files))

  unfoldable pub stop : Stop → Running U → Running U
  stop why p = record p { report = record p.report { stopped = some why } }

  -- A unit prepared: handled by `prepare` itself, or handed to a thread.
  unfoldable pub take_unit : Bool → U → List U → Running U → Running U
  take_unit inline u units p =
      let index = length p.report.taken in
      let taken = p.report.taken ++ u ∷ [] in
      if inline
      then record p {
        units = units;
        report = record p.report { taken = taken; finished = index ∷ p.report.finished };
      }
      else record p {
        units = units;
        report = record p.report { taken = taken };
        in_flight = record { index = index; unit = u } ∷ p.in_flight;
      }

  -- `next(units, _END)` and what follows.
  unfoldable pub take_next : Bool → List U → Running U → Running U
  unfolding take_unit
  take_next inline [] p = record p { exhausted = true }
  take_next inline (u ∷ units) p = take_unit inline u units p

  -- One turn of the taking loop, up to its collecting of finished jobs.
  unfoldable pub start : Option ℕ → Moment → Running U → Running U
  unfolding can_start stop take_next
  start deadline m p =
      if not (can_start deadline m.now p)
      then stop deadline_reached p
      else if m.asked_to_stop
      then stop told_to_stop p
      else take_next m.inline p.units p

  abbrev pub is_at : ℕ → Flight U → Bool
  is_at i f = nat_eq f.index i

  -- `in_flight.pop(id(job), None)`
  unfoldable pub remove : ℕ → List (Flight U) → List (Flight U)
  remove i [] = []
  remove i (f ∷ flights) = if is_at i f then flights else f ∷ remove i flights

  unfoldable pub settle_flight : Flight U → Ending → Running U → Running U
  unfolding remove
  settle_flight f (worked ticks) p = record p {
    report = record p.report { finished = f.index ∷ p.report.finished };
    in_flight = remove f.index p.in_flight;
    total = p.total + ticks;
    files = suc p.files;
    calls = f.index ∷ p.calls;
  }
  settle_flight f cut_off p = record p {
    report = record p.report { cancelled = p.report.cancelled ++ f ∷ [] };
    in_flight = remove f.index p.in_flight;
    calls = f.index ∷ p.calls;
  }

  unfoldable pub settle_found : Option (Flight U) → Ending → Running U → Running U
  unfolding settle_flight
  settle_found none e p = p
  settle_found (some f) e p = settle_flight f e p

  -- `settle(job)`, the job named by its unit's index; a job that is not in flight is ignored.
  unfoldable pub settle : ℕ → Ending → Running U → Running U
  unfolding settle_found
  settle i e p = settle_found (first (is_at i) p.in_flight) e p

  -- `prepare(unit)` raises: the unit is taken, and is neither done nor handed to a thread.
  unfoldable pub prepare_raises : U → List U → Running U → Running U
  prepare_raises u units p = record p {
    units = units;
    report = record p.report { taken = p.report.taken ++ u ∷ [] };
  }

  unfoldable pub quiet : Running U → Left U
  quiet p = record { running = p; raised = false }

  unfoldable pub raising : Running U → Left U
  raising p = record { running = p; raised = true }

  -- The end of `_cancel_in_flight`: the jobs that did not stop in time are finished as `Cancelled`,
  -- up to the first whose `finish` raises.
  unfoldable pub abandon : (ℕ → Bool) → List (Flight U) → Running U → Left U
  unfolding settle_flight quiet raising
  abandon raises [] p = quiet p
  abandon raises (f ∷ flights) p =
      let next = settle_flight f cut_off p in
      let rest = abandon raises flights next in if raises f.index then raising next else rest

  unfoldable pub settle_all : (ℕ → Bool) → List (ℕ × Ending) → Running U → Left U
  unfolding settle quiet raising
  settle_all raises [] p = quiet p
  settle_all raises ((i, e) ∷ collected) p =
      let next = settle i e p in
      let rest = settle_all raises collected next in
      if any (is_at i) p.in_flight && raises i then raising next else rest

  unfoldable pub abandon_rest : (ℕ → Bool) → Left U → Left U
  unfolding abandon
  abandon_rest raises l =
      let all = abandon raises l.running.in_flight l.running in if l.raised then l else all

  -- `_cancel_in_flight`, given the jobs that it collects before it gives up, and the indexes of the
  -- units whose `finish` raises.
  unfoldable pub cancel_in_flight : (ℕ → Bool) → List (ℕ × Ending) → Running U → Left U
  unfolding settle_all abandon_rest
  cancel_in_flight raises collected p = abandon_rest raises (settle_all raises collected p)

  -- The moments of a pass from one on: it takes units while the loop is open, and settles what
  -- comes back, in any order. A pass over some units starts at `begin units`.
  pub data Passes (workers : ℕ) (deadline : Option ℕ) (from : Running U) : Running U → Type 0 where
    begun : Passes workers deadline from from
    started :
        (m : Moment) (p : Running U)
        → is_open workers p ≡ true
        → Passes workers deadline from p
        → Passes workers deadline from (start deadline m p)
    settled :
        (i : ℕ) (e : Ending) (p : Running U)
        → Passes workers deadline from p
        → Passes workers deadline from (settle i e p)

  unfoldable pub reached_from : ℕ → Option U → List U → List ℕ → Option U
  reached_from index last [] js = last
  reached_from index last (u ∷ us) js =
      let later = reached_from (suc index) (some u) us js in
      if is_done js index then later else last

  -- `Report.reached()`
  unfoldable pub reached : Report U → Option U
  unfolding reached_from
  reached r = reached_from 0 none r.taken r.finished
