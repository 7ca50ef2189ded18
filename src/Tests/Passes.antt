-- ===== src/Tests/Passes.antt =====
-- Passes over two files with two workers, and the sizes of small hosts.
use lumae_plugin.Prelude.{
  ℕ, zero, suc, ◌+◌, ◌-◌, ◌*◌, ◌≤◌, ◌<◌, ◌≡◌, refl, Bool, true, false, nat_eq, ◌⊎◌, String, Option,
  none, some, List, [], ◌∷◌, length, arith,
}
use lumae_plugin.Json.{ℤ, pos}
use lumae_plugin.Parallel.Sizing.{auto_workers, next_workers, max_auto_workers, cpu_reserve, Raw}
use lumae_plugin.Parallel.Sizing.Bounds.{FitsMemory, FillsMemory, auto_workers_bounds}
use lumae_plugin.Parallel.Pass.{
  Running, Moment, told_to_stop, worked, cut_off, begin, is_open, can_start, start, settle, Left,
  settle_all, abandon, abandon_rest, cancel_in_flight, Passes, begun, started, settled, is_done,
  reached,
}
use lumae_plugin.Parallel.Pass.Tally.{IsSound, Passes-IsSound}
use lumae_plugin.Parallel.Pass.Taking.{sum, ticks_of, start_in_time}
use lumae_plugin.Parallel.Pass.Reached.{IsFrontier, last_or, reached-IsFrontier, Passes-complete}
use lumae_plugin.Parallel.Serial.{serial, empty_report, IsSerial, serial_complete}

abbrev units : List ℕ
units = 10 ∷ 20 ∷ []

abbrev moment : Moment
moment = record { now = 3; asked_to_stop = false; inline = false }

abbrev stopping : Moment
stopping = record { now = 4; asked_to_stop = true; inline = false }

abbrev both_taken : Running ℕ
both_taken = start (some 9) moment (start (some 9) moment (begin units))

abbrev one_back : Running ℕ
one_back = settle 1 (worked 5) both_taken

abbrev all_back : Running ℕ
all_back = settle 0 (worked 6) (start (some 9) moment one_back)

taking : Passes 2 (some 9) (begin units) both_taken
unfolding begin is_open start can_start
taking = started moment _ refl (started moment _ refl begun)

going : Passes 2 (some 9) (begin units) one_back
going = settled 1 (worked 5) both_taken taking

whole : Passes 2 (some 9) (begin units) all_back
unfolding begin is_open start can_start settle
whole = settled 0 (worked 6) _ (started moment one_back refl going)

Passes-IsSound_example : IsSound 2 units one_back
Passes-IsSound_example = Passes-IsSound 2 units (some 9) one_back going

-- The second job comes back cut off; `finish` raises for the first, which is abandoned.
abbrev raises : ℕ → Bool
raises i = nat_eq i 0

abbrev left : Left ℕ
left = cancel_in_flight raises ((1, cut_off) ∷ []) both_taken

raised_last : left.raised ≡ true
unfolding begin start can_start cancel_in_flight settle_all abandon_rest abandon
raised_last = refl

closed : is_open 2 all_back ≡ false
unfolding begin is_open start can_start settle
closed = refl

idle : all_back.in_flight ≡ []
unfolding begin is_open start can_start settle
idle = refl

uncut : all_back.report.cancelled ≡ []
unfolding begin is_open start can_start settle
uncut = refl

Passes-complete_example :
    ((i : ℕ) → i < length all_back.report.taken → is_done all_back.report.finished i ≡ true)
    × (reached all_back.report ≡ last_or none all_back.report.taken)
    × (all_back.report.stopped ≡ none → all_back.report.taken ≡ units)
Passes-complete_example =
    Passes-complete 2 (some 9) units all_back (omega arith) whole closed idle uncut

reached_all : reached all_back.report ≡ some 20
unfolding begin start can_start settle reached
reached_all = refl

reached-IsFrontier_example :
    (k : ℕ) × IsFrontier all_back.report.finished 0 all_back.report.taken k 20
reached-IsFrontier_example = reached-IsFrontier all_back.report 20 reached_all

abbrev one_done : Running ℕ
one_done = settle 0 (worked 5) (start (some 9) moment (begin units))

finishing : Passes 2 (some 9) (begin units) one_done
unfolding begin is_open start can_start
finishing = settled 0 (worked 5) _ (started moment _ refl begun)

second_taken : length one_done.report.taken < length (start (some 9) moment one_done).report.taken
unfolding begin start can_start settle
second_taken = omega arith

start_in_time_example :
    let ticks = ticks_of 2 (some 9) (begin units) one_done finishing in
    (3 < 9) × ((ticks ≡ []) ⊎ (sum ticks ≤ (9 - 3) * length ticks))
start_in_time_example = start_in_time 2 9 units moment one_done finishing second_taken

still_open : is_open 2 (start (some 9) moment (begin units)) ≡ true
unfolding begin is_open start can_start
still_open = refl

abbrev stopped_early : Running ℕ
stopped_early = start (some 9) stopping (start (some 9) moment (begin units))

told : stopped_early.report.stopped ≡ some told_to_stop
unfolding begin start can_start
told = refl

abbrev moments : ℕ → Moment
moments zero = moment
moments (suc i) = stopping

serial_complete_example :
    IsSerial empty_report units (serial (some 9) moments units empty_report)
    × (reached (serial (some 9) moments units empty_report)
        ≡ last_or none (serial (some 9) moments units empty_report).taken)
serial_complete_example = serial_complete (some 9) moments units

abbrev memory : ℕ
memory = 8 * 1024 * 1024 * 1024

auto_workers_bounds_example :
    let n = auto_workers 8 (some memory) in
    (1 ≤ n)
    × (n ≤ max_auto_workers)
    × (1 < n → (n + cpu_reserve ≤ 8) × FitsMemory n (some memory))
    × (n < max_auto_workers → (8 ≤ n + cpu_reserve) ⊎ FillsMemory n (some memory))
auto_workers_bounds_example = auto_workers_bounds 8 (some memory)

abbrev int_of : Raw → Option ℤ
int_of raw = some (pos 12)

abbrev lower : String → String
lower s = s

four_next : next_workers 2 8 ≡ some 4
unfolding next_workers
four_next = refl
