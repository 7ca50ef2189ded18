-- ===== src/Parallel/Sizing.antt =====
-- How many files a turn analyses at once (the sizing part of
-- plugins/LumaeAnalysis/parallel_analysis.py), from what the host and the cgroup files say. Python's
-- `int` and the trimmed lower case of a string are parameters.
pub mod Bounds
use lumae_plugin.Prelude.{
  ℕ, zero, suc, ◌+◌, ◌-◌, ◌*◌, ◌/◌, ◌^◌, ◌≤◌, ◌≡◌, Bool, true, false, ◌&&◌, ◌||◌, String, Option,
  none, some, List, [], ◌∷◌, min, max, ltb, leb, nat_eq, if◌then◌else◌, ◌==◌, keep, arith,
}
use lumae_plugin.Json.{ℤ, pos, negsuc}

abbrev pub max_workers : ℕ
max_workers = 8

abbrev pub max_auto_workers : ℕ
max_auto_workers = 4

abbrev pub cpu_reserve : ℕ
cpu_reserve = 2

abbrev pub child_ram_bytes : ℕ
child_ram_bytes = 512 * 1024 * 1024

-- `math.ceil(a / b)`, `none` where it divides by zero.
unfoldable pub quota_cores : ℕ → ℕ → Option ℕ
quota_cores a zero = none
quota_cores a (suc b) = some ((a + b) / suc b)

unfoldable pub limited_cores : ℕ → Option ℕ → ℕ
limited_cores affinity none = affinity
limited_cores affinity (some cores) = min affinity (max 1 cores)

-- `available_cpus()`, from the affinity's count and the two numbers of the cgroup's quota.
unfoldable pub available_cpus : ℕ → Option (ℕ × ℕ) → ℕ
unfolding quota_cores limited_cores
available_cpus affinity none = max 1 affinity
available_cpus affinity (some (a, b)) = max 1 (limited_cores affinity (quota_cores a b))

-- One cgroup file's limit: cgroup v1 writes a number near 2 ^ 63 for no limit.
unfoldable pub lower_limit : Option ℕ → Option ℕ → Option ℕ
lower_limit none found = found
lower_limit (some limit) none = if ltb limit (2 ^ 60) then some limit else none
lower_limit (some limit) (some found) =
    if ltb limit (2 ^ 60) && ltb limit found then some limit else some found

-- `_container_memory_limit()`, from the numbers of the two files.
unfoldable pub container_memory_limit : Option ℕ → Option ℕ → Option ℕ
unfolding lower_limit
container_memory_limit v2 v1 = lower_limit v1 (lower_limit v2 none)

unfoldable pub smaller_total : Option ℕ → Option ℕ → Option ℕ
smaller_total total none = total
smaller_total none (some limit) = some limit
smaller_total (some total) (some limit) = if ltb limit total then some limit else some total

unfoldable pub positive : Option ℕ → Option ℕ
positive none = none
positive (some n) = if ltb 0 n then some n else none

-- `memory_bytes()`, from the host's memory and the container's limit.
unfoldable pub memory_bytes : Option ℕ → Option ℕ → Option ℕ
unfolding smaller_total positive
memory_bytes host limit = positive (smaller_total host limit)

-- `int(memory * RAM_SHARE // CHILD_RAM_BYTES)`, with RAM_SHARE a quarter.
unfoldable pub by_memory : Option ℕ → ℕ
by_memory none = max_auto_workers
by_memory (some memory) =
    if nat_eq memory 0 then max_auto_workers else memory / (4 * child_ram_bytes)

-- `auto_workers(cpus, memory)`; below the reserve Python's difference is negative, and 0 here.
unfoldable pub auto_workers : ℕ → Option ℕ → ℕ
unfolding by_memory
auto_workers cpus memory =
    max 1 (min max_auto_workers (min (cpus - cpu_reserve) (by_memory memory)))

-- A stored setting, by what `normalize_setting` asks of it.
pub data Raw : Type 0 where
  text : String → Raw
  flag : Bool → Raw
  other : String → Raw

pub data Setting : Type 0 where
  auto : Setting
  fixed : ℕ → Setting

-- `min(max(value, 1), MAX_WORKERS)`
unfoldable pub clamped : ℤ → ℕ
clamped (pos n) = min (max n 1) max_workers
clamped (negsuc n) = 1

unfoldable pub of_number : Option ℤ → Setting
unfolding clamped
of_number none = auto
of_number (some z) = fixed (clamped z)

unfoldable pub workers_for : ℕ → Option ℕ → Setting → ℕ
unfolding auto_workers
workers_for cpus memory auto = auto_workers cpus memory
workers_for cpus memory (fixed n) = n

-- `int` is `none` where Python's raises TypeError or ValueError.
module _ (int : Raw → Option ℤ) (strip_lower : String → String) where
  -- `normalize_setting(raw)`
  unfoldable pub normalize_setting : Raw → Setting
  unfolding of_number
  normalize_setting (text s) =
      let word = strip_lower s in
      if word == "" || word == "auto" then auto else of_number (int (text s))
  normalize_setting (flag b) = auto
  normalize_setting (other s) = of_number (int (other s))

  -- `resolve_workers(raw)`
  unfoldable pub resolve_workers : ℕ → Option ℕ → Raw → ℕ
  unfolding normalize_setting workers_for
  resolve_workers cpus memory raw = workers_for cpus memory (normalize_setting raw)

-- The keys of MEASURED_SPEEDUP, sorted.
abbrev pub measured : List ℕ
measured = 1 ∷ 2 ∷ 4 ∷ 6 ∷ []

abbrev pub first_of : List ℕ → Option ℕ
first_of [] = none
first_of (n ∷ ns) = some n

-- `next_workers(workers, cpus)`
unfoldable pub next_workers : ℕ → ℕ → Option ℕ
next_workers workers cpus = first_of (
    keep
      (λ point.
        ltb workers point && leb point (max 1 (cpus - cpu_reserve)) && leb point max_workers)
      measured)
