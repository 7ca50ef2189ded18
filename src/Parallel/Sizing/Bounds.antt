-- ===== src/Parallel/Sizing/Bounds.antt =====
-- The bounds of a turn's worker count, and the next measured count.
use lumae_plugin.Prelude.{
  ℕ, ◌+◌, ◌-◌, ◌*◌, ◌≤◌, ◌<◌, ◌≡◌, ◌⊎◌, ◌||◌, String, Option, none, some, max, ◌==◌, arith, Has,
  Bool-cases, inl, inr,
}
use lumae_plugin.Json.{ℤ, pos, negsuc}
use lumae_plugin.Parallel.Sizing.{
  max_workers, max_auto_workers, cpu_reserve, child_ram_bytes, by_memory, auto_workers, Raw, text,
  flag, other, auto, clamped, of_number, normalize_setting, workers_for, resolve_workers, measured,
  next_workers,
}

-- The workers fit a quarter of the memory, where it is known.
abbrev pub FitsMemory : ℕ → Option ℕ → Type 0
FitsMemory workers none = Unit
FitsMemory workers (some memory) = 0 < memory → workers * (4 * child_ram_bytes) ≤ memory

-- A quarter of the memory, which is known, holds no more than the workers.
abbrev pub FillsMemory : ℕ → Option ℕ → Type 0
FillsMemory workers none = ⊥
FillsMemory workers (some memory) = (0 < memory) × (memory < (workers + 1) * (4 * child_ram_bytes))

-- With `auto`, whatever is known of the memory: from 1 to 4 workers, and more than one only where the
-- cores beyond the reserve hold them all, and a quarter of the memory too, where that is known and
-- positive. Fewer than 4 only where those cores or that quarter hold no more.
pub auto_workers_bounds :
    (cpus : ℕ) (memory : Option ℕ)
    → let n = auto_workers cpus memory in
      (1 ≤ n)
      × (n ≤ max_auto_workers)
      × (1 < n → (n + cpu_reserve ≤ cpus) × FitsMemory n memory)
      × (n < max_auto_workers → (cpus ≤ n + cpu_reserve) ⊎ FillsMemory n memory)
unfolding auto_workers by_memory
auto_workers_bounds cpus none =
    (ground arith, ground arith, λ more. (ground arith, tt), λ fewer. inl (ground arith))
auto_workers_bounds cpus (some memory) =
    (ground arith, ground arith, λ more. (ground arith, λ h. ground arith), λ fewer. ground arith)

clamped_bounds : (z : ℤ) → (1 ≤ clamped z) × (clamped z ≤ max_workers)
unfolding clamped
clamped_bounds (pos n) = (omega arith, omega arith)
clamped_bounds (negsuc n) = (omega arith, omega arith)

auto_bounds :
    (cpus : ℕ) (memory : Option ℕ)
    → (1 ≤ auto_workers cpus memory) × (auto_workers cpus memory ≤ max_workers)
unfolding auto_workers
auto_bounds cpus memory = (omega arith, omega arith)

module _ (cpus : ℕ) (memory : Option ℕ) where
  of_number_bounds :
      (z : Option ℤ)
      → (1 ≤ workers_for cpus memory (of_number z))
        × (workers_for cpus memory (of_number z) ≤ max_workers)
  unfolding of_number workers_for
  of_number_bounds none = auto_bounds cpus memory
  of_number_bounds (some z) = clamped_bounds z

  flag_bounds : (1 ≤ workers_for cpus memory auto) × (workers_for cpus memory auto ≤ max_workers)
  unfolding workers_for
  flag_bounds = auto_bounds cpus memory

module _ (int : Raw → Option ℤ) (strip_lower : String → String) (cpus : ℕ) (memory : Option ℕ) where
  -- Whatever is stored as the setting, a turn has from 1 to 8 workers.
  resolve_workers_bounds :
      (raw : Raw)
      → (1 ≤ resolve_workers int strip_lower cpus memory raw)
        × (resolve_workers int strip_lower cpus memory raw ≤ max_workers)
  unfolding resolve_workers normalize_setting
  resolve_workers_bounds (text s) =
      elim (Bool-cases (strip_lower s == "" || strip_lower s == "auto")) [
        | inl e ↦ rw e (flag_bounds cpus memory)
        | inr e ↦ rw e (of_number_bounds cpus memory (int (text s)))
      ]
  resolve_workers_bounds (flag b) = flag_bounds cpus memory
  resolve_workers_bounds (other s) = of_number_bounds cpus memory (int (other s))

-- `next_workers` gives a measured count above the present one that the cores beyond the reserve
-- allow, and the least of them; where it gives none, there is none.
next_workers_least :
    (workers cpus n : ℕ)
    → next_workers workers cpus ≡ some n
    → Has n measured
      × (workers < n)
      × (n ≤ max 1 (cpus - cpu_reserve))
      × ((k : ℕ) → Has k measured → workers < k → n ≤ k)
unfolding next_workers
next_workers_least workers cpus n h = ground arith
