-- ===== src/Parallel/Pass/Taking.antt =====
-- When a pass of plugins/LumaeAnalysis/parallel_analysis.py takes a unit.
use lumae_plugin.Prelude.{
  ℕ, ◌+◌, ◌-◌, ◌*◌, ◌≤◌, ◌<◌, ◌≡◌, refl, ap, sym, ◌∙◌, Bool, true, false, inl, inr, ◌⊎◌, Option,
  none, some, List, [], ◌∷◌, arith, length, any, first, Bool-cases,
}
use lumae_plugin.Parallel.Pass.{
  Flight, Running, Moment, Ending, worked, cut_off, Stop, deadline_reached, told_to_stop, begin,
  start, stop, take_next, take_unit, can_start, settle, settle_flight, settle_found, is_at, Passes,
  begun, started, settled,
}

module _ {U : Type 0} where
  pub start_late :
      (deadline : Option ℕ) (m : Moment) (p : Running U)
      → can_start deadline m.now p ≡ false
      → start deadline m p ≡ stop deadline_reached p
  unfolding start
  start_late deadline m p h = rw h refl

  pub start_asked :
      (deadline : Option ℕ) (m : Moment) (p : Running U)
      → can_start deadline m.now p ≡ true
      → m.asked_to_stop ≡ true
      → start deadline m p ≡ stop told_to_stop p
  unfolding start
  start_asked deadline m p h a = rw h (rw a refl)

  pub start_takes :
      (deadline : Option ℕ) (m : Moment) (p : Running U)
      → can_start deadline m.now p ≡ true
      → m.asked_to_stop ≡ false
      → start deadline m p ≡ take_next m.inline p.units p
  unfolding start
  start_takes deadline m p h a = rw h (rw a refl)

  stop_takes_nothing : (why : Stop) (p : Running U) → (stop why p).report.taken ≡ p.report.taken
  unfolding stop
  stop_takes_nothing why p = refl

  taken_before :
      (deadline : ℕ) (m : Moment) (p : Running U)
      → length p.report.taken < length (start (some deadline) m p).report.taken
      → (m.now < deadline) × ((p.files ≡ 0) ⊎ (p.total ≤ (deadline - m.now) * p.files))
  taken_before deadline m p grew = elim (Bool-cases (can_start (some deadline) m.now p)) [
    | inr e ↦
        let same = start_late (some deadline) m p e in
        let none_taken = stop_takes_nothing deadline_reached p in
        absurd (omega (arith, ap (λ q. length (q.report.taken)) same, ap length none_taken))
    | inl e ↦ unfold can_start in (ground arith, ground arith)
  ]

abbrev pub sum : List ℕ → ℕ
sum [] = 0
sum (n ∷ ns) = n + sum ns

no_files : (ns : List ℕ) → length ns ≡ 0 → ns ≡ []
no_files [] h = refl
no_files (n ∷ ns) h = absurd (omega arith)

-- How long files took, and one more where a job in flight comes back with a result.
abbrev took : Bool → Ending → List ℕ → List ℕ
took true (worked ticks) before = ticks ∷ before
took true cut_off before = before
took false e before = before

-- How long each file took that came back in a pass with its result.
module _ {U : Type 0} (workers : ℕ) (deadline : Option ℕ) where
  abbrev pub ticks_of : (from p : Running U) → Passes workers deadline from p → List ℕ
  ticks_of from _ begun = []
  ticks_of from _ (started m p o h) = ticks_of from p h
  ticks_of from _ (settled i e p h) = took (any (is_at i) p.in_flight) e (ticks_of from p h)

  any_at_none :
      (i : ℕ) (flights : List (Flight U))
      → first (is_at i) flights ≡ none
      → any (is_at i) flights ≡ false
  any_at_none i [] h = refl
  any_at_none i (f ∷ flights) h = ground (arith, any_at_none i flights)

  any_at_some :
      (i : ℕ) (flights : List (Flight U)) (f : Flight U)
      → first (is_at i) flights ≡ some f
      → any (is_at i) flights ≡ true
  any_at_some i [] f h = absurd cc
  any_at_some i (g ∷ flights) f h = ground (arith, any_at_some i flights f)

  -- The pass has counted these files.
  record IsTimed (p : Running U) (ticks : List ℕ) : Type 0 where
    total : p.total ≡ sum ticks
    files : p.files ≡ length ticks

  take_next_times :
      (inline : Bool) (us : List U) (p : Running U) (ticks : List ℕ)
      → IsTimed p ticks
      → IsTimed (take_next inline us p) ticks
  unfolding take_next take_unit
  take_next_times inline [] p ticks t = record { total = t.total; files = t.files }
  take_next_times true (u ∷ us) p ticks t = record { total = t.total; files = t.files }
  take_next_times false (u ∷ us) p ticks t = record { total = t.total; files = t.files }

  stop_times :
      (why : Stop) (p : Running U) (ticks : List ℕ) → IsTimed p ticks → IsTimed (stop why p) ticks
  unfolding stop
  stop_times why p ticks t = record { total = t.total; files = t.files }

  start_times :
      (m : Moment) (p : Running U) (ticks : List ℕ)
      → IsTimed p ticks
      → IsTimed (start deadline m p) ticks
  start_times m p ticks t = elim (Bool-cases (can_start deadline m.now p)) [
    | inr e ↦ rw (start_late deadline m p e) (stop_times deadline_reached p ticks t)
    | inl e ↦ elim (Bool-cases m.asked_to_stop) [
      | inl a ↦ rw (start_asked deadline m p e a) (stop_times told_to_stop p ticks t)
      | inr a ↦ rw (start_takes deadline m p e a) (take_next_times m.inline p.units p ticks t)
    ]
  ]

  found_times :
      (i : ℕ) (flights : List (Flight U)) (found : Option (Flight U)) (e : Ending)
      → (p : Running U) (ticks : List ℕ) → first (is_at i) flights ≡ found
      → IsTimed p ticks
      → IsTimed (settle_found found e p) (took (any (is_at i) flights) e ticks)
  unfolding settle_found settle_flight
  found_times i flights none e p ticks h t = rw (any_at_none i flights h) t
  found_times i flights (some f) (worked n) p ticks h t =
      let total = t.total in
      let files = t.files in
      rw (any_at_some i flights f h) (record { total = omega arith; files = omega arith })
  found_times i flights (some f) cut_off p ticks h t =
      rw (any_at_some i flights f h) (record { total = t.total; files = t.files })

  settle_times :
      (i : ℕ) (e : Ending) (p : Running U) (ticks : List ℕ)
      → IsTimed p ticks
      → IsTimed (settle i e p) (took (any (is_at i) p.in_flight) e ticks)
  unfolding settle
  settle_times i e p ticks t = found_times i p.in_flight _ e p ticks refl t

  begin_times : (units : List U) → IsTimed (begin units) []
  unfolding begin
  begin_times units = record { total = refl; files = refl }

  Passes-IsTimed :
      (units : List U) (p : Running U) (h : Passes workers deadline (begin units) p)
      → IsTimed p (ticks_of (begin units) p h)
  Passes-IsTimed units _ begun = begin_times units
  Passes-IsTimed units _ (started m p o h) = start_times m p _ (Passes-IsTimed units p h)
  Passes-IsTimed units _ (settled i e p h) = settle_times i e p _ (Passes-IsTimed units p h)

-- Under a deadline, a pass takes a unit only before it, and only when no file of the pass has come
-- back with a result, or the time left is at least the average that those files took.
pub start_in_time :
    {U : Type 0} (workers deadline : ℕ) (units : List U) (m : Moment) (p : Running U)
    → (h : Passes workers (some deadline) (begin units) p)
    → length p.report.taken < length (start (some deadline) m p).report.taken
    → let ticks = ticks_of workers (some deadline) (begin units) p h in
      (m.now < deadline) × ((ticks ≡ []) ⊎ (sum ticks ≤ (deadline - m.now) * length ticks))
start_in_time workers deadline units m p h grew =
    let t = Passes-IsTimed workers (some deadline) units p h in
    let (early, few) = taken_before deadline m p grew in
    (
      early,
      elim few [
        | inl none_yet ↦ inl (no_files _ (sym t.files ∙ none_yet))
        | inr fits ↦ inr (rw (t.total, t.files) at fits)
      ],
    )
