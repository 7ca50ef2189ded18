-- ===== src/Parallel/Pass/Stopping.antt =====
-- The taking loop of a pass ends, and a stopped pass takes nothing more.
use lumae_plugin.Prelude.{
  ℕ, ◌<◌, ◌≡◌, refl, ◌∙◌, Bool, true, false, inl, inr, Option, none, some, List, [], ◌∷◌, arith,
  length, Bool-cases,
}
use lumae_plugin.Parallel.Pass.{
  Flight, Running, Moment, Ending, worked, cut_off, Stop, deadline_reached, told_to_stop, is_open,
  start, stop, take_next, take_unit, can_start, settle, settle_flight, settle_found, Passes, begun,
  started, settled,
}
use lumae_plugin.Parallel.Pass.Taking.{start_late, start_asked, start_takes}

module _ {U : Type 0} (workers : ℕ) where
  take_next_fewer :
      (inline : Bool) (us : List U) (p : Running U)
      → is_open workers (take_next inline us p) ≡ true
      → length (take_next inline us p).units < length us
  unfolding take_next take_unit is_open
  take_next_fewer inline [] p o = ground arith
  take_next_fewer true (u ∷ us) p o = omega arith
  take_next_fewer false (u ∷ us) p o = omega arith

  stop_closes : (why : Stop) (p : Running U) → is_open workers (stop why p) ≡ false
  unfolding stop is_open
  stop_closes why p = ground arith

  -- The taking loop ends: each turn closes it, or leaves fewer units.
  pub start_fewer :
      (deadline : Option ℕ) (m : Moment) (p : Running U)
      → is_open workers (start deadline m p) ≡ true
      → length (start deadline m p).units < length p.units
  start_fewer deadline m p o = elim (Bool-cases (can_start deadline m.now p)) [
    | inr e ↦
        let closed = stop_closes deadline_reached p in
        let same = start_late deadline m p e in absurd cc
    | inl e ↦ elim (Bool-cases m.asked_to_stop) [
      | inl a ↦
          let closed = stop_closes told_to_stop p in
          let same = start_asked deadline m p e a in absurd cc
      | inr a ↦
          let same = start_takes deadline m p e a in
          rw same (take_next_fewer m.inline p.units p (rw same at o))
    ]
  ]

  settle_found_keeps :
      (found : Option (Flight U)) (e : Ending) (p : Running U)
      → ((settle_found found e p).report.taken ≡ p.report.taken)
        × ((settle_found found e p).report.stopped ≡ p.report.stopped)
  unfolding settle_found settle_flight
  settle_found_keeps none e p = (refl, refl)
  settle_found_keeps (some f) (worked ticks) p = (refl, refl)
  settle_found_keeps (some f) cut_off p = (refl, refl)

  settle_keeps :
      (i : ℕ) (e : Ending) (p : Running U)
      → ((settle i e p).report.taken ≡ p.report.taken)
        × ((settle i e p).report.stopped ≡ p.report.stopped)
  unfolding settle
  settle_keeps i e p = settle_found_keeps _ e p

  stopped_closes :
      (p : Running U) (why : Stop) → p.report.stopped ≡ some why → is_open workers p ≡ false
  unfolding is_open
  stopped_closes p why h = rw h (ground arith)

  -- From the moment a pass is stopped, by its deadline or by `between`, it takes no unit, whatever
  -- comes back from the threads, and it stays stopped for the same reason.
  pub stopped_takes_nothing :
      (deadline : Option ℕ) (from p : Running U) (why : Stop)
      → from.report.stopped ≡ some why
      → Passes workers deadline from p
      → (p.report.taken ≡ from.report.taken) × (p.report.stopped ≡ some why)
  stopped_takes_nothing deadline from _ why h begun = (refl, h)
  stopped_takes_nothing deadline from _ why h (started m p o ps) =
      let rest = stopped_takes_nothing deadline from p why h ps in
      let closed = stopped_closes p why rest.1 in absurd cc
  stopped_takes_nothing deadline from _ why h (settled i e p ps) =
      let rest = stopped_takes_nothing deadline from p why h ps in
      let same = settle_keeps i e p in (same.0 ∙ rest.0, same.1 ∙ rest.1)
