-- ===== src/Parallel/Pass/Tally.antt =====
-- What holds at every moment of a pass: the units are taken in order, each is finished once,
-- cancelled once or in flight once, and no thread is without a place.
use lumae_plugin.Prelude.{
  ℕ, ◌+◌, ◌≤◌, ◌<◌, ◌≡◌, refl, ap, ◌∙◌, Bool, true, false, inl, inr, Option, none, some, List, [],
  ◌∷◌, ◌++◌, arith, nat_eq, ltb, first, length, length-append, Bool-cases,
}
use lumae_plugin.Parallel.Pass.{
  Flight, Running, Moment, Ending, worked, cut_off, Stop, begin, is_open, start, stop, take_next,
  take_unit, can_start, settle, settle_flight, settle_found, is_at, Passes, begun, started, settled,
}
use lumae_plugin.Parallel.Pass.Counts.{
  one_if, count, jobs_of, jobs_of-append, jobs_of-remove, length-remove,
}

module _ {U : Type 0} where
  pub append_one : (xs : List U) (u : U) (ys : List U) → (xs ++ u ∷ []) ++ ys ≡ xs ++ u ∷ ys
  append_one [] u ys = refl
  append_one (x ∷ xs) u ys = ap (λ r. x ∷ r) (append_one xs u ys)

  pub record IsSound (workers : ℕ) (units : List U) (p : Running U) : Type 0 where
    pub in_order : p.report.taken ++ p.units ≡ units
    pub placed : length p.in_flight ≤ workers
    pub tallied :
        (i : ℕ)
        → count i p.report.finished + jobs_of i p.report.cancelled + jobs_of i p.in_flight
          ≡ one_if (ltb i (length p.report.taken))
    pub called_once :
        (i : ℕ) → count i p.calls ≤ count i p.report.finished + jobs_of i p.report.cancelled
    pub spent : p.exhausted ≡ true → p.units ≡ []

module _ {U : Type 0} (workers : ℕ) (units : List U) where
  pub is_open_exhausted : (p : Running U) → is_open workers p ≡ true → p.exhausted ≡ false
  unfolding is_open
  is_open_exhausted p o = ground arith

  is_open_place : (p : Running U) → is_open workers p ≡ true → length p.in_flight < workers
  unfolding is_open
  is_open_place p o = ground arith

  begin-IsSound : IsSound workers units (begin units)
  unfolding begin
  begin-IsSound = record {
    in_order = refl;
    placed = omega arith;
    tallied = λ i. ground arith;
    called_once = λ i. omega arith;
    spent = λ h. absurd cc;
  }

  stop-IsSound :
      (why : Stop) (p : Running U) → IsSound workers units p → IsSound workers units (stop why p)
  unfolding stop
  stop-IsSound why p s = record {
    in_order = s.in_order;
    placed = s.placed;
    tallied = s.tallied;
    called_once = s.called_once;
    spent = s.spent;
  }

  one_more :
      (i : ℕ) (u : U) (taken : List U)
      → one_if (ltb i (length (taken ++ u ∷ [])))
        ≡ one_if (ltb i (length taken)) + one_if (nat_eq (length taken) i)
  one_more i u taken = rw (length-append taken (u ∷ [])) (ground arith)

  take_unit-IsSound :
      (inline : Bool) (u : U) (us : List U) (p : Running U)
      → p.units ≡ u ∷ us
      → p.exhausted ≡ false
      → length p.in_flight < workers
      → IsSound workers units p
      → IsSound workers units (take_unit inline u us p)
  unfolding take_unit
  take_unit-IsSound true u us p e x l s = record {
    in_order = append_one p.report.taken u us ∙ (rw e at s.in_order);
    placed = s.placed;
    tallied = λ i. let t = s.tallied i in omega (arith, one_more i u p.report.taken);
    called_once = λ i. let c = s.called_once i in omega arith;
    spent = λ h. absurd cc;
  }
  take_unit-IsSound false u us p e x l s = record {
    in_order = append_one p.report.taken u us ∙ (rw e at s.in_order);
    placed = omega arith;
    tallied = λ i. let t = s.tallied i in omega (arith, one_more i u p.report.taken);
    called_once = s.called_once;
    spent = λ h. absurd cc;
  }

  pub settle_flight-IsSound :
      (j : ℕ) (f : Flight U) (e : Ending) (p : Running U)
      → first (is_at j) p.in_flight ≡ some f
      → IsSound workers units p
      → IsSound workers units (settle_flight f e p)
  unfolding settle_flight
  settle_flight-IsSound j f (worked ticks) p h s = record {
    in_order = s.in_order;
    placed = let b = s.placed in omega (arith, length-remove f.index p.in_flight);
    tallied = λ i. let t = s.tallied i in omega (arith, jobs_of-remove i j p.in_flight f h);
    called_once = λ i. let c = s.called_once i in omega arith;
    spent = s.spent;
  }
  settle_flight-IsSound j f cut_off p h s = record {
    in_order = s.in_order;
    placed = let b = s.placed in omega (arith, length-remove f.index p.in_flight);
    tallied = λ i.
        let t = s.tallied i in
        omega
          (arith, jobs_of-remove i j p.in_flight f h, jobs_of-append i p.report.cancelled (f ∷ []));
    called_once =
        λ i. let c = s.called_once i in omega (arith, jobs_of-append i p.report.cancelled (f ∷ []));
    spent = s.spent;
  }

  take_next-IsSound :
      (inline : Bool) (us : List U) (p : Running U)
      → p.units ≡ us
      → p.exhausted ≡ false
      → length p.in_flight < workers
      → IsSound workers units p
      → IsSound workers units (take_next inline us p)
  unfolding take_next
  take_next-IsSound inline [] p e x l s = record {
    in_order = s.in_order;
    placed = s.placed;
    tallied = s.tallied;
    called_once = s.called_once;
    spent = λ h. e;
  }
  take_next-IsSound inline (u ∷ us) p e x l s = take_unit-IsSound inline u us p e x l s

  start-IsSound :
      (deadline : Option ℕ) (m : Moment) (p : Running U)
      → is_open workers p ≡ true
      → IsSound workers units p
      → IsSound workers units (start deadline m p)
  start-IsSound deadline m p o s = elim (Bool-cases (can_start deadline m.now p)) [
    | inr e ↦ unfold start in rw e (stop-IsSound _ p s)
    | inl e ↦ elim (Bool-cases m.asked_to_stop) [
      | inl a ↦ unfold start in rw e (rw a (stop-IsSound _ p s))
      | inr a ↦
          unfold start in
          rw e (
            rw a (
              take_next-IsSound m.inline p.units p refl (is_open_exhausted p o) (is_open_place p o)
                s))
    ]
  ]

  settle_found-IsSound :
      (j : ℕ) (found : Option (Flight U)) (e : Ending) (p : Running U)
      → first (is_at j) p.in_flight ≡ found
      → IsSound workers units p
      → IsSound workers units (settle_found found e p)
  unfolding settle_found
  settle_found-IsSound j none e p h s = s
  settle_found-IsSound j (some f) e p h s = settle_flight-IsSound j f e p h s

  pub settle-IsSound :
      (i : ℕ) (e : Ending) (p : Running U)
      → IsSound workers units p
      → IsSound workers units (settle i e p)
  unfolding settle
  settle-IsSound i e p s = settle_found-IsSound i _ e p refl s

  -- Whatever the clock, the callbacks and the threads do, at every moment of a pass the units taken
  -- and the units left are all units in order; there are no more jobs in flight than workers; every
  -- index taken is exactly once done, cancelled or in flight, and no other index is; `finish` was
  -- called at most once for each, and for none in flight; and the units are found exhausted only
  -- when none is left.
  pub Passes-IsSound :
      (deadline : Option ℕ) (p : Running U)
      → Passes workers deadline (begin units) p
      → IsSound workers units p
  Passes-IsSound deadline _ begun = begin-IsSound
  Passes-IsSound deadline _ (started m p o h) =
      start-IsSound deadline m p o (Passes-IsSound deadline p h)
  Passes-IsSound deadline _ (settled i e p h) = settle-IsSound i e p (Passes-IsSound deadline p h)
