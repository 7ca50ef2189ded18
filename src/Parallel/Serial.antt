-- ===== src/Parallel/Serial.antt =====
-- The pass of one file at a time (`run` of plugins/LumaeAnalysis/parallel_analysis.py with no pool or
-- a pool of one worker): the work runs on the calling thread, so each unit is done before the next.
use lumae_plugin.Prelude.{
  ℕ, ◌<◌, ◌≡◌, refl, ◌∙◌, Bool, true, false, inl, inr, Option, none, some, List, [], ◌∷◌, ◌++◌,
  arith, leb, nat_eq, if◌then◌else◌, length, length-append, Bool-cases,
}
use lumae_plugin.Parallel.Pass.{
  Report, Moment, Stop, deadline_reached, told_to_stop, is_done, reached,
}
use lumae_plugin.Parallel.Pass.Reached.{last_or, reached_last}
use lumae_plugin.Parallel.Pass.Tally.{append_one}

unfoldable pub is_late : Option ℕ → ℕ → Bool
is_late none now = false
is_late (some deadline) now = leb deadline now

module _ {U : Type 0} where
  unfoldable pub do_unit : U → Report U → Report U
  do_unit u r = record r { taken = r.taken ++ u ∷ []; finished = length r.taken ∷ r.finished }

  -- `moments i` is what surrounds the unit of index `i`.
  unfoldable pub serial : Option ℕ → (ℕ → Moment) → List U → Report U → Report U
  unfolding is_late do_unit
  serial deadline moments [] r = r
  serial deadline moments (u ∷ us) r =
      let m = moments (length r.taken) in
      let rest = serial deadline moments us (do_unit u r) in
      if is_late deadline m.now
      then record r { stopped = some deadline_reached }
      else if m.asked_to_stop
      then record r { stopped = some told_to_stop }
      else rest

  abbrev pub empty_report : Report U
  empty_report = record { taken = []; finished = []; cancelled = []; stopped = none }

  -- What a serial pass that went on from `before` over `us` reports.
  pub record IsSerial (before : Report U) (us : List U) (r : Report U) : Type 0 where
    pub all_done : (i : ℕ) → i < length r.taken → is_done r.finished i ≡ true
    pub none_cancelled : r.cancelled ≡ before.cancelled
    pub left : List U
    pub in_order : r.taken ++ left ≡ before.taken ++ us
    pub not_stopped : r.stopped ≡ none → left ≡ []

  stopped-IsSerial :
      (why : Stop) (us : List U) (r : Report U)
      → ((i : ℕ) → i < length r.taken → is_done r.finished i ≡ true)
      → IsSerial r us (record r { stopped = some why })
  stopped-IsSerial why us r d = record {
    all_done = d;
    none_cancelled = refl;
    left = us;
    in_order = refl;
    not_stopped = λ h. absurd cc;
  }

  do_unit_done :
      (u : U) (r : Report U)
      → ((i : ℕ) → i < length r.taken → is_done r.finished i ≡ true)
      → (i : ℕ) → i < length (do_unit u r).taken
      → is_done (do_unit u r).finished i ≡ true
  unfolding do_unit
  do_unit_done u r d i l =
      let more = length-append r.taken (u ∷ []) in
      elim (Bool-cases (nat_eq (length r.taken) i)) [
        | inl e ↦ rw e refl
        | inr e ↦ rw e (d i (ground arith))
      ]

  after_unit :
      (u : U) (us : List U) (before r : Report U)
      → IsSerial (do_unit u before) us r
      → IsSerial before (u ∷ us) r
  unfolding do_unit
  after_unit u us before r s = record {
    all_done = s.all_done;
    none_cancelled = s.none_cancelled;
    left = s.left;
    in_order = s.in_order ∙ append_one before.taken u us;
    not_stopped = s.not_stopped;
  }

  pub serial-IsSerial :
      (deadline : Option ℕ) (moments : ℕ → Moment) (us : List U) (r : Report U)
      → ((i : ℕ) → i < length r.taken → is_done r.finished i ≡ true)
      → IsSerial r us (serial deadline moments us r)
  unfolding serial
  serial-IsSerial deadline moments [] r d = record {
    all_done = d;
    none_cancelled = refl;
    left = [];
    in_order = refl;
    not_stopped = λ h. refl;
  }
  serial-IsSerial deadline moments (u ∷ us) r d =
      let rest = serial-IsSerial deadline moments us (do_unit u r) (do_unit_done u r d) in
      elim (Bool-cases (is_late deadline (moments (length r.taken)).now)) [
        | inl e ↦ rw e (stopped-IsSerial deadline_reached (u ∷ us) r d)
        | inr e ↦ elim (Bool-cases (moments (length r.taken)).asked_to_stop) [
          | inl a ↦ rw e (rw a (stopped-IsSerial told_to_stop (u ∷ us) r d))
          | inr a ↦ rw e (rw a (after_unit u us r _ rest))
        ]
      ]

  -- A serial pass takes the units in order, each one done before the next is taken and none
  -- cancelled, so `reached` is the last unit taken; one that was not stopped takes them all.
  pub serial_complete :
      (deadline : Option ℕ) (moments : ℕ → Moment) (units : List U)
      → IsSerial empty_report units (serial deadline moments units empty_report)
        × (reached (serial deadline moments units empty_report)
            ≡ last_or none (serial deadline moments units empty_report).taken)
  serial_complete deadline moments units =
      let s = serial-IsSerial deadline moments units empty_report (λ i l. absurd (omega arith)) in
      (s, reached_last _ s.all_done)
