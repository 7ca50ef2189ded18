-- ===== src/Parallel/Pass/Reached.antt =====
-- How far a pass got, and that a pass that nothing cut off finished all it took.
use lumae_plugin.Prelude.{
  ℕ, zero, suc, ◌+◌, ◌≤◌, ◌<◌, ◌≡◌, refl, ap, sym, ◌∙◌, true, false, inl, inr, ◌⊎◌, Option, none,
  some, List, [], ◌∷◌, ◌++◌, arith, length, Bool-cases,
}
use lumae_plugin.Parallel.Pass.{
  Running, Report, begin, is_open, is_running, is_done, reached, reached_from, Passes,
}
use lumae_plugin.Parallel.Pass.Counts.{count}
use lumae_plugin.Parallel.Pass.Tally.{IsSound, Passes-IsSound}

index_here : (n : ℕ) → n ≡ n + 0
index_here n = omega arith

index_next : (n j : ℕ) → n + suc j ≡ suc n + j
index_next n j = omega arith

done_next :
    (js : List ℕ) (index k : ℕ)
    → is_done js index ≡ true
    → ((j : ℕ) → j ≤ k → is_done js (suc index + j) ≡ true)
    → (j : ℕ) → j ≤ suc k
    → is_done js (index + j) ≡ true
done_next js index k d f zero l = ap (is_done js) (sym (index_here index)) ∙ d
done_next js index k d f (suc j) l = ap (is_done js) (index_next index j) ∙ f j (omega arith)

done_counted : (js : List ℕ) (i : ℕ) → is_done js i ≡ false → count i js ≡ 0
done_counted [] i h = refl
done_counted (j ∷ js) i h = let rest = done_counted js i in ground arith

module _ {U : Type 0} where
  abbrev pub item : ℕ → List U → Option U
  item k [] = none
  item zero (u ∷ us) = some u
  item (suc k) (u ∷ us) = item k us

  abbrev pub last_or : Option U → List U → Option U
  last_or last [] = last
  last_or last (u ∷ us) = last_or (some u) us

  some_injective : {a b : U} → some a ≡ some b → a ≡ b
  some_injective h = cc

  -- The finished units from position `index` on reach just to the one at position `k` of `us`.
  pub record IsFrontier (js : List ℕ) (index : ℕ) (us : List U) (k : ℕ) (u : U) : Type 0 where
    pub here : item k us ≡ some u
    pub all_done : (j : ℕ) → j ≤ k → is_done js (index + j) ≡ true
    pub no_further : (item (suc k) us ≡ none) ⊎ (is_done js (index + suc k) ≡ false)

  IsFrontier-next :
      (js : List ℕ) (index : ℕ) (v : U) (us : List U) (k : ℕ) (u : U)
      → is_done js index ≡ true
      → IsFrontier js (suc index) us k u
      → IsFrontier js index (v ∷ us) (suc k) u
  IsFrontier-next js index v us k u d f = record {
    here = f.here;
    all_done = done_next js index k d f.all_done;
    no_further = elim f.no_further [
      | inl e ↦ inl e
      | inr e ↦ inr (ap (is_done js) (index_next index (suc k)) ∙ e)
    ];
  }

  IsFrontier-here :
      (js : List ℕ) (index : ℕ) (v : U) (us : List U) (u : U)
      → is_done js index ≡ true
      → v ≡ u
      → (us ≡ []) ⊎ (is_done js (suc index) ≡ false)
      → IsFrontier js index (v ∷ us) 0 u
  IsFrontier-here js index v us u d e n = record {
    here = ap some e;
    all_done = λ j l. (let same : index + j ≡ index = omega arith in ap (is_done js) same ∙ d);
    no_further = elim n [
      | inl none_left ↦ inl (rw none_left refl)
      | inr e ↦ (let same : index + 1 ≡ suc index = omega arith in inr (ap (is_done js) same ∙ e))
    ];
  }

  reached_from-IsFrontier :
      (index : ℕ) (last : Option U) (us : List U) (js : List ℕ) (u : U)
      → reached_from index last us js ≡ some u
      → ((last ≡ some u) × ((us ≡ []) ⊎ (is_done js index ≡ false)))
        ⊎ ((k : ℕ) × IsFrontier js index us k u)
  unfolding reached_from
  reached_from-IsFrontier index last [] js u h = inl (h, inl refl)
  reached_from-IsFrontier index last (v ∷ us) js u h = elim (Bool-cases (is_done js index)) [
    | inr e ↦ inl ((rw e at h), inr e)
    | inl e ↦ elim (reached_from-IsFrontier (suc index) (some v) us js u (rw e at h)) [
      | inl r ↦ inr (0, IsFrontier-here js index v us u e (some_injective r.0) r.1)
      | inr r ↦ inr (suc r.0, IsFrontier-next js index v us r.0 u e r.1)
    ]
  ]

  -- `reached` gives a unit that was taken, all the units before it and itself are done, and the unit
  -- taken next, if there is one, is not: a cursor kept there skips no unit that is not done.
  pub reached-IsFrontier :
      (r : Report U) (u : U) → reached r ≡ some u → (k : ℕ) × IsFrontier r.finished 0 r.taken k u
  unfolding reached
  reached-IsFrontier r u h = elim (reached_from-IsFrontier 0 none r.taken r.finished u h) [
    | inl e ↦ absurd (let no = e.0 in cc)
    | inr found ↦ found
  ]

  reached_from_all :
      (index : ℕ) (last : Option U) (us : List U) (js : List ℕ)
      → ((j : ℕ) → j < length us → is_done js (index + j) ≡ true)
      → reached_from index last us js ≡ last_or last us
  unfolding reached_from
  reached_from_all index last [] js h = refl
  reached_from_all index last (u ∷ us) js h =
      let here = ap (is_done js) (index_here index) ∙ h 0 (omega arith) in
      rw here (
        reached_from_all (suc index) (some u) us js
          (λ j l. ap (is_done js) (sym (index_next index j)) ∙ h (suc j) (omega arith)))

module _ {U : Type 0} where
  pub reached_last :
      (r : Report U)
      → ((i : ℕ) → i < length r.taken → is_done r.finished i ≡ true)
      → reached r ≡ last_or none r.taken
  unfolding reached
  reached_last r done =
      reached_from_all 0 none r.taken r.finished
        (λ j l. (let same : 0 + j ≡ j = omega arith in ap (is_done r.finished) same ∙ done j l))

  pub append_nil : (xs : List U) → xs ++ [] ≡ xs
  append_nil [] = refl
  append_nil (x ∷ xs) = ap (λ r. x ∷ r) (append_nil xs)

  -- With nothing in flight and nothing cancelled, each index taken is done.
  each_done :
      (workers : ℕ) (units : List U) (p : Running U)
      → IsSound workers units p
      → p.in_flight ≡ []
      → p.report.cancelled ≡ []
      → (i : ℕ) → i < length p.report.taken
      → is_done p.report.finished i ≡ true
  each_done workers units p sound idle uncut i l = elim (Bool-cases (is_done p.report.finished i)) [
    | inl e ↦ e
    | inr e ↦
        let t = rw idle at (rw uncut at sound.tallied i) in
        let c = done_counted p.report.finished i e in absurd (ground arith)
  ]

  ran_out :
      (workers : ℕ) (p : Running U)
      → 0 < workers
      → is_open workers p ≡ false
      → p.in_flight ≡ []
      → p.report.stopped ≡ none
      → p.exhausted ≡ true
  unfolding is_open is_running
  ran_out workers p w closed idle running =
      let c = rw idle at (rw running at closed) in ground arith

  -- A pass that ends, its loop closed and nothing in flight, with nothing cancelled: every unit that
  -- it took is done, `reached` is the last of them, and if it was not stopped they are all the units.
  pub Passes-complete :
      (workers : ℕ) (deadline : Option ℕ) (units : List U) (p : Running U)
      → 0 < workers
      → Passes workers deadline (begin units) p
      → is_open workers p ≡ false
      → p.in_flight ≡ []
      → p.report.cancelled ≡ []
      → ((i : ℕ) → i < length p.report.taken → is_done p.report.finished i ≡ true)
        × (reached p.report ≡ last_or none p.report.taken)
        × (p.report.stopped ≡ none → p.report.taken ≡ units)
  Passes-complete workers deadline units p w h closed idle uncut =
      let sound = Passes-IsSound workers units deadline p h in
      let done = each_done workers units p sound idle uncut in
      (
        done,
        reached_last p.report done,
        λ running.
            let none_left = sound.spent (ran_out workers p w closed idle running) in
            sym (append_nil p.report.taken) ∙ (rw none_left at sound.in_order),
      )
