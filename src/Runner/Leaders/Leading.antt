-- ===== src/Runner/Leaders/Leading.antt =====
-- One leader at a time, in plugins/LumaeAnalysis/runner.py.
use lumae_plugin.Prelude.{
  ℕ, ◌≡◌, refl, sym, ap, ◌∙◌, inl, inr, Bool, true, false, Option, none, some, nat_eq, nat_eq_iff,
  Bool-cases,
}
use lumae_plugin.Runner.{Runner}
use lumae_plugin.Runner.Quiet.{IsQuiet, turn-IsQuiet, start-IsQuiet, wake-IsQuiet, stop-IsQuiet}
use lumae_plugin.Runner.Leaders.{
  World, update, without, released_lock, release, lead_with, lead, change, Reached, at_first,
  started, led, turned, stopped, woke, released,
}

-- The lock is held by exactly the process whose runner leads, over its connection.
pub record IsExclusive (w : World) : Type 0 where
  pub holds : (p : ℕ) → (w.runners p).leading ≡ true → w.holder ≡ some p
  pub leads :
      (p : ℕ)
      → w.holder ≡ some p
      → ((w.runners p).leading ≡ true) × ((w.runners p).connected ≡ true)

same_of : (q p : ℕ) → nat_eq q p ≡ true → q ≡ p
same_of q p e = (nat_eq_iff q p).0 e

change-IsExclusive :
    (p : ℕ) (f : Runner → Runner) (w : World)
    → IsQuiet f
    → IsExclusive w
    → IsExclusive (change p f w)
unfolding change update
change-IsExclusive p f w quiet inv = record {
  holds = λ q h. elim (Bool-cases (nat_eq q p)) [
    | inl e ↦
        let here = rw e at h in
        rw (same_of q p e) (inv.holds p (sym (quiet.leading (w.runners p)) ∙ here))
    | inr e ↦ inv.holds q (rw e at h)
  ];
  leads = λ q h. elim (Bool-cases (nat_eq q p)) [
    | inl e ↦
        let (leading, connected) = inv.leads p (h ∙ ap (λ z. some z) (same_of q p e)) in
        rw e (quiet.leading (w.runners p) ∙ leading, quiet.connected (w.runners p) ∙ connected)
    | inr e ↦ rw e (inv.leads q h)
  ];
}

released_keeps :
    (connected : Bool) (p q : ℕ) → nat_eq q p ≡ false → released_lock connected p (some q) ≡ some q
unfolding released_lock without
released_keeps true p q e = rw e refl
released_keeps false p q e = refl

released_inv :
    (connected : Bool) (p q : ℕ) (holder : Option ℕ)
    → released_lock connected p holder ≡ some q
    → (holder ≡ some q) × (connected ≡ true → nat_eq q p ≡ false)
unfolding released_lock without
released_inv false p q holder h = (h, λ u. absurd cc)
released_inv true p q none h = absurd cc
released_inv true p q (some k) h = elim (Bool-cases (nat_eq k p)) [
  | inl e ↦ (let no = rw e at h in absurd cc)
  | inr e ↦
      let read : some k ≡ some q = rw e at h in
      let same : k ≡ q = cc in (read, λ u. rw (sym same) e)
]

release-IsExclusive : (p : ℕ) (w : World) → IsExclusive w → IsExclusive (release p w)
unfolding release update
release-IsExclusive p w inv = record {
  holds = λ q h. elim (Bool-cases (nat_eq q p)) [
    | inl e ↦ (let no = rw e at h in absurd cc)
    | inr e ↦ rw (inv.holds q (rw e at h)) (released_keeps (w.runners p).connected p q e)
  ];
  leads = λ q h.
      (let (held, apart) = released_inv (w.runners p).connected p q w.holder h in
        elim (Bool-cases (nat_eq q p)) [
          | inl e ↦
              let (leading, connected) = inv.leads p (held ∙ ap (λ z. some z) (same_of q p e)) in
              let no = apart connected in absurd cc
          | inr e ↦ rw e (inv.leads q held)
        ]);
}

lead_with-IsExclusive :
    (p : ℕ) (o : Option ℕ) (w : World)
    → w.holder ≡ o
    → (w.runners p).connected ≡ false
    → IsExclusive w
    → IsExclusive (lead_with p o w)
unfolding lead_with update
lead_with-IsExclusive p none w free apart inv = record {
  holds = λ q h. elim (Bool-cases (nat_eq q p)) [
    | inl e ↦ ap (λ z. some z) (sym (same_of q p e))
    | inr e ↦ (let held = inv.holds q (rw e at h) in let no = sym free ∙ held in absurd cc)
  ];
  leads =
      λ q h. (let same : p ≡ q = cc in let e = (nat_eq_iff q p).1 (sym same) in rw e (refl, refl));
}
lead_with-IsExclusive p (some k) w taken apart inv = record {
  holds = λ q h. elim (Bool-cases (nat_eq q p)) [
    | inl e ↦ (let no = rw e at h in absurd cc)
    | inr e ↦ inv.holds q (rw e at h)
  ];
  leads = λ q h. elim (Bool-cases (nat_eq q p)) [
    | inl e ↦
        let (leading, connected) = inv.leads p (h ∙ ap (λ z. some z) (same_of q p e)) in absurd cc
    | inr e ↦ rw e (inv.leads q h)
  ];
}

Reached-IsExclusive : (w : World) → Reached w → IsExclusive w
unfolding lead
Reached-IsExclusive _ at_first = record { holds = λ p h. absurd cc; leads = λ p h. absurd cc }
Reached-IsExclusive _ (started p alive w h) =
    change-IsExclusive p _ w (start-IsQuiet alive) (Reached-IsExclusive w h)
Reached-IsExclusive _ (led p w apart h) =
    lead_with-IsExclusive p w.holder w refl apart (Reached-IsExclusive w h)
Reached-IsExclusive _ (turned p reports t w h) =
    change-IsExclusive p _ w (turn-IsQuiet reports t) (Reached-IsExclusive w h)
Reached-IsExclusive _ (stopped p w h) =
    change-IsExclusive p _ w stop-IsQuiet (Reached-IsExclusive w h)
Reached-IsExclusive _ (woke p own w h) =
    change-IsExclusive p _ w (wake-IsQuiet own) (Reached-IsExclusive w h)
Reached-IsExclusive _ (released p w h) = release-IsExclusive p w (Reached-IsExclusive w h)

lead_with-free :
    (q : ℕ) (o : Option ℕ) (w : World) → o ≡ none → ((lead_with q o w).runners q).leading ≡ true
unfolding lead_with update
lead_with-free q none w e = rw ((nat_eq_iff q q).1 refl) refl
lead_with-free q (some k) w e = absurd cc

lead-free : (q : ℕ) (w : World) → w.holder ≡ none → ((lead q w).runners q).leading ≡ true
unfolding lead
lead-free q w e = lead_with-free q w.holder w e

released_own : (p : ℕ) → released_lock true p (some p) ≡ none
unfolding released_lock without
released_own p = rw ((nat_eq_iff p p).1 refl) refl

release-free :
    (p : ℕ) (w : World) → IsExclusive w → (w.runners p).leading ≡ true → (release p w).holder ≡ none
unfolding release
release-free p w inv a =
    let held = inv.holds p a in
    let (leading, connected) = inv.leads p held in rw (held, connected) (released_own p)

-- In whatever the processes reach, at most one of them leads, and when one that leads releases, a
-- process without a connection that tries next leads.
pub one_leader :
    (w : World)
    → Reached w
    → ((p q : ℕ) → (w.runners p).leading ≡ true → (w.runners q).leading ≡ true → p ≡ q)
      × ((p q : ℕ)
          → (w.runners p).leading ≡ true
          → ((release p w).runners q).connected ≡ false
          → ((lead q (release p w)).runners q).leading ≡ true)
one_leader w h =
    let inv = Reached-IsExclusive w h in
    (
      λ p q a b. (let first = inv.holds p a in let second = inv.holds q b in cc),
      λ p q a b. lead-free q (release p w) (release-free p w inv a),
    )
