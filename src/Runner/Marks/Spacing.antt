-- ===== src/Runner/Marks/Spacing.antt =====
-- When `claim_mark` of plugins/LumaeAnalysis/runner.py grants a claim.
use lumae_plugin.Prelude.{
  ℕ, ◌+◌, ◌≤◌, ◌≡◌, refl, sym, inl, inr, true, String, some, List, [], ◌∷◌, ◌==◌, eq_iff, All, leb,
  Bool-cases, arith,
}
use lumae_plugin.Runner.Marks.{Marks, Claim, done_at, renew, claim_mark, claim_all}

-- A mark that a claim renews, read back.
renew_reads :
    (c : Claim) (row : String × ℕ) (rows : Marks)
    → row.0 == c.name ≡ true
    → (renew c row rows).0 ≡ true
    → (row.1 + c.every ≤ c.now) × (done_at c.name (renew c row rows).1 ≡ some c.now)
unfolding renew done_at
renew_reads c row rows e h = elim (Bool-cases (leb (row.1 + c.every) c.now)) [
  | inl f ↦ (ground arith, rw (f, e) refl)
  | inr f ↦ (let no = rw f at h in absurd cc)
]

claim_mark-done_at :
    (c : Claim) (marks : Marks)
    → (claim_mark c marks).0 ≡ true
    → done_at c.name (claim_mark c marks).1 ≡ some c.now
unfolding claim_mark done_at
claim_mark-done_at c [] h = rw ((eq_iff c.name c.name).1 refl) refl
claim_mark-done_at c (row ∷ rows) h = elim (Bool-cases (row.0 == c.name)) [
  | inl e ↦ rw e (renew_reads c row rows e (rw e at h)).1
  | inr e ↦ rw (e, e) (claim_mark-done_at c rows (rw e at h))
]

-- A claim of a mark that is done is granted once its period is over.
claim_mark_waits :
    (c : Claim) (marks : Marks) (t : ℕ)
    → (claim_mark c marks).0 ≡ true
    → done_at c.name marks ≡ some t
    → t + c.every ≤ c.now
unfolding claim_mark done_at
claim_mark_waits c [] t h d = absurd cc
claim_mark_waits c (row ∷ rows) t h d = elim (Bool-cases (row.0 == c.name)) [
  | inl e ↦
      let read : some row.1 ≡ some t = rw e at d in
      let same : row.1 ≡ t = cc in rw (sym same) (renew_reads c row rows e (rw e at h)).0
  | inr e ↦ claim_mark_waits c rows t (rw e at h) (rw e at d)
]

renew_keeps :
    (c : Claim) (name : String) (row : String × ℕ) (rows : Marks) (from t : ℕ)
    → from ≤ c.now
    → from ≤ t
    → done_at name (row ∷ rows) ≡ some t
    → (t' : ℕ) × ((done_at name (renew c row rows).1 ≡ some t') × (from ≤ t'))
unfolding renew done_at
renew_keeps c name row rows from t p q d = elim (Bool-cases (leb (row.1 + c.every) c.now)) [
  | inr f ↦ rw f (t, (d, q))
  | inl f ↦ elim (Bool-cases (row.0 == name)) [
    | inl g ↦ rw f (c.now, (rw g refl, p))
    | inr g ↦ rw f (t, (rw g (rw g at d), q))
  ]
]

-- A mark is never done earlier than it was, as long as the clock is past the time `from`.
claim_mark_keeps :
    (c : Claim) (name : String) (marks : Marks) (from t : ℕ)
    → from ≤ c.now
    → from ≤ t
    → done_at name marks ≡ some t
    → (t' : ℕ) × ((done_at name (claim_mark c marks).1 ≡ some t') × (from ≤ t'))
unfolding claim_mark done_at renew
claim_mark_keeps c name [] from t p q d = absurd cc
claim_mark_keeps c name (row ∷ rows) from t p q d = elim (Bool-cases (row.0 == c.name)) [
  | inl e ↦ rw e (renew_keeps c name row rows from t p q d)
  | inr e ↦ elim (Bool-cases (row.0 == name)) [
    | inl f ↦
        let read : some row.1 ≡ some t = rw f at d in
        let same : row.1 ≡ t = cc in rw e (row.1, (rw f refl, rw same q))
    | inr f ↦
        let (t', (at, late)) = claim_mark_keeps c name rows from t p q (rw f at d) in
        rw e (t', (rw f at, late))
  ]
]

claim_all_keeps :
    (cs : List Claim) (name : String) (marks : Marks) (from t : ℕ)
    → All (λ c. from ≤ c.now) cs
    → from ≤ t
    → done_at name marks ≡ some t
    → (t' : ℕ) × ((done_at name (claim_all cs marks) ≡ some t') × (from ≤ t'))
unfolding claim_all
claim_all_keeps [] name marks from t p q d = (t, (d, q))
claim_all_keeps (c ∷ cs) name marks from t p q d =
    let (t', (at, late)) = claim_mark_keeps c name marks from t p.0 q d in
    claim_all_keeps cs name (claim_mark c marks).1 from t' p.1 late at

-- When a claim is granted, no later claim of the same name is granted before its own period is over,
-- whatever claims of any names come in between at times after the first.
pub claim_mark_spaced :
    (first again : Claim) (cs : List Claim) (marks : Marks)
    → again.name ≡ first.name
    → (claim_mark first marks).0 ≡ true
    → All (λ c. first.now ≤ c.now) cs
    → (claim_mark again (claim_all cs (claim_mark first marks).1)).0 ≡ true
    → first.now + again.every ≤ again.now
claim_mark_spaced first again cs marks same granted times h =
    let (t, (at, late)) =
      claim_all_keeps cs first.name (claim_mark first marks).1 first.now first.now times
        (omega arith) (claim_mark-done_at first marks granted) in
    let over = claim_mark_waits again (claim_all cs (claim_mark first marks).1) t h (rw same at) in
    omega arith
