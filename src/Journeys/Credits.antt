-- ===== src/Journeys/Credits.antt =====
-- `merge_credits`: a set of receipts that only grows, keyed by the occurrence.
use mathlib.Core.List.{append-nil}
use text.Mathlib.TextPositions.{eq_refl}
use lumae_plugin.Prelude.{
  ◌≡◌, refl, ◌∙◌, inl, inr, Bool, true, false, not, ◌||◌, String, Option, List, [], ◌∷◌, ◌++◌,
  arith, ◌==◌, eq_iff, if◌then◌else◌, first, keep, any, All, Bool-cases,
}
use lumae_plugin.Journeys.{Credit, is_known, merge_credits}

-- The credit of an occurrence, and whether there is one.
pub credit_of : String → List Credit → Option Credit
credit_of o credits = first (λ c. c.occurrence_id == o) credits

abbrev pub has_credit : String → List Credit → Bool
has_credit o credits = any (λ c. c.occurrence_id == o) credits

abbrev pub AreDistinct : List Credit → Type 0
AreDistinct [] = Unit
AreDistinct (c ∷ credits) = (has_credit c.occurrence_id credits ≡ false) × AreDistinct credits

has_credit-append :
    (o : String) (xs ys : List Credit)
    → has_credit o (xs ++ ys) ≡ (has_credit o xs || has_credit o ys)
has_credit-append o [] ys = refl
has_credit-append o (x ∷ xs) ys = ground (arith, has_credit-append o xs ys)

credit_of-append :
    (o : String) (xs ys : List Credit)
    → credit_of o (xs ++ ys) ≡ (if has_credit o xs then credit_of o xs else credit_of o ys)
unfolding credit_of
credit_of-append o [] ys = refl
credit_of-append o (x ∷ xs) ys = ground (arith, credit_of-append o xs ys)

-- The credits that a merge adds, seen at one occurrence.
credit_of-unknown :
    (o : String) (stored xs : List Credit)
    → has_credit o stored ≡ false
    → credit_of o (keep (λ c. not (is_known stored c)) xs) ≡ credit_of o xs
unfolding credit_of
credit_of-unknown o stored [] h = refl
credit_of-unknown o stored (x ∷ xs) h = elim (Bool-cases (x.occurrence_id == o)) [
  | inl e ↦
      let new : is_known stored x ≡ false = rw ((eq_iff x.occurrence_id o).0 e) h in
      rw (new, e) refl
  | inr e ↦ elim (Bool-cases (is_known stored x)) [
    | inl k ↦ rw (k, e) (credit_of-unknown o stored xs h)
    | inr k ↦ rw (k, e) (credit_of-unknown o stored xs h)
  ]
]

-- At every occurrence a merge has the stored credit, as it was stored, where there is one, and the
-- incoming credit, or none, elsewhere.
pub credit_of-merge_credits :
    (o : String) (stored incoming : List Credit)
    → credit_of o (merge_credits stored incoming)
      ≡ (if has_credit o stored then credit_of o stored else credit_of o incoming)
unfolding merge_credits
credit_of-merge_credits o stored incoming =
    credit_of-append o stored (keep (λ c. not (is_known stored c)) incoming)
    ∙ elim (Bool-cases (has_credit o stored)) [
      | inl e ↦ rw e refl
      | inr e ↦ rw e (credit_of-unknown o stored incoming e)
    ]

has_credit-keep :
    (o : String) (p : Credit → Bool) (xs : List Credit)
    → has_credit o xs ≡ false
    → has_credit o (keep p xs) ≡ false
has_credit-keep o p [] h = refl
has_credit-keep o p (x ∷ xs) h = ground (arith, has_credit-keep o p xs)

keep-AreDistinct : (p : Credit → Bool) (xs : List Credit) → AreDistinct xs → AreDistinct (keep p xs)
keep-AreDistinct p [] d = tt
keep-AreDistinct p (x ∷ xs) d = elim (Bool-cases (p x)) [
  | inl e ↦ rw e (has_credit-keep x.occurrence_id p xs d.0, keep-AreDistinct p xs d.1)
  | inr e ↦ rw e (keep-AreDistinct p xs d.1)
]

-- What a merge adds is not there yet.
new_apart :
    (s : Credit) (stored xs : List Credit)
    → has_credit s.occurrence_id stored ≡ true
    → has_credit s.occurrence_id (keep (λ c. not (is_known stored c)) xs) ≡ false
new_apart s stored [] h = refl
new_apart s stored (x ∷ xs) h = elim (Bool-cases (is_known stored x)) [
  | inl k ↦ rw k (new_apart s stored xs h)
  | inr k ↦ rw k (elim (Bool-cases (x.occurrence_id == s.occurrence_id)) [
    | inl e ↦ cc (rw ((eq_iff x.occurrence_id s.occurrence_id).0 e) at k, h)
    | inr e ↦ rw e (new_apart s stored xs h)
  ])
]

append-AreDistinct :
    (xs ys : List Credit)
    → AreDistinct xs
    → AreDistinct ys
    → All (λ x. has_credit x.occurrence_id ys ≡ false) xs
    → AreDistinct (xs ++ ys)
append-AreDistinct [] ys d e a = e
append-AreDistinct (x ∷ xs) ys d e a = (
  rw (has_credit-append x.occurrence_id xs ys, d.0, a.0) refl,
  append-AreDistinct xs ys d.1 e a.1,
)

All-new_apart :
    (stored incoming xs : List Credit)
    → All (λ x. has_credit x.occurrence_id stored ≡ true) xs
    → All
        (λ x. has_credit x.occurrence_id (keep (λ c. not (is_known stored c)) incoming) ≡ false)
        xs
All-new_apart stored incoming [] a = tt
All-new_apart stored incoming (x ∷ xs) a =
    (new_apart x stored incoming a.0, All-new_apart stored incoming xs a.1)

All-weaken :
    (y : Credit) (ys xs : List Credit)
    → All (λ x. has_credit x.occurrence_id ys ≡ true) xs
    → All (λ x. has_credit x.occurrence_id (y ∷ ys) ≡ true) xs
All-weaken y ys [] a = tt
All-weaken y ys (x ∷ xs) a = (ground (arith, a.0), All-weaken y ys xs a.1)

All-known : (xs : List Credit) → All (λ x. has_credit x.occurrence_id xs ≡ true) xs
All-known [] = tt
All-known (x ∷ xs) = (rw (eq_refl x.occurrence_id) refl, All-weaken x xs xs (All-known xs))

-- A merge of two lists of credits, each with one credit for an occurrence, has one credit for each.
merge_credits-AreDistinct :
    (stored incoming : List Credit)
    → AreDistinct stored
    → AreDistinct incoming
    → AreDistinct (merge_credits stored incoming)
unfolding merge_credits
merge_credits-AreDistinct stored incoming d e =
    append-AreDistinct stored _ d (keep-AreDistinct _ incoming e)
      (All-new_apart stored incoming stored (All-known stored))

-- Nothing of what is known is added again.
keep_known :
    (known xs : List Credit)
    → All (λ x. has_credit x.occurrence_id known ≡ true) xs
    → keep (λ c. not (is_known known c)) xs ≡ []
keep_known known [] a = refl
keep_known known (x ∷ xs) a = rw a.0 (keep_known known xs a.1)

merge_covers :
    (stored incoming xs : List Credit)
    → All (λ x. has_credit x.occurrence_id incoming ≡ true) xs
    → All (λ x. has_credit x.occurrence_id (merge_credits stored incoming) ≡ true) xs
merge_covers stored incoming [] a = tt
merge_covers stored incoming (x ∷ xs) a =
    (has_credit-merge x.occurrence_id stored incoming a.0, merge_covers stored incoming xs a.1)
  where
    in_new :
        (o : String) (stored xs : List Credit)
        → has_credit o stored ≡ false
        → has_credit o xs ≡ true
        → has_credit o (keep (λ c. not (is_known stored c)) xs) ≡ true
    in_new o stored [] n h = h
    in_new o stored (x ∷ xs) n h = elim (Bool-cases (x.occurrence_id == o)) [
      | inl e ↦
          let new : is_known stored x ≡ false = rw ((eq_iff x.occurrence_id o).0 e) n in
          rw (new, e) refl
      | inr e ↦
          let rest : has_credit o xs ≡ true = rw e at h in
          elim (Bool-cases (is_known stored x)) [
            | inl k ↦ rw k (in_new o stored xs n rest)
            | inr k ↦ rw (k, e) (in_new o stored xs n rest)
          ]
    ]

    has_credit-merge :
        (o : String) (stored incoming : List Credit)
        → has_credit o incoming ≡ true
        → has_credit o (merge_credits stored incoming) ≡ true
    has_credit-merge o stored incoming h =
        unfold merge_credits in
        has_credit-append o stored (keep (λ c. not (is_known stored c)) incoming)
        ∙ elim (Bool-cases (has_credit o stored)) [
          | inl e ↦ rw e refl
          | inr e ↦ rw e (in_new o stored incoming e h)
        ]

-- Merging the same credits a second time changes nothing.
merge_credits-again :
    (stored incoming : List Credit)
    → merge_credits (merge_credits stored incoming) incoming ≡ merge_credits stored incoming
merge_credits-again stored incoming =
    let merged = merge_credits stored incoming in
    unfold_once merged
      (keep_known merged incoming (merge_covers stored incoming incoming (All-known incoming)))
  where
    unfold_once :
        (merged : List Credit)
        → keep (λ c. not (is_known merged c)) incoming ≡ []
        → merge_credits merged incoming ≡ merged
    unfold_once merged h = unfold merge_credits in rw h (append-nil merged)
