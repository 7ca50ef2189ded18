-- ===== src/Feed/Copy.antt =====
-- A device's copy of a feed: what its lookups return after it stored a page of rows by key.
use lumae_plugin.Prelude.{
  ◌≡◌, refl, sym, ap, ◌∙◌, ◌⊎◌, inl, inr, true, false, String, none, some, List, [], ◌∷◌, arith,
  All, Has, Bool-cases, if◌then◌else◌,
}
use lumae_plugin.Feed.{Scope, Row, has_key, find, put_row}
use lumae_plugin.Feed.Writes.{has_key-split, has_key-join, find-put_row}
use lumae_plugin.Feed.Invariant.{KeysDiffer}

module _ {V : Type 0} where
  pub find-has_key :
      (s : Scope) (i : String) (r : Row V) (rows : List (Row V))
      → find s i rows ≡ some r
      → has_key s i r ≡ true
  unfolding find
  find-has_key s i r [] h = cc
  find-has_key s i r (x ∷ xs) h = ground (arith, find-has_key s i r xs)

  pub find-Has :
      (s : Scope) (i : String) (r : Row V) (rows : List (Row V))
      → find s i rows ≡ some r
      → Has r rows
  unfolding find
  find-Has s i r [] h = cc
  find-Has s i r (x ∷ xs) h = ground (arith, find-Has s i r xs)

  pub All-Has : (P : Row V → Type 0) (r : Row V) (xs : List (Row V)) → All P xs → Has r xs → P r
  All-Has P r [] a h = absurd h
  All-Has P r (x ∷ xs) a (inl e) = rw e a.0
  All-Has P r (x ∷ xs) a (inr h) = All-Has P r xs a.1 h

  pub All-intro :
      (P : Row V → Type 0) (xs : List (Row V)) → ((r : Row V) → Has r xs → P r) → All P xs
  All-intro P [] f = tt
  All-intro P (x ∷ xs) f = (f x (inl refl), All-intro P xs (λ r h. f r (inr h)))

  -- A row of the table is what its key finds.
  pub Has-find :
      (r : Row V) (rows : List (Row V))
      → KeysDiffer rows
      → Has r rows
      → find r.scope r.id rows ≡ some r
  unfolding find
  Has-find r [] k h = absurd h
  Has-find r (x ∷ xs) k (inl e) =
      rw (has_key-join r.scope r.id x (ap (λ y. y.scope) (sym e)) (ap (λ y. y.id) (sym e)))
        (ap some (sym e))
  Has-find r (x ∷ xs) k (inr h) = ground (arith, not_first, Has-find r xs k.1 h)
    where
      not_first : has_key r.scope r.id x ≡ false
      not_first = elim (Bool-cases (has_key r.scope r.id x)) [
        | inl e ↦
            let (a, b) = has_key-split r.scope r.id x e in
            cc (All-Has _ r xs k.0 h, has_key-join x.scope x.id r (sym a) (sym b))
        | inr e ↦ e
      ]

  pub Has-put_row :
      (r n : Row V) (rows : List (Row V)) → Has r (put_row n rows) → (r ≡ n) ⊎ Has r rows
  unfolding put_row
  Has-put_row r n [] h = h
  Has-put_row r n (x ∷ xs) h = elim (Bool-cases (has_key n.scope n.id x)) [
    | inl e ↦ elim (rw e at h) [ inl p ↦ inl p | inr q ↦ inr (inr q) ]
    | inr e ↦ elim (rw e at h) [
      | inl p ↦ inr (inl p)
      | inr q ↦ elim (Has-put_row r n xs q) [ inl p ↦ inl p | inr z ↦ inr (inr z) ]
    ]
  ]

  -- The device stores a page's records by key.
  unfoldable pub receive : List (Row V) → List (Row V) → List (Row V)
  receive copy [] = copy
  receive copy (r ∷ rs) = receive (put_row r copy) rs

  abbrev pub AreCurrent : List (Row V) → List (Row V) → Type 0
  AreCurrent rows = All (λ x. find x.scope x.id rows ≡ some x)

  pub receive_known :
      (s : Scope) (i : String) (r : Row V) (rows copy rs : List (Row V))
      → AreCurrent rows rs
      → find s i rows ≡ some r
      → Has r rs ⊎ (find s i copy ≡ some r)
      → find s i (receive copy rs) ≡ some r
  unfolding receive
  receive_known s i r rows copy [] a f (inl h) = absurd h
  receive_known s i r rows copy [] a f (inr h) = h
  receive_known s i r rows copy (x ∷ rs) a f h =
      receive_known s i r rows (put_row x copy) rs a.1 f (after h)
    where
      stored : find s i (put_row x copy) ≡ (if has_key s i x then some x else find s i copy)
      stored = find-put_row s i x copy

      same : has_key s i x ≡ true → x ≡ r
      same e =
          let (p, q) = has_key-split s i x e in
          let at_key : find s i rows ≡ some x = rw (← p, ← q) a.0 in cc

      after :
          Has r (x ∷ rs) ⊎ (find s i copy ≡ some r)
          → Has r rs ⊎ (find s i (put_row x copy) ≡ some r)
      after (inl (inr z)) = inl z
      after (inl (inl e)) =
          inr (stored ∙ rw (rw e at (find-has_key s i r rows f)) (ap some (sym e)))
      after (inr g) = inr (elim (Bool-cases (has_key s i x)) [
        | inl e ↦ stored ∙ rw e (ap some (same e))
        | inr e ↦ stored ∙ rw e g
      ])

  pub receive-none :
      (s : Scope) (i : String) (rows copy rs : List (Row V))
      → AreCurrent rows rs
      → find s i rows ≡ none
      → find s i copy ≡ none
      → find s i (receive copy rs) ≡ none
  unfolding receive
  receive-none s i rows copy [] a f g = g
  receive-none s i rows copy (x ∷ rs) a f g = receive-none s i rows (put_row x copy) rs a.1 f (
      find-put_row s i x copy ∙ elim (Bool-cases (has_key s i x)) [
        | inl e ↦
            let (p, q) = has_key-split s i x e in
            let at_key : find s i rows ≡ some x = rw (← p, ← q) a.0 in cc
        | inr e ↦ rw e g
      ])
