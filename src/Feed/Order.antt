-- ===== src/Feed/Order.antt =====
-- The rows of a feed in the order of their sequence numbers, and what a cut of them leaves out.
use lumae_plugin.Prelude.{
  ℕ, zero, suc, ◌≤◌, ◌<◌, ◌≡◌, ◌≢◌, refl, ◌⊎◌, inl, inr, true, List, [], ◌∷◌, arith, leb, take,
  keep, All, All-map, Has, Bool-cases,
}
use lumae_plugin.Feed.{Row, insert_by_seq, order_by_seq, last_seq_or}

module _ {V : Type 0} where
  abbrev pub IsAbove : ℕ → List (Row V) → Type 0
  IsAbove n = All (λ r. n < r.seq)

  abbrev pub IsSorted : List (Row V) → Type 0
  IsSorted [] = Unit
  IsSorted (x ∷ xs) = IsAbove x.seq xs × IsSorted xs

  abbrev pub SeqsDiffer : List (Row V) → Type 0
  SeqsDiffer [] = Unit
  SeqsDiffer (x ∷ xs) = All (λ y. y.seq ≢ x.seq) xs × SeqsDiffer xs

  All-insert_by_seq :
      (P : Row V → Type 0) (r : Row V) (xs : List (Row V))
      → P r
      → All P xs
      → All P (insert_by_seq r xs)
  unfolding insert_by_seq
  All-insert_by_seq P r [] p h = (p, tt)
  All-insert_by_seq P r (x ∷ xs) p h = elim (Bool-cases (leb r.seq x.seq)) [
    | inl e ↦ rw e (p, h)
    | inr e ↦ rw e (h.0, All-insert_by_seq P r xs p h.1)
  ]

  pub All-order_by_seq :
      (P : Row V → Type 0) (xs : List (Row V)) → All P xs → All P (order_by_seq xs)
  unfolding order_by_seq
  All-order_by_seq P [] h = tt
  All-order_by_seq P (x ∷ xs) h =
      All-insert_by_seq P x (order_by_seq xs) h.0 (All-order_by_seq P xs h.1)

  insert_by_seq-IsSorted :
      (r : Row V) (xs : List (Row V))
      → All (λ y. y.seq ≢ r.seq) xs
      → IsSorted xs
      → IsSorted (insert_by_seq r xs)
  unfolding insert_by_seq
  insert_by_seq-IsSorted r [] d s = (tt, tt)
  insert_by_seq-IsSorted r (x ∷ xs) d s = elim (Bool-cases (leb r.seq x.seq)) [
    | inl e ↦
        let below : r.seq < x.seq = ground (arith, d.0) in
        rw e ((below, All-map (λ y above. omega arith) xs s.0), s)
    | inr e ↦
        let above : x.seq < r.seq = ground arith in
        rw e (All-insert_by_seq _ r xs above s.0, insert_by_seq-IsSorted r xs d.1 s.1)
  ]

  pub order_by_seq-IsSorted : (xs : List (Row V)) → SeqsDiffer xs → IsSorted (order_by_seq xs)
  unfolding order_by_seq
  order_by_seq-IsSorted [] d = tt
  order_by_seq-IsSorted (x ∷ xs) d =
      insert_by_seq-IsSorted x (order_by_seq xs) (All-order_by_seq _ xs d.0)
        (order_by_seq-IsSorted xs d.1)

  Has-insert_by_seq :
      (a r : Row V) (xs : List (Row V)) → (a ≡ r) ⊎ Has a xs → Has a (insert_by_seq r xs)
  unfolding insert_by_seq
  Has-insert_by_seq a r [] h = h
  Has-insert_by_seq a r (x ∷ xs) h = elim (Bool-cases (leb r.seq x.seq)) [
    | inl e ↦ rw e h
    | inr e ↦ rw e (elim h [
      | inl p ↦ inr (Has-insert_by_seq a r xs (inl p))
      | inr (inl p) ↦ inl p
      | inr (inr q) ↦ inr (Has-insert_by_seq a r xs (inr q))
    ])
  ]

  pub Has-order_by_seq : (a : Row V) (xs : List (Row V)) → Has a xs → Has a (order_by_seq xs)
  unfolding order_by_seq
  Has-order_by_seq a (x ∷ xs) (inl p) = Has-insert_by_seq a x (order_by_seq xs) (inl p)
  Has-order_by_seq a (x ∷ xs) (inr h) =
      Has-insert_by_seq a x (order_by_seq xs) (inr (Has-order_by_seq a xs h))
  Has-order_by_seq a [] h = absurd h

  pub Has-keep :
      (a : Row V) (p : Row V → _) (xs : List (Row V)) → p a ≡ true → Has a xs → Has a (keep p xs)
  Has-keep a p [] t h = h
  Has-keep a p (x ∷ xs) t (inl e) = rw (← e, t) (inl refl)
  Has-keep a p (x ∷ xs) t (inr h) = elim (Bool-cases (p x)) [
    | inl e ↦ rw e (inr (Has-keep a p xs t h))
    | inr e ↦ rw e (Has-keep a p xs t h)
  ]

  pub All-keep :
      (P : Row V → Type 0) (p : Row V → _) (xs : List (Row V)) → All P xs → All P (keep p xs)
  All-keep P p [] h = tt
  All-keep P p (x ∷ xs) h = elim (Bool-cases (p x)) [
    | inl e ↦ rw e (h.0, All-keep P p xs h.1)
    | inr e ↦ rw e (All-keep P p xs h.1)
  ]

  pub keep-passes : (p : Row V → _) (xs : List (Row V)) → All (λ x. p x ≡ true) (keep p xs)
  keep-passes p [] = tt
  keep-passes p (x ∷ xs) = elim (Bool-cases (p x)) [
    | inl e ↦ rw e (e, keep-passes p xs)
    | inr e ↦ rw e (keep-passes p xs)
  ]

  pub keep-SeqsDiffer : (p : Row V → _) (xs : List (Row V)) → SeqsDiffer xs → SeqsDiffer (keep p xs)
  keep-SeqsDiffer p [] d = tt
  keep-SeqsDiffer p (x ∷ xs) d = elim (Bool-cases (p x)) [
    | inl e ↦ rw e (All-keep _ p xs d.0, keep-SeqsDiffer p xs d.1)
    | inr e ↦ rw e (keep-SeqsDiffer p xs d.1)
  ]

  pub All-take : (P : Row V → Type 0) (n : ℕ) (xs : List (Row V)) → All P xs → All P (take n xs)
  All-take P zero xs h = tt
  All-take P (suc n) [] h = tt
  All-take P (suc n) (x ∷ xs) h = (h.0, All-take P n xs h.1)

  -- What a cut leaves out lies behind the last row that it keeps.
  pub cut :
      (a : Row V) (c n : ℕ) (xs : List (Row V))
      → IsAbove c xs
      → IsSorted xs
      → Has a xs
      → Has a (take n xs) ⊎ (last_seq_or c (take n xs) < a.seq)
  unfolding last_seq_or
  cut a c n [] above s h = absurd h
  cut a c zero (x ∷ xs) above s (inl p) = inr (rw p above.0)
  cut a c zero (x ∷ xs) above s (inr h) = cut a c zero xs above.1 s.1 h
  cut a c (suc n) (x ∷ xs) above s (inl p) = inl (inl p)
  cut a c (suc n) (x ∷ xs) above s (inr h) = elim (cut a x.seq n xs s.0 s.1 h) [
    | inl q ↦ inl (inr q)
    | inr q ↦ inr q
  ]

  -- The cursor never goes back.
  pub last_seq_or-le :
      (c : ℕ) (xs : List (Row V)) → IsAbove c xs → IsSorted xs → c ≤ last_seq_or c xs
  unfolding last_seq_or
  last_seq_or-le c [] a s = omega arith
  last_seq_or-le c (x ∷ xs) a s = omega (arith, last_seq_or-le x.seq xs s.0 s.1)

  pub last_seq_or-bounded :
      (c m : ℕ) (xs : List (Row V)) → c ≤ m → All (λ r. r.seq ≤ m) xs → last_seq_or c xs ≤ m
  unfolding last_seq_or
  last_seq_or-bounded c m [] h a = h
  last_seq_or-bounded c m (x ∷ xs) h a = last_seq_or-bounded x.seq m xs a.0 a.1

  pub take-IsSorted : (n : ℕ) (xs : List (Row V)) → IsSorted xs → IsSorted (take n xs)
  take-IsSorted zero xs s = tt
  take-IsSorted (suc n) [] s = tt
  take-IsSorted (suc n) (x ∷ xs) s = (All-take _ n xs s.0, take-IsSorted n xs s.1)
