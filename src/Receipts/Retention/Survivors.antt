-- ===== src/Receipts/Retention/Survivors.antt =====
-- What a purge leaves alone, and what its count says.
use lumae_plugin.Prelude.{
  ℕ, zero, suc, ◌+◌, ◌-◌, ◌≤◌, ◌≡◌, refl, ◌∙◌, inl, inr, Bool, true, ◌&&◌, not, List, [], ◌∷◌,
  arith, ltb, nat_eq, length, keep, any, length-keep, Bool-cases,
}
use lumae_plugin.Receipts.{Receipt}
use lumae_plugin.Receipts.Retention.{Purge, is_expired, same_row, batch, delete_batch, purge_from}

keep-keep {ℓ} :
    {A : Type ℓ} (p q : A → Bool) (xs : List A)
    → ((x : A) → q x ≡ true → p x ≡ true)
    → keep q (keep p xs) ≡ keep q xs
keep-keep p q [] h = refl
keep-keep p q (x ∷ xs) h = elim (Bool-cases (q x)) [
  | inl e ↦ rw (h x e, e) (rw (keep-keep p q xs h) refl)
  | inr e ↦ elim (Bool-cases (p x)) [
    | inl k ↦ rw (k, e) (keep-keep p q xs h)
    | inr k ↦ rw (k, e) (keep-keep p q xs h)
  ]
]

module _ {P : Type 0} where
  abbrev pub is_fresh : ℕ → Receipt P → Bool
  is_fresh now r = not (is_expired now r)

  delete_batch-fresh :
      (now : ℕ) (rows receipts : List (Receipt P))
      → keep (is_fresh now) (delete_batch now rows receipts) ≡ keep (is_fresh now) receipts
  unfolding delete_batch
  delete_batch-fresh now rows receipts =
      keep-keep (λ r. not (any (same_row r) rows && is_expired now r)) (is_fresh now) receipts
        (λ r h. stays (any (same_row r) rows) (is_expired now r) h)
    where
      stays : (a e : Bool) → not e ≡ true → not (a && e) ≡ true
      stays a e h = ground arith

  length-delete_batch :
      (now : ℕ) (rows receipts : List (Receipt P))
      → length (delete_batch now rows receipts) ≤ length receipts
  unfolding delete_batch
  length-delete_batch now rows receipts =
      length-keep (λ r. not (any (same_row r) rows && is_expired now r)) receipts

  abbrev Keeps : ℕ → Purge P → Purge P → Type 0
  Keeps now p p' =
      (keep (is_fresh now) p'.receipts ≡ keep (is_fresh now) p.receipts)
      × (p'.deleted + length p'.receipts ≡ p.deleted + length p.receipts)

  -- A purge, whatever the sizes and the number of its batches, leaves every receipt that is not
  -- expired in place and in order, and the number that it returns is the number of receipts gone.
  pub purge_from-Keeps :
      (now batch_rows max_batches : ℕ) (p : Purge P)
      → (keep (is_fresh now) (purge_from now batch_rows max_batches p).receipts
          ≡ keep (is_fresh now) p.receipts)
        × ((purge_from now batch_rows max_batches p).deleted
              + length (purge_from now batch_rows max_batches p).receipts
            ≡ p.deleted + length p.receipts)
  unfolding purge_from
  purge_from-Keeps now batch_rows zero p = (refl, refl)
  purge_from-Keeps now batch_rows (suc max_batches) p =
      let rows = batch now batch_rows p.receipts in
      let receipts = delete_batch now rows p.receipts in
      let next : Purge P = record {
        receipts = receipts;
        deleted = p.deleted + (length p.receipts - length receipts);
      } in
      let shorter = length-delete_batch now rows p.receipts in
      let kept : keep (is_fresh now) next.receipts ≡ keep (is_fresh now) p.receipts =
        delete_batch-fresh now rows p.receipts in
      let counted : next.deleted + length next.receipts ≡ p.deleted + length p.receipts =
        omega arith in
      let (kept', counted') = purge_from-Keeps now batch_rows max_batches next in
      elim (Bool-cases (nat_eq (length rows) 0)) [
        | inl e ↦ rw e (refl, refl)
        | inr e ↦ elim (Bool-cases (ltb (length rows) batch_rows)) [
          | inl l ↦ rw (e, l) (kept, counted)
          | inr l ↦ rw (e, l) (kept' ∙ kept, counted' ∙ counted)
        ]
      ]
