-- ===== src/Feed/Pages.antt =====
-- The page of the changes route: what it holds, and that it skips nothing.
use native.Mathlib.Numerals.{add-one}
use lumae_plugin.Prelude.{
  ℕ, ◌≤◌, ◌<◌, ◌≡◌, ◌⊎◌, true, false, List, ltb, ltb→lt, lt→ltb, ltb_false→le, take, keep, All,
  All-map, Has, take-take, take-all, and_split,
}
use lumae_plugin.Feed.{Scope, same_scope, Row, Table, order_by_seq, is_change, changes}
use lumae_plugin.Feed.Order.{
  IsAbove, SeqsDiffer, All-order_by_seq, order_by_seq-IsSorted, Has-order_by_seq, Has-keep,
  All-keep, keep-passes, keep-SeqsDiffer, All-take, cut, last_seq_or-le, last_seq_or-bounded,
  take-IsSorted,
}

module _ {V : Type 0} where
  in_scope : (s : Scope) (c : ℕ) (r : Row V) → is_change s c r ≡ true → c < r.seq
  unfolding is_change
  in_scope s c r h = ltb→lt c r.seq (and_split (same_scope r.scope s) (ltb c r.seq) h).1

  is_change-intro :
      (s : Scope) (c : ℕ) (r : Row V)
      → same_scope r.scope s ≡ true
      → c < r.seq
      → is_change s c r ≡ true
  unfolding is_change
  is_change-intro s c r h k = rw (h, lt→ltb c r.seq k)

module _ {V : Type 0} (s : Scope) (c n : ℕ) (t : Table V) where
  -- The rows that the query selects, before the cut.
  abbrev selected : List (Row V)
  selected = order_by_seq (keep (is_change s c) t.rows)

  selected-IsAbove : IsAbove c selected
  selected-IsAbove =
      All-order_by_seq _ _
        (All-map (λ r h. in_scope s c r h) _ (keep-passes (is_change s c) t.rows))

  -- Every row of the scope behind the cursor is on the page or behind the page's new cursor.
  pub changes_skips_nothing :
      (a : Row V)
      → SeqsDiffer t.rows
      → Has a t.rows
      → same_scope a.scope s ≡ true
      → c < a.seq
      → Has a (changes s c n t).records ⊎ ((changes s c n t).cursor < a.seq)
  unfolding changes
  changes_skips_nothing a d h k l =
      rw (add-one n, take-take n selected)
        (cut a c n selected selected-IsAbove
          (order_by_seq-IsSorted _ (keep-SeqsDiffer (is_change s c) t.rows d))
          (Has-order_by_seq a _ (Has-keep a _ t.rows (is_change-intro s c a k l) h)))

  -- With nothing more behind the page, the page is the whole selection.
  changes_whole : (changes s c n t).has_more ≡ false → (changes s c n t).records ≡ selected
  unfolding changes
  changes_whole h =
      rw (add-one n, take-take n selected)
        (take-all n selected (ltb_false→le n _ (rw add-one at h)))

  pub changes_whole-Has :
      (a : Row V)
      → (changes s c n t).has_more ≡ false
      → Has a t.rows
      → same_scope a.scope s ≡ true
      → c < a.seq
      → Has a (changes s c n t).records
  changes_whole-Has a m h k l =
      rw (changes_whole m)
        (Has-order_by_seq a _ (Has-keep a _ t.rows (is_change-intro s c a k l) h))

  -- What holds of every row of the table holds of the page.
  pub changes-All : (P : Row V → Type 0) → All P t.rows → All P (changes s c n t).records
  unfolding changes
  changes-All P h =
      rw (add-one n, take-take n selected)
        (All-take P n selected (All-order_by_seq P _ (All-keep P (is_change s c) t.rows h)))

  -- The new cursor lies between the old one and the last number given.
  pub changes_cursor :
      SeqsDiffer t.rows
      → All (λ r. r.seq ≤ t.last_seq) t.rows
      → c ≤ t.last_seq
      → (c ≤ (changes s c n t).cursor) × ((changes s c n t).cursor ≤ t.last_seq)
  unfolding changes
  changes_cursor d b l =
      rw (add-one n, take-take n selected)
        (
          last_seq_or-le c (take n selected) (All-take _ n selected selected-IsAbove) (
              take-IsSorted n selected
                (order_by_seq-IsSorted _ (keep-SeqsDiffer (is_change s c) t.rows d))),
          last_seq_or-bounded c t.last_seq (take n selected) l
              (All-take _ n selected (All-order_by_seq _ _ (All-keep _ (is_change s c) t.rows b))),
        )
