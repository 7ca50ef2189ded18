-- ===== src/Feed/Sync.antt =====
-- A device that follows a scope's change feed while other devices write: it pages by the cursor of
-- the last page, and keeps a copy of every record by key. The device stands for the documented
-- client of the changes routes (`cursor`, `hasMore`); it is not code of the plugin.
use lumae_plugin.Prelude.{
  ℕ, ◌+◌, ◌≤◌, ◌≡◌, sym, ◌∙◌, inl, inr, true, false, ◌&&◌, String, none, some, List, arith, ◌==◌,
  leb, Bool-cases, Option-cases,
}
use lumae_plugin.Feed.{Scope, same_scope, Row, Table, find, upsert, changes}
use lumae_plugin.Feed.Writes.{same_scope_refl, has_key-split, find-upsert}
use lumae_plugin.Feed.Invariant.{IsFeed}
use lumae_plugin.Feed.Copy.{
  find-has_key, find-Has, All-intro, Has-find, receive, AreCurrent, receive_known, receive-none,
}
use lumae_plugin.Feed.Pages.{changes_skips_nothing, changes_whole-Has, changes-All, changes_cursor}

pub record Device (V : Type 0) : Type 0 where
  pub cursor : ℕ
  pub copy : List (Row V)

module _ {V : Type 0} where
  unfoldable pub follow : Scope → ℕ → Table V → Device V → Device V
  follow s limit t d =
      let page = changes s d.cursor limit t in
      record { cursor = page.cursor; copy = receive d.copy page.records }

  -- The copy has the latest version of every row up to the cursor, and no record without a row.
  pub record IsCurrent (s : Scope) (t : Table V) (d : Device V) : Type 0 where
    pub cursor_bounded : d.cursor ≤ t.last_seq
    pub known :
        (i : String) (r : Row V)
        → find s i t.rows ≡ some r
        → r.seq ≤ d.cursor
        → find s i d.copy ≡ some r
    pub nothing_else : (i : String) → find s i t.rows ≡ none → find s i d.copy ≡ none

  -- A write by anyone, in any scope, leaves a device's copy current up to its cursor.
  pub upsert-IsCurrent :
      (s s' : Scope) (i : String) (v : V) (t : Table V) (d : Device V)
      → IsCurrent s t d
      → IsCurrent s (upsert s' i v t) d
  upsert-IsCurrent s s' i v t d c = record {
    cursor_bounded = unfold upsert in (let b = c.cursor_bounded in omega arith);
    known = λ j r f l. elim (Bool-cases (same_scope s' s && i == j)) [
      | inl e ↦
          let new : some (record { scope = s'; id = i; value = v; seq = t.last_seq + 1 }) ≡ some r =
            rw e at (sym (find-upsert s' s i j v t) ∙ f) in
          let b = c.cursor_bounded in absurd (ground arith)
      | inr e ↦ c.known j r (rw e at (sym (find-upsert s' s i j v t) ∙ f)) l
    ];
    nothing_else = λ j f. elim (Bool-cases (same_scope s' s && i == j)) [
      | inl e ↦ cc (rw e at (sym (find-upsert s' s i j v t) ∙ f))
      | inr e ↦ c.nothing_else j (rw e at (sym (find-upsert s' s i j v t) ∙ f))
    ];
  }

module _ {V : Type 0} (s : Scope) (n : ℕ) (t : Table V) (d : Device V) (feed : IsFeed t) where
  page_current : AreCurrent t.rows (changes s d.cursor n t).records
  page_current =
      changes-All s d.cursor n t (λ x. find x.scope x.id t.rows ≡ some x)
        (All-intro _ t.rows (λ r h. Has-find r t.rows feed.keys h))

  in_scope : (i : String) (r : Row V) → find s i t.rows ≡ some r → same_scope r.scope s ≡ true
  in_scope i r f = rw ((has_key-split s i r (find-has_key s i r t.rows f)).0) (same_scope_refl s)

  -- Fetching a page, of whatever size, keeps the copy current up to the new cursor.
  pub follow-IsCurrent : IsCurrent s t d → IsCurrent s t (follow s n t d)
  unfolding follow
  follow-IsCurrent c = record {
    cursor_bounded = (changes_cursor s d.cursor n t feed.seqs feed.bounded c.cursor_bounded).1;
    known = λ i r f l.
        receive_known s i r t.rows d.copy _ page_current f (elim (Bool-cases (leb r.seq d.cursor)) [
          | inl e ↦ inr (c.known i r f (ground arith))
          | inr e ↦
              elim (changes_skips_nothing s d.cursor n t r feed.seqs (find-Has s i r t.rows f)
                (in_scope i r f) (ground arith)) [ inl h ↦ inl h | inr h ↦ absurd (omega arith) ]
        ]);
    nothing_else = λ i f. receive-none s i t.rows d.copy _ page_current f (c.nothing_else i f);
  }

  -- After a page with `hasMore` false, the copy answers every lookup as the table does.
  pub follow_caught_up :
      IsCurrent s t d
      → (changes s d.cursor n t).has_more ≡ false
      → (i : String) → find s i (follow s n t d).copy ≡ find s i t.rows
  unfolding follow
  follow_caught_up c m i = elim (Option-cases (find s i t.rows)) [
    | inl f ↦ receive-none s i t.rows d.copy _ page_current f (c.nothing_else i f) ∙ sym f
    | inr (r, f) ↦
        receive_known s i r t.rows d.copy _ page_current f (elim (Bool-cases (leb r.seq d.cursor)) [
          | inl e ↦ inr (c.known i r f (ground arith))
          | inr e ↦ inl (
              changes_whole-Has s d.cursor n t r m (find-Has s i r t.rows f) (in_scope i r f)
                (ground arith))
        ])
        ∙ sym f
  ]
