-- ===== src/Feed/Invariant.antt =====
-- The invariant of a record table: one row for each key, one sequence number for each row, and no
-- number above the sequence's last.
use lumae_plugin.Prelude.{
  ◌+◌, ◌≤◌, ◌<◌, ◌≡◌, ◌≢◌, sym, inl, inr, false, String, List, [], ◌∷◌, arith, All, All-map,
  Bool-cases,
}
use lumae_plugin.Feed.{Scope, Row, Table, has_key, put_row, upsert}
use lumae_plugin.Feed.Writes.{has_key-split, other_key, All-put_row}
use lumae_plugin.Feed.Order.{SeqsDiffer}

module _ {V : Type 0} where
  -- No two rows share a key, and no two share a sequence number.
  abbrev pub KeysDiffer : List (Row V) → Type 0
  KeysDiffer [] = Unit
  KeysDiffer (x ∷ xs) = All (λ y. has_key x.scope x.id y ≡ false) xs × KeysDiffer xs

  pub record IsFeed (t : Table V) : Type 0 where
    pub keys : KeysDiffer t.rows
    pub seqs : SeqsDiffer t.rows
    pub bounded : All (λ r. r.seq ≤ t.last_seq) t.rows

  put_row-KeysDiffer :
      (n : Row V) (rows : List (Row V)) → KeysDiffer rows → KeysDiffer (put_row n rows)
  unfolding put_row
  put_row-KeysDiffer n [] k = (tt, tt)
  put_row-KeysDiffer n (r ∷ rows) k = elim (Bool-cases (has_key n.scope n.id r)) [
    | inl e ↦ rw e (
      All-map (λ y h. let (a, b) = has_key-split n.scope n.id r e in rw (sym a, sym b) h) rows k.0,
      k.1,
    )
    | inr e ↦ rw e (
      All-put_row (λ y. has_key r.scope r.id y ≡ false) n rows (other_key r n e) k.0,
      put_row-KeysDiffer n rows k.1,
    )
  ]

  put_row-SeqsDiffer :
      (n : Row V) (rows : List (Row V))
      → All (λ r. r.seq < n.seq) rows
      → SeqsDiffer rows
      → SeqsDiffer (put_row n rows)
  unfolding put_row
  put_row-SeqsDiffer n [] b d = (tt, tt)
  put_row-SeqsDiffer n (r ∷ rows) b d = elim (Bool-cases (has_key n.scope n.id r)) [
    | inl e ↦ rw e (All-map (λ y h. omega arith) rows b.1, d.1)
    | inr e ↦
        let apart : n.seq ≢ r.seq = (let below : r.seq < n.seq = b.0 in omega arith) in
        rw e (All-put_row (λ y. y.seq ≢ r.seq) n rows apart d.0, put_row-SeqsDiffer n rows b.1 d.1)
  ]

  -- Every write keeps the table a feed: one row for each key, one number for each row.
  pub upsert-IsFeed :
      (s : Scope) (i : String) (v : V) (t : Table V) → IsFeed t → IsFeed (upsert s i v t)
  unfolding upsert
  upsert-IsFeed s i v t f =
      let n : Row V = record { scope = s; id = i; value = v; seq = t.last_seq + 1 } in
      record {
        keys = put_row-KeysDiffer n t.rows f.keys;
        seqs = put_row-SeqsDiffer n t.rows (All-map (λ r h. omega arith) t.rows f.bounded) f.seqs;
        bounded =
            All-put_row (λ r. r.seq ≤ t.last_seq + 1) n t.rows (omega arith)
              (All-map (λ r h. omega arith) t.rows f.bounded);
      }
