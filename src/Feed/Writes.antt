-- ===== src/Feed/Writes.antt =====
-- What a write does to the record table.
use text.Mathlib.TextPositions.{eq_refl}
use lumae_plugin.Prelude.{
  ◌+◌, ◌≡◌, refl, sym, ◌∙◌, inl, inr, true, false, ◌&&◌, String, some, List, [], ◌∷◌, arith, eq_iff,
  ◌==◌, if◌then◌else◌, Bool-cases, and_split, All,
}
use lumae_plugin.Feed.{Scope, same_scope, Row, Table, has_key, find, put_row, upsert}

pub same_scope_eq : (a b : Scope) → same_scope a b ≡ true → a ≡ b
unfolding same_scope
same_scope_eq a b h = ground (arith, eq_iff a.principal b.principal, eq_iff a.catalog b.catalog)

pub same_scope_refl : (a : Scope) → same_scope a a ≡ true
unfolding same_scope
same_scope_refl a = ground (arith, eq_iff a.principal a.principal, eq_iff a.catalog a.catalog)

module _ {ℓ} {V : Type ℓ} where
  pub has_key-split :
      (s : Scope) (i : String) (r : Row V) → has_key s i r ≡ true → (r.scope ≡ s) × (r.id ≡ i)
  unfolding has_key
  has_key-split s i r h =
      let (a, b) = and_split (same_scope r.scope s) (r.id == i) h in
      (same_scope_eq r.scope s a, (eq_iff r.id i).0 b)

  pub has_key-join :
      (s : Scope) (i : String) (r : Row V) → r.scope ≡ s → r.id ≡ i → has_key s i r ≡ true
  unfolding has_key
  has_key-join s i r a b = rw (a, b, same_scope_refl s) (eq_refl i)

  -- Rows of one key answer every lookup alike.
  pub same_key :
      (s : Scope) (i : String) (r n : Row V)
      → has_key n.scope n.id r ≡ true
      → has_key s i r ≡ has_key s i n
  unfolding has_key
  same_key s i r n h = let (a, b) = has_key-split n.scope n.id r h in rw (a, b)

  one_key :
      (s : Scope) (i : String) (r n : Row V)
      → has_key s i r ≡ true
      → has_key s i n ≡ true
      → has_key n.scope n.id r ≡ true
  one_key s i r n h k =
      let (a, b) = has_key-split s i r h in
      let (c, d) = has_key-split s i n k in has_key-join n.scope n.id r (a ∙ sym c) (b ∙ sym d)

  pub other_key : (r n : Row V) → has_key n.scope n.id r ≡ false → has_key r.scope r.id n ≡ false
  other_key r n h = elim (Bool-cases (has_key r.scope r.id n)) [
    | inl e ↦
        let (a, b) = has_key-split r.scope r.id n e in
        cc (has_key-join n.scope n.id r (sym a) (sym b))
    | inr e ↦ e
  ]

  pub find-put_row :
      (s : Scope) (i : String) (new : Row V) (rows : List (Row V))
      → find s i (put_row new rows) ≡ (if has_key s i new then some new else find s i rows)
  unfolding find put_row
  find-put_row s i new [] = refl
  find-put_row s i new (r ∷ rows) =
      ground (arith, find-put_row s i new rows, same_key s i r new, one_key s i r new)

  -- Reading after a write: the written key has the new row, every other key what it had.
  pub find-upsert :
      (s s' : Scope) (i i' : String) (v : V) (t : Table V)
      → find s' i' (upsert s i v t).rows ≡ (
          if same_scope s s' && i == i'
          then some (record { scope = s; id = i; value = v; seq = t.last_seq + 1 })
          else find s' i' t.rows)
  unfolding upsert has_key
  find-upsert s s' i i' v t =
      find-put_row s' i' (record { scope = s; id = i; value = v; seq = t.last_seq + 1 }) t.rows

  pub find-upsert_self :
      (s : Scope) (i : String) (v : V) (t : Table V)
      → find s i (upsert s i v t).rows
        ≡ some (record { scope = s; id = i; value = v; seq = t.last_seq + 1 })
  find-upsert_self s i v t = rw (find-upsert s s i i v t, same_scope_refl s, eq_refl i)

  pub All-put_row :
      (P : Row V → Type 0) (new : Row V) (rows : List (Row V))
      → P new
      → All P rows
      → All P (put_row new rows)
  unfolding put_row
  All-put_row P new [] p h = (p, tt)
  All-put_row P new (r ∷ rows) p h = elim (Bool-cases (has_key new.scope new.id r)) [
    | inl e ↦ rw e (p, h.1)
    | inr e ↦ rw e (h.0, All-put_row P new rows p h.1)
  ]
