-- ===== src/Feed.antt =====
-- The record tables of Vibes and Journeys (plugins/LumaeAnalysis/vibes.py and journeys.py) and the
-- change feed over them: the latest version of each record of a scope, under a sequence number that
-- every write takes anew (`nextval`). A write holds its scope's lock to the commit, so the writes
-- of a scope are steps, one after the other.
pub mod Writes
pub mod Invariant
pub mod Copy
pub mod Order
pub mod Pages
pub mod Sync
pub mod History
use lumae_plugin.Prelude.{
  ℕ, zero, suc, ◌+◌, Bool, true, false, ◌&&◌, String, Option, none, some, List, [], ◌∷◌, ◌++◌, ◌==◌,
  ltb, leb, if◌then◌else◌, length, take, keep, first,
}

-- (principal, catalog_id)
pub record Scope : Type 0 where
  pub principal : String
  pub catalog : String

unfoldable pub same_scope : Scope → Scope → Bool
same_scope a b = a.principal == b.principal && a.catalog == b.catalog

-- A row of the record table: its key (scope and id), the latest value, and the sequence number.
pub record Row {ℓ} (V : Type ℓ) : Type ℓ where
  pub scope : Scope
  pub id : String
  pub value : V
  pub seq : ℕ

-- The table with its sequence: `last_seq` is the last number that `nextval` gave.
pub record Table {ℓ} (V : Type ℓ) : Type ℓ where
  pub rows : List (Row V)
  pub last_seq : ℕ

-- One page of the changes route.
pub record Page {ℓ} (V : Type ℓ) : Type ℓ where
  pub records : List (Row V)
  pub cursor : ℕ
  pub has_more : Bool

module _ {ℓ} {V : Type ℓ} where
  unfoldable pub has_key : Scope → String → Row V → Bool
  unfolding same_scope
  has_key s i r = same_scope r.scope s && r.id == i

  -- SELECT … WHERE principal=… AND catalog_id=… AND id=…
  unfoldable pub find : Scope → String → List (Row V) → Option (Row V)
  find s i rows = first (has_key s i) rows

  -- INSERT … ON CONFLICT(principal,catalog_id,id) DO UPDATE, with the sequence number given.
  unfoldable pub put_row : Row V → List (Row V) → List (Row V)
  put_row new [] = new ∷ []
  put_row new (r ∷ rows) = if has_key new.scope new.id r then new ∷ rows else r ∷ put_row new rows

  unfoldable pub upsert : Scope → String → V → Table V → Table V
  unfolding put_row
  upsert s i v t =
      let next = t.last_seq + 1 in
      record {
        rows = put_row (record { scope = s; id = i; value = v; seq = next }) t.rows;
        last_seq = next;
      }

  -- ORDER BY seq
  pub insert_by_seq : Row V → List (Row V) → List (Row V)
  insert_by_seq r [] = r ∷ []
  insert_by_seq r (x ∷ xs) = if leb r.seq x.seq then r ∷ x ∷ xs else x ∷ insert_by_seq r xs

  pub order_by_seq : List (Row V) → List (Row V)
  unfolding insert_by_seq
  order_by_seq [] = []
  order_by_seq (r ∷ rows) = insert_by_seq r (order_by_seq rows)

  -- `page[-1].seq if page else cursor`
  pub last_seq_or : ℕ → List (Row V) → ℕ
  last_seq_or cursor [] = cursor
  last_seq_or cursor (r ∷ rows) = last_seq_or r.seq rows

  -- WHERE principal=… AND catalog_id=… AND seq>cursor
  unfoldable pub is_change : Scope → ℕ → Row V → Bool
  unfolding same_scope
  is_change s cursor r = same_scope r.scope s && ltb cursor r.seq

  -- The changes route: at most `limit` rows after the cursor, and whether there are more. The
  -- query asks for one row more than the page holds.
  unfoldable pub changes : Scope → ℕ → ℕ → Table V → Page V
  unfolding is_change order_by_seq last_seq_or
  changes s cursor limit t =
      let rows = take (limit + 1) (order_by_seq (keep (is_change s cursor) t.rows)) in
      let page = take limit rows in
      record {
        records = page;
        cursor = last_seq_or cursor page;
        has_more = ltb limit (length rows);
      }
