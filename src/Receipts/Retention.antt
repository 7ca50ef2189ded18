-- ===== src/Receipts/Retention.antt =====
-- The purge of old receipts (`purge_expired_vibe_mutations` and `purge_expired_journey_mutations`):
-- bounded batches, the oldest first. Each batch is one transaction under its scopes' locks.
pub mod Survivors
use lumae_plugin.Prelude.{
  ℕ, zero, suc, ◌+◌, ◌-◌, ◌*◌, ◌≤◌, ◌≡◌, Bool, true, false, ◌&&◌, String, List, [], ◌∷◌, ltb, leb,
  ◌==◌, nat_eq, if◌then◌else◌, length, take, keep, not, any,
}
use lumae_plugin.Feed.{Scope, same_scope}
use lumae_plugin.Receipts.{Receipt}

-- RECEIPT_RETENTION_DAYS, in microseconds
abbrev pub retention : ℕ
retention = 30 * 24 * 3600 * 1000000

pub record Purge (P : Type 0) : Type 0 where
  pub receipts : List (Receipt P)
  pub deleted : ℕ

module _ {P : Type 0} where
  -- `created_at < now() - interval '30 days'`
  unfoldable pub is_expired : ℕ → Receipt P → Bool
  is_expired now r = ltb (r.created_at + retention) now

  -- ORDER BY created_at
  insert_by_age : Receipt P → List (Receipt P) → List (Receipt P)
  insert_by_age r [] = r ∷ []
  insert_by_age r (x ∷ xs) =
      if leb r.created_at x.created_at then r ∷ x ∷ xs else x ∷ insert_by_age r xs

  order_by_age : List (Receipt P) → List (Receipt P)
  unfolding insert_by_age
  order_by_age [] = []
  order_by_age (r ∷ rs) = insert_by_age r (order_by_age rs)

  -- A row is named by its physical place (`ctid`); the table's key names it as well.
  same_row : Receipt P → Receipt P → Bool
  unfolding same_scope
  same_row a b = same_scope a.scope b.scope && a.id == b.id

  unfoldable pub batch : ℕ → ℕ → List (Receipt P) → List (Receipt P)
  unfolding is_expired order_by_age
  batch now batch_rows receipts = take batch_rows (order_by_age (keep (is_expired now) receipts))

  -- DELETE … WHERE ctid = ANY(…) AND created_at < …
  unfoldable pub delete_batch : ℕ → List (Receipt P) → List (Receipt P) → List (Receipt P)
  unfolding is_expired same_row
  delete_batch now rows receipts =
      keep (λ r. not (any (same_row r) rows && is_expired now r)) receipts

  -- The loop over at most `max_batches` batches. (All batches of a call read one clock here.)
  unfoldable pub purge_from : ℕ → ℕ → ℕ → Purge P → Purge P
  unfolding batch delete_batch
  purge_from now batch_rows zero p = p
  purge_from now batch_rows (suc max_batches) p =
      let rows = batch now batch_rows p.receipts in
      let receipts = delete_batch now rows p.receipts in
      let next : Purge P = record {
        receipts = receipts;
        deleted = p.deleted + (length p.receipts - length receipts);
      } in
      let rest = purge_from now batch_rows max_batches next in
      if nat_eq (length rows) 0 then p else if ltb (length rows) batch_rows then next else rest
