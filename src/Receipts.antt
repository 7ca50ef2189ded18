-- ===== src/Receipts.antt =====
-- The mutation routes' receipts (plugins/LumaeAnalysis/vibes.py and journeys.py): a mutation id is
-- acknowledged once, with the response that the first request had, and another body under the same
-- id is refused. Data and receipt are written in one transaction under the scope's lock, so a
-- request is one step from a store to a store.
pub mod Replay
pub mod Keeps
pub mod Retention
use lumae_plugin.Prelude.{
  ℕ, ◌≡◌, Bool, true, false, ◌&&◌, String, Option, none, some, List, [], ◌∷◌, ◌++◌, ◌==◌, ltb,
  if◌then◌else◌, first,
}
use lumae_plugin.Json.{Error, too_large}
use lumae_plugin.Feed.{Scope, same_scope, Table}

-- A row of the mutations table. Times are whole microseconds of the database's clock.
pub record Receipt (P : Type 0) : Type 0 where
  pub scope : Scope
  pub id : String
  pub response : P
  pub fingerprint : String
  pub created_at : ℕ

-- The record table with its sequence, and the receipts.
pub record Store (V P : Type 0) : Type 0 where
  pub table : Table V
  pub receipts : List (Receipt P)

-- What `apply_mutation` returns: a payload with status 200, or with 409.
pub data Outcome (P : Type 0) : Type 0 where
  accepted : P → Outcome P
  refused : P → Outcome P

-- The answer of a mutation route.
pub data Reply (P : Type 0) : Type 0 where
  done : P → Reply P  -- 200
  conflict : P → Reply P  -- 409, the payload of `apply_mutation`
  key_conflict : Reply P  -- 409, "idempotency_key_conflict"
  bad_request : Error → Reply P  -- 400
  server_error : Reply P  -- an exception that the route does not catch

module _ {P : Type 0} where
  unfoldable pub is_receipt : Scope → String → Receipt P → Bool
  unfolding same_scope
  is_receipt s i r = same_scope r.scope s && r.id == i

  -- SELECT response,request_fingerprint … WHERE principal=… AND catalog_id=… AND id=…
  unfoldable pub find_receipt : Scope → String → List (Receipt P) → Option (Receipt P)
  find_receipt s i receipts = first (is_receipt s i) receipts

  -- The route's answer to what its checks raised: it catches ValueError and TypeError only.
  unfoldable pub reject : Error → Reply P
  reject too_large = server_error
  reject e = bad_request e

module _ {V P : Type 0} where
  -- The write of an accepted mutation's receipt, or the 409 of a refused one with nothing written.
  unfoldable pub finish :
      Scope → String → String → ℕ → Store V P → Outcome P × Table V → Reply P × Store V P
  finish s i fingerprint now st (accepted payload, table) = (
    done payload,
    record {
      table = table;
      receipts =
          record {
            scope = s;
            id = i;
            response = payload;
            fingerprint = fingerprint;
            created_at = now;
          }
          ∷ st.receipts;
    },
  )
  finish s i fingerprint now st (refused payload, table) =
      (conflict payload, record st { table = table })

  unfoldable pub answer_receipt : String → Receipt P → Store V P → Reply P × Store V P
  answer_receipt fingerprint r st =
      if r.fingerprint == fingerprint then (done r.response, st) else (key_conflict, st)

  unfoldable pub decide :
      Option (Receipt P)
      → (Table V → Outcome P × Table V)
      → Scope
      → String
      → String
      → ℕ
      → Store V P
      → Reply P × Store V P
  unfolding finish answer_receipt
  decide (some r) apply s i fingerprint now st = answer_receipt fingerprint r st
  decide none apply s i fingerprint now st = finish s i fingerprint now st (apply st.table)

  -- The transaction of a mutation route, given what `apply_mutation` does to the record table.
  unfoldable pub acknowledge :
      (Table V → Outcome P × Table V)
      → Scope
      → String
      → String
      → ℕ
      → Store V P
      → Reply P × Store V P
  unfolding decide
  acknowledge apply s i fingerprint now st =
      decide (find_receipt s i st.receipts) apply s i fingerprint now st
