-- ===== src/Journeys/Routes.antt =====
-- The routes of plugins/LumaeAnalysis/journeys.py: POST /api/journeys/mutations and
-- GET /api/journeys/changes.
pub mod Devices
use lumae_plugin.Prelude.{ℕ, ◌*◌, ◌≡◌, Bool, false, String, Option, none, some, ltb, min, max}
use lumae_plugin.Json.{
  ℤ, pos, negsuc, Json, str, Error, invalid, refused as refused_with, Result, ok, err, unless,
  text_of, ◌>>=◌, ◌>>◌,
}
use lumae_plugin.Feed.{Scope, Table, Page, changes}
use lumae_plugin.Receipts.{Store, Reply, server_error, acknowledge, reject}
use lumae_plugin.Journeys.{Mutation, Stored, Payload, apply_mutation}
use lumae_plugin.Journeys.Checks.{validate_mutation, max_journey_bytes}

abbrev max_request_bytes : ℕ
max_request_bytes = 2 * max_journey_bytes

-- `_text(request.args.get("catalog_id"), …)`
catalog_of : Option String → Result String
catalog_of none = err (invalid "catalogue identity")
catalog_of (some s) = text_of (str s) "catalogue identity" 512

too_long : Option ℕ → Bool
too_long none = false
too_long (some n) = ltb max_request_bytes n

pub record Request : Type 0 where
  pub principal : String
  pub catalog_id : Option String
  pub content_length : Option ℕ
  pub body : Json

module _ (canonical_size : Json → Result ℕ) (fingerprint : Json → Result String) where
  check_request : Request → Result (Scope × Mutation)
  unfolding too_long catalog_of validate_mutation
  check_request r = do
    unless (too_long r.content_length) (refused_with "Request too large")
    catalog ← catalog_of r.catalog_id
    m ← validate_mutation canonical_size r.body
    ok (record { principal = r.principal; catalog = catalog }, m)

  -- What the route answers, given what its checks and the fingerprint gave.
  respond :
      ℕ
      → Result (Scope × Mutation)
      → Result String
      → Store Stored Payload
      → Reply Payload × Store Stored Payload
  respond now (err e) f st = (reject e, st)
  respond now (ok (s, m)) (err e) st = (server_error, st)
  respond now (ok (s, m)) (ok f) st = acknowledge (apply_mutation s m) s m.id f now st

  -- POST /api/journeys/mutations at the time `now`
  unfoldable pub journey_mutation :
      ℕ → Request → Store Stored Payload → Reply Payload × Store Stored Payload
  unfolding check_request respond
  journey_mutation now r st = respond now (check_request r) (fingerprint r.body) st

-- `max(1, min(500, int(…)))`
pub page_limit : ℤ → ℕ
page_limit (pos n) = max 1 (min 250 n)
page_limit (negsuc n) = 1

-- GET /api/journeys/changes; a cursor or a limit that `int` refuses is `none`.
unfoldable pub journey_changes :
    String → Option String → Option ℤ → Option ℤ → Table Stored → Result (Page Stored)
unfolding catalog_of page_limit
journey_changes principal catalog_id (some (pos cursor)) (some limit) t = do
  catalog ← catalog_of catalog_id
  ok (changes (record { principal = principal; catalog = catalog }) cursor (page_limit limit) t)
journey_changes principal catalog_id _ _ t = do
  catalog ← catalog_of catalog_id
  err (refused_with "Invalid cursor")
