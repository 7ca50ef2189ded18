-- ===== src/Vibes.antt =====
-- Saved Vibes, plugins/LumaeAnalysis/vibes.py: the checks of a mutation, `apply_mutation`, and the
-- two routes. The canonical text of a JSON value (`json.dumps`, UTF-8) and its SHA-256 are Python's,
-- so its size and the fingerprint are parameters; either may raise.
pub mod Revisions
pub mod Accepts
pub mod Devices
use lumae_plugin.Prelude.{
  ℕ, suc, ◌+◌, ◌*◌, ◌≡◌, Bool, true, false, ◌||◌, not, String, Option, none, some, List, [], ◌∷◌,
  ◌==◌, ltb, leb, nat_eq, if◌then◌else◌, min, max,
}
use text.Mathlib.Text.{starts_with}
use lumae_plugin.Json.{
  ℤ, pos, negsuc, Number, int, Json, null, num, str, arr, obj, Fields, Error, invalid,
  refused as refused_with, unhashable, Result, ok, err, unless, get, text_of, number, ◌>>=◌, ◌>>◌,
}
use lumae_plugin.Feed.{Scope, Row, Table, Page, find, upsert, changes}
use lumae_plugin.Receipts.{
  Store, Outcome, accepted, refused, Reply, server_error, bad_request, acknowledge, reject,
}

-- What a checked mutation does: store a document as sent, or delete at a time.
pub data Change : Type 0 where
  put : Fields → Change
  delete : Number → Change

pub record Mutation : Type 0 where
  pub id : String
  pub vibe_id : String
  pub base_revision : ℕ
  pub change : Change

-- A stored Vibe: the columns `revision` and `value` of vibe_records.
pub record Vibe : Type 0 where
  pub revision : ℕ
  pub deleted_at : Option Number
  pub vibe : Option Fields

-- `_record(identifier, revision, value)`
pub record VibeRecord : Type 0 where
  pub id : String
  pub revision : ℕ
  pub deleted_at : Option Number
  pub vibe : Option Fields

pub data Payload : Type 0 where
  stored : VibeRecord → Payload
  vibe_conflict : Option VibeRecord → Payload

abbrev pub max_vibe_bytes : ℕ
max_vibe_bytes = 65536

abbrev pub max_request_bytes : ℕ
max_request_bytes = 2 * max_vibe_bytes

-- VIBE_KIND_PREFIXES
pub kind_prefix : String → Option String
kind_prefix kind =
    if kind == "palette"
    then some "palette:"
    else if kind == "compass"
    then some "compass_preset:"
    else if kind == "dna"
    then some "dna_vibe:"
    else none

pub has_some_prefix : String → Bool
has_some_prefix vibe_id =
    starts_with vibe_id "palette:"
    || starts_with vibe_id "compass_preset:"
    || starts_with vibe_id "dna_vibe:"

-- `VIBE_KIND_PREFIXES[vibe["kind"]]`, or what `not in` does with the value.
prefix_of : Json → Result String
unfolding kind_prefix
prefix_of (str kind) = elim (kind_prefix kind) [
  | some prefix ↦ ok prefix
  | none ↦ err (refused_with "Invalid vibe")
]
prefix_of (arr items) = err unhashable
prefix_of (obj fields) = err unhashable
prefix_of _ = err (refused_with "Invalid vibe")

pub revision : Json → Result ℕ
revision (num (int (pos n))) = ok n
revision _ = err (refused_with "Invalid revision")

pub optional_text : Json → String → ℕ → Result (Unit {0})
unfolding text_of
optional_text null name maximum = ok tt
optional_text value name maximum = do checked ← text_of value name maximum; ok tt

pub is_object : Json → Bool
is_object (obj fields) = true
is_object _ = false

-- `body.get("operation")` as the tests read it: a value that is no text equals no operation.
operation_of : Json → String
operation_of (str s) = s
operation_of _ = ""

module _ (canonical_size : Json → Result ℕ) where
  -- the branch `operation == "put"`
  validate_vibe : String → Json → Result Fields
  unfolding prefix_of optional_text is_object
  validate_vibe vibe_id (obj vibe) = do
    prefix ← prefix_of (get "kind" vibe)
    unless (not (starts_with vibe_id prefix)) (refused_with "Vibe id does not match its kind")
    name ← text_of (get "name" vibe) "vibe name" 500
    optional_text (get "createdAt" vibe) "created time" 64
    unless (not (is_object (get "recipe" vibe))) (refused_with "Invalid recipe")
    size ← canonical_size (obj vibe)
    unless (ltb max_vibe_bytes size) (refused_with "Vibe is too large")
    ok vibe
  validate_vibe vibe_id _ = err (refused_with "Invalid vibe")

  validate_change : String → String → Fields → Result Change
  unfolding validate_vibe
  validate_change operation vibe_id body =
      if operation == "put"
      then (do vibe ← validate_vibe vibe_id (get "vibe" body); ok (put vibe))
      else if operation == "delete"
      then (do at ← number (get "at" body) "timestamp"; ok (delete at))
      else err (refused_with "Invalid operation")

  unfoldable pub validate_mutation : Json → Result Mutation
  unfolding has_some_prefix revision validate_change operation_of
  validate_mutation (obj body) = do
    id ← text_of (get "id" body) "mutation id" 200
    vibe_id ← text_of (get "vibeId" body) "vibe id" 512
    unless (not (has_some_prefix vibe_id)) (refused_with "Invalid vibe id")
    base ← revision (get "baseRevision" body)
    change ← validate_change (operation_of (get "operation" body)) vibe_id body
    ok (record { id = id; vibe_id = vibe_id; base_revision = base; change = change })
  validate_mutation _ = err (refused_with "Expected a mutation object")

pub record_of : Row Vibe → VibeRecord
record_of row = record {
  id = row.id;
  revision = row.value.revision;
  deleted_at = row.value.deleted_at;
  vibe = row.value.vibe;
}

-- `row[0] if row else 0`
abbrev pub current_revision : Option (Row Vibe) → ℕ
current_revision none = 0
current_revision (some row) = row.value.revision

pub changed : Change → ℕ → Vibe
changed (put vibe) n = record { revision = n; deleted_at = none; vibe = some vibe }
changed (delete at) n = record { revision = n; deleted_at = some at; vibe = none }

pub shown : Option (Row Vibe) → Option VibeRecord
unfolding record_of
shown none = none
shown (some row) = some (record_of row)

unfoldable pub apply_mutation : Scope → Mutation → Table Vibe → Outcome Payload × Table Vibe
unfolding record_of changed shown
apply_mutation s m t =
    let row = find s m.vibe_id t.rows in
    let current = current_revision row in
    if nat_eq current m.base_revision
    then (let value = changed m.change (current + 1) in
        let t' = upsert s m.vibe_id value t in
        let new : VibeRecord = record {
          id = m.vibe_id;
          revision = value.revision;
          deleted_at = value.deleted_at;
          vibe = value.vibe;
        } in
        (accepted (stored new), t'))
    else (refused (vibe_conflict (shown row)), t)

-- `_text(request.args.get("catalog_id"), …)`
catalog_of : Option String → Result String
catalog_of none = err (invalid "catalogue identity")
catalog_of (some s) = text_of (str s) "catalogue identity" 512

too_long : Option ℕ → Bool
too_long none = false
too_long (some n) = ltb max_request_bytes n

pub record Request : Type 0 where
  pub principal : String
  pub catalog_id : Option String
  pub content_length : Option ℕ
  pub body : Json

module _ (canonical_size : Json → Result ℕ) (fingerprint : Json → Result String) where
  check_request : Request → Result (Scope × Mutation)
  unfolding too_long catalog_of validate_mutation
  check_request r = do
    unless (too_long r.content_length) (refused_with "Request too large")
    catalog ← catalog_of r.catalog_id
    m ← validate_mutation canonical_size r.body
    ok (record { principal = r.principal; catalog = catalog }, m)

  -- What the route answers, given what its checks and the fingerprint gave.
  respond :
      ℕ
      → Result (Scope × Mutation)
      → Result String
      → Store Vibe Payload
      → Reply Payload × Store Vibe Payload
  respond now (err e) f st = (reject e, st)
  respond now (ok (s, m)) (err e) st = (server_error, st)
  respond now (ok (s, m)) (ok f) st = acknowledge (apply_mutation s m) s m.id f now st

  -- POST /api/vibes/mutations at the time `now`
  unfoldable pub vibe_mutation :
      ℕ → Request → Store Vibe Payload → Reply Payload × Store Vibe Payload
  unfolding check_request respond
  vibe_mutation now r st = respond now (check_request r) (fingerprint r.body) st

-- `max(1, min(500, int(…)))`
pub page_limit : ℤ → ℕ
page_limit (pos n) = max 1 (min 500 n)
page_limit (negsuc n) = 1

-- GET /api/vibes/changes; a cursor or a limit that `int` refuses is `none`.
unfoldable pub vibe_changes :
    String → Option String → Option ℤ → Option ℤ → Table Vibe → Result (Page Vibe)
unfolding catalog_of page_limit
vibe_changes principal catalog_id (some (pos cursor)) (some limit) t = do
  catalog ← catalog_of catalog_id
  ok (changes (record { principal = principal; catalog = catalog }) cursor (page_limit limit) t)
vibe_changes principal catalog_id _ _ t = do
  catalog ← catalog_of catalog_id
  err (refused_with "Invalid cursor")
