-- ===== src/Discovery.antt =====
-- Personal discovery (plugins/LumaeAnalysis/personal_discovery.py): `scope` and `mutate` on one
-- principal's tables. Its record table is a feed table whose middle key is the kind, and the scope
-- row's `head` is the last sequence number given. The principal's scope row is locked for the whole
-- of a request, so requests are steps.
pub mod Checks
pub mod Mutate
pub mod Again
pub mod Edits
pub mod Identities
pub mod Pages
pub mod Routes
use Prim.Native.String.{len, slice, ◌++◌ as ◌<>◌}
use text.Mathlib.Text.{starts_with}
use lumae_plugin.Prelude.{
  ℕ, suc, ◌+◌, ◌≡◌, Bool, true, false, ◌&&◌, ◌||◌, not, String, Option, none, some, List, [], ◌∷◌,
  ◌==◌, ltb, nat_eq, if◌then◌else◌, first,
}
use lumae_plugin.Json.{
  Json, null, str, Fields, end, field, Result, ok, err, refused, get, has, ◌>>=◌, ◌>>◌,
}
use lumae_plugin.Json.Equality.{same_json}
use lumae_plugin.Feed.{Scope, Row, Table, find, upsert as write_record}

-- The keys of FIELDS.
pub data Kind : Type 0 where
  album want memory feedback dismissal rest introduction order : Kind

abbrev pub kind_name : Kind → String
kind_name album = "album"
kind_name want = "want"
kind_name memory = "memory"
kind_name feedback = "feedback"
kind_name dismissal = "dismissal"
kind_name rest = "rest"
kind_name introduction = "introduction"
kind_name order = "order"

pub data Operation : Type 0 where
  upsert delete restore : Operation

-- A checked mutation; `fields` is `none` where the body has no such key.
pub record Mutation : Type 0 where
  pub id : String
  pub epoch : String
  pub record_id : String
  pub kind : Kind
  pub operation : Operation
  pub base_revision : ℕ
  pub sent_fields : Option Fields

abbrev pub fields_of : Mutation → Fields
fields_of m = elim m.sent_fields [ none ↦ end | some fields ↦ fields ]

-- The payload of discovery_records.
pub record Record : Type 0 where
  pub id : String
  pub kind : Kind
  pub revision : ℕ
  pub deleted : Bool
  pub fields : Fields
  pub field_revisions : List (String × ℕ)

-- What `mutate` answers: with 200, with 409, and `bootstrap_required` with 410.
pub data Payload : Type 0 where
  saved : (epoch : String) (cursor : ℕ) (written : Record) (alias : Option String) → Payload
  duplicate_save_conflict : Record → Record → Payload
  identity_or_provenance_conflict : Record → Payload
  revision_conflict : Record → Payload
  record_deleted : Record → Payload
  field_conflict : List String → Record → Payload
  mutation_id_reused : Payload
  bootstrap_required : (epoch : String) → Payload

pub record Receipt : Type 0 where
  pub id : String
  pub fingerprint : String
  pub payload : Payload

-- The tables of one principal. `epoch` is `none` before the scope row is there.
pub record Space : Type 0 where
  pub epoch : Option String
  pub table : Table Record
  pub receipts : List Receipt
  pub aliases : List (String × String × String)
  pub canonical_targets : List (String × String)

-- `scope(cur, user)`: the scope row, made with a new epoch where it is missing.
unfoldable pub scope : String → Space → String × Space
scope new_epoch sp = elim sp.epoch [
  | none ↦ (new_epoch, record sp { epoch = some new_epoch })
  | some epoch ↦ (epoch, sp)
]

abbrev pub is_of : String → Receipt → Bool
is_of i r = r.id == i

unfoldable pub alias_target : String → String → List (String × String × String) → Option String
alias_target kind i [] = none
alias_target kind i ((k, alias, target) ∷ rows) =
    let others = alias_target kind i rows in if k == kind && alias == i then some target else others

unfoldable pub canonical_target : String → List (String × String) → Option String
canonical_target i [] = none
canonical_target i ((identity, target) ∷ rows) =
    let others = canonical_target i rows in if identity == i then some target else others

-- `fields[key] = value`
unfoldable pub set_field : String → Json → Fields → Fields
set_field k v end = field k v end
set_field k v (field j w more) = if j == k then field j v more else field j w (set_field k v more)

unfoldable pub set_revision : String → ℕ → List (String × ℕ) → List (String × ℕ)
set_revision k n [] = (k, n) ∷ []
set_revision k n ((j, m) ∷ more) = if j == k then (j, n) ∷ more else (j, m) ∷ set_revision k n more

-- `fieldRevisions.get(key, 0)`
unfoldable pub field_revision : String → List (String × ℕ) → ℕ
field_revision k [] = 0
field_revision k ((j, n) ∷ more) =
    let others = field_revision k more in if j == k then n else others

abbrev pub release_group_prefix : String
release_group_prefix = "musicbrainz:release-group:"

-- `str(uuid.UUID(text))`, with `none` where it raises ValueError, is a parameter.
module _ (uuid : String → Option String) where
  abbrev pub parsed : Option String → Result String
  parsed none = err (refused "UUID required")
  parsed (some i) = ok i

  -- `identifier(value)`
  unfoldable pub identifier : Json → Result String
  identifier (str s) = parsed (uuid s)
  identifier _ = err (refused "UUID required")

  -- `canonical(value)`
  unfoldable pub canonical : Json → Result (Option String)
  unfolding identifier
  canonical null = ok none
  canonical (str s) =
      if starts_with s release_group_prefix
      then (do
        i ← identifier (str (slice s (len release_group_prefix) (len s)))
        ok (some (release_group_prefix <> i)))
      else err (refused "Only verified release-group identity can merge saves")
  canonical _ = err (refused "Only verified release-group identity can merge saves")

  unfoldable pub identity_of : Kind → Fields → Result (Option String)
  unfolding canonical
  identity_of want fields = canonical (get "canonicalKey" fields)
  identity_of kind fields = ok none
