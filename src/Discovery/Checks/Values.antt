-- ===== src/Discovery/Checks/Values.antt =====
-- The tests of single values in `validate` of plugins/LumaeAnalysis/personal_discovery.py.
use Prim.Native.String.{count}
use lumae_plugin.Prelude.{
  ℕ, suc, Bool, true, false, ◌&&◌, ◌||◌, not, String, Option, none, some, List, [], ◌∷◌, ◌==◌, ltb,
  if◌then◌else◌, any,
}
use lumae_plugin.Json.{
  pos, int, float, not_finite, Json, null, bool, num, str, arr, obj, Items, nil, cons, Fields, end,
  field, Result, ok, err, refused, unhashable, get, has,
}
use lumae_plugin.Discovery.{
  Kind, album, want, memory, feedback, dismissal, rest, introduction, order, Operation, upsert,
  delete, restore,
}

abbrev pub is_one_of : List String → String → Bool
is_one_of names s = any (λ name. name == s) names

-- Whether a value is one of some texts.
abbrev pub is_text_of : List String → Json → Bool
is_text_of names (str s) = is_one_of names s
is_text_of names _ = false

abbrev pub is_null : Json → Bool
is_null null = true
is_null _ = false

unfoldable pub keys_within : List String → Fields → Bool
keys_within names end = true
keys_within names (field k v more) = is_one_of names k && keys_within names more

-- FIELDS
unfoldable pub allowed_fields : Kind → List String
allowed_fields album =
    "title" ∷ "artist" ∷ "aliases" ∷ "verification" ∷ "releaseGroupId" ∷ "releaseId" ∷ []
allowed_fields want =
    "albumId" ∷ "intent" ∷ "note" ∷ "addedAt" ∷ "source" ∷ "explanation" ∷ "acquiredAt"
    ∷ "canonicalKey" ∷ []
allowed_fields memory = "entity" ∷ "text" ∷ "period" ∷ "includeInRecommendations" ∷ "createdAt" ∷ []
allowed_fields feedback = "entity" ∷ "recognition" ∷ "affection" ∷ "updatedAt" ∷ []
allowed_fields dismissal = "entity" ∷ "until" ∷ "createdAt" ∷ []
allowed_fields rest = "entity" ∷ "until" ∷ "createdAt" ∷ []
allowed_fields introduction = "entity" ∷ "source" ∷ "introducedAt" ∷ "policyVersion" ∷ []
allowed_fields order = "ids" ∷ []

unfoldable pub kind_of : Json → Result Kind
kind_of (str s) =
    if s == "album"
    then ok album
    else if s == "want"
    then ok want
    else if s == "memory"
    then ok memory
    else if s == "feedback"
    then ok feedback
    else if s == "dismissal"
    then ok dismissal
    else if s == "rest"
    then ok rest
    else if s == "introduction"
    then ok introduction
    else if s == "order"
    then ok order
    else err (refused "Invalid record kind or operation")
kind_of (arr items) = err unhashable
kind_of (obj fields) = err unhashable
kind_of _ = err (refused "Invalid record kind or operation")

unfoldable pub operation_of : Json → Result Operation
operation_of (str s) =
    if s == "upsert"
    then ok upsert
    else if s == "delete"
    then ok delete
    else if s == "restore"
    then ok restore
    else err (refused "Invalid record kind or operation")
operation_of _ = err (refused "Invalid record kind or operation")

unfoldable pub revision_of : Json → Result ℕ
revision_of (num (int (pos n))) = ok n
revision_of _ = err (refused "Invalid revision")

unfoldable pub sent_fields_of : Bool → Json → Result (Option Fields)
sent_fields_of false value = ok none
sent_fields_of true (obj fields) = ok (some fields)
sent_fields_of true _ = err (refused "Invalid fields")

abbrev pub or_end : Option Fields → Fields
or_end none = end
or_end (some fields) = fields

unfoldable pub items_count : Items → ℕ
items_count nil = 0
items_count (cons x items) = suc (items_count items)

unfoldable pub is_bad_time : Json → Bool
is_bad_time null = false
is_bad_time (num (int (pos n))) = false
is_bad_time (num (float (pos n) k)) = false
is_bad_time (num not_finite) = false
is_bad_time _ = true

unfoldable pub is_bad_text : Json → Bool
is_bad_text null = false
is_bad_text (str s) = false
is_bad_text _ = true

-- Whether a field of one of the names is there and fails the test.
unfoldable pub any_field : (Json → Bool) → List String → Fields → Bool
any_field bad [] fields = false
any_field bad (name ∷ names) fields =
    (has name fields && bad (get name fields)) || any_field bad names fields

unfoldable pub are_short_texts : Items → Bool
are_short_texts nil = true
are_short_texts (cons (str s) items) = not (ltb 500 (count s)) && are_short_texts items
are_short_texts (cons x items) = false

unfoldable pub is_bad_list : ℕ → Json → Bool
is_bad_list most (arr items) = ltb most (items_count items)
is_bad_list most _ = true

unfoldable pub is_bad_aliases : Json → Bool
is_bad_aliases (arr items) = ltb 200 (items_count items) || not (are_short_texts items)
is_bad_aliases _ = true

unfoldable pub is_bad_choice : List String → Json → Bool
is_bad_choice names value = not (is_null value || is_text_of names value)

abbrev pub is_not_bool : Json → Bool
is_not_bool (bool b) = false
is_not_bool _ = true

-- A text of 1 to 500 characters.
unfoldable pub is_name : Json → Bool
is_name (str s) = ltb 0 (count s) && not (ltb 500 (count s))
is_name _ = false

abbrev pub wants_recording : Kind → Bool
wants_recording rest = true
wants_recording introduction = true
wants_recording _ = false

abbrev pub as_items : List String → Items
as_items [] = nil
as_items (i ∷ ids) = cons (str i) (as_items ids)

unfoldable pub repeats : List String → Bool
repeats [] = false
repeats (i ∷ ids) = is_one_of ids i || repeats ids

abbrev pub is_end : Fields → Bool
is_end end = true
is_end (field k v more) = false

abbrev pub is_introduction : Kind → Bool
is_introduction introduction = true
is_introduction _ = false

abbrev pub resent : Option Fields → Fields → Option Fields
resent none fields = none
resent (some sent) fields = some fields

abbrev pub envelope : List String
envelope = "id" ∷ "epoch" ∷ "recordId" ∷ "kind" ∷ "operation" ∷ "baseRevision" ∷ "fields" ∷ []
