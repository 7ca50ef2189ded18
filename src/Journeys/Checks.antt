-- ===== src/Journeys/Checks.antt =====
-- The checks of a journey mutation: `_validate_journey`, `_validate_credits` and
-- `validate_mutation` of plugins/LumaeAnalysis/journeys.py, which read a body into the typed records.
pub mod Sound
use lumae_plugin.Prelude.{
  ℕ, suc, ◌^◌, ◌≡◌, Bool, true, false, ◌||◌, not, String, Option, none, some, List, [], ◌∷◌, ◌==◌,
  ltb, nat_eq, if◌then◌else◌, any,
}
use lumae_plugin.Json.{
  ℤ, pos, negsuc, Number, int, float, not_finite, Json, null, bool, num, str, arr, obj, Items, nil,
  cons, Fields, Error, refused, Result, ok, err, unless, get, has, text_of, number, optional_number,
  ◌>>=◌, ◌>>◌,
}
use lumae_plugin.Journeys.{Entry, Place, Journey, Credit, Change, upsert_journey, delete, Mutation}
use Prim.Native.String.{count}

abbrev pub max_journey_bytes : ℕ
max_journey_bytes = 1500000

-- `value == JOURNEY_VERSION`: in Python 1.0 and True equal 1 too.
is_one : Json → Bool
is_one (num (int (pos n))) = nat_eq n 1
is_one (num (float (pos m) k)) = nat_eq m (2 ^ k)
is_one (bool b) = b
is_one _ = false

-- `value in (…)` for a tuple of texts
pub one_of : List String → Json → Bool
one_of choices (str s) = any (λ c. c == s) choices
one_of choices _ = false

pub string_or_empty : Json → String
string_or_empty (str s) = s
string_or_empty _ = ""

abbrev pub statuses : List String
statuses = "in-progress" ∷ "finished" ∷ []

abbrev pub entry_states : List String
entry_states = "pending" ∷ "played" ∷ []

abbrev pub outcomes : List String
outcomes = "ended" ∷ "skipped" ∷ "heard" ∷ []

name_of : Json → Result String
name_of (str s) = if ltb 1000 (count s) then err (refused "Invalid journey name") else ok s
name_of _ = err (refused "Invalid journey name")

optional_text : Json → String → ℕ → Result (Option String)
unfolding text_of
optional_text null name maximum = ok none
optional_text value name maximum = do s ← text_of value name maximum; ok (some s)

pub place_of : Json → Result Place
unfolding optional_text number
place_of (obj place) = do
  entry ← optional_text (get "entryId" place) "place entry" 200
  position ← number (get "positionSeconds" place) "place position"
  ok (record { entry_id = entry; position_seconds = position; rest = place })
place_of _ = err (refused "Invalid place")

pub entry_of : List String → Json → Result Entry
unfolding one_of string_or_empty optional_number
entry_of seen (obj entry) = do
  id ← text_of (get "entryId" entry) "entry id" 200
  unless (any (λ s. s == id) seen) (refused "Duplicate entry id")
  unless (not (one_of entry_states (get "state" entry))) (refused "Invalid entry state")
  at ← optional_number (get "stateAt" entry) "entry state time"
  ok (record {
    entry_id = id;
    state = string_or_empty (get "state" entry);
    state_by = get "stateBy" entry;
    state_at = at;
    rest = entry;
  })
entry_of seen _ = err (refused "Invalid entry")

-- The loop over `entries`, with the ids seen so far.
pub entries_of : List String → Items → Result (List Entry)
unfolding entry_of
entries_of seen nil = ok []
entries_of seen (cons value items) = do
  entry ← entry_of seen value
  others ← entries_of (entry.entry_id ∷ seen) items
  ok (entry ∷ others)

items_of : Json → Error → Result Items
items_of (arr items) e = ok items
items_of _ e = err e

is_text : Json → String → Bool
is_text (str s) t = s == t
is_text _ t = false

-- `_validate_journey(journey, journey_id)`
pub journey_of : String → Json → Result Journey
unfolding is_one is_text name_of one_of string_or_empty place_of optional_number items_of entries_of
journey_of journey_id (obj journey) = do
  unless (not (is_one (get "version" journey))) (refused "Invalid journey")
  unless (not (is_text (get "id" journey) journey_id)) (refused "Journey id does not match")
  name ← name_of (get "name" journey)
  unless (not (one_of statuses (get "status" journey))) (refused "Invalid journey status")
  place ← place_of (get "place" journey)
  played ← optional_number (get "lastPlayedAt" journey) "last played time"
  items ← items_of (get "entries" journey) (refused "Invalid entries")
  entries ← entries_of [] items
  ok (record {
    id = string_or_empty (get "id" journey);
    name = name;
    status = string_or_empty (get "status" journey);
    place = place;
    last_played_at = played;
    entries = entries;
    rest = journey;
  })
journey_of journey_id _ = err (refused "Invalid journey")

pub credit_from : List String → Json → Result Credit
unfolding one_of string_or_empty number
credit_from seen (obj credit) = do
  occurrence ← text_of (get "occurrenceId" credit) "occurrence id" 300
  unless (any (λ s. s == occurrence) seen) (refused "Duplicate credit")
  entry ← text_of (get "entryId" credit) "credit entry" 200
  unless (not (one_of outcomes (get "outcome" credit))) (refused "Invalid credit outcome")
  heard ← number (get "heardSeconds" credit) "heard seconds"
  ok (record {
    occurrence_id = occurrence;
    entry_id = entry;
    outcome = string_or_empty (get "outcome" credit);
    heard_seconds = heard;
    rest = credit;
  })
credit_from seen _ = err (refused "Invalid credit")

-- `_validate_credits(credits)`, the loop with the occurrences seen so far
pub credits_of : List String → Items → Result (List Credit)
unfolding credit_from
credits_of seen nil = ok []
credits_of seen (cons value items) = do
  credit ← credit_from seen value
  others ← credits_of (credit.occurrence_id ∷ seen) items
  ok (credit ∷ others)

-- `body.get("baseRevision", "missing")`: `None` is a value, a missing key is refused.
base_of : Fields → Result (Option ℕ)
base_of body = elim (get "baseRevision" body) [
  | null ↦ if has "baseRevision" body then ok none else err (refused "Invalid revision")
  | num n ↦ elim n [
    | int z ↦ elim z [
      | pos k ↦ if nat_eq k 0 then err (refused "Invalid revision") else ok (some k)
      | negsuc k ↦ err (refused "Invalid revision")
    ]
    | _ ↦ err (refused "Invalid revision")
  ]
  | _ ↦ err (refused "Invalid revision")
]

pub change_of : String → Fields → Result Change
unfolding journey_of items_of credits_of is_text number
change_of journey_id body =
    if is_text (get "operation" body) "upsert"
    then (do
      journey ← journey_of journey_id (get "journey" body)
      items ← items_of (get "credits" body) (refused "Invalid credits")
      credits ← credits_of [] items
      ok (upsert_journey journey credits))
    else if is_text (get "operation" body) "delete"
    then (do at ← number (get "at" body) "timestamp"; ok (delete at))
    else err (refused "Invalid operation")

-- The size of the canonical text is Python's; `allow_nan=False` makes it raise at a NaN.
module _ (canonical_size : Json → Result ℕ) where
  unfoldable pub validate_mutation : Json → Result Mutation
  unfolding base_of change_of
  validate_mutation (obj body) = do
    id ← text_of (get "id" body) "mutation id" 300
    journey_id ← text_of (get "journeyId" body) "journey id" 200
    base ← base_of body
    change ← change_of journey_id body
    size ← canonical_size (obj body)
    unless (ltb max_journey_bytes size) (refused "Journey is too large")
    ok (record { id = id; journey_id = journey_id; base_revision = base; change = change })
  validate_mutation _ = err (refused "Expected a mutation object")
