-- ===== src/Shelves/Checks.antt =====
-- `validate_mutation` of plugins/LumaeAnalysis/shelves.py, with what `apply_mutation` reads of the body.
use lumae_plugin.Prelude.{
  ℕ, suc, ◌*◌, ◌^◌, Bool, true, false, ◌&&◌, not, String, Option, none, some, List, [], ◌∷◌, ◌==◌,
  ltb, leb, nat_eq, any, if◌then◌else◌,
}
use Prim.Native.String.{count}
use lumae_plugin.Json.{
  pos, int, float, Json, null, bool, num, str, arr, obj, Items, nil, cons, Fields, refused, Result,
  ok, err, unless, get, text_of, number, ◌>>=◌, ◌>>◌,
}
use lumae_plugin.Shelves.{Kind, album, artist, Incoming, Change, add, remove, restore}
use lumae_plugin.Shelves.Evidence.{Evidence}

-- What a checked body asks for: a change of a member, an arrangement, or a batch of evidence.
pub data Operation : Type 0 where
  change : Change → Operation
  order : Kind → List String → ℕ → Operation
  evidence : List Evidence → Operation

-- `kind not in ("album", "artist")`
kind_of : Json → String → Result Kind
kind_of (str s) text =
    if s == "album" then ok album else if s == "artist" then ok artist else err (refused text)
kind_of _ text = err (refused text)

short_text : Json → String → Result String
unfolding text_of
short_text value name = text_of value name 512

-- `if value is not None: _text(value, name)`
optional_text : Json → String → Result (Option String)
unfolding short_text
optional_text null name = ok none
optional_text value name = do s ← short_text value name; ok (some s)

artist_name_of : Json → Result String
artist_name_of (str s) = if ltb 4000 (count s) then err (refused "Invalid artist") else ok s
artist_name_of _ = err (refused "Invalid artist")

member_of : Json → Result Incoming
unfolding kind_of short_text text_of artist_name_of number optional_text
member_of (obj member) = do
  kind ← kind_of (get "kind" member) "Invalid member"
  id ← short_text (get "id" member) "id"
  entity_id ← short_text (get "entityId" member) "entityId"
  title ← text_of (get "title" member) "title" 4000
  artist_name ← artist_name_of (get "artist" member)
  added_at ← number (get "addedAt" member) "timestamp"
  artist_id ← optional_text (get "artistId" member) "artistId"
  cover_item_id ← optional_text (get "coverItemId" member) "coverItemId"
  ok (record {
    id = id;
    kind = kind;
    entity_id = entity_id;
    title = title;
    artist_name = artist_name;
    added_at = added_at;
    artist_id = artist_id;
    cover_item_id = cover_item_id;
  })
member_of _ = err (refused "Invalid member")

-- `_text` of each item
texts_of : Items → String → Result (List String)
unfolding short_text
texts_of nil name = ok []
texts_of (cons item items) name = do
  s ← short_text item name
  more ← texts_of items name
  ok (s ∷ more)

list_of : Json → String → Result Items
list_of (arr items) text = ok items
list_of _ text = err (refused text)

base_of : Json → Result ℕ
base_of (num (int (pos n))) = ok n
base_of _ = err (refused "Invalid revision")

is_one_of : List String → Json → Bool
is_one_of choices (str s) = any (λ c. c == s) choices
is_one_of choices _ = false

-- `rating in (None, 0, 1, 2, 3, 4, 5)`, by Python's equality of numbers and truth values
is_rating : Json → Bool
is_rating null = true
is_rating (bool b) = true
is_rating (num (int (pos n))) = leb n 5
is_rating (num (float (pos m) k)) = any (λ n. nat_eq m (n * 2 ^ k)) (0 ∷ 1 ∷ 2 ∷ 3 ∷ 4 ∷ 5 ∷ [])
is_rating _ = false

-- `if artistIds is not None:` and what follows
optional_texts : Json → Result (List String)
unfolding list_of texts_of
optional_texts null = ok []
optional_texts value = do ids ← list_of value "Invalid artist ids"; texts_of ids "artist id"

-- `if record["type"] == "search":` and what follows
visit_of : Bool → Json → Result (Option String)
unfolding short_text
visit_of false value = ok none
visit_of true value = do s ← short_text value "search visit"; ok (some s)

evidence_of : Json → Result Evidence
unfolding is_one_of text_of number is_rating optional_text optional_texts visit_of
evidence_of (obj sent) = do
  unless
      (not
        (is_one_of ("search" ∷ "rating" ∷ "view" ∷ "listen" ∷ "coverage" ∷ []) (get "type" sent)))
      (refused "Invalid evidence")
  unless (not (is_one_of ("album" ∷ "artist" ∷ "track" ∷ []) (get "entityKind" sent)))
      (refused "Invalid evidence entity")
  id ← text_of (get "id" sent) "id" 2000
  entity ← text_of (get "entityId" sent) "entityId" 2000
  at ← number (get "at" sent) "timestamp"
  unless (is_one_of ("rating" ∷ []) (get "type" sent) && not (is_rating (get "rating" sent)))
      (refused "Invalid rating")
  of_album ← optional_text (get "albumId" sent) "album id"
  artists ← optional_texts (get "artistIds" sent)
  visit ← visit_of (is_one_of ("search" ∷ []) (get "type" sent)) (get "visitId" sent)
  ok (record { id = id; at = at; sent = sent })
evidence_of _ = err (refused "Invalid evidence")

batch_of : Items → Result (List Evidence)
unfolding evidence_of
batch_of nil = ok []
batch_of (cons item items) = do e ← evidence_of item; more ← batch_of items; ok (e ∷ more)

size_of : Items → ℕ
size_of nil = 0
size_of (cons item items) = suc (size_of items)

-- `records`, a list of 1 to 500
records_of : Json → Result Items
unfolding size_of
records_of (arr items) =
    if ltb 0 (size_of items) && leb (size_of items) 500
    then ok items
    else err (refused "Evidence batches contain 1 to 500 records")
records_of _ = err (refused "Evidence batches contain 1 to 500 records")

-- The branches of `operation`; a value that is no text equals none of the known operations.
operation_of : Json → Fields → Result Operation
unfolding member_of short_text number kind_of list_of texts_of base_of records_of batch_of
operation_of (str operation) body =
    if operation == "add"
    then (do m ← member_of (get "member" body); ok (change (add m)))
    else if operation == "remove"
    then (do
      i ← short_text (get "memberId" body) "member id"
      at ← number (get "at" body) "timestamp"
      ok (change (remove i at)))
    else if operation == "restore"
    then (do
      i ← short_text (get "memberId" body) "member id"
      at ← number (get "at" body) "timestamp"
      ok (change (restore i)))
    else if operation == "order"
    then (do
      kind ← kind_of (get "kind" body) "Invalid shelf kind"
      sent ← list_of (get "ids" body) "Invalid arrangement"
      ids ← texts_of sent "member id"
      base ← base_of (get "baseRevision" body)
      ok (order kind ids base))
    else if operation == "evidence"
    then (do
      records ← records_of (get "records" body)
      batch ← batch_of records
      ok (evidence batch))
    else err (refused "Invalid operation")
operation_of _ body = err (refused "Invalid operation")

-- The mutation's id and operation.
unfoldable pub validate_mutation : Json → Result (String × Operation)
unfolding text_of operation_of
validate_mutation (obj body) = do
  id ← text_of (get "id" body) "mutation id" 200
  operation ← operation_of (get "operation" body) body
  ok (id, operation)
validate_mutation _ = err (refused "Expected a mutation object")
