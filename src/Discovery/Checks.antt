-- ===== src/Discovery/Checks.antt =====
-- The checks of a personal discovery mutation (`validate` of
-- plugins/LumaeAnalysis/personal_discovery.py). The size of a value's JSON text is Python's, so it is
-- a parameter; it raises where a number is not finite.
pub mod Values
pub mod Sound
use Prim.Native.String.{count}
use lumae_plugin.Prelude.{
  ℕ, suc, ◌≡◌, refl, Bool, true, false, ◌&&◌, ◌||◌, not, String, Option, none, some, List, [], ◌∷◌,
  ◌==◌, ltb, if◌then◌else◌, any, arith,
}
use lumae_plugin.Json.{
  pos, negsuc, int, float, not_finite, Json, null, bool, num, str, arr, obj, Items, nil, cons,
  Fields, end, field, Result, ok, err, refused, unhashable, unless, get, has, ◌>>=◌, ◌>>◌,
}
use lumae_plugin.Json.Inversion.{bind-ok, unless-ok, ok_injective}
use lumae_plugin.Discovery.{
  Kind, album, want, memory, feedback, dismissal, rest, introduction, order, Operation, upsert,
  delete, restore, Mutation, set_field, identifier, canonical, fields_of,
}
use lumae_plugin.Discovery.Mutate.{is_upsert}
use lumae_plugin.Discovery.Checks.Values.{
  envelope, wants_recording, as_items, repeats, is_end, is_introduction, resent, is_one_of,
  is_text_of, is_null, keys_within, allowed_fields, kind_of, operation_of, revision_of,
  sent_fields_of, or_end, items_count, is_bad_time, is_bad_text, any_field, are_short_texts,
  is_bad_list, is_bad_aliases, is_bad_choice, is_not_bool, is_name,
}

module _ (uuid : String → Option String) (encoded_size : Fields → Result ℕ) where
  pub check_entity_kind : Kind → Fields → Result (Unit {0})
  unfolding is_name
  check_entity_kind kind entity =
      if is_text_of ("recording" ∷ []) (get "kind" entity)
      then (do i ← identifier uuid (get "mbid" entity); ok tt)
      else if is_text_of ("track" ∷ []) (get "kind" entity)
      then unless (not (is_name (get "id" entity) && is_name (get "catalogId" entity)))
          (refused "Tracks require catalogue-scoped identity")
      else if is_text_of ("album" ∷ "artist" ∷ []) (get "kind" entity)
      then unless
          (not (
            is_name (get "id" entity)
            || (is_name (get "mbid" entity) || is_name (get "name" entity))))
          (refused "Entity identity required")
      else err (refused "Invalid entity kind")

  pub check_entity : Kind → Bool → Json → Result (Unit {0})
  unfolding check_entity_kind keys_within
  check_entity kind false value = ok tt
  check_entity kind true (obj entity) = do
    unless
        (not (keys_within ("kind" ∷ "id" ∷ "catalogId" ∷ "mbid" ∷ "name" ∷ "artist" ∷ []) entity))
        (refused "Invalid entity reference")
    unless (has "artist" entity && not (is_name (get "artist" entity)))
        (refused "Invalid memory artist")
    checked ← check_entity_kind kind entity
    unless
        (wants_recording kind && not (is_text_of ("recording" ∷ "track" ∷ []) (get "kind" entity)))
        (refused "Recording identity required")
  check_entity kind true _ = err (refused "Invalid entity reference")

  pub with_canonical : Bool → Fields → Result Fields
  with_canonical false fields = ok fields
  with_canonical true fields = do
    key ← canonical uuid (get "canonicalKey" fields)
    ok (set_field "canonicalKey" (elim key [ none ↦ null | some k ↦ str k ]) fields)

  -- The fields of the names that are not None, as identifiers.
  pub with_identifiers : List String → Fields → Result Fields
  with_identifiers [] fields = ok fields
  with_identifiers (name ∷ names) fields =
      if is_null (get name fields) then with_identifiers names fields else (do
        i ← identifier uuid (get name fields)
        with_identifiers names (set_field name (str i) fields))

  pub identifiers_of : Items → Result (List String)
  identifiers_of nil = ok []
  identifiers_of (cons x items) = do
    i ← identifier uuid x
    more ← identifiers_of items
    ok (i ∷ more)

  pub with_ids : Bool → Json → Fields → Result Fields
  unfolding identifiers_of repeats
  with_ids true (arr items) fields = do
    ids ← identifiers_of items
    unless (repeats ids) (refused "Order contains duplicates")
    ok (set_field "ids" (arr (as_items ids)) fields)
  with_ids _ value fields = ok fields

  -- The tests of the field values, in the source's order.
  pub check_values : Kind → Fields → Result Fields
  unfolding any_field is_bad_time is_bad_text with_identifiers is_bad_aliases is_bad_choice
      check_entity with_ids
  check_values kind fields = do
    unless
        (any_field is_bad_time
          ("addedAt" ∷ "acquiredAt" ∷ "createdAt" ∷ "updatedAt" ∷ "introducedAt" ∷ "until" ∷ [])
          fields)
        (refused "Invalid timestamp")
    unless
        (any_field is_bad_text
          ("title" ∷ "artist" ∷ "note" ∷ "text" ∷ "period" ∷ "explanation" ∷ "source" ∷ []) fields)
        (refused "Expected text field")
    named ← with_identifiers ("albumId" ∷ "releaseGroupId" ∷ "releaseId" ∷ []) fields
    unless (any_field is_bad_aliases ("aliases" ∷ []) named) (refused "Invalid aliases")
    unless
        (any_field (is_bad_choice ("remembered" ∷ "new_to_me" ∷ "unknown" ∷ []))
          ("recognition" ∷ []) named)
        (refused "Invalid recognition")
    unless
        (any_field
          (is_bad_choice ("old_favourite" ∷ "enjoyed" ∷ "not_for_me" ∷ "neutral" ∷ "unknown" ∷ []))
          ("affection" ∷ []) named)
        (refused "Invalid affection")
    unless
        (any_field (is_bad_choice ("discovery" ∷ "comfort" ∷ "unclassified" ∷ [])) ("intent" ∷ [])
          named)
        (refused "Invalid saving intent")
    unless (any_field is_not_bool ("includeInRecommendations" ∷ []) named)
        (refused "Invalid memory consent")
    checked ← check_entity kind (has "entity" named) (get "entity" named)
    with_ids (has "ids" named) (get "ids" named) named

  -- The checks of the fields, once the envelope is read.
  pub validate_fields :
      (id epoch record_id : String) → Kind → Operation → ℕ → Option Fields → Result Mutation
  unfolding keys_within allowed_fields with_canonical is_bad_list check_values
  validate_fields id epoch record_id kind operation base sent = do
    unless (not (keys_within (allowed_fields kind) (or_end sent))) (refused "Invalid fields")
    size ← encoded_size (or_end sent)
    unless (ltb 16000 size) (refused "Record exceeds 16 KB")
    fields ← with_canonical (has "canonicalKey" (or_end sent)) (or_end sent)
    unless (any_field (is_bad_list 2000) ("ids" ∷ []) fields) (refused "Invalid order")
    unless (not (is_upsert operation) && not (is_end fields))
        (refused "Delete and restore do not change fields")
    unless (is_introduction kind && not (is_upsert operation))
        (refused "Introduction provenance cannot be removed through sync")
    final ← check_values kind fields
    ok (record {
      id = id;
      epoch = epoch;
      record_id = record_id;
      kind = kind;
      operation = operation;
      base_revision = base;
      sent_fields = resent sent final;
    })

  pub validate_object : Fields → Result Mutation
  unfolding keys_within kind_of operation_of revision_of sent_fields_of validate_fields
  validate_object body = do
    unless (not (keys_within envelope body)) (refused "Invalid mutation envelope")
    id ← identifier uuid (get "id" body)
    epoch ← identifier uuid (get "epoch" body)
    record_id ← identifier uuid (get "recordId" body)
    kind ← kind_of (get "kind" body)
    operation ← operation_of (get "operation" body)
    base ← revision_of (get "baseRevision" body)
    sent ← sent_fields_of (has "fields" body) (get "fields" body)
    validate_fields id epoch record_id kind operation base sent

  -- `validate(body)`
  unfoldable pub validate : Json → Result Mutation
  unfolding validate_object
  validate (obj body) = validate_object body
  validate _ = err (refused "Invalid mutation envelope")
