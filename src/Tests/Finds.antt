-- ===== src/Tests/Finds.antt =====
-- Personal discovery: a wanted album that two devices save under two record ids.
use lumae_plugin.Prelude.{
  ℕ, ◌≤◌, ◌<◌, ◌≡◌, refl, ◌⊎◌, true, false, String, Option, none, some, [], ◌∷◌, Has, arith,
}
use lumae_plugin.Json.{Json, str, num, int, pos, obj, Fields, end, field, Result, ok, err, get, has}
use lumae_plugin.Json.Equality.{same_json}
use lumae_plugin.Feed.{Row, find, upsert as write_record, has_key}
use lumae_plugin.Feed.Order.{SeqsDiffer}
use lumae_plugin.Discovery.{
  Mutation, Record, Payload, saved, mutation_id_reused, Space, want, upsert, fields_of, scope,
  canonical_target, alias_target, identifier,
}
use lumae_plugin.Discovery.Mutate.{apply, mutate, chosen_for, record_at, is_upsert}
use lumae_plugin.Discovery.Again.{serve, serve_all, mutate_again}
use lumae_plugin.Discovery.Edits.{IsSafeEdit, IsWritten, apply-IsSafeEdit}
use lumae_plugin.Discovery.Identities.{one_record_for_identity}
use lumae_plugin.Discovery.Pages.{window, window_skips_nothing}
use lumae_plugin.Discovery.Checks.{validate}
use lumae_plugin.Discovery.Checks.Values.{is_end, is_introduction}
use lumae_plugin.Discovery.Checks.Sound.{validate-upsert}

abbrev uuid : String → Option String
uuid s = some s

abbrev fingerprint : Mutation → String
fingerprint m = m.record_id

abbrev size : Fields → Result ℕ
size fields = ok 40

abbrev identity : String
identity = "musicbrainz:release-group:g1"

abbrev first_save : Mutation
first_save = record {
  id = "q1";
  epoch = "e";
  record_id = "r1";
  kind = want;
  operation = upsert;
  base_revision = 0;
  sent_fields = some (field "canonicalKey" (str identity) (field "note" (str "live") end));
}

abbrev edit : Mutation
edit = record {
  id = "q2";
  epoch = "e";
  record_id = "r1";
  kind = want;
  operation = upsert;
  base_revision = 1;
  sent_fields = some (field "note" (str "studio") end);
}

abbrev second_save : Mutation
second_save = record first_save { id = "q3"; record_id = "r2" }

abbrev empty_space : Space
empty_space = record {
  epoch = none;
  table = record { rows = []; last_seq = 0 };
  receipts = [];
  aliases = [];
  canonical_targets = [];
}

abbrev got : Result (Payload × Space) → Payload × Space
got (ok o) = o
got (err e) = (mutation_id_reused, empty_space)

abbrev first_answer : Payload × Space
first_answer = got (mutate uuid fingerprint "e" "ann" first_save empty_space)

first_answered : mutate uuid fingerprint "e" "ann" first_save empty_space ≡ ok first_answer
unfolding mutate scope get
first_answered = refl

mutate_again_example :
    mutate uuid fingerprint "f" "ann" first_save
      (serve_all uuid fingerprint "ann" first_answer.1 (("e", edit) ∷ []))
    ≡ ok (first_answer.0, serve_all uuid fingerprint "ann" first_answer.1 (("e", edit) ∷ []))
unfolding mutate scope get canonical_target find
mutate_again_example =
    mutate_again uuid fingerprint "ann" "e" "f" first_save first_answer.0 empty_space first_answer.1
      (("e", edit) ∷ []) first_answered refl

abbrev after_first : Space
after_first = (apply "e" "ann" first_save (some identity) empty_space).1

abbrev edited : Record
edited = record {
  id = "r1";
  kind = want;
  revision = 2;
  deleted = false;
  fields = field "canonicalKey" (str identity) (field "note" (str "studio") end);
  field_revisions = ("canonicalKey", 1) ∷ ("note", 2) ∷ [];
}

edit_saved :
    apply "e" "ann" edit none after_first
    ≡ (saved "e" 2 edited none, (apply "e" "ann" edit none after_first).1)
unfolding apply find canonical_target get write_record has_key alias_target
edit_saved = refl

apply-IsSafeEdit_example :
    IsSafeEdit edit
      (record_at "ann" want (chosen_for "ann" edit none after_first).target after_first)
      edited
    × IsWritten "ann" want
        (chosen_for "ann" edit none after_first).target
        edited
        after_first
        (apply "e" "ann" edit none after_first).1
apply-IsSafeEdit_example =
    apply-IsSafeEdit "e" "ann" edit none after_first (apply "e" "ann" edit none after_first).1 "e" 2
      edited edit_saved

abbrev first_record : Record
first_record = record {
  id = "r1";
  kind = want;
  revision = 1;
  deleted = false;
  fields = field "canonicalKey" (str identity) (field "note" (str "live") end);
  field_revisions = ("canonicalKey", 1) ∷ ("note", 1) ∷ [];
}

first_applied :
    apply "e" "ann" first_save (some identity) empty_space
    ≡ (saved "e" 1 first_record none, after_first)
unfolding apply find canonical_target get write_record has_key alias_target
first_applied = refl

abbrev after_edit : Space
after_edit = serve_all uuid fingerprint "ann" after_first (("e", edit) ∷ [])

abbrev later_record : Record
later_record = record edited { revision = 3 }

second_applied : apply "e" "ann" second_save (some identity) after_edit ≡ (
  saved "e" 3 later_record (some "r2"),
  (apply "e" "ann" second_save (some identity) after_edit).1,
)
unfolding apply find canonical_target get write_record has_key alias_target serve_all serve mutate
    scope same_json has
second_applied = refl

one_record_for_identity_example :
    let t = (chosen_for "ann" first_save (some identity) empty_space).target in
    IsWritten "ann" want t first_record empty_space after_first
    × IsWritten "ann" want t later_record after_edit
        (apply "e" "ann" second_save (some identity) after_edit).1
one_record_for_identity_example =
    one_record_for_identity uuid fingerprint "ann" "e" "e" identity first_save second_save
      empty_space after_first (apply "e" "ann" second_save (some identity) after_edit).1
      (("e", edit) ∷ []) "e" "e" 1 3 first_record later_record none (some "r2") first_applied
      second_applied

one_row : SeqsDiffer after_first.table.rows
unfolding apply canonical_target get find write_record
one_row = (tt, tt)

window_skips_nothing_example :
    ((a : Row Record)
      → Has a after_first.table.rows
      → 0 < a.seq
      → a.seq ≤ 1
      → Has a (window 0 1 5 after_first.table).records
        ⊎ (((window 0 1 5 after_first.table).cursor < a.seq)
            × ((window 0 1 5 after_first.table).has_more ≡ true)))
    × (0 ≤ (window 0 1 5 after_first.table).cursor)
    × ((window 0 1 5 after_first.table).cursor ≤ 1)
window_skips_nothing_example = window_skips_nothing 0 1 5 after_first.table one_row (omega arith)

abbrev body : Json
body = obj (
    field "id" (str "q2") (
      field "epoch" (str "e") (
        field "recordId" (str "r1") (
          field "kind" (str "want") (
            field "operation" (str "upsert") (
              field "baseRevision" (num (int (pos 1)))
                (field "fields" (obj (field "note" (str "studio") end)) end)))))))

body_passes : validate uuid size body ≡ ok edit
unfolding validate identifier get has
body_passes = refl

validate-upsert_example :
    (is_upsert edit.operation ≡ false → is_end (fields_of edit) ≡ true)
    × (is_introduction edit.kind ≡ true → is_upsert edit.operation ≡ true)
validate-upsert_example = validate-upsert uuid size body edit body_passes
