-- ===== src/Tests/Saved.antt =====
-- Vibes at concrete inputs.
use lumae_plugin.Prelude.{List, ℕ, ◌≡◌, arith, refl, String, some, none, [], ◌∷◌, ◌+◌}
use lumae_plugin.Json.{Json, str, num, obj, end, field, Fields, int, pos, Result, ok, get, text_of}
use lumae_plugin.Feed.{Scope, Table, find, has_key, upsert}
use lumae_plugin.Feed.Sync.{Device, IsCurrent}
use lumae_plugin.Receipts.{Store, accepted, refused}
use lumae_plugin.Vibes
use lumae_plugin.Vibes.{vibe_mutation}
use lumae_plugin.Vibes.Revisions.{
  vibe_no_lost_update, revision-apply_all, apply_all, accepted_writes, revision_in,
}
use lumae_plugin.Vibes.Devices.{vibe_mutation-IsCurrent}
use lumae_plugin.Vibes.Accepts.{IsFrom, validate_mutation-IsSound}

abbrev alice : Scope
alice = record { principal = "alice"; catalog = "c" }

abbrev no_vibes : Table Vibes.Vibe
no_vibes = record { rows = []; last_seq = 0 }

abbrev first_put : Vibes.Mutation
first_put = record {
  id = "m1";
  vibe_id = "palette:1";
  base_revision = 0;
  change = Vibes.Change.put end;
}

abbrev second_put : Vibes.Mutation
second_put = record {
  id = "m2";
  vibe_id = "palette:1";
  base_revision = 0;
  change = Vibes.Change.put (field "name" (str "x") end);
}

abbrev after_first : Table Vibes.Vibe
after_first = record {
  rows =
      record {
        scope = alice;
        id = "palette:1";
        value = record { revision = 1; deleted_at = none; vibe = some end };
        seq = 1;
      }
      ∷ [];
  last_seq = 1;
}

abbrev first_record : Vibes.VibeRecord
first_record = record { id = "palette:1"; revision = 1; deleted_at = none; vibe = some end }

first_applied :
    Vibes.apply_mutation alice first_put no_vibes
    ≡ (accepted (Vibes.Payload.stored first_record), after_first)
unfolding Vibes.apply_mutation find upsert has_key
first_applied = refl

vibe_no_lost_update_example :
    (Vibes.shown (find alice "palette:1" after_first.rows) ≡ some first_record)
    × ((ms : List Vibes.Mutation)
        → Vibes.apply_mutation alice second_put (apply_all alice ms after_first) ≡ (
          refused (
              Vibes.Payload.vibe_conflict
                (Vibes.shown (find alice "palette:1" (apply_all alice ms after_first).rows))),
          apply_all alice ms after_first,
        ))
vibe_no_lost_update_example =
    vibe_no_lost_update alice first_put second_put no_vibes after_first first_record first_applied
      refl refl

revision-apply_all_example :
    revision_in alice "palette:1" (apply_all alice (first_put ∷ second_put ∷ []) no_vibes)
    ≡ revision_in alice "palette:1" no_vibes
      + accepted_writes alice "palette:1" (first_put ∷ second_put ∷ []) no_vibes
revision-apply_all_example =
    revision-apply_all alice "palette:1" (first_put ∷ second_put ∷ []) no_vibes

abbrev sizes : Json → Result ℕ
sizes j = ok 100

abbrev prints : Json → Result String
prints j = ok "f"

abbrev vibe_fields : Fields
vibe_fields =
    field "kind" (str "palette") (field "name" (str "Blue") (field "recipe" (obj end) end))

abbrev vibe_body : Json
vibe_body = obj (
    field "id" (str "m1") (
      field "vibeId" (str "palette:1") (
        field "baseRevision" (num (int (pos 0)))
          (field "operation" (str "put") (field "vibe" (obj vibe_fields) end)))))

abbrev checked_vibe : Vibes.Mutation
checked_vibe = record {
  id = "m1";
  vibe_id = "palette:1";
  base_revision = 0;
  change = Vibes.Change.put vibe_fields;
}

vibe_body_passes : Vibes.validate_mutation sizes vibe_body ≡ ok checked_vibe
unfolding Vibes.validate_mutation get text_of
vibe_body_passes = refl

validate_mutation-IsSound_example : IsFrom sizes vibe_body checked_vibe
validate_mutation-IsSound_example =
    validate_mutation-IsSound sizes vibe_body checked_vibe vibe_body_passes

abbrev vibe_request : Vibes.Request
vibe_request = record {
  principal = "alice";
  catalog_id = some "c";
  content_length = some 90;
  body = vibe_body;
}

abbrev no_store : Store Vibes.Vibe Vibes.Payload
no_store = record { table = no_vibes; receipts = [] }

abbrev new_device : Device Vibes.Vibe
new_device = record { cursor = 0; copy = [] }

new_device-IsCurrent : IsCurrent alice no_vibes new_device
unfolding find
new_device-IsCurrent = record {
  cursor_bounded = omega arith;
  known = λ i r f l. cc;
  nothing_else = λ i f. f;
}

vibe_mutation-IsCurrent_example :
    IsCurrent alice (vibe_mutation sizes prints 5 vibe_request no_store).1.table new_device
vibe_mutation-IsCurrent_example =
    vibe_mutation-IsCurrent sizes prints 5 vibe_request no_store alice new_device
      new_device-IsCurrent
