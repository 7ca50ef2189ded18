-- ===== src/Tests/Travels.antt =====
-- Journeys at concrete inputs.
use lumae_plugin.Prelude.{
  ℕ, ◌≤◌, ◌≡◌, refl, false, String, Option, some, none, List, [], ◌∷◌, ◌+◌, map, if◌then◌else◌,
  arith,
}
use lumae_plugin.Json.{
  Json, null, str, num, obj, arr, nil, cons, end, field, Fields, Number, int, pos, Result, ok, get,
  text_of, number,
}
use lumae_plugin.Feed.{Scope, Row, Table, find, has_key, upsert}
use lumae_plugin.Feed.Sync.{Device, IsCurrent}
use lumae_plugin.Receipts.{Store, accepted, refused}
use lumae_plugin.Json
use lumae_plugin.Journeys
use lumae_plugin.Journeys.{
  Entry, Place, Journey, Credit, merge_credits, merge_entries, merge_entry, merge_journey,
}
use lumae_plugin.Journeys.Credits.{credit_of, has_credit, credit_of-merge_credits}
use lumae_plugin.Journeys.Entries.{map-merge_entries, IsLatest, merge_journey-IsLatest}
use lumae_plugin.Journeys.Revisions.{
  apply_all, journey_no_lost_update, apply_mutation-keeps_credits,
}
use lumae_plugin.Journeys.Checks
use lumae_plugin.Journeys.Checks.{max_journey_bytes}
use lumae_plugin.Journeys.Checks.Sound.{IsSoundChange, validate_mutation-IsSoundChange}
use lumae_plugin.Journeys.Routes
use lumae_plugin.Journeys.Routes.{journey_mutation}
use lumae_plugin.Journeys.Routes.Devices.{journey_mutation-IsCurrent}

abbrev alice : Scope
alice = record { principal = "alice"; catalog = "c" }

abbrev heard : String → Number → Credit
heard o n = record {
  occurrence_id = o;
  entry_id = "e1";
  outcome = "heard";
  heard_seconds = n;
  rest = end;
}

abbrev stored_credits : List Credit
stored_credits = heard "o1" (int (pos 10)) ∷ []

abbrev sent_credits : List Credit
sent_credits = heard "o1" (int (pos 99)) ∷ heard "o2" (int (pos 5)) ∷ []

credit_of-merge_credits_example : credit_of "o1" (merge_credits stored_credits sent_credits) ≡ (
    if has_credit "o1" stored_credits
    then credit_of "o1" stored_credits
    else credit_of "o1" sent_credits)
credit_of-merge_credits_example = credit_of-merge_credits "o1" stored_credits sent_credits

abbrev song : String → Option Number → Entry
song state at = record {
  entry_id = "e1";
  state = state;
  state_by = null;
  state_at = at;
  rest = end;
}

abbrev played : Entry
played = song "played" (some (int (pos 20)))

abbrev pending : Entry
pending = song "pending" none

stays_played : merge_entry (some played) pending ≡ played
unfolding merge_entry Journeys.later
stays_played = refl

map-merge_entries_example :
    map (λ e. e.entry_id) (merge_entries (played ∷ []) (pending ∷ []))
    ≡ map (λ e. e.entry_id) (pending ∷ [])
map-merge_entries_example = map-merge_entries (played ∷ []) (pending ∷ [])

abbrev at_song : Place
at_song = record { entry_id = some "e1"; position_seconds = int (pos 3); rest = end }

abbrev trip : Entry → Option Number → Journey
trip e last = record {
  id = "j1";
  name = "Trip";
  status = "in-progress";
  place = at_song;
  last_played_at = last;
  entries = e ∷ [];
  rest = end;
}

merge_journey-IsLatest_example :
    IsLatest
      (trip played (some (int (pos 20))))
      (trip pending none)
      (merge_journey (some (trip played (some (int (pos 20))))) (trip pending none))
merge_journey-IsLatest_example =
    merge_journey-IsLatest (trip played (some (int (pos 20)))) (trip pending none)

abbrev stored_trip : Journeys.Stored
stored_trip = record {
  revision = 4;
  deleted = false;
  journey = some (trip played (some (int (pos 20))));
  credits = stored_credits;
}

abbrev trip_row : Row Journeys.Stored
trip_row = record { scope = alice; id = "j1"; value = stored_trip; seq = 6 }

abbrev trips : Table Journeys.Stored
trips = record { rows = trip_row ∷ []; last_seq = 6 }

abbrev send : Journeys.Mutation
send = record {
  id = "m1";
  journey_id = "j1";
  base_revision = some 4;
  change = Journeys.Change.upsert_journey (trip pending none) sent_credits;
}

abbrev erase : Journeys.Mutation
erase = record {
  id = "m2";
  journey_id = "j1";
  base_revision = some 4;
  change = Journeys.Change.delete (int (pos 9));
}

abbrev merged_trip : Journeys.Stored
merged_trip = record {
  revision = 5;
  deleted = false;
  journey = some (trip played (some (int (pos 20))));
  credits = heard "o1" (int (pos 10)) ∷ heard "o2" (int (pos 5)) ∷ [];
}

abbrev sent_record : Journeys.JourneyRecord
sent_record = record { journey_id = "j1"; stored = merged_trip }

abbrev trips_after : Table Journeys.Stored
trips_after = record {
  rows = record { scope = alice; id = "j1"; value = merged_trip; seq = 7 } ∷ [];
  last_seq = 7;
}

send_applied :
    Journeys.apply_mutation alice send trips
    ≡ (accepted (Journeys.Payload.kept sent_record), trips_after)
unfolding Journeys.apply_mutation find upsert has_key Journeys.later Json.number_lt
send_applied = refl

journey_no_lost_update_example :
    (Journeys.shown "j1" (find alice "j1" trips_after.rows) ≡ some sent_record)
    × ((ms : List Journeys.Mutation)
        → Journeys.apply_mutation alice erase (apply_all alice ms trips_after) ≡ (
          refused (
              Journeys.Payload.journey_conflict
                (Journeys.shown "j1" (find alice "j1" (apply_all alice ms trips_after).rows))),
          apply_all alice ms trips_after,
        ))
journey_no_lost_update_example =
    journey_no_lost_update alice send erase trips trips_after sent_record send_applied refl refl

trip_found : find alice "j1" trips.rows ≡ some trip_row
unfolding find has_key
trip_found = refl

apply_mutation-keeps_credits_example :
    ((o : String)
      → credit_of o sent_record.stored.credits ≡ (
          if has_credit o stored_credits
          then credit_of o stored_credits
          else credit_of o sent_credits))
    × ((sent_record.stored.journey ≡ some (merge_journey stored_trip.journey (trip pending none)))
        × ((sent_record.stored.revision ≡ stored_trip.revision + 1)
            × (Journeys.shown "j1" (find alice "j1" trips_after.rows) ≡ some sent_record)))
apply_mutation-keeps_credits_example =
    apply_mutation-keeps_credits alice send trips trips_after trip_row sent_record
      (trip pending none) sent_credits trip_found refl refl send_applied

abbrev sizes : Json → Result ℕ
sizes j = ok 100

abbrev prints : Json → Result String
prints j = ok "f"

abbrev delete_body : Json
delete_body = obj (
    field "id" (str "m2") (
      field "journeyId" (str "j1") (
        field "baseRevision" (num (int (pos 4)))
          (field "operation" (str "delete") (field "at" (num (int (pos 9))) end)))))

delete_passes : Journeys.Checks.validate_mutation sizes delete_body ≡ ok erase
unfolding Journeys.Checks.validate_mutation get text_of number Json.has
delete_passes = refl

validate_mutation-IsSoundChange_example :
    IsSoundChange "j1" (Journeys.Change.delete (int (pos 9)))
    × ((size : ℕ) × (sizes delete_body ≡ ok size) × (size ≤ max_journey_bytes))
validate_mutation-IsSoundChange_example =
    validate_mutation-IsSoundChange sizes delete_body erase delete_passes

abbrev delete_request : Journeys.Routes.Request
delete_request = record {
  principal = "alice";
  catalog_id = some "c";
  content_length = some 90;
  body = delete_body;
}

abbrev trip_store : Store Journeys.Stored Journeys.Payload
trip_store = record { table = trips; receipts = [] }

abbrev new_device : Device Journeys.Stored
new_device = record { cursor = 0; copy = [] }

abbrev no_trips : Store Journeys.Stored Journeys.Payload
no_trips = record { table = record { rows = []; last_seq = 0 }; receipts = [] }

new_device-IsCurrent : IsCurrent alice no_trips.table new_device
unfolding find
new_device-IsCurrent = record {
  cursor_bounded = omega arith;
  known = λ i r f l. cc;
  nothing_else = λ i f. f;
}

journey_mutation-IsCurrent_example :
    IsCurrent alice (journey_mutation sizes prints 5 delete_request no_trips).1.table new_device
journey_mutation-IsCurrent_example =
    journey_mutation-IsCurrent sizes prints 5 delete_request no_trips alice new_device
      new_device-IsCurrent
