-- ===== src/Journeys.antt =====
-- Journeys, plugins/LumaeAnalysis/journeys.py: the merge of two copies of a journey and its
-- credits, `apply_mutation`, and the two routes. `Journeys/Checks` has the checks of a mutation.
-- The typed records hold the fields that the code reads; `rest` is the whole object as it was sent,
-- over which the typed fields count where the two differ.
pub mod Credits
pub mod Checks
pub mod Entries
pub mod Revisions
pub mod Routes
use lumae_plugin.Prelude.{
  ℕ, zero, suc, ◌+◌, ◌≡◌, Bool, true, false, ◌&&◌, ◌||◌, not, String, Option, none, some, List, [],
  ◌∷◌, ◌++◌, ◌==◌, nat_eq, if◌then◌else◌, first, keep, any,
}
use lumae_plugin.Json.{Json, Number, Fields, number_lt}
use lumae_plugin.Feed.{Scope, Row, Table, find, upsert}
use lumae_plugin.Receipts.{Outcome, accepted, refused}

pub record Entry : Type 0 where
  pub entry_id : String
  pub state : String
  pub state_by : Json
  pub state_at : Option Number
  pub rest : Fields

pub record Place : Type 0 where
  pub entry_id : Option String
  pub position_seconds : Number
  pub rest : Fields

pub record Journey : Type 0 where
  pub id : String
  pub name : String
  pub status : String
  pub place : Place
  pub last_played_at : Option Number
  pub entries : List Entry
  pub rest : Fields

pub record Credit : Type 0 where
  pub occurrence_id : String
  pub entry_id : String
  pub outcome : String
  pub heard_seconds : Number
  pub rest : Fields

-- `_later(this, that)`
unfoldable pub later : Option Number → Option Number → Bool
later none that = false
later (some a) none = true
later (some a) (some b) = number_lt b a

-- `before.get(entry_id)`: the dict comprehension keeps the last entry of an id.
pub last_entry : String → List Entry → Option Entry
last_entry id [] = none
last_entry id (e ∷ entries) = elim (last_entry id entries) [
  | some found ↦ some found
  | none ↦ if e.entry_id == id then some e else none
]

-- One entry of the incoming journey beside the stored entry of its id.
unfoldable pub merge_entry : Option Entry → Entry → Entry
merge_entry none e = e
merge_entry (some old) e =
    if not (old.state == e.state) && later old.state_at e.state_at
    then record e { state = old.state; state_by = old.state_by; state_at = old.state_at }
    else e

pub merge_entries : List Entry → List Entry → List Entry
unfolding merge_entry last_entry
merge_entries stored [] = []
merge_entries stored (e ∷ entries) =
    merge_entry (last_entry e.entry_id stored) e ∷ merge_entries stored entries

abbrev pub has_entry : String → List Entry → Bool
has_entry id entries = any (λ e. e.entry_id == id) entries

pub place_fits : Place → List Entry → Bool
place_fits p entries = elim p.entry_id [ none ↦ true | some id ↦ has_entry id entries ]

unfoldable pub merge_over : Journey → Journey → Journey
unfolding merge_entries place_fits
merge_over stored incoming =
    let entries = merge_entries stored.entries incoming.entries in
    let merged = record incoming { entries = entries } in
    if later stored.last_played_at incoming.last_played_at && place_fits stored.place entries
    then record merged { place = stored.place; last_played_at = stored.last_played_at }
    else merged

-- `merge_journey(stored, incoming)`
unfoldable pub merge_journey : Option Journey → Journey → Journey
unfolding merge_over
merge_journey none incoming = incoming
merge_journey (some stored) incoming = merge_over stored incoming

abbrev pub is_known : List Credit → Credit → Bool
is_known credits c = any (λ k. k.occurrence_id == c.occurrence_id) credits

-- `merge_credits(stored, incoming)`
unfoldable pub merge_credits : List Credit → List Credit → List Credit
merge_credits stored incoming = stored ++ keep (λ c. not (is_known stored c)) incoming

pub data Change : Type 0 where
  upsert_journey : Journey → List Credit → Change
  delete : Number → Change

-- `base_revision` is `none` where the phone knows no record.
pub record Mutation : Type 0 where
  pub id : String
  pub journey_id : String
  pub base_revision : Option ℕ
  pub change : Change

-- The columns revision, deleted, journey and credits of journey_records.
pub record Stored : Type 0 where
  pub revision : ℕ
  pub deleted : Bool
  pub journey : Option Journey
  pub credits : List Credit

-- `_record(identifier, revision, deleted, journey, credits)`
pub record JourneyRecord : Type 0 where
  pub journey_id : String
  pub stored : Stored

pub data Payload : Type 0 where
  kept : JourneyRecord → Payload
  journey_conflict : Option JourneyRecord → Payload

abbrev pub current_revision : Option (Row Stored) → Option ℕ
current_revision none = none
current_revision (some row) = some row.value.revision

abbrev pub same_revision : Option ℕ → Option ℕ → Bool
same_revision none none = true
same_revision (some a) (some b) = nat_eq a b
same_revision _ _ = false

-- What a merge starts from: nothing of a missing or a deleted record.
pub live_journey : Option (Row Stored) → Option Journey
live_journey none = none
live_journey (some row) = if row.value.deleted then none else row.value.journey

pub live_credits : Option (Row Stored) → List Credit
live_credits none = []
live_credits (some row) = if row.value.deleted then [] else row.value.credits

-- `(current or 0) + 1`
abbrev pub next_revision : Option ℕ → ℕ
next_revision none = 1
next_revision (some n) = n + 1

unfoldable pub changed : Change → Option (Row Stored) → Stored
unfolding live_journey live_credits merge_journey merge_credits
changed (upsert_journey j credits) row = record {
  revision = next_revision (current_revision row);
  deleted = false;
  journey = some (merge_journey (live_journey row) j);
  credits = merge_credits (live_credits row) credits;
}
changed (delete at) row = record {
  revision = next_revision (current_revision row);
  deleted = true;
  journey = none;
  credits = [];
}

abbrev pub shown : String → Option (Row Stored) → Option JourneyRecord
shown id none = none
shown id (some row) = some (record { journey_id = id; stored = row.value })

unfoldable pub apply_mutation : Scope → Mutation → Table Stored → Outcome Payload × Table Stored
unfolding changed
apply_mutation s m t =
    let row = find s m.journey_id t.rows in
    if same_revision (current_revision row) m.base_revision
    then (let value = changed m.change row in
        (
          accepted (kept (record { journey_id = m.journey_id; stored = value })),
          upsert s m.journey_id value t,
        ))
    else (refused (journey_conflict (shown m.journey_id row)), t)
