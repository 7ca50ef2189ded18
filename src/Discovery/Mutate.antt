-- ===== src/Discovery/Mutate.antt =====
-- `mutate` of personal discovery (plugins/LumaeAnalysis/personal_discovery.py).
use lumae_plugin.Prelude.{
  ℕ, suc, Bool, true, false, ◌&&◌, ◌||◌, not, String, Option, none, some, List, [], ◌∷◌, ◌==◌, ltb,
  nat_eq, if◌then◌else◌, first,
}
use lumae_plugin.Json.{Json, null, str, Fields, end, field, Result, ok, get, has, ◌>>=◌}
use lumae_plugin.Json.Equality.{same_json}
use lumae_plugin.Feed.{Scope, Row, find, upsert as write_record}
use lumae_plugin.Discovery.{
  Kind, introduction, kind_name, Operation, upsert, delete, restore, Mutation, fields_of, Record,
  Payload, saved, duplicate_save_conflict, identity_or_provenance_conflict, revision_conflict,
  record_deleted, field_conflict, mutation_id_reused, bootstrap_required, Receipt, Space, scope,
  is_of, alias_target, canonical_target, set_field, set_revision, field_revision, identity_of,
}

-- Which record a mutation is about.
pub record Chosen : Type 0 where
  pub target : String
  pub duplicate : Bool
  pub original : Option Record

abbrev pub value_of : Option (Row Record) → Option Record
value_of none = none
value_of (some row) = some row.value

abbrev pub key_scope : String → Kind → Scope
key_scope user kind = record { principal = user; catalog = kind_name kind }

abbrev pub or_text : String → Option String → String
or_text s none = s
or_text s (some t) = t

unfoldable pub choose_match : String → Option Record → Option String → Chosen
choose_match target original none = record {
  target = target;
  duplicate = false;
  original = original;
}
choose_match target original (some t) =
    if t == target
    then record { target = target; duplicate = false; original = original }
    else record { target = t; duplicate = true; original = original }

unfoldable pub choose : String → Kind → String → Option String → Space → Chosen
unfolding choose_match
choose user kind target none sp = record { target = target; duplicate = false; original = none }
choose user kind target (some i) sp =
    choose_match target (value_of (find (key_scope user kind) target sp.table.rows))
      (canonical_target i sp.canonical_targets)

unfoldable pub or_blank : String → Kind → Option Record → Record
or_blank target kind none = record {
  id = target;
  kind = kind;
  revision = 0;
  deleted = false;
  fields = end;
  field_revisions = [];
}
or_blank target kind (some r) = r

-- The keys whose stored value is newer than the base and another than the one sent.
unfoldable pub conflicts : ℕ → Record → Fields → List String
unfolding field_revision
conflicts base old end = []
conflicts base old (field k v rest) =
    let others = conflicts base old rest in
    if ltb base (field_revision k old.field_revisions) && not (same_json (get k old.fields) v)
    then k ∷ others
    else others

unfoldable pub is_protected : Kind → Record → Fields → Bool
is_protected kind old end = false
is_protected introduction old (field k v rest) =
    (has k old.fields && not (same_json (get k old.fields) v)) || is_protected introduction old rest
is_protected _ old (field k v rest) = false

abbrev pub is_other : String → Json → Bool
is_other i null = false
is_other i (str s) = not (s == i)
is_other i _ = true

abbrev pub changes_identity : Option String → Record → Bool
changes_identity none old = false
changes_identity (some i) old = is_other i (get "canonicalKey" old.fields)

abbrev pub is_empty : List String → Bool
is_empty [] = true
is_empty (k ∷ ks) = false

abbrev pub is_upsert : Operation → Bool
is_upsert upsert = true
is_upsert _ = false

abbrev pub is_restore : Operation → Bool
is_restore restore = true
is_restore _ = false

-- The fields and their revisions while an upsert writes them.
pub record Edits : Type 0 where
  pub fields : Fields
  pub revisions : List (String × ℕ)

-- A duplicate save keeps the fields that the first save has.
unfoldable pub write_field : Bool → ℕ → String → Json → Edits → Edits
unfolding set_field set_revision
write_field duplicate n k v e =
    if duplicate && has k e.fields
    then e
    else record { fields = set_field k v e.fields; revisions = set_revision k n e.revisions }

unfoldable pub write_fields : Bool → ℕ → Fields → Edits → Edits
unfolding write_field
write_fields duplicate n end e = e
write_fields duplicate n (field k v rest) e =
    write_fields duplicate n rest (write_field duplicate n k v e)

-- A second save of an identity whose own record is live.
unfoldable pub duplicate_refusal : Chosen → Record → Option Payload
duplicate_refusal c old =
    if c.duplicate
    then elim c.original [
      | none ↦ none
      | some r ↦ if r.deleted then none else some (duplicate_save_conflict old r)
    ]
    else none

unfoldable pub state_refusal : Mutation → Bool → Option String → Record → Option Payload
unfolding conflicts is_protected
state_refusal m duplicate identity old =
    let clashing = conflicts m.base_revision old (fields_of m) in
    if is_protected m.kind old (fields_of m) || changes_identity identity old
    then some (identity_or_provenance_conflict old)
    else if ltb old.revision m.base_revision
        || (is_restore m.operation && not (nat_eq m.base_revision old.revision))
    then some (revision_conflict old)
    else if is_upsert m.operation && old.deleted
    then some (record_deleted old)
    else if is_upsert m.operation && (not (is_empty clashing) && not duplicate)
    then some (field_conflict clashing old)
    else none

abbrev pub first_refusal : Option Payload → Option Payload → Option Payload
first_refusal (some p) later = some p
first_refusal none later = later

-- The 409 that a mutation gets for the state of the records, or `none`.
unfoldable pub refusal : Mutation → Chosen → Option String → Record → Option Payload
unfolding duplicate_refusal state_refusal
refusal m c identity old =
    first_refusal (duplicate_refusal c old) (state_refusal m c.duplicate identity old)

unfoldable pub changed_by : Operation → Fields → Bool → Record → Record
unfolding write_fields
changed_by delete sent duplicate old = record old { revision = suc old.revision; deleted = true }
changed_by restore sent duplicate old = record old { revision = suc old.revision; deleted = false }
changed_by upsert sent duplicate old =
    let e =
      write_fields duplicate (suc old.revision) sent
        (record { fields = old.fields; revisions = old.field_revisions }) in
    record old { revision = suc old.revision; fields = e.fields; field_revisions = e.revisions }

abbrev pub changed : Mutation → Bool → Record → Record
changed m duplicate old = changed_by m.operation (fields_of m) duplicate old

-- INSERT … ON CONFLICT DO NOTHING
abbrev pub if_missing : {A : Type 0} → Option String → A → List A → List A
if_missing none new rows = new ∷ rows
if_missing (some t) new rows = rows

unfoldable pub insert_canonical :
    Option String → String → List (String × String) → List (String × String)
insert_canonical none target rows = rows
insert_canonical (some i) target rows = if_missing (canonical_target i rows) (i, target) rows

unfoldable pub insert_alias :
    Bool
    → String
    → String
    → String
    → List (String × String × String)
    → List (String × String × String)
insert_alias false kind i target rows = rows
insert_alias true kind i target rows = if_missing (alias_target kind i rows) (kind, i, target) rows

unfoldable pub write :
    String → String → Mutation → Chosen → Option String → Record → Space → Payload × Space
unfolding changed_by insert_canonical insert_alias
write epoch user m c identity old sp =
    let new = changed m c.duplicate old in
    let table = write_record (key_scope user m.kind) c.target new sp.table in
    (
      saved epoch table.last_seq new (if c.duplicate then some m.record_id else none),
      record sp {
        table = table;
        canonical_targets = insert_canonical identity c.target sp.canonical_targets;
        aliases = insert_alias c.duplicate (kind_name m.kind) m.record_id c.target sp.aliases;
      },
    )

unfoldable pub settle :
    String
    → String
    → Mutation
    → Chosen
    → Option String
    → Record
    → Option Payload
    → Space
    → Payload × Space
unfolding write
settle epoch user m c identity old (some p) sp = (p, sp)
settle epoch user m c identity old none sp = write epoch user m c identity old sp

-- The record that a mutation names, and its alias's target where it has one.
abbrev pub target_of : Mutation → Space → String
target_of m sp = or_text m.record_id (alias_target (kind_name m.kind) m.record_id sp.aliases)

abbrev pub chosen_for : String → Mutation → Option String → Space → Chosen
chosen_for user m identity sp = choose user m.kind (target_of m sp) identity sp

-- `old`: the record at a target, or a blank one.
abbrev pub record_at : String → Kind → String → Space → Record
record_at user kind target sp =
    or_blank target kind (value_of (find (key_scope user kind) target sp.table.rows))

unfoldable pub apply : String → String → Mutation → Option String → Space → Payload × Space
unfolding choose or_blank refusal settle
apply epoch user m identity sp =
    let c = chosen_for user m identity sp in
    let old = record_at user m.kind c.target sp in
    settle epoch user m c identity old (refusal m c identity old) sp

unfoldable pub keep_receipt : String → String → Payload × Space → Payload × Space
keep_receipt i fingerprint (p, sp) = (
  p,
  record sp { receipts = record { id = i; fingerprint = fingerprint; payload = p } ∷ sp.receipts },
)

module _ (uuid : String → Option String) (fingerprint : Mutation → String) where
  unfoldable pub answer :
      String → String → Mutation → Option Receipt → Space → Result (Payload × Space)
  unfolding keep_receipt apply identity_of
  answer epoch user m (some r) sp =
      ok (if r.fingerprint == fingerprint m then r.payload else mutation_id_reused, sp)
  answer epoch user m none sp = do
    identity ← identity_of uuid m.kind (fields_of m)
    ok (keep_receipt m.id (fingerprint m) (apply epoch user m identity sp))

  unfoldable pub in_epoch : Bool → String → Mutation → String → Space → Result (Payload × Space)
  unfolding answer
  in_epoch false user m epoch sp = ok (bootstrap_required epoch, sp)
  in_epoch true user m epoch sp = answer epoch user m (first (is_of m.id) sp.receipts) sp

  -- `mutate(db, user, body)`, its body checked; `new_epoch` is the UUID that a missing scope gets.
  unfoldable pub mutate : String → String → Mutation → Space → Result (Payload × Space)
  unfolding in_epoch
  mutate new_epoch user m sp =
      let (epoch, entered) = scope new_epoch sp in in_epoch (m.epoch == epoch) user m epoch entered
