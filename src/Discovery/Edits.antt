-- ===== src/Discovery/Edits.antt =====
-- What an accepted mutation of personal discovery does to its record.
use lumae_plugin.Prelude.{
  eq_apart, ℕ, suc, ◌≤◌, ◌<◌, ◌≡◌, refl, ap, sym, ◌∙◌, inl, inr, ◌⊎◌, Bool, true, false, ◌&&◌, not,
  String, Option, none, some, ◌==◌, if◌then◌else◌, ltb, lt→ltb, eq_iff, Bool-cases, arith,
}
use lumae_plugin.Json.{Json, Fields, end, field, get}
use lumae_plugin.Json.Equality.{same_json}
use lumae_plugin.Feed.{Scope, same_scope, find, upsert as write_record}
use lumae_plugin.Feed.Writes.{find-upsert, find-upsert_self}
use lumae_plugin.Discovery.{
  Kind, Mutation, Payload, saved, Space, Record, Operation, upsert, delete, restore, fields_of,
  set_field, field_revision,
}
use lumae_plugin.Discovery.Mutate.{
  Chosen, conflicts, is_empty, is_upsert, is_restore, Edits, write_field, write_fields,
  duplicate_refusal, state_refusal, first_refusal, refusal, changed, changed_by, write, settle,
  apply, chosen_for, record_at, value_of, key_scope,
}

pub get-set_field :
    (k j : String) (v : Json) (fs : Fields)
    → get k (set_field j v fs) ≡ (if j == k then v else get k fs)
unfolding get set_field
get-set_field k j v end = refl
get-set_field k j v (field i w more) = elim (Bool-cases (i == j)) [
  | inl e ↦ let same = (eq_iff i j).0 e in rw (e, same) (ground arith)
  | inr e ↦ rw e (elim (Bool-cases (i == k)) [
    | inl f ↦ let apart = eq_apart i j k e f in rw (f, apart) refl
    | inr f ↦ rw f (get-set_field k j v more)
  ])
]

-- A field's value after a write is the one before it, or equal to it.
abbrev pub IsKept : String → Record → Fields → Type 0
IsKept k old fs = (get k fs ≡ get k old.fields) ⊎ (same_json (get k old.fields) (get k fs) ≡ true)

write_field-IsKept :
    (n base : ℕ) (k j : String) (v : Json) (old : Record) (e : Edits)
    → base < field_revision k old.field_revisions
    → (ltb base (field_revision j old.field_revisions) && not (same_json (get j old.fields) v))
      ≡ false
    → IsKept k old e.fields
    → IsKept k old (write_field false n j v e).fields
unfolding write_field
write_field-IsKept n base k j v old e l d h = elim (Bool-cases (j == k)) [
  | inl f ↦
      let same = (eq_iff j k).0 f in
      let newer = lt→ltb _ _ l in
      let equal : same_json (get k old.fields) v ≡ true =
        (let at_k = rw same at d in ground arith) in
      inr (rw (get-set_field k j v e.fields, f) equal)
  | inr f ↦
      let untouched : get k (set_field j v e.fields) ≡ get k e.fields =
        (rw (get-set_field k j v e.fields, f) refl) in
      elim h [ inl g ↦ inl (untouched ∙ g) | inr g ↦ inr (rw untouched g) ]
]

write_fields-IsKept :
    (n base : ℕ) (k : String) (old : Record) (sent : Fields) (e : Edits)
    → base < field_revision k old.field_revisions
    → is_empty (conflicts base old sent) ≡ true
    → IsKept k old e.fields
    → IsKept k old (write_fields false n sent e).fields
unfolding write_fields conflicts
write_fields-IsKept n base k old end e l c h = h
write_fields-IsKept n base k old (field j v more) e l c h =
    elim (Bool-cases
      (ltb base (field_revision j old.field_revisions) && not (same_json (get j old.fields) v))) [
        | inl d ↦ absurd (let bad = rw d at c in cc)
        | inr d ↦
            write_fields-IsKept n base k old more (write_field false n j v e) l (rw d at c)
              (write_field-IsKept n base k j v old e l d h)
      ]

-- What an accepted mutation has to do with the record that it found.
pub record IsSafeEdit (m : Mutation) (old new : Record) : Type 0 where
  pub next_revision : new.revision ≡ suc old.revision
  pub not_ahead : m.base_revision ≤ old.revision
  pub not_deleted : is_upsert m.operation ≡ true → old.deleted ≡ false
  pub restored_as_seen : is_restore m.operation ≡ true → m.base_revision ≡ old.revision
  pub newer_kept :
      is_upsert m.operation ≡ true
      → (k : String) → m.base_revision < field_revision k old.field_revisions
      → IsKept k old new.fields
  pub fields_untouched : is_upsert m.operation ≡ false → new.fields ≡ old.fields
  pub deletes : m.operation ≡ delete → new.deleted ≡ true
  pub restores : m.operation ≡ restore → new.deleted ≡ false
  pub stays : is_upsert m.operation ≡ true → new.deleted ≡ old.deleted

-- The record of a kind and an id is this one, and every other record is as it was.
pub record IsWritten (user : String) (kind : Kind) (target : String) (new : Record) (sp sp' : Space)
    : Type 0 where
  pub stored : value_of (find (key_scope user kind) target sp'.table.rows) ≡ some new
  pub others :
      (s : Scope) (j : String)
      → (same_scope (key_scope user kind) s && target == j) ≡ false
      → find s j sp'.table.rows ≡ find s j sp.table.rows

abbrev pub is_saved : Payload → Bool
is_saved (saved e c r a) = true
is_saved _ = false

state_refusal-saved :
    (m : Mutation) (d : Bool) (i : Option String) (old : Record) (p : Payload)
    → state_refusal m d i old ≡ some p
    → is_saved p ≡ false
unfolding state_refusal
state_refusal-saved m d i old p h = ground arith

changed_by-revision :
    (op : Operation) (sent : Fields) (d : Bool) (old : Record)
    → (changed_by op sent d old).revision ≡ suc old.revision
unfolding changed_by
changed_by-revision upsert sent d old = refl
changed_by-revision delete sent d old = refl
changed_by-revision restore sent d old = refl

changed_by-IsKept :
    (op : Operation) (base : ℕ) (k : String) (sent : Fields) (old : Record)
    → is_upsert op ≡ true
    → base < field_revision k old.field_revisions
    → is_empty (conflicts base old sent) ≡ true
    → IsKept k old (changed_by op sent false old).fields
unfolding changed_by
changed_by-IsKept upsert base k sent old u l c =
    write_fields-IsKept (suc old.revision) base k old sent
      (record { fields = old.fields; revisions = old.field_revisions }) l c (inl refl)
changed_by-IsKept delete base k sent old u l c = absurd cc
changed_by-IsKept restore base k sent old u l c = absurd cc

no_conflict :
    (m : Mutation) (i : Option String) (old : Record)
    → state_refusal m false i old ≡ none
    → is_upsert m.operation ≡ true
    → is_empty (conflicts m.base_revision old (fields_of m)) ≡ true
unfolding state_refusal
no_conflict m i old h u = ground arith

changed_by-fields :
    (op : Operation) (sent : Fields) (old : Record)
    → is_upsert op ≡ false
    → (changed_by op sent false old).fields ≡ old.fields
unfolding changed_by
changed_by-fields upsert sent old u = absurd cc
changed_by-fields delete sent old u = refl
changed_by-fields restore sent old u = refl

changed_by_stays :
    (op : Operation) (sent : Fields) (old : Record)
    → is_upsert op ≡ true
    → (changed_by op sent false old).deleted ≡ old.deleted
unfolding changed_by
changed_by_stays upsert sent old u = refl
changed_by_stays delete sent old u = absurd cc
changed_by_stays restore sent old u = absurd cc

accepted-IsSafeEdit :
    (m : Mutation) (i : Option String) (old : Record)
    → state_refusal m false i old ≡ none
    → IsSafeEdit m old (changed m false old)
accepted-IsSafeEdit m i old h = record {
  next_revision = changed_by-revision m.operation (fields_of m) false old;
  not_ahead = (unfold state_refusal in ground arith);
  not_deleted = λ u. (unfold state_refusal in ground arith);
  restored_as_seen = λ u. (unfold state_refusal in ground arith);
  newer_kept = λ u k l.
      changed_by-IsKept m.operation m.base_revision k (fields_of m) old u l
        (no_conflict m i old h u);
  fields_untouched = λ u. changed_by-fields m.operation (fields_of m) old u;
  deletes = λ u. (unfold changed_by in rw u refl);
  restores = λ u. (unfold changed_by in rw u refl);
  stays = λ u. changed_by_stays m.operation (fields_of m) old u;
}

duplicate_refusal-saved :
    (c : Chosen) (old : Record) (p : Payload)
    → duplicate_refusal c old ≡ some p
    → is_saved p ≡ false
unfolding duplicate_refusal
duplicate_refusal-saved c old p h = ground arith

pub refusal-saved :
    (m : Mutation) (c : Chosen) (i : Option String) (old : Record) (p : Payload)
    → refusal m c i old ≡ some p
    → is_saved p ≡ false
unfolding refusal
refusal-saved m c i old p h = by_first (duplicate_refusal c old) refl h
  where
    by_first :
        (d : Option Payload)
        → duplicate_refusal c old ≡ d
        → first_refusal d (state_refusal m c.duplicate i old) ≡ some p
        → is_saved p ≡ false
    by_first none e h = state_refusal-saved m c.duplicate i old p h
    by_first (some q) e h = duplicate_refusal-saved c old p (e ∙ h)

refusal-none :
    (m : Mutation) (c : Chosen) (i : Option String) (old : Record)
    → refusal m c i old ≡ none
    → state_refusal m c.duplicate i old ≡ none
unfolding refusal
refusal-none m c i old h = by_first (duplicate_refusal c old) h
  where
    by_first :
        (d : Option Payload)
        → first_refusal d (state_refusal m c.duplicate i old) ≡ none
        → state_refusal m c.duplicate i old ≡ none
    by_first none h = h
    by_first (some q) h = absurd cc

not_duplicate : (d : Bool) (i : String) → (if d then some i else none) ≡ none → d ≡ false
not_duplicate true i h = absurd cc
not_duplicate false i h = refl

saved_parts :
    (e e' : String) (n n' : ℕ) (r r' : Record) (a a' : Option String)
    → saved e n r a ≡ saved e' n' r' a'
    → (r ≡ r') × (a ≡ a')
saved_parts e e' n n' r r' a a' h = (cc, cc)

-- Where the refusal is decided, a saved record is the accepted edit.
settle-IsSafeEdit :
    (epoch user : String) (m : Mutation) (c : Chosen) (i : Option String) (old : Record)
    (r : Option Payload) (sp sp' : Space) (e : String) (n : ℕ) (new : Record)
    → refusal m c i old ≡ r
    → settle epoch user m c i old r sp ≡ (saved e n new none, sp')
    → IsSafeEdit m old new
unfolding settle write
settle-IsSafeEdit epoch user m c i old (some p) sp sp' e n new d h =
    absurd (let no = refusal-saved m c i old p d in let same = ap (λ z. is_saved z.0) h in cc)
settle-IsSafeEdit epoch user m c i old none sp sp' e n new d h =
    let (same, alone) = saved_parts _ _ _ _ _ _ _ _ (ap (λ z. z.0) h) in
    let single = not_duplicate c.duplicate m.record_id alone in
    let allowed = rw single at (refusal-none m c i old d) in
    rw (sym same, single) (accepted-IsSafeEdit m i old allowed)

settle-IsWritten :
    (epoch user : String) (m : Mutation) (c : Chosen) (i : Option String) (old : Record)
    (r : Option Payload) (sp sp' : Space) (e : String) (n : ℕ) (new : Record) (a : Option String)
    → refusal m c i old ≡ r
    → settle epoch user m c i old r sp ≡ (saved e n new a, sp')
    → IsWritten user m.kind c.target new sp sp'
unfolding settle write
settle-IsWritten epoch user m c i old (some p) sp sp' e n new a d h =
    absurd (let no = refusal-saved m c i old p d in let same = ap (λ z. is_saved z.0) h in cc)
settle-IsWritten epoch user m c i old none sp sp' e n new a d h =
    let (same, alias) = saved_parts _ _ _ _ _ _ _ _ (ap (λ z. z.0) h) in
    let key = key_scope user m.kind in
    let value = changed m c.duplicate old in
    let table : write_record key c.target value sp.table ≡ sp'.table = ap (λ z. z.1.table) h in
    record {
      stored = rw (sym table, find-upsert_self key c.target value sp.table) (ap (λ z. some z) same);
      others = λ s j apart. rw (sym table, find-upsert key s c.target j value sp.table, apart) refl;
    }

-- A saved mutation stores its record where it was chosen to go, and no other.
pub apply-IsWritten :
    (epoch user : String) (m : Mutation) (i : Option String) (sp sp' : Space) (e : String) (n : ℕ)
    (new : Record) (a : Option String)
    → apply epoch user m i sp ≡ (saved e n new a, sp')
    → IsWritten user m.kind (chosen_for user m i sp).target new sp sp'
unfolding apply
apply-IsWritten epoch user m i sp sp' e n new a h =
    let c = chosen_for user m i sp in
    settle-IsWritten epoch user m c i (record_at user m.kind c.target sp) _ sp sp' e n new a refl h

-- A mutation that is saved, and is no second save of an identity, writes the next revision of the
-- record that it found, and changes no other record. It was not based on a later revision than the
-- stored one; it is no upsert of a deleted record, and a restore was based on the stored revision. An
-- upsert leaves each field that was written after its base as it is stored, or sends an equal value
-- for it, and leaves the record live; a delete or a restore leaves all fields, and deletes or
-- restores.
pub apply-IsSafeEdit :
    (epoch user : String) (m : Mutation) (i : Option String) (sp sp' : Space) (e : String) (n : ℕ)
    (new : Record)
    → apply epoch user m i sp ≡ (saved e n new none, sp')
    → IsSafeEdit m (record_at user m.kind (chosen_for user m i sp).target sp) new
      × IsWritten user m.kind (chosen_for user m i sp).target new sp sp'
apply-IsSafeEdit epoch user m i sp sp' e n new h =
    (edit_of epoch user m i sp sp' e n new h, apply-IsWritten epoch user m i sp sp' e n new none h)
  where
    edit_of :
        (epoch user : String) (m : Mutation) (i : Option String) (sp sp' : Space) (e : String)
        (n : ℕ) (new : Record)
        → apply epoch user m i sp ≡ (saved e n new none, sp')
        → IsSafeEdit m (record_at user m.kind (chosen_for user m i sp).target sp) new
    edit_of epoch user m i sp sp' e n new h =
        let c = chosen_for user m i sp in
        unfold apply in
        (settle-IsSafeEdit epoch user m c i (record_at user m.kind c.target sp) _ sp sp' e n new
          refl h)
