-- ===== src/Vibes/Revisions.antt =====
-- The revision protocol of Vibes: a write names the revision that it was based on.
use lumae_plugin.Prelude.{
  ℕ, suc, ◌+◌, ◌≡◌, refl, ap, inl, inr, Bool, true, false, ◌&&◌, String, some, List, [], ◌∷◌, arith,
  ◌==◌, nat_eq, nat_eq_iff, if◌then◌else◌, Bool-cases, eq_iff,
}
use lumae_plugin.Feed.{Scope, same_scope, Row, Table, find, upsert}
use lumae_plugin.Feed.Writes.{find-upsert, find-upsert_self, same_scope_refl}
use lumae_plugin.Receipts.{Outcome, accepted, refused}
use lumae_plugin.Vibes.{
  Mutation, Vibe, VibeRecord, Payload, stored, vibe_conflict, Change, put, delete, current_revision,
  changed, record_of, shown, apply_mutation,
}

-- The table after a run of mutations of one scope.
pub apply_all : Scope → List Mutation → Table Vibe → Table Vibe
apply_all s [] t = t
apply_all s (m ∷ ms) t = apply_all s ms (apply_mutation s m t).1

abbrev pub is_accepted : Outcome Payload → Bool
is_accepted (accepted p) = true
is_accepted (refused p) = false

-- How many of the mutations that name the Vibe `i` are accepted.
pub accepted_writes : Scope → String → List Mutation → Table Vibe → ℕ
accepted_writes s i [] t = 0
accepted_writes s i (m ∷ ms) t =
    let rest = accepted_writes s i ms (apply_mutation s m t).1 in
    if is_accepted (apply_mutation s m t).0 && m.vibe_id == i then suc rest else rest

abbrev pub revision_in : Scope → String → Table Vibe → ℕ
revision_in s i t = current_revision (find s i t.rows)

apply_accepted :
    (s : Scope) (m : Mutation) (t : Table Vibe)
    → revision_in s m.vibe_id t ≡ m.base_revision
    → apply_mutation s m t ≡ (
      accepted (
          stored (
            record_of (record {
              scope = s;
              id = m.vibe_id;
              value = changed m.change (revision_in s m.vibe_id t + 1);
              seq = t.last_seq + 1;
            }))),
      upsert s m.vibe_id (changed m.change (revision_in s m.vibe_id t + 1)) t,
    )
unfolding apply_mutation
apply_accepted s m t h = rw ((nat_eq_iff _ _).1 h) refl

apply_refused :
    (s : Scope) (m : Mutation) (t : Table Vibe)
    → nat_eq (revision_in s m.vibe_id t) m.base_revision ≡ false
    → apply_mutation s m t ≡ (refused (vibe_conflict (shown (find s m.vibe_id t.rows))), t)
unfolding apply_mutation
apply_refused s m t h = rw h refl

changed-revision : (c : Change) (n : ℕ) → (changed c n).revision ≡ n
unfolding changed
changed-revision (put v) n = refl
changed-revision (delete v) n = refl

step_revision :
    (s : Scope) (i : String) (m : Mutation) (t : Table Vibe)
    → revision_in s i (apply_mutation s m t).1 ≡ (
        if is_accepted (apply_mutation s m t).0 && m.vibe_id == i
        then suc (revision_in s i t)
        else revision_in s i t)
step_revision s i m t = elim (Bool-cases (nat_eq (revision_in s m.vibe_id t) m.base_revision)) [
  | inl e ↦
      let value = changed m.change (revision_in s m.vibe_id t + 1) in
      rw
        (
          apply_accepted s m t ((nat_eq_iff _ _).0 e),
          find-upsert s s m.vibe_id i value t,
          same_scope_refl s,
        )
        (elim (Bool-cases (m.vibe_id == i)) [
          | inl j ↦
              rw (j, changed-revision m.change (revision_in s m.vibe_id t + 1))
                (rw ((eq_iff m.vibe_id i).0 j) (omega arith))
          | inr j ↦ rw j refl
        ])
  | inr e ↦ rw (apply_refused s m t e) refl
]

-- Over any run of mutations of a scope, the revision of a Vibe grows by exactly the number of
-- accepted mutations that named it.
pub revision-apply_all :
    (s : Scope) (i : String) (ms : List Mutation) (t : Table Vibe)
    → revision_in s i (apply_all s ms t) ≡ revision_in s i t + accepted_writes s i ms t
unfolding apply_all accepted_writes
revision-apply_all s i [] t = omega arith
revision-apply_all s i (m ∷ ms) t =
    ground (arith, revision-apply_all s i ms (apply_mutation s m t).1, step_revision s i m t)

accepted_is :
    (s : Scope) (m : Mutation) (t t' : Table Vibe) (r : VibeRecord)
    → apply_mutation s m t ≡ (accepted (stored r), t')
    → (revision_in s m.vibe_id t ≡ m.base_revision)
      × ((revision_in s m.vibe_id t' ≡ m.base_revision + 1)
          × (shown (find s m.vibe_id t'.rows) ≡ some r))
accepted_is s m t t' r h = elim (Bool-cases (nat_eq (revision_in s m.vibe_id t) m.base_revision)) [
  | inl e ↦
      let at_base = (nat_eq_iff _ _).0 e in
      let applied = apply_accepted s m t at_base in
      let value = changed m.change (revision_in s m.vibe_id t + 1) in
      let row : Row Vibe = record {
        scope = s;
        id = m.vibe_id;
        value = value;
        seq = t.last_seq + 1;
      } in
      let table_is : t' ≡ upsert s m.vibe_id value t = cc in
      let shown_is : record_of row ≡ r = cc in
      let found : find s m.vibe_id t'.rows ≡ some row =
        rw table_is (find-upsert_self s m.vibe_id value t) in
      (
        at_base,
        (
          rw (found, changed-revision m.change (revision_in s m.vibe_id t + 1), at_base) refl,
          rw found (unfold shown in (ap (λ z. some z) shown_is)),
        ),
      )
  | inr e ↦ absurd (let no = apply_refused s m t e in cc)
]

-- An accepted write stores the record that its answer shows. After it and any further writes of the
-- scope, accepted or not, a write of the same Vibe that is based on the same revision is refused, it
-- changes nothing, and the refusal shows the record that is stored then.
pub vibe_no_lost_update :
    (s : Scope) (m m' : Mutation) (t t' : Table Vibe) (r : VibeRecord)
    → apply_mutation s m t ≡ (accepted (stored r), t')
    → m'.vibe_id ≡ m.vibe_id
    → m'.base_revision ≡ m.base_revision
    → (shown (find s m.vibe_id t'.rows) ≡ some r)
      × ((ms : List Mutation)
          → apply_mutation s m' (apply_all s ms t') ≡ (
            refused (vibe_conflict (shown (find s m.vibe_id (apply_all s ms t').rows))),
            apply_all s ms t',
          ))
vibe_no_lost_update s m m' t t' r h same_id same_base =
    let (based, (next, saved)) = accepted_is s m t t' r h in
    (
      saved,
      λ ms.
          (let grown = revision-apply_all s m.vibe_id ms t' in
            let stale : nat_eq (revision_in s m'.vibe_id (apply_all s ms t')) m'.base_revision
                ≡ false =
              rw (same_id, same_base, grown, next) (ground arith) in
            rw (← same_id) (apply_refused s m' (apply_all s ms t') stale)),
    )

-- A mutation, accepted or not, leaves every other record of every scope as it was.
apply_mutation-find_other :
    (s s' : Scope) (i : String) (m : Mutation) (t : Table Vibe)
    → (same_scope s s' && m.vibe_id == i) ≡ false
    → find s' i (apply_mutation s m t).1.rows ≡ find s' i t.rows
apply_mutation-find_other s s' i m t other =
    elim (Bool-cases (nat_eq (revision_in s m.vibe_id t) m.base_revision)) [
      | inl e ↦
          let value = changed m.change (revision_in s m.vibe_id t + 1) in
          rw
            (
              apply_accepted s m t ((nat_eq_iff _ _).0 e),
              find-upsert s s' m.vibe_id i value t,
              other,
            )
            refl
      | inr e ↦ rw (apply_refused s m t e) refl
    ]
