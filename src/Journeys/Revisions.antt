-- ===== src/Journeys/Revisions.antt =====
-- The revision protocol of journeys, and what an accepted write keeps.
use lumae_plugin.Prelude.{
  ℕ, suc, ◌+◌, ◌≤◌, ◌<◌, ◌≡◌, refl, sym, ap, ◌∙◌, ◌==◌, eq_iff, inl, inr, Bool, true, false, String,
  Option, none, some, List, [], ◌∷◌, arith, if◌then◌else◌, Bool-cases,
}
use lumae_plugin.Feed.{Scope, Row, Table, find, upsert}
use lumae_plugin.Feed.Writes.{find-upsert, find-upsert_self, same_scope_refl}
use lumae_plugin.Receipts.{Outcome, accepted, refused}
use lumae_plugin.Journeys.{
  Journey, Credit, Change, upsert_journey, delete, Mutation, Stored, JourneyRecord, Payload, kept,
  journey_conflict, current_revision, same_revision, next_revision, changed, shown, apply_mutation,
  merge_credits, merge_journey,
}
use lumae_plugin.Journeys.Credits.{credit_of, has_credit, credit_of-merge_credits}

abbrev pub is_accepted : Outcome Payload → Bool
is_accepted (accepted p) = true
is_accepted (refused p) = false

apply_accepted :
    (s : Scope) (m : Mutation) (t : Table Stored)
    → same_revision (current_revision (find s m.journey_id t.rows)) m.base_revision ≡ true
    → let value = changed m.change (find s m.journey_id t.rows) in
      apply_mutation s m t ≡ (
        accepted (kept (record { journey_id = m.journey_id; stored = value })),
        upsert s m.journey_id value t,
      )
unfolding apply_mutation
apply_accepted s m t h = rw h refl

apply_refused :
    (s : Scope) (m : Mutation) (t : Table Stored)
    → same_revision (current_revision (find s m.journey_id t.rows)) m.base_revision ≡ false
    → apply_mutation s m t
      ≡ (refused (journey_conflict (shown m.journey_id (find s m.journey_id t.rows))), t)
unfolding apply_mutation
apply_refused s m t h = rw h refl

changed-revision :
    (c : Change) (row : Option (Row Stored))
    → (changed c row).revision ≡ next_revision (current_revision row)
unfolding changed
changed-revision (upsert_journey j credits) row = refl
changed-revision (delete at) row = refl

abbrev pub revision_in : Scope → String → Table Stored → Option ℕ
revision_in s i t = current_revision (find s i t.rows)

-- How far a journey has come: nothing for no record, and its revision and one more.
abbrev pub rank : Option ℕ → ℕ
rank none = 0
rank (some n) = suc n

rank-next : (o : Option ℕ) → rank o < rank (some (next_revision o))
rank-next none = omega arith
rank-next (some n) = omega arith

same_rank : (a b : Option ℕ) → same_revision a b ≡ true → rank a ≡ rank b
same_rank none none h = refl
same_rank none (some b) h = absurd cc
same_rank (some a) none h = absurd cc
same_rank (some a) (some b) h = ground arith

rank_differs : (a b : Option ℕ) → rank b < rank a → same_revision a b ≡ false
rank_differs none none h = absurd (omega arith)
rank_differs none (some b) h = refl
rank_differs (some a) none h = refl
rank_differs (some a) (some b) h = ground arith

-- The table after a run of mutations of one scope.
pub apply_all : Scope → List Mutation → Table Stored → Table Stored
apply_all s [] t = t
apply_all s (m ∷ ms) t = apply_all s ms (apply_mutation s m t).1

-- No mutation takes a journey back.
rank_grows :
    (s : Scope) (i : String) (m : Mutation) (t : Table Stored)
    → rank (revision_in s i t) ≤ rank (revision_in s i (apply_mutation s m t).1)
rank_grows s i m t =
    elim (Bool-cases (same_revision (revision_in s m.journey_id t) m.base_revision)) [
      | inr e ↦ rw (apply_refused s m t e) (omega arith)
      | inl e ↦
          let value = changed m.change (find s m.journey_id t.rows) in
          rw (apply_accepted s m t e, find-upsert s s m.journey_id i value t, same_scope_refl s)
            (elim (Bool-cases (m.journey_id == i)) [
              | inl j ↦
                  rw (j, changed-revision m.change (find s m.journey_id t.rows))
                    (rw ((eq_iff m.journey_id i).0 j)
                      (omega (arith, rank-next (revision_in s i t))))
              | inr j ↦ rw j (omega arith)
            ])
    ]

apply_all_grows :
    (s : Scope) (i : String) (ms : List Mutation) (t : Table Stored)
    → rank (revision_in s i t) ≤ rank (revision_in s i (apply_all s ms t))
unfolding apply_all
apply_all_grows s i [] t = omega arith
apply_all_grows s i (m ∷ ms) t =
    let first = rank_grows s i m t in
    let rest = apply_all_grows s i ms (apply_mutation s m t).1 in omega arith

-- An accepted write was based on the stored revision, and stores the record of its answer.
accepted_is :
    (s : Scope) (m : Mutation) (t t' : Table Stored) (r : JourneyRecord)
    → apply_mutation s m t ≡ (accepted (kept r), t')
    → (same_revision (revision_in s m.journey_id t) m.base_revision ≡ true)
      × ((r.stored ≡ changed m.change (find s m.journey_id t.rows))
          × ((revision_in s m.journey_id t' ≡ some (next_revision (revision_in s m.journey_id t)))
              × (shown m.journey_id (find s m.journey_id t'.rows) ≡ some r)))
accepted_is s m t t' r h =
    elim (Bool-cases (same_revision (revision_in s m.journey_id t) m.base_revision)) [
      | inl e ↦
          let applied = apply_accepted s m t e in
          let value = changed m.change (find s m.journey_id t.rows) in
          let row : Row Stored = record {
            scope = s;
            id = m.journey_id;
            value = value;
            seq = t.last_seq + 1;
          } in
          let made : JourneyRecord = record { journey_id = m.journey_id; stored = value } in
          let table_is : t' ≡ upsert s m.journey_id value t = cc in
          let shown_is : made ≡ r = cc in
          let found : find s m.journey_id t'.rows ≡ some row =
            rw table_is (find-upsert_self s m.journey_id value t) in
          (
            e,
            (
              ap (λ z. z.stored) (sym shown_is),
              (
                rw found
                    (ap (λ z. some z) (changed-revision m.change (find s m.journey_id t.rows))),
                rw found (ap (λ z. some z) shown_is),
              ),
            ),
          )
      | inr e ↦ absurd (let no = apply_refused s m t e in cc)
    ]

-- An accepted write stores the record that its answer shows. After it and any further writes of the
-- scope, accepted or not, a write of the same journey that is based on the same revision (or on none)
-- is refused, it changes nothing, and the refusal shows the record that is stored then.
pub journey_no_lost_update :
    (s : Scope) (m m' : Mutation) (t t' : Table Stored) (r : JourneyRecord)
    → apply_mutation s m t ≡ (accepted (kept r), t')
    → m'.journey_id ≡ m.journey_id
    → m'.base_revision ≡ m.base_revision
    → (shown m.journey_id (find s m.journey_id t'.rows) ≡ some r)
      × ((ms : List Mutation)
          → apply_mutation s m' (apply_all s ms t') ≡ (
            refused (
                journey_conflict
                  (shown m.journey_id (find s m.journey_id (apply_all s ms t').rows))),
            apply_all s ms t',
          ))
journey_no_lost_update s m m' t t' r h same_id same_base =
    let (based, (is, (next, saved))) = accepted_is s m t t' r h in
    (
      saved,
      λ ms.
          (let grown = apply_all_grows s m.journey_id ms t' in
            let at_base = same_rank (revision_in s m.journey_id t) m.base_revision based in
            let further = rank-next (revision_in s m.journey_id t) in
            let now = ap (λ z. rank z) next in
            let later : rank m.base_revision
                < rank (revision_in s m.journey_id (apply_all s ms t')) =
              omega arith in
            let stale : same_revision (revision_in s m'.journey_id (apply_all s ms t'))
                  m'.base_revision
                ≡ false =
              rw (same_id, same_base)
                (rank_differs (revision_in s m.journey_id (apply_all s ms t')) m.base_revision
                  later) in
            rw (← same_id) (apply_refused s m' (apply_all s ms t') stale)),
    )

-- An accepted upsert of a live journey keeps every credit that was stored, as it was, adds those of
-- its own occurrences, and merges the two journeys under the next revision. The record of its answer
-- is the one that is stored.
pub apply_mutation-keeps_credits :
    (s : Scope) (m : Mutation) (t t' : Table Stored) (row : Row Stored) (r : JourneyRecord)
    (j : Journey) (credits : List Credit)
    → find s m.journey_id t.rows ≡ some row
    → row.value.deleted ≡ false
    → m.change ≡ upsert_journey j credits
    → apply_mutation s m t ≡ (accepted (kept r), t')
    → ((o : String)
        → credit_of o r.stored.credits ≡ (
            if has_credit o row.value.credits
            then credit_of o row.value.credits
            else credit_of o credits))
      × ((r.stored.journey ≡ some (merge_journey row.value.journey j))
          × ((r.stored.revision ≡ row.value.revision + 1)
              × (shown m.journey_id (find s m.journey_id t'.rows) ≡ some r)))
apply_mutation-keeps_credits s m t t' row r j credits f live c h =
    let (based, (is, (next, saved))) = accepted_is s m t t' r h in
    let value : Stored = record {
      revision = row.value.revision + 1;
      deleted = false;
      journey = some (merge_journey row.value.journey j);
      credits = merge_credits row.value.credits credits;
    } in
    let value_is : changed m.change (find s m.journey_id t.rows) ≡ value =
      unfold changed in rw (c, f, live) refl in
    let stored_is : r.stored ≡ value = is ∙ value_is in
    (
      λ o. rw stored_is (credit_of-merge_credits o row.value.credits credits),
      (rw stored_is refl, (rw stored_is refl, saved)),
    )
