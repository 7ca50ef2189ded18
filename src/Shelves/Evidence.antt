-- ===== src/Shelves/Evidence.antt =====
-- The operation evidence of `apply_mutation` of plugins/LumaeAnalysis/shelves.py. The list is one
-- scope's rows of type evidence, with their values.
use lumae_plugin.Prelude.{
  ◌≡◌, refl, Bool, true, false, inl, inr, String, Option, none, some, List, [], ◌∷◌, ◌==◌, eq_iff,
  first, if◌then◌else◌, Bool-cases,
}
use lumae_plugin.Json.{Number, Fields, number_lt, number_lt_asymm}

-- A record of a listen, a view, a search, a rating or coverage, as it was sent.
pub record Evidence : Type 0 where
  pub id : String
  pub at : Number
  pub sent : Fields

abbrev has_evidence_id : String → Evidence → Bool
has_evidence_id i e = e.id == i

pub find_evidence : String → List Evidence → Option Evidence
find_evidence i rows = first (has_evidence_id i) rows

-- `_put` of an evidence record: the row of its id is replaced, or added.
put_evidence : Evidence → List Evidence → List Evidence
put_evidence e [] = e ∷ []
put_evidence e (x ∷ rows) = if x.id == e.id then e ∷ rows else x ∷ put_evidence e rows

newer_than : Evidence → Option Evidence → Bool
newer_than e none = true
newer_than e (some previous) = number_lt previous.at e.at

or_sent : Evidence → Option Evidence → Evidence
or_sent e none = e
or_sent e (some previous) = previous

-- One turn of the loop over `body["records"]`: what it answers, and the rows after it.
unfoldable pub record_evidence : Evidence → List Evidence → Evidence × List Evidence
unfolding find_evidence put_evidence newer_than or_sent
record_evidence e rows =
    let previous = find_evidence e.id rows in
    if newer_than e previous then (e, put_evidence e rows) else (or_sent e previous, rows)

-- The records of an evidence batch, answered with status 200.
unfoldable pub apply_evidence : List Evidence → List Evidence → List Evidence × List Evidence
unfolding record_evidence
apply_evidence [] rows = ([], rows)
apply_evidence (e ∷ batch) rows =
    let (answer, next) = record_evidence e rows in
    let (answers, after) = apply_evidence batch next in (answer ∷ answers, after)

find-put_evidence :
    (e : Evidence) (rows : List Evidence) → find_evidence e.id (put_evidence e rows) ≡ some e
unfolding find_evidence put_evidence
find-put_evidence e [] = rw ((eq_iff e.id e.id).1 refl) refl
find-put_evidence e (x ∷ rows) = elim (Bool-cases (x.id == e.id)) [
  | inl h ↦ rw h (rw ((eq_iff e.id e.id).1 refl) refl)
  | inr h ↦ rw (h, h) (find-put_evidence e rows)
]

not_newer : (e : Evidence) → newer_than e (some e) ≡ false
unfolding newer_than
not_newer e = elim (Bool-cases (number_lt e.at e.at)) [
  | inl h ↦ absurd (let no = number_lt_asymm e.at e.at h in cc)
  | inr h ↦ h
]

-- An evidence record that comes again is answered alike and changes nothing.
record_evidence_again :
    (e : Evidence) (rows : List Evidence)
    → record_evidence e (record_evidence e rows).1 ≡ record_evidence e rows
record_evidence_again e rows = elim (Bool-cases (newer_than e (find_evidence e.id rows))) [
  | inl h ↦
      let same : record_evidence e rows ≡ (e, put_evidence e rows) =
        unfold record_evidence in rw h refl in
      rw same (unfold record_evidence or_sent in rw (find-put_evidence e rows, not_newer e) refl)
  | inr h ↦
      let same : record_evidence e rows ≡ (or_sent e (find_evidence e.id rows), rows) =
        unfold record_evidence in rw h refl in
      rw same same
]
