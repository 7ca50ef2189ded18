-- ===== src/Matching/Credits.antt =====
-- plugins/LumaeAnalysis/credits_matching.py: `relationship_credits` and `extract_credits`. The digest
-- of a credit is a parameter.
pub mod Scopes
use lumae_plugin.Prelude.{
  Bool, true, ◌||◌, not, String, Option, none, some, List, [], ◌∷◌, ◌++◌, ◌==◌, if◌then◌else◌,
}
use Prim.Native.String.{◌++◌ as ◌<>◌}
use lumae_plugin.Matching.{Relation, Link, Recording, Release, is_empty, mbid}
use lumae_plugin.Matching.Verify.{Recordings, Evidence}
use lumae_plugin.Matching.Choose.{Choice}

-- What a credit is about: the scope and the source entity type have the same three names.
pub data CreditScope : Type 0 where
  release recording work : CreditScope

pub scope_name : CreditScope → String
scope_name release = "release"
scope_name recording = "recording"
scope_name work = "work"

pub record Credit : Type 0 where
  pub person_mbid : String
  pub person_name : String
  pub role : String
  pub relationship_type : String
  pub relationship_type_id : Option String
  pub instruments : List String
  pub attribute_ids : List (String × String)
  pub scope : CreditScope
  pub source_entity_type : CreditScope
  pub source_entity_id : String
  pub source_url : String
  pub matching : Evidence

-- A credit under the digest of its fields.
pub record StoredCredit : Type 0 where
  pub id : String
  pub credit : Credit

pub record Credits : Type 0 where
  pub album : List StoredCredit
  pub tracks : List (String × List StoredCredit)

abbrev pub supported_roles : List (String × String)
supported_roles =
    ("instrument", "performer")
    ∷ ("vocal", "vocal")
    ∷ ("performer", "performer")
    ∷ ("producer", "producer")
    ∷ ("mix", "mixer")
    ∷ ("mixing", "mixer")
    ∷ ("recording", "recording_engineer")
    ∷ ("engineer", "engineer")
    ∷ ("composer", "composer")
    ∷ ("lyricist", "lyricist")
    ∷ ("writer", "writer")
    ∷ []

pub role_in : String → List (String × String) → Option String
role_in name [] = none
role_in name (row ∷ rows) = if row.0 == name then some row.1 else role_in name rows

pub role_of : String → Option String
unfolding role_in
role_of name = role_in name supported_roles

-- `relation.get("target-type") in (None, "artist")`
pub is_artist_target : Option String → Bool
is_artist_target none = true
is_artist_target (some target) = target == "artist"

pub source_url : CreditScope → String → String
unfolding scope_name
source_url entity id = "https://musicbrainz.org/" <> scope_name entity <> "/" <> id

pub evidence_at : String → List (String × Evidence) → Evidence → Evidence
evidence_at track_id [] default = default
evidence_at track_id (row ∷ rows) default =
    if row.0 == track_id then row.1 else evidence_at track_id rows default

pub with_credit : Option StoredCredit → List StoredCredit → List StoredCredit
with_credit none rest = rest
with_credit (some c) rest = c ∷ rest

pub relations_of : List Link → List Relation
relations_of [] = []
relations_of (l ∷ ls) = l.relation ∷ relations_of ls

module _ (uuid : String → Option String) (digest : Credit → String) where
  -- The credit of one relation; a relation without a known role, a person and a name has none.
  pub credit_from :
      Option String
      → Option String
      → Relation
      → CreditScope
      → CreditScope
      → String
      → Evidence
      → Option StoredCredit
  unfolding is_empty is_artist_target source_url mbid
  credit_from (some role) (some person) relation scope entity source_id evidence =
      let credit : Credit = record {
        person_mbid = person;
        person_name = relation.artist.name;
        role = role;
        relationship_type = relation.relationship_type;
        relationship_type_id = mbid uuid relation.type_id;
        instruments = relation.attributes;
        attribute_ids = relation.attribute_ids;
        scope = scope;
        source_entity_type = entity;
        source_entity_id = source_id;
        source_url = source_url entity source_id;
        matching = evidence;
      } in
      if is_empty relation.artist.name || not (is_artist_target relation.target_type)
      then none
      else some (record { id = digest credit; credit = credit })
  credit_from _ _ relation scope entity source_id evidence = none

  -- The loop over the relations of an entity with a known id.
  pub credits_from :
      List Relation → CreditScope → CreditScope → String → Evidence → List StoredCredit
  unfolding credit_from role_of mbid with_credit
  credits_from [] scope entity source_id evidence = []
  credits_from (r ∷ rs) scope entity source_id evidence =
      with_credit
        (credit_from (role_of r.relationship_type) (mbid uuid r.artist.id) r scope entity source_id
          evidence)
        (credits_from rs scope entity source_id evidence)

  -- An entity with no valid id has no credits.
  pub credits_of_source :
      List Relation → CreditScope → CreditScope → Option String → Evidence → List StoredCredit
  unfolding credits_from
  credits_of_source relations scope entity none evidence = []
  credits_of_source relations scope entity (some source_id) evidence =
      credits_from relations scope entity source_id evidence

  -- `relationship_credits(entity, scope, source_entity_type, source_id, matching)`
  pub relationship_credits :
      List Relation → CreditScope → CreditScope → Option String → Evidence → List StoredCredit
  unfolding credits_of_source mbid
  relationship_credits relations scope entity source evidence =
      credits_of_source relations scope entity (mbid uuid source) evidence

  -- The credits of the works that a recording performs.
  pub work_credits : List Link → Evidence → List StoredCredit
  unfolding relationship_credits
  work_credits [] evidence = []
  work_credits (l ∷ ls) evidence =
      let rest = work_credits ls evidence in
      if l.relation.relationship_type == "performance"
      then relationship_credits l.work.relations work work l.work.id evidence ++ rest
      else rest

  pub recording_credits : Recording → Evidence → List StoredCredit
  unfolding relationship_credits relations_of work_credits
  recording_credits r evidence =
      relationship_credits (relations_of r.links) recording recording r.id evidence
      ++ work_credits r.links evidence

  -- The credits of each recording, under the id of its track.
  pub track_credits :
      Recordings → List (String × Evidence) → Evidence → List (String × List StoredCredit)
  unfolding recording_credits evidence_at
  track_credits [] evidences default = []
  track_credits (row ∷ rows) evidences default =
      (row.0, recording_credits row.1 (evidence_at row.0 evidences default))
      ∷ track_credits rows evidences default

  pub album_credits : Option Release → Option String → Evidence → List StoredCredit
  unfolding relationship_credits
  album_credits none id evidence = []
  album_credits (some r) id evidence = relationship_credits r.relations release release id evidence

  -- `extract_credits(match)`, with the match's `recording_evidence`.
  unfoldable pub extract_credits : Choice → List (String × Evidence) → Credits
  unfolding album_credits track_credits
  extract_credits choice evidences = record {
    album = album_credits choice.release choice.release_id choice.evidence;
    tracks = track_credits choice.recordings evidences choice.evidence;
  }
