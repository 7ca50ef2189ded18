-- ===== src/Matching/Credits/Scopes.antt =====
-- The people, roles and scopes of the credits that plugins/LumaeAnalysis/credits_matching.py extracts.
use lumae_plugin.Prelude.{
  ◌≡◌, ◌⊎◌, inl, inr, refl, sym, ap, true, false, ◌||◌, not, String, Option, none, some, List, [],
  ◌∷◌, ◌++◌, ◌==◌, eq_iff, Has, Bool-cases, arith,
}
use lumae_plugin.Matching.{Relation, Link, Recording, Release, is_empty, mbid}
use lumae_plugin.Matching.Verify.{Recordings, Evidence}
use lumae_plugin.Matching.Choose.{Choice}
use lumae_plugin.Matching.Credits.{
  CreditScope, release, recording, work, Credit, StoredCredit, Credits, role_of, is_artist_target,
  source_url, evidence_at, with_credit, credit_from, credits_from, credits_of_source,
  relationship_credits, relations_of, work_credits, recording_credits, track_credits, album_credits,
  extract_credits,
}

append-Has : {A : Type 0} → (x : A) (xs ys : List A) → Has x (xs ++ ys) → Has x xs ⊎ Has x ys
append-Has x [] ys m = inr m
append-Has x (y ∷ xs) ys (inl e) = inl (inl e)
append-Has x (y ∷ xs) ys (inr m) = elim (append-Has x xs ys m) [
  | inl k ↦ inl (inr k)
  | inr k ↦ inr k
]

module _ (uuid : String → Option String) (digest : Credit → String) where
  -- A credit that one of these relations states, of an entity with this id.
  pub record IsCreditOf (relations : List Relation) (entity : CreditScope) (source : Option String)
      (evidence : Evidence) (c : StoredCredit) : Type 0 where
    pub stated :
        (r : Relation) × (Has r relations
          × ((role_of r.relationship_type ≡ some c.credit.role)
              × ((mbid uuid r.artist.id ≡ some c.credit.person_mbid)
                  × ((r.artist.name ≡ c.credit.person_name)
                      × ((is_empty r.artist.name ≡ false)
                          × (is_artist_target r.target_type ≡ true))))))
    pub about : (c.credit.scope ≡ entity) × (c.credit.source_entity_type ≡ entity)
    pub source_id : mbid uuid source ≡ some c.credit.source_entity_id
    pub kept : (c.credit.matching ≡ evidence) × (c.id ≡ digest c.credit)

  credit_from-IsCreditOf :
      (role person : Option String) (r : Relation) (rs : List Relation) (entity : CreditScope)
      → (source : Option String) (source_id : String) (evidence : Evidence) (c : StoredCredit)
      → Has r rs
      → role_of r.relationship_type ≡ role
      → mbid uuid r.artist.id ≡ person
      → mbid uuid source ≡ some source_id
      → credit_from uuid digest role person r entity entity source_id evidence ≡ some c
      → IsCreditOf rs entity source evidence c
  unfolding credit_from
  credit_from-IsCreditOf none person r rs entity source s ev c m er ep es h = absurd cc
  credit_from-IsCreditOf (some role) none r rs entity source s ev c m er ep es h = absurd cc
  credit_from-IsCreditOf (some role) (some person) r rs entity source s ev c m er ep es h =
      elim (Bool-cases (is_empty r.artist.name || not (is_artist_target r.target_type))) [
        | inl f ↦ (let no = rw f at h in absurd cc)
        | inr f ↦
            let credit : Credit = record {
              person_mbid = person;
              person_name = r.artist.name;
              role = role;
              relationship_type = r.relationship_type;
              relationship_type_id = mbid uuid r.type_id;
              instruments = r.attributes;
              attribute_ids = r.attribute_ids;
              scope = entity;
              source_entity_type = entity;
              source_entity_id = s;
              source_url = source_url entity s;
              matching = ev;
            } in
            let found : StoredCredit = record { id = digest credit; credit = credit } in
            let read : some found ≡ some c = rw f at h in
            let same : found ≡ c = cc in
            rw (sym same) (record {
              stated = (r, (m, (er, (ep, (refl, (ground arith, ground arith))))));
              about = (refl, refl);
              source_id = es;
              kept = (refl, refl);
            })
      ]

  with_credit-Has :
      (o : Option StoredCredit) (rest : List StoredCredit) (c : StoredCredit)
      → Has c (with_credit o rest)
      → (o ≡ some c) ⊎ Has c rest
  unfolding with_credit
  with_credit-Has none rest c m = inr m
  with_credit-Has (some d) rest c (inl e) = inl (ap (λ z. some z) (sym e))
  with_credit-Has (some d) rest c (inr m) = inr m

  credits_from-IsCreditOf :
      (rs all : List Relation) (entity : CreditScope) (source : Option String) (source_id : String)
      → (evidence : Evidence) (c : StoredCredit) → ((r : Relation) → Has r rs → Has r all)
      → mbid uuid source ≡ some source_id
      → Has c (credits_from uuid digest rs entity entity source_id evidence)
      → IsCreditOf all entity source evidence c
  unfolding credits_from
  credits_from-IsCreditOf [] all entity source s ev c among e m = elim m [ ]
  credits_from-IsCreditOf (r ∷ rs) all entity source s ev c among e m =
      elim (with_credit-Has _ _ c m) [
        | inl h ↦
            credit_from-IsCreditOf _ _ r all entity source s ev c (among r (inl refl)) refl refl e h
        | inr more ↦
            credits_from-IsCreditOf rs all entity source s ev c (λ z k. among z (inr k)) e more
      ]

  credits_of_source-IsCreditOf :
      (rs : List Relation) (entity : CreditScope) (source id : Option String) (evidence : Evidence)
      → (c : StoredCredit) → mbid uuid source ≡ id
      → Has c (credits_of_source uuid digest rs entity entity id evidence)
      → IsCreditOf rs entity source evidence c
  unfolding credits_of_source
  credits_of_source-IsCreditOf rs entity source none ev c e m = elim m [ ]
  credits_of_source-IsCreditOf rs entity source (some s) ev c e m =
      credits_from-IsCreditOf rs rs entity source s ev c (λ z k. k) e m

  relationship_credits-IsCreditOf :
      (rs : List Relation) (entity : CreditScope) (source : Option String) (evidence : Evidence)
      → (c : StoredCredit)
      → Has c (relationship_credits uuid digest rs entity entity source evidence)
      → IsCreditOf rs entity source evidence c
  unfolding relationship_credits
  relationship_credits-IsCreditOf rs entity source ev c m =
      credits_of_source-IsCreditOf rs entity source _ ev c refl m

  -- A credit of a work that the recording performs.
  abbrev pub IsWorkCredit : List Link → Evidence → StoredCredit → Type 0
  IsWorkCredit links ev c =
      (l : Link) × (Has l links
        × ((l.relation.relationship_type ≡ "performance")
            × IsCreditOf l.work.relations work l.work.id ev c))

  work_credits-IsWorkCredit :
      (links : List Link) (ev : Evidence) (c : StoredCredit)
      → Has c (work_credits uuid digest links ev)
      → IsWorkCredit links ev c
  unfolding work_credits
  work_credits-IsWorkCredit [] ev c m = elim m [ ]
  work_credits-IsWorkCredit (l ∷ ls) ev c m =
      elim (Bool-cases (l.relation.relationship_type == "performance")) [
        | inr f ↦
            let (k, (here, rest)) = work_credits-IsWorkCredit ls ev c (rw f at m) in
            (k, (inr here, rest))
        | inl f ↦ elim (append-Has c _ _ (rw f at m)) [
          | inl now ↦ (
            l,
            (
              inl refl,
              (
                (eq_iff l.relation.relationship_type "performance").0 f,
                relationship_credits-IsCreditOf l.work.relations work l.work.id ev c now,
              ),
            ),
          )
          | inr more ↦
              let (k, (here, rest)) = work_credits-IsWorkCredit ls ev c more in
              (k, (inr here, rest))
        ]
      ]

  -- What the credits of a choice are.
  pub record AreScoped (choice : Choice) (evidences : List (String × Evidence)) (cs : Credits)
      : Type 0 where
    pub of_album :
        (c : StoredCredit)
        → Has c cs.album
        → (r : Release) × ((choice.release ≡ some r)
            × IsCreditOf r.relations release choice.release_id choice.evidence c)
    pub of_tracks :
        (row : String × List StoredCredit)
        → Has row cs.tracks
        → (r : Recording) × (Has (row.0, r) choice.recordings
            × ((c : StoredCredit)
                → Has c row.1
                → IsCreditOf
                    (relations_of r.links)
                    recording
                    r.id
                    (evidence_at row.0 evidences choice.evidence)
                    c
                  ⊎ IsWorkCredit r.links (evidence_at row.0 evidences choice.evidence) c))

  album_credits-IsCreditOf :
      (o : Option Release) (id : Option String) (ev : Evidence) (c : StoredCredit)
      → Has c (album_credits uuid digest o id ev)
      → (r : Release) × ((o ≡ some r) × IsCreditOf r.relations release id ev c)
  unfolding album_credits
  album_credits-IsCreditOf none id ev c m = elim m [ ]
  album_credits-IsCreditOf (some r) id ev c m =
      (r, (refl, relationship_credits-IsCreditOf r.relations release id ev c m))

  recording_credits-IsCreditOf :
      (r : Recording) (ev : Evidence) (c : StoredCredit)
      → Has c (recording_credits uuid digest r ev)
      → IsCreditOf (relations_of r.links) recording r.id ev c ⊎ IsWorkCredit r.links ev c
  unfolding recording_credits
  recording_credits-IsCreditOf r ev c m = elim (append-Has c _ _ m) [
    | inl k ↦ inl (relationship_credits-IsCreditOf _ recording r.id ev c k)
    | inr k ↦ inr (work_credits-IsWorkCredit r.links ev c k)
  ]

  track_credits-Has :
      (rows : Recordings) (evidences : List (String × Evidence)) (default : Evidence)
      → (row : String × List StoredCredit)
      → Has row (track_credits uuid digest rows evidences default)
      → (r : Recording) × (Has (row.0, r) rows
          × (row.1 ≡ recording_credits uuid digest r (evidence_at row.0 evidences default)))
  unfolding track_credits
  track_credits-Has [] evidences default row m = elim m [ ]
  track_credits-Has (first ∷ rows) evidences default row (inl same) =
      rw same (first.1, (inl refl, refl))
  track_credits-Has (first ∷ rows) evidences default row (inr more) =
      let (r, (here, is)) = track_credits-Has rows evidences default row more in (r, (inr here, is))

  -- Every credit that `extract_credits` gives for the album is stated by a relation of the chosen
  -- release, and every one for a track by a relation of its recording or of a work that this performs.
  -- It has that entity's scope and MBID, a known role, and the person's MBID and name.
  pub extract_credits-AreScoped :
      (choice : Choice) (evidences : List (String × Evidence))
      → AreScoped choice evidences (extract_credits uuid digest choice evidences)
  unfolding extract_credits
  extract_credits-AreScoped choice evidences = record {
    of_album = λ c m. album_credits-IsCreditOf choice.release choice.release_id choice.evidence c m;
    of_tracks = λ row m.
        (let (r, (here, is)) =
            track_credits-Has choice.recordings evidences choice.evidence row m in
          (r, (here, λ c k. recording_credits-IsCreditOf r _ c (rw is at k))));
  }
