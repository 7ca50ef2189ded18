-- ===== src/Matching/Choose.antt =====
-- plugins/LumaeAnalysis/credits_matching.py: `choose_release`. A key that is missing from a match's
-- recordings raises, which is `none` here.
pub mod Editions
pub mod Safe
pub mod Returns
use lumae_plugin.Prelude.{
  ℕ, Bool, true, false, ◌&&◌, String, Option, none, some, List, [], ◌∷◌, ◌==◌, length,
  if◌then◌else◌,
}
use lumae_plugin.Matching.{LocalAlbum, Recording, Release}
use lumae_plugin.Matching.Verify.{
  Match, Recordings, Evidence, corroborated, lookup, put, verify_release,
}

pub data Status : Type 0 where
  matched recordings_only unresolved : Status

pub record Choice : Type 0 where
  pub status : Status
  pub release : Option Release
  pub release_id : Option String
  pub release_group_id : Option String
  pub recordings : Recordings
  pub evidence : Evidence

-- A release with its match.
abbrev pub Edition : Type 0
Edition = Release × Match

-- `left == right` of texts that may be None.
pub same_id : Option String → Option String → Bool
same_id none none = true
same_id (some a) (some b) = a == b
same_id _ _ = false

-- The editions whose verified id is the album's.
pub explicit : Option String → List Edition → List Edition
unfolding same_id
explicit verified [] = []
explicit verified (e ∷ es) =
    let rest = explicit verified es in if same_id e.1.release_id verified then e ∷ rest else rest

-- The element of a list of one.
pub only : {A : Type 0} → List A → Option A
only [] = none
only (x ∷ []) = some x
only (x ∷ y ∷ rest) = none

pub joined : Option Recording → Option (List Recording) → Option (List Recording)
joined none rest = none
joined (some r) none = none
joined (some r) (some rs) = some (r ∷ rs)

-- `[pair[1]["recordings"][track_id] for pair in matches]`
pub values_at : String → List Edition → Option (List Recording)
unfolding lookup joined
values_at track_id [] = some []
values_at track_id (e ∷ es) = joined (lookup track_id e.1.recordings) (values_at track_id es)

pub all_have : Option String → List Recording → Bool
unfolding same_id
all_have i [] = true
all_have i (r ∷ rs) = same_id i r.id && all_have i rs

-- The first of the values, when the set of their ids has one element.
pub agreed : List Recording → Option Recording
unfolding all_have
agreed [] = none
agreed (r ∷ rs) = if all_have r.id rs then some r else none

-- The write of an agreed recording.
pub put_agreed : String → Option Recording → Recordings → Recordings
unfolding put
put_agreed track_id none recordings = recordings
put_agreed track_id (some r) recordings = put track_id r recordings

-- One turn of the loop: what the values agree on is written, unless a read has raised.
pub put_values : String → Option (List Recording) → Option Recordings → Option Recordings
unfolding agreed put_agreed
put_values track_id none recordings = none
put_values track_id (some rs) none = none
put_values track_id (some rs) (some recordings) = some (put_agreed track_id (agreed rs) recordings)

-- The loop over the recordings of the first match, with the agreed recordings so far.
pub shared : Recordings → List Edition → Option Recordings → Option Recordings
unfolding values_at put_values
shared [] es recordings = recordings
shared (row ∷ rows) es recordings =
    shared rows es (put_values row.0 (values_at row.0 es) recordings)

pub shared_recordings : List Edition → Option Recordings
unfolding shared
shared_recordings [] = some []
shared_recordings (e ∷ es) = shared e.1.recordings (e ∷ es) (some [])

pub matched_as : Edition → Choice
matched_as e = record {
  status = matched;
  release = some e.0;
  release_id = e.1.release_id;
  release_group_id = e.1.release_group_id;
  recordings = e.1.recordings;
  evidence = e.1.evidence;
}

pub status_of : Recordings → Status
status_of [] = unresolved
status_of (row ∷ rows) = recordings_only

pub without_release : List Edition → Bool → Recordings → Choice
unfolding status_of
without_release es complete recordings = record {
  status = status_of recordings;
  release = none;
  release_id = none;
  release_group_id = none;
  recordings = recordings;
  evidence = corroborated (length es) complete;
}

pub choose_shared : List Edition → Bool → Option Recordings → Option Choice
unfolding without_release
choose_shared es complete none = none
choose_shared es complete (some recordings) = some (without_release es complete recordings)

-- The choice between the editions: the one with the verified id, the only one of a complete search,
-- or none.
pub choose : Option Edition → Option Edition → List Edition → Bool → Option Choice
unfolding matched_as shared_recordings choose_shared
choose (some e) single es complete = some (matched_as e)
choose none (some e) es true = some (matched_as e)
choose none (some e) es false = choose_shared es false (shared_recordings es)
choose none none es complete = choose_shared es complete (shared_recordings es)

-- `if match: matches.append((release, match))`
pub with_match : Release → Option Match → List Edition → List Edition
with_match r none es = es
with_match r (some m) es = (r, m) ∷ es

module _ (uuid : String → Option String) (normalized : String → String)
    (ratio_at_least : ℕ → String → String → Bool) where
  -- The match of one release, which is trusted where it has the verified id.
  pub match_of : LocalAlbum → Option String → Release → Option Match
  unfolding same_id verify_release
  match_of album verified release =
      verify_release uuid normalized ratio_at_least album release (same_id release.id verified)

  pub editions_of : LocalAlbum → Option String → List Release → List Edition
  unfolding match_of with_match
  editions_of album verified [] = []
  editions_of album verified (r ∷ rs) =
      with_match r (match_of album verified r) (editions_of album verified rs)

  -- `choose_release(album, releases, verified_release_id, candidates_complete)`
  unfoldable pub choose_release : LocalAlbum → List Release → Option String → Bool → Option Choice
  unfolding choose explicit only editions_of
  choose_release album releases verified complete =
      let es = editions_of album verified releases in
      choose (only (explicit verified es)) (only es) es complete
