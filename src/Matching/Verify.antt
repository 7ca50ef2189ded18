-- ===== src/Matching/Verify.antt =====
-- plugins/LumaeAnalysis/credits_matching.py: `verify_recording` and `verify_release`.
pub mod Lookups
pub mod Tracks
use lumae_plugin.Prelude.{
  ℕ, ◌+◌, ◌*◌, Bool, true, false, ◌&&◌, ◌||◌, not, String, Option, none, some, List, [], ◌∷◌, ◌==◌,
  length, ltb, nat_eq, if◌then◌else◌,
}
use lumae_plugin.Matching.{
  LocalTrack, LocalAlbum, Recording, Release, ReleaseTrack, is_empty, is_like, mbid,
  artist_ids_match, artist_name, duration_matches, release_tracks,
}

pub data Method : Type 0 where
  verified_id_and_metadata ordered_tracklist : Method

-- What a match or a choice gives for evidence; the matching version is one constant.
pub data Evidence : Type 0 where
  compared : (method : Method) (compared_tracks matching_durations : ℕ) → Evidence
  corroborated : (edition_candidates : ℕ) (candidate_set_complete : Bool) → Evidence

-- The recordings of an album by the ids of its tracks, newest last.
abbrev pub Recordings : Type 0
Recordings = List (String × Recording)

pub record Match : Type 0 where
  pub release_id : Option String
  pub release_group_id : Option String
  pub recordings : Recordings
  pub evidence : Evidence

pub is_some : {A : Type 0} → Option A → Bool
is_some none = false
is_some (some a) = true

pub is_false : Option Bool → Bool
is_false (some false) = true
is_false _ = false

pub is_true : Option Bool → Bool
is_true (some true) = true
is_true _ = false

-- A dictionary's write: a key that is there keeps its place.
unfoldable pub put : String → Recording → Recordings → Recordings
put i r [] = (i, r) ∷ []
put i r (row ∷ rows) = let rest = put i r rows in if row.0 == i then (i, r) ∷ rows else row ∷ rest

unfoldable pub lookup : String → Recordings → Option Recording
lookup i [] = none
lookup i (row ∷ rows) = if row.0 == i then some row.1 else lookup i rows

-- `number or default`
pub or_number : Option ℕ → ℕ → ℕ
or_number none default = default
or_number (some n) default = if nat_eq n 0 then default else n

-- `number is not None and int(number) != int(other or default)`
pub number_differs : Option ℕ → Option ℕ → ℕ → Bool
unfolding or_number
number_differs none other default = false
number_differs (some n) other default = not (nat_eq n (or_number other default))

-- How many of the durations agreed.
pub counted : Option Bool → ℕ
unfolding is_true
counted d = if is_true d then 1 else 0

-- `len(local) < 2 or durations < max(2, len(local) * 0.7)`
pub too_few : ℕ → ℕ → Bool
too_few tracks durations = ltb tracks 2 || (ltb durations 2 || ltb (10 * durations) (7 * tracks))

pub method_of : Bool → Method
method_of true = verified_id_and_metadata
method_of false = ordered_tracklist

module _ (uuid : String → Option String) (normalized : String → String)
    (ratio_at_least : ℕ → String → String → Bool) where
  -- `verify_recording(local, recording, trusted_id)`
  pub verify_recording : LocalTrack → Recording → Bool → Bool
  unfolding is_some is_false is_true is_empty mbid is_like artist_ids_match artist_name
      duration_matches
  verify_recording local recording trusted_id =
      is_some (mbid uuid recording.id)
      && (is_like normalized ratio_at_least 94 local.title recording.title
          && (not (is_empty local.artist)
              && (is_like normalized ratio_at_least 90 local.artist
                    (artist_name recording.artist_credit)
                  && (artist_ids_match uuid local.artist_ids recording.artist_credit
                      && (not (is_false (duration_matches local.duration recording.duration))
                          && (trusted_id
                              || is_true (duration_matches local.duration recording.duration)))))))

  -- The tests of one pair of tracks, each of which returns None where it fails.
  pub accepts : LocalTrack → ReleaseTrack → Bool
  unfolding is_some is_false is_empty number_differs mbid is_like artist_ids_match artist_name
      duration_matches
  accepts left right =
      is_like normalized ratio_at_least 94 left.title right.title
      && (not (number_differs left.disc_number right.disc 1)
          && (not (number_differs left.track_number right.position 0)
              && (not (is_false (duration_matches left.duration right.duration))
                  && (is_some (mbid uuid right.recording.id)
                      && ((is_empty left.artist
                            || is_like normalized ratio_at_least 90 left.artist
                                (artist_name right.recording.artist_credit))
                          && artist_ids_match uuid left.artist_ids
                              right.recording.artist_credit)))))

  -- The loop over `zip(local, external)`, with the counted durations and the recordings so far.
  pub compare_tracks :
      List LocalTrack → List ReleaseTrack → ℕ → Recordings → Option (ℕ × Recordings)
  unfolding put counted accepts duration_matches
  compare_tracks (l ∷ ls) (r ∷ rs) durations recordings =
      let rest =
        compare_tracks ls rs (durations + counted (duration_matches l.duration r.duration))
          (put l.id r.recording recordings) in
      if accepts l r then rest else none
  compare_tracks _ _ durations recordings = some (durations, recordings)

  pub tests_album : LocalAlbum → Release → Bool
  unfolding is_some mbid is_like artist_ids_match artist_name release_tracks
  tests_album album release =
      is_some (mbid uuid release.id)
      && (is_like normalized ratio_at_least 94 album.title release.title
          && (is_like normalized ratio_at_least 90 album.artist (artist_name release.artist_credit)
              && (artist_ids_match uuid album.artist_ids release.artist_credit
                  && (not (nat_eq (length album.tracks) 0)
                      && nat_eq (length album.tracks) (length (release_tracks release))))))

  -- The result once the tracks are compared.
  pub concluded : LocalAlbum → Release → Bool → Option (ℕ × Recordings) → Option Match
  unfolding too_few method_of mbid
  concluded album release trusted_id none = none
  concluded album release trusted_id (some (durations, recordings)) =
      if not trusted_id && too_few (length album.tracks) durations
      then none
      else some (record {
        release_id = mbid uuid release.id;
        release_group_id = mbid uuid release.release_group_id;
        recordings = recordings;
        evidence = compared (method_of trusted_id) (length album.tracks) durations;
      })

  -- `verify_release(album, release, trusted_id)`
  unfoldable pub verify_release : LocalAlbum → Release → Bool → Option Match
  unfolding tests_album concluded compare_tracks release_tracks
  verify_release album release trusted_id =
      if tests_album album release
      then concluded album release trusted_id
          (compare_tracks album.tracks (release_tracks release) 0 [])
      else none
