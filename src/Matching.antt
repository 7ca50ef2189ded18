-- ===== src/Matching.antt =====
-- plugins/LumaeAnalysis/credits_matching.py: the albums and tracks of the library, the releases,
-- recordings and works of MusicBrainz, and the comparison of their names, artists and durations.
-- Texts that are missing are empty, as the code reads both alike. The parameters are the parser of
-- UUIDs, the normal form of a text and the test of a similarity ratio in hundredths.
pub mod Verify
pub mod Choose
pub mod Credits
use lumae_plugin.Prelude.{
  ℕ, ◌+◌, ◌-◌, ◌*◌, Bool, true, false, ◌&&◌, ◌||◌, not, String, Option, none, some, List, [], ◌∷◌,
  ◌++◌, ◌==◌, map, any, leb, nat_eq, if◌then◌else◌,
}
use Prim.Native.String.{◌++◌ as ◌<>◌}

-- A duration as the two services give it: missing, in milliseconds, or not a number.
pub data Duration : Type 0 where
  no_duration unreadable : Duration
  millis : ℕ → Duration

pub record ArtistCredit : Type 0 where
  pub name : String
  pub artist_name : String
  pub artist_id : Option String
  pub join_phrase : String

pub record Person : Type 0 where
  pub id : Option String
  pub name : String

-- A relation of a release, a recording or a work, without the work it may point at.
pub record Relation : Type 0 where
  pub relationship_type : String
  pub type_id : Option String
  pub target_type : Option String
  pub artist : Person
  pub attributes : List String
  pub attribute_ids : List (String × String)

pub record Work : Type 0 where
  pub id : Option String
  pub relations : List Relation

-- A relation of a recording, with the work it points at.
pub record Link : Type 0 where
  pub relation : Relation
  pub work : Work

pub record Recording : Type 0 where
  pub id : Option String
  pub title : String
  pub duration : Duration
  pub artist_credit : List ArtistCredit
  pub links : List Link

pub record MediumTrack : Type 0 where
  pub position : Option ℕ
  pub title : String
  pub duration : Duration
  pub recording : Recording

pub record Medium : Type 0 where
  pub position : Option ℕ
  pub tracks : List MediumTrack

pub record Release : Type 0 where
  pub id : Option String
  pub release_group_id : Option String
  pub title : String
  pub artist_credit : List ArtistCredit
  pub media : List Medium
  pub relations : List Relation

-- A track of the library; `artist_ids` are its `musicbrainz_artist_id` values.
pub record LocalTrack : Type 0 where
  pub id : String
  pub title : String
  pub artist : String
  pub artist_ids : List (Option String)
  pub duration : Duration
  pub disc_number : Option ℕ
  pub track_number : Option ℕ

pub record LocalAlbum : Type 0 where
  pub title : String
  pub artist : String
  pub artist_ids : List (Option String)
  pub tracks : List LocalTrack

-- One of `release_tracks`.
pub record ReleaseTrack : Type 0 where
  pub disc : Option ℕ
  pub position : Option ℕ
  pub title : String
  pub duration : Duration
  pub recording : Recording

pub is_empty : String → Bool
is_empty s = s == ""

-- `left or right` of texts.
pub or_text : String → String → String
unfolding is_empty
or_text s t = if is_empty s then t else s

-- Whether a duration is falsy.
pub is_absent : Duration → Bool
is_absent no_duration = true
is_absent (millis n) = nat_eq n 0
is_absent unreadable = false

pub or_duration : Duration → Duration → Duration
unfolding is_absent
or_duration d e = if is_absent d then e else d

-- `artist_name(entity)`
pub artist_name : List ArtistCredit → String
unfolding or_text
artist_name [] = ""
artist_name (c ∷ cs) = or_text c.name c.artist_name <> c.join_phrase <> artist_name cs

pub distance : ℕ → ℕ → ℕ
distance a b = (a - b) + (b - a)

-- `duration_matches(local_ms, external_ms)`: none when either is missing, and otherwise whether they
-- are within three seconds or two hundredths of the local one.
pub duration_matches : Duration → Duration → Option Bool
unfolding is_absent distance
duration_matches (millis a) (millis b) =
    if is_absent (millis a) || is_absent (millis b)
    then none
    else some (leb (distance a b) 3000 || leb (50 * distance a b) a)
duration_matches a b = if is_absent a || is_absent b then none else some false

pub medium_tracks : Option ℕ → List MediumTrack → List ReleaseTrack
unfolding or_text or_duration
medium_tracks disc [] = []
medium_tracks disc (t ∷ ts) =
    record {
      disc = disc;
      position = t.position;
      title = or_text t.title t.recording.title;
      duration = or_duration t.duration t.recording.duration;
      recording = t.recording;
    }
    ∷ medium_tracks disc ts

pub tracks_of : List Medium → List ReleaseTrack
unfolding medium_tracks
tracks_of [] = []
tracks_of (m ∷ ms) = medium_tracks m.position m.tracks ++ tracks_of ms

-- `release_tracks(release)`
pub release_tracks : Release → List ReleaseTrack
unfolding tracks_of
release_tracks release = tracks_of release.media

pub all_among : List String → List String → Bool
all_among [] ys = true
all_among (x ∷ xs) ys = any (λ y. x == y) ys && all_among xs ys

module _ (uuid : String → Option String) where
  -- `mbid(value)`: a missing value is no UUID.
  unfoldable pub mbid : Option String → Option String
  mbid none = none
  mbid (some s) = uuid s

  -- The artists that `identity_values` finds; repeats do not matter to the sets they become.
  pub identity_values : List (Option String) → List String
  unfolding mbid
  identity_values [] = []
  identity_values (v ∷ vs) =
      let rest = identity_values vs in elim (mbid v) [ none ↦ rest | some i ↦ i ∷ rest ]

  pub credited : List ArtistCredit → List String
  unfolding identity_values
  credited cs = identity_values (map (λ c. c.artist_id) cs)

  -- `artist_ids_match(local, external)`: with no expected artist the inclusion holds at once.
  pub artist_ids_match : List (Option String) → List ArtistCredit → Bool
  unfolding all_among identity_values credited
  artist_ids_match expected cs = all_among (identity_values expected) (credited cs)

module _ (normalized : String → String) (ratio_at_least : ℕ → String → String → Bool) where
  -- `name_score(left, right) >= percent / 100`: a text with nothing left scores 0.
  pub is_like : ℕ → String → String → Bool
  unfolding is_empty
  is_like percent left right =
      not (is_empty (normalized left))
      && (not (is_empty (normalized right))
          && ratio_at_least percent (normalized left) (normalized right))
