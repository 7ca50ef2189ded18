-- ===== src/Tests/Editions.antt =====
-- Matching an album of two tracks against its release, and a second edition with the same recordings.
use lumae_plugin.Prelude.{ℕ, ◌≡◌, refl, Bool, true, String, Option, none, some, List, [], ◌∷◌, ◌==◌}
use lumae_plugin.Matching.{
  no_duration, millis, Duration, ArtistCredit, Relation, Recording, MediumTrack, Release,
  LocalTrack, LocalAlbum,
}
use lumae_plugin.Matching.Verify.{
  Match, Recordings, compared, corroborated, ordered_tracklist, verified_id_and_metadata,
}
use lumae_plugin.Matching.Choose.{Choice, matched, recordings_only, choose_release}
use lumae_plugin.Matching.Choose.Safe.{IsSafeChoice, choose_release-IsSafeChoice}
use lumae_plugin.Matching.Choose.Returns.{choose_release_returns}
use lumae_plugin.Matching.Credits.{Credit, extract_credits}
use lumae_plugin.Matching.Credits.Scopes.{AreScoped, extract_credits-AreScoped}

abbrev parsed : String → Option String
parsed s = some s

abbrev folded : String → String
folded s = s

abbrev alike : ℕ → String → String → Bool
alike percent a b = a == b

abbrev digest : Credit → String
digest c = c.person_mbid

abbrev band : List ArtistCredit
band = record { name = "Band"; artist_name = ""; artist_id = some "a1"; join_phrase = "" } ∷ []

abbrev producer : Relation
producer = record {
  relationship_type = "producer";
  type_id = none;
  target_type = some "artist";
  artist = record { id = some "p1"; name = "Producer" };
  attributes = [];
  attribute_ids = [];
}

abbrev take_one : Recording
take_one = record {
  id = some "c1";
  title = "One";
  duration = millis 200000;
  artist_credit = band;
  links = record { relation = producer; work = record { id = none; relations = [] } } ∷ [];
}

abbrev take_two : Recording
take_two = record {
  id = some "c2";
  title = "Two";
  duration = millis 180000;
  artist_credit = band;
  links = [];
}

abbrev listed : ℕ → Recording → MediumTrack
listed n r = record { position = some n; title = ""; duration = no_duration; recording = r }

abbrev edition : String → Release
edition id = record {
  id = some id;
  release_group_id = some "g1";
  title = "Album";
  artist_credit = band;
  media = record { position = some 1; tracks = listed 1 take_one ∷ listed 2 take_two ∷ [] } ∷ [];
  relations = producer ∷ [];
}

abbrev track : String → String → Duration → ℕ → LocalTrack
track id title duration n = record {
  id = id;
  title = title;
  artist = "Band";
  artist_ids = some "a1" ∷ [];
  duration = duration;
  disc_number = none;
  track_number = some n;
}

abbrev own_album : LocalAlbum
own_album = record {
  title = "Album";
  artist = "Band";
  artist_ids = [];
  tracks = track "t1" "One" (millis 201000) 1 ∷ track "t2" "Two" (millis 180500) 2 ∷ [];
}

abbrev both_takes : Recordings
both_takes = ("t1", take_one) ∷ ("t2", take_two) ∷ []

abbrev found : Match
found = record {
  release_id = some "r1";
  release_group_id = some "g1";
  recordings = both_takes;
  evidence = compared ordered_tracklist 2 2;
}

abbrev one_edition : Choice
one_edition = record {
  status = matched;
  release = some (edition "r1");
  release_id = some "r1";
  release_group_id = some "g1";
  recordings = both_takes;
  evidence = compared verified_id_and_metadata 2 2;
}

abbrev two_editions : Choice
two_editions = record {
  status = recordings_only;
  release = none;
  release_id = none;
  release_group_id = none;
  recordings = both_takes;
  evidence = corroborated 2 true;
}

two_run :
    choose_release parsed folded alike own_album (edition "r1" ∷ edition "r2" ∷ []) none true
    ≡ some two_editions
unfolding choose_release
two_run = refl

one_run :
    choose_release parsed folded alike own_album (edition "r1" ∷ edition "r2" ∷ []) (some "r1") true
    ≡ some one_edition
unfolding choose_release
one_run = refl

choose_release-IsSafeChoice_example :
    IsSafeChoice parsed folded alike own_album
      (edition "r1" ∷ edition "r2" ∷ [])
      (some "r1")
      true
      one_edition
choose_release-IsSafeChoice_example =
    choose_release-IsSafeChoice parsed folded alike own_album (edition "r1" ∷ edition "r2" ∷ [])
      (some "r1") true one_edition one_run

choose_release_returns_example :
    (choice : Choice) × (choose_release parsed folded alike own_album
        (edition "r1" ∷ edition "r2" ∷ [])
        none
        true
      ≡ some choice)
choose_release_returns_example =
    choose_release_returns parsed folded alike own_album none (edition "r1" ∷ edition "r2" ∷ [])
      true

extract_credits-AreScoped_example :
    AreScoped parsed digest one_edition [] (extract_credits parsed digest one_edition [])
extract_credits-AreScoped_example = extract_credits-AreScoped parsed digest one_edition []
