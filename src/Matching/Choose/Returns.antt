-- ===== src/Matching/Choose/Returns.antt =====
-- No read of `choose_release` of plugins/LumaeAnalysis/credits_matching.py misses its key.
use lumae_plugin.Prelude.{
  ℕ, ◌≡◌, refl, Bool, true, false, String, Option, none, some, List, [], ◌∷◌, Has, inl, inr,
}
use lumae_plugin.Matching.{LocalAlbum, Recording, Release}
use lumae_plugin.Matching.Verify.{Match, Recordings}
use lumae_plugin.Matching.Verify.Lookups.{ids_of, lookup-Has}
use lumae_plugin.Matching.Verify.Tracks.{IsCorroborated, Stands-Has}
use lumae_plugin.Matching.Choose.{
  Choice, Edition, explicit, only, values_at, put_values, shared, shared_recordings, choose_shared,
  choose, with_match, editions_of, choose_release, same_id,
}
use lumae_plugin.Matching.Choose.Editions.{AllComplete, values_at_returns}
use lumae_plugin.Matching.Choose.Safe.{match, match_of-IsCorroborated}

put_values_returns :
    (i : String) (os : Option (List Recording)) (recs : Recordings)
    → ((rs : List Recording) × (os ≡ some rs))
    → (out : Recordings) × (put_values i os (some recs) ≡ some out)
unfolding put_values
put_values_returns i none recs r = absurd cc
put_values_returns i (some rs) recs r = (_, refl)

shared_returns :
    (ids : List String) (rows : Recordings) (es : List Edition) (recs : Recordings)
    → ((row : String × Recording) → Has row rows → Has row.0 ids)
    → AllComplete ids es
    → (out : Recordings) × (shared rows es (some recs) ≡ some out)
unfolding shared
shared_returns ids [] es recs keys all = (recs, refl)
shared_returns ids (row ∷ rows) es recs keys all =
    let (next, at) =
      put_values_returns row.0 (values_at row.0 es) recs
        (values_at_returns ids row.0 es (keys row (inl refl)) all) in
    let (out, rest) = shared_returns ids rows es next (λ z m. keys z (inr m)) all in
    (out, rw at rest)

choose_shared_returns :
    (es : List Edition) (complete : Bool) (o : Option Recordings)
    → ((recs : Recordings) × (o ≡ some recs))
    → (choice : Choice) × (choose_shared es complete o ≡ some choice)
unfolding choose_shared
choose_shared_returns es complete none r = absurd cc
choose_shared_returns es complete (some recs) r = (_, refl)

choose_returns :
    (o p : Option Edition) (es : List Edition) (complete : Bool)
    → ((recs : Recordings) × (shared_recordings es ≡ some recs))
    → (choice : Choice) × (choose o p es complete ≡ some choice)
unfolding choose
choose_returns (some e) p es complete r = (_, refl)
choose_returns none (some e) es true r = (_, refl)
choose_returns none (some e) es false r = choose_shared_returns es false _ r
choose_returns none none es complete r = choose_shared_returns es complete _ r

module _ (uuid : String → Option String) (normalized : String → String)
    (ratio_at_least : ℕ → String → String → Bool) (album : LocalAlbum)
    (verified : Option String) where
  -- The keys of a match are the ids of the tracks.
  keys_of :
      (e : Edition)
      → IsCorroborated uuid normalized ratio_at_least album e.0 (same_id e.0.id verified) e.1
      → (row : String × Recording) → Has row e.1.recordings
      → Has row.0 (ids_of album.tracks)
  keys_of e corroborated row m =
      let (c, at) = lookup-Has row e.1.recordings m in
      Stands-Has uuid normalized ratio_at_least row.0 c album.tracks _
        (corroborated.source row.0 c at)

  with_match-AllComplete :
      (r : Release) (o : Option Match) (es : List Edition)
      → match uuid normalized ratio_at_least album verified r ≡ o
      → AllComplete (ids_of album.tracks) es
      → AllComplete (ids_of album.tracks) (with_match r o es)
  unfolding with_match
  with_match-AllComplete r none es e all = all
  with_match-AllComplete r (some m) es e all = (
    (match_of-IsCorroborated uuid normalized ratio_at_least album verified (r, m) e).complete,
    all,
  )

  editions_of-AllComplete :
      (releases : List Release)
      → AllComplete
          (ids_of album.tracks)
          (editions_of uuid normalized ratio_at_least album verified releases)
  unfolding editions_of
  editions_of-AllComplete [] = tt
  editions_of-AllComplete (r ∷ rs) = with_match-AllComplete r _ _ refl (editions_of-AllComplete rs)

  start :
      (r : Release) (o : Option Match) (es : List Edition)
      → match uuid normalized ratio_at_least album verified r ≡ o
      → AllComplete (ids_of album.tracks) es
      → ((recs : Recordings) × (shared_recordings es ≡ some recs))
      → (recs : Recordings) × (shared_recordings (with_match r o es) ≡ some recs)
  unfolding with_match shared_recordings
  start r none es e all rest = rest
  start r (some m) es e all rest =
      let corroborated =
        match_of-IsCorroborated uuid normalized ratio_at_least album verified (r, m) e in
      shared_returns (ids_of album.tracks) m.recordings ((r, m) ∷ es) []
        (keys_of (r, m) corroborated) (corroborated.complete, all)

  shared_recordings_returns :
      (releases : List Release)
      → (recs : Recordings) × (shared_recordings
            (editions_of uuid normalized ratio_at_least album verified releases)
          ≡ some recs)
  unfolding editions_of shared_recordings
  shared_recordings_returns [] = ([], refl)
  shared_recordings_returns (r ∷ rs) =
      start r _ _ refl (editions_of-AllComplete rs) (shared_recordings_returns rs)

  -- `choose_release` always returns: no recording that it reads is missing from a match.
  pub choose_release_returns :
      (releases : List Release) (complete : Bool)
      → (choice : Choice) × (choose_release uuid normalized ratio_at_least album releases verified
            complete
          ≡ some choice)
  unfolding choose_release
  choose_release_returns releases complete =
      let es = editions_of uuid normalized ratio_at_least album verified releases in
      choose_returns (only (explicit verified es)) (only es) es complete
        (shared_recordings_returns releases)
