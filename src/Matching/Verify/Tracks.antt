-- ===== src/Matching/Verify/Tracks.antt =====
-- What `verify_release` of plugins/LumaeAnalysis/credits_matching.py proves of a release.
use lumae_plugin.Prelude.{
  ℕ, ◌+◌, ◌*◌, ◌≤◌, ◌≡◌, ◌≢◌, ◌⊎◌, inl, inr, refl, sym, Bool, true, false, ◌&&◌, not, String,
  Option, none, some, List, [], ◌∷◌, Has, length, nat_eq, nat_eq_iff, Bool-cases, arith,
}
use lumae_plugin.Matching.{
  LocalTrack, LocalAlbum, Recording, Release, ReleaseTrack, is_like, mbid, artist_ids_match,
  identity_values, credited, duration_matches, release_tracks,
}
use lumae_plugin.Matching.Verify.{
  Match, Recordings, compared, is_some, is_false, lookup, number_differs, or_number, accepts,
  compare_tracks, too_few, tests_album, concluded, method_of, verify_release,
}
use lumae_plugin.Matching.Verify.Lookups.{
  close_tracks, counted-is_close, is_close, lookup-put_inv, lookup-put_same, lookup-put_keeps,
  nothing, all_among-Has, differs_not, false_not, is_some-some, counted≤1, too_few_not, ids_of,
}

module _ (uuid : String → Option String) (normalized : String → String)
    (ratio_at_least : ℕ → String → String → Bool) where
  -- A track of the library and a track of a release that agree in their title, place, duration and
  -- artists, where the recording of the second has an MBID.
  pub record IsSameTrack (l : LocalTrack) (r : ReleaseTrack) : Type 0 where
    pub title : is_like normalized ratio_at_least 94 l.title r.title ≡ true
    pub disc : (n : ℕ) → l.disc_number ≡ some n → n ≡ or_number r.disc 1
    pub place : (n : ℕ) → l.track_number ≡ some n → n ≡ or_number r.position 0
    pub duration : duration_matches l.duration r.duration ≢ some false
    pub mbid_of : (i : String) × (mbid uuid r.recording.id ≡ some i)
    pub artists :
        (a : String)
        → Has a (identity_values uuid l.artist_ids)
        → Has a (credited uuid r.recording.artist_credit)

  accepts-IsSameTrack :
      (l : LocalTrack) (r : ReleaseTrack)
      → accepts uuid normalized ratio_at_least l r ≡ true
      → IsSameTrack l r
  unfolding accepts artist_ids_match
  accepts-IsSameTrack l r h =
      let duration : is_false (duration_matches l.duration r.duration) ≡ false = ground arith in
      let disc : number_differs l.disc_number r.disc 1 ≡ false = ground arith in
      let place : number_differs l.track_number r.position 0 ≡ false = ground arith in
      let known : is_some (mbid uuid r.recording.id) ≡ true = ground arith in
      record {
        title = ground arith;
        disc = λ n e. differs_not l.disc_number r.disc 1 n disc e;
        place = λ n e. differs_not l.track_number r.position 0 n place e;
        duration = false_not (duration_matches l.duration r.duration) duration;
        mbid_of = is_some-some (mbid uuid r.recording.id) known;
        artists =
            all_among-Has (identity_values uuid l.artist_ids)
              (credited uuid r.recording.artist_credit) (ground arith);
      }

  -- The lists have the same length, and their tracks agree in order.
  abbrev pub AreSameTracks : List LocalTrack → List ReleaseTrack → Type 0
  AreSameTracks [] [] = Unit
  AreSameTracks (l ∷ ls) (r ∷ rs) = IsSameTrack l r × AreSameTracks ls rs
  AreSameTracks _ _ = ⊥

  -- A track with this id agrees with a release track at its place that has this recording.
  abbrev pub Stands : String → Recording → List LocalTrack → List ReleaseTrack → Type 0
  Stands i c (l ∷ ls) (r ∷ rs) =
      ((l.id ≡ i) × (r.recording ≡ c) × IsSameTrack l r) ⊎ Stands i c ls rs
  Stands i c _ _ = ⊥

  pub Stands-Has :
      (i : String) (c : Recording) (ls : List LocalTrack) (rs : List ReleaseTrack)
      → Stands i c ls rs
      → Has i (ids_of ls)
  Stands-Has i c [] rs s = elim s [ ]
  Stands-Has i c (l ∷ ls) [] s = elim s [ ]
  Stands-Has i c (l ∷ ls) (r ∷ rs) (inl found) = inl (sym found.0)
  Stands-Has i c (l ∷ ls) (r ∷ rs) (inr more) = inr (Stands-Has i c ls rs more)

  -- What the loop over the tracks gives, from the counted durations and the recordings it starts with.
  record IsCompared (ls : List LocalTrack) (rs : List ReleaseTrack) (d d' : ℕ)
      (recs recs' : Recordings) : Type 0 where
    same : AreSameTracks ls rs
    bound : d' ≤ d + length ls
    total : d' ≡ d + close_tracks ls rs
    source :
        (i : String) (c : Recording)
        → lookup i recs' ≡ some c
        → (lookup i recs ≡ some c) ⊎ Stands i c ls rs
    kept :
        (i : String) (c : Recording)
        → lookup i recs ≡ some c
        → (c' : Recording) × (lookup i recs' ≡ some c')
    all : (i : String) → Has i (ids_of ls) → (c : Recording) × (lookup i recs' ≡ some c)

  compare_tracks-IsCompared :
      (ls : List LocalTrack) (rs : List ReleaseTrack) (d d' : ℕ) (recs recs' : Recordings)
      → length ls ≡ length rs
      → compare_tracks uuid normalized ratio_at_least ls rs d recs ≡ some (d', recs')
      → IsCompared ls rs d d' recs recs'
  unfolding compare_tracks
  compare_tracks-IsCompared [] [] d d' recs recs' e h =
      let same_d : d ≡ d' = cc in
      let same_recs : recs ≡ recs' = cc in
      record {
        same = tt;
        bound = omega arith;
        total = omega arith;
        source = λ i c q. inl (rw same_recs q);
        kept = λ i c q. (c, rw (sym same_recs) q);
        all = λ i m. elim m [ ];
      }
  compare_tracks-IsCompared [] (r ∷ rs) d d' recs recs' e h = absurd (omega arith)
  compare_tracks-IsCompared (l ∷ ls) [] d d' recs recs' e h = absurd (omega arith)
  compare_tracks-IsCompared (l ∷ ls) (r ∷ rs) d d' recs recs' e h =
      elim (Bool-cases (accepts uuid normalized ratio_at_least l r)) [
        | inr f ↦ let no = rw f at h in absurd cc
        | inl f ↦
            let went = rw f at h in
            let more = compare_tracks-IsCompared ls rs _ d' _ recs' (omega arith) went in
            record {
              same = (accepts-IsSameTrack l r f, more.same);
              bound =
                  let one = counted≤1 (duration_matches l.duration r.duration) in
                  let b = more.bound in omega arith;
              total =
                  let this = counted-is_close l.duration r.duration in
                  let later = more.total in
                  elim (Bool-cases (is_close l.duration r.duration)) [
                    | inl e ↦ rw e (omega (arith, rw e at this, later))
                    | inr e ↦ rw e (omega (arith, rw e at this, later))
                  ];
              source = λ i c q. elim (more.source i c q) [
                | inr s ↦ inr (inr s)
                | inl p ↦ elim (lookup-put_inv l.id i r.recording c recs p) [
                  | inl both ↦ inr (inl (both.0, both.1, accepts-IsSameTrack l r f))
                  | inr old ↦ inl old
                ]
              ];
              kept = λ i c q.
                  (let (k, at) = lookup-put_keeps l.id i r.recording c recs q in more.kept i k at);
              all = λ i m. elim m [
                | inl e ↦ more.kept i r.recording (lookup-put_same l.id i r.recording recs (sym e))
                | inr e ↦ more.all i e
              ];
            }
      ]

  -- What a match of a release rests on.
  pub record IsCorroborated (album : LocalAlbum) (release : Release) (trusted : Bool) (m : Match)
      : Type 0 where
    pub id : (i : String) × ((m.release_id ≡ some i) × (mbid uuid release.id ≡ some i))
    pub tracks : AreSameTracks album.tracks (release_tracks release)
    pub source :
        (i : String) (c : Recording)
        → lookup i m.recordings ≡ some c
        → Stands i c album.tracks (release_tracks release)
    pub complete :
        (i : String)
        → Has i (ids_of album.tracks)
        → (c : Recording) × (lookup i m.recordings ≡ some c)
    pub durations :
        (n : ℕ) × ((m.evidence ≡ compared (method_of trusted) (length album.tracks) n)
          × (n ≡ close_tracks album.tracks (release_tracks release))
          × (n ≤ length album.tracks)
          × (trusted ≡ false
              → (2 ≤ length album.tracks) × (2 ≤ n) × (7 * length album.tracks ≤ 10 * n)))

  concluded-IsCorroborated :
      (album : LocalAlbum) (release : Release) (trusted : Bool) (o : Option (ℕ × Recordings))
      → (m : Match) → tests_album uuid normalized ratio_at_least album release ≡ true
      → compare_tracks uuid normalized ratio_at_least album.tracks (release_tracks release) 0 [] ≡ o
      → concluded uuid normalized ratio_at_least album release trusted o ≡ some m
      → IsCorroborated album release trusted m
  unfolding concluded tests_album
  concluded-IsCorroborated album release trusted none m t e h = absurd cc
  concluded-IsCorroborated album release trusted (some (n, recs)) m t e h =
      let known : is_some (mbid uuid release.id) ≡ true = ground arith in
      let alike : nat_eq (length album.tracks) (length (release_tracks release)) ≡ true =
        ground arith in
      let loop =
        compare_tracks-IsCompared album.tracks (release_tracks release) 0 n [] recs
          ((nat_eq_iff _ _).0 alike) e in
      let (i, at) = is_some-some (mbid uuid release.id) known in
      elim (Bool-cases (not trusted && too_few (length album.tracks) n)) [
        | inl f ↦ let no = rw f at h in absurd cc
        | inr f ↦
            let found : Match = record {
              release_id = mbid uuid release.id;
              release_group_id = mbid uuid release.release_group_id;
              recordings = recs;
              evidence = compared (method_of trusted) (length album.tracks) n;
            } in
            let read : some found ≡ some m = rw f at h in
            let same : found ≡ m = cc in
            rw (sym same) (record {
              id = (i, (at, at));
              tracks = loop.same;
              source = λ j c q. elim (loop.source j c q) [
                | inl none_yet ↦ absurd (nothing j c none_yet)
                | inr s ↦ s
              ];
              complete = loop.all;
              durations = (
                n,
                (
                  refl,
                  omega (arith, loop.total),
                  omega (arith, loop.bound),
                  λ u. too_few_not (length album.tracks) n (ground arith),
                ),
              );
            })
      ]

  pub verify_release-IsCorroborated :
      (album : LocalAlbum) (release : Release) (trusted : Bool) (m : Match)
      → verify_release uuid normalized ratio_at_least album release trusted ≡ some m
      → IsCorroborated album release trusted m
  unfolding verify_release
  verify_release-IsCorroborated album release trusted m h =
      elim (Bool-cases (tests_album uuid normalized ratio_at_least album release)) [
        | inl f ↦ concluded-IsCorroborated album release trusted _ m f refl (rw f at h)
        | inr f ↦ (let no = rw f at h in absurd cc)
      ]
