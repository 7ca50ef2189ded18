-- ===== src/Matching/Choose/Safe.antt =====
-- `choose_release` of plugins/LumaeAnalysis/credits_matching.py names a release only where one edition
-- is proved.
use lumae_plugin.Prelude.{
  ℕ, ◌≡◌, ◌≢◌, ◌⊎◌, inl, inr, refl, sym, ap, ◌∙◌, Bool, true, false, String, Option, none, some,
  List, [], ◌∷◌, Has, Bool-cases,
}
use lumae_plugin.Matching.{LocalAlbum, Recording, Release}
use lumae_plugin.Matching.Verify.{Match, Recordings, lookup}
use lumae_plugin.Matching.Verify.Tracks.{IsCorroborated, verify_release-IsCorroborated}
use lumae_plugin.Matching.Choose.{
  matched, Choice, Edition, same_id, explicit, only, shared_recordings, matched_as, status_of,
  without_release, choose_shared, choose, match_of, with_match, editions_of, choose_release,
}
use lumae_plugin.Matching.Choose.Editions.{AllAgree, shared_recordings-AllAgree, same_id-eq}

only_inv : {A : Type 0} (xs : List A) (x : A) → only xs ≡ some x → xs ≡ x ∷ []
unfolding only
only_inv [] x h = absurd cc
only_inv (y ∷ []) x h = cc
only_inv (y ∷ z ∷ rest) x h = absurd cc

explicit-Has :
    (verified : Option String) (es : List Edition) (e : Edition)
    → Has e (explicit verified es)
    → Has e es × (e.1.release_id ≡ verified)
unfolding explicit
explicit-Has verified [] e m = elim m [ ]
explicit-Has verified (f ∷ es) e m = elim (Bool-cases (same_id f.1.release_id verified)) [
  | inl s ↦ elim (rw s at m) [
    | inl same ↦ (inl same, rw same (same_id-eq f.1.release_id verified s))
    | inr more ↦ (let (here, at) = explicit-Has verified es e more in (inr here, at))
  ]
  | inr s ↦ (let (here, at) = explicit-Has verified es e (rw s at m) in (inr here, at))
]

shared_inv :
    (es : List Edition) (complete : Bool) (o : Option Recordings) (choice : Choice)
    → shared_recordings es ≡ o
    → choose_shared es complete o ≡ some choice
    → (recs : Recordings) × ((shared_recordings es ≡ some recs)
        × (choice ≡ without_release es complete recs))
unfolding choose_shared
shared_inv es complete none choice e h = absurd cc
shared_inv es complete (some recs) choice e h = (recs, (e, cc))

-- What a choice rests on: an edition that has the verified id or is the only one, or the recordings
-- that the editions share.
choose_inv :
    (o p : Option Edition) (es : List Edition) (complete : Bool) (choice : Choice)
    → choose o p es complete ≡ some choice
    → ((e : Edition) × ((choice ≡ matched_as e)
          × ((o ≡ some e) ⊎ ((p ≡ some e) × (complete ≡ true)))))
      ⊎ ((recs : Recordings) × ((shared_recordings es ≡ some recs)
            × (choice ≡ without_release es complete recs)))
unfolding choose
choose_inv (some e) p es complete choice h = inl (e, (cc, inl refl))
choose_inv none (some e) es true choice h = inl (e, (cc, inr (refl, refl)))
choose_inv none (some e) es false choice h = inr (shared_inv es false _ choice refl h)
choose_inv none none es complete choice h = inr (shared_inv es complete _ choice refl h)

with_match-Has :
    (r : Release) (e : Edition) (o : Option Match) (es : List Edition)
    → Has e (with_match r o es)
    → ((e.0 ≡ r) × (o ≡ some e.1)) ⊎ Has e es
unfolding with_match
with_match-Has r e none es m = inr m
with_match-Has r e (some match) es (inl same) =
    inl (ap (λ z. z.0) same, ap (λ z. some z.1) (sym same))
with_match-Has r e (some match) es (inr more) = inr more

why_chosen :
    (verified : Option String) (es : List Edition) (complete : Bool) (e : Edition)
    → (only (explicit verified es) ≡ some e) ⊎ ((only es ≡ some e) × (complete ≡ true))
    → Has e es × ((e.1.release_id ≡ verified) ⊎ ((complete ≡ true) × (es ≡ e ∷ [])))
why_chosen verified es complete e (inl h) =
    let m : Has e (explicit verified es) = rw (only_inv (explicit verified es) e h) (inl refl) in
    let (here, same) = explicit-Has verified es e m in (here, inl same)
why_chosen verified es complete e (inr (h, all)) =
    let one = only_inv es e h in let here : Has e es = rw one (inl refl) in (here, inr (all, one))

status_not : (recs : Recordings) → status_of recs ≢ matched
unfolding status_of
status_not [] h = cc
status_not (r ∷ rs) h = cc

module _ (uuid : String → Option String) (normalized : String → String)
    (ratio_at_least : ℕ → String → String → Bool) where
  abbrev pub match : LocalAlbum → Option String → Release → Option Match
  match album verified r = match_of uuid normalized ratio_at_least album verified r

  editions_of-Has :
      (album : LocalAlbum) (verified : Option String) (releases : List Release) (e : Edition)
      → Has e (editions_of uuid normalized ratio_at_least album verified releases)
      → Has e.0 releases × (match album verified e.0 ≡ some e.1)
  unfolding editions_of
  editions_of-Has album verified [] e m = elim m [ ]
  editions_of-Has album verified (r ∷ rs) e m =
      elim (with_match-Has r e (match album verified r) _ m) [
        | inl both ↦ (inl both.0, rw both.0 both.1)
        | inr more ↦ (let (here, at) = editions_of-Has album verified rs e more in (inr here, at))
      ]

  pub match_of-IsCorroborated :
      (album : LocalAlbum) (verified : Option String) (e : Edition)
      → match album verified e.0 ≡ some e.1
      → IsCorroborated uuid normalized ratio_at_least album e.0 (same_id e.0.id verified) e.1
  unfolding match_of
  match_of-IsCorroborated album verified e h =
      verify_release-IsCorroborated uuid normalized ratio_at_least album e.0
        (same_id e.0.id verified) e.1 h

  -- What a choice may give: a release of the list that is corroborated, and has the verified id or is
  -- the only edition of a complete search; or no release, and recordings that every edition agrees on.
  pub record IsSafeChoice (album : LocalAlbum) (releases : List Release) (verified : Option String)
      (complete : Bool) (choice : Choice) : Type 0 where
    pub named :
        choice.status ≡ matched
        → (e : Edition) × (Has e.0 releases
            × (IsCorroborated uuid normalized ratio_at_least album e.0 (same_id e.0.id verified) e.1
                × ((choice ≡ matched_as e)
                    × ((e.1.release_id ≡ verified)
                        ⊎ ((complete ≡ true)
                            × (editions_of uuid normalized ratio_at_least album verified releases
                                ≡ e ∷ []))))))
    pub unnamed :
        choice.status ≢ matched
        → (choice.release ≡ none)
          × ((choice.release_id ≡ none)
              × ((choice.release_group_id ≡ none)
                  × ((i : String) (c : Recording)
                      → lookup i choice.recordings ≡ some c
                      → AllAgree i c
                          (editions_of uuid normalized ratio_at_least album verified releases))))

  -- A choice of `choose_release` that is matched names a corroborated release of the list, which has
  -- the verified id or is the only edition of a complete search. Any other choice names no release,
  -- and every edition has each recording that it gives, under the same id.
  pub choose_release-IsSafeChoice :
      (album : LocalAlbum) (releases : List Release) (verified : Option String) (complete : Bool)
      → (choice : Choice)
      → choose_release uuid normalized ratio_at_least album releases verified complete ≡ some choice
      → IsSafeChoice album releases verified complete choice
  unfolding choose_release
  choose_release-IsSafeChoice album releases verified complete choice h =
      let es = editions_of uuid normalized ratio_at_least album verified releases in
      elim (choose_inv (only (explicit verified es)) (only es) es complete choice h) [
        | inl (e, (same, why)) ↦
            let (here, reason) = why_chosen verified es complete e why in
            let (listed, at) = editions_of-Has album verified releases e here in
            record {
              named =
                  λ u. (e, (listed, (match_of-IsCorroborated album verified e at, (same, reason))));
              unnamed = λ no. absurd (let yes = ap (λ z. z.status) same in no yes);
            }
        | inr (recs, (read, same)) ↦ record {
          named = λ u. absurd (status_not recs (sym (ap (λ z. z.status) same) ∙ u));
          unnamed = λ no. rw same (refl, (refl, (refl, shared_recordings-AllAgree es recs read)));
        }
      ]
