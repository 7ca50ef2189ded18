-- ===== src/Readiness/Verdicts.antt =====
-- What the verdicts of stream admission mean.
use lumae_plugin.Prelude.{
  ℕ, ◌≤◌, ◌<◌, ◌≡◌, refl, inl, inr, Bool, true, false, ◌&&◌, ◌||◌, not, String, Option, none, some,
  List, [], ◌∷◌, arith, ◌==◌, if◌then◌else◌, Bool-cases, and_split, ◌↔◌,
}
use lumae_plugin.Json.{Number, int, pos, number_lt}
use lumae_plugin.Readiness.{
  Tolerance, infinite, seconds, catalogue_blockers, first_or_ready, Status, ready, progressive,
  verdict, Policy, Source, Coverage, LinkCounts, coverage, Admission, Readiness, is, is_empty,
  catalogue_admission, admission_blockers, all_blockers, policy_blockers, too_wide,
  has_count_blocker, release_readiness, with_counts, closed, not_applicable_readiness, Blocker,
  blocked_by, readiness_unavailable, catalog_not_ready,
}

-- Every fact about a library that full verification claims.
pub record IsVerified (p : Policy) (s : Source) (eligible mapped fingerprinted : ℕ) (l : LinkCounts)
    : Type 0 where
  pub scheme : p.catalogue_id_scheme_version ≡ some 4
  pub tolerance :
      (t : Number) × ((p.duration_tolerance_seconds ≡ some (seconds t))
        × (number_lt (int (pos 1)) t ≡ false))
  pub folders : p.folder_aware ≡ true
  pub collection : p.chromaprint_collection_enabled ≡ true
  pub gate : p.chromaprint_gate_enabled ≡ true
  pub evidence : p.per_link_chromaprint_evidence_available ≡ true
  pub projected : is s.analysis_status "complete" ≡ true
  pub mapped_some : 0 < mapped
  pub mapped_all : eligible ≤ mapped
  pub fingerprinted_all : mapped ≤ fingerprinted
  pub none_pending : l.pending ≡ 0
  pub none_suspect : l.suspect ≡ 0
  pub none_missing : l.missing ≡ 0
  pub ready_verified : l.ready ≡ l.verified
  pub all_verified : l.verified ≡ eligible

not_wide :
    (d : Option Tolerance)
    → too_wide d ≡ false
    → (t : Number) × ((d ≡ some (seconds t)) × (number_lt (int (pos 1)) t ≡ false))
unfolding too_wide
not_wide none h = absurd cc
not_wide (some infinite) h = absurd cc
not_wide (some (seconds t)) h = (t, (refl, h))

wide_not :
    (d : Option Tolerance) (t : Number)
    → d ≡ some (seconds t)
    → number_lt (int (pos 1)) t ≡ false
    → too_wide d ≡ false
unfolding too_wide
wide_not d t e h = rw e h

all_blockers-IsVerified :
    (p : Policy) (s : Source) (eligible mapped fingerprinted : ℕ) (l : LinkCounts)
    → is_empty (all_blockers p s (coverage eligible mapped fingerprinted) l) ≡ true
    → IsVerified p s eligible mapped fingerprinted l
unfolding all_blockers policy_blockers has_count_blocker coverage
all_blockers-IsVerified p s eligible mapped fingerprinted l h =
    let narrow : too_wide p.duration_tolerance_seconds ≡ false = ground arith in
    record {
      scheme = ground arith;
      tolerance = not_wide p.duration_tolerance_seconds narrow;
      folders = ground arith;
      collection = ground arith;
      gate = ground arith;
      evidence = ground arith;
      projected = ground arith;
      mapped_some = ground arith;
      mapped_all = ground arith;
      fingerprinted_all = ground arith;
      none_pending = ground arith;
      none_suspect = ground arith;
      none_missing = ground arith;
      ready_verified = ground arith;
      all_verified = ground arith;
    }

IsVerified-all_blockers :
    (p : Policy) (s : Source) (eligible mapped fingerprinted : ℕ) (l : LinkCounts)
    → IsVerified p s eligible mapped fingerprinted l
    → is_empty (all_blockers p s (coverage eligible mapped fingerprinted) l) ≡ true
unfolding all_blockers policy_blockers has_count_blocker coverage
IsVerified-all_blockers p s eligible mapped fingerprinted l v =
    let (t, (is_t, narrow)) = v.tolerance in
    let tolerated = wide_not p.duration_tolerance_seconds t is_t narrow in ground arith

-- What refuses the stream also refuses full verification.
all_blockers-admission :
    (p : Policy) (s : Source) (c : Coverage) (l : LinkCounts)
    → is_empty (all_blockers p s c l) ≡ true
    → is_empty (admission_blockers p s c) ≡ true
unfolding all_blockers admission_blockers policy_blockers
all_blockers-admission p s c l h = ground arith

-- Over the v3 registry and with counts at hand, readiness reports a library as ready exactly when
-- the catalogue is admitted and everything that full verification claims holds: the policy's gates,
-- with a duration tolerance that is given, not infinite and not above a second; a complete
-- projection; every eligible track mapped and fingerprinted; no link pending, suspect or missing; and
-- every ready link verified, as many as there are eligible tracks.
pub release_readiness-ready_iff :
    (p : Policy) (s : Source) (eligible mapped fingerprinted : ℕ) (l : LinkCounts)
    → ((release_readiness "v3_registry" p s
          (some (coverage eligible mapped fingerprinted, l))).ready
        ≡ true)
      ↔ (((catalogue_admission s).admitted ≡ true) × IsVerified p s eligible mapped fingerprinted l)
unfolding release_readiness
release_readiness-ready_iff p s eligible mapped fingerprinted l =
    let c = coverage eligible mapped fingerprinted in
    elim (Bool-cases (catalogue_admission s).admitted) [
      | inl a ↦ rw a (
        λ h. (
          refl,
          all_blockers-IsVerified p s eligible mapped fingerprinted l
              (and_split (is_empty (admission_blockers p s c)) (is_empty (all_blockers p s c l))
                h).1,
        ),
        λ v.
            let all = IsVerified-all_blockers p s eligible mapped fingerprinted l v.1 in
            rw (all_blockers-admission p s c l all, all) refl,
      )
      | inr a ↦ rw a (λ h. cc, λ v. cc)
    ]

abbrev pub is_ready : Status → Bool
is_ready ready = true
is_ready _ = false

abbrev pub is_progressive : Status → Bool
is_progressive progressive = true
is_progressive _ = false

-- The fields of a verdict agree, whatever the adapter, the policy, the source and the counts.
pub record IsCoherent (r : Readiness) : Type 0 where
  pub ready_allowed : r.ready ≡ true → r.analysis_sync_allowed ≡ true
  pub progressive_iff : r.progressive_analysis ≡ (r.analysis_sync_allowed && not r.ready)
  pub verified_is_ready : r.fully_verified ≡ r.ready
  pub ready_unblocked : r.ready ≡ true → is_empty r.blockers ≡ true
  pub admitted_as_allowed :
      (a : Admission) → r.analysis ≡ some a → a.admitted ≡ r.analysis_sync_allowed
  pub never_before_catalogue :
      (a b : Admission)
      → r.catalog ≡ some a
      → r.analysis ≡ some b
      → a.admitted ≡ false
      → b.admitted ≡ false
  pub status_ready : r.applicable ≡ true → is_ready r.status ≡ r.ready
  pub status_progressive : is_progressive r.status ≡ r.progressive_analysis
  pub automatic_iff : r.applicable ≡ true → r.automatic ≡ r.analysis_sync_allowed
  pub stream_status :
      (a : Admission)
      → r.analysis ≡ some a
      → a.admitted ≡ (is_ready a.status || is_progressive a.status)
  pub admitted_status :
      (a : Admission) → r.analysis ≡ some a → a.admitted ≡ true → a.status ≡ r.status

not_applicable-IsCoherent : IsCoherent not_applicable_readiness
not_applicable-IsCoherent = record {
  ready_allowed = λ h. refl;
  progressive_iff = refl;
  verified_is_ready = refl;
  ready_unblocked = λ h. refl;
  admitted_as_allowed = λ a e. cc;
  never_before_catalogue = λ a b e. cc;
  status_ready = λ h. absurd cc;
  status_progressive = refl;
  automatic_iff = λ h. absurd cc;
  stream_status = λ a e. cc;
  admitted_status = λ a e. cc;
}

closed-IsCoherent :
    (status : Status) (blockers : List Blocker) (catalog : Admission) (code : Blocker)
    → (is_ready status || is_progressive status) ≡ false
    → IsCoherent (closed status blockers catalog code)
closed-IsCoherent status blockers catalog code held = record {
  ready_allowed = λ h. cc;
  progressive_iff = refl;
  verified_is_ready = refl;
  ready_unblocked = λ h. cc;
  admitted_as_allowed = λ a e. ground arith;
  never_before_catalogue = λ a b e f g. ground arith;
  status_ready = λ h. ground arith;
  status_progressive = ground arith;
  automatic_iff = λ h. refl;
  stream_status = λ a e. ground arith;
  admitted_status = λ a e h. ground arith;
}

verdict-ready : (allowed all : Bool) → is_ready (verdict allowed all) ≡ (allowed && all)
unfolding verdict
verdict-ready true true = refl
verdict-ready true false = refl
verdict-ready false all = refl

verdict-progressive :
    (allowed all : Bool) → is_progressive (verdict allowed all) ≡ (allowed && not (allowed && all))
unfolding verdict
verdict-progressive true true = refl
verdict-progressive true false = refl
verdict-progressive false all = refl

open_status :
    (allowed all : Bool) (blockers : List Blocker) (a : Admission)
    → ◌≡◌ {A = Option Admission}
        (some (record { status = verdict allowed all; admitted = allowed; blockers = blockers }))
        (some a)
    → a.admitted ≡ (is_ready a.status || is_progressive a.status)
unfolding verdict
open_status true true blockers a e = ground arith
open_status true false blockers a e = ground arith
open_status false all blockers a e = ground arith

with_counts-IsCoherent :
    (p : Policy) (s : Source) (catalog : Admission) (counts : Option (Coverage × LinkCounts))
    → catalog.admitted ≡ true
    → IsCoherent (with_counts p s catalog counts)
unfolding with_counts
with_counts-IsCoherent p s catalog none admitted =
    closed-IsCoherent (blocked_by readiness_unavailable) (readiness_unavailable ∷ []) catalog
      readiness_unavailable refl
with_counts-IsCoherent p s catalog (some (c, l)) admitted = record {
  ready_allowed = λ h. (and_split (is_empty (admission_blockers p s c)) _ h).0;
  progressive_iff = refl;
  verified_is_ready = refl;
  ready_unblocked = λ h. (and_split (is_empty (admission_blockers p s c)) _ h).1;
  admitted_as_allowed = λ a e. ground arith;
  never_before_catalogue = λ a b e f g. ground arith;
  status_ready = λ h. verdict-ready (is_empty (admission_blockers p s c)) _;
  status_progressive = verdict-progressive (is_empty (admission_blockers p s c)) _;
  automatic_iff = λ h. refl;
  stream_status = λ a e. open_status (is_empty (admission_blockers p s c)) _ _ a e;
  admitted_status = λ a e h. ground arith;
}

first_or_ready_held :
    (bs : List Blocker)
    → is_empty bs ≡ false
    → (is_ready (first_or_ready bs) || is_progressive (first_or_ready bs)) ≡ false
unfolding first_or_ready
first_or_ready_held [] h = absurd cc
first_or_ready_held (b ∷ bs) h = refl

registry-IsCoherent :
    (p : Policy) (s : Source) (catalog : Admission) (counts : Option (Coverage × LinkCounts))
    (b : Bool)
    → catalog.admitted ≡ b
    → (b ≡ false → (is_ready catalog.status || is_progressive catalog.status) ≡ false)
    → IsCoherent (
        if not b
        then closed catalog.status catalog.blockers catalog catalog_not_ready
        else with_counts p s catalog counts)
registry-IsCoherent p s catalog counts true a held = with_counts-IsCoherent p s catalog counts a
registry-IsCoherent p s catalog counts false a held =
    closed-IsCoherent catalog.status catalog.blockers catalog catalog_not_ready (held refl)

-- In every verdict, for any adapter, policy, source and counts (or none at hand): a ready library may
-- sync and has no blocker, `progressive` means that it may sync and is not ready, fully verified
-- means ready, the analysis stream is admitted exactly when sync is allowed, and it is never
-- admitted while the catalogue stream is not. Over the v3 registry the status is `ready` exactly when
-- the library is, and syncing is automatic exactly when it is allowed; the status is `progressive`
-- exactly in progressive analysis. The stream's own status is ready or progressive exactly when it is
-- admitted, and then it is the library's.
pub release_readiness-IsCoherent :
    (adapter : String) (p : Policy) (s : Source) (counts : Option (Coverage × LinkCounts))
    → IsCoherent (release_readiness adapter p s counts)
unfolding release_readiness catalogue_admission
release_readiness-IsCoherent adapter p s counts = elim (Bool-cases (adapter == "v3_registry")) [
  | inl e ↦ rw e (
      registry-IsCoherent p s (catalogue_admission s) counts (catalogue_admission s).admitted refl
        (λ h. first_or_ready_held (catalogue_blockers s) h))
  | inr e ↦ rw e not_applicable-IsCoherent
]
