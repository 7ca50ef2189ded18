-- ===== src/Readiness.antt =====
-- Stream admission, plugins/LumaeAnalysis/catalog_readiness.py. The source, the policy and the
-- compatibility adapter come in as records of the values that the code reads from them; the counts
-- come from `Status`. A source field that is missing or empty is `none`.
pub mod Verdicts
use lumae_plugin.Prelude.{
  ℕ, suc, ◌-◌, ◌≡◌, Bool, true, false, ◌&&◌, ◌||◌, not, String, Option, none, some, List, [], ◌∷◌,
  ◌==◌, ltb, nat_eq, if◌then◌else◌,
}
use lumae_plugin.Json.{ℤ, pos, negsuc, Number, int, number_lt}

pub data Blocker : Type 0 where
  source_rebind_required catalog_not_initialized catalog_generation_incomplete : Blocker
  catalog_refresh_required catalog_not_ready readiness_unavailable fp_4_not_active : Blocker
  duration_tolerance_too_wide folder_gate_not_active chromaprint_collection_disabled : Blocker
  chromaprint_gate_disabled analysis_projection_incomplete no_analysis_mappings : Blocker
  analysis_mapping_incomplete chromaprint_backfill_incomplete analysis_links_pending : Blocker
  analysis_links_need_repair analysis_links_missing provisional_links_remaining : Blocker
  sonic_evidence_incomplete per_link_evidence_unavailable : Blocker

pub data Status : Type 0 where
  ready progressive repair_incomplete not_ready not_applicable : Status
  blocked_by : Blocker → Status

-- A tolerance in seconds: positive infinity, or another number. Python's `>` is false of NaN and of
-- negative infinity, the two that `not_finite` stands for here.
pub data Tolerance : Type 0 where
  infinite : Tolerance
  seconds : Number → Tolerance

pub record Policy : Type 0 where
  pub catalogue_id_scheme_version : Option ℕ
  pub duration_tolerance_seconds : Option Tolerance
  pub folder_aware : Bool
  pub chromaprint_collection_enabled : Bool
  pub chromaprint_gate_enabled : Bool
  pub per_link_chromaprint_evidence_available : Bool

pub record Source : Type 0 where
  pub rebind_status : Option String
  pub catalog_instance_id : Option String
  pub server_id : Option String
  pub catalog_status : Option String
  pub refresh_required : Bool
  pub analysis_status : Option String

-- `_coverage`, without the two values that only diagnostics show (a ratio and a time).
pub record Coverage : Type 0 where
  pub eligible_track_count : ℕ
  pub mapped_track_count : ℕ
  pub missing_mapping_count : ℕ
  pub chromaprint_track_count : ℕ
  pub chromaprint_missing_count : ℕ

-- What `status_model.link_counts` returns, past the total.
pub record LinkCounts : Type 0 where
  pub ready : ℕ
  pub pending : ℕ
  pub suspect : ℕ
  pub missing : ℕ
  pub verified : ℕ

-- `_coverage` from the counts of eligible, mapped and fingerprinted tracks
unfoldable pub coverage : ℕ → ℕ → ℕ → Coverage
coverage eligible mapped fingerprinted = record {
  eligible_track_count = eligible;
  mapped_track_count = mapped;
  missing_mapping_count = eligible - mapped;
  chromaprint_track_count = fingerprinted;
  chromaprint_missing_count = mapped - fingerprinted;
}

-- `ready - verified`, a Python int, as a truth value
provisional : LinkCounts → Bool
provisional l = not (nat_eq l.ready l.verified)

-- `if test: blockers.append(code)`, in front of what is appended later
abbrev pub add : Bool → Blocker → List Blocker → List Blocker
add test code later = if test then code ∷ later else later

abbrev pub nonzero : ℕ → Bool
nonzero n = not (nat_eq n 0)

abbrev pub is : Option String → String → Bool
is none word = false
is (some s) word = s == word

abbrev pub is_empty : List Blocker → Bool
is_empty [] = true
is_empty (b ∷ bs) = false

is_four : Option ℕ → Bool
is_four none = false
is_four (some n) = nat_eq n 4

pub too_wide : Option Tolerance → Bool
too_wide none = true
too_wide (some infinite) = true
too_wide (some (seconds t)) = number_lt (int (pos 1)) t

-- `_policy_blockers`, in front of what is appended later
unfoldable pub policy_blockers : Policy → List Blocker → List Blocker
unfolding is_four too_wide
policy_blockers p later = add (not (is_four p.catalogue_id_scheme_version)) fp_4_not_active (
    add (too_wide p.duration_tolerance_seconds) duration_tolerance_too_wide (
      add (not p.folder_aware) folder_gate_not_active (
        add (not p.chromaprint_collection_enabled) chromaprint_collection_disabled
          (add (not p.chromaprint_gate_enabled) chromaprint_gate_disabled later))))

pub record Admission : Type 0 where
  pub status : Status
  pub admitted : Bool
  pub blockers : List Blocker

abbrev is_missing : Option String → Bool
is_missing none = true
is_missing (some s) = s == ""

unfoldable pub catalogue_blockers : Source → List Blocker
catalogue_blockers s = add (is s.rebind_status "rebind_required") source_rebind_required (
    add (is_missing s.catalog_instance_id || is_missing s.server_id) catalog_not_initialized (
      add (not (is s.catalog_status "complete")) catalog_generation_incomplete
        (add s.refresh_required catalog_refresh_required [])))

pub first_or_ready : List Blocker → Status
first_or_ready [] = ready
first_or_ready (b ∷ bs) = blocked_by b

-- `_catalogue_admission`
unfoldable pub catalogue_admission : Source → Admission
unfolding first_or_ready
catalogue_admission s = record {
  status = first_or_ready (catalogue_blockers s);
  admitted = is_empty (catalogue_blockers s);
  blockers = catalogue_blockers s;
}

-- `_stream_admission(False, …, [code])`
abbrev pub refused_with : Blocker → Admission
refused_with code = record { status = not_ready; admitted = false; blockers = code ∷ [] }

projection_incomplete : Source → Bool
projection_incomplete s = not (is s.analysis_status "complete")

-- The blockers that refuse the stream, in the order in which the code appends them.
unfoldable pub admission_blockers : Policy → Source → Coverage → List Blocker
unfolding projection_incomplete
admission_blockers p s c = policy_blockers p (
    add (projection_incomplete s) analysis_projection_incomplete (
      add (nat_eq c.mapped_track_count 0) no_analysis_mappings
        (add (not p.per_link_chromaprint_evidence_available) per_link_evidence_unavailable [])))

-- Some count is not yet what full verification wants, by a code of its own.
unfoldable pub has_count_blocker : Coverage → LinkCounts → Bool
unfolding provisional
has_count_blocker c l =
    nat_eq c.mapped_track_count 0
    || nonzero c.missing_mapping_count
    || nonzero l.pending
    || nonzero l.suspect
    || nonzero l.missing
    || provisional l

-- All blockers, those that only keep the stream from being fully verified included.
unfoldable pub all_blockers : Policy → Source → Coverage → LinkCounts → List Blocker
unfolding projection_incomplete provisional
all_blockers p s c l = policy_blockers p (
    add (projection_incomplete s) analysis_projection_incomplete (
      add (nat_eq c.mapped_track_count 0) no_analysis_mappings (
        add (nonzero c.mapped_track_count && nonzero c.missing_mapping_count)
          analysis_mapping_incomplete
          (add (nonzero c.mapped_track_count && nonzero c.chromaprint_missing_count)
            chromaprint_backfill_incomplete
            (add (nonzero l.pending) analysis_links_pending (
              add (nonzero l.suspect) analysis_links_need_repair (
                add (nonzero l.missing) analysis_links_missing (
                  add (provisional l) provisional_links_remaining (
                    add
                      (not (nat_eq l.verified c.eligible_track_count)
                        && not (has_count_blocker c l))
                      sonic_evidence_incomplete
                      (add (not p.per_link_chromaprint_evidence_available)
                        per_link_evidence_unavailable []))))))))))

-- What `v3_release_readiness` returns, the constant and the diagnostic fields left out.
pub record Readiness : Type 0 where
  pub applicable : Bool
  pub status : Status
  pub ready : Bool
  pub fully_verified : Bool
  pub analysis_sync_allowed : Bool
  pub progressive_analysis : Bool
  pub automatic : Bool
  pub blockers : List Blocker
  pub catalog : Option Admission
  pub analysis : Option Admission

-- An adapter other than v3_registry: nothing is asked of it.
abbrev not_applicable_readiness : Readiness
not_applicable_readiness = record {
  applicable = false;
  status = not_applicable;
  ready = true;
  fully_verified = true;
  analysis_sync_allowed = true;
  progressive_analysis = false;
  automatic = false;
  blockers = [];
  catalog = none;
  analysis = none;
}

abbrev closed : Status → List Blocker → Admission → Blocker → Readiness
closed status blockers catalog code = record {
  applicable = true;
  status = status;
  ready = false;
  fully_verified = false;
  analysis_sync_allowed = false;
  progressive_analysis = false;
  automatic = false;
  blockers = blockers;
  catalog = some catalog;
  analysis = some (refused_with code);
}

pub verdict : Bool → Bool → Status
verdict allowed all =
    if allowed && all then ready else if allowed then progressive else repair_incomplete

open_readiness : Policy → Source → Admission → Coverage → LinkCounts → Readiness
unfolding verdict
open_readiness p s catalog c l =
    let admission = admission_blockers p s c in
    let blockers = all_blockers p s c l in
    let allowed = is_empty admission in
    let all = allowed && is_empty blockers in
    let status = verdict allowed (is_empty blockers) in
    record {
      applicable = true;
      status = status;
      ready = all;
      fully_verified = all;
      analysis_sync_allowed = allowed;
      progressive_analysis = allowed && not all;
      automatic = allowed;
      blockers = blockers;
      catalog = some catalog;
      analysis = some (record { status = status; admitted = allowed; blockers = admission });
    }

with_counts : Policy → Source → Admission → Option (Coverage × LinkCounts) → Readiness
unfolding open_readiness
with_counts p s catalog none =
    closed (blocked_by readiness_unavailable) (readiness_unavailable ∷ []) catalog
      readiness_unavailable
with_counts p s catalog (some (c, l)) = open_readiness p s catalog c l

-- `v3_release_readiness`; `counts` is `none` where reading them raised.
unfoldable pub release_readiness :
    String → Policy → Source → Option (Coverage × LinkCounts) → Readiness
unfolding with_counts
release_readiness adapter p s counts =
    let catalog = catalogue_admission s in
    if not (adapter == "v3_registry")
    then not_applicable_readiness
    else if not catalog.admitted
    then closed catalog.status catalog.blockers catalog catalog_not_ready
    else with_counts p s catalog counts
