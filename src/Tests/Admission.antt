-- ===== src/Tests/Admission.antt =====
-- Stream admission at concrete inputs.
use lumae_plugin.Prelude.{◌≡◌, ◌↔◌, true, false, some}
use lumae_plugin.Json.{int, pos}
use lumae_plugin.Readiness.{
  seconds, Policy, Source, LinkCounts, coverage, catalogue_admission, release_readiness,
}
use lumae_plugin.Readiness.Verdicts.{
  IsVerified, IsCoherent, release_readiness-ready_iff, release_readiness-IsCoherent,
}

abbrev policy : Policy
policy = record {
  catalogue_id_scheme_version = some 4;
  duration_tolerance_seconds = some (seconds (int (pos 1)));
  folder_aware = true;
  chromaprint_collection_enabled = true;
  chromaprint_gate_enabled = true;
  per_link_chromaprint_evidence_available = true;
}

abbrev source : Source
source = record {
  rebind_status = some "active";
  catalog_instance_id = some "c";
  server_id = some "s";
  catalog_status = some "complete";
  refresh_required = false;
  analysis_status = some "complete";
}

abbrev links : LinkCounts
links = record { ready = 3; pending = 0; suspect = 0; missing = 0; verified = 3 }

release_readiness-ready_iff_example :
    ((release_readiness "v3_registry" policy source (some (coverage 3 3 3, links))).ready ≡ true)
    ↔ (((catalogue_admission source).admitted ≡ true) × IsVerified policy source 3 3 3 links)
release_readiness-ready_iff_example = release_readiness-ready_iff policy source 3 3 3 links

release_readiness-IsCoherent_example :
    IsCoherent (release_readiness "v3_registry" policy source (some (coverage 3 2 2, links)))
release_readiness-IsCoherent_example =
    release_readiness-IsCoherent "v3_registry" policy source (some (coverage 3 2 2, links))
