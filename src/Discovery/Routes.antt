-- ===== src/Discovery/Routes.antt =====
-- The routes of personal discovery (`principal`, `invoke` and the three routes of
-- plugins/LumaeAnalysis/personal_discovery.py).
use lumae_plugin.Prelude.{ℕ, Bool, true, false, String, Option, if◌then◌else◌}
use lumae_plugin.Json.{Json, Fields, Result, ok, err, ◌>>=◌}
use lumae_plugin.Discovery.{Mutation, Payload, Space}
use lumae_plugin.Discovery.Checks.{validate}
use lumae_plugin.Discovery.Mutate.{mutate}
use lumae_plugin.Discovery.Pages.{Args, PageAnswer, page}

-- Who asks: `g.auth_method` is bearer or session, or there is a `g.auth_user`; and whether
-- `collections_enabled()`.
pub record Caller : Type 0 where
  pub user : String
  pub authenticated : Bool
  pub enabled : Bool

pub data Reply (A : Type 0) : Type 0 where
  answered : A → Reply A
  unauthorized : Reply A  -- 401
  personal_discovery_disabled : Reply A  -- 503
  invalid_discovery_request : Reply A  -- 400

module _ {A : Type 0} where
  -- The commit, or the rollback where the work raises ValueError, TypeError or OverflowError.
  unfoldable pub committed : Result (A × Space) → Space → Reply A × Space
  committed (err e) sp = (invalid_discovery_request, sp)
  committed (ok (a, sp')) sp = (answered a, sp')

  unfoldable pub invoke : Caller → (Space → Result (A × Space)) → Space → Reply A × Space
  unfolding committed
  invoke caller work sp =
      if caller.authenticated
      then if caller.enabled then committed (work sp) sp else (personal_discovery_disabled, sp)
      else (unauthorized, sp)

module _ (uuid : String → Option String) (encoded_size : Fields → Result ℕ)
    (fingerprint : Mutation → String) where
  -- POST /api/personal_discovery/mutations; `new_epoch` is the UUID that a missing scope gets.
  unfoldable pub discovery_mutation : String → Caller → Json → Space → Reply Payload × Space
  unfolding invoke validate mutate
  discovery_mutation new_epoch caller body = invoke caller (λ sp. do
    m ← validate uuid encoded_size body
    mutate uuid fingerprint new_epoch caller.user m sp)

-- GET /api/personal_discovery/bootstrap
unfoldable pub discovery_bootstrap : String → Caller → Args → Space → Reply PageAnswer × Space
unfolding invoke page
discovery_bootstrap new_epoch caller args = invoke caller (page true new_epoch args)

-- GET /api/personal_discovery/changes
unfoldable pub discovery_changes : String → Caller → Args → Space → Reply PageAnswer × Space
unfolding invoke page
discovery_changes new_epoch caller args = invoke caller (page false new_epoch args)
