-- ===== src/Risk/Mode.antt =====
-- app/risk/mode.py: which mode, environment and account may execute at all. A confirmation text is
-- missing when it is None or empty; `hmac.compare_digest` raises on a text outside ASCII.
pub mod Permits
use sarkfxbot.Base.{
  String, str_eq, Bool, true, false, not, ◌&&◌, ◌||◌, Option, none, some, List, [], ◌∷◌, is_empty,
  ltb, if◌then◌else◌,
}
use sarkfxbot.Base.Reasons.{Check, failing, unique}
use sarkfxbot.Base.Text.{is_missing, all_chars}
use sarkfxbot.Base.Exec.{type_error, Result, ok, err}
use sarkfxbot.Domain.Enums.{
  TradingMode, TradingEnvironment, AccountType, is_signal_mode, is_semi_auto, is_demo_environment,
  is_production, is_demo_account, is_real_account, is_unknown_account,
}

pub record ExecutionPermission : Type 0 where
  pub allowed : Bool
  pub reasons : List String

-- The arguments of `evaluate_execution_permission`.
pub record PermissionRequest : Type 0 where
  pub mode : TradingMode
  pub environment : TradingEnvironment
  pub account_type : AccountType
  pub approved : Bool
  pub live_trading_enabled : Bool
  pub configured_confirmation : Option String
  pub required_confirmation : Option String

-- `not text`, on a text that may be None
abbrev pub no_text : Option String → Bool
no_text none = true
no_text (some s) = is_missing s

abbrev pub is_ascii : String → Bool
is_ascii = all_chars (λ c. ltb c 128)

-- hmac.compare_digest, which raises TypeError on a text outside ASCII
abbrev pub compare_digest : String → String → Result Bool
compare_digest a b =
    if is_ascii a && is_ascii b
    then ok (str_eq a b)
    else err (type_error "comparing strings with non-ASCII characters is not supported")

-- The comparison of the confirmations, which is reached only when both texts are there.
abbrev pub confirmed : Option String → Option String → Result Bool
confirmed (some a) (some b) = if is_missing a || is_missing b then ok false else compare_digest a b
confirmed _ _ = ok false

-- The tests, with the outcome of the comparison.
unfoldable pub permission_checks : PermissionRequest → Bool → List Check
permission_checks r valid =
    (is_signal_mode r.mode, "SIGNAL_MODE_NEVER_EXECUTES")
    ∷ (is_semi_auto r.mode && not r.approved, "MANUAL_APPROVAL_REQUIRED")
    ∷ (not (is_demo_environment r.environment || live), "EXECUTION_ENVIRONMENT_NOT_ALLOWED")
    ∷ (is_unknown_account r.account_type, "BROKER_ACCOUNT_TYPE_UNKNOWN")
    ∷ (
      is_demo_environment r.environment && not (is_demo_account r.account_type),
      "DEMO_ENVIRONMENT_REQUIRES_VERIFIED_DEMO_ACCOUNT",
    )
    ∷ (is_real_account r.account_type && not live, "REAL_ACCOUNT_FORBIDDEN_OUTSIDE_PRODUCTION")
    ∷ (live && not (is_real_account r.account_type), "PRODUCTION_REQUIRES_VERIFIED_REAL_ACCOUNT")
    ∷ (live && not r.live_trading_enabled, "LIVE_TRADING_FLAG_DISABLED")
    ∷ (live && missing, "LIVE_TRADING_CONFIRMATION_MISSING")
    ∷ (live && not missing && not valid, "LIVE_TRADING_CONFIRMATION_INVALID")
    ∷ (not live && is_real_account r.account_type, "DEMO_FIRST_POLICY_BLOCKED_REAL_EXECUTION")
    ∷ []
  where
    live : Bool
    live = is_production r.environment

    missing : Bool
    missing = no_text r.configured_confirmation || no_text r.required_confirmation

-- The comparison, made in production only.
abbrev pub compared : PermissionRequest → Result Bool
compared r =
    if is_production r.environment
    then confirmed r.configured_confirmation r.required_confirmation
    else ok false

abbrev pub permission_of : PermissionRequest → Result Bool → Result ExecutionPermission
permission_of r (err e) = err e
permission_of r (ok valid) =
    let reasons = failing (permission_checks r valid) in
    ok (record { allowed = is_empty reasons; reasons = unique reasons })

-- evaluate_execution_permission
unfoldable pub evaluate_execution_permission : PermissionRequest → Result ExecutionPermission
evaluate_execution_permission r = permission_of r (compared r)
