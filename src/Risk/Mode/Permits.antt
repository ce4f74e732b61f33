-- ===== src/Risk/Mode/Permits.antt =====
-- Exactly when app/risk/mode.py permits execution.
use sarkfxbot.Base.{
  String, ◌≡◌, ◌↔◌, ◌⊎◌, inl, inr, ◌≢◌, refl, eq_iff, Bool, true, false, Option, none, some, arith,
  is_empty, ap, ltb,
}
use sarkfxbot.Base.Exec.{type_error, Result, ok, err}
use sarkfxbot.Base.Reasons.{failing, unique, AllClear, clear_of_failing, failing_of_clear}
use sarkfxbot.Base.Text.{is_missing, all_chars}
use sarkfxbot.Domain.Enums.{TradingMode, TradingEnvironment, AccountType}
use sarkfxbot.Risk.Mode.{
  ExecutionPermission, PermissionRequest, no_text, confirmed, compared, permission_of,
  permission_checks, evaluate_execution_permission,
}

-- The live interlock: both texts are set, not empty, in ASCII, and equal.
abbrev pub IsConfirmed : Option String → Option String → Type 0
IsConfirmed (some a) (some b) =
    (is_missing a ≡ false) × (all_chars (λ c. ltb c 128) a ≡ true) × (a ≡ b)
IsConfirmed _ _ = ⊥

-- Both texts are set and not empty, and one of them is not in ASCII.
abbrev pub IsIncomparable : Option String → Option String → Type 0
IsIncomparable (some a) (some b) =
    (is_missing a ≡ false)
    × (is_missing b ≡ false)
    × ((all_chars (λ c. ltb c 128) a ≡ false) ⊎ (all_chars (λ c. ltb c 128) b ≡ false))
IsIncomparable _ _ = ⊥

-- The policy in words of the documents: no execution in SIGNAL mode, SEMI_AUTO only with approval,
-- a demo account in the demo environment, or a real one in production with flag and confirmation.
pub record IsPermitted (r : PermissionRequest) : Type 0 where
  pub executes : r.mode ≢ TradingMode.signal
  pub approval : r.mode ≡ TradingMode.semi_auto → r.approved ≡ true
  pub place :
      ((r.environment ≡ TradingEnvironment.demo) × (r.account_type ≡ AccountType.demo))
      ⊎ ((r.environment ≡ TradingEnvironment.production)
          × (r.account_type ≡ AccountType.real)
          × (r.live_trading_enabled ≡ true)
          × IsConfirmed r.configured_confirmation r.required_confirmation)

confirmed_of_tests :
    (a b : Option String)
    → no_text a ≡ false
    → no_text b ≡ false
    → confirmed a b ≡ ok true
    → IsConfirmed a b
confirmed_of_tests none b h k e = ground arith
confirmed_of_tests (some a) none h k e = ground arith
confirmed_of_tests (some a) (some b) h k e = (h, ground arith, (eq_iff a b).0 (ground arith))

tests_of_confirmed :
    (a b : Option String)
    → IsConfirmed a b
    → (no_text a ≡ false) × (no_text b ≡ false) × (confirmed a b ≡ ok true)
tests_of_confirmed none b h = absurd h
tests_of_confirmed (some a) none h = absurd h
tests_of_confirmed (some a) (some b) (h, ascii, e) =
    let h' : is_missing b ≡ false = rw (← e) h in
    let ascii' : all_chars (λ c. ltb c 128) b ≡ true = rw (← e) ascii in
    let same = (eq_iff a b).1 e in (h, h', ground arith)

text_comparison :
    (a b : Option String)
    → (confirmed a b
        ≡ err (type_error "comparing strings with non-ASCII characters is not supported"))
      ↔ IsIncomparable a b
text_comparison none b = (λ e. absurd (ground arith), λ h. absurd h)
text_comparison (some a) none = (λ e. absurd (ground arith), λ h. absurd h)
text_comparison (some a) (some b) = (λ e. ground arith, λ h. ground arith)

module _ (r : PermissionRequest) (valid : Bool) (at : compared r ≡ ok valid)
    (c : AllClear (permission_checks r valid)) where
  place_of_clear :
      ((r.environment ≡ TradingEnvironment.demo) × (r.account_type ≡ AccountType.demo))
      ⊎ ((r.environment ≡ TradingEnvironment.production)
          × (r.account_type ≡ AccountType.real)
          × (r.live_trading_enabled ≡ true)
          × IsConfirmed r.configured_confirmation r.required_confirmation)
  unfolding permission_checks
  place_of_clear =
      ground (arith, confirmed_of_tests r.configured_confirmation r.required_confirmation)

  policy_of_clear : IsPermitted r
  unfolding permission_checks
  policy_of_clear = record {
    executes = λ e. ground arith;
    approval = λ e. ground arith;
    place = place_of_clear;
  }

policy_of_allowed :
    (r : PermissionRequest) (v : Result Bool) (p : ExecutionPermission)
    → compared r ≡ v
    → permission_of r v ≡ ok p
    → p.allowed ≡ true
    → IsPermitted r
policy_of_allowed r (ok valid) p at e h =
    policy_of_clear r valid at (clear_of_failing (permission_checks r valid) (ground arith))
policy_of_allowed r (err x) p at e h = absurd (ground arith)

clear_of_permitted :
    (r : PermissionRequest)
    → IsPermitted r
    → (valid : Bool) × (compared r ≡ ok valid) × AllClear (permission_checks r valid)
unfolding permission_checks
clear_of_permitted r h =
    let executes = h.executes in
    let approval = h.approval in
    elim h.place [
      | inl at ↦ (false, ground arith, ground arith)
      | inr at ↦
          let (_, _, _, texts) = at in
          let tests = tests_of_confirmed r.configured_confirmation r.required_confirmation texts in
          (true, ground arith, ground arith)
    ]

permission_raises :
    (r : PermissionRequest) (v : Result Bool)
    → (permission_of r v
        ≡ err (type_error "comparing strings with non-ASCII characters is not supported"))
      ↔ (v ≡ err (type_error "comparing strings with non-ASCII characters is not supported"))
permission_raises r (ok valid) = (λ e. absurd (ground arith), λ e. absurd (ground arith))
permission_raises r (err x) = (λ e. cc, λ e. cc)

compared_raises :
    (r : PermissionRequest)
    → (compared r ≡ err (type_error "comparing strings with non-ASCII characters is not supported"))
      ↔ ((r.environment ≡ TradingEnvironment.production)
          × IsIncomparable r.configured_confirmation r.required_confirmation)
compared_raises r =
    let texts = text_comparison r.configured_confirmation r.required_confirmation in
    (λ e. (ground arith, texts.0 (ground arith)), λ (at, h). let e = texts.1 h in ground arith)

-- Execution is permitted exactly under the policy `IsPermitted`: never in SIGNAL mode, in SEMI_AUTO
-- only when approved, and only for a demo account in the demo environment or a real account in
-- production with live trading enabled and two equal, non-empty confirmation texts in ASCII. Instead
-- of an answer, TypeError is raised exactly in production with two non-empty texts of which one is
-- not in ASCII.
pub permission_iff :
    (r : PermissionRequest)
    → (((p : ExecutionPermission) × (evaluate_execution_permission r ≡ ok p) × (p.allowed ≡ true))
        ↔ IsPermitted r)
      × ((evaluate_execution_permission r
            ≡ err (type_error "comparing strings with non-ASCII characters is not supported"))
          ↔ ((r.environment ≡ TradingEnvironment.production)
              × IsIncomparable r.configured_confirmation r.required_confirmation))
unfolding evaluate_execution_permission
permission_iff r = (
  (
    λ (p, e, h). policy_of_allowed r (compared r) p refl e h,
    λ h.
        let (valid, at, c) = clear_of_permitted r h in
        let reasons = failing (permission_checks r valid) in
        (
          record { allowed = is_empty reasons; reasons = unique reasons },
          ap (permission_of r) at,
          ap is_empty (failing_of_clear (permission_checks r valid) c),
        ),
  ),
  (
    λ e. (compared_raises r).0 ((permission_raises r (compared r)).0 e),
    λ h. (permission_raises r (compared r)).1 ((compared_raises r).1 h),
  ),
)
