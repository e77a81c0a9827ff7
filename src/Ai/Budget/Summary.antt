-- ===== src/Ai/Budget/Summary.antt =====
-- The summary that each answer carries (buildSummary).
use nest_server.Prelude.{ℕ, ◌||◌, Option, none, some, Text, if◌then◌else◌}
use nest_server.Ai.Budget.{
  user, tenant, Sources, ResolvedAiBudgetLimit, AiBudgetUsage, resolve_limit, scope_usage, finite,
  enforced, remaining, id_of, or_text,
}

pub data Shown : Type 0 where
  by_user by_tenant by_llm : Shown

pub record BudgetSummary : Type 0 where
  pub prompt_tokens : ℕ
  pub used_tokens : Option ℕ
  pub remaining_tokens : Option ℕ
  pub max_tokens : Option ℕ
  pub reset_at : Option ℕ
  pub scope : Option Shown

-- The quota that an administrator pins to a connection.
pub record ProviderQuota : Type 0 where
  pub max_tokens : Option ℕ
  pub period : Option Text

unfoldable pub blank : ℕ → BudgetSummary
blank prompt_tokens = record {
  prompt_tokens = prompt_tokens;
  used_tokens = none;
  remaining_tokens = none;
  max_tokens = none;
  reset_at = none;
  scope = none;
}

unfoldable pub quota_tokens : Option ProviderQuota → Option ℕ
quota_tokens none = none
quota_tokens (some q) = q.max_tokens

unfoldable pub quota_period : Option ProviderQuota → Option Text
quota_period none = none
quota_period (some q) = q.period

-- the scope that is shown beside a limit that is enforced
unfoldable pub shown : Option ℕ → Shown → Option Shown
unfolding finite
shown limit by = if finite limit then some by else none

-- A limit alone, such as the context window.
unfoldable pub with_window : Option ℕ → BudgetSummary → BudgetSummary
unfolding finite
with_window window b =
    if finite window then record b { max_tokens = window; scope = some by_llm } else b

-- Usage against a limit that need not be enforced.
unfoldable pub against : Option ℕ → AiBudgetUsage → Shown → BudgetSummary → BudgetSummary
unfolding remaining enforced shown
against limit usage by b = record b {
  used_tokens = some usage.used_tokens;
  remaining_tokens = remaining limit usage.used_tokens;
  reset_at = usage.reset_at;
  max_tokens = enforced limit;
  scope = shown limit by;
}

module _ (s : Sources) where
  -- The third and fourth case: a soft default of the provider, or the context window.
  unfoldable pub soft :
      Text → ResolvedAiBudgetLimit → Option ℕ → Option ProviderQuota → BudgetSummary → BudgetSummary
  unfolding against with_window quota_tokens quota_period
  soft user_id limit window quota b =
      let usage = scope_usage s user user_id (or_text (quota_period quota) limit.period) in
      if finite (quota_tokens quota)
      then against (quota_tokens quota) usage by_llm b
      else with_window window
          (record b { used_tokens = some usage.used_tokens; reset_at = usage.reset_at })

  unfoldable pub for_user :
      Text → Option Text → Option ℕ → Option ProviderQuota → BudgetSummary → BudgetSummary
  unfolding against id_of
  for_user user_id tenant_id window quota b =
      let limit = resolve_limit s user user_id in
      if finite limit.max_tokens || finite limit.max_prompts
      then against limit.max_tokens (scope_usage s user user_id limit.period) by_user b
      else elim (id_of tenant_id) [
        | none ↦ soft user_id limit window quota b
        | some id ↦
            let tenant_limit = resolve_limit s tenant id in
            if finite tenant_limit.max_tokens
            then against tenant_limit.max_tokens (scope_usage s tenant id tenant_limit.period)
                by_tenant b
            else soft user_id limit window quota b
      ]

  unfoldable pub build_summary :
      (user_id tenant_id : Option Text) → ℕ → Option ℕ → Option ProviderQuota → BudgetSummary
  unfolding blank with_window id_of
  build_summary user_id tenant_id prompt_tokens window quota = elim (id_of user_id) [
    | none ↦ with_window window (blank prompt_tokens)
    | some id ↦ for_user id tenant_id window quota (blank prompt_tokens)
  ]
