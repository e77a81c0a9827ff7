-- ===== src/Ai/Budget.antt =====
-- Token and prompt budgets (src/core/modules/ai/services/core-ai-budget.service.ts). Limits and usage
-- are natural numbers. The collections, the calendar of the runtime and the configuration are
-- parameters; the CRUD operations that the service inherits are not modelled.
pub mod Agreement
pub mod Summary
use mathlib.Core.Option
use nest_server.Prelude.{
  ℕ, ◌-◌, Bool, true, false, not, ◌&&◌, ◌||◌, Option, none, some, List, [], ◌∷◌, Text, text,
  text_eq, ◌==◌, ltb, leb, if◌then◌else◌, is_empty, or_else,
}

pub data Scope : Type 0 where
  user tenant : Scope

-- What the configuration sets for a scope; also the fields of a stored override.
pub record Defaults : Type 0 where
  pub max_prompts : Option ℕ
  pub max_tokens : Option ℕ

pub record Override : Type 0 where
  pub max_prompts : Option ℕ
  pub max_tokens : Option ℕ
  pub period : Option Text

-- `ai.budget`
pub record BudgetConfig : Type 0 where
  pub period : Option Text
  pub tenant : Option Defaults
  pub user : Option Defaults

pub record ResolvedAiBudgetLimit : Type 0 where
  pub max_prompts : Option ℕ
  pub max_tokens : Option ℕ
  pub period : Text

pub record AiBudgetUsage : Type 0 where
  pub reset_at : Option ℕ
  pub used_prompts : ℕ
  pub used_tokens : ℕ

-- The conditions of the aggregation over the interactions.
pub record Match : Type 0 where
  pub since : ℕ
  pub user_id : Option Text
  pub tenant_id : Option Text

-- What the service reads. `aggregate` counts the interactions that match and sums their tokens;
-- `none` is an empty answer. Times are those of the runtime's local calendar.
pub record Sources : Type 0 where
  pub find_override : Scope → Text → Option Override
  pub config : Option BudgetConfig
  pub has_db : Bool
  pub aggregate : Match → Option (ℕ × ℕ)
  pub month_start : ℕ
  pub next_month : ℕ
  pub day_start : ℕ
  pub next_day : ℕ

pub data Outcome : Type 0 where
  within exceeded_budget : Outcome

-- `value || other`, for texts
unfoldable pub or_text : Option Text → Text → Text
or_text none other = other
or_text (some []) other = other
or_text (some (c ∷ s)) other = c ∷ s

-- a missing id, or an empty one, is none
unfoldable pub id_of : Option Text → Option Text
id_of none = none
id_of (some []) = none
id_of (some (c ∷ s)) = some (c ∷ s)

unfoldable pub finite : Option ℕ → Bool
finite none = false
finite (some n) = ltb 0 n

-- a ?? b
unfoldable pub first_of : {A : Type 0} → Option A → Option A → Option A
first_of none b = b
first_of (some a) b = some a

unfoldable pub defaults_of : Scope → Option BudgetConfig → Option Defaults
defaults_of scope none = none
defaults_of user (some c) = c.user
defaults_of tenant (some c) = c.tenant

unfoldable pub prompts_of : Option Defaults → Option ℕ
prompts_of none = none
prompts_of (some d) = d.max_prompts

unfoldable pub tokens_of : Option Defaults → Option ℕ
tokens_of none = none
tokens_of (some d) = d.max_tokens

unfoldable pub period_of : Option BudgetConfig → Option Text
period_of none = none
period_of (some c) = c.period

unfoldable pub merge : Option Override → Option Defaults → Option Text → ResolvedAiBudgetLimit
unfolding first_of prompts_of tokens_of or_text
merge none d period = record {
  max_prompts = prompts_of d;
  max_tokens = tokens_of d;
  period = or_text period (text "day");
}
merge (some o) d period = record {
  max_prompts = first_of o.max_prompts (prompts_of d);
  max_tokens = first_of o.max_tokens (tokens_of d);
  period = or_text o.period (or_text period (text "day"));
}

unfoldable pub reached : ℕ → Option ℕ → Bool
reached used none = false
reached used (some limit) = ltb 0 limit && leb limit used

unfoldable pub exceeded : AiBudgetUsage → ResolvedAiBudgetLimit → Bool
unfolding reached
exceeded usage limit =
    reached usage.used_tokens limit.max_tokens || reached usage.used_prompts limit.max_prompts

module _ (s : Sources) where
  unfoldable pub resolve_limit : Scope → Text → ResolvedAiBudgetLimit
  unfolding merge defaults_of period_of
  resolve_limit scope ref_id =
      merge (s.find_override scope ref_id) (defaults_of scope s.config) (period_of s.config)

  unfoldable pub period_start : Text → ℕ
  period_start period =
      if period == text "month"
      then s.month_start
      else if period == text "none"
      then 0
      else s.day_start

  unfoldable pub next_reset : Text → Option ℕ
  next_reset period =
      if period == text "month"
      then some s.next_month
      else if period == text "none"
      then none
      else some s.next_day

  unfoldable pub usage_of : Option (ℕ × ℕ) → Text → AiBudgetUsage
  usage_of none period = record { reset_at = next_reset period; used_prompts = 0; used_tokens = 0 }
  usage_of (some (prompts, tokens)) period = record {
    reset_at = next_reset period;
    used_prompts = prompts;
    used_tokens = tokens;
  }

  unfoldable pub get_usage : (user_id tenant_id : Option Text) → Text → AiBudgetUsage
  unfolding usage_of id_of
  get_usage user_id tenant_id period =
      if not s.has_db
      then usage_of none period
      else usage_of
          (s.aggregate (record {
            since = period_start period;
            user_id = id_of user_id;
            tenant_id = id_of tenant_id;
          }))
          period

  -- `scope === 'user' ? { userId: refId } : { tenantId: refId }`
  unfoldable pub scope_usage : Scope → Text → Text → AiBudgetUsage
  scope_usage user ref_id period = get_usage (some ref_id) none period
  scope_usage tenant ref_id period = get_usage none (some ref_id) period

  -- One round of the loop of assertWithinBudget: whether it throws.
  unfoldable pub blocks : Scope → Option Text → Bool
  unfolding id_of
  blocks scope ref_id = elim (id_of ref_id) [
    | none ↦ false
    | some id ↦
        let limit = resolve_limit scope id in
        if not (finite limit.max_tokens) && not (finite limit.max_prompts)
        then false
        else exceeded (scope_usage scope id limit.period) limit
  ]

  unfoldable pub assert_within_budget : (user_id tenant_id : Option Text) → Outcome
  assert_within_budget user_id tenant_id =
      if blocks user user_id
      then exceeded_budget
      else if blocks tenant tenant_id
      then exceeded_budget
      else within

-- CoreAiUsageScope
pub record UsageScope : Type 0 where
  pub scope : Scope
  pub ref_id : Text
  pub period : Text
  pub max_prompts : Option ℕ
  pub max_tokens : Option ℕ
  pub remaining_prompts : Option ℕ
  pub remaining_tokens : Option ℕ
  pub reset_at : Option ℕ
  pub used_prompts : ℕ
  pub used_tokens : ℕ

-- A limit that is enforced.
unfoldable pub enforced : Option ℕ → Option ℕ
enforced none = none
enforced (some limit) = if ltb 0 limit then some limit else none

-- Math.max(0, limit - used), for a limit that is enforced
unfoldable pub remaining : Option ℕ → ℕ → Option ℕ
unfolding enforced
remaining none used = none
remaining (some limit) used = if ltb 0 limit then some (limit - used) else none

unfoldable pub build_scope : Sources → Scope → Text → UsageScope
unfolding enforced remaining
build_scope s scope ref_id =
    let limit = resolve_limit s scope ref_id in
    let usage = scope_usage s scope ref_id limit.period in
    record {
      scope = scope;
      ref_id = ref_id;
      period = limit.period;
      max_prompts = enforced limit.max_prompts;
      max_tokens = enforced limit.max_tokens;
      remaining_prompts = remaining limit.max_prompts usage.used_prompts;
      remaining_tokens = remaining limit.max_tokens usage.used_tokens;
      reset_at = usage.reset_at;
      used_prompts = usage.used_prompts;
      used_tokens = usage.used_tokens;
    }

-- getUsageInfo
unfoldable pub get_usage_info :
    Sources → (user_id tenant_id : Option Text) → Option UsageScope × Option UsageScope
unfolding id_of
get_usage_info s user_id tenant_id = (
  Option.map (build_scope s user) (id_of user_id),
  Option.map (build_scope s tenant) (id_of tenant_id),
)
