-- ===== src/Ai/Tests.antt =====
-- The budgets at a concrete input: a user with a limit of ten tokens who has used ten.
use nest_server.Ai.Budget.{
  blocks, exceeded, finite, get_usage, resolve_limit, scope_usage, user, tenant, Sources, within,
  exceeded_budget, assert_within_budget, build_scope,
}
use nest_server.Prelude.{◌≡◌, refl, true, ◌||◌, none, some, ◌∷◌, text, if◌then◌else◌}
use nest_server.Ai.Budget.Agreement.{shows_used_up, assert_within_budget-build_scope}

abbrev sources : Sources
sources = record {
  find_override = λ scope ref_id. none;
  config = some (record {
    period = none;
    tenant = none;
    user = some (record { max_prompts = none; max_tokens = some 10 });
  });
  has_db = true;
  aggregate = λ conditions. some (2, 10);
  month_start = 100;
  next_month = 200;
  day_start = 150;
  next_day = 160;
}

blocked : assert_within_budget sources (some (text "a")) none ≡ exceeded_budget
unfolding assert_within_budget blocks text finite resolve_limit exceeded scope_usage get_usage
blocked = refl

assert_within_budget-build_scope_example :
    (assert_within_budget sources none none ≡ within)
    × (assert_within_budget sources (some (5 ∷ text "a")) (some (6 ∷ text "t")) ≡ (
        if shows_used_up sources (build_scope sources user (5 ∷ text "a"))
          || shows_used_up sources (build_scope sources tenant (6 ∷ text "t"))
        then exceeded_budget
        else within))
    × (assert_within_budget sources (some (5 ∷ text "a")) none ≡ (
        if shows_used_up sources (build_scope sources user (5 ∷ text "a"))
        then exceeded_budget
        else within))
assert_within_budget-build_scope_example =
    assert_within_budget-build_scope sources 5 6 (text "a") (text "t")
