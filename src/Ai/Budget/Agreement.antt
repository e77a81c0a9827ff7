-- ===== src/Ai/Budget/Agreement.antt =====
-- The block beside the usage report.
use nest_server.Prelude.{
  ℕ, ◌≡◌, refl, Bool, false, ◌||◌, Option, none, some, ◌∷◌, arith, Text, text_eq, if◌then◌else◌,
  eqb,
}
use nest_server.Ai.Budget.{
  Scope, user, tenant, Sources, within, exceeded_budget, blocks, assert_within_budget,
  resolve_limit, scope_usage, finite, exceeded, reached, build_scope, remaining, UsageScope,
}

-- Nothing is left of a limit that is enforced.
unfoldable pub is_used_up : Option ℕ → Bool
is_used_up none = false
is_used_up (some n) = eqb n 0

reached-is_used_up :
    (used : ℕ) (limit : Option ℕ) → reached used limit ≡ is_used_up (remaining limit used)
unfolding reached remaining is_used_up
reached-is_used_up used none = refl
reached-is_used_up used (some limit) = ground arith

not_finite-reached :
    (used : ℕ) (limit : Option ℕ) → finite limit ≡ false → reached used limit ≡ false
unfolding reached finite
not_finite-reached used none h = refl
not_finite-reached used (some limit) h = ground arith

module _ (s : Sources) where
  -- The report of a scope shows that a budget is used up.
  abbrev pub shows_used_up : UsageScope → Bool
  shows_used_up r = is_used_up r.remaining_tokens || is_used_up r.remaining_prompts

  blocks-shows_used_up :
      (scope : Scope) (c : ℕ) (id : Text)
      → blocks s scope (some (c ∷ id)) ≡ shows_used_up (build_scope s scope (c ∷ id))
  unfolding blocks exceeded build_scope
  blocks-shows_used_up scope c id =
      let limit = resolve_limit s scope (c ∷ id) in
      let usage = scope_usage s scope (c ∷ id) limit.period in
      ground (
        arith,
        reached-is_used_up usage.used_tokens limit.max_tokens,
        reached-is_used_up usage.used_prompts limit.max_prompts,
        not_finite-reached usage.used_tokens limit.max_tokens,
        not_finite-reached usage.used_prompts limit.max_prompts,
      )

  no_id : (scope : Scope) → blocks s scope none ≡ false
  unfolding blocks
  no_id scope = refl

  -- Without a user and a tenant no run is blocked. With a user, or with both, a run is blocked
  -- exactly if the usage report of one of them shows an enforced budget with nothing left.
  pub assert_within_budget-build_scope :
      (c d : ℕ) (user_id tenant_id : Text)
      → (assert_within_budget s none none ≡ within)
        × (assert_within_budget s (some (c ∷ user_id)) (some (d ∷ tenant_id)) ≡ (
            if shows_used_up (build_scope s user (c ∷ user_id))
              || shows_used_up (build_scope s tenant (d ∷ tenant_id))
            then exceeded_budget
            else within))
        × (assert_within_budget s (some (c ∷ user_id)) none ≡ (
            if shows_used_up (build_scope s user (c ∷ user_id)) then exceeded_budget else within))
  unfolding assert_within_budget
  assert_within_budget-build_scope c d user_id tenant_id =
      let by_user = blocks-shows_used_up user c user_id in
      let by_tenant = blocks-shows_used_up tenant d tenant_id in
      (
        rw (no_id user, no_id tenant) refl,
        ground (arith, by_user, by_tenant),
        ground (arith, by_user, no_id tenant),
      )
