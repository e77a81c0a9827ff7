-- ===== src/Tenant/Hierarchy/Access.antt =====
-- The role check against a description that compares one required role with one available role.
use nest_server.Prelude.{
  ℕ, ◌≡◌, ◌≢◌, refl, any-map, all-map, sym, ap, ◌∙◌, Bool, true, false, not, ◌&&◌, ◌||◌, Option,
  List, [], ◌∷◌, map, arith, Text, text_eq, ◌==◌, if◌then◌else◌, filter, any, all, includes,
  is_empty, is_some, any_cong, any-or, any-false, any-filter, any-filter_cong, all-filter,
  is_empty-filter, includes-any,
}
use nest_server.Prelude.Dict.{Dict}
use nest_server.Tenant.Config.{
  MultiTenancy, Number, in_hierarchy, level, is_multi_tenancy_active, get_role_hierarchy,
}
use nest_server.Tenant.Hierarchy.{
  min_number, min_of, at_least, min_level, level_match, available_roles, check_role_access,
}

-- A required role is covered by an available one: by level if it is in the hierarchy, else by name.
abbrev pub covers : Dict Text ℕ → Text → Text → Bool
covers h required available =
    if in_hierarchy h required
    then in_hierarchy h available && at_least (level h available) (level h required)
    else available == required

at_least-min :
    (n a b : Number)
    → is_some a ≡ true
    → is_some b ≡ true
    → at_least n (min_number a b) ≡ at_least n a || at_least n b
unfolding at_least min_number
at_least-min n a b h k = ground arith

is_some-min_of :
    (n : Number) (ns : List Number)
    → is_some n ≡ true
    → all is_some ns ≡ true
    → is_some (min_of n ns) ≡ true
unfolding min_of min_number all
is_some-min_of n [] h k = h
is_some-min_of n (m ∷ ns) h k = ground (arith, is_some-min_of m ns)

module _ (h : Dict Text ℕ) (available : List Text) where
  -- Some available role reaches the level of the required role.
  abbrev reaches : Number → Bool
  reaches n = any (λ a. in_hierarchy h a && at_least (level h a) n) available

  reaches-min :
      (a b : Number)
      → is_some a ≡ true
      → is_some b ≡ true
      → reaches (min_number a b) ≡ reaches a || reaches b
  reaches-min a b p q =
      any_cong _ _ available (λ r. ground (arith, at_least-min (level h r) a b p q))
      ∙ any-or _ _ available

  reaches-min_of :
      (n : Number) (ns : List Number)
      → is_some n ≡ true
      → all is_some ns ≡ true
      → reaches (min_of n ns) ≡ reaches n || any reaches ns
  unfolding min_of any all
  reaches-min_of n [] p q = ground arith
  reaches-min_of n (m ∷ ns) p q =
      let some_m : is_some m ≡ true = ground arith in
      let some_ns : all is_some ns ≡ true = ground arith in
      reaches-min n (min_of m ns) p (is_some-min_of m ns some_m some_ns)
      ∙ ap (λ b. reaches n || b) (reaches-min_of m ns some_m some_ns)

  level_match-any :
      (roles : List Text)
      → all (λ r. is_some (level h r)) roles ≡ true
      → level_match h (min_level h roles) available ≡ any (λ r. reaches (level h r)) roles
  unfolding level_match min_level any all
  level_match-any [] p = refl
  level_match-any (r ∷ roles) p =
      reaches-min_of (level h r) (map (level h) roles) (ground arith)
        (all-map is_some (level h) roles ∙ (ground arith))
      ∙ ap (λ b. reaches (level h r) || b) (any-map reaches (level h) roles)

  any-covers-level :
      (r : Text) → in_hierarchy h r ≡ true → reaches (level h r) ≡ any (covers h r) available
  any-covers-level r p = any_cong _ _ available (λ a. rw p refl)

  any-covers-name :
      (r : Text) → not (in_hierarchy h r) ≡ true → includes available r ≡ any (covers h r) available
  any-covers-name r p =
      let out : in_hierarchy h r ≡ false = ground arith in
      includes-any available r ∙ any_cong _ _ available (λ a. rw out refl)

  -- The least level and the names together say that some pair of roles is covered.
  match-any :
      (required : List Text)
      → all (λ r. is_some (level h r) || not (in_hierarchy h r)) required ≡ true
      → (level_match h (min_level h (filter (in_hierarchy h) required)) available
          || any (includes available) (filter (λ r. not (in_hierarchy h r)) required))
        ≡ any (λ r. any (covers h r) available) required
  match-any required numeric =
      let by_level =
        level_match-any (filter (in_hierarchy h) required)
          (all-filter (in_hierarchy h) (λ r. is_some (level h r)) required numeric) in
      let levels =
        any-filter_cong (in_hierarchy h) (λ r. reaches (level h r))
          (λ r. any (covers h r) available) required any-covers-level in
      let names =
        any-filter_cong (λ r. not (in_hierarchy h r)) (includes available)
          (λ r. any (covers h r) available) required any-covers-name in
      rw (by_level, levels, names)
        (sym (any-filter (in_hierarchy h) (λ r. any (covers h r) available) required))

-- The hierarchy that the check uses: none when multi-tenancy is off.
abbrev pub used_hierarchy : Option MultiTenancy → Dict Text ℕ
used_hierarchy config = if is_multi_tenancy_active config then get_role_hierarchy config else []

any-empty :
    (required : List Text) (h : Dict Text ℕ) → any (λ r. any (covers h r) []) required ≡ false
unfolding any
any-empty required h = any-false required

guarded_match :
    (h : Dict Text ℕ) (required available : List Text) (found : Bool)
    → found ≡ any (λ r. any (covers h r) available) required
    → (if is_empty available then false else found) ≡ any (λ r. any (covers h r) available) required
guarded_match h required [] found e = sym (any-empty required h)
guarded_match h required (a ∷ available) found e = e

is_empty_of_ne : (required : List Text) → required ≢ [] → is_empty required ≡ false
is_empty_of_ne [] h = absurd (h refl)
is_empty_of_ne (r ∷ required) h = refl

-- For required roles that are not all absent, and whose levels in the hierarchy in use are numbers,
-- the check passes exactly if some required role is covered by some available role: by an equal or
-- higher level if it is in that hierarchy, by the same name if not. The available role is the
-- tenant role alone where it is given and not empty, and one of the user's roles otherwise.
pub check_role_access-eq-any :
    (config : Option MultiTenancy) (required : List Text) (user_roles : Option (List Text))
    (tenant_role : Option Text)
    → required ≢ []
    → all
        (λ r.
          is_some (level (used_hierarchy config) r) || not (in_hierarchy (used_hierarchy config) r))
        required
      ≡ true
    → check_role_access config required user_roles tenant_role
      ≡ any
          (λ r. any (covers (used_hierarchy config) r) (available_roles user_roles tenant_role))
          required
unfolding check_role_access
check_role_access-eq-any config required user_roles tenant_role some_role numeric =
    let h = used_hierarchy config in
    let available = available_roles user_roles tenant_role in
    rw (is_empty-filter (in_hierarchy h) required, is_empty_of_ne required some_role)
      (guarded_match h required available _ (match-any h available required numeric))
