-- ===== src/Role/Laws.antt =====
-- How the runtime test, the storage tests and the validation pattern for role names relate.
use mathlib.Core.Path.{subst}
use nest_server.Prelude.{
  text_beq_iff, ℕ, ◌≡◌, refl, sym, ap, ◌∙◌, true, false, not, [], ◌∷◌, arith, Text, text, eqb,
  starts_with, is_space, trim, trim_start, trim_end, to_lower_case, lower_unit, Bool-cases, inl,
  inr, text_eq, text_beq, map,
}
use nest_server.Role.{
  is_system_role, looks_like_system_role, is_global_only_role, is_forbidden_membership_role,
  matches_ignoring_case, lookahead, passes_reject_pattern, admin, system_role_prefix,
}

module _ (c : ℕ) (space : is_space c ≡ true) where
  space-ne_s : eqb (lower_unit c) b's' ≡ false
  unfolding is_space lower_unit
  space-ne_s = ground arith

  space-ne_underscore : eqb (lower_unit c) b'_' ≡ false
  unfolding is_space lower_unit
  space-ne_underscore = ground arith

-- Trailing white space does not take part in the two first characters.
starts_with-trim_end :
    (s : Text)
    → starts_with (map lower_unit (trim_end s)) system_role_prefix
      ≡ matches_ignoring_case s system_role_prefix
unfolding starts_with trim_end matches_ignoring_case text
starts_with-trim_end [] = refl
starts_with-trim_end (c ∷ []) = ground (arith, space-ne_s c)
starts_with-trim_end (c ∷ d ∷ s) = ground (arith, space-ne_s c, space-ne_underscore d)

space-matches :
    (c : ℕ) (s : Text)
    → is_space c ≡ true
    → matches_ignoring_case (c ∷ s) system_role_prefix ≡ false
unfolding matches_ignoring_case text
space-matches c s space = ground (arith, space-ne_s c)

lookahead-trim_start :
    (s : Text) → lookahead s ≡ matches_ignoring_case (trim_start s) system_role_prefix
unfolding lookahead trim_start
lookahead-trim_start [] = refl
lookahead-trim_start (c ∷ s) = elim (Bool-cases (is_space c)) [
  | inl space ↦ rw (space-matches c s space, space) (lookahead-trim_start s)
  | inr solid ↦ rw solid (ground arith)
]

lookahead-eq : (role : Text) → lookahead role ≡ looks_like_system_role role
unfolding looks_like_system_role trim to_lower_case
lookahead-eq role = lookahead-trim_start role ∙ sym (starts_with-trim_end (trim_start role))

-- The validation pattern accepts a name exactly when the storage test does not take it for a
-- system role.
pub passes_reject_pattern-eq :
    (role : Text) → passes_reject_pattern role ≡ not (looks_like_system_role role)
unfolding passes_reject_pattern
passes_reject_pattern-eq role = ap not (lookahead-eq role)

starts_with→matches :
    (s : Text)
    → starts_with s system_role_prefix ≡ true
    → matches_ignoring_case s system_role_prefix ≡ true
unfolding starts_with matches_ignoring_case text lower_unit
starts_with→matches s h = ground arith

matches→lookahead :
    (s : Text) → matches_ignoring_case s system_role_prefix ≡ true → lookahead s ≡ true
unfolding lookahead
matches→lookahead [] h = h
matches→lookahead (c ∷ s) h = ground arith

pub looks_like-is_system_role :
    (role : Text) → is_system_role role ≡ true → looks_like_system_role role ≡ true
unfolding is_system_role
looks_like-is_system_role role h =
    sym (lookahead-eq role) ∙ matches→lookahead role (starts_with→matches role h)

-- Every name that the runtime takes for a system role is refused by the storage test and by the
-- validation pattern.
pub is_system_role-refused :
    (role : Text)
    → is_system_role role ≡ true
    → (is_forbidden_membership_role role ≡ true) × (passes_reject_pattern role ≡ false)
unfolding is_forbidden_membership_role
is_system_role-refused role h =
    let seen = looks_like-is_system_role role h in
    (ground arith, ground (arith, passes_reject_pattern-eq role))

-- A name that is a global-only role at run time is refused by the storage test.
pub is_global_only_role-refused :
    (role : Text) → is_global_only_role role ≡ true → is_forbidden_membership_role role ≡ true
unfolding is_global_only_role is_forbidden_membership_role trim to_lower_case text text_beq
    starts_with is_space
is_global_only_role-refused role h =
    let same : admin ≡ role = (text_beq_iff admin role).0 (ground arith) in
    subst (λ r. is_forbidden_membership_role r ≡ true) same refl
