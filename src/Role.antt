-- ===== src/Role.antt =====
-- Role names and what kind of role a name is (src/core/common/enums/role.enum.ts).
-- A value that is no string answers `false` to each test there; here a role is a text.
pub mod Laws
mod Tests
use nest_server.Prelude.{
  ℕ, Bool, true, false, ◌&&◌, ◌||◌, List, [], ◌∷◌, Text, text, text_eq, nat_eq, ◌==◌, starts_with,
  is_space, trim, to_lower_case, any, includes, lower_unit,
}

-- RoleEnum
abbrev pub admin : Text
admin = text "admin"

abbrev pub s_creator : Text
s_creator = text "s_creator"

abbrev pub s_everyone : Text
s_everyone = text "s_everyone"

abbrev pub s_no_one : Text
s_no_one = text "s_no_one"

abbrev pub s_verified : Text
s_verified = text "s_verified"

abbrev pub s_self : Text
s_self = text "s_self"

abbrev pub s_user : Text
s_user = text "s_user"

abbrev pub system_role_prefix : Text
system_role_prefix = text "s_"

unfoldable pub is_system_role : Text → Bool
unfolding starts_with text
is_system_role role = starts_with role system_role_prefix

unfoldable pub looks_like_system_role : Text → Bool
unfolding starts_with text
looks_like_system_role role = starts_with (to_lower_case (trim role)) system_role_prefix

abbrev pub global_only_roles : List Text
global_only_roles = admin ∷ []

unfoldable pub is_global_only_role : Text → Bool
unfolding includes
is_global_only_role role = includes global_only_roles role

unfoldable pub looks_like_global_only_role : Text → Bool
unfolding any
looks_like_global_only_role role =
    let normalized = to_lower_case (trim role) in
    any (λ global_role. to_lower_case global_role == normalized) global_only_roles

unfoldable pub is_forbidden_membership_role : Text → Bool
unfolding looks_like_system_role looks_like_global_only_role
is_forbidden_membership_role role = looks_like_system_role role || looks_like_global_only_role role

-- One character of the pattern `s_` under the flag `i`.
unfoldable pub matches_ignoring_case : Text → Text → Bool
unfolding lower_unit
matches_ignoring_case s [] = true
matches_ignoring_case [] (d ∷ p) = false
matches_ignoring_case (c ∷ s) (d ∷ p) = lower_unit c == d && matches_ignoring_case s p

-- `\s*s_` from the start: the prefix after some number of white space characters.
unfoldable pub lookahead : Text → Bool
unfolding matches_ignoring_case
lookahead [] = matches_ignoring_case [] system_role_prefix
lookahead (c ∷ s) = matches_ignoring_case (c ∷ s) system_role_prefix || (is_space c && lookahead s)

-- SYSTEM_ROLE_REJECT_PATTERN.test(role): a negative lookahead at the start, and nothing after it
unfoldable pub passes_reject_pattern : Text → Bool
unfolding lookahead
passes_reject_pattern role = elim (lookahead role) [ true ↦ false | false ↦ true ]
