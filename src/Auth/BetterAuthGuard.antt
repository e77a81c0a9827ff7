-- ===== src/Auth/BetterAuthGuard.antt =====
-- BetterAuthRolesGuard (src/core/modules/better-auth/better-auth-roles.guard.ts).
use nest_server.Prelude.{
  Bool, false, ◌&&◌, ◌||◌, Option, none, some, List, [], ◌∷◌, Text, text_eq, ◌==◌, if◌then◌else◌,
  any, includes,
}
use nest_server.Role.{s_no_one, s_user, s_self, s_verified}
use nest_server.Auth.User.{
  User, forbidden, unauthorized, Outcome, granted, denied, TokenService, Context, user_has_role,
  is_public, load_user,
}
use nest_server.Auth.RolesGuard.{roles_of, is_passed_on}

-- verifyToken
unfoldable pub verify_token : Option TokenService → Option User
unfolding load_user
verify_token none = none
verify_token (some service) = load_user service service.extract_token_from_request

-- `targetId && user.id === targetId`
unfoldable pub is_self : Option Text → User → Bool
is_self none user = false
is_self (some []) user = false
is_self (some (c ∷ id)) user = user.id == c ∷ id

unfoldable pub has_one_of : Option (List Text) → List Text → Bool
unfolding any includes
has_one_of none required = false
has_one_of (some roles) required = any (λ role. includes roles role) required

-- The checks on a user who is authenticated; S_CREATOR is left to the service layer.
unfoldable pub check_authenticated : Context → List Text → User → Outcome
unfolding includes is_passed_on is_self user_has_role has_one_of
check_authenticated context roles user =
    if includes roles s_user
    then granted (some user)
    else if is_passed_on context.multi_tenancy roles
    then granted (some user)
    else if includes roles s_self && is_self context.target_id user
    then granted (some user)
    else if includes roles s_verified
    then if user.verified || user.verified_at || user.email_verified
      then granted (some user)
      else denied forbidden
    else if user_has_role user roles
    then granted (some user)
    else if has_one_of user.roles roles
    then granted (some user)
    else denied forbidden

unfoldable pub user_or_token : Context → Option User → Option User
unfolding verify_token
user_or_token context none = verify_token context.token_service
user_or_token context (some user) = some user

unfoldable pub check_somebody : Context → List Text → Option User → Outcome
unfolding check_authenticated
check_somebody context roles none = denied unauthorized
check_somebody context roles (some user) = check_authenticated context roles user

unfoldable pub can_activate : Context → Outcome
unfolding roles_of includes is_public check_somebody user_or_token
can_activate context =
    let roles = roles_of context in
    if includes roles s_no_one
    then denied forbidden
    else if is_public roles
    then granted context.user
    else check_somebody context roles (user_or_token context context.user)
