-- ===== src/Auth/RolesGuard.antt =====
-- RolesGuard (src/core/modules/auth/guards/roles.guard.ts). Passport is a parameter: its answer to the
-- request, which it hands to handleRequest, or the refusal of a strategy that is not registered.
use nest_server.Prelude.{
  Bool, true, false, not, ◌&&◌, ◌||◌, Option, none, some, List, Text, text_eq, if◌then◌else◌, any,
  includes, is_empty,
}
use nest_server.Role.{s_everyone, s_no_one, s_user, is_system_role}
use nest_server.Tenant.Config.{MultiTenancy, is_multi_tenancy_active}
use nest_server.Tenant.Hierarchy.{merge_roles_metadata}
use nest_server.Auth.User.{
  User, Failure, forbidden, unauthorized, invalid_token, expired_token, unknown_strategy, Outcome,
  granted, denied, TokenService, Context, user_has_role, is_public, load_user,
}

-- What Passport passes to handleRequest: whether there is an error, the user, whether the info says
-- that the token has expired.
pub data Passport : Type 0 where
  not_registered : Passport
  answers : (err : Bool) (user : Option User) (expired : Bool) → Passport

pub record Setting : Type 0 where
  pub context : Context
  pub is_better_auth_enabled : Bool
  pub passport : Passport
  -- What verifyAndLoadUser answers when it is asked a second time, after Passport: tokens expire, and a
  -- database that was out of reach comes back.
  pub second_answer : Text → Option (Option User)

unfoldable pub roles_of : Context → List Text
unfolding merge_roles_metadata
roles_of context = merge_roles_metadata context.handler_roles context.class_roles

unfoldable pub verify_with : Bool → Option TokenService → Option User
unfolding load_user
verify_with has_request none = none
verify_with has_request (some service) =
    if has_request then load_user service service.extract_token_from_request else none

unfoldable pub verify_better_auth_token_from_context : Context → Option User
unfolding verify_with
verify_better_auth_token_from_context context =
    verify_with context.has_request context.token_service

-- The service when it is asked again, with the answers it then gives.
unfoldable pub again : (Text → Option (Option User)) → Option TokenService → Option TokenService
again answer none = none
again answer (some service) = some (record service { verify_and_load_user = answer })

unfoldable pub verify_again : Setting → Option User
unfolding verify_with again
verify_again s = verify_with s.context.has_request (again s.second_answer s.context.token_service)

-- Multi-tenancy passes roles that are not system roles on to the tenant guard.
unfoldable pub is_passed_on : Option MultiTenancy → List Text → Bool
unfolding is_multi_tenancy_active any is_system_role
is_passed_on config roles =
    is_multi_tenancy_active config && any (λ r. not (is_system_role r)) roles

-- The checks of handleRequest on a user.
unfoldable pub check_user : Option MultiTenancy → List Text → User → Outcome
unfolding user_has_role includes is_passed_on
check_user config roles user =
    if user_has_role user roles
    then granted (some user)
    else if includes roles s_user || includes roles s_everyone
    then granted (some user)
    else if is_passed_on config roles
    then granted (some user)
    else denied forbidden

unfoldable pub check_nobody : List Text → Bool → Bool → Outcome
unfolding includes
check_nobody roles err expired =
    if includes roles s_everyone
    then granted none
    else if err
    then denied invalid_token
    else if expired
    then denied expired_token
    else denied unauthorized

unfoldable pub handle_request : Context → Bool → Option User → Bool → Outcome
unfolding roles_of check_user check_nobody includes any
handle_request context err user expired =
    let roles = roles_of context in
    if includes roles s_no_one
    then denied forbidden
    else if not (any (λ role. not (is_empty role)) roles)
    then granted user
    else elim user [
      | none ↦ check_nobody roles err expired
      | some u ↦ check_user context.multi_tenancy roles u
    ]

-- super.canActivate
unfoldable pub passport_can_activate : Context → Passport → Outcome
unfolding handle_request
passport_can_activate context not_registered = denied unknown_strategy
passport_can_activate context (answers err user expired) = handle_request context err user expired

abbrev pub is_strategy_error : Failure → Bool
is_strategy_error unknown_strategy = true
is_strategy_error forbidden = false
is_strategy_error unauthorized = false
is_strategy_error invalid_token = false
is_strategy_error expired_token = false

-- The catch block.
unfoldable pub fall_back : Setting → Failure → Outcome
unfolding verify_again handle_request
fall_back s failure =
    if s.is_better_auth_enabled
    then if is_strategy_error failure then denied invalid_token else elim (verify_again s) [
      | none ↦ denied failure
      | some user ↦ handle_request s.context false (some user) false
    ]
    else denied failure

unfoldable pub try_passport : Setting → Outcome
unfolding passport_can_activate fall_back
try_passport s = elim (passport_can_activate s.context s.passport) [
  | granted user ↦ granted user
  | denied failure ↦ fall_back s failure
]

unfoldable pub try_better_auth : Setting → Option User → Outcome
unfolding handle_request try_passport
try_better_auth s none = try_passport s
try_better_auth s (some user) = handle_request s.context false (some user) false

-- The user of the request, where the BetterAuth middleware has set it.
unfoldable pub existing_user : Option User → Option User
existing_user none = none
existing_user (some user) = if user.authenticated_via_better_auth then some user else none

unfoldable pub authenticate : Setting → Option User → Outcome
unfolding try_better_auth verify_better_auth_token_from_context handle_request
authenticate s (some user) = handle_request s.context false (some user) false
authenticate s none =
    try_better_auth s
      (if s.is_better_auth_enabled then verify_better_auth_token_from_context s.context else none)

unfoldable pub can_activate : Setting → Outcome
unfolding roles_of includes is_public authenticate existing_user
can_activate s =
    let roles = roles_of s.context in
    if includes roles s_no_one
    then denied forbidden
    else if is_public roles
    then granted s.context.user
    else authenticate s (existing_user s.context.user)
