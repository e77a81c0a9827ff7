-- ===== src/Auth/User.antt =====
-- What both guards read: the metadata of the endpoint, the user, the services. Exceptions are values.
use nest_server.Prelude.{
  Bool, false, not, ◌||◌, Option, none, some, List, [], ◌∷◌, Text, text_eq, if◌then◌else◌, any,
  includes, is_empty,
}
use nest_server.Role.{s_everyone}
use nest_server.Tenant.Config.{MultiTenancy}

pub record User : Type 0 where
  pub id : Text
  pub roles : Option (List Text)
  -- the method `hasRole`, where the user has one
  pub has_role : Option (List Text → Bool)
  pub verified : Bool
  pub verified_at : Bool
  pub email_verified : Bool
  pub authenticated_via_better_auth : Bool

pub data Failure : Type 0 where
  forbidden unauthorized invalid_token expired_token unknown_strategy : Failure

-- The guard lets the request pass, with this user on it, or it throws.
pub data Outcome : Type 0 where
  granted : Option User → Outcome
  denied : Failure → Outcome

-- BetterAuthTokenService; `none` stands for an exception.
pub record TokenService : Type 0 where
  pub extract_token_from_request : Option (Option Text)
  pub verify_and_load_user : Text → Option (Option User)

-- The metadata `roles` of the handler and of its class, what the request carries, and the option
-- for multi-tenancy. `target_id` is what getTargetId reads from the arguments or the parameters.
pub record Context : Type 0 where
  pub handler_roles : Option (List Text)
  pub class_roles : Option (List Text)
  pub has_request : Bool
  pub user : Option User
  pub target_id : Option Text
  pub multi_tenancy : Option MultiTenancy
  pub token_service : Option TokenService

-- user?.hasRole?.(roles)
unfoldable pub user_has_role : User → List Text → Bool
user_has_role user roles = elim user.has_role [ none ↦ false | some has_role ↦ has_role roles ]

-- `hasRole` of CoreUserModel
unfoldable pub has_role : Option (List Text) → List Text → Bool
has_role none required = false
has_role (some roles) required =
    if is_empty roles
    then false
    else is_empty required || any (λ role. includes required role) roles

-- !roles.some((value) => !!value) || roles.includes(S_EVERYONE)
unfoldable pub is_public : List Text → Bool
unfolding any includes
is_public roles = not (any (λ role. not (is_empty role)) roles) || includes roles s_everyone

unfoldable pub user_of_token : Option (Option User) → Option User
user_of_token none = none
user_of_token (some user) = user

-- No token, an empty one, or an exception: nobody.
unfoldable pub load_user : TokenService → Option (Option Text) → Option User
unfolding user_of_token
load_user service none = none
load_user service (some none) = none
load_user service (some (some [])) = none
load_user service (some (some (c ∷ token))) =
    user_of_token (service.verify_and_load_user (c ∷ token))
