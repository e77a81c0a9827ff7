-- ===== src/Auth/TokenService.antt =====
-- BetterAuthTokenService (src/core/modules/better-auth/better-auth-token.service.ts), which the guards ask
-- who a token belongs to. The BetterAuth library behind the service and the collection of users are
-- parameters; `none` stands for an exception of theirs.
use nest_server.Prelude.{
  Bool, true, false, not, ◌||◌, Option, none, some, List, [], ◌∷◌, Text, text, text_eq,
  if◌then◌else◌, any, includes, is_empty, starts_with, drop,
}
use nest_server.Auth.User.{User, TokenService}

-- A header is a text or several.
pub data Header : Type 0 where
  single : Text → Header
  several : List Text → Header

pub record HttpRequest : Type 0 where
  pub authorization : Option Header
  pub capitalized_authorization : Option Header
  pub cookies : Option (Text → Option Text)

-- A document of the collection `users`; `roles` is none where it is no array.
pub record UserDocument : Type 0 where
  pub id : Text
  pub roles : Option (List Text)
  pub verified : Bool
  pub verified_at : Bool
  pub email_verified : Bool

pub record Users : Type 0 where
  pub is_object_id : Text → Bool
  pub find_by_id : Text → Option (Option UserDocument)
  pub find_by_iam_id : Text → Option (Option UserDocument)
  pub find_by_email : Text → Option (Option UserDocument)

pub data JwtAnswer : Type 0 where
  payload : (sub : Option Text) → JwtAnswer
  expired invalid : JwtAnswer

pub record SessionUser : Type 0 where
  pub email : Option Text
  pub id : Option Text

-- CoreBetterAuthService
pub record BetterAuthService : Type 0 where
  pub is_jwt_enabled : Bool
  pub verify_jwt_token : Text → JwtAnswer
  pub get_session_by_token : Text → Option (Option SessionUser)
  pub session_cookie_name : Text

-- a text that is there and not empty
unfoldable pub given : Option Text → Option Text
given none = none
given (some []) = none
given (some (c ∷ s)) = some (c ∷ s)

-- the first element, where there is one
unfoldable pub header_value : Option Header → Option Text
unfolding given
header_value none = none
header_value (some (single s)) = given (some s)
header_value (some (several [])) = none
header_value (some (several (s ∷ rest))) = given (some s)

abbrev pub is_set : Option Header → Bool
is_set none = false
is_set (some (single s)) = not (is_empty s)
is_set (some (several texts)) = true

unfoldable pub bearer : Option Text → Option Text
bearer none = none
bearer (some s) =
    if starts_with s (text "Bearer ") || starts_with s (text "bearer ")
    then some (drop 7 s)
    else none

unfoldable pub cookie_token : Option (Text → Option Text) → Option BetterAuthService → Option Text
unfolding given
cookie_token none service = none
cookie_token (some cookies) none = none
cookie_token (some cookies) (some service) = elim (given (cookies service.session_cookie_name)) [
  | some token ↦ some token
  | none ↦ given (cookies (text "token"))
]

unfoldable pub extract_token_from_request : Option BetterAuthService → HttpRequest → Option Text
unfolding header_value bearer cookie_token
extract_token_from_request service request =
    let header =
      if is_set request.authorization
      then request.authorization
      else request.capitalized_authorization in
    elim (bearer (header_value header)) [
      | some token ↦ some token
      | none ↦ cookie_token request.cookies service
    ]

unfoldable pub has_one_of : Option (List Text) → List Text → Bool
unfolding any includes
has_one_of none required = false
has_one_of (some roles) required = any (λ role. includes roles role) required

unfoldable pub create_user_with_has_role : UserDocument → User
unfolding has_one_of
create_user_with_has_role user = record {
  id = user.id;
  roles = user.roles;
  has_role = some (has_one_of user.roles);
  verified = user.verified;
  verified_at = user.verified_at;
  email_verified = user.email_verified;
  authenticated_via_better_auth = true;
}

-- Two queries one after the other: an exception ends the search, a document too.
unfoldable pub or_query :
    Option (Option UserDocument) → Option (Option UserDocument) → Option (Option UserDocument)
or_query none next = none
or_query (some none) next = next
or_query (some (some user)) next = some (some user)

-- The user of a search; its exceptions are caught.
unfoldable pub user_of : Option (Option UserDocument) → Option User
unfolding create_user_with_has_role
user_of none = none
user_of (some none) = none
user_of (some (some user)) = some (create_user_with_has_role user)

abbrev pub nothing : Option (Option UserDocument)
nothing = some none

unfoldable pub load_user_from_payload : Users → Text → Option User
unfolding user_of or_query
load_user_from_payload users sub = user_of (
    or_query (if users.is_object_id sub then users.find_by_id sub else nothing)
      (users.find_by_iam_id sub))

unfoldable pub by_session_id : Users → Option Text → Option (Option UserDocument)
unfolding or_query
by_session_id users none = nothing
by_session_id users (some id) =
    or_query (users.find_by_iam_id id)
      (if users.is_object_id id then users.find_by_id id else nothing)

unfoldable pub by_email : Users → Option Text → Option (Option UserDocument)
by_email users none = nothing
by_email users (some email) = users.find_by_email email

unfoldable pub load_user_from_session_result : Users → SessionUser → Option User
unfolding user_of or_query by_email by_session_id given
load_user_from_session_result users session =
    user_of
      (or_query (by_email users (given session.email)) (by_session_id users (given session.id)))

-- Strategy 2
unfoldable pub by_session : Users → Option (Option SessionUser) → Option User
unfolding load_user_from_session_result
by_session users none = none
by_session users (some none) = none
by_session users (some (some session)) = load_user_from_session_result users session

unfoldable pub user_or : Option User → Option User → Option User
user_or none other = other
user_or (some user) other = some user

-- Strategy 1, and the other one if it finds nobody
unfoldable pub by_jwt : Users → JwtAnswer → Option User → Option (Option User)
unfolding user_or load_user_from_payload given
by_jwt users expired other = none
by_jwt users invalid other = some other
by_jwt users (payload sub) other = elim (given sub) [
  | none ↦ some other
  | some id ↦ some (user_or (load_user_from_payload users id) other)
]

unfoldable pub verify_and_load_user :
    Option BetterAuthService → Option Users → Text → Option (Option User)
unfolding by_session by_jwt
verify_and_load_user none users token = some none
verify_and_load_user (some service) none token = some none
verify_and_load_user (some service) (some users) token =
    let session = by_session users (service.get_session_by_token token) in
    if service.is_jwt_enabled
    then by_jwt users (service.verify_jwt_token token) session
    else some session

-- The service as the guards see it, for one request.
unfoldable pub token_service : Option BetterAuthService → Option Users → HttpRequest → TokenService
unfolding extract_token_from_request verify_and_load_user
token_service service users request = record {
  extract_token_from_request = some (extract_token_from_request service request);
  verify_and_load_user = verify_and_load_user service users;
}
