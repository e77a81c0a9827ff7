-- ===== src/Auth/Mapper.antt =====
-- The users that the BetterAuth middleware puts on requests
-- (src/core/modules/better-auth/core-better-auth-user.mapper.ts). What mapSessionUser finds, in its cache
-- or in the collection of users, is a parameter. Names, images and addresses are left out, but for the
-- test whether there is an address; a Boolean that is undefined counts as false.
use nest_server.Prelude.{
  Bool, true, false, ◌||◌, Option, none, some, List, [], Text, text_eq, if◌then◌else◌, any,
  includes, is_empty,
}
use nest_server.Role.{s_everyone, s_no_one, s_user, s_verified}
use nest_server.Auth.User.{User}
use nest_server.Auth.TokenService.{UserDocument}

pub record BetterAuthSessionUser : Type 0 where
  pub id : Text
  pub email : Text
  pub email_verified : Bool

pub record CachedUserData : Type 0 where
  pub id : Text
  pub roles : List Text
  pub verified : Bool

-- What the search for the user comes to.
pub data Found : Type 0 where
  no_connection unknown failing : Found
  cached : CachedUserData → Found
  stored : UserDocument → Found

unfoldable pub create_has_role : List Text → Bool → List Text → Bool
unfolding includes any
create_has_role roles verified required =
    if includes required s_everyone
    then true
    else if includes required s_user
    then true
    else if includes required s_no_one
    then false
    else if includes required s_verified
    then verified
    else any (λ role. includes roles role) required

unfoldable pub create_mapped_user : BetterAuthSessionUser → Text → List Text → Bool → User
unfolding create_has_role
create_mapped_user session id roles verified = record {
  id = id;
  roles = some roles;
  has_role = some (create_has_role roles verified);
  verified = verified;
  verified_at = false;
  email_verified = session.email_verified;
  authenticated_via_better_auth = true;
}

-- `Array.isArray(dbUser.roles) ? dbUser.roles : []`
unfoldable pub array_or_empty : Option (List Text) → List Text
array_or_empty none = []
array_or_empty (some roles) = roles

unfoldable pub map_found : BetterAuthSessionUser → Found → Option User
unfolding create_mapped_user array_or_empty
map_found session no_connection =
    some (create_mapped_user session session.id [] session.email_verified)
map_found session unknown = some (create_mapped_user session session.id [] session.email_verified)
map_found session failing = none
map_found session (cached entry) =
    some (create_mapped_user session entry.id entry.roles entry.verified)
map_found session (stored user) = some (
    create_mapped_user session user.id (array_or_empty user.roles)
      (user.verified || session.email_verified))

unfoldable pub map_session_user : BetterAuthSessionUser → Found → Option User
unfolding map_found
map_session_user session found =
    if is_empty session.id || is_empty session.email then none else map_found session found
