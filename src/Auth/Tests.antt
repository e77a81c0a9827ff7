-- ===== src/Auth/Tests.antt =====
-- The theorems on the guards at concrete inputs.
use nest_server.Auth.RolesGuard.{
  is_passed_on, roles_of, Setting, answers, can_activate, not_registered,
}
use nest_server.Auth.User.{is_public, User, forbidden, granted, denied, Context, has_role}
use nest_server.Prelude.{
  starts_with, includes, text_beq, ◌≡◌, refl, true, false, Option, none, some, List, [], ◌∷◌, Text,
  text, text_eq, ◌==◌, if◌then◌else◌, ◌||◌,
}
use nest_server.Auth.TokenService.{
  UserDocument, Users, BetterAuthService, payload, invalid, HttpRequest, single, token_service,
  create_user_with_has_role, has_one_of,
}
use nest_server.Auth.Stored.{IsStored}
use nest_server.Auth.Known.{can_activate-IsStored}
use nest_server.Role.{s_user, admin, s_verified}
use nest_server.Auth.BetterAuthGuard as BetterAuthGuard
use nest_server.Auth.Sound.{Entitled, can_activate-Entitled}
use nest_server.Auth.Mapper.{BetterAuthSessionUser, Found, map_session_user, create_mapped_user}
use nest_server.Auth.Mapper as Mapper
use nest_server.Auth.Agreement.{can_activate-agree, can_activate-part, asks_to_verify}

-- An administrator who logged in with a legacy token, and whose address is not verified.
abbrev boss : User
boss = record {
  id = text "a";
  roles = some (admin ∷ []);
  has_role = some (has_role (some (admin ∷ [])));
  verified = false;
  verified_at = false;
  email_verified = false;
  authenticated_via_better_auth = false;
}

abbrev asking_for : List Text → Option User → Context
asking_for roles user = record {
  handler_roles = some roles;
  class_roles = none;
  has_request = true;
  user = user;
  target_id = none;
  multi_tenancy = none;
  token_service = none;
}

abbrev stored_boss : UserDocument
stored_boss = record {
  id = text "a";
  roles = some (admin ∷ []);
  verified = false;
  verified_at = false;
  email_verified = false;
}

abbrev session : BetterAuthSessionUser
session = record { id = text "i"; email = text "a@b"; email_verified = false }

-- The administrator as the middleware maps a session.
abbrev mapped_boss : User
mapped_boss = create_mapped_user session (text "a") (admin ∷ []) false

abbrev by_middleware : List Text → Setting
by_middleware roles = record {
  context = asking_for roles (some mapped_boss);
  is_better_auth_enabled = true;
  passport = answers false none false;
  second_answer = λ token. none;
}

can_activate-agree_example :
    can_activate (by_middleware (admin ∷ s_verified ∷ []))
    ≡ BetterAuthGuard.can_activate (asking_for (admin ∷ s_verified ∷ []) (some mapped_boss))
unfolding includes roles_of text_beq text map_session_user
can_activate-agree_example =
    can_activate-agree (by_middleware (admin ∷ s_verified ∷ [])) session (Mapper.stored stored_boss)
      mapped_boss refl refl refl refl

-- One user, who is found by the subject of the token.
abbrev users : Users
users = record {
  is_object_id = λ id. false;
  find_by_id = λ id. some none;
  find_by_iam_id = λ id. if id == text "i" then some (some stored_boss) else some none;
  find_by_email = λ email. some none;
}

abbrev better_auth : BetterAuthService
better_auth = record {
  is_jwt_enabled = true;
  verify_jwt_token = λ token. if token == text "t" then payload (some (text "i")) else invalid;
  get_session_by_token = λ token. some none;
  session_cookie_name = text "s";
}

abbrev with_token : HttpRequest
with_token = record {
  authorization = some (single (text "Bearer t"));
  capitalized_authorization = none;
  cookies = none;
}

-- The first answer of the service is nobody, Passport refuses, and the second answer is the user.
abbrev by_fall_back : Setting
by_fall_back = record {
  context = record (asking_for (admin ∷ []) none) {
    token_service = some (token_service none (some users) with_token);
  };
  is_better_auth_enabled = true;
  passport = answers true none false;
  second_answer = λ token. some (some boss);
}

can_activate-Entitled_example : Entitled by_fall_back.context (some boss)
unfolding is_public roles_of text text_beq can_activate has_role token_service
can_activate-Entitled_example = can_activate-Entitled by_fall_back refl (some boss) refl

abbrev by_token : Setting
by_token = record {
  context = record (asking_for (admin ∷ []) none) {
    token_service = some (token_service (some better_auth) (some users) with_token);
  };
  is_better_auth_enabled = true;
  passport = not_registered;
  second_answer = λ token. none;
}

can_activate-IsStored_example :
    (doc : UserDocument) × IsStored users doc
    × (◌≡◌ {A = Option User}
        (some (create_user_with_has_role stored_boss))
        (some (create_user_with_has_role doc)))
    × (has_one_of doc.roles (roles_of by_token.context)
          || includes (roles_of by_token.context) s_user
          || is_passed_on none (roles_of by_token.context)
        ≡ true)
unfolding is_public roles_of text text_beq can_activate token_service
can_activate-IsStored_example =
    can_activate-IsStored by_token refl (some better_auth) users with_token
      (some (create_user_with_has_role stored_boss)) refl refl refl refl

abbrev strict : Setting
strict = record by_token {
  context = record by_token.context { handler_roles = some (admin ∷ s_verified ∷ []) };
}

can_activate-part_example :
    (BetterAuthGuard.can_activate strict.context ≡ (
      if asks_to_verify none (roles_of strict.context)
      then if stored_boss.verified || stored_boss.verified_at || stored_boss.email_verified
        then granted (some (create_user_with_has_role stored_boss))
        else denied forbidden
      else can_activate strict))
    × (can_activate strict ≡ (
        if BetterAuthGuard.has_one_of stored_boss.roles (roles_of strict.context)
          || includes (roles_of strict.context) s_user
          || is_passed_on none (roles_of strict.context)
        then granted (some (create_user_with_has_role stored_boss))
        else denied forbidden))
unfolding is_public roles_of text text_beq token_service BetterAuthGuard.verify_token starts_with
can_activate-part_example = can_activate-part strict stored_boss refl refl refl refl refl refl refl
