-- ===== src/Auth/Known.antt =====
-- The roles guard with the token service behind it.
use nest_server.Auth.Stored.{IsStored, OnlyOf, nobody-OnlyOf, verify_with-OnlyOf}
use mathlib.Core.Path.{subst}
use nest_server.Prelude.{
  ◌≡◌, refl, sym, ap, ◌∙◌, Bool, true, false, not, ◌||◌, Option, none, some, List, Text, text_eq,
  if◌then◌else◌, any, includes, is_empty, Bool-cases, inl, inr,
}
use nest_server.Role.{s_everyone, s_no_one, s_user}
use nest_server.Tenant.Config.{MultiTenancy}
use nest_server.Auth.User.{
  User, Failure, Outcome, granted, denied, Context, user_has_role, is_public, unknown_strategy,
  forbidden, invalid_token,
}
use nest_server.Auth.TokenService.{
  UserDocument, Users, BetterAuthService, HttpRequest, has_one_of, create_user_with_has_role,
  token_service,
}
use nest_server.Auth.RolesGuard.{
  Setting, not_registered, roles_of, is_passed_on, verify_with,
  verify_better_auth_token_from_context, handle_request, check_user, passport_can_activate,
  fall_back, try_passport, try_better_auth, existing_user, authenticate, can_activate,
}
use nest_server.Auth.Sound.{is_entitled, can_activate-Entitled}

-- An outcome that lets nobody else pass.
abbrev OnlyUser : User → Outcome → Type 0
OnlyUser user outcome = (u : Option User) → outcome ≡ granted u → u ≡ some user

choice-OnlyUser :
    (user : User) (b : Bool) (first second : Outcome)
    → OnlyUser user first
    → OnlyUser user second
    → OnlyUser user (if b then first else second)
choice-OnlyUser user true first second h k = h
choice-OnlyUser user false first second h k = k

granted-OnlyUser : (user : User) → OnlyUser user (granted (some user))
granted-OnlyUser user u h = cc h

denied-OnlyUser : (user : User) (failure : Failure) → OnlyUser user (denied failure)
denied-OnlyUser user failure u h = absurd (cc h)

check_user-OnlyUser :
    (config : Option MultiTenancy) (roles : List Text) (user : User)
    → OnlyUser user (check_user config roles user)
unfolding check_user
check_user-OnlyUser config roles user =
    choice-OnlyUser user (user_has_role user roles) _ _ (granted-OnlyUser user) (
      choice-OnlyUser user (includes roles s_user || includes roles s_everyone) _ _
        (granted-OnlyUser user)
        (choice-OnlyUser user (is_passed_on config roles) _ _ (granted-OnlyUser user)
          (denied-OnlyUser user forbidden)))

-- The user that handleRequest lets pass is the one it was given.
handle_request-OnlyUser :
    (context : Context) (err has_expired : Bool) (user : User)
    → OnlyUser user (handle_request context err (some user) has_expired)
unfolding handle_request
handle_request-OnlyUser context err has_expired user =
    choice-OnlyUser user (includes (roles_of context) s_no_one) _ _ (denied-OnlyUser user forbidden)
      (choice-OnlyUser user (not (any (λ role. not (is_empty role)) (roles_of context))) _ _
        (granted-OnlyUser user) (check_user-OnlyUser context.multi_tenancy (roles_of context) user))

module _ (s : Setting) (iam_only : s.passport ≡ not_registered) where
  no_passport : (failure : Failure) × (try_passport s ≡ denied failure)
  unfolding try_passport fall_back passport_can_activate
  no_passport = elim (Bool-cases s.is_better_auth_enabled) [
    | inl on ↦ (invalid_token, rw (try_passport, iam_only, fall_back, on) refl)
    | inr off ↦ (unknown_strategy, rw (try_passport, iam_only, fall_back, off) refl)
  ]

  try_better_auth-found :
      (found u : Option User)
      → try_better_auth s found ≡ granted u
      → (user : User) × (found ≡ some user) × (u ≡ some user)
  unfolding try_better_auth
  try_better_auth-found none u h = let (failure, e) = no_passport in absurd (cc (h, e))
  try_better_auth-found (some user) u h =
      (user, refl, handle_request-OnlyUser s.context false false user u h)

  -- The user that the token service finds, where BetterAuth is enabled.
  abbrev found_user : Option User
  found_user =
      if s.is_better_auth_enabled then verify_better_auth_token_from_context s.context else none

  found-OnlyOf :
      (service : Option BetterAuthService) (users : Users) (request : HttpRequest)
      → s.context.token_service ≡ some (token_service service (some users) request)
      → OnlyOf users found_user
  unfolding verify_better_auth_token_from_context
  found-OnlyOf service users request serves = choice_none s.is_better_auth_enabled (
      subst (λ t. OnlyOf users (verify_with s.context.has_request t)) (sym serves)
        (verify_with-OnlyOf users service request s.context.has_request))
    where
      choice_none :
          (b : Bool)
          → OnlyOf users (verify_with s.context.has_request s.context.token_service)
          → OnlyOf users
              (if b then verify_with s.context.has_request s.context.token_service else none)
      choice_none true h = h
      choice_none false h = nobody-OnlyOf users

  by_token :
      (u : Option User)
      → s.context.user ≡ none
      → is_public (roles_of s.context) ≡ false
      → can_activate s ≡ granted u
      → try_better_auth s found_user ≡ granted u
  unfolding can_activate authenticate existing_user
  by_token u no_user protected h = elim (Bool-cases (includes (roles_of s.context) s_no_one)) [
    | inl locked ↦ absurd (cc (rw (can_activate, locked) at h))
    | inr unlocked ↦ rw (can_activate, unlocked, protected, no_user) at h
  ]

  -- Where Passport has no strategy and the request carries no user yet: whom RolesGuard lets pass at
  -- an endpoint that is not public is made of a document that a query of the users' collection
  -- answered with. And that document has one of the roles asked for, or S_USER is enough, or the
  -- roles are passed on to the tenant guard.
  pub can_activate-IsStored :
      (service : Option BetterAuthService) (users : Users) (request : HttpRequest) (u : Option User)
      → s.context.user ≡ none
      → s.context.token_service ≡ some (token_service service (some users) request)
      → is_public (roles_of s.context) ≡ false
      → can_activate s ≡ granted u
      → (doc : UserDocument) × IsStored users doc
        × (u ≡ some (create_user_with_has_role doc))
        × (has_one_of doc.roles (roles_of s.context)
              || includes (roles_of s.context) s_user
              || is_passed_on s.context.multi_tenancy (roles_of s.context)
            ≡ true)
  unfolding create_user_with_has_role user_has_role
  can_activate-IsStored service users request u no_user serves protected h =
      let (user, found, same) =
        try_better_auth-found found_user u (by_token u no_user protected h) in
      let (doc, stored, made) = found-OnlyOf service users request serves user found in
      let (user', same', entitled) = can_activate-Entitled s protected u h in
      let one : some user' ≡ some user = sym same' ∙ same in
      let is_doc : user' ≡ create_user_with_has_role doc = (cc one) ∙ made in
      (
        doc,
        stored,
        same ∙ ap (λ x. some x) made,
        subst (λ x. is_entitled s.context.multi_tenancy (roles_of s.context) x ≡ true) is_doc
            entitled,
      )
