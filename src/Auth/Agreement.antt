-- ===== src/Auth/Agreement.antt =====
-- The decisions of the two guards side by side.
use nest_server.Prelude.{
  Bool, not, ◌&&◌, Option-cases, ◌≡◌, refl, sym, ap, ◌∙◌, true, false, ◌||◌, Option, none, some,
  List, [], Text, text_eq, if◌then◌else◌, includes, is_empty, arith, Bool-cases, inl, inr,
}
use nest_server.Role.{s_no_one, s_user, s_self, s_verified, s_everyone}
use nest_server.Tenant.Config.{MultiTenancy}
use nest_server.Auth.User.{
  User, forbidden, granted, denied, Context, user_has_role, is_public, TokenService,
}
use nest_server.Auth.RolesGuard.{
  Setting, roles_of, is_passed_on, handle_request, existing_user, authenticate, can_activate,
  verify_with, try_better_auth, verify_better_auth_token_from_context,
}
use nest_server.Auth.BetterAuthGuard as BetterAuthGuard
use nest_server.Auth.BetterAuthGuard.{
  is_self, has_one_of, check_authenticated, check_somebody, user_or_token, verify_token,
}
use nest_server.Auth.TokenService as Tokens
use nest_server.Auth.TokenService.{UserDocument, create_user_with_has_role}
use nest_server.Auth.Mapper.{
  BetterAuthSessionUser, Found, no_connection, unknown, failing, cached, stored, create_has_role,
  create_mapped_user, array_or_empty, map_found, map_session_user,
}
use nest_server.Auth.Sound.{is_entitled, check_user_lem, protected_lem}

existing_lem :
    (request_user : Option User) (user : User)
    → request_user ≡ some user
    → user.authenticated_via_better_auth ≡ true
    → existing_user request_user ≡ some user
unfolding existing_user
existing_lem request_user user here via =
    ap existing_user here ∙ ap (λ b. if b then some user else none) via

-- The decision of RolesGuard on a user whom the BetterAuth middleware has put on the request.
on_request :
    (s : Setting) (user : User)
    → s.context.user ≡ some user
    → user.authenticated_via_better_auth ≡ true
    → includes (roles_of s.context) s_no_one ≡ false
    → is_public (roles_of s.context) ≡ false
    → can_activate s ≡ (
        if is_entitled s.context.multi_tenancy (roles_of s.context) user
        then granted (some user)
        else denied forbidden)
unfolding can_activate existing_user authenticate handle_request
on_request s user here via unlocked protected =
    rw
      (
        unlocked,
        can_activate,
        protected,
        existing_lem s.context.user user here via,
        authenticate,
        handle_request,
        unlocked,
        (protected_lem (roles_of s.context) protected).1,
      )
      (check_user_lem s.context.multi_tenancy (roles_of s.context) user
        (protected_lem (roles_of s.context) protected).0)

-- What BetterAuthRolesGuard takes for the mark of a verified user.
abbrev pub is_verified : User → Bool
is_verified user = user.verified || user.verified_at || user.email_verified

-- The roles name S_VERIFIED, and nothing lets a user pass before it is looked at.
abbrev pub asks_to_verify : Option MultiTenancy → List Text → Bool
asks_to_verify config roles =
    includes roles s_verified && not (includes roles s_user) && not (is_passed_on config roles)

check_authenticated_lem :
    (context : Context) (user : User)
    → includes (roles_of context) s_self ≡ false
    → (includes (roles_of context) s_user ≡ false
        → includes (roles_of context) s_verified ≡ false
        → user_has_role user (roles_of context) ≡ has_one_of user.roles (roles_of context))
    → check_authenticated context (roles_of context) user ≡ (
        if asks_to_verify context.multi_tenancy (roles_of context)
        then if is_verified user then granted (some user) else denied forbidden
        else if is_entitled context.multi_tenancy (roles_of context) user
        then granted (some user)
        else denied forbidden)
unfolding check_authenticated
check_authenticated_lem context user no_self same =
    elim (Bool-cases (includes (roles_of context) s_user)) [
      | inl enough ↦ ground (arith, enough)
      | inr no_user ↦ elim (Bool-cases (includes (roles_of context) s_verified)) [
        | inl asks ↦ ground (arith, no_user, asks, no_self)
        | inr free ↦ ground (arith, no_user, free, no_self, same no_user free)
      ]
    ]

-- The decision of BetterAuthRolesGuard on the user of the request.
better_auth_on_request :
    (context : Context) (user : User)
    → context.user ≡ some user
    → includes (roles_of context) s_no_one ≡ false
    → is_public (roles_of context) ≡ false
    → BetterAuthGuard.can_activate context ≡ check_authenticated context (roles_of context) user
unfolding BetterAuthGuard.can_activate check_somebody user_or_token
better_auth_on_request context user here unlocked protected =
    rw (unlocked, BetterAuthGuard.can_activate, protected, here) refl

-- hasRole of a mapped user, where nothing but roles is asked for.
mapped-has_one_of :
    (session : BetterAuthSessionUser) (id : Text) (owned : List Text) (verified : Bool)
    (required : List Text)
    → includes required s_everyone ≡ false
    → includes required s_no_one ≡ false
    → includes required s_user ≡ false
    → includes required s_verified ≡ false
    → user_has_role (create_mapped_user session id owned verified) required
      ≡ has_one_of (some owned) required
unfolding user_has_role create_mapped_user create_has_role has_one_of
mapped-has_one_of session id owned verified required p q r w = rw (p, q, r, w) refl

-- hasRole of a mapped user, at an endpoint that is neither locked nor public and asks for S_VERIFIED.
mapped-verified :
    (session : BetterAuthSessionUser) (id : Text) (owned : List Text) (verified : Bool)
    (required : List Text)
    → includes required s_everyone ≡ false
    → includes required s_no_one ≡ false
    → includes required s_user ≡ false
    → includes required s_verified ≡ true
    → user_has_role (create_mapped_user session id owned verified) required ≡ verified
unfolding user_has_role create_mapped_user create_has_role
mapped-verified session id owned verified required p q r w = rw (p, q, r, w) refl

-- The user was not taken from the mapper's cache.
abbrev pub is_fresh : Found → Bool
is_fresh no_connection = true
is_fresh unknown = true
is_fresh failing = true
is_fresh (cached entry) = false
is_fresh (stored user) = true

-- A mapped user who is not from the cache is verified if BetterAuth has verified the address.
abbrev Mapped : BetterAuthSessionUser → User → Type 0
Mapped session user =
    (id : Text) × (owned : List Text) × (verified : Bool) × (user
      ≡ create_mapped_user session id owned verified)
    × (verified || session.email_verified ≡ verified)

map_found-Mapped :
    (session : BetterAuthSessionUser) (found : Found) (user : User)
    → is_fresh found ≡ true
    → map_found session found ≡ some user
    → Mapped session user
unfolding map_found
map_found-Mapped session no_connection user fresh h =
    (session.id, [], session.email_verified, sym (cc h), ground arith)
map_found-Mapped session unknown user fresh h =
    (session.id, [], session.email_verified, sym (cc h), ground arith)
map_found-Mapped session failing user fresh h = absurd (cc h)
map_found-Mapped session (cached entry) user fresh h = absurd (cc fresh)
map_found-Mapped session (stored doc) user fresh h = (
  doc.id,
  array_or_empty doc.roles,
  doc.verified || session.email_verified,
  sym (cc h),
  ground arith,
)

map_session_user-Mapped :
    (session : BetterAuthSessionUser) (found : Found) (user : User)
    → is_fresh found ≡ true
    → map_session_user session found ≡ some user
    → Mapped session user
unfolding map_session_user
map_session_user-Mapped session found user fresh h =
    elim (Bool-cases (is_empty session.id || is_empty session.email)) [
      | inl blank ↦ absurd (cc (rw (map_session_user, blank) at h))
      | inr given ↦ map_found-Mapped session found user fresh (rw (map_session_user, given) at h)
    ]

-- What both guards decide on a mapped user at an endpoint that is neither locked nor public.
check_authenticated-mapped :
    (context : Context) (session : BetterAuthSessionUser) (id : Text) (owned : List Text)
    (verified : Bool)
    → verified || session.email_verified ≡ verified
    → includes (roles_of context) s_no_one ≡ false
    → is_public (roles_of context) ≡ false
    → includes (roles_of context) s_self ≡ false
    → check_authenticated context (roles_of context) (create_mapped_user session id owned verified)
      ≡ (if is_entitled context.multi_tenancy
            (roles_of context)
            (create_mapped_user session id owned verified)
          then granted (some (create_mapped_user session id owned verified))
          else denied forbidden)
check_authenticated-mapped context session id owned verified known unlocked protected no_self =
    let restricted = (protected_lem (roles_of context) protected).0 in
    let user = create_mapped_user session id owned verified in
    let roles = roles_of context in
    check_authenticated_lem context user no_self (λ no_user free.
      unfold create_mapped_user in
      mapped-has_one_of session id owned verified roles restricted unlocked no_user free)
    ∙ elim (Bool-cases (asks_to_verify context.multi_tenancy roles)) [
      | inr free ↦ rw free refl
      | inl asks ↦
          let holds =
            mapped-verified session id owned verified roles restricted unlocked
              (ground (arith, asks)) (ground (arith, asks)) in
          let marked : is_verified user ≡ verified =
            unfold create_mapped_user in ground (arith, known) in
          ground (arith, asks, holds, marked)
    ]

-- The guards agree, whatever the roles of the endpoint, on a user whom the BetterAuth middleware has
-- mapped from its session and put on the request, unless the roles name S_SELF or the user was taken from
-- the mapper's cache.
pub can_activate-agree :
    (s : Setting) (session : BetterAuthSessionUser) (found : Found) (user : User)
    → map_session_user session found ≡ some user
    → is_fresh found ≡ true
    → s.context.user ≡ some user
    → includes (roles_of s.context) s_self ≡ false
    → can_activate s ≡ BetterAuthGuard.can_activate s.context
unfolding can_activate BetterAuthGuard.can_activate
can_activate-agree s session found user mapped fresh here no_self =
    elim (Bool-cases (includes (roles_of s.context) s_no_one)) [
      | inl locked ↦ rw (locked, can_activate, BetterAuthGuard.can_activate) refl
      | inr unlocked ↦ elim (Bool-cases (is_public (roles_of s.context))) [
        | inl open_to_all ↦
            rw (unlocked, can_activate, BetterAuthGuard.can_activate, open_to_all) refl
        | inr protected ↦
            let (id, owned, verified, made, known) =
              map_session_user-Mapped session found user fresh mapped in
            let here' = here ∙ ap (λ u. some u) made in
            on_request s (create_mapped_user session id owned verified) here'
              (unfold create_mapped_user in refl) unlocked protected
            ∙ sym (
                check_authenticated-mapped s.context session id owned verified known unlocked
                  protected no_self)
            ∙ sym (better_auth_on_request s.context _ here' unlocked protected)
      ]
    ]

-- RolesGuard on a user whom the token service finds.
by_token :
    (s : Setting) (user : User)
    → s.is_better_auth_enabled ≡ true
    → s.context.user ≡ none
    → verify_better_auth_token_from_context s.context ≡ some user
    → includes (roles_of s.context) s_no_one ≡ false
    → is_public (roles_of s.context) ≡ false
    → can_activate s ≡ (
        if is_entitled s.context.multi_tenancy (roles_of s.context) user
        then granted (some user)
        else denied forbidden)
unfolding can_activate existing_user authenticate try_better_auth handle_request
by_token s user enabled nobody found unlocked protected =
    rw
      (
        unlocked,
        can_activate,
        protected,
        nobody,
        authenticate,
        enabled,
        found,
        try_better_auth,
        handle_request,
        unlocked,
        (protected_lem (roles_of s.context) protected).1,
      )
      (check_user_lem s.context.multi_tenancy (roles_of s.context) user
        (protected_lem (roles_of s.context) protected).0)

verify_with_lem : (service : Option TokenService) → verify_with true service ≡ verify_token service
unfolding verify_with verify_token
verify_with_lem none = refl
verify_with_lem (some service) = refl

by_context :
    (context : Context) (user : User)
    → context.has_request ≡ true
    → verify_token context.token_service ≡ some user
    → verify_better_auth_token_from_context context ≡ some user
unfolding verify_better_auth_token_from_context
by_context context user requested found =
    rw requested (verify_with_lem context.token_service ∙ found)

better_auth_by_token :
    (context : Context) (user : User)
    → context.user ≡ none
    → verify_token context.token_service ≡ some user
    → includes (roles_of context) s_no_one ≡ false
    → is_public (roles_of context) ≡ false
    → BetterAuthGuard.can_activate context ≡ check_authenticated context (roles_of context) user
unfolding BetterAuthGuard.can_activate check_somebody user_or_token
better_auth_by_token context user nobody found unlocked protected =
    rw (unlocked, BetterAuthGuard.can_activate, protected, nobody, user_or_token, found) refl

stored-has_one_of :
    (doc : UserDocument) (required : List Text)
    → user_has_role (create_user_with_has_role doc) required
      ≡ has_one_of (create_user_with_has_role doc).roles required
unfolding user_has_role create_user_with_has_role has_one_of Tokens.has_one_of
stored-has_one_of doc required = elim (Option-cases doc.roles) [
  | inl missing ↦ rw missing refl
  | inr (roles, there) ↦ rw there refl
]

-- With BetterAuth enabled, where the request is known, carries no user and the token service makes one of
-- a document, at an endpoint that is neither locked nor public and does not name S_SELF: the guards
-- agree, unless the roles name S_VERIFIED and neither S_USER nor multi-tenancy lets the user pass. Then
-- BetterAuthRolesGuard asks for a verified user and for nothing else. RolesGuard never looks at that: it
-- lets the user pass exactly if the document has one of the roles, S_USER is enough or the roles are
-- passed on to the tenant guard.
pub can_activate-part :
    (s : Setting) (doc : UserDocument)
    → s.is_better_auth_enabled ≡ true
    → s.context.has_request ≡ true
    → s.context.user ≡ none
    → verify_token s.context.token_service ≡ some (create_user_with_has_role doc)
    → includes (roles_of s.context) s_no_one ≡ false
    → is_public (roles_of s.context) ≡ false
    → includes (roles_of s.context) s_self ≡ false
    → (BetterAuthGuard.can_activate s.context ≡ (
        if asks_to_verify s.context.multi_tenancy (roles_of s.context)
        then if doc.verified || doc.verified_at || doc.email_verified
          then granted (some (create_user_with_has_role doc))
          else denied forbidden
        else can_activate s))
      × (can_activate s ≡ (
          if has_one_of doc.roles (roles_of s.context)
            || includes (roles_of s.context) s_user
            || is_passed_on s.context.multi_tenancy (roles_of s.context)
          then granted (some (create_user_with_has_role doc))
          else denied forbidden))
unfolding create_user_with_has_role
can_activate-part s doc enabled requested nobody found unlocked protected no_self =
    let user = create_user_with_has_role doc in
    let by_roles_guard =
      by_token s user enabled nobody (by_context s.context user requested found) unlocked
        protected in
    let by_better_auth =
      better_auth_by_token s.context user nobody found unlocked protected
      ∙ check_authenticated_lem s.context user no_self
          (λ no_user free. stored-has_one_of doc (roles_of s.context)) in
    (
      rw by_roles_guard by_better_auth,
      by_roles_guard
          ∙ ap
              (λ b.
                if b
                  || includes (roles_of s.context) s_user
                  || is_passed_on s.context.multi_tenancy (roles_of s.context)
                then granted (some user)
                else denied forbidden)
              (stored-has_one_of doc (roles_of s.context)),
    )
