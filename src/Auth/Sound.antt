-- ===== src/Auth/Sound.antt =====
-- Whom RolesGuard lets pass.
use nest_server.Prelude.{
  ◌≡◌, refl, Bool, true, false, not, ◌||◌, Option, none, some, List, Text, text_eq, if◌then◌else◌,
  any, includes, is_empty, arith, Bool-cases, Option-cases, inl, inr,
}
use nest_server.Role.{s_everyone, s_no_one, s_user}
use nest_server.Tenant.Config.{MultiTenancy}
use nest_server.Auth.User.{
  User, Failure, forbidden, unauthorized, invalid_token, expired_token, unknown_strategy, Outcome,
  granted, denied, Context, user_has_role, is_public,
}
use nest_server.Auth.RolesGuard.{
  Setting, Passport, not_registered, answers, roles_of, is_passed_on, handle_request, check_user,
  check_nobody, passport_can_activate, fall_back, try_passport, try_better_auth, existing_user,
  authenticate, can_activate, verify_again, is_strategy_error,
}

-- The roles ask for no more than this user is.
abbrev pub is_entitled : Option MultiTenancy → List Text → User → Bool
is_entitled config roles user =
    user_has_role user roles || includes roles s_user || is_passed_on config roles

-- Somebody who is entitled.
abbrev pub Entitled : Context → Option User → Type 0
Entitled context u =
    (user : User) × (u ≡ some user)
    × (is_entitled context.multi_tenancy (roles_of context) user ≡ true)

-- An outcome that lets only those pass who are entitled.
abbrev OnlyEntitled : Context → Outcome → Type 0
OnlyEntitled context outcome = (u : Option User) → outcome ≡ granted u → Entitled context u

denied-OnlyEntitled :
    (context : Context) (failure : Failure) → OnlyEntitled context (denied failure)
denied-OnlyEntitled context failure u h = cc h

granted-OnlyEntitled :
    (context : Context) (user : User)
    → is_entitled context.multi_tenancy (roles_of context) user ≡ true
    → OnlyEntitled context (granted (some user))
granted-OnlyEntitled context user entitled u h = (user, cc h, entitled)

pub check_user_lem :
    (config : Option MultiTenancy) (roles : List Text) (user : User)
    → includes roles s_everyone ≡ false
    → check_user config roles user
      ≡ (if is_entitled config roles user then granted (some user) else denied forbidden)
unfolding check_user
check_user_lem config roles user restricted = ground (arith, restricted)

pub protected_lem :
    (roles : List Text)
    → is_public roles ≡ false
    → (includes roles s_everyone ≡ false) × (any (λ role. not (is_empty role)) roles ≡ true)
unfolding is_public
protected_lem roles h = (ground (arith, h), ground (arith, h))

module _ (context : Context) (protected : is_public (roles_of context) ≡ false) where
  check_user-OnlyEntitled :
      (user : User)
      → OnlyEntitled context (check_user context.multi_tenancy (roles_of context) user)
  check_user-OnlyEntitled user =
      rw
        (check_user_lem context.multi_tenancy (roles_of context) user
          (protected_lem (roles_of context) protected).0)
        (elim (Bool-cases (is_entitled context.multi_tenancy (roles_of context) user)) [
          | inl entitled ↦ rw entitled (granted-OnlyEntitled context user entitled)
          | inr other ↦ rw other (denied-OnlyEntitled context forbidden)
        ])

  check_nobody_lem :
      (err expired : Bool)
      → (failure : Failure) × (check_nobody (roles_of context) err expired ≡ denied failure)
  unfolding check_nobody
  check_nobody_lem true expired =
      (invalid_token, rw (protected_lem (roles_of context) protected).0 refl)
  check_nobody_lem false true =
      (expired_token, rw (protected_lem (roles_of context) protected).0 refl)
  check_nobody_lem false false =
      (unauthorized, rw (protected_lem (roles_of context) protected).0 refl)

  handle_request-OnlyEntitled :
      (err expired : Bool) (user : Option User)
      → OnlyEntitled context (handle_request context err user expired)
  unfolding handle_request
  handle_request-OnlyEntitled err expired user =
      elim (Bool-cases (includes (roles_of context) s_no_one)) [
        | inl locked ↦ rw (locked, handle_request) (denied-OnlyEntitled context forbidden)
        | inr open_to_some ↦
            rw (open_to_some, handle_request, (protected_lem (roles_of context) protected).1)
              (by_user user)
      ]
    where
      by_user :
          (u : Option User)
          → OnlyEntitled context (elim u [
            | none ↦ check_nobody (roles_of context) err expired
            | some x ↦ check_user context.multi_tenancy (roles_of context) x
          ])
      by_user none =
          let (failure, e) = check_nobody_lem err expired in
          rw e (denied-OnlyEntitled context failure)
      by_user (some x) = check_user-OnlyEntitled x

module _ (s : Setting) (protected : is_public (roles_of s.context) ≡ false) where
  fall_back-OnlyEntitled : (failure : Failure) → OnlyEntitled s.context (fall_back s failure)
  unfolding fall_back
  fall_back-OnlyEntitled failure = elim (Bool-cases s.is_better_auth_enabled) [
    | inr off ↦ rw (off, fall_back) (denied-OnlyEntitled s.context failure)
    | inl on ↦ elim (Bool-cases (is_strategy_error failure)) [
      | inl strategy ↦ rw (on, fall_back, strategy) (denied-OnlyEntitled s.context invalid_token)
      | inr other ↦ elim (Option-cases (verify_again s)) [
        | inl nobody ↦ rw (on, fall_back, other, nobody) (denied-OnlyEntitled s.context failure)
        | inr (user, somebody) ↦
            rw (on, fall_back, other, somebody)
              (handle_request-OnlyEntitled s.context protected false false (some user))
      ]
    ]
  ]

  passport-OnlyEntitled :
      (passport : Passport) → OnlyEntitled s.context (passport_can_activate s.context passport)
  unfolding passport_can_activate
  passport-OnlyEntitled not_registered = denied-OnlyEntitled s.context unknown_strategy
  passport-OnlyEntitled (answers err user expired) =
      handle_request-OnlyEntitled s.context protected err expired user

  try_passport-OnlyEntitled : OnlyEntitled s.context (try_passport s)
  unfolding try_passport
  try_passport-OnlyEntitled =
      by_answer (passport_can_activate s.context s.passport) (passport-OnlyEntitled s.passport)
    where
      by_answer :
          (outcome : Outcome)
          → OnlyEntitled s.context outcome
          → OnlyEntitled s.context
              (elim outcome [ granted user ↦ granted user | denied failure ↦ fall_back s failure ])
      by_answer (granted user) h = h
      by_answer (denied failure) h = fall_back-OnlyEntitled failure

  try_better_auth-OnlyEntitled :
      (user : Option User) → OnlyEntitled s.context (try_better_auth s user)
  unfolding try_better_auth
  try_better_auth-OnlyEntitled none = try_passport-OnlyEntitled
  try_better_auth-OnlyEntitled (some user) =
      handle_request-OnlyEntitled s.context protected false false (some user)

  authenticate-OnlyEntitled : (user : Option User) → OnlyEntitled s.context (authenticate s user)
  unfolding authenticate
  authenticate-OnlyEntitled (some user) =
      handle_request-OnlyEntitled s.context protected false false (some user)
  authenticate-OnlyEntitled none = try_better_auth-OnlyEntitled _

  -- At an endpoint that is not public, RolesGuard lets nobody pass but a user whose hasRole accepts the
  -- roles, or who is logged in where S_USER is enough, or whom it passes on to the tenant guard. That
  -- holds whatever Passport and the token service answer, also if the service, asked a second time in the
  -- fallback, finds a user whom it did not find at first.
  pub can_activate-Entitled : (u : Option User) → can_activate s ≡ granted u → Entitled s.context u
  unfolding can_activate
  can_activate-Entitled = elim (Bool-cases (includes (roles_of s.context) s_no_one)) [
    | inl locked ↦ rw (locked, can_activate) (denied-OnlyEntitled s.context forbidden)
    | inr open_to_some ↦
        rw (open_to_some, can_activate, protected)
          (authenticate-OnlyEntitled (existing_user s.context.user))
  ]
