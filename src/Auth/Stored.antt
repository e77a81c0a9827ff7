-- ===== src/Auth/Stored.antt =====
-- The users whom the token service finds, and the database.
use nest_server.Prelude.{
  ◌≡◌, refl, Bool, true, false, ◌⊎◌, Option, none, some, [], ◌∷◌, Text, text_eq, if◌then◌else◌, inl,
  inr,
}
use nest_server.Auth.User.{User, load_user, user_of_token}
use nest_server.Auth.TokenService.{
  UserDocument, Users, BetterAuthService, HttpRequest, JwtAnswer, payload, expired, invalid,
  SessionUser, given, create_user_with_has_role, or_query, user_of, nothing, load_user_from_payload,
  by_session_id, by_email, load_user_from_session_result, by_session, user_or, by_jwt,
  verify_and_load_user, token_service,
}
use nest_server.Auth.RolesGuard.{verify_with}

-- A query of the collection has answered with this document.
abbrev pub IsStored : Users → UserDocument → Type 0
IsStored users doc =
    (key : Text) × ((users.find_by_id key ≡ some (some doc))
      ⊎ ((users.find_by_iam_id key ≡ some (some doc))
          ⊎ (users.find_by_email key ≡ some (some doc))))

abbrev pub IsOf : Users → User → Type 0
IsOf users user = (doc : UserDocument) × IsStored users doc × (user ≡ create_user_with_has_role doc)

abbrev pub OnlyStored : Users → Option (Option UserDocument) → Type 0
OnlyStored users answer = (doc : UserDocument) → answer ≡ some (some doc) → IsStored users doc

abbrev pub OnlyOf : Users → Option User → Type 0
OnlyOf users found = (user : User) → found ≡ some user → IsOf users user

module _ (users : Users) where
  pub nobody-OnlyOf : OnlyOf users none
  nobody-OnlyOf user h = absurd (cc h)

  or_query-OnlyStored :
      (first second : Option (Option UserDocument))
      → OnlyStored users first
      → OnlyStored users second
      → OnlyStored users (or_query first second)
  unfolding or_query
  or_query-OnlyStored none second h k doc e = absurd (cc e)
  or_query-OnlyStored (some none) second h k doc e = k doc e
  or_query-OnlyStored (some (some user)) second h k doc e = h doc e

  nothing-OnlyStored : OnlyStored users nothing
  nothing-OnlyStored doc e = absurd (cc e)

  by_id-OnlyStored :
      (b : Bool) (id : Text) → OnlyStored users (if b then users.find_by_id id else nothing)
  by_id-OnlyStored true id doc e = (id, inl e)
  by_id-OnlyStored false id doc e = absurd (cc e)

  user_of-OnlyOf :
      (answer : Option (Option UserDocument))
      → OnlyStored users answer
      → OnlyOf users (user_of answer)
  unfolding user_of
  user_of-OnlyOf none h user e = absurd (cc e)
  user_of-OnlyOf (some none) h user e = absurd (cc e)
  user_of-OnlyOf (some (some doc)) h user e = (doc, h doc refl, cc e)

  payload-OnlyOf : (sub : Text) → OnlyOf users (load_user_from_payload users sub)
  unfolding load_user_from_payload
  payload-OnlyOf sub = user_of-OnlyOf _ (
      or_query-OnlyStored (if users.is_object_id sub then users.find_by_id sub else nothing)
        (users.find_by_iam_id sub) (by_id-OnlyStored (users.is_object_id sub) sub)
        (λ doc e. (sub, inr (inl e))))

  by_session_id-OnlyStored : (id : Option Text) → OnlyStored users (by_session_id users id)
  unfolding by_session_id
  by_session_id-OnlyStored none = nothing-OnlyStored
  by_session_id-OnlyStored (some id) =
      or_query-OnlyStored (users.find_by_iam_id id)
        (if users.is_object_id id then users.find_by_id id else nothing)
        (λ doc e. (id, inr (inl e))) (by_id-OnlyStored (users.is_object_id id) id)

  by_email-OnlyStored : (email : Option Text) → OnlyStored users (by_email users email)
  unfolding by_email
  by_email-OnlyStored none doc e = nothing-OnlyStored doc e
  by_email-OnlyStored (some email) doc e = (email, inr (inr e))

  by_session-OnlyOf :
      (answer : Option (Option SessionUser)) → OnlyOf users (by_session users answer)
  unfolding by_session load_user_from_session_result
  by_session-OnlyOf none = nobody-OnlyOf
  by_session-OnlyOf (some none) = nobody-OnlyOf
  by_session-OnlyOf (some (some session)) = user_of-OnlyOf _ (
      or_query-OnlyStored (by_email users (given session.email))
        (by_session_id users (given session.id)) (by_email-OnlyStored (given session.email))
        (by_session_id-OnlyStored (given session.id)))

  user_or-OnlyOf :
      (a b : Option User) → OnlyOf users a → OnlyOf users b → OnlyOf users (user_or a b)
  unfolding user_or
  user_or-OnlyOf none b h k = k
  user_or-OnlyOf (some user) b h k = h

  by_sub-OnlyOf :
      (sub : Option Text) (other : Option User)
      → OnlyOf users other
      → OnlyOf users (
          user_of_token (elim sub [
            | none ↦ some other
            | some id ↦ some (user_or (load_user_from_payload users id) other)
          ]))
  unfolding user_of_token
  by_sub-OnlyOf none other h = h
  by_sub-OnlyOf (some id) other h =
      user_or-OnlyOf (load_user_from_payload users id) other (payload-OnlyOf id) h

  by_jwt-OnlyOf :
      (answer : JwtAnswer) (other : Option User)
      → OnlyOf users other
      → OnlyOf users (user_of_token (by_jwt users answer other))
  unfolding by_jwt user_of_token
  by_jwt-OnlyOf expired other h = nobody-OnlyOf
  by_jwt-OnlyOf invalid other h = h
  by_jwt-OnlyOf (payload sub) other h = by_sub-OnlyOf (given sub) other h

  choice-OnlyOf :
      (b : Bool) (first second : Option (Option User))
      → OnlyOf users (user_of_token first)
      → OnlyOf users (user_of_token second)
      → OnlyOf users (user_of_token (if b then first else second))
  choice-OnlyOf true first second h k = h
  choice-OnlyOf false first second h k = k

  verify-OnlyOf :
      (service : Option BetterAuthService) (token : Text)
      → OnlyOf users (user_of_token (verify_and_load_user service (some users) token))
  unfolding verify_and_load_user user_of_token
  verify-OnlyOf none token = nobody-OnlyOf
  verify-OnlyOf (some service) token =
      choice-OnlyOf service.is_jwt_enabled
        (by_jwt users (service.verify_jwt_token token)
          (by_session users (service.get_session_by_token token)))
        (some (by_session users (service.get_session_by_token token)))
        (by_jwt-OnlyOf (service.verify_jwt_token token)
          (by_session users (service.get_session_by_token token))
          (by_session-OnlyOf (service.get_session_by_token token)))
        (by_session-OnlyOf (service.get_session_by_token token))

  load_user-OnlyOf :
      (service : Option BetterAuthService) (request : HttpRequest)
      (extracted : Option (Option Text))
      → OnlyOf users (load_user (token_service service (some users) request) extracted)
  unfolding load_user token_service
  load_user-OnlyOf service request none = nobody-OnlyOf
  load_user-OnlyOf service request (some none) = nobody-OnlyOf
  load_user-OnlyOf service request (some (some [])) = nobody-OnlyOf
  load_user-OnlyOf service request (some (some (c ∷ token))) = verify-OnlyOf service (c ∷ token)

  pub verify_with-OnlyOf :
      (service : Option BetterAuthService) (request : HttpRequest) (has_request : Bool)
      → OnlyOf users (verify_with has_request (some (token_service service (some users) request)))
  unfolding verify_with
  verify_with-OnlyOf service request true = load_user-OnlyOf service request _
  verify_with-OnlyOf service request false = nobody-OnlyOf
