-- ===== src/Restricted/Hidden.antt =====
-- What never passes the check: fields that are locked, and, for a requester without a session, fields
-- that are not open to everyone.
use nest_server.Prelude.{
  ◌≡◌, refl, ◌∙◌, Bool, true, false, not, ◌&&◌, ◌||◌, Option, none, some, List, Text, text_eq,
  includes, is_empty, any, any-false, is_some, arith, Bool-cases, Option-cases, inl, inr, any_cong,
}
use nest_server.Role.{s_everyone, s_no_one}
use nest_server.Auth.User.{User}
use nest_server.Restricted.Data.{
  Value, undefined, function, falsy, leaf, object, array, Values, no_value, value, string_id,
  id_of_user, equal_ids, Restriction, Config,
}
use nest_server.Restricted.Validate.{
  Requester, validate_restricted, owner_of, created_by, id_of, restricted_roles, restricted_groups,
  roles_allow, groups_allow, in_members, in_values, property_of, is_creator, is_verified,
  has_role_of,
}

-- Restrictions that nobody meets, or that nobody without a session meets.
unfoldable pub is_hidden : Config → Requester → List Restriction → Bool
is_hidden config requester restricted =
    let roles = restricted_roles config.process_type restricted in
    includes roles s_no_one
    || not (is_some requester.user)
      && not (includes roles s_everyone)
      && not (is_empty roles && is_empty (restricted_groups config.process_type restricted))

pub equal_ids-nobody : (id : Option Text) → equal_ids id none ≡ false
unfolding equal_ids
equal_ids-nobody none = refl
equal_ids-nobody (some id) = refl

in_values-nobody : (values : Values) → in_values none values ≡ false
unfolding in_values
in_values-nobody no_value = refl
in_values-nobody (value v values) =
    ground (arith, equal_ids-nobody (string_id v), in_values-nobody values)

in_members-nobody : (members : Option Value) → in_members none members ≡ false
unfolding in_members
in_members-nobody none = refl
in_members-nobody (some (array values)) = in_values-nobody values
in_members-nobody (some undefined) = equal_ids-nobody (string_id undefined)
in_members-nobody (some function) = equal_ids-nobody (string_id function)
in_members-nobody (some falsy) = equal_ids-nobody (string_id falsy)
in_members-nobody (some (leaf s)) = equal_ids-nobody (string_id (leaf s))
in_members-nobody (some (object class marked fields)) =
    equal_ids-nobody (string_id (object class marked fields))

groups_allow-nobody :
    (config : Config) (groups : List (List Text)) → groups_allow config none groups ≡ false
unfolding groups_allow id_of_user
groups_allow-nobody config groups =
    any_cong (λ group. any (λ p. in_members none (property_of config.db_object p)) group)
      (λ group. false) groups
      (λ group.
        any_cong (λ p. in_members none (property_of config.db_object p)) (λ p. false) group
          (λ p. in_members-nobody (property_of config.db_object p))
        ∙ any-false group)
    ∙ any-false groups

is_creator-nobody :
    (config : Config) (owner : Option Value)
    → config.is_creator_of_parent ≡ false
    → is_creator config owner none ≡ false
unfolding is_creator id_of_user
is_creator-nobody config owner no_creator = elim (Option-cases (created_by owner)) [
  | inl e ↦ rw (e, is_creator, no_creator) (ground arith)
  | inr (creator, e) ↦ rw (e, is_creator) (equal_ids-nobody (string_id creator))
]

-- Without a session, `config.isCreatorOfParent` is never set.
abbrev pub is_fair : Requester → Config → Bool
is_fair requester config = is_some requester.user || not config.is_creator_of_parent

roles_allow-nobody :
    (config : Config) (requester : Requester) (owner : Option Value) (roles : List Text)
    → requester.user ≡ none
    → config.is_creator_of_parent ≡ false
    → includes roles s_everyone ≡ false
    → roles_allow config requester owner roles ≡ false
unfolding roles_allow is_verified has_role_of id_of_user
roles_allow-nobody config requester owner roles nobody no_creator closed =
    rw (nobody, roles_allow, closed)
      (ground (arith, equal_ids-nobody (id_of owner), is_creator-nobody config owner no_creator))

-- What is hidden without being locked is hidden for want of a session.
hidden_lem :
    (config : Config) (requester : Requester) (restricted : List Restriction)
    → is_hidden config requester restricted ≡ true
    → includes (restricted_roles config.process_type restricted) s_no_one ≡ false
    → (is_some requester.user ≡ false)
      × (includes (restricted_roles config.process_type restricted) s_everyone ≡ false)
      × (is_empty (restricted_roles config.process_type restricted)
            && is_empty (restricted_groups config.process_type restricted)
          ≡ false)
unfolding is_hidden
hidden_lem config requester restricted hidden unlocked = (
  ground (arith, hidden, unlocked),
  ground (arith, hidden, unlocked),
  ground (arith, hidden, unlocked),
)

pub nobody_lem : (user : Option User) → is_some user ≡ false → user ≡ none
nobody_lem none h = refl
nobody_lem (some user) h = cc h

pub validate-hidden :
    (config : Config) (requester : Requester) (current : Value) (restricted : List Restriction)
    → is_fair requester config ≡ true
    → is_hidden config requester restricted ≡ true
    → validate_restricted config requester current restricted ≡ false
unfolding validate_restricted
validate-hidden config requester current restricted fair hidden =
    elim (Bool-cases (includes (restricted_roles config.process_type restricted) s_no_one)) [
      | inl locked ↦ rw (locked, validate_restricted) refl
      | inr unlocked ↦
          let roles = restricted_roles config.process_type restricted in
          let groups = restricted_groups config.process_type restricted in
          let (no_user, closed, some_rule) =
            hidden_lem config requester restricted hidden unlocked in
          let nobody = nobody_lem requester.user no_user in
          let no_creator : config.is_creator_of_parent ≡ false = ground (arith, fair, no_user) in
          let denied =
            roles_allow-nobody config requester (owner_of config current) roles nobody no_creator
              closed in
          let no_group : groups_allow config requester.user groups ≡ false =
            rw nobody (groups_allow-nobody config groups) in
          rw (unlocked, validate_restricted, denied, no_group, some_rule) (ground arith)
    ]
