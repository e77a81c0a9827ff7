-- ===== src/Tenant/Membership/Members.antt =====
-- The operations on the memberships of a tenant (src/core/modules/tenant/core-tenant.service.ts). The
-- collection is an interface: its operations, and what MongoDB documents of them. Requests are taken
-- one after the other; the check of the last owner and the write that follows are not atomic in the
-- service, which says so itself.
pub mod Counting
pub mod Kept
pub mod LastOwner
pub mod Owner
pub mod Removed
use nest_server.Prelude.{
  ℕ, ◌≡◌, Bool, true, false, not, ◌&&◌, ◌||◌, ◌⊎◌, Option, none, some, List, [], ◌∷◌, ◌++◌, Text,
  text, text_eq, ◌==◌, leb, if◌then◌else◌, is_empty, trim, or_else, filter, length,
}
use nest_server.Tenant.Config.{MultiTenancy}
use nest_server.Tenant.Membership.{
  Refused, get_default_role, get_highest_role, assert_assignable_membership_role,
}

pub data Status : Type 0 where
  active invited suspended : Status

-- CoreTenantMemberModel
pub record Member : Type 0 where
  pub tenant : Text
  pub user : Text
  pub role : Text
  pub status : Status
  pub invited_by : Option Text
  pub joined_at : ℕ

abbrev pub is_active : Status → Bool
is_active active = true
is_active invited = false
is_active suspended = false

abbrev pub Query : Type 0
Query = Member → Bool

-- { tenant, user }
abbrev pub of_user : Text → Text → Query
of_user tenant user m = m.tenant == tenant && m.user == user

-- { status: ACTIVE, tenant, user }
abbrev pub active_of : Text → Text → Query
active_of tenant user m = is_active m.status && of_user tenant user m

-- { role, status: ACTIVE, tenant }
abbrev pub active_with : Text → Text → Query
active_with role tenant m = m.role == role && is_active m.status && m.tenant == tenant

abbrev pub count : Query → List Member → ℕ
count query rows = length (filter query rows)

-- A row of the list that answers the query.
abbrev pub IsAnswer : Query → List Member → Member → Type 0
IsAnswer query rows m =
    (before : List Member) × (after : List Member) × (rows ≡ before ++ (m ∷ after))
    × (query m ≡ true)

-- The Mongoose model of the collection `M`.
pub record MemberModel (M : Type 0) : Type 0 where
  pub find_one : M → Query → Option Member
  -- the collection after the update, and the updated document
  pub find_one_and_update : M → Query → (Member → Member) → M × Option Member
  pub count_documents : M → Query → ℕ
  pub create : M → Member → M

-- What the operations do to the documents of the collection.
pub record MemberLaws (M : Type 0) (model : MemberModel M) : Type 0 where
  pub rows : M → List Member
  pub found : (m : M) (q : Query) (r : Member) → model.find_one m q ≡ some r → IsAnswer q (rows m) r
  pub not_found : (m : M) (q : Query) → model.find_one m q ≡ none → count q (rows m) ≡ 0
  -- an update writes one document that answers the query; without one it writes nothing
  pub updated :
      (m : M) (q : Query) (change : Member → Member) (r : Member)
      → (model.find_one_and_update m q change).1 ≡ some r
      → (old : Member) × (before : List Member) × (after : List Member) × (rows m
          ≡ before ++ (old ∷ after))
        × (q old ≡ true)
        × (r ≡ change old)
        × (rows (model.find_one_and_update m q change).0 ≡ before ++ (change old ∷ after))
  pub not_updated :
      (m : M) (q : Query) (change : Member → Member)
      → (model.find_one_and_update m q change).1 ≡ none
      → (count q (rows m) ≡ 0) × (rows (model.find_one_and_update m q change).0 ≡ rows m)
  pub counted : (m : M) (q : Query) → model.count_documents m q ≡ count q (rows m)
  pub created : (m : M) (r : Member) → rows (model.create m r) ≡ rows m ++ (r ∷ [])

pub data Rejected : Type 0 where
  empty_tenant empty_user empty_role : Rejected
  not_assignable : Refused → Rejected
  already_active last_owner membership_not_found : Rejected

pub data Outcome : Type 0 where
  done : Member → Outcome
  rejected : Rejected → Outcome
  -- the update found no document any more
  no_document : Outcome

-- The collection, and the users whose cache entries the guard was told to drop, the last one first.
pub record World (M : Type 0) : Type 0 where
  pub members : M
  pub invalidated : List Text

abbrev pub is_blank : Text → Bool
is_blank s = is_empty (trim s)

module _ {M : Type 0} (model : MemberModel M) (config : Option MultiTenancy) where
  unfoldable pub get_membership : Text → Text → M → Option Member
  get_membership tenant user m = model.find_one m (of_user tenant user)

  unfoldable pub get_active_membership : Text → Text → M → Option Member
  get_active_membership tenant user m =
      if is_blank tenant || is_blank user then none else model.find_one m (active_of tenant user)

  -- `existing?.role === highestRole`
  unfoldable pub is_owner : Option Member → Bool
  unfolding get_highest_role
  is_owner none = false
  is_owner (some m) = m.role == get_highest_role config

  -- Whether it throws.
  unfoldable pub assert_not_last_owner : Text → Text → M → Bool
  unfolding get_active_membership is_owner get_highest_role
  assert_not_last_owner tenant user m =
      leb (model.count_documents m (active_with (get_highest_role config) tenant)) 1
      && is_owner (get_active_membership tenant user m)

  unfoldable pub blank_of : Text → Text → Option Rejected
  blank_of tenant user =
      if is_blank tenant then some empty_tenant else if is_blank user then some empty_user else none

  -- The result of an update, after which the guard forgets the user.
  unfoldable pub finish : Text → World M → M × Option Member → World M × Outcome
  finish user w (m, none) = (record w { members = m }, rejected membership_not_found)
  finish user w (m, some r) = (record w { members = m; invalidated = user ∷ w.invalidated }, done r)

  -- Mongoose leaves a field alone whose new value is undefined.
  abbrev pub joined : Text → Option Text → ℕ → Member → Member
  joined role invited_by now m = record m {
    role = role;
    status = active;
    invited_by = elim invited_by [ none ↦ m.invited_by | some id ↦ some id ];
    joined_at = now;
  }

  unfoldable pub reactivate : Text → World M → M × Option Member → World M × Outcome
  reactivate user w (m, none) =
      (record w { members = m; invalidated = user ∷ w.invalidated }, no_document)
  reactivate user w (m, some r) =
      (record w { members = m; invalidated = user ∷ w.invalidated }, done r)

  -- A membership that is there already, or a new one.
  unfoldable pub admit :
      Text → Text → Text → Option Text → ℕ → Option Member → World M → World M × Outcome
  admit tenant user role invited_by now (some existing) w =
      if is_active existing.status
      then (w, rejected already_active)
      else reactivate user w
          (model.find_one_and_update w.members (of_user tenant user) (joined role invited_by now))
  admit tenant user role invited_by now none w =
      let m : Member = record {
        tenant = tenant;
        user = user;
        role = role;
        status = active;
        invited_by = invited_by;
        joined_at = now;
      } in
      (record w { members = model.create w.members m; invalidated = user ∷ w.invalidated }, done m)

  unfoldable pub add_member :
      Text → Text → Option Text → Option Text → ℕ → World M → World M × Outcome
  unfolding get_membership blank_of admit get_default_role assert_assignable_membership_role
  add_member tenant user role invited_by now w =
      let effective_role = or_else role (get_default_role config) in
      elim (blank_of tenant user) [
        | some reason ↦ (w, rejected reason)
        | none ↦ elim (assert_assignable_membership_role config effective_role) [
          | some reason ↦ (w, rejected (not_assignable reason))
          | none ↦
              admit tenant user effective_role invited_by now (get_membership tenant user w.members)
                w
        ]
      ]

  unfoldable pub remove_member : Text → Text → World M → World M × Outcome
  unfolding blank_of assert_not_last_owner finish
  remove_member tenant user w = elim (blank_of tenant user) [
    | some reason ↦ (w, rejected reason)
    | none ↦
        if assert_not_last_owner tenant user w.members
        then (w, rejected last_owner)
        else finish user w (
            model.find_one_and_update w.members (active_of tenant user)
              (λ m. record m { status = suspended }))
  ]

  unfoldable pub update_member_role : Text → Text → Text → World M → World M × Outcome
  unfolding blank_of assert_not_last_owner finish get_active_membership is_owner get_highest_role
      assert_assignable_membership_role
  update_member_role tenant user role w = elim (blank_of tenant user) [
    | some reason ↦ (w, rejected reason)
    | none ↦
        if is_blank role
        then (w, rejected empty_role)
        else elim (assert_assignable_membership_role config role) [
          | some reason ↦ (w, rejected (not_assignable reason))
          | none ↦
              if is_owner (get_active_membership tenant user w.members)
                && not (role == get_highest_role config)
                && assert_not_last_owner tenant user w.members
              then (w, rejected last_owner)
              else finish user w (
                  model.find_one_and_update w.members (active_of tenant user)
                    (λ m. record m { role = role }))
        ]
  ]

-- The requests that the service gets.
pub data Operation : Type 0 where
  add : (tenant user : Text) (role invited_by : Option Text) (now : ℕ) → Operation
  remove : (tenant user : Text) → Operation
  update_role : (tenant user role : Text) → Operation

module _ {M : Type 0} (model : MemberModel M) (config : Option MultiTenancy) where
  unfoldable pub serve : Operation → World M → World M × Outcome
  unfolding add_member remove_member update_member_role
  serve (add tenant user role invited_by now) w =
      add_member model config tenant user role invited_by now w
  serve (remove tenant user) w = remove_member model config tenant user w
  serve (update_role tenant user role) w = update_member_role model config tenant user role w

  unfoldable pub serve_all : List Operation → World M → World M
  unfolding serve
  serve_all [] w = w
  serve_all (operation ∷ operations) w = serve_all operations (serve operation w).0
