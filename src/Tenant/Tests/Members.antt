-- ===== src/Tenant/Tests/Members.antt =====
-- The theorems on the memberships at concrete inputs: a collection that is a list.
use nest_server.Prelude.{
  is_space, text_beq, to_lower_case, trim, ◌≤◌, ◌≡◌, refl, ap, true, Option, none, some, List, [],
  ◌∷◌, ◌++◌, filter, arith, if◌then◌else◌, Bool-cases, inl, inr, Text, text, text_eq,
}
use nest_server.Role.{looks_like_global_only_role, looks_like_system_role}
use nest_server.Tenant.Config.{get_role_hierarchy}
use nest_server.Tenant.Membership.{
  assert_assignable_membership_role, is_undeclared, reduce_or, get_highest_role,
}
use mathlib.Core.Path.{subst}
use nest_server.Tenant.Membership.Members.{
  Member, active, Query, of_user, count, IsAnswer, MemberModel, MemberLaws, World,
  get_active_membership, remove_member, Operation, add, remove, update_role, serve_all,
}
use nest_server.Tenant.Membership.Members.Kept.{IsSound, IsUnique, IsOwned}
use nest_server.Tenant.Membership.Members.Owner.{serve_all-IsOwned}
use nest_server.Tenant.Membership.Members.Removed.{remove_member-gone}

find_first : List Member → Query → Option Member
find_first [] q = none
find_first (m ∷ rows) q = let rest = find_first rows q in if q m then some m else rest

update_first : List Member → Query → (Member → Member) → List Member × Option Member
update_first [] q change = ([], none)
update_first (m ∷ rows) q change =
    let rest = update_first rows q change in
    if q m then (change m ∷ rows, some (change m)) else (m ∷ rest.0, rest.1)

abbrev list_model : MemberModel (List Member)
list_model = record {
  find_one = find_first;
  find_one_and_update = update_first;
  count_documents = λ rows q. count q rows;
  create = λ rows m. rows ++ (m ∷ []);
}

list_found :
    (rows : List Member) (q : Query) (r : Member) → find_first rows q ≡ some r → IsAnswer q rows r
unfolding find_first
list_found [] q r h = cc h
list_found (m ∷ rows) q r h = elim (Bool-cases (q m)) [
  | inl here ↦
      let first : some m ≡ some r = rw here at h in
      let same : m ≡ r = cc first in
      ([], rows, ap (λ x. x ∷ rows) same, subst (λ x. q x ≡ true) same here)
  | inr there ↦
      let (before, after, e, answers) = list_found rows q r (rw there at h) in
      (m ∷ before, after, ap (λ xs. m ∷ xs) e, answers)
]

list_not_found : (rows : List Member) (q : Query) → find_first rows q ≡ none → count q rows ≡ 0
unfolding find_first filter
list_not_found [] q h = refl
list_not_found (m ∷ rows) q h = ground (arith, list_not_found rows q)

abbrev Updates : List Member → Query → (Member → Member) → Member → List Member → Type 0
Updates rows q change r rows' =
    (old : Member) × (before : List Member) × (after : List Member) × (rows
      ≡ before ++ (old ∷ after))
    × (q old ≡ true)
    × (r ≡ change old)
    × (rows' ≡ before ++ (change old ∷ after))

list_updated :
    (rows : List Member) (q : Query) (change : Member → Member) (r : Member)
    → (update_first rows q change).1 ≡ some r
    → Updates rows q change r (update_first rows q change).0
unfolding update_first
list_updated [] q change r h = cc h
list_updated (m ∷ rows) q change r h = elim (Bool-cases (q m)) [
  | inl here ↦
      let first : some (change m) ≡ some r = rw here at h in
      (m, [], rows, refl, here, cc first, rw here refl)
  | inr there ↦
      let (old, before, after, e, answers, result, e') =
        list_updated rows q change r (rw there at h) in
      (
        old,
        m ∷ before,
        after,
        ap (λ xs. m ∷ xs) e,
        answers,
        result,
        rw there (ap (λ xs. m ∷ xs) e'),
      )
]

list_not_updated :
    (rows : List Member) (q : Query) (change : Member → Member)
    → (update_first rows q change).1 ≡ none
    → (count q rows ≡ 0) × ((update_first rows q change).0 ≡ rows)
unfolding update_first filter
list_not_updated [] q change h = (refl, refl)
list_not_updated (m ∷ rows) q change h = ground (arith, list_not_updated rows q change)

abbrev list_laws : MemberLaws (List Member) list_model
list_laws = record {
  rows = λ rows. rows;
  found = list_found;
  not_found = list_not_found;
  updated = list_updated;
  not_updated = list_not_updated;
  counted = λ rows q. refl;
  created = λ rows r. refl;
}

abbrev acme : Text
acme = text "t"

abbrev ann : Text
ann = text "a"

abbrev bob : Text
bob = text "b"

-- Ann owns the tenant.
abbrev ann_owns : Member
ann_owns = record {
  tenant = acme;
  user = ann;
  role = text "owner";
  status = active;
  invited_by = none;
  joined_at = 0;
}

abbrev world : World (List Member)
world = record { members = ann_owns ∷ []; invalidated = [] }

one_row : (m : Member) (q : Query) → count q (m ∷ []) ≤ 1
unfolding filter
one_row m q = ground arith

world-IsSound : IsSound none (ann_owns ∷ [])
unfolding filter assert_assignable_membership_role looks_like_system_role to_lower_case trim
    is_space looks_like_global_only_role text_beq is_undeclared
world-IsSound = (λ tenant user. one_row ann_owns (of_user tenant user), refl)

-- Bob becomes an owner, Ann a member, and then Bob cannot be removed.
abbrev requests : List Operation
requests =
    add acme bob (some (text "owner")) (some ann) 5
    ∷ update_role acme ann (text "member")
    ∷ remove acme bob
    ∷ []

serve_all-IsOwned_example :
    IsSound none (serve_all list_model none requests world).members
    × IsOwned none acme (serve_all list_model none requests world).members
unfolding filter text_beq text get_highest_role reduce_or get_role_hierarchy
serve_all-IsOwned_example =
    serve_all-IsOwned list_laws none acme requests world world-IsSound (omega arith)

abbrev with_member : World (List Member)
with_member = record { members = record ann_owns { role = text "member" } ∷ []; invalidated = [] }

with_member-IsUnique : IsUnique with_member.members
unfolding filter assert_assignable_membership_role looks_like_system_role to_lower_case trim
    is_space looks_like_global_only_role text_beq is_undeclared
with_member-IsUnique =
    λ tenant user. one_row (record ann_owns { role = text "member" }) (of_user tenant user)

remove_member-gone_example :
    (get_active_membership list_model none acme ann
        (remove_member list_model none acme ann with_member).0.members
      ≡ none)
    × ((remove_member list_model none acme ann with_member).0.invalidated ≡ ann ∷ [])
unfolding remove_member trim text is_space filter text_beq reduce_or get_role_hierarchy find_first
    update_first
remove_member-gone_example =
    remove_member-gone list_laws none acme ann with_member _ with_member-IsUnique refl
