-- ===== src/Tenant/Membership/Members/Kept.antt =====
-- What a write of the service must keep: one membership a user, roles that may be assigned, an owner.
use mathlib.Core.Path.{subst}
use nest_server.Prelude.{
  ◌+◌, ◌≤◌, ◌≡◌, refl, sym, ap, ◌∙◌, Bool, true, false, Option, List, [], ◌∷◌, ◌++◌, arith,
  Bool-cases, Option-cases, inl, inr, Text, text_eq, text_beq_iff, is_some,
}
use nest_server.Tenant.Config.{MultiTenancy}
use nest_server.Tenant.Membership.{get_highest_role, assert_assignable_membership_role}
use nest_server.Tenant.Membership.Members.{
  Member, Query, of_user, active_with, count, IsAnswer, MemberModel, MemberLaws,
}
use nest_server.Tenant.Membership.Members.Counting.{
  bit, count-middle, count-append_one, count_of_answer,
}

abbrev pub unassignable : Option MultiTenancy → Query
unassignable config m = is_some (assert_assignable_membership_role config m.role)

-- A user has one membership in a tenant at most.
abbrev pub IsUnique : List Member → Type 0
IsUnique rows = (tenant user : Text) → count (of_user tenant user) rows ≤ 1

-- A user has one membership in a tenant at most, and all roles may be assigned.
abbrev pub IsSound : Option MultiTenancy → List Member → Type 0
IsSound config rows = IsUnique rows × (count (unassignable config) rows ≡ 0)

-- The tenant has an active member with the highest role.
abbrev pub IsOwned : Option MultiTenancy → Text → List Member → Type 0
IsOwned config tenant rows = 1 ≤ count (active_with (get_highest_role config) tenant) rows

pub change-count :
    (q : Query) (rows rows' before after : List Member) (old new : Member)
    → rows ≡ before ++ (old ∷ after)
    → rows' ≡ before ++ (new ∷ after)
    → count q rows' + bit (q old) ≡ count q rows + bit (q new)
change-count q rows rows' before after old new e e' =
    rw (e, e') (omega (arith, count-middle q before after old, count-middle q before after new))

pub bit_of : (b c : Bool) → b ≡ c → bit b ≡ bit c
bit_of b c e = ap bit e

-- What an operation does to the invariants.
pub record IsKept (config : Option MultiTenancy) (tenant : Text) (rows rows' : List Member)
    : Type 0 where
  pub sound : IsSound config rows'
  pub owned : IsOwned config tenant rows → IsOwned config tenant rows'

module _ {M : Type 0} {model : MemberModel M} (laws : MemberLaws M model)
    (config : Option MultiTenancy) (t : Text) where
  abbrev pub owns : Query
  owns = active_with (get_highest_role config) t

  abbrev pub Kept : M → M → Type 0
  Kept m m' = IsKept config t (laws.rows m) (laws.rows m')

  fine_answer :
      (q : Query) (rows : List Member) (old : Member)
      → IsSound config rows
      → IsAnswer q rows old
      → unassignable config old ≡ false
  fine_answer q rows old sound answer = elim (Bool-cases (unassignable config old)) [
    | inl bad ↦
        absurd (omega (arith, sound.1, count_of_answer q (unassignable config) rows old answer bad))
    | inr fine ↦ fine
  ]

  -- An update that keeps tenant and user and sets a role that may be assigned, if it takes the role
  -- or the activity of an owner only where there is another one.
  pub update-Kept :
      (m : M) (q : Query) (change : Member → Member)
      → IsSound config (laws.rows m)
      → ((x : Member) → (change x).tenant ≡ x.tenant)
      → ((x : Member) → (change x).user ≡ x.user)
      → ((x : Member) → unassignable config x ≡ false → unassignable config (change x) ≡ false)
      → ((old : Member)
          → IsAnswer q (laws.rows m) old
          → owns old ≡ true
          → owns (change old) ≡ false
          → 2 ≤ count owns (laws.rows m))
      → Kept m (model.find_one_and_update m q change).0
  update-Kept m q change sound same_tenant same_user assignable another =
      elim (Option-cases ((model.find_one_and_update m q change).1)) [
        | inl missed ↦
            let (nothing, same) = laws.not_updated m q change missed in
            record {
              sound = subst (IsSound config) (sym same) sound;
              owned = λ owned. subst (IsOwned config t) (sym same) owned;
            }
        | inr (r, hit) ↦
            let (old, before, after, e, answers, result, e') = laws.updated m q change r hit in
            let answer : IsAnswer q (laws.rows m) old = (before, after, e, answers) in
            let change_of = λ (p : Query). change-count p _ _ before after old (change old) e e' in
            record {
              sound = (
                λ tenant user. omega (
                  arith,
                  sound.0 tenant user,
                  change_of (of_user tenant user),
                  bit_of (of_user tenant user (change old)) (of_user tenant user old)
                      (rw (same_tenant old, same_user old) refl),
                ),
                omega (
                  arith,
                  sound.1,
                  change_of (unassignable config),
                  bit_of (unassignable config (change old)) false
                      (assignable old (fine_answer q (laws.rows m) old sound answer)),
                ),
              );
              owned = λ owned. elim (Bool-cases (owns old)) [
                | inr other ↦ omega (arith, owned, change_of owns, bit_of (owns old) false other)
                | inl owner ↦ elim (Bool-cases (owns (change old))) [
                  | inl still ↦ omega (
                    arith,
                    owned,
                    change_of owns,
                    bit_of (owns old) (owns (change old)) (owner ∙ sym still),
                  )
                  | inr lost ↦ omega (
                    arith,
                    another old answer owner lost,
                    change_of owns,
                    bit_of (owns old) true owner,
                  )
                ]
              ];
            }
      ]

  pub same-Kept : (m : M) → IsSound config (laws.rows m) → Kept m m
  same-Kept m sound = record { sound = sound; owned = λ owned. owned }

  pub create-Kept :
      (m : M) (r : Member)
      → IsSound config (laws.rows m)
      → count (of_user r.tenant r.user) (laws.rows m) ≡ 0
      → unassignable config r ≡ false
      → Kept m (model.create m r)
  create-Kept m r sound absent fine = record {
    sound = (
      λ tenant user. rw (laws.created m r) (one tenant user),
      rw (laws.created m r) (
          omega (
            arith,
            sound.1,
            count-append_one (unassignable config) (laws.rows m) r,
            bit_of (unassignable config r) false fine,
          )),
    );
    owned = λ owned.
        rw (laws.created m r) (omega (arith, owned, count-append_one owns (laws.rows m) r));
  }
    where
      one : (tenant user : Text) → count (of_user tenant user) (laws.rows m ++ (r ∷ [])) ≤ 1
      one tenant user = elim (Bool-cases (of_user tenant user r)) [
        | inl same ↦
            let here : count (of_user tenant user) (laws.rows m) ≡ 0 =
              rw
                (
                  sym ((text_beq_iff r.tenant tenant).0 (ground (arith, same))),
                  sym ((text_beq_iff r.user user).0 (ground (arith, same))),
                )
                absent in
            omega (
              arith,
              here,
              count-append_one (of_user tenant user) (laws.rows m) r,
              bit_of (of_user tenant user r) true same,
            )
        | inr other ↦ omega (
          arith,
          sound.0 tenant user,
          count-append_one (of_user tenant user) (laws.rows m) r,
          bit_of (of_user tenant user r) false other,
        )
      ]
