-- ===== src/Tenant/Membership/Members/Removed.antt =====
-- Members that were removed.
use nest_server.Prelude.{
  ◌≤◌, ◌≡◌, refl, sym, ap, ◌∙◌, true, ◌||◌, ◌⊎◌, Option, none, some, List, [], ◌∷◌, filter, arith,
  Bool-cases, Option-cases, inl, inr, Text, text_eq,
}
use nest_server.Tenant.Config.{MultiTenancy}
use nest_server.Tenant.Membership.Members.{
  Member, suspended, Query, of_user, active_of, count, MemberModel, MemberLaws, World, done,
  rejected, get_active_membership, assert_not_last_owner, blank_of, finish, remove_member, Rejected,
  last_owner, is_blank,
}
use nest_server.Tenant.Membership.Members.Counting.{count_of_answer}
use nest_server.Tenant.Membership.Members.Kept.{IsUnique, change-count, bit_of}

count-active_of :
    (tenant user : Text) (rows : List Member)
    → count (active_of tenant user) rows ≤ count (of_user tenant user) rows
unfolding filter
count-active_of tenant user [] = omega arith
count-active_of tenant user (m ∷ rows) = ground (arith, count-active_of tenant user rows)

module _ {M : Type 0} {model : MemberModel M} (laws : MemberLaws M model)
    (config : Option MultiTenancy) where
  none_found : (m : M) (q : Query) → count q (laws.rows m) ≡ 0 → model.find_one m q ≡ none
  none_found m q nothing = elim (Option-cases (model.find_one m q)) [
    | inl e ↦ e
    | inr (r, found) ↦
        let answer = laws.found m q r found in
        absurd (omega (arith, nothing, count_of_answer q q (laws.rows m) r answer answer.3))
  ]

  -- After the update of a removal nobody answers the query for the active member.
  none_active :
      (tenant user : Text) (m : M) (r : Member)
      → IsUnique (laws.rows m)
      → (model.find_one_and_update m
          (active_of tenant user)
          (λ m. record m { status = suspended })).1
        ≡ some r
      → count (active_of tenant user) (
          laws.rows
            (model.find_one_and_update m
              (active_of tenant user)
              (λ m. record m { status = suspended })).0)
        ≡ 0
  none_active tenant user m r unique hit =
      let (old, before, after, e, answers, result, e') =
        laws.updated m (active_of tenant user) (λ m. record m { status = suspended }) r hit in
      omega (
        arith,
        unique tenant user,
        count-active_of tenant user (laws.rows m),
        change-count (active_of tenant user) _ _ before after old
            (record old { status = suspended }) e e',
        bit_of (active_of tenant user old) true answers,
      )

  finish-done :
      (user : Text) (w : World M) (result : M × Option Member) (r : Member)
      → (finish model config user w result).1 ≡ done r
      → (result.1 ≡ some r)
        × ((finish model config user w result).0.members ≡ result.0)
        × ((finish model config user w result).0.invalidated ≡ user ∷ w.invalidated)
  unfolding finish
  finish-done user w (m, none) r h = cc h
  finish-done user w (m, some s) r h = (cc h, refl, refl)

  remove-cases :
      (tenant user : Text) (w : World M)
      → ((reason : Rejected) × (remove_member model config tenant user w ≡ (w, rejected reason)))
        ⊎ (remove_member model config tenant user w
            ≡ finish model config user w (
                model.find_one_and_update w.members
                  (active_of tenant user)
                  (λ m. record m { status = suspended })))
  unfolding remove_member
  remove-cases tenant user w = elim (Option-cases (blank_of model config tenant user)) [
    | inr (reason, e) ↦ inl (reason, rw (e, remove_member) refl)
    | inl given ↦ elim (Bool-cases (assert_not_last_owner model config tenant user w.members)) [
      | inl last ↦ inl (last_owner, rw (given, remove_member, last) refl)
      | inr allowed ↦ inr (rw (given, remove_member, allowed) refl)
    ]
  ]

  not_seen :
      (tenant user : Text) (m : M)
      → count (active_of tenant user) (laws.rows m) ≡ 0
      → get_active_membership model config tenant user m ≡ none
  unfolding get_active_membership
  not_seen tenant user m nothing =
      let e = none_found m (active_of tenant user) nothing in
      elim (Bool-cases (is_blank tenant || is_blank user)) [
        | inl blank ↦ rw blank refl
        | inr given ↦ rw (given, e) refl
      ]

  -- If each user has one membership in a tenant at most: once a member was removed, the service finds
  -- no active membership of the user in that tenant, and the guard was told to forget the user.
  pub remove_member-gone :
      (tenant user : Text) (w : World M) (r : Member)
      → IsUnique (laws.rows w.members)
      → (remove_member model config tenant user w).1 ≡ done r
      → (get_active_membership model config tenant user
            (remove_member model config tenant user w).0.members
          ≡ none)
        × ((remove_member model config tenant user w).0.invalidated ≡ user ∷ w.invalidated)
  remove_member-gone tenant user w r unique h = elim (remove-cases tenant user w) [
    | inl (reason, e) ↦ absurd (cc (h, ap (λ x. x.1) e))
    | inr e ↦
        let update =
          model.find_one_and_update w.members (active_of tenant user)
            (λ m. record m { status = suspended }) in
        let (hit, members, invalidated) = finish-done user w update r (sym (ap (λ x. x.1) e) ∙ h) in
        rw e (
          rw members (not_seen tenant user _ (none_active tenant user w.members r unique hit)),
          invalidated,
        )
  ]
