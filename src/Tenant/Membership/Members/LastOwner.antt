-- ===== src/Tenant/Membership/Members/LastOwner.antt =====
-- The rule of the last owner.
use nest_server.Tenant.Membership.Members.Kept.{IsSound, owns}
use nest_server.Prelude.{
  ◌≤◌, ◌≡◌, refl, sym, ap, ◌∙◌, true, false, Option, none, some, arith, Option-cases, inl, inr,
  Text, text_eq, text_beq_iff, ◌==◌,
}
use nest_server.Tenant.Config.{MultiTenancy}
use nest_server.Tenant.Membership.{get_highest_role}
use nest_server.Tenant.Membership.Members.{
  Member, of_user, active_of, active_with, count, IsAnswer, MemberModel, MemberLaws, World,
  get_active_membership, is_owner, assert_not_last_owner, blank_of, is_blank, finish, reactivate,
}
use nest_server.Tenant.Membership.Members.Counting.{count_of_answer, same_answer}

module _ {M : Type 0} {model : MemberModel M} (laws : MemberLaws M model)
    (config : Option MultiTenancy) (t : Text) where
  -- Whoever holds the owner's role and is active, the service finds as an owner.
  pub owner_seen :
      (tenant user : Text) (m : M) (old : Member)
      → IsSound config (laws.rows m)
      → is_blank tenant ≡ false
      → is_blank user ≡ false
      → IsAnswer (active_of tenant user) (laws.rows m) old
      → (old.role == get_highest_role config) ≡ true
      → is_owner model config (get_active_membership model config tenant user m) ≡ true
  unfolding get_active_membership is_owner
  owner_seen tenant user m old sound tenant_given user_given answer owner =
      elim (Option-cases (model.find_one m (active_of tenant user))) [
        | inl nobody ↦ absurd (
            omega (
              arith,
              laws.not_found m (active_of tenant user) nobody,
              count_of_answer (active_of tenant user) (active_of tenant user) (laws.rows m) old
                  answer answer.3,
            ))
        | inr (r, found) ↦
            let seen = laws.found m (active_of tenant user) r found in
            rw (tenant_given, user_given, found)
              (same_answer (active_of tenant user) (active_of tenant user) (of_user tenant user)
                (λ x. x.role == get_highest_role config) (laws.rows m) old r (sound.0 tenant user)
                answer seen (ground (arith, answer.3)) (ground (arith, seen.3)) owner)
      ]

  pub another_owner :
      (tenant user : Text) (m : M) (old : Member)
      → IsSound config (laws.rows m)
      → is_blank tenant ≡ false
      → is_blank user ≡ false
      → assert_not_last_owner model config tenant user m ≡ false
      → IsAnswer (active_of tenant user) (laws.rows m) old
      → owns laws config t old ≡ true
      → 2 ≤ count (owns laws config t) (laws.rows m)
  unfolding assert_not_last_owner
  another_owner tenant user m old sound tenant_given user_given allowed answer owner =
      let seen =
        owner_seen tenant user m old sound tenant_given user_given answer (ground (arith, owner)) in
      let same : tenant ≡ t =
        (sym ((text_beq_iff old.tenant tenant).0 (ground (arith, answer.3))))
        ∙ (text_beq_iff old.tenant t).0 (ground (arith, owner)) in
      let counted : model.count_documents m (active_with (get_highest_role config) tenant)
          ≡ count (owns laws config t) (laws.rows m) =
        laws.counted m (active_with (get_highest_role config) tenant)
        ∙ ap (λ tenant. count (active_with (get_highest_role config) tenant) (laws.rows m)) same in
      ground (arith, seen, counted, allowed)

  pub blank_of-none :
      (tenant user : Text)
      → blank_of model config tenant user ≡ none
      → (is_blank tenant ≡ false) × (is_blank user ≡ false)
  unfolding blank_of
  blank_of-none tenant user h = (ground (arith, h), ground (arith, h))

  pub finish-members :
      (user : Text) (w : World M) (result : M × Option Member)
      → (finish model config user w result).0.members ≡ result.0
  unfolding finish
  finish-members user w (m, none) = refl
  finish-members user w (m, some r) = refl

  pub reactivate-members :
      (user : Text) (w : World M) (result : M × Option Member)
      → (reactivate model config user w result).0.members ≡ result.0
  unfolding reactivate
  reactivate-members user w (m, none) = refl
  reactivate-members user w (m, some r) = refl
