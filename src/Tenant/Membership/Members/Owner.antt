-- ===== src/Tenant/Membership/Members/Owner.antt =====
-- The owners of a tenant, and the roles of its members.
use nest_server.Tenant.Membership.Members.Kept.{
  IsSound, IsOwned, Kept, update-Kept, same-Kept, create-Kept,
}
use nest_server.Tenant.Membership.Members.LastOwner.{
  owner_seen, another_owner, blank_of-none, finish-members, reactivate-members,
}
use nest_server.Prelude.{
  ℕ, ◌≡◌, refl, not, ◌&&◌, Option, none, some, List, [], ◌∷◌, arith, Bool-cases, Option-cases, inl,
  inr, Text, text_eq, ◌==◌, or_else,
}
use nest_server.Tenant.Config.{MultiTenancy}
use nest_server.Tenant.Membership.{
  get_highest_role, get_default_role, assert_assignable_membership_role,
}
use nest_server.Tenant.Membership.Members.{
  Member, active, suspended, is_active, of_user, active_of, MemberModel, MemberLaws, World,
  get_membership, get_active_membership, is_owner, assert_not_last_owner, blank_of, is_blank,
  joined, admit, add_member, remove_member, update_member_role, Operation, add, remove, update_role,
  serve, serve_all,
}
use nest_server.Tenant.Membership.Members.Counting.{same_answer}

module _ {M : Type 0} {model : MemberModel M} (laws : MemberLaws M model)
    (config : Option MultiTenancy) (t : Text) where
  remove-Kept :
      (tenant user : Text) (w : World M)
      → IsSound config (laws.rows w.members)
      → Kept laws config t w.members (remove_member model config tenant user w).0.members
  unfolding remove_member
  remove-Kept tenant user w sound = elim (Option-cases (blank_of model config tenant user)) [
    | inr (reason, e) ↦ rw (e, remove_member) (same-Kept laws config t w.members sound)
    | inl given ↦ elim (Bool-cases (assert_not_last_owner model config tenant user w.members)) [
      | inl last ↦ rw (given, remove_member, last) (same-Kept laws config t w.members sound)
      | inr allowed ↦
          let (tenant_given, user_given) = blank_of-none laws config t tenant user given in
          rw
            (
              given,
              remove_member,
              allowed,
              finish-members laws config t user w (
                  model.find_one_and_update w.members (active_of tenant user)
                    (λ m. record m { status = suspended })),
            )
            (update-Kept laws config t w.members (active_of tenant user)
              (λ m. record m { status = suspended }) sound (λ x. refl) (λ x. refl) (λ x fine. fine)
              (λ old answer owner lost.
                another_owner laws config t tenant user w.members old sound tenant_given user_given
                  allowed answer owner))
    ]
  ]

  update_role-Kept :
      (tenant user role : Text) (w : World M)
      → IsSound config (laws.rows w.members)
      → Kept laws config t w.members (update_member_role model config tenant user role w).0.members
  unfolding update_member_role
  update_role-Kept tenant user role w sound =
      elim (Option-cases (blank_of model config tenant user)) [
        | inr (reason, e) ↦ rw (e, update_member_role) (same-Kept laws config t w.members sound)
        | inl given ↦ elim (Bool-cases (is_blank role)) [
          | inl empty ↦
              rw (given, update_member_role, empty) (same-Kept laws config t w.members sound)
          | inr text_given ↦ elim (Option-cases (assert_assignable_membership_role config role)) [
            | inr (reason, e) ↦
                rw (given, update_member_role, text_given, e)
                  (same-Kept laws config t w.members sound)
            | inl assignable ↦
                let demotes =
                  is_owner model config (get_active_membership model config tenant user w.members)
                  && not (role == get_highest_role config)
                  && assert_not_last_owner model config tenant user w.members in
                elim (Bool-cases demotes) [
                  | inl last ↦
                      rw (given, update_member_role, text_given, assignable, last)
                        (same-Kept laws config t w.members sound)
                  | inr allowed ↦
                      let (tenant_given, user_given) =
                        blank_of-none laws config t tenant user given in
                      rw
                        (
                          given,
                          update_member_role,
                          text_given,
                          assignable,
                          allowed,
                          finish-members laws config t user w (
                              model.find_one_and_update w.members (active_of tenant user)
                                (λ m. record m { role = role })),
                        )
                        (update-Kept laws config t w.members (active_of tenant user)
                          (λ m. record m { role = role }) sound (λ x. refl) (λ x. refl)
                          (λ x fine. rw assignable refl)
                          (λ old answer owner lost.
                            let seen =
                              owner_seen laws config t tenant user w.members old sound tenant_given
                                user_given answer (ground (arith, owner)) in
                            another_owner laws config t tenant user w.members old sound tenant_given
                              user_given (ground (arith, seen, allowed, lost, owner)) answer owner))
                ]
          ]
        ]
      ]

  admit-Kept :
      (tenant user role : Text) (invited_by : Option Text) (now : ℕ) (w : World M)
      → IsSound config (laws.rows w.members)
      → assert_assignable_membership_role config role ≡ none
      → (existing : Option Member) → model.find_one w.members (of_user tenant user) ≡ existing
      → Kept laws config t w.members
          (admit model config tenant user role invited_by now existing w).0.members
  unfolding admit
  admit-Kept tenant user role invited_by now w sound assignable none found =
      create-Kept laws config t w.members
        (record {
          tenant = tenant;
          user = user;
          role = role;
          status = active;
          invited_by = invited_by;
          joined_at = now;
        })
        sound (laws.not_found w.members (of_user tenant user) found) (rw assignable refl)
  admit-Kept tenant user role invited_by now w sound assignable (some existing) found =
      elim (Bool-cases (is_active existing.status)) [
        | inl already ↦ rw (already, admit) (same-Kept laws config t w.members sound)
        | inr gone ↦
            rw
              (
                gone,
                admit,
                reactivate-members laws config t user w (
                    model.find_one_and_update w.members (of_user tenant user)
                      (joined model config role invited_by now)),
              )
              (update-Kept laws config t w.members (of_user tenant user)
                (joined model config role invited_by now) sound (λ x. refl) (λ x. refl)
                (λ x fine. rw assignable refl)
                (λ old answer owner lost.
                  let seen = laws.found w.members (of_user tenant user) existing found in
                  let still =
                    same_answer (of_user tenant user) (of_user tenant user) (of_user tenant user)
                      (λ m. is_active m.status) (laws.rows w.members) old existing
                      (sound.0 tenant user) answer seen answer.3 seen.3 (ground (arith, owner)) in
                  absurd (cc (still, gone))))
      ]

  add-Kept :
      (tenant user : Text) (role invited_by : Option Text) (now : ℕ) (w : World M)
      → IsSound config (laws.rows w.members)
      → Kept laws config t w.members
          (add_member model config tenant user role invited_by now w).0.members
  unfolding add_member get_membership
  add-Kept tenant user role invited_by now w sound =
      elim (Option-cases (blank_of model config tenant user)) [
        | inr (reason, e) ↦ rw (e, add_member) (same-Kept laws config t w.members sound)
        | inl given ↦
            elim (Option-cases
              (assert_assignable_membership_role config (or_else role (get_default_role config)))) [
                | inr (reason, e) ↦
                    rw (given, add_member, e) (same-Kept laws config t w.members sound)
                | inl assignable ↦
                    rw (given, add_member, assignable)
                      (admit-Kept tenant user (or_else role (get_default_role config)) invited_by
                        now w sound assignable (model.find_one w.members (of_user tenant user))
                        refl)
              ]
      ]

  serve-Kept :
      (operation : Operation) (w : World M)
      → IsSound config (laws.rows w.members)
      → Kept laws config t w.members (serve model config operation w).0.members
  unfolding serve
  serve-Kept (add tenant user role invited_by now) w sound =
      add-Kept tenant user role invited_by now w sound
  serve-Kept (remove tenant user) w sound = remove-Kept tenant user w sound
  serve-Kept (update_role tenant user role) w sound = update_role-Kept tenant user role w sound

  -- Whatever members are added, removed and given other roles, one request after the other: each user
  -- keeps one membership in a tenant at most, all roles are ones that may be assigned, and a tenant
  -- that has an active member with the highest role still has one.
  pub serve_all-IsOwned :
      (operations : List Operation) (w : World M)
      → IsSound config (laws.rows w.members)
      → IsOwned config t (laws.rows w.members)
      → IsSound config (laws.rows (serve_all model config operations w).members)
        × IsOwned config t (laws.rows (serve_all model config operations w).members)
  unfolding serve_all
  serve_all-IsOwned [] w sound owned = (sound, owned)
  serve_all-IsOwned (operation ∷ operations) w sound owned =
      let kept = serve-Kept operation w sound in
      serve_all-IsOwned operations (serve model config operation w).0 kept.sound (kept.owned owned)
