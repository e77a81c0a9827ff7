-- ===== src/Tenant/Guard/Cache/Keys.antt =====
-- Cache keys, for user ids without a colon: which user a key belongs to, and that it tells tenants
-- apart.
use nest_server.Prelude.{
  ◌≡◌, ◌≢◌, refl, Bool, false, ◌||◌, Option, none, some, [], ◌∷◌, arith, Text, text_eq, text_beq,
  ◌==◌, starts_with,
}
use nest_server.Tenant.Config.{Number}
use nest_server.Tenant.Guard.Cache.{user_prefix, membership_key, tenant_ids_key, number_text}

abbrev pub NoColon : Text → Type 0
NoColon [] = Unit
NoColon (c ∷ s) = (c ≢ b':') × NoColon s

-- The test of `clear_user` on the keys of tenant ids.
abbrev pub belongs : Text → Text → Bool
belongs user_id key = key == user_id || starts_with key (user_prefix user_id)

pub membership_key_inj :
    (u v s t : Text)
    → NoColon u
    → NoColon v
    → membership_key u s ≡ membership_key v t
    → (u ≡ v) × (s ≡ t)
unfolding membership_key
membership_key_inj [] [] s t p q e = (refl, cc)
membership_key_inj [] (d ∷ v) s t p q e = absurd (q.0 (cc))
membership_key_inj (c ∷ u) [] s t p q e = absurd (p.0 (cc))
membership_key_inj (c ∷ u) (d ∷ v) s t p q e =
    let (same, rest) = membership_key_inj u v s t p.1 q.1 (cc) in (cc, rest)

-- A membership key starts with the prefix of its own user only.
pub starts_with-membership_key :
    (u v s : Text)
    → NoColon u
    → NoColon v
    → starts_with (membership_key v s) (user_prefix u) ≡ (v == u)
unfolding membership_key starts_with text_beq
starts_with-membership_key [] [] s p q = ground arith
starts_with-membership_key [] (d ∷ v) s p q = ground arith
starts_with-membership_key (c ∷ u) [] s p q = ground arith
starts_with-membership_key (c ∷ u) (d ∷ v) s p q = ground (arith, starts_with-membership_key u v s)

starts_with-NoColon : (u v : Text) → NoColon v → starts_with v (user_prefix u) ≡ false
unfolding starts_with
starts_with-NoColon [] [] q = refl
starts_with-NoColon [] (d ∷ v) q = ground arith
starts_with-NoColon (c ∷ u) [] q = refl
starts_with-NoColon (c ∷ u) (d ∷ v) q = ground (arith, starts_with-NoColon u v)

membership_key-ne : (u v s : Text) → NoColon u → (membership_key v s == u) ≡ false
unfolding membership_key text_beq
membership_key-ne [] [] s p = refl
membership_key-ne [] (d ∷ v) s p = refl
membership_key-ne (c ∷ u) [] s p = ground arith
membership_key-ne (c ∷ u) (d ∷ v) s p = ground (arith, membership_key-ne u v s)

-- A key of tenant ids belongs to its own user only.
pub belongs-tenant_ids_key :
    (u v : Text) (min_level : Option Number)
    → NoColon u
    → NoColon v
    → belongs u (tenant_ids_key v min_level) ≡ (v == u)
unfolding tenant_ids_key
belongs-tenant_ids_key u v none p q = ground (arith, starts_with-NoColon u v)
belongs-tenant_ids_key u v (some n) p q =
    unfold membership_key in
    ground (
      arith,
      membership_key-ne u v (number_text n) p,
      starts_with-membership_key u v (number_text n) p q,
    )
