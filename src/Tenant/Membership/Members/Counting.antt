-- ===== src/Tenant/Membership/Members/Counting.antt =====
-- How many documents answer a query before and after one of them changes.
use mathlib.Core.Path.{subst}
use nest_server.Prelude.{
  ℕ, ◌+◌, ◌≤◌, ◌≡◌, refl, sym, Bool, true, false, not, ◌&&◌, List, [], ◌∷◌, ◌++◌, filter, arith,
  Bool-cases, inl, inr,
}
use nest_server.Tenant.Membership.Members.{Member, Query, count, IsAnswer}

abbrev pub bit : Bool → ℕ
bit true = 1
bit false = 0

pub count-middle :
    (q : Query) (before after : List Member) (m : Member)
    → count q (before ++ (m ∷ after)) ≡ bit (q m) + count q (before ++ after)
unfolding filter
count-middle q [] after m = ground arith
count-middle q (x ∷ before) after m = ground (arith, count-middle q before after m)

pub count-append_one :
    (q : Query) (rows : List Member) (m : Member)
    → count q (rows ++ (m ∷ [])) ≡ count q rows + bit (q m)
unfolding filter
count-append_one q [] m = ground arith
count-append_one q (x ∷ rows) m = ground (arith, count-append_one q rows m)

pub count-split :
    (q g : Query) (rows : List Member)
    → count q rows ≡ count (λ m. q m && g m) rows + count (λ m. q m && not (g m)) rows
unfolding filter
count-split q g [] = refl
count-split q g (x ∷ rows) = ground (arith, count-split q g rows)

-- A document in the list is counted.
pub count_of_answer :
    (q p : Query) (rows : List Member) (m : Member)
    → IsAnswer q rows m
    → p m ≡ true
    → 1 ≤ count p rows
count_of_answer q p rows m (before, after, same, answers) h =
    rw same (omega (arith, count-middle p before after m, subst (λ b. bit b ≡ 1) (sym h) refl))

-- Two answers to a query with one answer at most agree on any test.
pub same_answer :
    (q r p g : Query) (rows : List Member) (a b : Member)
    → count p rows ≤ 1
    → IsAnswer q rows a
    → IsAnswer r rows b
    → p a ≡ true
    → p b ≡ true
    → g a ≡ true
    → g b ≡ true
same_answer q r p g rows a b one in_a in_b pa pb ga = elim (Bool-cases (g b)) [
  | inl yes_b ↦ yes_b
  | inr no_b ↦
      let with_g = count_of_answer q (λ m. p m && g m) rows a in_a (ground (arith, pa, ga)) in
      let without_g =
        count_of_answer r (λ m. p m && not (g m)) rows b in_b (ground (arith, pb, no_b)) in
      absurd (omega (arith, count-split p g rows, with_g, without_g, one))
]
