-- ===== src/Prelude/Lists.antt =====
-- Arrays: the methods that the program calls on them, with Boolean tests and native lengths.
use Prim.Native.Nat.{ℕ, zero, suc, ◌+◌, ◌-◌, ◌≤◌, ◌<◌}
use mathlib.Core.Path.{◌≡◌, refl}
use mathlib.Core.Logic.{inl, inr}
use mathlib.Core.Bool.{Bool, true, false, not, ◌&&◌, ◌||◌, false≢true}
use mathlib.Core.List.{List, [], ◌∷◌, ◌++◌, map}
use mathlib.Core.Option.{Option, none, some}
use native.Mathlib.Omega.{arith}
use nest_server.Prelude.Tests.{Equality, ◌==◌, if◌then◌else◌, Bool-cases, beq_refl}

module _ {ℓ} {A : Type ℓ} where
  abbrev pub length : List A → ℕ
  length [] = 0
  length (x ∷ xs) = suc (length xs)

  pub length-append : (xs ys : List A) → length (xs ++ ys) ≡ length xs + length ys
  length-append [] ys = omega arith
  length-append (x ∷ xs) ys = omega (arith, length-append xs ys)

  -- xs.filter(p)
  unfoldable pub filter : (A → Bool) → List A → List A
  filter p [] = []
  filter p (x ∷ xs) = let rest = filter p xs in if p x then x ∷ rest else rest

  -- xs.some(p)
  unfoldable pub any : (A → Bool) → List A → Bool
  any p [] = false
  any p (x ∷ xs) = p x || any p xs

  -- xs.every(p)
  unfoldable pub all : (A → Bool) → List A → Bool
  all p [] = true
  all p (x ∷ xs) = p x && all p xs

  abbrev pub is_empty : List A → Bool
  is_empty [] = true
  is_empty (x ∷ xs) = false

  pub length-filter : (p : A → Bool) (xs : List A) → length (filter p xs) ≤ length xs
  unfolding filter
  length-filter p [] = omega arith
  length-filter p (x ∷ xs) = ground (arith, length-filter p xs)

module _ {ℓ} {A : Type ℓ} ⦃e : Equality A⦄ where
  -- xs.includes(a)
  unfoldable pub includes : List A → A → Bool
  includes [] a = false
  includes (x ∷ xs) a = x == a || includes xs a

  pub includes-append :
      (xs ys : List A) (a : A) → includes (xs ++ ys) a ≡ includes xs a || includes ys a
  unfolding includes
  includes-append [] ys a = refl
  includes-append (x ∷ xs) ys a = ground (arith, includes-append xs ys a)

  pub includes-filter :
      (p : A → Bool) (xs : List A) (a : A) → includes (filter p xs) a ≡ includes xs a && p a
  unfolding includes filter
  includes-filter p [] a = refl
  includes-filter p (x ∷ xs) a = ground (arith, includes-filter p xs a, e.test_iff x a)

  -- What a successful `some` has found.
  pub any-witness :
      (p : A → Bool) (xs : List A)
      → any p xs ≡ true
      → (a : A) × (includes xs a ≡ true) × (p a ≡ true)
  unfolding any includes
  any-witness p [] h = absurd (cc h)
  any-witness p (x ∷ xs) h = elim (Bool-cases (p x)) [
    | inl found ↦ (x, ground (arith, beq_refl x), found)
    | inr missed ↦
        let (a, listed, good) = any-witness p xs (ground arith) in (a, ground arith, good)
  ]

  pub any_of_includes :
      (p : A → Bool) (xs : List A) (a : A) → includes xs a ≡ true → p a ≡ true → any p xs ≡ true
  unfolding any includes
  any_of_includes p [] a h k = cc
  any_of_includes p (x ∷ xs) a h k = ground (arith, any_of_includes p xs a, e.test_iff x a)

module _ {ℓ} {A : Type ℓ} where
  abbrev pub get_elem? : List A → ℕ → Option A
  get_elem? [] i = none
  get_elem? (x ∷ xs) zero = some x
  get_elem? (x ∷ xs) (suc i) = get_elem? xs i

  abbrev pub drop : ℕ → List A → List A
  drop zero xs = xs
  drop (suc n) [] = []
  drop (suc n) (x ∷ xs) = drop n xs

  abbrev pub take : ℕ → List A → List A
  take zero xs = []
  take (suc n) [] = []
  take (suc n) (x ∷ xs) = x ∷ take n xs

  pub drop-get_elem? :
      (xs : List A) (i : ℕ) {x : A} → get_elem? xs i ≡ some x → drop i xs ≡ x ∷ drop (suc i) xs
  drop-get_elem? [] i h = cc
  drop-get_elem? (y ∷ xs) zero h = cc
  drop-get_elem? (y ∷ xs) (suc i) h = drop-get_elem? xs i h

  pub drop-length : (xs : List A) → drop (length xs) xs ≡ []
  drop-length [] = refl
  drop-length (x ∷ xs) = drop-length xs

  pub get_elem?_of_lt : (xs : List A) (i : ℕ) → i < length xs → (x : A) × (get_elem? xs i ≡ some x)
  get_elem?_of_lt [] i h = elim h [ ]
  get_elem?_of_lt (x ∷ xs) zero h = (x, refl)
  get_elem?_of_lt (x ∷ xs) (suc i) h = get_elem?_of_lt xs i (omega arith)

  pub get_elem?-append_left :
      (xs ys : List A) (i : ℕ) → i < length xs → get_elem? (xs ++ ys) i ≡ get_elem? xs i
  get_elem?-append_left [] ys i h = elim h [ ]
  get_elem?-append_left (x ∷ xs) ys zero h = refl
  get_elem?-append_left (x ∷ xs) ys (suc i) h = get_elem?-append_left xs ys i (omega arith)

  pub get_elem?-append_length :
      (xs : List A) (y : A) → get_elem? (xs ++ y ∷ []) (length xs) ≡ some y
  get_elem?-append_length [] y = refl
  get_elem?-append_length (x ∷ xs) y = get_elem?-append_length xs y

  pub get_elem?-lt : (xs : List A) (i : ℕ) {x : A} → get_elem? xs i ≡ some x → i < length xs
  get_elem?-lt [] i h = cc
  get_elem?-lt (y ∷ xs) zero h = omega arith
  get_elem?-lt (y ∷ xs) (suc i) h = omega (arith, get_elem?-lt xs i h)

  pub drop_of_le : (xs : List A) (n : ℕ) → length xs ≤ n → drop n xs ≡ []
  drop_of_le [] zero h = refl
  drop_of_le [] (suc n) h = refl
  drop_of_le (x ∷ xs) zero h = absurd (omega arith)
  drop_of_le (x ∷ xs) (suc n) h = drop_of_le xs n (omega arith)

  pub drop-append_length : (xs ys : List A) → drop (length xs) (xs ++ ys) ≡ ys
  drop-append_length [] ys = refl
  drop-append_length (x ∷ xs) ys = drop-append_length xs ys

  pub length-drop : (n : ℕ) (xs : List A) → length (drop n xs) ≡ length xs - n
  length-drop zero xs = omega arith
  length-drop (suc n) [] = omega arith
  length-drop (suc n) (x ∷ xs) = omega (arith, length-drop n xs)

module _ {ℓ} {A : Type ℓ} where
  pub any_cong : (f g : A → Bool) (xs : List A) → ((x : A) → f x ≡ g x) → any f xs ≡ any g xs
  unfolding any
  any_cong f g [] h = refl
  any_cong f g (x ∷ xs) h = ground (arith, h x, any_cong f g xs h)

  pub any-or : (f g : A → Bool) (xs : List A) → any (λ x. f x || g x) xs ≡ any f xs || any g xs
  unfolding any
  any-or f g [] = refl
  any-or f g (x ∷ xs) = ground (arith, any-or f g xs)

  pub any-false : (xs : List A) → any (λ x. false) xs ≡ false
  unfolding any
  any-false [] = refl
  any-false (x ∷ xs) = any-false xs

  -- A search splits by a test into one among those that pass and one among the others.
  pub any-filter :
      (p f : A → Bool) (xs : List A)
      → any f xs ≡ any f (filter p xs) || any f (filter (λ x. not (p x)) xs)
  unfolding any filter
  any-filter p f [] = refl
  any-filter p f (x ∷ xs) = ground (arith, any-filter p f xs)

  pub any-filter_cong :
      (p f g : A → Bool) (xs : List A)
      → ((x : A) → p x ≡ true → f x ≡ g x)
      → any f (filter p xs) ≡ any g (filter p xs)
  unfolding any filter
  any-filter_cong p f g [] h = refl
  any-filter_cong p f g (x ∷ xs) h = ground (arith, h x, any-filter_cong p f g xs h)

  pub all-filter :
      (p q : A → Bool) (xs : List A)
      → all (λ x. q x || not (p x)) xs ≡ true
      → all q (filter p xs) ≡ true
  unfolding all filter
  all-filter p q [] h = refl
  all-filter p q (x ∷ xs) h = ground (arith, all-filter p q xs)

  pub is_empty-filter :
      (p : A → Bool) (xs : List A)
      → (is_empty (filter p xs) && is_empty (filter (λ x. not (p x)) xs)) ≡ is_empty xs
  unfolding filter
  is_empty-filter p [] = refl
  is_empty-filter p (x ∷ xs) = ground (arith, is_empty-filter p xs)

module _ {ℓ} {A : Type ℓ} ⦃e : Equality A⦄ where
  pub includes-any : (xs : List A) (a : A) → includes xs a ≡ any (λ x. x == a) xs
  unfolding includes any
  includes-any [] a = refl
  includes-any (x ∷ xs) a = ground (arith, includes-any xs a)

module _ {ℓ κ} {A : Type ℓ} {B : Type κ} where
  pub any-map : (p : B → Bool) (f : A → B) (xs : List A) → any p (map f xs) ≡ any (λ x. p (f x)) xs
  unfolding any
  any-map p f [] = refl
  any-map p f (x ∷ xs) = ground (arith, any-map p f xs)

  pub all-map : (p : B → Bool) (f : A → B) (xs : List A) → all p (map f xs) ≡ all (λ x. p (f x)) xs
  unfolding all
  all-map p f [] = refl
  all-map p f (x ∷ xs) = ground (arith, all-map p f xs)

module _ {ℓ} {A : Type ℓ} ⦃e : Equality A⦄ where
  -- What an empty `filter` says of a member.
  pub includes-filter_empty :
      (p : A → Bool) (xs : List A) (a : A)
      → is_empty (filter p xs) ≡ true
      → includes xs a ≡ true
      → p a ≡ false
  unfolding filter includes
  includes-filter_empty p [] a h k = absurd (false≢true k)
  includes-filter_empty p (x ∷ xs) a h k =
      ground (arith, includes-filter_empty p xs a, e.test_iff x a)

module _ {ℓ} {A : Type ℓ} where
  pub filter_of_all : (p : A → Bool) (xs : List A) → all p xs ≡ true → filter p xs ≡ xs
  unfolding filter all
  filter_of_all p [] h = refl
  filter_of_all p (x ∷ xs) h = ground (arith, filter_of_all p xs)

  pub filter-not_of_all :
      (p : A → Bool) (xs : List A) → all p xs ≡ true → filter (λ x. not (p x)) xs ≡ []
  unfolding filter all
  filter-not_of_all p [] h = refl
  filter-not_of_all p (x ∷ xs) h = ground (arith, filter-not_of_all p xs)
