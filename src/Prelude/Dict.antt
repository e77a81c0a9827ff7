-- ===== src/Prelude/Dict.antt =====
-- `Map`: an association list in insertion order, in which a key stands once.
use Prim.Native.Nat.{ℕ, zero, suc, ◌≤◌, ◌+◌}
use mathlib.Core.Path.{◌≡◌, refl, sym, subst, subst₂}
use mathlib.Core.Bool.{Bool}
use mathlib.Core.Logic.{inl, inr}
use mathlib.Core.Option.{Option, none, some, some-injective, none-ne-some}
use mathlib.Core.List.{List, [], ◌∷◌}
use native.Mathlib.Omega.{arith}
use nest_server.Prelude.Tests.{Equality, ◌==◌, if◌then◌else◌, is_some, Bool-cases}
use nest_server.Prelude.Lists.{length, filter, drop}

abbrev pub Dict {ℓ κ} : Type ℓ → Type κ → Type (ℓ ⊔ κ)
Dict K V = List (K × V)

module _ {ℓ κ} {K : Type ℓ} {V : Type κ} ⦃e : Equality K⦄ where
  -- m.get(k)
  unfoldable pub get : Dict K V → K → Option V
  get [] k = none
  get ((j, v) ∷ m) k = if j == k then some v else get m k

  -- m.set(k, v): an old key keeps its place, a new one goes to the end
  unfoldable pub set : Dict K V → K → V → Dict K V
  set [] k v = (k, v) ∷ []
  set ((j, w) ∷ m) k v = let rest = set m k v in if j == k then (j, v) ∷ m else (j, w) ∷ rest

  -- m.delete(k)
  unfoldable pub delete : Dict K V → K → Dict K V
  delete [] k = []
  delete ((j, w) ∷ m) k = let rest = delete m k in if j == k then rest else (j, w) ∷ rest

  pub get-set :
      (m : Dict K V) (k j : K) (v : V) → get (set m k v) j ≡ (if k == j then some v else get m j)
  unfolding get set
  get-set [] k j v = refl
  get-set ((i, w) ∷ m) k j v =
      ground (arith, get-set m k j v, e.test_iff i k, e.test_iff i j, e.test_iff k j)

  pub get-delete :
      (m : Dict K V) (k j : K) → get (delete m k) j ≡ (if k == j then none else get m j)
  unfolding get delete
  get-delete [] k j = ground arith
  get-delete ((i, w) ∷ m) k j =
      ground (arith, get-delete m k j, e.test_iff i k, e.test_iff i j, e.test_iff k j)

  pub length-set :
      (m : Dict K V) (k : K) (v : V)
      → length (set m k v) ≡ (if is_some (get m k) then length m else length m + 1)
  unfolding get set
  length-set [] k v = omega arith
  length-set ((j, w) ∷ m) k v = ground (arith, length-set m k v)

  pub length-delete : (m : Dict K V) (k : K) → length (delete m k) ≤ length m
  unfolding delete
  length-delete [] k = omega arith
  length-delete ((j, w) ∷ m) k = ground (arith, length-delete m k)

-- What holds of every entry.
module _ {ℓ κ μ} {K : Type ℓ} {V : Type κ} ⦃e : Equality K⦄ (P : K → V → Type μ) where
  abbrev pub Every : Dict K V → Type μ
  Every [] = Unit
  Every ((k, v) ∷ m) = P k v × Every m

  pub Every-get : (m : Dict K V) (k : K) {v : V} → Every m → get m k ≡ some v → P k v
  unfolding get
  Every-get [] k h p = absurd (none-ne-some _ p)
  Every-get ((j, w) ∷ m) k {v} h p = elim (Bool-cases (j == k)) [
    | inl same ↦
        let key : j ≡ k = (e.test_iff j k).0 same in
        let value : w ≡ v = some-injective _ _ (rw same at p) in subst₂ P key value h.0
    | inr other ↦ Every-get m k h.1 (rw other at p)
  ]

  pub Every-set : (m : Dict K V) (k : K) (v : V) → Every m → P k v → Every (set m k v)
  unfolding set
  Every-set [] k v h p = (p, tt)
  Every-set ((j, w) ∷ m) k v h p = elim (Bool-cases (j == k)) [
    | inl same ↦
        let key : j ≡ k = (e.test_iff j k).0 same in rw same (subst (λ i. P i v) (sym key) p, h.1)
    | inr other ↦ rw other (h.0, Every-set m k v h.1 p)
  ]

  pub Every-delete : (m : Dict K V) (k : K) → Every m → Every (delete m k)
  unfolding delete
  Every-delete [] k h = tt
  Every-delete ((j, w) ∷ m) k h = elim (Bool-cases (j == k)) [
    | inl same ↦ rw same (Every-delete m k h.1)
    | inr other ↦ rw other (h.0, Every-delete m k h.1)
  ]

  pub Every-filter : (p : K × V → Bool) (m : Dict K V) → Every m → Every (filter p m)
  unfolding filter
  Every-filter p [] h = tt
  Every-filter p ((j, w) ∷ m) h = elim (Bool-cases (p (j, w))) [
    | inl kept ↦ rw kept (h.0, Every-filter p m h.1)
    | inr gone ↦ rw gone (Every-filter p m h.1)
  ]

  pub Every-drop : (n : ℕ) (m : Dict K V) → Every m → Every (drop n m)
  Every-drop zero m h = h
  Every-drop (suc n) [] h = tt
  Every-drop (suc n) ((j, w) ∷ m) h = Every-drop n m h.1

module _ {ℓ κ} {K : Type ℓ} {V : Type κ} ⦃e : Equality K⦄ where
  -- A filter on keys is seen by `get`.
  pub get-filter_keys :
      (p : K → Bool) (m : Dict K V) (k : K)
      → get (filter (λ entry. p entry.0) m) k ≡ (if p k then get m k else none)
  unfolding get filter
  get-filter_keys p [] k = ground arith
  get-filter_keys p ((j, w) ∷ m) k = ground (arith, get-filter_keys p m k, e.test_iff j k)
