-- ===== src/Restricted/Inversion.antt =====
-- What a result that is no exception says of the steps before it.
use nest_server.Prelude.{
  ◌≡◌, refl, Bool, true, false, ◌⊎◌, Option, none, some, Text, text_eq, if◌then◌else◌, inl, inr,
}
use nest_server.Restricted.Data.{Value, falsy, object, Fields}
use nest_server.Restricted.Check.{and_then}

pub and_then-some :
    {A B : Type 0} (o : Option A) (next : A → Option B) (b : B)
    → and_then o next ≡ some b
    → (a : A) × (o ≡ some a) × (next a ≡ some b)
unfolding and_then
and_then-some none next b h = absurd (cc h)
and_then-some (some a) next b h = (a, refl, h)

pub unless_some : {A : Type 0} (b : Bool) (x y : A) → (if b then none else some x) ≡ some y → x ≡ y
unless_some true x y h = absurd (cc h)
unless_some false x y h = cc h

pub otherwise_some :
    {A : Type 0} (b : Bool) (x y z : A)
    → b ≡ false
    → (if b then some x else some y) ≡ some z
    → y ≡ z
otherwise_some true x y z e h = absurd (cc e)
otherwise_some false x y z e h = cc h

-- What the check of an object returns: the object under its marker, null, or the object with the fields
-- that are kept.
pub object_inv :
    (noted refused throws : Bool) (class : Option Text) (marked : Bool) (fields : Fields)
    (kept : Option Fields) (v : Value)
    → (if noted
        then some (object class marked fields)
        else if refused
        then (if throws then none else some falsy)
        else and_then kept (λ k. some (object class marked k)))
      ≡ some v
    → ((noted ≡ true) × (v ≡ object class marked fields))
      ⊎ (((throws ≡ false) × (v ≡ falsy))
          ⊎ ((k : Fields) × (kept ≡ some k) × (v ≡ object class marked k)))
object_inv true refused throws class marked fields kept v h = inl (refl, cc h)
object_inv false true true class marked fields kept v h = absurd (cc h)
object_inv false true false class marked fields kept v h = inr (inl (refl, cc h))
object_inv false false throws class marked fields kept v h =
    let (k, e, made) = and_then-some kept _ v h in inr (inr (k, e, cc made))
