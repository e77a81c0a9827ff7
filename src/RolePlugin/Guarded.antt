-- ===== src/RolePlugin/Guarded.antt =====
-- What the operations that the plugin lets through do to stored roles.
use mathlib.Core.List.{append-nil}
use nest_server.Prelude.{
  ◌≡◌, refl, sym, ◌∙◌, ap, true, false, not, ◌&&◌, Bool, Option, none, some, List, [], ◌∷◌, ◌++◌,
  map, Text, text_eq, any, arith, Bool-cases, inl, inr, filter, includes,
}
use nest_server.RolePlugin.{
  Context, RoleValue, role_array, other, falsy, Update, Operation, insert_one, update_one,
  update_many, replace_one, other_operation, is_role_change_allowed, is_truthy, has_length,
  roles_of, drop_truthy, empty_truthy, empty_document, drop_roles, has_roles, strip,
  has_role_change, handle_update_role_guard, guard_operation, bulk_write,
}

-- The roles that a value stands for.
unfoldable pub names : Option RoleValue → List Text
names none = []
names (some falsy) = []
names (some (role_array rs)) = rs
names (some (other rs)) = rs

-- A value of `roles` in a document or a $set takes the place of what was there.
unfoldable pub replaced : Option RoleValue → List Text → List Text
unfolding names
replaced none roles = roles
replaced (some v) roles = names (some v)

module _ {C : Type 0} (rest_after : C → List Text → List Text) where
  -- The roles of a stored document after an update: values that are set, then $push and $addToSet, then
  -- $pull, then the rest of the update.
  unfoldable pub updated : Update C → List Text → List Text
  unfolding replaced names filter includes
  updated u roles = rest_after u.rest (
      filter (λ role. not (includes (names u.pull) role))
        ((replaced u.set (replaced u.direct roles) ++ names u.push) ++ names u.add_to_set))

  -- The roles after an operation, of a document that has `roles` before: the one that is matched, or,
  -- for an insertion, the new one.
  unfoldable pub after : Operation C → List Text → List Text
  unfolding updated names
  after (insert_one document) roles = names (roles_of document)
  after (update_one none) roles = roles
  after (update_one (some u)) roles = updated u roles
  after (update_many none) roles = roles
  after (update_many (some u)) roles = updated u roles
  after (replace_one replacement) roles = names (roles_of replacement)
  after other_operation roles = roles

  -- Whether one of the operations gives the role to a document that has `roles` without it.
  unfoldable pub gives : List Text → Text → List (Operation C) → Bool
  unfolding any after includes
  gives roles role ops = any (λ op. includes (after op roles) role && not (includes roles role)) ops

names-drop : (v : Option RoleValue) → names (drop_truthy v) ≡ []
unfolding names drop_truthy
names-drop none = refl
names-drop (some falsy) = refl
names-drop (some (role_array rs)) = refl
names-drop (some (other rs)) = refl

names-empty : (v : Option RoleValue) → names (empty_truthy v) ≡ []
unfolding names empty_truthy
names-empty none = refl
names-empty (some falsy) = refl
names-empty (some (role_array rs)) = refl
names-empty (some (other rs)) = refl

names-falsy : (v : Option RoleValue) → is_truthy v ≡ false → names v ≡ []
unfolding names is_truthy
names-falsy none h = refl
names-falsy (some falsy) h = refl
names-falsy (some (role_array rs)) h = cc h
names-falsy (some (other rs)) h = cc h

names-length : (v : Option RoleValue) → has_length v ≡ false → names v ≡ []
unfolding names has_length
names-length none h = refl
names-length (some falsy) h = refl
names-length (some (role_array [])) h = refl
names-length (some (role_array (r ∷ rs))) h = cc h
names-length (some (other [])) h = refl
names-length (some (other (r ∷ rs))) h = cc h

-- Nothing is set, pushed or added.
record IsHarmless {C : Type 0} (u : Update C) : Type 0 where
  direct : names u.direct ≡ []
  set : names u.set ≡ []
  push : names u.push ≡ []
  add_to_set : names u.add_to_set ≡ []

strip-IsHarmless : {C : Type 0} (u : Update C) → IsHarmless (strip u)
unfolding strip
strip-IsHarmless u = record {
  direct = unfold names in refl;
  set = names-drop u.set;
  push = names-drop u.push;
  add_to_set = names-drop u.add_to_set;
}

free-IsHarmless : {C : Type 0} (u : Update C) → has_roles u ≡ false → IsHarmless u
unfolding has_roles
free-IsHarmless u h = record {
  direct = names-falsy u.direct (ground (arith, h));
  set = names-falsy u.set (ground (arith, h));
  push = names-falsy u.push (ground (arith, h));
  add_to_set = names-falsy u.add_to_set (ground (arith, h));
}

-- Every role of the first list is in the second.
abbrev Within : List Text → List Text → Type 0
Within xs ys = (role : Text) → includes xs role ≡ true → includes ys role ≡ true

nothing-Within : (xs ys : List Text) → xs ≡ [] → Within xs ys
unfolding includes
nothing-Within xs ys e role h = absurd (cc (h, ap (λ zs. includes zs role) e))

replaced-Within :
    (v : Option RoleValue) (roles : List Text) → names v ≡ [] → Within (replaced v roles) roles
unfolding replaced
replaced-Within none roles e role h = h
replaced-Within (some v) roles e role h = nothing-Within (names (some v)) roles e role h

filter-Within : (keep : Text → Bool) (roles : List Text) → Within (filter keep roles) roles
unfolding filter includes
filter-Within keep [] role h = h
filter-Within keep (r ∷ roles) role h = elim (Bool-cases (includes (filter keep roles) role)) [
  | inl there ↦ ground (arith, filter-Within keep roles role there)
  | inr absent ↦ ground (arith, h, absent)
]

module _ {C : Type 0} (rest_after : C → List Text → List Text)
    (only_removes : (rest : C) (roles : List Text) → Within (rest_after rest roles) roles) where
  updated-Within :
      (u : Update C) (roles : List Text) → IsHarmless u → Within (updated rest_after u roles) roles
  unfolding updated
  updated-Within u roles harmless role h =
      let kept =
        filter-Within (λ r. not (includes (names u.pull) r)) _ role
          (only_removes u.rest _ role h) in
      let first : (replaced u.set (replaced u.direct roles) ++ names u.push) ++ names u.add_to_set
          ≡ replaced u.set (replaced u.direct roles) =
        rw (harmless.push, harmless.add_to_set) (append-nil _ ∙ append-nil _) in
      replaced-Within u.direct roles harmless.direct role (
        replaced-Within u.set (replaced u.direct roles) harmless.set role
          (sym (ap (λ xs. includes xs role) first) ∙ kept))

  unchanged :
      (op : Operation C) (roles : List Text)
      → has_role_change op ≡ false
      → Within (after rest_after op roles) roles
  unfolding has_role_change after
  unchanged (insert_one document) roles h role k =
      nothing-Within _ roles (names-length (roles_of document) h) role k
  unchanged (update_one none) roles h role k = k
  unchanged (update_one (some u)) roles h role k =
      updated-Within u roles (free-IsHarmless u h) role k
  unchanged (update_many none) roles h role k = k
  unchanged (update_many (some u)) roles h role k =
      updated-Within u roles (free-IsHarmless u h) role k
  unchanged (replace_one replacement) roles h role k =
      nothing-Within _ roles (names-length (roles_of replacement) h) role k
  unchanged other_operation roles h role k = k

  Within-gives :
      (op : Operation C) (roles : List Text) (role : Text)
      → Within (after rest_after op roles) roles
      → includes (after rest_after op roles) role && not (includes roles role) ≡ false
  Within-gives op roles role within =
      elim (Bool-cases (includes (after rest_after op roles) role)) [
        | inl there ↦ rw (there, within role there) refl
        | inr absent ↦ rw absent refl
      ]

  unchanged-gives :
      (ops : List (Operation C)) (roles : List Text) (role : Text)
      → any has_role_change ops ≡ false
      → gives rest_after roles role ops ≡ false
  unfolding any gives
  unchanged-gives [] roles role h = refl
  unchanged-gives (op ∷ ops) roles role h =
      rw
        (
          Within-gives op roles role (unchanged op roles (ground (arith, h))),
          unchanged-gives ops roles role (ground (arith, h)),
        )
        refl

  module _ (context : Context) (not_allowed : is_role_change_allowed context ≡ false) where
    handle-Within :
        (u : Update C) (roles : List Text)
        → (v : Update C) × (handle_update_role_guard context (some u) ≡ some v)
          × Within (updated rest_after v roles) roles
    unfolding handle_update_role_guard
    handle-Within u roles = elim (Bool-cases (has_roles u)) [
      | inl found ↦ (
        strip u,
        rw (found, handle_update_role_guard, not_allowed) refl,
        updated-Within (strip u) roles (strip-IsHarmless u),
      )
      | inr free ↦ (
        u,
        rw (free, handle_update_role_guard) refl,
        updated-Within u roles (free-IsHarmless u free),
      )
    ]

    guarded :
        (op : Operation C) (roles : List Text)
        → Within (after rest_after (guard_operation context op) roles) roles
    unfolding guard_operation after
    guarded (insert_one none) roles = nothing-Within _ roles (unfold names in refl)
    guarded (insert_one (some d)) roles =
        nothing-Within _ roles (unfold empty_document in names-empty d.roles)
    guarded (update_one none) roles = unfold handle_update_role_guard in λ role k. k
    guarded (update_one (some u)) roles = let (v, e, h) = handle-Within u roles in rw e h
    guarded (update_many none) roles = unfold handle_update_role_guard in λ role k. k
    guarded (update_many (some u)) roles = let (v, e, h) = handle-Within u roles in rw e h
    guarded (replace_one none) roles = nothing-Within _ roles (unfold names in refl)
    guarded (replace_one (some d)) roles =
        nothing-Within _ roles (unfold drop_roles in names-drop d.roles)
    guarded other_operation roles = λ role k. k

    all_guarded :
        (ops : List (Operation C)) (roles : List Text) (role : Text)
        → gives rest_after roles role (map (guard_operation context) ops) ≡ false
    unfolding gives any
    all_guarded [] roles role = refl
    all_guarded (op ∷ ops) roles role =
        rw
          (
            Within-gives (guard_operation context op) roles role (guarded op roles),
            all_guarded ops roles role,
          )
          refl

-- A user who may not change roles gives no role by bulkWrite, to a stored document or to one that
-- insertOne makes. The rest of an update is taken to remove roles at most, as $unset, $pop and $pullAll
-- do; removing roles is not excluded, nor are the roles of a document that an upsert inserts.
pub bulk_write-guarded :
    {C : Type 0} (rest_after : C → List Text → List Text)
    (only_removes : (rest : C) (roles : List Text) (role : Text)
      → includes (rest_after rest roles) role ≡ true
      → includes roles role ≡ true)
    (context : Context) (not_allowed : is_role_change_allowed context ≡ false)
    (ops : List (Operation C)) (roles : List Text) (role : Text)
    → gives rest_after roles role (bulk_write context ops) ≡ false
unfolding bulk_write
bulk_write-guarded rest_after only_removes context not_allowed ops roles role =
    elim (Bool-cases (any has_role_change ops)) [
      | inl found ↦
          rw (found, bulk_write, not_allowed)
            (all_guarded rest_after only_removes context not_allowed ops roles role)
      | inr free ↦
          rw (free, bulk_write) (unchanged-gives rest_after only_removes ops roles role free)
    ]

-- The roles of the document that an upsert inserts, by the places of the update that name roles.
unfoldable pub inserted_by : {C : Type 0} → Update C → List Text
unfolding names
inserted_by u =
    names u.direct
    ++ (names u.set ++ (names u.push ++ (names u.add_to_set ++ names u.set_on_insert)))

inserted_by-IsHarmless :
    {C : Type 0} (u : Update C) → IsHarmless u → inserted_by u ≡ names u.set_on_insert
unfolding inserted_by
inserted_by-IsHarmless u free = rw (free.direct, free.set, free.push, free.add_to_set) refl

-- An upsert by a user who may not change roles still inserts a document with the roles of $setOnInsert,
-- and with no others: those at the top, in $set, in $push and in $addToSet are gone.
pub handle-inserted_by :
    {C : Type 0} (context : Context) (not_allowed : is_role_change_allowed context ≡ false)
    (u : Update C)
    → (v : Update C) × (handle_update_role_guard context (some u) ≡ some v)
      × (inserted_by v ≡ names u.set_on_insert)
unfolding handle_update_role_guard
handle-inserted_by context not_allowed u = elim (Bool-cases (has_roles u)) [
  | inl found ↦ (
    strip u,
    rw (found, handle_update_role_guard, not_allowed) refl,
    inserted_by-IsHarmless (strip u) (strip-IsHarmless u) ∙ (unfold strip in refl),
  )
  | inr free ↦ (
    u,
    rw (free, handle_update_role_guard) refl,
    inserted_by-IsHarmless u (free-IsHarmless u free),
  )
]
