-- ===== src/RateLimit/Key/RoundTrip.antt =====
-- The parts of a key, read back.
use nest_server.Prelude.{
  ℕ, ◌≡◌, ◌≢◌, refl, sym, ap, ◌∙◌, Bool, true, false, ◌||◌, List, [], ◌∷◌, ◌++◌, map, arith, Text,
  eqb, if◌then◌else◌, starts_with, starts_with_self, ◌↔◌,
}
use mathlib.Core.List.{append_assoc, append-nil}
use nest_server.RateLimit.Key.{
  escape_unit, escape_part, join, rate_limit_key, rate_limit_key_prefix,
}

-- A reader of keys: a backslash takes the next unit as it stands, a colon ends a part.
unfoldable pub read_parts : Bool → Text → Text → List Text
read_parts escaped part [] = part ∷ []
read_parts true part (c ∷ s) = read_parts false (part ++ c ∷ []) s
read_parts false part (c ∷ s) =
    let taken = read_parts true part s in
    let next_part = part ∷ read_parts false [] s in
    let longer = read_parts false (part ++ c ∷ []) s in
    if eqb c b'\\' then taken else if eqb c b':' then next_part else longer

read_parts-colon :
    (p q : Text) (ps : List Text)
    → read_parts false [] (join (escape_part q ∷ map escape_part ps)) ≡ q ∷ ps
    → read_parts false p (b':' ∷ join (escape_part q ∷ map escape_part ps)) ≡ p ∷ q ∷ ps
unfolding read_parts
read_parts-colon p q ps h = ap (λ t. p ∷ t) h

escape_part-nil : escape_part [] ≡ []
unfolding escape_part escape_unit
escape_part-nil = refl

-- The two passes together: a backslash before each backslash and each colon.
escape_part-cons :
    (c : ℕ) (s : Text)
    → escape_part (c ∷ s)
      ≡ (if eqb c b'\\' || eqb c b':' then b'\\' ∷ c ∷ escape_part s else c ∷ escape_part s)
unfolding escape_part escape_unit
escape_part-cons c s = ground arith

read_parts-escape :
    (s part rest : Text)
    → read_parts false part (escape_part s ++ rest) ≡ read_parts false (part ++ s) rest
unfolding read_parts
read_parts-escape [] part rest =
    rw escape_part-nil (ap (λ p. read_parts false p rest) (sym (append-nil part)))
read_parts-escape (c ∷ s) part rest =
    rw (escape_part-cons c s)
      (ground (arith, read_parts-escape s (part ++ c ∷ []) rest, append_assoc part (c ∷ []) s))

read_parts-join :
    (p : Text) (ps : List Text)
    → read_parts false [] (join (escape_part p ∷ map escape_part ps)) ≡ p ∷ ps
unfolding join
read_parts-join p [] =
    ap (read_parts false []) (sym (append-nil (escape_part p)))
    ∙ read_parts-escape p [] []
    ∙ (unfold read_parts in refl)
read_parts-join p (q ∷ ps) =
    read_parts-escape p [] (b':' ∷ join (escape_part q ∷ map escape_part ps))
    ∙ read_parts-colon p q ps (read_parts-join q ps)

-- The parts of a key, at least one, can be read back from it.
pub read_parts-rate_limit_key :
    (p : Text) (ps : List Text) → read_parts false [] (rate_limit_key (p ∷ ps)) ≡ p ∷ ps
unfolding rate_limit_key
read_parts-rate_limit_key p ps = read_parts-join p ps

-- Two callers with the same key have the same parts, at least one each.
pub rate_limit_key_inj :
    (p q : Text) (ps qs : List Text)
    → rate_limit_key (p ∷ ps) ≡ rate_limit_key (q ∷ qs)
    → (p ≡ q) × (ps ≡ qs)
rate_limit_key_inj p q ps qs same =
    let parts : p ∷ ps ≡ q ∷ qs =
      sym (read_parts-rate_limit_key p ps)
      ∙ ap (read_parts false []) same
      ∙ read_parts-rate_limit_key q qs in
    (cc, cc)

starts_with-split : (s p : Text) → starts_with s p ≡ true → (rest : Text) × (s ≡ p ++ rest)
unfolding starts_with
starts_with-split s [] h = (s, refl)
starts_with-split [] (d ∷ p) h = cc
starts_with-split (c ∷ s) (d ∷ p) h =
    let (rest, e) = starts_with-split s p (ground arith) in (rest, ground arith)

read_parts-ne-nil : (escaped : Bool) (part s : Text) → read_parts escaped part s ≢ []
unfolding read_parts
read_parts-ne-nil escaped part [] = cc
read_parts-ne-nil true part (c ∷ s) = read_parts-ne-nil false (part ++ c ∷ []) s
read_parts-ne-nil false part (c ∷ s) =
    let taken = read_parts-ne-nil true part s in
    let longer = read_parts-ne-nil false (part ++ c ∷ []) s in ground arith

read_parts-prefix :
    (ip rest : Text)
    → read_parts false [] (rate_limit_key_prefix (ip ∷ []) ++ rest) ≡ ip ∷ read_parts false [] rest
unfolding rate_limit_key_prefix rate_limit_key join
read_parts-prefix ip rest =
    ap (read_parts false []) (append_assoc (escape_part ip) (b':' ∷ []) rest)
    ∙ read_parts-escape ip [] (b':' ∷ rest)
    ∙ (unfold read_parts in refl)

join_prefix :
    (ip q : Text) (qs : List Text)
    → rate_limit_key (ip ∷ q ∷ qs) ≡ rate_limit_key_prefix (ip ∷ []) ++ rate_limit_key (q ∷ qs)
unfolding rate_limit_key_prefix rate_limit_key join
join_prefix ip q qs =
    sym (append_assoc (escape_part ip) (b':' ∷ []) (join (map escape_part (q ∷ qs))))

-- A key falls under the prefix of one part exactly if that is its first part and others follow.
pub starts_with-rate_limit_key_prefix :
    (p ip : Text) (ps : List Text)
    → (starts_with (rate_limit_key (p ∷ ps)) (rate_limit_key_prefix (ip ∷ [])) ≡ true)
      ↔ ((p ≡ ip) × (ps ≢ []))
starts_with-rate_limit_key_prefix p ip ps = (forth, back ps)
  where
    forth :
        starts_with (rate_limit_key (p ∷ ps)) (rate_limit_key_prefix (ip ∷ [])) ≡ true
        → (p ≡ ip) × (ps ≢ [])
    forth h =
        let (rest, e) = starts_with-split _ _ h in
        let parts : p ∷ ps ≡ ip ∷ read_parts false [] rest =
          sym (read_parts-rate_limit_key p ps)
          ∙ ap (read_parts false []) e
          ∙ read_parts-prefix ip rest in
        (cc, λ none_left. read_parts-ne-nil false [] rest (cc))

    back :
        (qs : List Text)
        → (p ≡ ip) × (qs ≢ [])
        → starts_with (rate_limit_key (p ∷ qs)) (rate_limit_key_prefix (ip ∷ [])) ≡ true
    back [] (same, some_part) = absurd (some_part refl)
    back (q ∷ qs) (same, some_part) =
        rw (same, join_prefix ip q qs)
          (starts_with_self (rate_limit_key_prefix (ip ∷ [])) (rate_limit_key (q ∷ qs)))
