-- ===== src/Hub/RingBuffer/Refinement.antt =====
-- The ring buffer against the list of all entries that were ever added.
use Prim.Native.Nat.{max}
use native.Mathlib.Decide.{dec_lt, dec_le}
use native.Mathlib.Numerals.{add-one}
use nest_server.Prelude.{
  sym, ◌∙◌, drop_of_le, ◌⊎◌, beq_ne, beq_refl, if◌then◌else◌, nat_eq, ℕ, zero, suc, ◌+◌, ◌-◌, ◌%◌,
  ◌≤◌, ◌<◌, ◌≡◌, ◌≢◌, refl, Option, some, List, [], ◌∷◌, ◌++◌, arith, length, get_elem?, drop,
  drop-get_elem?, drop-length, get_elem?_of_lt, get_elem?-append_left, get_elem?-append_length,
  get_elem?-lt, length-append, or_else, eqb, inl, inr,
}
use nest_server.Hub.RingBuffer.{
  Entry, HubRingBuffer, new, oldest_seq, add, clear, push_if, collect_from, collect,
}

-- Two numbers less than `m` apart have different remainders.
mod_apart : (a b m : ℕ) → a < b → b < a + m → a % m ≢ b % m
mod_apart a b m h k e = grind arith

module _ {ℓ} {A : Type ℓ} where
  push_own :
      (seq : ℕ) (e : Entry A) {rest : List (Entry A)}
      → e.seq ≡ seq
      → push_if seq (some e) rest ≡ e ∷ rest
  unfolding push_if
  push_own seq e h = ground arith

  -- The buffer shows a suffix of the history `h`: what is not older than the capacity allows and
  -- was not cleared.
  pub record Represents (b : HubRingBuffer A) (h : List (Entry A)) : Type ℓ where
    pub capacity_pos : 0 < b.capacity
    pub counted : b.next_seq ≡ length h
    pub cleared : b.min_valid_seq ≤ b.next_seq
    pub numbered : (i : ℕ) (e : Entry A) → get_elem? h i ≡ some e → e.seq ≡ i
    pub stored :
        (i : ℕ) → oldest_seq b ≤ i → i < b.next_seq → b.slots (i % b.capacity) ≡ get_elem? h i

  pub Represents-new : (wanted : ℕ) → Represents (new wanted) []
  unfolding new
  Represents-new wanted = record {
    capacity_pos = omega arith;
    counted = refl;
    cleared = omega arith;
    numbered = λ i e p. cc;
    stored = λ i p q. absurd (omega arith);
  }

  -- The entry at a position of a history that grew by one.
  entry-append :
      (h : List (Entry A)) (full : Entry A) (i : ℕ)
      → i < length h + 1
      → ((i < length h) × (get_elem? (h ++ full ∷ []) i ≡ get_elem? h i))
        ⊎ ((i ≡ length h) × (get_elem? (h ++ full ∷ []) i ≡ some full))
  entry-append h full i p = elim (dec_lt i (length h)) [
    | yes old ↦ inl (old, get_elem?-append_left h (full ∷ []) i old)
    | no new_one ↦
        let last : i ≡ length h = omega arith in
        inr (last, rw last (get_elem?-append_length h full))
  ]

  module _ (b : HubRingBuffer A) (h : List (Entry A)) (r : Represents b h) (full : Entry A)
      (named : full.seq ≡ b.next_seq) where
    grown-length : length (h ++ full ∷ []) ≡ b.next_seq + 1
    grown-length = omega (arith, length-append h (full ∷ []), r.counted)

    grown-numbered : (i : ℕ) (e : Entry A) → get_elem? (h ++ full ∷ []) i ≡ some e → e.seq ≡ i
    grown-numbered i e p =
        let short : i < length h + 1 =
          omega (arith, get_elem?-lt (h ++ full ∷ []) i p, length-append h (full ∷ [])) in
        elim (entry-append h full i short) [
          | inl (old, same) ↦ r.numbered i e (ground arith)
          | inr (last, new_one) ↦ ground (arith, r.counted)
        ]

    grown-stored :
        (i : ℕ)
        → max (b.next_seq + 1 - b.capacity) b.min_valid_seq ≤ i
        → i < b.next_seq + 1
        → (if eqb (i % b.capacity) (b.next_seq % b.capacity)
            then some full
            else b.slots (i % b.capacity))
          ≡ get_elem? (h ++ full ∷ []) i
    unfolding oldest_seq
    grown-stored i p q = elim (entry-append h full i (omega (arith, r.counted))) [
      | inl (old, same) ↦
          rw
            (
              beq_ne _ _
                  (mod_apart i b.next_seq b.capacity (omega (arith, r.counted)) (omega arith)),
              same,
            )
            (r.stored i (omega arith) (omega (arith, r.counted)))
      | inr (last, new_one) ↦
          let at_end : i ≡ b.next_seq = omega (arith, r.counted) in
          rw (new_one, at_end, beq_refl (b.next_seq % b.capacity)) refl
    ]

  -- A buffer that represents a history represents, after `add`, the history with the entry that
  -- `add` returned at its end.
  pub Represents-add :
      (b : HubRingBuffer A) (h : List (Entry A)) (value : A) (timestamp : Option ℕ) (now : ℕ)
      → Represents b h
      → Represents (add value timestamp now b).0 (h ++ (add value timestamp now b).1 ∷ [])
  unfolding add oldest_seq
  Represents-add b h value timestamp now r =
      let full : Entry A = record {
        seq = b.next_seq;
        timestamp = or_else timestamp now;
        value = value;
      } in
      record {
        capacity_pos = r.capacity_pos;
        counted = sym (grown-length b h r full refl);
        cleared = omega (arith, r.cleared);
        numbered = grown-numbered b h r full refl;
        stored = grown-stored b h r full refl;
      }

  pub Represents-clear :
      (b : HubRingBuffer A) (h : List (Entry A)) → Represents b h → Represents (clear b) h
  unfolding clear oldest_seq
  Represents-clear b h r = record {
    capacity_pos = r.capacity_pos;
    counted = r.counted;
    cleared = omega arith;
    numbered = r.numbered;
    stored = λ i p q. absurd (omega arith);
  }

  collect_from-drop :
      (b : HubRingBuffer A) (h : List (Entry A)) (r : Represents b h) (rounds seq : ℕ)
      → oldest_seq b ≤ seq
      → seq + rounds ≡ b.next_seq
      → collect_from b seq rounds ≡ drop seq h
  unfolding collect_from
  collect_from-drop b h r zero seq p q =
      let at_end : seq ≡ length h = omega (arith, r.counted) in rw at_end (sym (drop-length h))
  collect_from-drop b h r (suc rounds) seq p q =
      let (e, found) = get_elem?_of_lt h seq (omega (arith, r.counted)) in
      let rest = collect_from-drop b h r rounds (seq + 1) (omega arith) (omega arith) in
      rw (r.stored seq p (omega arith), found, drop-get_elem? h seq found, rest)
        (push_own seq e (r.numbered seq e found) ∙ (rw add-one))

  -- A read from any position gives what the history holds from there on, if it is retained.
  pub collect-drop :
      (b : HubRingBuffer A) (h : List (Entry A)) (start : ℕ)
      → Represents b h
      → collect start b ≡ drop (max start (oldest_seq b)) h
  unfolding collect
  collect-drop b h start r =
      let from = max start (oldest_seq b) in
      elim (dec_le from b.next_seq) [
        | yes within ↦ collect_from-drop b h r (b.next_seq - from) from (omega arith) (omega arith)
        | no past ↦
            let none_left : b.next_seq - from ≡ 0 = omega arith in
            rw (none_left, collect_from) (sym (drop_of_le h from (omega (arith, r.counted))))
      ]
