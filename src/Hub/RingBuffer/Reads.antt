-- ===== src/Hub/RingBuffer/Reads.antt =====
-- What reads of the ring buffer return after any sequence of calls.
use Prim.Native.Nat.{max}
use nest_server.Prelude.{
  ℕ, ◌+◌, ◌-◌, ◌≤◌, ◌≡◌, refl, sym, ap, ◌∙◌, Option, none, List, [], ◌∷◌, ◌++◌, map, arith, length,
  drop, length-drop, or_else,
}
use nest_server.Hub.RingBuffer.{
  Entry, HubRingBuffer, new, oldest_seq, size, add, clear, recent, since, after, last_seq,
}
use nest_server.Hub.RingBuffer.Refinement.{
  Represents, Represents-new, Represents-add, Represents-clear, collect-drop,
}

-- A history of calls on one buffer: `add` with a value, a timestamp that may be given and the
-- clock, and `clear`.
pub data Call {ℓ} (A : Type ℓ) : Type ℓ where
  add_call : A → Option ℕ → ℕ → Call A
  clear_call : Call A

module _ {ℓ} {A : Type ℓ} where
  -- the buffer after the calls, with all entries that `add` returned, in their order
  pub run : HubRingBuffer A → List (Entry A) → List (Call A) → HubRingBuffer A × List (Entry A)
  run b h [] = (b, h)
  run b h (add_call value timestamp now ∷ calls) =
      let (b', e) = add value timestamp now b in run b' (h ++ e ∷ []) calls
  run b h (clear_call ∷ calls) = run (clear b) h calls

  -- How many entries were added before the last `clear`, `n` being added and `m` cleared before.
  pub count_cleared : (n m : ℕ) → List (Call A) → ℕ
  count_cleared n m [] = m
  count_cleared n m (add_call value timestamp now ∷ calls) = count_cleared (n + 1) m calls
  count_cleared n m (clear_call ∷ calls) = count_cleared n n calls

  run-capacity :
      (b : HubRingBuffer A) (h : List (Entry A)) (calls : List (Call A))
      → (run b h calls).0.capacity ≡ b.capacity
  unfolding run add clear
  run-capacity b h [] = refl
  run-capacity b h (add_call value timestamp now ∷ calls) =
      let (b', e) = add value timestamp now b in run-capacity b' (h ++ e ∷ []) calls
  run-capacity b h (clear_call ∷ calls) = run-capacity (clear b) h calls

  run-count_cleared :
      (b : HubRingBuffer A) (h : List (Entry A)) (calls : List (Call A))
      → (run b h calls).0.min_valid_seq ≡ count_cleared b.next_seq b.min_valid_seq calls
  unfolding run count_cleared add clear
  run-count_cleared b h [] = refl
  run-count_cleared b h (add_call value timestamp now ∷ calls) =
      let (b', e) = add value timestamp now b in run-count_cleared b' (h ++ e ∷ []) calls
  run-count_cleared b h (clear_call ∷ calls) = run-count_cleared (clear b) h calls

  Represents-run_from :
      (b : HubRingBuffer A) (h : List (Entry A)) (calls : List (Call A))
      → Represents b h
      → Represents (run b h calls).0 (run b h calls).1
  unfolding run
  Represents-run_from b h [] r = r
  Represents-run_from b h (add_call value timestamp now ∷ calls) r =
      let (b', e) = add value timestamp now b in
      Represents-run_from b' (h ++ e ∷ []) calls (Represents-add b h value timestamp now r)
  Represents-run_from b h (clear_call ∷ calls) r =
      Represents-run_from (clear b) h calls (Represents-clear b h r)

  oldest-run :
      (wanted : ℕ) (calls : List (Call A))
      → max
          ((run (new wanted) [] calls).0.next_seq - (run (new wanted) [] calls).0.capacity)
          (count_cleared 0 0 calls)
        ≡ oldest_seq (run (new wanted) [] calls).0
  unfolding oldest_seq
  oldest-run wanted calls =
      ap
        (λ m.
          max ((run (new wanted) [] calls).0.next_seq - (run (new wanted) [] calls).0.capacity) m)
        (sym (unfold new in run-count_cleared (new wanted) [] calls))

  -- After any calls on a new buffer, `since` gives, in their order, of all entries ever added those whose
  -- number is above the cursor, which are among the last ones that the limit (by default the capacity)
  -- and the capacity allow, and which were added after the last `clear`.
  pub since-run :
      (wanted : ℕ) (calls : List (Call A)) (since_seq limit : Option ℕ)
      → since since_seq limit (run (new wanted) [] calls).0
        ≡ drop
            (max
              (max
                (after since_seq)
                (length (run (new wanted) [] calls).1 - or_else limit (max 1 wanted)))
              (max (length (run (new wanted) [] calls).1 - max 1 wanted) (count_cleared 0 0 calls)))
            (run (new wanted) [] calls).1
  unfolding since
  since-run wanted calls since_seq limit =
      let r = Represents-run_from (new wanted) [] calls (Represents-new wanted) in
      let capacity : (run (new wanted) [] calls).0.capacity ≡ max 1 wanted =
        unfold new in run-capacity (new wanted) [] calls in
      rw (← r.counted, ← capacity, oldest-run wanted calls) (collect-drop _ _ _ r)

  -- A buffer that represents a history keeps at most its capacity of entries, and `recent` with no
  -- limit gives as many entries as `size` says.
  pub length-recent :
      (b : HubRingBuffer A) (h : List (Entry A))
      → Represents b h
      → (size b ≤ b.capacity) × (length (recent none b) ≡ size b)
  unfolding recent size oldest_seq
  length-recent b h r = (
    omega arith,
    rw (collect-drop b h (b.next_seq - b.capacity) r)
        (omega (arith, r.counted, length-drop (max (b.next_seq - b.capacity) (oldest_seq b)) h)),
  )

  abbrev pub adds : ℕ → List A → List (Call A)
  adds now values = map (λ v. add_call v none now) values

  record Grown (b b' : HubRingBuffer A) (n : ℕ) : Type ℓ where
    same_capacity : b'.capacity ≡ b.capacity
    same_mark : b'.min_valid_seq ≡ b.min_valid_seq
    counted : b'.next_seq ≡ b.next_seq + n

  Grown-run :
      (b : HubRingBuffer A) (h : List (Entry A)) (values : List A) (now : ℕ)
      → Grown b (run b h (adds now values)).0 (length values)
  unfolding run add
  Grown-run b h [] now = record { same_capacity = refl; same_mark = refl; counted = omega arith }
  Grown-run b h (v ∷ values) now =
      let (b', e) = add v none now b in
      let g = Grown-run b' (h ++ e ∷ []) values now in
      record {
        same_capacity = g.same_capacity;
        same_mark = g.same_mark;
        counted = omega (arith, g.counted);
      }

  last_seq-after : (b : HubRingBuffer A) → after (last_seq b) ≡ b.next_seq
  unfolding last_seq
  last_seq-after b = ground arith

  -- A client that has read up to the last number receives, after some further entries, exactly
  -- those, if they are no more than the capacity.
  pub since-poll :
      (b : HubRingBuffer A) (h : List (Entry A)) (values : List A) (now : ℕ)
      → Represents b h
      → length values ≤ b.capacity
      → since (last_seq b) none (run b h (adds now values)).0
        ≡ drop (length h) (run b h (adds now values)).1
  unfolding since
  since-poll b h values now r fits =
      let (b', h') = run b h (adds now values) in
      let r' = Represents-run_from b h (adds now values) r in
      let g = Grown-run b h values now in
      let start = max (after (last_seq b)) (b'.next_seq - b'.capacity) in
      let from : max start (oldest_seq b') ≡ length h =
        unfold oldest_seq in
        omega (arith, last_seq-after b, g.counted, g.same_capacity, g.same_mark, r.counted) in
      collect-drop b' h' start r' ∙ ap (λ i. drop i h') from
