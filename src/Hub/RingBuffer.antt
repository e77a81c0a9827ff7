-- ===== src/Hub/RingBuffer.antt =====
-- The ring buffer of the Hub's collectors (src/core/modules/hub/hub-ring-buffer.ts).
-- Sequence numbers are natural numbers, as the program counts them up from 0; `-1`, which stands
-- for "none" in cursors, is `none`. The array of slots is a function from its indices, and a fresh
-- or cleared slot holds `none`. A limit is a natural number, as the program cuts it off at 0.
pub mod Refinement
pub mod Reads
use nest_server.Prelude.{
  ℕ, zero, suc, ◌+◌, ◌-◌, ◌%◌, Bool, Option, none, some, List, [], ◌∷◌, eqb, if◌then◌else◌, or_else,
}
use Prim.Native.Nat.{max}

pub record Entry {ℓ} (A : Type ℓ) : Type ℓ where
  pub seq : ℕ
  pub timestamp : ℕ
  pub value : A

pub record HubRingBuffer {ℓ} (A : Type ℓ) : Type ℓ where
  pub capacity : ℕ
  pub min_valid_seq : ℕ
  pub next_seq : ℕ
  pub slots : ℕ → Option (Entry A)

-- `sinceSeq + 1`
abbrev pub after : Option ℕ → ℕ
after none = 0
after (some seq) = seq + 1

module _ {ℓ} {A : Type ℓ} where
  -- the constructor
  unfoldable pub new : ℕ → HubRingBuffer A
  new wanted = record {
    capacity = max 1 wanted;
    min_valid_seq = 0;
    next_seq = 0;
    slots = λ i. none;
  }

  unfoldable pub oldest_seq : HubRingBuffer A → ℕ
  oldest_seq b = max (b.next_seq - b.capacity) b.min_valid_seq

  unfoldable pub size : HubRingBuffer A → ℕ
  unfolding oldest_seq
  size b = b.next_seq - oldest_seq b

  unfoldable pub first_retained_seq : HubRingBuffer A → Option ℕ
  unfolding size
  first_retained_seq b = if eqb (size b) 0 then none else some (oldest_seq b)

  unfoldable pub last_seq : HubRingBuffer A → Option ℕ
  last_seq b = if eqb b.next_seq 0 then none else some (b.next_seq - 1)

  unfoldable pub add : A → Option ℕ → ℕ → HubRingBuffer A → HubRingBuffer A × Entry A
  add value timestamp now b =
      let full : Entry A = record {
        seq = b.next_seq;
        timestamp = or_else timestamp now;
        value = value;
      } in
      (
        record b {
          next_seq = b.next_seq + 1;
          slots = λ i. if eqb i (b.next_seq % b.capacity) then some full else b.slots i;
        },
        full,
      )

  unfoldable pub clear : HubRingBuffer A → HubRingBuffer A
  clear b = record b { min_valid_seq = b.next_seq; slots = λ i. none }

  -- `entry !== undefined && entry.seq === seq`
  unfoldable pub push_if : ℕ → Option (Entry A) → List (Entry A) → List (Entry A)
  push_if seq none rest = rest
  push_if seq (some entry) rest = if eqb entry.seq seq then entry ∷ rest else rest

  -- the loop of `collect`, from `seq` for the rounds that are left
  unfoldable pub collect_from : HubRingBuffer A → ℕ → ℕ → List (Entry A)
  unfolding push_if
  collect_from b seq zero = []
  collect_from b seq (suc rounds) =
      push_if seq (b.slots (seq % b.capacity)) (collect_from b (seq + 1) rounds)

  unfoldable pub collect : ℕ → HubRingBuffer A → List (Entry A)
  unfolding collect_from oldest_seq
  collect start_seq b =
      let from = max start_seq (oldest_seq b) in collect_from b from (b.next_seq - from)

  -- the limit defaults to the capacity
  unfoldable pub recent : Option ℕ → HubRingBuffer A → List (Entry A)
  unfolding collect
  recent limit b = collect (b.next_seq - or_else limit b.capacity) b

  unfoldable pub since : Option ℕ → Option ℕ → HubRingBuffer A → List (Entry A)
  unfolding collect
  since since_seq limit b =
      collect (max (after since_seq) (b.next_seq - or_else limit b.capacity)) b
