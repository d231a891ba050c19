-- ===== src/App/Resequencer.antt =====
-- srad-app/src/resequencer.rs: the buffer that puts messages back into sequence.
-- A `u8` is a number below 256 whose sums and differences wrap. The `BTreeMap<u8, T>` is a list
-- of entries in ascending order of their keys. The proofs are in the modules below.
pub mod Invariant
pub mod Order
pub mod Reorder
use srad.Prelude.{
  ℕ, ◌+◌, ◌-◌, ◌%◌, Bool, true, false, Option, none, some, List, [], ◌∷◌, ltb, ◌==◌, if◌then◌else◌,
}

pub data DrainResult {ℓ} (T : Type ℓ) : Type ℓ where
  message : T → DrainResult T
  empty : DrainResult T
  sequence_missing : DrainResult T

pub data ProcessResult {ℓ} (T : Type ℓ) : Type ℓ where
  message_next_in_sequence : T → ProcessResult T
  out_of_sequence_message_inserted : ProcessResult T
  duplicate_message_sequence : ProcessResult T

pub data State : Type 0 where
  good : State
  re_sequencing : ℕ → State

abbrev pub wrapping_add : ℕ → ℕ → ℕ
wrapping_add a b = (a + b) % 256

abbrev pub wrapping_sub : ℕ → ℕ → ℕ
wrapping_sub a b = (a + 256 - b) % 256

-- The operations of `BTreeMap` that the source uses.
module _ {ℓ} {T : Type ℓ} where
  abbrev pub contains_key : ℕ → List (ℕ × T) → Bool
  contains_key k [] = false
  contains_key k ((j, v) ∷ b) = if j == k then true else contains_key k b

  -- Insertion at a vacant key.
  abbrev pub insert_key : ℕ → T → List (ℕ × T) → List (ℕ × T)
  insert_key k v [] = (k, v) ∷ []
  insert_key k v ((j, w) ∷ b) = if ltb k j then (k, v) ∷ (j, w) ∷ b else (j, w) ∷ insert_key k v b

pub record Resequencer {ℓ} (T : Type ℓ) : Type ℓ where
  pub buffer : List (ℕ × T)
  pub next_seq : ℕ
  pub state : State

module _ {ℓ} {T : Type ℓ} where
  abbrev pub new : Resequencer T
  new = record { buffer = []; next_seq = 0; state = good }

  unfoldable pub set_next_sequence : ℕ → Resequencer T → Resequencer T
  set_next_sequence next r = record r { next_seq = next }

  abbrev increment_next_seq : Resequencer T → Resequencer T
  increment_next_seq r = record r { next_seq = wrapping_add r.next_seq 1 }

  -- The test under `if let State::ReSequencing(offset)`.
  abbrev already_buffered : ℕ → State → List (ℕ × T) → Bool
  already_buffered seq good b = false
  already_buffered seq (re_sequencing offset) b = contains_key (wrapping_sub seq offset) b

  -- The offset that is in force for a message out of order.
  abbrev pub offset_of : Resequencer T → ℕ
  offset_of r = elim r.state [ good ↦ r.next_seq | re_sequencing offset ↦ offset ]

  buffer_message : ℕ → T → ℕ → Resequencer T → ProcessResult T × Resequencer T
  buffer_message seq m offset r =
      let key = wrapping_sub seq offset in
      let r' = record r { state = re_sequencing offset } in
      if contains_key key r.buffer
      then (duplicate_message_sequence, r')
      else (out_of_sequence_message_inserted, record r' { buffer = insert_key key m r.buffer })

  unfoldable pub process : ℕ → T → Resequencer T → ProcessResult T × Resequencer T
  unfolding buffer_message
  process seq m r =
      if r.next_seq == seq
      then (if already_buffered seq r.state r.buffer
          then (duplicate_message_sequence, r)
          else (message_next_in_sequence m, increment_next_seq r))
      else buffer_message seq m (offset_of r) r

  -- `if self.buffer.is_empty() { self.state = State::Good }`, for what `pop_first` leaves.
  abbrev pub settle : List (ℕ × T) → State → State
  settle [] s = good
  settle (_ ∷ _) s = s

  drain_from : ℕ → List (ℕ × T) → Resequencer T → DrainResult T × Resequencer T
  drain_from offset [] r = (empty, r)
  drain_from offset ((key, m) ∷ rest) r =
      if wrapping_add key offset == r.next_seq
      then (
        message m,
        record { buffer = rest; next_seq = wrapping_add r.next_seq 1; state = settle rest r.state },
      )
      else (sequence_missing, r)

  -- `none` is the panic of the assertion.
  drain_good : List (ℕ × T) → Resequencer T → Option (DrainResult T × Resequencer T)
  drain_good [] r = some (empty, r)
  drain_good (_ ∷ _) r = none

  unfoldable pub drain : Resequencer T → Option (DrainResult T × Resequencer T)
  unfolding drain_from drain_good
  drain r = elim r.state [
    | good ↦ drain_good r.buffer r
    | re_sequencing offset ↦ some (drain_from offset r.buffer r)
  ]

  unfoldable pub reset : Resequencer T → Resequencer T
  reset r = record { buffer = []; next_seq = 0; state = good }
