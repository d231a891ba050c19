-- ===== src/App/Resequencer/Reorder.antt =====
-- Messages that arrive in any order within a window of 256 leave the resequencer in order.
-- The proofs are in the modules below. `receive` is the client's use of the resequencer in `handle_resequencable_message` and
-- `drain_resequence_buffer` of srad-app/src/generic_app.rs, with every message processed at once.
mod Drain
mod Delivery
pub mod Window
use srad.Prelude.{
  ℕ, zero, suc, ◌+◌, ◌-◌, ◌%◌, ◌≤◌, ◌<◌, ◌≡◌, refl, false, Option, none, some, List, [], ◌∷◌, arith,
  ltb, ◌==◌, if◌then◌else◌, length,
}
use srad.App.Resequencer.{
  Resequencer, State, good, re_sequencing, ProcessResult, message_next_in_sequence,
  out_of_sequence_message_inserted, duplicate_message_sequence, message, empty, sequence_missing,
  insert_key, contains_key, process, drain,
}
use srad.App.Resequencer.Invariant.{Ascending}
use srad.App.Resequencer.Order.{prefix}

module _ {ℓ} {T : Type ℓ} where
  -- The loop of `drain_resequence_buffer`; `none` is a panic, or that the fuel ran out.
  unfoldable pub drain_all : ℕ → Resequencer T → Option (List T × Resequencer T)
  drain_all zero r = none
  drain_all (suc fuel) r = elim (drain r) [
    | none ↦ none
    | some (message m, r') ↦ prefix (m ∷ []) (drain_all fuel r')
    | some (empty, r') ↦ some ([], r')
    | some (sequence_missing, r') ↦ some ([], r')
  ]

  abbrev pub after_process : ProcessResult T → Resequencer T → Option (List T × Resequencer T)
  after_process (message_next_in_sequence m) r = prefix (m ∷ []) (drain_all (length r.buffer + 1) r)
  after_process out_of_sequence_message_inserted r = some ([], r)
  after_process duplicate_message_sequence r = some ([], r)

  -- What the client processes when a message arrives.
  unfoldable pub receive : ℕ → T → Resequencer T → Option (List T × Resequencer T)
  receive seq m r = let (p, r') = process seq m r in after_process p r'

  abbrev pub then_receive {κ} :
      {R : Type κ}
      → (Resequencer T → Option (List T × R))
      → Option (List T × Resequencer T)
      → Option (List T × R)
  then_receive f none = none
  then_receive f (some (out, r)) = prefix out (f r)

-- The window starts at the sequence number `n`; `index` is a message's place in it.
module _ {ℓ} {T : Type ℓ} (index : T → ℕ) (n : ℕ) where
  unfoldable pub receive_all : List T → Resequencer T → Option (List T × Resequencer T)
  receive_all [] r = some ([], r)
  receive_all (m ∷ ms) r = then_receive (receive_all ms) (receive ((n + index m) % 256) m r)

  abbrev pub one_if : ℕ → ℕ → ℕ
  one_if i j = if i == j then 1 else 0

  abbrev pub one_below : ℕ → ℕ → ℕ
  one_below i d = if ltb i d then 1 else 0

  -- How many of the messages have the place `i`.
  abbrev pub count : ℕ → List T → ℕ
  count i [] = 0
  count i (m ∷ ms) = one_if (index m) i + count i ms

  abbrev pub count_buffer : ℕ → List (ℕ × T) → ℕ
  count_buffer i [] = 0
  count_buffer i ((k, m) ∷ b) = one_if (index m) i + count_buffer i b

  -- d, d + 1, …, as many as `k`.
  abbrev pub range : ℕ → ℕ → List ℕ
  range d zero = []
  range d (suc k) = d ∷ range (suc d) k

  -- The offset in force stands for the place `o`.
  abbrev pub StateIs : ℕ → State → List (ℕ × T) → Type 0
  StateIs o good [] = Unit
  StateIs o good (_ ∷ _) = ⊥
  StateIs o (re_sequencing x) [] = ⊥
  StateIs o (re_sequencing x) (_ ∷ _) = x ≡ (n + o) % 256

  -- The buffered messages have places from `d` on, below 256.
  abbrev pub Entries : ℕ → ℕ → List (ℕ × T) → Type 0
  Entries o d [] = Unit
  Entries o d ((k, m) ∷ b) = (k + o ≡ index m) × (index m < 256) × (d ≤ index m) × Entries o d b

  pub Entries-mono : (o d e : ℕ) (b : List (ℕ × T)) → d ≤ e → Entries o e b → Entries o d b
  Entries-mono o d e [] h t = tt
  Entries-mono o d e ((k, m) ∷ b) h t = (t.0, t.1, omega arith, Entries-mono o d e b h t.3)

  -- Ascending keys are places further and further on.
  pub Entries-above :
      (o d k : ℕ) (b : List (ℕ × T)) → d ≤ k + o → Ascending k b → Entries o 0 b → Entries o d b
  Entries-above o d k [] h a t = tt
  Entries-above o d k ((j, m) ∷ b) h a t =
      (t.0, t.1, omega arith, Entries-above o d (suc j) b (omega arith) a.2 t.3)

  pub insert_key-Entries :
      (o d k : ℕ) (m : T) (b : List (ℕ × T))
      → k + o ≡ index m
      → index m < 256
      → d ≤ index m
      → Entries o d b
      → Entries o d (insert_key k m b)
  insert_key-Entries o d k m [] e l h t = (e, l, h, tt)
  insert_key-Entries o d k m ((j, v) ∷ b) e l h t = ground (arith, insert_key-Entries o d k m b)

  pub count-insert_key :
      (i k : ℕ) (m : T) (b : List (ℕ × T))
      → count_buffer i (insert_key k m b) ≡ one_if (index m) i + count_buffer i b
  count-insert_key i k m [] = refl
  count-insert_key i k m ((j, v) ∷ b) = ground (arith, count-insert_key i k m b)

  pub absent_key :
      (o d k i : ℕ) (b : List (ℕ × T))
      → k + o ≡ i
      → count_buffer i b ≡ 0
      → Entries o d b
      → contains_key k b ≡ false
  absent_key o d k i [] e c t = refl
  absent_key o d k i ((j, v) ∷ b) e c t = ground (arith, absent_key o d k i b)
