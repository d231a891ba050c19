-- ===== src/App/Resequencer/Invariant.antt =====
-- The well-formedness of the resequencing buffer, and that every operation keeps it.
use srad.Prelude.{ℕ, suc, ◌≤◌, ◌<◌, ◌≡◌, false, List, [], ◌∷◌, arith, Returns, length}
use srad.App.Resequencer.{
  Resequencer, State, good, re_sequencing, DrainResult, contains_key, insert_key, set_next_sequence,
  process, drain, reset, wrapping_sub,
}

-- The keys ascend from `lo` and stay below 256.
abbrev pub Ascending {ℓ} : {T : Type ℓ} → ℕ → List (ℕ × T) → Type 0
Ascending lo [] = Unit
Ascending lo ((k, m) ∷ b) = (lo ≤ k) × (k < 256) × Ascending (suc k) b

-- The buffer is empty exactly in the state `Good`.
abbrev pub StateFits {ℓ} : {T : Type ℓ} → State → List (ℕ × T) → Type 0
StateFits good [] = Unit
StateFits good (_ ∷ _) = ⊥
StateFits (re_sequencing o) [] = ⊥
StateFits (re_sequencing o) (_ ∷ _) = o < 256

pub record IsWellFormed {ℓ} {T : Type ℓ} (r : Resequencer T) : Type 0 where
  pub in_range : r.next_seq < 256
  pub ascending : Ascending 0 r.buffer
  pub fits : StateFits r.state r.buffer

module _ {ℓ} {T : Type ℓ} where
  pub Ascending-mono : (lo hi : ℕ) (b : List (ℕ × T)) → lo ≤ hi → Ascending hi b → Ascending lo b
  Ascending-mono lo hi [] h a = tt
  Ascending-mono lo hi ((k, m) ∷ b) h a = (omega arith, a.1, a.2)

  pub insert_key-Ascending :
      (lo k : ℕ) (v : T) (b : List (ℕ × T))
      → lo ≤ k
      → k < 256
      → contains_key k b ≡ false
      → Ascending lo b
      → Ascending lo (insert_key k v b)
  insert_key-Ascending lo k v [] h l c a = (h, l, tt)
  insert_key-Ascending lo k v ((j, w) ∷ b) h l c a =
      ground (arith, insert_key-Ascending (suc j) k v b)

  insert_key-StateFits :
      (o k : ℕ) (v : T) (b : List (ℕ × T))
      → o < 256
      → StateFits (re_sequencing o) (insert_key k v b)
  insert_key-StateFits o k v [] h = h
  insert_key-StateFits o k v ((j, w) ∷ b) h = ground arith

  pub set_next_sequence-IsWellFormed :
      (n : ℕ) (r : Resequencer T) → n < 256 → IsWellFormed r → IsWellFormed (set_next_sequence n r)
  unfolding set_next_sequence
  set_next_sequence-IsWellFormed n r h w = ground arith

  pub reset-IsWellFormed : (r : Resequencer T) → IsWellFormed (reset r)
  unfolding reset
  reset-IsWellFormed r = record { in_range = omega arith; ascending = tt; fits = tt }

  -- A resequencer from its three fields, to split on them.
  abbrev pub parts : State → List (ℕ × T) → ℕ → Resequencer T
  parts s b n = record { buffer = b; next_seq = n; state = s }

  process-parts-IsWellFormed :
      (seq : ℕ) (m : T) (s : State) (b : List (ℕ × T)) (n : ℕ)
      → IsWellFormed (parts s b n)
      → IsWellFormed (process seq m (parts s b n)).1
  unfolding process
  process-parts-IsWellFormed seq m good [] n w = ground arith
  process-parts-IsWellFormed seq m good (x ∷ b) n w = absurd w.fits
  process-parts-IsWellFormed seq m (re_sequencing o) [] n w = absurd w.fits
  process-parts-IsWellFormed seq m (re_sequencing o) (x ∷ b) n w =
      let key = wrapping_sub seq o in
      ground (arith, insert_key-Ascending 0 key m (x ∷ b), insert_key-StateFits o key m (x ∷ b))

  -- `process` keeps the buffer well-formed, whatever the message and its sequence number: the
  -- expected number and the keys are `u8`s, no key occurs twice, and the buffer is empty exactly in
  -- the state `Good`.
  pub process-IsWellFormed :
      (seq : ℕ) (m : T) (r : Resequencer T) → IsWellFormed r → IsWellFormed (process seq m r).1
  process-IsWellFormed seq m r = process-parts-IsWellFormed seq m r.state r.buffer r.next_seq

  drain-parts-IsWellFormed :
      (s : State) (b : List (ℕ × T)) (n : ℕ)
      → IsWellFormed (parts s b n)
      → Returns (λ d. IsWellFormed d.1) (drain (parts s b n))
  unfolding drain
  drain-parts-IsWellFormed good [] n w = w
  drain-parts-IsWellFormed good (x ∷ b) n w = w.fits
  drain-parts-IsWellFormed (re_sequencing o) [] n w = w
  drain-parts-IsWellFormed (re_sequencing o) ((k, m) ∷ []) n w = ground arith
  drain-parts-IsWellFormed (re_sequencing o) ((k, m) ∷ (j, l) ∷ b) n w =
      ground (arith, Ascending-mono 0 (suc k) ((j, l) ∷ b))

  -- On a well-formed buffer `drain` does not panic: its assertion that nothing is buffered in the
  -- state `Good` holds. What it leaves is well-formed.
  pub drain-IsWellFormed :
      (r : Resequencer T) → IsWellFormed r → Returns (λ d. IsWellFormed d.1) (drain r)
  drain-IsWellFormed r = drain-parts-IsWellFormed r.state r.buffer r.next_seq

  -- A message that `drain` hands out leaves the buffer.
  abbrev pub Shorter : Resequencer T → DrainResult T × Resequencer T → Type 0
  Shorter r (DrainResult.message m, r') = length r'.buffer < length r.buffer
  Shorter r (DrainResult.empty, r') = Unit
  Shorter r (DrainResult.sequence_missing, r') = Unit

  drain-parts-Shorter :
      (s : State) (b : List (ℕ × T)) (n : ℕ)
      → IsWellFormed (parts s b n)
      → Returns (Shorter (parts s b n)) (drain (parts s b n))
  unfolding drain
  drain-parts-Shorter good [] n w = tt
  drain-parts-Shorter good (x ∷ b) n w = w.fits
  drain-parts-Shorter (re_sequencing o) [] n w = tt
  drain-parts-Shorter (re_sequencing o) ((k, m) ∷ b) n w = ground arith

  pub drain-Shorter : (r : Resequencer T) → IsWellFormed r → Returns (Shorter r) (drain r)
  drain-Shorter r = drain-parts-Shorter r.state r.buffer r.next_seq
