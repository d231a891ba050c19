-- ===== src/App/Resequencer/Order.antt =====
-- The order of delivery: whatever is asked of the resequencer, in whatever order messages arrive.
use srad.Prelude.{
  ℕ, zero, suc, ◌+◌, ◌%◌, ◌<◌, ◌≡◌, refl, ap, Option, none, some, List, [], ◌∷◌, ◌++◌, map, arith,
  All, length, length-append, Returns,
}
use srad.App.Resequencer.{
  Resequencer, State, good, re_sequencing, ProcessResult, message_next_in_sequence,
  out_of_sequence_message_inserted, duplicate_message_sequence, DrainResult, message, empty,
  sequence_missing, insert_key, process, drain, wrapping_add, wrapping_sub,
}
use srad.App.Resequencer.Invariant.{IsWellFormed, parts, process-IsWellFormed, drain-IsWellFormed}

-- A client's call.
pub data Call {ℓ} (T : Type ℓ) : Type ℓ where
  processes : T → Call T
  drains : Call T

module _ {ℓ} {T : Type ℓ} where
  -- What a call hands to the client.
  abbrev pub processed : ProcessResult T → List T
  processed (message_next_in_sequence m) = m ∷ []
  processed out_of_sequence_message_inserted = []
  processed duplicate_message_sequence = []

  abbrev pub drained : DrainResult T → List T
  drained (message m) = m ∷ []
  drained empty = []
  drained sequence_missing = []

  abbrev pub prefix {κ} : {R : Type κ} → List T → Option (List T × R) → Option (List T × R)
  prefix xs none = none
  prefix xs (some (out, q)) = some (xs ++ out, q)

-- `seq_of` is the sequence number that a message carries.
module _ {ℓ} {T : Type ℓ} (seq_of : T → ℕ) where
  -- The messages that a client receives, in order; `none` if a call panics.
  pub run : Resequencer T → List (Call T) → Option (List T × Resequencer T)
  run r [] = some ([], r)
  run r (processes m ∷ calls) =
      let (p, r') = process (seq_of m) m r in prefix (processed p) (run r' calls)
  run r (drains ∷ calls) = elim (drain r) [
    | none ↦ none
    | some (d, r') ↦ prefix (drained d) (run r' calls)
  ]

  -- A buffered message lies at the key that its sequence number has.
  abbrev pub Tagged : State → List (ℕ × T) → Type 0
  Tagged good b = Unit
  Tagged (re_sequencing o) b = All (λ e. (seq_of e.1 < 256) × (e.0 ≡ wrapping_sub (seq_of e.1) o)) b

  -- n, n + 1, …, as many as `k`, each a `u8`.
  abbrev pub consecutive : ℕ → ℕ → List ℕ
  consecutive n zero = []
  consecutive n (suc k) = n ∷ consecutive (wrapping_add n 1) k

  insert_key-Tagged :
      (o : ℕ) (m : T) (b : List (ℕ × T))
      → seq_of m < 256
      → Tagged (re_sequencing o) b
      → Tagged (re_sequencing o) (insert_key (wrapping_sub (seq_of m) o) m b)
  insert_key-Tagged o m [] h t = ground arith
  insert_key-Tagged o m ((j, w) ∷ b) h t = ground (arith, insert_key-Tagged o m b)

  abbrev pub Keeps : Resequencer T → Resequencer T → List T → Type 0
  Keeps r r' out =
      (Tagged r'.state r'.buffer)
      × (map seq_of out ≡ consecutive r.next_seq (length out))
      × (r'.next_seq ≡ (r.next_seq + length out) % 256)

  process-parts-Keeps :
      (m : T) (s : State) (b : List (ℕ × T)) (n : ℕ)
      → seq_of m < 256
      → IsWellFormed (parts s b n)
      → Tagged s b
      → let (p, r') = process (seq_of m) m (parts s b n) in Keeps (parts s b n) r' (processed p)
  unfolding process
  process-parts-Keeps m good [] n h w t = ground arith
  process-parts-Keeps m good (x ∷ b) n h w t = absurd w.fits
  process-parts-Keeps m (re_sequencing o) b n h w t = ground (arith, insert_key-Tagged o m b)

  drain-parts-Keeps :
      (s : State) (b : List (ℕ × T)) (n : ℕ)
      → IsWellFormed (parts s b n)
      → Tagged s b
      → Returns (λ d. Keeps (parts s b n) d.1 (drained d.0)) (drain (parts s b n))
  unfolding drain
  drain-parts-Keeps good [] n w t = ground arith
  drain-parts-Keeps good (x ∷ b) n w t = w.fits
  drain-parts-Keeps (re_sequencing o) [] n w t = ground arith
  drain-parts-Keeps (re_sequencing o) ((k, m) ∷ []) n w t = ground arith
  drain-parts-Keeps (re_sequencing o) ((k, m) ∷ (j, l) ∷ b) n w t = ground arith

  consecutive-add :
      (n a b : ℕ)
      → n < 256
      → consecutive n (a + b) ≡ consecutive n a ++ consecutive ((n + a) % 256) b
  consecutive-add n zero b h = ground arith
  consecutive-add n (suc a) b h =
      let e : suc a + b ≡ suc (a + b) = omega arith in
      let f : (n + suc a) % 256 ≡ (wrapping_add n 1 + a) % 256 = omega arith in
      rw (e, f) (ap (◌∷◌ n) (consecutive-add (wrapping_add n 1) a b (omega arith)))

  map-append : (xs ys : List T) → map seq_of (xs ++ ys) ≡ map seq_of xs ++ map seq_of ys
  map-append [] ys = refl
  map-append (x ∷ xs) ys = ground (arith, map-append xs ys)

  Keeps-trans :
      (r q s : Resequencer T) (xs ys : List T)
      → r.next_seq < 256
      → Keeps r q xs
      → Keeps q s ys
      → Keeps r s (xs ++ ys)
  Keeps-trans r q s xs ys l h k = ground (
    arith,
    length-append xs ys,
    consecutive-add r.next_seq (length xs) (length ys) l,
    map-append xs ys,
  )

  -- The sequence numbers that the clients' calls carry are `u8`s.
  abbrev pub InRange : Call T → Type 0
  InRange (processes m) = seq_of m < 256
  InRange drains = Unit

  abbrev pub Delivers : Resequencer T → List T × Resequencer T → Type 0
  Delivers r (out, q) = Keeps r q out × IsWellFormed q

  prefix-Delivers :
      (r q : Resequencer T) (xs : List T) (o : Option (List T × Resequencer T))
      → r.next_seq < 256
      → Keeps r q xs
      → Returns (Delivers q) o
      → Returns (Delivers r) (prefix xs o)
  prefix-Delivers r q xs none l h d = d
  prefix-Delivers r q xs (some (out, s)) l h d = (Keeps-trans r q s xs out l h d.0, d.1)

  after_drain :
      (r : Resequencer T) (o : Option (DrainResult T × Resequencer T)) (calls : List (Call T))
      → r.next_seq < 256
      → Returns (λ d. IsWellFormed d.1) o
      → Returns (λ d. Keeps r d.1 (drained d.0)) o
      → ((q : Resequencer T)
          → IsWellFormed q
          → Tagged q.state q.buffer
          → Returns (Delivers q) (run q calls))
      → Returns
          (Delivers r)
          (elim o [ none ↦ none | some (d, q) ↦ prefix (drained d) (run q calls) ])
  after_drain r none calls l w k ih = w
  after_drain r (some (d, q)) calls l w k ih =
      prefix-Delivers r q (drained d) (run q calls) l k (ih q w k.0)

  -- From a well-formed resequencer whose buffered messages lie at their keys, whatever the calls
  -- and the sequence numbers of the messages, no call panics; the messages that the client is
  -- handed carry consecutive sequence numbers (modulo 256) from the one that was expected at the
  -- start; and the one that is expected at the end is the next.
  pub run-Delivers :
      (r : Resequencer T) (calls : List (Call T))
      → All InRange calls
      → IsWellFormed r
      → Tagged r.state r.buffer
      → Returns (Delivers r) (run r calls)
  unfolding run
  run-Delivers r [] h w t = ground arith
  run-Delivers r (processes m ∷ calls) h w t =
      let (p, r') = process (seq_of m) m r in
      let k = process-parts-Keeps m r.state r.buffer r.next_seq h.0 w t in
      prefix-Delivers r r' (processed p) (run r' calls) w.in_range k
        (run-Delivers r' calls h.1 (process-IsWellFormed (seq_of m) m r w) k.0)
  run-Delivers r (drains ∷ calls) h w t =
      after_drain r (drain r) calls w.in_range (drain-IsWellFormed r w)
        (drain-parts-Keeps r.state r.buffer r.next_seq w t) (λ q. run-Delivers q calls h.1)
