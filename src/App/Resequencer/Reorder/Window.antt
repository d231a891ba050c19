-- ===== src/App/Resequencer/Reorder/Window.antt =====
-- A whole window of messages, in any order of arrival.
use srad.Prelude.{
  ℕ, zero, suc, ◌+◌, ◌%◌, ◌≤◌, ◌<◌, ◌≡◌, refl, ap, ap₂, ◌∙◌, Option, none, some, List, [], ◌∷◌,
  ◌++◌, map, arith, length, length-append, Returns, Returns-imp,
}
use srad.App.Resequencer.{Resequencer, State, good, re_sequencing}
use srad.App.Resequencer.Invariant.{parts}
use srad.App.Resequencer.Order.{prefix}
use srad.App.Resequencer.Reorder.{
  receive_all, then_receive, one_below, count, count_buffer, range, Entries,
}
use srad.App.Resequencer.Reorder.Drain.{At, Drained}
use srad.App.Resequencer.Reorder.Delivery.{Received, receive-parts-Received}

module _ {T : Type 0} (index : T → ℕ) (n : ℕ) where
  count_above :
      (o d i : ℕ) (b : List (ℕ × T)) → i < d → Entries index n o d b → count_buffer index n i b ≡ 0
  count_above o d i [] h t = refl
  count_above o d i ((k, m) ∷ b) h t = ground (arith, count_above o d i b)

  range-add : (d a b : ℕ) → range index n d (a + b) ≡ range index n d a ++ range index n (d + a) b
  range-add d zero b = ground arith
  range-add d (suc a) b =
      let e : suc a + b ≡ suc (a + b) = omega arith in
      let f : d + suc a ≡ suc d + a = omega arith in rw (e, f) (ap (◌∷◌ d) (range-add (suc d) a b))

  map-append : (xs ys : List T) → map index (xs ++ ys) ≡ map index xs ++ map index ys
  map-append [] ys = refl
  map-append (x ∷ xs) ys = ground (arith, map-append xs ys)

  -- What is handed out, buffered and still to come makes up the window of `w` places.
  abbrev Total : ℕ → ℕ → List (ℕ × T) → List T → Type 0
  Total w d b ms =
      (i : ℕ)
      → one_below index n i d + count_buffer index n i b + count index n i ms
        ≡ one_below index n i w

  -- The rest of the window was handed out in order, and the buffer is empty.
  record Complete (w d : ℕ) (x : List T × Resequencer T) : Type 0 where
    places : d + length x.0 ≡ w
    in_order : map index x.0 ≡ range index n d (length x.0)
    left : x.1 ≡ parts good [] ((n + w) % 256)

  empty_left :
      (o w d next : ℕ) (s : State) (b : List (ℕ × T))
      → At index n o d (parts s b next)
      → Entries index n o (suc d) b
      → Total w d b []
      → (d ≡ w) × (parts s b next ≡ parts good [] ((n + w) % 256))
  empty_left o w d next good [] a missing t =
      let e : d ≡ w = ground (arith, t d, t w) in
      (e, ap (parts good []) (a.next ∙ ap (λ x. (n + x) % 256) e))
  empty_left o w d next good (y ∷ b) a missing t = absurd a.state
  empty_left o w d next (re_sequencing x) [] a missing t = absurd a.state
  empty_left o w d next (re_sequencing x) ((k, m) ∷ b) a missing t = absurd (
      ground
        (arith, t d, t w, t (index m), count_above o (suc d) d ((k, m) ∷ b) (omega arith) missing))

  prepend-Complete :
      (w d : ℕ) (xs : List T) (o : Option (List T × Resequencer T))
      → map index xs ≡ range index n d (length xs)
      → Returns (Complete w (d + length xs)) o
      → Returns (Complete w d) (prefix xs o)
  prepend-Complete w d xs none q c = c
  prepend-Complete w d xs (some (out, r)) q c = record {
    places = omega (arith, c.places, length-append xs out);
    in_order = rw (length-append, map-append, range-add) (ap₂ ◌++◌ q c.in_order);
    left = c.left;
  }

  -- What is known before each arrival.
  record Ready (w o d : ℕ) (r : Resequencer T) (ms : List T) : Type 0 where
    at : At index n o d r
    missing : Entries index n o (suc d) r.buffer
    total : Total w d r.buffer ms

  after_receive :
      (w o d : ℕ) (m : T) (b : List (ℕ × T)) (ms : List T) (x : List T × Resequencer T)
      → Total w d b (m ∷ ms)
      → Drained index n o d ((0, m) ∷ b) x
      → Ready w o (d + length x.0) x.1 ms
  after_receive w o d m b ms x t h = record {
    at = h.at;
    missing = h.missing;
    total = λ i. omega (arith, t i, h.counts i);
  }

  then_receive-Complete :
      (w d : ℕ) (m : T) (b : List (ℕ × T)) (ms : List T) (x : Option (List T × Resequencer T))
      → Total w d b (m ∷ ms)
      → ((o e : ℕ) (r : Resequencer T)
          → Ready w o e r ms
          → Returns (Complete w e) (receive_all index n ms r))
      → Returns (Received index n d m b) x
      → Returns (Complete w d) (then_receive (receive_all index n ms) x)
  then_receive-Complete w d m b ms none t ih h = h
  then_receive-Complete w d m b ms (some (xs, r)) t ih (o, h) =
      prepend-Complete w d xs (receive_all index n ms r) h.in_order
        (ih o (d + length xs) r (after_receive w o d m b ms (xs, r) t h))

  receive_all-Complete :
      (w o d : ℕ) (ms : List T) (r : Resequencer T)
      → w ≤ 256
      → Ready w o d r ms
      → Returns (Complete w d) (receive_all index n ms r)
  unfolding receive_all
  receive_all-Complete w o d [] r l h =
      let (e, f) = empty_left o w d r.next_seq r.state r.buffer h.at h.missing h.total in
      record { places = omega (arith, e); in_order = refl; left = f }
  receive_all-Complete w o d (m ∷ ms) r l h =
      let t = h.total (index m) in
      then_receive-Complete w d m r.buffer ms _ h.total
        (λ p e q k. receive_all-Complete w p e ms q l k)
        (receive-parts-Received index n o d m r.state r.buffer r.next_seq h.at h.missing
          (ground (arith, t)) (ground (arith, t)) (ground (arith, t)))

  -- A resequencer that expects `n` and holds nothing receives messages, each with the sequence
  -- number (modulo 256) of its place in a window of at most 256 places, every place exactly once,
  -- in any order of arrival. Then no call panics, the client processes exactly the places
  -- 0, 1, …, w - 1 in this order, and the resequencer is left expecting the number after the
  -- window and holding nothing.
  pub receive_all-in_order :
      (w : ℕ) (ms : List T)
      → n < 256
      → w ≤ 256
      → ((i : ℕ) → count index n i ms ≡ one_below index n i w)
      → Returns
          (λ x. (map index x.0 ≡ range index n 0 w) × (x.1 ≡ parts good [] ((n + w) % 256)))
          (receive_all index n ms (parts good [] n))
  receive_all-in_order w ms l h each =
      Returns-imp (receive_all index n ms (parts good [] n))
        (λ x c.
          let e : length x.0 ≡ w = omega (arith, c.places) in
          (c.in_order ∙ ap (range index n 0) e, c.left))
        (receive_all-Complete w 0 0 ms (parts good [] n) h (record {
          at = record {
            low = omega arith;
            next = omega arith;
            state = tt;
            ascending = tt;
            entries = tt;
          };
          missing = tt;
          total = λ i. ground (arith, each i);
        }))
