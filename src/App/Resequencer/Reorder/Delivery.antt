-- ===== src/App/Resequencer/Reorder/Delivery.antt =====
-- Every message of a window is delivered, in order, whatever the order of arrival.
use srad.Prelude.{
  ℕ, suc, ◌+◌, ◌%◌, ◌≤◌, ◌<◌, ◌≡◌, refl, false, List, [], ◌∷◌, arith, ◌==◌, ==_iff, Bool-cases, inl,
  inr, length, Returns, Returns-imp,
}
use srad.App.Resequencer.{
  Resequencer, State, good, re_sequencing, insert_key, process, wrapping_add, wrapping_sub,
}
use srad.App.Resequencer.Invariant.{Ascending, insert_key-Ascending, parts}
use srad.App.Resequencer.Order.{prefix}
use srad.App.Resequencer.Reorder.{
  drain_all, receive, count_buffer, StateIs, Entries, Entries-mono, insert_key-Entries,
  count-insert_key, absent_key,
}
use srad.App.Resequencer.Reorder.Drain.{At, Drained, Drained-nil, prefix-Drained, drain_all-Drained}

module _ {ℓ} {T : Type ℓ} (index : T → ℕ) (n : ℕ) where
  -- `m` arrived; it was handed out with what follows it, or it is buffered.
  abbrev pub Received : ℕ → T → List (ℕ × T) → List T × Resequencer T → Type 0
  Received d m b x = (o : ℕ) × Drained index n o d ((0, m) ∷ b) x

  insert_key-StateIs :
      (o x k : ℕ) (m : T) (b : List (ℕ × T))
      → x ≡ (n + o) % 256
      → StateIs index n o (re_sequencing x) (insert_key k m b)
  insert_key-StateIs o x k m [] h = h
  insert_key-StateIs o x k m ((j, v) ∷ b) h = ground arith

  inserted :
      (o d x k next : ℕ) (m : T) (b : List (ℕ × T))
      → o ≤ d
      → next ≡ (n + d) % 256
      → x ≡ (n + o) % 256
      → k + o ≡ index m
      → index m < 256
      → d < index m
      → Ascending 0 b
      → Entries index n o (suc d) b
      → count_buffer index n (index m) b ≡ 0
      → Drained index n o d ((0, m) ∷ b) ([], parts (re_sequencing x) (insert_key k m b) next)
  inserted o d x k next m b low e s key l h a missing c =
      let r = parts (re_sequencing x) (insert_key k m b) next in
      let later = insert_key-Entries index n o (suc d) k m b key l h missing in
      let at : At index n o d r = record {
        low = low;
        next = e;
        state = insert_key-StateIs o x k m b s;
        ascending =
            insert_key-Ascending 0 k m b (omega arith) (omega arith)
              (absent_key index n o (suc d) k (index m) b key c missing) a;
        entries = Entries-mono index n o d (suc d) (insert_key k m b) (omega arith) later;
      } in
      let kept = Drained-nil index n o d r at later in
      record {
        at = kept.at;
        missing = kept.missing;
        in_order = kept.in_order;
        counts = λ i. omega (arith, kept.counts i, count-insert_key index n i k m b);
      }

  next-At :
      (o d next : ℕ) (s : State) (b : List (ℕ × T))
      → At index n o d (parts s b next)
      → Entries index n o (suc d) b
      → At index n o (suc d) (parts s b (wrapping_add next 1))
  next-At o d next s b a missing = record {
    low = omega (arith, a.low);
    next = omega (arith, a.next);
    state = a.state;
    ascending = a.ascending;
    entries = missing;
  }

  -- The message expected next: the loop runs after it.
  expected :
      (o d next : ℕ) (m : T) (s : State) (b : List (ℕ × T))
      → At index n o d (parts s b next)
      → Entries index n o (suc d) b
      → index m ≡ d
      → Returns
          (Drained index n o d ((0, m) ∷ b))
          (prefix (m ∷ []) (drain_all (length b + 1) (parts s b (wrapping_add next 1))))
  expected o d next m s b a missing e = prefix-Drained index n o d 0 m b _ e (
      drain_all-Drained index n (length b + 1) o (suc d) s b (wrapping_add next 1) (omega arith)
        (next-At o d next s b a missing))

  key_of :
      (o x i : ℕ) → o ≤ i → i < 256 → x ≡ (n + o) % 256 → wrapping_sub ((n + i) % 256) x + o ≡ i
  key_of o x i h l e = omega arith

  place_of : (d next i : ℕ) → d ≤ i → i < 256 → next ≡ (n + d) % 256 → next ≡ (n + i) % 256 → i ≡ d
  place_of d next i h l e f = omega arith

  later_place :
      (d next i : ℕ) → d ≤ i → next ≡ (n + d) % 256 → (next == (n + i) % 256) ≡ false → d < i
  later_place d next i h e f = ground arith

  pub receive-parts-Received :
      (o d : ℕ) (m : T) (s : State) (b : List (ℕ × T)) (next : ℕ)
      → At index n o d (parts s b next)
      → Entries index n o (suc d) b
      → index m < 256
      → d ≤ index m
      → count_buffer index n (index m) b ≡ 0
      → Returns (Received d m b) (receive ((n + index m) % 256) m (parts s b next))
  unfolding receive process
  receive-parts-Received o d m good [] next a missing l h c =
      elim (Bool-cases (next == (n + index m) % 256)) [
        | inl e ↦
            rw (e, Returns)
              (Returns-imp {Q = Received d m []} _ (λ x p. (o, p))
                (expected o d next m good [] a missing
                  (place_of d next (index m) h l a.next ((==_iff _ _).0 e))))
        | inr e ↦
            rw (e, Returns)
              (
                d,
                inserted d d next _ next m [] (omega arith) a.next a.next
                    (key_of d next (index m) h l a.next) l (later_place d next (index m) h a.next e)
                    tt tt refl,
              )
      ]
  receive-parts-Received o d m good (_ ∷ b) next a missing l h c = absurd a.state
  receive-parts-Received o d m (re_sequencing x) [] next a missing l h c = absurd a.state
  receive-parts-Received o d m (re_sequencing x) (y ∷ b) next a missing l h c =
      let i = index m in
      let key = key_of o x i (omega (arith, a.low)) l a.state in
      let absent = absent_key index n o (suc d) _ i (y ∷ b) key c missing in
      elim (Bool-cases (next == (n + i) % 256)) [
        | inl e ↦
            rw (e, absent, Returns)
              (Returns-imp {Q = Received d m (y ∷ b)} _ (λ x p. (o, p))
                (expected o d next m (re_sequencing x) (y ∷ b) a missing
                  (place_of d next i h l a.next ((==_iff _ _).0 e))))
        | inr e ↦
            rw (e, absent, Returns)
              (
                o,
                inserted o d x _ next m (y ∷ b) a.low a.next a.state key l
                    (later_place d next i h a.next e) a.ascending missing c,
              )
      ]
