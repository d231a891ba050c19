-- ===== src/App/Resequencer/Reorder/Drain.antt =====
-- What the drain loop hands out, and what it leaves in the buffer.
use srad.Prelude.{
  ℕ, zero, suc, ◌+◌, ◌%◌, ◌≤◌, ◌<◌, ◌≡◌, refl, sym, ap, subst, false, Option, none, some, List, [],
  ◌∷◌, map, arith, ◌==◌, ==_iff, Bool-cases, inl, inr, length, Returns,
}
use srad.App.Resequencer.{Resequencer, State, good, re_sequencing, drain, wrapping_add, settle}
use srad.App.Resequencer.Invariant.{Ascending, Ascending-mono, parts}
use srad.App.Resequencer.Order.{prefix}
use srad.App.Resequencer.Reorder.{
  drain_all, one_below, count_buffer, range, StateIs, Entries, Entries-above, Entries-mono,
}

module _ {ℓ} {T : Type ℓ} (index : T → ℕ) (n : ℕ) where
  -- The next place is `d`; the buffer's keys are places less `o`.
  pub record At (o d : ℕ) (r : Resequencer T) : Type 0 where
    pub low : o ≤ d
    pub next : r.next_seq ≡ (n + d) % 256
    pub state : StateIs index n o r.state r.buffer
    pub ascending : Ascending 0 r.buffer
    pub entries : Entries index n o d r.buffer

  -- `d` places were handed out before, the buffer was `b`.
  pub record Drained (o d : ℕ) (b : List (ℕ × T)) (x : List T × Resequencer T) : Type 0 where
    pub at : At o (d + length x.0) x.1
    pub missing : Entries index n o (suc (d + length x.0)) x.1.buffer
    pub in_order : map index x.0 ≡ range index n d (length x.0)
    pub counts :
        (i : ℕ)
        → one_below index n i (d + length x.0) + count_buffer index n i x.1.buffer
          ≡ one_below index n i d + count_buffer index n i b

  pub prefix-Drained :
      (o d k : ℕ) (m : T) (b : List (ℕ × T)) (x : Option (List T × Resequencer T))
      → index m ≡ d
      → Returns (Drained o (suc d) b) x
      → Returns (Drained o d ((k, m) ∷ b)) (prefix (m ∷ []) x)
  prefix-Drained o d k m b none e h = h
  prefix-Drained o d k m b (some (out, r)) e h =
      let f : suc d + length out ≡ d + suc (length out) = omega arith in
      record {
        at = subst (λ t. At o t r) f h.at;
        missing = subst (λ t. Entries index n o (suc t) r.buffer) f h.missing;
        in_order = ground (arith, h.in_order);
        counts = λ i. ground (arith, f, h.counts i);
      }

  settle-StateIs :
      (o x : ℕ) (k : ℕ) (m : T) (b : List (ℕ × T))
      → StateIs index n o (re_sequencing x) ((k, m) ∷ b)
      → StateIs index n o (settle b (re_sequencing x)) b
  settle-StateIs o x k m [] h = tt
  settle-StateIs o x k m (_ ∷ b) h = h

  popped-At :
      (o d x k next : ℕ) (m : T) (b : List (ℕ × T))
      → At o d (parts (re_sequencing x) ((k, m) ∷ b) next)
      → index m ≡ d
      → At o (suc d) (parts (settle b (re_sequencing x)) b (wrapping_add next 1))
  popped-At o d x k next m b a e = record {
    low = omega (arith, a.low);
    next = omega (arith, a.next);
    state = settle-StateIs o x k m b a.state;
    ascending = Ascending-mono 0 (suc k) b (omega arith) a.ascending.2;
    entries =
        Entries-above index n o (suc d) (suc k) b (omega (arith, a.entries.0)) a.ascending.2
          (Entries-mono index n o 0 d b (omega arith) a.entries.3);
  }

  -- The first key is that of the next place exactly when the test passes.
  first_key :
      (o d x k next : ℕ) (m : T) (b : List (ℕ × T))
      → At o d (parts (re_sequencing x) ((k, m) ∷ b) next)
      → (wrapping_add k x ≡ next)
      → index m ≡ d
  first_key o d x k next m b a e =
      omega (arith, a.next, a.state, a.low, a.entries.0, a.entries.1, a.entries.2, e)

  -- Nothing was handed out: the next place is not in the buffer.
  pub Drained-nil :
      (o d : ℕ) (r : Resequencer T)
      → At o d r
      → Entries index n o (suc d) r.buffer
      → Drained o d r.buffer ([], r)
  Drained-nil o d r a e =
      let f : d ≡ d + 0 = omega arith in
      record {
        at = subst (λ t. At o t r) f a;
        missing = subst (λ t. Entries index n o (suc t) r.buffer) f e;
        in_order = refl;
        counts = λ i. ap (λ t. one_below index n i t + count_buffer index n i r.buffer) (sym f);
      }

  first_key_ne :
      (o d x k next : ℕ) (m : T) (b : List (ℕ × T))
      → At o d (parts (re_sequencing x) ((k, m) ∷ b) next)
      → (wrapping_add k x == next) ≡ false
      → Entries index n o (suc d) ((k, m) ∷ b)
  first_key_ne o d x k next m b a e =
      let above : suc d ≤ index m =
        ground (arith, a.next, a.state, a.low, a.entries.0, a.entries.1, a.entries.2, e) in
      Entries-above index n o (suc d) k ((k, m) ∷ b) (omega (arith, a.entries.0))
        (omega arith, a.ascending.1, a.ascending.2)
        (Entries-mono index n o 0 d ((k, m) ∷ b) (omega arith) a.entries)

  pub drain_all-Drained :
      (fuel o d : ℕ) (s : State) (b : List (ℕ × T)) (next : ℕ)
      → length b < fuel
      → At o d (parts s b next)
      → Returns (Drained o d b) (drain_all fuel (parts s b next))
  unfolding drain_all drain
  drain_all-Drained zero o d s b next h a = absurd (omega arith)
  drain_all-Drained (suc fuel) o d good [] next h a = Drained-nil o d _ a tt
  drain_all-Drained (suc fuel) o d good (x ∷ b) next h a = absurd a.state
  drain_all-Drained (suc fuel) o d (re_sequencing x) [] next h a = absurd a.state
  drain_all-Drained (suc fuel) o d (re_sequencing x) ((k, m) ∷ b) next h a =
      elim (Bool-cases (wrapping_add k x == next)) [
        | inl e ↦
            let f = first_key o d x k next m b a ((==_iff _ _).0 e) in
            rw (e, Returns)
              (prefix-Drained o d k m b _ f (
                drain_all-Drained fuel o (suc d) (settle b (re_sequencing x)) b
                  (wrapping_add next 1) (omega arith) (popped-At o d x k next m b a f)))
        | inr e ↦ rw (e, Returns) (Drained-nil o d _ a (first_key_ne o d x k next m b a e))
      ]
