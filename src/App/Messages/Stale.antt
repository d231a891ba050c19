-- ===== src/App/Messages/Stale.antt =====
-- A stale node takes no data: its sequenced messages change nothing but the rebirth requests.
use srad.Prelude.{
  ℕ, ◌≤◌, ◌≡◌, refl, ltb, ◌||◌, not, true, ok, err, Result, if_cases, Returns, and_then, arith, ◌∷◌,
}
use srad.App.Rebirth.{RebirthReason}
use srad.App.Device.{MetricStore, stale}
use srad.App.Node.{Node, Clock, ResequenceableEvent, is_birthed, publish_rebirth, set_stale}
use srad.App.Node.Invariant.{eval_rebirth_cases}
use srad.App.Messages.{handle_resequencable_message, handle_sequenced, or_rebirth}

-- All but the rebirth requests is as it was.
pub record Ignores {Store : Type 0} (n n' : Node Store) : Type 0 where
  pub lifecycle_state : n'.lifecycle_state ≡ n.lifecycle_state
  pub store : n'.store ≡ n.store
  pub devices : n'.devices ≡ n.devices
  pub resequencer : n'.resequencer ≡ n.resequencer
  pub birth_timestamp : n'.birth_timestamp ≡ n.birth_timestamp
  pub stale_timestamp : n'.stale_timestamp ≡ n.stale_timestamp
  pub bdseq : n'.bdseq ≡ n.bdseq
  pub no_timer : n'.resequence_timeout_task ≡ n.resequence_timeout_task

Ignores-refl : {Store : Type 0} (n : Node Store) → Ignores n n
Ignores-refl n = record {
  lifecycle_state = refl;
  store = refl;
  devices = refl;
  resequencer = refl;
  birth_timestamp = refl;
  stale_timestamp = refl;
  bdseq = refl;
  no_timer = refl;
}

module _ (M : MetricStore) where
  open M use {Store}

  published-Ignores :
      (clock : Clock) (n : Node Store)
      → n.lifecycle_state ≡ stale
      → Ignores n (publish_rebirth M clock (true, record n { last_rebirth = clock.now }))
  unfolding publish_rebirth set_stale
  published-Ignores clock n e =
      let m : Node Store = record n { last_rebirth = clock.now } in
      if_cases (λ n'. Ignores n (record n' { published = n.id ∷ n.published }))
        (not (is_birthed n.lifecycle_state)) m _
        (λ f. record {
          lifecycle_state = refl;
          store = refl;
          devices = refl;
          resequencer = refl;
          birth_timestamp = refl;
          stale_timestamp = refl;
          bdseq = refl;
          no_timer = refl;
        })
        (λ f. absurd (ground (arith, e)))

  or_rebirth-Ignores :
      (clock : Clock) (n : Node Store) (r : Result RebirthReason (Unit {0}))
      → n.lifecycle_state ≡ stale
      → n.last_rebirth ≤ clock.now
      → Returns (Ignores n) (or_rebirth M clock (r, n))
  or_rebirth-Ignores clock n (ok u) e l = Ignores-refl n
  or_rebirth-Ignores clock n (err reason) e l =
      eval_rebirth_cases M (Returns (Ignores n)) clock reason n l (Ignores-refl n)
        (λ c f. published-Ignores clock n e)

  -- Whatever sequenced message reaches a stale node, of whatever timestamp and sequence number,
  -- nothing of the node changes but what concerns rebirth requests: its state, its store, its
  -- devices, its buffer and its timer are as they were, and its task does not panic.
  pub handle_sequenced-Ignores :
      (clock : Clock) (seq t : ℕ) (m : ResequenceableEvent) (n : Node Store)
      → n.lifecycle_state ≡ stale
      → n.last_rebirth ≤ clock.now
      → Returns (Ignores n) (handle_sequenced M clock seq t m n)
  unfolding handle_sequenced handle_resequencable_message
  handle_sequenced-Ignores clock seq t m n e l =
      if_cases (λ o. Returns (Ignores n) (and_then o (or_rebirth M clock)))
        (ltb t n.birth_timestamp || ltb t n.stale_timestamp) _ _ (λ f. Ignores-refl n)
        (λ f.
          if_cases (λ o. Returns (Ignores n) (and_then o (or_rebirth M clock)))
            (not (is_birthed n.lifecycle_state)) _ _
            (λ g. or_rebirth-Ignores clock n (err RebirthReason.recorded_state_stale) e l)
            (λ g. absurd (ground (arith, e))))
