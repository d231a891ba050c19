-- ===== src/App/Messages/Frame.antt =====
-- What the processing of a message leaves alone, and that the drain loop ends.
use srad.Prelude.{
  ℕ, zero, suc, ◌<◌, ◌≡◌, refl, sym, subst, ◌∙◌, Option, none, some, List, Result, ok, err, lookup,
  list_eq, nat_eq, length, arith, Returns, Returns-imp,
}
use srad.Types.Text.{Text}
use srad.App.Resequencer
use srad.App.Resequencer.{Resequencer, DrainResult, message, empty, sequence_missing}
use srad.App.Resequencer.Invariant.{IsWellFormed, drain-IsWellFormed, Shorter, drain-Shorter}
use srad.App.Payloads.{NData}
use srad.App.Rebirth.{RebirthReason}
use srad.App.Device.{MetricStore, Device, StateUpdateError, device_handle_birth}
use srad.App.Node.{Node, ResequenceableEvent, cancel_reorder_timeout}
use srad.App.Node.Quiet.{Quiet}
use srad.App.Messages.{
  Handled, with_device, update_store, known_device, after_update, process_in_sequence_message,
  get_or_create_device, drain_resequence_buffer, drain_round, and_if_ok, put_resequencer,
}

-- Only the store, the devices, the timer and the resequencer may differ.
pub record Frame {Store : Type 0} (n n' : Node Store) : Type 0 where
  pub quiet : Quiet n n'
  pub lifecycle_state : n'.lifecycle_state ≡ n.lifecycle_state
  pub birth_timestamp : n'.birth_timestamp ≡ n.birth_timestamp
  pub bdseq : n'.bdseq ≡ n.bdseq
  pub stale_timestamp : n'.stale_timestamp ≡ n.stale_timestamp
  pub rebirth_rx : n'.rebirth_rx ≡ n.rebirth_rx

pub Frame-refl : {Store : Type 0} (n : Node Store) → Frame n n
Frame-refl n = record {
  quiet = record { id = refl; config = refl; published = refl; last_rebirth = refl };
  lifecycle_state = refl;
  birth_timestamp = refl;
  bdseq = refl;
  stale_timestamp = refl;
  rebirth_rx = refl;
}

pub Frame-trans : {Store : Type 0} (a b c : Node Store) → Frame a b → Frame b c → Frame a c
Frame-trans a b c f g = record {
  quiet = record {
    id = g.quiet.id ∙ f.quiet.id;
    config = g.quiet.config ∙ f.quiet.config;
    published = g.quiet.published ∙ f.quiet.published;
    last_rebirth = g.quiet.last_rebirth ∙ f.quiet.last_rebirth;
  };
  lifecycle_state = g.lifecycle_state ∙ f.lifecycle_state;
  birth_timestamp = g.birth_timestamp ∙ f.birth_timestamp;
  bdseq = g.bdseq ∙ f.bdseq;
  stale_timestamp = g.stale_timestamp ∙ f.stale_timestamp;
  rebirth_rx = g.rebirth_rx ∙ f.rebirth_rx;
}

-- With the resequencer as it was, too.
abbrev pub Processed : {Store : Type 0} → Node Store → Node Store → Type 0
Processed n n' = Frame n n' × (n'.resequencer ≡ n.resequencer)

-- With a well-formed resequencer.
abbrev pub Sequenced : {Store : Type 0} → Node Store → Node Store → Type 0
Sequenced n n' = Frame n n' × IsWellFormed n'.resequencer

Processed-devices :
    {Store : Type 0} (n : Node Store) (ds : List (Text × Device Store)) (s : Option Store)
    → Processed n (record n { devices = ds; store = s })
Processed-devices n ds s = (
  record {
    quiet = record { id = refl; config = refl; published = refl; last_rebirth = refl };
    lifecycle_state = refl;
    birth_timestamp = refl;
    bdseq = refl;
    stale_timestamp = refl;
    rebirth_rx = refl;
  },
  refl,
)

module _ (M : MetricStore) where
  open M use {Store}

  with_device-Processed :
      (name : Text) (n : Node Store) (r : Result RebirthReason (Unit {0}) × Device Store)
      → Processed n (with_device M name n r).1
  with_device-Processed name n (r, d) = Processed-devices n _ n.store

  after_update-Processed :
      (n : Node Store) (r : Store × Result StateUpdateError (Unit {0}))
      → Processed n (after_update M n r).1
  after_update-Processed n (s, ok u) = Processed-devices n n.devices (some s)
  after_update-Processed n (s, err e) = Processed-devices n n.devices (some s)

  update_store-Processed :
      (d : NData) (s : Option Store) (n : Node Store) → Processed n (update_store M d s n).1
  update_store-Processed d none n = Processed-devices n n.devices n.store
  update_store-Processed d (some s) n =
      after_update-Processed n (M.update_from_data s d.metrics_details)

  known_device-Processed :
      (f : Device Store → Result RebirthReason (Unit {0}) × Device Store) (name : Text)
      (d : Option (Device Store)) (n : Node Store)
      → Processed n (known_device M f name d n).1
  known_device-Processed f name none n = Processed-devices n n.devices n.store
  known_device-Processed f name (some d) n = with_device-Processed name n (f d)

  pub process-Processed :
      (m : ResequenceableEvent) (n : Node Store) → Processed n (process_in_sequence_message M m n).1
  unfolding process_in_sequence_message
  process-Processed (ResequenceableEvent.ndata d) n = update_store-Processed d n.store n
  process-Processed (ResequenceableEvent.dbirth name b) n =
      with_device-Processed name n
        (device_handle_birth M b.metrics_details (get_or_create_device M name n))
  process-Processed (ResequenceableEvent.ddeath name) n =
      known_device-Processed _ name (lookup name n.devices) n
  process-Processed (ResequenceableEvent.ddata name d) n =
      known_device-Processed _ name (lookup name n.devices) n

  pub put-Sequenced :
      (n : Node Store) (r : Resequencer ResequenceableEvent)
      → IsWellFormed r
      → Sequenced n (put_resequencer M n r)
  put-Sequenced n r w = (
    record {
      quiet = record { id = refl; config = refl; published = refl; last_rebirth = refl };
      lifecycle_state = refl;
      birth_timestamp = refl;
      bdseq = refl;
      stale_timestamp = refl;
      rebirth_rx = refl;
    },
    w,
  )

  -- The loop goes on only if the message was processed.
  pub and_if_ok-Sequenced :
      (a n : Node Store) (next : Node Store → Option (Handled M)) (h : Handled M)
      → Frame a n
      → Processed n h.1
      → IsWellFormed n.resequencer
      → ((n' : Node Store)
          → n'.resequencer ≡ n.resequencer
          → IsWellFormed n'.resequencer
          → Returns (λ h. Sequenced n' h.1) (next n'))
      → Returns (λ h. Sequenced a h.1) (and_if_ok M next h)
  and_if_ok-Sequenced a n next (ok u, n') fa p w k =
      Returns-imp (next n') (λ x s. (Frame-trans a n x.1 fa (Frame-trans n n' x.1 p.0 s.0), s.1))
        (k n' p.1 (subst IsWellFormed (sym p.1) w))
  and_if_ok-Sequenced a n next (err e, n') fa p w k =
      (Frame-trans a n n' fa p.0, subst IsWellFormed (sym p.1) w)

  cancelled-Sequenced :
      (n : Node Store) (r : Resequencer ResequenceableEvent)
      → IsWellFormed r
      → Sequenced n (cancel_reorder_timeout (put_resequencer M n r))
  unfolding cancel_reorder_timeout
  cancelled-Sequenced n r w = (
    record {
      quiet = record { id = refl; config = refl; published = refl; last_rebirth = refl };
      lifecycle_state = refl;
      birth_timestamp = refl;
      bdseq = refl;
      stale_timestamp = refl;
      rebirth_rx = refl;
    },
    w,
  )

  drain_round-Sequenced :
      (next : Node Store → Option (Handled M)) (n : Node Store)
      (o : Option (DrainResult ResequenceableEvent × Resequencer ResequenceableEvent))
      → Returns (λ d. IsWellFormed d.1) o
      → Returns (Shorter n.resequencer) o
      → ((n' : Node Store)
          → length n'.resequencer.buffer < length n.resequencer.buffer
          → IsWellFormed n'.resequencer
          → Returns (λ h. Sequenced n' h.1) (next n'))
      → Returns (λ h. Sequenced n h.1) (drain_round M next n o)
  drain_round-Sequenced next n none w s k = w
  drain_round-Sequenced next n (some (message m, r)) w s k =
      let n' : Node Store = put_resequencer M n r in
      and_if_ok-Sequenced n n' next (process_in_sequence_message M m n') (put-Sequenced n r w).0
        (process-Processed m n') w
        (λ n'' e w'.
          k n'' (subst (λ x. length x.buffer < length n.resequencer.buffer) (sym e) s) w')
  drain_round-Sequenced next n (some (empty, r)) w s k = cancelled-Sequenced n r w
  drain_round-Sequenced next n (some (sequence_missing, r)) w s k = put-Sequenced n r w

  -- With more fuel than the buffer holds messages, the loop of `drain_resequence_buffer` ends
  -- without a panic, on an error as well; it leaves the resequencer well-formed, and the lifecycle,
  -- the timestamps, the `bdseq` and the rebirth requests of the node as they were.
  pub drain-Sequenced :
      (fuel : ℕ) (n : Node Store)
      → length n.resequencer.buffer < fuel
      → IsWellFormed n.resequencer
      → Returns (λ h. Sequenced n h.1) (drain_resequence_buffer M fuel n)
  unfolding drain_resequence_buffer
  drain-Sequenced zero n l w = absurd (omega arith)
  drain-Sequenced (suc fuel) n l w =
      drain_round-Sequenced (drain_resequence_buffer M fuel) n (Resequencer.drain n.resequencer)
        (drain-IsWellFormed n.resequencer w) (drain-Shorter n.resequencer w)
        (λ n' s. drain-Sequenced fuel n' (omega arith))
