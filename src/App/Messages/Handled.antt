-- ===== src/App/Messages/Handled.antt =====
-- What every message keeps: the invariant, and no panic.
use srad.Prelude.{
  ℕ, ◌+◌, ◌≤◌, ◌≡◌, refl, sym, subst, ◌∙◌, Bool, true, Option, none, some, List, if_cases, ◌||◌,
  ltb, not, Result, ok, err, length, arith, Returns, Returns-imp, and_then,
}
use srad.Types.Text.{Text}
use srad.Types.Payload.{Payload}
use srad.App.Payloads.{PayloadError}
use srad.App.Events.{DecodedNodeEvent, DecodedDeviceEvent, node_from_message, device_from_message}
use srad.App.Resequencer
use srad.App.Resequencer.{
  Resequencer, ProcessResult, message_next_in_sequence, out_of_sequence_message_inserted,
  duplicate_message_sequence,
}
use srad.App.Resequencer.Invariant.{IsWellFormed, process-IsWellFormed}
use srad.App.Device.{MetricStore, LifecycleState, birthed, stale}
use srad.App.Node.{Node, Clock, NodeInput, ResequenceableEvent, is_birthed, issue_rebirth}
use srad.App.Node.Invariant.{
  Inv, Handles, issue_rebirth-Handles, handle_birth-Handles, set_stale-Handles,
}
use srad.App.Node.Quiet.{Quiet-Handles, Quiet-then, handle_death-Handles}
use srad.App.Messages.{
  Handled, after_process, arm_reorder_timeout, put_resequencer, process_in_sequence_message,
  handle_resequencable_message, or_rebirth, handle_sequenced, on_node_event, on_device_event,
  handle_message,
}
use srad.App.Messages.Frame.{
  Frame, Frame-refl, Frame-trans, Processed, Sequenced, process-Processed, put-Sequenced,
  and_if_ok-Sequenced, drain-Sequenced,
}

module _ (M : MetricStore) where
  open M use {Store}

  -- A birthed node that stays so keeps the invariant.
  birthed-Inv : (n n' : Node Store) → is_birthed n.lifecycle_state ≡ true → Sequenced n n' → Inv n'
  birthed-Inv n n' b s =
      let e : n'.lifecycle_state ≡ n.lifecycle_state = s.0.lifecycle_state in
      record {
        well_formed = s.1;
        no_buffer = λ x. absurd (not_stale n.lifecycle_state b (sym e ∙ x));
        no_timer = λ x. absurd (not_stale n.lifecycle_state b (sym e ∙ x));
        stale_devices = λ x. absurd (not_stale n.lifecycle_state b (sym e ∙ x));
      }
    where
      not_stale : (l : LifecycleState) → is_birthed l ≡ true → l ≡ stale → ⊥
      not_stale birthed h x = cc
      not_stale stale h x = cc

  task_set : (b : Bool) (n : Node Store) → Frame n (record n { resequence_timeout_task = b })
  task_set b n = record {
    quiet = record { id = refl; config = refl; published = refl; last_rebirth = refl };
    lifecycle_state = refl;
    birth_timestamp = refl;
    bdseq = refl;
    stale_timestamp = refl;
    rebirth_rx = refl;
  }

  arm-Sequenced :
      (n : Node Store) → IsWellFormed n.resequencer → Sequenced n (arm_reorder_timeout M n)
  unfolding arm_reorder_timeout
  arm-Sequenced n w =
      if_cases (λ n'. Sequenced n n') n.resequence_timeout_task _ _ (λ e. (Frame-refl n, w))
        (λ e.
          elim n.config.rebirth_config.reorder_timeout
            as (λ o.
              Sequenced n (elim o [
                | none ↦ n
                | some duration ↦ record n { resequence_timeout_task = true }
              ])) [ none ↦ (Frame-refl n, w) | some d ↦ (task_set true n, w) ])

  after_process-Sequenced :
      (p : ProcessResult ResequenceableEvent) (n : Node Store)
      → IsWellFormed n.resequencer
      → Returns (λ h. Sequenced n h.1) (after_process M p n)
  after_process-Sequenced (message_next_in_sequence m) n w =
      and_if_ok-Sequenced M n n _ (process_in_sequence_message M m n) (Frame-refl n)
        (process-Processed M m n) w
        (λ n' e w'. drain-Sequenced M (length n'.resequencer.buffer + 1) n' (omega arith) w')
  after_process-Sequenced out_of_sequence_message_inserted n w = arm-Sequenced n w
  after_process-Sequenced duplicate_message_sequence n w = (Frame-refl n, w)

  Processed-Sequenced :
      (n n' : Node Store) → IsWellFormed n.resequencer → Processed n n' → Sequenced n n'
  Processed-Sequenced n n' w p = (p.0, subst IsWellFormed (sym p.1) w)

  in_sequence :
      (seq : ℕ) (m : ResequenceableEvent) (n : Node Store)
      → IsWellFormed n.resequencer
      → let (p, r) = Resequencer.process seq m n.resequencer in
        Returns (λ h. Sequenced n h.1) (after_process M p (put_resequencer M n r))
  in_sequence seq m n w =
      let (p, r) = Resequencer.process seq m n.resequencer in
      let n' : Node Store = put_resequencer M n r in
      let w' = process-IsWellFormed seq m n.resequencer w in
      let s = put-Sequenced M n r w' in
      Returns-imp (after_process M p n') (λ h q. (Frame-trans n n' h.1 s.0 q.0, q.1))
        (after_process-Sequenced p n' w')

  -- The node that a message leaves, before a rebirth is requested.
  sequenced_message :
      (seq t : ℕ) (m : ResequenceableEvent) (n : Node Store)
      → Inv n
      → Returns (λ h. Frame n h.1 × Inv h.1) (handle_resequencable_message M seq t m n)
  unfolding handle_resequencable_message
  sequenced_message seq t m n h =
      let P : Option (Handled M) → Type 0 = Returns (λ x. Frame n x.1 × Inv x.1) in
      if_cases P (ltb t n.birth_timestamp || ltb t n.stale_timestamp) _ _ (λ e. (Frame-refl n, h))
        λ e.
          if_cases P (not (is_birthed n.lifecycle_state)) _ _ (λ f. (Frame-refl n, h))
            λ f.
              let b : is_birthed n.lifecycle_state ≡ true = ground arith in
              if_cases P (not n.config.resequence_messages) _ _
                (λ g.
                  let s = Processed-Sequenced n _ h.well_formed (process-Processed M m n) in
                  (s.0, birthed-Inv n _ b s))
                (λ g.
                  Returns-imp {Q = λ x. Frame n x.1 × Inv x.1} _
                    (λ x s. (s.0, birthed-Inv n x.1 b s)) (in_sequence seq m n h.well_formed))

  or_rebirth-Handles :
      (clock : Clock) (n : Node Store) (h : Handled M)
      → n.last_rebirth ≤ clock.now
      → Frame n h.1 × Inv h.1
      → Returns (Handles clock n) (or_rebirth M clock h)
  or_rebirth-Handles clock n (ok u, n') l s = Quiet-Handles clock n n' s.0.quiet s.1
  or_rebirth-Handles clock n (err reason, n') l s =
      Returns-imp (issue_rebirth M clock reason n') (λ x. Quiet-then clock n n' x s.0.quiet)
        (issue_rebirth-Handles M clock reason n'
          (subst (λ x. x ≤ clock.now) (sym s.0.quiet.last_rebirth) l) s.1)

  and_then-Handles :
      (clock : Clock) (n : Node Store) (o : Option (Handled M))
      → n.last_rebirth ≤ clock.now
      → Returns (λ h. Frame n h.1 × Inv h.1) o
      → Returns (Handles clock n) (and_then o (or_rebirth M clock))
  and_then-Handles clock n none l s = s
  and_then-Handles clock n (some h) l s = or_rebirth-Handles clock n h l s

  pub handle_sequenced-Handles :
      (clock : Clock) (seq t : ℕ) (m : ResequenceableEvent) (n : Node Store)
      → n.last_rebirth ≤ clock.now
      → Inv n
      → Returns (Handles clock n) (handle_sequenced M clock seq t m n)
  unfolding handle_sequenced
  handle_sequenced-Handles clock seq t m n l h =
      and_then-Handles clock n (handle_resequencable_message M seq t m n) l
        (sequenced_message seq t m n h)

  module _ (decode_bytes : List ℕ → Result Text Payload) (clock : Clock) (n : Node Store)
      (l : n.last_rebirth ≤ clock.now) (h : Inv n) where
    unchanged : Handles clock n n
    unchanged = Quiet-Handles clock n n (Frame-refl n).quiet h

    on_node_event-Handles :
        (e : Result PayloadError (Option DecodedNodeEvent))
        → Returns (Handles clock n) (on_node_event M decode_bytes clock e n)
    on_node_event-Handles (ok (some (DecodedNodeEvent.birth b))) =
        handle_birth-Handles M clock b n l h
    on_node_event-Handles (ok (some (DecodedNodeEvent.death d))) =
        handle_death-Handles M clock d.bdseq clock.received n l h
    on_node_event-Handles (ok (some (DecodedNodeEvent.data_event d))) =
        handle_sequenced-Handles clock d.seq d.timestamp _ n l h
    on_node_event-Handles (ok none) = unchanged
    on_node_event-Handles (err e) = issue_rebirth-Handles M clock _ n l h

    on_device_event-Handles :
        (name : Text) (e : Result PayloadError (Option DecodedDeviceEvent))
        → Returns (Handles clock n) (on_device_event M decode_bytes clock name e n)
    on_device_event-Handles name (ok (some (DecodedDeviceEvent.birth b))) =
        handle_sequenced-Handles clock b.seq b.timestamp _ n l h
    on_device_event-Handles name (ok (some (DecodedDeviceEvent.death d))) =
        handle_sequenced-Handles clock d.seq d.timestamp _ n l h
    on_device_event-Handles name (ok (some (DecodedDeviceEvent.data_event d))) =
        handle_sequenced-Handles clock d.seq d.timestamp _ n l h
    on_device_event-Handles name (ok none) = unchanged
    on_device_event-Handles name (err e) = issue_rebirth-Handles M clock _ n l h

    -- Whatever message reaches a node, decoded or raw, valid or not, at a time that is not before
    -- the last rebirth request: its handler does not panic, keeps the invariant, the identity and
    -- the configuration, and publishes at most one rebirth command, and none before the cooldown
    -- has passed.
    pub handle_message-Handles :
        (i : NodeInput) → Returns (Handles clock n) (handle_message M decode_bytes clock i n)
    unfolding handle_message
    handle_message-Handles (NodeInput.raw m) =
        on_node_event-Handles (node_from_message decode_bytes m)
    handle_message-Handles (NodeInput.raw_device name m) =
        on_device_event-Handles name (device_from_message decode_bytes m)
    handle_message-Handles (NodeInput.nbirth b) = handle_birth-Handles M clock b n l h
    handle_message-Handles (NodeInput.ndeath d t) = handle_death-Handles M clock d.bdseq t n l h
    handle_message-Handles (NodeInput.ndata d) =
        handle_sequenced-Handles clock d.seq d.timestamp _ n l h
    handle_message-Handles (NodeInput.dbirth name b) =
        handle_sequenced-Handles clock b.seq b.timestamp _ n l h
    handle_message-Handles (NodeInput.ddata name d) =
        handle_sequenced-Handles clock d.seq d.timestamp _ n l h
    handle_message-Handles (NodeInput.ddeath name d) =
        handle_sequenced-Handles clock d.seq d.timestamp _ n l h
    handle_message-Handles NodeInput.offline = set_stale-Handles M clock clock.received n h
