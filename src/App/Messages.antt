-- ===== src/App/Messages.antt =====
-- srad-app/src/generic_app.rs, `impl Node`: the messages of a node, put in sequence and processed.
-- The proofs are in the modules below.
pub mod Frame
pub mod Handled
pub mod Run
pub mod Stale
pub mod Deferred
pub mod Isolation
use srad.Prelude.{
  ℕ, suc, zero, ◌+◌, Option, none, some, List, ltb, not, ◌||◌, if◌then◌else◌, Result, ok, err,
  lookup, insert, list_eq, nat_eq, length, and_then,
}
use srad.Types.Text.{Text}
use srad.Types.Message.{Message}
use srad.Types.Payload.{Payload}
use srad.App.Payloads.{PayloadError, NData}
use srad.App.Events.{DecodedNodeEvent, DecodedDeviceEvent, node_from_message, device_from_message}
use srad.App.Resequencer
use srad.App.Resequencer.{
  Resequencer, ProcessResult, message_next_in_sequence, out_of_sequence_message_inserted,
  duplicate_message_sequence, DrainResult, message, empty, sequence_missing,
}
use srad.App.Rebirth.{RebirthReason}
use srad.App.Device
use srad.App.Device.{
  MetricStore, Device, device_handle_birth, device_handle_death, device_handle_data,
  StateUpdateError,
}
use srad.App.Node.{
  Node, Clock, NodeInput, ResequenceableEvent, is_birthed, start_reorder_timeout,
  cancel_reorder_timeout, issue_rebirth, set_stale, handle_birth, handle_death, timeout_fired,
  try_send_rebirth,
}

module _ (M : MetricStore) where
  open M use {Store}

  -- A handler's result, beside the node that it leaves.
  abbrev pub Handled : Type 0
  Handled = Result RebirthReason (Unit {0}) × Node Store

  abbrev pub after_update : Node Store → Store × Result StateUpdateError (Unit {0}) → Handled
  after_update n (s, ok _) = (ok tt, record n { store = some s })
  after_update n (s, err _) = (err RebirthReason.invalid_payload, record n { store = some s })

  abbrev pub with_device :
      Text → Node Store → Result RebirthReason (Unit {0}) × Device Store → Handled
  with_device name n (r, d) = (r, record n { devices = insert name d n.devices })

  -- A device that is not known is made, and the application is told of it.
  create_device : Text → Node Store → Device Store
  unfolding Device.new
  create_device name n = elim n.device_created_cb [
    | none ↦ Device.new name
    | some cb ↦ cb (Device.new name)
  ]

  pub get_or_create_device : Text → Node Store → Device Store
  unfolding create_device
  get_or_create_device name n = elim (lookup name n.devices) [
    | some d ↦ d
    | none ↦ create_device name n
  ]

  abbrev pub update_store : NData → Option Store → Node Store → Handled
  update_store d none n = (ok tt, n)
  update_store d (some s) n = after_update n (M.update_from_data s d.metrics_details)

  -- The device that is looked up; one that is not known is an error.
  abbrev pub known_device :
      (Device Store → Result RebirthReason (Unit {0}) × Device Store)
      → Text
      → Option (Device Store)
      → Node Store
      → Handled
  known_device f name none n = (err RebirthReason.unknown_device, n)
  known_device f name (some d) n = with_device name n (f d)

  unfoldable pub process_in_sequence_message : ResequenceableEvent → Node Store → Handled
  unfolding get_or_create_device
  process_in_sequence_message (ResequenceableEvent.ndata d) n = update_store d n.store n
  process_in_sequence_message (ResequenceableEvent.dbirth name b) n =
      with_device name n (device_handle_birth M b.metrics_details (get_or_create_device name n))
  process_in_sequence_message (ResequenceableEvent.ddeath name) n =
      known_device (λ d. (ok tt, device_handle_death M d)) name (lookup name n.devices) n
  process_in_sequence_message (ResequenceableEvent.ddata name data') n =
      known_device (device_handle_data M data') name (lookup name n.devices) n

  -- `?` after `process_in_sequence_message`
  abbrev pub and_if_ok : (Node Store → Option Handled) → Handled → Option Handled
  and_if_ok next (ok _, n) = next n
  and_if_ok next (err reason, n) = some (err reason, n)

  abbrev pub put_resequencer : Node Store → Resequencer ResequenceableEvent → Node Store
  put_resequencer n r = record n { resequencer = r }

  -- What the loop does with a result of `drain`; `next` is its next round.
  abbrev pub drain_round :
      (Node Store → Option Handled)
      → Node Store
      → Option (DrainResult ResequenceableEvent × Resequencer ResequenceableEvent)
      → Option Handled
  drain_round next n none = none
  drain_round next n (some (message m, r)) =
      and_if_ok next (process_in_sequence_message m (put_resequencer n r))
  drain_round next n (some (empty, r)) = some (ok tt, cancel_reorder_timeout (put_resequencer n r))
  drain_round next n (some (sequence_missing, r)) = some (ok tt, put_resequencer n r)

  -- The loop; `none` is a panic, or that the fuel ran out.
  unfoldable pub drain_resequence_buffer : ℕ → Node Store → Option Handled
  drain_resequence_buffer zero n = none
  drain_resequence_buffer (suc fuel) n =
      drain_round (drain_resequence_buffer fuel) n (Resequencer.drain n.resequencer)

  pub arm_reorder_timeout : Node Store → Node Store
  unfolding start_reorder_timeout
  arm_reorder_timeout n = if n.resequence_timeout_task then n else start_reorder_timeout n

  -- Each message that the loop takes leaves one less in the buffer.
  abbrev pub after_process : ProcessResult ResequenceableEvent → Node Store → Option Handled
  after_process (message_next_in_sequence m) n =
      and_if_ok (λ n'. drain_resequence_buffer (length n'.resequencer.buffer + 1) n')
        (process_in_sequence_message m n)
  after_process out_of_sequence_message_inserted n = some (ok tt, arm_reorder_timeout n)
  after_process duplicate_message_sequence n = some (err RebirthReason.reorder_fail, n)

  unfoldable pub handle_resequencable_message :
      ℕ → ℕ → ResequenceableEvent → Node Store → Option Handled
  unfolding arm_reorder_timeout
  handle_resequencable_message seq timestamp m n =
      if ltb timestamp n.birth_timestamp || ltb timestamp n.stale_timestamp
      then some (ok tt, n)
      else if not (is_birthed n.lifecycle_state)
      then some (err RebirthReason.recorded_state_stale, n)
      else if not n.config.resequence_messages
      then some (process_in_sequence_message m n)
      else (let (p, r) = Resequencer.process seq m n.resequencer in
          after_process p (put_resequencer n r))

  abbrev pub or_rebirth : Clock → Handled → Option (Node Store)
  or_rebirth clock (ok _, n) = some n
  or_rebirth clock (err reason, n) = issue_rebirth M clock reason n

  -- `handle_resequenceable_message_wrapper`
  unfoldable pub handle_sequenced :
      Clock → ℕ → ℕ → ResequenceableEvent → Node Store → Option (Node Store)
  handle_sequenced clock seq timestamp m n =
      and_then (handle_resequencable_message seq timestamp m n) (or_rebirth clock)

  module _ (decode_bytes : List ℕ → Result Text Payload) where
    abbrev on_node_event :
        Clock → Result PayloadError (Option DecodedNodeEvent) → Node Store → Option (Node Store)
    on_node_event clock (ok (some (DecodedNodeEvent.birth b))) n = handle_birth M clock b n
    on_node_event clock (ok (some (DecodedNodeEvent.death d))) n =
        handle_death M clock d.bdseq clock.received n
    on_node_event clock (ok (some (DecodedNodeEvent.data_event d))) n =
        handle_sequenced clock d.seq d.timestamp (ResequenceableEvent.ndata d) n
    on_node_event clock (ok none) n = some n
    on_node_event clock (err e) n = issue_rebirth M clock RebirthReason.invalid_payload n

    unfoldable pub handle_raw_node_message : Clock → Message → Node Store → Option (Node Store)
    handle_raw_node_message clock m n = on_node_event clock (node_from_message decode_bytes m) n

    abbrev on_device_event :
        Clock
        → Text
        → Result PayloadError (Option DecodedDeviceEvent)
        → Node Store
        → Option (Node Store)
    on_device_event clock name (ok (some (DecodedDeviceEvent.birth b))) n =
        handle_sequenced clock b.seq b.timestamp (ResequenceableEvent.dbirth name b) n
    on_device_event clock name (ok (some (DecodedDeviceEvent.death d))) n =
        handle_sequenced clock d.seq d.timestamp (ResequenceableEvent.ddeath name) n
    on_device_event clock name (ok (some (DecodedDeviceEvent.data_event d))) n =
        handle_sequenced clock d.seq d.timestamp (ResequenceableEvent.ddata name d) n
    on_device_event clock name (ok none) n = some n
    on_device_event clock name (err e) n = issue_rebirth M clock RebirthReason.invalid_payload n

    unfoldable pub handle_raw_device_message :
        Clock → Text → Message → Node Store → Option (Node Store)
    handle_raw_device_message clock name m n =
        on_device_event clock name (device_from_message decode_bytes m) n

    unfoldable pub handle_message : Clock → NodeInput → Node Store → Option (Node Store)
    unfolding handle_raw_node_message handle_raw_device_message
    handle_message clock (NodeInput.raw m) n = handle_raw_node_message clock m n
    handle_message clock (NodeInput.raw_device name m) n = handle_raw_device_message clock name m n
    handle_message clock (NodeInput.nbirth b) n = handle_birth M clock b n
    handle_message clock (NodeInput.ndeath d timestamp) n = handle_death M clock d.bdseq timestamp n
    handle_message clock (NodeInput.ndata d) n =
        handle_sequenced clock d.seq d.timestamp (ResequenceableEvent.ndata d) n
    handle_message clock (NodeInput.dbirth name b) n =
        handle_sequenced clock b.seq b.timestamp (ResequenceableEvent.dbirth name b) n
    handle_message clock (NodeInput.ddata name d) n =
        handle_sequenced clock d.seq d.timestamp (ResequenceableEvent.ddata name d) n
    handle_message clock (NodeInput.ddeath name d) n =
        handle_sequenced clock d.seq d.timestamp (ResequenceableEvent.ddeath name) n
    handle_message clock NodeInput.offline n = some (set_stale M clock.received n)

    -- A turn of the loop of `run`: a rebirth request that waits, or a message. Between them a holder
    -- of the node's handle may ask for a rebirth, and the sleep of the reorder timer's task may end,
    -- which is aborted when the timer is cancelled.
    pub data Turn : Type 0 where
      rebirth_request : Turn
      input : NodeInput → Turn
      timer : Turn
      asked : RebirthReason → Turn

    take_request : Clock → Option RebirthReason → Node Store → Option (Node Store)
    take_request clock none n = some n
    take_request clock (some reason) n =
        issue_rebirth M clock reason (record n { rebirth_rx = none })

    unfoldable pub turn : Clock → Turn → Node Store → Option (Node Store)
    unfolding take_request try_send_rebirth
    turn clock rebirth_request n = take_request clock n.rebirth_rx n
    turn clock (input i) n = handle_message clock i n
    turn clock timer n = some (if n.resequence_timeout_task then timeout_fired n else n)
    turn clock (asked reason) n = some (try_send_rebirth reason n)
