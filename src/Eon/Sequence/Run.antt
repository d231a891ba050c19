-- ===== src/Eon/Sequence/Run.antt =====
-- Every turn of an edge node keeps its sequence, and so does its run.
use srad.Prelude.{
  ℕ, ◌≤◌, refl, Bool, true, false, Option, none, List, [], ◌∷◌, not, if◌then◌else◌, Returns,
  Returns-then, Option-cases, inl, inr, if_cases, arith, is_some, lookup, nat_eq, Result, ok, err,
  ltb, ◌-◌,
}
use srad.Types.Text.{Text}
use srad.Types.Payload.{Payload}
use srad.Types.Topic.{validate_name}
use srad.Types.Message.{Message, decode}
use srad.Eon.Templates.{TemplateRegistry}
use srad.Eon.State.{
  Core, World, with_state, set_dead, ready_to_birth, create_last_will, generate_death_payload,
  death_topic, try_publish_node_message, disconnect, disconnect_with_will,
}
use srad.Eon.Device.{Device, device_turn}
use srad.Eon.DeviceMap.{add_device, DeviceRegistrationError, DeviceMap}
use srad.Eon.Node.{Node, call, change_state, command_rebirth, succeeded}
use srad.Eon.Session.{
  on_offline, on_rebirth_command, on_sparkplug_message, on_command, is_cmd, asks_rebirth, cancel,
  register_device, valid_device, added,
}
use srad.Eon.Run.{Turn, reading, with_device, turn, run, stop, start, published}
use srad.Eon.Sequence.{Inv, dead-Inv}
use srad.Eon.Sequence.Births.{Registrable}
use srad.Eon.Sequence.Devices.{device_turn-Inv, device_publish-Inv, node_publish-Inv}
use srad.Eon.Sequence.Sessions.{
  Good, call-Good, node_rebirth-Good, command_rebirth-Good, try_online-Good,
}
use srad.Eon.Sequence.Hosts.{later-Good, on_offline-Good, host_state-Good}

module _ (W : World) where
  rebirth_command-Good :
      (t now : ℕ) (n : Node)
      → t ≤ now
      → Good W t n
      → Returns (Good W now) (on_rebirth_command W now n)
  unfolding on_rebirth_command
  rebirth_command-Good t now n l h =
      let g : Good W now n = record {
        core = h.core;
        registry = h.registry;
        requested = omega (arith, h.requested, l);
      } in
      if_cases (Returns (Good W now)) (ltb now n.last_node_rebirth_request) _ _
        (λ e. ground (arith, g.requested))
        λ e.
          if_cases (Returns (Good W now))
            (ltb (now - n.last_node_rebirth_request) n.node_rebirth_request_cooldown) _ _ (λ f. g)
            λ f.
              Returns-then (Good W now) (command_rebirth W n) _ (command_rebirth-Good W now n g)
                (λ m k. record { core = k.core; registry = k.registry; requested = omega arith })

  command-Good :
      {E : Type 0} (t now : ℕ) (p : Result E Payload) (n : Node)
      → t ≤ now
      → Good W t n
      → Returns (Good W now) (on_command W now p n)
  unfolding on_command
  command-Good t now (err e) n l h = later-Good W t now n l h
  command-Good t now (ok p) n l h =
      if_cases (Returns (Good W now)) (asks_rebirth false p.metrics) _ _
        (λ e. rebirth_command-Good t now n l h) (λ e. later-Good W t now n l h)

  node_message-Good :
      (t now : ℕ) (m : Message) (n : Node)
      → t ≤ now
      → Good W t n
      → Returns (Good W now) (on_sparkplug_message W now m n)
  unfolding on_sparkplug_message
  node_message-Good t now m n l h =
      if_cases (Returns (Good W now)) (is_cmd m.kind) _ _
        (λ e. command-Good t now (decode W.decode_payload m.payload) n l h)
        (λ e. later-Good W t now n l h)

  -- The node's own end: it publishes its death, and nothing after it.
  cancel-Good : (t : ℕ) (n : Node) → Good W t n → Good W t (cancel W n)
  unfolding cancel death_topic set_dead
  cancel-Good t n h =
      if_cases (Good W t) (not n.core.state.running) _ _ (λ e. h)
        λ e.
          let n' : Node = call disconnect_with_will n in
          let g = call-Good W t disconnect_with_will n refl tt h in
          let c =
            try_publish_node_message (death_topic n.core.state)
              (generate_death_payload n.core.state) in
          let d =
            call-Good W t c (change_state set_dead n') (unfold generate_death_payload in refl) tt
              (record {
                core = dead-Inv W n'.core g.core;
                registry = h.registry;
                requested = h.requested;
              }) in
          if_cases (Good W t) (succeeded W n') _ _ (λ f. d)
            (λ f. call-Good W t disconnect (call c (change_state set_dead n')) refl tt d)

  running-Inv :
      (b : Bool) (s : Core) → Inv W s → Inv W (with_state (λ x. record x { running = b }) s)
  unfolding ready_to_birth create_last_will generate_death_payload
  running-Inv b s h = record {
    online = h.online;
    ready = h.ready;
    seq = h.seq;
    will = h.will;
    bdseq = h.bdseq;
    in_order = h.in_order;
  }

  stop-Good : (t : ℕ) (n : Node) → Good W t n → Good W t (stop W n)
  unfolding stop
  stop-Good t n h =
      let n' : Node = if n.core.state.inner.online then on_offline W n else n in
      let g =
        if_cases (Good W t) n.core.state.inner.online (on_offline W n) n
          (λ e. on_offline-Good W t n h) (λ e. h) in
      record {
        core = running-Inv false n'.core g.core;
        registry = g.registry;
        requested = g.requested;
      }

  -- A use of a device keeps the sequence.
  with_device-Good :
      (t k : ℕ) (f : Device × Core → Device × Core) (n : Node)
      → ((d : Device) → Inv W n.core → Inv W (f (d, n.core)).1)
      → Good W t n
      → Good W t (with_device k f n)
  with_device-Good t k f n i h = elim (Option-cases (lookup k n.devices.tasks)) [
    | inl e ↦ rw (with_device, e) h
    | inr (d, e) ↦
        rw (with_device, e)
          (record { core = i d h.core; registry = h.registry; requested = h.requested })
  ]

  added-Good :
      (t : ℕ) (r : Result DeviceRegistrationError (ℕ × DeviceMap)) (n : Node)
      → Good W t n
      → Good W t (added W n r).1
  added-Good t (err e) n h = h
  added-Good t (ok (k, m)) n h = record {
    core = h.core;
    registry = h.registry;
    requested = h.requested;
  }

  registered-Good :
      (t : ℕ) (v : Result Text (Unit {0})) (name : Text) (n : Node)
      → Good W t n
      → Good W t (valid_device W v name n).1
  unfolding valid_device
  registered-Good t (err e) name n h = h
  registered-Good t (ok u) name n h = added-Good t (add_device W.hash name n.devices) n h

  -- A turn whose clock's reading is not before the last one does not panic, and keeps the sequence.
  pub turn-Good :
      (t : ℕ) (x : Turn) (n : Node)
      → t ≤ reading t x
      → Good W t n
      → Returns (Good W (reading t x)) (turn W x n)
  unfolding turn register_device published
  turn-Good t (Turn.client_online now) n l h =
      let g = later-Good W t now n l h in
      try_online-Good W now now (record n { client_online = true })
        (record { core = g.core; registry = g.registry; requested = g.requested })
  turn-Good t Turn.client_offline n l h =
      on_offline-Good W t (record n { client_online = false })
        (record { core = h.core; registry = h.registry; requested = h.requested })
  turn-Good t (Turn.host_state now host p) n l h =
      let g = later-Good W t now n l h in
      if_cases (Returns (Good W now)) (not (is_some n.core.state.primary_host_id)) _ _ (λ e. g)
        λ e. host_state-Good W now now host p n g
  turn-Good t (Turn.retry_time now) n l h =
      let g = later-Good W t now n l h in
      if_cases (Returns (Good W now)) (not (is_some n.retry_at)) _ _ (λ e. g)
        λ e.
          try_online-Good W now now (record n { retry_at = none })
            (record { core = g.core; registry = g.registry; requested = g.requested })
  turn-Good t Turn.rebirth_asked n l h = record {
    core = h.core;
    registry = h.registry;
    requested = h.requested;
  }
  turn-Good t Turn.rebirth_turn n l h =
      if_cases (Returns (Good W t)) (not n.rebirth_requested) _ _ (λ e. h)
        λ e.
          node_rebirth-Good W t (record n { rebirth_requested = false })
            (record { core = h.core; registry = h.registry; requested = h.requested })
  turn-Good t (Turn.node_message now m) n l h = node_message-Good t now m n l h
  turn-Good t (Turn.device_task k r) n l h =
      with_device-Good t k (device_turn W r) n (λ d i. device_turn-Inv W r d n.core i) h
  turn-Good t (Turn.publish_metrics try ms) n l h = record {
    core = node_publish-Inv W try ms n.core h.core;
    registry = h.registry;
    requested = h.requested;
  }
  turn-Good t (Turn.device_publish_metrics k try ms) n l h =
      with_device-Good t k (published W try ms) n (λ d i. device_publish-Inv W try ms d n.core i) h
  turn-Good t (Turn.registers_device name) n l h = registered-Good t (validate_name name) name n h
  turn-Good t (Turn.unregisters_device name) n l h = record {
    core = h.core;
    registry = h.registry;
    requested = h.requested;
  }
  turn-Good t Turn.cancelled n l h = cancel-Good t n h
  turn-Good t Turn.stopped n l h = stop-Good t n h

  -- No clock's reading is before an earlier one.
  abbrev pub Timely : ℕ → List Turn → Type 0
  Timely t [] = Unit
  Timely t (x ∷ xs) = (t ≤ reading t x) × Timely (reading t x) xs

  run-Good :
      (t : ℕ) (xs : List Turn) (n : Node)
      → Timely t xs
      → Good W t n
      → Returns (λ n'. Inv W n'.core) (run W xs n)
  unfolding run
  run-Good t [] n l h = h.core
  run-Good t (x ∷ xs) n l h =
      Returns-then (λ n'. Inv W n'.core) (turn W x n) (run W xs) (turn-Good t x n l.0 h)
        (λ m g. run-Good (reading t x) xs m l.1 g)

  pub start-Good :
      (group_id node_id : Text) (primary_host_id : Option Text) (templates : TemplateRegistry)
      (cooldown retry_delay : ℕ)
      → Registrable templates
      → Good W 0 (start W group_id node_id primary_host_id templates cooldown retry_delay)
  unfolding start ready_to_birth
  start-Good group_id node_id primary_host_id templates cooldown retry_delay r = record {
    core = record {
      online = λ b. ground arith;
      ready = λ b. ground arith;
      seq = λ b. ground arith;
      will = refl;
      bdseq = omega arith;
      in_order = (tt, tt);
    };
    registry = r;
    requested = omega arith;
  }

  -- Whatever an edge node meets, in whatever order its tasks and handles take their turns, at times
  -- that do not go back, with templates whose names are distinct and not reserved: it does not panic;
  -- each birth of the node carries the number 0 and the `bdSeq` of the death certificate that is the
  -- client's will then; each other numbered message carries the number after that of the message
  -- before it, modulo 256; a node that is birthed is online, and so is its primary host; and the
  -- client's will is the node's death certificate.
  pub run-Inv :
      (group_id node_id : Text) (primary_host_id : Option Text) (templates : TemplateRegistry)
      (cooldown retry_delay : ℕ) (xs : List Turn)
      → Registrable templates
      → Timely 0 xs
      → Returns
          (λ n. Inv W n.core)
          (run W xs (start W group_id node_id primary_host_id templates cooldown retry_delay))
  run-Inv group_id node_id primary_host_id templates cooldown retry_delay xs r l =
      run-Good 0 xs (start W group_id node_id primary_host_id templates cooldown retry_delay) l
        (start-Good group_id node_id primary_host_id templates cooldown retry_delay r)
