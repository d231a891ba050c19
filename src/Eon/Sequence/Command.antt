-- ===== src/Eon/Sequence/Command.antt =====
-- An application's rebirth command, and the edge node that takes it.
use srad.Prelude.{
  ℕ, ◌-◌, ◌≤◌, ◌≡◌, refl, sym, ◌∙◌, Bool, true, false, [], not, if_cases, ltb, List, ◌∷◌, Returns,
  Returns-then, arith,
}
use srad.Types.Payload.{Payload}
use srad.Types.Message.{MessageKind, decoded, decode}
use srad.App.Client.{metrics_to_payload, rebirth_cmd}
use srad.App.Metrics.{to_metric}
use srad.Eon.State.{
  World, Call, start_birth, set_dead, birth_completed, birth_topic, publish_node_message,
}
use srad.Eon.Device.{rebirth}
use srad.Eon.Templates.{change_all}
use srad.Eon.Node.{
  Node, change_state, publish_node_birth, node_birth, node_births, tell_devices, command_rebirth,
  generate_birth_payload, succeeded, call,
}
use srad.Eon.Session.{on_sparkplug_message, on_command, on_rebirth_command, asks_rebirth}
use srad.Eon.Sequence.Births.{IsBirth, generate_birth_payload-IsBirth}
use srad.Eon.Sequence.Registry.{change_all-Registrable}
use srad.Eon.Sequence.Sessions.{Good}

module _ (W : World) where
  -- One message has been published, a birth of the session that the node was in.
  pub record IsReborn (n m : Node) : Type 0 where
    pub payload : Payload
    pub is_birth : IsBirth n.core.state.bdseq payload
    pub calls :
        m.core.calls ≡ publish_node_message (birth_topic n.core.state) payload ∷ n.core.calls
    pub birthed : m.core.state.inner.birthed ≡ true

  Succeeds : Node → Bool × Node → Type 0
  Succeeds n r = (r.0 ≡ true) × IsReborn n (r.1)

  abbrev dead : Node → Node
  unfolding set_dead
  dead n = change_state set_dead n

  abbrev begun : Node → Node
  unfolding start_birth
  begun n = record (change_state start_birth (dead n)) {
    template_registry = change_all (W.update_registry n.core.calls) n.template_registry;
  }

  publish_node_birth-Succeeds :
      (n : Node) (p : Payload)
      → ((cs : List Call) → W.answer cs ≡ true)
      → IsBirth n.core.state.bdseq p
      → Succeeds n (publish_node_birth W p (begun n))
  unfolding publish_node_birth birth_completed birth_topic Succeeds begun dead start_birth set_dead
  publish_node_birth-Succeeds n p a h =
      if_cases (Succeeds n) (succeeded W (call _ (begun n))) _ _
        (λ e. (refl, record { payload = p; is_birth = h; calls = refl; birthed = refl }))
        (λ e. let f : true ≡ false = sym (a _) ∙ e in ground (arith, f))

  tell_devices-Succeeds :
      (n : Node) (r : Bool × Node) → Succeeds n r → Succeeds n (tell_devices W rebirth r)
  unfolding tell_devices Succeeds
  tell_devices-Succeeds n (true, m) (e, h) = (
    refl,
    record { payload = h.payload; is_birth = h.is_birth; calls = h.calls; birthed = h.birthed },
  )
  tell_devices-Succeeds n (false, m) h = h

  node_births-Succeeds :
      (t : ℕ) (n : Node)
      → ((cs : List Call) → W.answer cs ≡ true)
      → Good W t n
      → Returns (Succeeds n) (node_births W rebirth (dead n))
  unfolding node_births node_birth Succeeds dead begun start_birth set_dead
  node_births-Succeeds t n a h =
      Returns-then {P = Succeeds n} (Succeeds n) (node_birth W (dead n)) _
        (Returns-then {P = IsBirth n.core.state.bdseq} (Succeeds n)
          (generate_birth_payload W n.core.state.bdseq 0 (begun n)) _
          (generate_birth_payload-IsBirth W n.core.state.bdseq (begun n) h.core.bdseq (
            change_all-Registrable (W.update_registry n.core.calls) n.template_registry h.registry))
          (λ p b. publish_node_birth-Succeeds n p a b))
        (λ r s. tell_devices-Succeeds n r s)

  command_rebirth-IsReborn :
      (t : ℕ) (n : Node)
      → ((cs : List Call) → W.answer cs ≡ true)
      → Good W t n
      → n.core.state.inner.birthed ≡ true
      → Returns (IsReborn n) (command_rebirth W n)
  unfolding command_rebirth Succeeds dead
  command_rebirth-IsReborn t n a h b =
      if_cases (Returns (IsReborn n)) (not n.core.state.inner.birthed) _ _
        (λ e. ground (arith, b, e))
        (λ e.
          Returns-then {P = Succeeds n} (IsReborn n) (node_births W rebirth (dead n)) _
            (node_births-Succeeds t n a h) (λ r s. s.1))

  -- The command that an application publishes to a node that is birthed, at a time when the cooldown
  -- since the node's last rebirth request has passed, makes the node publish one message, a birth
  -- with the sequence number 0 and the `bdSeq` of its session, and leaves it birthed, if its client
  -- refuses nothing.
  pub on_sparkplug_message-IsReborn :
      (t now sent : ℕ) (n : Node)
      → ((cs : List Call) → W.answer cs ≡ true)
      → Good W t n
      → n.core.state.inner.birthed ≡ true
      → n.last_node_rebirth_request ≤ now
      → n.node_rebirth_request_cooldown ≤ now - n.last_node_rebirth_request
      → Returns (IsReborn n) (
          on_sparkplug_message W now
            (record {
              payload = decoded (metrics_to_payload sent (rebirth_cmd ∷ []));
              kind = MessageKind.cmd;
            })
            n)
  unfolding on_sparkplug_message on_command on_rebirth_command asks_rebirth metrics_to_payload
      to_metric decode
  on_sparkplug_message-IsReborn t now sent n a h b l c =
      if_cases (Returns (IsReborn n)) (ltb now n.last_node_rebirth_request) _ _
        (λ e. ground (arith, l, e))
        λ e.
          if_cases (Returns (IsReborn n))
            (ltb (now - n.last_node_rebirth_request) n.node_rebirth_request_cooldown) _ _
            (λ f. ground (arith, c, f))
            λ f.
              Returns-then {P = IsReborn n} (IsReborn n) (command_rebirth W n) _
                (command_rebirth-IsReborn t n a h b)
                (λ m r. record {
                  payload = r.payload;
                  is_birth = r.is_birth;
                  calls = r.calls;
                  birthed = r.birthed;
                })
