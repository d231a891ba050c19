-- ===== src/Eon/Node.antt =====
-- `Node`, `NodeHandle` and `EoN` of srad-eon/src/node.rs: the edge node's session.
-- A handler takes the node and returns it changed. It runs to its end before the next one starts,
-- the calls of the client that it waits for included.
use srad.Prelude.{
  ℕ, ◌+◌, ◌%◌, Bool, true, false, Option, none, some, List, [], ◌∷◌, not, ◌||◌, if◌then◌else◌,
  Result, ok, err, list_eq, nat_eq, and_then, is_some,
}
use srad.Types.Text
use srad.Types.Text.{Text, node_control_rebirth}
use srad.Types.DataType
use srad.Types.Payload.{Payload, Value}
use srad.Eon.Birth.{
  BirthInitializer, BirthMetricDetails, BirthMetricError, no_alias, new_details, register_metric,
  register_template_definition, initialise_birth, Registration,
}
use srad.Eon.Birth
use srad.Eon.Templates.{TemplateRegistry, change_all}
use srad.Eon.State.{
  EonState, online_swap, ready_to_birth, set_dead, start_birth, birth_completed, birth_topic,
  sub_topics, Core, World, asked, with_state, Call, subscribe_many, publish_node_message,
  disconnect,
}
use srad.Eon.Device.{BirthType, birth, rebirth}
use srad.Eon.DeviceMap.{DeviceMap, birth_devices, on_death}

-- `Node` and `EoNConfig`, with the devices that it shares with its handle. Of its channels,
-- `rebirth_requested` is the one of capacity one.
pub record Node : Type 0 where
  pub core : Core
  pub devices : DeviceMap
  pub node_rebirth_request_cooldown : ℕ
  pub retry_delay : ℕ
  pub last_node_rebirth_request : ℕ
  pub template_registry : TemplateRegistry
  pub rebirth_requested : Bool
  pub client_online : Bool
  pub retry_at : Option ℕ

abbrev pub call : Call → Node → Node
call c n = record n { core = asked c n.core }

abbrev pub change_state : (EonState → EonState) → Node → Node
change_state f n = record n { core = with_state f n.core }

abbrev pub unwrap : {E A : Type 0} → Result E A → Option A
unwrap (ok a) = some a
unwrap (err e) = none

module _ (W : World) where
  -- Whether the latest call succeeded.
  abbrev pub succeeded : Node → Bool
  succeeded n = W.answer n.core.calls

  unfoldable pub plain : Text → Value → DataType.DataType → ℕ → BirthMetricDetails Value
  unfolding new_details
  plain name v datatype t = record (new_details name (some v) datatype t) { alias = no_alias }

  unfoldable pub register_definitions :
      ℕ → TemplateRegistry → BirthInitializer → Option BirthInitializer
  unfolding register_template_definition
  register_definitions t [] b = some b
  register_definitions t ((name, d) ∷ ds) b =
      and_then (unwrap (register_template_definition W.hash t name d b)) (register_definitions t ds)

  unfoldable pub finished : ℕ → ℕ → List Registration → BirthInitializer → Payload
  unfolding initialise_birth
  finished seq t metrics b = record {
    seq = some seq;
    timestamp = some t;
    metrics = (initialise_birth W.hash metrics b).birth_metrics;
    uuid = none;
    body = none;
  }

  -- `none` is the panic of an `unwrap`.
  unfoldable pub generate_birth_payload : ℕ → ℕ → Node → Option Payload
  unfolding plain register_metric register_definitions finished Birth.new
  generate_birth_payload bdseq seq n =
      let t = W.timestamp n.core.calls in
      and_then
        (unwrap (
          register_metric W.hash (plain Text.bdseq (Value.long_value bdseq) DataType.int64 t)
            (Birth.new Birth.node n.template_registry)))
        λ (_, b).
          and_then
            (unwrap (
              register_metric W.hash
                (plain node_control_rebirth (Value.boolean_value false) DataType.boolean t) b))
            λ (_, b).
              and_then (register_definitions t n.template_registry b)
                λ b. some (finished seq t (W.node_metrics n.core.calls) b)

  unfoldable pub publish_node_birth : Payload → Node → Bool × Node
  unfolding birth_topic birth_completed
  publish_node_birth payload n =
      let n' = call (publish_node_message (birth_topic n.core.state) payload) n in
      if succeeded n' then (true, change_state birth_completed n') else (false, n')

  -- Whether it succeeded, and the node.
  unfoldable pub node_birth : Node → Option (Bool × Node)
  unfolding start_birth change_all generate_birth_payload publish_node_birth
  node_birth n =
      let n' = record (change_state start_birth n) {
        template_registry = change_all (W.update_registry n.core.calls) n.template_registry;
      } in
      and_then (generate_birth_payload n.core.state.bdseq 0 n')
        λ payload. some (publish_node_birth payload n')

  unfoldable pub tell_devices : BirthType → Bool × Node → Bool × Node
  unfolding birth_devices
  tell_devices ty (true, n) =
      (true, record n { devices = birth_devices ty n.template_registry n.devices })
  tell_devices ty (false, n) = (false, n)

  unfoldable pub node_births : BirthType → Node → Option (Bool × Node)
  unfolding node_birth tell_devices
  node_births ty n = and_then (node_birth n) λ r. some (tell_devices ty r)

  unfoldable pub node_rebirth : Node → Option Node
  unfolding node_births
  node_rebirth n =
      if not n.core.state.inner.birthed
      then some n
      else and_then (node_births rebirth n) λ r. some (r.1)

  unfoldable pub command_rebirth : Node → Option Node
  unfolding node_births set_dead
  command_rebirth n =
      if not n.core.state.inner.birthed
      then some n
      else and_then (node_births rebirth (change_state set_dead n)) λ r. some (r.1)

  -- `fetch_add` on a `u8` wraps.
  unfoldable pub death : Node → Node
  unfolding set_dead on_death
  death n =
      let n' =
        change_state (λ s. record s { bdseq = (s.bdseq + 1) % 256 }) (change_state set_dead n) in
      record n' { devices = on_death n'.devices }

  -- Whether it succeeded, and the node.
  unfoldable pub on_online : Node → Bool × Node
  unfolding sub_topics online_swap
  on_online n =
      if n.core.state.inner.online
      then (true, n)
      else let n' = call (subscribe_many (sub_topics n.core.state)) n in
        if succeeded n' then (true, change_state (online_swap true) n') else (false, n')

  -- What a failed attempt leaves: the time is that at which the attempt failed.
  abbrev pub retry_later : ℕ → Node → Node
  retry_later now n = call disconnect (record n { retry_at = some (now + n.retry_delay) })

  unfoldable pub births_or_retries : ℕ → Bool × Node → Node
  unfolding online_swap
  births_or_retries now (true, n) = n
  births_or_retries now (false, n) = retry_later now (change_state (online_swap false) n)

  unfoldable pub once_online : ℕ → Bool × Node → Option Node
  unfolding ready_to_birth node_births births_or_retries
  once_online now (false, n) = some (retry_later now n)
  once_online now (true, n) =
      if n.core.state.inner.birthed
      then some n
      else if not (ready_to_birth n.core.state)
      then some n
      else and_then (node_births birth n) λ r. some (births_or_retries now r)

  unfoldable pub try_online : ℕ → Node → Option Node
  unfolding on_online once_online
  try_online now n =
      if not n.client_online || is_some n.retry_at then some n else once_online now (on_online n)
