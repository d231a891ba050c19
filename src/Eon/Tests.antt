-- ===== src/Eon/Tests.antt =====
-- Tests of an edge node and its devices, and their theorems on concrete ones.
mod Parts
mod Command
use srad.Prelude.{
  ℕ, ◌≡◌, ◌⊎◌, refl, Bool, true, false, Option, none, some, List, [], ◌∷◌, ok, err, map, arith,
  Returns, lookup, contains, insert, length,
}
use srad.Types.Text.{Text, text, node_control_rebirth}
use srad.Types.DataType
use srad.Types.Payload
use srad.Types.Payload.{Payload, Value, Metric}
use srad.Types.Message.{Message, MessageKind, MessagePayload, StatePayload}
use srad.Eon.Birth.{BirthMetricDetails, Registration, metric, generate, push}
use srad.Eon.State.{World, Call, ready_to_birth}
use srad.Eon.Device.{enable}
use srad.Eon.Node.{Node, generate_birth_payload}
use srad.Eon.Sequence.Accepted.{IsAccepted, generate_birth_payload-IsAccepted}
use srad.Eon.Run
use srad.Eon.Run.{Turn, start, turn, run}
use srad.Eon.Sequence.{Inv, numbering, Numbering, unnumbered, starts, goes_on}
use srad.Eon.Sequence.Run.{run-Inv, start-Good}
use srad.Eon.Sequence.Retry.{IsBirthed, turn-IsBirthed}

abbrev pub temperature : BirthMetricDetails Value
temperature = record {
  name = text "temperature";
  alias = generate;
  datatype = DataType.int32;
  initial_value = some (Value.int_value 21);
  metadata = none;
  properties = none;
  timestamp = 5;
}

-- A client that accepts everything, and one that refuses everything.
abbrev world_with : Bool → World
world_with answer = record {
  hash = λ name. 7;
  answer = λ cs. answer;
  timestamp = λ cs. 5;
  node_metrics = λ cs. metric temperature ∷ [];
  device_metrics = λ name cs. metric temperature ∷ [];
  update_registry = λ cs. [];
  decode_payload = λ bytes. err (text "not a payload");
  encode_payload = λ p. [];
}

abbrev pub world : World
world = world_with true

abbrev pub refusing : World
refusing = world_with false

abbrev rebirth_command : Message
rebirth_command = record {
  payload = MessagePayload.decoded (record {
    timestamp = some 9;
    metrics =
        Metric.valued (record Payload.no_fields { name = some node_control_rebirth })
          (Value.boolean_value true)
        ∷ [];
    seq = none;
    uuid = none;
    body = none;
  });
  kind = MessageKind.cmd;
}

abbrev data_metric : Metric
data_metric =
    Metric.valued (record Payload.no_fields { name = some (text "temperature") })
      (Value.int_value 22)

-- The primary host comes online, a device is added and enabled, data is published, the node is
-- commanded to be reborn, and the connection is lost.
abbrev turns : List Turn
turns =
    Turn.registers_device (text "pump")
    ∷ Turn.client_online 1
    ∷ Turn.host_state 2 (text "host") (StatePayload.online 2)
    ∷ Turn.device_task 0 (some enable)
    ∷ Turn.device_task 0 (some enable)
    ∷ Turn.device_publish_metrics 0 true (data_metric ∷ [])
    ∷ Turn.publish_metrics false (data_metric ∷ [])
    ∷ Turn.node_message 9000 rebirth_command
    ∷ Turn.device_task 0 none
    ∷ Turn.client_offline
    ∷ []

abbrev first_node : World → Node
unfolding start
first_node w = start w (text "plant") (text "node") (some (text "host")) [] 5000 3000

run-Inv_example : Returns (λ n. Inv world n.core) (run world turns (first_node world))
unfolding first_node
run-Inv_example =
    run-Inv world (text "plant") (text "node") (some (text "host")) [] 5000 3000 turns tt (
      omega arith,
      (
        omega arith,
        (
          omega arith,
          (
            omega arith,
            (
              omega arith,
              (omega arith, (omega arith, (omega arith, (omega arith, (omega arith, tt))))),
            ),
          ),
        ),
      ),
    )

abbrev shown : Numbering → Option ℕ
shown unnumbered = none
shown (starts p) = p.seq
shown (goes_on seq) = some seq

abbrev numbers : List Call → List ℕ
numbers [] = []
numbers (c ∷ cs) =
    let rest = numbers cs in elim (shown (numbering c)) [ none ↦ rest | some n ↦ n ∷ rest ]

abbrev numbers_of : Option Node → List ℕ
numbers_of none = []
numbers_of (some n) = numbers n.core.calls

-- The latest first: a birth and three messages, then a birth and one.
run_test : numbers_of (run world turns (first_node world)) ≡ 1 ∷ 0 ∷ 3 ∷ 2 ∷ 1 ∷ 0 ∷ []
unfolding run turn first_node start lookup contains insert push
run_test = refl

-- A node without a primary host.
abbrev free_node : World → Node
unfolding start
free_node w = start w (text "plant") (text "node") none [] 5000 3000

turn-IsBirthed_example :
    Returns (IsBirthed world) (turn world (Turn.client_online 1) (free_node world))
unfolding free_node start ready_to_birth
turn-IsBirthed_example =
    turn-IsBirthed world 0 1 (free_node world) (λ cs. refl)
      (start-Good world (text "plant") (text "node") none [] 5000 3000 tt) refl refl

-- The refused attempt: the subscription, and the disconnect.
abbrev call_count : Option Node → ℕ
call_count none = 0
call_count (some n) = length n.core.calls

refused_test : call_count (turn refusing (Turn.client_online 1) (free_node refusing)) ≡ 3
unfolding turn free_node start
refused_test = refl

generate_birth_payload-IsAccepted_example :
    Returns (IsAccepted world 3) (generate_birth_payload world 3 0 (free_node world))
unfolding free_node start
generate_birth_payload-IsAccepted_example =
    generate_birth_payload-IsAccepted world 3 (free_node world) (omega arith) tt (tt, tt)
