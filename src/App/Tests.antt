-- ===== src/App/Tests.antt =====
-- Tests of a node and of the resequencer, and their theorems on concrete nodes and messages.
mod Reading
mod Routing
mod Loop
use srad.Prelude.{
  ℕ, suc, ◌≡◌, refl, some, List, [], ◌∷◌, true, Result, ok, err, map, arith, Returns,
}
use srad.Types.Text.{Text, text}
use srad.Types.Payload
use srad.Types.Payload.{Payload}
use srad.Types.DataType
use srad.App.Payloads.{NBirth, NData}
use srad.App.Events.{NodeIdentifier}
use srad.App.Resequencer
use srad.App.Resequencer.{Resequencer, process, drain}
use srad.App.Resequencer.Invariant.{IsWellFormed, parts, process-IsWellFormed, drain-IsWellFormed}
use srad.App.Resequencer.Order
use srad.App.Resequencer.Order.{processes, drains, Delivers, run-Delivers}
use srad.App.Resequencer.Reorder.{receive_all, receive, drain_all, range}
use srad.App.Resequencer.Reorder.Window.{receive_all-in_order}
use srad.App.Rebirth
use srad.App.Rebirth.{RebirthReason}
use srad.App.Device.{MetricStore, birthed}
use srad.App.Node.{
  Node, Clock, AppConfig, NodeInput, ResequenceableEvent, new, handle_birth, handle_death,
  issue_rebirth,
}
use srad.App.Node.Invariant.{Inv, Handles, issue_rebirth-Handles}
use srad.App.Node.Lifecycle.{BirthedBy, handle_birth-BirthedBy}
use srad.App.Node.Death.{Death, handle_death-Death}
use srad.Types.Topic
use srad.App.Application
use srad.App.Messages.{
  drain_resequence_buffer, handle_message, handle_sequenced, Turn, rebirth_request, input, timer,
}
use srad.App.Messages.Frame.{Sequenced, drain-Sequenced}
use srad.App.Messages.Handled.{handle_message-Handles}
use srad.App.Messages.Stale.{Ignores, handle_sequenced-Ignores}
use srad.App.Messages.Run.{run, Runs, run-Runs, new-Inv}

-- A store that counts its updates.
abbrev counter : MetricStore
counter = record {
  Store = ℕ;
  set_stale = λ s. s;
  update_from_birth = λ s x. (suc s, ok tt);
  update_from_data = λ s x. (suc s, ok tt);
}

abbrev no_decoder : List ℕ → Result Text Payload
no_decoder bytes = err (text "not protobuf")

abbrev node_id : NodeIdentifier
node_id = record { group = text "plant"; node = text "edge" }

abbrev config : AppConfig
config = record { rebirth_config = Rebirth.default; resequence_messages = true }

abbrev fresh : Node ℕ
fresh = new node_id config

abbrev at : ℕ → Clock
at t = record { now = t; stamp = t; received = t }

abbrev birth_at : ℕ → NBirth
birth_at t = record { bdseq = 4; timestamp = t; metrics_details = [] }

abbrev data_at : ℕ → ℕ → NData
data_at s t = record { seq = s; timestamp = t; metrics_details = [] }

-- A birthed node that waits for the sequence number 1.
abbrev living : Node ℕ
living = record fresh {
  lifecycle_state = birthed;
  birth_timestamp = 10;
  bdseq = 4;
  resequencer = parts Resequencer.good [] 1;
}

-- The numbers 255, 0 and 1 arrive in another order.
in_order_test :
    receive_all (λ x. x) 255 (2 ∷ 0 ∷ 1 ∷ []) (parts Resequencer.good [] 255)
    ≡ some (0 ∷ 1 ∷ 2 ∷ [], parts Resequencer.good [] 2)
unfolding receive_all receive drain_all process drain
in_order_test = refl

receive_all-in_order_example :
    Returns
      (λ x. (map (λ i. i) x.0 ≡ range (λ i. i) 255 0 3) × (x.1 ≡ parts Resequencer.good [] 2))
      (receive_all (λ i. i) 255 (2 ∷ 0 ∷ 1 ∷ []) (parts Resequencer.good [] 255))
receive_all-in_order_example =
    receive_all-in_order (λ i. i) 255 3 (2 ∷ 0 ∷ 1 ∷ []) (omega arith) (omega arith)
      (λ i. ground arith)

run-Delivers_example :
    Returns
      (Delivers (λ i. i) (parts Resequencer.good [] 5))
      (Order.run (λ i. i) (parts Resequencer.good [] 5) (processes 6 ∷ processes 5 ∷ drains ∷ []))
run-Delivers_example =
    run-Delivers (λ i. i) (parts Resequencer.good [] 5) (processes 6 ∷ processes 5 ∷ drains ∷ [])
      (omega arith, (omega arith, (tt, tt)))
      (record { in_range = omega arith; ascending = tt; fits = tt }) tt

abbrev waiting : Resequencer ℕ
waiting = parts (Resequencer.re_sequencing 5) ((1, 6) ∷ []) 5

waiting-IsWellFormed : IsWellFormed waiting
waiting-IsWellFormed = record {
  in_range = omega arith;
  ascending = (omega arith, omega arith, tt);
  fits = omega arith;
}

process-IsWellFormed_example : IsWellFormed (process 7 7 waiting).1
process-IsWellFormed_example = process-IsWellFormed 7 7 waiting waiting-IsWellFormed

-- A node with a message in its buffer, the one that it waits for.
abbrev behind : Node ℕ
behind = record living {
  resequencer =
      parts (Resequencer.re_sequencing 1) ((1, ResequenceableEvent.ndata (data_at 2 11)) ∷ []) 2;
}

drain-Sequenced_example :
    Returns (λ h. Sequenced behind h.1) (drain_resequence_buffer counter 2 behind)
drain-Sequenced_example = drain-Sequenced counter 2 behind (omega arith) (record {
  in_range = omega arith;
  ascending = (omega arith, omega arith, tt);
  fits = omega arith;
})

living-Inv : Inv living
unfolding new
living-Inv = record {
  well_formed = record { in_range = omega arith; ascending = tt; fits = tt };
  no_buffer = λ e. refl;
  no_timer = λ e. refl;
  stale_devices = λ e. tt;
}

handle_message-Handles_example :
    Returns
      (Handles (at 20) living)
      (handle_message counter no_decoder (at 20) (NodeInput.ndata (data_at 2 11)) living)
handle_message-Handles_example =
    handle_message-Handles counter no_decoder (at 20) living (unfold new in omega arith) living-Inv
      (NodeInput.ndata (data_at 2 11))

handle_sequenced-Ignores_example : Returns (Ignores fresh) (
    handle_sequenced counter
      (at (9000000000))
      3
      11
      (ResequenceableEvent.ndata (data_at 3 11))
      fresh)
handle_sequenced-Ignores_example =
    handle_sequenced-Ignores counter (at (9000000000)) 3 11
      (ResequenceableEvent.ndata (data_at 3 11)) fresh (unfold new in refl)
      (unfold new in omega arith)

handle_birth-BirthedBy_example :
    Returns
      (BirthedBy counter (birth_at 12) living)
      (handle_birth counter (at 13) (birth_at 12) living)
handle_birth-BirthedBy_example =
    handle_birth-BirthedBy counter (at 13) (birth_at 12) living (omega arith) (unfold new in tt)

handle_death-Death_example :
    Returns (Death counter (at 15) 4 14 living) (handle_death counter (at 15) 4 14 living)
handle_death-Death_example =
    handle_death-Death counter (at 15) 4 14 living (unfold new in omega arith)

abbrev turns : List (Clock × Turn counter no_decoder)
turns =
    (at 20, input (NodeInput.nbirth (birth_at 12)))
    ∷ (at 21, input (NodeInput.ndata (data_at 2 13)))
    ∷ (at 22, timer)
    ∷ (at 23, rebirth_request)
    ∷ []

run-Runs_example : Returns (Runs counter no_decoder 23 fresh) (run counter no_decoder turns fresh)
run-Runs_example =
    run-Runs counter no_decoder 0 turns fresh (unfold new in omega arith)
      (omega arith, (omega arith, (omega arith, (omega arith, tt)))) (new-Inv node_id config)
