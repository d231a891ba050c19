-- ===== src/Eon/Tests/Command.antt =====
-- A node that is birthed, and an application's rebirth command.
use srad.Prelude.{refl, Option, none, some, [], ◌∷◌, Returns, arith, contains}
use srad.Types.Text.{text}
use srad.Types.Message.{MessageKind, decoded}
use srad.App.Client.{metrics_to_payload, rebirth_cmd}
use srad.Eon.Birth.{push}
use srad.Eon.Node.{Node}
use srad.Eon.Session.{on_sparkplug_message}
use srad.Eon.Run.{Turn, turn, start}
use srad.Eon.Sequence.Run.{turn-Good, start-Good}
use srad.Eon.Sequence.Sessions.{Good}
use srad.Eon.Sequence.Command.{IsReborn, on_sparkplug_message-IsReborn}
use srad.Eon.Tests.{world, free_node}

abbrev or_start : Option Node → Node
or_start none = free_node world
or_start (some n) = n

abbrev birthed_node : Node
birthed_node = or_start (turn world (Turn.client_online 1) (free_node world))

birthed_node-Good : Good world 1 birthed_node
unfolding turn free_node start contains push
birthed_node-Good =
    turn-Good world 0 (Turn.client_online 1) (free_node world) (omega arith)
      (start-Good world (text "plant") (text "node") none [] 5000 3000 tt)

on_sparkplug_message-IsReborn_example : Returns (IsReborn world birthed_node) (
    on_sparkplug_message world 9000
      (record {
        payload = decoded (metrics_to_payload 8990 (rebirth_cmd ∷ []));
        kind = MessageKind.cmd;
      })
      birthed_node)
unfolding turn free_node start contains push
on_sparkplug_message-IsReborn_example =
    on_sparkplug_message-IsReborn world 1 9000 8990 birthed_node (λ cs. refl) birthed_node-Good refl
      (omega arith) (omega arith)
