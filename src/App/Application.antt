-- ===== src/App/Application.antt =====
-- srad-app/src/generic_app.rs, `impl Application`: events routed to the tasks of nodes.
-- A `NodeHandle` is a reference to a node's channels: a handle that is taken from the map is its
-- key, and `send_message` appends to the node's inbox, which the node's task takes from in order.
-- The callbacks that are told of online and offline have no access to the state.
pub mod Routes
pub mod Delivery
use srad.Prelude.{
  ℕ, Bool, true, false, Option, none, some, List, [], ◌∷◌, ◌++◌, ◌&&◌, if◌then◌else◌, Eq, list_eq,
  nat_eq, Assoc, lookup, insert, map_values, ◌≡◌, ◌↔◌, ap₂, ap, arith,
}
use srad.Types.Text.{Text}
use srad.Types.Message.{MessageKind}
use srad.App.Events.{
  NodeIdentifier, NodeEvent, DeviceEvent, AppNodeEvent, AppDeviceEvent, PayloadErrorDetails,
}
use srad.App.Rebirth.{RebirthReason}
use srad.App.Node
use srad.App.Node.{Node, NodeInput, AppConfig, try_send_rebirth}

abbrev pub same_node : NodeIdentifier → NodeIdentifier → Bool
same_node a b = list_eq.beq a.group b.group && list_eq.beq a.node b.node

pub same_node_iff : (a b : NodeIdentifier) → (same_node a b ≡ true) ↔ (a ≡ b)
same_node_iff a b = (
  λ h.
      let g : list_eq.beq a.group b.group ≡ true = ground (arith, h) in
      let n : list_eq.beq a.node b.node ≡ true = ground (arith, h) in
      ap₂ (λ x y. let r : NodeIdentifier = record { group = x; node = y } in r)
        ((list_eq.beq_iff a.group b.group).0 g) ((list_eq.beq_iff a.node b.node).0 n),
  λ e.
      let g = (list_eq.beq_iff a.group b.group).1 (ap (λ x. x.group) e) in
      let n = (list_eq.beq_iff a.node b.node).1 (ap (λ x. x.node) e) in ground (arith, g, n),
)

-- The derived equality and hash of `NodeIdentifier`.
instance abbrev pub id_eq : Eq NodeIdentifier
id_eq = record { beq = same_node; beq_iff = same_node_iff }

-- srad-app/src/eventloop.rs
pub data AppEvent : Type 0 where
  online : AppEvent
  offline : AppEvent
  device : AppDeviceEvent → AppEvent
  node : AppNodeEvent → AppEvent
  invalid_payload : PayloadErrorDetails → AppEvent
  cancelled : AppEvent

-- A node's task and what waits in its channel.
pub record Task (Store : Type 0) : Type 0 where
  pub node : Node Store
  pub inbox : List NodeInput

pub record Application (Store : Type 0) : Type 0 where
  pub nodes : Assoc NodeIdentifier (Task Store)
  pub config : AppConfig
  pub node_created : Option (Node Store → Node Store)

abbrev pub sent : {Store : Type 0} → NodeInput → Task Store → Task Store
sent m t = record t { inbox = t.inbox ++ m ∷ [] }

abbrev pub asked : {Store : Type 0} → RebirthReason → Task Store → Task Store
asked reason t = record t { node = try_send_rebirth reason t.node }

-- What a handle that the map holds does to its task.
abbrev pub with_task :
    {Store : Type 0}
    → NodeIdentifier
    → (Task Store → Task Store)
    → Application Store
    → Application Store
with_task id f app = elim (lookup id app.nodes) [
  | none ↦ app
  | some t ↦ record app { nodes = insert id (f t) app.nodes }
]

pub send_message :
    {Store : Type 0} → NodeIdentifier → NodeInput → Application Store → Application Store
send_message id m app = with_task id (sent m) app

pub issue_rebirth :
    {Store : Type 0} → NodeIdentifier → RebirthReason → Application Store → Application Store
issue_rebirth id reason app = with_task id (asked reason) app

pub created : {Store : Type 0} → NodeIdentifier → Application Store → Node Store
unfolding Node.new
created id app = elim app.node_created [
  | none ↦ Node.new id app.config
  | some cb ↦ cb (Node.new id app.config)
]

pub create_node : {Store : Type 0} → NodeIdentifier → Application Store → Application Store
unfolding created
create_node id app = record app {
  nodes = insert id (record { node = created id app; inbox = [] }) app.nodes;
}

pub get_or_create_node : {Store : Type 0} → NodeIdentifier → Application Store → Application Store
unfolding create_node
get_or_create_node id app = elim (lookup id app.nodes) [ some t ↦ app | none ↦ create_node id app ]

-- Then `next` with the node, or the early return without it.
pub get_node_or_issue_rebirth :
    {Store : Type 0}
    → NodeIdentifier
    → (Application Store → Application Store)
    → Application Store
    → Application Store
unfolding create_node issue_rebirth
get_node_or_issue_rebirth id next app = elim (lookup id app.nodes) [
  | some t ↦ next app
  | none ↦ issue_rebirth id RebirthReason.unknown_node (create_node id app)
]

-- The node's event; `timestamp` is the clock's reading for a death.
pub handle_node_event :
    {Store : Type 0} → ℕ → NodeIdentifier → NodeEvent → Application Store → Application Store
unfolding send_message get_or_create_node get_node_or_issue_rebirth
handle_node_event timestamp id (NodeEvent.birth b) app =
    send_message id (NodeInput.nbirth b) (get_or_create_node id app)
handle_node_event timestamp id (NodeEvent.death d) app =
    send_message id (NodeInput.ndeath d timestamp) app
handle_node_event timestamp id (NodeEvent.data_event d) app =
    get_node_or_issue_rebirth id (send_message id (NodeInput.ndata d)) app
handle_node_event timestamp id (NodeEvent.raw m) app = elim m.kind [
  | MessageKind.birth ↦ send_message id (NodeInput.raw m) (get_or_create_node id app)
  | MessageKind.death ↦ send_message id (NodeInput.raw m) app
  | MessageKind.cmd ↦ get_node_or_issue_rebirth id (send_message id (NodeInput.raw m)) app
  | MessageKind.data_kind ↦ get_node_or_issue_rebirth id (send_message id (NodeInput.raw m)) app
  | MessageKind.other t ↦ get_node_or_issue_rebirth id (send_message id (NodeInput.raw m)) app
]

abbrev pub device_message : Text → DeviceEvent → NodeInput
device_message name (DeviceEvent.birth b) = NodeInput.dbirth name b
device_message name (DeviceEvent.death d) = NodeInput.ddeath name d
device_message name (DeviceEvent.data_event d) = NodeInput.ddata name d
device_message name (DeviceEvent.raw m) = NodeInput.raw_device name m

-- Whether the application goes on, and its state.
pub handle_event : {Store : Type 0} → ℕ → AppEvent → Application Store → Bool × Application Store
unfolding handle_node_event
handle_event timestamp AppEvent.online app = (true, app)
handle_event timestamp AppEvent.offline app =
    (true, record app { nodes = map_values (sent NodeInput.offline) app.nodes })
handle_event timestamp (AppEvent.node e) app = (true, handle_node_event timestamp e.id e.event app)
handle_event timestamp (AppEvent.device e) app =
    (true, get_node_or_issue_rebirth e.id (send_message e.id (device_message e.name e.event)) app)
handle_event timestamp (AppEvent.invalid_payload details) app = (
  true,
  if app.config.rebirth_config.invalid_payload
      then issue_rebirth details.node_id RebirthReason.invalid_payload
          (get_or_create_node details.node_id app)
      else app,
)
handle_event timestamp AppEvent.cancelled app = (false, app)

abbrev go_on :
    {Store : Type 0}
    → (Application Store → Application Store)
    → Bool × Application Store
    → Application Store
go_on next (true, app) = next app
go_on next (false, app) = app

-- The loop of `run`, over the events that the event loop gives.
pub run : {Store : Type 0} → List (ℕ × AppEvent) → Application Store → Application Store
unfolding handle_event
run [] app = app
run ((timestamp, e) ∷ es) app = go_on (run es) (handle_event timestamp e app)
