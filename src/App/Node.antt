-- ===== src/App/Node.antt =====
-- srad-app/src/generic_app.rs, `impl Node`: one node of the application, with its devices.
-- A handler takes the node and returns it changed; `none` is a panic. The clocks that a handler
-- reads are its argument, and the requests that it publishes are listed in the node.
pub mod Invariant
pub mod Quiet
pub mod Lifecycle
pub mod Death
use srad.Prelude.{
  ℕ, ◌-◌, Bool, true, false, Option, none, some, List, [], ◌∷◌, ltb, leb, ◌==◌, not, ◌&&◌,
  if◌then◌else◌, Result, ok, err, Assoc, map_values, list_eq, nat_eq, and_then,
}
use srad.Types.Text.{Text}
use srad.App.Payloads.{NBirth, NDeath, NData, DBirth, DDeath, DData}
use srad.App.Events.{NodeIdentifier}
use srad.Types.Message.{Message}
use srad.App.Resequencer
use srad.App.Resequencer.{Resequencer}
use srad.App.Rebirth.{RebirthReason, RebirthConfig, evaluate_rebirth_reason}
use srad.App.Device
use srad.App.Device.{
  MetricStore, Device, LifecycleState, birthed, stale, stale_store, device_set_stale,
  StateUpdateError,
}

pub data ResequenceableEvent : Type 0 where
  ndata : NData → ResequenceableEvent
  dbirth : Text → DBirth → ResequenceableEvent
  ddeath : Text → ResequenceableEvent
  ddata : Text → DData → ResequenceableEvent

-- The size of the queue of a node is left out: its inbox is not bounded.
pub record AppConfig : Type 0 where
  pub rebirth_config : RebirthConfig
  pub resequence_messages : Bool

-- The channels of the node are its callers' arguments, but `rebirth_rx`, which holds one reason.
pub record Node (Store : Type 0) : Type 0 where
  pub id : NodeIdentifier
  pub config : AppConfig
  pub resequencer : Resequencer ResequenceableEvent
  pub devices : Assoc Text (Device Store)
  pub store : Option Store
  pub device_created_cb : Option (Device Store → Device Store)
  pub resequence_timeout_task : Bool
  pub lifecycle_state : LifecycleState
  pub birth_timestamp : ℕ
  pub bdseq : ℕ
  pub last_rebirth : ℕ
  pub stale_timestamp : ℕ
  pub rebirth_rx : Option RebirthReason
  -- The nodes that a rebirth command was published to, the latest first.
  pub published : List NodeIdentifier

-- What the clocks show to one handler: `SystemTime::now` in `eval_rebirth`, `timestamp` in
-- `issue_rebirth`, and `timestamp` in `handle_message`.
pub record Clock : Type 0 where
  pub now : ℕ
  pub stamp : ℕ
  pub received : ℕ

-- `Message` of generic_app.rs.
pub data NodeInput : Type 0 where
  raw : Message → NodeInput
  raw_device : Text → Message → NodeInput
  nbirth : NBirth → NodeInput
  ndata : NData → NodeInput
  ndeath : NDeath → ℕ → NodeInput
  dbirth : Text → DBirth → NodeInput
  ddata : Text → DData → NodeInput
  ddeath : Text → DDeath → NodeInput
  offline : NodeInput

abbrev pub is_birthed : LifecycleState → Bool
is_birthed birthed = true
is_birthed stale = false

unfoldable pub new : {Store : Type 0} → NodeIdentifier → AppConfig → Node Store
new i c = record {
  id = i;
  config = c;
  resequencer = Resequencer.new;
  devices = [];
  store = none;
  device_created_cb = none;
  resequence_timeout_task = false;
  lifecycle_state = stale;
  birth_timestamp = 0;
  bdseq = 0;
  last_rebirth = 0;
  stale_timestamp = 0;
  rebirth_rx = none;
  published = [];
}

unfoldable pub cancel_reorder_timeout : {Store : Type 0} → Node Store → Node Store
cancel_reorder_timeout n = record n { resequence_timeout_task = false }

-- The spawned task sleeps; `timeout_fired` is what it does then.
unfoldable pub start_reorder_timeout : {Store : Type 0} → Node Store → Node Store
start_reorder_timeout n = elim n.config.rebirth_config.reorder_timeout [
  | none ↦ n
  | some duration ↦ record n { resequence_timeout_task = true }
]

-- `try_send` on a channel of capacity one.
unfoldable pub try_send_rebirth : {Store : Type 0} → RebirthReason → Node Store → Node Store
try_send_rebirth reason n = elim n.rebirth_rx [
  | none ↦ record n { rebirth_rx = some reason }
  | some waiting ↦ n
]

unfoldable pub timeout_fired : {Store : Type 0} → Node Store → Node Store
unfolding try_send_rebirth
timeout_fired n = try_send_rebirth RebirthReason.reorder_timeout n

-- The subtraction of durations panics below zero.
unfoldable pub eval_rebirth :
    {Store : Type 0} → Clock → RebirthReason → Node Store → Option (Bool × Node Store)
eval_rebirth clock reason n =
    if not (evaluate_rebirth_reason n.config.rebirth_config reason)
    then some (false, n)
    else if ltb clock.now n.last_rebirth
    then none
    else if ltb (clock.now - n.last_rebirth) n.config.rebirth_config.rebirth_cooldown
    then some (false, n)
    else some (true, record n { last_rebirth = clock.now })

module _ (M : MetricStore) where
  open M use {Store}

  pub go_stale : ℕ → Node Store → Node Store
  unfolding Resequencer.reset
  go_stale timestamp n = record n {
    resequencer = Resequencer.reset n.resequencer;
    resequence_timeout_task = false;
    lifecycle_state = stale;
    stale_timestamp = timestamp;
    store = stale_store M n.store;
    devices = map_values (device_set_stale M) n.devices;
  }

  unfoldable pub set_stale : ℕ → Node Store → Node Store
  unfolding go_stale
  set_stale timestamp n =
      if not (is_birthed n.lifecycle_state)
      then n
      else if ltb timestamp n.birth_timestamp
      then n
      else go_stale timestamp n

  unfoldable pub publish_rebirth : Clock → Bool × Node Store → Node Store
  unfolding set_stale
  publish_rebirth clock (false, n) = n
  publish_rebirth clock (true, n) =
      let n' = set_stale clock.stamp n in record n' { published = n.id ∷ n.published }

  unfoldable pub issue_rebirth : Clock → RebirthReason → Node Store → Option (Node Store)
  unfolding eval_rebirth publish_rebirth
  issue_rebirth clock reason n =
      and_then (eval_rebirth clock reason n) λ r. some (publish_rebirth clock r)

  pub become_birthed : NBirth → Node Store → Node Store
  unfolding cancel_reorder_timeout Resequencer.reset Resequencer.set_next_sequence
  become_birthed birth n = record (cancel_reorder_timeout n) {
    birth_timestamp = birth.timestamp;
    lifecycle_state = birthed;
    bdseq = birth.bdseq;
    resequencer = Resequencer.set_next_sequence 1 (Resequencer.reset n.resequencer);
  }

  abbrev birth_outcome :
      Clock → NBirth → Node Store → Store × Result StateUpdateError (Unit {0}) → Option (Node Store)
  birth_outcome clock birth n (s, ok _) = some (become_birthed birth (record n { store = some s }))
  birth_outcome clock birth n (s, err _) =
      issue_rebirth clock RebirthReason.invalid_payload (record n { store = some s })

  pub notify_birth : Clock → NBirth → Node Store → Option (Node Store)
  unfolding become_birthed issue_rebirth
  notify_birth clock birth n = elim n.store [
    | none ↦ some (become_birthed birth n)
    | some s ↦ birth_outcome clock birth n (M.update_from_birth s birth.metrics_details)
  ]

  unfoldable pub handle_birth : Clock → NBirth → Node Store → Option (Node Store)
  unfolding notify_birth
  handle_birth clock birth n =
      if leb birth.timestamp n.birth_timestamp
      then some n
      else if is_birthed n.lifecycle_state && n.bdseq == birth.bdseq
      then some (become_birthed birth n)
      else notify_birth clock birth n

  unfoldable pub handle_death : Clock → ℕ → ℕ → Node Store → Option (Node Store)
  unfolding cancel_reorder_timeout set_stale issue_rebirth
  handle_death clock bdseq timestamp n =
      let n' = set_stale timestamp (cancel_reorder_timeout n) in
      if bdseq == n'.bdseq then some n' else issue_rebirth clock RebirthReason.out_of_sync_bdseq n'
