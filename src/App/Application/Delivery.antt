-- ===== src/App/Application/Delivery.antt =====
-- The inbox of each node after any run of events, against a description of what a node is sent.
use srad.Prelude.{
  ℕ, Bool, true, false, List, [], ◌∷◌, ◌++◌, ◌&&◌, ◌||◌, not, Assoc, lookup, map_values, is_some,
  ◌≡◌, refl, sym, ap, ap₂, ◌∙◌, arith, if_cases,
}
use mathlib.Core.List.{append-nil, append_assoc}
use srad.Types.Message.{Message, MessageKind}
use srad.App.Events.{NodeIdentifier, NodeEvent}
use srad.App.Rebirth.{RebirthReason}
use srad.App.Node.{NodeInput}
use srad.App.Application.{
  Application, Task, AppEvent, same_node, id_eq, sent, get_or_create_node, handle_node_event,
  handle_event, device_message, run,
}
use srad.App.Application.Routes.{
  inbox_of, inbox, knows, Gets, if_for, send-Gets, rebirth-Gets, birth-Gets, get_or_create-Gets,
  created-Gets,
}

abbrev is_birth : MessageKind → Bool
is_birth MessageKind.birth = true
is_birth MessageKind.death = false
is_birth MessageKind.cmd = false
is_birth MessageKind.data_kind = false
is_birth (MessageKind.other t) = false

abbrev is_death : MessageKind → Bool
is_death MessageKind.birth = false
is_death MessageKind.death = true
is_death MessageKind.cmd = false
is_death MessageKind.data_kind = false
is_death (MessageKind.other t) = false

-- The event starts a node.
abbrev pub starts : NodeEvent → Bool
starts (NodeEvent.birth b) = true
starts (NodeEvent.death d) = false
starts (NodeEvent.data_event d) = false
starts (NodeEvent.raw m) = is_birth m.kind

-- The event says nothing of a node that is not known.
abbrev pub ends : NodeEvent → Bool
ends (NodeEvent.birth b) = false
ends (NodeEvent.death d) = true
ends (NodeEvent.data_event d) = false
ends (NodeEvent.raw m) = is_death m.kind

abbrev pub node_message : ℕ → NodeEvent → NodeInput
node_message t (NodeEvent.birth b) = NodeInput.nbirth b
node_message t (NodeEvent.death d) = NodeInput.ndeath d t
node_message t (NodeEvent.data_event d) = NodeInput.ndata d
node_message t (NodeEvent.raw m) = NodeInput.raw m

-- What an event sends to the node `j`, known or not.
abbrev pub sends : NodeIdentifier → ℕ → Bool → AppEvent → List NodeInput
sends j t known AppEvent.online = []
sends j t known AppEvent.offline = if_for known NodeInput.offline
sends j t known (AppEvent.node e) =
    if_for (same_node e.id j && (starts e.event || known)) (node_message t e.event)
sends j t known (AppEvent.device e) =
    if_for (same_node e.id j && known) (device_message e.name e.event)
sends j t known (AppEvent.invalid_payload d) = []
sends j t known AppEvent.cancelled = []

-- Whether the node `j` is known afterwards; `on_invalid` is the setting for invalid payloads.
abbrev pub known_after : NodeIdentifier → Bool → Bool → AppEvent → Bool
known_after j on_invalid known AppEvent.online = known
known_after j on_invalid known AppEvent.offline = known
known_after j on_invalid known (AppEvent.node e) = (same_node e.id j && not (ends e.event)) || known
known_after j on_invalid known (AppEvent.device e) = same_node e.id j || known
known_after j on_invalid known (AppEvent.invalid_payload d) =
    (on_invalid && same_node d.node_id j) || known
known_after j on_invalid known AppEvent.cancelled = known

-- What a run of events sends to the node `j`, up to the cancellation.
abbrev pub all_sends : NodeIdentifier → Bool → Bool → List (ℕ × AppEvent) → List NodeInput
all_sends j on_invalid known [] = []
all_sends j on_invalid known ((t, AppEvent.cancelled) ∷ es) = []
all_sends j on_invalid known ((t, e) ∷ es) =
    sends j t known e ++ all_sends j on_invalid (known_after j on_invalid known e) es

module _ {Store : Type 0} where
  abbrev on_invalid : Application Store → Bool
  on_invalid app = app.config.rebirth_config.invalid_payload

  abbrev Routed : NodeIdentifier → ℕ → AppEvent → Application Store → Application Store → Type 0
  Routed j t e app app' =
      Gets j (sends j t (knows j app) e) (known_after j (on_invalid app) (knows j app) e) app app'

  offline_tasks :
      (j : NodeIdentifier) (ts : Assoc NodeIdentifier (Task Store))
      → (inbox_of (lookup j (map_values (sent NodeInput.offline) ts))
          ≡ inbox_of (lookup j ts) ++ if_for (is_some (lookup j ts)) NodeInput.offline)
        × (is_some (lookup j (map_values (sent NodeInput.offline) ts)) ≡ is_some (lookup j ts))
  unfolding lookup
  offline_tasks j [] = (refl, refl)
  offline_tasks j ((i, t) ∷ ts) = ground (arith, offline_tasks j ts)

  raw-Routed :
      (j id : NodeIdentifier) (t : ℕ) (k : MessageKind) (m : Message) (app : Application Store)
      → m.kind ≡ k
      → Routed j t
          (AppEvent.node (record { id = id; event = NodeEvent.raw m }))
          app
          (handle_node_event t id (NodeEvent.raw m) app)
  unfolding handle_node_event
  raw-Routed j id t MessageKind.birth m app e =
      rw (handle_node_event, e) (ground (arith, birth-Gets j id (NodeInput.raw m) app))
  raw-Routed j id t MessageKind.death m app e =
      rw (handle_node_event, e) (ground (arith, send-Gets j id (NodeInput.raw m) app))
  raw-Routed j id t MessageKind.cmd m app e =
      rw (handle_node_event, e) (ground (arith, rebirth-Gets j id (NodeInput.raw m) app))
  raw-Routed j id t MessageKind.data_kind m app e =
      rw (handle_node_event, e) (ground (arith, rebirth-Gets j id (NodeInput.raw m) app))
  raw-Routed j id t (MessageKind.other x) m app e =
      rw (handle_node_event, e) (ground (arith, rebirth-Gets j id (NodeInput.raw m) app))

  node-Routed :
      (j id : NodeIdentifier) (t : ℕ) (e : NodeEvent) (app : Application Store)
      → Routed j t
          (AppEvent.node (record { id = id; event = e }))
          app
          (handle_node_event t id e app)
  unfolding handle_node_event
  node-Routed j id t (NodeEvent.birth b) app =
      ground (arith, birth-Gets j id (NodeInput.nbirth b) app)
  node-Routed j id t (NodeEvent.death d) app =
      ground (arith, send-Gets j id (NodeInput.ndeath d t) app)
  node-Routed j id t (NodeEvent.data_event d) app =
      ground (arith, rebirth-Gets j id (NodeInput.ndata d) app)
  node-Routed j id t (NodeEvent.raw m) app = raw-Routed j id t m.kind m app refl

  unchanged : (j : NodeIdentifier) (app : Application Store) → Gets j [] (knows j app) app app
  unchanged j app = (sym (append-nil (inbox j app)), refl, refl)

  event-Routed :
      (j : NodeIdentifier) (t : ℕ) (e : AppEvent) (app : Application Store)
      → Routed j t e app (handle_event t e app).1
  unfolding handle_event
  event-Routed j t AppEvent.online app = unchanged j app
  event-Routed j t AppEvent.offline app = let o = offline_tasks j app.nodes in (o.0, o.1, refl)
  event-Routed j t (AppEvent.node e) app = node-Routed j e.id t e.event app
  event-Routed j t (AppEvent.device e) app = rebirth-Gets j e.id (device_message e.name e.event) app
  event-Routed j t (AppEvent.invalid_payload d) app =
      let c = get_or_create_node d.node_id app in
      let f =
        created-Gets j d.node_id RebirthReason.invalid_payload app c
          (get_or_create-Gets j d.node_id app) in
      if_cases
        (λ app'. Gets j [] ((on_invalid app && same_node d.node_id j) || knows j app) app app')
        (on_invalid app) _ app (λ h. ground (arith, h, f)) (λ h. ground (arith, h, unchanged j app))
  event-Routed j t AppEvent.cancelled app = unchanged j app

  then-all_sends :
      (j : NodeIdentifier) (t : ℕ) (e : AppEvent) (es : List (ℕ × AppEvent))
      (app : Application Store)
      → ((a : Application Store)
          → inbox j (run es a) ≡ inbox j a ++ all_sends j (on_invalid a) (knows j a) es)
      → inbox j (run es (handle_event t e app).1)
        ≡ inbox j app
          ++ (sends j t (knows j app) e
              ++ all_sends j (on_invalid app) (known_after j (on_invalid app) (knows j app) e) es)
  then-all_sends j t e es app ih =
      let app' = (handle_event t e app).1 in
      let r = event-Routed j t e app in
      let known = known_after j (on_invalid app) (knows j app) e in
      let same : on_invalid app' ≡ on_invalid app =
        ap (λ c. c.rebirth_config.invalid_payload) r.2 in
      ih app'
      ∙ ap₂ (λ x y. x ++ all_sends j (on_invalid app') y es) r.0 r.1
      ∙ ap (λ x. (inbox j app ++ sends j t (knows j app) e) ++ all_sends j x known es) same
      ∙ append_assoc (inbox j app) (sends j t (knows j app) e)
          (all_sends j (on_invalid app) known es)

  -- After any run of events, up to the cancellation, the inbox of each node holds what it held
  -- before and then, in the order of the events, the messages that the events have for this node
  -- and no other: births from any event, everything else once the node is known, and that the
  -- application is offline for each node that is known then.
  pub run-all_sends :
      (j : NodeIdentifier) (es : List (ℕ × AppEvent)) (app : Application Store)
      → inbox j (run es app) ≡ inbox j app ++ all_sends j (on_invalid app) (knows j app) es
  unfolding run
  run-all_sends j [] app = sym (append-nil (inbox j app))
  run-all_sends j ((t, AppEvent.online) ∷ es) app =
      then-all_sends j t AppEvent.online es app (run-all_sends j es)
  run-all_sends j ((t, AppEvent.offline) ∷ es) app =
      then-all_sends j t AppEvent.offline es app (run-all_sends j es)
  run-all_sends j ((t, AppEvent.device d) ∷ es) app =
      then-all_sends j t (AppEvent.device d) es app (run-all_sends j es)
  run-all_sends j ((t, AppEvent.node d) ∷ es) app =
      then-all_sends j t (AppEvent.node d) es app (run-all_sends j es)
  run-all_sends j ((t, AppEvent.invalid_payload d) ∷ es) app =
      then-all_sends j t (AppEvent.invalid_payload d) es app (run-all_sends j es)
  run-all_sends j ((t, AppEvent.cancelled) ∷ es) app = sym (append-nil (inbox j app))
