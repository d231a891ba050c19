-- ===== src/App/Application/Routes.antt =====
-- Which messages reach which node: the inbox of each node after any run of events.
use srad.Prelude.{
  Bool, true, Option, none, some, List, [], ◌∷◌, ◌++◌, ◌&&◌, ◌||◌, if◌then◌else◌, lookup, insert,
  lookup-insert, is_some, ◌≡◌, refl, ap, ◌∙◌, arith,
}
use mathlib.Core.List.{append-nil, append_assoc}
use srad.App.Events.{NodeIdentifier}
use srad.App.Rebirth.{RebirthReason}
use srad.App.Node.{NodeInput}
use srad.App.Application.{
  Application, Task, same_node, same_node_iff, id_eq, created, sent, asked, with_task, send_message,
  issue_rebirth, create_node, get_or_create_node, get_node_or_issue_rebirth,
}

abbrev pub if_for : Bool → NodeInput → List NodeInput
if_for b m = if b then m ∷ [] else []

module _ {Store : Type 0} where
  abbrev pub inbox_of : Option (Task Store) → List NodeInput
  inbox_of none = []
  inbox_of (some t) = t.inbox

  -- What waits for the node `j`.
  abbrev pub inbox : NodeIdentifier → Application Store → List NodeInput
  inbox j app = inbox_of (lookup j app.nodes)

  abbrev pub knows : NodeIdentifier → Application Store → Bool
  knows j app = is_some (lookup j app.nodes)

  -- The node `j` gets `ms`, and is known afterwards if `k`.
  abbrev pub Gets :
      NodeIdentifier → List NodeInput → Bool → Application Store → Application Store → Type 0
  Gets j ms k app app' =
      (inbox j app' ≡ inbox j app ++ ms) × (knows j app' ≡ k) × (app'.config ≡ app.config)

  task_after :
      (j id : NodeIdentifier) (t : Task Store) (app : Application Store)
      → lookup j (insert id t app.nodes) ≡ (if same_node id j then some t else lookup j app.nodes)
  task_after j id t app = lookup-insert id j t app.nodes

  same_task :
      (j id : NodeIdentifier) (app : Application Store)
      → same_node id j ≡ true
      → lookup id app.nodes ≡ lookup j app.nodes
  same_task j id app e = ap (λ x. lookup x app.nodes) ((same_node_iff id j).0 e)

  sent_parts :
      (j id : NodeIdentifier) (m : NodeInput) (app : Application Store) (o : Option (Task Store))
      → lookup id app.nodes ≡ o
      → Gets j
          (if_for (same_node id j && knows j app) m)
          (knows j app)
          app
          (with_task id (sent m) app)
  sent_parts j id m app none e = ground (arith, e, same_task j id app, append-nil (inbox j app))
  sent_parts j id m app (some t) e =
      ground
        (arith, e, same_task j id app, append-nil (inbox j app), task_after j id (sent m t) app)

  pub send-Gets :
      (j id : NodeIdentifier) (m : NodeInput) (app : Application Store)
      → Gets j (if_for (same_node id j && knows j app) m) (knows j app) app (send_message id m app)
  unfolding send_message
  send-Gets j id m app = sent_parts j id m app (lookup id app.nodes) refl

  asked_parts :
      (j id : NodeIdentifier) (r : RebirthReason) (app : Application Store)
      (o : Option (Task Store))
      → lookup id app.nodes ≡ o
      → Gets j [] (knows j app) app (with_task id (asked r) app)
  asked_parts j id r app none e = ground (arith, e, append-nil (inbox j app))
  asked_parts j id r app (some t) e =
      ground
        (arith, e, same_task j id app, append-nil (inbox j app), task_after j id (asked r t) app)

  create-Gets :
      (j id : NodeIdentifier) (app : Application Store)
      → lookup id app.nodes ≡ none
      → Gets j [] (same_node id j || knows j app) app (create_node id app)
  unfolding create_node
  create-Gets j id app e =
      let t : Task Store = record { node = created id app; inbox = [] } in
      ground (arith, e, same_task j id app, append-nil (inbox j app), task_after j id t app)

  get_or_create-parts-Gets :
      (j id : NodeIdentifier) (app : Application Store) (o : Option (Task Store))
      → lookup id app.nodes ≡ o
      → Gets j [] (same_node id j || knows j app) app (get_or_create_node id app)
  unfolding get_or_create_node
  get_or_create-parts-Gets j id app none e = rw (get_or_create_node, e) (create-Gets j id app e)
  get_or_create-parts-Gets j id app (some t) e =
      rw (get_or_create_node, e) (ground (arith, e, same_task j id app, append-nil (inbox j app)))

  pub get_or_create-Gets :
      (j id : NodeIdentifier) (app : Application Store)
      → Gets j [] (same_node id j || knows j app) app (get_or_create_node id app)
  get_or_create-Gets j id app = get_or_create-parts-Gets j id app (lookup id app.nodes) refl

  issue-Gets :
      (j id : NodeIdentifier) (r : RebirthReason) (app : Application Store)
      → Gets j [] (knows j app) app (issue_rebirth id r app)
  unfolding issue_rebirth
  issue-Gets j id r app = asked_parts j id r app (lookup id app.nodes) refl

  pub Gets-trans :
      (j : NodeIdentifier) (ms ns : List NodeInput) (k l : Bool) (a b c : Application Store)
      → Gets j ms k a b
      → Gets j ns l b c
      → Gets j (ms ++ ns) l a c
  Gets-trans j ms ns k l a b c f g =
      (g.0 ∙ ap (λ x. x ++ ns) f.0 ∙ append_assoc (inbox j a) ms ns, g.1, g.2 ∙ f.2)

  -- A node that is made on the way, and asked for a rebirth.
  pub created-Gets :
      (j id : NodeIdentifier) (r : RebirthReason) (app c : Application Store)
      → Gets j [] (same_node id j || knows j app) app c
      → Gets j [] (same_node id j || knows j app) app (issue_rebirth id r c)
  created-Gets j id r app c f =
      let h = issue-Gets j id r c in
      let g =
        Gets-trans j [] [] (same_node id j || knows j app) (knows j c) app c (issue_rebirth id r c)
          f h in
      (g.0, g.1 ∙ f.1, g.2)

  rebirth-parts-Gets :
      (j id : NodeIdentifier) (m : NodeInput) (app : Application Store) (o : Option (Task Store))
      → lookup id app.nodes ≡ o
      → Gets j
          (if_for (same_node id j && knows j app) m)
          (same_node id j || knows j app)
          app
          (get_node_or_issue_rebirth id (send_message id m) app)
  unfolding get_node_or_issue_rebirth
  rebirth-parts-Gets j id m app none e =
      let c = create_node id app in
      let g = created-Gets j id RebirthReason.unknown_node app c (create-Gets j id app e) in
      rw (get_node_or_issue_rebirth, e) (ground (arith, e, same_task j id app, g))
  rebirth-parts-Gets j id m app (some t) e =
      let g = send-Gets j id m app in
      rw (get_node_or_issue_rebirth, e) (ground (arith, e, same_task j id app, g))

  pub rebirth-Gets :
      (j id : NodeIdentifier) (m : NodeInput) (app : Application Store)
      → Gets j
          (if_for (same_node id j && knows j app) m)
          (same_node id j || knows j app)
          app
          (get_node_or_issue_rebirth id (send_message id m) app)
  rebirth-Gets j id m app = rebirth-parts-Gets j id m app (lookup id app.nodes) refl

  -- A birth reaches its node, which is made when it is new.
  pub birth-Gets :
      (j id : NodeIdentifier) (m : NodeInput) (app : Application Store)
      → Gets j
          (if_for (same_node id j) m)
          (same_node id j || knows j app)
          app
          (send_message id m (get_or_create_node id app))
  birth-Gets j id m app =
      let c = get_or_create_node id app in
      let f = get_or_create-Gets j id app in
      let ms = if_for (same_node id j && knows j c) m in
      let g =
        Gets-trans j [] ms (same_node id j || knows j app) (knows j c) app c (send_message id m c) f
          (send-Gets j id m c) in
      ground (arith, g, f)
