-- ===== src/Eon/Sequence/Sessions.antt =====
-- The handlers of an edge node's session keep the sequence, and do not panic.
use srad.Prelude.{
  ℕ, ◌≤◌, ◌≡◌, refl, sym, ap, ◌∙◌, Bool, true, false, some, not, ◌||◌, Returns, Returns-then,
  if_cases, arith, is_some,
}
use srad.Types.Payload.{Payload}
use srad.Types.Topic.{NodeTopic}
use srad.Eon.Templates.{change_all}
use srad.Eon.State.{
  Core, World, Call, asked, with_state, start_birth, birth_completed, online_swap, set_dead,
  ready_to_birth, create_last_will, generate_death_payload, subscribe_many, disconnect, birth_topic,
  sub_topics, publish_node_message,
}
use srad.Eon.Device.{BirthType, birth, rebirth}
use srad.Eon.Node.{
  Node, call, change_state, publish_node_birth, node_birth, node_births, tell_devices, node_rebirth,
  command_rebirth, on_online, retry_later, births_or_retries, once_online, try_online, succeeded,
  generate_birth_payload,
}
use srad.Eon.Sequence.{Inv, asked-Inv, dead-Inv, numbering, unnumbered, starts, NotWill, latest}
use srad.Eon.Sequence.Births.{IsBirth, Registrable, generate_birth_payload-IsBirth}
use srad.Eon.Sequence.Registry.{change_all-Registrable}

module _ (W : World) where
  -- At time `t`: the sequence is kept, the templates can be registered, and the latest rebirth
  -- command was not later.
  pub record Good (t : ℕ) (n : Node) : Type 0 where
    pub core : Inv W n.core
    pub registry : Registrable n.template_registry
    pub requested : n.last_node_rebirth_request ≤ t

  -- A node that may be birthed.
  pub record May (n : Node) : Type 0 where
    pub online : n.core.state.inner.online ≡ true
    pub ready : ready_to_birth n.core.state ≡ true

  start-Inv : (s : Core) → Inv W s → Inv W (with_state start_birth s)
  unfolding start_birth ready_to_birth create_last_will generate_death_payload
  start-Inv s h = record {
    online = λ b. ground arith;
    ready = λ b. ground arith;
    seq = λ b. ground arith;
    will = h.will;
    bdseq = h.bdseq;
    in_order = h.in_order;
  }

  -- The birth is published, and then the node is birthed.
  born-Inv :
      (s : Core) (p : Payload) (t : NodeTopic)
      → numbering (publish_node_message t p) ≡ starts p
      → IsBirth s.state.bdseq p
      → s.state.inner.birthed ≡ false
      → Inv W s
      → Inv W (asked (publish_node_message t p) s)
  born-Inv s p t e b d h = record {
    online = h.online;
    ready = h.ready;
    seq = λ f. ground arith;
    will = h.will;
    bdseq = h.bdseq;
    in_order =
        (rw e (b.seq, record { state = s.state; read = b.reads; will = h.will }), h.in_order);
  }

  completed-Inv :
      (s : Core)
      → s.state.inner.online ≡ true
      → ready_to_birth s.state ≡ true
      → latest s.calls ≡ some s.state.inner.seq
      → Inv W s
      → Inv W (with_state birth_completed s)
  unfolding birth_completed ready_to_birth create_last_will generate_death_payload
  completed-Inv s o r l h = record {
    online = λ b. o;
    ready = λ b. r;
    seq = λ b. l;
    will = h.will;
    bdseq = h.bdseq;
    in_order = h.in_order;
  }

  -- What an attempt to publish a birth leaves: birthed or not, it is still online and ready.
  record Attempted (t : ℕ) (r : Bool × Node) : Type 0 where
    good : Good t (r.1)
    failed : r.0 ≡ false → r.1.core.state.inner.birthed ≡ false

  publish_node_birth-Attempted :
      (t : ℕ) (n : Node) (p : Payload)
      → Good t n
      → May n
      → IsBirth n.core.state.bdseq p
      → n.core.state.inner.birthed ≡ false
      → n.core.state.inner.seq ≡ 0
      → Attempted t (publish_node_birth W p n)
  unfolding publish_node_birth birth_topic ready_to_birth
  publish_node_birth-Attempted t n p h m b d z =
      let c = publish_node_message (birth_topic n.core.state) p in
      let i = born-Inv n.core p (birth_topic n.core.state) refl b d h.core in
      if_cases (Attempted t) (succeeded W (call c n)) _ _
        (λ e. record {
          good = record {
            core = completed-Inv (asked c n.core) m.online m.ready (b.seq ∙ ap some (sym z)) i;
            registry = h.registry;
            requested = h.requested;
          };
          failed = λ f. ground arith;
        })
        (λ e. record {
          good = record { core = i; registry = h.registry; requested = h.requested };
          failed = λ f. d;
        })

  node_birth-Attempted :
      (t : ℕ) (n : Node) → Good t n → May n → Returns (Attempted t) (node_birth W n)
  unfolding node_birth start_birth ready_to_birth
  node_birth-Attempted t n h m =
      let n' : Node = record (change_state start_birth n) {
        template_registry = change_all (W.update_registry n.core.calls) n.template_registry;
      } in
      let r =
        change_all-Registrable (W.update_registry n.core.calls) n.template_registry h.registry in
      Returns-then {P = IsBirth n.core.state.bdseq} (Attempted t)
        (generate_birth_payload W n.core.state.bdseq 0 n') _
        (generate_birth_payload-IsBirth W n.core.state.bdseq n' h.core.bdseq r)
        (λ p b.
          publish_node_birth-Attempted t n' p
            (record { core = start-Inv n.core h.core; registry = r; requested = h.requested })
            (record { online = m.online; ready = m.ready }) b refl refl)

  told :
      (t : ℕ) (ty : BirthType) (r : Bool × Node) → Attempted t r → Attempted t (tell_devices W ty r)
  unfolding tell_devices
  told t ty (true, n) a = record {
    good = record { core = a.good.core; registry = a.good.registry; requested = a.good.requested };
    failed = λ f. ground arith;
  }
  told t ty (false, n) a = a

  node_births-Attempted :
      (t : ℕ) (ty : BirthType) (n : Node)
      → Good t n
      → May n
      → Returns (Attempted t) (node_births W ty n)
  unfolding node_births
  node_births-Attempted t ty n h m =
      Returns-then (Attempted t) (node_birth W n) _ (node_birth-Attempted t n h m)
        (λ r a. told t ty r a)

  birthed-May : (t : ℕ) (n : Node) → Good t n → n.core.state.inner.birthed ≡ true → May n
  birthed-May t n h b = record { online = h.core.online b; ready = h.core.ready b }

  pub node_rebirth-Good : (t : ℕ) (n : Node) → Good t n → Returns (Good t) (node_rebirth W n)
  unfolding node_rebirth
  node_rebirth-Good t n h =
      if_cases (Returns (Good t)) (not n.core.state.inner.birthed) _ _ (λ e. h)
        λ e.
          Returns-then (Good t) (node_births W rebirth n) _
            (node_births-Attempted t rebirth n h (birthed-May t n h (ground arith))) (λ r a. a.good)

  pub command_rebirth-Good : (t : ℕ) (n : Node) → Good t n → Returns (Good t) (command_rebirth W n)
  unfolding command_rebirth set_dead ready_to_birth
  command_rebirth-Good t n h =
      if_cases (Returns (Good t)) (not n.core.state.inner.birthed) _ _ (λ e. h)
        λ e.
          let m = birthed-May t n h (ground arith) in
          Returns-then (Good t) (node_births W rebirth (change_state set_dead n)) _
            (node_births-Attempted t rebirth (change_state set_dead n)
              (record {
                core = dead-Inv W n.core h.core;
                registry = h.registry;
                requested = h.requested;
              })
              (record { online = m.online; ready = m.ready }))
            (λ r a. a.good)

  -- A call that is neither numbered nor a will.
  pub call-Good :
      (t : ℕ) (c : Call) (n : Node)
      → numbering c ≡ unnumbered
      → NotWill c
      → Good t n
      → Good t (call c n)
  call-Good t c n e w h = record {
    core = asked-Inv W c n.core e w h.core;
    registry = h.registry;
    requested = h.requested;
  }

  retry_later-Good : (t now : ℕ) (n : Node) → Good t n → Good t (retry_later W now n)
  retry_later-Good t now n h =
      call-Good t disconnect (record n { retry_at = some _ }) refl tt
        (record { core = h.core; registry = h.registry; requested = h.requested })

  -- A node that is not birthed may go online or offline.
  swapped-Inv :
      (o : Bool) (s : Core)
      → (s.state.inner.birthed ≡ true → o ≡ true)
      → Inv W s
      → Inv W (with_state (online_swap o) s)
  unfolding online_swap ready_to_birth create_last_will generate_death_payload
  swapped-Inv o s f h = record {
    online = f;
    ready = h.ready;
    seq = h.seq;
    will = h.will;
    bdseq = h.bdseq;
    in_order = h.in_order;
  }

  births_or_retries-Good :
      (t now : ℕ) (r : Bool × Node) → Attempted t r → Good t (births_or_retries W now r)
  unfolding births_or_retries
  births_or_retries-Good t now (true, n) a = a.good
  births_or_retries-Good t now (false, n) a =
      let f : n.core.state.inner.birthed ≡ false = a.failed refl in
      retry_later-Good t now (change_state (online_swap false) n) (record {
        core = swapped-Inv false n.core (λ b. ground arith) a.good.core;
        registry = a.good.registry;
        requested = a.good.requested;
      })

  -- Whether the node is online then.
  pub record Online (t : ℕ) (r : Bool × Node) : Type 0 where
    pub good : Good t (r.1)
    pub online : r.0 ≡ true → r.1.core.state.inner.online ≡ true

  pub on_online-Online : (t : ℕ) (n : Node) → Good t n → Online t (on_online W n)
  unfolding on_online online_swap
  on_online-Online t n h =
      if_cases (Online t) n.core.state.inner.online _ _ (λ e. record { good = h; online = λ f. e })
        λ e.
          let c = subscribe_many (sub_topics n.core.state) in
          let g = call-Good t c n refl tt h in
          if_cases (Online t) (succeeded W (call c n)) _ _
            (λ f. record {
              good = record {
                core = swapped-Inv true (asked c n.core) (λ b. refl) g.core;
                registry = g.registry;
                requested = g.requested;
              };
              online = λ x. refl;
            })
            (λ f. record { good = g; online = λ x. ground arith })

  once_online-Good :
      (t now : ℕ) (r : Bool × Node) → Online t r → Returns (Good t) (once_online W now r)
  unfolding once_online
  once_online-Good t now (false, n) o = retry_later-Good t now n o.good
  once_online-Good t now (true, n) o =
      if_cases (Returns (Good t)) n.core.state.inner.birthed _ _ (λ e. o.good)
        λ e.
          if_cases (Returns (Good t)) (not (ready_to_birth n.core.state)) _ _ (λ f. o.good)
            λ f.
              Returns-then (Good t) (node_births W birth n) _
                (node_births-Attempted t birth n o.good
                  (record { online = o.online refl; ready = ground arith }))
                (λ r a. births_or_retries-Good t now r a)

  pub try_online-Good : (t now : ℕ) (n : Node) → Good t n → Returns (Good t) (try_online W now n)
  unfolding try_online
  try_online-Good t now n h =
      if_cases (Returns (Good t)) (not n.client_online || is_some n.retry_at) _ _ (λ e. h)
        λ e. once_online-Good t now (on_online W n) (on_online-Online t n h)
