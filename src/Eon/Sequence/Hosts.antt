-- ===== src/Eon/Sequence/Hosts.antt =====
-- An edge node that goes offline, or whose primary host does, keeps its sequence.
use srad.Prelude.{ℕ, ◌≤◌, ◌≡◌, refl, Bool, true, false, not, Returns, if_cases, arith, nat_eq}
use srad.Types.Text.{Text}
use srad.Types.Message.{StatePayload}
use srad.Eon.State.{
  EonState, Core, World, with_state, reset_primary_host, online_swap, set_dead, ready_to_birth,
  create_last_will, generate_death_payload, death_topic, set_primary_host_online,
  update_primary_host_timestamp, is_older,
}
use srad.Eon.Node.{Node, change_state, death}
use srad.Eon.Session.{
  on_offline, on_primary_host_offline, on_accepted_state, on_primary_host_state, is_host,
  timestamp_of,
}
use srad.Eon.Sequence.{Inv}
use srad.Eon.Sequence.Sessions.{Good, try_online-Good}

module _ (W : World) where
  -- The client is offline: what was birthed dies, and the next will has the next `bdSeq`.
  pub died-Inv : (n : Node) → Inv W n.core → Inv W (on_offline W n).core
  unfolding on_offline death reset_primary_host online_swap set_dead ready_to_birth create_last_will
      generate_death_payload
  died-Inv n h =
      if_cases (λ (m : Node). Inv W m.core) (not n.core.state.inner.online) _ _
        (λ e. record {
          online = λ b. ground (arith, h.online b);
          ready = λ b. ground (arith, h.online b);
          seq = h.seq;
          will = h.will;
          bdseq = h.bdseq;
          in_order = h.in_order;
        })
        (λ e. record {
          online = λ b. ground arith;
          ready = λ b. ground arith;
          seq = λ b. ground arith;
          will = refl;
          bdseq = omega arith;
          in_order = (tt, h.in_order);
        })

  pub later-Good : (t now : ℕ) (n : Node) → t ≤ now → Good W t n → Good W now n
  later-Good t now n l h = record {
    core = h.core;
    registry = h.registry;
    requested = omega (arith, h.requested, l);
  }

  -- The registry and the latest rebirth command are as they were.
  record Same (n n' : Node) : Type 0 where
    registry : n'.template_registry ≡ n.template_registry
    requested : n'.last_node_rebirth_request ≡ n.last_node_rebirth_request

  Same-Good : (t : ℕ) (n n' : Node) → Same n n' → Inv W n'.core → Good W t n → Good W t n'
  Same-Good t n n' s i h = record {
    core = i;
    registry = rw s.registry h.registry;
    requested = rw s.requested h.requested;
  }

  on_offline-Same : (n : Node) → Same n (on_offline W n)
  unfolding on_offline death
  on_offline-Same n =
      if_cases (Same n) (not n.core.state.inner.online) _ _
        (λ e. record { registry = refl; requested = refl })
        (λ e. record { registry = refl; requested = refl })

  pub on_offline-Good : (t : ℕ) (n : Node) → Good W t n → Good W t (on_offline W n)
  on_offline-Good t n h = Same-Good t n (on_offline W n) (on_offline-Same n) (died-Inv n h.core) h

  -- The primary host is known to be online, or offline while nothing is birthed.
  host-Inv :
      (o : Bool) (s : Core)
      → (s.state.inner.birthed ≡ true → o ≡ true)
      → Inv W s
      → Inv W (with_state (set_primary_host_online o) s)
  unfolding set_primary_host_online ready_to_birth create_last_will generate_death_payload
  host-Inv o s f h = record {
    online = h.online;
    ready = λ b. ground (arith, f b);
    seq = h.seq;
    will = h.will;
    bdseq = h.bdseq;
    in_order = h.in_order;
  }

  -- The host goes offline: the death is published, and nothing is birthed any more.
  host_gone-Inv :
      (n : Node)
      → Inv W n.core
      → Inv W (on_primary_host_offline W (change_state (set_primary_host_online false) n)).core
  unfolding on_primary_host_offline set_dead set_primary_host_online death_topic ready_to_birth
      create_last_will generate_death_payload
  host_gone-Inv n h =
      if_cases (λ (m : Node). Inv W m.core) (not n.core.state.inner.birthed) _ _
        (λ e. host-Inv false n.core (λ b. ground arith) h)
        (λ e. record {
          online = λ b. ground arith;
          ready = λ b. ground arith;
          seq = λ b. ground arith;
          will = h.will;
          bdseq = h.bdseq;
          in_order = (tt, (tt, h.in_order));
        })

  host_gone-Same : (n : Node) → Same n (on_primary_host_offline W n)
  unfolding on_primary_host_offline
  host_gone-Same n =
      if_cases (Same n) (not n.core.state.inner.birthed) _ _
        (λ e. record { registry = refl; requested = refl })
        (λ e. record { registry = refl; requested = refl })

  -- The time of a STATE message is recorded.
  Stamps : Core → Bool × EonState → Type 0
  Stamps s (b, t) = Inv W s → Inv W (record s { state = t })

  update-Stamps : (t : ℕ) (s : Core) → Stamps s (update_primary_host_timestamp t s.state)
  unfolding update_primary_host_timestamp Stamps ready_to_birth create_last_will
      generate_death_payload
  update-Stamps t s =
      if_cases (Stamps s) (is_older t s.state.inner.last_primary_host_timestamp) _ _ (λ e h. h)
        λ e h. record {
          online = h.online;
          ready = h.ready;
          seq = h.seq;
          will = h.will;
          bdseq = h.bdseq;
          in_order = h.in_order;
        }

  accepted-Good :
      (t now : ℕ) (p : StatePayload) (r : Bool × EonState) (n : Node)
      → Stamps n.core r
      → Good W t n
      → Returns (Good W t) (on_accepted_state W now p r n)
  unfolding on_accepted_state Stamps
  accepted-Good t now p (false, s) n f h = h
  accepted-Good t now (StatePayload.online u) (true, s) n f h =
      try_online-Good W t now (change_state (λ _. set_primary_host_online true s) n) (record {
        core = host-Inv true (record n.core { state = s }) (λ b. refl) (f h.core);
        registry = h.registry;
        requested = h.requested;
      })
  accepted-Good t now (StatePayload.offline u) (true, s) n f h =
      let m : Node = change_state (λ _. s) n in
      let n' : Node = change_state (set_primary_host_online false) m in
      let k = host_gone-Same n' in
      Same-Good t n (on_primary_host_offline W n')
        (record { registry = k.registry; requested = k.requested }) (host_gone-Inv m (f h.core)) h

  pub host_state-Good :
      (t now : ℕ) (host : Text) (p : StatePayload) (n : Node)
      → Good W t n
      → Returns (Good W t) (on_primary_host_state W now host p n)
  unfolding on_primary_host_state
  host_state-Good t now host p n h =
      if_cases (Returns (Good W t)) (not (is_host host n.core.state.primary_host_id)) _ _ (λ e. h)
        λ e. accepted-Good t now p _ n (update-Stamps (timestamp_of p) n.core) h
