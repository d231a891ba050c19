-- ===== src/Eon/Sequence/Retry.antt =====
-- What becomes of an attempt of an edge node to be birthed.
use srad.Prelude.{
  ℕ, ◌+◌, ◌≡◌, refl, sym, ◌∙◌, Bool, true, false, none, some, List, ◌∷◌, not, ◌⊎◌, inl, inr,
  Returns, Returns-then, Returns-imp, if_cases, arith, is_some,
}
use srad.Types.Payload.{Payload}
use srad.Types.Topic.{TopicFilter, nbirth}
use srad.Eon.State.{
  World, Call, publish_node_message, birth_topic, start_birth, birth_completed, online_swap,
  ready_to_birth, disconnect, subscribe_many, sub_topics,
}
use srad.Eon.Device.{birth}
use srad.Eon.Templates.{change_all}
use srad.Eon.Node.{
  Node, call, change_state, publish_node_birth, node_birth, node_births, tell_devices, on_online,
  births_or_retries, once_online, try_online, succeeded, generate_birth_payload,
}
use srad.Eon.Run.{Turn, turn}
use srad.Eon.Sequence.Births.{IsBirth, generate_birth_payload-IsBirth}
use srad.Eon.Sequence.Registry.{change_all-Registrable}
use srad.Eon.Sequence.Sessions.{Good, on_online-Online}

module _ (W : World) where
  abbrev pub IsBirthed : Node → Type 0
  IsBirthed n = n.core.state.inner.birthed ≡ true

  -- The calls that an attempt makes for itself: the subscription, and a message that is a birth.
  abbrev pub OfAttempt : Call → Type 0
  OfAttempt (subscribe_many fs) = Unit
  OfAttempt (publish_node_message t p) = t.message_type ≡ nbirth
  OfAttempt _ = ⊥

  -- After the calls `cs` the attempt has made no other call, or has subscribed.
  abbrev pub Begun : List Call → List Call → Type 0
  Begun cs before = (before ≡ cs) ⊎ ((fs : List TopicFilter) × (before ≡ subscribe_many fs ∷ cs))

  -- The client has refused the last call, one of the attempt's own.
  pub record Refused (cs before calls : List Call) (last : Call) : Type 0 where
    pub made : calls ≡ last ∷ before
    pub begun : Begun cs before
    pub of_attempt : OfAttempt last
    pub refused : W.answer (last ∷ before) ≡ false

  abbrev pub IsRefused : List Call → List Call → Type 0
  IsRefused cs calls = (before : List Call) × (last : Call) × Refused cs before calls last

  -- The attempt after the calls `cs` has failed: the client has refused a call of the attempt and
  -- is disconnected, which are all the calls since then, and the next attempt is due after the
  -- delay.
  pub record Retries (now : ℕ) (cs : List Call) (n : Node) : Type 0 where
    pub unbirthed : n.core.state.inner.birthed ≡ false
    pub offline : n.core.state.inner.online ≡ false
    pub due : n.retry_at ≡ some (now + n.retry_delay)
    pub calls : List Call
    pub disconnected : n.core.calls ≡ disconnect ∷ calls
    pub refused : IsRefused cs calls

  -- Whether a birth succeeded.
  Births : List Call → Bool × Node → Type 0
  Births cs (true, n) = IsBirthed n
  Births cs (false, n) = (n.core.state.inner.birthed ≡ false) × IsRefused cs n.core.calls

  publish_node_birth-Births :
      (cs : List Call) (p : Payload) (n : Node)
      → Begun cs n.core.calls
      → n.core.state.inner.birthed ≡ false
      → Births cs (publish_node_birth W p n)
  unfolding publish_node_birth birth_completed birth_topic Births
  publish_node_birth-Births cs p n g b =
      if_cases (Births cs) (succeeded W (call _ n)) _ _ (λ e. refl)
        (λ e. (b, (_, _, record { made = refl; begun = g; of_attempt = refl; refused = e })))

  tell_devices-Births :
      (cs : List Call) (r : Bool × Node) → Births cs r → Births cs (tell_devices W birth r)
  unfolding tell_devices Births
  tell_devices-Births cs (true, n) h = h
  tell_devices-Births cs (false, n) h = h

  node_births-Births :
      (cs : List Call) (t : ℕ) (n : Node)
      → Good W t n
      → Begun cs n.core.calls
      → Returns (Births cs) (node_births W birth n)
  unfolding node_births node_birth start_birth
  node_births-Births cs t n h g =
      let n' : Node = record (change_state start_birth n) {
        template_registry = change_all (W.update_registry n.core.calls) n.template_registry;
      } in
      Returns-then {P = Births cs} (Births cs) (node_birth W n) _
        (Returns-then {P = IsBirth n.core.state.bdseq} (Births cs)
          (generate_birth_payload W n.core.state.bdseq 0 n') _
          (generate_birth_payload-IsBirth W n.core.state.bdseq n' h.core.bdseq (
            change_all-Registrable (W.update_registry n.core.calls) n.template_registry h.registry))
          (λ p b. publish_node_birth-Births cs p n' g refl))
        (λ r b. tell_devices-Births cs r b)

  -- What an attempt after the calls `cs` comes to.
  abbrev pub Attempt : ℕ → List Call → Node → Type 0
  Attempt now cs n = IsBirthed n ⊎ Retries now cs n

  births_or_retries-Attempt :
      (now : ℕ) (cs : List Call) (r : Bool × Node)
      → Births cs r
      → Attempt now cs (births_or_retries W now r)
  unfolding births_or_retries Births online_swap
  births_or_retries-Attempt now cs (true, n) b = inl b
  births_or_retries-Attempt now cs (false, n) b = inr (record {
    unbirthed = b.0;
    offline = refl;
    due = refl;
    calls = _;
    disconnected = refl;
    refused = b.1;
  })

  -- Once the client has subscribed, or not.
  Subscribed : List Call → Bool × Node → Type 0
  Subscribed cs (true, n) = (ready_to_birth n.core.state ≡ true) × Begun cs n.core.calls
  Subscribed cs (false, n) =
      (n.core.state.inner.birthed ≡ false)
      × (n.core.state.inner.online ≡ false)
      × IsRefused cs n.core.calls

  on_online-Subscribed :
      (t : ℕ) (n : Node)
      → Good W t n
      → ready_to_birth n.core.state ≡ true
      → Subscribed n.core.calls (on_online W n)
  unfolding on_online online_swap Subscribed ready_to_birth
  on_online-Subscribed t n h r =
      if_cases (Subscribed n.core.calls) n.core.state.inner.online _ _ (λ e. (r, inl refl))
        λ e.
          if_cases (Subscribed n.core.calls)
            (succeeded W (call (subscribe_many (sub_topics n.core.state)) n)) _ _
            (λ f. (r, inr (_, refl)))
            (λ f. (
              ground (arith, h.core.online, e),
              e,
              (_, _, record { made = refl; begun = inl refl; of_attempt = tt; refused = f }),
            ))

  once_online-Attempt :
      (t now : ℕ) (cs : List Call) (r : Bool × Node)
      → Good W t (r.1)
      → Subscribed cs r
      → Returns (Attempt now cs) (once_online W now r)
  unfolding once_online Subscribed
  once_online-Attempt t now cs (false, n) g s = inr (record {
    unbirthed = s.0;
    offline = s.1;
    due = refl;
    calls = _;
    disconnected = refl;
    refused = s.2;
  })
  once_online-Attempt t now cs (true, n) g s =
      if_cases (Returns (Attempt now cs)) n.core.state.inner.birthed _ _ (λ e. inl e)
        λ e.
          if_cases (Returns (Attempt now cs)) (not (ready_to_birth n.core.state)) _ _
            (λ f. ground (arith, f, s.0))
            λ f.
              Returns-then {P = Births cs} (Attempt now cs) (node_births W birth n) _
                (node_births-Births cs t n g s.1) (λ r b. births_or_retries-Attempt now cs r b)

  pub turn-Attempt :
      (t now : ℕ) (n : Node)
      → Good W t n
      → n.retry_at ≡ none
      → ready_to_birth n.core.state ≡ true
      → Returns (Attempt now n.core.calls) (turn W (Turn.client_online now) n)
  unfolding turn try_online
  turn-Attempt t now n h e r =
      let n' : Node = record n { client_online = true } in
      let g : Good W t n' = record {
        core = h.core;
        registry = h.registry;
        requested = h.requested;
      } in
      if_cases (Returns (Attempt now n.core.calls)) (is_some n.retry_at) _ _
        (λ f. ground (arith, e, f))
        λ f.
          once_online-Attempt t now n.core.calls (on_online W n') (on_online-Online W t n' g).good
            (on_online-Subscribed t n' g r)

  -- A client that refuses nothing: an edge node whose client is online, whose primary host is as
  -- well, and whose retry is not due, is birthed.
  pub turn-IsBirthed :
      (t now : ℕ) (n : Node)
      → ((cs : List Call) → W.answer cs ≡ true)
      → Good W t n
      → n.retry_at ≡ none
      → ready_to_birth n.core.state ≡ true
      → Returns IsBirthed (turn W (Turn.client_online now) n)
  turn-IsBirthed t now n a h e r =
      Returns-imp (turn W (Turn.client_online now) n) (λ m o. accepted m o)
        (turn-Attempt t now n h e r)
    where
      accepted : (m : Node) → Attempt now n.core.calls m → IsBirthed m
      accepted m (inl b) = b
      accepted m (inr x) =
          let f = x.refused.2.refused in let g : true ≡ false = sym (a _) ∙ f in ground (arith, g)
