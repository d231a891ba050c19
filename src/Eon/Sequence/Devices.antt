-- ===== src/Eon/Sequence/Devices.antt =====
-- What devices and handles publish takes the next number.
use srad.Prelude.{
  ℕ, ◌≡◌, refl, Bool, true, false, Option, none, some, List, [], ◌∷◌, not, ◌&&◌, Result, ok, err,
  map_err, inl, inr, ◌⊎◌, if_cases,
}
use srad.Types.Payload.{Payload, Metric}
use srad.Types.Topic.{DeviceTopic, NodeTopic, ddata, ndata}
use srad.Eon.State.{StateError, EonState, get_next_seq, Core, World, Call}
use srad.Eon.Device.{
  Device, BirthType, birth, rebirth, is_birth, NodeStateMessage, born, dead, removed,
  DeviceHandleRequest, enable, disable, ask_rebirth, device_birth, device_death, on_state_message,
  on_request, arm, device_turn, device_publish, publish_birth, publish_death, sent, metrics_payload,
  check_publish_state_and_get_seq, state_error, birth_payload, death_payload, device_call, topic_of,
}
use srad.Eon.Session.{node_publish, node_call, ndata_topic}
use srad.Eon.Sequence.{Inv, next-Inv, numbering, goes_on, NotWill}

-- Whether a number is given out.
seq_cases :
    (r : Result StateError (ℕ × EonState))
    → ((e : StateError) × (r ≡ err e)) ⊎ ((q : ℕ) × (t : EonState) × (r ≡ ok (q, t)))
seq_cases (err e) = inl (e, refl)
seq_cases (ok (q, t)) = inr (q, t, refl)

module _ (W : World) where
  -- What a method of a device leaves its node with.
  abbrev pub Leaves : Device × Core → Type 0
  Leaves (d, s) = Inv W s

  publish_birth-Inv :
      (d : Device) (s : Core) → Inv W s → Inv W (publish_birth W d (get_next_seq s.state) s).1
  unfolding publish_birth birth_payload
  publish_birth-Inv d s h = elim (seq_cases (get_next_seq s.state)) [
    | inl (e, f) ↦ rw f h
    | inr (q, t, f) ↦ rw f (next-Inv W _ s q t f refl tt h)
  ]

  publish_death-Inv :
      (d : Device) (s : Core) → Inv W s → Inv W (publish_death W d (get_next_seq s.state) s).1
  unfolding publish_death death_payload
  publish_death-Inv d s h = elim (seq_cases (get_next_seq s.state)) [
    | inl (e, f) ↦ rw f h
    | inr (q, t, f) ↦ rw f (next-Inv W _ s q t f refl tt h)
  ]

  device_birth-Inv :
      (ty : BirthType) (d : Device) (s : Core) → Inv W s → Leaves (device_birth W ty (d, s))
  unfolding device_birth
  device_birth-Inv ty d s h =
      if_cases Leaves (not d.enabled) _ _ (λ e. h)
        λ e. if_cases Leaves (is_birth ty && d.birthed) _ _ (λ f. h) λ f. publish_birth-Inv d s h

  device_death-Inv :
      (publish : Bool) (d : Device) (s : Core) → Inv W s → Leaves (device_death W publish (d, s))
  unfolding device_death
  device_death-Inv publish d s h =
      if_cases Leaves (not d.birthed) _ _ (λ e. h)
        λ e.
          if_cases Leaves publish _ _ (λ f. publish_death-Inv (record d { birthed = false }) s h)
            λ f. h

  on_state_message-Inv :
      (m : NodeStateMessage) (d : Device) (s : Core)
      → Inv W s
      → Leaves (on_state_message W m (d, s))
  unfolding on_state_message
  on_state_message-Inv (born ty registry) d s h =
      device_birth-Inv ty (record d { template_registry = registry }) s h
  on_state_message-Inv dead d s h = device_death-Inv false d s h
  on_state_message-Inv removed d s h = device_death-Inv true d s h

  on_request-Inv :
      (r : DeviceHandleRequest) (d : Device) (s : Core) → Inv W s → Leaves (on_request W r (d, s))
  unfolding on_request
  on_request-Inv enable d s h = device_birth-Inv birth (record d { enabled = true }) s h
  on_request-Inv disable d s h = device_death-Inv true (record d { enabled = false }) s h
  on_request-Inv ask_rebirth d s h = device_birth-Inv rebirth d s h

  arm-Inv :
      (ms : List NodeStateMessage) (r : Option DeviceHandleRequest) (d : Device) (s : Core)
      → Inv W s
      → Leaves (arm W ms r (d, s))
  unfolding arm
  arm-Inv (m ∷ ms) r d s h = on_state_message-Inv m (record d { inbox = ms }) s h
  arm-Inv [] none d s h = h
  arm-Inv [] (some r) d s h = on_request-Inv r d s h

  -- A turn of a device's task keeps the sequence.
  pub device_turn-Inv :
      (r : Option DeviceHandleRequest) (d : Device) (s : Core)
      → Inv W s
      → Leaves (device_turn W r (d, s))
  unfolding device_turn
  device_turn-Inv r d s h =
      if_cases Leaves (not d.running) _ _ (λ e. h) λ e. arm-Inv d.inbox r d s h

  -- So does a publish of metrics, by the handle of a device or of the node.
  sent-Inv :
      (c : Payload → Call) (ms : List Metric) (s : Core)
      → ((q : ℕ) → numbering (c (metrics_payload W q ms s)) ≡ goes_on q)
      → ((p : Payload) → NotWill (c p))
      → Inv W s
      → Inv W (sent W c ms (map_err state_error (get_next_seq s.state)) s).1
  sent-Inv c ms s g n h = elim (seq_cases (get_next_seq s.state)) [
    | inl (e, f) ↦ rw f h
    | inr (q, t, f) ↦ rw f (next-Inv W _ s q t f (g q) (n _) h)
  ]

  device_numbers :
      (try : Bool) (t : DeviceTopic) (ms : List Metric) (s : Core) (q : ℕ)
      → numbering (device_call try t (metrics_payload W q ms s)) ≡ goes_on q
  device_numbers true t ms s q = refl
  device_numbers false t ms s q = refl

  device_wills : (try : Bool) (t : DeviceTopic) (p : Payload) → NotWill (device_call try t p)
  device_wills true t p = tt
  device_wills false t p = tt

  node_numbers :
      (try : Bool) (t : NodeTopic) (ms : List Metric) (s : Core)
      → t.message_type ≡ ndata
      → (q : ℕ) → numbering (node_call try t (metrics_payload W q ms s)) ≡ goes_on q
  node_numbers true t ms s e q = rw e refl
  node_numbers false t ms s e q = rw e refl

  node_wills : (try : Bool) (t : NodeTopic) (p : Payload) → NotWill (node_call try t p)
  node_wills true t p = tt
  node_wills false t p = tt

  pub device_publish-Inv :
      (try : Bool) (ms : List Metric) (d : Device) (s : Core)
      → Inv W s
      → Inv W (device_publish W try ms d s).1
  unfolding device_publish check_publish_state_and_get_seq
  device_publish-Inv try [] d s h = h
  device_publish-Inv try (m ∷ ms) d s h =
      let c : Payload → Call = device_call try (topic_of ddata d.name s.state) in
      if_cases (λ r. Inv W (sent W c (m ∷ ms) r s).1) (not d.birthed) _ _ (λ e. h)
        λ e. sent-Inv c (m ∷ ms) s (device_numbers try _ (m ∷ ms) s) (device_wills try _) h

  pub node_publish-Inv :
      (try : Bool) (ms : List Metric) (s : Core) → Inv W s → Inv W (node_publish W try ms s).1
  unfolding node_publish
  node_publish-Inv try [] s h = h
  node_publish-Inv try (m ∷ ms) s h =
      sent-Inv (node_call try (ndata_topic s.state)) (m ∷ ms) s
        (node_numbers try (ndata_topic s.state) (m ∷ ms) s refl) (node_wills try _) h
