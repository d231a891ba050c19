-- ===== src/Eon/Device/Silent.antt =====
-- A device that is disabled is silent.
use srad.Prelude.{
  ℕ, ◌≡◌, ◌≢◌, refl, Bool, true, false, Option, none, some, List, [], ◌∷◌, not, ◌&&◌, Result, ok,
  err, if_cases, arith,
}
use srad.Eon.State.{StateError, EonState, get_next_seq, Core, World}
use srad.Eon.Device.{
  Device, BirthType, birth, rebirth, is_birth, NodeStateMessage, born, dead, removed,
  DeviceHandleRequest, enable, disable, ask_rebirth, device_birth, device_death, publish_birth,
  publish_death, on_state_message, on_request, arm, device_turn,
}

module _ (W : World) where
  -- A device is birthed only while it is enabled.
  abbrev pub Obeys : Device → Type 0
  Obeys d = (d.birthed && not d.enabled) ≡ false

  abbrev After : Device × Core → Type 0
  After (d, s) = Obeys d

  publish_birth-Obeys :
      (d : Device) (r : Result StateError (ℕ × EonState)) (s : Core)
      → d.enabled ≡ true
      → Obeys d
      → After (publish_birth W d r s)
  unfolding publish_birth
  publish_birth-Obeys d (err e) s e' h = h
  publish_birth-Obeys d (ok (q, t)) s e h = rw e (ground arith)

  device_birth-Obeys :
      (ty : BirthType) (d : Device) (s : Core) → Obeys d → After (device_birth W ty (d, s))
  unfolding device_birth
  device_birth-Obeys ty d s h =
      if_cases After (not d.enabled) _ _ (λ e. h)
        λ e.
          if_cases After (is_birth ty && d.birthed) _ _ (λ f. h)
            λ f. publish_birth-Obeys d (get_next_seq s.state) s (ground arith) h

  publish_death-Obeys :
      (d : Device) (r : Result StateError (ℕ × EonState)) (s : Core)
      → Obeys d
      → After (publish_death W d r s)
  unfolding publish_death
  publish_death-Obeys d (err e) s h = h
  publish_death-Obeys d (ok (q, t)) s h = h

  -- Whether it was enabled or not: a death leaves a device that is not birthed.
  device_death-Obeys : (p : Bool) (d : Device) (s : Core) → After (device_death W p (d, s))
  unfolding device_death
  device_death-Obeys p d s =
      if_cases After (not d.birthed) _ _ (λ e. ground arith)
        λ e.
          if_cases After p _ _
            (λ f. publish_death-Obeys (record d { birthed = false }) (get_next_seq s.state) s refl)
            (λ f. refl)

  message-Obeys :
      (m : NodeStateMessage) (d : Device) (s : Core) → Obeys d → After (on_state_message W m (d, s))
  unfolding on_state_message
  message-Obeys (born ty r) d s h = device_birth-Obeys ty (record d { template_registry = r }) s h
  message-Obeys dead d s h = device_death-Obeys false d s
  message-Obeys removed d s h = device_death-Obeys true d s

  request-Obeys :
      (r : DeviceHandleRequest) (d : Device) (s : Core) → Obeys d → After (on_request W r (d, s))
  unfolding on_request
  request-Obeys enable d s h =
      device_birth-Obeys birth (record d { enabled = true }) s (ground arith)
  request-Obeys disable d s h = device_death-Obeys true (record d { enabled = false }) s
  request-Obeys ask_rebirth d s h = device_birth-Obeys rebirth d s h

  arm-Obeys :
      (ms : List NodeStateMessage) (r : Option DeviceHandleRequest) (d : Device) (s : Core)
      → Obeys d
      → After (arm W ms r (d, s))
  unfolding arm
  arm-Obeys (m ∷ ms) r d s h = message-Obeys m (record d { inbox = ms }) s h
  arm-Obeys [] none d s h = h
  arm-Obeys [] (some r) d s h = request-Obeys r d s h

  -- Whatever a device's task meets next, of its node or of its handle: a device that is birthed
  -- only while it is enabled stays so.
  pub device_turn-Obeys :
      (r : Option DeviceHandleRequest) (d : Device) (s : Core)
      → Obeys d
      → Obeys (device_turn W r (d, s)).0
  unfolding device_turn
  device_turn-Obeys r d s h =
      if_cases After (not d.running) _ _ (λ e. h) λ e. arm-Obeys d.inbox r d s h

  -- What a turn leaves of a device that is disabled, and of what it shares.
  abbrev pub IsSilent : Core → Device × Core → Type 0
  IsSilent s r = (r.1 ≡ s) × (r.0.birthed ≡ false) × (r.0.enabled ≡ false)

  birth-IsSilent :
      (ty : BirthType) (d : Device) (s : Core)
      → d.birthed ≡ false
      → d.enabled ≡ false
      → IsSilent s (device_birth W ty (d, s))
  unfolding device_birth
  birth-IsSilent ty d s b e = rw e (refl, b, refl)

  death-IsSilent :
      (p : Bool) (d : Device) (s : Core)
      → d.birthed ≡ false
      → d.enabled ≡ false
      → IsSilent s (device_death W p (d, s))
  unfolding device_death
  death-IsSilent p d s b e = rw b (refl, refl, e)

  arm-IsSilent :
      (ms : List NodeStateMessage) (r : Option DeviceHandleRequest) (d : Device) (s : Core)
      → r ≢ some enable
      → d.birthed ≡ false
      → d.enabled ≡ false
      → IsSilent s (arm W ms r (d, s))
  unfolding arm on_state_message on_request
  arm-IsSilent (born ty x ∷ ms) r d s n b e =
      birth-IsSilent ty (record d { inbox = ms; template_registry = x }) s b e
  arm-IsSilent (dead ∷ ms) r d s n b e = death-IsSilent false (record d { inbox = ms }) s b e
  arm-IsSilent (removed ∷ ms) r d s n b e = death-IsSilent true (record d { inbox = ms }) s b e
  arm-IsSilent [] none d s n b e = (refl, b, e)
  arm-IsSilent [] (some enable) d s n b e = elim (n refl) [ ]
  arm-IsSilent [] (some disable) d s n b e =
      death-IsSilent true (record d { enabled = false }) s b refl
  arm-IsSilent [] (some ask_rebirth) d s n b e = birth-IsSilent rebirth d s b e

  -- A device that is disabled, and birthed only while it is enabled, publishes nothing and takes no
  -- sequence number, whatever its task meets next but a request to enable it: births and rebirths
  -- of its node, its death, its removal. It stays disabled and not birthed.
  pub device_turn-IsSilent :
      (r : Option DeviceHandleRequest) (d : Device) (s : Core)
      → Obeys d
      → d.enabled ≡ false
      → r ≢ some enable
      → IsSilent s (device_turn W r (d, s))
  unfolding device_turn
  device_turn-IsSilent r d s h e n =
      let b : d.birthed ≡ false = ground (arith, h, e) in
      if_cases (IsSilent s) (not d.running) _ _ (λ f. (refl, b, e))
        λ f. arm-IsSilent d.inbox r d s n b e
