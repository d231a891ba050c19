-- ===== src/App/Messages/Run.antt =====
-- A node's task over any sequence of turns.
use srad.Prelude.{
  ℕ, suc, ◌+◌, ◌*◌, ◌≤◌, ◌≡◌, refl, ap, subst, ◌∙◌, Option, none, some, List, [], ◌∷◌,
  if◌then◌else◌, if_cases, inl, inr, Result, length, arith, Returns, Returns-imp, Returns-then,
  and_then,
}
use srad.Types.Text.{Text}
use srad.Types.Payload.{Payload}
use srad.App.Events.{NodeIdentifier}
use srad.App.Rebirth.{RebirthReason}
use srad.App.Device.{MetricStore}
use srad.App.Node.{Node, Clock, AppConfig, new, timeout_fired, try_send_rebirth}
use srad.App.Node.Invariant.{Inv, Handles, Publishes, issue_rebirth-Handles}
use srad.App.Node.Quiet.{Quiet, Quiet-Handles, Quiet-then}
use srad.App.Messages.{Turn, rebirth_request, input, timer, asked, turn, take_request}
use srad.App.Messages.Handled.{handle_message-Handles}

-- Time does not go back, from `t` on.
abbrev pub Later {ℓ} : {A : Type ℓ} → ℕ → List (Clock × A) → Type 0
Later t [] = Unit
Later t ((c, a) ∷ cs) = (t ≤ c.now) × Later c.now cs

-- The time of the last turn.
abbrev pub end_time {ℓ} : {A : Type ℓ} → ℕ → List (Clock × A) → ℕ
end_time t [] = t
end_time t ((c, a) ∷ cs) = end_time c.now cs

abbrev pub cooldown : {Store : Type 0} → Node Store → ℕ
cooldown n = n.config.rebirth_config.rebirth_cooldown

-- From `n` to `n'`, the rebirth commands were published a cooldown apart.
abbrev pub Spaced : {Store : Type 0} → Node Store → Node Store → Type 0
Spaced n n' =
    cooldown n * length n'.published + n.last_rebirth
    ≤ cooldown n * length n.published + n'.last_rebirth

pub new-Inv : {Store : Type 0} (i : NodeIdentifier) (c : AppConfig) → Inv (new {Store = Store} i c)
unfolding new
new-Inv i c = record {
  well_formed = record { in_range = omega arith; ascending = tt; fits = tt };
  no_buffer = λ e. refl;
  no_timer = λ e. refl;
  stale_devices = λ e. tt;
}

-- A cooldown that passed is paid for.
paid : (k len last now : ℕ) → last + k ≤ now → k * suc len + last ≤ k * len + now
paid k len last now c = let e : k * suc len ≡ k + k * len = omega arith in rw e (omega (arith, c))

pub Publishes-Spaced :
    {Store : Type 0} (clock : Clock) (n n' : Node Store)
    → n.last_rebirth ≤ clock.now
    → Publishes clock n n'
    → Spaced n n' × (n'.last_rebirth ≤ clock.now)
Publishes-Spaced clock n n' l (inl (p, e)) = rw (p, e) (omega arith, l)
Publishes-Spaced clock n n' l (inr (p, e, c)) =
    rw (p, e) (paid (cooldown n) (length n.published) n.last_rebirth clock.now c, omega arith)

Spaced-trans :
    {Store : Type 0} (n m n' : Node Store)
    → cooldown m ≡ cooldown n
    → Spaced n m
    → Spaced m n'
    → Spaced n n'
Spaced-trans n m n' e a b =
    let b' : cooldown n * length n'.published + m.last_rebirth
        ≤ cooldown n * length m.published + n'.last_rebirth =
      subst
        (λ k. k * length n'.published + m.last_rebirth ≤ k * length m.published + n'.last_rebirth) e
        b in
    omega (arith, a, b')

module _ (M : MetricStore) (decode_bytes : List ℕ → Result Text Payload) where
  open M use {Store}

  unchanged : (clock : Clock) (n : Node Store) → Inv n → Handles clock n n
  unchanged clock n h =
      Quiet-Handles clock n n
        (record { id = refl; config = refl; published = refl; last_rebirth = refl }) h

  with_request :
      (clock : Clock) (o : Option RebirthReason) (n : Node Store)
      → Inv n
      → Handles clock n (record n { rebirth_rx = o })
  with_request clock o n h =
      Quiet-Handles clock n (record n { rebirth_rx = o })
        (record { id = refl; config = refl; published = refl; last_rebirth = refl })
        (record {
          well_formed = h.well_formed;
          no_buffer = h.no_buffer;
          no_timer = h.no_timer;
          stale_devices = h.stale_devices;
        })

  request_cases :
      (P : Node Store → Type 0) (reason : RebirthReason) (n : Node Store)
      → ((o : Option RebirthReason) → P (record n { rebirth_rx = o }))
      → P (try_send_rebirth reason n)
  unfolding try_send_rebirth
  request_cases P reason n f =
      elim n.rebirth_rx
        as (λ o. P (elim o [ none ↦ record n { rebirth_rx = some reason } | some waiting ↦ n ])) [
          | none ↦ f (some reason)
          | some w ↦ f n.rebirth_rx
        ]

  take_request-Handles :
      (clock : Clock) (o : Option RebirthReason) (n : Node Store)
      → n.last_rebirth ≤ clock.now
      → Inv n
      → Returns (Handles clock n) (take_request M decode_bytes clock o n)
  unfolding take_request
  take_request-Handles clock none n l h = unchanged clock n h
  take_request-Handles clock (some reason) n l h =
      let m : Node Store = record n { rebirth_rx = none } in
      let i : Inv m = record {
        well_formed = h.well_formed;
        no_buffer = h.no_buffer;
        no_timer = h.no_timer;
        stale_devices = h.stale_devices;
      } in
      let q : Quiet n m = record {
        id = refl;
        config = refl;
        published = refl;
        last_rebirth = refl;
      } in
      Returns-imp _ (λ x. Quiet-then clock n m x q) (issue_rebirth-Handles M clock reason m l i)

  timer-Handles :
      (clock : Clock) (n : Node Store)
      → Inv n
      → Handles clock n (if n.resequence_timeout_task then timeout_fired n else n)
  unfolding timeout_fired
  timer-Handles clock n h =
      if_cases (Handles clock n) n.resequence_timeout_task (timeout_fired n) n
        (λ e.
          request_cases (Handles clock n) RebirthReason.reorder_timeout n
            (λ o. with_request clock o n h))
        (λ e. unchanged clock n h)

  -- One turn of a node's task, at a time that is not before the last rebirth request, never panics
  -- and keeps the invariant.
  pub turn-Handles :
      (clock : Clock) (t : Turn M decode_bytes) (n : Node Store)
      → n.last_rebirth ≤ clock.now
      → Inv n
      → Returns (Handles clock n) (turn M decode_bytes clock t n)
  unfolding turn
  turn-Handles clock rebirth_request n l h = take_request-Handles clock n.rebirth_rx n l h
  turn-Handles clock (input i) n l h = handle_message-Handles M decode_bytes clock n l h i
  turn-Handles clock timer n l h = timer-Handles clock n h
  turn-Handles clock (asked reason) n l h =
      request_cases (Handles clock n) reason n (λ o. with_request clock o n h)

  -- The turns of a node's task, one after the other.
  pub run : List (Clock × Turn M decode_bytes) → Node Store → Option (Node Store)
  run [] n = some n
  run ((c, t) ∷ ts) n = and_then (turn M decode_bytes c t n) (run ts)

  pub record Runs (t : ℕ) (n n' : Node Store) : Type 0 where
    pub inv : Inv n'
    pub config : n'.config ≡ n.config
    pub spaced : Spaced n n'
    pub recent : n'.last_rebirth ≤ t

  Runs-after :
      (clock : Clock) (t : ℕ) (n m n' : Node Store)
      → n.last_rebirth ≤ clock.now
      → Handles clock n m
      → Runs t m n'
      → Runs t n n'
  Runs-after clock t n m n' l h r = record {
    inv = r.inv;
    config = r.config ∙ h.config;
    spaced =
        Spaced-trans n m n' (ap (λ x. x.rebirth_config.rebirth_cooldown) h.config)
          (Publishes-Spaced clock n m l h.publishes).0 r.spaced;
    recent = r.recent;
  }

  -- Whatever messages, rebirth requests and timers a node meets, at times that do not go back, its
  -- task never panics and its invariant holds; and the rebirth commands that it published were a
  -- cooldown apart: their number times the cooldown is at most the time from the last rebirth
  -- before the run to the last one in it, which is not after the end of the run.
  pub run-Runs :
      (t : ℕ) (ts : List (Clock × Turn M decode_bytes)) (n : Node Store)
      → n.last_rebirth ≤ t
      → Later t ts
      → Inv n
      → Returns (Runs (end_time t ts) n) (run ts n)
  unfolding run
  run-Runs t [] n l z h = record { inv = h; config = refl; spaced = omega arith; recent = l }
  run-Runs t ((c, x) ∷ ts) n l z h =
      let l' : n.last_rebirth ≤ c.now = omega (arith, l, z.0) in
      Returns-then _ (turn M decode_bytes c x n) (run ts) (turn-Handles c x n l' h) (λ m g.
        Returns-imp _ (λ n'. Runs-after c (end_time c.now ts) n m n' l' g)
          (run-Runs c.now ts m (Publishes-Spaced c n m l' g.publishes).1 z.1 g.inv))
