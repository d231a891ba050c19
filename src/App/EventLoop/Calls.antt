-- ===== src/App/EventLoop/Calls.antt =====
-- What the calls of the application's tasks publish, and the wills of its client.
use srad.Prelude.{
  ℕ, suc, ◌≤◌, ◌≡◌, refl, Bool, false, Option, none, some, List, [], ◌∷◌, ◌||◌, ◌==◌, ◌⊎◌, inl, inr,
  arith,
}
use srad.Types.Text.{Text}
use srad.Types.Topic.{StateTopic, TopicFilter}
use srad.Types.Message.{StatePayload, LastWill, new_app}
use srad.App.EventLoop.Tasks.{
  Call, subscribe_many, publish_state_message, disconnect, set_last_will, Task, establishes,
  announces, disconnects, republishes,
}

abbrev pub latest_will : List Call → Option LastWill
latest_will [] = none
latest_will (set_last_will w ∷ cs) = some w
latest_will (_ ∷ cs) = latest_will cs

-- Whether a task of this attempt has its STATE to publish.
abbrev pub has_task : ℕ → List Task → Bool
has_task k [] = false
has_task k (establishes j topic topics t ∷ xs) = j == k || has_task k xs
has_task k (announces j topic t ∷ xs) = j == k || has_task k xs
has_task k (_ ∷ xs) = has_task k xs

-- Since the latest will, an online STATE with the time `t` has been published.
abbrev pub Announced : ℕ → List Call → Type 0
Announced t [] = ⊥
Announced t (set_last_will w ∷ cs) = ⊥
Announced t (publish_state_message topic (StatePayload.online u) ∷ cs) = (u ≡ t) ⊎ Announced t cs
Announced t (_ ∷ cs) = Announced t cs

module _ (encode_state : StatePayload → List ℕ) (host : Text) where
  -- A will of the host at the time `t` has been set.
  abbrev pub WasWill : ℕ → List Call → Type 0
  WasWill t [] = ⊥
  WasWill t (set_last_will w ∷ cs) = (w ≡ new_app encode_state host t) ⊎ WasWill t cs
  WasWill t (_ ∷ cs) = WasWill t cs

  -- Each online STATE has the time of a will that was set before it.
  abbrev pub Stamped : List Call → Type 0
  Stamped [] = Unit
  Stamped (publish_state_message topic (StatePayload.online t) ∷ cs) = WasWill t cs × Stamped cs
  Stamped (_ ∷ cs) = Stamped cs

  pub latest-WasWill :
      (t : ℕ) (cs : List Call) → latest_will cs ≡ some (new_app encode_state host t) → WasWill t cs
  latest-WasWill t [] e = cc
  latest-WasWill t (set_last_will w ∷ cs) e = inl (ground (arith, e))
  latest-WasWill t (subscribe_many fs ∷ cs) e = latest-WasWill t cs e
  latest-WasWill t (publish_state_message topic p ∷ cs) e = latest-WasWill t cs e
  latest-WasWill t (disconnect ∷ cs) e = latest-WasWill t cs e

  -- The time that a task of the attempt `k` has captured: that of a will, and for the latest attempt
  -- `n` that of the will `w` that the client has.
  abbrev pub Timed : ℕ → ℕ → List Call → ℕ → ℕ → Type 0
  Timed n w cs k t = (k ≤ n) × (k ≡ n → t ≡ w) × WasWill t cs

  abbrev pub Tasked : ℕ → ℕ → List Call → List Task → Type 0
  Tasked n w cs [] = Unit
  Tasked n w cs (establishes k topic topics t ∷ xs) = Timed n w cs k t × Tasked n w cs xs
  Tasked n w cs (announces k topic t ∷ xs) = Timed n w cs k t × Tasked n w cs xs
  Tasked n w cs (republishes topic t ∷ xs) = WasWill t cs × Tasked n w cs xs
  Tasked n w cs (disconnects ∷ xs) = Tasked n w cs xs

  pub Tasked-calls :
      (n w : ℕ) (cs cs' : List Call) (xs : List Task)
      → ((t : ℕ) → WasWill t cs → WasWill t cs')
      → Tasked n w cs xs
      → Tasked n w cs' xs
  Tasked-calls n w cs cs' [] f h = tt
  Tasked-calls n w cs cs' (establishes k topic topics t ∷ xs) f h =
      ((h.0.0, h.0.1, f t h.0.2), Tasked-calls n w cs cs' xs f h.1)
  Tasked-calls n w cs cs' (announces k topic t ∷ xs) f h =
      ((h.0.0, h.0.1, f t h.0.2), Tasked-calls n w cs cs' xs f h.1)
  Tasked-calls n w cs cs' (republishes topic t ∷ xs) f h =
      (f t h.0, Tasked-calls n w cs cs' xs f h.1)
  Tasked-calls n w cs cs' (disconnects ∷ xs) f h = Tasked-calls n w cs cs' xs f h

  -- At the next attempt, whatever the will is then.
  pub Tasked-next :
      (n w w' : ℕ) (cs : List Call) (xs : List Task) → Tasked n w cs xs → Tasked (suc n) w' cs xs
  Tasked-next n w w' cs [] h = tt
  Tasked-next n w w' cs (establishes k topic topics t ∷ xs) h = (
    (omega (arith, h.0.0), λ e. absurd (omega (arith, h.0.0, e)), h.0.2),
    Tasked-next n w w' cs xs h.1,
  )
  Tasked-next n w w' cs (announces k topic t ∷ xs) h = (
    (omega (arith, h.0.0), λ e. absurd (omega (arith, h.0.0, e)), h.0.2),
    Tasked-next n w w' cs xs h.1,
  )
  Tasked-next n w w' cs (republishes topic t ∷ xs) h = (h.0, Tasked-next n w w' cs xs h.1)
  Tasked-next n w w' cs (disconnects ∷ xs) h = Tasked-next n w w' cs xs h

  -- Calls of tasks after the calls `cs`: they set no will, and their STATEs have the times of wills.
  pub record Extends (w : ℕ) (cs cs' : List Call) : Type 0 where
    pub was_will : (t : ℕ) → WasWill t cs → WasWill t cs'
    pub stamped : Stamped cs → Stamped cs'
    pub same_will : latest_will cs' ≡ latest_will cs
    pub announced : Announced w cs → Announced w cs'

  pub no_call : (w : ℕ) (cs : List Call) → Extends w cs cs
  no_call w cs = record {
    was_will = λ t h. h;
    stamped = λ h. h;
    same_will = refl;
    announced = λ h. h;
  }

  pub subscribed :
      (w : ℕ) (cs : List Call) (fs : List TopicFilter) → Extends w cs (subscribe_many fs ∷ cs)
  subscribed w cs fs = record {
    was_will = λ t h. h;
    stamped = λ h. h;
    same_will = refl;
    announced = λ h. h;
  }

  pub published :
      (w : ℕ) (cs : List Call) (topic : StateTopic) (t : ℕ)
      → WasWill t cs
      → Extends w cs (publish_state_message topic (StatePayload.online t) ∷ cs)
  published w cs topic t h = record {
    was_will = λ u i. i;
    stamped = λ i. (h, i);
    same_will = refl;
    announced = λ i. inr i;
  }

  pub subscribed_published :
      (w : ℕ) (cs : List Call) (fs : List TopicFilter) (topic : StateTopic) (t : ℕ)
      → WasWill t cs
      → Extends w cs (publish_state_message topic (StatePayload.online t) ∷ subscribe_many fs ∷ cs)
  subscribed_published w cs fs topic t h = record {
    was_will = λ u i. i;
    stamped = λ i. (h, i);
    same_will = refl;
    announced = λ i. inr i;
  }
