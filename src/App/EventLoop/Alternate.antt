-- ===== src/App/EventLoop/Alternate.antt =====
-- The events that the application's loop returns: online and offline take turns.
use srad.Prelude.{
  ℕ, suc, ◌+◌, ◌≤◌, ◌<◌, ◌≡◌, refl, sym, subst, ◌∙◌, Bool, true, false, Option, none, some, List,
  [], ◌∷◌, not, ◌||◌, ◌&&◌, ◌==◌, ==_iff, Result, ok, err, is_some, contains, remove, nat_eq,
  list_eq, All, length, arith, if_cases,
}
use srad.Types.Text.{Text}
use srad.Types.Payload.{Payload}
use srad.Types.Message.{StatePayload, Event, offline, online, node, device, state, invalid_publish}
use srad.App.Events.{
  MessageTryFromError, payload_error, unsupported_verb, AppNodeEvent, AppDeviceEvent,
  app_node_event, app_device_event,
}
use srad.App.Application.{AppEvent}
use srad.App.EventLoop.{
  AppEventLoop, try_online, next_attempt, handle_offline, handle_event, on_session_established,
  on_session_failed, on_result, finished, poll_round, poll_all, and_event, new, initial, Input,
  event, session_result, shutdown, retry_time, update_last_will, node_event_of, device_event_of,
  is_offline, task_calls,
}
use srad.App.Subscriptions.{SubscriptionConfig}
use srad.App.EventLoop.Tasks.{SessionError, Call, Task}
use srad.App.EventLoop.Session.{Inv, Progress, GoesOn, two_64}
use srad.App.EventLoop.Rounds.{round-Inv}

-- The events of an application that is online, or not.
abbrev pub Alternates : Bool → List AppEvent → Type 0
Alternates o [] = Unit
Alternates o (AppEvent.online ∷ es) = (o ≡ false) × Alternates true es
Alternates o (AppEvent.offline ∷ es) = (o ≡ true) × Alternates false es
Alternates o (_ ∷ es) = Alternates o es

-- What one event reports of the state before and after it.
abbrev Changes : Bool → Option AppEvent → Bool → Type 0
Changes o (some AppEvent.online) o' = (o ≡ false) × (o' ≡ true)
Changes o (some AppEvent.offline) o' = (o ≡ true) × (o' ≡ false)
Changes o _ o' = o' ≡ o

-- And the number of the attempt is at most one more.
abbrev Reports : AppEventLoop → Option AppEvent × AppEventLoop → Type 0
Reports a (e, a') = Changes a.online e a'.online × (a'.session_attempt ≤ suc a.session_attempt)

node-Changes :
    (o : Bool) (r : Result MessageTryFromError AppNodeEvent) → Changes o (node_event_of r) o
node-Changes o (ok e) = refl
node-Changes o (err (payload_error e)) = refl
node-Changes o (err unsupported_verb) = refl

device-Changes :
    (o : Bool) (r : Result MessageTryFromError AppDeviceEvent) → Changes o (device_event_of r) o
device-Changes o (ok e) = refl
device-Changes o (err (payload_error e)) = refl
device-Changes o (err unsupported_verb) = refl

next_attempt-le : (n : ℕ) → next_attempt n ≤ suc n
unfolding next_attempt
next_attempt-le n = omega arith

try_online-Reports :
    (a b : AppEventLoop)
    → b.online ≡ a.online
    → b.session_attempt ≡ a.session_attempt
    → Reports a (none, try_online b)
unfolding try_online
try_online-Reports a b o n =
    if_cases
      (λ (c : AppEventLoop). (c.online ≡ a.online) × (c.session_attempt ≤ suc a.session_attempt))
      (not b.client_online || (b.online || (is_some b.retry_at || b.session_in_flight))) _ _
      (λ e. (o, omega (arith, n))) (λ e. (o, omega (arith, n, next_attempt-le b.session_attempt)))

module _ (encode_state : StatePayload → List ℕ)
    (decode_payload : List ℕ → Result Text Payload) where
  event-Reports :
      (t : ℕ) (e : Event) (a : AppEventLoop)
      → Reports a (handle_event encode_state decode_payload t e a)
  unfolding handle_event handle_offline update_last_will
  event-Reports t offline a =
      if_cases (Reports a) (not a.online) _ _ (λ e. (refl, next_attempt-le a.session_attempt))
        (λ e. ((ground arith, refl), next_attempt-le a.session_attempt))
  event-Reports t online a = try_online-Reports a (record a { client_online = true }) refl refl
  event-Reports t (node m) a =
      (node-Changes a.online (app_node_event decode_payload m), omega arith)
  event-Reports t (device m) a =
      (device-Changes a.online (app_device_event decode_payload m), omega arith)
  event-Reports t (state host payload) a =
      if_cases
        (λ (c : AppEventLoop). (c.online ≡ a.online) × (c.session_attempt ≤ suc a.session_attempt))
        (a.published_online_state && (list_eq.beq host a.host_id && is_offline payload)) _ _
        (λ e. (refl, omega arith)) (λ e. (refl, omega arith))
  event-Reports t (invalid_publish e x y) a = (refl, omega arith)

  -- What became of the tasks and their calls.
  result-Reports :
      (now attempt : ℕ) (r : Result SessionError (Unit {0})) (a : AppEventLoop) (xs : List Task)
      (cs : List Call)
      → contains attempt a.pending ≡ true
      → Inv encode_state a
      → Reports a (
          on_result now attempt r
            (record a { pending = remove attempt a.pending; tasks = xs; calls = cs }))
  unfolding on_result
  result-Reports now attempt r a xs cs c h =
      if_cases (Reports a) (not (attempt == a.session_attempt)) _ _ (λ e. (refl, omega arith))
        λ e.
          let f : a.session_in_flight ≡ true =
            sym h.latest
            ∙ subst (λ k. contains k a.pending ≡ true)
                ((==_iff attempt a.session_attempt).0 (ground arith)) c in
          if_cases (Reports a) (not a.client_online) _ _ (λ g. (refl, omega arith))
            λ g. finish r (h.idle f).0
    where
      finish :
          (r : Result SessionError (Unit {0}))
          → a.online ≡ false
          → Reports a (
              finished now r (record a {
                pending = remove attempt a.pending;
                tasks = xs;
                calls = cs;
                session_in_flight = false;
              }))
      finish (ok u) o = unfold on_session_established in ((o, refl), omega arith)
      finish (err e) o = unfold on_session_failed in (refl, omega arith)

  round-Reports :
      (x : Input) (a : AppEventLoop)
      → GoesOn x
      → Inv encode_state a
      → Reports a (poll_round encode_state decode_payload x a)
  unfolding poll_round
  round-Reports (event t e) a g h = event-Reports t e a
  round-Reports (shutdown es) a g h = elim g [ ]
  round-Reports (session_result now attempt x y) a g h =
      if_cases (Reports a) (not (contains attempt a.pending)) _ _ (λ e. (refl, omega arith))
        λ e. result-Reports now attempt _ a _ _ (ground arith) h
  round-Reports (task_calls i) a g h = (refl, omega arith)
  round-Reports retry_time a g h =
      if_cases (Reports a) (not (is_some a.retry_at)) _ _ (λ e. (refl, omega arith))
        λ e. try_online-Reports a (record a { retry_at = none }) refl refl

  prepends :
      (o o' : Bool) (e : Option AppEvent) (es : List AppEvent) (b : AppEventLoop)
      → Changes o e o'
      → Alternates o' es
      → Alternates o (and_event e (es, b)).0
  prepends o o' none es b c h = subst (λ k. Alternates k es) c h
  prepends o o' (some AppEvent.online) es b c h = (c.0, subst (λ k. Alternates k es) c.1 h)
  prepends o o' (some AppEvent.offline) es b c h = (c.0, subst (λ k. Alternates k es) c.1 h)
  prepends o o' (some (AppEvent.device e)) es b c h = subst (λ k. Alternates k es) c h
  prepends o o' (some (AppEvent.node e)) es b c h = subst (λ k. Alternates k es) c h
  prepends o o' (some (AppEvent.invalid_payload e)) es b c h = subst (λ k. Alternates k es) c h
  prepends o o' (some AppEvent.cancelled) es b c h = subst (λ k. Alternates k es) c h

  -- What the rounds of the polls leave.
  pub record Polled (o : Bool) (r : List AppEvent × AppEventLoop) : Type 0 where
    pub alternates : Alternates o (r.0)
    pub inv : Inv encode_state (r.1)
    pub progress : Progress (r.1)

  prepended :
      (a : AppEventLoop) (x : Option AppEvent × AppEventLoop) (r : List AppEvent × AppEventLoop)
      → Reports a x
      → Polled (x.1.online) r
      → Polled a.online (and_event (x.0) r)
  prepended a (none, b) (es, c) h p = record {
    alternates = prepends a.online b.online none es c h.0 p.alternates;
    inv = p.inv;
    progress = p.progress;
  }
  prepended a (some e, b) (es, c) h p = record {
    alternates = prepends a.online b.online (some e) es c h.0 p.alternates;
    inv = p.inv;
    progress = p.progress;
  }

  polled :
      (xs : List Input) (a : AppEventLoop)
      → All GoesOn xs
      → suc a.session_attempt + length xs < two_64
      → Inv encode_state a
      → Progress a
      → Polled a.online (poll_all encode_state decode_payload xs a)
  unfolding poll_all
  polled [] a g l h p = record { alternates = tt; inv = h; progress = p }
  polled (x ∷ xs) a g l h p =
      let i = round-Inv encode_state decode_payload x a g.0 (omega (arith, l)) h p in
      let q = round-Reports x a g.0 h in
      prepended a (poll_round encode_state decode_payload x a)
        (poll_all encode_state decode_payload xs (poll_round encode_state decode_payload x a).1) q
        (polled xs (poll_round encode_state decode_payload x a).1 g.1 (omega (arith, l, q.1)) i.0
          i.1)

  new-initial :
      (host_id : Text) (config : SubscriptionConfig) (t : ℕ) (a : AppEventLoop)
      → new encode_state host_id config t ≡ some a
      → a ≡ update_last_will encode_state t (initial host_id config)
  unfolding new
  new-initial host_id config t a e = ground arith

  -- Whatever an application's loop and its tasks meet until it is cancelled, in whatever order,
  -- fewer things than there are numbers of attempts: online and offline take turns in the events
  -- that it returns, and online is the first of them; it is online, and its STATE published, only on
  -- a connection and while its latest attempt does not run; each online STATE that is published, also
  -- by the task of an earlier attempt, has the time of a will that the client was given before it;
  -- when the application is online, an online STATE with the time of the client's will has been
  -- published since that will was given; and while there is a connection, it is online, or its
  -- latest attempt runs, or a retry is due.
  pub poll_all-Polled :
      (host_id : Text) (config : SubscriptionConfig) (t : ℕ) (a : AppEventLoop) (xs : List Input)
      → new encode_state host_id config t ≡ some a
      → All GoesOn xs
      → suc (length xs) < two_64
      → Polled false (poll_all encode_state decode_payload xs a)
  unfolding update_last_will
  poll_all-Polled host_id config t a xs e g l =
      subst (λ b. Polled false (poll_all encode_state decode_payload xs b))
        (sym (new-initial host_id config t a e))
        (polled xs (update_last_will encode_state t (initial host_id config)) g (omega (arith, l))
          (record {
            connected = λ f. ground arith;
            published = refl;
            idle = λ f. ground arith;
            bounded = tt;
            latest = unfold contains in refl;
            willed = refl;
            stamped = tt;
            tasked = tt;
            runs = λ f. ground arith;
            announced = λ f. ground arith;
          })
          refl)
