-- ===== src/App/EventLoop/Rounds.antt =====
-- Every round of the application's loop keeps the invariant of its session.
use srad.Prelude.{
  ℕ, suc, ◌<◌, ◌≡◌, refl, sym, subst, ◌∙◌, Bool, true, false, Option, none, List, ◌∷◌, ◌++◌, inl,
  inr, not, ◌&&◌, if◌then◌else◌, Result, is_some, contains, nat_eq, list_eq, arith, if_cases,
}
use srad.Types.Text.{Text}
use srad.Types.Payload.{Payload}
use srad.Types.Message.{
  new_app, StatePayload, Event, offline, online, node, device, state, invalid_publish,
}
use srad.App.Application.{AppEvent}
use srad.App.EventLoop.{
  AppEventLoop, spawn, next_attempt, handle_offline, handle_event, poll_round, Input, event,
  session_result, shutdown, retry_time, task_calls, update_last_will, own_topic, is_offline,
}
use srad.App.EventLoop.Tasks.{set_last_will, Call, republishes, call_task}
use srad.App.EventLoop.Calls.{WasWill, Tasked, Tasked-calls, Tasked-next}
use srad.App.EventLoop.Steps.{call_task-Called, end_task-EndedWith}
use srad.App.EventLoop.Results.{result-Inv}
use srad.App.EventLoop.Session.{
  will-WasWill, Inv, Progress, GoesOn, UpTo, UpTo-mono, contains-UpTo, two_64, next_attempt-room,
  try_online-Inv,
}

module _ (encode_state : StatePayload → List ℕ) where
  -- The client is offline: what was tried is given up.
  given_up : AppEventLoop → AppEventLoop
  given_up a = record a {
    client_online = false;
    session_attempt = next_attempt a.session_attempt;
    session_in_flight = false;
  }

  -- The tasks of the attempts before, whatever the will and the calls are then.
  later_tasks :
      (a : AppEventLoop) (w : ℕ) (cs : List Call)
      → suc a.session_attempt < two_64
      → Inv encode_state a
      → ((t : ℕ) → WasWill encode_state a.host_id t a.calls → WasWill encode_state a.host_id t cs)
      → Tasked encode_state a.host_id (next_attempt a.session_attempt) w cs a.tasks
  later_tasks a w cs r h f =
      subst (λ k. Tasked encode_state a.host_id k w cs a.tasks)
        (sym (next_attempt-room encode_state a.session_attempt r))
        (Tasked-calls encode_state a.host_id (suc a.session_attempt) w a.calls cs a.tasks f (
          Tasked-next encode_state a.host_id a.session_attempt a.will_timestamp w a.calls a.tasks
            h.tasked))

  offline-Inv :
      (t : ℕ) (a : AppEventLoop)
      → suc a.session_attempt < two_64
      → Inv encode_state a
      → Inv encode_state (handle_offline encode_state t (given_up a)).1
        × Progress (handle_offline encode_state t (given_up a)).1
  unfolding handle_offline update_last_will given_up
  offline-Inv t a r h =
      let b : UpTo (next_attempt a.session_attempt) a.pending =
        subst (λ k. UpTo k a.pending) (sym (next_attempt-room encode_state a.session_attempt r))
          (UpTo-mono a.session_attempt (suc a.session_attempt) a.pending (omega arith) h.bounded) in
      let l : contains (next_attempt a.session_attempt) a.pending ≡ false =
        subst (λ k. contains k a.pending ≡ false)
          (sym (next_attempt-room encode_state a.session_attempt r))
          (contains-UpTo a.session_attempt a.pending h.bounded) in
      if_cases (λ (o : Option AppEvent × AppEventLoop). Inv encode_state (o.1) × Progress (o.1))
        (not a.online) _ _
        (λ e. (
          record {
            connected = λ f. ground arith;
            published = h.published;
            idle = λ f. ground arith;
            bounded = b;
            latest = l;
            willed = h.willed;
            stamped = h.stamped;
            tasked = later_tasks a a.will_timestamp a.calls r h (λ t i. i);
            runs = λ f. ground arith;
            announced = λ f. ground arith;
          },
          refl,
        ))
        (λ e. (
          record {
            connected = λ f. ground arith;
            published = refl;
            idle = λ f. ground arith;
            bounded = b;
            latest = l;
            willed = refl;
            stamped = h.stamped;
            tasked =
                later_tasks a t (set_last_will (new_app encode_state a.host_id t) ∷ a.calls) r h
                  (λ t i. inr i);
            runs = λ f. ground arith;
            announced = λ f. ground arith;
          },
          refl,
        ))

  republished-Inv :
      (b : Bool) (a : AppEventLoop)
      → Inv encode_state a
      → Inv encode_state (if b then spawn (republishes (own_topic a) a.will_timestamp) a else a)
  republished-Inv false a h = h
  republished-Inv true a h = record {
    connected = h.connected;
    published = h.published;
    idle = h.idle;
    bounded = h.bounded;
    latest = h.latest;
    willed = h.willed;
    stamped = h.stamped;
    tasked = (will-WasWill encode_state a h, h.tasked);
    runs = h.runs;
    announced = h.announced;
  }

  republished-Progress :
      (b : Bool) (a : AppEventLoop)
      → Progress a
      → Progress (if b then spawn (republishes (own_topic a) a.will_timestamp) a else a)
  republished-Progress false a p = p
  republished-Progress true a p = p

  module _ (decode_payload : List ℕ → Result Text Payload) where
    event-Inv :
        (t : ℕ) (e : Event) (a : AppEventLoop)
        → suc a.session_attempt < two_64
        → Inv encode_state a
        → Progress a
        → Inv encode_state (handle_event encode_state decode_payload t e a).1
          × Progress (handle_event encode_state decode_payload t e a).1
    unfolding handle_event given_up
    event-Inv t offline a r h p = offline-Inv t a r h
    event-Inv t online a r h p =
        try_online-Inv encode_state (record a { client_online = true }) r
          (record {
            connected = λ f. refl;
            published = h.published;
            idle = λ f. ((h.idle f).0, refl);
            bounded = h.bounded;
            latest = h.latest;
            willed = h.willed;
            stamped = h.stamped;
            tasked = h.tasked;
            runs = h.runs;
            announced = h.announced;
          })
    event-Inv t (node m) a r h p = (h, p)
    event-Inv t (device m) a r h p = (h, p)
    event-Inv t (state host payload) a r h p = (
      republished-Inv _ a h,
      republished-Progress
          (a.published_online_state && (list_eq.beq host a.host_id && is_offline payload)) a p,
    )
    event-Inv t (invalid_publish e x y) a r h p = (h, p)

    pub round-Inv :
        (x : Input) (a : AppEventLoop)
        → GoesOn x
        → suc a.session_attempt < two_64
        → Inv encode_state a
        → Progress a
        → Inv encode_state (poll_round encode_state decode_payload x a).1
          × Progress (poll_round encode_state decode_payload x a).1
    unfolding poll_round
    round-Inv (event t e) a g r h p = event-Inv t e a r h p
    round-Inv (shutdown es) a g r h p = elim g [ ]
    round-Inv (session_result now attempt x y) a g r h p =
        if_cases (λ (o : Option AppEvent × AppEventLoop). Inv encode_state (o.1) × Progress (o.1))
          (not (contains attempt a.pending)) _ _ (λ e. (h, p))
          (λ e.
            result-Inv encode_state now attempt a _ _ _ (ground arith)
              (end_task-EndedWith encode_state a.host_id attempt a.session_attempt a.will_timestamp
                x y a.calls a.tasks h.tasked)
              h p)
    round-Inv retry_time a g r h p =
        if_cases (λ (o : Option AppEvent × AppEventLoop). Inv encode_state (o.1) × Progress (o.1))
          (not (is_some a.retry_at)) _ _ (λ e. (h, p))
          (λ e.
            try_online-Inv encode_state (record a { retry_at = none }) r
              (record {
                connected = h.connected;
                published = h.published;
                idle = h.idle;
                bounded = h.bounded;
                latest = h.latest;
                willed = h.willed;
                stamped = h.stamped;
                tasked = h.tasked;
                runs = h.runs;
                announced = h.announced;
              }))
    round-Inv (task_calls i) a g r h p =
        let d =
          call_task-Called encode_state a.host_id i a.session_attempt a.will_timestamp a.calls
            a.tasks h.tasked in
        (
          record {
            connected = h.connected;
            published = h.published;
            idle = h.idle;
            bounded = h.bounded;
            latest = h.latest;
            willed = d.extends.same_will ∙ h.willed;
            stamped = d.extends.stamped h.stamped;
            tasked =
                Tasked-calls encode_state a.host_id a.session_attempt a.will_timestamp a.calls
                  ((call_task i a.tasks).1 ++ a.calls) ((call_task i a.tasks).0) d.extends.was_will
                  d.tasked;
            runs = λ f. elim (h.runs f) [ inl x ↦ d.runs x | inr y ↦ inr (d.extends.announced y) ];
            announced = λ f. d.extends.announced (h.announced f);
          },
          p,
        )
