-- ===== src/App/Tests/Loop.antt =====
-- Tests of the application's loop.
use srad.Prelude.{ℕ, ◌≡◌, refl, true, false, some, List, [], ◌∷◌, ok, err, arith, contains}
use srad.Types.Text.{text}
use srad.Types.Topic.{validate_name}
use srad.Types.Message.{Event, StatePayload}
use srad.App.Application.{AppEvent}
use srad.App.Subscriptions.{all_groups}
use srad.App.EventLoop.{
  AppEventLoop, new, initial, update_last_will, poll_all, poll_round, Input, event, session_result,
  retry_time, task_calls, on_session_failed, on_session_established,
}
use srad.App.EventLoop.Tasks.{Call, publish_state_message}
use srad.App.EventLoop.Alternate.{Polled, poll_all-Polled}
use srad.App.EventLoop.Recover.{poll_round-online}
use srad.App.Tests.{no_decoder}

abbrev encode : StatePayload → List ℕ
encode (StatePayload.online t) = 1 ∷ t ∷ []
encode (StatePayload.offline t) = 0 ∷ t ∷ []

abbrev first_loop : AppEventLoop
unfolding update_last_will
first_loop = update_last_will encode 1 (initial (text "host") all_groups)

-- The first attempt fails, the second succeeds, the STATE is taken over, and the connection is lost.
abbrev inputs : List Input
inputs =
    event 2 Event.online
    ∷ session_result 3 1 (err (text "refused")) (ok tt)
    ∷ retry_time
    ∷ task_calls 1
    ∷ session_result 4 2 (ok tt) (ok tt)
    ∷ event 5 (Event.state (text "host") (StatePayload.offline 4))
    ∷ event 6 Event.offline
    ∷ []

poll_all-Polled_example :
    Polled encode no_decoder false (poll_all encode no_decoder inputs first_loop)
unfolding new validate_name first_loop
poll_all-Polled_example =
    poll_all-Polled encode no_decoder (text "host") all_groups 1 first_loop inputs refl
      (tt, (tt, (tt, (tt, (tt, (tt, (tt, tt))))))) (omega arith)

events_test :
    (poll_all encode no_decoder inputs first_loop).0 ≡ AppEvent.online ∷ AppEvent.offline ∷ []
unfolding poll_all first_loop contains on_session_failed on_session_established
events_test = refl

-- The task of the first attempt outlives its connection: after the next connection has come and gone,
-- and the will has changed, it publishes the online STATE with the time of the first will.
abbrev late_inputs : List Input
late_inputs =
    event 2 Event.online
    ∷ event 3 Event.offline
    ∷ event 4 Event.online
    ∷ session_result 5 3 (ok tt) (ok tt)
    ∷ event 6 Event.offline
    ∷ task_calls 0
    ∷ task_calls 0
    ∷ []

abbrev publishes : List Call → List ℕ
publishes [] = []
publishes (publish_state_message topic (StatePayload.online t) ∷ cs) = t ∷ publishes cs
publishes (_ ∷ cs) = publishes cs

late_test :
    (publishes (poll_all encode no_decoder late_inputs first_loop).1.calls ≡ 1 ∷ 1 ∷ [])
    × ((poll_all encode no_decoder late_inputs first_loop).1.will_timestamp ≡ 6)
unfolding poll_all first_loop contains on_session_failed on_session_established
late_test = (refl, refl)

-- A loop that has a connection, and a retry that is due.
abbrev waiting : AppEventLoop
unfolding first_loop update_last_will
waiting = record first_loop { client_online = true; retry_at = some 9 }

poll_round-online_example :
    (poll_round encode no_decoder
      (session_result 10
        (poll_round encode no_decoder retry_time waiting).1.session_attempt
        (ok tt)
        (ok tt))
      (poll_round encode no_decoder retry_time waiting).1).1.online
    ≡ true
unfolding waiting first_loop update_last_will contains
poll_round-online_example =
    poll_round-online encode no_decoder 10 waiting (omega arith)
      (record {
        connected = λ e. refl;
        published = refl;
        idle = λ e. ground (arith, e);
        bounded = tt;
        latest = refl;
        willed = refl;
        stamped = tt;
        tasked = tt;
        runs = λ e. ground (arith, e);
        announced = λ e. ground (arith, e);
      })
      refl refl
