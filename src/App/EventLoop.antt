-- ===== src/App/EventLoop.antt =====
-- srad-app/src/eventloop.rs: the application's session. A method takes the loop and returns it
-- changed; what it spawns, and the wills that it sets, are listed in the loop, the latest first.
pub mod Tasks
pub mod Calls
pub mod Steps
pub mod Session
pub mod Results
pub mod Rounds
pub mod Alternate
pub mod Recover
use srad.Prelude.{
  ℕ, zero, suc, map_err, ◌+◌, ◌%◌, Bool, true, false, Option, none, some, List, [], ◌∷◌, ◌++◌, not,
  ◌||◌, ◌&&◌, ◌==◌, if◌then◌else◌, Result, ok, err, list_eq, nat_eq, is_some, contains, remove,
}
use srad.Types.Text.{Text}
use srad.Types.Payload.{Payload}
use srad.Types.Topic.{Topic, TopicFilter, StateTopic, state_host_topic, at_most_once, validate_name}
use srad.Types.Message.{
  NodeMessage, DeviceMessage, Event, StatePayload, LastWill, new_app, offline, online, node, device,
  state, invalid_publish,
}
use srad.App.Events.{
  MessageTryFromError, payload_error, unsupported_verb, app_node_event, app_device_event,
  AppNodeEvent, AppDeviceEvent,
}
use srad.App.Application.{AppEvent}
use srad.App.Subscriptions.{SubscriptionConfig, topic_filters}
use srad.App.EventLoop.Tasks.{
  SessionError, Call, set_last_will, Task, establishes, disconnects, republishes, call_task,
  end_task,
}

-- `pending` are the attempts whose results have not been received, `tasks` the tasks that have calls
-- to make, and `calls` the calls that were made, the latest first.
pub record AppEventLoop : Type 0 where
  pub online : Bool
  pub client_online : Bool
  pub session_in_flight : Bool
  pub session_attempt : ℕ
  pub retry_at : Option ℕ
  pub retry_delay : ℕ
  pub host_id : Text
  pub published_online_state : Bool
  pub will_timestamp : ℕ
  pub subscription_config : SubscriptionConfig
  pub pending : List ℕ
  pub tasks : List Task
  pub calls : List Call

abbrev pub spawn : Task → AppEventLoop → AppEventLoop
spawn x a = record a { tasks = x ∷ a.tasks }

-- The number of an attempt is a `u64`.
unfoldable pub next_attempt : ℕ → ℕ
next_attempt a = (a + 1) % 18446744073709551616

abbrev pub own_topic : AppEventLoop → StateTopic
own_topic a = record { topic = state_host_topic a.host_id }

unfoldable pub session_topics : AppEventLoop → StateTopic × List TopicFilter
session_topics a = (
  own_topic a,
  topic_filters a.subscription_config
      ++ record { topic = Topic.state (own_topic a); qos = at_most_once } ∷ [],
)

unfoldable pub try_online : AppEventLoop → AppEventLoop
unfolding session_topics next_attempt
try_online a =
    if not a.client_online || (a.online || (is_some a.retry_at || a.session_in_flight))
    then a
    else let attempt = next_attempt a.session_attempt in
      let topics = session_topics a in
      record a {
        session_attempt = attempt;
        session_in_flight = true;
        pending = attempt ∷ a.pending;
        tasks = establishes attempt (topics.0) (topics.1) a.will_timestamp ∷ a.tasks;
      }

unfoldable pub on_session_established : AppEventLoop → Option AppEvent × AppEventLoop
on_session_established a =
    (some AppEvent.online, record a { published_online_state = true; online = true })

unfoldable pub on_session_failed : ℕ → AppEventLoop → AppEventLoop
on_session_failed now a =
    spawn disconnects
      (record a { published_online_state = false; retry_at = some (now + a.retry_delay) })

abbrev pub initial : Text → SubscriptionConfig → AppEventLoop
initial host_id subscription_config = record {
  online = false;
  client_online = false;
  session_in_flight = false;
  session_attempt = 0;
  retry_at = none;
  retry_delay = 3000;
  host_id = host_id;
  published_online_state = false;
  will_timestamp = 0;
  subscription_config = subscription_config;
  pending = [];
  tasks = [];
  calls = [];
}

abbrev pub is_offline_event : Event → Bool
is_offline_event offline = true
is_offline_event _ = false

-- The encoder of STATE payloads is the JSON library's.
module _ (encode_state : StatePayload → List ℕ) where
  unfoldable pub update_last_will : ℕ → AppEventLoop → AppEventLoop
  unfolding new_app
  update_last_will timestamp a = record a {
    will_timestamp = timestamp;
    calls = set_last_will (new_app encode_state a.host_id timestamp) ∷ a.calls;
  }

  -- `none` is the panic on a host's name that is not valid. Times are in milliseconds.
  unfoldable pub new : Text → SubscriptionConfig → ℕ → Option AppEventLoop
  unfolding update_last_will validate_name
  new host_id subscription_config timestamp = elim (validate_name host_id) [
    | err e ↦ none
    | ok _ ↦ some (update_last_will timestamp (initial host_id subscription_config))
  ]

  unfoldable pub handle_offline : ℕ → AppEventLoop → Option AppEvent × AppEventLoop
  unfolding update_last_will
  handle_offline timestamp a = if not a.online then (none, a) else (
    some AppEvent.offline,
    update_last_will timestamp (record a { online = false; published_online_state = false }),
  )

  -- The events that come before the timeout, with the clock's readings.
  unfoldable pub poll_until_offline : List (ℕ × Event) → AppEventLoop → AppEventLoop
  unfolding handle_offline
  poll_until_offline [] a = a
  poll_until_offline ((timestamp, e) ∷ es) a =
      if not a.online
      then a
      else poll_until_offline es (if is_offline_event e then (handle_offline timestamp a).1 else a)

abbrev pub node_event_of : Result MessageTryFromError AppNodeEvent → Option AppEvent
node_event_of (ok e) = some (AppEvent.node e)
node_event_of (err (payload_error e)) = some (AppEvent.invalid_payload e)
node_event_of (err unsupported_verb) = none

abbrev pub device_event_of : Result MessageTryFromError AppDeviceEvent → Option AppEvent
device_event_of (ok e) = some (AppEvent.device e)
device_event_of (err (payload_error e)) = some (AppEvent.invalid_payload e)
device_event_of (err unsupported_verb) = none

abbrev pub is_offline : StatePayload → Bool
is_offline (StatePayload.online t) = false
is_offline (StatePayload.offline t) = true

-- What `poll` waits for: an event of the client, the result of an attempt, with the answers to its
-- calls, the shutdown with the events after it, and the time of a retry. The first number is the
-- clock's reading. Between them, a task makes its next call.
pub data Input : Type 0 where
  event : ℕ → Event → Input
  session_result : ℕ → ℕ → Result Text (Unit {0}) → Result Text (Unit {0}) → Input
  shutdown : List (ℕ × Event) → Input
  retry_time : Input
  task_calls : ℕ → Input

abbrev pub finished :
    ℕ → Result SessionError (Unit {0}) → AppEventLoop → Option AppEvent × AppEventLoop
finished now (ok _) a = on_session_established a
finished now (err e) a = (none, on_session_failed now a)

unfoldable pub on_result :
    ℕ → ℕ → Result SessionError (Unit {0}) → AppEventLoop → Option AppEvent × AppEventLoop
on_result now attempt result a =
    if not (attempt == a.session_attempt)
    then (none, a)
    else let a' = record a { session_in_flight = false } in
      if not a.client_online then (none, a') else finished now result a'

abbrev pub and_event : Option AppEvent → List AppEvent × AppEventLoop → List AppEvent × AppEventLoop
and_event none r = r
and_event (some e) (es, a) = (e ∷ es, a)

-- The decoder of payloads is protobuf's.
module _ (encode_state : StatePayload → List ℕ)
    (decode_payload : List ℕ → Result Text Payload) where
  unfoldable pub handle_event : ℕ → Event → AppEventLoop → Option AppEvent × AppEventLoop
  unfolding try_online handle_offline next_attempt app_node_event app_device_event
  handle_event timestamp offline a = handle_offline encode_state timestamp (record a {
    client_online = false;
    session_attempt = next_attempt a.session_attempt;
    session_in_flight = false;
  })
  handle_event timestamp online a = (none, try_online (record a { client_online = true }))
  handle_event timestamp (node m) a = (node_event_of (app_node_event decode_payload m), a)
  handle_event timestamp (device m) a = (device_event_of (app_device_event decode_payload m), a)
  handle_event timestamp (state host payload) a = (
    none,
    if a.published_online_state && (list_eq.beq host a.host_id && is_offline payload)
        then spawn (republishes (own_topic a) a.will_timestamp) a
        else a,
  )
  handle_event timestamp (invalid_publish e t p) a = (none, a)

  -- One round of the loop in `poll`, and the event that it returns. A task sends its result once.
  unfoldable pub poll_round : Input → AppEventLoop → Option AppEvent × AppEventLoop
  unfolding handle_event on_result poll_until_offline try_online call_task end_task
  poll_round (event timestamp e) a = handle_event timestamp e a
  poll_round (session_result now attempt subscribed published) a =
      if not (contains attempt a.pending)
      then (none, a)
      else let ended = end_task attempt subscribed published a.tasks in
        on_result now attempt (ended.2) (record a {
          pending = remove attempt a.pending;
          tasks = ended.0;
          calls = ended.1 ++ a.calls;
        })
  poll_round (shutdown es) a = (some AppEvent.cancelled, poll_until_offline encode_state es a)
  poll_round retry_time a =
      if not (is_some a.retry_at)
      then (none, a)
      else (none, try_online (record a { retry_at = none }))
  poll_round (task_calls i) a =
      let called = call_task i a.tasks in
      (none, record a { tasks = called.0; calls = called.1 ++ a.calls })

  -- The rounds of any number of polls: the events that they return, in order, and the loop.
  unfoldable pub poll_all : List Input → AppEventLoop → List AppEvent × AppEventLoop
  unfolding poll_round
  poll_all [] a = ([], a)
  poll_all (x ∷ xs) a = let r = poll_round x a in and_event (r.0) (poll_all xs (r.1))
