-- ===== src/App/EventLoop/Tasks.antt =====
-- srad-app/src/eventloop.rs: the tasks that the application's loop spawns, and their calls.
use srad.Prelude.{ℕ, zero, suc, List, [], ◌∷◌, ◌++◌, ◌==◌, if◌then◌else◌, Result, ok, err, map_err}
use srad.Types.Text.{Text}
use srad.Types.Topic.{TopicFilter, StateTopic}
use srad.Types.Message.{StatePayload, LastWill}

-- The client's errors are their texts.
pub data SessionError : Type 0 where
  subscribe : Text → SessionError
  publish_online_state : Text → SessionError

-- What is asked of the client, and the wills that its event loop is given.
pub data Call : Type 0 where
  subscribe_many : List TopicFilter → Call
  publish_state_message : StateTopic → StatePayload → Call
  disconnect : Call
  set_last_will : LastWill → Call

-- What a spawned task still has to do: it establishes the session, with the number of its attempt;
-- the same once it has subscribed; it disconnects; or it publishes the online STATE again. The last
-- number is the time that the task has captured.
pub data Task : Type 0 where
  establishes : ℕ → StateTopic → List TopicFilter → ℕ → Task
  announces : ℕ → StateTopic → ℕ → Task
  disconnects : Task
  republishes : StateTopic → ℕ → Task

-- The rest of a task that has subscribed, with the answer to its publish.
abbrev pub announce :
    StateTopic → ℕ → Result Text (Unit {0}) → List Call × Result SessionError (Unit {0})
announce topic timestamp published = (
  publish_state_message topic (StatePayload.online timestamp) ∷ [],
  map_err publish_online_state published,
)

-- The whole task that establishes the session, with the answers to its calls: the calls, the latest
-- first, and the result that it sends. The STATE is published once the client has subscribed.
unfoldable pub establish :
    StateTopic
    → List TopicFilter
    → ℕ
    → Result Text (Unit {0})
    → Result Text (Unit {0})
    → List Call × Result SessionError (Unit {0})
establish topic topics timestamp (err e) published = (subscribe_many topics ∷ [], err (subscribe e))
establish topic topics timestamp (ok _) published = (
  (announce topic timestamp published).0 ++ subscribe_many topics ∷ [],
  (announce topic timestamp published).1,
)

-- The next call of a task, and the rest of the task. A subscription that is refused is left to the
-- end of the attempt.
abbrev pub next_call : Task → Call × List Task
next_call (establishes attempt topic topics t) =
    (subscribe_many topics, announces attempt topic t ∷ [])
next_call (announces attempt topic t) = (publish_state_message topic (StatePayload.online t), [])
next_call disconnects = (disconnect, [])
next_call (republishes topic t) = (publish_state_message topic (StatePayload.online t), [])

-- One of the tasks makes its next call.
unfoldable pub call_task : ℕ → List Task → List Task × List Call
call_task i [] = ([], [])
call_task zero (x ∷ xs) = ((next_call x).1 ++ xs, (next_call x).0 ∷ [])
call_task (suc i) (x ∷ xs) = let rest = call_task i xs in (x ∷ rest.0, rest.1)

abbrev pub Ended : Type 0
Ended = List Task × List Call × Result SessionError (Unit {0})

abbrev pub keep : Task → Ended → Ended
keep x (xs, cs, r) = (x ∷ xs, cs, r)

abbrev pub end_with : List Task → List Call × Result SessionError (Unit {0}) → Ended
end_with xs (cs, r) = (xs, cs, r)

-- The end of the task of an attempt, with the answers to its subscription and to its publish: the
-- other tasks, the calls that it still made, and its result. A task that is not in the list has made
-- its calls.
unfoldable pub end_task : ℕ → Result Text (Unit {0}) → Result Text (Unit {0}) → List Task → Ended
unfolding establish
end_task k subscribed published [] = ([], [], map_err publish_online_state published)
end_task k subscribed published (establishes attempt topic topics t ∷ xs) =
    let rest = keep (establishes attempt topic topics t) (end_task k subscribed published xs) in
    if attempt == k then end_with xs (establish topic topics t subscribed published) else rest
end_task k subscribed published (announces attempt topic t ∷ xs) =
    let rest = keep (announces attempt topic t) (end_task k subscribed published xs) in
    if attempt == k then end_with xs (announce topic t published) else rest
end_task k subscribed published (disconnects ∷ xs) =
    keep disconnects (end_task k subscribed published xs)
end_task k subscribed published (republishes topic t ∷ xs) =
    keep (republishes topic t) (end_task k subscribed published xs)
