-- ===== src/Lib.antt =====
-- srad is a library for Sparkplug B, a protocol of industrial telemetry over MQTT. Edge nodes and
-- their devices announce themselves by birth messages, send data and die; a host application
-- follows them, puts their messages back into sequence, and asks a node for a rebirth when its
-- state is not to be trusted. The crates are srad-types (payloads, topics, values), srad-client
-- (MQTT publishes turned into events), srad-app (the host application), srad-eon (edge nodes) and
-- srad-client-rumqtt (an MQTT client). This library models the host application and the edge node,
-- with the parts of srad-types and srad-client that they stand on.
--
-- The parts, and the files that model them:
--   Types/Text: srad-types/src/constants.rs; a `String` is the list of its bytes.
--   Types/Payload: srad-types/src/generated/sparkplug_payload.rs, and the setters of `Metric` in
--     srad-types/src/payload.rs.
--   Types/DataType: the enum `DataType`, and its `TryFrom<u32>` in srad-types/src/payload.rs.
--   Types/Properties: srad-types/src/property_set.rs; RoundTrip has the proof.
--   Types/Topic: srad-types/src/topic.rs, and `validate_name` of srad-types/src/utils.rs.
--   Types/Message: srad-client/src/types.rs.
--   Types/Templates: the definitions and instances of srad-types/src/template.rs; RoundTrip has the
--     proof.
--   Types/Arrays, Types/Booleans: the arrays of numbers and of strings, and those of booleans, in
--     srad-types/src/value.rs.
--   Types/DataSets: data sets and their typed rows, srad-types/src/dataset.rs. The trait of a row's
--     type is a record of its methods.
--   Client: `topic_and_payload_to_event_inner` of srad-client/src/utils.rs, as `parse` and the
--     functions that it is made of; RoundTrip has the proofs.
--   App/Metrics: srad-app/src/metrics.rs. App/Payloads and App/Events: srad-app/src/events.rs.
--   App/Resequencer: srad-app/src/resequencer.rs. Invariant, Order and Reorder have the proofs.
--   App/Rebirth, App/Device, App/Node, App/Messages: `RebirthConfig`, `Device` and `Node` of
--     srad-app/src/generic_app.rs. `handle_message` is the whole handler of a node's message, and
--     `turn` a turn of the node's task, `Node::run`. The modules below them have the proofs.
--   App/Application: `Application` of srad-app/src/generic_app.rs, which gives each event of the
--     event loop to the task of its node; Routes and Delivery have the proofs.
--   App/Subscriptions: srad-app/src/config.rs; Covers has the proof.
--   App/EventLoop: `AppEventLoop` of srad-app/src/eventloop.rs. `poll_round` is one round of `poll`;
--     Tasks has the tasks that it spawns; Calls, Steps, Session, Results, Rounds, Alternate and
--     Recover have the proofs. App/Client: what `AppClient` publishes.
--   Eon/Ids: the searches for a free alias and a free device's id; Free has the proof.
--   Eon/Birth: srad-eon/src/birth.rs; Names and Aliases have the proofs.
--   Eon/Templates: `TemplateRegistry` of srad-eon/src/node.rs.
--   Eon/State: `EoNState` of srad-eon/src/node.rs, with the calls of the client.
--   Eon/Device and Eon/DeviceMap: srad-eon/src/device.rs; Silent, Ids and Changes have the proofs.
--   Eon/Node and Eon/Session: the handlers of `Node`, `NodeHandle` and `EoN` in srad-eon/src/node.rs.
--   Eon/Run: the turns of an edge node's tasks and handles, and its run.
--   Eon/Sequence: what an edge node publishes. Births, Registry, Sessions, Hosts and Run have the
--     proofs of its invariant, Accepted that of the birth that an application reads, Retry those of
--     attempts that fail, Command that of an application's rebirth command.
--
-- How the code is modelled. A method that changes its object takes the object and returns it
-- changed; `Result` is a data type, and `none` of an `Option` that a handler returns is a panic. A
-- `u8` is a number below 256 whose sums wrap; a `u64` timestamp and a `Duration` are only compared,
-- and the one subtraction of durations panics below zero as the source's does. A `HashMap` is an
-- association list and a `BTreeMap` a list in ascending order of its keys. What a handler publishes
-- is listed in the node, the clocks that it reads are an argument, and the reorder timer is a flag:
-- that the timer fires is a turn of its own. For the node's task, its message channel is the
-- sequence of turns that it is given; for the application, it is a list that it appends to. The
-- rebirth channel of a node holds at most one reason, as in the source.
--
-- An edge node's tasks share `EoNState`, which the model keeps in `Core` with the list of the calls
-- that were made of the client, the latest first. Whether a call succeeds is told by a function of
-- the calls so far, as are the clock's readings for payloads and what the metric managers register:
-- the theorems hold for every such function. A handler runs to its end before the next one starts,
-- with the calls that it waits for; between handlers, the tasks and the handles take turns in any
-- order. A device's channel of its node's messages is a list in the device. For the application's
-- loop, the tasks that it spawns are listed with the calls that they still have to make. A task
-- makes its calls one at a time, at any time between two rounds of the loop, also when its attempt
-- has been given up; the answers to the calls of an attempt are told with its result, once for each
-- attempt that was spawned. The assertions of srad-eon/src/birth.rs that only a debug build makes
-- are left out: the errors that a release build returns there are modelled.
--
-- Bounds and fuel. `drain_resequence_buffer` is recursive on fuel; the caller gives one more than
-- the buffer holds messages, and each round of the loop takes one out. `next_free` has as much fuel
-- as there are taken numbers: one more number than those is tried, so one of them is free. Its
-- counting up wraps, as in a release build of the source; a debug build panics there. The number of
-- an attempt of the application's loop wraps at 2 ^ 64.
--
-- Parameters. The protobuf decoder and encoder, the JSON decoder and encoder of STATE payloads, the
-- hash of names and the test for UTF-8 are functions that the definitions take; nothing is assumed
-- of them. An application's `MetricStore` is a record of its methods, and nothing is assumed of it
-- either.
--
-- Not modelled: the async runtime and the interleaving of tasks within a handler, the bound of a
-- node's queue, the MQTT client, logging, the builders and `AppClient::cancel`, the commands that an
-- edge node's metric managers are told of, `MessageMetric` and the simple manager of srad-eon, the
-- derive macros, and the codecs of scalars.
mod Prelude
pub mod Types
pub mod Client
pub mod App
pub mod Eon
