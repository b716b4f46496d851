-- ===== src/Lib.antt =====
-- A model of the JavaScript and TypeScript core of the wind-solar-storage agent harness, with the
-- theorems that make it correct.
--
-- The harness control application (apps/harness-control) shows the runs of an agent: the browser
-- submits a turn, reads the events of the run from a server-sent event stream, reduces them to the
-- state of the run, and reveals the text of the answer step by step.
--
-- Parts, below apps/harness-control/src/agent-workbench:
-- - Workbench/Contracts.antt: contracts.ts, the types of events and of the state of a run.
-- - Workbench/Reducer.antt: stream-reducer.ts. `reduce_agent_stream_events` is
--   `reduceAgentStreamEvents`; its two loops are `enqueue_all` and `commit_pending`, whose fuel is
--   the number of waiting events (each round deletes one); `apply_agent_stream_event`,
--   `project_execution_event`, `upsert_execution_event` and `status_from_execution` are the functions
--   of those names.
-- - Workbench/Buffer.antt: stream-buffer.ts, the reveal of the text.
-- - Workbench/Sse.antt: sse-parser.ts, class `AgentSseParser`. The decoder of UTF-8 and
--   `JSON.parse` are parameters.
-- - Workbench/Client.antt: `streamAgentRun` of agent-stream-client.ts, which reads the stream and
--   connects again when it breaks. It runs against a list of `Attempt`s, one for each turn of its
--   loop; where the list ends, the run is still being read.
-- - Workbench/Gateway.antt: the other calls of agent-stream-client.ts, and
--   `submitWithStaleSessionRecovery` of AgentStreamingWorkbench.tsx, as actions on the page's storage
--   and the list of requests that were sent, against a server that is an argument.
-- - Workbench/Request.antt: `buildAgentRequest` of AgentStreamingWorkbench.tsx, whose text patterns
--   for assets are an argument.
-- - Workbench/Session.antt: the effects, timers and handlers of AgentStreamingWorkbench.tsx.
--   `runMessage` is `begin_message`, `turn_accepted`, then `stream_ended` or `request_failed`;
--   `resume` is `resume_run`, then `stream_ended` or `resume_failed`; the timers are `tick` and
--   `flush_events`.
-- - Workbench/Markdown.antt: markdown-blocks.ts, `splitStreamingMarkdown`, which cuts the received
--   text into blocks for the renderer; its regular expression for fences is `match_fence`.
-- - Workbench/Store.antt: agent-workbench-store.ts, the state behind the workbench's messages and
--   its actions.
--
-- The application's server gives a user a token and session ids, and checks them on each request:
-- - Control/Auth.antt: apps/harness-control/src/server/control-auth.ts. Node's `Buffer`, HMAC and
--   `JSON` are the interface `Node`, whose laws are all that is assumed of them; the secret, the
--   clock and `randomUUID()` are arguments.
-- - Control/Stream.antt: `streamRuntimeEvents` and `projectAgentEvent` of
--   apps/harness-control/app/api/v1/sessions/[sessionId]/runs/[runId]/route.ts, which turn the
--   runtime's events into those of the workbench; Control/Stream/Delivery.antt puts them together
--   with the browser's reducer. The runtime's stream is a list of events with the way it ends.
-- - Control/Contracts.antt: src/contracts/control.ts of that application.
-- - Control/Runtime.antt and its children: src/server/runtime-client.ts, the conversion of messages
--   and payloads, the errors of calls and the two clients; the transport is an argument.
-- - Control/Routes.antt: the handlers below app/api/v1, with src/server/local-control-auth.ts and
--   src/server/http-response.ts. `create_turn` is POST turns, `get_run` GET runs, `create_session`
--   POST sessions, `login` POST auth/login and `users_me` GET users/me.
--
-- The frontend of the digital twin (frontend/src) shows a station's batteries in a scene, and the
-- runs of its own agent client:
-- - Twin/Labels.antt: `socLevelFor`, `lodForDistance` and `resolveSocLabelLayout` of
--   features/digitalTwinAdapters.js, which says which labels are shown and where.
-- - Twin/Observations.antt: `orderObservations` of that file. The recursive visit runs on fuel, one
--   for each observation and one: each visit marks an observation that was not marked.
-- - Twin/Events.antt and Twin/RunEvents.antt: what one event, and a batch of them, does in
--   `applyRunEventBatch` of that file. Maps and sets are lists in the order of insertion.
-- - Twin/Health.antt: features/bessScenePresentation.js, the health level of a battery.
-- - Twin/Telemetry.antt and Twin/Telemetry/Overview.antt: features/stationTelemetryClient.js, what a
--   batch of telemetry does to the batteries and to the overview of the station.
-- - Twin/AgentClient.antt: `parseSseFrames` of features/digitalTwinAdapters.js, and `streamAgentRun`
--   of features/agentWorkflowClient.js against a list of `Connection`s, one for each turn of its
--   loop; where the list ends, the run is still being read.
-- - Twin/Store.antt: store.js, the state of the twin and its actions.
--
-- The pages of the harness control application reach the station's API below
-- apps/harness-control/src:
-- - Workspace/Access.antt: auth/station-auth.ts and workspace/station-api.ts, and
--   Workspace/Audit.antt: audit/audit-client.ts, as actions on the page's storage and the list of
--   requests, against a server that is an argument. `encodeURIComponent`,
--   `URLSearchParams.toString()` and the schemas are arguments.
-- - Workspace/Mappers.antt: workspace/station-data-mappers.ts. The tree of devices and its list of
--   children are two types.
-- - Workspace/Views.antt: workspace/twin-view-registry.ts.
--
-- Base.antt and Js.antt hold what the parts share: lists and tests over the native numbers, strings
-- as lists of UTF-16 code units, and JSON values with `String(…)`, truthiness and `??`.
--
-- Numbers: sequence numbers, lengths and numbers in payloads are natural numbers, and `Number(…)`
-- of a text is modelled for digits. Measured values and coordinates are the interface `Numbers` of
-- Js/Number.antt, operations without laws, so that what is shown of them holds of floating-point
-- numbers, NaN among them; Js/Number.antt has integers as an instance. Times are natural numbers of
-- milliseconds, which `Date.parse`, an argument, gives or not.
--
-- Not modelled: rendering (what the .tsx and .jsx files show), the 3D scene and its layout, the
-- colours and the geometry of charts, which are floating-point arithmetic for display; of
-- digitalTwinAdapters.js the telemetry series, the merge of energy points and the context of a
-- request; of the telemetry client the socket with its timers (`BessTelemetryBridge`); of
-- agentWorkflowClient.js the single requests beside the stream; of the store the values of the
-- packages; the demonstration data, the vendored decoder, and the Python services.
pub mod Base
pub mod Js
pub mod Workbench
pub mod Control
pub mod Twin
pub mod Workspace
