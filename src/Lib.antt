-- ===== src/Lib.antt =====
-- VoiceMesh: a backend for voice agents. A call's audio flows through a pipeline of stages that are
-- joined by flow-controlled queues. A turn detector finds the caller's turns; an interruption of the
-- assistant goes through a barge-in coordinator and a table of responses. Events of the call go to
-- Kafka, from where one worker projects them into Postgres, bills included, and another writes them to
-- ClickHouse. Temporal workflows follow each call, each durable tool action, the final bill and the
-- end-of-call webhook.
--
-- Files and code (paths from the root of the repository):
-- - Pipeline/Queue, apps/api/pipeline/backpressure.py: FlowControlledQueue. put, get and flush are
--   the sections that run under the condition's lock (put_locked, get_locked, flush_locked); a
--   section whose wait does not end is `waiting`. Queue/Schedule runs any interleaving of them with a
--   ledger of the items.
-- - Pipeline/Responses, ResponseController of apps/api/pipeline/stream_module.py.
-- - Pipeline/BargeIn, apps/api/pipeline/barge_in.py: BargeInCoordinator, each method a function;
--   BargeIn/Effects gathers them as one step.
-- - Pipeline/TurnDetector, apps/api/pipeline/stages/vad.py: SmoothedTurnDetector.
-- - Pipeline/Stream, apps/api/pipeline/stream_module.py: StreamModule, its handlers and tasks split at
--   their awaits. Stream/Steps runs any interleaving of these sections, and Stream/Cancelled has
--   _cancel_response as a whole among the sections of other tasks. BargeIn/Classify has
--   classify_interruption.
-- - Pipeline/Audio, apps/api/pipeline/audio.py: the splitting of PCM16 audio into frames.
-- - Events/Schemas, apps/api/events/schemas.py; Events/Consumer, apps/api/events/kafka_consumer.py:
--   the rounds of the loop and the commits.
-- - Events/Tables, Bill, Manifest, Usage, Projector, Batch, apps/api/db/projector.py: the tables as a
--   record, each private method of EventProjector as a function on it, and project_batch as one
--   transaction. Numeric and uuid5 are parameters.
-- - Events/Outbox, apps/api/db/outbox.py: OutboxPublisher, with a World of the answers that the broker
--   and the database give during a batch.
-- - Worker/Flow: workflow code between its awaits, as actions on the workflow's fields. Temporal is a
--   World: the signals that come during each await, and how each activity ends once its retries are
--   over; where a theorem speaks of the retries, the number of tries of each activity is a parameter.
--   Flow/Rules has rules for what such actions ensure, keep and come to.
-- - Worker/Call, apps/worker/workflows.py: CallWorkflow. Worker/Action, Worker/Billing and
--   Worker/Webhook, apps/worker/durable_workflows.py: DurableActionWorkflow,
--   BillingFinalizationWorkflow and WebhookDeliveryWorkflow. Billing/FromTables runs the workflow of the
--   final bill with the activity that reads its readiness off the tables.
-- - Worker/Activities, apps/worker/activities.py: load_billing_readiness, finalize_call_billing and
--   create_billing_adjustment, on the projector's tables and the tables of bills and adjustments.
-- - Worker/EventWorker, apps/worker/event_worker.py: handle_batch, on top of project_batch, with a World
--   that says how each call to Temporal and Kafka ends.
-- - Analytics/Writer, apps/api/analytics/clickhouse/writer.py and the retries of consumer.py beside it.
-- - Analytics/Normalizer, apps/api/analytics/clickhouse/normalizer.py: the redaction of a payload, and
--   the codes of a row.
-- - Prelude: names of the libraries passed on, and what the parts share: Boolean tests on numbers,
--   lists, texts, dicts, results that may be errors, runs of a step function.
--
-- Numbers: durations, depths and delays are natural numbers of a fixed small unit, where the code
-- has floats or whole numbers; a weight or a playback position that may be negative is an integer,
-- and is clamped as the code clamps it. An amount of money is a whole number of 10⁻¹⁰ USD, the scale
-- of its column, or of cents. The duration of a call that ended before it started is 0, where the
-- code has a negative one, and parts of a millisecond are dropped. The depth of a queue has no
-- rounding drift. The clock, random identifiers and the hash uuid5 are arguments.
--
-- Fuel: the loops of the call workflow are bounded by the number of signals that come, those of the
-- durable action and of the final bill by the seconds that may pass, and the ClickHouse retries by the
-- longest delay; theorems below show that these bounds are enough. All other recursion is structural.
--
-- Not modelled: metrics, logs and spans; the providers and the frames on the WebSocket, which stream
-- over networks; the activities that only call a web service or store one row; routes, configuration,
-- authentication; the repository; the dashboard. The retry of a failed Postgres connection is left out
-- of project_batch, and the audio and the prompts that stream_module.py hands to its providers are left
-- out of Pipeline/Stream.
pub mod Prelude
pub mod Pipeline
pub mod Events
pub mod Worker
pub mod Analytics
