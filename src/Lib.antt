-- ===== src/Lib.antt =====
-- argus-services: cameras at the edge send sequences of frames; a worker has each sequence analysed and
-- stores a piece of evidence; the aggregator collects evidence in decisions and raises their state; a
-- watcher of the tenant resolves them, and a warning is sent to the tenant's recipients. The services
-- share PostgreSQL tables under row policies, Redis, a stream, and Celery's task queue.
--
-- Paths are from the repository's root; S stands for runtime/src/argus.
--
--   Domain.Enums, Domain.Models   S/domain/enums.py, S/domain/models: the rows of the tables as records
--   Domain.Json                   texts and JSON values
--   World                         the state that the services share: tables, Redis, events, tasks
--   World.Redis                   S/services/redis.py: keys; Redis is an interface with three laws
--   World.Session                 S/services/database.py, runtime/alembic/versions/007_rls.py
--   Events                        S/services/ws_events.py, S/integrations/events.py
--   Auth, Access                  S/core/auth.py, S/integrations/auth0.py, S/api/deps.py
--   Ingestion                     S/services/ingestion.py, S/services/stream.py
--   Stream                        the fields of an event, from S/services/ingestion.py over S/services/redis.py
--                                 to S/workers/vlm_analyzer.py, and its dead letters
--   Analysis                      S/workers/vlm_analyzer.py, S/services/lens_builder.py; Batches has the
--                                 reading of the stream, Attempts the retries, Prompts the prompt
--   Storage, Providers            S/services/storage.py; S/integrations/openai_vlm.py, twilio_client.py
--   Aggregation                   S/services/aggregation.py
--   Audit                         S/services/audit.py: the trail of a decision against its row
--   Triage                        S/api/triage/decisions.py, S/services/feedback.py; Details has what a
--                                 watcher is shown, Embedding the vector of a feedback
--   Scheduler                     S/workers/scheduler.py
--   Notifier                      S/workers/notifier.py
--   Gateway                       S/ws/gateway.py, S/ws/handlers.py; Running has the steps of the sockets,
--                                 with the disconnections of a broadcast as steps of their own, Pubsub
--                                 the listener of S/ws/pubsub.py
--   Migrations                    runtime/alembic/versions: 001 to 005 as lists of operations, run on a
--                                 catalog of named objects, the row security of 007,
--                                 and the role of 008
--   Validation                    runtime/scripts/validate_rls.py: its counts under the row policies
--   Cameras, Admin                S/api/admin: the routes by which root and admins set tenants up
--   Errors                        S/core/exceptions.py: the bodies of errors
--   Startup                       S/main.py, S/workers/runtime.py, S/workers/celery_app.py, S/config.py,
--                                 S/core/logging.py, runtime/scripts/init_redis_streams.py
--   Dev                           S/api/dev.py: sessions for development, and their tokens
--   Seed                          runtime/scripts/seed.py: the rows of a development database
--
-- A handler is a function from a state to a result and a state (Exec); an exception is a result, and the
-- state beside it keeps what was written before it. A session takes the writes to the tables back when
-- its block raises, and nothing else. A function has the name that it has in the code; where one is
-- too long for one definition, its parts are named for what they do.
--
-- UUIDs and instants are numbers, instants and times of day in microseconds. Integers that may be
-- negative (thresholds, weights, severities) are ℤ; columns are taken to be wide enough. No definition
-- runs on fuel: loops are over lists or a count; the listener of events runs over the polls it has made.
--
-- What is outside the repository is a parameter: the laws of Redis and of its consumer group,
-- `jwt.decode`, `jwt.encode`, `UUID(text)`, the base64 decoder, `json`, the object storage, the model that
-- looks at frames, the hash of a text, the provider of messages, the clock of a time zone, the ids and times
-- that a run draws, the order of rows where a query names none and a property depends on it. The laws
-- of Redis hold until a key lapses; a lapse is a change of its state between two calls. The database
-- answers every call and runs one transaction at a time.
--
-- Not modelled: the embedding in the rows of feedback, the texts of messages to recipients, the
-- heartbeat of a socket, the applications of FastAPI, the extension for vectors of 006, the script that
-- checks running services, and the browser client.
pub mod Prelude
pub mod Exec
pub mod Domain
pub mod World
pub mod Events
pub mod Aggregation
pub mod Fixtures
pub mod Auth
pub mod Access
pub mod Triage
pub mod Ingestion
pub mod Gateway
pub mod Scheduler
pub mod Notifier
pub mod Analysis
pub mod Cameras
pub mod Admin
pub mod Seed
pub mod Dev
pub mod Audit
pub mod Stream
pub mod Startup
pub mod Storage
pub mod Providers
pub mod Migrations
pub mod Validation
pub mod Errors
