-- ===== src/Lib.antt =====
-- The ComfyUI Async Generation Engine (engine/*.py): the components that carry its resilience logic.
-- Jobs reach a ComfyUI server through a client that is guarded by a circuit breaker and retries with
-- back-off under a deadline; items are batched and piped as streams, exchanged with other processes
-- over a shared-memory channel, and jobs that fail for good go to a dead letter queue. Commands,
-- queries and events travel over buses, actors take messages from mailboxes behind a sharded router,
-- and a registry of checks reports the health of the parts. Sessions record the jobs of a run with
-- checkpoints to resume from, and a validator checks the workflow that the jobs instantiate. A cache
-- keeps models in memory, and the security layer issues tokens, limits requests and locks accounts.
-- Jobs can also wait in a queue that several workers share over Redis; scalers launch and terminate
-- nodes by the cluster's load, plugins attach handlers to hooks, and a WebSocket manager reconnects
-- and queues messages.
--
-- Files, and the code that each models:
--   Prelude, Prelude/*     tests on numbers, lists, dictionaries that keep the order of insertion
--   Random                 random.uniform as an interface with its documented bounds
--   Breaker, Breaker/*     engine/circuit_breaker.py: CircuitBreaker
--   Deadline, Deadline/*   engine/deadline.py: DeadlineContext and the checks
--   RetryPolicy, .../*     engine/retry_policy.py: RetryPolicy.execute
--   Retry, Retry/*         engine/retry.py: _compute_delay and with_retry
--   Batch, Batch/*         engine/batch.py: BatchAccumulator
--   Pipeline, Pipeline/*   engine/pipeline.py: MapStage, FilterStage, BatchStage, Pipeline
--   Channel, Channel/*     engine/shm_channel.py: ShmChannel
--   DeadLetter, .../*      engine/dead_letter_queue.py: DeadLetterQueue
--   Health, Health/*       engine/health.py: HealthRegistry and AggregateHealth
--   Bus, Bus/*             engine/command.py, engine/query.py, engine/events.py
--   JobQueue, JobQueue/*   engine/queue.py: JobQueue (JobQueue holds the code)
--   WebSocket, .../*       engine/websocket_manager.py: WebSocketManager (WebSocket holds the code)
--   Plugins, Plugins/*     engine/plugin_system.py: PluginHook and HookRegistry (Hooks), PluginManager
--                          (Manager)
--   Scaling, Scaling/*     engine/auto_scaler.py: AutoScaler (AutoScaler), and what it reads of
--                          engine/cluster_manager.py (Nodes), and
--                          engine/gpu_autoscaler.py: GPUAutoscaler (Gpu)
--   Distributed, .../*     engine/distributed_queue.py: RedisQueue and DistributedWorker (Jobs), over an
--                          interface for Redis (Distributed/Redis)
--   ModelCache, .../*      engine/model_cache.py: ModelCache (ModelCache holds the code)
--   Security, Security/*   engine/security.py: TokenManager (Tokens), RateLimiter, the users of
--                          SecurityManager (Users), and roles (Roles)
--   Session, Session/*     engine/session_manager.py: SessionManager (Files, Records, Manager, Jobs and
--                          Resumption hold the code)
--   Workflow, Workflow/*   engine/workflow_validator.py: WorkflowValidator (Nodes, Mappings, Validation
--                          and Standard hold the code)
--   Actor, Actor/*         engine/actor/base.py: the mailbox of an Actor (Actor), and
--                          engine/actor/router.py: ShardedActorRouter (Actor/Router)
--   Pool, Pool/*           engine/worker_pool.py: WorkerPool over bridges that run or not
--   Tests, Tests/*         runs at concrete inputs, and instances of the theorems
--
-- How the code is read. A class is a record of its fields, and a method a function that returns the
-- new record. Exceptions are values: `none` where a constructor or a lookup raises, a data type where
-- several outcomes matter. An asyncio lock makes the code under it one step; what other tasks do
-- between two steps is a step relation (Breaker/Steps) or a list of events (Batch, Channel). Times and
-- delays are whole ticks: clock readings are arguments, and a back-off factor is a whole number, where
-- the code has floats. Draws of random.uniform come from an interface with the documented bounds.
-- Loops over a list or a range recur on it; the loop that skips expired messages has the length of the
-- mailbox as fuel, as each round pops one message. Making room in the model cache has the number of
-- models as fuel, reconnecting the attempts that are left, and flushing messages and nested claims a
-- number that the theorems find to be enough. Parameters stand for heapq (Actor), asyncio.PriorityQueue
-- (JobQueue), Python's hash of a string (Actor/Router), JWT and the hashing of passwords (Security),
-- Redis (Distributed), the answers of servers and cloud providers (WebSocket, Scaling), the modules of
-- plugins (Plugins), dataclasses.asdict and the formatting of checkpoint ids (Session).
--
-- Not modelled: logging, metrics beyond the breaker's counter of trips, the JSON text of files, the
-- network, what Redis does inside, cloud SDKs, floating-point rounding and overflow, the interleaving
-- of single Redis commands (only that a claim is cut off between its commands is), and the user interfaces.
pub mod Prelude
pub mod Random
pub mod Breaker
pub mod Deadline
pub mod RetryPolicy
pub mod Retry
pub mod Batch
pub mod Pipeline
pub mod Channel
pub mod DeadLetter
pub mod Distributed
pub mod Health
pub mod Bus
pub mod Session
pub mod WebSocket
pub mod Workflow
pub mod Actor
pub mod Plugins
pub mod Pool
pub mod JobQueue
pub mod ModelCache
pub mod Scaling
pub mod Security
mod Tests
