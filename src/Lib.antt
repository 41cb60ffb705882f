-- ===== src/Lib.antt =====
-- tasks-service, a backend in Go for tasks and for tasks that two users share.
--
-- Shared tasks (SharedTasks/): one user proposes a task to another, who accepts it, rejects it or
-- answers with a counter-proposal. The domain's rules (app/internal/shared_tasks/domain) are
-- SharedTasks/Domain, the repository (app/internal/shared_tasks/repository/postgres) is
-- SharedTasks/Repository with its SQL statements in SharedTasks/Repository/Statements, the service
-- (app/internal/shared_tasks/service) is SharedTasks/Service, and what an administrator does to
-- shared tasks (app/internal/tasks/repository/postgres) is SharedTasks/Admin. SharedTasks/Requests
-- joins the calls that change shared tasks into one type, over which the invariants range.
--
-- The database (Database): each call of pgx is a step on a world, which holds the tables, a counter
-- of the calls, the clock, and a function that says which calls fail. A statement is a function on
-- the tables, which yields none where PostgreSQL fails it; `transaction` restores the tables when
-- its body or its commit fails. The casts to uuid and timestamptz and the generated ids are
-- parameters (Platform). Each statement is atomic, and requests run one after another: interleaved
-- transactions are not modelled.
--
-- The batch processor (app/internal/tasks/batch) is Batch: a queue and its worker as a state, and
-- each case of the worker's `select` as an event, so that any interleaving with the clients is a
-- list of events. Batch/Flush splits a flush into the calls of the service. The drain of a
-- worker that stops is one step: an item that a full channel accepts only because the drain has
-- already made room (batch.go, the inner loop after ctx.Done()) is not represented.
--
-- The outbox (app/internal/tasks/repository/outbox, app/internal/worker) is Outbox: the rows, the
-- repository's statements, and the worker's ticks over the database and the client of Kafka, with
-- new events arriving in between. Outbox/Kafka is Write of the producer and of the client. Its writer
-- is asynchronous: no error means that a message is in the writer's buffer, and the model says
-- nothing of what reaches Kafka. JSON and the answers of the writer are parameters (Outside).
--
-- The tasks of one user (app/internal/tasks) are Tasks: the domain with its encodings is
-- Tasks/Domain, the tables Tasks/Tables, the repository (app/internal/tasks/repository/postgres)
-- Tasks/Statements, Tasks/Repository and Tasks/Subtasks, and the service Tasks/Service. Each write
-- also inserts the event that the outbox's worker sends; the payload stands for its JSON.
-- Tasks/Requests joins the calls that change tasks into one type.
-- Tasks/Reads has the queries and Tasks/Filters the conditions that FindByUser builds from the
-- filters of a request; what PostgreSQL makes of these conditions and of the order, both texts, is
-- a parameter, which may only choose and order rows. Tasks/Admin is what an administrator does.
-- Tasks/Queries has the methods of the service that read, over the database and the cache.
--
-- The cache (Cache): Cache and Cache/Entries are app/internal/tasks/repository/redis, on the model of
-- a Redis server in Cache/Redis: keys with the times at which they expire, the commands that the
-- code uses, and a function that says of each call whether its connection fails and after how many
-- commands. Cache/Requests joins the calls that change the cache, and the time that passes, into
-- one type, and Cache/Specification says what such calls may do to the cached tasks.
--
-- Tags (Tags): Tags is app/internal/tags/db/postgres with the checks of app/internal/tags/service,
-- over the tables of the tasks, Tags/Cached is app/internal/tags/db/redis, and Tags/Service has the
-- methods of the service that pass a call on.
--
-- Reminders (Reminders): Reminders is app/internal/tasks/repository/postgres/subscription.go with
-- app/internal/tasks/service/subscription.go, over the tables of tasks and of subscriptions, and
-- Reminders/Worker is app/internal/worker/reminder.go, with steps for what others do to the tables
-- between its ticks. Whether the gateway takes a notification is a parameter.
--
-- The middlewares (Api): Api/Signature is app/pkg/api/signature, the check of the gateway's
-- signature, with HMAC-SHA256 as a parameter; Api/Sort and Api/Filter are app/pkg/api/sort and
-- app/pkg/api/filter, from the decoded query to the options in the context; Api/Errors is
-- app/internal/apperror. Headers are a function from names to texts.
--
-- The helpers (Utils): Utils/Operator, Utils/CacheKey and Utils/Tries are the packages operator,
-- CacheKey and repeatable of app/pkg/utils. The pauses between tries are left out.
--
-- The resilience middleware (app/pkg/api/resilience) is Resilience: the circuit breaker and the
-- limiter are parameters (Guards), and a handler is a function to the actions on its writer.
--
-- Not modelled: logging, metrics, configuration, the HTTP servers and clients, the circuit breakers,
-- and the handlers, which decode requests and call the services.
pub mod Api
pub mod Batch
pub mod Cache
pub mod Database
pub mod Outbox
pub mod Prelude
pub mod Reminders
pub mod Resilience
pub mod SharedTasks
pub mod Tags
pub mod Tasks
pub mod Utils
