-- ===== src/Lib.antt =====
-- Ketabdaneh API: verification of the back end under apps/api.
--
-- The service keeps users, members, events and assignments in a database, answers HTTP requests,
-- and sends notifications through a queue and a worker. Its parts and the files that model them:
--
-- - Config, Config/Url, Config/Policy: apps/api/app/core/config.py. `load_settings` is
--   `Settings()`: the field validators and the model validators in the order of the class. Every
--   validator is a function from settings to a result. `urlsplit` is written out in Config/Url;
--   SQLAlchemy's `make_url` and the host checks of `urlsplit` are fields of `Platform`.
-- - Metrics, Metrics/Labels: apps/api/app/core/metrics.py. A registry holds each counter and
--   histogram as the list of what was recorded.
-- - Notifications and below: apps/api/app/notifications/*.py. Models are the dataclasses and
--   their checks, Dispatcher routes by channel, BotApi is `send_bot_api_message` with what
--   telegram.py and bale.py pass to it, Factory builds the dispatcher of the settings. The HTTP
--   client is a function `Transport` from URL and payload to a reply.
-- - Worker and below: apps/api/app/worker/*.py. Jobs is the queue payload, Retry the policy,
--   Hint the pattern that reads a wait from an error text, Delivery the job function and
--   what it logs, Service the queue service with its cached pool, Serialization what it stores.
--   Redis is a record of answers. arq is the relation
--   `Reached` of Delivery/Attempts: a run that ends in `Retry` is followed by one with the next
--   attempt number. Process is the worker process: its hooks, the settings that arq reads, and
--   apps/api/worker_healthcheck.py.
-- - Store: apps/api/app/models/*.py, a record per table and `Db` for all of them. Accounts and
--   Accounts/Tokens (apps/api/app/services/auth.py, apps/api/app/core/security.py),
--   Accounts/Authorization (apps/api/app/services/authz.py) and Domain
--   (apps/api/app/services/events.py, apps/api/app/services/event_assignments.py,
--   apps/api/app/services/persons.py) take the tables and return a result with the tables after
--   it. The commit is the returned tables; a query that reads one row takes the first that fits.
-- - Http: apps/api/app/api/middleware.py and the readiness of apps/api/app/api/health.py.
--   Http/Middleware has what `RequestLoggingMiddleware.__call__` does before, while and after the
--   application runs; `Serving` is every interleaving of requests.
-- - Api and below: apps/api/app/api/auth.py, deps.py, roles.py, persons.py, events.py and
--   event_assignments.py, with the read models of apps/api/app/schemas. Api has the two guards
--   and the login, Api/Resources the other routes, and Api/Service all of them as one function
--   from a request and the tables to an answer and the tables. Api/Service/Changes is a relation
--   of what a request can do, Api/Service/Catalogue the abstract service: maps from ids to rows.
-- - Uuid: `str` and the constructor of `uuid.UUID`, which ids in tokens go through.
-- - Logging: apps/api/app/core/logging.py. Cli: apps/api/app/create_user.py and assign_role.py.
--   Seeds: the rows that apps/api/alembic/versions 0002, 0003 and 0005 insert.
--   Bootstrap composes Seeds, Cli and Api: from an empty installation to a user's first request.
-- - Schema and below: what the migrations do to the database's catalog (Initial, Authorization),
--   and what apps/api/app/models and apps/api/app/db/base.py declare (Mapping, Models). `execute`
--   is PostgreSQL's documented effect of a statement, with the names that tables, indexes and the
--   constraints with an index share; History has the revisions. Api/Service/Conformance is the rows
--   of the service under these constraints.
-- - Database: apps/api/app/db/session.py and check.py, the database check of health.py, and the URL
--   of apps/api/alembic/env.py; Engine has one use after another, Overlap calls of get_engine in
--   several threads. App: apps/api/app/main.py.
-- - Deployment: scripts/verify_deployment.py, the checks as functions of what the site answers.
-- - Prelude: Boolean tests on native numbers, lists, results, and Python's text functions. Json:
--   JSON values. Samples and the modules called Tests: concrete values.
--
-- A worker's run uses what the dispatcher and the provider return; the dispatcher turns every
-- exception of a provider into a result, so the worker classifies results only. Users, roles and
-- permissions meet in `user_permission_codes`, which joins the tables at every check.
--
-- Parameters: what is not code of the repository is an argument, with what the code relies on
-- as hypotheses: Argon2 (`PasswordHasher`), PyJWT (`Jwt`), httpx (`Transport`), Redis and
-- arq's pool (`Redis`), the order of texts in the database (`collate`), the deployed site
-- (`Site`), SQLAlchemy's engines (`Driver`), the metrics server (`MetricsServers`), Python's
-- codecs of jobs (`Codec`), arq's reading of a Redis URL (`from_dsn`), Unicode tables beyond
-- ASCII (`Unicode`), `repr` of lists and dicts. Random draws (row ids, salts, UUIDs) and the
-- times that are measured are arguments.
--
-- Bounds: durations, ids and counts are natural numbers of any size, as Python's integers. The
-- only fuel is that of `show` in Prelude/Text, one more than the number that it prints, which
-- has fewer digits than that; a UUID's hexadecimal form has 32 digits by its definition.
--
-- Not modelled: the parsing of requests and of command lines, printed texts, log lines other than
-- those of the delivery job, audit timestamps, concurrent sessions on one row, overlapping calls
-- of get_session_factory, PostgreSQL's limit on the length of names, relationships of the ORM, and
-- the insides of SQLAlchemy, FastAPI and arq. The web client is in another language; the smoke
-- scripts are tests.
pub mod Prelude
pub mod Json
pub mod Config
pub mod Metrics
pub mod Notifications
pub mod Worker
pub mod Seeds
pub mod Store
pub mod Accounts
pub mod Domain
pub mod Uuid
pub mod Http
pub mod Api
pub mod Logging
pub mod Bootstrap
pub mod Cli
pub mod Deployment
pub mod Samples
pub mod Schema
pub mod Database
pub mod App
