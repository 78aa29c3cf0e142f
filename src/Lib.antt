-- ===== src/Lib.antt =====
-- The adaptive gateway: an HTTP reverse proxy that adapts responses to the network of its client.
--
-- A request passes the body limit and, where it is enabled, the rate limit, then the network detector,
-- which reads the client's hints or else a passive estimate in Redis and leaves a tier GOOD, DEGRADED
-- or POOR on the request, and the authentication middleware, which finds who is asking. The proxy route answers it:
-- from the response cache, from an upstream, or, for a write whose outcome is unknown, by putting it
-- into the offline queue, from which a worker replays it. The response optimizer then removes
-- configured fields, cuts lists to skeletons and compresses, as the tier and the policy say, and a row
-- for the request log is queued.
--
-- Files and the code that they model:
--   Rtt             gateway/middleware/rtt_state.py: the state machine of the passive estimate.
--                   `advance` is `advance`, `candidate_tier` is `_candidate_tier`; the record RttState
--                   has the fields of the source.
--   Detector        gateway/middleware/network_detector.py: the hints, the JSON form of the state
--                   (Detector/State), the Redis transaction (Detector/Update) and the middleware
--                   (Detector/Dispatch).
--   Optimizer       gateway/middleware/response_optimizer.py: `_strip_fields` (Optimizer/Strip),
--                   `_make_skeleton` (Optimizer/Skeleton), `_accepted_codings` (Optimizer/Codings) and
--                   the middleware (Optimizer/Modes and Optimizer/Dispatch).
--   ProxyHttp       gateway/utils/proxy_http.py: `clean_headers`, `build_target` and
--                   `destination_service` (ProxyHttp/Target), `bounded_request` (ProxyHttp/Bounded) and
--                   `discover_upstream` (ProxyHttp/Discovery).
--   ClientIdentity  gateway/utils/client_identity.py: `client_ip`.
--   Cache           gateway/cache/redis_client.py: entries with their two ages, and the locks
--                   (Cache/Locks).
--   Proxy           gateway/routes/proxy.py: forwarded headers and responses, `_handle_get` and
--                   `_refresh_cache` (Proxy/Reads), `_handle_write` (Proxy/Writes) and `proxy`
--                   (Proxy/Route).
--   Queue           gateway/offline_queue/sync_worker.py: `enqueue_write`, and `_handle`, `_deliver`,
--                   `_dead_letter` and `_ack` for one message (Queue/Message and Queue/Worker).
--                   Queue/Loop has `run`, `_tick` and `_sample_depth` over all messages, with the copies
--                   that a worker holds, and Queue/Worker/Resend what such a copy still sends.
--   Auth            gateway/routes/auth.py, and gateway/middleware/auth.py with
--                   gateway/auth/dependencies.py (Auth/Middleware).
--   RateLimit       gateway/middleware/rate_limit.py: `check_rate_limit`, `enforce_rate_limit` and the
--                   middleware.
--   BodyLimit       gateway/middleware/body_limit.py: the middleware over a stream of ASGI messages, and
--                   what the route reads from the body that it replays.
--   Admin           gateway/routes/admin.py, with `generate_api_key` of gateway/auth/security.py.
--   Gateway         gateway/main.py: the middleware around the routes, composed from the body limit to the
--                   optimizer, with the dispatch of gateway/middleware/auth.py.
--   RequestLog      gateway/utils/request_logger.py: the bounded queue and its writer.
--   Config          gateway/config.py: `RouteRule`, `validate_upstream_url` and `get_route_rule`; Settings
--                   with `validate_boundaries` (Config/Settings), and `load_route_rules` with
--                   `reload_route_rules` (Config/Rules).
--   Study           benchmarks/study_measurement.py: `measure_block` (Study/Pool);
--                   benchmarks/study_analysis.py: `load_study` (Study/Observations); and
--                   benchmarks/run_study.py: `schedule` (Study/Rotation).
--   Json            the values of the json module, with objects as fields in the order of the source.
--   Http            the requests, responses and log rows that the components share.
--   Redis           the string commands of Redis as an interface with its documented laws.
--   Prelude         texts as lists of code points, dictionaries as association lists, exceptions as
--                   values, and the interface of floating-point numbers.
--
-- What stands for code that is not the repository's:
--   - Python's float is the record Float of operations, and FloatOrder its laws: the order of the
--     finite values, and subtraction of a nonnegative value. Prelude/Floats has an instance on ℕ
--     with an infinity, on which the witnesses run.
--   - json, yaml, gzip, base64, hashlib, bcrypt, JWT, urlsplit, getaddrinfo, ipaddress and pydantic's
--     validation of a rule are arguments of the definitions that call them.
--   - Redis answers each command, or loses it before or after it took effect (Reply). The detector's
--     transaction runs against a schedule of what other workers write. The string commands, the
--     counters, the stream and the scan of the keys are records of operations with laws, which
--     Redis/table and the tests instantiate.
--   - What an upstream does with a request is a value, an Exchange: a failure, or a response in
--     chunks that may break off.
-- Texts are Python's on the code points below 256 where the source lowers or strips them. Header names
-- are compared in the lower case that Starlette gives them. Content-Length, which Starlette and httpx
-- add, is left out of responses.
--
-- Loops over lists are structural. `_update_state` has the source's bound of four attempts. The path
-- of a dotted field is read by recursion on its characters, and a theorem relates it to the repeated
-- partition of the source. The replay of a message is a list of deliveries of any length, and the loop of
-- the worker a list of rounds of any length. The coroutines of `measure_block` are a step relation, in
-- which a worker runs from one await to the next.
--
-- Not modelled: logging for debugging, counters and histograms without effect on answers; the listing of
-- API keys and the routes that only show the configuration, the queue's depth or the state of the
-- services; CORS and the routing, which are Starlette's and FastAPI's, with the lifespan in
-- gateway/main.py; the declarations of tables and schemas, which SQLAlchemy, Alembic and pydantic run;
-- and the command lines, charts and statistics of the benchmarks, which
-- PROJECT.json lists with the reasons.

pub mod Prelude
pub mod Json
pub mod Http
pub mod Redis
pub mod Config
pub mod ProxyHttp
pub mod ClientIdentity
pub mod Rtt
pub mod Detector
pub mod Optimizer
pub mod Cache
pub mod Queue
pub mod Proxy
pub mod RateLimit
pub mod Auth
pub mod Admin
pub mod RequestLog
pub mod BodyLimit
pub mod Gateway
pub mod Study
