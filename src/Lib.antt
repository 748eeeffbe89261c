-- ===== src/Lib.antt =====
-- Smart Media: a server that organises media files from cloud drives, and this library verifies the
-- parts of it that keep state of their own. All paths are from the repository's root.
--
-- The program. A FastAPI application (app/main.py) passes requests through a rate limiter
-- (app/core/rate_limiter.py), the authentication and the CSRF check (app/core/auth_middleware.py,
-- csrf_middleware.py) and a login (app/services/auth_service.py). File operations are confined to
-- allowed directories (app/core/path_security.py), and a scheduler runs tasks by the clock
-- (app/services/platform/task_scheduler.py). Long work is stored as rows
-- of a task table (app/services/platform/task_queue.py), which worker processes
-- (task_worker.py, task_runner.py) lease, run and give back. Results of remote services go through
-- caches: an LRU cache (app/core/lru_cache.py) and on top of it a manager with one cache for each of
-- ten namespaces (app/core/cache_manager.py); a cache of several levels, memory over disk
-- (app/services/tiered_cache.py), and a cache of links (link_cache.py). A playback request is delivered
-- directly or by proxy
-- (app/services/playback_decision_service.py), with the health of routes
-- (playback_route_health_service.py) and a cache of first segments (first_segment_cache_service.py).
-- Services are built and kept by a container (app/core/service_container.py), background tasks run from a
-- queue (app/services/cron_service.py), and URLs of remote services are tested (app/core/url_validator.py).
-- Messages go to channels by rules (app/services/notification_service.py), and found resources are scored
-- (app/services/scoring).
-- Writes may go through a queue by priority (app/core/db_write_queue.py).
-- Scraped files follow a workflow (app/services/media/scrape_state_machine.py).
--
-- The files:
--   Base, Base/*      names passed on, Boolean tests, lists over the native numbers, `seconds`
--   Dict, Dict/*      Python's dict with string keys, as a list of entries in insertion order
--   Tasks/Model       the task row, its statuses and the sets of statuses (app/models/task.py)
--   Tasks/Table       the table as a list of rows; Tasks/Queue `TaskService`, a function per method;
--                     a claim is split into its query and its update, which other transactions may
--                     come between; Tasks/Worker the worker's and the runner's writes
--   Tasks/Runner      `run_task` with its pauses, on the row of the task; Outcome the theorems on it
--   Tasks/Claim, Attempts, Recovery, Terminal   the theorems on claims, on rows over all runs of the
--                     transactions, and on failures, expired leases and cancellation
--   Lru/Cache, MultiLevel   `LRUCache`, `CachedFunction`, `MultiLevelLRUCache`
--   Lru/Invariant, Lookup, Recency, Cleanup   the theorems on them
--   RateLimit/Client, Limiter, Route   `RateLimiter`: who a request counts for, the sliding window,
--                     and the middleware; RateLimit/Bounds, Cleanup the theorems
--   Scrape/Machine, Graph   `ScrapeStateMachine` and its graph
--   Playback/*        `PlaybackRouteHealthService` (Health, Sticky), `PlaybackDecisionService`
--                     (Decision, Delivery), `FirstSegmentCacheService` (Segment)
--   Login/Account, Lockout   `authenticate_user` and the lock methods of app/models/user.py
--   Login/Register    `create_user`, `change_password` and `init_default_admin`
--   Manager/Space, Namespaces   `NamespacedCache` and `CacheManager`, over Lru; Manager/Decimal the
--                     printed version in a key; Manager/Reach, Cascade the theorems
--   WriteQueue/Queue, Execute  `AsyncWriteQueue` of app/core/db_write_queue.py: the queue, and the worker's
--                     writes; Order, Merge, Waiting, Account and Lost the
--                     theorems
--   Text/Split, Strip   `split`, `join` and `rstrip` of Python for one character, with their laws
--   PathSecurity/Posix  `os.path.abspath` and `dirname`; Inside the test whether a path lies in a
--                     directory; Validate `validate_file_path`; Actions the file operations of
--                     app/core/path_security.py as lists of effects
--   AuthGate/Contract, Proxy, Gate, Csrf   app/core/auth_contract.py, emby_proxy_request.py,
--                     auth_middleware.py and csrf_middleware.py, with the chain of the two
--                     middlewares (app/config/middleware.py); Entry and Forged the theorems
--   Tiered/Level      one level of a cache, and what it promises; Tiered/Cache and Warmup `TieredCache` of
--                     app/services/tiered_cache.py over any levels; Refine, Runs, Revival the theorems;
--                     Disk, DiskBulk, DiskLevel, DiskWarm `DiskCache` (app/services/disk_cache.py) and Memory
--                     `MemoryCache` (app/services/cache_service.py) as levels
--   Scheduler/Calendar  months and days; Scheduler/Model `Task` and `TaskScheduler` of
--                     app/services/platform/task_scheduler.py; Due and Ticks the theorems
--   LinkCache/Links   `LinkCacheLegacy` of app/services/link_cache.py; Bound and Runs the theorems
--   Container/Registry, Startup   `ServiceContainer` of app/core/service_container.py, its look-up and the
--                     start and stop of services; Resolve, Order, Same and Lifecycle the theorems
--   Cron/Service      `CronService` of app/services/cron_service.py; Coherent, Once, Drain and Stuck
--                     the theorems
--   UrlGuard/Address, Validator   `URLValidator` of app/core/url_validator.py; Private and Accepted the
--                     theorems
--   Scoring/Quality   `QualityCalculator` of app/services/scoring/quality.py; Monotone the theorem
--   Notify/Service    `NotificationService` of app/services/notification_service.py, `update_channel` of
--                     app/api/notification.py; Sent and Telegram the theorems
--   Manager/Bulk      the bulk operations of the manager and its legacy adapter
--   */Tests           runs on concrete input
--
-- How the code is read. State is passed explicitly; an operation returns the new state and its
-- answer. Times are natural numbers of microseconds, and the time that an operation reads from the
-- clock is an argument; an operation that reads the clock twice is given one time. Each operation is one
-- step, as the locks and the database transactions make it; a scheduled run has two, before and after its
-- handler, the stop of the cron service does not hold up the end of the task that it waits for nor other
-- calls, and the writes of the tiered cache wait in its queue until the worker's step. Two loops are not
-- structural: the printing of a number has the number itself as fuel, as each round divides it by ten;
-- the search for the month of a day has a round for each 28 days, as no month is shorter.
-- Text operations of Python (strip, lower, urlparse, fnmatch), the digest and the decoding of a token,
-- the password check, json and pickle, and the answers of the operating system about paths are parameters.
-- The interval of a scheduled task is not negative. A None that is stored in a cache is not told from a missing key, as in `get`
-- of the code.
--
-- Not modelled: HTTP handlers but the update of a notification channel, the web front end, remote services, Redis, logging and metrics,
-- tokens and password hashes, the loop of the task worker, the threads and callbacks of the write queue,
-- the loops of the cache manager, jobs that are handed to APScheduler, reports that only read (get_stats,
-- get_client_status, get_tasks), and the JSON columns of a task.
pub mod Base
pub mod Dict
pub mod Tasks
pub mod Lru
pub mod RateLimit
pub mod Scrape
pub mod Playback
pub mod Login
pub mod Manager
pub mod WriteQueue
pub mod Text
pub mod PathSecurity
pub mod AuthGate
pub mod Tiered
pub mod Scheduler
pub mod LinkCache
pub mod Container
pub mod Cron
pub mod UrlGuard
pub mod Notify
pub mod Scoring
