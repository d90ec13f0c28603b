-- ===== src/Lib.antt =====
-- Verification of the game panel's back end: what the panel's process does with agents, users and
-- messages, as functions over explicit state, and the theorems about them.
--
-- The program. Agents (internal/agent_client) hold one websocket connection each to the panel
-- (internal/agent_manager). The panel's service sends commands through the Hub, the connection's
-- handler reads what the agent answers, and callbacks report acknowledgements, lines, results and
-- losses. Users log in over internal/service/auth, which keeps its state in Redis (internal/repository
-- /cache, internal/platform) and in a table of users (internal/repository/user), and sends codes with
-- internal/service/sms. Logged-in users keep servers, clusters and tasks over internal/service/server,
-- dst and task, in tables of the same database; a new server gets a task that asks for its agent, and
-- a deleted one loses its connection. internal/handler, middleware and router put HTTP in front.
--
-- The files.
--   AgentManager/Hub       internal/agent_manager/hub.go: `Hub`, `agentConn` and each method. An
--                          `agentConn` is shared between threads, so it has an address, the index in
--                          `agents`, and `conns` maps a server to an address. A method is the
--                          composition of its sections under a mutex.
--   AgentManager/Hub/System  the interleavings: a schedule is any list of those sections, also in
--                          orders that no program makes, so what holds for all schedules holds for
--                          the program. The interruption callback runs behind the section of
--                          closeAgent, and is counted with it.
--   AgentManager/Service   internal/agent_manager/service.go; Service/Reports has sequences of calls.
--   AgentManager/Handler   ServeWS and readLoop of internal/agent_manager/handler.go.
--   AgentManager/Auth      internal/agent_manager/auth.go, and parseBearerToken.
--   AgentClient/Executor   internal/agent_client/executor.go; AgentClient/Identity is identity.go.
--   AgentClient/Client     the messages of internal/agent_client/client.go: each write is answered by
--                          a function of the number of writes before it, so that any may fail.
--   AgentClient/Connection `Start` and connectAndServe of that file, over a network that says what
--                          each dial meets; AgentClient/Command is cmd/agent/main.go.
--   Protocol               internal/protocol/message.go.
--   Platform/Jwt, Captcha, Limiter, Crypto, Password  jwt.go, redis_store.go with captcha.go,
--                          limiter.go, crypto/aes.go and password.go below internal/platform.
--   Platform/Logger, Drivers, SmsClient  internal/platform/logger, database and sms, with
--                          redis/redis.go; Platform/Machine is what the start of a process meets.
--   Settings               internal/config/config.go.
--   Bootstrap              internal/bootstrap and cmd/server/main.go; Bootstrap/Wiring is what `Run`
--                          puts together of the settings.
--   Repository/Cache       auth_cache.go, sms_cache.go and sms_limit.go of internal/repository/cache,
--                          the Lua scripts written out.
--   Repository/Table, Repository/Database  what stands for gorm, with internal/model/entity.
--   Repository/User, Server, Dst, Task  the repository.go files of those names below
--                          internal/repository; Repository/Rows has what they share.
--   Repository/Transaction  transaction.go: which handle of the database a call of a repository gets.
--   Service/Auth, Captcha, Sms, Server, Dst, Task  the service.go files below internal/service;
--                          Service/World is the state that a request works on.
--   Service/Panel          the requests of logged-in users to the last three. Panel/Closed says which
--                          changes of the rows a user's requests can make, and Panel/Preservation
--                          goes from there through the operations of the services.
--   Http                   internal/result, internal/handler/v1 (Users is auth/handler.go),
--                          internal/middleware and internal/router: a handler is a function of the
--                          request and the world, and a middleware a function of the handler behind.
--                          Http/Validation has the binding tags of internal/model/request.
--   Apperr, Act            errors as values, and steps that read and change a state and may fail.
--   Base, Strings          shared lists, maps, numbers, and Go's TrimSpace and prefix functions.
--   Tests                  concrete instances of the parameters, and runs; Tests/RaceRuns interleaves
--                          two requests.
--
-- Parameters. Redis (Platform/Redis), the database (Repository/Table, Repository/Database), the JWT
-- package, bcrypt, AES-GCM, the picture package, the parser of addresses, uuid, random numbers, Aliyun's
-- package, viper, JSON, the drivers, the network, the file system and the operating system's processes
-- are not part of the repository. They are
-- arguments, with their documented behaviour as named laws. A call of Redis may fail before or behind
-- its effect.
--
-- Bounds. Instants and lifetimes are in milliseconds, and a request runs at one instant. Loops are
-- structural; the decimal text of a number runs on fuel n + 1, which is enough since n / 10 < n. The
-- id in a path is read below 2 ^ 63, as ParseUint is told. The loops of `Start` and of the
-- heartbeat run on fuel, one for a dial or a ping: one more than the time until the cancellation,
-- with the slack in which a dial is given up and a ping is written, is enough, since each round waits.
-- Ids and versions are uint64 in the source: ids are only compared, and a version is raised in SQL.
--
-- Not modelled: gin's own work, which is the decoding of requests and the matching of paths, and
-- scripts/dst.sh. Requests run one after the other: in the program two that run at once can
-- interleave between statements.
-- The messages of wrapped errors are kept where the program answers or compares them; of the log lines
-- there are those of the middleware, of gorm's logger and of the callbacks.
pub mod Base
pub mod Strings
pub mod Apperr
pub mod Act
pub mod Settings
pub mod Bootstrap
pub mod Platform
pub mod Repository
pub mod Service
pub mod Protocol
pub mod AgentManager
pub mod AgentClient
pub mod Http
pub mod Tests
