-- ===== src/Lib.antt =====
-- Verification of the multiplayer game server.
--
-- A client's bytes go through four parts. server/src/Server.cpp runs one session per connection:
-- it registers the connection (server/src/ConnectionManager.cpp), reads frames from the socket
-- (server/src/MessageFramer.cpp), hands each payload to the request handler
-- (server/src/RequestHandler.cpp) and writes the answer back. The request handler works on the game
-- (server/src/GameState.cpp), counts in the metrics registry (server/src/Metrics.cpp) and, if they
-- are set, mirrors changes to a cache (server/src/CacheManager.cpp, over
-- server/src/RedisClient.cpp) and a database (server/src/DatabaseManager.cpp). A pool of threads
-- (server/src/ThreadPool.cpp) runs the sessions.
--
--   GameState           the game: players, match, combat, event log; a method takes the object and
--                       gives its result and the object after the call
--   MessageFramer       encode and decode; MessageFramer.Stream has readExact and writeAll
--   ConnectionManager   the registry of connections
--   Server              handleClient and dispatch, over a socket and a request handler
--   Server.Accept       the accept loop and the pool
--   Server.Lifecycle    the sockets of run, stop and the destructor (Listener has the calls)
--   Arguments           the configuration, and its arguments (server/src/main.cpp)
--   Metrics             the counters and the latency histogram; Metrics.Prometheus has the text
--   ThreadPool          the workers, their queue and the stop, as events of any threads
--   HttpMetricsServer   the answers to HTTP clients (server/src/HttpMetricsServer.cpp)
--   CacheManager        sessions and positions in Redis, over what it calls of a connection; Wire
--                       fills that with RedisClient
--   RedisClient         one connection to Redis: the encoding of commands, and the commands and
--                       their replies (Commands)
--   RedisPool           which connection to Redis is in the pool, and which is leased
--   DatabaseManager     the connection to MySQL, the prepared statements (Statements, Records), the
--                       schema file (Schema), and the part the request handler uses (Requests)
--   MetricsCollector    the measurements of the simulator, and their summary
--   PlayerBot           a bot of the simulator (simulator/src/PlayerBot.cpp): PlayerBot.Conversation
--                       puts a bot and a session of the server at the ends of one connection
--   Simulator           the threads of bots, the report and the exit status, and the arguments
--                       (Settings) of simulator/src/Simulator.cpp and simulator/src/main.cpp
--   Logger              the log, and its reading by lines (server/src/Logger.cpp)
--   Options             the loop over the arguments that both programs have
--   RequestHandler      handle (Dispatch), the handlers of the actions (Actions, Play), the
--                       validation helpers (World), the JSON forms (Render); Mirrors compares two
--                       servers that differ in their stores
--   Socket, Network,    interfaces: what the code uses of POSIX sockets, of nlohmann::json, of
--   Json, MySql,        the MySQL client library and of the two stores, with the laws that it relies
--   Backends            on
--   Common              lists, 32-bit int, bits, texts, numbers in texts, actions, and maps as
--                       association lists
--   Examples            the theorems at concrete inputs
--
-- A C++ function keeps its name, in snake case. An `int` is an integer that int_add, int_sub and
-- wrap_int bring back to 32 bits; a uint64_t is a natural number modulo 2^64; a byte is a number
-- below 256.
--
-- Threads: what several threads do is a sequence of steps, and the theorems on `run` are about all
-- such sequences. A step is a critical section, or an access of an atomic outside the lock, in
-- ThreadPool (where the workers also sleep, are woken, and have a handler that runs for as long as it
-- does), in Logger (the test of the level, the writing of the line) and in GameState (the id of an
-- event, its place in the log). In ConnectionManager, Metrics and RedisPool a method is one step, also
-- where it is several in the code: `registerConnection` takes its id before the lock and counts after
-- it, `recordRequestLatency` adds to several counters, `acquire` makes a new connection after its
-- lock. A request is handled as one step: requests whose calls interleave are not modelled. Clock
-- readings and latencies are arguments, in nanoseconds.
--
-- Fuel: the loops of readExact and writeAll move at least one byte a round, so they get as many
-- rounds as there are bytes. The session loop has a bound as an argument; one round more than there
-- are bytes to read is enough. So has the loop of readLine of the Redis client, which takes a byte
-- a round.
--
-- Not modelled: what the parts log, signals, the library of MySQL and the servers of Redis and MySQL,
-- and the rounding of `double`.
pub mod Common
pub mod GameState
pub mod Simulator
pub mod Socket
pub mod MessageFramer
pub mod ConnectionManager
pub mod Server
pub mod Metrics
pub mod MetricsCollector
pub mod MySql
pub mod DatabaseManager
pub mod Json
pub mod Backends
pub mod RequestHandler
pub mod CacheManager
pub mod RedisPool
pub mod Network
pub mod Options
pub mod PlayerBot
pub mod RedisClient
pub mod ThreadPool
pub mod HttpMetricsServer
pub mod Listener
pub mod Arguments
pub mod Logger
mod Examples
