-- ===== src/Lib.antt =====
-- rinha: a small bank over HTTP. Five customers have a limit and a balance; a client posts a
-- transaction (`POST /clientes/N/transacoes`) or asks for the extract (`GET /clientes/N/extrato`).
-- A customer, with the ten latest transactions, is one row of a MariaDB table: its bytes and a
-- version. Two server processes read and write the rows over HandlerSocket; a write only replaces
-- the row that still has the version that was read. A router passes the TCP connections of the
-- clients on to the Unix sockets of the two servers.
--
-- The parts, from the start of a server to a response:
--   Server            rinha/main.cc                 the sockets, the filling of the table, and
--                                                   the threads (Server.Launch,
--                                                   Server.Threads)
--   IoThreadPool      rinha/io_thread_pool.cc       the event loop of a thread, its buffers
--   RequestProcessor  rinha/request_processor.cc    a buffer to its response, and the writes
--   FromHttp          rinha/from_http.cc            the text of a request to its fields
--   RequestHandler    rinha/request_handler.cc      a request to its result
--   Time              rinha/time.cc                 the time of the extract, kept by each thread
--   ToJson            rinha/to_json.cc              the extract
--   MariaDatabase     rinha/maria_database.cc       the transaction loop, the balance, the filling
--                                                   (MariaDatabase.Setup)
--   HandlerSocket     rinha/handler_socket.cc       a row is read and written
--   Structs           rinha/structs.h               the records
--   Customers                                       the ring of transactions inside a customer
--   Router            rinha/thread_pool_router.cc   the proxy: its arrays (Router), its handlers
--                                                   (Router.Loop), and without the arrays
--                                                   (Router.Proxy); its event loop on clients that
--                                                   come and go (Router.Arrivals,
--                                                   Router.Visits) and on their
--                                                   messages (Router.Serving)
--   ThreadPool        rinha/thread_pool.cc and rinha/thread_pool_200.cc, the queue of tasks and
--                                                   its workers (ThreadPool.Workers)
--   SharedLock        rinha/shared_lock.cc          mutexes that processes share; no part calls it
--   Epoll             rinha/epoll.cc                a minimal server for measurements
-- Functions and fields keep the source's names in lower case with underscores; a loop of a function
-- is a function of its own (`execute_loop` is the `while` of `MariaDbExecuteTransaction`), and a
-- long function is cut where it decides (`parse_json_body`, `parse_tipo`, `parse_description`).
--
-- Code that stands elsewhere is a parameter: Abseil (Absl), the system calls (Os), the HandlerSocket
-- library (HandlerSocket.Interface), MySQL (MariaDatabase.Mysql), the clock (Time.Clock), shared memory
-- (SharedLock.Shm) and the image of a `Customer` in memory (Layout). What the program relies on is a
-- record of laws beside it: Absl.Laws, HandlerSocket.Server, MariaDatabase.Contended, RequestProcessor.Sending.Sink,
-- Os.Source, MariaDatabase.Setup.Filling.Database, HandlerSocket.Opening.Opens,
-- IoThreadPool.Buffers.Bounded, Router.Opening.Grants,
-- Router.Arrivals.Backlog and SharedLock.Naming.Named. The modules under Tests instantiate each
-- of them with a concrete function.
-- HandlerSocket.Server is a table that only the caller changes; MariaDatabase.Contended is the row of
-- one customer, on which other processes store transactions before each request is served, by the rule
-- of the bank (MariaDatabase.Ledger); MariaDatabase.History is what such a row goes through.
--
-- A call is a function on its world with an optional result (Prelude.Stateful). `none` is a fault
-- (a read or write outside an array), a stopped process (a failed `CHECK`, `abort`, `exit`), a lock
-- that is held, or fuel that is used up. The build has NDEBUG, so `DCHECK` and `DLOG` do nothing.
-- An `int` wraps around (`add_int`), a `size_t` is taken modulo 2 ^ 64, and an array is a list of
-- bytes that is read and written with its bounds checked. A variable that the source declares
-- without a value is an argument (`unset`, `fresh`).
--
-- Fuel: a loop over rows ends at the first missing row, so two rounds are enough for one row; the
-- transaction loop needs one round more than other processes have transactions for the row; the loop
-- that connects needs one round more than the server refuses connections; the write loop needs the
-- length of the response, since every round sends a byte or ends; the read loops need one round more
-- than their buffers have bytes; a worker of the pool needs one round more than there are tasks.
-- The copying and parsing loops count their rounds and need no fuel.
--
-- Concurrency: other processes act on the row of a customer between any two calls of a transaction
-- (MariaDatabase.Contended); the workers of a pool and the threads that add tasks take their steps in
-- any order (ThreadPool.Workers), where a block under the lock is one step and the work on a task is one.
-- The arrays of the router are seen as clients in pairs with connections and two queues of free ones
-- (Router.Represents), where a client that comes or goes is one step. The threads at one of the
-- queues take their atomic steps in any order (Router.Tickets): the counting is one, and the access
-- to the place that was counted another.
-- The threads of a server start while `main` makes others, and take the ids of their connections from one
-- counter in atomic steps, in any order (Server.Launch). What a single thread then does (Server.Threads) is
-- a function of the two ids that it got; the MariaDB and the HandlerSocket connections are two worlds
-- there, since the start of a thread only opens connections.
--
-- Not modelled: the text of the logs; flags and signal handling; rinha/router.cc (reads a flag and
-- sleeps); two threads of the router that write its maps at the same moment; libhsclient and rinha/test_hslongrun.cc, which are the HandlerSocket
-- project's.
pub mod Prelude
pub mod Structs
pub mod Absl
pub mod Os
pub mod Customers
pub mod FromHttp
pub mod ToJson
pub mod Time
pub mod HandlerSocket
pub mod MariaDatabase
pub mod RequestHandler
pub mod RequestProcessor
pub mod ThreadPool
pub mod IoThreadPool
pub mod Server
pub mod Epoll
pub mod Router
pub mod SharedLock
pub mod Tests
