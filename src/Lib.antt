-- ===== src/Lib.antt =====
-- fighting-card: a game server and its client, which exchange protobuf messages in framed buffers
-- over TCP (asio). The development models the code of common/, server/ and client/.
--
-- Buffer: common/buffer.h. The array of a buffer is a function from offsets to bytes, a pointer
-- into it is an offset, and a read or write outside it is a fault (`none`). `Layout` has the two
-- template arguments.
-- Message: the protobuf messages that the buffers carry. Protobuf is not part of the repository:
-- a message is a record of `GetTypeName`, `ByteSize` and `SerializeToArray`, and `IsWire` says
-- what is documented of them.
-- UserBuffer: common/user_buffer.cpp, the frames between client and server.
-- PipeBuffer: common/pipe_buffer.cpp, the frames between servers.
-- Channel: common/session.h and common/pipe.h. Each handler returns its new state with what it
-- asks of asio; `World` has the requests under way, and `step` lets one of them happen. The
-- result of the virtual `OnReadBody` is a parameter.
-- Dispatch: common/user_processor.h and common/pipe_processor.h, the tables of message handlers;
-- protobuf's reflection, parsing and casts are parameters.
-- Timer: common/asio_timer.h, with the waits that asio has and the handlers that are on their way.
-- Client: client/, the clients of a user, their connection, the pings, the login and its response;
-- Client.Answers joins the server's answer and the client's handler.
-- ClientMain: client/main.cpp, the loop over the users; an `int` is kept as its 32 bits.
-- ConsistentMap: common/consistent_map.h, a `std::map` as the sorted list of its entries.
-- IoServicePool: common/io_service_pool.cpp, the choice of a service for a connection.
-- Config: server/server_config.cpp and client/client_config.cpp; the XML reader is a parameter.
-- Start: server/main.cpp, the arguments and the start up to the second `try` block.
-- HashCode: common/utility.h, `HashCode`.
-- MurmurHash: common/utility.cpp, `MurmurHash64` and `Hash`, over the bytes of the key.
-- HttpRequest: common/http_request.cpp, `PostJson`; libcurl is a parameter.
-- HourlyFileSink: common/hourly_file_sink.h, the rotation of the log files and their names.
-- Log: common/log.cpp, the logger and where its messages go.
-- Daemon: common/daemon.h, the process that goes on and its open files; the system calls are
-- parameters.
-- Acceptor: common/server.h and server/gameserver.cpp, the accept loop.
-- Server: server/, the tables of the logic thread: `UserManager`, `UserSessionManager` and the
-- session objects, with the tasks that are posted to that thread; Server.Session has what the
-- network thread does with a frame, Server.Registry what the tables are for, and
-- Server.Ownership the references to a session.
-- Threads: common/logic_io.cpp and common/master_io.cpp, the two threads that have a service of
-- their own.
-- GameProcess: server/main.cpp and server/timer_manager.cpp while the server runs: the steps of
-- `main`, which may throw until its joins, and what the logic thread, the master thread and the
-- network threads do, as events in any order, over Acceptor, Server, Server.Session, Timer and Threads.
-- Conversation: a login from the client's request to its handling of the answer, over the parts
-- above.
--
-- Pointers of C++ that are not set have a value of their own (`indeterminate`). Casts to a
-- narrower type and unsigned subtraction are written out with their wrap-around. Loops are
-- structural recursion, but for the loop over the users in ClientMain: it runs on fuel, of which
-- one more than there are uids is enough.
--
-- Not modelled: asio, protobuf, spdlog, pugixml and libcurl, which are not in the repository, and
-- what only calls them: socket options, the creation of threads, the formatting of messages.
pub mod Base
pub mod Buffer
pub mod Message
pub mod UserBuffer
pub mod PipeBuffer
pub mod Channel
pub mod Dispatch
pub mod Server
pub mod Timer
pub mod Client
pub mod ConsistentMap
pub mod IoServicePool
pub mod Config
pub mod Start
pub mod Acceptor
pub mod ClientMain
pub mod Conversation
pub mod HashCode
pub mod MurmurHash
pub mod HourlyFileSink
pub mod HttpRequest
pub mod Daemon
pub mod Log
pub mod Threads
pub mod GameProcess
