-- ===== src/Lib.antt =====
-- QuickChat: the three C++ servers of a chat program, and its verification server in Python, modelled
-- from their sources under servers/.
--
-- A client talks HTTP to the gate server, which checks verification codes in Redis, keeps its users
-- in MySQL, and asks two services over gRPC: the verification service to send a code, and the status
-- server to pick a chat server and to make a token, which goes into Redis. With these the client
-- connects to a chat server, where frames of an id, a length and a body go through a queue to one
-- worker, and the answers through a bounded queue of each session.
--
-- Prelude holds what the modules share: Boolean tests, lists, association lists for the maps, ℤ over
-- the native numbers, byte strings (`codes "abc"`), and `Outcome`, how a call ends: it returns,
-- waits for ever, throws, or does something undefined; `M S A` is such a call on a state.
--
-- Common, for servers/common:
--   Redis.Server        what src/RedisMgr.cpp uses of hiredis, a parameter
--   Redis.Pool          src/RedisMgr.cpp, class RedisConPool: getConnection is `get_connection`,
--                       checkThread `check_thread`, one round of its thread `tick`
--   Redis.Commands      src/RedisMgr.cpp, class RedisMgr: Get is `get`, and so on; HSet on raw bytes
--                       is `hset_bytes`
--   Mysql.Pool          src/MysqlDao.cpp, class MySqlPool
--   Mysql.Dao           src/MysqlDao.cpp, class MysqlDao: RegUser is `reg_user`, and so on
--   Mysql.Manager       src/MysqlMgr.cpp
--   RpcPool             include/RPConPool.h
--   Singleton           include/Singleton.h: `get_instance`
--   Waiting             the condition variable of these three pools, over an interface that each fills
--   IoPool              src/AsioIOServicePool.cpp
--   Config              src/ConfigMgr.cpp: `cfg[section][key]` is `config_index`
--   ErrorCodes, Defer   include/const.h
--   Text                std::to_string, std::stoi and atoi as the servers call them
-- Gate, for servers/GateServer:
--   Url, Query          src/HttpConnection.cpp: UrlEncode, UrlDecode and PreParseGetParam
--   Http                src/HttpConnection.cpp: Start and HandleReq; Http.Deadline is the timer
--   Logic               src/LogicSystem.cpp: a handler is a function of the parsed request on the
--                       state `Context`, the response and all that stands behind the server
--   Clients             src/VerifyGrpcClient.cpp and src/StatusGrpcClient.cpp
-- Chat, for servers/ChatServer:
--   Frame               src/MsgNode.cpp
--   Session             src/CSession.cpp, the chain of reads: `on_chunk` is what asyncReadLen and the
--                       two handlers do with some bytes of the socket
--   Sender              src/CSession.cpp, Send and HandleWrite
--   Server              src/CServer.cpp and src/UserMgr.cpp
--   Logic               src/LogicSystem.cpp: PostMsgToQue and DealMsg; Logic.Stop is the destructor
--   Delivery            the reads of a session together with the queue
--   Registry            HandleAccept in two halves against the reads of the sessions
-- Status, for servers/StatusServer:
--   Service             src/StatusServiceImpl.cpp
-- Verify, for servers/VerifyServer/verify_server.py:
--   Settings            what it reads of common.ini
--   Service, Serve      GetVerifyCode, and serve up to its wait
-- Together, for the calls of servers/GateServer that servers/StatusServer carries out;
-- Together.Codes for the one that servers/VerifyServer does, and Together.Passwords for requests of
-- the gate server one after the other.
-- Startup, for what the main functions build:
--   Ports               the ports in src/main.cpp of the gate and of the chat server
--   Listen              src/CServer.cpp of both: the accept loops
--   Build               the constructors that read the configuration
--   Mains, StatusMain   src/main.cpp of the gate and of the chat server, and of the status server
--   Shutdown            the end of the processes after a signal
-- The children of these modules hold the proofs, and are named for what they prove. Tests runs the
-- modules at small inputs, over small stand-ins for Redis, MySQL and JsonCpp.
--
-- Integers: a `short` is the ℤ that it stands for, and what goes into one is cut to 16 bits. Sizes
-- and counters are natural numbers that do not wrap: they would need more memory or time than there
-- is. Counts of sessions are ℤ, as they are read from Redis by `stoi`, which refuses what no `int`
-- holds.
--
-- Fuel: the loop of PreParseGetParam runs on one round more than the query has bytes, since each
-- round drops at least one; the worker of the logic system on one round more than there are
-- messages; the digits of a number on fuel above the number. The loops over pools are recursion on
-- their number of rounds.
--
-- Steps: a method that holds its mutex from the first to the last line is one step, and a wait on
-- a condition variable is `blocked` when its predicate does not hold. Four modules let threads
-- interleave: Chat.Registry parts HandleAccept, which starts a session before it takes the mutex;
-- Chat.Logic.Wakeup parts a post, which notifies after it has let go of the mutex, from its
-- notification; Chat.Logic.Stop and Common.Waiting also part a wait into its look at the predicate
-- and its sleep, and a stop, which takes no mutex, into its flag and its notification.
-- In Common.Waiting a round of a keep-alive thread is one step too, and a call of getConnection that
-- sees the flag of a stop only at its second look, one step with the flag. The end of a process takes
-- it that the handlers on the services of the IO pool come to their end.
-- Gate.Http.Deadline interleaves the handlers of a connection with the seconds.
--
-- Not modelled: sockets and threads of asio, and signals but for whether one comes; the prints; the
-- generated code of protos/message.proto; the end of the verification server; and the ids of chat
-- messages in include/const.h, for which no callback is registered.
mod Prelude
pub mod Common
pub mod Gate
pub mod Chat
pub mod Status
pub mod Together
pub mod Startup
pub mod Verify
mod Tests
