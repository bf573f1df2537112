-- ===== src/Lib.antt =====
-- netframework: a client/server framework in C++. A message is a byte string; coreproto frames it as
-- a packet, `SessionImpl` (server) and `ClientNet` (client) move packets over a TLS stream, and the
-- text format of serialisation.h carries the calls and answers of remote methods.
--
-- Which module is about which file:
--   CoreProto      lib/coreproto.h: createPacket, isPacketStart, isPacketComplete, fetchData
--   Session        lib/netbase.cpp, SessionImpl: processRead, sendData, handleWrite, handleHandshake
--   Net            lib/netbase.cpp, NetBase::Impl: the sessions of a server and their clients; Loop is the
--                  server as io_context::run drives it, over the models of Session and Handlers
--   Stream         the calls of std::istream that serialisation.cpp makes
--   Serialisation  lib/serialisation.h and lib/serialisation.cpp: replaceInString (Replace), nextToken
--                  (Token), the int overloads (Number), the templates and the object helpers (Value)
--   StringLiteral  lib/consthelpers.hpp: the compile-time text of a parameter's type
--   Rpc            lib/rmipacket.h (Packet), lib/retvalserialisation.h, lib/remotecall.h and readData of
--                  lib/handlerbase.h (Call)
--   Log            lib/log.h: the overloads of operator() (Format, Call); lib/log.cpp: writePadded and
--                  filenameSubStr (Padded), the macros and Log::log (Line)
--   Handlers       lib/handlermanager.cpp, lib/netinfo.h: which handler gets a packet; Methods is
--                  lib/handlerbase.h and lib/handlerbase.cpp: REGISTER_RMI3 and handleCall
--   Worker         lib/workerthread.cpp: the queue and the loop of a thread; Reach holds its runs
--   Threaded       lib/threadedclass.h: checkThread, over the model of Worker
--   Server         lib/server.cpp and lib/server.h: ClientConnection; Poll holds the loop of Server::poll
--                  with select, WsaPoll that with WSAPoll, Keeping what the parts of both keep,
--                  Stream, Packets and Sending the bytes of one connection, Runs and Requests the rounds
--   Sockets        lib/client.cpp: Client::connect; lib/server.cpp: init and listen; lib/netutil.h
--   ClientNet      lib/clientnet.cpp: send, and the exchange with a session of the server; Connect is connect
--   Database       dblib/db.cpp: Database; Backend is MySQL of dblib/mysql_backend.cpp, Statement and Column
--                  PreparedStatement
--   Base           names, lists and results that the modules share
-- A module's parent or first files hold the definitions; its other children hold the proofs, and a
-- child named Examples the tests and the theorems applied to data.
--
-- How the model corresponds to the code. Byte strings (std::string, std::vector<char>) are lists of
-- numbers. A function with a reference argument or a member returns the new value. `Result` holds a
-- value, an exception of the standard library, or undefined behaviour (a read outside an object, an
-- overflowing int, or a variable that was never set). The order of bytes in a uint32_t, htonl and ntohl
-- are the parameter `Host` with their documented laws, which the little-endian machine of
-- CoreProto/LittleEndian meets. What the callbacks of a session ask of boost::asio and of the handler
-- manager is a list of actions; a completed read enters by `deliver`, which is what async_read_some does
-- to the array. What a system call (select, recv, send, connect) or the client library of MySQL returns
-- is an argument, with what it writes into a buffer that it was given; the socket numbers of a round of
-- poll with select are those below FD_SETSIZE, 1024. A run of a server is a sequence of steps: of rounds of
-- poll, each with functions of its own for the callbacks, which may keep a state, or of the ends of
-- operations that were started, in any order. The types of the templates are `Shape`, their objects
-- `Value`.
--
-- The virtual method `sendAnswer` is a parameter of what REGISTER_RMI3 registers; `send_answer` is that of
-- HandlerBase. REGISTER_RMI0 to REGISTER_RMI2 call overloads that are not there and are not modelled.
--
-- Loops. `nextToken` recurs on what is left of the stream. The loops of replaceInString and
-- deserializeSequence run on fuel, one unit more than the bytes in hand or two, and theorems show that
-- this is enough (for replaceInString with a search text that is not empty; with an empty one the loop
-- does not end).
--
-- Not modelled: TLS and what boost::asio does between the calls of the handlers, the definitions for
-- _WIN32 but for those of Server::poll and of the time stamp of the log, memory allocation, and what the
-- entries of the components of the manifest name.

pub mod Base
pub mod Stream
pub mod CoreProto
pub mod Serialisation
pub mod Session
pub mod StringLiteral
pub mod Rpc
pub mod Handlers
pub mod Log
pub mod Worker
pub mod Net
pub mod Server
pub mod Sockets
pub mod ClientNet
pub mod Database
pub mod Threaded
