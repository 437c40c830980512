-- ===== src/Lib.antt =====
-- A library for network servers: byte buffers, sockets with their message queues, a network service
-- and a web socket server on top of them, and the codecs that they use.
--
-- The parts, from the bottom up, and the files of the repository that they come from:
--
-- - Base64 (src/base64/base64.cpp): `base64_encode`, `base64_decode`, used by the web socket's handshake.
--   The loops are recursions on the bytes that are left. A length is meant to fit its 32-bit type.
-- - ByteBuffer (src/tools/ByteBuffer.cpp, deps/bundle-0.01/include/tools/ByteBuffer.h): a block of
--   memory with a read and a write position. Positions are a `size_t`, written out modulo 2 ^ 64. An
--   assertion that fails, and a copy outside of the block, is `none`.
-- - Socketmessage (src/socket/Helper.h and Helper.cpp): the messages that the sockets hand on.
-- - Socket (src/socket/Socket.h and Socket.cpp): one connection. `sendMessage()` is `flush`, and
--   `receiveMessage` is `receive_loop`. The kernel is a list of results, one for each call of `send` or
--   `recv`; each round of a loop takes one of them, so the list is also the bound on the rounds. A list
--   that ends too early gives `none`; the theorems ask for a list that is long enough, or show it.
--   The splitter, which cuts messages from the stream, is a parameter, as it is in the code.
-- - Worker (src/socket/WorkerProcess.h and WorkerProcess.cpp): the thread that owns a table of sockets. It
--   handles the messages that the server sends it (`handle_message`) and closes sockets that are silent or
--   send too much (`check_socket`); the events of the poll (src/socket/Poll.cpp) make it read, accept and
--   write (`occur`). What the kernel does is an argument, and `watches` says which
--   descriptors epoll takes (a refusal is ignored by `newSocket`). One event reads at most as many messages as the
--   event says; a bound that is too small gives `none`, and one more than the messages is enough (Stream). `stop` and the thread are not modelled.
-- - Server (src/socket/SocketServer.cpp): hands new connections, messages and closings to the workers. It
--   sees of a worker the queue that it pushes to. Threads are not modelled: the queue is what a worker
--   finds when it runs.
-- - Client (src/socket/SocketClient.cpp): a client's connection, and the thread that connects again, with an
--   attempt for each of its rounds. What it sends goes to the queue of a worker, as in Server.
-- - Net (src/net/NetworkService.cpp, deps/bundle-0.01/include/net/Netmessage.h): the wire format of the
--   network service, its splitter, an instance of Socket's, and the loop of `update` over its tasks.
--   Queue and Routes are the service over zmq (src/net/MessageQueueService.cpp and MessageQueueClient.cpp), with
--   what zmq returns as an argument.
-- - WebSocket (src/socket/WebSocketServer.cpp): the frames of a web socket, the splitter, the packages
--   that the server writes, the request of a handshake (Request, Lines, Upgrade), its answer (Handshake), for
--   which the digest is a parameter, and `receiveMessage` (Receiving). The machine is little-endian.
-- - HttpParser (src/tools/HttpParser.cpp): the head of an HTTP request.
-- - Registry (src/tools/Registry.cpp): a table of strings under typed values. `float` and `double` are not modelled.
-- - Entity (src/entity/Entity.cpp, deps/bundle-0.01/include/entity/Entity.h): named values with their types and
--   marks. The parser of JSON is an argument, and so are floating point numbers and their text.
-- - Record (protocol/recordserver.h, server/recordserver/src/RecordProcess.cpp, RecordProcessManager.cpp and
--   RecordService.cpp, src/recordclient/RecordClient.cpp, `update` of src/net/NetworkClient.cpp): the record server, which
--   keeps entities in MySQL, and its client. The messages are lists of bytes (Record); the types of columns (Columns); the
--   statements (Store, Saving, Loading, Altering); a slot with its cache and queues (Slot), in every interleaving of its two
--   threads (Schedule); the way to the slot of an object (Server); the client (Client). MySQL, the parser of JSON and the
--   texts of floating point numbers are parameters (Outside). What a request with data says about its length is compared
--   with the length field only, as in the code. A message that ends before a field gives a shorter field.
-- - Cgi (src/socket/CgiServer.cpp, `hashString` and `url_decode` of src/tools/Tools.cpp): a server of the FastCGI protocol.
--   The header of a package and `readParams`, on as much fuel as the package has bytes, of which each round takes one
--   at least (Cgi); a request (Requests); the table of the requests (Serving); `send` (Response). curl_easy_unescape is
--   a parameter, an unordered_map is a list in the order of its iteration, and memory that the code sends without having
--   written it is a parameter as well.
-- - Time (src/time/Time.cpp, deps/bundle-0.01/include/time/Time.h and Timer.h): times, and the timer over the
--   readings of the clock.
-- - Tools (src/tools/Tools.cpp): the splitting of strings into strings (Split) and numbers (Numbers), the test for
--   UTF-8 (Utf8, with the encoding in Encoded), encryption by blocks (Blocks, Padding) with the cipher as a
--   parameter, endpoints (Endpoint), random strings (Random) with the generator's results as an argument, and the
--   callback of `decode_jscode` (Jscode) with the parser of JSON as a parameter. The rest of that file is calls
--   of the operating system, curl and openssl.
-- - Tables: the maps of the C++ library as lists of pairs, with an interface for the keys.
-- - Clib: what the parts use of the C library's functions on text and numbers. Twenty digits are enough for a
--   number of 64 bits.
-- - Prelude: lists over the native numbers, Boolean tests, and the lemmas that the parts share.
--
-- Memory that nobody has written reads as zeros. The serialisation of protobuf messages is an argument.
-- Not modelled: the operating system's calls themselves (epoll, connect, signals), threads and locks,
-- the log, the configuration, setCookie of the FastCGI server, the start and the end of the record server, the wrappers of MySQL, zmq, libevent and rapidxml, and vendored code.
pub mod Prelude
pub mod Cgi
pub mod Record
pub mod Tables
pub mod Clib
pub mod Registry
pub mod Client
pub mod Entity
pub mod Time
pub mod Tools
pub mod Base64
pub mod ByteBuffer
pub mod Socketmessage
pub mod Socket
pub mod Net
pub mod WebSocket
pub mod HttpParser
pub mod Worker
pub mod Server
