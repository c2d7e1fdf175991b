-- ===== src/Lib.antt =====
-- A network library in the reactor style: an event loop waits for the kernel, calls the channels
-- that are ready, and these call connections, timers and the user. Around it stand an HTTP parser and
-- a log.
--
-- A channel (src/net/Channel.cpp) keeps the events that its owner wants for one descriptor and tells
-- the poller (src/net/poller/EpollPoller.cpp) of every change. The poller reports the ready channels
-- to the loop, which calls them. A connection (src/net/TcpConnection.cpp) owns a channel and two
-- buffers (src/net/Buffer.hpp, src/net/Buffer.cpp): what the kernel does not take at once waits in the
-- output buffer until the channel is writable. A timer queue (src/timer/TimerQueue.cpp) owns a channel
-- on a kernel timer. The HTTP parser (src/http/HttpContext.cpp) reads lines from a connection's input
-- buffer, and the server (src/http/HttpServer.cpp) answers. The TCP server (src/net/TcpServer.cpp) names
-- each accepted connection, gives it to a loop of the pool, and forgets it when it is closed. Log files
-- (src/log/) collect lines in fixed buffers.
--
-- Which file models which part:
--
-- Base: lists measured by native numbers, Boolean tests, byte strings, `size_t` sums and
--   differences modulo 2 ^ 64, `std::find`, the decimal print of a number.
-- Buffer: src/net/Buffer.hpp and src/net/Buffer.cpp. The storage is a list of bytes with two
--   indices; every operation of the class is a function on that record.
-- Channel: src/net/Channel.hpp and src/net/Channel.cpp. A record of masks and of which callbacks
--   are set; `handle_event` lists the callbacks in the order of the calls.
-- Connection: src/net/TcpConnection.hpp and src/net/TcpConnection.cpp. An operation returns the new
--   connection and its effects in order: bytes given to `write`, calls of the poller, functors given
--   to the loop, callbacks of the user. What `write` and `readv` answer is an argument.
--   Connection/Dispatch is an event of its channel, which may call several of them.
-- Poller: src/net/poller/. Channels live in a store, the poller points at them, and the interest
--   list of the kernel is the interface `Epoll` of Poller/Kernel, with the documented behaviour of
--   `epoll_ctl` as laws.
-- Clock: src/base/Timestamp.hpp. Times are natural numbers of microseconds.
-- Timers: src/timer/. The `std::set` is the sorted list of its entries; timers live in a store.
-- Http/Request, Http/Context: src/http/HttpRequest.hpp, src/http/HttpContext.hpp and
--   src/http/HttpContext.cpp. A round of the parser's loop is a function; the loop runs on fuel.
-- Log/FixedBuffer, Log/File, Log/Roll: src/log/FixedBuffer.hpp, src/log/LogStream.cpp, and the
--   `write` and `rollFile` of src/log/AsyncLogFile.cpp.
-- Log/Files: the files that src/log/AsyncLogFile.cpp names and appends to, on a disk that has a text
--   for each name; the text that the fmt library makes of the seconds is a parameter.
-- Sockets: src/net/Socket.cpp. The system calls are the interface `Kernel`; a failure is a line of
--   the log.
-- Connection/Deliver: a read event with the message callback of its user; Http/Answering: the HTTP
--   server as this user, from the bytes of requests to the bytes of responses.
-- Echo: example/example_echoServer.cpp, the server that sends back what arrives, on top of Connection
--   and Server. A read event is followed at once by the message callback that it calls.
-- Reactor: src/net/EventLoop.cpp put together with the poller, the connections and the timers. A
--   connection's channel lives in the poller's store; `handle` is an event of an active channel, `Step`
--   is one step of the loop's thread, of the user's code in it, or of another thread.
-- Log/Logger: src/log/Logger.hpp. The fmt library is the parameter `format`; a stream is an interface,
--   which Log/Logger/Streams fills for the console and for the log file.
-- Log/Async: the buffer exchange of src/log/AsyncLogFile.cpp. Callers and the thread take steps in any
--   order; `none` stands for the use of a null pointer or of an empty vector.
-- Http/Response, Http/Server: src/http/HttpResponse.hpp, src/http/HttpResponse.cpp and
--   src/http/HttpServer.cpp. The header table of a response is written in the order of its list, which
--   stands for the order that the hash table has.
-- Http/Context/Text, Http/Context/Chunks: a reference parser on the bytes alone, and requests that
--   arrive in parts. Http/Split: what the server makes of them. Http/Serving: the TCP server
--   that an HTTP server is.
-- Server: src/net/Acceptor.cpp and src/net/TcpServer.cpp. A connection object is found by the number
--   that its name ends with, which stands for the shared pointer; the functors that wait at the loops
--   stand in one list, from which a loop takes its own in order. What can happen next is a `Move`; an
--   event of an open connection counts as one of its operations, which Server/Events is about.
-- Loop: src/net/EventLoop.cpp. Functors are numbers; the thread of the loop and the other threads take
--   steps of a relation, so that a push and its wake-up can be apart.
-- Address: src/net/InetAddress.cpp. Thread: src/base/Thread.cpp, whose crashes are missing results.
-- LoopThread: src/net/EventLoopThread.cpp. The thread and its owner take steps in any order.
-- LoopPool: src/net/EventLoopThreadPool.cpp, the loops handed out in turn.
-- ThreadPool: src/base/ThreadPool.cpp. Each critical section of `run` is one step.
--   ThreadPool/Threads: start and the destructor, on Thread. A join of a worker has a result only
--   once the pool is stopped, which is what ends the function of a worker.
--
-- Bounds and fuel. The sizes of a buffer are `size_t` with their wrap-around; a valid buffer's storage
-- is below 2 ^ 63 bytes, the largest vector, and no sum then wraps. `parse_request` has as much fuel
-- as the buffer has readable bytes and one more: every round that goes on takes at least two bytes
-- off. A returned mask is a 32-bit number; the event masks that occur are 0, 3, 4 and 7. Times before
-- 1970 and times that leave an `int64_t` are outside the model.
--
-- Not modelled: mutexes and condition variables, which stand behind the atomicity of the steps; the
-- formatting of times and of log lines by the fmt library. A connection's message and connection
-- callbacks are taken as set. The destructor of the TCP server is modelled by itself, and not among
-- the moves of a run: while other threads still close connections it leaves them a callback into a
-- server that is gone. In Poller and Reactor a descriptor belongs to one channel for good; that the kernel
-- gives the number of a closed descriptor to a later connection is not modelled. In Reactor the
-- acceptor and the loops of a pool are left to Server, which has no poller.
pub mod Base
pub mod Buffer
pub mod Channel
pub mod Connection
pub mod Poller
pub mod Clock
pub mod Timers
pub mod Loop
pub mod LoopThread
pub mod LoopPool
pub mod Address
pub mod Sockets
pub mod Reactor
pub mod Server
pub mod Thread
pub mod ThreadPool
pub mod Http
pub mod Echo
pub mod Log
