-- ===== src/Lib.antt =====
-- A verification library for the epoll HTTP server, a reactor that reads requests from sockets and
-- answers them.
--
-- The parts and how they work together. A connection (`src/connection.cpp`) reads from its socket
-- into a `Buffer` (`src/buffer.cpp`), lets the request parser (`src/http_parser.cpp`) take a
-- request off it, asks the server's handler (`src/server.cpp`) for a response, writes that out as
-- text (`src/http.cpp`) into a second buffer, and hands that to the kernel. It closes itself by a
-- timer of its loop (`src/timer.cpp`). The server accepts connections and deals them out to the
-- loops, and all of them count what they do in `include/ws/stats.h`. They log through the buffers
-- and the thread of `src/logger.cpp`.
--
-- The files.
--   Common, Common/Tests, Common/Lists, Common/Text: what the modules share; Common/Text has the
--     character functions of the C library.
--   Buffer: the class of `include/ws/buffer.h`, with `read_fd` for `readFd`, `make_space` for
--     `makeSpace` and so on. Buffer/Invariant has the indices, Buffer/Contents and Buffer/Reading
--     the buffer as a queue of bytes, Buffer/Search the search for line ends.
--   Headers: the `std::map` of header fields, as a sorted list. Decimal: `std::to_string` and
--     `strtoll`; Decimal/RoundTrip, and Decimal/Reading about which texts are numbers.
--   Http: the requests and responses of `include/ws/http.h`, and `iequals`. Http/Compare
--     has the rule for keeping a connection; Http/Framing.
--   Input: what the parser uses of a buffer, as an interface; the buffer fills it, and so does a
--     plain list of bytes.
--   Parser: the state machine of `src/http_parser.cpp` over such an interface. Parser/Refine
--     carries results on lists over to buffers; Parser/Steps, Parser/Resume, Parser/Calls and
--     Parser/Stream are about bytes that arrive in pieces; Parser/Lines and Parser/Fields about what
--     a line has to be; Parser/Request, Parser/Sound and Parser/Bounds about what the parser keeps;
--     Parser/Progress about what a call takes away; Parser/Fragments about its limits.
--   Timer: the heap of `include/ws/timer.h`, as a sorted list. Timer/Order, Timer/Expiry,
--     Timer/Timeout, Timer/World.
--   Stats: `include/ws/stats.h`.
--   Connection: `src/connection.cpp`. Connection/Output, Connection/Watch, Connection/Requests, Connection/Replies,
--     Connection/Reading, Connection/Idle; Connection/Total about its end; Connection/Lifecycle,
--     Connection/Handlers, Connection/Release and Connection/History about its
--     descriptor, Connection/TimerCount about the timers.
--   Server: `src/server.cpp`. Server/Routes, Server/Static, Server/Accepting; Server/Start
--     with its child Released is about `start` and `stop`.
--   MemoryPool: the pool of `include/ws/memory_pool.h` on an explicit memory. MemoryPool/Blocks,
--     MemoryPool/Ownership. MemoryPool/Classes with its children is the choice of a thread's pools;
--     MemoryPool/Allocator is the STL allocator over them, Allocator/Reuse what it gives back.
--   EventLoop: the task queue and `quit` of `src/event_loop.cpp`, as a relation of the threads'
--     steps. EventLoop/Wakeup.
--   Reactor: a round of the loop of `src/event_loop.cpp` with its connections. Reactor/Table,
--     Reactor/Events, Reactor/Entries, Reactor/Rounds, Reactor/TimerBound.
--   CommandLine: `src/main.cpp`. CommandLine/RoundTrip, CommandLine/Checks.
--   Epoller: `src/epoller.cpp`, Epoller/Interest.
--   Kernel: the results of `write`.
--   Logger: the lines of `src/logger.cpp`, Logger/Line what they are. Logger/Async: the buffers, the
--     writes and the files; Logger/Async/Writing, Logger/Async/Naming, Logger/Async/Rolling and
--     Logger/Async/Drains about the writes, and Logger/Async/Steps with its child Order about the
--     threads.
--   The modules called Tests run the definitions on concrete inputs, and apply the theorems there.
--
-- State is passed explicitly. A `size_t` sum or difference, and a counter, wraps round at 2^64, a
-- cast to `int` at 2^32, and a vector has fewer than 2^63 bytes: a theorem that needs room says so
-- (`Fits`). The kernel is what its answers are: a result of `readv`, lists of results of `read`,
-- `write` and `accept4`, the time as an argument. The file system is a pair of functions.
--
-- Loops that are not by recursion on a list take fuel, and `none` is that it ran out. The parser's
-- own loop has 4 rounds, one for each state and one to return; its loop over the header lines has
-- one more than there are unread bytes, since a line takes two bytes off; the loop over pipelined
-- requests has two more than there are unread bytes; `expire` is given its fuel, and theorems say
-- how much is enough.
--
-- Not modelled: exceptions and, but for the pool's chunks, the failure of allocation; the
-- socket options; the texts on the terminal; the lifetime of shared pointers, but that a timer finds
-- a connection only while it is in its loop's table.
pub mod Common
pub mod Buffer
pub mod Headers
pub mod Decimal
pub mod Http
pub mod Input
pub mod Parser
pub mod Timer
pub mod Stats
pub mod Kernel
pub mod Connection
pub mod Server
pub mod MemoryPool
pub mod EventLoop
pub mod Epoller
pub mod Reactor
pub mod Logger
pub mod CommandLine
