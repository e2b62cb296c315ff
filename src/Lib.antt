-- ===== src/Lib.antt =====
-- Verification library of WinsockTut, C++ helpers for sockets on Windows with two examples.
--
-- The program has timers, socket helpers, three reactors, which call back when a descriptor is
-- ready, and two proactors, which call back when a request is done. Every reactor and proactor is
-- also a timer scheduler, whose timers run within Poll or Run.
--
-- - Base: lists, Boolean tests and machine words; Winsock: constants of the Windows SDK.
-- - Outcome: results of code that may read a bad pointer or end the program; Table: vectors of entries
--   with an id; Heap: objects behind pointers.
-- - Timer: src/TimerSched.cpp. AddTimer is add_timer, CancelTimer is cancel_timer and UpdateTimer is
--   update_timer, on a record of the heap, the keys of ref_ and the next id. Sift, Up, Down and Cut
--   are about the heap, Valid has the invariant, Add, Cancel, Update, Expiry, Callbacks and Frame are
--   about the operations, and Refine is about sequences of them against a plain list of timers.
-- - WsaExt: src/WsaExt.cpp.
-- - Socket: src/SocketOpts.cpp. Transfer has ReadSome and WriteSome, Address has IsSelfConnection,
--   Calls the calls of the system and the small wrappers, and Create the two functions that make
--   a socket.
-- - Poller: src/PollerBase.cpp and the reactors. Select is src/SelectPoller.cpp, AsyncSelect is
--   src/AsyncSelectPoller.cpp and AsyncEvent is src/AsyncEventPoller.cpp; each has a record of the
--   poller and one function for each method. Bits has the masks of interest. Below Select,
--   Retire is about its table, and Dispatch and Poll about its callbacks; below AsyncSelect, Interest
--   is about the masks, and Poll about the messages; below AsyncEvent, Waitable and Served are about
--   its table, and Handle and Poll about its callbacks.
-- - Service: src/OverlapFd.h, src/IOServiceBase.cpp and the proactors. Contexts has the context of a
--   request and the heap, Requests the four requests, Overlapped is src/OverlappedIOService.cpp and
--   Completion is src/CompletionPortService.cpp. Below Overlapped, Tracked is about the table of
--   events and the contexts, Release about one context, and Run about Run.
-- - Echo: examples/echo, over the interface PollerApi of a reactor. Server has
--   examples/echo/EchoServer.cpp and the connections of examples/echo/EchoConn.cpp, Client has
--   examples/echo/EchoClient.cpp; Rounds below it is about one timeout, and Driven about all of them.
-- - Pingpong: examples/pingpong, over the interface ServiceApi of a proactor. Server has
--   examples/pingpong/Server.cpp and the sessions of examples/pingpong/Session.cpp, Client has
--   examples/pingpong/Client.cpp. Services has the laws that the example relies on, and Port and
--   Overlapped the two services behind the interface.
-- - Program: main of examples/echo/main.cpp and examples/pingpong/main.cpp, over the objects of an
--   example; Echo.Program and Pingpong.Program have the objects of each, and Shutdown below them is
--   about the end of main.
-- - Text: src/Common/StringUtil.cpp. Logging: the handler of messages in src/Common/Logging.cpp, with
--   its output to stderr or to the debugger.
--
-- Calls of the system are parameters over a type of worlds, and callbacks are functions on the whole
-- object, since they may call it back. What is relied on stands in records of laws: IsStream and
-- IsSink for recv and send, Laws for the calls that open and close sockets. Reads through a null or
-- dangling pointer have a result of their own, `bad_pointer`, or `none` in cancel_timer.
--
-- Loops without a bound in the code run on fuel: siftdown has a round for each entry and siftup for
-- each index, ReadSome and WriteSome a round more than there are bytes, and UpdateTimer and the loops
-- of Poll are given fuel by the caller, with theorems for how much is enough. The loop over window
-- messages ends when the queue is empty; its fuel is for the messages that wait and a budget for those
-- that are posted while it runs. OutputStringToDebugger has a round
-- for each 4031 characters and one more, and main a round more than it calls Poll or Run.
--
-- Machine words are their bit patterns, with the order of signed ones by a biased value; indices of
-- the heap are below 2 ^ 31. An unordered_map is a list in the order in which it is walked.
--
-- Not modelled: src/Common/Slice.h, a copy from LevelDB, and the messages and macros of
-- src/Common/Logging.h, a copy from Protocol Buffers; src/Common/Error.cpp and src/Common/Mutex.h,
-- which only call the system.
pub mod Base
pub mod Outcome
pub mod Table
pub mod Heap
pub mod Winsock
pub mod Timer
pub mod Socket
pub mod WsaExt
pub mod Poller
pub mod Service
pub mod Echo
pub mod Pingpong
pub mod Text
pub mod Logging
pub mod Program
