-- ===== src/Lib.antt =====
-- tiny-redis: an in-memory key-value server that speaks RESP, in C++20.
--
-- A server accepts connections and delivers epoll's events to them (src/net/server.cpp,
-- src/net/event_loop.cpp). A connection (src/net/connection.cpp) reads bytes into an input buffer
-- (src/core/buffer.cpp), the request parser takes one command at a time from its front
-- (src/core/resp.cpp), the command is run on the store (src/core/command.cpp, src/core/store.cpp), and
-- the reply is encoded into an output buffer. The store keeps its pairs in a chained hash table
-- (src/core/table.cpp) of entries (src/core/entry.cpp) that a fixed pool hands out; keys are hashed by
-- SipHash-1-3 (src/core/hash.cpp), and expiry scans the buckets with a reverse-binary cursor
-- (src/core/bits.cpp).
--
-- What models what:
--   Base     shared names: numbers, bytes, lists, integers, and their lemmas. A byte is a number, a
--            `std::string_view` the list of its bytes, and `std::int64_t` the integers ℤ.
--   Bits     src/core/bits.cpp: reverseBits, nextPow2, nextCursor, splitmix64.
--   Buffer   src/core/buffer.h and src/core/buffer.cpp: the two cursors over a growing array.
--   Resp     src/core/resp.h and src/core/resp.cpp. Resp/Outcome is the early return of the two
--            parsers, Resp/Reader has readLine, takeBytes and readInt, Resp/Parser has parseArray,
--            parseInline and parseCommand, and Resp/Reply the encoders.
--   Hash     src/core/hash.cpp: sipHash13 and hashBytes.
--   Entry    src/core/entry.h, src/core/entry.cpp and the sentinel of src/core/clock.h.
--   Table    src/core/table.h and src/core/table.cpp. An `Entry*` is the number of its pool block, the
--            memory of the blocks is a function, and the chain of a bucket is the list of its blocks.
--            Table/Pool is the interface of the pool allocator, which is third-party code: its operations
--            and the laws that the table relies on are the record EntryPool, and Tests/Slots fills it in.
--            Table/Cell has what insert and assign do to one entry, Table/Invariant what a valid table
--            is, and Table/View the map from keys to values that a table stands for.
--   Store    src/core/store.h and src/core/store.cpp: the table with deadlines, the cap and the counters.
--            Store/Evict is evictOne, Store/Set is set, Store/Expiry the expiry cycle. An operation that
--            reaches a failed assertion gives `none`. What a client can see under a key is `visible` of
--            Store/Lookup: the value of an entry that has not expired.
--   Dispatch src/core/command.h and src/core/command.cpp: Dispatch/Words has the table of commands, the
--            words, numbers and error replies, Dispatch the commands and the dispatch, and its other
--            children what the commands reply and leave.
--   Net      src/net: Net/Kernel has the kernel's answers to the system calls, which are arguments of the
--            handlers, Net/UniqueFd the owner of a descriptor, Net/Connection the methods of a connection,
--            Net/EventLoop the loop around epoll_wait, and Net/Server the server: Net/Server/Accept its
--            accepting, Net/Server/Run the delivery of events, the tick and the run. A connection's method
--            works on a session: the connection, the store, epoll's mask for its socket and the calls of
--            `Server::retire`; the server writes the session back into its lists. Net/Connection/Settled and
--            Lifecycle are about its states, Net/Connection/Answers, Rounds, Requests and
--            Running about its input,
--            Net/Server/Invariant, Intake, History, Holding, Logs and Pointers about connections and
--            descriptors, and
--            Net/Server/Health, Admission and Soundness about the store and the buffers of a server that
--            runs.
--   Main     src/main.cpp: the parsing of the arguments.
--   Tests    runs of the model, the test vectors of tests/test_hash.cpp, and each theorem that has a
--            condition at a concrete input.
--
-- Words of 64 and 32 bits are numbers with the wrap-around written out. The loops of the source that
-- are not structural are bounded by fuel, as much as they can use: one round for each of the 64 bits of a
-- mask in reverseBits and of a word in std::bit_ceil, one round for each byte of a line and one more in
-- the loop of parseInline, and `n` rounds for the digits of `n` in std::to_chars. The passes and the
-- buckets of the expiry cycle have bounds in the source. The loop of processInput has one round for each
-- unread byte and one more, as a request takes at least one byte. The loops that wait for the kernel
-- (flushOutput, acceptPending, EventLoop::run) run over the list of its answers, and give `none` when the
-- list ends before they do. The loop of evictOne that draws until a sample is not empty has no bound: its
-- fuel is an argument, and the model gives `none` when it runs out. An `assert` of the source is the
-- result `none` of the function, with these exceptions: those of Buffer, that of simpleString and that of
-- Store's constructor on the cap are conditions of the theorems that depend on them; that on the number of
-- LRU samples is left out, as no theorem is about an eviction; and that of appendNumber, that a 64-bit
-- number fits its 20 characters and its sign, is left out. The signed overflow of the rounding in cmdTtl
-- is `none`: the sum passes 64 bits only while the clock shows less than 500 milliseconds.
--
-- Not modelled: the system calls, openListener and the acceptor's registration with epoll; the signals,
-- messages and exit codes of src/main.cpp; what is printed to stderr; exceptions for want of memory; the
-- freeing of heap arrays; and `nowMs`, which reads the machine's clock: the time is an argument.
pub mod Base
pub mod Bits
pub mod Buffer
pub mod Resp
pub mod Hash
pub mod Entry
pub mod Table
pub mod Store
pub mod Dispatch
pub mod Net
pub mod Main
mod Tests
