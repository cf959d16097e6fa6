-- ===== src/Lib.antt =====
-- socket_wrapper: the C++ classes that wrap sockets, modelled over the calls of the operating
-- system.
--
-- A Stream owns a connected socket and an event descriptor by which its reads are stopped. A
-- BufferedStream owns a Stream and an array, and hands out its bytes in pieces: so many bytes, or up
-- to a delimiter. A ConditionalBufferedStream owns a BufferedStream, a worker thread and a list of
-- handlers; the worker fills the buffer, cuts it into segments by the handlers' conditions, queues
-- them and posts a semaphore, and other threads take the segments. A Listener owns a listening
-- socket and makes a Stream of each client; StreamFactory makes the Stream of a client, or a
-- connected pair. A UdpDatagram sends and receives datagrams. Utils looks for the network
-- interfaces of the machine.
--
-- The files:
--   Prelude             shared names; int (Int), size_t (Size), arrays (Memory), std::find (Find)
--   Exception           include/socket_wrapper/SocketException.h, src/SocketException.cpp
--   BaseTypes           include/socket_wrapper/BaseTypes.h, src/BaseTypes.cpp
--   Exec                C++ code as a function of a state that returns or throws
--   Kernel              the calls of the operating system, which are parameters
--   Threads             std::thread
--   Stream              include/socket_wrapper/Stream.h, src/Stream.cpp: the functions. Its
--                       children: `read` (Read, Keeps) and `write` (Write, Attempts), the moves
--                       and the destructor (Ownership)
--   BufferedStream      include/socket_wrapper/BufferedStream.h, src/BufferedStream.cpp. Its
--                       children: the invariant (Contents), readAvailableDataIntoBuffer (Fill),
--                       PopFromBuffer (Pop), the loop of reads (FillTo), the two reads (Read),
--                       readUntilDelimiter (Delimiter), a full buffer (Full), a client's sequence
--                       of requests (Session), reads for which the peer has sent enough
--                       (Supply), a peer that sends a given stream (Script), what is
--                       written at the other end (Pipe), the move constructor and the
--                       destructor (Ownership)
--   ConditionalBufferedStream
--                       include/socket_wrapper/ConditionalBufferedStream.h and its .cpp. Its
--                       children: the callers' functions (Calls), segments as a function of
--                       lists (Segments, Lines, Chunks), processDataSendSignals (Delivered,
--                       Process, Handlers, Consumed, Total), the worker (Worker, Ending), read
--                       (Reads) and readBlocking (Blocking), worker and callers together in whole
--                       rounds (Run, Abstract), the worker and the whole stream of a peer
--                       (Delivery), callers that wait for the semaphore (Wakeups), start and the
--                       destructor (Lifetime)
--   ConditionalBufferedStream/Interleaved
--                       the worker in small steps, with callers between them. Its children: the
--                       invariant (Answers, Invariant, Moves, Posts, Failures, Whole), a
--                       reference in one pass (Refines), a round and the whole thread as
--                       sequences of steps (Sequential, Ended)
--   Network             the calls that make sockets, which are parameters
--   Listener            include/socket_wrapper/Listener.h, src/Listener.cpp. Its children: the
--                       constructor (Create), accept and the loop of the accepting thread
--                       (Accept), ListenerBase with its thread (Base), its end (Stopping)
--   UdpDatagram         include/socket_wrapper/UdpDatagram.h, src/UdpDatagram.cpp. Its children:
--                       the constructor (Create), `read` (Read), subscribeToMulticast
--                       (Multicast), the moves and the destructor (Ownership)
--   StreamFactory       include/socket_wrapper/StreamFactory.h, src/StreamFactory.cpp; how its
--                       functions end (Ends)
--   Utils               include/socket_wrapper/Utils.h, src/Utils.cpp. Its children:
--                       getLocalNetworkInterfaces (Interfaces), the choice of one (Netmask)
--   Tests               a simulated operating system (Sim), and the theorems on it
--
-- Conventions. A function's name is the source's in snake_case: readUntilDelimiter is
-- read_until_delimiter, the vector's read is BufferedStream.read and the array's is read_into. A
-- constructor is `create`, a move `move_construct` or `move_assign`, a destructor `destroy`. A
-- char is a ℕ, an array a list, a size_t a ℕ whose subtraction wraps around at 2 ^ 64, an int a ℤ.
-- The state of the rest of the world, other threads and the peer included, is a parameter type: a
-- system call maps it to a result and the next state. What the theorems assume of these calls and of
-- std::sort are records of laws: IsBounded, History and Sent of Kernel; Descriptors of Network,
-- Connects of StreamFactory.Ends; Clients of Listener.Stopping; Meter of Stream.Attempts; Supply,
-- Script and Pipe of BufferedStream; Semaphore and Counter, of Delivered and Wakeups; Quiet of
-- ConditionalBufferedStream.Lifetime; Sockets and Sizes, of UdpDatagram.Create and Ownership; Sorts
-- of Utils.Netmask.
--
-- Loops have fuel, and `out_of_fuel` is a result of its own. Stream::read has a round for each byte
-- of its minimum and one more, since each round reads a byte; the loop of BufferedStream's reads has
-- one for each byte wanted, readUntilDelimiter one for each free byte of the array,
-- processDataSendSignals one for each byte. The worker's own loop has no end, and is taken for any
-- number of rounds, as is that of the accepting thread. A join of the accepting thread gets the number
-- of rounds that it has left, a join of the worker what is left of its code.
--
-- Not modelled: the mutexes (a call runs alone on its object; what the worker does under one lock is
-- one step of Interleaved, where a caller's read of a queue may come between any two of them; the
-- worker that the destructor joins is not started, waits in a read, is before the ::write of a post, or
-- has ended, and goes on at the join), the messages of the C++ library's exceptions, memory that runs
-- out, buffer sizes and numbers of attempts that are negative, and a getifaddrs that fails.
pub mod Prelude
pub mod Exception
pub mod BaseTypes
pub mod Exec
pub mod Kernel
pub mod Network
pub mod Stream
pub mod Listener
pub mod UdpDatagram
pub mod StreamFactory
pub mod Utils
pub mod BufferedStream
pub mod ConditionalBufferedStream
pub mod Tests
pub mod Threads
