-- ===== src/Lib.antt =====
-- A verification library for the C and C++ modules of the systems workbook.
--
-- The workbook is a sequence of exercises. Some are written; others hold placeholders, which are
-- modelled as they stand. The programs share no state with each other, and the
-- benchmark program alone has a main() that is modelled.
--
-- Which file models which code (paths from the repository's root):
--   Ownership/ScopedFd, Ownership/UniqueBuffer, Ownership/ScopeGuard
--     02-modern-cpp/exercises/ex1-raii-ownership/ownership.hpp
--   Buffer
--     02-modern-cpp/exercises/ex3-move-semantics/buffer.hpp
--   Memory
--     the heap that UniqueBuffer and Buffer use: new[], delete[] and element access
--   Primitives (Int64, Price, Quantity, Order, Symbols)
--     02-modern-cpp/exercises/ex2-type-safe-primitives/primitives.hpp
--   ContainerBenchmark
--     03-stl-internals/exercises/ex1-container-benchmark/bench_containers.cpp
--   CircularBuffer
--     03-stl-internals/exercises/ex2-circular-buffer/circular_buffer.hpp
--   PoolAllocator
--     03-stl-internals/exercises/ex3-pool-allocator/pool_allocator.hpp
--   SpscQueue
--     05-concurrency/exercises/ex2-spsc-queue/spsc_queue.hpp
--   TestTools
--     tools/common.hpp: the counters of the test macros, median_ns and the percentiles;
--     TestTools/CMacros: tools/common.h
--   PriceLevels
--     06-order-book/exercises/ex1-price-levels/price_levels.hpp; PriceLevels/OrderBook and
--     PriceLevels/Engine: ex2-limit-order-book/order_book.hpp, ex3-matching-engine/matching_engine.hpp
--   EchoServer
--     07-networking/exercises/ex1-epoll-server/server.hpp
--   IntBits, FloatBits
--     01-bits-and-bytes/exercises/ex1-bitwise-basics/bits.c, ex2-ieee754/float_bits.c
--   LinkedList, Entity
--     00-c-for-programmers/exercises/ex3-structs-and-pointers/structs.c, its two parts
--   CStrings, IntVec
--     00-c-for-programmers/exercises/ex2-strings-and-arrays/strings.c, strings and dynamic array
--   Hello
--     00-c-for-programmers/exercises/ex1-hello-c/hello.c
--   HotAlloc, CacheProfiler
--     04-cache-and-memory/exercises/ex3-hot-path-alloc/hot_alloc.hpp, ex1-cache-profiler/cache_profiler.cpp
--   SeqLock, MpmcQueue
--     05-concurrency/exercises/ex1-seqlock/seqlock.hpp, ex3-mpmc-false-sharing/mpmc_queue.hpp
--   Multicast, FixParser
--     07-networking/exercises/ex2-udp-multicast/multicast.hpp, ex3-fix-framer/fix_parser.hpp
--   Dns
--     01-bits-and-bytes/exercises/ex3-bitfield-packing/dns.c
--   Base
--     lists, options, integers, tests and numbers of type double that the others share, and programs of calls that follow a
--     specification
--
-- State and operations. A C++ object with a lifetime is a numbered slot of a list, so that the two
-- operands of an assignment can be one object; a slot is empty once the destructor has run. Every
-- special member function is a function on the state (construct, move_construct, move_assign,
-- copy_construct, copy_assign, destroy), and a program is a list of such operations. Undefined
-- behaviour and exceptions are `none`: a use after the end of a lifetime, a second delete[], an
-- access out of bounds, signed overflow, a division by zero. A function keeps the name it has in
-- the source; ContainerBenchmark.Program.main is main(), and main_for its body
-- for any N in the place of the constant.
--
-- The C programs. The list, the strings and the dynamic array keep their memory in a heap: nodes in
-- numbered cells, or blocks of bytes with a pointer as block and offset, so that two arguments may
-- point into one block. Whether malloc or realloc has memory to give is an argument of the calls;
-- where the source stores through the NULL, the result is `none`, as it is for a byte that is read
-- before it is written. An array of ints behind a pointer in hello.c is the list of its elements.
-- What a function answers as 0 or 1 in an int is a Bool in the list and string functions.
--
-- Threads. run() and stop() of EchoServer are called by different threads. EchoServer.Threads has the
-- steps of run() as a relation, in which an access to the atomic flag or a call of run_once() is one
-- step, the configurations that are reached when calls of stop() come in between, and the same as a
-- function of a schedule that says whose turn it is.
--
-- Numbers. size_t wraps at 2^64; int and long long are integers whose result must be in range, and in
-- bits.c and float_bits.c they have the 32 bits of two's complement, with the native bit operations.
-- In primitives.hpp a C string is the list of its bytes before the terminating 0. Loops are structural
-- recursion on the list or on the number of rounds; a walk along a linked list has as many rounds as
-- the heap has cells, and a walk along a string one more than its block has bytes, which is enough
-- since no chain of nodes and no string is longer.
--
-- Parameters. Code that is not in the repository is an argument: Boost's maps and
-- std::unordered_map (ContainerBenchmark.Containers.MapOps, with their documented behaviour as
-- MapLaws), double (Base/Doubles: its arithmetic, which rounds in order, with numbers in
-- thousandths as an instance), the maps of a PriceLevelBook, the function that median_ns times,
-- std::mt19937 and std::shuffle (which permutes), and the readings of the steady clock. In the
-- benchmark std::map, std::sort, std::lower_bound and std::find are written out; std::map is also
-- an instance of the interface of the maps.
--
-- Not modelled. Failing allocation in C++ (std::bad_alloc of new[]), output by printf but for the
-- lines of print_top(), print_result and print_throughput of tools/common.hpp, move and copy of
-- element types other than plain values, memory orders (push and pop of the queue are placeholders;
-- the accesses of the server's flag are sequentially consistent), the test programs, int_to_float,
-- which ends without a result, the threads of SeqLock, whose write() is a placeholder,
-- data_layout.cpp, whose float sums are not written, and the titles that main() of
-- cache_profiler.cpp prints. The modules from HotAlloc to Dns above hold code that is largely
-- placeholders: the definitions are written down as they stand, with the written parts (emplace(),
-- the constructor of MPMCQueue, dns_print) among them. sprintf's `%d` is an argument of the
-- functions that use it.
pub mod Base
pub mod Buffer
pub mod CStrings
pub mod CacheProfiler
pub mod CircularBuffer
pub mod ContainerBenchmark
pub mod Dns
pub mod EchoServer
pub mod Entity
pub mod FixParser
pub mod FloatBits
pub mod Hello
pub mod HotAlloc
pub mod IntBits
pub mod IntVec
pub mod LinkedList
pub mod Memory
pub mod MpmcQueue
pub mod Multicast
pub mod Ownership
pub mod PoolAllocator
pub mod PriceLevels
pub mod Primitives
pub mod SeqLock
pub mod SpscQueue
pub mod TestTools
