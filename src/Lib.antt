-- ===== src/Lib.antt =====
-- A verification library for zxlib, a C library for moving files between machines: packets with
-- checked headers, a forward error correcting code over cubes of packets, queues between threads
-- and conversions of text.
--
-- The parts and how they interact. A file is cut into packets (package.h, package.c). The sender
-- (transqueue.c) numbers the packets, collects 343 of them in a unit, a cube of 7 * 7 * 7, and
-- `unit_encode` (unit.c) adds the 169 parity packets of the cube of 8 * 8 * 8. The receiver puts
-- the packets that arrive in its own unit, and `unit_decode` restores what was lost on the way.
-- Text in messages and file names is converted by code.c.
--
-- Which file models which part.
--   Prelude, with Tests, Lists, Bits, Xor, Family, Loop, First and Word below it: what the other
--     modules share. Numbers are native natural numbers; a 64-bit integer is its bit pattern below
--     2 ^ 64, with the wrap-around of C's shifts and sums written out. `for_up n body` is C's
--     `for(i = 0; i < n; i++)`, and `xor_range` and `sum_range` are totals over such a range.
--   Package (package.h): the records `package_code`, `package_task`, `package_info` and `package`.
--     The array `data` is a function of the index. Package/Code, Package/Task and Package/Info are
--     the bit fields of the three header words, Package/Words the functions that read and write
--     them in the packet, Package/Check `package_check`, Package/Xor `package_xor2` to
--     `package_xor8`, and Package/Stack the stack of packets with `package_stack_xor`.
--   UnitCode (unit.h, unit.c): `unit_encode`, `unit_decode`, `unit_malloc` and `unit_reset`. The
--     three copies of each double loop of the source, one for each direction of the cube, are one
--     function with the direction (`Axis`) as an argument. UnitCode/Cell is the cube and its
--     directions, Parity the algebra of the parities, Encode what the encoder promises, Search the
--     search of a line for losses, Repairs a step relation whose one step is the repair of a line,
--     Passes, Lines and Rounds what a stretch of the loops does, from one line to a round, Marking
--     the marks of the lossy planes, Decode the do loop, and Recovery the receiver's guarantees.
--   Code (code.h, code.c): Utf8 has the UTF-8 conversions and their size passes, Bytes the bytes of
--     one character, RoundTrip and Sizes the loops. Gbk has the GBK conversions over the tables
--     `code_gbk` and `code_unicode`, functions that the definitions take as arguments, and GbkTrip
--     the way there and back, for tables of which the second takes back the first (`AreInverse`),
--     as that of code.c does. Choice has `decode` and its choice of a coding, with the shared
--     `code_type` as an argument and a result, and Chosen what it chooses.
--   Transqueue (transqueue.h, transqueue.c): Send is the loop of the sending thread, one function
--     for a round, with the list of what was handed to the network. Receive is the loop of the
--     receiving thread: the arrivals are a list in which `none` is a second without a packet, an id is
--     truncated to `int` where the source does so, and a packet that would be written outside the
--     unit, as its coordinates are not tested, is an error value. Wire, Unit, Encoded and Parities
--     prove what a unit on the wire is, Deliver and Restore what is handed over after losses, Order
--     and FirstLost the order of what is handed over.
--   Redundancy (redundancy.h, redundancy.c): a second code, of eleven data and five code packets.
--     Table is the table, Encode the sender, Decode the receiver. Parity proves what the code packets
--     are, Codes what the sender puts in its list, Syndrome what the receiver's code packets hold,
--     Lost, Round, Imple and Ends that the restoring of lost packets is right and ends, and Receive
--     the round for one packet.
--   Queue (queue.h, queue.c, lock.h): threads that call `queue_put`, `queue_get` and `queue_empty`,
--     one shared access at a time, in any order (Queue/Threads). Queue/ListOf is what queue.c relies
--     on of the list of klib. Owner proves who owns the lock, Fifo and History what the queue is
--     from outside, Progress what a thread can do alone.
--   Memory (lib.h, lib.c): Table is the tree of pages that holds the allocated addresses, Counts the
--     allocator with its counts of references. Digits has one binary digit of `&` and `|`, Pages
--     proves the tree a set, and References how long a block lives.
--   Fastcache (fastcache.h, fastcache.c): Node is a node in memory with the rounds of the thread that
--     fills its slots, reading and cleaning, over the table of klib as an interface (HashOf). Cache
--     is the cache over its nodes and the table of its levels, as a step relation: a second node in
--     memory on a level takes the place of the first. Slots proves that the search for a free slot
--     ends, Cached that a node stays as it should be, ReadBack what is read, Totals and Room that
--     the totals are right, and IndexZero what becomes of the packet with the index 0.
--   Dict (dict.h, dict.c): Nodes is the list of dictionaries, whose nodes are addresses with fields
--     `next` and `prev`, and `fast`, the node that was last looked for. Its sizes and indices do not
--     reach 2 ^ 31. Linked is what a well-linked list is, with the walk to an index, Search the
--     search, Insert and Push what a push does, Unlink and Pop what a pop and a deletion do, and
--     Stale what a pop leaves in `fast`.
--   Rwlock (lock.h): threads that lock and unlock a `rwlock` to read and to write, one shared access
--     at a time, in any order (Moves). Guards has what a move finds, Totals how many threads stand
--     where, Invariant what the fields of the lock say of the threads, and Stuck what becomes of a
--     writer that meets a reader.
--   Algorithm (algorithm.h, algorithm.c): an array is a function of the index and a length. An int
--     is its value plus 2 ^ 31, which keeps its order, since the code only compares. Lengths are at
--     most 2 ^ 30, so that the indices `head * 2 + 1` and `start + end` are ints. Sorts,
--     HeapSort, ShellSort and MergeSort have the sorts and the binary search, Arrays what it is to
--     sort an array and the lemmas on `algorithm_swap`. Insert, Binary, Select and Shell prove one
--     sort each, Heap and HeapRounds the heap sort, Counting, Merge, MergeBack and MergeRounds the
--     merging sort, Sorted them all, and Search the binary search.
--
-- Fuel. `decode_loop` has fuel 513: every round but the last repairs a packet, and a unit has 512.
-- The loops of the UTF-8 decoder have one unit of fuel more than the string has bytes, and take at
-- least one byte in each round. Both are proved enough for all inputs. The loops of the GBK decoder
-- have as much, which is enough unless they read outside the array. `recv_loop` takes one unit of
-- fuel for each arrival and one to see that there is no other. `imple_loop` has fuel 128: at most
-- six rounds for each of sixteen packets and five more, which is proved enough. The loops
-- of Algorithm have one unit more than the length of the array or the number they count down, which
-- is proved enough.
--
-- Not modelled: failing allocations, release of memory, printing, and what only calls the operating
-- system, pthreads, libevent, libcurl or klib. The manifest lists every component.
pub mod Prelude
pub mod Package
pub mod UnitCode
pub mod Code
pub mod Transqueue
pub mod Redundancy
pub mod Queue
pub mod Memory
pub mod Fastcache
pub mod Algorithm
pub mod Rwlock
pub mod Dict
