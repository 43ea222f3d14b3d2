-- ===== src/Lib.antt =====
-- selib, a C++ library of containers and server utilities: a model of its code and what holds of
-- it.
--
-- The program's parts and how they interact. util/ has the small tools: a bit map
-- (util/bit_array.h), an array of locks of one bit each on top of it (util/array_lock.h), path
-- strings (util/path.h), a timer (util/timer.h), a watcher of file times (util/file_watcher.h) and the object that a process
-- has once (util/singleton.h, with the lock of util/autolock.h). container/ has the data
-- structures: the chained hash table (container/chain_hash.h), the same with a lock for each bucket
-- (container/pchain_map.h), the buffer of the last values (container/sequence_recorder.h), the
-- linked queue (container/pqueue.h), the cache that forgets the least recently used entry
-- (container/circle_cache.h), the stack of resources (container/resource_stack.h) and the
-- container of a dictionary that is reloaded when its file changes (container/dict_container.h),
-- which uses the file watcher and the paths. framework/ has the registry of the dictionaries
-- (framework/dict_manager.h, framework/dict_manager.cpp), which calls `init` and `reload` of each
-- of them, and the pool of elements that threads work on (framework/shining_pool.h), with two
-- stacks of resources. algorithm/ has sorting and searching (algorithm/algo_sort.h,
-- algorithm/heap_sort.h).
--
-- Which file models which part. A file has the name of the class or function in UpperCamelCase, and
-- its children hold the proofs:
--   Container/ChainHash for ChainHashMap and HashEntry; Chain has the facts on one chain, Laws
--     those on the table, Refine the run against a dictionary.
--   Container/SequenceRecorder for SequenceRecorder; Read has what the reading loops see, Append
--     what a call of append keeps, Laws the histories.
--   Container/PQueue for PQueue and Node, over an explicit heap; Segment has the chain of the
--     nodes, Laws the single calls, Refine the runs, Race the interleaving that the two locks
--     allow.
--   Container/LruCache for LruCache and its nodes. Circle has doubly linked circles as functions,
--     Index the buckets and the slots that point to each other; Writes and Store what the code
--     writes; Valid the well-formed caches and read_adjust on them, Shapes the circle after put;
--     Entries the steps on the entries, Outcome, Touch, Renew and Fresh how the cases of put and
--     get make them; Probe the probing, Refines single calls, RoundTrip get after put, Answers what
--     a call does by the buckets that it probes, Sizes and Init the beginning, Runs any calls. Keys are numbers and values are Options (pointers).
--   Container/ResourceStack for ResourceStack; Holders and Laws have the single calls, Refine the
--     runs, Destroy what is freed.
--   Container/PChainMap for PChainMap, the calls of one thread, on Container/ChainHash and
--     Util/ArrayLock.
--   Container/DictContainer for DictContainer and FileStatus; Versions has what it is to hold; Util/FileWatcher for FileWatcher.
--   Framework/DictManager for DictManager, dict_info_t and ActionInstance; Laws has a round of
--     dict_process, Setup the registrations, Lifecycle the whole life of a manager.
--   Framework/PoolMgr for PoolMgr on Container/ResourceStack: Pools has the stacks by their elements,
--     System the interleavings of one caller with the threads of thread_fun, Calls, Forced and Workers
--     their steps, Safety what follows.
--   Util/BitArray for BitArray; Bytes has the facts on one byte, found by evaluating all of them.
--   Util/ArrayLock for ArrayLock; Ops has try_op by itself, Threads the interleavings of any number
--     of threads, Exclusion the invariant of these, Alone the progress of a thread that runs alone.
--   Util/Singleton for ProcessSingleton and autolock, an access at a time: Local has what holds where
--     a thread stands, Access a single access, Safety the interleavings of any number of threads,
--     Later what they get after a pointer was returned.
--   Util/Timer for Timer, on readings of the clock.
--   Util/Path for path_split and path_join.
--   Algorithm/InsertSort for insert_sort, with Algorithm/Sorted for ascending lists;
--     Algorithm/BinFind for bin_find, which recurses on fuel that bounds the length of the part
--     that is searched.
--   Algorithm/HeapSort for HeapSort, a tree that brings an extreme to its root: Settle has _max and
--     _min, Sizes and Build the building, on fuel that bounds the depth, Laws both together.
--   Prelude for the Boolean tests, lists, strings, integers and masks that the others share.
--
-- How the state corresponds. A class is a record with the fields of the class, under the same
-- names. Its operations are functions from the state to the state and the result; -1 or NULL is
-- `false` or `none`, and where memory can be touched wrongly the whole result is an Option whose
-- `none` is the fault: an access out of an array, a null pointer, an object that was deleted.
-- Linked chains without sharing are lists; where pointers matter (PQueue, DictManager,
-- ResourceStack) the heap is explicit and objects have the position of their allocation as address.
-- Each failing `new (std::nothrow)` is a Boolean argument. Unsigned members wrap around where the
-- code lets them, with `% 2 ^ 32` written out.
--
-- Bounds and fuel. Loops over a list or down a counter are structural recursion, and need no fuel;
-- a loop that ends at a bound runs on the number of its rounds. The destructor of ResourceStack
-- loops until a stack is empty, on fuel, which is enough when it is more than the number of the
-- nodes. get_bit_pos halves a number and runs on that number; the tree of HeapSort is built on the
-- length of the array as the bound of its depth. A wait of another thread is a step of the
-- interleaving, not a loop. The positions of the tree are `int`
-- in the code, which is enough below 2 ^ 30 elements; the offset of quadratic_probing is a double,
-- whose conversion is defined up to round 92681. The caches of LruCache have 2 to 2 ^ 30 - 1 slots and the keys of its
-- theorems are not 0, which is the mark of an empty bucket.
--
-- What is not modelled. The other sorts and sketches of algorithm/ stand apart from the parts above.
-- monitor/cpu_switch_monitor.h measures sleeps with floating point; util/hash_fun.h is used by no
-- other file; util/auto_release.h and ThreadSingleton are wrappers of a pointer and of thread keys.
-- Accesses to memory are sequentially consistent. util/lifo.h and util/lifo.hpp (assembly in the
-- public domain) and util/lock_free_atomic_ops.h come from other projects; pointer_switcher.h is not
-- in the repository. What the code relies on of these, and of the system (stat, the clock, the
-- allocator), is a parameter with its documented behaviour. Log output, sample code and tests do not
-- appear.
pub mod Algorithm
pub mod Container
pub mod Framework
pub mod Prelude
pub mod Util
