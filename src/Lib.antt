-- ===== src/Lib.antt =====
-- A model of the programs of this repository: the afina server (sysprog/afina), a memcached-like
-- store, and the example programs of the course (sysprog/lecture_examples).
--
-- The program's parts. A client's bytes reach `Parser::Parse`
-- (sysprog/afina/src/protocol/Parser.cpp), which is fed with whatever a socket delivered, keeps its
-- state between the calls, and `Parser::Build` makes a command of a complete line. The command is
-- executed (sysprog/afina/src/execute/*.cpp) with the body that followed the line on an
-- `Afina::Storage` (sysprog/afina/include/afina/Storage.h), whose implementation is
-- `SimpleLRU` (sysprog/afina/src/storage/SimpleLRU.{h,cpp}): an index of keys over a list that is
-- ordered by freshness and bounded by the total size of its entries.
--
-- The files.
--   Common: the names passed on, the Option monad, Boolean tests, lists measured by native numbers,
--     machine words with their wrap-around, text as lists of byte codes.
--   Storage/Nodes, Storage/Lru: `SimpleLRU`. `Node` is lru_node, `Lru` the object; `put`,
--     `put_if_absent`, `set`, `delete` and `get` are the methods, `insert_new_value`,
--     `update_value`, `remove_node` and `move_to_fresh_data` the private helpers, `evict` the loop
--     `while (...) _remove_node(*_lru_head)`. The doubly linked list is the list of its nodes from
--     `_lru_head` on, the index the list of its keys. A step through a null or a dangling pointer is
--     undefined behaviour: `none`. Sizes are 64-bit words (add64, sub64). Unlink, Fresh, Evict,
--     Stored, Outcomes, Reads, Deletes and Accounting hold the proofs; `remove_first`, `remove_middle` and
--     `remove_behind` follow the swaps of `next` in `_remove_node`.
--   Storage/Interface, Storage/Implementation: the contract of Storage.h as a record of operations
--     and laws, and `SimpleLRU` as an instance of it. Storage/History: runs of calls.
--   Protocol/Parser: `Parse`, `Build` and `Reset` over the record of the parser's fields, one
--     function per case of the switch; the result is a value, an exception with its text, or
--     undefined behaviour. Protocol/Command: the commands that Build makes.
--   Execute: `Execute` of each command, over any storage of the interface.
--   Network/Session: the processing of a connection in
--     sysprog/afina/src/network/st_blocking/ServerImpl.cpp. `Session` holds its variables, with the
--     storage and the bytes sent; `parse_part`, `fill_part` and `run_part` are the three ifs of the
--     inner loop, `process` is that loop, `serve` the loop over the reads. An exception is `failed`,
--     with what was stored and sent. Bytewise is the reference: a machine that takes one byte at a time.
--   Storage/Locked: sysprog/afina/src/storage/ThreadSafeSimpleLRU.h. `World` holds the store, the mutex
--     and the threads, each with the calls it has left; `Step` takes or releases the mutex, begins a
--     method of `SimpleLRU` or ends it (`perform`, on the store as it was at its begin).
--   Network/Pool: the set of threads of sysprog/afina/src/network/mt_blocking/ServerImpl.cpp: `OnRun`
--     with the limit of connections (`register`), the end of `_connection_processing`, `Stop` and
--     `Join`, as steps that come in any order; the system never gives out a number that is open.
--   Network/Loads: `_connection_processing` of sysprog/afina/src/network/mt_blocking/ServerImpl.cpp,
--     which looks at `running` in both loops; how many loads find it set is an input. Its three ifs are
--     `thread_parse`, `thread_fill` and `thread_run`; Loads/Parts compares them with those of Session.
--   Network/Connection: sysprog/afina/src/network/st_nonblocking/Connection.cpp: the same processing with a buffer for the
--     answers; what `read` and `send` return is an input.
--   Network/Epoll: sysprog/afina/src/network/st_nonblocking/ServerImpl.cpp, the table of connections
--     and what `epoll` watches, through the reports of `epoll_wait`.
--   Network/Worker: sysprog/afina/src/network/mt_nonblocking: Connection.cpp, which has other masks,
--     an event in Worker.cpp, and `Stop` in ServerImpl.cpp; Network/Worker/Acceptor: the connections
--     that `OnRun` in ServerImpl.cpp accepts, each in two steps (`arm`, `insert_connection`) between
--     which a worker may serve it.
--   Coroutine: sysprog/afina/src/coroutine/Engine.cpp and include/afina/coroutine/Engine.h, which
--     routine has control; the copies of the stack are left out.
--   Shell: sysprog/2/parser.cpp and main.cpp. Shell/Scan is the loop of `parse_line` with the sizes of
--     its buffers and of the array of tokens, whose first block is `malloc(0)` with as many usable
--     pointers as an input says; Shell/Build the commands it makes, Shell/Main a round of the main loop and the
--     descriptors of a pipeline.
--   Sort: sysprog/1/hw_sort.cpp. Sort/Quick is `q_sort_coro` for one task, with the array and the
--     stack of ranges that its fields hold; Sort/Merge is `merge`, Sort/Files what `main` does with the
--     arrays of the files.
--   Ipc/SharedMem: sysprog/lecture_examples/7_ipc/3_mem_sort.c, `write_to_shared_mem` and
--     `read_from_shared_mem` as two processes over one page; a step is one access to the flags with
--     the copy that follows it, and a schedule is any list of turns.
--   Threads/Futex: sysprog/lecture_examples/6_threads/8_futex.c, the threads of `thread_f` with
--     `futex_lock` and `futex_unlock`, as a step relation on the list of the threads and the words they
--     share; a step is one access or one call. Threads/Totals: sums over the threads.
--   Threads/Detach, Threads/Stacks: sysprog/lecture_examples/6_threads/12_cthread_detach.c, the end of
--     a thread against `cthread_detach` or `cthread_join`, and the stacks that `cthread_destroy` keeps
--     until their threads are gone.
--   Threads/Condvar: sysprog/lecture_examples/6_threads/14_condvar.c, one access to shared memory a step.
--   Threads/BadDetach: sysprog/lecture_examples/6_threads/11_cthread_bad_detach.c, the same without the
--     lock.
--   Echo: sysprog/afina/materials/05-non-blocking-network/code/echo.c, `handle` and the branch of the
--     main loop for one connection; what `read`, `write` and `epoll_wait` return is an input.
--   EdgeServer: sysprog/afina/materials/05-non-blocking-network/code/epoll-example.c, the loop over the
--     reports of `epoll_wait`; a socket holds the bytes that `read` is going to return, and what `write` returns is a
--     parameter.
--   SharedLock: `shared_lock` of
--     sysprog/afina/materials/09-advanced-synchronization/code/shared_mutex.h: its members on one lock,
--     and steps over all the locks that exist.
--   SharedMutex: sysprog/afina/materials/09-advanced-synchronization/code/shared_mutex.cpp. A thread
--     takes one step from one wait to the next (`advance`), which may signal a gate (`Wakes`).
--   Poll: sysprog/lecture_examples/9_aio/5_server_poll.c, a round of the main loop over the array of
--     clients, with `remove_client`.
--   Ipc/Events: sysprog/lecture_examples/7_ipc/9_sem_event_source.c and 9_sem_event_cons.c, the queue
--     and the semaphores under steps of sources, started with any numbers from 1 on, and consumers, and the bytes of a
--     message.
--   Ipc/Transactions: sysprog/lecture_examples/7_ipc/8_sem.c, the loop over the lines of the input.
--   Schedule: runs of two processes under a list of turns, shared by Ipc/SharedMem and Threads/Detach.
--
-- Bounds and fuel. The inner loop of a connection has the length of its input as fuel: each round
-- consumes a byte or waits for more. `evict` has the number of nodes as fuel: each round takes a
-- node out. The text of a number `n` is made with fuel `n + 1`, one digit each. The loop over the
-- array of `poll` has its entries as fuel, one for each index. The sort of an array has its
-- length as fuel: each round takes a pivot out of the ranges. The other loops are structural.
--
-- Not modelled: the destructors and the allocator's memory, the parser's state after an exception
-- (its callers drop the connection), the lines printed to the console, sockets, a
-- `pipe` of the shell that fails, the hand-over between the coroutines of the sort, weak
-- memory orders (the flags of the shared page are read and written in program order).
pub mod Common
pub mod Coroutine
pub mod Echo
pub mod EdgeServer
pub mod Execute
pub mod Ipc
pub mod Network
pub mod Poll
pub mod Protocol
pub mod Schedule
pub mod SharedLock
pub mod SharedMutex
pub mod Shell
pub mod Sort
pub mod Storage
pub mod Threads
