-- ===== src/Lib.antt =====
-- A model of liblsp, a small packet network stack in C, and theorems about it.
--
-- The program's parts and the files that model them (paths from the repository's root):
--
--   src/include/lsp_list.h            LspList         the intrusive circular list
--   src/lsp_buffer.c                  Buffer          packet buffers
--   src/arch/posix/lsp_queue.c        Queue           bounded queues between threads
--   src/arch/posix/lsp_mutex.c        Mutex           locks with a timeout
--   src/arch/posix/lsp_thread.c       Thread          the creation of threads
--   src/arch/posix/lsp_time.c         Time            the clock
--   src/lsp_routing.c                 Routing         the table of routes
--   src/lsp_iflist.c                  Iflist          the registered interfaces
--   src/lsp_interface.c               Interface       the allocation of an interface
--   src/lsp_core.c                    Core            the core task and its events
--   src/lsp_conf.c                    Conf            the configuration
--   src/arch/posix/lsp_memory.c       Memory          the accounting of allocations
--   src/lsp_conn.c                    Conn            the pool of connections
--   src/lsp_port.c                    Port            ports, bind and listen
--   src/lsp_socket.c                  Socket          the calls of a client
--   src/arch/posix/lsp_egroup.c       Egroup          waits for event bits
--   src/port/generic/lsp_log.c        Log             the bytes and the text of a dump
--   src/include/lsp_types.h           Types, Codes    error codes, limits, alignment
--
-- Routing and Iflist keep their nodes in lists of LspList and search them by its loop; Queue takes the
-- results of Mutex. A connection holds a Queue of buffers, a Port keeps its sockets, which are connections,
-- in a list of LspList, and Socket calls Conn and Port; Core sends its events through a Queue; Memory
-- keeps its blocks in a list of LspList. A function of the source keeps its name without the prefix
-- `lsp_` and the module's own name: lsp_list_add is LspList.add, lsp_queue_push is Queue.push. Prelude
-- holds what all share: tests, lists, words, bits, pointers and the results of loops. Below each module
-- its children hold the theorems, and Tests the runs at small inputs.
--
-- How the code is read:
--
-- - A pointer is its address, a native number, and NULL is 0. A list node has the address of its
--   container, since container_of maps one to the other. The memory of the nodes is a record of
--   functions from addresses; an access through NULL or to where no node lies is a fault, `none` or
--   `Run.fault`.
-- - The platform is LP64 as the build has it: size_t and addresses wrap at 2^64, uint32_t at 2^32; an
--   int that may go below 0 is its bit pattern, or ℤ before a conversion.
-- - malloc, the clock, the pthread calls, printf and strncasecmp are arguments. What happens to a queue while a
--   call waits on it with the mutex released is an argument too: a function from the state at the start
--   of the wait to how it ends and the state then.
-- - Queue.Threads has the threads of a queue as a step relation. A call is cut where it waits
--   (begin_push, begin_pop, and push_woken, pop_woken), since the mutex is held all the time but there.
--   In Reach a thread may be woken at any time; in PairReach, of one thread that pushes and one that
--   pops, a wait ends by the other's signal or by an error.
-- - Core.Threads has the core task in its loop and any number of threads that send to it. A send does not
--   wait, so it is one step, and the task's wait ends by the signal of a send or by an error.
-- - Egroup.Threads.Waits has any number of threads that set the bits of a group and wait for them, cut
--   like those of a queue; a wait may end at any time, with any result. The History of Egroup.Threads is
--   what such steps make of the bits alone. Conn.Lifetime and Socket.Session take a whole call as a step,
--   since a client's calls come one behind the other.
-- - In Socket.Session a client calls only on sockets that it holds, and holds what lsp_socket gave it
--   until it closes it. Buffer.Deque has the memory of the bytes too: its user writes where lsp_buffer_put
--   and lsp_buffer_push point to, and reads where lsp_buffer_pull does.
-- - In Routing.Sequence and Iflist.Sequence the users call one behind the other, not at once, and every
--   addition to the routes comes with the block that lsp_malloc would return to it, or NULL.
-- - A new block of memory holds what the memory held before at its address.
-- - Where lsp_conn_init frees the pool that it just made, the connections keep the contents that the model
--   gives them: what else the freed block is used for is not modelled. An LSP_ASSERT that fails is a fault.
-- - The loops lsp_list_for and lsp_list_for_back run on fuel, one unit for each node. As much fuel as
--   the list has nodes is enough, and no theorem but that of a freed block ends in a fault there.
-- - The loops of Conn over a queue, of Egroup over its waits and of Log over the rows of a dump run on
--   fuel, one unit for each round, and Core takes as many turns as it is told to; the theorems say how
--   many rounds are enough.
-- - A variable that is read before anything was stored in it is an argument, or `none` where it is a
--   result; a free of such a pointer is a fault.
-- - What other threads make of the bits of an event group during a wait is an argument, a function of
--   the number of the wait and of the bits before it.
-- - A queue's data region is a list of slots, one item to a slot; entry_find gives the byte offsets. A new
--   queue has the slots that lie in the block asked for: the size of the header and the items wraps around at
--   2^64, and the theorems that say what such a queue holds have it below. Writes to the header itself in a
--   block that is too small for it are not modelled.
--
-- Not modelled: the texts of the log messages, and lsp_printmem and lsp_buffer_debug, which only print;
-- functions with an empty body; what lsp_socket.h declares without a body; the fields of a packet's
-- header, which no code reads or writes.
pub mod Prelude
pub mod Types
pub mod LspList
pub mod Routing
pub mod Buffer
pub mod Codes
pub mod Iflist
pub mod Interface
pub mod Queue
pub mod Thread
pub mod Time
pub mod Mutex
pub mod Conf
pub mod Conn
pub mod Core
pub mod Port
pub mod Socket
pub mod Egroup
pub mod Memory
pub mod Log
