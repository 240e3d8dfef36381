-- ===== src/Lib.antt =====
-- Scarlet kernel: verification library.
--
-- The kernel's parts modelled here are those that keep its own bookkeeping:
--
--   Object        kernel/src/object/mod.rs: the kinds of kernel object and their capability casts
--                 (as_stream, as_file and so on). The identity of a shared object is a number.
--   Handle        kernel/src/object/handle/mod.rs: a task's handle table (HandleTable) with the stack of
--                 free handles; Handle/Info is get_object_info and kernel/src/object/introspection.rs.
--   Vm/Area       kernel/src/vm/vmem.rs: areas with inclusive bounds, maps, permissions and regions.
--   Vm/Manager    kernel/src/vm/manager.rs: VirtualMemoryManager, whose maps stand in a BTreeMap
--                 (Common/BTreeMap: an association list in the order of the keys) beside the cache of
--                 the last search. Vm/Manager/Fixed is add_memory_map_fixed and Vm/Manager/Space the
--                 search for free addresses and the statistics.
--   Virtio/Queue  kernel/src/drivers/virtio/queue.rs: a split virtqueue: free descriptors, chains, and
--                 the two rings.
--   Pipe          kernel/src/ipc/pipe.rs: the state that the endpoints of a pipe share, and the calls on
--                 an endpoint. Pipe/System is a pipe with all its open endpoints.
--   Sched/TaskPool
--                 kernel/src/sched/scheduler.rs: TaskPool, the slots that hold the tasks.
--   Sched/Scheduler
--                 kernel/src/sched/scheduler.rs: Scheduler, with its queues for each CPU, the choice of
--                 the next task (run) and waking; the wakers of kernel/src/task/mod.rs on which parents
--                 wait; wait, wake_one and wake_all of kernel/src/sync/waker.rs (Sched/Waker).
--   Elf           kernel/src/task/elf_loader/mod.rs: the headers of an ELF file.
--   Event         kernel/src/ipc/event.rs: events and the filters of their handlers; Event/Queue is the queue
--                 of a task's events (TaskEventQueue) and EventManager's delivery to a task.
--   Ext2/InodeCache
--                 kernel/src/fs/vfs_v2/drivers/ext2/mod.rs: InodeLruCache, hash maps (Common/HashMap) over
--                 a doubly linked list of numbered nodes; Ext2/InodeCache/Lru is the list of inodes
--                 that it stands for.
--
-- A task reaches pipes through handles; its memory manager holds the maps that a device's queue is
-- mapped by. Each part keeps its own state, so the models are separate, and a function of the source
-- with state takes the state and returns it beside its result. A panic is none or a constructor of the
-- result. Machine integers are natural numbers with the wrap of a release build written out.
--
-- Outside the models: the page tables, seen as the log of the calls made to them (which address spaces
-- have a root table is a parameter); locks, volatile accesses and fences; the switch of
-- contexts, so that the models of run and of wait end with the choice of the task to switch to (what the
-- task does once it runs again is its caller's code), and a pipe call that puts its task to sleep ends
-- there, with the task in the wait queue; the memory under areas and rings; file systems but for
-- the cache of inodes, devices and user programs.
--
-- There are two fuels. That of free_desc_chain, whose loop follows links in memory, is the number of
-- descriptors, since a chain of different descriptors is not longer. That of run is the length of the
-- CPU's queue and two more, since each round but the one that adds an idle task, and the last, takes a
-- task from the queue for good.
pub mod Common
pub mod Elf
pub mod Event
pub mod Ext2
pub mod Object
pub mod Pipe
pub mod Handle
pub mod Vm
pub mod Sched
pub mod Virtio
