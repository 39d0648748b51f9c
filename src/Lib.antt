-- ===== src/Lib.antt =====
-- A model of the data structures of prototype-kernel, with the theorems that make them correct.
--
-- The parts, and the files that model them:
--
-- * The array-based lock-free queue (kernel/include/linux/alf_queue.h, kernel/lib/alf_queue.c) is
--   Alf. Alf/Queue has `struct alf_queue` and its allocation and tests, Alf/Ops has `alf_sp_enqueue`,
--   `alf_sc_dequeue`, `alf_mp_enqueue` and `alf_mc_dequeue`. The STORE and LOAD helpers of
--   kernel/include/linux/alf_queue_helpers.h are Alf/Helpers, over the loops of Alf/Shapes, which a
--   STORE and its LOAD share.
-- * The ring queue (kernel/include/linux/ring_queue.h, kernel/lib/ring_queue.c) is RingQueue:
--   RingQueue/State has `struct ring_queue`, its creation, watermark and tests, RingQueue/Ptrs the
--   macros ENQUEUE_PTRS and DEQUEUE_PTRS, RingQueue/Ops the four operations, RingQueue/Api the bulk,
--   burst and one-object calls.
-- * The tests that kernel/lib/alf_queue_test.c runs are AlfTest: AlfTest/Tests has the tests, on the
--   queues of Alf, with fuel for their loops, of which 17 rounds are enough for a queue of 16 slots.
-- * The memory pool (kernel/include/linux/qmempool.h, kernel/mm/qmempool.c) is QMemPool: QMemPool/Ops
--   has its alloc and free paths over two queues of Alf; QMemPool/Queues says what they rely on.
--   QMemPool/Create has its creation and destruction, QMemPool/Cpus the calls of any number of
--   CPUs, one whole call after the other, and QMemPool/Created starts them from a new pool.
-- * Mpmc is what the operations of both queues for several producers and consumers do when any
--   number of threads run them at once: Mpmc/System has the steps of a thread, one shared access
--   each, Mpmc/Protocol what differs between the queues, and Mpmc/Instances the two. A call may ask
--   for no elements where the code lets it; what holds in all reachable states is for threads whose
--   calls all ask for at least one, since a call for none can wait for ever or write a tail back.
-- * The XDP programs of kernel/samples/bpf are Xdp. Xdp/Packet has packets, verdicts and BPF maps,
--   Xdp/Eth the parsing of Ethernet that they share. Xdp/Ddos is xdp_ddos01_blacklist_kern.c, Xdp/Vlan
--   xdp_vlan01_kern.c, Xdp/Ttl xdp_ttl_kern.c, Xdp/RedirectCpu and Xdp/FlowHash
--   xdp_redirect_cpu_kern.c, with the hash of hash_func01.h in Xdp/Hash and the trace points in
--   Xdp/Trace, Xdp/DropPattern xdp_bench02_drop_pattern_kern.c, and Xdp/MemAccess
--   xdp_bench01_mem_access_cost_kern.c.
-- * The user-space tools of kernel/samples/bpf are User, over the system calls on maps of User/Bpf:
--   User/Blacklist and User/Cmdline are xdp_ddos01_blacklist_common.h and
--   xdp_ddos01_blacklist_cmdline.c, User/Cpus and User/Collect are xdp_redirect_cpu_user.c. What they
--   write is read by the programs of Xdp, and what these count is collected by them.
-- * Copy has what the copy loops of both queues share: the loops over a ring index and a table index,
--   for any body, and the two bodies. Fifo is the abstract queue: a list, oldest element first.
--
-- How state and operations are written. A struct is a record, an array of pointers is a list, and a
-- pointer to an object is its address. An operation takes the state and gives `Option` of the
-- result and the state after it: `none` is an access out of range, a BUG, or a loop that did not end
-- on the fuel given. A counter of type u32 is a number below 2 ^ 32, and the sums and differences of
-- counters are `add32` and `sub32` of Base/Words, which wrap. A loop index counts rounds and does
-- not wrap, since the number of rounds is a u32. The numbers of elements that callers pass are any
-- numbers.
--
-- A queue at rest has no operation under way: the tails are equal to the heads. The operations for
-- several producers or consumers are functions, as one CPU runs them, with fuel for the loop around
-- cmpxchg and for the wait, where one round is enough for a queue at rest, and steps of threads in
-- Mpmc. There the counters do not wrap, and the code reads and compares their words; a cmpxchg
-- succeeds only if fewer than 2 ^ 32 elements went by since the head was read. Memory is
-- sequentially consistent: barriers, READ_ONCE and WRITE_ONCE are not in the model. The structs
-- `producer` and `consumer` of an alf_queue are two records of one type.
--
-- A packet is the list of its bytes, a number in network byte order is its value, and a BPF map is
-- what a lookup finds under a key, of one CPU, since the maps of counters are per CPU.
--
-- is_power_of_2, bpf_xdp_adjust_head, inet_pton, the calls on BPF maps of user space, kzalloc,
-- kvmalloc_array, kmalloc_array, the slab allocator and alloc_pages_exact are not of this
-- repository: they are parameters, with what the code relies on as hypotheses.
--
-- Not modelled: the freeing of memory, what the tools print, the other BPF programs and tools of
-- kernel/samples/bpf; ptr_ring.h, skb_array.h and wfc_queue.h of kernel/include/linux, which are copies
-- of other projects; and the benchmarks and other module tests of kernel/lib and kernel/mm, which keep no
-- state of their own.
pub mod Alf
pub mod AlfTest
pub mod Base
pub mod Copy
pub mod Fifo
pub mod Mpmc
pub mod QMemPool
pub mod RingQueue
pub mod User
pub mod Xdp
