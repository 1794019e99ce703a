-- ===== src/Lib.antt =====
-- Parsec: scalable memory reclamation and allocation for multicores.
--
-- The program (a C library) has these parts. Objects with a header (ps_global.h) are cut from slabs by
-- a slab allocator with one set of slabs for each core (ps_slab.h, ps_slab.c); the slabs of a core are
-- in a circular list (ps_list.h), and an object that another core frees goes on a lock-free stack,
-- which its home core empties from time to time. Readers enclose their accesses in parallel sections
-- (ps_enter, ps_exit of ps_smr.h). An object that is freed while others may still read it is queued
-- with the time of the free, and ps_smr.c hands it back to the slab allocator once every section that
-- was open at that time has ended (quiescence). A radix trie (ps_ertrie.h) and namespaces of
-- descriptors (ps_ns.h, ps_ns.c) are built on top.
--
-- Files, and the code they model:
--   Base           names of the libraries passed on, tests on numbers, powers, updates of maps
--   Word           PS_RNDUP of plat/arch/x86/ps_arch_x86_common.h, on words of 64 bits
--   Pow2           ps_rndpow2 of ps_global.h, with the shift of plat/arch/x86_64/ps_arch.h
--   Lock           the atomic operations and the spin lock of the same file
--   Ring           ps_list.h: Ring (struct ps_list, ps_list_ll_*), Ring/Chain (circles of nodes),
--                  Ring/Edit (the node operations), Ring/Object (the macros on objects and the
--                  loops), Ring/Walk (the loops)
--   Header         struct ps_mheader and __ps_mhead_* of ps_global.h
--   Queue          struct ps_qsc_list and __ps_qsc_* of ps_global.h; Queue/Fifo says what they hold
--   Memory         the remaining structures of ps_global.h and struct ps_slab, as one state
--   Parsec         ps_smr.h and ps_smr.c, time stamps: ps_enter, ps_exit, ps_init;
--                  Parsec/Quiesce is ps_quiesce, one round of its loop at a time; Parsec/System lets
--                  the cores take their steps in any order; Parsec/Invariant, Safety, Progress,
--                  Results, Call, Single and Race are about them
--   Smr            __ps_smr_free and __ps_smr_reclaim; Smr/Defs has the contract of the function that
--                  takes memory back; Smr/Batch, Reclaim, Free and Safety follow a free through the
--                  queue; Smr/Slabs puts the slab allocator below it; Smr/Lifecycle is ps_alloc,
--                  ps_free, __ps_memptr_init and __ps_memptr_delete
--   Slab           ps_slab.h and ps_slab.c: sizes, the list of slabs, __ps_slab_init and
--                  __ps_slab_mem_free; Slab/Alloc is __ps_slab_mem_alloc and the processing of remote
--                  frees. Slab/Freelist, Objects, Carve, Init, Core and Whole are about the set-up of
--                  slabs and allocation from them. Slab/Free has the cases of a free, Slab/Unique and
--                  Held say what a client holds and that a state determines it, Slab/Beside and Others
--                  what a free leaves alone, and Slab/Released and Frees put the cases together;
--                  Slab/Remote is about the frees of other cores' objects, Slab/Clear, Remotes, Process
--                  and Rounds about taking them back, Slab/Gives, Serve and Refill about allocations
--                  and what clients hold, Slab/Checks has the checks of PS_SLAB_DEBUG, and
--                  Slab/Stats is ps_slabptr_stats
--   Ert            ps_ertrie.h, for any customisation; Ert/Default has the default functions and Ert/Api
--                  the functions that ERT_CREATE generates. Ert/Shape,
--                  Paths and Digits say what a trie is, Ert/Lookup follows __ert_lookup, Ert/Room and
--                  Allocate have the contract of the allocation function, Ert/Attach, Grow, Expand and
--                  SetLeaf follow __ert_expand, and Ert/Abstract, Create, Refine, Extend and History are about
--                  the trie as a function from identifiers to values
--   Ns             ps_ns.c; Ns/Descriptor has the functions of ps_ns.h, and Ns/Interned plugs the trie of
--                  Ert in: a trie whose leaves are slabs, and lookups of descriptors in it;
--                  Ns/Frontier is about a namespace that has no descriptors left
--   Instance       the functions that __PS_SLAB_CREATE_FNS and __PS_PARSLAB_CREATE_AFNS generate
--   PgAlloc        ps_pgalloc.h, the free list of pages; PgAlloc/Pages is about it
--   RemoteStack    __ps_rfl_stack_push and __ps_rfl_stack_remove_all of ps_global.h, one access to
--                  memory at a time
--   Barrier        meas_barrier of plat/os/linux/ps_os.c, one access to the flags at a time;
--                  Barrier/Safety, Progress and Liveness are about it
--   Plat           ps_tsc, ps_tsc_locality and ps_coreid (ps_os.h and ps_arch_x86_common.h);
--                  Plat/Processor is about them, Plat/Setup is set_prio and thd_set_affinity of
--                  ps_os.c, and Plat/Scheduling what these reach
--   Tests          runs, and the theorems at concrete inputs
--
-- State and operations. A C structure is a record; the field of all structures of one type is a
-- map from addresses to values, and an array a map from the index. Address 0 is NULL. An
-- operation takes the state and gives the new one. A failed assert is none, or aborted in
-- ps_quiesce. Arithmetic on size_t, addresses and time stamps is written with its wrap-around at
-- 2^64. The int counts of the slab allocator (such as the number of objects taken back from a
-- node) have no bound in the model. A name in the model is the C name without leading
-- underscores; a part of a long function that has a name of its own carries a comment that says
-- which part it is.
--
-- The memory of a radix trie is a map from addresses to words; the addresses in use lie a word or more
-- apart. A local variable whose address is taken (r, e, accum) is a word at an address of its own.
--
-- Concurrency. Parsec/System, RemoteStack, Lock and Barrier have every interleaving of the cores.
-- In Parsec/System a step is one round of the loop of ps_quiesce, with its read of the time stamp
-- counter, or a whole ps_enter or ps_exit; the reads of one round are split further in
-- Parsec/Race only. Each read of the counter has a value of its own. Reordering of memory
-- accesses is not modelled. A whole call of ps_try_quiesce takes the values of the counter
-- (clock) and the steps of the other cores between two rounds (others) as parameters. The
-- allocators' own data are sequential: each core has its own.
--
-- Fuel. ps_try_quiesce runs for two rounds for each core, and its theorem shows that this is enough
-- whatever the others do. The loops of ps_list.h take one more unit of fuel than the list has
-- objects. The loop over a remote list in Slab/Alloc takes fuel from its caller, and the length of
-- the list is enough; that over the nodes takes as many rounds as there are nodes, which is shown
-- to be enough. The loops of Slab/Stats and PgAlloc take as much as their lists are long, and one
-- more at most. The loop of __ps_smr_reclaim has its fixed 128 rounds, the loop of __ps_slab_init
-- its number of objects, and those of ps_ertrie.h the levels or slots that they pass.
--
-- Parameters. The numbers of cores and localities; the core's number, its node and the counter
-- where the code asks the processor; the client's alloc and free functions; ps_plat_alloc and
-- ps_plat_free, whose memory is zeroed; the functions that struct ps_ns_info points to, and the
-- allocator of slab heads, in Ns; the calls of the system that ps_os.c makes.
--
-- Not modelled. The creation of namespaces and their use by several cores; parallel expansions of a
-- trie; the generated functions that only pass the static struct ps_mem of an instance on; the
-- calls of the checks of PS_SLAB_DEBUG in the operations; the swaps of ps_pgalloc.h under
-- interference; what the calls of the system and the inline assembly do; the messages that are
-- printed; tests.
mod Base
pub mod Ert
pub mod Header
pub mod Instance
pub mod Lock
pub mod Memory
pub mod Ns
pub mod Parsec
pub mod PgAlloc
pub mod Queue
pub mod RemoteStack
pub mod Ring
pub mod Slab
pub mod Smr
mod Tests
mod Word
mod Barrier
mod Pow2
mod Plat
