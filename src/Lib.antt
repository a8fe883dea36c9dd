-- ===== src/Lib.antt =====
-- Functions of the Xen hypervisor and of Mini-OS, as the repository's C files have them.
--
-- Each C file stands for itself: it declares the types it needs and the functions of other files it
-- calls. The parts meet where one calls another only inside a file, so each has a module of its own:
--
-- * string_verified.c, the string functions: CString. CString/Memory has the memory, a function from
--   addresses to bytes, and what a string is; CString/Copy has memcpy, memset, strcpy, strncpy and
--   strcat; CString/Compare has memcmp, strncmp and strcmp; CString/Scan has strlen, strnlen,
--   strchr, strrchr, strstr and strdup, which measures with strlen and copies with memcpy;
--   CString/Ffs has ffs and __ffsti2, behind which __ffsdi2, ffsl and ffsll only cast.
-- * lock_verified.c, the locks of Mini-OS: Lock. Lock.antt has each ___lock_ function; Lock/Threads
--   has the plain lock as a step relation of threads on one processor, one step for each access
--   to the lock word or the interrupt flag; Lock/Nested has the recursive lock in the same way.
--   Whether local_irq_save and local_irq_restore, which are empty there, turn interrupts off and
--   back is a parameter of both, as are whether only a thread that has the plain lock releases it,
--   and the count that ___lock_init_recursive finds and does not write.
-- * srat_verified.c, the NUMA tables of ACPI: Srat. Srat/Tables has the static tables; Srat/Pxm has
--   pxm_to_node, setup_node and node_to_pxm; Srat/Memblks has valid_numa_range,
--   conflicting_memblks and cutoff_node; Srat/Slit has slit_valid and __node_distance; Srat/Cover
--   has nodes_cover_memory; Srat/Affinity has bad_srat and the three callbacks for SRAT entries,
--   which use all of these; Srat/Scan has acpi_scan_nodes, which cuts, checks and registers the
--   nodes, and Srat/Regions srat_parse_regions and acpi_numa_slit_init.
-- * vm_event_verified.c, the handling of VM events: VmEvent. VmEvent.antt has the structures;
--   VmEvent/Lifetime has vm_event_init_domain and vm_event_cleanup_domain; VmEvent/Respond has the
--   functions that handle a response; VmEvent/Segment has hvm_get_segment_register and
--   vm_event_pack_segment_register.
-- * monitor_verified.c, what of a domain is monitored: Monitor. Monitor.antt has the structures;
--   Monitor/Msr has the bitmaps for model-specific registers; Monitor/Domctl has
--   arch_monitor_domctl_event, which uses them.
-- * microcode_amd_verified.c, patches for AMD processors: Microcode, with collect_cpu_info,
--   verify_patch_size, find_equiv_cpu_id, microcode_fits and container_fast_forward; Microcode/Load has
--   get_ucode_from_buffer_amd, install_equiv_cpu_table, check_final_patch_levels, apply_microcode,
--   cpu_request_microcode and microcode_resume_match.
-- * intel_verified.c, updates for Intel processors: Intel, with the checks and the match of an update,
--   and Intel/Loop with get_next_ucode_from_buffer and the loop of cpu_request_microcode over a
--   buffer of updates.
-- * irq_verified.c, the 8259A interrupt controllers: Irq. Irq.antt has the cached mask, the writes to
--   the ports, and the functions that disable, enable, acknowledge, suspend and resume; Irq/Setup has
--   init_8259A, make_8259A_irq and init_IRQ.
-- * percpu_verified.c, the areas of the processors: PerCpu, with the order of an allocation and the
--   callback that takes and frees an area.
-- * i387_verified.c, the floating-point unit: Fpu, with the lazy restore and the saves
--   of a vcpu's state.
-- * apic_verified.c, the local interrupt controller: Apic, on an interface to its registers.
-- * trace_verified.c, the records of traps and faults in the trace: Trace.
-- * gdbstub_verified.c, the debugger's stub: Gdb, with the copies and the registers of a resume.
-- * mm_verified.c, the references and types of pages: Mm, on an interface to the pages.
-- * sched_verified.c, the stacks of Mini-OS threads: Sched, with arch_create_thread and dump_stack;
--   Sched/Words has the longs in a memory of bytes.
-- * xstate_verified.c, the features of the extended state: Xstate, with set_xcr0 and xstate_set_init.
-- * mapcache_verified.c, the sizes and places of a mapping: MapCache.
-- * time_verified.c, the timers: Timing, with the count of the platform timer and the waits of
--   the check of the time-stamp counters, over the calls that they make.
--
-- Prelude has the tests on numbers, signed integers, lists and the digits of numbers that the others
-- share; Tests runs the theorems at concrete inputs.
--
-- Numbers. A w-bit unsigned value is a natural number, and its wrap-around is written out as % 2 ^ w;
-- a signed result is an integer. A char is signed, an int has 32 bits, a long and a pointer 64.
--
-- Faults. A function that can run off a table, go through a null pointer or fail to end returns an
-- Option, or a type of its own: none is a run that does one of these, as is one that ends without the
-- value it returns. The tables of srat_verified.c fault behind their bounds, and a read of a buffer of
-- the microcode files faults behind the number of bytes that can be read there, an argument. The string
-- functions have one flat memory: an address outside of every object is not told apart from one inside.
--
-- Loops. A loop with a counter is recursion on the rounds that are left. The loops of strcpy,
-- strcat, strcmp, strlen, strrchr, strstr and of the locks have fuel; the theorems on strings ask
-- for more fuel than the strings have bytes, and then the functions return. The loop of
-- nodes_cover_memory takes its fuel from the gap, whose size is enough: each round but the last
-- makes it smaller. The loops of find_equiv_cpu_id and container_fast_forward have fuel, and
-- return with more of it than the table has entries and the buffer bytes, the second where its reads are
-- no fault. The loop of init_IRQ
-- has fuel, and returns with more of it than there are legacy lines. The waits of tsc_check_slave and
-- tsc_check_reliability have fuel, and return with more of it than the polls that they need. The loop of
-- cpu_request_microcode of intel_verified.c has fuel, and its result tells a run that used it up
-- from one that faults. get_order_from_bytes has fuel for every size. ffs and __ffsti2 run on the
-- number of digits.
--
-- Parameters. malloc answers as a function of the size or of the number of the call; get_current,
-- srat_disabled, node_test_and_set, test_bit and the members of hvm_funcs are arguments, as are
-- the functions that monitor_verified.c declares without a body, and its unlikely. For
-- irq_verified.c, inb is a function of the writes so far, and irq_to_desc and platform_legacy_irq
-- are functions; a call of outb is noted in the state, as are the calls of the allocator in
-- percpu_verified.c and those that stand for instructions in i387_verified.c. apic_verified.c
-- runs on an interface to the registers, and mm_verified.c on one to the pages; their theorems
-- take the laws. In trace_verified.c the numbers of the events are arguments. For the microcode
-- files, what cpuid, the model-specific registers, malloc and _xmalloc answer are arguments, as
-- is what a local pointer that nothing writes leads to; an unsigned long of intel_verified.c has
-- as many bytes as an argument says. What the functions that time_verified.c
-- only declares answer depends on the calls so far. A local that nothing writes is an argument too.
-- printk and the VCC annotations have no effect. The wait
-- queue of the locks has no state, as its functions are empty in that file.
--
-- Not modelled: dec_linear_entries and dec_linear_uses of mm_verified.c, whose updates are commented
-- out; functions with empty bodies, which change nothing; the structures of mapcache_verified.c,
-- which no function uses; and the file gdstub.c, the functions of gdbstub_verified.c before they
-- were annotated.
pub mod Prelude
pub mod CString
pub mod Apic
pub mod Fpu
pub mod Gdb
pub mod Intel
pub mod Irq
pub mod Lock
pub mod Srat
pub mod Timing
pub mod Trace
pub mod Microcode
pub mod MapCache
pub mod Mm
pub mod Monitor
pub mod PerCpu
pub mod Sched
pub mod VmEvent
pub mod Xstate
mod Tests
