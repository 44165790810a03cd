-- ===== src/Lib.antt =====
-- A verification library for the system programming course work of this repository.
--
-- Memlib (Lab/lab3/malloclab-handout/src/memlib.c) is the simulated memory system: the start, the
-- break and the end of a storage. Malloc (Lab/lab3/malloclab-handout/src/mm.c) is the allocator on
-- top of it, which asks `mem_sbrk` for memory, tags its blocks with header and footer, and keeps the
-- free ones in a doubly linked list. The copies of the two files in the submission folder are the
-- same code.
--
-- Malloc.antt has the operations by the names of the C functions; where a function is long, its
-- tail is a definition of its own (`place_sized` and `split_block` of `place`, `malloc_found` of
-- `mm_malloc`, and so on). Malloc/Words.antt has the macros and the state: the memory is a function
-- from addresses to words of 32 bits, as the program is compiled for a 32-bit machine and mm.c
-- accesses whole words only, and a `Heap` has the words, the break of Memlib and the two globals
-- `heap_listp` and `freelist_head`. Sums of size_t wrap at 2 ^ 32 as written; sums of pointers do
-- not. The one loop, in `find_fit`, runs on fuel, a unit for each byte of the heap: there are
-- fewer free blocks than that. `none` as the result of `mm_malloc` and `mm_realloc` would be a loop
-- out of fuel; NULL is address 0.
--
-- The well-formed heaps are `Inv` of Malloc/Invariant.antt: a row of blocks (Malloc/Layout.antt)
-- fills the heap between prologue and epilogue, no two neighbours are free, and the free list
-- (Malloc/Links.antt, Malloc/FreeList.antt) is linked in both directions and has just the free
-- blocks. Malloc/Region.antt and Malloc/Stands.antt say what a write to a tag leaves alone.
-- Malloc/Coalesce, Place, Free, Extend, Fit, Init, Alloc and Realloc are about the function of that
-- name; Malloc/Payload.antt is about the callers' writes; Malloc/Session.antt puts all of it into
-- sequences of calls, next to an abstract map from pointers to sizes. Malloc/Tests.antt and
-- Malloc/Examples.antt, and Tests.antt for Memlib, run the code on concrete heaps.
--
-- Driver (Lab/lab3/malloclab-handout/src/mdriver.c) replays traces on the allocator. Driver/Ranges.antt
-- has its list of payload ranges, Driver/Replay.antt its runs `eval_mm_valid`, `eval_mm_util` and
-- `eval_mm_speed` over the definitions of Malloc, each as a loop over the operations with a function
-- for each case of the switch, and Driver/Replay/Libc.antt the runs on libc's allocator, which is a
-- parameter. A message or an exit of the driver is a value (`Check`). Driver/Replay/Traces.antt has
-- the traces that may be replayed and their payload, Driver/Replay/Tracked.antt the ownership of
-- blocks by ids, Driver/Replay/Consistent.antt the state in the middle of a run, and
-- Driver/Replay/Full.antt the places where a run stops for want of memory, and
-- Driver/Replay/Valid, HighIds, Util and Speed the runs themselves; Malloc/Growth.antt is about the
-- break.
-- Driver/Tracefile.antt is `read_trace` on the bytes of a file, with numbers as a 32-bit machine stores
-- them, whose loop runs on fuel, a unit for each
-- byte and one more; Driver/Tracefile/Spelling.antt and Files.antt are about files by a grammar,
-- Driver/Tracefile/Ends.antt is about the fuel.
--
-- Timing.antt (Lab/lab3/malloclab-handout/src/fcyc.c) is the sampling of running times that the driver
-- uses, for given times; its loop runs on fuel, a unit for each sample that may be taken and one more.
-- Timing/Tuning.antt has its settings and `clear`, whose loop has a unit of fuel for each int of the
-- buffer and one more; Timing/Tuning/Clear.antt is about the ints that it reads.
--
-- Shell (Lab/lab2/shlab/tsh.c, the same file as in the submission folder) is the shell: Shell/Jobs.antt
-- has its job list and the functions on it, by their names, with `nextjid` in the state; a slot's
-- pointer is the job in it. Shell/Jobs/Table.antt reads the list as a finite map from process IDs,
-- Shell/Jobs/Numbers.antt is about the job IDs. Shell/Parse.antt has `parseline`, whose loop runs on
-- fuel, a unit for each byte of the line and one more; Shell/Parse/Grammar.antt is the grammar of
-- command lines. Where the code writes past the end of `argv`, the result is `out_of_bounds`.
-- Shell/Input.antt is the loop of `main` that reads lines by `fgets` and hands them to `eval`, on fuel, a
-- unit for each byte of the input and one more; what goes on while `waitfg` waits is an argument; Shell/Jobs/Listing.antt is what `listjobs` prints.
--
-- Shell/Control.antt has `eval`, the built-in commands and the signal handlers as functions on the job
-- list, the place where the shell is (`Mode`) and the signals it has sent; what `fork`, `kill` and
-- `waitpid` return is an argument. `Reach` of Shell/Control/Foreground.antt is what can happen to the
-- shell in any order, a step for each command, signal and wake-up; a signal inside `do_bgfg` is left
-- out. Shell/Control/Waiting.antt is about the job list, Shell/Control/Listed.antt about its listing, Shell/Control/Wakes.antt about the end of
-- `waitfg`.
--
-- Memtrace (Lab/lab1/linklab/handout) traces a program's allocations: Memtrace/Memlist.antt is
-- utils/memlist.c, the list of blocks, which Memtrace/Memlist/Sorted.antt reads as a finite map, and
-- Memtrace/Tracer.antt has the wrappers of part3/memtrace.c, which call it and keep the statistics
-- that Memtrace/Tracer/Balance.antt is about;
-- Memtrace/Tracer/Part1.antt has the wrappers of part1/memtrace.c, which only count, and
-- Memtrace/Tracer/Part2.antt the `free` of part2/memtrace.c, whose other wrappers are those of part 3. What libc returns is an argument of the wrappers.
--
-- Proxy/Cache.antt (Lab/lab5/proxylab-handout/cache.c) is the web cache of the proxy, a doubly linked
-- list of entries at addresses, the most recent first, with its mutex; the loops run on fuel, a unit
-- for each entry and one more. Proxy/Cache/Links.antt is about lists linked in both directions, and
-- Proxy/Cache/Lru.antt with its children reads the list as a sequence of entries.
--
-- Proxy/Request.antt and Proxy/Forward.antt (Lab/lab5/proxylab-handout/proxy.c) are the threads of the
-- proxy: the first has `parse_request` and `trim` with what they use of `sscanf` and `strtok`, the
-- second `forward_request`, `forward_response`, `forward_cached_response` and `proxy_thread`, which
-- calls the operations of Proxy/Cache.antt. The lines of the client and the answers of the server
-- are arguments; the threads run one after the other. Proxy/Request/Scan.antt is about the library
-- calls, Url.antt, Headers.antt and Grammar.antt beside it are a grammar of requests, and
-- Lengths.antt says how long the parts of a request are. Proxy/Forward/Sent.antt is about the bytes
-- for the server, Relayed.antt about those for the client, Threads.antt, Again.antt and Reach.antt
-- about threads on the cache. Common/Text.antt has the texts.
--
-- Kernel (Lab/lab4/2019-11730_kernellab) has the two kernel modules, with the kernel as a parameter:
-- Kernel/Paddr.antt is the page walk of paddr/dbfs_paddr.c, which Kernel/Paddr/Walk.antt is about, by
-- the laws of masks in Kernel/Bits.antt; Kernel/Ptree.antt is the walk to init of ptree/dbfs_ptree.c,
-- with fuel, a unit for each task on the path or each byte of the buffer, which
-- Kernel/Ptree/Paths.antt is about; Kernel/Ptree/Load.antt has the loading of both.
--
-- Counter.antt (Homework/Semaphores) has the threads of goodcnt.c and badcnt.c as steps on a shared
-- state, run by a schedule; Counter/Exclusion.antt is about goodcnt.c under every schedule, and
-- Counter/Tests.antt has a schedule under which badcnt.c loses an update.
--
-- Not modelled: `mm_check`, which only prints, `mem_deinit` and `mem_pagesize`, which only call
-- libc, what the tracer, the cache, the proxy and the driver print, the messages of the shell but
-- for the listing of its jobs, the driver's `main`, the child's side of the shell's `eval`, the
-- clocks and timers of the driver, the CS:APP library csapp.c, whose results are arguments, two
-- threads of the proxy at once, and the other programs of the repository.
pub mod Common
pub mod Counter
pub mod Driver
pub mod Kernel
pub mod Malloc
pub mod Memlib
pub mod Memtrace
pub mod Proxy
pub mod Shell
pub mod Tests
pub mod Timing
