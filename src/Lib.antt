-- ===== src/Lib.antt =====
-- Mark3, a real-time kernel in C++ for small processors: a model of the kernel proper (src/ and
-- src/public/) and of two of its libraries, and what they promise.
--
-- A `Thread` is on one `ThreadList` at a time: a ready list of the `Scheduler`, one for each priority;
-- the stop list; or the block list of a semaphore, mutex, notification or event flag. The scheduler
-- finds the highest priority with a ready thread in a bitmap, `PriorityMap`, which the lists keep up to
-- date. Blocking objects move threads between lists and call `Thread::Yield`; a timed wait starts a
-- `Timer`, whose callback takes the thread off the block list. Mailboxes, message queues, condition
-- variables and reader-writer locks are built on semaphores and mutexes.
--
-- The files:
--   PrioMap: src/public/priomapl1.h and priomapl2.h. `Set`, `Clear`, `HighestPriority` are `set`,
--     `clear`, `highest_priority`; PrioMap/Interface is what the scheduler uses of either, and the
--     kernel takes it as an instance argument.
--   LinkedList: src/ll.cpp, its pointers in memory, and when they stand for a list of nodes.
--   ThreadList: src/threadlist.cpp over src/ll.cpp. A ring is the list of its threads from head to
--     tail, which LinkedList refines; ThreadList/Consistent says when the map and the ready lists agree.
--   Kernel/State: the state. Objects, lists and threads are numbers, which stand for addresses.
--   Kernel/Scheduler, Priority, Blocking, Quantum, Stack, Thread: src/scheduler.cpp, blocking.cpp,
--     quantum.cpp and thread.cpp.
--   Kernel/Semaphore, Mutex, TimedMutex, Notify, EventFlag: src/ksemaphore.cpp, mutex.cpp,
--     lockguard.cpp, notify.cpp, eventflag.cpp.
--   Kernel/Timer, TimerList, Expiry: src/timer.cpp, timerlist.cpp and the loop of the timer thread.
--   Kernel/CondVar, ReaderWriter, Message, Mailbox: src/condvar.cpp, readerwriter.cpp, message.cpp,
--     mailbox.cpp.
--   Coroutine: src/coroutine.cpp, cosched.cpp and colist.cpp, over PrioMap/Interface too;
--     Coroutine/Task: the task of src/public/manual.h that runs them.
--   AutoAlloc: src/autoalloc.cpp; the mailbox that is made with it is in Kernel/Mailbox/Creation.
--   Profile: src/profile.cpp. MemUtil: lib/memutil/memutil.cpp. Streamer: lib/streamer/streamer.cpp.
--   Kernel/Quiet, Sound, Choice, Boot, Runs: the invariant, what keeps it, and the runs of the API.
-- Files named Laws, Tags, Moves, Waiting, Keeps, Effects, Order, Deque, Countdown, Expiring, Round,
-- Ring/Writes and the like hold proofs; files named Tests apply the theorems to small systems.
--
-- State and steps: an operation is a function from a `Kernel` to a `Kernel`, with its result. A
-- critical section is one step. A call that blocks takes `others`, what the rest of the system does
-- until the caller runs again; in Kernel/Runs it is a run of the system. A dereference of a null
-- pointer sets `faulted`, a panic is recorded in `panics` and the handler returns, and an assertion is
-- not checked (`KERNEL_DEBUG` is 0), but for the Init of a mailbox that allocates, which takes
-- `KERNEL_DEBUG`. Where the source leaves the shape of a list or the meaning of a shift behind, a flag
-- says so: `misused` for a thread that is removed from a list that it is not on, `broken` for a message
-- that is sent to a queue that holds it, `undefined` for a shift out of the range of an `int`.
--
-- Bounds and fuel: a word of the bitmaps has 2 ^ shift bits, and its scan has one round for each bit; an
-- `int` has 32 bits. The bisection of a stack has a round for each word; the loop of `Notify::Signal`
-- needs as many rounds as there are waiters. The loop of `TimerList::Process` has fuel for the length
-- of the list, which is enough when no timer expires. A broadcast has 255 rounds. A loop of MemUtil
-- that runs to the end of a string has fuel above its length, and is `none` without.
-- Counts of semaphores and masks are natural numbers that the operations keep in range; time counts
-- modulo 2 ^ 32, the recursion of a mutex modulo 256, the free slots of a mailbox modulo 2 ^ 16.
--
-- Not modelled: the ports in src/arch, src/atomic.cpp and src/kernel.cpp, preemption outside the calls
-- of `Thread::Yield`, the callouts, names and IDs of threads, the threads and message pools that come
-- from the heap, the C bindings in lib/mark3c, and stacks that grow up. The functions of the heap and
-- the handlers of coroutines are the program's: they are parameters.
pub mod Prelude
pub mod PrioMap
pub mod Profile
pub mod LinkedList
pub mod ThreadList
pub mod AutoAlloc
pub mod Kernel
pub mod Coroutine
pub mod MemUtil
pub mod Streamer
