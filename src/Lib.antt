-- ===== src/Lib.antt =====
-- The concurrent programs of the repository, which accompany a book on concurrency: small C
-- programs that each implement one lock and use it from several threads to count to a known number.
-- The program prints the counter beside the expected value, and so tests its lock.
--
-- The parts and their files. `Lock` is the interface between a lock and the threads that use it:
-- the functions `lock` and `unlock` of a source file become one step function, an access to shared
-- memory at a time, with the local variables in a data type of places. `Lock/Tokens` derives the
-- laws of a lock of one word. `Worker` is what the sources share: the loop of `count` with the load
-- and the store of `counter += 1`, and `main`, which creates the threads, joins them and prints. A
-- run is a list of actions, each a thread's number and a choice of the environment (a weak
-- compare-exchange that fails, the value of `rand`); so the theorems speak of every interleaving.
-- `main` gives `none` while a thread is running.
--
-- `TestAndSet`, `Exchange` and `CompareExchange` model the locks of one word, a child for each file
-- of spinlocks/ and hardware/ and for transactional/intel/mutex_hle.c: `step` is the file's `lock`
-- and `unlock`, `lock` its shared variables, `count` and `main` the functions of these names.
-- `Delay` compares the three copies of `backoff`.
--
-- `Ticket` models ticket_lock.c, ticket_lock_yield.c and hardware/counter_get_and_add.c, whose
-- numbers wrap round at 2^16 and 2^32; `Lock/Tickets` derives the laws of a lock from the queue of
-- threads that the tickets stand for. `Transactional` models the spin locks of transactional/
-- around an array of counters or around readers and writers; what a round does with the counters is
-- a `Task` of `Worker`. `Mutex` models semaphores/mutex.c, semaphores/semaphore.c and
-- transactional/array_mutex.c, over pthread mutexes or POSIX semaphores that are parameters with
-- their documented laws; `Mutex/Gate` derives the laws of a lock from the initial value and the
-- calls. `Atomic` models the programs whose rounds are one atomic add, or one transaction of the
-- compiler or of tinySTM, which takes effect as a whole or is aborted and tried again. `Rtm` models
-- transactional/intel/mutex_rtm.c, array_rtm.c and rw_rtm.c: a round in a hardware transaction that
-- the environment may abort with any status, or under the spin lock after ten tries at most; what
-- the processor's intrinsics say of a status is a parameter. `RwLock` models spinlocks/rw_lock.c,
-- its readers and writers, in a system of its own, since readers stand in the critical section
-- together. `Peterson` models intro/peterson.c. `Stack` models hardware/stack_cas_tagged.c over a
-- store of nodes, with `malloc` a parameter; its history of pushes and pops is replayed on two
-- lists. `Futex` models futex/simple_mutex.c and futex/mutex_drepper.c over the kernel's futex, a
-- parameter with the documented laws of `FUTEX_WAIT` and `FUTEX_WAKE`; a wait may be interrupted.
-- `QueueLock` models spinlocks/clh_spinlock.c and spinlocks/clh_spinlock_yield.c, with the fields
-- of the nodes by address and `malloc` a parameter; `Lock/Line` is the queue as the links tell it,
-- and `Lock/Stutter` derives the laws of a lock that yields from those of the lock that does not.
-- `ArrayLock` models spinlocks/array_lock_variable_size.c, with the padding and the bytes of the
-- new memory as parameters, and spinlocks/array_lock.c, which is compared with it: static memory
-- holds zeros, and `malloc` promises none. `Race` models intro/counter.c and intro/counter_local.c,
-- which count with no lock.
--
-- Memory is sequentially consistent, an access at a time: the programs are compiled without
-- optimisation, so each read in a loop is a read of memory, and a fence has no effect of its own.
-- Counters are natural numbers: the expected counts lie far below the bound of an int, and the
-- counter never exceeds the expected count. A shift by a negative number, which `backoff` may come
-- to, gives `none`, and the thread goes on as after any sleep. No fuel is used in the programs: a
-- run is as long as its list of actions. That a run can end is proved by a measure of the steps
-- that the threads still need.
--
-- Not modelled: the printed texts but the counter's value, failures of pthread_create, weaker
-- memory orders, and time; spinlocks/mcs_spinlock.c and its copy with a yield,
-- spinlocks/ticket_rw_lock.c, intro/bakery.c, intro/fast.c and intro/threads.c, the stacks with no
-- tag, the other files of futex/, the monitors and barriers, and
-- transactional/intel/array_rtm_tinystm.c. The Go, Java and Python programs, tinySTM (a copy of
-- another project) and the measurements are left out.
pub mod Base
pub mod Lock
pub mod Worker
pub mod TestAndSet
pub mod Exchange
pub mod CompareExchange
pub mod Delay
pub mod Ticket
pub mod Transactional
pub mod Mutex
pub mod Atomic
pub mod Rtm
pub mod RwLock
pub mod Peterson
pub mod Stack
pub mod Futex
pub mod QueueLock
pub mod ArrayLock
pub mod Race
